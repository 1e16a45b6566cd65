-- ===== src/Filings/Service.antt =====
-- The filing runs and their state machine (backend/app/filings/service.py). A session is the table
-- `filing_run` with the audit log. Building a payload (gstr1_generator.py, gstr3b_generator.py) reads
-- the database, and is a parameter. A request that raises is rolled back.
pub mod Final
use niyam_ai.Base.{
  ℕ, Bool, true, false, ◌&&◌, Option, none, some, List, [], ◌∷◌, ◌++◌, map, Text, text_eq, ◌==◌,
  if◌then◌else◌,
}

pub data FilingStatus : Type 0 where
  draft approved filed : FilingStatus

pub data ReturnType : Type 0 where
  gstr1 gstr3b : ReturnType

pub data Action : Type 0 where
  filing_approved filing_unlocked filing_filed filing_generated filing_regenerated : Action

pub data Refusal : Type 0 where
  filing_not_found invalid_transition filing_locked unknown_return_type : Refusal
  -- the primary key of the table
  id_taken : Refusal

pub record FilingRun (P : Type 0) : Type 0 where
  pub id : ℕ
  pub gstin_profile_id : ℕ
  pub period : Text
  pub return_type : ReturnType
  pub status : FilingStatus
  pub payload : P
  pub generated_by : Option ℕ

pub record AuditEntry : Type 0 where
  pub action : Action
  pub actor_user_id : Option ℕ
  pub entity_id : ℕ

pub record Session (P : Type 0) : Type 0 where
  pub runs : List (FilingRun P)
  pub audit : List AuditEntry

pub data Result (P : Type 0) : Type 0 where
  done : Session P → Result P
  refused : Refusal → Result P

-- `_ALLOWED_TRANSITIONS`
unfoldable pub allowed_transition : FilingStatus → FilingStatus → Option Action
allowed_transition draft approved = some filing_approved
allowed_transition approved draft = some filing_unlocked
allowed_transition approved filed = some filing_filed
allowed_transition _ _ = none

abbrev pub return_type_eq : ReturnType → ReturnType → Bool
return_type_eq gstr1 gstr1 = true
return_type_eq gstr3b gstr3b = true
return_type_eq _ _ = false

abbrev pub record_action : Action → Option ℕ → ℕ → List AuditEntry → List AuditEntry
record_action action user id log =
    log ++ (record { action = action; actor_user_id = user; entity_id = id }) ∷ []

module _ {P : Type 0} where
  -- `SELECT … WHERE id = :id`
  unfoldable pub find_run : ℕ → List (FilingRun P) → Option (FilingRun P)
  find_run id [] = none
  find_run id (r ∷ rs) = let rest = find_run id rs in if r.id == id then some r else rest

  -- `UPDATE … WHERE id = :id`
  unfoldable pub update_run :
      ℕ → (FilingRun P → FilingRun P) → List (FilingRun P) → List (FilingRun P)
  update_run id f [] = []
  update_run id f (r ∷ rs) = (if r.id == id then f r else r) ∷ update_run id f rs

  -- `SELECT … WHERE gstin_profile_id = :gid AND period = :p AND return_type = :rt`
  unfoldable pub find_existing : ℕ → Text → ReturnType → List (FilingRun P) → Option (FilingRun P)
  find_existing gid period rt [] = none
  find_existing gid period rt (r ∷ rs) =
      let rest = find_existing gid period rt rs in
      if r.gstin_profile_id == gid && text_eq r.period period && return_type_eq r.return_type rt
      then some r
      else rest

  unfoldable pub transition : ℕ → FilingStatus → Option ℕ → Session P → Result P
  transition id to_status user s = elim (find_run id s.runs) [
    | none ↦ refused filing_not_found
    | some row ↦ elim (allowed_transition row.status to_status) [
      | none ↦ refused invalid_transition
      | some action ↦ done (record {
        runs = update_run id (λ r. record r { status = to_status }) s.runs;
        audit = record_action action user id s.audit;
      })
    ]
  ]

  unfoldable pub approve : ℕ → Option ℕ → Session P → Result P
  approve id user s = transition id approved user s

  unfoldable pub unlock : ℕ → Option ℕ → Session P → Result P
  unlock id user s = transition id draft user s

  unfoldable pub mark_filed : ℕ → Option ℕ → Session P → Result P
  mark_filed id user s = transition id filed user s

  -- The row of the table's defaults; `id` is the one that the database makes.
  abbrev pub new_run : ℕ → ℕ → Text → ReturnType → P → Option ℕ → FilingRun P
  new_run id gid period rt payload user = record {
    id = id;
    gstin_profile_id = gid;
    period = period;
    return_type = rt;
    status = draft;
    payload = payload;
    generated_by = user;
  }

  -- `existing.status != "draft"`
  abbrev pub is_draft : FilingRun P → Bool
  is_draft r = elim r.status [ draft ↦ true | _ ↦ false ]

  module _ (build : ReturnType → ℕ → Text → P) where
    -- `none` is a return type of another name.
    unfoldable pub generate_filing :
        ℕ → ℕ → Text → Option ReturnType → Option ℕ → Session P → Result P
    generate_filing new_id gid period none user s = refused unknown_return_type
    generate_filing new_id gid period (some rt) user s = elim (find_existing gid period rt s.runs) [
      | some existing ↦ elim (is_draft existing) [
        | false ↦ refused filing_locked
        | true ↦ done (record {
          runs =
              update_run existing.id
                (λ r. record r { payload = build rt gid period; generated_by = user }) s.runs;
          audit = record_action filing_regenerated user existing.id s.audit;
        })
      ]
      | none ↦ elim (find_run new_id s.runs) [
        | some taken ↦ refused id_taken
        | none ↦ done (record {
          runs = s.runs ++ new_run new_id gid period rt (build rt gid period) user ∷ [];
          audit = record_action filing_generated user new_id s.audit;
        })
      ]
    ]

-- The requests of the API, in the order in which they are served.
pub data Request : Type 0 where
  approving unlocking filing : (id : ℕ) (user : Option ℕ) → Request
  generating : (new_id gid : ℕ) (period : Text) (rt : Option ReturnType) (user : Option ℕ) → Request

module _ {P : Type 0} (build : ReturnType → ℕ → Text → P) where
  unfoldable pub serve : Request → Session P → Result P
  serve (approving id user) s = approve id user s
  serve (unlocking id user) s = unlock id user s
  serve (filing id user) s = mark_filed id user s
  serve (generating new_id gid period rt user) s = generate_filing build new_id gid period rt user s

  abbrev pub after : Session P → Result P → Session P
  after s (done s') = s'
  after s (refused why) = s

  unfoldable pub serve_all : List Request → Session P → Session P
  serve_all [] s = s
  serve_all (q ∷ qs) s = serve_all qs (after s (serve q s))
