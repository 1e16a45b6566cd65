-- ===== src/Tests/Filing.antt =====
-- Filings that are requested, approved and filed.
use niyam_ai.Base.{ℕ, ◌≡◌, ◌≢◌, refl, none, some, List, [], ◌∷◌, arith, IsUnique, codes, Text}
use niyam_ai.Filings.Service.{
  draft, approved, filed, ReturnType, gstr1, gstr3b, FilingRun, Session, Request, approving,
  unlocking, filing, generating, done, allowed_transition, find_run, update_run, find_existing,
  transition, approve, unlock, mark_filed, generate_filing, serve, serve_all,
}
use niyam_ai.Filings.Service.Final.{ids, serve_all_filed}

abbrev first : FilingRun ℕ
first = record {
  id = 1;
  gstin_profile_id = 7;
  period = codes "202606";
  return_type = gstr1;
  status = filed;
  payload = 100;
  generated_by = none;
}

abbrev second : FilingRun ℕ
second = record first { id = 2; return_type = gstr3b; status = draft }

abbrev session : Session ℕ
session = record { runs = first ∷ second ∷ []; audit = [] }

abbrev build : ReturnType → ℕ → Text → ℕ
build rt gid period = 200

abbrev requests : List Request
requests =
    unlocking 1 none
    ∷ generating 3 7 (codes "202606") (some gstr1) none
    ∷ generating 3 7 (codes "202606") (some gstr3b) none
    ∷ approving 2 none
    ∷ filing 2 none
    ∷ []

served :
    (find_run 2 (serve_all build requests session).runs)
    ≡ some (record second { status = filed; payload = 200 })
unfolding find_run serve_all serve transition approve mark_filed generate_filing find_existing
    update_run allowed_transition unlock
served = refl

session-IsUnique : IsUnique (ids session.runs)
session-IsUnique a = ground arith

found-first : find_run 1 session.runs ≡ some first
unfolding find_run
found-first = refl

serve_all_filed_example :
    (find_run 1 (serve_all build requests session).runs ≡ some first)
    × IsUnique (ids (serve_all build requests session).runs)
serve_all_filed_example =
    serve_all_filed build requests session first session-IsUnique found-first refl

approves : (s' : Session ℕ) × (transition 2 approved none session ≡ done s')
unfolding transition find_run update_run allowed_transition unlock
approves = (_, refl)

other_id : ◌≢◌ {A = ℕ} 1 2
other_id h = omega (arith, h)
