-- ===== src/Filings/Service/Final.antt =====
-- What the state machine of the filings guarantees (backend/app/filings/service.py).
use niyam_ai.Base.{
  ℕ, ◌+◌, ◌≤◌, ◌≡◌, ◌≢◌, refl, sym, subst, ◌∙◌, Option, none, some, List, [], ◌∷◌, ◌++◌, map, arith,
  Text, count, IsUnique, ◌==◌, Option-cases, Bool-cases, inl, inr, if◌then◌else◌,
}
use niyam_ai.Filings.Service.{
  FilingStatus, draft, approved, filed, ReturnType, FilingRun, Session, Result, done, refused,
  allowed_transition, find_run, update_run, find_existing, transition, approve, unlock, mark_filed,
  generate_filing, new_run, is_draft, Request, approving, unlocking, filing, generating, serve,
  after, serve_all,
}

module _ {P : Type 0} where
  abbrev pub ids : List (FilingRun P) → List ℕ
  ids = map (λ r. r.id)

  -- An update that keeps the identifiers.
  abbrev KeepsId : (FilingRun P → FilingRun P) → Type 0
  KeepsId f = (r : FilingRun P) → (f r).id ≡ r.id

  count-ids :
      (a id : ℕ) (f : FilingRun P → FilingRun P) (rs : List (FilingRun P))
      → KeepsId f
      → count a (ids (update_run id f rs)) ≡ count a (ids rs)
  unfolding update_run
  count-ids a id f [] keeps = refl
  count-ids a id f (r ∷ rs) keeps = ground (arith, count-ids a id f rs keeps, keeps r)

  find_run-update_run_other :
      (j id : ℕ) (f : FilingRun P → FilingRun P) (rs : List (FilingRun P))
      → KeepsId f
      → j ≢ id
      → find_run j (update_run id f rs) ≡ find_run j rs
  unfolding find_run update_run
  find_run-update_run_other j id f [] keeps ne = refl
  find_run-update_run_other j id f (r ∷ rs) keeps ne =
      ground (arith, find_run-update_run_other j id f rs keeps ne, keeps r)

  find_run-update_run :
      (id : ℕ) (f : FilingRun P → FilingRun P) (rs : List (FilingRun P)) (r : FilingRun P)
      → KeepsId f
      → find_run id rs ≡ some r
      → find_run id (update_run id f rs) ≡ some (f r)
  unfolding find_run update_run
  find_run-update_run id f [] r keeps h = cc
  find_run-update_run id f (x ∷ rs) r keeps h =
      ground (arith, find_run-update_run id f rs r keeps, keeps x)

  find_run-id :
      (id : ℕ) (rs : List (FilingRun P)) (r : FilingRun P) → find_run id rs ≡ some r → r.id ≡ id
  unfolding find_run
  find_run-id id [] r h = cc
  find_run-id id (x ∷ rs) r h = ground (arith, find_run-id id rs r)

  find_run-count :
      (id : ℕ) (rs : List (FilingRun P)) (r : FilingRun P)
      → find_run id rs ≡ some r
      → 1 ≤ count id (ids rs)
  unfolding find_run
  find_run-count id [] r h = cc
  find_run-count id (x ∷ rs) r h = ground (arith, find_run-count id rs r)

  find_run-append :
      (id : ℕ) (rs qs : List (FilingRun P)) (r : FilingRun P)
      → find_run id rs ≡ some r
      → find_run id (rs ++ qs) ≡ some r
  unfolding find_run
  find_run-append id [] qs r h = cc
  find_run-append id (x ∷ rs) qs r h = ground (arith, find_run-append id rs qs r)

  count-absent : (id : ℕ) (rs : List (FilingRun P)) → find_run id rs ≡ none → count id (ids rs) ≡ 0
  unfolding find_run
  count-absent id [] h = refl
  count-absent id (x ∷ rs) h = ground (arith, count-absent id rs)

  -- With unique identifiers the row that a key finds is the row of its identifier.
  find_existing-find_run :
      (gid : ℕ) (period : Text) (rt : ReturnType) (rs : List (FilingRun P)) (e : FilingRun P)
      → IsUnique (ids rs)
      → find_existing gid period rt rs ≡ some e
      → find_run e.id rs ≡ some e
  unfolding find_existing find_run
  find_existing-find_run gid period rt [] e u h = cc
  find_existing-find_run gid period rt (x ∷ rs) e u h =
      let rest = find_existing-find_run gid period rt rs e (λ a. omega (arith, u a)) in
      ground (arith, rest, find_run-count e.id rs e, u e.id)

  count-ids_append :
      (a : ℕ) (rs : List (FilingRun P)) (fresh : FilingRun P)
      → count a (ids (rs ++ fresh ∷ [])) ≡ count a (ids rs) + (if fresh.id == a then 1 else 0)
  count-ids_append a [] fresh = ground arith
  count-ids_append a (x ∷ rs) fresh = ground (arith, count-ids_append a rs fresh)

  append-IsUnique :
      (rs : List (FilingRun P)) (fresh : FilingRun P)
      → IsUnique (ids rs)
      → find_run fresh.id rs ≡ none
      → IsUnique (ids (rs ++ fresh ∷ []))
  append-IsUnique rs fresh u free a =
      ground (arith, u a, count-ids_append a rs fresh, count-absent fresh.id rs free)

  -- A request that changes the status of a filing: the filing is there, the change is one of the
  -- three that are allowed, the status is all that changes of it, and no other filing changes.
  transition_moves :
      (id : ℕ) (to : FilingStatus) (user : Option ℕ) (s s' : Session P) (j : ℕ)
      → transition id to user s ≡ done s'
      → j ≢ id
      → (row : FilingRun P) × (find_run id s.runs ≡ some row)
        × (allowed_transition row.status to ≢ none)
        × (find_run id s'.runs ≡ some (record row { status = to }))
        × (find_run j s'.runs ≡ find_run j s.runs)
  unfolding transition
  transition_moves id to user s s' j h ne = elim (Option-cases (find_run id s.runs)) [
    | inl missing ↦ absurd (ground arith)
    | inr (row, found) ↦ elim (Option-cases (allowed_transition row.status to)) [
      | inl forbidden ↦ absurd (ground arith)
      | inr (action, allowed) ↦
          let moved =
            find_run-update_run id (λ r. record r { status = to }) s.runs row (λ r. refl) found in
          let others =
            find_run-update_run_other j id (λ r. record r { status = to }) s.runs (λ r. refl) ne in
          (row, found, λ e. cc (e, allowed), ground (arith, moved), ground (arith, others))
    ]
  ]

module _ {P : Type 0} (build : ReturnType → ℕ → Text → P) where
  -- The identifiers are unique, and this filing is there, as it was filed.
  abbrev Holds : List (FilingRun P) → FilingRun P → Type 0
  Holds rs r = IsUnique (ids rs) × (find_run r.id rs ≡ some r) × (r.status ≡ filed)

  update_run-Holds :
      (id : ℕ) (f : FilingRun P → FilingRun P) (rs : List (FilingRun P)) (r : FilingRun P)
      → ((x : FilingRun P) → (f x).id ≡ x.id)
      → r.id ≢ id
      → IsUnique (ids rs)
      → find_run r.id rs ≡ some r
      → IsUnique (ids (update_run id f rs)) × (find_run r.id (update_run id f rs) ≡ some r)
  update_run-Holds id f rs r keeps ne u found = (
    λ a. omega (arith, u a, count-ids a id f rs keeps),
    find_run-update_run_other r.id id f rs keeps ne ∙ found,
  )

  filed-stays : (to : FilingStatus) → allowed_transition filed to ≡ none
  unfolding allowed_transition
  filed-stays draft = refl
  filed-stays approved = refl
  filed-stays filed = refl

  after-Holds :
      (s : Session P) (r : FilingRun P) (result : Result P)
      → Holds s.runs r
      → ((s' : Session P) → result ≡ done s' → Holds s'.runs r)
      → Holds (after build s result).runs r
  after-Holds s r (done s') h k = k s' refl
  after-Holds s r (refused why) h k = h

  transition-Holds :
      (id : ℕ) (to : FilingStatus) (user : Option ℕ) (s s' : Session P) (r : FilingRun P)
      → Holds s.runs r
      → transition id to user s ≡ done s'
      → Holds s'.runs r
  unfolding transition
  transition-Holds id to user s s' r (u, found, st) h = elim (Option-cases (find_run id s.runs)) [
    | inl missing ↦ absurd (ground arith)
    | inr (row, here) ↦ elim (Option-cases (allowed_transition row.status to)) [
      | inl forbidden ↦ absurd (ground arith)
      | inr (action, allowed) ↦
          let ne : r.id ≢ id = λ e. ground (arith, e, found, here, st, allowed, filed-stays to) in
          let runs : s'.runs ≡ update_run id (λ x. record x { status = to }) s.runs =
            ground arith in
          let (u', found') =
            update_run-Holds id (λ x. record x { status = to }) s.runs r (λ x. refl) ne u found in
          subst (λ rs. Holds rs r) (sym runs) (u', found', st)
    ]
  ]

  generate_filing-Holds :
      (new_id gid : ℕ) (period : Text) (rt : Option ReturnType) (user : Option ℕ) (s s' : Session P)
      (r : FilingRun P)
      → Holds s.runs r
      → generate_filing build new_id gid period rt user s ≡ done s'
      → Holds s'.runs r
  unfolding generate_filing
  generate_filing-Holds new_id gid period none user s s' r hold h = cc
  generate_filing-Holds new_id gid period (some rt) user s s' r (u, found, st) h =
      elim (Option-cases (find_existing gid period rt s.runs)) [
        | inr (e, known) ↦ elim (Bool-cases (is_draft e)) [
          | inr locked ↦ absurd (ground arith)
          | inl editable ↦
              let here = find_existing-find_run gid period rt s.runs e u known in
              let ne : r.id ≢ e.id = λ same. ground (arith, same, found, here, st, editable) in
              let f : FilingRun P → FilingRun P =
                λ x. record x { payload = build rt gid period; generated_by = user } in
              let runs : s'.runs ≡ update_run e.id f s.runs = ground arith in
              subst (λ rs. Holds rs r) (sym runs)
                (let (u', found') = update_run-Holds e.id f s.runs r (λ x. refl) ne u found in
                  (u', found', st))
        ]
        | inl absent ↦ elim (Option-cases (find_run new_id s.runs)) [
          | inr (x, taken) ↦ absurd (ground arith)
          | inl free ↦
              let fresh = new_run new_id gid period rt (build rt gid period) user in
              let runs : s'.runs ≡ s.runs ++ fresh ∷ [] = ground arith in
              subst (λ rs. Holds rs r) (sym runs)
                (
                  append-IsUnique s.runs fresh u free,
                  find_run-append r.id s.runs (fresh ∷ []) r found,
                  st,
                )
        ]
      ]

  serve-Holds :
      (q : Request) (s : Session P) (r : FilingRun P)
      → Holds s.runs r
      → Holds (after build s (serve build q s)).runs r
  unfolding serve approve unlock mark_filed
  serve-Holds (approving id user) s r h =
      after-Holds s r _ h (λ s'. transition-Holds id approved user s s' r h)
  serve-Holds (unlocking id user) s r h =
      after-Holds s r _ h (λ s'. transition-Holds id draft user s s' r h)
  serve-Holds (filing id user) s r h =
      after-Holds s r _ h (λ s'. transition-Holds id filed user s s' r h)
  serve-Holds (generating new_id gid period rt user) s r h =
      after-Holds s r _ h (λ s'. generate_filing-Holds new_id gid period rt user s s' r h)

  serve_all-Holds :
      (qs : List Request) (s : Session P) (r : FilingRun P)
      → Holds s.runs r
      → Holds (serve_all build qs s).runs r
  unfolding serve_all
  serve_all-Holds [] s r h = h
  serve_all-Holds (q ∷ qs) s r h =
      serve_all-Holds qs (after build s (serve build q s)) r (serve-Holds q s r h)

  -- Whatever requests follow, a filing that has been filed stays as it is, payload and status, in a
  -- table whose identifiers are unique; and they stay unique.
  pub serve_all_filed :
      (qs : List Request) (s : Session P) (r : FilingRun P)
      → IsUnique (ids s.runs)
      → find_run r.id s.runs ≡ some r
      → r.status ≡ filed
      → (find_run r.id (serve_all build qs s).runs ≡ some r)
        × IsUnique (ids (serve_all build qs s).runs)
  serve_all_filed qs s r u found st =
      let (u', found', st') = serve_all-Holds qs s r (u, found, st) in (found', u')
