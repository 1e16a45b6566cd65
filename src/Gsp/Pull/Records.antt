-- ===== src/Gsp/Pull/Records.antt =====
-- What a pull leaves in the tables on each of its paths (backend/app/gsp/service.py).
use niyam_ai.Base.{
  ℕ, ◌+◌, ◌≡◌, refl, ap, ◌∙◌, Bool, true, false, ◌&&◌, Option, none, some, List, [], ◌∷◌, ◌++◌, map,
  arith, Text, Date, length, length-append, length-map, ◌==◌, find_where, update_where,
  update_where-added,
}
use niyam_ai.Auth.Redis.{Redis}
use niyam_ai.Ingestion.Money.{Number, Outcome, returned, value_error, invalid_operation}
use niyam_ai.Ingestion.Csv.{DateFormat}
use niyam_ai.Ingestion.Gstr2b.{Document, B2BParseResult, parse_gstr2b_json}
use niyam_ai.Gsp.Retry.{
  RetryPolicy, Response, Verdict, run_with_retry, GspError, success, failure, other_exception,
}
use niyam_ai.Gsp.Rows.{RevokedReason}
use niyam_ai.Gsp.Reload.{LiveSession, load_live_session}
use niyam_ai.Gsp.Pull.{
  AttemptStatus, running, retry_scheduled, succeeded, failed, Source, session_dead, of_kind,
  PullAttempt, GstnPull, B2BRow, Pulls, Answer, pulled, no_live_session, gsp_failed, escaped,
  Served, opened_attempt, dead_reason, mark_retry, mark_retries, open_attempt, update_attempt,
  insert_gstn_pull, bulk_insert_b2b_entries, store_parsed, fail_pull, succeeded_row, failed_row,
  failed_after_retries, dead_message, store_payload, settle_pull, fetch_period, pull_with,
  no_live_session_message, pull_period,
}

abbrev is_open : AttemptStatus → Bool
is_open running = true
is_open retry_scheduled = true
is_open _ = false

-- How the row of the attempt stands after an answer.
abbrev pub IsClosed : ℕ → Answer → PullAttempt → Type 0
IsClosed now (pulled pull accepted) a =
    (a.status ≡ succeeded) × (a.gstn_pull_id ≡ some pull) × (a.finished_at ≡ some now)
IsClosed now no_live_session a =
    (a.status ≡ failed) × (a.error_kind ≡ some session_dead) × (a.finished_at ≡ some now)
IsClosed now (gsp_failed e) a =
    (a.status ≡ failed) × (a.error_kind ≡ some (of_kind e.kind)) × (a.finished_at ≡ some now)
IsClosed now escaped a = (is_open a.status ≡ true) × (a.finished_at ≡ none)

-- What was stored for an answer, after the rows that were there.
abbrev pub IsStored : Answer → List GstnPull → List B2BRow → List GstnPull → List B2BRow → Type 0
IsStored (pulled pull accepted) gs es gs' es' =
    (map (λ g. g.id) gs' ≡ map (λ g. g.id) gs ++ pull ∷ []) × (length es' ≡ length es + accepted)
IsStored escaped gs es gs' es' = es' ≡ es
IsStored _ gs es gs' es' = (gs' ≡ gs) × (es' ≡ es)

abbrev pub IsRecorded :
    {r : Redis} → ℕ → List PullAttempt → List GstnPull → List B2BRow → Served r → Type 0
IsRecorded now before gs es s =
    (a : PullAttempt) × (s.pulls.attempts ≡ before ++ a ∷ [])
    × IsClosed now s.answer a
    × IsStored s.answer gs es s.pulls.pulls s.pulls.entries

-- The row of the attempt before the end of the pull.
abbrev IsOpenAt : ℕ → ℕ → PullAttempt → Type 0
IsOpenAt firm id a =
    (is_open a.status ≡ true) × (a.finished_at ≡ none) × (a.firm_id ≡ firm) × (a.id ≡ id)

mark_retry-IsOpenAt :
    (firm id at i w : ℕ) (reply : Response Document) (a : PullAttempt)
    → IsOpenAt firm id a
    → IsOpenAt firm id (mark_retry at i w reply a)
mark_retry-IsOpenAt firm id at i w (success d) a h = h
mark_retry-IsOpenAt firm id at i w (failure e) a h = (refl, h.1, h.2, h.3)
mark_retry-IsOpenAt firm id at i w other_exception a h = h

mark_retries-IsOpenAt :
    (firm id : ℕ) (clock : ℕ → ℕ) (call : ℕ → Response Document) (i : ℕ) (ws : List ℕ)
    (a : PullAttempt)
    → IsOpenAt firm id a
    → IsOpenAt firm id (mark_retries clock call i ws a)
unfolding mark_retries
mark_retries-IsOpenAt firm id clock call i [] a h = h
mark_retries-IsOpenAt firm id clock call i (w ∷ ws) a h =
    mark_retries-IsOpenAt firm id clock call (i + 1) ws (mark_retry (clock i) i w (call i) a)
      (mark_retry-IsOpenAt firm id (clock i) i w (call i) a h)

map-added :
    (rows : List GstnPull) (row : GstnPull)
    → map (λ g. g.id) (rows ++ row ∷ []) ≡ map (λ g. g.id) rows ++ row.id ∷ []
map-added [] row = refl
map-added (x ∷ rows) row = ap (λ l. x.id ∷ l) (map-added rows row)

-- The key of `_update_attempt`.
abbrev pub keyed : ℕ → ℕ → PullAttempt → Bool
keyed firm id a = a.firm_id == firm && a.id == id

module _ {r : Redis} (read_decimal : Text → Number) (strptime : DateFormat → Text → Option Date)
    (str_id : ℕ → Text) (now pull firm profile id : ℕ) (period : Text) where
  -- An update of the attempt that was just added.
  update_attempt-added :
      (f : PullAttempt → PullAttempt) (p : Pulls r) (before : List PullAttempt) (a : PullAttempt)
      → p.attempts ≡ before ++ a ∷ []
      → find_where (keyed firm id) before ≡ none
      → IsOpenAt firm id a
      → (update_attempt firm id f p).attempts ≡ before ++ f a ∷ []
  unfolding update_attempt
  update_attempt-added f p before a e free h =
      ap (update_where (keyed firm id) f) e
      ∙ update_where-added (keyed firm id) f before a free (ground (arith, h.2, h.3))

  -- The end of a pull whose attempt stands open at the end of the table.
  module _ (p : Pulls r) (before : List PullAttempt) (a : PullAttempt)
      (e : p.attempts ≡ before ++ a ∷ []) (free : find_where (keyed firm id) before ≡ none)
      (h : IsOpenAt firm id a) where
    store_parsed-IsRecorded :
        (attempts : ℕ) (row : GstnPull) (parse : Option (Outcome B2BParseResult))
        → row.id ≡ pull
        → IsRecorded now before p.pulls p.entries (
            store_parsed read_decimal strptime str_id now pull firm id attempts parse
              (insert_gstn_pull row p))
    unfolding store_parsed insert_gstn_pull bulk_insert_b2b_entries update_attempt
    store_parsed-IsRecorded attempts row none k = (a, e, (h.0, h.1), refl)
    store_parsed-IsRecorded attempts row (some value_error) k = (a, e, (h.0, h.1), refl)
    store_parsed-IsRecorded attempts row (some invalid_operation) k = (a, e, (h.0, h.1), refl)
    store_parsed-IsRecorded attempts row (some (returned parse)) k = (
      succeeded_row now attempts pull a,
      update_attempt-added (succeeded_row now attempts pull) p before a e free h,
      (refl, refl, refl),
      (
        map-added p.pulls row ∙ ap (λ i. map (λ g. g.id) p.pulls ++ i ∷ []) k,
        length-append p.entries _ ∙ ap (λ n. length p.entries + n) (length-map _ parse.entries),
      ),
    )

    fail_pull-IsRecorded :
        (g : GspError) (reason : Option RevokedReason)
        → IsRecorded now before p.pulls p.entries
            (fail_pull read_decimal strptime str_id now firm profile id g reason p)
    unfolding fail_pull update_attempt
    fail_pull-IsRecorded g none = (
      failed_row now (of_kind g.kind) (failed_after_retries g.kind) a,
      update_attempt-added _ p before a e free h,
      (refl, refl, refl),
      (refl, refl),
    )
    fail_pull-IsRecorded g (some reason) = (
      failed_row now (of_kind g.kind) (dead_message reason) a,
      update_attempt-added _ p before a e free h,
      (refl, refl, refl),
      (refl, refl),
    )

    settle_pull-IsRecorded :
        (v : Verdict Document)
        → IsRecorded now before p.pulls p.entries
            (settle_pull read_decimal strptime str_id now pull firm profile id period v p)
    unfolding settle_pull store_payload
    settle_pull-IsRecorded (Verdict.returned doc attempts) =
        store_parsed-IsRecorded attempts _
          (parse_gstr2b_json read_decimal strptime (str_id pull) doc) refl
    settle_pull-IsRecorded (Verdict.raised g) = fail_pull-IsRecorded g (dead_reason g)
    settle_pull-IsRecorded Verdict.crashed = (a, e, (h.0, h.1), refl)
    settle_pull-IsRecorded Verdict.assertion_error = (a, e, (h.0, h.1), refl)

module _ {r : Redis} (read_decimal : Text → Number) (strptime : DateFormat → Text → Option Date)
    (str_id : ℕ → Text) (decrypt : Text → ℕ → Text) (has_adapter : Bool) (policy : RetryPolicy)
    (fetch : LiveSession → Text → ℕ → Response Document) (clock : ℕ → ℕ) where
  fetch_period-IsRecorded :
      (now pull firm profile id : ℕ) (period : Text) (live : LiveSession) (p : Pulls r)
      (before : List PullAttempt) (a : PullAttempt)
      → p.attempts ≡ before ++ a ∷ []
      → find_where (keyed firm id) before ≡ none
      → IsOpenAt firm id a
      → IsRecorded now before p.pulls p.entries (
          fetch_period read_decimal strptime str_id decrypt has_adapter policy fetch clock now pull
            firm profile id period live p)
  unfolding fetch_period update_attempt
  fetch_period-IsRecorded now pull firm profile id period live p before a e free h =
      let call = fetch live period in
      let run = run_with_retry policy call in
      settle_pull-IsRecorded read_decimal strptime str_id now pull firm profile id period _ before
        (mark_retries clock call 0 run.waits a)
        (update_attempt-added read_decimal strptime str_id now pull firm profile id period
          (mark_retries clock call 0 run.waits) p before a e free h)
        free (mark_retries-IsOpenAt firm id clock call 0 run.waits a h) run.verdict

  pull_with-IsRecorded :
      (now pull id firm profile : ℕ) (period : Text) (live : Option LiveSession) (wired : Bool)
      (p : Pulls r) (before : List PullAttempt) (a : PullAttempt)
      → p.attempts ≡ before ++ a ∷ []
      → find_where (keyed firm id) before ≡ none
      → IsOpenAt firm id a
      → IsRecorded now before p.pulls p.entries (
          pull_with read_decimal strptime str_id decrypt has_adapter policy fetch clock now pull id
            firm profile period live wired p)
  unfolding pull_with update_attempt
  pull_with-IsRecorded now pull id firm profile period none wired p before a e free h = (
    failed_row now session_dead no_live_session_message a,
    update_attempt-added read_decimal strptime str_id now pull firm profile id period _ p before a e
        free h,
    (refl, refl, refl),
    (refl, refl),
  )
  pull_with-IsRecorded now pull id firm profile period (some live) false p before a e free h =
      (a, e, (h.0, h.1), refl)
  pull_with-IsRecorded now pull id firm profile period (some live) true p before a e free h =
      fetch_period-IsRecorded now pull firm profile id period live p before a e free h

  -- Every pull adds one attempt at the end of the table, and the attempt stands as the answer says:
  -- succeeded, with the row of the pull added and as many entries as are reported; failed with the
  -- error's kind (or a dead session) and nothing stored, when NoLiveSession or a GSPError is
  -- raised; and, when another exception escapes, still open and without entries. The identifier of
  -- the attempt is new.
  pub pull_period-IsRecorded :
      (now pull id firm profile : ℕ) (period : Text) (source : Source) (p : Pulls r)
      → find_where (keyed firm id) p.attempts ≡ none
      → IsRecorded now p.attempts p.pulls p.entries (
          pull_period read_decimal strptime str_id decrypt has_adapter policy fetch clock now pull
            id firm profile period source p)
  unfolding pull_period open_attempt
  pull_period-IsRecorded now pull id firm profile period source p free =
      pull_with-IsRecorded now pull id firm profile period
        (load_live_session decrypt now firm profile p.office) has_adapter
        (open_attempt (opened_attempt id firm profile period source) p) p.attempts
        (opened_attempt id firm profile period source) refl free (refl, refl, refl, refl)
