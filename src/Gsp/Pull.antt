-- ===== src/Gsp/Pull.antt =====
-- Pulls of GSTR-2B (backend/app/gsp/service.py) through the retries and the parser, into the tables
-- that backend/app/ingestion/writer.py writes. Parameters stand for the vendor's reply to each
-- attempt, decryption, the readers of numbers and dates, and the clock.
pub mod Records
pub mod Dead
use niyam_ai.Base.{
  ℕ, zero, suc, ◌+◌, Bool, true, false, not, ◌&&◌, Option, none, some, List, [], ◌∷◌, ◌++◌, map,
  Text, Date, length, ◌==◌, update_where, if◌then◌else◌,
}
use niyam_ai.Auth.Redis.{Redis}
use niyam_ai.Ingestion.Money.{Number, Outcome, returned, value_error, invalid_operation}
use niyam_ai.Ingestion.Csv.{DateFormat}
use niyam_ai.Ingestion.Gstr2b.{Document, CanonicalB2BEntry, B2BParseResult, parse_gstr2b_json}
use niyam_ai.Gsp.Retry.{
  GspErrorKind, session_expired, consent_revoked, GspError, RetryPolicy, Response, success, failure,
  other_exception, Verdict, Run, run_with_retry,
}
use niyam_ai.Gsp.Rows.{
  RevokedReason, consent_revoked_reason, session_expired_reason, gstr2b_endpoint, Office, log_call,
  log_failure,
}
use niyam_ai.Gsp.Consent.{mark_session_dead}
use niyam_ai.Gsp.Reload.{LiveSession, load_live_session}

pub data AttemptStatus : Type 0 where
  running retry_scheduled succeeded failed : AttemptStatus

pub data Source : Type 0 where
  manual scheduled : Source

pub data PullError : Type 0 where
  session_dead : PullError
  of_kind : GspErrorKind → PullError

-- The texts of `error_message`, with what they are filled in with.
pub data ErrorMessage : Type 0 where
  no_live_session_message revoked_by_gstn session_expired_message : ErrorMessage
  waiting_before_retry : (kind : GspErrorKind) (seconds : ℕ) → ErrorMessage
  failed_after_retries : (kind : GspErrorKind) → ErrorMessage

pub record PullAttempt : Type 0 where
  pub id : ℕ
  pub firm_id : ℕ
  pub gstin_profile_id : ℕ
  pub period : Text
  pub source : Source
  pub status : AttemptStatus
  pub attempt_count : ℕ
  pub error_kind : Option PullError
  pub error_message : Option ErrorMessage
  pub gstn_pull_id : Option ℕ
  pub finished_at : Option ℕ
  pub next_retry_at : Option ℕ

pub record GstnPull : Type 0 where
  pub id : ℕ
  pub firm_id : ℕ
  pub gstin_profile_id : ℕ
  pub period : Text
  pub raw_payload : Document

pub record B2BRow : Type 0 where
  pub firm_id : ℕ
  pub gstn_pull_id : ℕ
  pub entry : CanonicalB2BEntry

pub record Pulls (r : Redis) : Type 0 where
  pub office : Office r
  pub attempts : List PullAttempt
  pub pulls : List GstnPull
  pub entries : List B2BRow

-- What reaches the caller; the last one is an exception that is neither NoLiveSession nor a
-- GSPError.
pub data Answer : Type 0 where
  pulled : (gstn_pull_id accepted : ℕ) → Answer
  no_live_session : Answer
  gsp_failed : GspError → Answer
  escaped : Answer

pub record Served (r : Redis) : Type 0 where
  pub pulls : Pulls r
  pub answer : Answer

abbrev pub opened_attempt : ℕ → ℕ → ℕ → Text → Source → PullAttempt
opened_attempt id firm profile period source = record {
  id = id;
  firm_id = firm;
  gstin_profile_id = profile;
  period = period;
  source = source;
  status = running;
  attempt_count = 1;
  error_kind = none;
  error_message = none;
  gstn_pull_id = none;
  finished_at = none;
  next_retry_at = none;
}

-- The fields that the failing paths write.
abbrev pub failed_row : ℕ → PullError → ErrorMessage → PullAttempt → PullAttempt
failed_row now kind message a = record a {
  status = failed;
  finished_at = some now;
  error_kind = some kind;
  error_message = some message;
}

abbrev pub succeeded_row : ℕ → ℕ → ℕ → PullAttempt → PullAttempt
succeeded_row now attempts pull a = record a {
  status = succeeded;
  finished_at = some now;
  attempt_count = attempts;
  gstn_pull_id = some pull;
  error_kind = none;
  error_message = none;
  next_retry_at = none;
}

-- The reason that the vendor's error gives for a dead session.
unfoldable pub dead_reason : GspError → Option RevokedReason
dead_reason e = elim e.kind [
  | consent_revoked ↦ some consent_revoked_reason
  | session_expired ↦ some session_expired_reason
  | _ ↦ none
]

abbrev pub dead_message : RevokedReason → ErrorMessage
dead_message consent_revoked_reason = revoked_by_gstn
dead_message _ = session_expired_message

-- `_mark_retry`, at the failure of attempt `i`
abbrev pub mark_retry : ℕ → ℕ → ℕ → Response Document → PullAttempt → PullAttempt
mark_retry at i w (failure e) a = record a {
  status = retry_scheduled;
  attempt_count = i + 2;
  error_kind = some (of_kind e.kind);
  error_message = some (waiting_before_retry e.kind w);
  next_retry_at = some (at + w);
}
mark_retry at i w _ a = a

module _ (clock : ℕ → ℕ) (call : ℕ → Response Document) where
  -- The waits from attempt `i` on.
  unfoldable pub mark_retries : ℕ → List ℕ → PullAttempt → PullAttempt
  mark_retries i [] a = a
  mark_retries i (w ∷ ws) a = mark_retries (i + 1) ws (mark_retry (clock i) i w (call i) a)

  -- `_call` logs each of the `n` calls from attempt `i` on.
  unfoldable pub log_fetches : {r : Redis} → ℕ → ℕ → Text → ℕ → ℕ → Office r → Office r
  log_fetches firm profile period zero i o = o
  log_fetches firm profile period (suc n) i o =
      log_fetches firm profile period n (i + 1) (elim (call i) [
        | success d ↦ log_call firm profile gstr2b_endpoint (some period) (some 200) none o
        | failure e ↦ log_failure firm profile gstr2b_endpoint (some period) e o
        | other_exception ↦ o
      ])

module _ {r : Redis} where
  unfoldable pub open_attempt : PullAttempt → Pulls r → Pulls r
  open_attempt a p = record p { attempts = p.attempts ++ a ∷ [] }

  -- `_update_attempt`, in a session of the firm
  unfoldable pub update_attempt : ℕ → ℕ → (PullAttempt → PullAttempt) → Pulls r → Pulls r
  update_attempt firm id f p = record p {
    attempts = update_where (λ a. a.firm_id == firm && a.id == id) f p.attempts;
  }

  unfoldable pub insert_gstn_pull : GstnPull → Pulls r → Pulls r
  insert_gstn_pull row p = record p { pulls = p.pulls ++ row ∷ [] }

  unfoldable pub bulk_insert_b2b_entries : ℕ → ℕ → List CanonicalB2BEntry → Pulls r → Pulls r × ℕ
  bulk_insert_b2b_entries firm pull es p = (
    record p {
      entries =
          p.entries ++ map (λ e. record { firm_id = firm; gstn_pull_id = pull; entry = e }) es;
    },
    length es,
  )

module _ {r : Redis} (read_decimal : Text → Number) (strptime : DateFormat → Text → Option Date)
    (str_id : ℕ → Text) where
  -- What follows the parse; `none` is the SchemaError.
  unfoldable pub store_parsed :
      ℕ → ℕ → ℕ → ℕ → ℕ → Option (Outcome B2BParseResult) → Pulls r → Served r
  store_parsed now pull firm attempt_id attempts (some (returned parse)) p =
      let (p1, accepted) = bulk_insert_b2b_entries firm pull parse.entries p in
      record {
        pulls = update_attempt firm attempt_id (succeeded_row now attempts pull) p1;
        answer = pulled pull accepted;
      }
  store_parsed now pull firm attempt_id attempts _ p = record { pulls = p; answer = escaped }

  -- A payload that arrived: the row of the pull is written before it is parsed.
  unfoldable pub store_payload : ℕ → ℕ → ℕ → ℕ → ℕ → Text → ℕ → Document → Pulls r → Served r
  store_payload now pull firm profile attempt_id period attempts doc p =
      store_parsed now pull firm attempt_id attempts
        (parse_gstr2b_json read_decimal strptime (str_id pull) doc)
        (insert_gstn_pull
          (record {
            id = pull;
            firm_id = firm;
            gstin_profile_id = profile;
            period = period;
            raw_payload = doc;
          })
          p)

  -- The two `except` clauses; the reason is there when the error is of a dead session.
  unfoldable pub fail_pull : ℕ → ℕ → ℕ → ℕ → GspError → Option RevokedReason → Pulls r → Served r
  fail_pull now firm profile attempt_id e (some reason) p = record {
    pulls =
        update_attempt firm attempt_id (failed_row now (of_kind e.kind) (dead_message reason))
          (record p { office = mark_session_dead now firm profile reason p.office });
    answer = gsp_failed e;
  }
  fail_pull now firm profile attempt_id e none p = record {
    pulls =
        update_attempt firm attempt_id
          (failed_row now (of_kind e.kind) (failed_after_retries e.kind)) p;
    answer = gsp_failed e;
  }

  -- How a run of the retries ends.
  unfoldable pub settle_pull : ℕ → ℕ → ℕ → ℕ → ℕ → Text → Verdict Document → Pulls r → Served r
  settle_pull now pull firm profile attempt_id period (Verdict.returned doc attempts) p =
      store_payload now pull firm profile attempt_id period attempts doc p
  settle_pull now pull firm profile attempt_id period (Verdict.raised e) p =
      fail_pull now firm profile attempt_id e (dead_reason e) p
  settle_pull now pull firm profile attempt_id period Verdict.crashed p = record {
    pulls = p;
    answer = escaped;
  }
  settle_pull now pull firm profile attempt_id period Verdict.assertion_error p = record {
    pulls = p;
    answer = escaped;
  }

  module _ (decrypt : Text → ℕ → Text) (has_adapter : Bool) (policy : RetryPolicy)
      (fetch : LiveSession → Text → ℕ → Response Document) (clock : ℕ → ℕ) where
    -- The calls and the marks of the run with the session, then its end.
    unfoldable pub fetch_period : ℕ → ℕ → ℕ → ℕ → ℕ → Text → LiveSession → Pulls r → Served r
    fetch_period now pull firm profile attempt_id period live p =
        let call = fetch live period in
        let run = run_with_retry policy call in
        let p1 = update_attempt firm attempt_id (mark_retries clock call 0 run.waits) p in
        let p2 = record p1 {
          office = log_fetches clock call firm profile period (suc (length run.waits)) 0 p1.office;
        } in
        settle_pull now pull firm profile attempt_id period run.verdict p2

    -- With the session that was loaded, and with an adapter or without.
    unfoldable pub pull_with :
        ℕ → ℕ → ℕ → ℕ → ℕ → Text → Option LiveSession → Bool → Pulls r → Served r
    pull_with now pull attempt_id firm profile period none wired p = record {
      pulls =
          update_attempt firm attempt_id (failed_row now session_dead no_live_session_message) p;
      answer = no_live_session;
    }
    pull_with now pull attempt_id firm profile period (some live) false p = record {
      pulls = p;
      answer = escaped;
    }
    pull_with now pull attempt_id firm profile period (some live) true p =
        fetch_period now pull firm profile attempt_id period live p

    unfoldable pub pull_period : ℕ → ℕ → ℕ → ℕ → ℕ → Text → Source → Pulls r → Served r
    pull_period now pull attempt_id firm profile period source p =
        pull_with now pull attempt_id firm profile period
          (load_live_session decrypt now firm profile p.office) has_adapter
          (open_attempt (opened_attempt attempt_id firm profile period source) p)
