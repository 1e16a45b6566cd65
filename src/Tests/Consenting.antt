-- ===== src/Tests/Consenting.antt =====
-- A GSTIN that is connected, pulled, disconnected and connected again.
use niyam_ai.Base.{
  ℕ, zero, suc, ◌≡◌, refl, true, false, not, Option, none, some, List, [], ◌∷◌, map, keep, arith,
  Text, codes, Date,
}
use niyam_ai.Auth.Lockout.{otp_keys, is_locked}
use niyam_ai.Ingestion.Money.{Number, finite}
use niyam_ai.Ingestion.Csv.{DateFormat}
use niyam_ai.Ingestion.Gstr2b.{Document, find_b2b_section, parse_gstr2b_json}
use niyam_ai.Gsp.Retry.{
  GspError, consent_revoked, Response, success, failure, raised, run_with_retry, attempt_from,
  is_retryable, wait_seconds, entry,
}
use niyam_ai.Gsp.Rows.{consent_revoked_reason, Office, load_gstin, log_call}
use niyam_ai.Gsp.Consent.{
  ConsentRequest, VendorSession, done, confirm_consent, after_confirm, load_live_row,
}
use niyam_ai.Gsp.Live.{
  IsSingle, initiating, confirming, disconnecting, Request, serve_all, serve_all-IsSingle,
}
use niyam_ai.Gsp.Reload.{LiveSession, load_live_session, confirm_consent-load_live_session}
use niyam_ai.Gsp.Pull.{
  running, manual, Pulls, no_live_session, escaped, dead_reason, pull_period, pull_with,
  fetch_period, settle_pull, store_payload, store_parsed, insert_gstn_pull, open_attempt,
  update_attempt, mark_retries, log_fetches,
}
use niyam_ai.Gsp.Pull.Records.{IsRecorded, pull_period-IsRecorded}
use niyam_ai.Gsp.Pull.Dead.{pull_period-dead}
use niyam_ai.Gsp.Periods.{
  backfill_plan, backfill_plan_periods, walk_back, newest_generated, prev_period, period_for,
  period_text, number_of, is_pulled, period_at, count_down,
}
use niyam_ai.Tests.Connecting.{memory, empty, policy, unavailable}

abbrev gstin : Text
gstin = codes "27AAPFU0939F1ZV"

-- A profile of firm 1 with a consent of user "u" in flight.
abbrev office : Office memory
office = record {
  profiles = (record { id = 30; firm_id = 1; client_id = 20; gstin = gstin }) ∷ [];
  inflight =
      (record {
        inflight_id = 5;
        firm_id = 1;
        gstin_profile_id = 30;
        gstin = gstin;
        user_id = codes "u";
        vendor_request_id = codes "r";
        created_at = 100;
      })
      ∷ [];
  sessions = [];
  calls = [];
  consents = [];
  audit = [];
  redis = empty;
}

abbrev vendor_session : VendorSession
vendor_session = record {
  token = codes "secret";
  vendor_context = codes "{}";
  issued_at = 110;
  expires_at = 500;
}

-- A cipher that turns the text around.
abbrev encrypt : Text → Text × ℕ
encrypt t = (map suc t, 1)

abbrev pred : ℕ → ℕ
pred zero = zero
pred (suc n) = n

abbrev decrypt : Text → ℕ → Text
decrypt t v = map pred t

decrypt-encrypt : (t : Text) → decrypt (encrypt t).0 (encrypt t).1 ≡ t
decrypt-encrypt [] = refl
decrypt-encrypt (c ∷ t) = cc (decrypt-encrypt t)

abbrev first_consent : ConsentRequest
first_consent = record { request_id = codes "q"; expires_at = 300 }

abbrev connections : List Request
connections =
    initiating 100 6 1 (codes "u") 30 (success first_consent)
    ∷ confirming 110 70 1 (codes "u") 5 (success vendor_session)
    ∷ confirming 120 71 1 (codes "u") 6 (success vendor_session)
    ∷ disconnecting 130 1 (codes "u") 30
    ∷ []

serve_all-IsSingle_example : IsSingle (serve_all true encrypt connections office).sessions
serve_all-IsSingle_example =
    serve_all-IsSingle true encrypt connections office (λ firm profile. omega arith)

confirmed :
    (confirm_consent true encrypt 110 70 1 (codes "u") 5 (success vendor_session) office).answer
    ≡ done
unfolding confirm_consent after_confirm is_locked otp_keys
confirmed = refl

named : load_gstin 1 30 office ≡ some gstin
unfolding load_gstin
named = refl

confirm_consent-load_live_session_example :
    load_live_session decrypt 400 1 30
      (confirm_consent true encrypt 110 70 1 (codes "u") 5 (success vendor_session) office).office
    ≡ some (record {
      gstin = gstin;
      token = codes "secret";
      issued_at = 110;
      expires_at = 500;
      vendor_context = codes "{}";
      row_id = 70;
    })
confirm_consent-load_live_session_example =
    confirm_consent-load_live_session encrypt decrypt decrypt-encrypt 110 70 1 (codes "u") 5 400 _
      vendor_session gstin office (λ firm profile. omega arith) refl named confirmed (omega arith)

-- The office with a live session.
abbrev connected : Office memory
connected = record office {
  sessions =
      (record {
        id = 70;
        firm_id = 1;
        gstin_profile_id = 30;
        token_ciphertext = map suc (codes "secret");
        key_version = 1;
        vendor_context = codes "{}";
        issued_at = 110;
        expires_at = 500;
        connected_by = codes "u";
        revoked_at = none;
        revoked_reason = none;
      })
      ∷ [];
}

abbrev pulls : Pulls memory
pulls = record { office = connected; attempts = []; pulls = []; entries = [] }

abbrev live : LiveSession
live = record {
  gstin = gstin;
  token = codes "secret";
  issued_at = 110;
  expires_at = 500;
  vendor_context = codes "{}";
  row_id = 70;
}

abbrev read_decimal : Text → Number
read_decimal t = finite false 0 0

abbrev strptime : DateFormat → Text → Option Date
strptime f t = none

abbrev str_id : ℕ → Text
str_id n = n ∷ []

-- Unavailable, then a document with no section of invoices.
abbrev document : Document
document = record {
  docdata_b2b = none;
  data_b2b = none;
  docdata_cdnr = none;
  data_cdnr = none;
  data_period = none;
  root_period = none;
}

abbrev bare : LiveSession → Text → ℕ → Response Document
bare session period i = success document

abbrev revoked : GspError
revoked = record { kind = consent_revoked; retry_after_seconds = none; http_status = some 403 }

abbrev revoking : LiveSession → Text → ℕ → Response Document
revoking session period zero = failure unavailable
revoking session period (suc n) = failure revoked

abbrev clock : ℕ → ℕ
clock i = 120

-- The document has no section of invoices: the row of the pull stays, and the attempt runs on.
bare-escaped :
    let s =
      pull_period read_decimal strptime str_id decrypt true policy bare clock 120 90 80 1 30
        (codes "202606")
        manual
        pulls in
    (s.answer ≡ escaped)
    × (map (λ a. a.status) s.pulls.attempts ≡ running ∷ [])
    × (map (λ g. g.id) s.pulls.pulls ≡ 90 ∷ [])
unfolding pull_period pull_with fetch_period settle_pull store_payload store_parsed insert_gstn_pull
    open_attempt update_attempt mark_retries log_fetches log_call load_live_session load_live_row
    load_gstin run_with_retry attempt_from parse_gstr2b_json find_b2b_section
bare-escaped = (refl, refl, refl)

pull_period-IsRecorded_example : IsRecorded 120 [] [] [] (
    pull_period read_decimal strptime str_id decrypt true policy bare clock 120 90 80 1 30
      (codes "202606")
      manual
      pulls)
pull_period-IsRecorded_example =
    pull_period-IsRecorded read_decimal strptime str_id decrypt true policy bare clock 120 90 80 1
      30 (codes "202606") manual pulls refl

loaded : load_live_session decrypt 120 1 30 connected ≡ some live
unfolding load_live_session load_live_row load_gstin
loaded = refl

told : (run_with_retry policy (revoking live (codes "202606"))).verdict ≡ raised revoked
unfolding run_with_retry attempt_from is_retryable wait_seconds entry
told = refl

revoked-dead_reason : dead_reason revoked ≡ some consent_revoked_reason
unfolding dead_reason
revoked-dead_reason = refl

pull_period-dead_example :
    (pull_period read_decimal strptime str_id decrypt true policy revoking clock 130 91 81 1 30
      (codes "202605")
      manual
      (pull_period read_decimal strptime str_id decrypt true policy revoking clock 120 90 80 1 30
        (codes "202606")
        manual
        pulls).pulls).answer
    ≡ no_live_session
pull_period-dead_example =
    pull_period-dead read_decimal strptime str_id decrypt true policy revoking clock 120 90 80 1 30
      (codes "202606") manual live revoked consent_revoked_reason pulls 130 91 81 (codes "202605")
      manual refl loaded told revoked-dead_reason

abbrev today : Date
today = record { year = 2026; month = 2; day = 20 }

walk_back-newest_generated :
    walk_back 3 (newest_generated 14 today) ≡ codes "202601" ∷ codes "202512" ∷ codes "202511" ∷ []
unfolding walk_back newest_generated prev_period period_for period_text number_of
walk_back-newest_generated = refl

backfill_plan_periods_example :
    backfill_plan 3 14 30 [] today
    ≡ keep (λ p. not (is_pulled 30 p [])) (map period_at (count_down 3 24313))
backfill_plan_periods_example =
    backfill_plan_periods 3 14 30 [] today (omega arith) (omega arith) (omega arith) (omega arith)
