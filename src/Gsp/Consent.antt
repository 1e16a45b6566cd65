-- ===== src/Gsp/Consent.antt =====
-- Consent, disconnection and the loss of a session (backend/app/gsp/service.py). The vendor's
-- reply, the new identifiers, the encrypted token and the clock are arguments of each operation.
use niyam_ai.Base.{
  ℕ, ◌+◌, Bool, true, false, not, ◌||◌, Option, none, some, List, [], ◌∷◌, ◌++◌, Text, text_eq,
  ◌==◌, ltb, leb, keep, is_some, find_where, update_where, if◌then◌else◌,
}
use niyam_ai.Auth.Redis.{Redis}
use niyam_ai.Auth.Lockout.{
  otp_keys, is_locked, record_failure, clear, ttl_seconds, at_least_one, try_reserve_initiate,
  max_attempts,
}
use niyam_ai.Gsp.Retry.{
  GspErrorKind, otp_invalid, otp_expired, GspError, Response, success, failure, other_exception,
}
use niyam_ai.Gsp.Rows.{
  InFlight, RevokedReason, reconnect, user_disconnected, consent_revoked_reason, GspSession,
  consent_endpoint, confirm_endpoint, initiate_cooldown_error, connect_consent, disconnect_consent,
  revoked_by_vendor, gsp_otp_lockout, gsp_connect, gsp_reconnect, gsp_disconnect,
  gsp_consent_revoked, gsp_session_expired, Office, is_live, load_gstin, log_call, log_failure,
  record_action, log_consent,
}

abbrev pub inflight_ttl : ℕ
inflight_ttl = 900

pub data Refusal : Type 0 where
  gstin_not_in_firm consent_request_unknown no_adapter : Refusal
  initiate_cooldown otp_locked_out : (retry_after : ℕ) → Refusal

pub data Answer : Type 0 where
  initiated : (inflight_id expires_at : ℕ) → Answer
  done : Answer
  refused : Refusal → Answer
  vendor_failed : GspError → Answer
  vendor_crashed : Answer

pub record Served (r : Redis) : Type 0 where
  pub office : Office r
  pub answer : Answer

-- What the vendor returns for a consent request, and for an OTP that is right.
pub record ConsentRequest : Type 0 where
  pub request_id : Text
  pub expires_at : ℕ

pub record VendorSession : Type 0 where
  pub token : Text
  pub vendor_context : Text
  pub issued_at : ℕ
  pub expires_at : ℕ

-- `_gc_inflight`
unfoldable pub gc_inflight : ℕ → List InFlight → List InFlight
gc_inflight now = keep (λ f. not (ltb (f.created_at + inflight_ttl) now))

abbrev pub is_otp_error : GspErrorKind → Bool
is_otp_error otp_invalid = true
is_otp_error otp_expired = true
is_otp_error _ = false

abbrev pub revoked_row : ℕ → RevokedReason → GspSession → GspSession
revoked_row now reason row = record row { revoked_at = some now; revoked_reason = some reason }

abbrev pub is_consent_revoked : RevokedReason → Bool
is_consent_revoked consent_revoked_reason = true
is_consent_revoked _ = false

abbrev pub new_session : ℕ → ℕ → Text → ℕ → Text → ℕ → VendorSession → GspSession
new_session id firm user profile ciphertext key_version v = record {
  id = id;
  firm_id = firm;
  gstin_profile_id = profile;
  token_ciphertext = ciphertext;
  key_version = key_version;
  vendor_context = v.vendor_context;
  issued_at = v.issued_at;
  expires_at = v.expires_at;
  connected_by = user;
  revoked_at = none;
  revoked_reason = none;
}

-- The live row that the query finds, when there is one, is revoked by its key.
abbrev pub revoke_existing : ℕ → Option GspSession → List GspSession → List GspSession
revoke_existing now none rows = rows
revoke_existing now (some old) rows =
    update_where (λ row. row.id == old.id) (revoked_row now reconnect) rows

module _ {r : Redis} where
  abbrev pub answer_with : Answer → Office r → Served r
  answer_with a o = record { office = o; answer = a }

  -- `UPDATE gsp_session SET revoked_at = now() … WHERE gstin_profile_id = … AND revoked_at IS NULL`
  unfoldable pub revoke_live : ℕ → ℕ → ℕ → RevokedReason → Office r → Office r
  revoke_live now firm profile reason o = record o {
    sessions = update_where (is_live firm profile) (revoked_row now reason) o.sessions;
  }

  unfoldable pub disconnect : ℕ → ℕ → Text → ℕ → Office r → Served r
  disconnect now firm user profile o = elim (load_gstin firm profile o) [
    | none ↦ answer_with (refused gstin_not_in_firm) o
    | some gstin ↦ answer_with done (
        record_action firm (some user) gsp_disconnect profile (
          log_consent now firm profile (some now) (some user) disconnect_consent
            (revoke_live now firm profile user_disconnected o)))
  ]

  unfoldable pub mark_session_dead : ℕ → ℕ → ℕ → RevokedReason → Office r → Office r
  mark_session_dead now firm profile reason o =
      let o1 = revoke_live now firm profile reason o in
      let o2 =
        if is_consent_revoked reason
        then log_consent now firm profile (some now) none revoked_by_vendor o1
        else o1 in
      record_action firm none
        (if is_consent_revoked reason then gsp_consent_revoked else gsp_session_expired) profile o2

  -- The row of a live session, unless it is past its end.
  unfoldable pub load_live_row : ℕ → ℕ → ℕ → Office r → Option GspSession
  load_live_row now firm profile o = elim (find_where (is_live firm profile) o.sessions) [
    | none ↦ none
    | some row ↦ if leb row.expires_at now then none else some row
  ]

  -- The end of `initiate_consent`, on the vendor's reply.
  unfoldable pub after_initiate :
      ℕ → ℕ → ℕ → Text → ℕ → Text → Response ConsentRequest → Office r → Served r
  after_initiate now new_id firm user profile gstin (success c) o =
      let o1 = log_call firm profile consent_endpoint none (some 200) none o in
      answer_with (initiated new_id c.expires_at) (record o1 {
        inflight =
            o1.inflight
            ++ (record {
              inflight_id = new_id;
              firm_id = firm;
              gstin_profile_id = profile;
              gstin = gstin;
              user_id = user;
              vendor_request_id = c.request_id;
              created_at = now;
            })
              ∷ [];
      })
  after_initiate now new_id firm user profile gstin (failure e) o =
      answer_with (vendor_failed e) (log_failure firm profile consent_endpoint none e o)
  after_initiate now new_id firm user profile gstin other_exception o = answer_with vendor_crashed o

  module _ (has_adapter : Bool) where
    unfoldable pub initiate_consent :
        ℕ → ℕ → ℕ → Text → ℕ → Response ConsentRequest → Office r → Served r
    initiate_consent now new_id firm user profile reply o =
        let o1 = record o { inflight = gc_inflight now o.inflight } in
        if not has_adapter
        then answer_with (refused no_adapter) o1
        else elim (load_gstin firm profile o1) [
          | none ↦ answer_with (refused gstin_not_in_firm) o1
          | some gstin ↦
              let (reserved, retry_after, redis') = try_reserve_initiate r gstin o1.redis in
              let o2 = record o1 { redis = redis' } in
              if not reserved
              then answer_with (refused (initiate_cooldown retry_after)) (
                  log_call firm profile consent_endpoint none none (some initiate_cooldown_error)
                    o2)
              else after_initiate now new_id firm user profile gstin reply o2
        ]

    -- A wrong or late OTP is counted, and the lockout that it reaches is audited.
    unfoldable pub otp_failed : ℕ → Text → InFlight → GspError → Office r → Office r
    otp_failed firm user f e o =
        let (count, redis') = record_failure r (otp_keys user f.gstin) o.redis in
        let o1 =
          log_failure firm f.gstin_profile_id confirm_endpoint none e
            (record o { redis = redis' }) in
        if leb max_attempts count
        then record_action firm (some user) gsp_otp_lockout f.gstin_profile_id o1
        else o1

    module _ (encrypt : Text → Text × ℕ) where
      unfoldable pub otp_accepted :
          ℕ → ℕ → ℕ → Text → InFlight → VendorSession → Office r → Office r
      otp_accepted now new_id firm user f v o =
          let profile = f.gstin_profile_id in
          let existing = find_where (is_live firm profile) o.sessions in
          let (ciphertext, key_version) = encrypt v.token in
          let o1 = log_call firm profile confirm_endpoint none (some 200) none (record o {
            redis = clear r (otp_keys user f.gstin) o.redis;
            sessions =
                revoke_existing now existing o.sessions
                ++ new_session new_id firm user profile ciphertext key_version v ∷ [];
            inflight = keep (λ g. not (g.inflight_id == f.inflight_id)) o.inflight;
          }) in
          record_action firm (some user) (if is_some existing then gsp_reconnect else gsp_connect)
            profile (log_consent now firm profile none (some user) connect_consent o1)

      unfoldable pub after_confirm :
          ℕ → ℕ → ℕ → Text → InFlight → Response VendorSession → Office r → Served r
      after_confirm now new_id firm user f (success v) o =
          answer_with done (otp_accepted now new_id firm user f v o)
      after_confirm now new_id firm user f (failure e) o = answer_with (vendor_failed e) (
          if is_otp_error e.kind
          then otp_failed firm user f e o
          else log_failure firm f.gstin_profile_id confirm_endpoint none e o)
      after_confirm now new_id firm user f other_exception o = answer_with vendor_crashed o

      unfoldable pub confirm_consent :
          ℕ → ℕ → ℕ → Text → ℕ → Response VendorSession → Office r → Served r
      confirm_consent now new_id firm user inflight_id reply o =
          elim (find_where (λ f. f.inflight_id == inflight_id) o.inflight) [
            | none ↦ answer_with (refused consent_request_unknown) o
            | some f ↦
                if not (f.firm_id == firm) || not (text_eq f.user_id user)
                then answer_with (refused consent_request_unknown) o
                else if is_locked r (otp_keys user f.gstin) o.redis
                then answer_with
                    (refused (
                      otp_locked_out
                        (at_least_one r (ttl_seconds r (otp_keys user f.gstin) o.redis))))
                    o
                else if not has_adapter
                then answer_with (refused no_adapter) o
                else after_confirm now new_id firm user f reply o
          ]
