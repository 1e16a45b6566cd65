-- ===== src/Gsp/Reload.antt =====
-- The session that a confirmed consent stores is the one that the pulls load
-- (backend/app/gsp/service.py). Encryption (backend/app/gsp/crypto.py) is a parameter.
use niyam_ai.Base.{
  ℕ, ◌<◌, ◌≡◌, refl, ap, ◌∙◌, true, Option, none, some, List, [], ◌∷◌, arith, Text, ◌==◌,
  find_where, find_where-append_none, Option-cases, inl, inr,
}
use niyam_ai.Auth.Redis.{Redis}
use niyam_ai.Gsp.Retry.{success}
use niyam_ai.Gsp.Rows.{
  InFlight, GspSession, Office, profile_at, is_live, load_gstin, log_call, record_action,
  log_consent, connect_consent,
}
use niyam_ai.Gsp.Consent.{
  VendorSession, new_session, revoke_existing, otp_accepted, after_confirm, confirm_consent,
  load_live_row, done,
}
use niyam_ai.Gsp.Live.{IsSingle, live_rows, revoke_existing-live_rows, log_consent-sessions}

pub record LiveSession : Type 0 where
  pub gstin : Text
  pub token : Text
  pub issued_at : ℕ
  pub expires_at : ℕ
  pub vendor_context : Text
  pub row_id : ℕ

-- A session row whose profile is missing is ruled out by its foreign key.
unfoldable pub load_live_session :
    {r : Redis} → (Text → ℕ → Text) → ℕ → ℕ → ℕ → Office r → Option LiveSession
load_live_session decrypt now firm profile o = elim (load_live_row now firm profile o) [
  | none ↦ none
  | some row ↦ elim (load_gstin firm profile o) [
    | none ↦ none
    | some gstin ↦ some (record {
      gstin = gstin;
      token = decrypt row.token_ciphertext row.key_version;
      issued_at = row.issued_at;
      expires_at = row.expires_at;
      vendor_context = row.vendor_context;
      row_id = row.id;
    })
  ]
]

-- With no live row left, the query finds the one that is added.
find_where-no_live :
    (firm profile : ℕ) (rows : List GspSession)
    → live_rows firm profile rows ≡ 0
    → find_where (is_live firm profile) rows ≡ none
find_where-no_live firm profile [] h = refl
find_where-no_live firm profile (row ∷ rows) h =
    ground (arith, h, find_where-no_live firm profile rows)

module _ {r : Redis} (encrypt : Text → Text × ℕ) (decrypt : Text → ℕ → Text)
    (decrypt-encrypt : (t : Text) → decrypt (encrypt t).0 (encrypt t).1 ≡ t) where
  otp_accepted-live :
      (now new_id firm : ℕ) (user : Text) (f : InFlight) (v : VendorSession) (o : Office r)
      → IsSingle o.sessions
      → find_where
          (is_live firm f.gstin_profile_id)
          (otp_accepted true encrypt now new_id firm user f v o).sessions
        ≡ some (
            new_session new_id firm user f.gstin_profile_id
              (encrypt v.token).0
              (encrypt v.token).1
              v)
  unfolding otp_accepted record_action log_call
  otp_accepted-live now new_id firm user f v o h =
      let profile = f.gstin_profile_id in
      let kept = revoke_existing now (find_where (is_live firm profile) o.sessions) o.sessions in
      let row = new_session new_id firm user profile (encrypt v.token).0 (encrypt v.token).1 v in
      let gone = find_where-no_live firm profile kept (
        revoke_existing-live_rows now new_id firm profile user (encrypt v.token).0
          (encrypt v.token).1 v o.sessions h) in
      ap (find_where (is_live firm profile))
        (log_consent-sessions now firm profile none (some user) connect_consent _)
      ∙ find_where-append_none (is_live firm profile) kept (row ∷ []) gone
      ∙ ground arith

  otp_accepted-load_gstin :
      (now new_id firm : ℕ) (user : Text) (f : InFlight) (v : VendorSession) (o : Office r)
      → load_gstin firm f.gstin_profile_id (otp_accepted true encrypt now new_id firm user f v o)
        ≡ load_gstin firm f.gstin_profile_id o
  unfolding otp_accepted record_action log_call load_gstin log_consent
  otp_accepted-load_gstin now new_id firm user f v o =
      elim (Option-cases (find_where (profile_at firm f.gstin_profile_id) o.profiles)) [
        | inl e ↦ ground (arith, e)
        | inr (p, e) ↦ ground (arith, e)
      ]

  -- When an OTP was accepted, the session that is loaded for the profile before its end is the one
  -- that the vendor issued, with the token decrypted to what it was, and its row is the new one,
  -- whatever sessions were live before (one at most). Encryption is taken to be undone by
  -- decryption under the version that it reports.
  pub confirm_consent-load_live_session :
      (now new_id firm : ℕ) (user : Text) (inflight_id later : ℕ) (f : InFlight) (v : VendorSession)
      (gstin : Text) (o : Office r)
      → IsSingle o.sessions
      → find_where (λ f. f.inflight_id == inflight_id) o.inflight ≡ some f
      → load_gstin firm f.gstin_profile_id o ≡ some gstin
      → (confirm_consent true encrypt now new_id firm user inflight_id (success v) o).answer ≡ done
      → later < v.expires_at
      → load_live_session decrypt later firm f.gstin_profile_id
          (confirm_consent true encrypt now new_id firm user inflight_id (success v) o).office
        ≡ some (record {
          gstin = gstin;
          token = v.token;
          issued_at = v.issued_at;
          expires_at = v.expires_at;
          vendor_context = v.vendor_context;
          row_id = new_id;
        })
  unfolding confirm_consent after_confirm load_live_session load_live_row
  confirm_consent-load_live_session now new_id firm user inflight_id later f v gstin o h found named
        ok early =
      ground (
        arith,
        found,
        named,
        ok,
        decrypt-encrypt v.token,
        otp_accepted-live now new_id firm user f v o h,
        otp_accepted-load_gstin now new_id firm user f v o,
      )
