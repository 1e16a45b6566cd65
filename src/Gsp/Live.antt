-- ===== src/Gsp/Live.antt =====
-- A GSTIN has one live session at most (backend/app/gsp/service.py).
use niyam_ai.Base.{
  ℕ, ◌+◌, ◌≤◌, ◌≡◌, refl, sym, subst, Bool, ◌&&◌, Option, none, some, List, [], ◌∷◌, ◌++◌, arith,
  Text, ◌==◌, find_where, update_where, Option-cases, Bool-cases, inl, inr, if◌then◌else◌,
}
use niyam_ai.Auth.Redis.{Redis}
use niyam_ai.Gsp.Retry.{GspError, Response, success, failure, other_exception}
use niyam_ai.Gsp.Rows.{
  InFlight, ConsentAction, connect_consent, disconnect_consent, revoked_by_vendor, RevokedReason,
  reconnect, user_disconnected, GspSession, Office, is_live, log_call, record_action, log_consent,
}
use niyam_ai.Gsp.Consent.{
  ConsentRequest, VendorSession, revoked_row, revoke_live, disconnect, mark_session_dead,
  after_initiate, initiate_consent, otp_failed, new_session, revoke_existing, otp_accepted,
  after_confirm, confirm_consent,
}

-- Live rows of a profile in the firm's view.
abbrev pub live_rows : ℕ → ℕ → List GspSession → ℕ
live_rows firm profile [] = 0
live_rows firm profile (row ∷ rows) =
    (if is_live firm profile row then 1 else 0) + live_rows firm profile rows

-- The unique index `gsp_session_live_uniq`.
abbrev pub IsSingle : List GspSession → Type 0
IsSingle rows = (firm profile : ℕ) → live_rows firm profile rows ≤ 1

-- A revocation ends the life of a row.
live_rows-update_where :
    (firm profile now : ℕ) (reason : RevokedReason) (p : GspSession → Bool) (rows : List GspSession)
    → live_rows firm profile (update_where p (revoked_row now reason) rows)
      ≤ live_rows firm profile rows
live_rows-update_where firm profile now reason p [] = omega arith
live_rows-update_where firm profile now reason p (row ∷ rows) =
    ground (arith, live_rows-update_where firm profile now reason p rows)

update_where-IsSingle :
    (now : ℕ) (reason : RevokedReason) (p : GspSession → Bool) (rows : List GspSession)
    → IsSingle rows
    → IsSingle (update_where p (revoked_row now reason) rows)
update_where-IsSingle now reason p rows h firm profile =
    ground (arith, h firm profile, live_rows-update_where firm profile now reason p rows)

live_rows-append :
    (firm profile : ℕ) (rows : List GspSession) (row : GspSession)
    → live_rows firm profile (rows ++ row ∷ [])
      ≡ live_rows firm profile rows + (if is_live firm profile row then 1 else 0)
live_rows-append firm profile [] row = ground arith
live_rows-append firm profile (x ∷ rows) row =
    ground (arith, live_rows-append firm profile rows row)

-- The row that the query finds is revoked by its key.
live_rows-revoked :
    (firm profile now : ℕ) (reason : RevokedReason) (rows : List GspSession) (old : GspSession)
    → find_where (is_live firm profile) rows ≡ some old
    → live_rows firm profile (update_where (λ row. row.id == old.id) (revoked_row now reason) rows)
        + 1
      ≤ live_rows firm profile rows
live_rows-revoked firm profile now reason [] old e = cc
live_rows-revoked firm profile now reason (row ∷ rows) old e = ground (
  arith,
  e,
  live_rows-revoked firm profile now reason rows old,
  live_rows-update_where firm profile now reason (λ row. row.id == old.id) rows,
)

live_rows-none :
    (firm profile : ℕ) (rows : List GspSession)
    → find_where (is_live firm profile) rows ≡ none
    → live_rows firm profile rows ≡ 0
live_rows-none firm profile [] e = refl
live_rows-none firm profile (row ∷ rows) e = ground (arith, e, live_rows-none firm profile rows)

module _ (now new_id firm profile : ℕ) (user ciphertext : Text) (key_version : ℕ)
    (v : VendorSession) where
  -- The rows after a confirmed consent.
  abbrev reconnected : List GspSession → List GspSession
  reconnected rows =
      revoke_existing now (find_where (is_live firm profile) rows) rows
      ++ new_session new_id firm user profile ciphertext key_version v ∷ []

  pub revoke_existing-live_rows :
      (rows : List GspSession)
      → IsSingle rows
      → live_rows firm profile (revoke_existing now (find_where (is_live firm profile) rows) rows)
        ≡ 0
  revoke_existing-live_rows rows h = elim (Option-cases (find_where (is_live firm profile) rows)) [
    | inl e ↦ ground (arith, e, live_rows-none firm profile rows e)
    | inr (old, e) ↦
        ground (arith, e, h firm profile, live_rows-revoked firm profile now reconnect rows old e)
  ]

  revoke_existing-IsSingle :
      (rows : List GspSession)
      → IsSingle rows
      → IsSingle (revoke_existing now (find_where (is_live firm profile) rows) rows)
  revoke_existing-IsSingle rows h f p =
      elim (Option-cases (find_where (is_live firm profile) rows)) [
        | inl e ↦ ground (arith, e, h f p)
        | inr (old, e) ↦
            ground
              (arith, e, update_where-IsSingle now reconnect (λ row. row.id == old.id) rows h f p)
      ]

  reconnected-IsSingle : (rows : List GspSession) → IsSingle rows → IsSingle (reconnected rows)
  reconnected-IsSingle rows h f p =
      let kept = revoke_existing now (find_where (is_live firm profile) rows) rows in
      let row = new_session new_id firm user profile ciphertext key_version v in
      let count = live_rows-append f p kept row in
      let single = revoke_existing-IsSingle rows h f p in
      elim (Bool-cases (firm == f && profile == p)) [
        | inr other ↦ ground (arith, count, single, other)
        | inl same ↦
            let ef : firm ≡ f = ground (arith, same) in
            let ep : profile ≡ p = ground (arith, same) in
            let at_f =
              subst (λ x. live_rows x profile kept ≡ 0) ef (revoke_existing-live_rows rows h) in
            let at_p = subst (λ x. live_rows f x kept ≡ 0) ep at_f in ground (arith, count, at_p)
      ]

module _ {r : Redis} where
  -- What the log, the consents and the audit do not touch.
  pub log_consent-sessions :
      (now firm profile : ℕ) (revoked : Option ℕ) (user : Option Text) (action : ConsentAction)
      (o : Office r)
      → (log_consent now firm profile revoked user action o).sessions ≡ o.sessions
  unfolding log_consent
  log_consent-sessions now firm profile revoked user action o = ground arith

-- The operations, in the order in which they are served; losing a session is the vendor's signal.
pub data Request : Type 0 where
  initiating :
      (now new_id firm : ℕ) (user : Text) (profile : ℕ) (reply : Response ConsentRequest) → Request
  confirming :
      (now new_id firm : ℕ) (user : Text) (inflight_id : ℕ) (reply : Response VendorSession)
      → Request
  disconnecting : (now firm : ℕ) (user : Text) (profile : ℕ) → Request
  losing : (now firm profile : ℕ) (reason : RevokedReason) → Request

module _ {r : Redis} (has_adapter : Bool) (encrypt : Text → Text × ℕ) where
  unfoldable pub serve : Request → Office r → Office r
  serve (initiating now new_id firm user profile reply) o =
      (initiate_consent has_adapter now new_id firm user profile reply o).office
  serve (confirming now new_id firm user inflight_id reply) o =
      (confirm_consent has_adapter encrypt now new_id firm user inflight_id reply o).office
  serve (disconnecting now firm user profile) o = (disconnect now firm user profile o).office
  serve (losing now firm profile reason) o = mark_session_dead now firm profile reason o

  unfoldable pub serve_all : List Request → Office r → Office r
  serve_all [] o = o
  serve_all (q ∷ qs) o = serve_all qs (serve q o)

  initiate_consent-sessions :
      (now new_id firm : ℕ) (user : Text) (profile : ℕ) (reply : Response ConsentRequest)
      (o : Office r)
      → (initiate_consent has_adapter now new_id firm user profile reply o).office.sessions
        ≡ o.sessions
  unfolding initiate_consent after_initiate log_call
  initiate_consent-sessions now new_id firm user profile (success c) o = ground arith
  initiate_consent-sessions now new_id firm user profile (failure e) o = ground arith
  initiate_consent-sessions now new_id firm user profile other_exception o = ground arith

  disconnect-IsSingle :
      (now firm : ℕ) (user : Text) (profile : ℕ) (o : Office r)
      → IsSingle o.sessions
      → IsSingle (disconnect now firm user profile o).office.sessions
  unfolding disconnect record_action revoke_live
  disconnect-IsSingle now firm user profile o h f p =
      let revoked = revoke_live now firm profile user_disconnected o in
      ground (
        arith,
        h f p,
        update_where-IsSingle now user_disconnected (is_live firm profile) o.sessions h f p,
        log_consent-sessions now firm profile (some now) (some user) disconnect_consent revoked,
      )

  mark_session_dead-IsSingle :
      (now firm profile : ℕ) (reason : RevokedReason) (o : Office r)
      → IsSingle o.sessions
      → IsSingle (mark_session_dead now firm profile reason o).sessions
  unfolding mark_session_dead record_action revoke_live
  mark_session_dead-IsSingle now firm profile reason o h f p =
      let revoked = revoke_live now firm profile reason o in
      ground (
        arith,
        update_where-IsSingle now reason (is_live firm profile) o.sessions h f p,
        log_consent-sessions now firm profile (some now) none revoked_by_vendor revoked,
      )

  otp_accepted-IsSingle :
      (now new_id firm : ℕ) (user : Text) (f : InFlight) (v : VendorSession) (o : Office r)
      → IsSingle o.sessions
      → IsSingle (otp_accepted has_adapter encrypt now new_id firm user f v o).sessions
  unfolding otp_accepted record_action log_call
  otp_accepted-IsSingle now new_id firm user f v o h a b =
      subst (λ rows. live_rows a b rows ≤ 1)
        (sym (log_consent-sessions now firm f.gstin_profile_id none (some user) connect_consent _))
        (reconnected-IsSingle now new_id firm f.gstin_profile_id user (encrypt v.token).0
          (encrypt v.token).1 v o.sessions h a b)

  otp_failed-sessions :
      (firm : ℕ) (user : Text) (f : InFlight) (e : GspError) (o : Office r)
      → (otp_failed has_adapter firm user f e o).sessions ≡ o.sessions
  unfolding otp_failed record_action log_call
  otp_failed-sessions firm user f e o = ground arith

  after_confirm-IsSingle :
      (now new_id firm : ℕ) (user : Text) (f : InFlight) (reply : Response VendorSession)
      (o : Office r)
      → IsSingle o.sessions
      → IsSingle (after_confirm has_adapter encrypt now new_id firm user f reply o).office.sessions
  unfolding after_confirm log_call
  after_confirm-IsSingle now new_id firm user f (success v) o h a b =
      otp_accepted-IsSingle now new_id firm user f v o h a b
  after_confirm-IsSingle now new_id firm user f (failure e) o h a b =
      ground (arith, h a b, otp_failed-sessions firm user f e o)
  after_confirm-IsSingle now new_id firm user f other_exception o h a b = h a b

  confirm_consent-IsSingle :
      (now new_id firm : ℕ) (user : Text) (inflight_id : ℕ) (reply : Response VendorSession)
      (o : Office r)
      → IsSingle o.sessions
      → IsSingle
          (confirm_consent has_adapter encrypt now new_id firm user inflight_id reply
            o).office.sessions
  unfolding confirm_consent
  confirm_consent-IsSingle now new_id firm user inflight_id reply o h a b =
      elim (Option-cases (find_where (λ f. f.inflight_id == inflight_id) o.inflight)) [
        | inl e ↦ ground (arith, e, h a b)
        | inr (f, e) ↦
            ground (arith, e, h a b, after_confirm-IsSingle now new_id firm user f reply o h a b)
      ]

  serve-IsSingle :
      (q : Request) (o : Office r) → IsSingle o.sessions → IsSingle (serve q o).sessions
  unfolding serve
  serve-IsSingle (initiating now new_id firm user profile reply) o h a b =
      ground (arith, h a b, initiate_consent-sessions now new_id firm user profile reply o)
  serve-IsSingle (confirming now new_id firm user inflight_id reply) o h a b =
      confirm_consent-IsSingle now new_id firm user inflight_id reply o h a b
  serve-IsSingle (disconnecting now firm user profile) o h a b =
      disconnect-IsSingle now firm user profile o h a b
  serve-IsSingle (losing now firm profile reason) o h a b =
      mark_session_dead-IsSingle now firm profile reason o h a b

  -- Over any sequence of consents asked for and confirmed, disconnections and losses of sessions,
  -- with any replies of the vendor, a GSTIN keeps at most one session of a firm that is not
  -- revoked: the new row of a reconnection never meets an old one under the unique index. The
  -- sessions at the start are such rows.
  pub serve_all-IsSingle :
      (qs : List Request) (o : Office r) → IsSingle o.sessions → IsSingle (serve_all qs o).sessions
  unfolding serve_all
  serve_all-IsSingle [] o h = h
  serve_all-IsSingle (q ∷ qs) o h = serve_all-IsSingle qs (serve q o) (serve-IsSingle q o h)
