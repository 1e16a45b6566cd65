-- ===== src/Gsp/Pull/Dead.antt =====
-- A session that the vendor declares dead is not used again (backend/app/gsp/service.py).
use niyam_ai.Base.{
  ℕ, suc, ◌≡◌, sym, subst, Bool, true, Option, none, some, arith, Text, Date, length,
  find_where-update_where_out,
}
use niyam_ai.Auth.Redis.{Redis}
use niyam_ai.Ingestion.Money.{Number}
use niyam_ai.Ingestion.Csv.{DateFormat}
use niyam_ai.Ingestion.Gstr2b.{Document}
use niyam_ai.Gsp.Retry.{RetryPolicy, Response, raised, run_with_retry, GspError}
use niyam_ai.Gsp.Rows.{RevokedReason, Office, is_live, revoked_by_vendor, record_action}
use niyam_ai.Gsp.Consent.{revoked_row, revoke_live, mark_session_dead, load_live_row}
use niyam_ai.Gsp.Live.{log_consent-sessions}
use niyam_ai.Gsp.Reload.{LiveSession, load_live_session}
use niyam_ai.Gsp.Pull.{
  Source, Pulls, no_live_session, opened_attempt, dead_reason, log_fetches, open_attempt,
  update_attempt, fail_pull, settle_pull, fetch_period, pull_with, pull_period,
}

module _ {r : Redis} where
  mark_session_dead-load_live_row :
      (now later firm profile : ℕ) (reason : RevokedReason) (o : Office r)
      → load_live_row later firm profile (mark_session_dead now firm profile reason o) ≡ none
  unfolding load_live_row mark_session_dead record_action revoke_live
  mark_session_dead-load_live_row now later firm profile reason o =
      let revoked = revoke_live now firm profile reason o in
      ground (
        arith,
        find_where-update_where_out (is_live firm profile) (revoked_row now reason) o.sessions
            (λ row. ground arith),
        log_consent-sessions now firm profile (some now) none revoked_by_vendor revoked,
      )

module _ {r : Redis} (read_decimal : Text → Number) (strptime : DateFormat → Text → Option Date)
    (str_id : ℕ → Text) (decrypt : Text → ℕ → Text) (has_adapter : Bool) (policy : RetryPolicy)
    (fetch : LiveSession → Text → ℕ → Response Document) (clock : ℕ → ℕ) where
  pull_with-dead :
      (now pull id firm profile later : ℕ) (period : Text) (live : LiveSession) (e : GspError)
      (reason : RevokedReason) (p : Pulls r)
      → (run_with_retry policy (fetch live period)).verdict ≡ raised e
      → dead_reason e ≡ some reason
      → load_live_session decrypt later firm profile
          (pull_with read_decimal strptime str_id decrypt has_adapter policy fetch clock now pull id
            firm profile period
            (some live)
            true
            p).pulls.office
        ≡ none
  unfolding pull_with fetch_period settle_pull fail_pull update_attempt load_live_session
  pull_with-dead now pull id firm profile later period live e reason p v d = ground (
    arith,
    v,
    d,
    mark_session_dead-load_live_row now later firm profile reason (
        log_fetches clock (fetch live period) firm profile period
          (suc (length (run_with_retry policy (fetch live period)).waits)) 0 p.office),
  )

  pull_with-none :
      (now pull id firm profile : ℕ) (period : Text) (wired : Bool) (o : Option LiveSession)
      (p : Pulls r)
      → o ≡ none
      → (pull_with read_decimal strptime str_id decrypt has_adapter policy fetch clock now pull id
          firm profile period o wired p).answer
        ≡ no_live_session
  unfolding pull_with
  pull_with-none now pull id firm profile period wired o p h = ground (arith, h)

  -- When a pull ends with the vendor's word that the session expired or that the consent was
  -- revoked, whatever attempts came before, the next pull of any period for that GSTIN does not
  -- reach the vendor: it raises NoLiveSession.
  pub pull_period-dead :
      (now pull id firm profile : ℕ) (period : Text) (source : Source) (live : LiveSession)
      (e : GspError) (reason : RevokedReason) (p : Pulls r) (later pull' id' : ℕ) (period' : Text)
      (source' : Source)
      → has_adapter ≡ true
      → load_live_session decrypt now firm profile p.office ≡ some live
      → (run_with_retry policy (fetch live period)).verdict ≡ raised e
      → dead_reason e ≡ some reason
      → (pull_period read_decimal strptime str_id decrypt has_adapter policy fetch clock later pull'
          id' firm profile period' source'
          (pull_period read_decimal strptime str_id decrypt has_adapter policy fetch clock now pull
            id firm profile period source p).pulls).answer
        ≡ no_live_session
  unfolding pull_period open_attempt
  pull_period-dead now pull id firm profile period source live e reason p later pull' id' period'
        source' a l v d =
      let opened = open_attempt (opened_attempt id firm profile period source) p in
      let gone = pull_with-dead now pull id firm profile later period live e reason opened v d in
      pull_with-none later pull' id' firm profile period' has_adapter _ _ (
        subst
          (λ b.
            load_live_session decrypt later firm profile
              (after_pull (load_live_session decrypt now firm profile p.office) b).office
            ≡ none)
          (sym a)
          (subst
            (λ o. load_live_session decrypt later firm profile (after_pull o true).office ≡ none)
            (sym l) gone))
    where
      after_pull : Option LiveSession → Bool → Pulls r
      after_pull o b =
          (pull_with read_decimal strptime str_id decrypt has_adapter policy fetch clock now pull id
            firm profile period o b
            (open_attempt (opened_attempt id firm profile period source) p)).pulls
