-- ===== src/Gsp/Scheduler.antt =====
-- The scheduled pulls (backend/app/gsp/service.py): which GSTINs are due, and the loop over them.
-- `new_id` numbers the rows that the loop's pulls insert.
use niyam_ai.Base.{
  ℕ, ◌+◌, ◌≡◌, refl, Bool, true, false, not, ◌&&◌, Option, none, some, List, [], ◌∷◌, ◌++◌, map,
  arith, Text, Date, ltb, keep, any, ◌==◌, is_some, Option-cases, inl, inr,
}
use niyam_ai.Auth.Redis.{Redis}
use niyam_ai.Ingestion.Money.{Number}
use niyam_ai.Ingestion.Csv.{DateFormat}
use niyam_ai.Ingestion.Gstr2b.{Document}
use niyam_ai.Gsp.Retry.{RetryPolicy, Response}
use niyam_ai.Gsp.Rows.{GstinProfile, GspSession}
use niyam_ai.Gsp.Reload.{LiveSession}
use niyam_ai.Gsp.Pull.{
  scheduled, PullAttempt, PullError, session_dead, of_kind, Pulls, Answer, pulled, no_live_session,
  gsp_failed, escaped, Served, pull_period,
}
use niyam_ai.Gsp.Periods.{due_periods_for_today, is_pulled}

-- Firm, profile and period.
pub record Due : Type 0 where
  pub firm_id : ℕ
  pub gstin_profile_id : ℕ
  pub period : Text

-- The rows of the join: profiles with a session that is neither revoked nor past its end.
unfoldable pub is_connected : ℕ → List GspSession → GstinProfile → Bool
is_connected now sessions gp =
    any (λ gs. gs.gstin_profile_id == gp.id && not (is_some gs.revoked_at) && ltb now gs.expires_at)
      sessions

abbrev due_for : GstinProfile → List PullAttempt → List Text → List Due
due_for gp attempts periods =
    map (λ p. record { firm_id = gp.firm_id; gstin_profile_id = gp.id; period = p })
      (keep (λ p. not (is_pulled gp.id p attempts)) periods)

abbrev due_of : List GstinProfile → List PullAttempt → List Text → List Due
due_of [] attempts periods = []
due_of (gp ∷ gps) attempts periods = due_for gp attempts periods ++ due_of gps attempts periods

-- Owner-side, for all firms.
unfoldable pub find_gstins_due : {r : Redis} → ℕ → ℕ → Date → Pulls r → List Due
find_gstins_due now gen_day today p =
    due_of (keep (is_connected now p.office.sessions) p.office.profiles) p.attempts
      (due_periods_for_today gen_day today)

pub data Outcome : Type 0 where
  succeeded_pull : (gstn_pull_id : ℕ) → Outcome
  failed_pull : PullError → Outcome

pub record Report : Type 0 where
  pub due : Due
  pub outcome : Outcome

-- `none` where the exception is not caught.
abbrev pub report_of : Due → Answer → Option Report
report_of d (pulled pull accepted) = some (record { due = d; outcome = succeeded_pull pull })
report_of d no_live_session = some (record { due = d; outcome = failed_pull session_dead })
report_of d (gsp_failed e) = some (record { due = d; outcome = failed_pull (of_kind e.kind) })
report_of d escaped = none

report_of-due : (d : Due) (a : Answer) (x : Report) → report_of d a ≡ some x → x.due ≡ d
report_of-due d (pulled pull accepted) x h = ground (arith, h)
report_of-due d no_live_session x h = ground (arith, h)
report_of-due d (gsp_failed e) x h = ground (arith, h)
report_of-due d escaped x h = ground (arith, h)

pub record Swept (r : Redis) : Type 0 where
  pub pulls : Pulls r
  pub reports : List Report
  -- An exception reached the caller, and the reports are lost.
  pub escaped_sweep : Bool

module _ {r : Redis} (read_decimal : Text → Number) (strptime : DateFormat → Text → Option Date)
    (str_id : ℕ → Text) (decrypt : Text → ℕ → Text) (has_adapter : Bool) (policy : RetryPolicy)
    (fetch : LiveSession → Text → ℕ → Response Document) (clock : ℕ → ℕ) where
  unfoldable pub pull_one : ℕ → ℕ → Due → Pulls r → Served r
  pull_one now new_id d p =
      pull_period read_decimal strptime str_id decrypt has_adapter policy fetch clock now new_id
        new_id d.firm_id d.gstin_profile_id d.period scheduled p

  abbrev add_report : Option Report → Pulls r → Swept r → Swept r
  add_report none p rest = record { pulls = p; reports = []; escaped_sweep = true }
  add_report (some report) p rest = record rest { reports = report ∷ rest.reports }

  unfoldable pub pull_each : ℕ → ℕ → List Due → Pulls r → Swept r
  pull_each now new_id [] p = record { pulls = p; reports = []; escaped_sweep = false }
  pull_each now new_id (d ∷ ds) p =
      let s = pull_one now new_id d p in
      let rest = pull_each now (new_id + 1) ds s.pulls in
      add_report (report_of d s.answer) s.pulls rest

  unfoldable pub run_scheduled_pulls : ℕ → ℕ → ℕ → Date → Pulls r → Swept r
  run_scheduled_pulls now new_id gen_day today p =
      pull_each now new_id (find_gstins_due now gen_day today p) p

  -- A sweep from which nothing escapes reports on every GSTIN that is due, in order.
  pub pull_each-reports :
      (now new_id : ℕ) (ds : List Due) (p : Pulls r)
      → (pull_each now new_id ds p).escaped_sweep ≡ false
      → map (λ x. x.due) (pull_each now new_id ds p).reports ≡ ds
  unfolding pull_each
  pull_each-reports now new_id [] p h = refl
  pull_each-reports now new_id (d ∷ ds) p h =
      let s = pull_one now new_id d p in
      let rest = pull_each-reports now (new_id + 1) ds s.pulls in
      elim (Option-cases (report_of d s.answer)) [
        | inl e ↦ ground (arith, h, e)
        | inr (x, e) ↦ ground (arith, h, e, rest, report_of-due d s.answer x)
      ]
