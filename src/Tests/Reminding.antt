-- ===== src/Tests/Reminding.antt =====
-- A return that is due in three days, with two recipients.
use niyam_ai.Base.{
  ℕ, ◌+◌, ◌≡◌, ◌≢◌, refl, Bool, true, false, Option, none, some, List, [], ◌∷◌, arith, Date, codes,
  length,
}
use niyam_ai.Reminders.Log.{
  ReturnType, gstr1, gstr3b, Channel, whatsapp, SweepState, is_logged, mark_sent, end_session,
  go_on, returned,
}
use niyam_ai.Reminders.Notify.{Notifier, accepted, due_date_reminder, do_send, message_sent}
use niyam_ai.Reminders.Sweep.{
  maybe_send_admin_whatsapp, dispatch_one, dispatch_all, decide, days_in_month, compute_due_date,
  candidate_periods, maybe_dispatch, act_on, sweep_periods, sweep_profiles, sweep_one_firm,
  sweep_firm, sweeps, Occasion,
}
use niyam_ai.Reminders.Sweep.Once.{IsOnce, sweeps-IsOnce}
use niyam_ai.Reminders.Sweep.Twice.{dispatch_all_whatsapps}

abbrev start : SweepState
start = record {
  log = [];
  emails = [];
  whatsapps = [];
  report = record {
    dispatched = 0;
    skipped_filed = 0;
    skipped_duplicate = 0;
    skipped_no_due_date = 0;
    skipped_not_at_threshold = 0;
    errors = 0;
  };
}

abbrev due_day : ℕ → ReturnType → Option ℕ
due_day gid gstr1 = some 11
due_day gid gstr3b = some 20

abbrev notifier : Notifier
notifier = record {
  admin_whatsapp_number = some (codes "+919800000000");
  has_transport = true;
  send_template = λ k. accepted;
}

abbrev occasion : Occasion
occasion = record {
  delivers = λ k. true;
  notifier = notifier;
  due_day = due_day;
  is_filed = λ gid p rt. false;
  recipients = λ gid. 5 ∷ 6 ∷ [];
  commits = true;
  gids = 1 ∷ [];
  today = record { year = 2026; month = 7; day = 8 };
}

program : Unit {0}
unfolding sweeps sweep_firm go_on sweep_one_firm end_session sweep_profiles sweep_periods
    candidate_periods maybe_dispatch act_on decide compute_due_date days_in_month dispatch_all
    dispatch_one maybe_send_admin_whatsapp due_date_reminder do_send is_logged mark_sent
program = tt

-- The second sweep of a day sends nothing.
sweeps-sample :
    let s = sweeps (occasion ∷ occasion ∷ []) start in
    (length s.emails ≡ 2) × (s.report.skipped_duplicate ≡ 2)
unfolding program niyam_ai.Base.ordinal
sweeps-sample = (refl, refl)

-- After a sweep that did not commit, the next one sends all again.
rolled-back-sample :
    let s = sweeps (record occasion { commits = false } ∷ occasion ∷ []) start in
    (length s.emails ≡ 4) × (length s.log ≡ 4) × (s.report.errors ≡ 1)
unfolding program niyam_ai.Base.ordinal
rolled-back-sample = (refl, refl, refl)

start-IsOnce : IsOnce start
start-IsOnce k = ground arith

sweeps-IsOnce_example : IsOnce (sweeps (occasion ∷ occasion ∷ []) start)
sweeps-IsOnce_example = sweeps-IsOnce (occasion ∷ occasion ∷ []) start start-IsOnce

five_six : ◌≢◌ {A = ℕ} 5 6
five_six h = omega (arith, h)

start_unlogged :
    (w : ℕ) (c : Channel)
    → is_logged
        (record {
          gstin_profile_id = 1;
          period = record { year = 2026; month = 6 };
          return_type = gstr1;
          days_before_due = 3;
          channel = c;
          recipient_user_id = w;
        })
        []
      ≡ false
unfolding is_logged
start_unlogged w c = refl

goes_out :
    (w : ℕ)
    → due_date_reminder notifier (record {
      gstin_profile_id = 1;
      period = record { year = 2026; month = 6 };
      return_type = gstr1;
      days_before_due = 3;
      channel = whatsapp;
      recipient_user_id = w;
    })
      ≡ message_sent
unfolding due_date_reminder do_send
goes_out w = refl

dispatch_all_whatsapps_example :
    (s : SweepState) × (dispatch_all
        (λ k. true)
        notifier
        1
        gstr1
        (record { year = 2026; month = 6 })
        3
        (5 ∷ 6 ∷ [])
        start
      ≡ returned s)
    × (length s.whatsapps ≡ 0 + 2)
dispatch_all_whatsapps_example =
    dispatch_all_whatsapps (λ k. true) notifier 1 gstr1 (record { year = 2026; month = 6 }) 3 5 6
      start five_six (λ w. refl) goes_out start_unlogged
