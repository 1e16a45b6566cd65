-- ===== src/Reminders/Sweep.antt =====
-- The reminder sweep of one firm (backend/app/reminders/sweep.py). The rows that the queries give are
-- parameters, as are the answers of the mail server and of WhatsApp; the table `reminder_log`, the
-- messages that went out and the report are the state. The sweep of a firm is one transaction: an
-- exception takes the log back, and leaves the messages and the counters. Of the database's
-- exceptions only that of the commit is modelled.
pub mod Once
pub mod Twice
use niyam_ai.Base.{
  ℕ, ◌+◌, ◌-◌, ◌%◌, Bool, not, ◌&&◌, ◌||◌, Option, none, some, List, [], ◌∷◌, ◌++◌, any, Date,
  ordinal, ◌==◌, leb, if◌then◌else◌,
}
use niyam_ai.Reminders.Log.{
  ReturnType, gstr1, gstr3b, email, whatsapp, Period, LogKey, SweepState, Run, returned, raised,
  ◌>>=◌, end_session, go_on, is_logged, insert_row, mark_sent, on_channel,
}
use niyam_ai.Reminders.Notify.{Notifier, message_sent, no_message, notice_raised, due_date_reminder}

-- `monthrange(y, m)[1]`
unfoldable pub days_in_month : ℕ → ℕ → ℕ
days_in_month y m =
    if m == 2
    then (if y % 4 == 0 && (not (y % 100 == 0) || y % 400 == 0) then 29 else 28)
    else if m == 4 || m == 6 || m == 9 || m == 11
    then 30
    else 31

abbrev following : Period → Period
following p =
    if p.month == 12
    then record { year = p.year + 1; month = 1 }
    else record { year = p.year; month = p.month + 1 }

pub data DueDate : Type 0 where
  no_day : DueDate
  -- `date` raises ValueError.
  no_date : DueDate
  due_on : Date → DueDate

-- `day` is the pack's entry for the return type and scheme; `none` is None, and 0 stands for every
-- entry that is below 1 or no number.
unfoldable pub compute_due_date : Option ℕ → Period → DueDate
compute_due_date none p = no_day
compute_due_date (some day) p =
    let next = following p in
    let last = days_in_month next.year next.month in
    if day == 0
    then no_date
    else due_on
        (record { year = next.year; month = next.month; day = if leb day last then day else last })

-- `_prev` for up to eleven months back: the loop runs once at most.
abbrev pub prev : Period → ℕ → Period
prev p n =
    if leb p.month n
    then record { year = p.year - 1; month = p.month + 12 - n }
    else record { year = p.year; month = p.month - n }

unfoldable pub candidate_periods : Date → List Period
candidate_periods today =
    let p : Period = record { year = today.year; month = today.month } in
    prev p 0 ∷ prev p 1 ∷ prev p 2 ∷ []

abbrev pub reminder_thresholds_days : List ℕ
reminder_thresholds_days = 7 ∷ 3 ∷ 1 ∷ 0 ∷ []

-- `(due - day).days` if it is not negative
abbrev pub days_out : Date → Date → Option ℕ
days_out due today =
    if leb (ordinal today) (ordinal due) then some (ordinal due - ordinal today) else none

-- The row is marked as sent whenever the call returns.
unfoldable pub maybe_send_admin_whatsapp : Notifier → LogKey → SweepState → Run
maybe_send_admin_whatsapp notifier k s =
    let w = on_channel whatsapp k in
    let log = insert_row w s.log in
    if is_logged w s.log then returned s else elim (due_date_reminder notifier w) [
      | message_sent ↦
          returned (record s { log = mark_sent w log; whatsapps = s.whatsapps ++ w ∷ [] })
      | no_message ↦ returned (record s { log = mark_sent w log })
      | notice_raised ↦ raised (record s { log = log })
    ]

abbrev pub mailed : LogKey → SweepState → SweepState
mailed e s = record s {
  log = mark_sent e (insert_row e s.log);
  emails = s.emails ++ e ∷ [];
  report = record s.report { dispatched = s.report.dispatched + 1 };
}

-- Whether the call of the mail server returns; what it raises is caught.
module _ (delivers : LogKey → Bool) (notifier : Notifier) where
  unfoldable pub dispatch_one : LogKey → SweepState → Run
  dispatch_one k s =
      let e = on_channel email k in
      if is_logged e s.log
      then returned (record s {
        report = record s.report { skipped_duplicate = s.report.skipped_duplicate + 1 };
      })
      else if delivers e
      then maybe_send_admin_whatsapp notifier k (mailed e s)
      else returned (record s { log = insert_row e s.log })

  -- One call for each recipient of the profile.
  unfoldable pub dispatch_all : ℕ → ReturnType → Period → ℕ → List ℕ → SweepState → Run
  dispatch_all gid rt p days [] s = returned s
  dispatch_all gid rt p days (user ∷ users) s =
      dispatch_one
        (record {
          gstin_profile_id = gid;
          period = p;
          return_type = rt;
          days_before_due = days;
          channel = email;
          recipient_user_id = user;
        })
        s
      >>= dispatch_all gid rt p days users

  -- The pack's day by profile and return type, whether the filing run is `filed`, and the
  -- recipients of a profile.
  module _ (due_day : ℕ → ReturnType → Option ℕ) (is_filed : ℕ → Period → ReturnType → Bool)
      (recipients : ℕ → List ℕ) where
    -- What the guards of `_maybe_dispatch` say: the report's counter, or the days before due.
    pub data Decision : Type 0 where
      no_due_date bad_due_date not_at_threshold filed_already : Decision
      at_threshold : ℕ → Decision

    unfoldable pub decide : ℕ → ReturnType → Period → Date → Decision
    decide gid rt p today = elim (compute_due_date (due_day gid rt) p) [
      | no_day ↦ no_due_date
      | no_date ↦ bad_due_date
      | due_on due ↦ elim (days_out due today) [
        | none ↦ not_at_threshold
        | some n ↦
            if not (any (λ t. t == n) reminder_thresholds_days)
            then not_at_threshold
            else if is_filed gid p rt
            then filed_already
            else at_threshold n
      ]
    ]

    -- What follows: a counter of the report goes up, `date` raises, or the reminders go out.
    unfoldable pub act_on : Decision → ℕ → ReturnType → Period → SweepState → Run
    act_on bad_due_date gid rt p s = raised s
    act_on (at_threshold n) gid rt p s = dispatch_all gid rt p n (recipients gid) s
    act_on no_due_date gid rt p s = returned (record s {
      report = record s.report { skipped_no_due_date = s.report.skipped_no_due_date + 1 };
    })
    act_on not_at_threshold gid rt p s = returned (record s {
      report = record s.report { skipped_not_at_threshold = s.report.skipped_not_at_threshold + 1 };
    })
    act_on filed_already gid rt p s =
        returned
          (record s { report = record s.report { skipped_filed = s.report.skipped_filed + 1 } })

    unfoldable pub maybe_dispatch : ℕ → ReturnType → Period → Date → SweepState → Run
    maybe_dispatch gid rt p today s = act_on (decide gid rt p today) gid rt p s

    unfoldable pub sweep_periods : ℕ → ReturnType → List Period → Date → SweepState → Run
    sweep_periods gid rt [] today s = returned s
    sweep_periods gid rt (p ∷ ps) today s =
        maybe_dispatch gid rt p today s >>= sweep_periods gid rt ps today

    -- The loop over the profiles of the firm; RETURN_TYPES is GSTR1, then GSTR3B.
    unfoldable pub sweep_profiles : List ℕ → Date → SweepState → Run
    sweep_profiles [] today s = returned s
    sweep_profiles (gid ∷ gids) today s =
        let ps = candidate_periods today in
        sweep_periods gid gstr1 ps today s
        >>= sweep_periods gid gstr3b ps today
        >>= sweep_profiles gids today

    unfoldable pub sweep_one_firm : Bool → List ℕ → Date → SweepState → Run
    sweep_one_firm commits gids today s = end_session commits s (sweep_profiles gids today s)

    -- The body of the loop of `sweep_reminders`.
    unfoldable pub sweep_firm : Bool → List ℕ → Date → SweepState → SweepState
    sweep_firm commits gids today s = go_on (sweep_one_firm commits gids today s)

-- What a sweep meets: the profiles, the day, and the answers of the database, the mail server and
-- WhatsApp.
pub record Occasion : Type 0 where
  pub delivers : LogKey → Bool
  pub notifier : Notifier
  pub due_day : ℕ → ReturnType → Option ℕ
  pub is_filed : ℕ → Period → ReturnType → Bool
  pub recipients : ℕ → List ℕ
  pub commits : Bool
  pub gids : List ℕ
  pub today : Date

-- Sweeps of a firm one after another, with their reports added up.
unfoldable pub sweeps : List Occasion → SweepState → SweepState
sweeps [] s = s
sweeps (o ∷ os) s =
    sweeps os (
      sweep_firm o.delivers o.notifier o.due_day o.is_filed o.recipients o.commits o.gids o.today s)
