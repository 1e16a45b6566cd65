-- ===== src/Reminders/Sweep/Once.antt =====
-- How often a recipient and the firm's admin are reminded (backend/app/reminders/sweep.py).
use niyam_ai.Base.{
  ℕ, ◌+◌, ◌≤◌, ◌≡◌, refl, Bool, true, false, Option, List, [], ◌∷◌, ◌++◌, arith, Date, total,
  total-append, if◌then◌else◌, Bool-cases, inl, inr,
}
use niyam_ai.Reminders.Log.{
  ReturnType, gstr1, gstr3b, email, whatsapp, Period, LogKey, LogRow, SweepState, Run, returned,
  raised, ◌>>=◌, key_eq, is_logged, insert_row, mark_sent, on_channel, end_session, go_on,
}
use niyam_ai.Reminders.Notify.{
  Notifier, Notice, message_sent, no_message, notice_raised, due_date_reminder,
}
use niyam_ai.Reminders.Sweep.{
  mailed, maybe_send_admin_whatsapp, dispatch_one, dispatch_all, Decision, no_due_date,
  bad_due_date, not_at_threshold, filed_already, at_threshold, act_on, maybe_dispatch,
  sweep_periods, sweep_profiles, sweep_one_firm, sweep_firm, candidate_periods, Occasion, sweeps,
}

-- How many messages went out for a key, and how many rows the log has for it.
abbrev pub messages : LogKey → List LogKey → ℕ
messages k = total (λ e. if key_eq e k then 1 else 0)

abbrev pub log_rows : LogKey → List LogRow → ℕ
log_rows k = total (λ r. if key_eq r.key k then 1 else 0)

-- Every message has its row or an exception that took the row back, and no key has two rows.
abbrev pub IsOnce : SweepState → Type 0
IsOnce s =
    (k : LogKey)
    → (messages k s.emails ≤ log_rows k s.log + s.report.errors)
      × (messages k s.whatsapps ≤ log_rows k s.log + s.report.errors)
      × (log_rows k s.log ≤ 1)

-- The state of a run, whether it returned or raised.
abbrev reached : Run → SweepState
reached (returned s) = s
reached (raised s) = s

>>=-IsOnce :
    (m : Run) (f : SweepState → Run)
    → IsOnce (reached m)
    → ((s : SweepState) → IsOnce s → IsOnce (reached (f s)))
    → IsOnce (reached (m >>= f))
>>=-IsOnce (returned s) f once next = next s once
>>=-IsOnce (raised s) f once next = once

log_rows-mark_sent :
    (k j : LogKey) (log : List LogRow) → log_rows k (mark_sent j log) ≡ log_rows k log
unfolding mark_sent
log_rows-mark_sent k j [] = refl
log_rows-mark_sent k j (r ∷ rs) = ground (arith, log_rows-mark_sent k j rs)

key_eq_trans : (a b k : LogKey) → key_eq a k ≡ true → key_eq b k ≡ true → key_eq a b ≡ true
key_eq_trans a b k h1 h2 = ground arith

log_rows-fresh :
    (k j : LogKey) (log : List LogRow)
    → is_logged j log ≡ false
    → key_eq j k ≡ true
    → log_rows k log ≡ 0
unfolding is_logged
log_rows-fresh k j [] h e = refl
log_rows-fresh k j (r ∷ rs) h e = ground (arith, log_rows-fresh k j rs, key_eq_trans r.key j k)

log_rows-insert_row :
    (k j : LogKey) (log : List LogRow)
    → log_rows k (insert_row j log) ≡ log_rows k log + (if key_eq j k then 1 else 0)
log_rows-insert_row k j log = omega (
  arith,
  total-append (λ r. if key_eq r.key k then 1 else 0) log ((record { key = j; sent = false }) ∷ []),
)

messages-append :
    (k j : LogKey) (sent : List LogKey)
    → messages k (sent ++ j ∷ []) ≡ messages k sent + (if key_eq j k then 1 else 0)
messages-append k j sent =
    omega (arith, total-append (λ e. if key_eq e k then 1 else 0) sent (j ∷ []))

inserted-IsOnce :
    (e : LogKey) (s : SweepState)
    → is_logged e s.log ≡ false
    → IsOnce s
    → IsOnce (record s { log = insert_row e s.log })
inserted-IsOnce e s new once a =
    ground (arith, once a, log_rows-insert_row a e s.log, log_rows-fresh a e s.log)

marked-IsOnce :
    (e : LogKey) (s : SweepState) → IsOnce s → IsOnce (record s { log = mark_sent e s.log })
marked-IsOnce e s once a = ground (arith, once a, log_rows-mark_sent a e s.log)

mailed-IsOnce :
    (e : LogKey) (s : SweepState) → is_logged e s.log ≡ false → IsOnce s → IsOnce (mailed e s)
mailed-IsOnce e s new once a = ground (
  arith,
  once a,
  log_rows-mark_sent a e (insert_row e s.log),
  log_rows-insert_row a e s.log,
  messages-append a e s.emails,
  log_rows-fresh a e s.log,
)

notified-IsOnce :
    (w : LogKey) (s : SweepState)
    → is_logged w s.log ≡ false
    → IsOnce s
    → IsOnce
        (record s { log = mark_sent w (insert_row w s.log); whatsapps = s.whatsapps ++ w ∷ [] })
notified-IsOnce w s new once a = ground (
  arith,
  once a,
  log_rows-mark_sent a w (insert_row w s.log),
  log_rows-insert_row a w s.log,
  messages-append a w s.whatsapps,
  log_rows-fresh a w s.log,
)

-- An exception takes the rows back, and is counted.
rolled_back-IsOnce :
    (s s' : SweepState)
    → IsOnce s
    → IsOnce s'
    → IsOnce
        (record s' { log = s.log; report = record s'.report { errors = s'.report.errors + 1 } })
rolled_back-IsOnce s s' once once' a = omega (arith, once a, once' a)

end_session-IsOnce :
    (commits : Bool) (s : SweepState) (m : Run)
    → IsOnce s
    → IsOnce (reached m)
    → IsOnce (go_on (end_session commits s m))
unfolding end_session go_on
end_session-IsOnce true s (returned s') once h = h
end_session-IsOnce false s (returned s') once h = rolled_back-IsOnce s s' once h
end_session-IsOnce true s (raised s') once h = rolled_back-IsOnce s s' once h
end_session-IsOnce false s (raised s') once h = rolled_back-IsOnce s s' once h

module _ (delivers : LogKey → Bool) (notifier : Notifier) where
  maybe_send_admin_whatsapp-IsOnce :
      (k : LogKey) (s : SweepState)
      → IsOnce s
      → IsOnce (reached (maybe_send_admin_whatsapp notifier k s))
  unfolding maybe_send_admin_whatsapp
  maybe_send_admin_whatsapp-IsOnce k s once =
      let w = on_channel whatsapp k in
      elim (Bool-cases (is_logged w s.log)) [
        | inl old ↦ rw old once
        | inr new ↦ rw new (noticed w s new once (due_date_reminder notifier w))
      ]
    where
      noticed :
          (w : LogKey) (s : SweepState)
          → is_logged w s.log ≡ false
          → IsOnce s
          → (n : Notice)
          → IsOnce (
              reached (elim n [
                | message_sent ↦ returned (record s {
                  log = mark_sent w (insert_row w s.log);
                  whatsapps = s.whatsapps ++ w ∷ [];
                })
                | no_message ↦ returned (record s { log = mark_sent w (insert_row w s.log) })
                | notice_raised ↦ raised (record s { log = insert_row w s.log })
              ]))
      noticed w s new once message_sent = notified-IsOnce w s new once
      noticed w s new once no_message =
          marked-IsOnce w (record s { log = insert_row w s.log }) (inserted-IsOnce w s new once)
      noticed w s new once notice_raised = inserted-IsOnce w s new once

  dispatch_one-IsOnce :
      (k : LogKey) (s : SweepState)
      → IsOnce s
      → IsOnce (reached (dispatch_one delivers notifier k s))
  unfolding dispatch_one
  dispatch_one-IsOnce k s once =
      let e = on_channel email k in
      elim (Bool-cases (is_logged e s.log)) [
        | inl old ↦ rw old once
        | inr new ↦ elim (Bool-cases (delivers e)) [
          | inl ok ↦
              rw (new, ok)
                (maybe_send_admin_whatsapp-IsOnce k (mailed e s) (mailed-IsOnce e s new once))
          | inr lost ↦ rw (new, lost) (inserted-IsOnce e s new once)
        ]
      ]

  dispatch_all-IsOnce :
      (gid : ℕ) (rt : ReturnType) (p : Period) (days : ℕ) (users : List ℕ) (s : SweepState)
      → IsOnce s
      → IsOnce (reached (dispatch_all delivers notifier gid rt p days users s))
  unfolding dispatch_all
  dispatch_all-IsOnce gid rt p days [] s once = once
  dispatch_all-IsOnce gid rt p days (user ∷ users) s once =
      >>=-IsOnce (dispatch_one delivers notifier _ s) _ (dispatch_one-IsOnce _ s once)
        (dispatch_all-IsOnce gid rt p days users)

  module _ (due_day : ℕ → ReturnType → Option ℕ) (is_filed : ℕ → Period → ReturnType → Bool)
      (recipients : ℕ → List ℕ) where
    act_on-IsOnce :
        (d : Decision delivers notifier due_day is_filed recipients) (gid : ℕ) (rt : ReturnType)
        (p : Period) (s : SweepState)
        → IsOnce s
        → IsOnce (reached (act_on delivers notifier due_day is_filed recipients d gid rt p s))
    unfolding act_on
    act_on-IsOnce bad_due_date gid rt p s once = once
    act_on-IsOnce (at_threshold n) gid rt p s once =
        dispatch_all-IsOnce gid rt p n (recipients gid) s once
    act_on-IsOnce no_due_date gid rt p s once = once
    act_on-IsOnce not_at_threshold gid rt p s once = once
    act_on-IsOnce filed_already gid rt p s once = once

    sweep_periods-IsOnce :
        (gid : ℕ) (rt : ReturnType) (ps : List Period) (today : Date) (s : SweepState)
        → IsOnce s
        → IsOnce (
            reached (sweep_periods delivers notifier due_day is_filed recipients gid rt ps today s))
    unfolding sweep_periods maybe_dispatch
    sweep_periods-IsOnce gid rt [] today s once = once
    sweep_periods-IsOnce gid rt (p ∷ ps) today s once =
        >>=-IsOnce (act_on delivers notifier due_day is_filed recipients _ gid rt p s) _
          (act_on-IsOnce _ gid rt p s once) (sweep_periods-IsOnce gid rt ps today)

    sweep_profiles-IsOnce :
        (gids : List ℕ) (today : Date) (s : SweepState)
        → IsOnce s
        → IsOnce
            (reached (sweep_profiles delivers notifier due_day is_filed recipients gids today s))
    unfolding sweep_profiles
    sweep_profiles-IsOnce [] today s once = once
    sweep_profiles-IsOnce (gid ∷ gids) today s once =
        let ps = candidate_periods today in
        let periods : ReturnType → SweepState → Run =
          λ rt. sweep_periods delivers notifier due_day is_filed recipients gid rt ps today in
        >>=-IsOnce (periods gstr1 s >>= periods gstr3b)
          (sweep_profiles delivers notifier due_day is_filed recipients gids today)
          (>>=-IsOnce (periods gstr1 s) (periods gstr3b)
            (sweep_periods-IsOnce gid gstr1 ps today s once)
            (sweep_periods-IsOnce gid gstr3b ps today))
          (sweep_profiles-IsOnce gids today)

    sweep_firm-IsOnce :
        (commits : Bool) (gids : List ℕ) (today : Date) (s : SweepState)
        → IsOnce s
        → IsOnce (sweep_firm delivers notifier due_day is_filed recipients commits gids today s)
    unfolding sweep_firm sweep_one_firm
    sweep_firm-IsOnce commits gids today s once =
        end_session-IsOnce commits s
          (sweep_profiles delivers notifier due_day is_filed recipients gids today s) once
          (sweep_profiles-IsOnce gids today s once)

-- Whatever the profiles, days and answers of a series of sweeps of a firm are, they keep the
-- following. No key of the log has two rows, and for each key, of a recipient and a channel about one
-- return at one threshold, the messages that went out are at most its rows and the sweeps that an
-- exception ended. So there is one message, and one more at most for each sweep that was taken back.
pub sweeps-IsOnce : (os : List Occasion) (s : SweepState) → IsOnce s → IsOnce (sweeps os s)
unfolding sweeps
sweeps-IsOnce [] s once = once
sweeps-IsOnce (o ∷ os) s once = sweeps-IsOnce os _ (
    sweep_firm-IsOnce o.delivers o.notifier o.due_day o.is_filed o.recipients o.commits o.gids
      o.today s once)
