-- ===== src/Reminders/Sweep/Twice.antt =====
-- The messages to the firm's admin (backend/app/reminders/sweep.py, `_maybe_send_admin_whatsapp`,
-- backend/app/whatsapp/notify.py).
use niyam_ai.Base.{
  ℕ, ◌+◌, ◌≡◌, ◌≢◌, refl, sym, subst, Bool, true, false, List, [], ◌∷◌, ◌++◌, arith, length,
  length-append,
}
use niyam_ai.Reminders.Log.{
  ReturnType, Channel, email, whatsapp, Period, LogKey, LogRow, SweepState, key_eq, is_logged,
  insert_row, mark_sent, returned,
}
use niyam_ai.Reminders.Notify.{Notifier, due_date_reminder, message_sent}
use niyam_ai.Reminders.Sweep.{mailed, maybe_send_admin_whatsapp, dispatch_one, dispatch_all}

is_logged-mark_sent :
    (k j : LogKey) (log : List LogRow) → is_logged k (mark_sent j log) ≡ is_logged k log
unfolding is_logged mark_sent
is_logged-mark_sent k j [] = refl
is_logged-mark_sent k j (r ∷ rs) = ground (arith, is_logged-mark_sent k j rs)

is_logged-insert_row :
    (k j : LogKey) (log : List LogRow)
    → key_eq j k ≡ false
    → is_logged k log ≡ false
    → is_logged k (insert_row j log) ≡ false
unfolding is_logged
is_logged-insert_row k j [] ne h = ground arith
is_logged-insert_row k j (r ∷ rs) ne h = ground (arith, is_logged-insert_row k j rs ne)

-- The row of another key leaves a key unlogged, sent or not.
is_logged-other :
    (k j : LogKey) (log : List LogRow)
    → key_eq j k ≡ false
    → is_logged k log ≡ false
    → is_logged k (mark_sent j (insert_row j log)) ≡ false
is_logged-other k j log ne h =
    ground (arith, is_logged-mark_sent k j (insert_row j log), is_logged-insert_row k j log ne h)

abbrev pub key_of : ℕ → ReturnType → Period → ℕ → ℕ → Channel → LogKey
key_of gid rt p days user c = record {
  gstin_profile_id = gid;
  period = p;
  return_type = rt;
  days_before_due = days;
  channel = c;
  recipient_user_id = user;
}

module _ (delivers : LogKey → Bool) (notifier : Notifier) (gid : ℕ) (rt : ReturnType) (p : Period)
    (days : ℕ) where
  abbrev key : ℕ → Channel → LogKey
  key = key_of gid rt p days

  kinds_differ : (u : ℕ) → key_eq (key u email) (key u whatsapp) ≡ false
  kinds_differ u = ground arith

  users_differ : (u v : ℕ) (c d : Channel) → u ≢ v → key_eq (key u c) (key v d) ≡ false
  users_differ u v c d ne = ground arith

  -- What a delivered reminder does: a message of each kind, and no key of another user is logged.
  dispatch_one-sends :
      (u : ℕ) (s : SweepState)
      → delivers (key u email) ≡ true
      → due_date_reminder notifier (key u whatsapp) ≡ message_sent
      → is_logged (key u email) s.log ≡ false
      → is_logged (key u whatsapp) s.log ≡ false
      → (s' : SweepState) × (dispatch_one delivers notifier (key u email) s ≡ returned s')
        × (length s'.whatsapps ≡ length s.whatsapps + 1)
        × (s'.log
            ≡ mark_sent (key u whatsapp) (
                insert_row
                  (key u whatsapp)
                  (mark_sent (key u email) (insert_row (key u email) s.log))))
  unfolding dispatch_one maybe_send_admin_whatsapp
  dispatch_one-sends u s ok goes he hw =
      let still = is_logged-other (key u whatsapp) (key u email) s.log (kinds_differ u) hw in
      (
        record (mailed (key u email) s) {
          log =
              mark_sent (key u whatsapp) (insert_row (key u whatsapp) (mailed (key u email) s).log);
          whatsapps = s.whatsapps ++ key u whatsapp ∷ [];
        },
        rw (he, ok, still, goes) refl,
        omega (arith, length-append s.whatsapps (key u whatsapp ∷ [])),
        refl,
      )

  -- Two different recipients of a profile: when every mail about the return at this threshold is
  -- delivered, every notification about it goes out (the firm has a number, and the transport accepts
  -- it), and the log has no row about it yet, the reminders go out and the firm's admin gets two
  -- messages about it.
  pub dispatch_all_whatsapps :
      (u v : ℕ) (s : SweepState)
      → u ≢ v
      → ((w : ℕ) → delivers (key w email) ≡ true)
      → ((w : ℕ) → due_date_reminder notifier (key w whatsapp) ≡ message_sent)
      → ((w : ℕ) (c : Channel) → is_logged (key w c) s.log ≡ false)
      → (s' : SweepState) × (dispatch_all delivers notifier gid rt p days (u ∷ v ∷ []) s
          ≡ returned s')
        × (length s'.whatsapps ≡ length s.whatsapps + 2)
  unfolding dispatch_all
  dispatch_all_whatsapps u v s ne ok goes fresh =
      let (s1, e1, n1, l1) =
        dispatch_one-sends u s (ok u) (goes u) (fresh u email) (fresh u whatsapp) in
      let log1 = mark_sent (key u email) (insert_row (key u email) s.log) in
      let unlogged : (c : Channel) → is_logged (key v c) s1.log ≡ false = λ c.
        subst (λ l. is_logged (key v c) l ≡ false) (sym l1)
          (is_logged-other (key v c) (key u whatsapp) log1 (users_differ u v whatsapp c ne) (
            is_logged-other (key v c) (key u email) s.log (users_differ u v email c ne)
              (fresh v c))) in
      let (s2, e2, n2, l2) =
        dispatch_one-sends v s1 (ok v) (goes v) (unlogged email) (unlogged whatsapp) in
      (s2, rw e1 (rw e2 refl), omega (arith, n1, n2))
