-- ===== src/Reminders/Log.antt =====
-- The table `reminder_log`, the report, and the transaction around the sweep of a firm
-- (backend/app/reminders/sweep.py, backend/app/models/tables.py, backend/app/db.py). A period YYYYMM is
-- its year and month.
use niyam_ai.Base.{ℕ, ◌+◌, Bool, true, false, ◌&&◌, ◌||◌, List, [], ◌∷◌, ◌++◌, ◌==◌, if◌then◌else◌}

pub data ReturnType : Type 0 where
  gstr1 gstr3b : ReturnType

pub data Channel : Type 0 where
  email whatsapp : Channel

pub record Period : Type 0 where
  pub year : ℕ
  pub month : ℕ

-- The columns of the constraint `reminder_log_idempotency`.
pub record LogKey : Type 0 where
  pub gstin_profile_id : ℕ
  pub period : Period
  pub return_type : ReturnType
  pub days_before_due : ℕ
  pub channel : Channel
  pub recipient_user_id : ℕ

-- A row of `reminder_log`; `sent` says that `sent_at` is set.
pub record LogRow : Type 0 where
  pub key : LogKey
  pub sent : Bool

-- The counters of `SweepReport` that the sweep of a firm adds to; `errors` has one entry for each
-- firm whose sweep ended in an exception.
pub record SweepReport : Type 0 where
  pub dispatched : ℕ
  pub skipped_filed : ℕ
  pub skipped_duplicate : ℕ
  pub skipped_no_due_date : ℕ
  pub skipped_not_at_threshold : ℕ
  pub errors : ℕ

-- `emails` are the calls of the mail server that returned, `whatsapps` the messages that the
-- transport accepted, by the key of their row.
pub record SweepState : Type 0 where
  pub log : List LogRow
  pub emails : List LogKey
  pub whatsapps : List LogKey
  pub report : SweepReport

-- A step returns, or raises in a state of the transaction.
pub data Run : Type 0 where
  returned raised : SweepState → Run

infixl 5 ◌>>=◌
abbrev pub ◌>>=◌ : Run → (SweepState → Run) → Run
returned s >>= f = f s
raised s >>= f = raised s

-- The end of `firm_scoped_session`, which began at `s`: an exception of the body or of the commit
-- takes back what was written to the log.
unfoldable pub end_session : (commits : Bool) (s : SweepState) → Run → Run
end_session true s (returned s') = returned s'
end_session false s (returned s') = raised (record s' { log = s.log })
end_session commits s (raised s') = raised (record s' { log = s.log })

-- The handler around the sweep of a firm goes on after an exception.
unfoldable pub go_on : Run → SweepState
go_on (returned s) = s
go_on (raised s) = record s { report = record s.report { errors = s.report.errors + 1 } }

abbrev return_type_eq : ReturnType → ReturnType → Bool
return_type_eq gstr1 gstr1 = true
return_type_eq gstr3b gstr3b = true
return_type_eq _ _ = false

abbrev channel_eq : Channel → Channel → Bool
channel_eq email email = true
channel_eq whatsapp whatsapp = true
channel_eq _ _ = false

abbrev pub key_eq : LogKey → LogKey → Bool
key_eq a b =
    a.gstin_profile_id == b.gstin_profile_id
    && a.period.year == b.period.year
    && a.period.month == b.period.month
    && return_type_eq a.return_type b.return_type
    && a.days_before_due == b.days_before_due
    && channel_eq a.channel b.channel
    && a.recipient_user_id == b.recipient_user_id

-- `INSERT … ON CONFLICT DO NOTHING`: whether the row is there already.
unfoldable pub is_logged : LogKey → List LogRow → Bool
is_logged k [] = false
is_logged k (r ∷ rs) = key_eq r.key k || is_logged k rs

abbrev pub insert_row : LogKey → List LogRow → List LogRow
insert_row k log = log ++ (record { key = k; sent = false }) ∷ []

-- `UPDATE reminder_log SET sent_at = now()`
unfoldable pub mark_sent : LogKey → List LogRow → List LogRow
mark_sent k [] = []
mark_sent k (r ∷ rs) = (if key_eq r.key k then (record r { sent = true }) else r) ∷ mark_sent k rs

abbrev pub on_channel : Channel → LogKey → LogKey
on_channel c k = record k { channel = c }
