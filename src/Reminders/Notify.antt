-- ===== src/Reminders/Notify.antt =====
-- The notification of the firm's admin (backend/app/whatsapp/notify.py).
use niyam_ai.Base.{Bool, not, Option, none, some, Text, length, ◌==◌, if◌then◌else◌}
use niyam_ai.Reminders.Log.{LogKey}

-- The transport's answer to a message; WhatsAppError is caught, another exception is not.
pub data TransportReply : Type 0 where
  accepted whatsapp_error other_error : TransportReply

-- What backend/app/whatsapp/notify.py meets: the firm's number, which may be NULL, whether there is
-- a transport (an exception of `get_transport` is caught), and what it answers.
pub record Notifier : Type 0 where
  pub admin_whatsapp_number : Option Text
  pub has_transport : Bool
  pub send_template : LogKey → TransportReply

pub data Notice : Type 0 where
  message_sent no_message notice_raised : Notice

unfoldable pub do_send : Notifier → LogKey → Notice
do_send n k = if not n.has_transport then no_message else elim (n.send_template k) [
  | accepted ↦ message_sent
  | whatsapp_error ↦ no_message
  | other_error ↦ notice_raised
]

unfoldable pub due_date_reminder : Notifier → LogKey → Notice
due_date_reminder n k = elim n.admin_whatsapp_number [
  | none ↦ no_message
  | some number ↦ if length number == 0 then no_message else do_send n k
]
