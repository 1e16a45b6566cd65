-- ===== src/Delivery/Webhook.antt =====
-- The status callbacks of the provider (backend/app/whatsapp/service.py, types.py).
use niyam_ai.Base.{
  ℕ, ◌+◌, Bool, true, false, ◌&&◌, not, Option, none, some, List, [], ◌∷◌, Text, codes, text_eq,
  keep, length, update_where, take, if◌then◌else◌,
}
use niyam_ai.Delivery.Rows.{
  AttemptStatus, queued, sent, delivered, read, failed, DeliveryAttempt, Store, updated_rows,
  Served,
}
use niyam_ai.Delivery.Sending.{is_failed}

pub record WebhookStatusEvent : Type 0 where
  pub provider_message_id : Text
  pub status : Text
  pub at_epoch : ℕ
  pub error_kind : Option Text
  pub error_message : Option Text

-- `status_col_map.get(ev.status)`
unfoldable pub mapped_status : Text → Option AttemptStatus
mapped_status st =
    if text_eq st (codes "sent")
    then some sent
    else if text_eq st (codes "delivered")
    then some delivered
    else if text_eq st (codes "read")
    then some read
    else if text_eq st (codes "failed")
    then some failed
    else none

abbrev pub is_queued : AttemptStatus → Bool
is_queued queued = true
is_queued _ = false

-- `WHERE provider_message_id = :pmid`
abbrev pub at_message : Text → DeliveryAttempt → Bool
at_message pmid a = elim a.provider_message_id [ none ↦ false | some p ↦ text_eq p pmid ]

-- `(ev.error_message or "")[:500] or None`
abbrev pub stored_message : Option Text → Option Text
stored_message none = none
stored_message (some message) = elim (take 500 message) [ [] ↦ none | c ∷ cs ↦ some (c ∷ cs) ]

-- The rows that the update for a status takes, and what it writes.
abbrev pub selects : AttemptStatus → WebhookStatusEvent → DeliveryAttempt → Bool
selects sent ev a = at_message ev.provider_message_id a && is_queued a.status
selects failed ev a = at_message ev.provider_message_id a
selects _ ev a = at_message ev.provider_message_id a && not (is_failed a.status)

abbrev pub writes : AttemptStatus → WebhookStatusEvent → DeliveryAttempt → DeliveryAttempt
writes queued ev a = a
writes sent ev a = record a { status = sent }
writes delivered ev a = record a { status = delivered; delivered_at = some ev.at_epoch }
writes read ev a = record a { status = read; read_at = some ev.at_epoch }
writes failed ev a = record a {
  status = failed;
  failed_at = some ev.at_epoch;
  error_kind = ev.error_kind;
  error_message = stored_message ev.error_message;
}

-- One turn of the loop, with `r.rowcount`.
unfoldable pub apply_event : WebhookStatusEvent → List DeliveryAttempt → List DeliveryAttempt × ℕ
apply_event ev rows = elim (mapped_status ev.status) [
  | none ↦ (rows, 0)
  | some st ↦ (update_where (selects st ev) (writes st ev) rows, length (keep (selects st ev) rows))
]

unfoldable pub apply_events :
    List WebhookStatusEvent → List DeliveryAttempt → List DeliveryAttempt × ℕ
apply_events [] rows = (rows, 0)
apply_events (ev ∷ evs) rows =
    let turn = apply_event ev rows in
    let rest = apply_events evs turn.0 in (rest.0, turn.1 + rest.1)

unfoldable pub apply_webhook_events : List WebhookStatusEvent → Store → Served
apply_webhook_events evs s =
    let applied = apply_events evs s.attempts in
    record { store = record s { attempts = applied.0 }; answer = updated_rows applied.1 }
