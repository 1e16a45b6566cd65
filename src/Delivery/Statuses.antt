-- ===== src/Delivery/Statuses.antt =====
-- What a batch of status callbacks leaves in the attempts, against a description by message.
use niyam_ai.Base.{
  ◌≡◌, refl, ap, ◌∙◌, Bool, true, false, ◌&&◌, ◌||◌, Option, none, some, List, [], ◌∷◌, map, arith,
  any, update_where, Option-cases, inl, inr, if◌then◌else◌, Text, text_eq,
}
use niyam_ai.Delivery.Rows.{AttemptStatus, queued, sent, delivered, read, failed, DeliveryAttempt}
use niyam_ai.Delivery.Sending.{is_failed}
use niyam_ai.Delivery.Webhook.{
  WebhookStatusEvent, mapped_status, is_queued, selects, writes, apply_event, apply_events,
}

abbrev is_sent : AttemptStatus → Bool
is_sent sent = true
is_sent _ = false

abbrev is_progress : AttemptStatus → Bool
is_progress delivered = true
is_progress read = true
is_progress _ = false

-- Does the event give the message a status that passes the test?
abbrev pub says : (AttemptStatus → Bool) → Option Text → WebhookStatusEvent → Bool
says test none ev = false
says test (some pmid) ev =
    text_eq pmid ev.provider_message_id
    && elim (mapped_status ev.status) [ none ↦ false | some st ↦ test st ]

-- The last status among delivered and read that the events give the message.
abbrev pub last_progress : Option Text → List WebhookStatusEvent → Option AttemptStatus
last_progress pmid [] = none
last_progress pmid (ev ∷ evs) = elim (last_progress pmid evs) [
  | some st ↦ some st
  | none ↦ if says is_progress pmid ev then mapped_status ev.status else none
]

-- Failed if it was or if any event says so; else by the last progress; else sent, if it was
-- queued and an event says so; else as it was.
abbrev pub final_status : DeliveryAttempt → List WebhookStatusEvent → AttemptStatus
final_status a evs =
    if is_failed a.status || any (says is_failed a.provider_message_id) evs
    then failed
    else elim (last_progress a.provider_message_id evs) [
      | some st ↦ st
      | none ↦
          if is_queued a.status && any (says is_sent a.provider_message_id) evs
          then sent
          else a.status
    ]

abbrev turn : WebhookStatusEvent → DeliveryAttempt → DeliveryAttempt
turn ev a = elim (mapped_status ev.status) [
  | none ↦ a
  | some st ↦ if selects st ev a then writes st ev a else a
]

update_where-map :
    (p : DeliveryAttempt → Bool) (f : DeliveryAttempt → DeliveryAttempt)
    (rows : List DeliveryAttempt)
    → update_where p f rows ≡ map (λ a. if p a then f a else a) rows
update_where-map p f [] = refl
update_where-map p f (a ∷ rows) = ap (λ r. (if p a then f a else a) ∷ r) (update_where-map p f rows)

map-same : (rows : List DeliveryAttempt) → rows ≡ map (λ a. a) rows
map-same [] = refl
map-same (a ∷ rows) = ap (λ r. a ∷ r) (map-same rows)

apply_event-map :
    (ev : WebhookStatusEvent) (rows : List DeliveryAttempt)
    → (apply_event ev rows).0 ≡ map (turn ev) rows
unfolding apply_event
apply_event-map ev rows = elim (Option-cases (mapped_status ev.status)) [
  | inl e ↦ ground (arith, e, map-same rows)
  | inr (st, e) ↦ ground (arith, e, update_where-map (selects st ev) (writes st ev) rows)
]

final_status-writes :
    (ev : WebhookStatusEvent) (evs : List WebhookStatusEvent) (a : DeliveryAttempt) (pmid : Text)
    (st : AttemptStatus)
    → a.provider_message_id ≡ some pmid
    → mapped_status ev.status ≡ some st
    → final_status (turn ev a) evs ≡ final_status a (ev ∷ evs)
final_status-writes ev evs a pmid queued p e = ground (arith, p, e)
final_status-writes ev evs a pmid sent p e = ground (arith, p, e)
final_status-writes ev evs a pmid delivered p e = ground (arith, p, e)
final_status-writes ev evs a pmid read p e = ground (arith, p, e)
final_status-writes ev evs a pmid failed p e = ground (arith, p, e)

final_status-turn :
    (ev : WebhookStatusEvent) (evs : List WebhookStatusEvent) (a : DeliveryAttempt)
    → final_status (turn ev a) evs ≡ final_status a (ev ∷ evs)
final_status-turn ev evs a = elim (Option-cases (mapped_status ev.status)) [
  | inl e ↦ ground (arith, e)
  | inr (st, e) ↦ elim (Option-cases a.provider_message_id) [
    | inl p ↦ ground (arith, e, p)
    | inr (pmid, p) ↦ final_status-writes ev evs a pmid st p e
  ]
]

final_statuses-turn :
    (ev : WebhookStatusEvent) (evs : List WebhookStatusEvent) (rows : List DeliveryAttempt)
    → map (λ a. final_status a evs) (map (turn ev) rows) ≡ map (λ a. final_status a (ev ∷ evs)) rows
final_statuses-turn ev evs [] = refl
final_statuses-turn ev evs (a ∷ rows) =
    cc (final_status-turn ev evs a, final_statuses-turn ev evs rows)

final_status-no_event : (a : DeliveryAttempt) → a.status ≡ final_status a []
final_status-no_event a = ground arith

-- After a batch of callbacks the status of each attempt, in order, is the one that the events
-- naming its message give it: failed if it was failed or any of them says failed; else the last
-- among delivered and read; else sent, if it was queued and one says sent; else as before. So a
-- failure is final, wherever in the batch it stands, while a late "delivered" replaces "read".
pub apply_events-statuses :
    (evs : List WebhookStatusEvent) (rows : List DeliveryAttempt)
    → map (λ a. a.status) (apply_events evs rows).0 ≡ map (λ a. final_status a evs) rows
unfolding apply_events
apply_events-statuses [] [] = refl
apply_events-statuses [] (a ∷ rows) = cc (final_status-no_event a, apply_events-statuses [] rows)
apply_events-statuses (ev ∷ evs) rows =
    apply_events-statuses evs (apply_event ev rows).0
    ∙ ap (map (λ a. final_status a evs)) (apply_event-map ev rows)
    ∙ final_statuses-turn ev evs rows
