-- ===== src/Tests/Delivering.antt =====
-- A report and a chase delivered through a provider in memory.
use niyam_ai.Base.{
  ℕ, ◌≡◌, refl, true, false, Option, none, some, List, [], ◌∷◌, map, arith, Text, codes, length,
}
use niyam_ai.Delivery.Rows.{
  report_send, supplier_default, Owner, AttemptStatus, queued, sent, delivered, failed, mock,
  DeliveryAttempt, Message, Reply, accepted, Call, Store, DeliveryRequest,
}
use niyam_ai.Delivery.Requests.{
  Template, create_report_request, create_chase_request, insert_request, approve,
  mark_near_miss_reviewed,
}
use niyam_ai.Delivery.Sending.{
  Settings, mock_mode, chosen, get_transport, load_and_validate, media_for, open_attempt,
  finish_attempt, lock_request, settle, dispatch, send,
}
use niyam_ai.Delivery.Webhook.{WebhookStatusEvent, mapped_status, apply_event, apply_events}
use niyam_ai.Delivery.Serving.{
  Request, creating_report, creating_chase, approving, marking_reviewed, sending, serve, serve_all,
}
use niyam_ai.Delivery.Cleared.{IsGuarded, answered_calls}
use niyam_ai.Delivery.Guard.{serve_all-IsGuarded}
use niyam_ai.Delivery.Statuses.{final_status, apply_events-statuses}
use niyam_ai.Delivery.Outcome.{IsAccounted, send_accounts}

abbrev settings : Settings
settings = record {
  whatsapp_enabled = true;
  whatsapp_mode = mock_mode;
  has_access_token = false;
  has_phone_number_id = false;
}

abbrev pdf : ℕ → ℕ → Option Text
pdf firm run = some (codes "%PDF")

-- The mock numbers the messages that it takes.
abbrev provider : List Call → Message → Reply
provider calls message = accepted (length calls ∷ [])

abbrev template : Template
template = record {
  whatsapp_number = codes "+919812345678";
  template_name = codes "niyam_report";
  template_language = codes "en_IN";
}

abbrev owner : Owner
owner = record { gstin_profile_id = 30; client_id = 20 }

abbrev office : Store
office = record {
  requests = [];
  attempts = [];
  matches =
      (record {
        id = 40;
        firm_id = 1;
        bucket = supplier_default;
        invoice_owner = some owner;
        b2b_owner = none;
        near_miss_reviewed_at = none;
      })
      ∷ [];
  narrations = (record { id = 50; firm_id = 1; owner = owner }) ∷ [];
  audit = [];
  calls = [];
}

-- The report goes out; the chase is tried before its review, and both are sent a second time.
abbrev day : List Request
day =
    creating_report 100 1 7 50 template
    ∷ creating_chase 101 1 7 40 template
    ∷ sending 10 1 7 200 100 none
    ∷ approving 11 1 7 100
    ∷ approving 11 1 7 101
    ∷ sending 12 1 7 201 100 none
    ∷ sending 13 1 7 202 101 none
    ∷ marking_reviewed 14 1 7 40
    ∷ sending 15 1 7 203 101 none
    ∷ sending 16 1 7 204 100 none
    ∷ sending 17 1 7 205 101 none
    ∷ []

requests-called :
    map (λ c. c.request_id) (serve_all settings pdf provider day office).calls ≡ 100 ∷ 101 ∷ []
unfolding serve_all serve create_report_request create_chase_request insert_request approve
    mark_near_miss_reviewed get_transport load_and_validate media_for open_attempt finish_attempt
    lock_request settle dispatch send
requests-called = refl

serve_all-IsGuarded_example : IsGuarded (serve_all settings pdf provider day office)
serve_all-IsGuarded_example =
    serve_all-IsGuarded settings pdf provider day office (tt, λ id. omega arith)

send_accounts_example :
    IsAccounted settings pdf provider 12 1 201 100 office
      (send settings pdf provider 12 1 7 201 100 none office)
send_accounts_example = send_accounts settings pdf provider 12 1 7 201 100 none office

-- Two sends of one request that both read the gate before either of them locks it: the rows that
-- their gates returned go to the provider one after the other.
abbrev ready : DeliveryRequest
ready = record {
  id = 100;
  firm_id = 1;
  client_id = 20;
  gstin_profile_id = 30;
  purpose = report_send;
  narration_run_id = some 50;
  match_result_id = none;
  whatsapp_number_snapshot = codes "+919812345678";
  template_name = codes "niyam_report";
  template_language = codes "en_IN";
  created_by = 7;
  approved_by = some 7;
  approved_at = some 11;
  locked_at = none;
}

abbrev approved_office : Store
approved_office = record office { requests = ready ∷ [] }

abbrev raced : Store
raced =
    let first = dispatch settings pdf provider 12 1 7 201 mock ready none approved_office in
    (dispatch settings pdf provider 13 1 7 202 mock ready none first.store).store

raced-answered_calls :
    (load_and_validate 1 100 approved_office ≡ chosen ready) × (answered_calls 100 raced.calls ≡ 2)
unfolding load_and_validate open_attempt finish_attempt lock_request settle dispatch
raced-answered_calls = (refl, refl)

abbrev callback : Text → Text → ℕ → WebhookStatusEvent
callback pmid status at = record {
  provider_message_id = pmid;
  status = status;
  at_epoch = at;
  error_kind = none;
  error_message = none;
}

abbrev attempt : ℕ → Text → AttemptStatus → DeliveryAttempt
attempt id pmid status = record {
  id = id;
  firm_id = 1;
  delivery_request_id = id;
  provider = mock;
  status = status;
  provider_message_id = some pmid;
  error_kind = none;
  error_message = none;
  delivered_at = none;
  read_at = none;
  failed_at = none;
}

abbrev attempts : List DeliveryAttempt
attempts =
    attempt 1 (codes "a") sent ∷ attempt 2 (codes "b") sent ∷ attempt 3 (codes "c") queued ∷ []

abbrev callbacks : List WebhookStatusEvent
callbacks =
    callback (codes "a") (codes "failed") 5
    ∷ callback (codes "a") (codes "read") 6
    ∷ callback (codes "b") (codes "read") 7
    ∷ callback (codes "b") (codes "delivered") 8
    ∷ callback (codes "c") (codes "sent") 9
    ∷ callback (codes "c") (codes "deleted") 10
    ∷ []

-- The late "delivered" replaces "read".
statuses-callbacks :
    map (λ a. a.status) (apply_events callbacks attempts).0 ≡ failed ∷ delivered ∷ sent ∷ []
unfolding apply_events apply_event mapped_status
statuses-callbacks = refl

apply_events-statuses_example :
    map (λ a. a.status) (apply_events callbacks attempts).0
    ≡ map (λ a. final_status a callbacks) attempts
apply_events-statuses_example = apply_events-statuses callbacks attempts
