-- ===== src/Delivery/Sending.antt =====
-- The gate (backend/app/whatsapp/gate.py) and the sending of a message (service.py). A parameter
-- stands for the PDF of a narration run (`none` when it cannot be made), and one for the provider,
-- whose reply may depend on what it received before.
use niyam_ai.Base.{
  ℕ, ◌≡◌, refl, ◌⊎◌, inl, inr, Bool, true, false, ◌&&◌, not, Option, none, some, List, [], ◌∷◌,
  ◌++◌, Text, ◌==◌, is_some, find_where, update_where, take, if◌then◌else◌,
}
use niyam_ai.Delivery.Rows.{
  Purpose, report_send, supplier_chase, DeliveryRequest, AttemptStatus, queued, sent, failed,
  Provider, mock, meta, Action, report_sent, supplier_chase_sent, delivery_failed, kind_value,
  Message, Reply, accepted, whatsapp_error, crashed, Call, Store, Refusal, whatsapp_disabled,
  transport_misconfigured, delivery_request_unknown, delivery_request_locked, approval_missing,
  near_miss_review_missing, render_failed, id_taken, message_sent, send_failed, send_crashed,
  Served, refuse, request_at, attempt_at, firm_request, firm_match, record_action,
}

pub data Mode : Type 0 where
  mock_mode meta_mode unknown_mode : Mode

-- The settings; of the two secrets, whether they are set.
pub record Settings : Type 0 where
  pub whatsapp_enabled : Bool
  pub whatsapp_mode : Mode
  pub has_access_token : Bool
  pub has_phone_number_id : Bool

pub data Choice (A : Type 0) : Type 0 where
  chosen : A → Choice A
  denied : Refusal → Choice A

pub Choice-cases :
    {A : Type 0} (c : Choice A) → ((a : A) × (c ≡ chosen a)) ⊎ ((why : Refusal) × (c ≡ denied why))
Choice-cases (chosen a) = inl (a, refl)
Choice-cases (denied why) = inr (why, refl)

unfoldable pub get_transport : Settings → Choice Provider
get_transport c =
    if not c.whatsapp_enabled then denied whatsapp_disabled else elim c.whatsapp_mode [
      | mock_mode ↦ chosen mock
      | meta_mode ↦
          if c.has_access_token && c.has_phone_number_id
          then chosen meta
          else denied transport_misconfigured
      | unknown_mode ↦ denied transport_misconfigured
    ]

-- The match result of a chase is there with its marker.
abbrev pub is_reviewed : ℕ → Option ℕ → Store → Bool
is_reviewed firm none s = false
is_reviewed firm (some id) s = elim (firm_match firm id s) [
  | none ↦ false
  | some m ↦ is_some m.near_miss_reviewed_at
]

unfoldable pub load_and_validate : ℕ → ℕ → Store → Choice DeliveryRequest
load_and_validate firm id s = elim (firm_request firm id s) [
  | none ↦ denied delivery_request_unknown
  | some row ↦
      if not (row.firm_id == firm)
      then denied delivery_request_unknown
      else if is_some row.locked_at
      then denied delivery_request_locked
      else if not (is_some row.approved_at)
      then denied approval_missing
      else elim row.purpose [
        | report_send ↦ chosen row
        | supplier_chase ↦
            if is_reviewed firm row.match_result_id s
            then chosen row
            else denied near_miss_review_missing
      ]
]

-- `media_bytes` given by the caller, or the PDF of a report; `none` outside is an exception.
unfoldable pub media_for :
    (ℕ → ℕ → Option Text) → ℕ → DeliveryRequest → Option Text → Option (Option Text)
media_for render firm row (some media) = some (some media)
media_for render firm row none = elim row.purpose [
  | supplier_chase ↦ some none
  | report_send ↦ elim row.narration_run_id [
    | none ↦ some none
    | some run ↦ elim (render firm run) [ none ↦ none | some pdf ↦ some (some pdf) ]
  ]
]

unfoldable pub open_attempt : ℕ → ℕ → ℕ → Provider → Store → Store
open_attempt attempt_id firm id provider s = record s {
  attempts =
      s.attempts
      ++ (record {
        id = attempt_id;
        firm_id = firm;
        delivery_request_id = id;
        provider = provider;
        status = queued;
        provider_message_id = none;
        error_kind = none;
        error_message = none;
        delivered_at = none;
        read_at = none;
        failed_at = none;
      })
        ∷ [];
}

abbrev pub is_failed : AttemptStatus → Bool
is_failed failed = true
is_failed _ = false

unfoldable pub finish_attempt :
    ℕ → ℕ → ℕ → AttemptStatus → Option Text → Option Text → Option Text → Store → Store
finish_attempt now firm attempt_id status pmid kind message s = record s {
  attempts =
      update_where (λ a. a.firm_id == firm && attempt_at attempt_id a)
        (λ a. record a {
          status = status;
          provider_message_id = pmid;
          error_kind = kind;
          error_message = message;
          failed_at = if is_failed status then some now else a.failed_at;
        })
        s.attempts;
}

abbrev pub locked_row : ℕ → DeliveryRequest → DeliveryRequest
locked_row now r = record r { locked_at = some now }

unfoldable pub lock_request : ℕ → ℕ → ℕ → Store → Store
lock_request now firm id s = record s {
  requests =
      update_where (λ r. r.firm_id == firm && request_at id r && not (is_some r.locked_at))
        (locked_row now) s.requests;
}

abbrev pub message_of : DeliveryRequest → Option Text → Message
message_of row media = record {
  to_e164 = row.whatsapp_number_snapshot;
  template_name = row.template_name;
  template_lang = row.template_language;
  media = media;
}

-- The call of the provider, as it is remembered.
abbrev pub called : ℕ → Message → Reply → Store → Store
called id message reply s = record s {
  calls = s.calls ++ (record { request_id = id; message = message; reply = reply }) ∷ [];
}

abbrev pub sent_action : Purpose → Action
sent_action report_send = report_sent
sent_action supplier_chase = supplier_chase_sent

-- What follows the provider's reply.
unfoldable pub settle : ℕ → ℕ → ℕ → ℕ → ℕ → Purpose → Reply → Store → Served
settle now firm user id attempt_id purpose (accepted pmid) s =
    let s1 = finish_attempt now firm attempt_id sent (some pmid) none none s in
    let s2 = lock_request now firm id s1 in
    record {
      store = record s2 { audit = record_action firm user (sent_action purpose) id s2.audit };
      answer = message_sent attempt_id pmid;
    }
settle now firm user id attempt_id purpose (whatsapp_error kind message) s =
    let s1 =
      finish_attempt now firm attempt_id failed none (some (kind_value kind))
        (some (take 500 message)) s in
    let s2 = lock_request now firm id s1 in
    record {
      store = record s2 { audit = record_action firm user delivery_failed id s2.audit };
      answer = send_failed kind;
    }
settle now firm user id attempt_id purpose crashed s = record { store = s; answer = send_crashed }

module _ (settings : Settings) (render : ℕ → ℕ → Option Text)
    (send_template : List Call → Message → Reply) where
  -- After the gate.
  unfoldable pub dispatch :
      ℕ → ℕ → ℕ → ℕ → Provider → DeliveryRequest → Option Text → Store → Served
  dispatch now firm user attempt_id provider row media s =
      elim (find_where (attempt_at attempt_id) s.attempts) [
        | some taken ↦ refuse id_taken s
        | none ↦
            let message = message_of row media in
            let reply = send_template s.calls message in
            settle now firm user row.id attempt_id row.purpose reply
              (called row.id message reply (open_attempt attempt_id firm row.id provider s))
      ]

  -- `now` stands for the clock at the lock, `attempt_id` for the identifier of the attempt.
  unfoldable pub send : ℕ → ℕ → ℕ → ℕ → ℕ → Option Text → Store → Served
  send now firm user attempt_id id media_bytes s = elim (get_transport settings) [
    | denied why ↦ refuse why s
    | chosen provider ↦ elim (load_and_validate firm id s) [
      | denied why ↦ refuse why s
      | chosen row ↦ elim (media_for render firm row media_bytes) [
        | none ↦ refuse render_failed s
        | some media ↦ dispatch now firm user attempt_id provider row media s
      ]
    ]
  ]
