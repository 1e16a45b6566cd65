-- ===== src/Delivery/Outcome.antt =====
-- What one send leaves behind on each of its paths (backend/app/whatsapp/service.py).
use niyam_ai.Base.{
  ℕ, ◌≡◌, refl, ◌⊎◌, inl, inr, ◌&&◌, Option, none, some, List, [], ◌∷◌, ◌++◌, arith, Text, ◌==◌,
  find_where, update_where, take, Option-cases,
}
use niyam_ai.Delivery.Rows.{
  DeliveryRequest, AttemptStatus, queued, sent, failed, Provider, DeliveryAttempt, kind_value,
  Message, Reply, accepted, whatsapp_error, crashed, Call, Store, Refusal, Answer, message_sent,
  refused, send_failed, send_crashed, Served, attempt_at, render_failed, id_taken,
}
use niyam_ai.Delivery.Sending.{
  Settings, chosen, Choice-cases, get_transport, load_and_validate, media_for, open_attempt,
  finish_attempt, lock_request, message_of, called, settle, dispatch, send,
}

-- The row of an attempt by the reply, and the answer to the API.
abbrev pub closed_status : Reply → AttemptStatus
closed_status (accepted pmid) = sent
closed_status (whatsapp_error kind m) = failed
closed_status crashed = queued

abbrev pub closed_attempt : ℕ → ℕ → ℕ → ℕ → Provider → Reply → DeliveryAttempt
closed_attempt now firm attempt_id id provider reply = record {
  id = attempt_id;
  firm_id = firm;
  delivery_request_id = id;
  provider = provider;
  status = closed_status reply;
  provider_message_id = elim reply [ accepted pmid ↦ some pmid | _ ↦ none ];
  error_kind = elim reply [ whatsapp_error kind m ↦ some (kind_value kind) | _ ↦ none ];
  error_message = elim reply [ whatsapp_error kind m ↦ some (take 500 m) | _ ↦ none ];
  delivered_at = none;
  read_at = none;
  failed_at = elim reply [ whatsapp_error kind m ↦ some now | _ ↦ none ];
}

abbrev pub answer_of : ℕ → Reply → Answer
answer_of attempt_id (accepted pmid) = message_sent attempt_id pmid
answer_of attempt_id (whatsapp_error kind m) = send_failed kind
answer_of attempt_id crashed = send_crashed

-- The update of an attempt takes the row that was just added, and no other.
update_where-added :
    (firm attempt_id : ℕ) (f : DeliveryAttempt → DeliveryAttempt) (a : DeliveryAttempt)
    (rows : List DeliveryAttempt)
    → find_where (attempt_at attempt_id) rows ≡ none
    → a.id ≡ attempt_id
    → a.firm_id ≡ firm
    → update_where (λ a. a.firm_id == firm && attempt_at attempt_id a) f (rows ++ a ∷ [])
      ≡ rows ++ f a ∷ []
update_where-added firm attempt_id f a [] e i o = ground (arith, i, o)
update_where-added firm attempt_id f a (b ∷ rows) e i o =
    ground (arith, e, i, o, update_where-added firm attempt_id f a rows)

module _ (now firm user attempt_id : ℕ) (provider : Provider) (row : DeliveryRequest)
    (message : Message) (s : Store)
    (free : find_where (attempt_at attempt_id) s.attempts ≡ none) where
  abbrev settled : Reply → Served
  settled reply =
      settle now firm user row.id attempt_id row.purpose reply
        (called row.id message reply (open_attempt attempt_id firm row.id provider s))

  settle-attempts :
      (reply : Reply)
      → (settled reply).store.attempts
        ≡ s.attempts ++ closed_attempt now firm attempt_id row.id provider reply ∷ []
  unfolding settle finish_attempt open_attempt lock_request
  settle-attempts (accepted pmid) = update_where-added firm attempt_id _ _ s.attempts free refl refl
  settle-attempts (whatsapp_error kind m) =
      update_where-added firm attempt_id _ _ s.attempts free refl refl
  settle-attempts crashed = refl

  settle-answer : (reply : Reply) → (settled reply).answer ≡ answer_of attempt_id reply
  unfolding settle
  settle-answer (accepted pmid) = refl
  settle-answer (whatsapp_error kind m) = refl
  settle-answer crashed = refl

module _ (settings : Settings) (render : ℕ → ℕ → Option Text)
    (send_template : List Call → Message → Reply) where
  -- A send is refused with the store unchanged, or the gate let its request through, the provider
  -- was called once, and one attempt was added.
  abbrev pub IsAccounted : ℕ → ℕ → ℕ → ℕ → Store → Served → Type 0
  IsAccounted now firm attempt_id id s r =
      ((r.store ≡ s) × (why : Refusal) × (r.answer ≡ refused why))
      ⊎ ((row : DeliveryRequest) × (provider : Provider) × (media : Option Text) × (get_transport
              settings
            ≡ chosen provider)
          × (load_and_validate firm id s ≡ chosen row)
          × (r.store.attempts
              ≡ s.attempts
                ++ closed_attempt now firm attempt_id row.id provider
                    (send_template s.calls (message_of row media))
                  ∷ [])
          × (r.answer ≡ answer_of attempt_id (send_template s.calls (message_of row media))))

  -- Every send either is refused and leaves the store as it was, or its request passed the gate and
  -- exactly one attempt is added, whose fields the provider's reply determines: sent with the
  -- message id, failed with the kind, the message cut to 500 characters and the time, or still
  -- queued when the provider's adapter raised another exception; the answer to the API follows the
  -- reply too.
  pub send_accounts :
      (now firm user attempt_id id : ℕ) (media : Option Text) (s : Store)
      → IsAccounted now firm attempt_id id s
          (send settings render send_template now firm user attempt_id id media s)
  unfolding send dispatch
  send_accounts now firm user attempt_id id media s = elim (Choice-cases (get_transport settings)) [
    | inr (why, t) ↦ inl (ground (arith, t), why, ground (arith, t))
    | inl (provider, t) ↦ elim (Choice-cases (load_and_validate firm id s)) [
      | inr (why, v) ↦ inl (ground (arith, t, v), why, ground (arith, t, v))
      | inl (row, v) ↦ elim (Option-cases (media_for render firm row media)) [
        | inl m ↦ inl (ground (arith, t, v, m), render_failed, ground (arith, t, v, m))
        | inr (found, m) ↦ elim (Option-cases (find_where (attempt_at attempt_id) s.attempts)) [
          | inr (taken, a) ↦ inl (ground (arith, t, v, m, a), id_taken, ground (arith, t, v, m, a))
          | inl a ↦ inr (
            row,
            provider,
            found,
            t,
            v,
            ground (
              arith,
              t,
              v,
              m,
              a,
              settle-attempts now firm user attempt_id provider row (message_of row found) s a
                  (send_template s.calls (message_of row found)),
            ),
            ground (
              arith,
              t,
              v,
              m,
              a,
              settle-answer now firm user attempt_id provider row (message_of row found) s a
                  (send_template s.calls (message_of row found)),
            ),
          )
        ]
      ]
    ]
  ]
