-- ===== src/Delivery/Guard.antt =====
-- What the gate guarantees over any sequence of calls.
use niyam_ai.Base.{
  ℕ, ◌+◌, ◌≤◌, ◌≡◌, refl, sym, ap, ◌∙◌, ==_iff, total-append, subst, true, false, ◌&&◌, not, Option,
  none, some, List, [], ◌∷◌, arith, Text, All, All-map, All-append, ◌==◌, is_some, find_where,
  Option-cases, Bool-cases, inl, inr, if◌then◌else◌,
}
use niyam_ai.Delivery.Rows.{
  report_send, supplier_chase, DeliveryRequest, Provider, Message, Reply, accepted, whatsapp_error,
  crashed, Call, Store, request_at, match_at, attempt_at, firm_request, firm_match, firm_narration,
}
use niyam_ai.Delivery.Requests.{
  create_report_request, create_chase_request, approve, approved_row, unlocked_at, approved_store,
  reviewed_store, mark_near_miss_reviewed, resolved_owner, new_request,
}
use niyam_ai.Delivery.Sending.{
  Settings, Choice-cases, get_transport, load_and_validate, media_for, open_attempt, finish_attempt,
  lock_request, locked_row, message_of, called, settle, dispatch, send,
}
use niyam_ai.Delivery.Webhook.{apply_webhook_events}
use niyam_ai.Delivery.Serving.{
  Request, creating_report, creating_chase, approving, marking_reviewed, sending, calling_back,
  serve, serve_all,
}
use niyam_ai.Delivery.Cleared.{
  request_of, cleared_row, is_cleared, is_locked, is_answered, answered_calls, IsGuarded, Keeps,
  Keeps-IsGuarded, update_requests-Keeps, request_of-with_update, insert_request-IsGuarded,
  update_matches-Keeps, load_and_validate-chosen,
}

abbrev answers : ℕ → ℕ → Reply → ℕ
answers id j reply = if id == j && is_answered reply then 1 else 0

answered_calls-called :
    (id j : ℕ) (message : Message) (reply : Reply) (s : Store)
    → answered_calls j (called id message reply s).calls
      ≡ answered_calls j s.calls + answers id j reply
answered_calls-called id j message reply s =
    total-append _ s.calls ((record { request_id = id; message = message; reply = reply }) ∷ [])
    ∙ ground arith

-- One more call, for a request that is cleared and not locked, and a store that locks it when the
-- provider answered.
module _ (id : ℕ) (message : Message) (reply : Reply) (s s' : Store) (g : IsGuarded s)
    (k : Keeps s s') (e : s'.calls ≡ (called id message reply s).calls) where
  extend_count :
      is_locked id s ≡ false
      → (is_answered reply ≡ true → is_locked id s' ≡ true)
      → (j : ℕ) → answered_calls j s'.calls ≤ (if is_locked j s' then 1 else 0)
  extend_count free locks j =
      let n : answered_calls j s'.calls ≡ answered_calls j s.calls + answers id j reply =
        ap (answered_calls j) e ∙ answered_calls-called id j message reply s in
      elim (Bool-cases (id == j)) [
        | inr other ↦ ground (arith, n, other, g.1 j, k.1 j)
        | inl same ↦
            let at_j =
              subst
                (λ i. (is_locked i s ≡ false) × (is_answered reply ≡ true → is_locked i s' ≡ true))
                ((==_iff id j).0 same) (free, locks) in
            ground (arith, n, same, g.1 j, k.1 j, at_j.0, at_j.1)
      ]

  extend-IsGuarded :
      is_cleared id s ≡ true
      → is_locked id s ≡ false
      → (is_answered reply ≡ true → is_locked id s' ≡ true)
      → IsGuarded s'
  extend-IsGuarded cleared free locks = (
    subst (All (λ c. is_cleared c.request_id s' ≡ true)) (sym e) (
        All-append (λ c. is_cleared c.request_id s' ≡ true) s.calls _
          (All-map s.calls (λ c. k.0 c.request_id) g.0) (k.0 id cleared, tt)),
    extend_count free locks,
  )

-- The lock takes the row that the gate let through.
lock_request-Keeps : (now firm id : ℕ) (s : Store) → Keeps s (lock_request now firm id s)
unfolding lock_request
lock_request-Keeps now firm id s =
    update_requests-Keeps _ (locked_row now) s (λ r. (refl, λ h. h, λ h. refl))

lock_request-is_locked :
    (now firm id : ℕ) (s : Store) (row : DeliveryRequest)
    → request_of id s ≡ some row
    → row.id ≡ id
    → row.firm_id ≡ firm
    → is_locked id (lock_request now firm id s) ≡ true
unfolding lock_request
lock_request-is_locked now firm id s row e i f = ground (
  arith,
  e,
  i,
  f,
  request_of-with_update (λ r. r.firm_id == firm && request_at id r && not (is_some r.locked_at))
      (locked_row now) s (λ r. (refl, λ h. h, λ h. refl)) id,
)

-- A call for a request that passed the gate.
settle-IsGuarded :
    (now firm user attempt_id : ℕ) (provider : Provider) (row : DeliveryRequest) (message : Message)
    (reply : Reply) (s : Store)
    → IsGuarded s
    → request_of row.id s ≡ some row
    → row.firm_id ≡ firm
    → cleared_row s.matches row ≡ true
    → is_some row.locked_at ≡ false
    → IsGuarded
        (settle now firm user row.id attempt_id row.purpose reply
          (called row.id message reply (open_attempt attempt_id firm row.id provider s))).store
unfolding settle finish_attempt open_attempt lock_request
settle-IsGuarded now firm user attempt_id provider row message (accepted pmid) s g e f c free =
    extend-IsGuarded row.id message (accepted pmid) s
      (settle now firm user row.id attempt_id row.purpose (accepted pmid) (
        called row.id message (accepted pmid)
          (open_attempt attempt_id firm row.id provider s))).store
      g
      (
        λ i h. (lock_request-Keeps now firm row.id s).0 i h,
        λ i h. (lock_request-Keeps now firm row.id s).1 i h,
      )
      refl (ground (arith, e, c)) (ground (arith, e, free))
      (λ _. lock_request-is_locked now firm row.id s row e refl f)
settle-IsGuarded now firm user attempt_id provider row message (whatsapp_error kind m) s g e f c
      free =
    extend-IsGuarded row.id message (whatsapp_error kind m) s
      (settle now firm user row.id attempt_id row.purpose (whatsapp_error kind m) (
        called row.id message (whatsapp_error kind m)
          (open_attempt attempt_id firm row.id provider s))).store
      g
      (
        λ i h. (lock_request-Keeps now firm row.id s).0 i h,
        λ i h. (lock_request-Keeps now firm row.id s).1 i h,
      )
      refl (ground (arith, e, c)) (ground (arith, e, free))
      (λ _. lock_request-is_locked now firm row.id s row e refl f)
settle-IsGuarded now firm user attempt_id provider row message crashed s g e f c free =
    extend-IsGuarded row.id message crashed s
      (called row.id message crashed (open_attempt attempt_id firm row.id provider s)) g
      (λ id h. h, λ id h. h) refl (ground (arith, e, c)) (ground (arith, e, free))
      (λ (h : false ≡ true). ground (arith, h))

module _ (settings : Settings) (render : ℕ → ℕ → Option Text)
    (send_template : List Call → Message → Reply) where
  dispatch-IsGuarded :
      (now firm user attempt_id : ℕ) (provider : Provider) (row : DeliveryRequest)
      (media : Option Text) (s : Store)
      → IsGuarded s
      → request_of row.id s ≡ some row
      → row.firm_id ≡ firm
      → cleared_row s.matches row ≡ true
      → is_some row.locked_at ≡ false
      → IsGuarded
          (dispatch settings render send_template now firm user attempt_id provider row media
            s).store
  unfolding dispatch
  dispatch-IsGuarded now firm user attempt_id provider row media s g e f c free =
      elim (Option-cases (find_where (attempt_at attempt_id) s.attempts)) [
        | inl a ↦ ground (
          arith,
          a,
          settle-IsGuarded now firm user attempt_id provider row (message_of row media)
              (send_template s.calls (message_of row media)) s g e f c free,
        )
        | inr (t, a) ↦ ground (arith, a, g)
      ]

  send-IsGuarded :
      (now firm user attempt_id id : ℕ) (media : Option Text) (s : Store)
      → IsGuarded s
      → IsGuarded (send settings render send_template now firm user attempt_id id media s).store
  unfolding send
  send-IsGuarded now firm user attempt_id id media s g =
      elim (Choice-cases (get_transport settings)) [
        | inr (why, t) ↦ ground (arith, t, g)
        | inl (provider, t) ↦ elim (Choice-cases (load_and_validate firm id s)) [
          | inr (why, v) ↦ ground (arith, t, v, g)
          | inl (row, v) ↦ elim (Option-cases (media_for render firm row media)) [
            | inl m ↦ ground (arith, t, v, m, g)
            | inr (found, m) ↦
                let (e, i, f, c, free) = load_and_validate-chosen firm id s row v in
                ground (
                  arith,
                  t,
                  v,
                  m,
                  dispatch-IsGuarded now firm user attempt_id provider row found s g
                      (ap (λ j. request_of j s) i ∙ e) f c free,
                )
          ]
        ]
      ]

  approving-IsGuarded :
      (now firm user id : ℕ) (s : Store)
      → IsGuarded s
      → IsGuarded (approved_store now firm user id s)
  approving-IsGuarded now firm user id s =
      Keeps-IsGuarded s (approved_store now firm user id s)
        (update_requests-Keeps (unlocked_at firm id) (approved_row user now) s
          (λ r. (refl, λ h. ground (arith, h), λ h. h)))
        refl

  reviewing-IsGuarded :
      (now firm user id : ℕ) (s : Store)
      → IsGuarded s
      → IsGuarded (reviewed_store now firm user id s)
  reviewing-IsGuarded now firm user id s =
      Keeps-IsGuarded s (reviewed_store now firm user id s)
        (update_matches-Keeps (λ m. m.firm_id == firm && match_at id m) now s) refl

  serve-IsGuarded :
      (q : Request) (s : Store)
      → IsGuarded s
      → IsGuarded (serve settings render send_template q s).store
  unfolding serve create_report_request create_chase_request approve mark_near_miss_reviewed
      apply_webhook_events
  serve-IsGuarded (creating_report new_id firm user run t) s g =
      elim (Option-cases (firm_narration firm run s)) [
        | inl e ↦ ground (arith, e, g)
        | inr (n, e) ↦ ground (
          arith,
          e,
          insert_request-IsGuarded
              (new_request new_id firm user n.owner report_send (some run) none t) s g,
        )
      ]
  serve-IsGuarded (creating_chase new_id firm user result t) s g =
      elim (Option-cases (firm_match firm result s)) [
        | inl e ↦ ground (arith, e, g)
        | inr (m, e) ↦ elim (Option-cases (resolved_owner m)) [
          | inl o ↦ ground (arith, e, o, g)
          | inr (owner, o) ↦ ground (
            arith,
            e,
            o,
            g,
            insert_request-IsGuarded
                (new_request new_id firm user owner supplier_chase none (some result) t) s g,
          )
        ]
      ]
  serve-IsGuarded (approving now firm user id) s g =
      elim (Option-cases (find_where (unlocked_at firm id) s.requests)) [
        | inl a ↦ elim (Option-cases (firm_request firm id s)) [
          | inl e ↦ ground (arith, a, e, g)
          | inr (r, e) ↦ ground (arith, a, e, g)
        ]
        | inr (r, a) ↦ ground (arith, a, approving-IsGuarded now firm user id s g)
      ]
  serve-IsGuarded (marking_reviewed now firm user id) s g =
      elim (Option-cases (firm_match firm id s)) [
        | inl e ↦ ground (arith, e, g)
        | inr (m, e) ↦ ground (arith, e, g, reviewing-IsGuarded now firm user id s g)
      ]
  serve-IsGuarded (sending now firm user attempt_id id media) s g =
      send-IsGuarded now firm user attempt_id id media s g
  serve-IsGuarded (calling_back evs) s g = g

  -- After any sequence of calls of the service, one after another, every message that reached the
  -- provider was for a request that is approved, with the near misses reviewed when it is a chase;
  -- and the provider answered at most one call per request, and none for a request that is not
  -- locked. The store at the start is such a store, for example one with no calls.
  pub serve_all-IsGuarded :
      (qs : List Request) (s : Store)
      → IsGuarded s
      → IsGuarded (serve_all settings render send_template qs s)
  unfolding serve_all
  serve_all-IsGuarded [] s g = g
  serve_all-IsGuarded (q ∷ qs) s g =
      serve_all-IsGuarded qs (serve settings render send_template q s).store (serve-IsGuarded q s g)
