-- ===== src/Delivery/Cleared.antt =====
-- What the gate of a send reads (backend/app/whatsapp/gate.py), as tests on a store that no other
-- operation takes back.
use niyam_ai.Base.{
  ℕ, ◌≤◌, ◌≡◌, refl, sym, subst, Bool, true, false, ◌&&◌, Option, none, some, List, [], ◌∷◌, ◌++◌,
  arith, total, All, All-map, ◌==◌, is_some, find_where, update_where, updated,
  find_where-update_where, find_where-append, find_where-passes, Option-cases, inl, inr,
  if◌then◌else◌,
}
use niyam_ai.Delivery.Rows.{
  report_send, supplier_chase, DeliveryRequest, MatchResult, Reply, crashed, Call, Store,
  request_at, match_at,
}
use niyam_ai.Delivery.Requests.{insert_unless, insert_request, reviewed_row}
use niyam_ai.Delivery.Sending.{chosen, is_reviewed, load_and_validate}

-- The row of an identifier, whichever the firm.
abbrev pub request_of : ℕ → Store → Option DeliveryRequest
request_of id s = find_where (request_at id) s.requests

abbrev pub match_of : ℕ → List MatchResult → Option MatchResult
match_of id rows = find_where (match_at id) rows

abbrev pub has_review : Option ℕ → List MatchResult → Bool
has_review none s = false
has_review (some id) rows = elim (match_of id rows) [
  | none ↦ false
  | some m ↦ is_some m.near_miss_reviewed_at
]

abbrev pub cleared_row : List MatchResult → DeliveryRequest → Bool
cleared_row rows r =
    is_some r.approved_at
    && elim r.purpose [ report_send ↦ true | supplier_chase ↦ has_review r.match_result_id rows ]

-- The request is there and approved, and the near misses of a chase are reviewed.
abbrev pub is_cleared : ℕ → Store → Bool
is_cleared id s = elim (request_of id s) [ none ↦ false | some r ↦ cleared_row s.matches r ]

abbrev pub is_locked : ℕ → Store → Bool
is_locked id s = elim (request_of id s) [ none ↦ false | some r ↦ is_some r.locked_at ]

-- Calls for the request that the provider answered, by a result or by one of its errors.
abbrev pub is_answered : Reply → Bool
is_answered crashed = false
is_answered _ = true

abbrev pub answered_calls : ℕ → List Call → ℕ
answered_calls id = total (λ c. if c.request_id == id && is_answered c.reply then 1 else 0)

abbrev pub IsGuarded : Store → Type 0
IsGuarded s =
    All (λ c. is_cleared c.request_id s ≡ true) s.calls
    × ((id : ℕ) → answered_calls id s.calls ≤ (if is_locked id s then 1 else 0))

-- A later store keeps what is cleared and what is locked.
abbrev pub Keeps : Store → Store → Type 0
Keeps s s' =
    ((id : ℕ) → is_cleared id s ≡ true → is_cleared id s' ≡ true)
    × ((id : ℕ) → is_locked id s ≡ true → is_locked id s' ≡ true)

pub Keeps-IsGuarded : (s s' : Store) → Keeps s s' → s'.calls ≡ s.calls → IsGuarded s → IsGuarded s'
Keeps-IsGuarded s s' k e g = (
  subst (All (λ c. is_cleared c.request_id s' ≡ true)) (sym e)
      (All-map s.calls (λ c. k.0 c.request_id) g.0),
  λ id. ground (arith, e, g.1 id, k.1 id),
)

-- Updates of requests that keep the key and what was granted.
abbrev KeepsRow : Store → (DeliveryRequest → DeliveryRequest) → Type 0
KeepsRow s f =
    (r : DeliveryRequest)
    → ((f r).id ≡ r.id)
      × (cleared_row s.matches r ≡ true → cleared_row s.matches (f r) ≡ true)
      × (is_some r.locked_at ≡ true → is_some (f r).locked_at ≡ true)

module _ (p : DeliveryRequest → Bool) (f : DeliveryRequest → DeliveryRequest) (s : Store)
    (keeps : KeepsRow s f) where
  abbrev with_update : Store
  with_update = record s { requests = update_where p f s.requests }

  pub request_of-with_update : (id : ℕ) → request_of id with_update ≡ updated p f (request_of id s)
  request_of-with_update id =
      find_where-update_where (request_at id) p f s.requests (λ r. ground (arith, (keeps r).0))

  pub update_requests-Keeps : Keeps s with_update
  update_requests-Keeps = (
    λ id h. elim (Option-cases (request_of id s)) [
      | inl e ↦ ground (arith, e, h)
      | inr (r, e) ↦ ground (arith, e, h, request_of-with_update id, (keeps r).1)
    ],
    λ id h. elim (Option-cases (request_of id s)) [
      | inl e ↦ ground (arith, e, h)
      | inr (r, e) ↦ ground (arith, e, h, request_of-with_update id, (keeps r).2)
    ],
  )

module _ (r : DeliveryRequest) (s : Store) where
  abbrev with_request : Store
  with_request = record s { requests = s.requests ++ r ∷ [] }

  with_request-Keeps : Keeps s with_request
  with_request-Keeps = (
    λ id h. elim (Option-cases (request_of id s)) [
      | inl e ↦ ground (arith, e, h)
      | inr (q, e) ↦ ground (arith, e, h, find_where-append (request_at id) s.requests (r ∷ []) q e)
    ],
    λ id h. elim (Option-cases (request_of id s)) [
      | inl e ↦ ground (arith, e, h)
      | inr (q, e) ↦ ground (arith, e, h, find_where-append (request_at id) s.requests (r ∷ []) q e)
    ],
  )

  insert_unless-Keeps : (o : Option DeliveryRequest) → Keeps s (insert_unless o r s).store
  insert_unless-Keeps none = with_request-Keeps
  insert_unless-Keeps (some taken) = (λ id h. h, λ id h. h)

  insert_unless-calls : (o : Option DeliveryRequest) → (insert_unless o r s).store.calls ≡ s.calls
  insert_unless-calls none = refl
  insert_unless-calls (some taken) = refl

  pub insert_request-IsGuarded : IsGuarded s → IsGuarded (insert_request r s).store
  unfolding insert_request
  insert_request-IsGuarded =
      Keeps-IsGuarded s (insert_request r s).store (insert_unless-Keeps (request_of r.id s))
        (insert_unless-calls (request_of r.id s))

-- The marker of a review stays.
has_review-update_where :
    (p : MatchResult → Bool) (now : ℕ) (i : Option ℕ) (s : Store)
    → has_review i s.matches ≡ true
    → has_review i (update_where p (reviewed_row now) s.matches) ≡ true
has_review-update_where p now none s h = h
has_review-update_where p now (some id) s h =
    let found = find_where-update_where (match_at id) p (reviewed_row now) s.matches (λ m. refl) in
    elim (Option-cases (match_of id s.matches)) [
      | inl e ↦ ground (arith, e, h)
      | inr (m, e) ↦ ground (arith, e, h, found)
    ]

pub update_matches-Keeps :
    (p : MatchResult → Bool) (now : ℕ) (s : Store)
    → Keeps s (record s { matches = update_where p (reviewed_row now) s.matches })
update_matches-Keeps p now s = (
  λ id h. elim (Option-cases (request_of id s)) [
    | inl e ↦ ground (arith, e, h)
    | inr (r, e) ↦ ground (arith, e, h, has_review-update_where p now r.match_result_id s)
  ],
  λ id h. h,
)

-- The review that the gate reads in the firm's session.
is_reviewed-has_review :
    (firm : ℕ) (i : Option ℕ) (s : Store)
    → is_reviewed firm i s ≡ true
    → has_review i s.matches ≡ true
is_reviewed-has_review firm none s h = cc
is_reviewed-has_review firm (some id) s h = elim (Option-cases (match_of id s.matches)) [
  | inl e ↦ ground (arith, e, h)
  | inr (m, e) ↦ ground (arith, e, h)
]

-- What the gate lets through is cleared and not locked.
pub load_and_validate-chosen :
    (firm id : ℕ) (s : Store) (row : DeliveryRequest)
    → load_and_validate firm id s ≡ chosen row
    → (request_of id s ≡ some row)
      × (row.id ≡ id)
      × (row.firm_id ≡ firm)
      × (cleared_row s.matches row ≡ true)
      × (is_some row.locked_at ≡ false)
unfolding load_and_validate
load_and_validate-chosen firm id s row h = elim (Option-cases (request_of id s)) [
  | inl e ↦ ground (arith, e, h)
  | inr (r, e) ↦ ground (
    arith,
    e,
    h,
    find_where-passes (request_at id) s.requests r e,
    is_reviewed-has_review firm r.match_result_id s,
  )
]
