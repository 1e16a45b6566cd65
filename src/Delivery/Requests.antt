-- ===== src/Delivery/Requests.antt =====
-- The requests that a firm makes before anything is sent (backend/app/whatsapp/service.py), and
-- the endpoint that records the review of near misses (backend/app/api/workspace.py). `new_id` is
-- the identifier that the database makes, and `now` is its clock.
use niyam_ai.Base.{
  ℕ, Bool, true, false, ◌&&◌, not, Option, none, some, [], ◌∷◌, ◌++◌, Text, ◌==◌, is_some,
  find_where, update_where, if◌then◌else◌,
}
use niyam_ai.Delivery.Rows.{
  Purpose, report_send, supplier_chase, Bucket, supplier_default, DeliveryRequest, Owner,
  MatchResult, delivery_approved, near_miss_reviewed, Store, delivery_request_unknown,
  delivery_request_locked, match_not_found, not_supplier_default, id_taken, done, created, Served,
  refuse, request_at, match_at, firm_request, firm_match, firm_narration, record_action,
}

-- What the client of the API names.
pub record Template : Type 0 where
  pub whatsapp_number : Text
  pub template_name : Text
  pub template_language : Text

abbrev pub new_request :
    ℕ → ℕ → ℕ → Owner → Purpose → Option ℕ → Option ℕ → Template → DeliveryRequest
new_request id firm user owner purpose narration result t = record {
  id = id;
  firm_id = firm;
  client_id = owner.client_id;
  gstin_profile_id = owner.gstin_profile_id;
  purpose = purpose;
  narration_run_id = narration;
  match_result_id = result;
  whatsapp_number_snapshot = t.whatsapp_number;
  template_name = t.template_name;
  template_language = t.template_language;
  created_by = user;
  approved_by = none;
  approved_at = none;
  locked_at = none;
}

-- `INSERT INTO delivery_request`; the primary key may be taken.
abbrev pub insert_unless : Option DeliveryRequest → DeliveryRequest → Store → Served
insert_unless (some taken) r s = refuse id_taken s
insert_unless none r s = record {
  store = record s { requests = s.requests ++ r ∷ [] };
  answer = created r.id;
}

unfoldable pub insert_request : DeliveryRequest → Store → Served
insert_request r s = insert_unless (find_where (request_at r.id) s.requests) r s

unfoldable pub create_report_request : ℕ → ℕ → ℕ → ℕ → Template → Store → Served
create_report_request new_id firm user narration_run_id t s =
    elim (firm_narration firm narration_run_id s) [
      | none ↦ refuse delivery_request_unknown s
      | some run ↦
          insert_request
            (new_request new_id firm user run.owner report_send (some narration_run_id) none t) s
    ]

abbrev pub is_supplier_default : Bucket → Bool
is_supplier_default supplier_default = true
is_supplier_default _ = false

-- `COALESCE`
abbrev pub resolved_owner : MatchResult → Option Owner
resolved_owner m = elim m.invoice_owner [ some o ↦ some o | none ↦ m.b2b_owner ]

unfoldable pub create_chase_request : ℕ → ℕ → ℕ → ℕ → Template → Store → Served
create_chase_request new_id firm user match_result_id t s =
    elim (firm_match firm match_result_id s) [
      | none ↦ refuse delivery_request_unknown s
      | some m ↦
          if not (is_supplier_default m.bucket)
          then refuse delivery_request_unknown s
          else elim (resolved_owner m) [
            | none ↦ refuse delivery_request_unknown s
            | some owner ↦
                insert_request
                  (new_request new_id firm user owner supplier_chase none (some match_result_id) t)
                  s
          ]
    ]

abbrev pub approved_row : ℕ → ℕ → DeliveryRequest → DeliveryRequest
approved_row user now r = record r { approved_by = some user; approved_at = some now }

-- `WHERE id = :id AND locked_at IS NULL`, in a session of the firm
abbrev pub unlocked_at : ℕ → ℕ → DeliveryRequest → Bool
unlocked_at firm id r = r.firm_id == firm && request_at id r && not (is_some r.locked_at)

abbrev pub approved_store : ℕ → ℕ → ℕ → ℕ → Store → Store
approved_store now firm user id s = record s {
  requests = update_where (unlocked_at firm id) (approved_row user now) s.requests;
  audit = record_action firm user delivery_approved id s.audit;
}

unfoldable pub approve : ℕ → ℕ → ℕ → ℕ → Store → Served
approve now firm user id s = elim (find_where (unlocked_at firm id) s.requests) [
  | some found ↦ record { store = approved_store now firm user id s; answer = done }
  | none ↦ elim (firm_request firm id s) [
    | none ↦ refuse delivery_request_unknown s
    | some r ↦
        if is_some r.locked_at
        then refuse delivery_request_locked s
        else refuse delivery_request_unknown s
  ]
]

abbrev pub reviewed_row : ℕ → MatchResult → MatchResult
reviewed_row now m = record m { near_miss_reviewed_at = some now }

abbrev pub reviewed_store : ℕ → ℕ → ℕ → ℕ → Store → Store
reviewed_store now firm user id s = record s {
  matches = update_where (λ m. m.firm_id == firm && match_at id m) (reviewed_row now) s.matches;
  audit = record_action firm user near_miss_reviewed id s.audit;
}

unfoldable pub mark_near_miss_reviewed : ℕ → ℕ → ℕ → ℕ → Store → Served
mark_near_miss_reviewed now firm user id s = elim (firm_match firm id s) [
  | none ↦ refuse match_not_found s
  | some m ↦
      if not (is_supplier_default m.bucket)
      then refuse not_supplier_default s
      else record { store = reviewed_store now firm user id s; answer = done }
]
