-- ===== src/Delivery/Rows.antt =====
-- The tables of the delivery of messages (backend/app/whatsapp/service.py, types.py): requests,
-- attempts, the match results and narration runs that requests name, and the audit log. `calls`
-- is what the provider received, in order, with its replies. Row level security shows a firm its
-- own rows. Identifiers are numbers, and instants are seconds.
use niyam_ai.Base.{
  ℕ, Bool, Option, none, some, List, [], ◌∷◌, ◌++◌, Text, codes, ◌==◌, find_where, if◌then◌else◌,
}

pub data Purpose : Type 0 where
  report_send supplier_chase : Purpose

pub data Bucket : Type 0 where
  matched probable supplier_default missing_entry : Bucket

pub record DeliveryRequest : Type 0 where
  pub id : ℕ
  pub firm_id : ℕ
  pub client_id : ℕ
  pub gstin_profile_id : ℕ
  pub purpose : Purpose
  pub narration_run_id : Option ℕ
  pub match_result_id : Option ℕ
  pub whatsapp_number_snapshot : Text
  pub template_name : Text
  pub template_language : Text
  pub created_by : ℕ
  pub approved_by : Option ℕ
  pub approved_at : Option ℕ
  pub locked_at : Option ℕ

-- The two columns that the joins resolve: a profile and its client.
pub record Owner : Type 0 where
  pub gstin_profile_id : ℕ
  pub client_id : ℕ

-- `invoice_owner` and `b2b_owner` are found through the two sides of the pair.
pub record MatchResult : Type 0 where
  pub id : ℕ
  pub firm_id : ℕ
  pub bucket : Bucket
  pub invoice_owner : Option Owner
  pub b2b_owner : Option Owner
  pub near_miss_reviewed_at : Option ℕ

pub record NarrationRun : Type 0 where
  pub id : ℕ
  pub firm_id : ℕ
  pub owner : Owner

pub data AttemptStatus : Type 0 where
  queued sent delivered read failed : AttemptStatus

pub data Provider : Type 0 where
  mock meta : Provider

pub record DeliveryAttempt : Type 0 where
  pub id : ℕ
  pub firm_id : ℕ
  pub delivery_request_id : ℕ
  pub provider : Provider
  pub status : AttemptStatus
  pub provider_message_id : Option Text
  pub error_kind : Option Text
  pub error_message : Option Text
  pub delivered_at : Option ℕ
  pub read_at : Option ℕ
  pub failed_at : Option ℕ

pub data Action : Type 0 where
  delivery_approved near_miss_reviewed report_sent supplier_chase_sent delivery_failed : Action

pub record AuditEntry : Type 0 where
  pub firm_id : ℕ
  pub actor_user_id : ℕ
  pub action : Action
  pub entity_id : ℕ

pub data ErrorKind : Type 0 where
  template_not_approved invalid_number rate_limited meta_5xx other : ErrorKind

-- `WhatsAppErrorKind.value`
abbrev pub kind_value : ErrorKind → Text
kind_value template_not_approved = codes "template_not_approved"
kind_value invalid_number = codes "invalid_number"
kind_value rate_limited = codes "rate_limited"
kind_value meta_5xx = codes "meta_5xx"
kind_value other = codes "other"

pub record Message : Type 0 where
  pub to_e164 : Text
  pub template_name : Text
  pub template_lang : Text
  pub media : Option Text

-- A result, a `WhatsAppError`, or an exception of another class.
pub data Reply : Type 0 where
  accepted : (provider_message_id : Text) → Reply
  whatsapp_error : (kind : ErrorKind) (message : Text) → Reply
  crashed : Reply

pub record Call : Type 0 where
  pub request_id : ℕ
  pub message : Message
  pub reply : Reply

pub record Store : Type 0 where
  pub requests : List DeliveryRequest
  pub attempts : List DeliveryAttempt
  pub matches : List MatchResult
  pub narrations : List NarrationRun
  pub audit : List AuditEntry
  pub calls : List Call

pub data Refusal : Type 0 where
  whatsapp_disabled transport_misconfigured delivery_request_unknown delivery_request_locked :
      Refusal
  approval_missing near_miss_review_missing match_not_found not_supplier_default : Refusal
  -- The PDF could not be made, and the primary keys of the tables.
  render_failed id_taken : Refusal

-- What a call of the service hands to the API.
pub data Answer : Type 0 where
  done : Answer
  created : (id : ℕ) → Answer
  message_sent : (attempt_id : ℕ) (provider_message_id : Text) → Answer
  updated_rows : (n : ℕ) → Answer
  refused : Refusal → Answer
  send_failed : ErrorKind → Answer
  send_crashed : Answer

pub record Served : Type 0 where
  pub store : Store
  pub answer : Answer

abbrev pub refuse : Refusal → Store → Served
refuse why s = record { store = s; answer = refused why }

-- Primary keys.
abbrev pub request_at : ℕ → DeliveryRequest → Bool
request_at id r = r.id == id

abbrev pub match_at : ℕ → MatchResult → Bool
match_at id m = m.id == id

abbrev pub narration_at : ℕ → NarrationRun → Bool
narration_at id n = n.id == id

abbrev pub attempt_at : ℕ → DeliveryAttempt → Bool
attempt_at id a = a.id == id

-- `SELECT … WHERE id = :id` in a session of the firm: the row of the primary key, when it is one
-- of the firm's.
abbrev pub seen_by : {A : Type 0} → (A → ℕ) → ℕ → Option A → Option A
seen_by owner firm none = none
seen_by owner firm (some row) = if owner row == firm then some row else none

abbrev pub firm_request : ℕ → ℕ → Store → Option DeliveryRequest
firm_request firm id s = seen_by (λ r. r.firm_id) firm (find_where (request_at id) s.requests)

abbrev pub firm_match : ℕ → ℕ → Store → Option MatchResult
firm_match firm id s = seen_by (λ m. m.firm_id) firm (find_where (match_at id) s.matches)

abbrev pub firm_narration : ℕ → ℕ → Store → Option NarrationRun
firm_narration firm id s = seen_by (λ n. n.firm_id) firm (find_where (narration_at id) s.narrations)

-- `audit.record`
abbrev pub record_action : ℕ → ℕ → Action → ℕ → List AuditEntry → List AuditEntry
record_action firm user action id log =
    log ++ (record { firm_id = firm; actor_user_id = user; action = action; entity_id = id }) ∷ []
