-- ===== src/Scoring/Inputs.antt =====
-- The dataclasses of backend/app/engines/scoring/types.py. A blocker's description is text for
-- people that repeats the numbers, and is left out; so are the fields of the inputs that are only
-- copied into the stored arithmetic (version, return type, period, date).
use niyam_ai.Base.{ℕ, Option, List, Text}
use niyam_ai.Recon.Summary.{Summary}

-- `negsuc n` is -(n + 1).
pub data ℤ : Type 0 where
  pos : ℕ → ℤ
  negsuc : ℕ → ℤ

pub data Owner : Type 0 where
  ca client : Owner

pub record Blocker : Type 0 where
  pub code : Text
  pub owner : Owner
  pub paise_impact : ℕ

-- The five components, in the order of the calculator's dict.
pub data Component : Type 0 where
  validation_pass_rate reconciliation_match_rate data_completeness : Component
  supplier_risk days_to_due_date : Component

pub record ComponentBreakdown (F : Type 0) : Type 0 where
  pub name : Component
  pub value : F
  pub weight : F
  pub weighted : F

pub record ScoreInputs (F : Type 0) : Type 0 where
  -- `none` is a key that the pack lacks
  pub weights : Component → Option F
  pub days_to_due_date_curve_days : ℕ
  pub invoice_count : ℕ
  pub validation_error_count : ℕ
  pub validation_warning_count : ℕ
  -- `none` is the empty dict: no reconciliation has run
  pub recon_summary : Option Summary
  pub total_register_paise : ℕ
  pub trailing_month_counts : List ℕ
  pub current_month_count : ℕ
  pub risky_supplier_paise : ℕ
  pub total_supplier_paise : ℕ
  pub days_to_due_date : ℤ
  pub error_invoice_paise : ℕ
  pub warning_invoice_paise : ℕ

pub record ScoreResult (F : Type 0) : Type 0 where
  pub score : ℕ
  pub components : List (ComponentBreakdown F)
  pub blockers : List Blocker
  -- of `arithmetic`: the weights in use and the sum
  pub normalized_weights : List F
  pub weighted_sum : F
