-- ===== src/Recon/Lines.antt =====
-- The dataclasses of backend/app/engines/reconciliation/types.py. An identifier is a UUID, taken
-- as its 128-bit number: UUIDs print at one width in lower-case hexadecimal, so that their texts
-- are ordered as the numbers are. Window and tolerance are the pack's, which are not negative.
use niyam_ai.Base.{ℕ, Bool, Option, List, Text, Date}

pub record ReconConfig (F : Type 0) : Type 0 where
  pub exact_amount_tolerance_paise : ℕ
  pub date_window_days : ℕ
  pub amount_tolerance_percent : F
  pub probable_confidence_threshold : F
  -- `fuzzy_score_weights`
  pub number_similarity : F
  pub date_closeness : F
  pub amount_closeness : F

pub record RegisterLine : Type 0 where
  pub invoice_id : ℕ
  pub supplier_gstin : Text
  pub invoice_number : Text
  pub normalized_number : Text
  pub invoice_date : Date
  pub total_paise : ℕ

pub record B2BLine : Type 0 where
  pub b2b_entry_id : ℕ
  pub supplier_gstin : Text
  pub invoice_number : Text
  pub normalized_number : Text
  pub invoice_date : Date
  pub total_paise : ℕ
  pub itc_available : Bool

pub data PairBucket : Type 0 where
  matched probable : PairBucket

pub record MatchPair (F : Type 0) : Type 0 where
  pub invoice_id : ℕ
  pub b2b_entry_id : ℕ
  pub bucket : PairBucket
  pub confidence : F
  pub invoice_total_paise : ℕ
  pub b2b_total_paise : ℕ
  pub supplier_gstin : Text
  pub itc_available : Bool

pub record NearMiss (F : Type 0) : Type 0 where
  pub b2b_entry_id : ℕ
  pub supplier_gstin : Text
  pub invoice_number : Text
  pub invoice_date : Date
  pub total_paise : ℕ
  pub similarity : F

pub data ResidualBucket : Type 0 where
  supplier_default missing_entry : ResidualBucket

pub record Residual (F : Type 0) : Type 0 where
  pub bucket : ResidualBucket
  pub invoice_id : Option ℕ
  pub b2b_entry_id : Option ℕ
  pub total_paise : ℕ
  pub supplier_gstin : Text
  pub near_misses : List (NearMiss F)

pub record ReconResult (F : Type 0) : Type 0 where
  pub pairs : List (MatchPair F)
  pub residuals : List (Residual F)
  pub cdn_count : ℕ
  pub cdn_paise : ℕ
