-- ===== src/Tests/Validating.antt =====
-- GSTINs, and an invoice that is in order.
use niyam_ai.Base.{
  ℕ, ◌*◌, ◌≡◌, ◌≢◌, ◌↔◌, refl, true, false, none, some, [], ◌∷◌, ◌++◌, arith, codes,
}
use niyam_ai.Ingestion.Invoice.{CanonicalInvoice, purchase}
use niyam_ai.Validation.Gstin.{
  index, alphabet, digit_sum, sum_from, compute_check_digit, matches, has_valid_structure,
  has_valid_checksum, is_valid_gstin,
}
use niyam_ai.Validation.Gstin.Structure.{is_valid_gstin_detects, is_valid_gstin_line_feed}
use niyam_ai.Validation.Context.{ValidationConfig, ValidationContext}
use niyam_ai.Validation.Rules.{crore, run_pipeline}
use niyam_ai.Validation.Rules.Compliance.{IsCompliant, run_pipeline_iff}
use niyam_ai.Validation.Rules.Slabs.{default_slabs}
use niyam_ai.Tests.Sample.{fixed, day}

check-digit : compute_check_digit (codes "27AAPFU0939F1Z") ≡ some b'V'
unfolding compute_check_digit sum_from index digit_sum alphabet
check-digit = refl

sample-is-valid : is_valid_gstin (codes "27AAPFU0939F1Z" ++ b'V' ∷ []) ≡ true
unfolding is_valid_gstin has_valid_structure matches has_valid_checksum compute_check_digit sum_from
    index digit_sum alphabet
sample-is-valid = refl

digits-differ : ◌≢◌ {A = ℕ} b'9' b'8'
digits-differ h = omega (arith, h)

is_valid_gstin_detects_example :
    is_valid_gstin ((codes "27AAPFU0" ++ b'8' ∷ codes "39F1Z") ++ b'V' ∷ []) ≡ false
is_valid_gstin_detects_example =
    is_valid_gstin_detects (codes "27AAPFU0") (codes "39F1Z") b'9' b'8' b'V' refl digits-differ
      sample-is-valid

is_valid_gstin_line_feed_example : is_valid_gstin (codes "27AAPFU0939F1Z" ++ b'V' ∷ 10 ∷ []) ≡ true
is_valid_gstin_line_feed_example =
    is_valid_gstin_line_feed (codes "27AAPFU0939F1Z") b'V' refl sample-is-valid

abbrev pack : ValidationConfig ℕ
pack = record {
  default_severity = none;
  default_min_digits = none;
  turnover_slabs = default_slabs;
  tolerance_paise = some 100;
  expected_rate_percents = 0 ∷ 50000 ∷ 120000 ∷ 180000 ∷ 280000 ∷ [];
  duplicates_enabled = some true;
}

abbrev context : ValidationContext ℕ
context = record {
  validation_config = pack;
  period = codes "202606";
  today = day 20;
  client_state_code = codes "27";
  annual_turnover_paise = some (2 * crore);
  duplicate_key_counts = [];
}

abbrev invoice : CanonicalInvoice
invoice = record {
  gstin_profile_id = codes "p1";
  direction = purchase;
  invoice_number = codes "INV-001";
  invoice_date = day 3;
  counterparty_gstin = some (codes "27AAPFU0939F1ZV");
  taxable_value_paise = 100000;
  cgst_paise = 9000;
  sgst_paise = 9000;
  igst_paise = 0;
  total_paise = 118000;
  hsn_sac = some (codes "8471");
  payload = none;
}

run_pipeline_iff_example :
    (run_pipeline fixed invoice context ≡ []) ↔ IsCompliant fixed invoice context
run_pipeline_iff_example = run_pipeline_iff fixed invoice context
