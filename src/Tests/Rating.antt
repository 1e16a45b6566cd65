-- ===== src/Tests/Rating.antt =====
-- The score of the sample reconciliation.
use niyam_ai.Base.{ℕ, ◌≤◌, ◌≡◌, ◌↔◌, true, Option, some, [], ◌∷◌, All, leb}
use niyam_ai.Recon.Passes.{reconcile}
use niyam_ai.Recon.Summary.{summary}
use niyam_ai.Scoring.Inputs.{
  ScoreInputs, Component, pos, validation_pass_rate, reconciliation_match_rate, data_completeness,
  supplier_risk, days_to_due_date,
}
use niyam_ai.Scoring.Calculator.{compute_score, derive_blockers}
use niyam_ai.Scoring.Bounds.{compute_score_bounds}
use niyam_ai.Scoring.Blockers.{IsClear, IsRanked, IsFarOff, derive_blockers-IsRanked}
use niyam_ai.Tests.Sample.{fixed, fixed-IsRounding, ratio, cfg, register, b2b}

abbrev weights : Component → Option ℕ
weights validation_pass_rate = some 2500
weights reconciliation_match_rate = some 3500
weights data_completeness = some 1500
weights supplier_risk = some 1000
weights days_to_due_date = some 1500

abbrev inputs : ScoreInputs ℕ
inputs = record {
  weights = weights;
  days_to_due_date_curve_days = 7;
  invoice_count = 4;
  validation_error_count = 1;
  validation_warning_count = 2;
  recon_summary = some (summary (reconcile fixed ratio register b2b cfg));
  total_register_paise = 1600050;
  trailing_month_counts = 4 ∷ 6 ∷ [];
  current_month_count = 4;
  risky_supplier_paise = 100;
  total_supplier_paise = 1600050;
  days_to_due_date = pos 2;
  error_invoice_paise = 900000;
  warning_invoice_paise = 100000;
}

compute_score_bounds_example :
    ((compute_score fixed inputs).score ≤ 100)
    × All
        (λ c. (leb 0 c.value ≡ true) × (leb c.value 1000000 ≡ true))
        (compute_score fixed inputs).components
compute_score_bounds_example = compute_score_bounds fixed fixed-IsRounding inputs

derive_blockers-IsRanked_example :
    IsRanked (derive_blockers inputs)
    × ((derive_blockers inputs ≡ []) ↔ (
        (inputs.validation_error_count ≡ 0)
        × (inputs.validation_warning_count ≡ 0)
        × IsClear inputs.recon_summary
        × IsFarOff inputs.days_to_due_date))
derive_blockers-IsRanked_example = derive_blockers-IsRanked inputs
