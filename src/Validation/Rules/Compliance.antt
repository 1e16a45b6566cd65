-- ===== src/Validation/Rules/Compliance.antt =====
-- The pipeline as a whole (backend/app/engines/validation/pipeline.py).
use niyam_ai.Base.{
  ◌≡◌, refl, ◌↔◌, inl, inr, Option, none, some, List, [], ◌∷◌, arith, Option-cases, Floats, All,
}
use niyam_ai.Ingestion.Invoice.{CanonicalInvoice}
use niyam_ai.Validation.Context.{ValidationContext, Flag, r003, r004, r007, error, warning}
use niyam_ai.Validation.Rules.{
  r001_gstin_missing, r002_gstin_checksum, r003_date_out_of_period, r004_hsn_missing,
  r005_tax_head_mismatch, r006_tax_arithmetic, r007_duplicate_suspect, r008_future_date,
  r009_gstin_state_code, rules, collect, run_pipeline,
}
use niyam_ai.Validation.Rules.Meaning.{
  IsNamed, IsWellFormed, IsInPeriod, IsCoded, IsHeaded, IsTaxed, IsSingle, IsPast, IsInState,
  r001_iff, r002_iff, r003_iff, r004_iff, r005_iff, r006_iff, r007_iff, r008_iff, r009_iff,
}

-- All that the nine rules demand.
pub record IsCompliant (fl : Floats) (invoice : CanonicalInvoice) (ctx : ValidationContext fl.F)
    : Type 0 where
  pub named : IsNamed fl invoice ctx
  pub well_formed : IsWellFormed fl invoice ctx
  pub in_period : IsInPeriod fl invoice ctx
  pub coded : IsCoded fl invoice ctx
  pub headed : IsHeaded fl invoice ctx
  pub taxed : IsTaxed fl invoice ctx
  pub single : IsSingle fl invoice ctx
  pub past : IsPast fl invoice ctx
  pub in_state : IsInState fl invoice ctx

module _ (fl : Floats) (invoice : CanonicalInvoice) (ctx : ValidationContext fl.F) where
  abbrev Passes : List (CanonicalInvoice → ValidationContext fl.F → Option Flag) → Type 0
  Passes [] = Unit
  Passes (rule ∷ rest) = (rule invoice ctx ≡ none) × Passes rest

  collect_nil_iff :
      (rs : List (CanonicalInvoice → ValidationContext fl.F → Option Flag))
      → (collect fl rs invoice ctx ≡ []) ↔ Passes rs
  unfolding collect
  collect_nil_iff [] = (λ h. tt, λ h. refl)
  collect_nil_iff (rule ∷ rest) = elim (Option-cases (rule invoice ctx)) [
    | inl passes ↦ (
      λ h. (passes, (collect_nil_iff rest).0 (ground arith)),
      λ h. ground (arith, (collect_nil_iff rest).1 h.1),
    )
    | inr (f, fails) ↦ (λ h. absurd (ground arith), λ h. absurd (ground arith))
  ]

  -- An invoice has no flag exactly when it does what the nine rules demand.
  pub run_pipeline_iff : (run_pipeline fl invoice ctx ≡ []) ↔ IsCompliant fl invoice ctx
  unfolding run_pipeline
  run_pipeline_iff = (
    λ h.
        let (a, b, c, d, e, f, g, i, j) = passed h in
        record {
          named = (r001_iff fl invoice ctx).0 a;
          well_formed = (r002_iff fl invoice ctx).0 b;
          in_period = (r003_iff fl invoice ctx).0 c;
          coded = (r004_iff fl invoice ctx).0 d;
          headed = (r005_iff fl invoice ctx).0 e;
          taxed = (r006_iff fl invoice ctx).0 f;
          single = (r007_iff fl invoice ctx).0 g;
          past = (r008_iff fl invoice ctx).0 i;
          in_state = (r009_iff fl invoice ctx).0 j;
        },
    λ v. (collect_nil_iff (rules fl)).1 (
      (r001_iff fl invoice ctx).1 v.named,
      (
        (r002_iff fl invoice ctx).1 v.well_formed,
        (
          (r003_iff fl invoice ctx).1 v.in_period,
          (
            (r004_iff fl invoice ctx).1 v.coded,
            (
              (r005_iff fl invoice ctx).1 v.headed,
              (
                (r006_iff fl invoice ctx).1 v.taxed,
                (
                  (r007_iff fl invoice ctx).1 v.single,
                  (
                    (r008_iff fl invoice ctx).1 v.past,
                    ((r009_iff fl invoice ctx).1 v.in_state, tt),
                  ),
                ),
              ),
            ),
          ),
        ),
      ),
    ),
  )
    where
      passed :
          collect fl (rules fl) invoice ctx ≡ []
          → (r001_gstin_missing fl invoice ctx ≡ none)
            × (r002_gstin_checksum fl invoice ctx ≡ none)
            × (r003_date_out_of_period fl invoice ctx ≡ none)
            × (r004_hsn_missing fl invoice ctx ≡ none)
            × (r005_tax_head_mismatch fl invoice ctx ≡ none)
            × (r006_tax_arithmetic fl invoice ctx ≡ none)
            × (r007_duplicate_suspect fl invoice ctx ≡ none)
            × (r008_future_date fl invoice ctx ≡ none)
            × (r009_gstin_state_code fl invoice ctx ≡ none)
      passed h =
          let p = (collect_nil_iff (rules fl)).0 h in
          (
            p.0, p.1.0, p.1.1.0, p.1.1.1.0, p.1.1.1.1.0, p.1.1.1.1.1.0, p.1.1.1.1.1.1.0,
            p.1.1.1.1.1.1.1.0, p.1.1.1.1.1.1.1.1.0,
          )

-- The severity that a rule's flag has, for every rule but R004, whose severity the pack sets.
abbrev pub IsGraded : Flag → Type 0
IsGraded f = elim f.rule_code [
  | r003 ↦ f.severity ≡ warning
  | r004 ↦ Unit
  | r007 ↦ f.severity ≡ warning
  | _ ↦ f.severity ≡ error
]

module _ (fl : Floats) (invoice : CanonicalInvoice) (ctx : ValidationContext fl.F) where
  abbrev GradedRule : (CanonicalInvoice → ValidationContext fl.F → Option Flag) → Type 0
  GradedRule rule = (f : Flag) → rule invoice ctx ≡ some f → IsGraded f

  collect-IsGraded :
      (rs : List (CanonicalInvoice → ValidationContext fl.F → Option Flag))
      → All GradedRule rs
      → All IsGraded (collect fl rs invoice ctx)
  unfolding collect
  collect-IsGraded [] h = tt
  collect-IsGraded (rule ∷ rest) h = elim (Option-cases (rule invoice ctx)) [
    | inl passes ↦ rw (passes, collect) (collect-IsGraded rest h.1)
    | inr (f, fails) ↦ rw (fails, collect) (h.0 f fails, collect-IsGraded rest h.1)
  ]

  r001_gstin_missing-graded : GradedRule (r001_gstin_missing fl)
  unfolding r001_gstin_missing
  r001_gstin_missing-graded f h = ground arith

  r002_gstin_checksum-graded : GradedRule (r002_gstin_checksum fl)
  unfolding r002_gstin_checksum
  r002_gstin_checksum-graded f h = ground arith

  r003_date_out_of_period-graded : GradedRule (r003_date_out_of_period fl)
  unfolding r003_date_out_of_period
  r003_date_out_of_period-graded f h = ground arith

  r004_hsn_missing-graded : GradedRule (r004_hsn_missing fl)
  unfolding r004_hsn_missing
  r004_hsn_missing-graded f h = ground arith

  r005_tax_head_mismatch-graded : GradedRule (r005_tax_head_mismatch fl)
  unfolding r005_tax_head_mismatch
  r005_tax_head_mismatch-graded f h = ground arith

  r006_tax_arithmetic-graded : GradedRule (r006_tax_arithmetic fl)
  unfolding r006_tax_arithmetic
  r006_tax_arithmetic-graded f h = ground arith

  r007_duplicate_suspect-graded : GradedRule (r007_duplicate_suspect fl)
  unfolding r007_duplicate_suspect
  r007_duplicate_suspect-graded f h = ground arith

  r008_future_date-graded : GradedRule (r008_future_date fl)
  unfolding r008_future_date
  r008_future_date-graded f h = ground arith

  r009_gstin_state_code-graded : GradedRule (r009_gstin_state_code fl)
  unfolding r009_gstin_state_code
  r009_gstin_state_code-graded f h = ground arith

  -- Every flag of the pipeline has the severity of its rule: a warning for a date outside the
  -- period and for a suspected duplicate, an error for all others but the HSN rule's.
  run_pipeline-IsGraded : All IsGraded (run_pipeline fl invoice ctx)
  unfolding run_pipeline
  run_pipeline-IsGraded = collect-IsGraded (rules fl) (
    r001_gstin_missing-graded,
    (
      r002_gstin_checksum-graded,
      (
        r003_date_out_of_period-graded,
        (
          r004_hsn_missing-graded,
          (
            r005_tax_head_mismatch-graded,
            (
              r006_tax_arithmetic-graded,
              (
                r007_duplicate_suspect-graded,
                (r008_future_date-graded, (r009_gstin_state_code-graded, tt)),
              ),
            ),
          ),
        ),
      ),
    ),
  )
