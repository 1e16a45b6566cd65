-- ===== src/Scoring/Calculator.antt =====
-- The score and the blockers (backend/app/engines/scoring/calculator.py).
use niyam_ai.Base.{
  ℕ, zero, suc, Bool, true, Option, none, some, List, [], ◌∷◌, ◌++◌, map, Text, codes, text_leb,
  length, total, take, sort_by, ◌==◌, ltb, leb, if◌then◌else◌, Floats,
}
use niyam_ai.Recon.Score.{max_F, min_F}
use niyam_ai.Recon.Summary.{Summary, SupplierTotal}
use niyam_ai.Scoring.Inputs.{
  ℤ, pos, negsuc, Owner, ca, client, Blocker, Component, ComponentBreakdown, ScoreInputs,
  ScoreResult, validation_pass_rate, reconciliation_match_rate, data_completeness, supplier_risk,
  days_to_due_date,
}

module _ (fl : Floats) where
  open fl use {F, of_nat, lit, add, sub, mul, div, leb_F, round_to, nearest}

  unfoldable pub clip : F → F
  clip x = max_F fl (of_nat 0) (min_F fl (of_nat 100) x)

  -- ERROR_WEIGHT is 1.0 and WARNING_WEIGHT is 0.3.
  unfoldable pub pass_rate : ℕ → ℕ → ℕ → F
  pass_rate invoice_count errors warnings =
      let weighted_failures =
        add (mul (of_nat errors) (of_nat 1)) (mul (of_nat warnings) (lit 3 1)) in
      let ratio =
        div (max_F fl (of_nat 0) (sub (of_nat invoice_count) weighted_failures))
          (of_nat invoice_count) in
      if invoice_count == 0 then of_nat 100 else round_to 2 (clip (mul (of_nat 100) ratio))

  unfoldable pub match_rate : ℕ → ℕ → F
  match_rate matched_paise total_register_paise =
      if total_register_paise == 0
      then of_nat 100
      else round_to 2
          (clip (div (mul (of_nat 100) (of_nat matched_paise)) (of_nat total_register_paise)))

  unfoldable pub completeness : ℕ → List ℕ → F
  completeness current_count [] = of_nat 100
  completeness current_count (n ∷ ns) =
      let avg = div (of_nat (total (λ x. x) (n ∷ ns))) (of_nat (length (n ∷ ns))) in
      if leb_F avg (of_nat 0)
      then of_nat 100
      else round_to 2 (clip (div (mul (of_nat 100) (of_nat current_count)) avg))

  unfoldable pub risk_score : ℕ → ℕ → F
  risk_score risky_paise total_paise =
      let fraction_risky =
        min_F fl (of_nat 1) (max_F fl (of_nat 0) (div (of_nat risky_paise) (of_nat total_paise))) in
      if total_paise == 0
      then of_nat 100
      else round_to 2 (clip (mul (of_nat 100) (sub (of_nat 1) fraction_risky)))

  unfoldable pub days_score : ℤ → ℕ → F
  days_score (negsuc n) full_score_days = of_nat 0
  days_score (pos zero) full_score_days = of_nat 0
  days_score (pos (suc n)) full_score_days =
      if full_score_days == 0
      then of_nat 100
      else round_to 2 (clip (div (mul (of_nat 100) (of_nat (suc n))) (of_nat full_score_days)))

  abbrev pub matched_paise : Option Summary → ℕ
  matched_paise none = 0
  matched_paise (some s) = s.matched.paise

  -- The dict `raw`, in its order.
  unfoldable pub raw_components : ScoreInputs F → List (Component × F)
  raw_components inp =
      (
        validation_pass_rate,
        pass_rate inp.invoice_count inp.validation_error_count inp.validation_warning_count,
      )
      ∷ (
        reconciliation_match_rate,
        match_rate (matched_paise inp.recon_summary) inp.total_register_paise,
      )
      ∷ (data_completeness, completeness inp.current_month_count inp.trailing_month_counts)
      ∷ (supplier_risk, risk_score inp.risky_supplier_paise inp.total_supplier_paise)
      ∷ (days_to_due_date, days_score inp.days_to_due_date inp.days_to_due_date_curve_days)
      ∷ []

  abbrev pub weight_of : ScoreInputs F → Component → F
  weight_of inp c = elim (inp.weights c) [ none ↦ of_nat 0 | some w ↦ w ]

  -- `sum(weights.values())`
  unfoldable pub weight_sum : ScoreInputs F → List (Component × F) → F → F
  weight_sum inp [] acc = acc
  weight_sum inp ((c, v) ∷ rest) acc = weight_sum inp rest (add acc (weight_of inp c))

  unfoldable pub normalized : F → F → F
  normalized total_w w = if leb_F total_w (of_nat 0) then of_nat 0 else div w total_w

  unfoldable pub contribution : ScoreInputs F → F → Component × F → F
  contribution inp total_w (c, v) = mul v (normalized total_w (weight_of inp c))

  unfoldable pub contributions : ScoreInputs F → F → List (Component × F) → F → F
  contributions inp total_w [] acc = acc
  contributions inp total_w (x ∷ rest) acc =
      contributions inp total_w rest (add acc (contribution inp total_w x))

  unfoldable pub breakdown : ScoreInputs F → F → Component × F → ComponentBreakdown F
  breakdown inp total_w (c, v) = record {
    name = c;
    value = v;
    weight = weight_of inp c;
    weighted = round_to 4 (contribution inp total_w (c, v));
  }

-- `if condition: out.append(blocker)`
abbrev pub when : Bool → Blocker → List Blocker
when b x = if b then x ∷ [] else []

abbrev pub blocker : Text → Owner → ℕ → Blocker
blocker code owner paise = record { code = code; owner = owner; paise_impact = paise }

unfoldable pub supplier_blocker : SupplierTotal → Blocker
supplier_blocker entry =
    blocker (codes "TOP_DEFAULT_SUPPLIER_" ++ entry.supplier_gstin) ca entry.paise

unfoldable pub probable_blockers : Option Summary → List Blocker
probable_blockers none = []
probable_blockers (some s) =
    when (ltb 0 s.probable.count) (blocker (codes "PROBABLE_PENDING_REVIEW") ca s.probable.paise)

-- TOP_DEFAULT_SUPPLIER_BLOCKERS is 5.
unfoldable pub default_blockers : Option Summary → List Blocker
default_blockers none = []
default_blockers (some s) =
    if ltb 0 s.supplier_default.count
    then blocker (codes "SUPPLIER_DEFAULT_TOTAL") ca s.supplier_default.paise
      ∷ map supplier_blocker (take 5 s.supplier_default.top_suppliers)
    else []

unfoldable pub missing_blockers : Option Summary → List Blocker
missing_blockers none = []
missing_blockers (some s) =
    when (ltb 0 s.missing_entry.count)
      (blocker (codes "MISSING_ENTRY_TOTAL") client s.missing_entry.paise)

-- `days <= 3`
abbrev pub is_imminent : ℤ → Bool
is_imminent (pos n) = leb n 3
is_imminent (negsuc n) = true

-- The key `(-paise_impact, code)`.
abbrev pub blocker_leb : Blocker → Blocker → Bool
blocker_leb a b =
    if a.paise_impact == b.paise_impact
    then text_leb a.code b.code
    else leb b.paise_impact a.paise_impact

unfoldable pub collected_blockers : {F : Type 0} → ScoreInputs F → List Blocker
collected_blockers inp =
    when (ltb 0 inp.validation_error_count)
      (blocker (codes "VALIDATION_ERRORS") ca inp.error_invoice_paise)
    ++ (when (ltb 0 inp.validation_warning_count)
          (blocker (codes "VALIDATION_WARNINGS") ca inp.warning_invoice_paise)
        ++ (probable_blockers inp.recon_summary
            ++ (default_blockers inp.recon_summary
                ++ (missing_blockers inp.recon_summary
                    ++ when (is_imminent inp.days_to_due_date)
                        (blocker (codes "DEADLINE_IMMINENT") ca 0)))))

unfoldable pub derive_blockers : {F : Type 0} → ScoreInputs F → List Blocker
derive_blockers inp = sort_by blocker_leb (collected_blockers inp)

module _ (fl : Floats) where
  open fl use {F, of_nat, round_to, nearest}

  unfoldable pub compute_score : ScoreInputs F → ScoreResult F
  compute_score inp =
      let raw = raw_components fl inp in
      let total_w = weight_sum fl inp raw (of_nat 0) in
      let weighted_sum = contributions fl inp total_w raw (of_nat 0) in
      record {
        score = nearest (clip fl weighted_sum);
        components = map (breakdown fl inp total_w) raw;
        blockers = derive_blockers inp;
        normalized_weights =
            map (λ x. round_to 6 (normalized fl total_w (weight_of fl inp x.0))) raw;
        weighted_sum = round_to 4 weighted_sum;
      }
