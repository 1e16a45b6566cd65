-- ===== src/Recon/Score.antt =====
-- The score of a pair in the fuzzy pass (backend/app/engines/reconciliation/scoring.py).
-- `SequenceMatcher(None, a, b).ratio()` is the standard library's, and a parameter.
pub mod Gates
use niyam_ai.Base.{
  ℕ, ◌+◌, ◌-◌, ◌≡◌, ◌<◌, refl, Bool, true, false, not, ◌&&◌, List, Text, text_eq, text_eq_sound,
  Date, days_apart, dist, ◌==◌, ltb, leb, arith, if◌then◌else◌, Floats,
}
use niyam_ai.Recon.Lines.{ReconConfig, RegisterLine, B2BLine}

module _ (fl : Floats) where
  open fl use {F, of_nat, leb_F}

  -- Python's `max(a, b)` and `min(a, b)`: the first unless the second is beyond it.
  abbrev pub max_F : F → F → F
  max_F a b = if leb_F b a then a else b

  abbrev pub min_F : F → F → F
  min_F a b = if leb_F a b then a else b

abbrev pub max_nat : ℕ → ℕ → ℕ
max_nat a b = if leb b a then a else b

module _ (fl : Floats) (sequence_ratio : Text → Text → fl.F) where
  open fl use {F, of_nat, add, sub, mul, div, leb_F, trunc}

  -- The similarity of two normalised numbers, as the score and the near misses take it.
  unfoldable pub similarity : Text → Text → F
  similarity a b = if text_eq a b then of_nat 1 else sequence_ratio a b

  abbrev pub base_paise : RegisterLine → ℕ
  base_paise inv = max_nat 1 inv.total_paise

  unfoldable pub tolerance_paise : ReconConfig F → RegisterLine → ℕ
  tolerance_paise cfg inv =
      trunc (div (mul (of_nat (base_paise inv)) cfg.amount_tolerance_percent) (of_nat 100))

  unfoldable pub date_score : ReconConfig F → ℕ → F
  date_score cfg date_diff =
      if cfg.date_window_days == 0
      then (if date_diff == 0 then of_nat 1 else of_nat 0)
      else sub (of_nat 1) (div (of_nat date_diff) (of_nat cfg.date_window_days))

  unfoldable pub amount_score : ℕ → ℕ → F
  amount_score tolerance amount_diff =
      let raw =
        if tolerance == 0
        then (if amount_diff == 0 then of_nat 1 else of_nat 0)
        else sub (of_nat 1) (div (of_nat amount_diff) (of_nat tolerance)) in
      max_F fl (of_nat 0) (min_F fl (of_nat 1) raw)

  unfoldable pub weighted_score : ReconConfig F → F → F → F → F
  weighted_score cfg num date amount =
      let total_w = add (add cfg.number_similarity cfg.date_closeness) cfg.amount_closeness in
      if leb_F total_w (of_nat 0)
      then of_nat 0
      else div
          (add (add (mul cfg.number_similarity num) (mul cfg.date_closeness date))
            (mul cfg.amount_closeness amount))
          total_w

  unfoldable pub score_pair : RegisterLine → B2BLine → ReconConfig F → F
  score_pair inv b2b cfg =
      let date_diff = days_apart inv.invoice_date b2b.invoice_date in
      let amount_diff = dist inv.total_paise b2b.total_paise in
      let tolerance = tolerance_paise cfg inv in
      if not (text_eq inv.supplier_gstin b2b.supplier_gstin)
      then of_nat 0
      else if ltb cfg.date_window_days date_diff
      then of_nat 0
      else if ltb tolerance amount_diff
          && ltb 0 amount_diff
          && not (base_paise inv == b2b.total_paise)
      then of_nat 0
      else weighted_score cfg (similarity inv.normalized_number b2b.normalized_number)
          (date_score cfg date_diff) (amount_score tolerance amount_diff)
