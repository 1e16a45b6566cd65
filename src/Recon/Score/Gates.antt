-- ===== src/Recon/Score/Gates.antt =====
-- The hard gates of the score (backend/app/engines/reconciliation/scoring.py).
use niyam_ai.Base.{
  ◌≤◌, ◌≡◌, ◌⊎◌, inl, inr, true, false, leb, Text, text_eq, text_eq_sound, days_apart, dist, arith,
  Bool-cases, Floats,
}
use niyam_ai.Recon.Lines.{ReconConfig, RegisterLine, B2BLine}
use niyam_ai.Recon.Score.{score_pair, tolerance_paise}

-- A score that reaches a threshold above zero is of two lines of one supplier, within the window
-- of days, with totals within the tolerance, unless the register's total is 0 and the 2B's 1.
pub score_pair_gates :
    (fl : Floats) (ratio : Text → Text → fl.F) (cfg : ReconConfig fl.F) (inv : RegisterLine)
    (b2b : B2BLine) (threshold : fl.F)
    → fl.leb_F threshold (fl.of_nat 0) ≡ false
    → fl.leb_F threshold (score_pair fl ratio inv b2b cfg) ≡ true
    → (inv.supplier_gstin ≡ b2b.supplier_gstin)
      × (days_apart inv.invoice_date b2b.invoice_date ≤ cfg.date_window_days)
      × ((dist inv.total_paise b2b.total_paise ≤ tolerance_paise fl ratio cfg inv)
          ⊎ (inv.total_paise ≡ 0) × (b2b.total_paise ≡ 1))
unfolding score_pair
score_pair_gates fl ratio cfg inv b2b threshold positive reaches =
    let same : text_eq inv.supplier_gstin b2b.supplier_gstin ≡ true = ground arith in
    (
      text_eq_sound inv.supplier_gstin b2b.supplier_gstin same,
      ground arith,
      elim (Bool-cases
          (leb (dist inv.total_paise b2b.total_paise) (tolerance_paise fl ratio cfg inv))) [
            | inl near ↦ inl (ground arith)
            | inr far ↦ inr (ground arith, ground arith)
          ],
    )
