-- ===== src/Recon/Passes/Complete.antt =====
-- That `reconcile` makes all the pairs that it can (backend/app/engines/reconciliation/passes.py).
use mathlib.Core.Bool.{true≢false}
use mathlib.Core.List.{Memᴰ}
use niyam_ai.Base.{
  ℕ, ◌≤◌, ◌≡◌, sym, ◌∙◌, Bool, true, false, not, ◌&&◌, inl, inr, some, List, [], arith, All,
  All-map, All-mem, All-of_keep, keep, All-at, All-keep_mem, All-append, All-to_map, contains,
  Bool-cases, Floats, Text, sort_by, All-of_sort_by, dist,
}
use niyam_ai.Recon.Lines.{ReconConfig, RegisterLine, B2BLine, MatchPair, Residual}
use niyam_ai.Recon.Score.{score_pair}
use niyam_ai.Recon.Passes.{
  Progress, register_key, b2b_key, is_taken, cross, fuzzy_pair, fuzzy_leb, fuzzy_rank, pass_exact,
  pass_fuzzy, unpaired_reg, unpaired_b2b, default_residual, missing_residual, pass_residuals,
  reconcile,
}
use niyam_ai.Recon.Passes.Greedy.{assign_takes}
use niyam_ai.Recon.Passes.Cross.{All-of_cross}
use niyam_ai.Recon.Passes.Exact.{pass_exact_takes}

kept_mem {ℓ} :
    {A : Type ℓ} (p : A → Bool) (xs : List A) {x : A} → Memᴰ x xs → p x ≡ true → Memᴰ x (keep p xs)
kept_mem p xs m h =
    All-at (λ x. p x ≡ true → Memᴰ x (keep p xs)) (All-of_keep _ p xs (All-mem (keep p xs))) m h

module _ (fl : Floats) (ratio : Text → Text → fl.F) (cfg : ReconConfig fl.F) where
  fuzzy_rank-some :
      (r : RegisterLine) (b : B2BLine)
      → fl.leb_F cfg.probable_confidence_threshold (score_pair fl ratio r b cfg) ≡ true
      → fuzzy_rank fl ratio cfg r b ≡ some (score_pair fl ratio r b cfg)
  unfolding fuzzy_rank
  fuzzy_rank-some r b h = ground arith

  pass_fuzzy_takes :
      (register : List RegisterLine) (b2b : List B2BLine) (pairs : List (MatchPair fl.F))
      (r : RegisterLine) (b : B2BLine)
      → Memᴰ r register
      → Memᴰ b b2b
      → fl.leb_F cfg.probable_confidence_threshold (score_pair fl ratio r b cfg) ≡ true
      → is_taken fl (pass_fuzzy fl ratio cfg register b2b pairs) r b ≡ true
  unfolding pass_fuzzy
  pass_fuzzy_takes register b2b pairs r b mr mb h =
      let final = pass_fuzzy fl ratio cfg register b2b pairs in
      let candidates = cross (fuzzy_rank fl ratio cfg) register b2b in
      let rows =
        All-of_cross (fuzzy_rank fl ratio cfg) (λ t. is_taken fl final t.1 t.2 ≡ true) register b2b
          (All-of_sort_by (λ t. is_taken fl final t.1 t.2 ≡ true) (fuzzy_leb fl) candidates
            (assign_takes fl (fuzzy_pair fl) (sort_by (fuzzy_leb fl) candidates)
              (record { pairs = pairs; paired_reg = []; paired_b2b = [] }))) in
      All-at (λ b. (x : fl.F) → fuzzy_rank fl ratio cfg r b ≡ some x → is_taken fl final r b ≡ true)
        (All-at
          (λ r.
            All
              (λ b.
                (x : fl.F) → fuzzy_rank fl ratio cfg r b ≡ some x → is_taken fl final r b ≡ true)
              b2b)
          rows mr)
        mb _ (fuzzy_rank-some r b h)

  -- The identifiers of a residual have what the lines have that are left over.
  abbrev HasIds : (ℕ → Bool) → (ℕ → Bool) → Residual fl.F → Type 0
  HasIds p q ρ =
      ((i : ℕ) → ρ.invoice_id ≡ some i → p i ≡ true)
      × ((i : ℕ) → ρ.b2b_entry_id ≡ some i → q i ≡ true)

  pass_residuals-HasIds :
      (p q : ℕ → Bool) (regs : List RegisterLine) (ents : List B2BLine)
      → All (λ r. p r.invoice_id ≡ true) regs
      → All (λ b. q b.b2b_entry_id ≡ true) ents
      → All (HasIds p q) (pass_residuals fl ratio regs ents)
  unfolding pass_residuals default_residual missing_residual
  pass_residuals-HasIds p q regs ents hr hb =
      All-append (HasIds p q) _ _
        (All-to_map (default_residual fl ratio ents) (HasIds p q) regs
          (All-map _ (λ r h. (λ i e. cc (e, h), λ i e. cc (e))) hr))
        (All-to_map (missing_residual fl ratio) (HasIds p q) ents
          (All-map _ (λ b h. (λ i e. cc (e), λ i e. cc (e, h))) hb))

  -- Neither pass has paired what stands in a residual.
  reconcile-HasIds :
      (register : List RegisterLine) (b2b : List B2BLine)
      → let exact = pass_exact fl cfg register b2b [] in
        let fuzzy =
          pass_fuzzy fl ratio cfg
            (unpaired_reg fl exact register)
            (unpaired_b2b fl exact b2b)
            exact.pairs in
        All
          (HasIds
            (λ i. not (contains exact.paired_reg i) && not (contains fuzzy.paired_reg i))
            (λ i. not (contains exact.paired_b2b i) && not (contains fuzzy.paired_b2b i)))
          (reconcile fl ratio register b2b cfg).residuals
  unfolding reconcile
  reconcile-HasIds register b2b =
      let exact = pass_exact fl cfg register b2b [] in
      let register1 = unpaired_reg fl exact register in
      let b2b1 = unpaired_b2b fl exact b2b in
      let fuzzy = pass_fuzzy fl ratio cfg register1 b2b1 exact.pairs in
      pass_residuals-HasIds _ _ (unpaired_reg fl fuzzy register1) (unpaired_b2b fl fuzzy b2b1)
        (All-map _
          (λ r h. let (m, o) = All-at _ (All-keep_mem _ register) h.0 in ground (arith, o, h.1))
          (All-keep_mem _ register1))
        (All-map _ (λ b h. let (m, o) = All-at _ (All-keep_mem _ b2b) h.0 in ground (arith, o, h.1))
          (All-keep_mem _ b2b1))

  both : (a b : Bool) → a && b ≡ true → (a ≡ true) × (b ≡ true)
  both a b h = ground arith

  not_taken :
      (s : Progress fl) (r : RegisterLine) (b : B2BLine)
      → not (contains s.paired_reg r.invoice_id) ≡ true
      → not (contains s.paired_b2b b.b2b_entry_id) ≡ true
      → is_taken fl s r b ≡ false
  not_taken s r b h k = ground arith

  -- No line is left over that could have been paired: of a register line and a 2B entry whose
  -- identifiers both stand in residuals of the result, the keys differ or the totals are apart by
  -- more than the tolerance, and the score does not reach the threshold.
  pub reconcile_complete :
      (register : List RegisterLine) (b2b : List B2BLine) (r : RegisterLine) (b : B2BLine)
      (reg_residual b2b_residual : Residual fl.F)
      → Memᴰ r register
      → Memᴰ b b2b
      → Memᴰ reg_residual (reconcile fl ratio register b2b cfg).residuals
      → Memᴰ b2b_residual (reconcile fl ratio register b2b cfg).residuals
      → reg_residual.invoice_id ≡ some r.invoice_id
      → b2b_residual.b2b_entry_id ≡ some b.b2b_entry_id
      → ¬ (
          (register_key r ≡ b2b_key b)
          × (dist r.total_paise b.total_paise ≤ cfg.exact_amount_tolerance_paise))
        × (fl.leb_F cfg.probable_confidence_threshold (score_pair fl ratio r b cfg) ≡ false)
  reconcile_complete register b2b r b ρ σ mr mb in_ρ in_σ eρ eσ =
      let exact = pass_exact fl cfg register b2b [] in
      let register1 = unpaired_reg fl exact register in
      let b2b1 = unpaired_b2b fl exact b2b in
      let fuzzy = pass_fuzzy fl ratio cfg register1 b2b1 exact.pairs in
      let ids = reconcile-HasIds register b2b in
      let (open_r, free_r) = both _ _ ((All-at _ ids in_ρ).0 r.invoice_id eρ) in
      let (open_b, free_b) = both _ _ ((All-at _ ids in_σ).1 b.b2b_entry_id eσ) in
      (
        λ c. true≢false (
            sym (pass_exact_takes fl cfg register b2b [] r b mr mb c.0 c.1)
            ∙ not_taken exact r b open_r open_b),
        elim (Bool-cases
            (fl.leb_F cfg.probable_confidence_threshold (score_pair fl ratio r b cfg))) [
              | inl reaches ↦ absurd (
                  true≢false (
                    sym (
                      pass_fuzzy_takes register1 b2b1 exact.pairs r b
                        (kept_mem (λ r. not (contains exact.paired_reg r.invoice_id)) register mr
                          open_r)
                        (kept_mem (λ b. not (contains exact.paired_b2b b.b2b_entry_id)) b2b mb
                          open_b)
                        reaches)
                    ∙ not_taken fuzzy r b free_r free_b))
              | inr below ↦ below
            ],
      )
