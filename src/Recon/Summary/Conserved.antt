-- ===== src/Recon/Summary/Conserved.antt =====
-- That the summary of a reconciliation accounts for the lines and their money
-- (backend/app/engines/reconciliation/passes.py and types.py).
use niyam_ai.Base.{
  ℕ, ◌+◌, ◌≡◌, refl, sym, ap, ◌∙◌, Option, List, [], ◌∷◌, ◌++◌, map, arith, All, All-map, All-mem,
  All-keep, All-append, All-to_map, count-append, IsUnique, Floats, Text, total, total-append,
  length,
}
use niyam_ai.Recon.Lines.{
  ReconConfig, RegisterLine, B2BLine, matched, probable, MatchPair, supplier_default, missing_entry,
  Residual, ReconResult,
}
use niyam_ai.Recon.Passes.{reconcile, pass_residuals, default_residual, missing_residual}
use niyam_ai.Recon.Passes.Greedy.{reg_ids, b2b_ids}
use niyam_ai.Recon.Passes.Partition.{present, register_ids, entry_ids, reconcile_partitions}
use niyam_ai.Recon.Passes.Justified.{reconcile-IsJustified}
use niyam_ai.Recon.Summary.{summary}
use niyam_ai.Recon.Summary.Totals.{
  in_bucket, in_residual_bucket, IsPairSummary, summary-IsPairSummary, summary-residuals,
}
use niyam_ai.Recon.Summary.Sums.{
  total_counts, total-map, at_most, total-present, amount_of, amount_of_lem, total-amount_of,
  All-true, length-total,
}

buckets_total :
    {F : Type 0} (f : MatchPair F → ℕ) (pairs : List (MatchPair F))
    → total (λ p. in_bucket matched (f p) p) pairs + total (λ p. in_bucket probable (f p) p) pairs
      ≡ total f pairs
buckets_total f [] = refl
buckets_total f (p ∷ ps) = ground (arith, buckets_total f ps)

module _ (fl : Floats) (ratio : Text → Text → fl.F) (cfg : ReconConfig fl.F) where
  -- What a residual adds to the figures is what its identifiers stand for.
  abbrev IsWeighed : (ℕ → ℕ) → (ℕ → ℕ) → Residual fl.F → Type 0
  IsWeighed g h ρ =
      (in_residual_bucket supplier_default ρ.total_paise ρ ≡ at_most g ρ.invoice_id)
      × (in_residual_bucket supplier_default 1 ρ ≡ at_most (λ a. 1) ρ.invoice_id)
      × (in_residual_bucket missing_entry ρ.total_paise ρ ≡ at_most h ρ.b2b_entry_id)
      × (in_residual_bucket missing_entry 1 ρ ≡ at_most (λ a. 1) ρ.b2b_entry_id)

  pass_residuals-IsWeighed :
      (g h : ℕ → ℕ) (regs : List RegisterLine) (ents : List B2BLine)
      → All (λ r. r.total_paise ≡ g r.invoice_id) regs
      → All (λ b. b.total_paise ≡ h b.b2b_entry_id) ents
      → All (IsWeighed g h) (pass_residuals fl ratio regs ents)
  unfolding pass_residuals default_residual missing_residual
  pass_residuals-IsWeighed g h regs ents hr hb =
      All-append (IsWeighed g h) _ _
        (All-to_map (default_residual fl ratio ents) (IsWeighed g h) regs
          (All-map _ (λ r e. (e, refl, refl, refl)) hr))
        (All-to_map (missing_residual fl ratio) (IsWeighed g h) ents
          (All-map _ (λ b e. (refl, refl, e, refl)) hb))

  module _ (register : List RegisterLine) (b2b : List B2BLine)
      (register_once : IsUnique (register_ids register)) (b2b_once : IsUnique (entry_ids b2b)) where
    abbrev result : ReconResult fl.F
    result = reconcile fl ratio register b2b cfg

    abbrev owed : ℕ → ℕ
    owed = amount_of (λ (r : RegisterLine). r.invoice_id) (λ r. r.total_paise) register

    abbrev entered : ℕ → ℕ
    entered = amount_of (λ (b : B2BLine). b.b2b_entry_id) (λ b. b.total_paise) b2b

    residuals-IsWeighed : All (IsWeighed owed entered) result.residuals
    unfolding reconcile
    residuals-IsWeighed =
        pass_residuals-IsWeighed owed entered _ _
          (All-keep _ _ _ (
            All-keep _ _ register (
              All-map register (λ r m. amount_of_lem _ _ register m register_once)
                (All-mem register))))
          (All-keep _ _ _ (
            All-keep _ _ b2b (All-map b2b (λ b m. amount_of_lem _ _ b2b m b2b_once) (All-mem b2b))))

    paired :
        All
          (λ p.
            (p.invoice_total_paise ≡ owed p.invoice_id)
            × (p.b2b_total_paise ≡ entered p.b2b_entry_id))
          result.pairs
    paired =
        All-map result.pairs
          (λ p j. (
            j.invoice_total
                ∙ amount_of_lem _ _ register j.from_register register_once
                ∙ ap owed (sym j.invoice_id),
            j.b2b_total
                ∙ amount_of_lem _ _ b2b j.from_b2b b2b_once
                ∙ ap entered (sym j.b2b_entry_id),
          ))
          (reconcile-IsJustified fl ratio cfg register b2b)

    -- A sum over the register is one over the pairs and the residuals, and so is one over the 2B.
    register_sum :
        (g : ℕ → ℕ)
        → total g (reg_ids result.pairs)
            + total g (present (map (λ x. x.invoice_id) result.residuals))
          ≡ total g (register_ids register)
    register_sum g =
        let left = reg_ids result.pairs in
        let right = present (map (λ x. x.invoice_id) result.residuals) in
        sym (total-append g left right)
        ∙ total_counts g (left ++ right) (register_ids register) (λ a.
          count-append a left right
          ∙ (reconcile_partitions fl ratio register b2b cfg register_once b2b_once a).0)

    b2b_sum :
        (g : ℕ → ℕ)
        → total g (b2b_ids result.pairs)
            + total g (present (map (λ x. x.b2b_entry_id) result.residuals))
          ≡ total g (entry_ids b2b)
    b2b_sum g =
        let left = b2b_ids result.pairs in
        let right = present (map (λ x. x.b2b_entry_id) result.residuals) in
        sym (total-append g left right)
        ∙ total_counts g (left ++ right) (entry_ids b2b) (λ a.
          count-append a left right
          ∙ (reconcile_partitions fl ratio register b2b cfg register_once b2b_once a).1)

    reg_pairs_paise :
        total (λ p. p.invoice_total_paise) result.pairs ≡ total owed (reg_ids result.pairs)
    reg_pairs_paise =
        total-map _ (λ p. p.invoice_id) owed result.pairs (All-map result.pairs (λ p h. h.0) paired)

    b2b_pairs_paise :
        total (λ p. p.b2b_total_paise) result.pairs ≡ total entered (b2b_ids result.pairs)
    b2b_pairs_paise =
        total-map _ (λ p. p.b2b_entry_id) entered result.pairs
          (All-map result.pairs (λ p h. h.1) paired)

    -- The summary of a reconciliation accounts for every line. Where no identifier is given twice,
    -- the register's invoices are those of the matched, probable and supplier default buckets
    -- together, in number and in paise; the 2B entries are in number those of the matched, probable
    -- and missing entry buckets, and in paise the amounts that the pairs have for the 2B with those
    -- of the missing entries. The matched and probable figures are of the pairs of that bucket, with
    -- the amounts split into claimable and not available.
    pub summary_adds_up :
        let s = summary result in
        (s.matched.count + s.probable.count + s.supplier_default.count ≡ length register)
        × (s.matched.paise + s.probable.paise + s.supplier_default.paise
            ≡ total (λ r. r.total_paise) register)
        × (s.matched.count + s.probable.count + s.missing_entry.count ≡ length b2b)
        × (total (λ p. p.b2b_total_paise) result.pairs + s.missing_entry.paise
            ≡ total (λ b. b.total_paise) b2b)
        × IsPairSummary matched result.pairs s.matched
        × IsPairSummary probable result.pairs s.probable
    summary_adds_up =
        let (m, p) = summary-IsPairSummary result in
        let res = summary-residuals result in
        let ones : ℕ → ℕ = λ a. 1 in
        let weighed = residuals-IsWeighed in
        let xs = result.residuals in
        let reg : Residual fl.F → Option ℕ = λ ρ. ρ.invoice_id in
        let ent : Residual fl.F → Option ℕ = λ ρ. ρ.b2b_entry_id in
        (
          omega (
            arith,
            m.0,
            p.0,
            res.0,
            buckets_total (λ (q : MatchPair fl.F). 1) result.pairs,
            total-map (λ (q : MatchPair fl.F). 1) (λ q. q.invoice_id) ones result.pairs
                (All-true (λ q. refl) result.pairs),
            total-present _ reg ones xs (All-map xs (λ ρ h. h.1) weighed),
            register_sum ones,
            length-total (λ (r : RegisterLine). r.invoice_id) register,
          ),
          omega (
            arith,
            m.1,
            p.1,
            res.1,
            buckets_total (λ (q : MatchPair fl.F). q.invoice_total_paise) result.pairs,
            reg_pairs_paise,
            total-present _ reg owed xs (All-map xs (λ ρ h. h.0) weighed),
            register_sum owed,
            total-amount_of (λ (r : RegisterLine). r.invoice_id) (λ r. r.total_paise) register
                register_once,
          ),
          omega (
            arith,
            m.0,
            p.0,
            res.2,
            buckets_total (λ (q : MatchPair fl.F). 1) result.pairs,
            total-map (λ (q : MatchPair fl.F). 1) (λ q. q.b2b_entry_id) ones result.pairs
                (All-true (λ q. refl) result.pairs),
            total-present _ ent ones xs (All-map xs (λ ρ h. h.3) weighed),
            b2b_sum ones,
            length-total (λ (b : B2BLine). b.b2b_entry_id) b2b,
          ),
          omega (
            arith,
            res.3,
            b2b_pairs_paise,
            total-present _ ent entered xs (All-map xs (λ ρ h. h.2) weighed),
            b2b_sum entered,
            total-amount_of (λ (b : B2BLine). b.b2b_entry_id) (λ b. b.total_paise) b2b b2b_once,
          ),
          m,
          p,
        )
