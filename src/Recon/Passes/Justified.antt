-- ===== src/Recon/Passes/Justified.antt =====
-- Which pairs `reconcile` makes, and that it makes all that it can
-- (backend/app/engines/reconciliation/passes.py).
use mathlib.Core.List.{Memᴰ}
use niyam_ai.Base.{
  ◌≤◌, ◌≡◌, refl, ◌∙◌, true, ◌⊎◌, inl, inr, some, List, [], arith, All, All-keep, All-mem, Floats,
  Text, sort_by, All-sort_by, All-take, dist, length, length-take_le, length-map, take, text_eq,
  text_eq_sound, ap, subst, All-to_map,
}
use niyam_ai.Recon.Lines.{
  ReconConfig, RegisterLine, B2BLine, MatchPair, matched, probable, NearMiss,
}
use niyam_ai.Recon.Score.{score_pair, similarity}
use niyam_ai.Recon.Passes.{
  register_key, b2b_key, cross_row, exact_pair, fuzzy_pair, fuzzy_leb, fuzzy_rank, pass_exact,
  pass_fuzzy, reconcile, near_rank, near_miss, find_near_misses,
}
use niyam_ai.Recon.Passes.Greedy.{assign-All}
use niyam_ai.Recon.Passes.Cross.{All-cross_row, All-cross}
use niyam_ai.Recon.Passes.Exact.{exact_groups-All}

module _ (fl : Floats) (ratio : Text → Text → fl.F) (cfg : ReconConfig fl.F) where
  -- Why two lines may be paired: an equal key and totals within the tolerance for a matched pair,
  -- a score of at least the threshold for a probable one.
  abbrev pub HasReason : MatchPair fl.F → RegisterLine → B2BLine → Type 0
  HasReason p r b =
      (p.bucket ≡ matched)
        × (register_key r ≡ b2b_key b)
        × (dist r.total_paise b.total_paise ≤ cfg.exact_amount_tolerance_paise)
      ⊎ (p.bucket ≡ probable)
        × (fl.leb_F cfg.probable_confidence_threshold (score_pair fl ratio r b cfg) ≡ true)

  -- A pair of two lines that were given, with their amounts and the entry's credit flag.
  pub record IsJustified (register : List RegisterLine) (b2b : List B2BLine) (p : MatchPair fl.F)
      : Type 0 where
    pub line : RegisterLine
    pub entry : B2BLine
    pub from_register : Memᴰ line register
    pub from_b2b : Memᴰ entry b2b
    pub invoice_id : p.invoice_id ≡ line.invoice_id
    pub b2b_entry_id : p.b2b_entry_id ≡ entry.b2b_entry_id
    pub invoice_total : p.invoice_total_paise ≡ line.total_paise
    pub b2b_total : p.b2b_total_paise ≡ entry.total_paise
    pub itc_available : p.itc_available ≡ entry.itc_available
    pub reason : HasReason p line entry

  fuzzy_rank-le :
      (r : RegisterLine) (b : B2BLine) (x : fl.F)
      → fuzzy_rank fl ratio cfg r b ≡ some x
      → fl.leb_F cfg.probable_confidence_threshold (score_pair fl ratio r b cfg) ≡ true
  unfolding fuzzy_rank
  fuzzy_rank-le r b x h = ground arith

  exact-IsJustified :
      (register : List RegisterLine) (b2b : List B2BLine)
      → All (IsJustified register b2b) (pass_exact fl cfg register b2b []).pairs
  unfolding pass_exact exact_pair
  exact-IsJustified register b2b =
      exact_groups-All fl cfg register b2b (IsJustified register b2b) _ _
        (λ t c. record {
          line = t.1;
          entry = t.2;
          from_register = c.0;
          from_b2b = c.1;
          invoice_id = refl;
          b2b_entry_id = refl;
          invoice_total = refl;
          b2b_total = refl;
          itc_available = refl;
          reason = inl (refl, c.2, c.3);
        })
        tt

  fuzzy-IsJustified :
      (register register1 : List RegisterLine) (b2b b2b1 : List B2BLine)
      (pairs : List (MatchPair fl.F))
      → All (λ r. Memᴰ r register) register1
      → All (λ b. Memᴰ b b2b) b2b1
      → All (IsJustified register b2b) pairs
      → All (IsJustified register b2b) (pass_fuzzy fl ratio cfg register1 b2b1 pairs).pairs
  unfolding pass_fuzzy fuzzy_pair
  fuzzy-IsJustified register register1 b2b b2b1 pairs mr mb h =
      assign-All fl (fuzzy_pair fl) (IsJustified register b2b) _ _
        (All-sort_by _ (fuzzy_leb fl) _ (
          All-cross (fuzzy_rank fl ratio cfg) (λ r. Memᴰ r register) (λ b. Memᴰ b b2b) _
            (λ r b x from_r from_b e. record {
              line = r;
              entry = b;
              from_register = from_r;
              from_b2b = from_b;
              invoice_id = refl;
              b2b_entry_id = refl;
              invoice_total = refl;
              b2b_total = refl;
              itc_available = refl;
              reason = inr (refl, fuzzy_rank-le r b x e);
            })
            register1 b2b1 mr mb))
        h

  -- Every pair of a reconciliation is of a line of the register and an entry of the 2B, carries
  -- their identifiers, their amounts and the entry's credit flag, and has its reason.
  pub reconcile-IsJustified :
      (register : List RegisterLine) (b2b : List B2BLine)
      → All (IsJustified register b2b) (reconcile fl ratio register b2b cfg).pairs
  unfolding reconcile
  reconcile-IsJustified register b2b =
      fuzzy-IsJustified register _ b2b _ _
        (All-keep (λ r. Memᴰ r register) _ register (All-mem register))
        (All-keep (λ b. Memᴰ b b2b) _ b2b (All-mem b2b)) (exact-IsJustified register b2b)

module _ (fl : Floats) (ratio : Text → Text → fl.F) where
  -- A near miss of a register line: an entry of the same supplier whose number is similar.
  pub record IsNear (r : RegisterLine) (unmatched : List B2BLine) (m : NearMiss fl.F) : Type 0 where
    pub entry : B2BLine
    pub listed : Memᴰ entry unmatched
    pub entry_id : m.b2b_entry_id ≡ entry.b2b_entry_id
    pub supplier : entry.supplier_gstin ≡ r.supplier_gstin
    pub similar :
        fl.leb_F (fl.lit 5 1) (similarity fl ratio r.normalized_number entry.normalized_number)
        ≡ true

  near_rank-some :
      (r : RegisterLine) (b : B2BLine) (x : fl.F)
      → near_rank fl ratio r b ≡ some x
      → (text_eq b.supplier_gstin r.supplier_gstin ≡ true)
        × (fl.leb_F (fl.lit 5 1) (similarity fl ratio r.normalized_number b.normalized_number)
            ≡ true)
  unfolding near_rank
  near_rank-some r b x h = ground arith

  -- The near misses of a register line are at most three, and each is an entry that is left over,
  -- of the line's supplier, whose number is similar by at least a half.
  find_near_misses-IsNear :
      (r : RegisterLine) (unmatched : List B2BLine)
      → (length (find_near_misses fl ratio r unmatched) ≤ 3)
        × All (IsNear r unmatched) (find_near_misses fl ratio r unmatched)
  unfolding find_near_misses near_miss
  find_near_misses-IsNear r unmatched =
      let ranked = sort_by (fuzzy_leb fl) (cross_row (near_rank fl ratio) r unmatched) in
      (
        omega (arith, length-map (near_miss fl ratio) (take 3 ranked), length-take_le 3 ranked),
        All-to_map (near_miss fl ratio) (IsNear r unmatched) (take 3 ranked) (
            All-take _ 3 ranked (
              All-sort_by _ (fuzzy_leb fl) (cross_row (near_rank fl ratio) r unmatched) (
                All-cross_row (near_rank fl ratio) (λ r'. r' ≡ r) (λ b. Memᴰ b unmatched) _
                  (λ r' b x same mb e.
                    let (supplier, similar) = near_rank-some r' b x e in
                    record {
                      entry = b;
                      listed = mb;
                      entry_id = refl;
                      supplier =
                          text_eq_sound b.supplier_gstin r'.supplier_gstin supplier
                          ∙ ap (λ l. l.supplier_gstin) same;
                      similar =
                          subst
                            (λ l.
                              fl.leb_F (fl.lit 5 1)
                                (similarity fl ratio l.normalized_number b.normalized_number)
                              ≡ true)
                            same similar;
                    })
                  r unmatched refl (All-mem unmatched)))),
      )
