-- ===== src/Recon/Passes/Partition.antt =====
-- The reconciliation as a whole (backend/app/engines/reconciliation/passes.py, `reconcile`): the
-- result books every line once.
use mathlib.Core.List.{Memᴰ}
use niyam_ai.Base.{
  ℕ, ◌+◌, ◌≤◌, ◌≡◌, refl, ap, subst, true, not, Option, none, some, List, [], ◌∷◌, ◌++◌, map, arith,
  All, All-mem, contains, count, ==_iff, keep, IsUnique, Bool-cases, inl, inr, Floats, Text,
  All-sort_by, ◌==◌, if◌then◌else◌,
}
use niyam_ai.Recon.Lines.{ReconConfig, RegisterLine, B2BLine, MatchPair}
use niyam_ai.Recon.Passes.{
  Progress, fuzzy_pair, fuzzy_leb, fuzzy_rank, pass_exact, pass_fuzzy, unpaired_reg, unpaired_b2b,
  pass_residuals, default_residual, missing_residual, reconcile,
}
use niyam_ai.Recon.Passes.Greedy.{
  IsBooked, assign-IsBooked, assign-paired, reg_ids, b2b_ids, count_absent, count_present,
}
use niyam_ai.Recon.Passes.Cross.{All-cross}
use niyam_ai.Recon.Passes.Exact.{exact_groups-IsBooked, exact_groups-paired}

-- The identifiers of an optional kind that are there.
abbrev pub present : List (Option ℕ) → List ℕ
present [] = []
present (none ∷ os) = present os
present (some a ∷ os) = a ∷ present os

abbrev pub register_ids : List RegisterLine → List ℕ
register_ids register = map (λ r. r.invoice_id) register

abbrev pub entry_ids : List B2BLine → List ℕ
entry_ids b2b = map (λ b. b.b2b_entry_id) b2b

-- Of a list of lines, those whose identifier is not in a set.
module _ {A : Type 0} (id : A → ℕ) where
  pub count-unpaired :
      (a : ℕ) (paired : List ℕ) (xs : List A)
      → count a (map id (keep (λ x. not (contains paired (id x))) xs))
        ≡ (if contains paired a then 0 else count a (map id xs))
  count-unpaired a paired [] = ground arith
  count-unpaired a paired (x ∷ xs) = elim (Bool-cases (id x == a)) [
    | inl same ↦
        ground (arith, count-unpaired a paired xs, ap (contains paired) ((==_iff (id x) a).0 same))
    | inr other ↦ ground (arith, count-unpaired a paired xs)
  ]

  pub count_mem : {x : A} {xs : List A} → Memᴰ x xs → 1 ≤ count (id x) (map id xs)
  count_mem (Memᴰ.head e) = ground (arith, ap id e)
  count_mem (Memᴰ.tail m) = omega (arith, count_mem m)

All-contains {ℓ} : (P : ℕ → Type ℓ) (xs : List ℕ) (a : ℕ) → contains xs a ≡ true → All P xs → P a
All-contains P [] a h k = cc
All-contains P (x ∷ xs) a h k = elim (Bool-cases (x == a)) [
  | inl same ↦ subst P ((==_iff x a).0 same) k.0
  | inr other ↦ All-contains P xs a (rw other at h) k.1
]

-- A set of lines, each once: those that are paired and those that are not are all of them.
count_split :
    (a : ℕ) (paired ids rest : List ℕ)
    → count a paired ≤ 1
    → count a ids ≤ 1
    → All (λ n. 1 ≤ count n ids) paired
    → count a rest ≡ (if contains paired a then 0 else count a ids)
    → count a paired + count a rest ≡ count a ids
count_split a paired ids rest once unique listed e = elim (Bool-cases (contains paired a)) [
  | inl taken ↦
      let r : count a rest ≡ 0 = rw taken at e in
      omega (
        arith,
        r,
        count_present a paired taken,
        All-contains (λ n. 1 ≤ count n ids) paired a taken listed,
      )
  | inr free ↦
      let r : count a rest ≡ count a ids = rw free at e in
      omega (arith, r, count_absent a paired free)
]

module _ (fl : Floats) where
  -- What a pass has done to the lines that it was given.
  pub record IsPass (register : List RegisterLine) (b2b : List B2BLine)
      (base : List (MatchPair fl.F)) (s : Progress fl) : Type 0 where
    pub booked : (a : ℕ) → IsBooked fl a base s
    pub listed :
        All (λ n. 1 ≤ count n (register_ids register)) s.paired_reg
        × All (λ n. 1 ≤ count n (entry_ids b2b)) s.paired_b2b

  pub pass_exact-IsPass :
      (cfg : ReconConfig fl.F) (register : List RegisterLine) (b2b : List B2BLine)
      (base : List (MatchPair fl.F))
      → IsPass register b2b base (pass_exact fl cfg register b2b base)
  unfolding pass_exact
  pass_exact-IsPass cfg register b2b base = record {
    booked = λ a. exact_groups-IsBooked fl cfg register b2b a base _ _ (omega arith);
    listed =
        exact_groups-paired fl cfg register b2b _ _ _ _
          (λ t c. (count_mem (λ r. r.invoice_id) c.0, count_mem (λ b. b.b2b_entry_id) c.1))
          (tt, tt);
  }

  pub pass_fuzzy-IsPass :
      (ratio : Text → Text → fl.F) (cfg : ReconConfig fl.F) (register : List RegisterLine)
      (b2b : List B2BLine) (base : List (MatchPair fl.F))
      → IsPass register b2b base (pass_fuzzy fl ratio cfg register b2b base)
  unfolding pass_fuzzy fuzzy_pair
  pass_fuzzy-IsPass ratio cfg register b2b base = record {
    booked = λ a.
        assign-IsBooked fl (fuzzy_pair fl) (λ x r b. refl) (λ x r b. refl) a base _ _ (omega arith);
    listed =
        assign-paired fl (fuzzy_pair fl) _ _ _ _
          (All-sort_by _ (fuzzy_leb fl) _ (
            All-cross (fuzzy_rank fl ratio cfg) (λ r. Memᴰ r register) (λ b. Memᴰ b b2b) _
              (λ r b x mr mb e.
                (count_mem (λ r. r.invoice_id) mr, count_mem (λ b. b.b2b_entry_id) mb))
              register b2b (All-mem register) (All-mem b2b)))
          (tt, tt);
  }

  -- A pass moves identifiers from the open lines to the pairs.
  pub pass_conserves :
      (a : ℕ) (register : List RegisterLine) (b2b : List B2BLine) (base : List (MatchPair fl.F))
      (s : Progress fl)
      → IsPass register b2b base s
      → count a (register_ids register) ≤ 1
      → count a (entry_ids b2b) ≤ 1
      → (count a (reg_ids s.pairs) + count a (register_ids (unpaired_reg fl s register))
          ≡ count a (reg_ids base) + count a (register_ids register))
        × (count a (b2b_ids s.pairs) + count a (entry_ids (unpaired_b2b fl s b2b))
            ≡ count a (b2b_ids base) + count a (entry_ids b2b))
  pass_conserves a register b2b base s pass ur ub =
      let h = pass.booked a in
      let p =
        count_split a s.paired_reg (register_ids register)
          (register_ids (unpaired_reg fl s register)) h.reg_once ur pass.listed.0
          (count-unpaired (λ r. r.invoice_id) a s.paired_reg register) in
      let q =
        count_split a s.paired_b2b (entry_ids b2b) (entry_ids (unpaired_b2b fl s b2b)) h.b2b_once ub
          pass.listed.1 (count-unpaired (λ b. b.b2b_entry_id) a s.paired_b2b b2b) in
      (omega (arith, p, h.reg), omega (arith, q, h.b2b))

  module _ (ratio : Text → Text → fl.F) where
    residual_ids :
        (b2b : List B2BLine) (rs : List RegisterLine) (bs : List B2BLine)
        → (present (
              map
                (λ x. x.invoice_id)
                (map (default_residual fl ratio b2b) rs ++ map (missing_residual fl ratio) bs))
            ≡ register_ids rs)
          × (present (
                map
                  (λ x. x.b2b_entry_id)
                  (map (default_residual fl ratio b2b) rs ++ map (missing_residual fl ratio) bs))
              ≡ entry_ids bs)
    unfolding default_residual missing_residual
    residual_ids b2b [] [] = (refl, refl)
    residual_ids b2b [] (b ∷ bs) =
        let (p, q) = residual_ids b2b [] bs in (p, ap (λ l. b.b2b_entry_id ∷ l) q)
    residual_ids b2b (r ∷ rs) bs =
        let (p, q) = residual_ids b2b rs bs in (ap (λ l. r.invoice_id ∷ l) p, q)

    -- Where no identifier is given twice, each register invoice is in one pair or in one residual,
    -- each 2B entry is in one pair or in one residual, and no other identifier is in the result.
    pub reconcile_partitions :
        (register : List RegisterLine) (b2b : List B2BLine) (cfg : ReconConfig fl.F)
        → IsUnique (register_ids register)
        → IsUnique (entry_ids b2b)
        → (a : ℕ)
        → let result = reconcile fl ratio register b2b cfg in
          (count a (reg_ids result.pairs)
              + count a (present (map (λ x. x.invoice_id) result.residuals))
            ≡ count a (register_ids register))
          × (count a (b2b_ids result.pairs)
                + count a (present (map (λ x. x.b2b_entry_id) result.residuals))
              ≡ count a (entry_ids b2b))
    unfolding reconcile pass_residuals
    reconcile_partitions register b2b cfg ur ub a =
        let exact = pass_exact fl cfg register b2b [] in
        let register1 = unpaired_reg fl exact register in
        let b2b1 = unpaired_b2b fl exact b2b in
        let fuzzy = pass_fuzzy fl ratio cfg register1 b2b1 exact.pairs in
        let register2 = unpaired_reg fl fuzzy register1 in
        let b2b2 = unpaired_b2b fl fuzzy b2b1 in
        let (p, q) =
          pass_conserves a register b2b [] exact (pass_exact-IsPass cfg register b2b []) (ur a)
            (ub a) in
        let (p', q') =
          pass_conserves a register1 b2b1 exact.pairs fuzzy
            (pass_fuzzy-IsPass ratio cfg register1 b2b1 exact.pairs) (omega (arith, p, ur a))
            (omega (arith, q, ub a)) in
        let (i, j) = residual_ids b2b2 register2 b2b2 in
        (rw i (omega (arith, p, p')), rw j (omega (arith, q, q')))
