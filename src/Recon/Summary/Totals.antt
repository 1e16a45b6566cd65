-- ===== src/Recon/Summary/Totals.antt =====
-- What the figures of a summary add up to (backend/app/engines/reconciliation/types.py).
use niyam_ai.Base.{
  ℕ, zero, suc, ◌+◌, ◌≤◌, ◌≡◌, refl, Bool, true, not, List, [], ◌∷◌, arith, Text, total, keep,
  length, take, sort_by, leb, IsSortedBy, sort_by-IsSortedBy, total-sort_by, length-take_le,
  All-take, if◌then◌else◌,
}
use niyam_ai.Recon.Lines.{
  PairBucket, matched, probable, MatchPair, ResidualBucket, supplier_default, missing_entry,
  Residual, ReconResult,
}
use niyam_ai.Recon.Summary.{
  SupplierTotal, add_to, supplier_totals, pair_summary, top_suppliers, summary, is_matched,
  is_default, is_probable, is_missing, PairSummary,
}

module _ {ℓ} {A : Type ℓ} (f : A → ℕ) (p : A → Bool) where
  pub total-split :
      (xs : List A) → total f (keep p xs) + total f (keep (λ x. not (p x)) xs) ≡ total f xs
  total-split [] = refl
  total-split (x ∷ xs) = ground (arith, total-split xs)

module _ {ℓ} {A : Type ℓ} where
  total-keep :
      (f : A → ℕ) (p : A → Bool) (g : A → ℕ) (xs : List A)
      → ((x : A) → g x ≡ (if p x then f x else 0))
      → total f (keep p xs) ≡ total g xs
  total-keep f p g [] h = refl
  total-keep f p g (x ∷ xs) h = ground (arith, total-keep f p g xs h, h x)

  length-keep :
      (p : A → Bool) (g : A → ℕ) (xs : List A)
      → ((x : A) → g x ≡ (if p x then 1 else 0))
      → length (keep p xs) ≡ total g xs
  length-keep p g [] h = refl
  length-keep p g (x ∷ xs) h = ground (arith, length-keep p g xs h, h x)

module _ {ℓ} {A : Type ℓ} (f : A → ℕ) where
  pub total-take_le : (n : ℕ) (xs : List A) → total f (take n xs) ≤ total f xs
  total-take_le zero xs = omega arith
  total-take_le (suc n) [] = omega arith
  total-take_le (suc n) (x ∷ xs) = omega (arith, total-take_le n xs)

pub take-IsSortedBy {ℓ} :
    {A : Type ℓ} (le : A → A → Bool) (n : ℕ) (xs : List A)
    → IsSortedBy le xs
    → IsSortedBy le (take n xs)
take-IsSortedBy le zero xs h = tt
take-IsSortedBy le (suc n) [] h = tt
take-IsSortedBy le (suc n) (x ∷ xs) h =
    (All-take (λ y. le x y ≡ true) n xs h.0, take-IsSortedBy le n xs h.1)

total-add_to :
    (gstin : Text) (n : ℕ) (acc : List SupplierTotal)
    → (total (λ s. s.paise) (add_to gstin n acc) ≡ n + total (λ s. s.paise) acc)
      × (total (λ s. s.count) (add_to gstin n acc) ≡ suc (total (λ s. s.count) acc))
unfolding add_to
total-add_to gstin n [] = omega arith
total-add_to gstin n (s ∷ ss) = ground (arith, total-add_to gstin n ss)

module _ {F : Type 0} where
  total-supplier_totals :
      (rs : List (Residual F)) (acc : List SupplierTotal)
      → (total (λ s. s.paise) (supplier_totals rs acc)
          ≡ total (λ r. r.total_paise) rs + total (λ s. s.paise) acc)
        × (total (λ s. s.count) (supplier_totals rs acc) ≡ length rs + total (λ s. s.count) acc)
  unfolding supplier_totals
  total-supplier_totals [] acc = omega arith
  total-supplier_totals (r ∷ rs) acc = omega (
    arith,
    total-supplier_totals rs (add_to r.supplier_gstin r.total_paise acc),
    total-add_to r.supplier_gstin r.total_paise acc,
  )

  -- What a pair counts for in its bucket, and a residual in its.
  abbrev pub in_bucket : PairBucket → ℕ → MatchPair F → ℕ
  in_bucket matched n p = elim p.bucket [ matched ↦ n | probable ↦ 0 ]
  in_bucket probable n p = elim p.bucket [ matched ↦ 0 | probable ↦ n ]

  abbrev pub in_residual_bucket : ResidualBucket → ℕ → Residual F → ℕ
  in_residual_bucket supplier_default n r = elim r.bucket [
    | supplier_default ↦ n
    | missing_entry ↦ 0
  ]
  in_residual_bucket missing_entry n r = elim r.bucket [ supplier_default ↦ 0 | missing_entry ↦ n ]

  -- What the figures of a bucket are: each pair of the bucket counts once, and with its amount,
  -- which is claimable when the entry's credit is available and not available otherwise.
  abbrev pub IsPairSummary : PairBucket → List (MatchPair F) → PairSummary → Type 0
  IsPairSummary b pairs s =
      (s.count ≡ total (λ p. in_bucket b 1 p) pairs)
      × (s.paise ≡ total (λ p. in_bucket b p.invoice_total_paise p) pairs)
      × (s.paise_claimable
          ≡ total (λ p. in_bucket b (if p.itc_available then p.invoice_total_paise else 0) p) pairs)
      × (s.paise_claimable + s.paise_not_available ≡ s.paise)

  pair_summary-IsPairSummary :
      (b : PairBucket) (q : MatchPair F → Bool) (pairs : List (MatchPair F))
      → ((p : MatchPair F) (n : ℕ) → in_bucket b n p ≡ (if q p then n else 0))
      → IsPairSummary b pairs (pair_summary (keep q pairs))
  unfolding pair_summary
  pair_summary-IsPairSummary b q pairs h = (
    length-keep q (λ p. in_bucket b 1 p) pairs (λ p. h p 1),
    total-keep (λ p. p.invoice_total_paise) q _ pairs (λ p. h p p.invoice_total_paise),
    claimable pairs,
    total-split (λ p. p.invoice_total_paise) (λ p. p.itc_available) (keep q pairs),
  )
    where
      claimable :
          (ps : List (MatchPair F))
          → total (λ p. p.invoice_total_paise) (keep (λ p. p.itc_available) (keep q ps))
            ≡ total (λ p. in_bucket b (if p.itc_available then p.invoice_total_paise else 0) p) ps
      claimable [] = refl
      claimable (p ∷ ps) =
          ground (arith, claimable ps, h p (if p.itc_available then p.invoice_total_paise else 0))

  is_matched_lem :
      (p : MatchPair F) (n : ℕ) → in_bucket matched n p ≡ (if is_matched p then n else 0)
  is_matched_lem p n = ground arith

  is_probable_lem :
      (p : MatchPair F) (n : ℕ) → in_bucket probable n p ≡ (if is_probable p then n else 0)
  is_probable_lem p n = ground arith

  is_default_lem :
      (r : Residual F) (n : ℕ)
      → in_residual_bucket supplier_default n r ≡ (if is_default r then n else 0)
  is_default_lem r n = ground arith

  is_missing_lem :
      (r : Residual F) (n : ℕ)
      → in_residual_bucket missing_entry n r ≡ (if is_missing r then n else 0)
  is_missing_lem r n = ground arith

  -- The figures of a summary are those of the buckets.
  pub summary-IsPairSummary :
      (result : ReconResult F)
      → IsPairSummary matched result.pairs (summary result).matched
        × IsPairSummary probable result.pairs (summary result).probable
  unfolding summary
  summary-IsPairSummary result = (
    pair_summary-IsPairSummary matched is_matched result.pairs is_matched_lem,
    pair_summary-IsPairSummary probable is_probable result.pairs is_probable_lem,
  )

  pub summary-residuals :
      (result : ReconResult F)
      → let s = summary result in
        (s.supplier_default.count
          ≡ total (λ r. in_residual_bucket supplier_default 1 r) result.residuals)
        × (s.supplier_default.paise
            ≡ total (λ r. in_residual_bucket supplier_default r.total_paise r) result.residuals)
        × (s.missing_entry.count
            ≡ total (λ r. in_residual_bucket missing_entry 1 r) result.residuals)
        × (s.missing_entry.paise
            ≡ total (λ r. in_residual_bucket missing_entry r.total_paise r) result.residuals)
  unfolding summary
  summary-residuals result = (
    length-keep is_default _ result.residuals (λ r. is_default_lem r 1),
    total-keep (λ r. r.total_paise) is_default _ result.residuals
        (λ r. is_default_lem r r.total_paise),
    length-keep is_missing _ result.residuals (λ r. is_missing_lem r 1),
    total-keep (λ r. r.total_paise) is_missing _ result.residuals
        (λ r. is_missing_lem r r.total_paise),
  )

  -- The top suppliers are at most ten, by falling amounts, and together are at risk with no more
  -- than the bucket's paise, over no more than its invoices.
  summary-top_suppliers :
      (result : ReconResult F)
      → let s = (summary result).supplier_default in
        (length s.top_suppliers ≤ 10)
        × IsSortedBy (λ x y. leb y.paise x.paise) s.top_suppliers
        × (total (λ x. x.paise) s.top_suppliers ≤ s.paise)
        × (total (λ x. x.count) s.top_suppliers ≤ s.count)
  unfolding summary top_suppliers
  summary-top_suppliers result =
      let sup_def = keep is_default result.residuals in
      let le : SupplierTotal → SupplierTotal → Bool = λ x y. leb y.paise x.paise in
      let all = supplier_totals sup_def [] in
      (
        length-take_le 10 (sort_by le all),
        take-IsSortedBy le 10 (sort_by le all)
            (sort_by-IsSortedBy le (λ x y h. ground arith) (λ x y z h k. ground arith) all),
        omega (
          arith,
          total-take_le (λ x. x.paise) 10 (sort_by le all),
          total-sort_by (λ x. x.paise) le all,
          total-supplier_totals sup_def [],
        ),
        omega (
          arith,
          total-take_le (λ x. x.count) 10 (sort_by le all),
          total-sort_by (λ x. x.count) le all,
          total-supplier_totals sup_def [],
        ),
      )
