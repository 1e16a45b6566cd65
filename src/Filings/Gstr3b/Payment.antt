-- ===== src/Filings/Gstr3b/Payment.antt =====
-- What a GSTR-3B pays, and with which credit (backend/app/filings/gstr3b_generator.py).
use niyam_ai.Base.{
  ℕ, ◌+◌, ◌*◌, ◌≤◌, ◌≡◌, refl, true, false, none, ◌⊎◌, map, All, All-map, All-to_map, Bool-cases,
  text_eq, text_eq_sound, text_eq_refl, Option, some, List, [], ◌∷◌, ◌++◌, arith, Text, keep, total,
  Option-cases, inl, inr,
}
use niyam_ai.Filings.Gstr3b.{
  InvoiceRow, MatchRow, matched, probable, supplier_default, missing_entry, MatchBucket, Gstr3b,
  sum_outward, sum_eligible_itc, tax_paid_via_cash, generate_gstr3b, to_gstn_period, is_eligible,
  shortfall, min_nat,
}

shortfall-min_nat : (o i : ℕ) → (shortfall o i + min_nat o i ≡ o) × (min_nat o i ≤ i)
shortfall-min_nat o i = ground arith

-- Of each head of tax the cash and the credit that a return uses are together the outward tax, and
-- the credit is no more than the eligible credit of that head.
pub generate_gstr3b_pays :
    (gid : ℕ) (period : Text) (invoices : List InvoiceRow) (matches : List MatchRow) (out : Gstr3b)
    → generate_gstr3b gid period invoices matches ≡ some out
    → let outward = (sum_outward gid period invoices).1 in
      let itc = sum_eligible_itc gid period matches in
      (out.paid_via_cash.cgst_paise + out.paid_via_itc.cgst_paise ≡ outward.cgst_paise)
      × (out.paid_via_cash.sgst_paise + out.paid_via_itc.sgst_paise ≡ outward.sgst_paise)
      × (out.paid_via_cash.igst_paise + out.paid_via_itc.igst_paise ≡ outward.igst_paise)
      × (out.paid_via_itc.cgst_paise ≤ itc.cgst_paise)
      × (out.paid_via_itc.sgst_paise ≤ itc.sgst_paise)
      × (out.paid_via_itc.igst_paise ≤ itc.igst_paise)
unfolding generate_gstr3b tax_paid_via_cash
generate_gstr3b_pays gid period invoices matches out h =
    let outward = (sum_outward gid period invoices).1 in
    let itc = sum_eligible_itc gid period matches in
    elim (Option-cases (to_gstn_period period)) [
      | inl bad ↦ absurd (ground arith)
      | inr (p, good) ↦ ground (
        arith,
        h,
        good,
        shortfall-min_nat outward.cgst_paise itc.cgst_paise,
        shortfall-min_nat outward.sgst_paise itc.sgst_paise,
        shortfall-min_nat outward.igst_paise itc.igst_paise,
      )
    ]

-- What a row of a match needs to be claimed: its run is a completed one of the profile and period,
-- the credit is available, the match is not rejected, and it is matched, or probable and confirmed.
abbrev pub IsClaimable : ℕ → Text → MatchRow → Type 0
IsClaimable gid period m =
    (m.run_gstin_profile_id ≡ gid)
    × (m.run_period ≡ period)
    × (m.run_completed ≡ true)
    × (m.itc_available ≡ true)
    × (m.rejected ≡ false)
    × ((m.bucket ≡ matched) ⊎ (m.bucket ≡ probable) × (user : ℕ) × (m.confirmed_by ≡ some user))

-- The match as another run finds it.
abbrev pub in_run : ℕ → MatchRow → MatchRow
in_run run m = record m { run_id = run }

period_eq : (s t : Text) → s ≡ t → text_eq s t ≡ true
period_eq s t e = rw e (text_eq_refl t)

bucket_sound :
    (b : MatchBucket) (c : Option ℕ)
    → (elim b [
      | matched ↦ true
      | probable ↦ elim c [ none ↦ false | some user ↦ true ]
      | supplier_default ↦ false
      | missing_entry ↦ false
    ])
      ≡ true
    → (b ≡ matched) ⊎ (b ≡ probable) × (user : ℕ) × (c ≡ some user)
bucket_sound matched c h = inl refl
bucket_sound probable none h = cc
bucket_sound probable (some user) h = inr (refl, user, refl)
bucket_sound supplier_default c h = cc
bucket_sound missing_entry c h = cc

is_eligible_complete :
    (gid : ℕ) (period : Text) (m : MatchRow)
    → IsClaimable gid period m
    → is_eligible gid period m ≡ true
unfolding is_eligible
is_eligible_complete gid period m h = elim h.5 [
  | inl e ↦ ground (arith, h, e, period_eq m.run_period period)
  | inr (e, user, by) ↦ ground (arith, h, e, by, period_eq m.run_period period)
]

is_eligible_sound :
    (gid : ℕ) (period : Text) (m : MatchRow)
    → is_eligible gid period m ≡ true
    → IsClaimable gid period m
unfolding is_eligible
is_eligible_sound gid period m h = (
  ground (arith, h),
  text_eq_sound m.run_period period (ground (arith, h)),
  ground (arith, h),
  ground (arith, h),
  ground (arith, h),
  bucket_sound m.bucket m.confirmed_by (ground (arith, h)),
)

module _ (f : MatchRow → ℕ) (gid : ℕ) (period : Text) where
  total-claimable :
      (xs rest : List MatchRow)
      → All (IsClaimable gid period) xs
      → total f (keep (is_eligible gid period) (xs ++ rest))
        ≡ total f xs + total f (keep (is_eligible gid period) rest)
  total-claimable [] rest h = omega arith
  total-claimable (x ∷ xs) rest h =
      ground (arith, is_eligible_complete gid period x h.0, total-claimable xs rest h.1)

  total-unclaimable :
      (ys : List MatchRow)
      → All (λ m. ¬ IsClaimable gid period m) ys
      → total f (keep (is_eligible gid period) ys) ≡ 0
  total-unclaimable [] h = refl
  total-unclaimable (y ∷ ys) h = elim (Bool-cases (is_eligible gid period y)) [
    | inl e ↦ absurd (h.0 (is_eligible_sound gid period y e))
    | inr e ↦ ground (arith, e, total-unclaimable ys h.1)
  ]

  total-again :
      (run : ℕ) (xs ys : List MatchRow)
      → ((m : MatchRow) → f (in_run run m) ≡ f m)
      → All (IsClaimable gid period) xs
      → All (λ m. ¬ IsClaimable gid period m) ys
      → total f (keep (is_eligible gid period) (xs ++ (map (in_run run) xs ++ ys))) ≡ 2 * total f xs
  total-again run xs ys same h k =
      let again = All-to_map (in_run run) (IsClaimable gid period) xs (All-map xs (λ m c. c) h) in
      omega (
        arith,
        total-claimable xs (map (in_run run) xs ++ ys) h,
        total-claimable (map (in_run run) xs) ys again,
        total-unclaimable ys k,
        total-mapped xs,
      )
    where
      total-mapped : (zs : List MatchRow) → total f (map (in_run run) zs) ≡ total f zs
      total-mapped [] = refl
      total-mapped (z ∷ zs) = omega (arith, same z, total-mapped zs)

-- The eligible credit is that of the claimable matches and no others, and it counts them once for
-- each run: where a second completed run has the claimable matches again, claimable as they were,
-- the eligible credit of each head is twice their tax, whatever other rows there are.
pub sum_eligible_itc_doubles :
    (gid : ℕ) (period : Text) (run : ℕ) (xs ys : List MatchRow)
    → All (IsClaimable gid period) xs
    → All (λ m. ¬ IsClaimable gid period m) ys
    → let itc = sum_eligible_itc gid period (xs ++ (map (in_run run) xs ++ ys)) in
      (itc.cgst_paise ≡ 2 * total (λ m. m.tax.cgst_paise) xs)
      × (itc.sgst_paise ≡ 2 * total (λ m. m.tax.sgst_paise) xs)
      × (itc.igst_paise ≡ 2 * total (λ m. m.tax.igst_paise) xs)
unfolding sum_eligible_itc
sum_eligible_itc_doubles gid period run xs ys h k = (
  total-again (λ m. m.tax.cgst_paise) gid period run xs ys (λ m. refl) h k,
  total-again (λ m. m.tax.sgst_paise) gid period run xs ys (λ m. refl) h k,
  total-again (λ m. m.tax.igst_paise) gid period run xs ys (λ m. refl) h k,
)
