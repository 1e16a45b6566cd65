-- ===== src/Tests/Returning.antt =====
-- A GSTR-3B of one sale and two matches.
use niyam_ai.Base.{
  ◌+◌, ◌≤◌, ◌≡◌, refl, true, false, none, some, List, [], ◌∷◌, ◌++◌, codes, map, inl, inr,
}
use niyam_ai.Filings.Gstr3b.{
  InvoiceRow, MatchRow, matched, probable, Gstr3b, is_outward, sum_outward, is_eligible,
  sum_eligible_itc, tax_paid_via_cash, to_gstn_period, generate_gstr3b,
}
use niyam_ai.Filings.Gstr3b.Payment.{
  IsClaimable, in_run, generate_gstr3b_pays, sum_eligible_itc_doubles,
}

abbrev sale : InvoiceRow
sale = record {
  gstin_profile_id = 1;
  is_sale = true;
  is_active = true;
  invoice_month = codes "2026-06";
  taxable_value_paise = 100000;
  tax = record { cgst_paise = 9000; sgst_paise = 9000; igst_paise = 0 };
}

abbrev match_row : MatchRow
match_row = record {
  run_id = 7;
  run_gstin_profile_id = 1;
  run_period = codes "202606";
  run_completed = true;
  itc_available = true;
  rejected = false;
  bucket = matched;
  confirmed_by = none;
  tax = record { cgst_paise = 5000; sgst_paise = 5000; igst_paise = 700 };
}

abbrev unconfirmed : MatchRow
unconfirmed = record match_row { bucket = probable }

abbrev matches : List MatchRow
matches = match_row ∷ unconfirmed ∷ []

generated : (out : Gstr3b) × (generate_gstr3b 1 (codes "202606") (sale ∷ []) matches ≡ some out)
unfolding generate_gstr3b to_gstn_period sum_outward is_outward sum_eligible_itc is_eligible
    tax_paid_via_cash
generated = (_, refl)

cash-sample : generated.0.paid_via_cash.cgst_paise ≡ 4000
unfolding generated generate_gstr3b to_gstn_period sum_outward is_outward sum_eligible_itc
    is_eligible tax_paid_via_cash
cash-sample = refl

generate_gstr3b_pays_example :
    let out = generated.0 in
    let outward = (sum_outward 1 (codes "202606") (sale ∷ [])).1 in
    let itc = sum_eligible_itc 1 (codes "202606") matches in
    (out.paid_via_cash.cgst_paise + out.paid_via_itc.cgst_paise ≡ outward.cgst_paise)
    × (out.paid_via_cash.sgst_paise + out.paid_via_itc.sgst_paise ≡ outward.sgst_paise)
    × (out.paid_via_cash.igst_paise + out.paid_via_itc.igst_paise ≡ outward.igst_paise)
    × (out.paid_via_itc.cgst_paise ≤ itc.cgst_paise)
    × (out.paid_via_itc.sgst_paise ≤ itc.sgst_paise)
    × (out.paid_via_itc.igst_paise ≤ itc.igst_paise)
generate_gstr3b_pays_example =
    generate_gstr3b_pays 1 (codes "202606") (sale ∷ []) matches generated.0 generated.1

match_row-IsClaimable : IsClaimable 1 (codes "202606") match_row
match_row-IsClaimable = (refl, refl, refl, refl, refl, inl refl)

unconfirmed-IsClaimable : ¬ IsClaimable 1 (codes "202606") unconfirmed
unconfirmed-IsClaimable h = elim h.5 [ inl e ↦ cc | inr (e, user, by) ↦ cc ]

sum_eligible_itc_doubles_example :
    let xs = match_row ∷ [] in
    let itc = sum_eligible_itc 1 (codes "202606") (xs ++ (map (in_run 8) xs ++ unconfirmed ∷ [])) in
    (itc.cgst_paise ≡ 10000) × (itc.sgst_paise ≡ 10000) × (itc.igst_paise ≡ 1400)
sum_eligible_itc_doubles_example =
    sum_eligible_itc_doubles 1 (codes "202606") 8 (match_row ∷ []) (unconfirmed ∷ [])
      (match_row-IsClaimable, tt) (unconfirmed-IsClaimable, tt)
