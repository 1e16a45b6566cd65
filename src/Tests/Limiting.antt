-- ===== src/Tests/Limiting.antt =====
-- Hits on a bucket, and the GSTR-1 of a month.
use niyam_ai.Base.{ℕ, ◌≤◌, ◌≡◌, ◌↔◌, refl, true, some, List, [], ◌∷◌, keep, All, arith, Text, codes}
use niyam_ai.Auth.RateLimit.{Policy, check_bucket}
use niyam_ai.Auth.RateLimit.Window.{hits, in_window, hits_window}
use niyam_ai.Ingestion.Gstr2b.{canonical_period}
use niyam_ai.Filings.Gstr3b.{to_gstn_period}
use niyam_ai.Filings.Gstr3b.Period.{to_gstn_period_inverse}
use niyam_ai.Filings.Gstr1.{SaleRow, Gstr1, is_reported, generate_gstr1}
use niyam_ai.Filings.Gstr1.Blocks.{IsFaithful}
use niyam_ai.Filings.Gstr1.Returned.{HasStateCode, generate_gstr1-returns}

abbrev forgot_email : Policy
forgot_email = record { name = codes "forgot_email"; max_hits = 3; window_s = 3600 }

-- Four requests within the hour, and one after it.
abbrev instants : List ℕ
instants = 1000 ∷ 2000 ∷ 3000 ∷ 4000 ∷ 3602000 ∷ []

hits-instants : (hits forgot_email instants ([], [])).1 ≡ 3602000 ∷ 3000 ∷ 2000 ∷ 1000 ∷ []
unfolding hits check_bucket
hits-instants = refl

hits_window_example : in_window 3600000 500 (hits forgot_email instants ([], [])).1 ≤ 3
hits_window_example =
    hits_window forgot_email instants 500 (omega arith)
      (omega arith, (omega arith, (omega arith, (omega arith, (omega arith, tt)))))

to_gstn_period_inverse_example :
    (to_gstn_period (codes "202606") ≡ some (codes "062026"))
    ↔ (canonical_period (some (codes "062026")) ≡ some (codes "202606"))
to_gstn_period_inverse_example = to_gstn_period_inverse (codes "202606") (codes "062026")

abbrev sale : Text → Text → ℕ → SaleRow
sale number ctin day = record {
  gstin_profile_id = 30;
  is_sale = true;
  is_active = true;
  invoice_number = number;
  invoice_date = record { year = 2026; month = 6; day = day };
  counterparty_gstin = some ctin;
  taxable_value_paise = 10000;
  cgst_paise = 900;
  sgst_paise = 900;
  igst_paise = 0;
  total_paise = 11800;
}

abbrev table : List SaleRow
table =
    sale (codes "1") (codes "29B") 4
    ∷ sale (codes "2") (codes "27A") 5
    ∷ sale (codes "3") (codes "29B") 6
    ∷ []

abbrev own : Text
own = codes "27AAPFU0939F1ZV"

six_digits : to_gstn_period (codes "202606") ≡ some (codes "062026")
unfolding to_gstn_period
six_digits = refl

reported : keep (is_reported 30 (codes "202606")) table ≡ table
unfolding is_reported
reported = refl

table-HasStateCode : All HasStateCode (keep (is_reported 30 (codes "202606")) table)
unfolding is_reported
table-HasStateCode =
    (λ c h. ground (arith, h), (λ c h. ground (arith, h), (λ c h. ground (arith, h), tt)))

generate_gstr1-returns_example :
    (ret : Gstr1) × (generate_gstr1 own 30 (codes "202606") table ≡ some ret)
    × IsFaithful (keep (is_reported 30 (codes "202606")) table) ret
generate_gstr1-returns_example =
    generate_gstr1-returns own 30 (codes "202606") (codes "062026") table six_digits
      table-HasStateCode
