-- ===== src/Filings/Gstr3b.antt =====
-- The GSTR-3B figures (backend/app/filings/gstr3b_generator.py), in paise: the payload has them in
-- rupees, beside sections of zeros. The tables are lists of rows; a match row is joined with its run
-- and its 2B entry.
pub mod Payment
pub mod Period
use niyam_ai.Base.{
  ℕ, ◌+◌, ◌-◌, Bool, true, false, not, ◌&&◌, ◌||◌, Option, none, some, List, [], ◌∷◌, ◌++◌, Text,
  text_eq, is_digit, length, take, drop, keep, total, ◌==◌, leb, if◌then◌else◌,
}

pub record TaxHeads : Type 0 where
  pub cgst_paise : ℕ
  pub sgst_paise : ℕ
  pub igst_paise : ℕ

-- `is_sale` and `is_active` compare the direction and the status; `invoice_month` is `to_char` of
-- the date.
pub record InvoiceRow : Type 0 where
  pub gstin_profile_id : ℕ
  pub is_sale : Bool
  pub is_active : Bool
  pub invoice_month : Text
  pub taxable_value_paise : ℕ
  pub tax : TaxHeads

pub data MatchBucket : Type 0 where
  matched probable supplier_default missing_entry : MatchBucket

pub record MatchRow : Type 0 where
  pub run_id : ℕ
  pub run_gstin_profile_id : ℕ
  pub run_period : Text
  pub run_completed : Bool
  pub itc_available : Bool
  pub rejected : Bool
  pub bucket : MatchBucket
  pub confirmed_by : Option ℕ
  pub tax : TaxHeads

pub record Gstr3b : Type 0 where
  pub ret_period : Text
  pub outward_taxable_paise : ℕ
  pub outward : TaxHeads
  pub itc : TaxHeads
  pub paid_via_cash : TaxHeads
  pub paid_via_itc : TaxHeads

abbrev pub sum_heads {ℓ} : {A : Type ℓ} → (A → TaxHeads) → List A → TaxHeads
sum_heads tax rows = record {
  cgst_paise = total (λ r. (tax r).cgst_paise) rows;
  sgst_paise = total (λ r. (tax r).sgst_paise) rows;
  igst_paise = total (λ r. (tax r).igst_paise) rows;
}

-- The `WHERE` of the outward supplies.
unfoldable pub is_outward : ℕ → Text → InvoiceRow → Bool
is_outward gid period r =
    r.gstin_profile_id == gid
    && r.is_sale
    && r.is_active
    && text_eq r.invoice_month (take 4 period ++ b'-' ∷ take 2 (drop 4 period))

unfoldable pub sum_outward : ℕ → Text → List InvoiceRow → ℕ × TaxHeads
sum_outward gid period rows =
    let chosen = keep (is_outward gid period) rows in
    (total (λ r. r.taxable_value_paise) chosen, sum_heads (λ r. r.tax) chosen)

-- The `WHERE` of the eligible credit.
unfoldable pub is_eligible : ℕ → Text → MatchRow → Bool
is_eligible gid period m =
    m.run_gstin_profile_id == gid
    && text_eq m.run_period period
    && m.run_completed
    && m.itc_available
    && not m.rejected
    && elim m.bucket [
      | matched ↦ true
      | probable ↦ elim m.confirmed_by [ none ↦ false | some user ↦ true ]
      | supplier_default ↦ false
      | missing_entry ↦ false
    ]

unfoldable pub sum_eligible_itc : ℕ → Text → List MatchRow → TaxHeads
sum_eligible_itc gid period rows = sum_heads (λ m. m.tax) (keep (is_eligible gid period) rows)

-- `max(0, outward - itc)`
abbrev pub shortfall : ℕ → ℕ → ℕ
shortfall outward itc = if leb itc outward then outward - itc else 0

unfoldable pub tax_paid_via_cash : TaxHeads → TaxHeads → TaxHeads
tax_paid_via_cash outward itc = record {
  cgst_paise = shortfall outward.cgst_paise itc.cgst_paise;
  sgst_paise = shortfall outward.sgst_paise itc.sgst_paise;
  igst_paise = shortfall outward.igst_paise itc.igst_paise;
}

abbrev pub min_nat : ℕ → ℕ → ℕ
min_nat a b = if leb a b then a else b

abbrev all_digits : Text → Bool
all_digits [] = true
all_digits (c ∷ s) = is_digit c && all_digits s

-- `none` is the ValueError.
unfoldable pub to_gstn_period : Text → Option Text
to_gstn_period p =
    if length p == 6 && all_digits p then some (take 2 (drop 4 p) ++ take 4 p) else none

unfoldable pub generate_gstr3b : ℕ → Text → List InvoiceRow → List MatchRow → Option Gstr3b
generate_gstr3b gid period invoices matches = elim (to_gstn_period period) [
  | none ↦ none
  | some ret_period ↦
      let (taxable, outward) = sum_outward gid period invoices in
      let itc = sum_eligible_itc gid period matches in
      some (record {
        ret_period = ret_period;
        outward_taxable_paise = taxable;
        outward = outward;
        itc = itc;
        paid_via_cash = tax_paid_via_cash outward itc;
        paid_via_itc = record {
          cgst_paise = min_nat outward.cgst_paise itc.cgst_paise;
          sgst_paise = min_nat outward.sgst_paise itc.sgst_paise;
          igst_paise = min_nat outward.igst_paise itc.igst_paise;
        };
      })
]
