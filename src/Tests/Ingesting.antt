-- ===== src/Tests/Ingesting.antt =====
-- A register of three rows, read by a decimal reader for whole numbers.
use niyam_ai.Base.{
  ℕ, ◌+◌, ◌-◌, ◌*◌, ◌≤◌, ◌<◌, ◌≡◌, ◌≢◌, refl, false, Option, none, some, List, [], ◌∷◌, ◌++◌, map,
  arith, All, length, Text, codes, upper, text_eq, Date, if◌then◌else◌,
}
use Prim.Native.Nat.{◌^◌}
use niyam_ai.Ingestion.Numbers.{walk_runs, cleaned, normalize_invoice_number}
use niyam_ai.Ingestion.Numbers.Machine.{canonical, outside, walk_runs-canonical}
use niyam_ai.Ingestion.Numbers.Idempotent.{normalize_invoice_number_idem}
use niyam_ai.Ingestion.Money.{
  Number, nan, finite, returned, quantize_half_up, in_context, excess_digits, divide_half_even,
  context_limit, invalid_operation, paise_of, rupees_to_paise, quantize_half_up_nearest,
}
use niyam_ai.Ingestion.Invoice.{
  CanonicalInvoice, purchase, sale, content_hash, content_hash_canonical, or_empty,
}
use niyam_ai.Ingestion.Csv.{
  Column, Row, ParseResult, DateFormat, normalize_header, missing_columns, first_missing,
  parse_date, amounts, build_invoice, parse_row, parse_rows, parse_invoice_csv, cell,
  required_columns,
}
use niyam_ai.Ingestion.Csv.Accounting.{IsBetween, parse_invoice_csv_accounts}
use niyam_ai.Ingestion.Csv.Crash.{parse_rows_nan}

-- Digits, the empty text as invalid, and "NaN".
abbrev pub value_of : ℕ → Text → Number
value_of acc [] = finite false acc 0
value_of acc (c ∷ s) = value_of (10 * acc + (c - b'0')) s

abbrev pub read_decimal : Text → Number
read_decimal s = if text_eq s (codes "NaN") then nan else value_of 0 s

abbrev pub strptime : DateFormat → Text → Option Date
strptime f s =
    if text_eq s (codes "2026-06-03")
    then some (record { year = 2026; month = 6; day = 3 })
    else none

abbrev row_of : Text → Text → Text → Row
row_of number date taxable Column.invoice_number = some number
row_of number date taxable Column.invoice_date = some date
row_of number date taxable Column.taxable_value = some taxable
row_of number date taxable Column.total = some (codes "118")
row_of number date taxable _ = none

abbrev header : List Text
header =
    (0xfeff ∷ codes "Invoice Number")
    ∷ codes "invoice_date"
    ∷ codes "Taxable Value"
    ∷ codes "TOTAL"
    ∷ []

abbrev rows : List Row
rows =
    row_of (codes "INV-007") (codes "2026-06-03") (codes "100")
    ∷ row_of (codes "INV-008") (codes "June") (codes "100")
    ∷ row_of [] (codes "2026-06-03") (codes "100")
    ∷ []

abbrev nan_row : Row
nan_row = row_of (codes "INV-009") (codes "2026-06-03") (codes "NaN")

reader : Unit {0}
unfolding parse_invoice_csv missing_columns normalize_header parse_rows parse_row first_missing
    parse_date amounts build_invoice rupees_to_paise paise_of quantize_half_up in_context
    excess_digits divide_half_even normalize_invoice_number cleaned walk_runs
reader = tt

parses :
    (out : ParseResult) × (parse_invoice_csv read_decimal strptime
        (codes "p1")
        purchase
        (some header)
        rows
      ≡ some (returned out))
unfolding reader
parses = (_, refl)

parse_invoice_csv_accounts_example :
    (length parses.0.invoices + length parses.0.rejects ≡ 3) × All (IsBetween 2 5) parses.0.rejects
parse_invoice_csv_accounts_example =
    parse_invoice_csv_accounts read_decimal strptime (codes "p1") purchase header rows parses.1

nan_row_complete : first_missing nan_row required_columns ≡ none
unfolding reader
nan_row_complete = refl

nan_row_date :
    parse_date read_decimal strptime (cell nan_row Column.invoice_date)
    ≡ some (record { year = 2026; month = 6; day = 3 })
unfolding reader
nan_row_date = refl

parse_rows_nan_example :
    parse_rows read_decimal strptime
      (codes "p1")
      purchase
      2
      (rows ++ nan_row ∷ rows)
      (record { invoices = []; rejects = [] })
    ≢ returned (record { invoices = []; rejects = [] })
parse_rows_nan_example =
    parse_rows_nan read_decimal strptime (codes "p1") purchase rows rows nan_row 2
      (record { invoices = []; rejects = [] }) nan_row_complete nan_row_date refl refl
      (record { invoices = []; rejects = [] })

numbers : normalize_invoice_number (some (codes " inv/000-7 ")) ≡ codes "INV7"
unfolding reader
numbers = refl

normalize_invoice_number_idem_example :
    normalize_invoice_number (some (normalize_invoice_number (some (codes "inv/007a00"))))
    ≡ normalize_invoice_number (some (codes "inv/007a00"))
normalize_invoice_number_idem_example = normalize_invoice_number_idem (codes "inv/007a00")

walk_runs-canonical_example : walk_runs 6 (codes "A007B0") ≡ canonical outside (codes "A007B0")
walk_runs-canonical_example = walk_runs-canonical 6 (codes "A007B0") (omega arith)

twelve_small : 12345 * 100 < context_limit
twelve_small = omega arith

quantize_half_up_nearest_example :
    (paise : ℕ) × (quantize_half_up 12345 3 ≡ returned paise)
    × (2 * (paise * 10 ^ 3) ≤ 2 * (12345 * 100) + 10 ^ 3)
    × (2 * (12345 * 100) < 2 * (paise * 10 ^ 3) + 10 ^ 3)
quantize_half_up_nearest_example = quantize_half_up_nearest 12345 3 twelve_small

-- 0.00499…9 with 32 decimals is rounded twice, and ten to the thirtieth is too large.
quantize-limits :
    (quantize_half_up 499999999999999999999999999999 32 ≡ returned 1)
    × (quantize_half_up 1000000000000000000000000000000 0 ≡ invalid_operation)
unfolding quantize_half_up in_context excess_digits divide_half_even
quantize-limits = (refl, refl)

abbrev sold : CanonicalInvoice
sold = record {
  gstin_profile_id = codes "p1";
  direction = sale;
  invoice_number = codes "inv-001";
  invoice_date = record { year = 2026; month = 6; day = 3 };
  counterparty_gstin = some (codes "27aapfu0939f1zv");
  taxable_value_paise = 100000;
  cgst_paise = 9000;
  sgst_paise = 9000;
  igst_paise = 0;
  total_paise = 118000;
  hsn_sac = none;
  payload = none;
}

content_hash_canonical_example :
    content_hash (λ s. s) sold
    ≡ content_hash
        (λ s. s)
        (record sold {
          direction = purchase;
          invoice_number = normalize_invoice_number (some sold.invoice_number);
          counterparty_gstin = some (map upper (or_empty sold.counterparty_gstin));
          taxable_value_paise = 1;
          cgst_paise = 2;
          sgst_paise = 3;
          igst_paise = 4;
          hsn_sac = some [];
          payload = none;
        })
content_hash_canonical_example =
    content_hash_canonical (λ s. s) sold purchase 1 2 3 4 (some []) none
