-- ===== src/Ingestion/Csv.antt =====
-- The invoice register's CSV parser (backend/app/ingestion/csv_parser.py). `csv.DictReader`,
-- `Decimal` and `strptime` are the standard library's: the reader gives the header and, for each
-- row, the cell of each known column; reading a decimal or a date is a parameter.
pub mod Accounting
pub mod Crash
use niyam_ai.Base.{
  ℕ, zero, suc, ◌+◌, Bool, true, false, Option, none, some, List, [], ◌∷◌, ◌++◌, map, Text, codes,
  Date, text_eq, strip, strip_left, lower, upper, is_truthy, any, not, keep, ◌==◌, if◌then◌else◌,
}
use niyam_ai.Ingestion.Money.{
  Number, Outcome, returned, value_error, invalid_operation, ◌>>=◌, rupees_to_paise,
}
use niyam_ai.Ingestion.Numbers.{normalize_invoice_number}
use niyam_ai.Ingestion.Invoice.{Direction, CanonicalInvoice}

pub data Column : Type 0 where
  invoice_number invoice_date taxable_value total : Column
  counterparty_gstin cgst sgst igst hsn_sac : Column

abbrev pub column_name : Column → Text
column_name invoice_number = codes "invoice_number"
column_name invoice_date = codes "invoice_date"
column_name taxable_value = codes "taxable_value"
column_name total = codes "total"
column_name counterparty_gstin = codes "counterparty_gstin"
column_name cgst = codes "cgst"
column_name sgst = codes "sgst"
column_name igst = codes "igst"
column_name hsn_sac = codes "hsn_sac"

abbrev pub required_columns : List Column
required_columns = invoice_number ∷ invoice_date ∷ taxable_value ∷ total ∷ []

-- A row as the reader gives it; `none` is a column that the row lacks, or None.
abbrev pub Row : Type 0
Row = Column → Option Text

-- `(row.get(k) or "").strip()`; a key that is left out reads as empty at every use.
abbrev pub cell : Row → Column → Text
cell row k = elim (row k) [ none ↦ [] | some s ↦ strip s ]

pub data Reason : Type 0 where
  missing_required : Column → Reason
  bad_date bad_amount : Reason

-- The message is a function of the reason and the row.
pub record RejectedRow : Type 0 where
  pub row_index : ℕ
  pub reason : Reason

pub record ParseResult : Type 0 where
  pub invoices : List CanonicalInvoice
  pub rejects : List RejectedRow

pub data Parsed : Type 0 where
  accepted : CanonicalInvoice → Parsed
  rejected : RejectedRow → Parsed

-- Replaces blanks by underscores.
abbrev underscored : Text → Text
underscored = map (λ c. if c == b' ' then b'_' else c)

unfoldable pub normalize_header : Text → Text
normalize_header fieldname =
    underscored (map lower (strip (strip_left (λ c. c == 0xfeff) fieldname)))

pub data DateFormat : Type 0 where
  iso day_first_dashes day_first_slashes : DateFormat

-- The first required column whose cell is empty.
unfoldable pub first_missing : Row → List Column → Option Column
first_missing row [] = none
first_missing row (k ∷ ks) =
    let rest = first_missing row ks in if is_truthy (cell row k) then rest else some k

-- `text or None`
abbrev pub or_none : Text → Option Text
or_none [] = none
or_none (c ∷ s) = some (c ∷ s)

abbrev pub append_parsed : ParseResult → Parsed → ParseResult
append_parsed r (accepted inv) = record r { invoices = r.invoices ++ inv ∷ [] }
append_parsed r (rejected x) = record r { rejects = r.rejects ++ x ∷ [] }

-- `missing` of the header check.
unfoldable pub missing_columns : List Text → List Column
missing_columns fieldnames =
    keep (λ k. not (any (λ f. text_eq f (column_name k)) (map normalize_header fieldnames)))
      required_columns

module _ (read_decimal : Text → Number) (strptime : DateFormat → Text → Option Date) where
  -- `none` is the ValueError.
  unfoldable pub parse_date : Text → Option Date
  parse_date raw = elim (strptime iso (strip raw)) [
    | some d ↦ some d
    | none ↦ elim (strptime day_first_dashes (strip raw)) [
      | some d ↦ some d
      | none ↦ strptime day_first_slashes (strip raw)
    ]
  ]

  abbrev pub amount : Row → Column → Outcome ℕ
  amount row k = rupees_to_paise read_decimal (some (cell row k))

  -- The five amounts of a row, in the order of the code.
  unfoldable pub amounts : Row → Outcome (ℕ × ℕ × ℕ × ℕ × ℕ)
  amounts row = do
    t ← amount row taxable_value
    c ← amount row cgst
    s ← amount row sgst
    i ← amount row igst
    n ← amount row total
    returned (t, c, s, i, n)

  module _ (gstin_profile_id : Text) (direction : Direction) where
    unfoldable pub build_invoice : ℕ → Row → Date → ℕ × ℕ × ℕ × ℕ × ℕ → CanonicalInvoice
    build_invoice i row inv_date (t, c, s, g, n) = record {
      gstin_profile_id = gstin_profile_id;
      direction = direction;
      invoice_number = cell row invoice_number;
      invoice_date = inv_date;
      counterparty_gstin = or_none (map upper (cell row counterparty_gstin));
      taxable_value_paise = t;
      cgst_paise = c;
      sgst_paise = s;
      igst_paise = g;
      total_paise = n;
      hsn_sac = or_none (cell row hsn_sac);
      payload = some (i, normalize_invoice_number (some (cell row invoice_number)));
    }

    -- The body of the loop: the handlers catch ValueError, and nothing catches InvalidOperation.
    unfoldable pub parse_row : ℕ → Row → Outcome Parsed
    parse_row i row = elim (first_missing row required_columns) [
      | some k ↦ returned (rejected (record { row_index = i; reason = missing_required k }))
      | none ↦ elim (parse_date (cell row invoice_date)) [
        | none ↦ returned (rejected (record { row_index = i; reason = bad_date }))
        | some d ↦ elim (amounts row) [
          | returned a ↦ returned (accepted (build_invoice i row d a))
          | value_error ↦ returned (rejected (record { row_index = i; reason = bad_amount }))
          | invalid_operation ↦ invalid_operation
        ]
      ]
    ]

    unfoldable pub parse_rows : ℕ → List Row → ParseResult → Outcome ParseResult
    parse_rows i [] r = returned r
    parse_rows i (row ∷ rows) r = do
      p ← parse_row i row
      parse_rows (i + 1) rows (append_parsed r p)

    -- `none` is the SchemaError, for an empty file or a header that lacks a required column.
    unfoldable pub parse_invoice_csv : Option (List Text) → List Row → Option (Outcome ParseResult)
    parse_invoice_csv none rows = none
    parse_invoice_csv (some fieldnames) rows = elim (missing_columns fieldnames) [
      | [] ↦ some (parse_rows 2 rows (record { invoices = []; rejects = [] }))
      | k ∷ ks ↦ none
    ]
