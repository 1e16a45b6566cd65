-- ===== src/Ingestion/Csv/Crash.antt =====
-- An amount that reads as a NaN or as an infinity ends the import: the loop's handler catches
-- ValueError only (backend/app/ingestion/csv_parser.py).
use niyam_ai.Base.{
  ℕ, ◌+◌, ◌≡◌, ◌≢◌, Option, none, some, List, [], ◌∷◌, ◌++◌, arith, Text, Date, true, is_truthy,
}
use niyam_ai.Ingestion.Money.{
  Number, nan, returned, invalid_operation, rupees_to_paise, paise_of, >>=-eq-returned,
}
use niyam_ai.Ingestion.Invoice.{Direction}
use niyam_ai.Ingestion.Csv.{
  Row, Column, taxable_value, required_columns, first_missing, cell, ParseResult, DateFormat,
  parse_date, amounts, parse_row, parse_rows, append_parsed,
}

module _ (read_decimal : Text → Number) (strptime : DateFormat → Text → Option Date) (gid : Text)
    (direction : Direction) where
  parse_row_nan :
      (i : ℕ) (row : Row) {d : Date}
      → first_missing row required_columns ≡ none
      → parse_date read_decimal strptime (cell row Column.invoice_date) ≡ some d
      → is_truthy (cell row taxable_value) ≡ true
      → read_decimal (cell row taxable_value) ≡ nan
      → parse_row read_decimal strptime gid direction i row ≡ invalid_operation
  unfolding parse_row amounts rupees_to_paise paise_of
  parse_row_nan i row m p t n = ground arith

  -- Whatever the other rows hold, a file with a row whose required cells are there, whose date is
  -- readable and whose taxable value reads as a NaN is not parsed: the exception leaves the parser.
  pub parse_rows_nan :
      (xs ys : List Row) (row : Row) (i : ℕ) (r : ParseResult) {d : Date}
      → first_missing row required_columns ≡ none
      → parse_date read_decimal strptime (cell row Column.invoice_date) ≡ some d
      → is_truthy (cell row taxable_value) ≡ true
      → read_decimal (cell row taxable_value) ≡ nan
      → (out : ParseResult)
      → parse_rows read_decimal strptime gid direction i (xs ++ row ∷ ys) r ≢ returned out
  unfolding parse_rows
  parse_rows_nan [] ys row i r m p t n out h = cc (parse_row_nan i row m p t n)
  parse_rows_nan (x ∷ xs) ys row i r m p t n out h =
      let (q, e, k) =
        >>=-eq-returned (parse_row read_decimal strptime gid direction i x)
          (λ q.
            parse_rows read_decimal strptime gid direction (i + 1) (xs ++ row ∷ ys)
              (append_parsed r q))
          h in
      parse_rows_nan xs ys row (i + 1) (append_parsed r q) m p t n out k
