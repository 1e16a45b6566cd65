-- ===== src/Ingestion/Csv/Accounting.antt =====
-- Every row of the register is accounted for.
use native.Mathlib.Nat.{add-zero}
use niyam_ai.Base.{
  ℕ, suc, ◌+◌, ◌≤◌, ◌<◌, ◌≡◌, Option, some, List, [], ◌∷◌, arith, Text, Date, length, length-append,
  All, All-append, All-map, List-cases, inl, inr,
}
use niyam_ai.Ingestion.Money.{Number, returned, >>=-eq-returned}
use niyam_ai.Ingestion.Invoice.{Direction}
use niyam_ai.Ingestion.Csv.{
  Row, RejectedRow, ParseResult, Parsed, accepted, rejected, DateFormat, parse_row, parse_rows,
  append_parsed, missing_columns, parse_invoice_csv,
}

append_parsed-length :
    (r : ParseResult) (p : Parsed)
    → length (append_parsed r p).invoices + length (append_parsed r p).rejects
      ≡ suc (length r.invoices + length r.rejects)
append_parsed-length r (accepted inv) = omega (arith, length-append r.invoices (inv ∷ []))
append_parsed-length r (rejected x) = omega (arith, length-append r.rejects (x ∷ []))

-- A parsed row is about the row with its number.
abbrev IsAbout : ℕ → Parsed → Type 0
IsAbout i (accepted inv) = Unit
IsAbout i (rejected x) = x.row_index ≡ i

abbrev pub IsBetween : ℕ → ℕ → RejectedRow → Type 0
IsBetween lo hi x = (lo ≤ x.row_index) × (x.row_index < hi)

append_parsed-IsBetween :
    (lo i : ℕ) (r : ParseResult) (p : Parsed)
    → lo ≤ i
    → IsAbout i p
    → All (IsBetween lo i) r.rejects
    → All (IsBetween lo (i + 1)) (append_parsed r p).rejects
append_parsed-IsBetween lo i r (accepted inv) le about h = All-map r.rejects (λ x b. omega arith) h
append_parsed-IsBetween lo i r (rejected x) le about h =
    All-append (IsBetween lo (i + 1)) r.rejects (x ∷ []) (All-map r.rejects (λ x b. omega arith) h)
      (omega arith, tt)

module _ (read_decimal : Text → Number) (strptime : DateFormat → Text → Option Date) (gid : Text)
    (direction : Direction) where
  parse_row-IsAbout :
      (i : ℕ) (row : Row) {p : Parsed}
      → parse_row read_decimal strptime gid direction i row ≡ returned p
      → IsAbout i p
  unfolding parse_row
  parse_row-IsAbout i row {p = accepted inv} h = tt
  parse_row-IsAbout i row {p = rejected x} h = ground arith

  parse_rows_account :
      (lo i : ℕ) (rows : List Row) (r : ParseResult) {out : ParseResult}
      → lo ≤ i
      → All (IsBetween lo i) r.rejects
      → parse_rows read_decimal strptime gid direction i rows r ≡ returned out
      → (length out.invoices + length out.rejects
          ≡ length rows + (length r.invoices + length r.rejects))
        × All (IsBetween lo (i + length rows)) out.rejects
  unfolding parse_rows
  parse_rows_account lo i [] r le b h = ground (
    arith,
    add-zero i,
    All-map {P = IsBetween lo i} {Q = IsBetween lo (i + 0)} r.rejects (λ x y. omega arith) b,
  )
  parse_rows_account lo i (row ∷ rows) r le b h =
      let (p, e, k) =
        >>=-eq-returned (parse_row read_decimal strptime gid direction i row)
          (λ q. parse_rows read_decimal strptime gid direction (i + 1) rows (append_parsed r q))
          h in
      let (n, all) =
        parse_rows_account lo (i + 1) rows (append_parsed r p) (omega arith)
          (append_parsed-IsBetween lo i r p le (parse_row-IsAbout i row e) b) k in
      (omega (arith, n, append_parsed-length r p), All-map _ (λ x y. omega arith) all)

  -- A parse that returns accounts for each data row of the file, once: there are as many invoices
  -- and rejects as rows, and the rejects name rows of the file, the first of which is row 2.
  pub parse_invoice_csv_accounts :
      (header : List Text) (rows : List Row) {out : ParseResult}
      → parse_invoice_csv read_decimal strptime gid direction (some header) rows
        ≡ some (returned out)
      → (length out.invoices + length out.rejects ≡ length rows)
        × All (IsBetween 2 (2 + length rows)) out.rejects
  unfolding parse_invoice_csv
  parse_invoice_csv_accounts header rows {out} h = elim (List-cases (missing_columns header)) [
    | inl e ↦
        let (n, all) =
          parse_rows_account 2 2 rows (record { invoices = []; rejects = [] }) {out = out}
            (omega arith) tt (ground arith) in
        (omega (arith, n), all)
    | inr (k, ks, e) ↦ ground arith
  ]
