-- ===== src/Validation/Rules.antt =====
-- The rule functions (backend/app/engines/validation/rules.py) and the pipeline that runs them
-- (backend/app/engines/validation/pipeline.py).
pub mod Meaning
pub mod Compliance
pub mod Slabs
use niyam_ai.Base.{
  ℕ, zero, suc, ◌+◌, ◌-◌, ◌*◌, Bool, true, false, not, ◌&&◌, ◌||◌, Option, none, some, List, [],
  ◌∷◌, map, Text, codes, text_eq, Date, date_leb, dist, is_digit, is_truthy, strip, upper, take,
  drop, length, ◌==◌, ltb, leb, if◌then◌else◌, Floats,
}
use niyam_ai.Ingestion.Numbers.{normalize_invoice_number, take_while}
use niyam_ai.Ingestion.Invoice.{CanonicalInvoice, Direction, purchase, sale, or_empty}
use niyam_ai.Validation.Gstin.{
  has_valid_structure, is_valid_gstin, has_valid_state_code, state_code,
}
use niyam_ai.Validation.Context.{
  RuleCode, r001, r002, r003, r004, r005, r006, r007, r008, r009, Severity, error, warning, Flag,
  HsnSlab, ValidationContext,
}

abbrev pub flag : RuleCode → Severity → Option Flag
flag code severity = some (record { rule_code = code; severity = severity })

-- `d.get(key, default)`
abbrev pub get_or {ℓ} : {A : Type ℓ} → Option A → A → A
get_or none d = d
get_or (some a) d = a

abbrev pub all_digits : Text → Bool
all_digits [] = true
all_digits (c ∷ s) = is_digit c && all_digits s

-- `int(s)` of a text of digits
abbrev pub number_from : ℕ → Text → ℕ
number_from n [] = n
number_from n (c ∷ s) = number_from (n * 10 + (c - b'0')) s

-- The lookup of a duplicate key, 0 if it is missing.
unfoldable pub key_count : Text → Text → List (Text × Text × ℕ) → ℕ
key_count gstin number [] = 0
key_count gstin number ((g, n, k) ∷ counts) =
    let rest = key_count gstin number counts in
    if text_eq g gstin && text_eq n number then k else rest

-- Paise in a crore of rupees. The code compares `turnover / 10_000_000_00`, a float, with the
-- cap; for caps below a million crores that comparison is the one of the exact quotients.
abbrev pub crore : ℕ
crore = 1000000000

abbrev pub covers : HsnSlab → ℕ → Bool
covers slab turnover = elim slab.max_turnover_crores [
  | none ↦ true
  | some cap ↦ leb turnover (cap * crore)
]

-- The `for` loop of `_pick_hsn_slab` over a nonempty list, whose end returns the last slab.
unfoldable pub first_covering : ℕ → HsnSlab → List HsnSlab → HsnSlab
first_covering turnover slab [] = slab
first_covering turnover slab (next ∷ slabs) =
    let rest = first_covering turnover next slabs in if covers slab turnover then slab else rest

unfoldable pub pick_hsn_slab : List HsnSlab → Option ℕ → Option HsnSlab
pick_hsn_slab slabs none = none
pick_hsn_slab [] (some turnover) = none
pick_hsn_slab (slab ∷ slabs) (some turnover) = some (first_covering turnover slab slabs)

unfoldable pub leading_digits : Text → Text
leading_digits = take_while is_digit

module _ (fl : Floats) where
  open fl use {F, of_nat, mul, div, nearest}

  unfoldable pub r001_gstin_missing : CanonicalInvoice → ValidationContext F → Option Flag
  r001_gstin_missing invoice ctx = elim invoice.direction [
    | sale ↦ none
    | purchase ↦ if is_truthy (or_empty invoice.counterparty_gstin) then none else flag r001 error
  ]

  unfoldable pub r002_gstin_checksum : CanonicalInvoice → ValidationContext F → Option Flag
  r002_gstin_checksum invoice ctx =
      let g = or_empty invoice.counterparty_gstin in
      if not (is_truthy g) then none else if not (is_valid_gstin g) then flag r002 error else none

  unfoldable pub r003_date_out_of_period : CanonicalInvoice → ValidationContext F → Option Flag
  r003_date_out_of_period invoice ctx =
      if not (length ctx.period == 6 && all_digits ctx.period)
      then none
      else if invoice.invoice_date.year == number_from 0 (take 4 ctx.period)
          && invoice.invoice_date.month == number_from 0 (drop 4 ctx.period)
      then none
      else flag r003 warning

  -- `slab.get(key, default) if slab else default`
  abbrev pub hsn_severity : ValidationContext F → Severity
  hsn_severity ctx =
      let cfg = ctx.validation_config in
      let default : Severity = get_or cfg.default_severity warning in
      elim (pick_hsn_slab cfg.turnover_slabs ctx.annual_turnover_paise) [
        | none ↦ default
        | some slab ↦ get_or slab.severity default
      ]

  abbrev pub hsn_min_digits : ValidationContext F → ℕ
  hsn_min_digits ctx =
      let cfg = ctx.validation_config in
      let default : ℕ = get_or cfg.default_min_digits 4 in
      elim (pick_hsn_slab cfg.turnover_slabs ctx.annual_turnover_paise) [
        | none ↦ default
        | some slab ↦ get_or slab.min_digits default
      ]

  unfoldable pub r004_hsn_missing : CanonicalInvoice → ValidationContext F → Option Flag
  r004_hsn_missing invoice ctx =
      let hsn = strip (or_empty invoice.hsn_sac) in
      if not (is_truthy hsn)
      then flag r004 (hsn_severity ctx)
      else if ltb (length (leading_digits hsn)) (hsn_min_digits ctx)
      then flag r004 (hsn_severity ctx)
      else none

  unfoldable pub r005_tax_head_mismatch : CanonicalInvoice → ValidationContext F → Option Flag
  r005_tax_head_mismatch invoice ctx =
      let g = or_empty invoice.counterparty_gstin in
      if not (is_truthy g)
      then none
      else if not (has_valid_structure g)
      then none
      else if text_eq (state_code g) ctx.client_state_code
      then (if ltb 0 invoice.igst_paise then flag r005 error else none)
      else (if ltb 0 invoice.cgst_paise || ltb 0 invoice.sgst_paise then flag r005 error else none)

  -- `round(taxable * float(rate) / 100.0)`
  abbrev pub expected_tax : ℕ → F → ℕ
  expected_tax taxable rate = nearest (div (mul (of_nat taxable) rate) (of_nat 100))

  abbrev pub default_rates : List F
  default_rates = of_nat 0 ∷ of_nat 5 ∷ of_nat 12 ∷ of_nat 18 ∷ of_nat 28 ∷ []

  -- `rates or default`
  abbrev pub rates_or_default : List F → List F
  rates_or_default [] = default_rates
  rates_or_default (r ∷ rs) = r ∷ rs

  -- The `for rate in rates` loop: whether it returns.
  unfoldable pub some_rate_matches : ℕ → ℕ → ℕ → List F → Bool
  some_rate_matches tolerance taxable actual [] = false
  some_rate_matches tolerance taxable actual (rate ∷ rates) =
      let rest = some_rate_matches tolerance taxable actual rates in
      if leb (dist (expected_tax taxable rate) actual) tolerance then true else rest

  abbrev pub actual_tax : CanonicalInvoice → ℕ
  actual_tax invoice = invoice.cgst_paise + invoice.sgst_paise + invoice.igst_paise

  unfoldable pub r006_tax_arithmetic : CanonicalInvoice → ValidationContext F → Option Flag
  r006_tax_arithmetic invoice ctx =
      let cfg = ctx.validation_config in
      if invoice.taxable_value_paise == 0 && actual_tax invoice == 0
      then none
      else if some_rate_matches (get_or cfg.tolerance_paise 100) invoice.taxable_value_paise
          (actual_tax invoice) (rates_or_default cfg.expected_rate_percents)
      then none
      else flag r006 error

  unfoldable pub r007_duplicate_suspect : CanonicalInvoice → ValidationContext F → Option Flag
  r007_duplicate_suspect invoice ctx =
      let g = or_empty invoice.counterparty_gstin in
      if not (get_or ctx.validation_config.duplicates_enabled true)
      then none
      else if not (is_truthy g)
      then none
      else if leb
          (key_count (map upper g) (normalize_invoice_number (some invoice.invoice_number))
            ctx.duplicate_key_counts)
          1
      then none
      else flag r007 warning

  unfoldable pub r008_future_date : CanonicalInvoice → ValidationContext F → Option Flag
  r008_future_date invoice ctx =
      if not (date_leb invoice.invoice_date ctx.today) then flag r008 error else none

  unfoldable pub r009_gstin_state_code : CanonicalInvoice → ValidationContext F → Option Flag
  r009_gstin_state_code invoice ctx =
      let g = or_empty invoice.counterparty_gstin in
      if not (is_truthy g)
      then none
      else if not (has_valid_structure g)
      then none
      else if not (has_valid_state_code g)
      then flag r009 error
      else none

  abbrev pub rules : List (CanonicalInvoice → ValidationContext F → Option Flag)
  rules =
      r001_gstin_missing ∷ r002_gstin_checksum ∷ r003_date_out_of_period ∷ r004_hsn_missing
      ∷ r005_tax_head_mismatch ∷ r006_tax_arithmetic ∷ r007_duplicate_suspect ∷ r008_future_date
      ∷ r009_gstin_state_code ∷ []

  -- `[f for rule in RULES if (f := rule(invoice, ctx)) is not None]`
  unfoldable pub collect :
      List (CanonicalInvoice → ValidationContext F → Option Flag)
      → CanonicalInvoice
      → ValidationContext F
      → List Flag
  collect [] invoice ctx = []
  collect (rule ∷ rest) invoice ctx =
      let flags = collect rest invoice ctx in
      elim (rule invoice ctx) [ none ↦ flags | some f ↦ f ∷ flags ]

  unfoldable pub run_pipeline : CanonicalInvoice → ValidationContext F → List Flag
  run_pipeline invoice ctx = collect rules invoice ctx
