-- ===== src/Validation/Rules/Meaning.antt =====
-- What each rule of backend/app/engines/validation/rules.py demands of an invoice.
use niyam_ai.Base.{
  ℕ, ◌≤◌, ◌≡◌, ◌↔◌, ◌⊎◌, inl, inr, true, false, none, some, List, [], ◌∷◌, map, arith, Text,
  date_leb, dist, is_truthy, strip, upper, take, drop, length, text_eq, Floats, Bool-cases, leb,
}
use niyam_ai.Ingestion.Numbers.{normalize_invoice_number}
use niyam_ai.Ingestion.Invoice.{CanonicalInvoice, purchase, or_empty}
use niyam_ai.Validation.Gstin.{
  has_valid_structure, is_valid_gstin, has_valid_state_code, state_code,
}
use niyam_ai.Validation.Context.{ValidationContext}
use niyam_ai.Validation.Rules.{
  r001_gstin_missing, r002_gstin_checksum, r003_date_out_of_period, r004_hsn_missing,
  r005_tax_head_mismatch, r006_tax_arithmetic, r007_duplicate_suspect, r008_future_date,
  r009_gstin_state_code, all_digits, number_from, leading_digits, hsn_min_digits, expected_tax,
  actual_tax, rates_or_default, some_rate_matches, get_or, key_count,
}

module _ (fl : Floats) (invoice : CanonicalInvoice) (ctx : ValidationContext fl.F) where
  abbrev pub gstin : Text
  gstin = or_empty invoice.counterparty_gstin

  -- R001: a purchase names its supplier.
  abbrev pub IsNamed : Type 0
  IsNamed = invoice.direction ≡ purchase → is_truthy gstin ≡ true

  -- R002: a GSTIN that is there is valid.
  abbrev pub IsWellFormed : Type 0
  IsWellFormed = is_truthy gstin ≡ true → is_valid_gstin gstin ≡ true

  -- R003: the invoice is of the month of the return, if the period is six digits.
  abbrev pub IsInPeriod : Type 0
  IsInPeriod =
      length ctx.period ≡ 6
      → all_digits ctx.period ≡ true
      → (invoice.invoice_date.year ≡ number_from 0 (take 4 ctx.period))
        × (invoice.invoice_date.month ≡ number_from 0 (drop 4 ctx.period))

  -- R004: the HSN code begins with enough digits.
  abbrev pub IsCoded : Type 0
  IsCoded =
      (is_truthy (strip (or_empty invoice.hsn_sac)) ≡ true)
      × (hsn_min_digits fl ctx ≤ length (leading_digits (strip (or_empty invoice.hsn_sac))))

  -- R005: IGST between states, CGST and SGST within one.
  abbrev pub IsHeaded : Type 0
  IsHeaded =
      is_truthy gstin ≡ true
      → has_valid_structure gstin ≡ true
      → (text_eq (state_code gstin) ctx.client_state_code ≡ true → invoice.igst_paise ≡ 0)
        × (text_eq (state_code gstin) ctx.client_state_code ≡ false
            → (invoice.cgst_paise ≡ 0) × (invoice.sgst_paise ≡ 0))

  -- The tax is that of one of the rates, within the tolerance.
  abbrev pub HasRate : ℕ → List fl.F → Type 0
  HasRate tolerance [] = ⊥
  HasRate tolerance (rate ∷ rates) =
      (dist (expected_tax fl invoice.taxable_value_paise rate) (actual_tax fl invoice) ≤ tolerance)
      ⊎ HasRate tolerance rates

  -- R006: an invoice over nothing, or one whose tax is at an expected rate.
  abbrev pub IsTaxed : Type 0
  IsTaxed =
      (invoice.taxable_value_paise ≡ 0) × (actual_tax fl invoice ≡ 0)
      ⊎ HasRate (get_or ctx.validation_config.tolerance_paise 100)
          (rates_or_default fl ctx.validation_config.expected_rate_percents)

  -- R007: no other invoice of the batch has the counterparty and the number, unless that is not
  -- asked.
  abbrev pub IsSingle : Type 0
  IsSingle =
      get_or ctx.validation_config.duplicates_enabled true ≡ true
      → is_truthy gstin ≡ true
      → key_count (map upper gstin) (normalize_invoice_number (some invoice.invoice_number))
          ctx.duplicate_key_counts
        ≤ 1

  -- R008
  abbrev pub IsPast : Type 0
  IsPast = date_leb invoice.invoice_date ctx.today ≡ true

  -- R009
  abbrev pub IsInState : Type 0
  IsInState =
      is_truthy gstin ≡ true → has_valid_structure gstin ≡ true → has_valid_state_code gstin ≡ true

  pub r001_iff : (r001_gstin_missing fl invoice ctx ≡ none) ↔ IsNamed
  unfolding r001_gstin_missing
  r001_iff = (λ h p. ground arith, λ h. ground arith)

  pub r002_iff : (r002_gstin_checksum fl invoice ctx ≡ none) ↔ IsWellFormed
  unfolding r002_gstin_checksum
  r002_iff = (λ h p. ground arith, λ h. ground arith)

  pub r003_iff : (r003_date_out_of_period fl invoice ctx ≡ none) ↔ IsInPeriod
  unfolding r003_date_out_of_period
  r003_iff = (λ h p q. ground arith, λ h. ground arith)

  pub r004_iff : (r004_hsn_missing fl invoice ctx ≡ none) ↔ IsCoded
  unfolding r004_hsn_missing
  r004_iff = (λ h. ground arith, λ h. ground arith)

  pub r005_iff : (r005_tax_head_mismatch fl invoice ctx ≡ none) ↔ IsHeaded
  unfolding r005_tax_head_mismatch
  r005_iff = (λ h p q. (λ s. ground arith, λ s. ground arith), λ h. ground arith)

  some_rate_matches_iff :
      (tolerance : ℕ) (rates : List fl.F)
      → (some_rate_matches fl tolerance invoice.taxable_value_paise (actual_tax fl invoice) rates
          ≡ true)
        ↔ HasRate tolerance rates
  unfolding some_rate_matches
  some_rate_matches_iff tolerance [] = (λ h. cc, λ h. absurd h)
  some_rate_matches_iff tolerance (rate ∷ rates) =
      let (to, from) = some_rate_matches_iff tolerance rates in
      elim (Bool-cases (
        leb (dist (expected_tax fl invoice.taxable_value_paise rate) (actual_tax fl invoice))
          tolerance)) [
            | inl near ↦ (λ h. inl (ground arith), λ h. ground arith)
            | inr far ↦ (
              λ h. inr (to (ground arith)),
              λ h. elim h [ inl p ↦ ground arith | inr p ↦ ground (arith, from p) ],
            )
          ]

  pub r006_iff : (r006_tax_arithmetic fl invoice ctx ≡ none) ↔ IsTaxed
  unfolding r006_tax_arithmetic
  r006_iff =
      let tolerance = get_or ctx.validation_config.tolerance_paise 100 in
      let rates = rates_or_default fl ctx.validation_config.expected_rate_percents in
      let (to, from) = some_rate_matches_iff tolerance rates in
      elim (Bool-cases (
        some_rate_matches fl tolerance invoice.taxable_value_paise (actual_tax fl invoice) rates)) [
          | inl found ↦ (λ h. inr (to found), λ h. ground arith)
          | inr absent ↦ (
            λ h. inl (ground arith),
            λ h. elim h [ inl z ↦ ground arith | inr p ↦ ground (arith, from p) ],
          )
        ]

  pub r007_iff : (r007_duplicate_suspect fl invoice ctx ≡ none) ↔ IsSingle
  unfolding r007_duplicate_suspect
  r007_iff = (λ h p q. ground arith, λ h. ground arith)

  pub r008_iff : (r008_future_date fl invoice ctx ≡ none) ↔ IsPast
  unfolding r008_future_date
  r008_iff = (λ h. ground arith, λ h. ground arith)

  pub r009_iff : (r009_gstin_state_code fl invoice ctx ≡ none) ↔ IsInState
  unfolding r009_gstin_state_code
  r009_iff = (λ h p q. ground arith, λ h. ground arith)
