-- ===== src/Ingestion/Invoice.antt =====
-- The canonical invoice and its content hash (backend/app/ingestion/canonical.py). SHA-256 is a
-- parameter. Amounts are paise, which `rupees_to_paise` keeps from being negative.
use niyam_ai.Base.{
  ℕ, zero, suc, ◌+◌, ◌/◌, ◌%◌, ◌≡◌, refl, true, false, Option, none, some, List, [], ◌∷◌, ◌++◌, map,
  arith, Text, Date, upper, ltb, upper_idem,
}
use niyam_ai.Ingestion.Numbers.{normalize_invoice_number}
use niyam_ai.Ingestion.Numbers.Idempotent.{normalize_invoice_number_idem}

pub data Direction : Type 0 where
  purchase sale : Direction

pub record CanonicalInvoice : Type 0 where
  pub gstin_profile_id : Text
  pub direction : Direction
  pub invoice_number : Text
  pub invoice_date : Date
  pub counterparty_gstin : Option Text
  pub taxable_value_paise : ℕ
  pub cgst_paise : ℕ
  pub sgst_paise : ℕ
  pub igst_paise : ℕ
  pub total_paise : ℕ
  pub hsn_sac : Option Text
  -- `payload`: the row of the source and the normalised number, where an ingester gives them
  pub payload : Option (ℕ × Text)

-- `str(n)`, with fuel for one division more than `n`.
unfoldable pub print_from : ℕ → ℕ → Text → Text
print_from zero n acc = acc
print_from (suc fuel) n acc = elim (ltb n 10) [
  | true ↦ (b'0' + n) ∷ acc
  | false ↦ print_from fuel (n / 10) ((b'0' + n % 10) ∷ acc)
]

unfoldable pub print_number : ℕ → Text
print_number n = print_from (suc n) n []

abbrev two_digits : ℕ → Text → Text
two_digits n rest = (b'0' + n / 10 % 10) ∷ (b'0' + n % 10) ∷ rest

-- `date.isoformat()`
abbrev pub isoformat : Date → Text
isoformat d =
    two_digits (d.year / 100)
      (two_digits d.year (b'-' ∷ two_digits d.month (b'-' ∷ two_digits d.day [])))

abbrev pub or_empty : Option Text → Text
or_empty none = []
or_empty (some s) = s

-- `"|".join(parts)`
abbrev pub join_bar : List Text → Text
join_bar [] = []
join_bar (s ∷ []) = s
join_bar (s ∷ t ∷ rest) = s ++ b'|' ∷ join_bar (t ∷ rest)

unfoldable pub dedup_parts : CanonicalInvoice → List Text
dedup_parts inv =
    inv.gstin_profile_id
    ∷ map upper (or_empty inv.counterparty_gstin)
    ∷ normalize_invoice_number (some inv.invoice_number)
    ∷ isoformat inv.invoice_date
    ∷ print_number inv.total_paise
    ∷ []

module _ (sha256_hex : Text → Text) where
  unfoldable pub content_hash : CanonicalInvoice → Text
  content_hash inv = sha256_hex (join_bar (dedup_parts inv))

map-upper_idem : (s : Text) → map upper (map upper s) ≡ map upper s
map-upper_idem [] = refl
map-upper_idem (c ∷ s) = ground (arith, map-upper_idem s, upper_idem c)

-- An invoice has the hash of the invoice that carries its number in normal form and its
-- counterparty in capitals, whatever its tax split, HSN code, direction and source row are.
pub content_hash_canonical :
    (sha256_hex : Text → Text) (inv : CanonicalInvoice) (direction : Direction)
    (taxable cgst sgst igst : ℕ) (hsn : Option Text) (payload : Option (ℕ × Text))
    → content_hash sha256_hex inv
      ≡ content_hash sha256_hex (record inv {
        direction = direction;
        invoice_number = normalize_invoice_number (some inv.invoice_number);
        counterparty_gstin = some (map upper (or_empty inv.counterparty_gstin));
        taxable_value_paise = taxable;
        cgst_paise = cgst;
        sgst_paise = sgst;
        igst_paise = igst;
        hsn_sac = hsn;
        payload = payload;
      })
unfolding content_hash dedup_parts
content_hash_canonical sha256_hex inv direction taxable cgst sgst igst hsn payload =
    rw
      (
        normalize_invoice_number_idem inv.invoice_number,
        map-upper_idem (or_empty inv.counterparty_gstin),
      )
      refl
