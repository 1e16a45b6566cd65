-- ===== src/Validation/Gstin.antt =====
-- The GSTIN module (backend/app/engines/validation/gstin.py): the structural pattern, the mod-36
-- check digit and the state codes. A character is its code point.
pub mod CheckDigit
pub mod Structure
use niyam_ai.Base.{
  ℕ, zero, suc, ◌+◌, ◌-◌, ◌*◌, ◌/◌, ◌%◌, Bool, true, false, ◌&&◌, ◌||◌, Option, none, some, List,
  [], ◌∷◌, map, Text, codes, text_eq, is_digit, is_upper, ◌==◌, ltb, leb, if◌then◌else◌, any, take,
  length,
}

-- `_INDEX.get(c)`: the position of a character in the alphabet 0-9, A-Z.
unfoldable pub index : ℕ → Option ℕ
index c = if is_digit c then some (c - b'0') else if is_upper c then some (c - b'A' + 10) else none

-- `GSTIN_ALPHABET[i]`, at positions below 36.
unfoldable pub alphabet : ℕ → ℕ
alphabet i = if ltb i 10 then b'0' + i else b'A' + (i - 10)

-- The base-36 digit sum of one product.
unfoldable pub digit_sum : ℕ → ℕ → ℕ
digit_sum i v =
    let factor : ℕ = if i % 2 == 0 then 1 else 2 in
    let product = v * factor in product / 36 + product % 36

-- The loop of `compute_check_digit` from position `i` with the running total; `none` is the
-- ValueError for a character outside the alphabet.
unfoldable pub sum_from : ℕ → ℕ → Text → Option ℕ
sum_from i running [] = some running
sum_from i running (c ∷ s) = elim (index c) [
  | none ↦ none
  | some v ↦ sum_from (i + 1) (running + digit_sum i v) s
]

-- `none` is the ValueError.
unfoldable pub compute_check_digit : Text → Option ℕ
compute_check_digit base14 =
    if length base14 == 14
    then elim (sum_from 0 0 base14) [
      | none ↦ none
      | some running ↦ some (alphabet ((36 - running % 36) % 36))
    ]
    else none

-- The character classes of `_STRUCTURAL_RE`, in order.
abbrev pub not_zero : ℕ → Bool
not_zero c = leb b'1' c && leb c b'9' || is_upper c

abbrev pub alphanumeric : ℕ → Bool
alphanumeric c = is_digit c || is_upper c

abbrev pub classes : List (ℕ → Bool)
classes =
    is_digit ∷ is_digit ∷ is_upper ∷ is_upper ∷ is_upper ∷ is_upper ∷ is_upper ∷ is_digit ∷ is_digit
    ∷ is_digit ∷ is_digit ∷ is_upper ∷ not_zero ∷ is_upper ∷ alphanumeric ∷ []

-- A match from the start: one character for each class, then `$`, which Python's `re` lets stand
-- at the end of the text and before a line feed that ends it.
unfoldable pub matches : List (ℕ → Bool) → Text → Bool
matches [] [] = true
matches [] (c ∷ []) = c == 10
matches [] (c ∷ d ∷ s) = false
matches (p ∷ ps) [] = false
matches (p ∷ ps) (c ∷ s) = p c && matches ps s

unfoldable pub has_valid_structure : Text → Bool
has_valid_structure gstin = matches classes gstin

-- `gstin[n]`
abbrev pub char_at : ℕ → Text → Option ℕ
char_at n [] = none
char_at zero (c ∷ s) = some c
char_at (suc n) (c ∷ s) = char_at n s

-- `gstin[14] == compute_check_digit(gstin[:14])`; the handler turns the ValueError into False.
abbrev pub same_char : Option ℕ → Option ℕ → Bool
same_char (some c) (some d) = c == d
same_char (some c) none = false
same_char none e = false

unfoldable pub has_valid_checksum : Text → Bool
has_valid_checksum gstin =
    if has_valid_structure gstin
    then same_char (char_at 14 gstin) (compute_check_digit (take 14 gstin))
    else false

unfoldable pub is_valid_gstin : Text → Bool
is_valid_gstin gstin = has_valid_structure gstin && has_valid_checksum gstin

-- The two-digit code of a number below 100.
abbrev two_digits : ℕ → Text
two_digits n = (b'0' + n / 10) ∷ (b'0' + n % 10) ∷ []

abbrev pub gstin_state_codes : List Text
gstin_state_codes = map two_digits (
    1 ∷ 2 ∷ 3 ∷ 4 ∷ 5 ∷ 6 ∷ 7 ∷ 8 ∷ 9 ∷ 10 ∷ 11 ∷ 12 ∷ 13 ∷ 14 ∷ 15 ∷ 16 ∷ 17 ∷ 18 ∷ 19 ∷ 20 ∷ 21
    ∷ 22 ∷ 23 ∷ 24 ∷ 25 ∷ 26 ∷ 27 ∷ 29 ∷ 30 ∷ 31 ∷ 32 ∷ 33 ∷ 34 ∷ 35 ∷ 36 ∷ 37 ∷ 38 ∷ 97 ∷ 99 ∷ [])

-- `gstin[:2]`
unfoldable pub state_code : Text → Text
state_code gstin = take 2 gstin

unfoldable pub has_valid_state_code : Text → Bool
has_valid_state_code gstin =
    leb 2 (length gstin) && any (λ code. text_eq code (take 2 gstin)) gstin_state_codes
