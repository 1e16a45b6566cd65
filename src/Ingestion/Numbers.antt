-- ===== src/Ingestion/Numbers.antt =====
-- Invoice numbers (backend/app/ingestion/canonical.py, `normalize_invoice_number`).
pub mod Machine
pub mod Idempotent
use niyam_ai.Base.{
  ℕ, zero, suc, Bool, true, false, not, ◌||◌, Option, none, some, List, [], ◌∷◌, ◌++◌, map, Text,
  is_digit, is_space, upper, strip, strip_left, or_else, keep, length, ◌==◌, if◌then◌else◌,
}

-- A character of `_INV_SEPARATOR`.
abbrev pub is_separator : ℕ → Bool
is_separator c = is_space c || c == b'-' || c == b'/' || c == b'.'

-- `s[i:j]` of an inner loop that advances while the test holds; what is left is `strip_left`.
abbrev pub take_while : (ℕ → Bool) → Text → Text
take_while p [] = []
take_while p (c ∷ s) = let r = take_while p s in if p c then c ∷ r else []

-- `s[i:j].lstrip("0") or "0"`
abbrev pub trim_zeros : Text → Text
trim_zeros run = or_else (strip_left (λ c. c == b'0') run) (b'0' ∷ [])

abbrev pub is_other : ℕ → Bool
is_other c = not (is_digit c)

-- The outer `while i < len(s)`, on the rest of the text, with fuel.
unfoldable pub walk_runs : ℕ → Text → Text
walk_runs zero s = []
walk_runs (suc fuel) [] = []
walk_runs (suc fuel) (c ∷ s) = elim (is_digit c) [
  | true ↦ trim_zeros (take_while is_digit (c ∷ s)) ++ walk_runs fuel (strip_left is_digit (c ∷ s))
  | false ↦ take_while is_other (c ∷ s) ++ walk_runs fuel (strip_left is_other (c ∷ s))
]

-- `_INV_SEPARATOR.sub("", str(raw).strip()).upper()`
unfoldable pub cleaned : Text → Text
cleaned raw = map upper (keep (λ c. not (is_separator c)) (strip raw))

-- `none` is Python's None.
unfoldable pub normalize_invoice_number : Option Text → Text
normalize_invoice_number none = []
normalize_invoice_number (some raw) =
    let s = cleaned raw in or_else (walk_runs (length s) s) (b'0' ∷ [])
