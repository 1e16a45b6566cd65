-- ===== src/Validation/Gstin/Structure.antt =====
-- Validity as a whole (backend/app/engines/validation/gstin.py, `is_valid_gstin`).
use niyam_ai.Base.{
  ℕ, zero, suc, ◌≡◌, refl, ◌≢◌, ap, ◌↔◌, some, Bool, true, false, List, [], ◌∷◌, ◌++◌, arith, Text,
  Option-cases, Bool-cases, inl, inr, length, take, length-append, ==_iff, subst,
}
use mathlib.Core.List.{append_assoc}
use niyam_ai.Validation.Gstin.{
  compute_check_digit, char_at, classes, matches, has_valid_structure, has_valid_checksum,
  is_valid_gstin,
}
use niyam_ai.Validation.Gstin.CheckDigit.{compute_check_digit_differ}

take-append_at : (n : ℕ) (xs ys : Text) → length xs ≡ n → take n (xs ++ ys) ≡ xs
take-append_at zero [] ys h = refl
take-append_at zero (x ∷ xs) ys h = absurd (omega arith)
take-append_at (suc n) [] ys h = absurd (omega arith)
take-append_at (suc n) (x ∷ xs) ys h = ap (λ l. x ∷ l) (take-append_at n xs ys (omega arith))

char_at-append_at :
    (n : ℕ) (xs : Text) (c : ℕ) (ys : Text) → length xs ≡ n → char_at n (xs ++ c ∷ ys) ≡ some c
char_at-append_at zero [] c ys h = refl
char_at-append_at zero (x ∷ xs) c ys h = absurd (omega arith)
char_at-append_at (suc n) [] c ys h = absurd (omega arith)
char_at-append_at (suc n) (x ∷ xs) c ys h = char_at-append_at n xs c ys (omega arith)

-- A text of 14 characters and one more is valid exactly when it has the structure and its last
-- character is the check digit of the others.
pub is_valid_gstin_iff :
    (base : Text) (c : ℕ)
    → length base ≡ 14
    → (is_valid_gstin (base ++ c ∷ []) ≡ true)
      ↔ ((has_valid_structure (base ++ c ∷ []) ≡ true) × (compute_check_digit base ≡ some c))
unfolding is_valid_gstin has_valid_checksum
is_valid_gstin_iff base c h =
    rw (take-append_at 14 base (c ∷ []) h, char_at-append_at 14 base c [] h)
      (elim (Option-cases (compute_check_digit base)) [
        | inl bad ↦ ((λ v. ground arith), (λ v. ground arith))
        | inr (d, e) ↦ ((λ v. ground arith), (λ v. ground arith))
      ])

-- A valid GSTIN with one of its first 14 characters replaced by any other is refused.
pub is_valid_gstin_detects :
    (xs ys : Text) (c d e : ℕ)
    → length (xs ++ c ∷ ys) ≡ 14
    → c ≢ d
    → is_valid_gstin ((xs ++ c ∷ ys) ++ e ∷ []) ≡ true
    → is_valid_gstin ((xs ++ d ∷ ys) ++ e ∷ []) ≡ false
is_valid_gstin_detects xs ys c d e h ne v =
    elim (Bool-cases (is_valid_gstin ((xs ++ d ∷ ys) ++ e ∷ []))) [
      | inl bad ↦ absurd (
          compute_check_digit_differ xs ys c d ne ((is_valid_gstin_iff (xs ++ c ∷ ys) e h).0 v).1
            ((is_valid_gstin_iff (xs ++ d ∷ ys) e
                (omega (arith, length-append xs (c ∷ ys), length-append xs (d ∷ ys)))).0
              bad).1)
      | inr good ↦ good
    ]

matches_line_feed :
    (ps : List (ℕ → Bool)) (s : Text)
    → length ps ≡ length s
    → matches ps s ≡ true
    → matches ps (s ++ 10 ∷ []) ≡ true
unfolding matches
matches_line_feed [] [] l h = refl
matches_line_feed [] (c ∷ s) l h = absurd (omega arith)
matches_line_feed (p ∷ ps) [] l h = absurd (omega arith)
matches_line_feed (p ∷ ps) (c ∷ s) l h = ground (arith, matches_line_feed ps s)

structure_line_feed :
    (base : Text) (c : ℕ)
    → length base ≡ 14
    → has_valid_structure (base ++ c ∷ []) ≡ true
    → has_valid_structure (base ++ c ∷ 10 ∷ []) ≡ true
unfolding has_valid_structure
structure_line_feed base c h v =
    subst (λ s. matches classes s ≡ true) (append_assoc base (c ∷ []) (10 ∷ []))
      (matches_line_feed classes (base ++ c ∷ []) (omega (arith, length-append base (c ∷ []))) v)

-- Every valid GSTIN is still accepted with a line feed behind it, as a text of 16 characters.
pub is_valid_gstin_line_feed :
    (base : Text) (c : ℕ)
    → length base ≡ 14
    → is_valid_gstin (base ++ c ∷ []) ≡ true
    → is_valid_gstin (base ++ c ∷ 10 ∷ []) ≡ true
unfolding is_valid_gstin has_valid_checksum
is_valid_gstin_line_feed base c h v =
    rw (take-append_at 14 base (c ∷ 10 ∷ []) h, char_at-append_at 14 base c (10 ∷ []) h)
      (let (fits, digit) = (is_valid_gstin_iff base c h).0 v in
        ground (arith, structure_line_feed base c h fits, ==_iff c c))
