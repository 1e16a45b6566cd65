-- ===== src/Validation/Gstin/CheckDigit.antt =====
-- What the check digit detects (backend/app/engines/validation/gstin.py, `compute_check_digit`).
use niyam_ai.Base.{
  ℕ, ◌+◌, ◌-◌, ◌%◌, ◌<◌, ◌≡◌, ◌≢◌, some, [], ◌∷◌, ◌++◌, arith, Text, Option-cases, inl, inr,
}
use niyam_ai.Validation.Gstin.{index, alphabet, digit_sum, sum_from, compute_check_digit}

pub index-lt : (c : ℕ) {v : ℕ} → index c ≡ some v → v < 36
unfolding index
index-lt c h = ground arith

pub index_injective : (c d : ℕ) {v : ℕ} → index c ≡ some v → index d ≡ some v → c ≡ d
unfolding index
index_injective c d h k = ground arith

pub index-alphabet : (i : ℕ) → i < 36 → index (alphabet i) ≡ some i
unfolding index alphabet
index-alphabet i h = ground arith

alphabet_injective : (i j : ℕ) → i < 36 → j < 36 → alphabet i ≡ alphabet j → i ≡ j
unfolding alphabet
alphabet_injective i j h k e = ground arith

-- At either factor the digit sum tells the 36 values apart, modulo 36 too.
digit_sum_injective :
    (i v w : ℕ) → v < 36 → w < 36 → v ≢ w → digit_sum i v % 36 ≢ digit_sum i w % 36
unfolding digit_sum
digit_sum_injective i v w h k ne = ground arith

-- Two totals that reach the same text keep their distance.
sum_from-distance :
    (s : Text) (i r r' : ℕ) {t u : ℕ}
    → sum_from i r s ≡ some t
    → sum_from i r' s ≡ some u
    → t + r' ≡ u + r
unfolding sum_from
sum_from-distance [] i r r' h k = ground arith
sum_from-distance (c ∷ s) i r r' h k = elim (Option-cases (index c)) [
  | inl bad ↦ ground arith
  | inr (v, e) ↦ omega (
    arith,
    sum_from-distance s (i + 1) (r + digit_sum i v) (r' + digit_sum i v) (rw (e, sum_from) at h)
        (rw (e, sum_from) at k),
  )
]

-- Texts that differ in one character have totals that differ modulo 36.
sum_from_differ :
    (xs ys : Text) (c d i r : ℕ) {t u : ℕ}
    → c ≢ d
    → sum_from i r (xs ++ c ∷ ys) ≡ some t
    → sum_from i r (xs ++ d ∷ ys) ≡ some u
    → t % 36 ≢ u % 36
unfolding sum_from
sum_from_differ [] ys c d i r ne h k = elim (Option-cases (index c)) [
  | inl bad ↦ ground arith
  | inr (v, e) ↦ elim (Option-cases (index d)) [
    | inl bad ↦ ground arith
    | inr (w, f) ↦ omega (
      arith,
      index-lt c e,
      index-lt d f,
      digit_sum_injective i v w (index-lt c e) (index-lt d f)
          (λ p. ne (index_injective c d e (rw p f))),
      sum_from-distance ys (i + 1) (r + digit_sum i v) (r + digit_sum i w) (rw (e, sum_from) at h)
          (rw (f, sum_from) at k),
    )
  ]
]
sum_from_differ (x ∷ xs) ys c d i r ne h k = elim (Option-cases (index x)) [
  | inl bad ↦ ground arith
  | inr (v, e) ↦
      sum_from_differ xs ys c d (i + 1) (r + digit_sum i v) ne (rw (e, sum_from) at h)
        (rw (e, sum_from) at k)
]

-- A changed character changes the check digit.
pub compute_check_digit_differ :
    (xs ys : Text) (c d : ℕ) {e : ℕ}
    → c ≢ d
    → compute_check_digit (xs ++ c ∷ ys) ≡ some e
    → compute_check_digit (xs ++ d ∷ ys) ≢ some e
unfolding compute_check_digit
compute_check_digit_differ xs ys c d ne h k = elim (Option-cases (sum_from 0 0 (xs ++ c ∷ ys))) [
  | inl bad ↦ ground arith
  | inr (t, p) ↦ elim (Option-cases (sum_from 0 0 (xs ++ d ∷ ys))) [
    | inl bad ↦ ground arith
    | inr (u, q) ↦ ground (
      arith,
      sum_from_differ xs ys c d 0 0 ne p q,
      alphabet_injective ((36 - t % 36) % 36) ((36 - u % 36) % 36),
    )
  ]
]
