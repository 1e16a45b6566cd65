-- ===== src/Ingestion/Money.antt =====
-- Amounts (backend/app/ingestion/canonical.py, `rupees_to_paise`). Reading a text as a `Decimal` is
-- the standard library's; its outcome is a `Number`. The default context has a precision of 28
-- digits, rounds a product half to even, and lets `quantize` raise where the result has more.
use Prim.Native.Nat.{◌^◌}
use native.Mathlib.Nat.{pow-suc, div-div-eq-div-mul, mul_comm}
use niyam_ai.Base.{
  ℕ, zero, suc, ◌+◌, ◌*◌, ◌/◌, ◌%◌, ltb, Bool-cases, inl, inr, ◌≤◌, ◌<◌, ◌≡◌, refl, sym, ap, ◌∙◌,
  Bool, true, false, not, ◌&&◌, Option, none, some, [], ◌∷◌, arith, Text, ◌==◌, if◌then◌else◌,
}

-- What `Decimal(text)` gives: InvalidOperation, a NaN, an infinity with its sign, or
-- `mantissa / 10 ^ scale` with a sign.
pub data Number : Type 0 where
  invalid nan : Number
  infinite : (negative : Bool) → Number
  finite : (negative : Bool) (mantissa scale : ℕ) → Number

-- A call returns, raises the ValueError that the parsers catch, or raises decimal's
-- InvalidOperation, which is no ValueError.
pub data Outcome {ℓ} (A : Type ℓ) : Type ℓ where
  returned : A → Outcome A
  value_error : Outcome A
  invalid_operation : Outcome A

infixl 5 ◌>>=◌
abbrev pub ◌>>=◌ {ℓ κ} : {A : Type ℓ} {B : Type κ} → Outcome A → (A → Outcome B) → Outcome B
returned a >>= f = f a
value_error >>= f = value_error
invalid_operation >>= f = invalid_operation

pub >>=-eq-returned {ℓ κ} :
    {A : Type ℓ} {B : Type κ} (m : Outcome A) (f : A → Outcome B) {b : B}
    → (m >>= f) ≡ returned b
    → (a : A) × (m ≡ returned a) × (f a ≡ returned b)
>>=-eq-returned (returned a) f h = (a, refl, h)
>>=-eq-returned value_error f h = cc
>>=-eq-returned invalid_operation f h = cc

-- Coefficients of at most 28 digits are below it.
abbrev pub context_limit : ℕ
context_limit = 10 ^ 28

-- How many digits a coefficient has over 28; `context_digits` shows that its own value is enough
-- fuel.
unfoldable pub excess_digits : ℕ → ℕ → ℕ
excess_digits zero n = 0
excess_digits (suc fuel) n = elim (ltb n context_limit) [
  | true ↦ 0
  | false ↦ suc (excess_digits fuel (n / 10))
]

-- ROUND_HALF_EVEN
unfoldable pub divide_half_even : ℕ → ℕ → ℕ
divide_half_even n d =
    let q = n / d in
    let r = n % d in if ltb (2 * r) d then q else if ltb d (2 * r) then q + 1 else q + q % 2

-- A coefficient as the context keeps it.
unfoldable pub in_context : ℕ → ℕ
in_context n = let unit = 10 ^ excess_digits n n in divide_half_even n unit * unit

-- `(d * 100).quantize(Decimal("1"), rounding=ROUND_HALF_UP)` at `d = mantissa / 10 ^ scale`
unfoldable pub quantize_half_up : ℕ → ℕ → Outcome ℕ
quantize_half_up mantissa scale =
    let paise = (2 * in_context (mantissa * 100) + 10 ^ scale) / (2 * 10 ^ scale) in
    if ltb paise context_limit then returned paise else invalid_operation

-- An ordered comparison with a NaN raises, and so does the `quantize` of an infinity.
unfoldable pub paise_of : Number → Outcome ℕ
paise_of invalid = value_error
paise_of nan = invalid_operation
paise_of (infinite true) = value_error
paise_of (infinite false) = invalid_operation
paise_of (finite negative mantissa scale) =
    if negative && not (mantissa == 0) then value_error else quantize_half_up mantissa scale

module _ (read_decimal : Text → Number) where
  -- `none` is None.
  unfoldable pub rupees_to_paise : Option Text → Outcome ℕ
  rupees_to_paise none = returned 0
  rupees_to_paise (some []) = returned 0
  rupees_to_paise (some (c ∷ s)) = paise_of (read_decimal (c ∷ s))

divide_bounds : (n d : ℕ) → 0 < d → (d * (n / d) ≤ n) × (n < d * (n / d) + d)
divide_bounds n d h = (grind arith, grind arith)

power_pos : (k : ℕ) → 0 < 10 ^ k
power_pos zero = omega arith
power_pos (suc k) = rw pow-suc (omega (arith, power_pos k))

excess_digits_small : (fuel n : ℕ) → n < context_limit → excess_digits fuel n ≡ 0
unfolding excess_digits
excess_digits_small zero n h = refl
excess_digits_small (suc fuel) n h = ground (arith, h)

excess_digits_large :
    (fuel n : ℕ)
    → context_limit ≤ n
    → excess_digits (suc fuel) n ≡ suc (excess_digits fuel (n / 10))
unfolding excess_digits
excess_digits_large fuel n h = ground (arith, h)

-- Cutting the digits that are over leaves 28.
context_digits : (fuel n : ℕ) → n ≤ fuel → n / 10 ^ excess_digits fuel n < context_limit
context_digits zero n h = rw (excess_digits_small zero n (omega (arith, h))) (omega (arith, h))
context_digits (suc fuel) n h = elim (Bool-cases (ltb n context_limit)) [
  | inl small ↦
      let le : n < context_limit = ground (arith, small) in
      rw (excess_digits_small (suc fuel) n le) (omega (arith, le))
  | inr large ↦
      let e = excess_digits_large fuel n (ground (arith, large)) in
      let rest = context_digits fuel (n / 10) (omega (arith, h)) in
      let d = excess_digits fuel (n / 10) in
      let at_once : n / 10 / 10 ^ d ≡ n / 10 ^ suc d =
        div-div-eq-div-mul n 10 (10 ^ d)
        ∙ ap (λ u. n / u) (mul_comm 10 (10 ^ d) ∙ sym (pow-suc 10 d)) in
      rw e (omega (arith, rest, at_once))
]

in_context_small : (n : ℕ) → n < context_limit → in_context n ≡ n
unfolding in_context divide_half_even
in_context_small n h = rw (excess_digits_small n n h) (ground arith)

product_le : (p n : ℕ) → 1 ≤ p → 1 ≤ n → p + n ≤ p * n + 1
product_le (suc p) (suc n) h k = grind arith
product_le (suc p) zero h k = omega (arith, k)
product_le zero n h k = omega (arith, h)

rounded_le : (u amount n : ℕ) → 1 ≤ u → 2 * u * n ≤ 2 * amount + u → n ≤ amount
rounded_le u amount zero h k = omega arith
rounded_le u amount (suc n) h k =
    let p = product_le u (suc n) h (omega arith) in omega (arith, h, k, p)

-- The paise of an amount of at most 26 digits are the hundredfold amount rounded to the nearest
-- number, a half upwards: the call returns, rounding adds at most a half, and takes away less than
-- a half.
pub quantize_half_up_nearest :
    (m k : ℕ)
    → m * 100 < context_limit
    → (paise : ℕ) × (quantize_half_up m k ≡ returned paise)
      × (2 * (paise * 10 ^ k) ≤ 2 * (m * 100) + 10 ^ k)
      × (2 * (m * 100) < 2 * (paise * 10 ^ k) + 10 ^ k)
unfolding quantize_half_up
quantize_half_up_nearest m k h =
    let amount = m * 100 in
    let unit = 10 ^ k in
    let paise = (2 * amount + unit) / (2 * unit) in
    let bounds = divide_bounds (2 * amount + unit) (2 * unit) (omega (arith, power_pos k)) in
    let small : paise < context_limit =
      omega (arith, h, rounded_le unit amount paise (power_pos k) bounds.0) in
    (
      paise,
      rw (in_context_small amount h) (ground (arith, small)),
      omega (arith, bounds),
      omega (arith, bounds),
    )
