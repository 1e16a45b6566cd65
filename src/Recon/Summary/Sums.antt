-- ===== src/Recon/Summary/Sums.antt =====
-- Sums over lines by their identifiers.
use mathlib.Core.List.{Memᴰ}
use niyam_ai.Base.{
  ℕ, ◌+◌, ◌≤◌, ◌≡◌, refl, ap, Option, none, some, List, [], ◌∷◌, map, arith, All, All-map, All-mem,
  count, IsUnique, Bool-cases, inl, inr, total, length, ◌==◌, ==_iff, if◌then◌else◌,
}
use niyam_ai.Recon.Passes.Partition.{present, count_mem}

remove : ℕ → List ℕ → List ℕ
remove a [] = []
remove a (x ∷ xs) = let rest = remove a xs in if x == a then xs else x ∷ rest

remove_lem :
    (g : ℕ → ℕ) (a : ℕ) (xs : List ℕ)
    → 1 ≤ count a xs
    → (total g xs ≡ g a + total g (remove a xs))
      × ((c : ℕ) → count c xs ≡ (if a == c then 1 else 0) + count c (remove a xs))
unfolding remove
remove_lem g a [] h = absurd (omega (arith, h))
remove_lem g a (x ∷ xs) h = elim (Bool-cases (x == a)) [
  | inl same ↦ let e = (==_iff x a).0 same in (ground (arith, ap g e), λ c. ground (arith, e))
  | inr other ↦
      let rest = remove_lem g a xs (ground (arith, other, h)) in
      (ground (arith, rest.0), λ c. ground (arith, rest.1 c))
]

-- A sum over identifiers depends on how often each occurs.
pub total_counts :
    (g : ℕ → ℕ) (xs ys : List ℕ) → ((a : ℕ) → count a xs ≡ count a ys) → total g xs ≡ total g ys
total_counts g [] [] h = refl
total_counts g [] (y ∷ ys) h = absurd (ground (arith, h y))
total_counts g (x ∷ xs) ys h =
    let r = remove_lem g x ys (ground (arith, h x)) in
    let rest = total_counts g xs (remove x ys) (λ a. omega (arith, h a, r.1 a)) in
    omega (arith, rest, r.0)

pub total-map {ℓ} :
    {A : Type ℓ} (f : A → ℕ) (id : A → ℕ) (g : ℕ → ℕ) (xs : List A)
    → All (λ x. f x ≡ g (id x)) xs
    → total f xs ≡ total g (map id xs)
total-map f id g [] h = refl
total-map f id g (x ∷ xs) h = omega (arith, h.0, total-map f id g xs h.1)

abbrev pub at_most : (ℕ → ℕ) → Option ℕ → ℕ
at_most g none = 0
at_most g (some a) = g a

pub total-present {ℓ} :
    {A : Type ℓ} (f : A → ℕ) (id : A → Option ℕ) (g : ℕ → ℕ) (xs : List A)
    → All (λ x. f x ≡ at_most g (id x)) xs
    → total f xs ≡ total g (present (map id xs))
total-present f id g [] h = refl
total-present f id g (x ∷ xs) h = go (id x) h.0 (total-present f id g xs h.1)
  where
    go :
        (o : Option ℕ)
        → f x ≡ at_most g o
        → total f xs ≡ total g (present (map id xs))
        → f x + total f xs ≡ total g (present (o ∷ map id xs))
    go none e rest = omega (arith, e, rest)
    go (some a) e rest = omega (arith, e, rest)

-- The amount of the line with an identifier.
module _ {A : Type 0} (id amount : A → ℕ) where
  unfoldable pub amount_of : List A → ℕ → ℕ
  amount_of [] a = 0
  amount_of (x ∷ xs) a = let rest = amount_of xs a in if id x == a then amount x else rest

  pub amount_of_lem :
      {x : A} (xs : List A) → Memᴰ x xs → IsUnique (map id xs) → amount x ≡ amount_of xs (id x)
  unfolding amount_of
  amount_of_lem [] m u = elim m [ ]
  amount_of_lem (y ∷ ys) (Memᴰ.head e) u = ground (arith, ap id e, ap amount e)
  amount_of_lem {x} (y ∷ ys) (Memᴰ.tail m) u = elim (Bool-cases (id y == id x)) [
    | inl same ↦ absurd (ground (arith, u (id x), count_mem id m))
    | inr other ↦ rw other (amount_of_lem ys m (λ a. ground (arith, u a)))
  ]

  pub total-amount_of :
      (xs : List A) → IsUnique (map id xs) → total amount xs ≡ total (amount_of xs) (map id xs)
  total-amount_of xs u =
      total-map amount id (amount_of xs) xs (All-map xs (λ x m. amount_of_lem xs m u) (All-mem xs))

pub All-true {ℓ κ} : {A : Type ℓ} {P : A → Type κ} → ((x : A) → P x) → (xs : List A) → All P xs
All-true h [] = tt
All-true h (x ∷ xs) = (h x, All-true h xs)

pub length-total {ℓ} :
    {A : Type ℓ} (id : A → ℕ) (xs : List A) → length xs ≡ total (λ (a : ℕ). 1) (map id xs)
length-total id [] = refl
length-total id (x ∷ xs) = omega (arith, length-total id xs)
