-- ===== src/Base/Members.antt =====
-- Statements about every element of a list, and membership.
use mathlib.Core.Path.{◌≡◌, refl, sym, subst}
use mathlib.Core.Logic.{inl, inr}
use mathlib.Core.Bool.{Bool, true}
use mathlib.Core.List.{List, [], ◌∷◌, ◌++◌, map, Memᴰ}
use niyam_ai.Base.Tests.{Bool-cases}
use niyam_ai.Base.Lists.{All, All-map, All-keep, keep}

pub All-of_append {ℓ κ} :
    {A : Type ℓ} (P : A → Type κ) (xs ys : List A) → All P (xs ++ ys) → All P xs × All P ys
All-of_append P [] ys h = (tt, h)
All-of_append P (x ∷ xs) ys h = let (a, b) = All-of_append P xs ys h.1 in ((h.0, a), b)

-- What a filter keeps; and what holds of the kept elements, of the others under the test.
pub All-of_keep {ℓ κ} :
    {A : Type ℓ} (P : A → Type κ) (p : A → Bool) (xs : List A)
    → All P (keep p xs)
    → All (λ x. p x ≡ true → P x) xs
All-of_keep P p [] h = tt
All-of_keep P p (x ∷ xs) h = elim (Bool-cases (p x)) [
  | inl kept ↦ let k : All P (x ∷ keep p xs) = rw kept at h in (λ _. k.0, All-of_keep P p xs k.1)
  | inr out ↦ let k : All P (keep p xs) = rw out at h in (λ e. cc (e, out), All-of_keep P p xs k)
]

pub All-kept {ℓ} : {A : Type ℓ} (p : A → Bool) (xs : List A) → All (λ x. p x ≡ true) (keep p xs)
All-kept p [] = tt
All-kept p (x ∷ xs) = elim (Bool-cases (p x)) [
  | inl kept ↦ rw kept (kept, All-kept p xs)
  | inr out ↦ rw out (All-kept p xs)
]

-- Membership, which hands out what holds of every element.
pub All-mem {ℓ} : {A : Type ℓ} (xs : List A) → All (λ x. Memᴰ x xs) xs
All-mem [] = tt
All-mem (x ∷ xs) = (Memᴰ.head refl, All-map xs (λ y m. Memᴰ.tail m) (All-mem xs))

pub All-at {ℓ κ} : {A : Type ℓ} (P : A → Type κ) {x : A} {xs : List A} → All P xs → Memᴰ x xs → P x
All-at P h (Memᴰ.head e) = subst P (sym e) h.0
All-at P h (Memᴰ.tail m) = All-at P h.1 m

pub All-of_map {ℓ κ μ} :
    {A : Type ℓ} {B : Type κ} (f : A → B) (P : B → Type μ) (xs : List A)
    → All P (map f xs)
    → All (λ x. P (f x)) xs
All-of_map f P [] h = tt
All-of_map f P (x ∷ xs) h = (h.0, All-of_map f P xs h.1)

pub All-to_map {ℓ κ μ} :
    {A : Type ℓ} {B : Type κ} (f : A → B) (P : B → Type μ) (xs : List A)
    → All (λ x. P (f x)) xs
    → All P (map f xs)
All-to_map f P [] h = tt
All-to_map f P (x ∷ xs) h = (h.0, All-to_map f P xs h.1)

pub All-both {ℓ κ μ} :
    {A : Type ℓ} (P : A → Type κ) (Q : A → Type μ) (xs : List A)
    → All P xs
    → All Q xs
    → All (λ x. P x × Q x) xs
All-both P Q [] h k = tt
All-both P Q (x ∷ xs) h k = ((h.0, k.0), All-both P Q xs h.1 k.1)

-- What is kept was in the list and passes the test.
pub All-keep_mem {ℓ} :
    {A : Type ℓ} (p : A → Bool) (xs : List A) → All (λ x. Memᴰ x xs × (p x ≡ true)) (keep p xs)
All-keep_mem p xs =
    All-both (λ x. Memᴰ x xs) (λ x. p x ≡ true) (keep p xs)
      (All-keep (λ x. Memᴰ x xs) p xs (All-mem xs)) (All-kept p xs)
