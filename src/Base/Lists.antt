-- ===== src/Base/Lists.antt =====
-- Lists measured and cut by native numbers, sums, membership tests, and the stable sort that
-- Python's `sorted` and `list.sort` perform.
use Prim.Native.Nat.{ℕ, zero, suc, ◌+◌, ◌≤◌}
use mathlib.Core.Path.{◌≡◌, refl, ap}
use mathlib.Core.Logic.{◌⊎◌, inl, inr}
use mathlib.Core.Bool.{Bool, true, false, ◌||◌}
use mathlib.Core.List.{List, [], ◌∷◌, ◌++◌, map}
use native.Mathlib.Omega.{arith}
use niyam_ai.Base.Tests.{◌==◌, if◌then◌else◌}

module _ {ℓ} {A : Type ℓ} where
  abbrev pub length : List A → ℕ
  length [] = 0
  length (x ∷ xs) = suc (length xs)

  abbrev pub take : ℕ → List A → List A
  take zero xs = []
  take (suc n) [] = []
  take (suc n) (x ∷ xs) = x ∷ take n xs

  abbrev pub drop : ℕ → List A → List A
  drop zero xs = xs
  drop (suc n) [] = []
  drop (suc n) (x ∷ xs) = drop n xs

  -- `[x for x in xs if p(x)]`
  abbrev pub keep : (A → Bool) → List A → List A
  keep p [] = []
  keep p (x ∷ xs) = let r = keep p xs in if p x then x ∷ r else r

  abbrev pub any : (A → Bool) → List A → Bool
  any p [] = false
  any p (x ∷ xs) = p x || any p xs

  -- `sum(f(x) for x in xs)`
  abbrev pub total : (A → ℕ) → List A → ℕ
  total f [] = 0
  total f (x ∷ xs) = f x + total f xs

  abbrev pub All {κ} : (A → Type κ) → List A → Type κ
  All P [] = Unit
  All P (x ∷ xs) = P x × All P xs

  -- A stable insertion: `x` comes before the first element that it does not exceed.
  abbrev pub insert_by : (A → A → Bool) → A → List A → List A
  insert_by le x [] = x ∷ []
  insert_by le x (y ∷ ys) = let r = insert_by le x ys in if le x y then x ∷ y ∷ ys else y ∷ r

  abbrev pub sort_by : (A → A → Bool) → List A → List A
  sort_by le [] = []
  sort_by le (x ∷ xs) = insert_by le x (sort_by le xs)

  -- Each element is `le` all that follow it.
  abbrev pub IsSortedBy : (A → A → Bool) → List A → Type 0
  IsSortedBy le [] = Unit
  IsSortedBy le (x ∷ xs) = All (λ y. le x y ≡ true) xs × IsSortedBy le xs

  pub length-append : (xs ys : List A) → length (xs ++ ys) ≡ length xs + length ys
  length-append [] ys = omega arith
  length-append (x ∷ xs) ys = omega (arith, length-append xs ys)

  pub length-take_le : (n : ℕ) (xs : List A) → length (take n xs) ≤ n
  length-take_le zero xs = omega arith
  length-take_le (suc n) [] = omega arith
  length-take_le (suc n) (x ∷ xs) = omega (arith, length-take_le n xs)

  pub total-append : (f : A → ℕ) (xs ys : List A) → total f (xs ++ ys) ≡ total f xs + total f ys
  total-append f [] ys = omega arith
  total-append f (x ∷ xs) ys = omega (arith, total-append f xs ys)

module _ {ℓ κ} {A : Type ℓ} (P : A → Type κ) where
  pub All-append : (xs ys : List A) → All P xs → All P ys → All P (xs ++ ys)
  All-append [] ys h k = k
  All-append (x ∷ xs) ys h k = (h.0, All-append xs ys h.1 k)

  pub All-keep : (p : A → Bool) (xs : List A) → All P xs → All P (keep p xs)
  All-keep p [] h = h
  All-keep p (x ∷ xs) h = ground (arith, All-keep p xs h.1)

  pub All-insert_by :
      (le : A → A → Bool) (x : A) (xs : List A) → P x → All P xs → All P (insert_by le x xs)
  All-insert_by le x [] p h = (p, tt)
  All-insert_by le x (y ∷ ys) p h = ground (arith, All-insert_by le x ys p h.1)

  pub All-sort_by : (le : A → A → Bool) (xs : List A) → All P xs → All P (sort_by le xs)
  All-sort_by le [] h = tt
  All-sort_by le (x ∷ xs) h = All-insert_by le x (sort_by le xs) h.0 (All-sort_by le xs h.1)

  -- What holds of every sorted element holds of every element that was given.
  pub All-of_insert_by :
      (le : A → A → Bool) (x : A) (xs : List A) → All P (insert_by le x xs) → P x × All P xs
  All-of_insert_by le x [] h = h
  All-of_insert_by le x (y ∷ ys) h = ground (arith, All-of_insert_by le x ys)

  pub All-of_sort_by : (le : A → A → Bool) (xs : List A) → All P (sort_by le xs) → All P xs
  All-of_sort_by le [] h = tt
  All-of_sort_by le (x ∷ xs) h =
      let (p, rest) = All-of_insert_by le x (sort_by le xs) h in (p, All-of_sort_by le xs rest)

  pub All-take : (n : ℕ) (xs : List A) → All P xs → All P (take n xs)
  All-take zero xs h = tt
  All-take (suc n) [] h = tt
  All-take (suc n) (x ∷ xs) h = (h.0, All-take n xs h.1)

pub All-map {ℓ κ μ} :
    {A : Type ℓ} {P : A → Type κ} {Q : A → Type μ} (xs : List A)
    → ((x : A) → P x → Q x)
    → All P xs
    → All Q xs
All-map [] f h = tt
All-map (x ∷ xs) f h = (f x h.0, All-map xs f h.1)

-- Sorting keeps sums.
module _ {ℓ} {A : Type ℓ} (f : A → ℕ) where
  total-insert_by :
      (le : A → A → Bool) (x : A) (xs : List A) → total f (insert_by le x xs) ≡ f x + total f xs
  total-insert_by le x [] = refl
  total-insert_by le x (y ∷ ys) = ground (arith, total-insert_by le x ys)

  pub total-sort_by : (le : A → A → Bool) (xs : List A) → total f (sort_by le xs) ≡ total f xs
  total-sort_by le [] = refl
  total-sort_by le (x ∷ xs) =
      omega (arith, total-insert_by le x (sort_by le xs), total-sort_by le xs)

-- Sorting by a total preorder sorts.
module _ {ℓ} {A : Type ℓ} (le : A → A → Bool)
    (le_total : (x y : A) → le x y ≡ false → le y x ≡ true)
    (le_trans : (x y z : A) → le x y ≡ true → le y z ≡ true → le x z ≡ true) where
  insert_by-IsSortedBy :
      (x : A) (xs : List A) → IsSortedBy le xs → IsSortedBy le (insert_by le x xs)
  insert_by-IsSortedBy x [] h = (tt, tt)
  insert_by-IsSortedBy x (y ∷ ys) h = ground (
    arith,
    insert_by-IsSortedBy x ys h.1,
    le_total x y,
    All-map {P = λ z. le y z ≡ true} {Q = λ z. le x z ≡ true} ys,
    λ (p : le x y ≡ true). All-map ys (λ z. le_trans x y z p) h.0,
    λ (p : le y x ≡ true). All-insert_by (λ z. le y z ≡ true) le x ys p h.0,
  )

  pub sort_by-IsSortedBy : (xs : List A) → IsSortedBy le (sort_by le xs)
  sort_by-IsSortedBy [] = tt
  sort_by-IsSortedBy (x ∷ xs) = insert_by-IsSortedBy x (sort_by le xs) (sort_by-IsSortedBy xs)

-- Identifiers: membership and multiplicity.
abbrev pub contains : List ℕ → ℕ → Bool
contains xs a = any (λ x. x == a) xs

abbrev pub count : ℕ → List ℕ → ℕ
count a = total (λ x. if x == a then 1 else 0)

-- No identifier occurs twice.
abbrev pub IsUnique : List ℕ → Type 0
IsUnique xs = (a : ℕ) → count a xs ≤ 1

pub count-append : (a : ℕ) (ms ns : List ℕ) → count a (ms ++ ns) ≡ count a ms + count a ns
count-append a = total-append (λ x. if x == a then 1 else 0)

pub length-map {ℓ κ} :
    {A : Type ℓ} {B : Type κ} (f : A → B) (xs : List A) → length (map f xs) ≡ length xs
length-map f [] = refl
length-map f (x ∷ xs) = ap suc (length-map f xs)

pub List-cases {ℓ} : {A : Type ℓ} (l : List A) → (l ≡ []) ⊎ ((x : A) × (xs : List A) × (l ≡ x ∷ xs))
List-cases [] = inl refl
List-cases (x ∷ xs) = inr (x, xs, refl)
