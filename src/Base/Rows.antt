-- ===== src/Base/Rows.antt =====
-- Tables as lists of rows: `SELECT … WHERE` with one row expected, and `UPDATE … WHERE`.
use mathlib.Core.Path.{◌≡◌, refl, subst}
use mathlib.Core.Bool.{Bool, true, false}
use mathlib.Core.Logic.{inl, inr}
use mathlib.Core.Option.{Option, none, some}
use mathlib.Core.List.{List, [], ◌∷◌, ◌++◌}
use native.Mathlib.Omega.{arith}
use niyam_ai.Base.Tests.{Bool-cases, if◌then◌else◌}
use niyam_ai.Base.Lists.{All, length}

abbrev pub is_some {ℓ} : {A : Type ℓ} → Option A → Bool
is_some none = false
is_some (some a) = true

module _ {ℓ} {A : Type ℓ} where
  abbrev pub find_where : (A → Bool) → List A → Option A
  find_where q [] = none
  find_where q (x ∷ xs) = let rest = find_where q xs in if q x then some x else rest

  abbrev pub update_where : (A → Bool) → (A → A) → List A → List A
  update_where p f [] = []
  update_where p f (x ∷ xs) = (if p x then f x else x) ∷ update_where p f xs

  -- What an update does to the row that a query finds.
  abbrev pub updated : (A → Bool) → (A → A) → Option A → Option A
  updated p f none = none
  updated p f (some x) = some (if p x then f x else x)

  pub find_where-update_where :
      (q p : A → Bool) (f : A → A) (xs : List A)
      → ((x : A) → q (f x) ≡ q x)
      → find_where q (update_where p f xs) ≡ updated p f (find_where q xs)
  find_where-update_where q p f [] keeps = refl
  find_where-update_where q p f (x ∷ xs) keeps =
      ground (arith, find_where-update_where q p f xs keeps, keeps x)

  pub find_where-append :
      (q : A → Bool) (xs ys : List A) (x : A)
      → find_where q xs ≡ some x
      → find_where q (xs ++ ys) ≡ some x
  find_where-append q [] ys x h = cc
  find_where-append q (z ∷ xs) ys x h = ground (arith, find_where-append q xs ys x)

  pub find_where-append_none :
      (q : A → Bool) (xs ys : List A)
      → find_where q xs ≡ none
      → find_where q (xs ++ ys) ≡ find_where q ys
  find_where-append_none q [] ys h = refl
  find_where-append_none q (z ∷ xs) ys h = ground (arith, find_where-append_none q xs ys)

  pub find_where-passes :
      (q : A → Bool) (xs : List A) (x : A) → find_where q xs ≡ some x → q x ≡ true
  find_where-passes q [] x h = cc
  find_where-passes q (z ∷ xs) x h = ground (arith, find_where-passes q xs x)

  pub length-update_where :
      (p : A → Bool) (f : A → A) (xs : List A) → length (update_where p f xs) ≡ length xs
  length-update_where p f [] = refl
  length-update_where p f (x ∷ xs) = ground (arith, length-update_where p f xs)

  pub All-found {κ} :
      (P : A → Type κ) (q : A → Bool) (xs : List A) (x : A)
      → All P xs
      → find_where q xs ≡ some x
      → P x
  All-found P q [] x h e = cc
  All-found P q (z ∷ xs) x h e = elim (Bool-cases (q z)) [
    | inl hit ↦ subst P (ground (arith, e, hit)) h.0
    | inr out ↦ All-found P q xs x h.1 (ground (arith, e, out))
  ]

  -- The update of a row that was just added takes it and no other.
  pub update_where-added :
      (p : A → Bool) (f : A → A) (xs : List A) (a : A)
      → find_where p xs ≡ none
      → p a ≡ true
      → update_where p f (xs ++ a ∷ []) ≡ xs ++ f a ∷ []
  update_where-added p f [] a e h = ground (arith, h)
  update_where-added p f (x ∷ xs) a e h = ground (arith, e, h, update_where-added p f xs a)

  pub find_where-update_where_out :
      (p : A → Bool) (f : A → A) (xs : List A)
      → ((x : A) → p (f x) ≡ false)
      → find_where p (update_where p f xs) ≡ none
  find_where-update_where_out p f [] out = refl
  find_where-update_where_out p f (x ∷ xs) out =
      ground (arith, out x, find_where-update_where_out p f xs out)
