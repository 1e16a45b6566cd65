-- ===== src/Recon/Passes/Cross.antt =====
-- The candidates that the nested loops collect.
use niyam_ai.Base.{
  ◌≡◌, Option, some, List, [], ◌∷◌, arith, All, All-append, All-of_append, Option-cases, inl, inr,
}
use niyam_ai.Recon.Lines.{RegisterLine, B2BLine}
use niyam_ai.Recon.Passes.{Candidate, cross_row, cross}

module _ {ℓ κ μ ν} {A : Type ℓ} (rank : RegisterLine → B2BLine → Option A)
    (P : RegisterLine → Type κ) (Q : B2BLine → Type μ) (T : Candidate A → Type ν) where
  pub All-cross_row :
      ((r : RegisterLine) (b : B2BLine) (a : A) → P r → Q b → rank r b ≡ some a → T (a, r, b))
      → (r : RegisterLine) (bs : List B2BLine) → P r
      → All Q bs
      → All T (cross_row rank r bs)
  unfolding cross_row
  All-cross_row f r [] p q = tt
  All-cross_row f r (b ∷ bs) p q = elim (Option-cases (rank r b)) [
    | inl out ↦ rw (out, cross_row) (All-cross_row f r bs p q.1)
    | inr (a, e) ↦ rw (e, cross_row) (f r b a p q.0 e, All-cross_row f r bs p q.1)
  ]

  pub All-cross :
      ((r : RegisterLine) (b : B2BLine) (a : A) → P r → Q b → rank r b ≡ some a → T (a, r, b))
      → (rs : List RegisterLine) (bs : List B2BLine) → All P rs
      → All Q bs
      → All T (cross rank rs bs)
  unfolding cross
  All-cross f [] bs p q = tt
  All-cross f (r ∷ rs) bs p q =
      All-append T (cross_row rank r bs) (cross rank rs bs) (All-cross_row f r bs p.0 q)
        (All-cross f rs bs p.1 q)

module _ {ℓ κ} {A : Type ℓ} (rank : RegisterLine → B2BLine → Option A)
    (T : Candidate A → Type κ) where
  All-of_cross_row :
      (r : RegisterLine) (bs : List B2BLine)
      → All T (cross_row rank r bs)
      → All (λ b. (a : A) → rank r b ≡ some a → T (a, r, b)) bs
  unfolding cross_row
  All-of_cross_row r [] h = tt
  All-of_cross_row r (b ∷ bs) h = elim (Option-cases (rank r b)) [
    | inl out ↦ (λ a e. cc (e, out), All-of_cross_row r bs (rw (out, cross_row) at h))
    | inr (a, e) ↦
        let k : T (a, r, b) × All T (cross_row rank r bs) = rw (e, cross_row) at h in
        (λ a' e'. ground (arith, k.0), All-of_cross_row r bs k.1)
  ]

  -- Every pair that the test admits is collected.
  pub All-of_cross :
      (rs : List RegisterLine) (bs : List B2BLine)
      → All T (cross rank rs bs)
      → All (λ r. All (λ b. (a : A) → rank r b ≡ some a → T (a, r, b)) bs) rs
  unfolding cross
  All-of_cross [] bs h = tt
  All-of_cross (r ∷ rs) bs h =
      let (row, rest) = All-of_append T (cross_row rank r bs) (cross rank rs bs) h in
      (All-of_cross_row r bs row, All-of_cross rs bs rest)
