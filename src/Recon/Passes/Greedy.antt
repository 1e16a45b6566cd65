-- ===== src/Recon/Passes/Greedy.antt =====
-- The greedy loop of both passes: what it books, whom it takes and what it leaves open.
use niyam_ai.Base.{
  ℕ, ◌+◌, ◌≤◌, ◌≡◌, refl, true, false, List, [], ◌∷◌, map, contains, count, count-append, All,
  All-append, arith, Floats, Bool-cases, inl, inr,
}
use mathlib.Core.List.{map-append}
use niyam_ai.Recon.Lines.{RegisterLine, B2BLine, MatchPair}
use niyam_ai.Recon.Passes.{Candidate, Progress, is_taken, assign_one, assign}

pub count_absent : (a : ℕ) (xs : List ℕ) → contains xs a ≡ false → count a xs ≡ 0
count_absent a [] h = refl
count_absent a (x ∷ xs) h = ground (arith, count_absent a xs)

pub count_present : (a : ℕ) (xs : List ℕ) → contains xs a ≡ true → 1 ≤ count a xs
count_present a [] h = cc
count_present a (x ∷ xs) h = ground (arith, count_present a xs)

abbrev pub reg_ids : {F : Type 0} → List (MatchPair F) → List ℕ
reg_ids pairs = map (λ p. p.invoice_id) pairs

abbrev pub b2b_ids : {F : Type 0} → List (MatchPair F) → List ℕ
b2b_ids pairs = map (λ p. p.b2b_entry_id) pairs

-- The pairs that a pass added to `base` are those of its sets, and no identifier is in a set twice.
pub record IsBooked (fl : Floats) (a : ℕ) (base : List (MatchPair fl.F)) (s : Progress fl)
    : Type 0 where
  pub reg : count a (reg_ids s.pairs) ≡ count a (reg_ids base) + count a s.paired_reg
  pub b2b : count a (b2b_ids s.pairs) ≡ count a (b2b_ids base) + count a s.paired_b2b
  pub reg_once : count a s.paired_reg ≤ 1
  pub b2b_once : count a s.paired_b2b ≤ 1

module _ {ℓ} {A : Type ℓ} (fl : Floats) (pair : A → RegisterLine → B2BLine → MatchPair fl.F)
    (pair_reg : (x : A) (r : RegisterLine) (b : B2BLine) → (pair x r b).invoice_id ≡ r.invoice_id)
    (pair_b2b : (x : A) (r : RegisterLine) (b : B2BLine)
      → (pair x r b).b2b_entry_id ≡ b.b2b_entry_id) where
  assign_one-IsBooked :
      (a : ℕ) (base : List (MatchPair fl.F)) (t : Candidate A) (s : Progress fl)
      → IsBooked fl a base s
      → IsBooked fl a base (assign_one fl pair t s)
  unfolding assign_one
  assign_one-IsBooked a base (x, r, b) s h = ground (
    arith,
    pair_reg x r b,
    pair_b2b x r b,
    map-append (λ (p : MatchPair fl.F). p.invoice_id) s.pairs (pair x r b ∷ []),
    map-append (λ (p : MatchPair fl.F). p.b2b_entry_id) s.pairs (pair x r b ∷ []),
    count-append a (reg_ids s.pairs) (r.invoice_id ∷ []),
    count-append a (b2b_ids s.pairs) (b.b2b_entry_id ∷ []),
    count_absent a s.paired_reg,
    count_absent a s.paired_b2b,
  )

  pub assign-IsBooked :
      (a : ℕ) (base : List (MatchPair fl.F)) (ts : List (Candidate A)) (s : Progress fl)
      → IsBooked fl a base s
      → IsBooked fl a base (assign fl pair ts s)
  unfolding assign
  assign-IsBooked a base [] s h = h
  assign-IsBooked a base (t ∷ ts) s h =
      assign-IsBooked a base ts (assign_one fl pair t s) (assign_one-IsBooked a base t s h)

module _ {ℓ} {A : Type ℓ} (fl : Floats) (pair : A → RegisterLine → B2BLine → MatchPair fl.F) where
  assign_one-All {κ} :
      (P : MatchPair fl.F → Type κ) (t : Candidate A) (s : Progress fl)
      → P (pair t.0 t.1 t.2)
      → All P s.pairs
      → All P (assign_one fl pair t s).pairs
  unfolding assign_one
  assign_one-All P (x, r, b) s h k = elim (Bool-cases (is_taken fl s r b)) [
    | inl taken ↦ rw (taken, All) k
    | inr free ↦ rw (free, All) (All-append P s.pairs (pair x r b ∷ []) k (h, tt))
  ]

  -- What holds of the candidates holds of the pairs and of the identifiers that are taken.
  pub assign-All {κ} :
      (P : MatchPair fl.F → Type κ) (ts : List (Candidate A)) (s : Progress fl)
      → All (λ t. P (pair t.0 t.1 t.2)) ts
      → All P s.pairs
      → All P (assign fl pair ts s).pairs
  unfolding assign
  assign-All P [] s h k = k
  assign-All P (t ∷ ts) s h k =
      assign-All P ts (assign_one fl pair t s) h.1 (assign_one-All P t s h.0 k)

  assign_one-paired {κ} :
      (P Q : ℕ → Type κ) (t : Candidate A) (s : Progress fl)
      → P t.1.invoice_id × Q t.2.b2b_entry_id
      → All P s.paired_reg × All Q s.paired_b2b
      → All P (assign_one fl pair t s).paired_reg × All Q (assign_one fl pair t s).paired_b2b
  unfolding assign_one
  assign_one-paired P Q (x, r, b) s h k = elim (Bool-cases (is_taken fl s r b)) [
    | inl taken ↦ rw (taken, All) k
    | inr free ↦ rw (free, All) ((h.0, k.0), (h.1, k.1))
  ]

  pub assign-paired {κ} :
      (P Q : ℕ → Type κ) (ts : List (Candidate A)) (s : Progress fl)
      → All (λ t. P t.1.invoice_id × Q t.2.b2b_entry_id) ts
      → All P s.paired_reg × All Q s.paired_b2b
      → All P (assign fl pair ts s).paired_reg × All Q (assign fl pair ts s).paired_b2b
  unfolding assign
  assign-paired P Q [] s h k = k
  assign-paired P Q (t ∷ ts) s h k =
      assign-paired P Q ts (assign_one fl pair t s) h.1 (assign_one-paired P Q t s h.0 k)

  assign_one_taken :
      (t : Candidate A) (s : Progress fl) (r : RegisterLine) (b : B2BLine)
      → is_taken fl s r b ≡ true
      → is_taken fl (assign_one fl pair t s) r b ≡ true
  unfolding assign_one
  assign_one_taken (x, r', b') s r b h = ground arith

  -- What is taken stays taken.
  pub assign_taken :
      (ts : List (Candidate A)) (s : Progress fl) (r : RegisterLine) (b : B2BLine)
      → is_taken fl s r b ≡ true
      → is_taken fl (assign fl pair ts s) r b ≡ true
  unfolding assign
  assign_taken [] s r b h = h
  assign_taken (t ∷ ts) s r b h =
      assign_taken ts (assign_one fl pair t s) r b (assign_one_taken t s r b h)

  assign_one_takes :
      (t : Candidate A) (s : Progress fl) → is_taken fl (assign_one fl pair t s) t.1 t.2 ≡ true
  unfolding assign_one
  assign_one_takes (x, r, b) s = ground arith

  -- When the loop ends, every candidate has its invoice or its entry taken.
  pub assign_takes :
      (ts : List (Candidate A)) (s : Progress fl)
      → All (λ t. is_taken fl (assign fl pair ts s) t.1 t.2 ≡ true) ts
  unfolding assign
  assign_takes [] s = tt
  assign_takes (t ∷ ts) s = (
    assign_taken ts (assign_one fl pair t s) t.1 t.2 (assign_one_takes t s),
    assign_takes ts (assign_one fl pair t s),
  )
