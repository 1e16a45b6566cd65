-- ===== src/Ingestion/Numbers/Machine.antt =====
-- The runs of `normalize_invoice_number` against a machine that reads one character at a time and
-- remembers whether it is in a run of digits and has printed a digit of it.
use niyam_ai.Base.{
  ℕ, zero, suc, ◌≤◌, ◌≡◌, refl, Bool, true, false, [], ◌∷◌, ◌++◌, arith, Text, is_digit, strip_left,
  length, ◌==◌, if◌then◌else◌, All,
}
use niyam_ai.Ingestion.Numbers.{take_while, trim_zeros, is_other, walk_runs}

pub data Mode : Type 0 where
  outside zeros inside : Mode

unfoldable pub canonical : Mode → Text → Text
canonical zeros [] = b'0' ∷ []
canonical outside [] = []
canonical inside [] = []
canonical m (c ∷ s) =
    let skipped = canonical zeros s in
    let digit = canonical inside s in
    let other = canonical outside s in
    elim (is_digit c) [
      | true ↦ elim m [ inside ↦ c ∷ digit | _ ↦ if c == b'0' then skipped else c ∷ digit ]
      | false ↦ elim m [ zeros ↦ b'0' ∷ c ∷ other | _ ↦ c ∷ other ]
    ]

length-strip_left_le : (p : ℕ → Bool) (s : Text) → length (strip_left p s) ≤ length s
length-strip_left_le p [] = omega arith
length-strip_left_le p (c ∷ s) = ground (arith, length-strip_left_le p s)

canonical-inside :
    (s : Text)
    → canonical inside s ≡ take_while is_digit s ++ canonical outside (strip_left is_digit s)
unfolding canonical
canonical-inside [] = refl
canonical-inside (c ∷ s) = ground (arith, canonical-inside s)

canonical-zeros :
    (s : Text)
    → canonical zeros s
      ≡ trim_zeros (take_while is_digit s) ++ canonical outside (strip_left is_digit s)
unfolding canonical
canonical-zeros [] = refl
canonical-zeros (c ∷ s) = ground (arith, canonical-zeros s, canonical-inside s)

canonical-digits :
    (c : ℕ) (s : Text)
    → is_digit c ≡ true
    → canonical outside (c ∷ s)
      ≡ trim_zeros (take_while is_digit (c ∷ s)) ++ canonical outside (strip_left is_digit (c ∷ s))
unfolding canonical
canonical-digits c s h = ground (arith, canonical-zeros s, canonical-inside s)

canonical-others :
    (s : Text)
    → canonical outside s ≡ take_while is_other s ++ canonical outside (strip_left is_other s)
unfolding canonical
canonical-others [] = refl
canonical-others (c ∷ s) = ground (arith, canonical-others s)

-- With fuel for every character the loops over runs compute what the machine `canonical` does, which
-- reads each character once and drops the zeros that lead a run of digits, but for a last one.
pub walk_runs-canonical :
    (fuel : ℕ) (s : Text) → length s ≤ fuel → walk_runs fuel s ≡ canonical outside s
unfolding walk_runs
walk_runs-canonical zero [] h = unfold canonical in refl
walk_runs-canonical zero (c ∷ s) h = absurd (omega arith)
walk_runs-canonical (suc fuel) [] h = unfold canonical in refl
walk_runs-canonical (suc fuel) (c ∷ s) h = ground (
  arith,
  canonical-digits c s,
  canonical-others (c ∷ s),
  walk_runs-canonical fuel (strip_left is_digit s),
  walk_runs-canonical fuel (strip_left is_other s),
  length-strip_left_le is_digit s,
  length-strip_left_le is_other s,
)

-- What the machine prints it leaves alone when it reads it again.
mutual
  unfolding canonical

  pub canonical-outside_idem :
      (s : Text) → canonical outside (canonical outside s) ≡ canonical outside s
  canonical-outside_idem [] = refl
  canonical-outside_idem (c ∷ s) =
      ground (arith, canonical-outside_idem s, canonical-zeros_idem s, canonical-inside_idem s)

  canonical-zeros_idem : (s : Text) → canonical outside (canonical zeros s) ≡ canonical zeros s
  canonical-zeros_idem [] = refl
  canonical-zeros_idem (c ∷ s) =
      ground (arith, canonical-outside_idem s, canonical-zeros_idem s, canonical-inside_idem s)

  canonical-inside_idem : (s : Text) → canonical inside (canonical inside s) ≡ canonical inside s
  canonical-inside_idem [] = refl
  canonical-inside_idem (c ∷ s) = ground (arith, canonical-outside_idem s, canonical-inside_idem s)

-- The machine prints characters that it read, and zeros.
pub All-canonical {ℓ} :
    (P : ℕ → Type ℓ) (m : Mode) (s : Text) → P b'0' → All P s → All P (canonical m s)
unfolding canonical
All-canonical P outside [] z h = tt
All-canonical P zeros [] z h = (z, tt)
All-canonical P inside [] z h = tt
All-canonical P m (c ∷ s) z h = ground (
  arith,
  All-canonical P outside s z h.1,
  All-canonical P zeros s z h.1,
  All-canonical P inside s z h.1,
)
