-- ===== src/Scoring/Bounds.antt =====
-- The score and its components are percentages (backend/app/engines/scoring/calculator.py).
use niyam_ai.Base.{
  ℕ, zero, suc, ◌≤◌, ◌≡◌, subst, Bool, true, false, List, [], ◌∷◌, arith, All, Floats, IsOrdered,
  ◌==◌, if◌then◌else◌,
}
use niyam_ai.Scoring.Inputs.{ℤ, pos, negsuc, ScoreInputs}
use niyam_ai.Scoring.Calculator.{
  clip, pass_rate, match_rate, completeness, risk_score, days_score, raw_components, breakdown,
  compute_score,
}

-- What rounding does on the floats other than NaN: it keeps the order and the whole numbers.
pub record IsRounding (fl : Floats) : Type 0 where
  pub order : IsOrdered fl
  pub zero-le-hundred : fl.leb_F (fl.of_nat 0) (fl.of_nat 100) ≡ true
  pub leb_refl : (x : fl.F) → fl.leb_F x x ≡ true
  pub round_to-mono :
      (n : ℕ) (x y : fl.F)
      → fl.leb_F x y ≡ true
      → fl.leb_F (fl.round_to n x) (fl.round_to n y) ≡ true
  pub round_to-of_nat : (n m : ℕ) → fl.round_to n (fl.of_nat m) ≡ fl.of_nat m
  pub nearest-le : (x : fl.F) (n : ℕ) → fl.leb_F x (fl.of_nat n) ≡ true → fl.nearest x ≤ n

module _ (fl : Floats) (laws : IsRounding fl) where
  abbrev IsPercent : fl.F → Type 0
  IsPercent x = (fl.leb_F (fl.of_nat 0) x ≡ true) × (fl.leb_F x (fl.of_nat 100) ≡ true)

  clip-IsPercent : (x : fl.F) → IsPercent (clip fl x)
  unfolding clip
  clip-IsPercent x = ground (
    arith,
    laws.zero-le-hundred,
    laws.leb_refl (fl.of_nat 0),
    laws.leb_refl (fl.of_nat 100),
    laws.order.leb_total (fl.of_nat 100) x,
    laws.order.leb_total x (fl.of_nat 0),
    laws.order.leb_total (fl.of_nat 100) (fl.of_nat 0),
  )

  round-IsPercent : (n : ℕ) (x : fl.F) → IsPercent x → IsPercent (fl.round_to n x)
  round-IsPercent n x (lo, hi) = (
    subst (λ z. fl.leb_F z (fl.round_to n x) ≡ true) (laws.round_to-of_nat n 0)
        (laws.round_to-mono n (fl.of_nat 0) x lo),
    subst (λ z. fl.leb_F (fl.round_to n x) z ≡ true) (laws.round_to-of_nat n 100)
        (laws.round_to-mono n x (fl.of_nat 100) hi),
  )

  rounded_clip : (x : fl.F) → IsPercent (fl.round_to 2 (clip fl x))
  rounded_clip x = round-IsPercent 2 (clip fl x) (clip-IsPercent x)

  hundred : IsPercent (fl.of_nat 100)
  hundred = (laws.zero-le-hundred, laws.leb_refl (fl.of_nat 100))

  nothing : IsPercent (fl.of_nat 0)
  nothing = (laws.leb_refl (fl.of_nat 0), laws.zero-le-hundred)

  choose : (b : Bool) (x y : fl.F) → IsPercent x → IsPercent y → IsPercent (if b then x else y)
  choose true x y p q = p
  choose false x y p q = q

  pass_rate-IsPercent : (n e w : ℕ) → IsPercent (pass_rate fl n e w)
  unfolding pass_rate
  pass_rate-IsPercent n e w = choose (n == 0) _ _ hundred (rounded_clip _)

  match_rate-IsPercent : (m t : ℕ) → IsPercent (match_rate fl m t)
  unfolding match_rate
  match_rate-IsPercent m t = choose (t == 0) _ _ hundred (rounded_clip _)

  completeness-IsPercent : (c : ℕ) (ns : List ℕ) → IsPercent (completeness fl c ns)
  unfolding completeness
  completeness-IsPercent c [] = hundred
  completeness-IsPercent c (n ∷ ns) = choose _ _ _ hundred (rounded_clip _)

  risk_score-IsPercent : (r t : ℕ) → IsPercent (risk_score fl r t)
  unfolding risk_score
  risk_score-IsPercent r t = choose (t == 0) _ _ hundred (rounded_clip _)

  days_score-IsPercent : (d : ℤ) (full : ℕ) → IsPercent (days_score fl d full)
  unfolding days_score
  days_score-IsPercent (negsuc n) full = nothing
  days_score-IsPercent (pos zero) full = nothing
  days_score-IsPercent (pos (suc n)) full = choose (full == 0) _ _ hundred (rounded_clip _)

  -- Under the laws of rounding, whatever the inputs and the pack's weights are, the score is at
  -- most 100 and each of the five components lies between 0 and 100.
  pub compute_score_bounds :
      (inp : ScoreInputs fl.F)
      → ((compute_score fl inp).score ≤ 100)
        × All
            (λ c.
              (fl.leb_F (fl.of_nat 0) c.value ≡ true) × (fl.leb_F c.value (fl.of_nat 100) ≡ true))
            (compute_score fl inp).components
  unfolding compute_score raw_components breakdown
  compute_score_bounds inp = (
    laws.nearest-le _ 100 (clip-IsPercent _).1,
    (
      pass_rate-IsPercent _ _ _,
      (
        match_rate-IsPercent _ _,
        (completeness-IsPercent _ _, (risk_score-IsPercent _ _, (days_score-IsPercent _ _, tt))),
      ),
    ),
  )
