-- ===== src/Gsp/Periods.antt =====
-- The periods that are due for a pull, and those offered after a connection
-- (backend/app/gsp/service.py). The rule pack's generation day and number of periods are arguments.
use niyam_ai.Base.{
  ℕ, zero, suc, ◌+◌, ◌-◌, ◌*◌, ◌/◌, ◌%◌, ◌≤◌, ◌<◌, ◌≡◌, ◌≢◌, refl, ap, ◌∙◌, Bool, true, false, not,
  ◌&&◌, List, [], ◌∷◌, map, arith, Text, Date, text_eq, take, drop, keep, any, ◌==◌, ==_iff,
  Bool-cases, inl, inr, leb, if◌then◌else◌,
}
use niyam_ai.Gsp.Pull.{succeeded, PullAttempt}

-- `int` of a text of digits
abbrev number_from : ℕ → Text → ℕ
number_from n [] = n
number_from n (c ∷ s) = number_from (n * 10 + (c - 48)) s

unfoldable pub number_of : Text → ℕ
number_of s = number_from 0 s

-- `f"{y:04d}{m:02d}"`, at most four and two digits
unfoldable pub period_text : ℕ → ℕ → Text
period_text y m =
    (48 + y / 1000 % 10)
    ∷ (48 + y / 100 % 10)
    ∷ (48 + y / 10 % 10)
    ∷ (48 + y % 10)
    ∷ (48 + m / 10 % 10)
    ∷ (48 + m % 10)
    ∷ []

unfoldable pub period_for : Date → Text
period_for d = period_text d.year d.month

unfoldable pub prev_period : Text → Text
prev_period period =
    let y = number_of (take 4 period) in
    let m = number_of (drop 4 period) in
    if m == 1 then period_text (y - 1) 12 else period_text y (m - 1)

unfoldable pub due_periods_for_today : ℕ → Date → List Text
due_periods_for_today day today =
    if leb day today.day then prev_period (period_for today) ∷ [] else []

-- Is there a succeeded attempt for the period?
unfoldable pub is_pulled : ℕ → Text → List PullAttempt → Bool
is_pulled profile period attempts =
    any
      (λ a.
        a.gstin_profile_id == profile
        && text_eq a.period period
        && elim a.status [ succeeded ↦ true | _ ↦ false ])
      attempts

-- `n` periods backwards.
unfoldable pub walk_back : ℕ → Text → List Text
walk_back zero p = []
walk_back (suc n) p = p ∷ walk_back n (prev_period p)

unfoldable pub newest_generated : ℕ → Date → Text
newest_generated gen_day today =
    if leb gen_day today.day
    then prev_period (period_for today)
    else prev_period (prev_period (period_for today))

-- The periods of the plan, without their labels.
unfoldable pub backfill_plan : ℕ → ℕ → ℕ → List PullAttempt → Date → List Text
backfill_plan n gen_day profile attempts today =
    keep (λ p. not (is_pulled profile p attempts)) (walk_back n (newest_generated gen_day today))

-- Months counted from January of the year 0, which is 1.
abbrev pub month_index : Date → ℕ
month_index d = d.year * 12 + d.month

abbrev pub period_at : ℕ → Text
period_at i = period_text ((i - 1) / 12) ((i - 1) % 12 + 1)

-- `n` numbers from `i` downwards.
abbrev pub count_down : ℕ → ℕ → List ℕ
count_down zero i = []
count_down (suc n) i = i ∷ count_down n (i - 1)

abbrev IsPeriod : ℕ → ℕ → Type 0
IsPeriod y m = (y < 10000) × (1 ≤ m) × (m ≤ 12)

number_of-period_text :
    (y m : ℕ)
    → IsPeriod y m
    → (number_of (take 4 (period_text y m)) ≡ y) × (number_of (drop 4 (period_text y m)) ≡ m)
unfolding number_of period_text
number_of-period_text y m h = (omega (arith, h.0), omega (arith, h.1, h.2))

prev_period-period_text :
    (y m : ℕ)
    → IsPeriod y m
    → prev_period (period_text y m)
      ≡ (if m == 1 then period_text (y - 1) 12 else period_text y (m - 1))
unfolding prev_period
prev_period-period_text y m h =
    let (year, month) = number_of-period_text y m h in ground (arith, year, month)

prev_period-period_at : (i : ℕ) → 2 ≤ i → i ≤ 120000 → prev_period (period_at i) ≡ period_at (i - 1)
prev_period-period_at i low high =
    prev_period-period_text ((i - 1) / 12) ((i - 1) % 12 + 1)
      (omega (arith, high), omega arith, omega arith)
    ∙ elim (Bool-cases ((i - 1) % 12 + 1 == 1)) [
      | inl january ↦
          let m : (i - 1) % 12 + 1 ≡ 1 = (==_iff ((i - 1) % 12 + 1) 1).0 january in
          let y' : (i - 1) / 12 - 1 ≡ (i - 1 - 1) / 12 = omega (arith, m, low) in
          let m' : 12 ≡ (i - 1 - 1) % 12 + 1 = omega (arith, m, low) in
          ground (arith, january, y', m')
      | inr later ↦
          let m : (i - 1) % 12 + 1 ≢ 1 = ground (arith, later) in
          let y' : (i - 1) / 12 ≡ (i - 1 - 1) / 12 = omega (arith, m, low) in
          let m' : (i - 1) % 12 + 1 - 1 ≡ (i - 1 - 1) % 12 + 1 = omega (arith, m, low) in
          ground (arith, later, y', m')
    ]

period_for-period_at :
    (d : Date) → 1 ≤ d.month → d.month ≤ 12 → period_for d ≡ period_at (month_index d)
unfolding period_for
period_for-period_at d low high =
    let y : d.year ≡ (d.year * 12 + d.month - 1) / 12 = omega (arith, low, high) in
    let m : d.month ≡ (d.year * 12 + d.month - 1) % 12 + 1 = omega (arith, low, high) in cc (y, m)

walk_back-period_at :
    (n i : ℕ) → n ≤ i → i ≤ 120000 → walk_back n (period_at i) ≡ map period_at (count_down n i)
unfolding walk_back
walk_back-period_at zero i h k = refl
walk_back-period_at (suc zero) i h k = refl
walk_back-period_at (suc (suc n)) i h k =
    ap (λ l. period_at i ∷ l)
      (ap (walk_back (suc n)) (prev_period-period_at i (omega (arith, h)) k)
        ∙ walk_back-period_at (suc n) (i - 1) (omega (arith, h)) (omega (arith, k)))

-- The plan after a connection offers, of the `n` periods that precede the current month (or, before
-- the generation day, the last complete one of those), newest first and each once, those that have
-- no succeeded pull. The periods are computed on texts, and are those of the calendar, down to the
-- month that the year 0 begins with.
pub backfill_plan_periods :
    (n gen_day profile : ℕ) (attempts : List PullAttempt) (today : Date)
    → 1 ≤ today.month
    → today.month ≤ 12
    → today.year < 10000
    → n + 2 < month_index today
    → backfill_plan n gen_day profile attempts today
      ≡ keep
          (λ p. not (is_pulled profile p attempts))
          (map period_at
            (count_down n (month_index today - (if leb gen_day today.day then 1 else 2))))
unfolding backfill_plan newest_generated
backfill_plan_periods n gen_day profile attempts today low high year room =
    let i = month_index today in
    let this = period_for-period_at today low high in
    let before = prev_period-period_at i (omega (arith, room)) (omega (arith, year, high)) in
    let before' = prev_period-period_at (i - 1) (omega (arith, room)) (omega (arith, year, high)) in
    elim (Bool-cases (leb gen_day today.day)) [
      | inl past ↦
          let walk =
            walk_back-period_at n (i - 1) (omega (arith, room)) (omega (arith, year, high)) in
          ground (arith, past, this, before, walk)
      | inr early ↦
          let walk =
            walk_back-period_at n (i - 1 - 1) (omega (arith, room)) (omega (arith, year, high)) in
          let two : i - 1 - 1 ≡ i - 2 = omega arith in
          ground (arith, early, this, before, before', walk, two)
    ]
