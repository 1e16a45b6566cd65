-- ===== src/Base/Dates.antt =====
-- `datetime.date`: year, month and day, the day number that differences of dates go by, and the
-- order. Two dates have the same ISO text when they are the same date.
use Prim.Native.Nat.{ℕ, ◌+◌, ◌-◌, ◌*◌, ◌/◌, ◌%◌}
use mathlib.Core.Path.{◌≡◌}
use mathlib.Core.Bool.{Bool, true, ◌&&◌, ◌||◌, not}
use native.Mathlib.Omega.{arith}
use niyam_ai.Base.Tests.{◌==◌, ltb, leb, if◌then◌else◌}

pub record Date : Type 0 where
  pub year : ℕ
  pub month : ℕ
  pub day : ℕ

abbrev pub date_eq : Date → Date → Bool
date_eq a b = a.year == b.year && a.month == b.month && a.day == b.day

-- `a <= b`, on dates and on their ISO texts
abbrev pub date_leb : Date → Date → Bool
date_leb a b =
    if a.year == b.year
    then (if a.month == b.month then leb a.day b.day else leb a.month b.month)
    else leb a.year b.year

pub date_eq_sound : (a b : Date) → date_eq a b ≡ true → a ≡ b
date_eq_sound a b h = ground arith

abbrev is_leap : ℕ → Bool
is_leap y = y % 4 == 0 && (not (y % 100 == 0) || y % 400 == 0)

-- Days of the year before the month, by `datetime`'s table.
abbrev days_before_month : ℕ → ℕ → ℕ
days_before_month y m =
    let leap : ℕ = if ltb 2 m && is_leap y then 1 else 0 in
    (if m == 2
      then 31
      else if m == 3
      then 59
      else if m == 4
      then 90
      else if m == 5
      then 120
      else if m == 6
      then 151
      else if m == 7
      then 181
      else if m == 8
      then 212
      else if m == 9
      then 243
      else if m == 10
      then 273
      else if m == 11
      then 304
      else if m == 12
      then 334
      else 0)
    + leap

-- `date.toordinal()`
unfoldable pub ordinal : Date → ℕ
ordinal d =
    let y = d.year - 1 in
    y * 365 + y / 4 - y / 100 + y / 400 + days_before_month d.year d.month + d.day

-- `abs(a - b)` on numbers
abbrev pub dist : ℕ → ℕ → ℕ
dist a b = if leb a b then b - a else a - b

-- `abs((a - b).days)`
unfoldable pub days_apart : Date → Date → ℕ
days_apart a b = dist (ordinal a) (ordinal b)

pub days_apart_comm : (a b : Date) → days_apart a b ≡ days_apart b a
unfolding days_apart
days_apart_comm a b = ground arith
