-- ===== src/Tests/Sample.antt =====
-- Floats as numbers of ten-thousandths, under which the engines run, and lines to reconcile.
use Prim.Native.Nat.{◌^◌}
use niyam_ai.Base.{
  ℕ, ◌+◌, ◌-◌, ◌*◌, ◌/◌, ◌≤◌, ◌≡◌, refl, true, false, List, [], ◌∷◌, arith, Text, codes, text_eq,
  Date, leb, Floats, if◌then◌else◌,
}
use niyam_ai.Recon.Lines.{ReconConfig, RegisterLine, B2BLine}
use niyam_ai.Scoring.Bounds.{IsRounding}

abbrev pub fixed : Floats
fixed = record {
  F = ℕ;
  of_nat = λ n. n * 10000;
  lit = λ m k. m * 10000 / 10 ^ k;
  add = λ a b. a + b;
  sub = λ a b. a - b;
  mul = λ a b. a * b / 10000;
  div = λ a b. a * 10000 / b;
  leb_F = leb;
  round_to = λ n x. x;
  nearest = λ x. (x + 5000) / 10000;
  trunc = λ x. x / 10000;
}

pub fixed_total : (x y : ℕ) → leb x y ≡ false → leb y x ≡ true
fixed_total x y h = ground arith

pub fixed_trans : (x y z : ℕ) → leb x y ≡ true → leb y z ≡ true → leb x z ≡ true
fixed_trans x y z h k = ground arith

pub fixed_refl : (x : ℕ) → leb x x ≡ true
fixed_refl x = ground arith

pub fixed_nearest : (x n : ℕ) → leb x (n * 10000) ≡ true → (x + 5000) / 10000 ≤ n
fixed_nearest x n h = ground arith

abbrev pub fixed-IsRounding : IsRounding fixed
fixed-IsRounding = record {
  order = record { leb_total = fixed_total; leb_trans = fixed_trans };
  zero-le-hundred = refl;
  leb_refl = fixed_refl;
  round_to-mono = λ n x y h. h;
  round_to-of_nat = λ n m. refl;
  nearest-le = fixed_nearest;
}

-- A stand-in for the matcher of the standard library: six tenths for texts that differ.
abbrev pub ratio : Text → Text → ℕ
ratio a b = if text_eq a b then 10000 else 6000

abbrev pub cfg : ReconConfig ℕ
cfg = record {
  exact_amount_tolerance_paise = 100;
  date_window_days = 5;
  amount_tolerance_percent = 10000;
  probable_confidence_threshold = 7000;
  number_similarity = 5000;
  date_closeness = 2500;
  amount_closeness = 2500;
}

abbrev pub day : ℕ → Date
day d = record { year = 2026; month = 6; day = d }

abbrev pub acme : Text
acme = codes "27AAPFU0939F1ZV"

abbrev pub line : ℕ → Text → Date → ℕ → RegisterLine
line id number date paise = record {
  invoice_id = id;
  supplier_gstin = acme;
  invoice_number = number;
  normalized_number = number;
  invoice_date = date;
  total_paise = paise;
}

abbrev pub entry : ℕ → Text → Date → ℕ → B2BLine
entry id number date paise = record {
  b2b_entry_id = id;
  supplier_gstin = acme;
  invoice_number = number;
  normalized_number = number;
  invoice_date = date;
  total_paise = paise;
  itc_available = true;
}

-- Two invoices of one number and date; the second has an entry of its own amount.
abbrev pub register : List RegisterLine
register =
    line 1 (codes "INV1") (day 3) 100000
    ∷ line 2 (codes "INV1") (day 3) 100050
    ∷ line 3 (codes "INV7") (day 9) 500000
    ∷ line 4 (codes "INV9") (day 9) 900000
    ∷ []

abbrev pub b2b : List B2BLine
b2b =
    entry 11 (codes "INV1") (day 3) 100050
    ∷ entry 12 (codes "INV1") (day 3) 100000
    ∷ entry 13 (codes "INV77") (day 9) 500000
    ∷ entry 14 (codes "ZZ") (day 28) 70
    ∷ []
