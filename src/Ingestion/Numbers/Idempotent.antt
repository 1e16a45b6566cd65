-- ===== src/Ingestion/Numbers/Idempotent.antt =====
-- Normalising twice (backend/app/ingestion/canonical.py, `normalize_invoice_number`).
use mathlib.Core.List.{append-nil, map-append, reverse-reverse, reverse-cons}
use niyam_ai.Base.{
  ℕ, ◌≡◌, refl, ◌∙◌, ap, Bool, true, false, not, some, [], ◌∷◌, ◌++◌, map, reverse, arith, Text,
  is_space, upper, strip, strip_left, or_else, length, keep, All, All-append,
}
use niyam_ai.Ingestion.Numbers.{is_separator, cleaned, walk_runs, normalize_invoice_number}
use niyam_ai.Ingestion.Numbers.Machine.{
  canonical, outside, walk_runs-canonical, canonical-outside_idem, All-canonical,
}

-- A character that cleaning leaves in place.
abbrev IsClean : ℕ → Type 0
IsClean c = (is_separator c ≡ false) × (upper c ≡ c)

upper-IsClean : (c : ℕ) → is_separator c ≡ false → IsClean (upper c)
upper-IsClean c h = ground arith

All-cleaned : (s : Text) → All IsClean (map upper (keep (λ c. not (is_separator c)) s))
All-cleaned [] = tt
All-cleaned (c ∷ s) = ground (arith, All-cleaned s, upper-IsClean c)

strip_left_clean : (s : Text) → All IsClean s → strip_left is_space s ≡ s
strip_left_clean [] h = refl
strip_left_clean (c ∷ s) h = ground arith

All-reverse {ℓ} : (P : ℕ → Type ℓ) (s : Text) → All P s → All P (reverse s)
All-reverse P [] h = tt
All-reverse P (c ∷ s) h =
    rw reverse-cons (All-append P (reverse s) (c ∷ []) (All-reverse P s h.1) (h.0, tt))

strip_clean : (s : Text) → All IsClean s → strip s ≡ s
strip_clean s h =
    rw (
      strip_left_clean s h,
      strip_left_clean (reverse s) (All-reverse IsClean s h),
      reverse-reverse,
    )

map-upper_clean : (s : Text) → All IsClean s → map upper s ≡ s
map-upper_clean [] h = refl
map-upper_clean (c ∷ s) h = ground (arith, map-upper_clean s h.1)

keep_clean : (s : Text) → All IsClean s → keep (λ c. not (is_separator c)) s ≡ s
keep_clean [] h = refl
keep_clean (c ∷ s) h = ground (arith, keep_clean s h.1)

cleaned_clean : (s : Text) → All IsClean s → cleaned s ≡ s
unfolding cleaned
cleaned_clean s h = rw (strip_clean s h, keep_clean s h, map-upper_clean s h)

normalize_machine :
    (raw : Text)
    → normalize_invoice_number (some raw) ≡ or_else (canonical outside (cleaned raw)) (b'0' ∷ [])
unfolding normalize_invoice_number
normalize_machine raw = rw (walk_runs-canonical (length (cleaned raw)) (cleaned raw) (omega arith))

or_else_idem :
    (s : Text)
    → canonical outside s ≡ s
    → or_else (canonical outside (or_else s (b'0' ∷ []))) (b'0' ∷ []) ≡ or_else s (b'0' ∷ [])
or_else_idem [] h = unfold canonical in refl
or_else_idem (c ∷ s) h = rw h

All-or_else : (s : Text) → All IsClean s → All IsClean (or_else s (b'0' ∷ []))
All-or_else [] h = ((refl, refl), tt)
All-or_else (c ∷ s) h = h

-- A normalised invoice number is its own normal form.
pub normalize_invoice_number_idem :
    (raw : Text)
    → normalize_invoice_number (some (normalize_invoice_number (some raw)))
      ≡ normalize_invoice_number (some raw)
normalize_invoice_number_idem raw =
    let out = canonical outside (cleaned raw) in
    let clean : All IsClean out =
      All-canonical IsClean outside (cleaned raw) (refl, refl)
        (unfold cleaned in All-cleaned (strip raw)) in
    rw
      (
        normalize_machine (normalize_invoice_number (some raw)),
        normalize_machine raw,
        cleaned_clean (or_else out (b'0' ∷ [])) (All-or_else out clean),
      )
      (or_else_idem out (canonical-outside_idem (cleaned raw)))

-- Cleaning is one filter: what `strip` removes is a separator.
keep-strip_left :
    (s : Text)
    → keep (λ c. not (is_separator c)) (strip_left is_space s) ≡ keep (λ c. not (is_separator c)) s
keep-strip_left [] = refl
keep-strip_left (c ∷ s) = ground (arith, keep-strip_left s)

keep-append : (p : ℕ → Bool) (s t : Text) → keep p (s ++ t) ≡ keep p s ++ keep p t
keep-append p [] t = refl
keep-append p (c ∷ s) t = ground (arith, keep-append p s t)

keep-reverse : (p : ℕ → Bool) (s : Text) → keep p (reverse s) ≡ reverse (keep p s)
keep-reverse p [] = refl
keep-reverse p (c ∷ s) =
    rw (reverse-cons, keep-append p (reverse s) (c ∷ []), keep-reverse p s)
      (ground (arith, reverse-cons c (keep p s), append-nil (reverse (keep p s))))

keep-strip :
    (s : Text) → keep (λ c. not (is_separator c)) (strip s) ≡ keep (λ c. not (is_separator c)) s
keep-strip s =
    let p : ℕ → Bool = λ c. not (is_separator c) in
    keep-reverse p (strip_left is_space (reverse (strip_left is_space s)))
    ∙ ap reverse (
        keep-strip_left (reverse (strip_left is_space s))
        ∙ keep-reverse p (strip_left is_space s)
        ∙ ap reverse (keep-strip_left s))
    ∙ reverse-reverse (keep p s)

map-upper_step :
    (c : ℕ) (s : Text)
    → map upper (keep (λ c. not (is_separator c)) (c ∷ s))
      ≡ map upper (keep (λ c. not (is_separator c)) (upper c ∷ s))
map-upper_step c s = ground arith

-- A separator at any place of the number makes no difference, and neither does the case of a
-- character at any place.
normalize_invoice_number_variant :
    (xs ys : Text) (c d : ℕ)
    → is_separator d ≡ true
    → (normalize_invoice_number (some (xs ++ d ∷ ys)) ≡ normalize_invoice_number (some (xs ++ ys)))
      × (normalize_invoice_number (some (xs ++ c ∷ ys))
          ≡ normalize_invoice_number (some (xs ++ upper c ∷ ys)))
unfolding normalize_invoice_number cleaned
normalize_invoice_number_variant xs ys c d h = (ap finish separator, ap finish case)
  where
    p : ℕ → Bool
    p = λ c. not (is_separator c)

    finish : Text → Text
    finish s = or_else (walk_runs (length s) s) (b'0' ∷ [])

    separator : map upper (keep p (strip (xs ++ d ∷ ys))) ≡ map upper (keep p (strip (xs ++ ys)))
    separator =
        rw
          (
            keep-strip (xs ++ d ∷ ys),
            keep-strip (xs ++ ys),
            keep-append p xs (d ∷ ys),
            keep-append p xs ys,
            h,
          )
          refl

    case :
        map upper (keep p (strip (xs ++ c ∷ ys))) ≡ map upper (keep p (strip (xs ++ upper c ∷ ys)))
    case =
        rw
          (
            keep-strip (xs ++ c ∷ ys),
            keep-strip (xs ++ upper c ∷ ys),
            keep-append p xs (c ∷ ys),
            keep-append p xs (upper c ∷ ys),
            map-append,
          )
          (rw map-append (ap (λ t. map upper (keep p xs) ++ t) (map-upper_step c ys)))
