-- ===== src/Scoring/Blockers.antt =====
-- The blockers of a return (backend/app/engines/scoring/calculator.py, `_derive_blockers`).
use niyam_ai.Base.{
  ℕ, ◌≡◌, ◌↔◌, refl, Bool, true, false, Option, none, some, List, [], ◌∷◌, ◌++◌, arith,
  text_leb_total, text_leb_trans, sort_by, insert_by, sort_by-IsSortedBy, IsSortedBy, ltb, ◌<◌, ◌⊎◌,
  text_leb, All, All-map,
}
use niyam_ai.Recon.Summary.{Summary}
use niyam_ai.Scoring.Inputs.{ℤ, pos, negsuc, Blocker, ScoreInputs}
use niyam_ai.Scoring.Calculator.{
  blocker_leb, when, probable_blockers, default_blockers, missing_blockers, is_imminent,
  collected_blockers, derive_blockers,
}

blocker_leb_total : (a b : Blocker) → blocker_leb a b ≡ false → blocker_leb b a ≡ true
blocker_leb_total a b h = ground (arith, text_leb_total a.code b.code)

blocker_leb_trans :
    (a b c : Blocker) → blocker_leb a b ≡ true → blocker_leb b c ≡ true → blocker_leb a c ≡ true
blocker_leb_trans a b c h k = ground (arith, text_leb_trans a.code b.code c.code)

-- The order of the list: more money at stake first, and of equal amounts the smaller code.
abbrev pub Precedes : Blocker → Blocker → Type 0
Precedes a b =
    (b.paise_impact < a.paise_impact)
    ⊎ (a.paise_impact ≡ b.paise_impact) × (text_leb a.code b.code ≡ true)

abbrev pub IsRanked : List Blocker → Type 0
IsRanked [] = Unit
IsRanked (b ∷ bs) = All (Precedes b) bs × IsRanked bs

blocker_leb-Precedes : (a b : Blocker) → blocker_leb a b ≡ true → Precedes a b
blocker_leb-Precedes a b h = ground arith

sorted-IsRanked : (bs : List Blocker) → IsSortedBy blocker_leb bs → IsRanked bs
sorted-IsRanked [] h = tt
sorted-IsRanked (b ∷ bs) h = (All-map bs (blocker_leb-Precedes b) h.0, sorted-IsRanked bs h.1)

-- The return is due in more than three days.
abbrev pub IsFarOff : ℤ → Type 0
IsFarOff d = (n : ℕ) × (d ≡ pos n) × (3 < n)

is_imminent_iff : (d : ℤ) → (is_imminent d ≡ false) ↔ IsFarOff d
is_imminent_iff (pos n) = (λ h. (n, refl, ground arith), λ h. ground (arith, h))
is_imminent_iff (negsuc n) = (λ h. cc, λ h. ground (arith, h))

-- Nothing stands in the way of the return.
abbrev pub IsClear : Option Summary → Type 0
IsClear none = Unit
IsClear (some s) =
    (s.probable.count ≡ 0) × (s.supplier_default.count ≡ 0) × (s.missing_entry.count ≡ 0)

append_nil : (xs ys : List Blocker) → (xs ++ ys ≡ []) ↔ ((xs ≡ []) × (ys ≡ []))
append_nil [] ys = (λ h. (refl, h), λ h. h.1)
append_nil (x ∷ xs) ys = (λ h. cc, λ h. cc (h.0))

when_nil : (b : Bool) (x : Blocker) → (when b x ≡ []) ↔ (b ≡ false)
when_nil true x = (λ h. cc, λ h. cc)
when_nil false x = (λ h. refl, λ h. refl)

sort_by_nil : (xs : List Blocker) → (sort_by blocker_leb xs ≡ []) ↔ (xs ≡ [])
sort_by_nil [] = (λ h. refl, λ h. refl)
sort_by_nil (x ∷ xs) = (λ h. insert_ne x (sort_by blocker_leb xs) h, λ h. cc)
  where
    insert_ne : (y : Blocker) (ys : List Blocker) → insert_by blocker_leb y ys ≡ [] → x ∷ xs ≡ []
    insert_ne y [] h = cc
    insert_ne y (z ∷ zs) h = ground arith

ltb_zero : (n : ℕ) → (ltb 0 n ≡ false) ↔ (n ≡ 0)
ltb_zero n = (λ h. ground arith, λ h. ground arith)

recon_blockers_nil :
    (s : Option Summary) (rest : List Blocker)
    → (probable_blockers s ++ (default_blockers s ++ (missing_blockers s ++ rest)) ≡ [])
      ↔ (IsClear s × (rest ≡ []))
unfolding probable_blockers default_blockers missing_blockers
recon_blockers_nil none rest = (λ h. (tt, h), λ h. h.1)
recon_blockers_nil (some s) rest = (λ h. ground arith, λ h. ground arith)

module _ {F : Type 0} (inp : ScoreInputs F) where
  -- The blockers stand in falling order of the money at stake, and equal amounts in the order of
  -- their codes. There is none exactly when no invoice has an error or a warning, no probable pair,
  -- no supplier default and no missing entry is open, and the return is due in over three days.
  pub derive_blockers-IsRanked :
      IsRanked (derive_blockers inp)
      × ((derive_blockers inp ≡ []) ↔ (
          (inp.validation_error_count ≡ 0)
          × (inp.validation_warning_count ≡ 0)
          × IsClear inp.recon_summary
          × IsFarOff inp.days_to_due_date))
  unfolding derive_blockers collected_blockers
  derive_blockers-IsRanked = (
    sorted-IsRanked _ (
        sort_by-IsSortedBy blocker_leb blocker_leb_total blocker_leb_trans
          (collected_blockers inp)),
    (
      λ h.
          let (e, r) = (append_nil _ _).0 ((sort_by_nil (collected_blockers inp)).0 h) in
          let (w, r') = (append_nil _ _).0 r in
          let (clear, d) = (recon_blockers_nil inp.recon_summary _).0 r' in
          (
            (ltb_zero inp.validation_error_count).0 ((when_nil _ _).0 e),
            (ltb_zero inp.validation_warning_count).0 ((when_nil _ _).0 w),
            clear,
            (is_imminent_iff inp.days_to_due_date).0 ((when_nil _ _).0 d),
          ),
      λ h. (sort_by_nil (collected_blockers inp)).1 (
          (append_nil _ _).1 (
            (when_nil _ _).1 ((ltb_zero inp.validation_error_count).1 h.0),
            (append_nil _ _).1 (
              (when_nil _ _).1 ((ltb_zero inp.validation_warning_count).1 h.1),
              (recon_blockers_nil inp.recon_summary _).1
                  (h.2, (when_nil _ _).1 ((is_imminent_iff inp.days_to_due_date).1 h.3)),
            ),
          )),
    ),
  )
