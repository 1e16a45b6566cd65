-- ===== src/Validation/Rules/Slabs.antt =====
-- The turnover slabs of R004 in the pack that a fresh deploy seeds
-- (backend/app/rules/default_pack.py).
use niyam_ai.Base.{ℕ, ◌*◌, ◌≤◌, ◌<◌, ◌≡◌, none, some, List, [], ◌∷◌, arith, Floats}
use niyam_ai.Validation.Context.{HsnSlab, ValidationContext, error, warning}
use niyam_ai.Validation.Rules.{pick_hsn_slab, first_covering, hsn_severity, hsn_min_digits, crore}

abbrev pub default_slabs : List HsnSlab
default_slabs =
    (record { max_turnover_crores = some 5; severity = some warning; min_digits = some 4 })
    ∷ (record { max_turnover_crores = none; severity = some error; min_digits = some 6 })
    ∷ []

-- With the seeded slabs a missing or short HSN code is a warning below four digits for a turnover
-- of up to five crores, and an error below six digits for a larger one.
default_slabs_hsn :
    (fl : Floats) (ctx : ValidationContext fl.F) (turnover : ℕ)
    → ctx.validation_config.turnover_slabs ≡ default_slabs
    → ctx.annual_turnover_paise ≡ some turnover
    → (turnover ≤ 5 * crore → (hsn_severity fl ctx ≡ warning) × (hsn_min_digits fl ctx ≡ 4))
      × (5 * crore < turnover → (hsn_severity fl ctx ≡ error) × (hsn_min_digits fl ctx ≡ 6))
unfolding pick_hsn_slab first_covering
default_slabs_hsn fl ctx turnover h k =
    (λ le. rw (h, k) (ground arith), λ lt. rw (h, k) (ground arith))
