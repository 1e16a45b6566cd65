-- ===== src/Filings/Gstr3b/Period.antt =====
-- The two spellings of a period: MMYYYY of GSTN and YYYYMM of the tables
-- (backend/app/filings/types.py, backend/app/ingestion/gstr2b_parser.py).
use niyam_ai.Base.{◌≡◌, ◌↔◌, some, [], ◌∷◌, arith, Text}
use niyam_ai.Ingestion.Gstr2b.{canonical_period}
use niyam_ai.Filings.Gstr3b.{to_gstn_period}

to_gstn_period-canonical :
    (p q : Text) → to_gstn_period p ≡ some q → canonical_period (some q) ≡ some p
unfolding to_gstn_period canonical_period
to_gstn_period-canonical [] q h = ground (arith, h)
to_gstn_period-canonical (a ∷ []) q h = ground (arith, h)
to_gstn_period-canonical (a ∷ b ∷ []) q h = ground (arith, h)
to_gstn_period-canonical (a ∷ b ∷ c ∷ []) q h = ground (arith, h)
to_gstn_period-canonical (a ∷ b ∷ c ∷ d ∷ []) q h = ground (arith, h)
to_gstn_period-canonical (a ∷ b ∷ c ∷ d ∷ e ∷ []) q h = ground (arith, h)
to_gstn_period-canonical (a ∷ b ∷ c ∷ d ∷ e ∷ f ∷ []) q h = ground (arith, h)
to_gstn_period-canonical (a ∷ b ∷ c ∷ d ∷ e ∷ f ∷ g ∷ p) q h = ground (arith, h)

canonical_period-gstn :
    (p q : Text) → canonical_period (some p) ≡ some q → to_gstn_period q ≡ some p
unfolding to_gstn_period canonical_period
canonical_period-gstn [] q h = ground (arith, h)
canonical_period-gstn (a ∷ []) q h = ground (arith, h)
canonical_period-gstn (a ∷ b ∷ []) q h = ground (arith, h)
canonical_period-gstn (a ∷ b ∷ c ∷ []) q h = ground (arith, h)
canonical_period-gstn (a ∷ b ∷ c ∷ d ∷ []) q h = ground (arith, h)
canonical_period-gstn (a ∷ b ∷ c ∷ d ∷ e ∷ []) q h = ground (arith, h)
canonical_period-gstn (a ∷ b ∷ c ∷ d ∷ e ∷ f ∷ []) q h = ground (arith, h)
canonical_period-gstn (a ∷ b ∷ c ∷ d ∷ e ∷ f ∷ g ∷ p) q h = ground (arith, h)

-- The period that a return is filed under and the one that the GSTR-2B parser reads are inverse:
-- one spells `p` in GSTN's way as `q` exactly when the other reads `q` as `p`.
pub to_gstn_period_inverse :
    (p q : Text) → (to_gstn_period p ≡ some q) ↔ (canonical_period (some q) ≡ some p)
to_gstn_period_inverse p q = (to_gstn_period-canonical p q, canonical_period-gstn q p)
