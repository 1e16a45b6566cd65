-- ===== src/Rules.antt =====
-- The rule pack that is in force (backend/app/rules/pack.py). The payload is a parameter.
use niyam_ai.Base.{
  ℕ, ◌≢◌, Bool, false, ◌&&◌, Option, none, some, List, arith, Text, ◌==◌, find_where, Option-cases,
  inl, inr,
}

-- A row of `rule_pack`; a global one has no firm.
pub record PackRow (P : Type 0) : Type 0 where
  pub firm_id : Option ℕ
  pub version : Text
  pub payload : P
  pub active : Bool

pub record RulePack (P : Type 0) : Type 0 where
  pub version : Text
  pub payload : P
  pub firm_id : Option ℕ

abbrev pub is_firm_pack : {P : Type 0} → ℕ → PackRow P → Bool
is_firm_pack firm row = elim row.firm_id [ none ↦ false | some f ↦ f == firm && row.active ]

abbrev pub is_global_pack : {P : Type 0} → PackRow P → Bool
is_global_pack row = elim row.firm_id [ none ↦ row.active | some f ↦ false ]

-- `none` is NoActiveRulePackError.
unfoldable pub global_pack : {P : Type 0} → List (PackRow P) → Option (RulePack P)
global_pack rows = elim (find_where is_global_pack rows) [
  | none ↦ none
  | some row ↦ some (record { version = row.version; payload = row.payload; firm_id = none })
]

unfoldable pub get_active_rule_pack :
    {P : Type 0} → Option ℕ → List (PackRow P) → Option (RulePack P)
get_active_rule_pack none rows = global_pack rows
get_active_rule_pack (some firm) rows = elim (find_where (is_firm_pack firm) rows) [
  | none ↦ global_pack rows
  | some row ↦ some (record { version = row.version; payload = row.payload; firm_id = row.firm_id })
]

-- A deployment with a global pack has one for every firm.
get_active_rule_pack-some :
    {P : Type 0}
    → (firm : Option ℕ) (rows : List (PackRow P)) → global_pack rows ≢ none
    → get_active_rule_pack firm rows ≢ none
unfolding get_active_rule_pack
get_active_rule_pack-some none rows h k = h k
get_active_rule_pack-some (some firm) rows h k =
    elim (Option-cases (find_where (is_firm_pack firm) rows)) [
      | inl e ↦ h (ground (arith, e, k))
      | inr (row, e) ↦ ground (arith, e, k)
    ]
