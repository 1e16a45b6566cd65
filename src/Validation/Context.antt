-- ===== src/Validation/Context.antt =====
-- What the rules read (backend/app/engines/validation/types.py). The rule pack's `validation`
-- section is a record; an optional field is a key that may be missing. A flag's message is text
-- for people that repeats the values of the invoice, and is left out.
use niyam_ai.Base.{ℕ, Bool, Option, List, Text, Date}

pub data RuleCode : Type 0 where
  r001 r002 r003 r004 r005 r006 r007 r008 r009 : RuleCode

pub data Severity : Type 0 where
  error warning : Severity

pub record Flag : Type 0 where
  pub rule_code : RuleCode
  pub severity : Severity

-- One entry of `r004_hsn.turnover_slabs`; a missing or null cap covers every turnover.
pub record HsnSlab : Type 0 where
  pub max_turnover_crores : Option ℕ
  pub severity : Option Severity
  pub min_digits : Option ℕ

pub record ValidationConfig (F : Type 0) : Type 0 where
  pub default_severity : Option Severity
  pub default_min_digits : Option ℕ
  pub turnover_slabs : List HsnSlab
  pub tolerance_paise : Option ℕ
  pub expected_rate_percents : List F
  pub duplicates_enabled : Option Bool

pub record ValidationContext (F : Type 0) : Type 0 where
  pub validation_config : ValidationConfig F
  pub period : Text
  pub today : Date
  pub client_state_code : Text
  pub annual_turnover_paise : Option ℕ
  -- `duplicate_key_counts`, by counterparty and normalised number
  pub duplicate_key_counts : List (Text × Text × ℕ)
