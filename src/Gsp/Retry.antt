-- ===== src/Gsp/Retry.antt =====
-- The retry policy of GSP pulls (backend/app/gsp/retry.py). The wrapped call is a parameter: what it
-- does at each attempt. `on_retry`, the log line and `sleep` are the trace of the waits.
pub mod Attempts
use niyam_ai.Base.{
  ℕ, zero, suc, ◌+◌, ◌-◌, Bool, true, false, Option, none, some, List, [], ◌∷◌, length, ltb, leb,
  if◌then◌else◌,
}

-- `GSPErrorKind` (backend/app/gsp/client.py)
pub data GspErrorKind : Type 0 where
  otp_invalid otp_expired session_expired gstn_unavailable rate_limited consent_revoked unknown :
      GspErrorKind

-- An error is of the class of its kind.
pub record GspError : Type 0 where
  pub kind : GspErrorKind
  pub retry_after_seconds : Option ℕ
  pub http_status : Option ℕ

pub record RetryPolicy : Type 0 where
  pub max_attempts : ℕ
  pub gstn_unavailable_backoff : List ℕ
  pub rate_limited_default : ℕ

abbrev pub max_nat : ℕ → ℕ → ℕ
max_nat a b = if leb b a then a else b

abbrev pub min_nat : ℕ → ℕ → ℕ
min_nat a b = if leb a b then a else b

-- The constructor keeps at least one attempt.
unfoldable pub retry_policy : ℕ → List ℕ → ℕ → RetryPolicy
retry_policy max_attempts backoff default = record {
  max_attempts = max_nat 1 max_attempts;
  gstn_unavailable_backoff = backoff;
  rate_limited_default = default;
}

-- `backoff[i]` of a list that is long enough
unfoldable pub entry : ℕ → List ℕ → ℕ
entry i [] = 0
entry zero (x ∷ xs) = x
entry (suc i) (x ∷ xs) = entry i xs

-- `none` is the AssertionError.
unfoldable pub wait_seconds : RetryPolicy → GspError → ℕ → Option ℕ
wait_seconds policy err attempt_idx = elim err.kind [
  | rate_limited ↦ elim err.retry_after_seconds [
    | none ↦ some policy.rate_limited_default
    | some s ↦ if ltb 0 s then some s else some policy.rate_limited_default
  ]
  | gstn_unavailable ↦ elim policy.gstn_unavailable_backoff [
    | [] ↦ some 30
    | x ∷ xs ↦ some (entry (min_nat attempt_idx (length xs)) (x ∷ xs))
  ]
  | _ ↦ none
]

unfoldable pub is_retryable : GspError → Bool
is_retryable err = elim err.kind [ gstn_unavailable ↦ true | rate_limited ↦ true | _ ↦ false ]

-- What the wrapped call does: it returns, raises a GSPError, or raises something else.
pub data Response (A : Type 0) : Type 0 where
  success : A → Response A
  failure : GspError → Response A
  other_exception : Response A

pub data Verdict (A : Type 0) : Type 0 where
  returned : (result : A) (attempts : ℕ) → Verdict A
  raised : GspError → Verdict A
  crashed : Verdict A
  assertion_error : Verdict A

-- How the loop ended, and the waits between attempts.
pub record Run (A : Type 0) : Type 0 where
  pub verdict : Verdict A
  pub waits : List ℕ

abbrev pub ends : {A : Type 0} → Verdict A → Run A
ends v = record { verdict = v; waits = [] }

abbrev pub after_wait : {A : Type 0} → ℕ → Run A → Run A
after_wait w r = record r { waits = w ∷ r.waits }

module _ {A : Type 0} (policy : RetryPolicy) (call : ℕ → Response A) where
  -- The `for` loop with `left` attempts to go; behind it stands the final AssertionError.
  unfoldable pub attempt_from : ℕ → ℕ → Run A
  attempt_from zero attempt = ends assertion_error
  attempt_from (suc left) attempt = elim (call attempt) [
    | success a ↦ ends (returned a (attempt + 1))
    | other_exception ↦ ends crashed
    | failure e ↦ elim (is_retryable e) [
      | false ↦ ends (raised e)
      | true ↦ elim (leb policy.max_attempts (attempt + 1)) [
        | true ↦ ends (raised e)
        | false ↦ elim (wait_seconds policy e attempt) [
          | none ↦ ends assertion_error
          | some w ↦ after_wait w (attempt_from left (attempt + 1))
        ]
      ]
    ]
  ]

  unfoldable pub run_with_retry : Run A
  run_with_retry = attempt_from policy.max_attempts 0
