-- ===== src/Gsp/Retry/Attempts.antt =====
-- How the retry loop ends (backend/app/gsp/retry.py, `run_with_retry`).
use native.Mathlib.Nat.{add-zero, zero-add}
use niyam_ai.Base.{
  ℕ, zero, suc, ◌+◌, ◌<◌, ◌≡◌, ◌≢◌, refl, true, false, none, arith, length, ◌⊎◌, inl, inr,
}
use niyam_ai.Gsp.Retry.{
  GspError, RetryPolicy, wait_seconds, is_retryable, Response, success, failure, other_exception,
  returned, raised, assertion_error, Run, attempt_from, run_with_retry,
}

wait_seconds-ne-none :
    (policy : RetryPolicy) (e : GspError) (i : ℕ)
    → is_retryable e ≡ true
    → wait_seconds policy e i ≢ none
unfolding wait_seconds is_retryable
wait_seconds-ne-none policy e i h = ground arith

module _ {A : Type 0} (policy : RetryPolicy) (call : ℕ → Response A) where
  -- One round at a response.
  abbrev IsGood : ℕ → Run A → Type 0
  IsGood left r = (r.verdict ≢ assertion_error) × (length r.waits < left)

  attempt_from-IsGood :
      (left attempt : ℕ)
      → 0 < left
      → attempt + left ≡ policy.max_attempts
      → IsGood left (attempt_from policy call left attempt)
  unfolding attempt_from
  attempt_from-IsGood zero attempt h e = absurd (omega arith)
  attempt_from-IsGood (suc left) attempt h e =
      go (call attempt) refl (attempt_from-IsGood left (attempt + 1))
    where
      go :
          (x : Response A)
          → call attempt ≡ x
          → (0 < left
              → attempt + 1 + left ≡ policy.max_attempts
              → IsGood left (attempt_from policy call left (attempt + 1)))
          → IsGood (suc left) (attempt_from policy call (suc left) attempt)
      go (success a) p ih = ground arith
      go other_exception p ih = ground arith
      go (failure x) p ih = ground (arith, wait_seconds-ne-none policy x attempt, ih)

  -- Under a policy of at least one attempt a call with retries never falls out of its loop, and
  -- sleeps fewer times than it may try.
  pub run_with_retry_ends :
      0 < policy.max_attempts
      → ((run_with_retry policy call).verdict ≢ assertion_error)
        × (length (run_with_retry policy call).waits < policy.max_attempts)
  unfolding run_with_retry
  run_with_retry_ends h = attempt_from-IsGood policy.max_attempts 0 h (omega arith)

  -- The call fails with a retryable error at each of `n` attempts from `i` on.
  abbrev pub FailsFor : ℕ → ℕ → Type 0
  FailsFor i zero = Unit
  FailsFor i (suc n) =
      ((e : GspError) × (call i ≡ failure e) × (is_retryable e ≡ true)) × FailsFor (i + 1) n

  attempt_from-success :
      (n left attempt : ℕ) (v : A)
      → n < left
      → attempt + left ≡ policy.max_attempts
      → FailsFor attempt n
      → call (attempt + n) ≡ success v
      → ((attempt_from policy call left attempt).verdict ≡ returned v (attempt + n + 1))
        × (length (attempt_from policy call left attempt).waits ≡ n)
  unfolding attempt_from
  attempt_from-success n zero attempt v lt total f c = absurd (omega arith)
  attempt_from-success zero (suc left) attempt v lt total f c =
      let c' : call attempt ≡ success v = rw add-zero at c in ground (arith, add-zero attempt)
  attempt_from-success (suc n) (suc left) attempt v lt total f c =
      let (e, fails, retry) = f.0 in
      let next : attempt + 1 + n ≡ attempt + suc n = omega arith in
      ground (
        arith,
        wait_seconds-ne-none policy e attempt,
        attempt_from-success n left (attempt + 1) v (omega arith) (omega arith) f.1 (rw next c),
      )

  -- After `n` retryable failures, fewer than the attempts, a success is returned with its number,
  -- and there were `n` waits.
  pub run_with_retry-success :
      (n : ℕ) (v : A)
      → n < policy.max_attempts
      → FailsFor 0 n
      → call n ≡ success v
      → ((run_with_retry policy call).verdict ≡ returned v (n + 1))
        × (length (run_with_retry policy call).waits ≡ n)
  unfolding run_with_retry
  run_with_retry-success n v lt f c =
      simp zero-add at
        (attempt_from-success n policy.max_attempts 0 v lt (omega arith) f (simp zero-add c))

  attempt_from-failure :
      (n left attempt : ℕ) (x : GspError)
      → n < left
      → attempt + left ≡ policy.max_attempts
      → FailsFor attempt n
      → call (attempt + n) ≡ failure x
      → (is_retryable x ≡ false) ⊎ (suc n ≡ left)
      → ((attempt_from policy call left attempt).verdict ≡ raised x)
        × (length (attempt_from policy call left attempt).waits ≡ n)
  unfolding attempt_from
  attempt_from-failure n zero attempt x lt total f c end = absurd (omega arith)
  attempt_from-failure zero (suc left) attempt x lt total f c end =
      let c' : call attempt ≡ failure x = rw add-zero at c in
      elim end [ inl never ↦ ground arith | inr last ↦ ground arith ]
  attempt_from-failure (suc n) (suc left) attempt x lt total f c end =
      let (e, fails, retry) = f.0 in
      let next : attempt + 1 + n ≡ attempt + suc n = omega arith in
      ground (
        arith,
        wait_seconds-ne-none policy e attempt,
        attempt_from-failure n left (attempt + 1) x (omega arith) (omega arith) f.1 (rw next c)
            (elim end [ inl never ↦ inl never | inr last ↦ inr (omega arith) ]),
      )

  -- After `n` retryable failures the next failure is raised, with `n` waits before it, if its kind
  -- is not retryable or if the attempts are used up.
  pub run_with_retry-failure :
      (n : ℕ) (x : GspError)
      → n < policy.max_attempts
      → FailsFor 0 n
      → call n ≡ failure x
      → (is_retryable x ≡ false) ⊎ (suc n ≡ policy.max_attempts)
      → ((run_with_retry policy call).verdict ≡ raised x)
        × (length (run_with_retry policy call).waits ≡ n)
  unfolding run_with_retry
  run_with_retry-failure n x lt f c end =
      attempt_from-failure n policy.max_attempts 0 x lt (omega arith) f (simp zero-add c) end
