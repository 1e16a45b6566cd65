-- ===== src/Tests/Connecting.antt =====
-- Retries and lockouts on concrete calls and a store in memory.
use Prim.Native.Nat.{◌<◌}
use niyam_ai.Base.{
  ℕ, zero, suc, ◌≤◌, ◌≡◌, ◌≢◌, refl, inl, Bool, true, false, none, some, [], ◌∷◌, arith, Text,
  codes, text_eq, leb, length, if◌then◌else◌,
}
use niyam_ai.Gsp.Retry.{
  GspError, rate_limited, gstn_unavailable, session_expired, RetryPolicy, Response, success,
  failure, returned, raised, assertion_error, run_with_retry, attempt_from, is_retryable,
  wait_seconds, entry,
}
use niyam_ai.Gsp.Retry.Attempts.{
  run_with_retry_ends, run_with_retry-success, run_with_retry-failure,
}
use niyam_ai.Auth.Redis.{Redis, IsRedis}
use niyam_ai.Auth.Lockout.{login_keys, otp_keys, initiate_key, is_locked, clear, failures, requests}
use niyam_ai.Auth.Locking.{failures_lock, requests_cap}

abbrev pred : ℕ → ℕ
pred zero = zero
pred (suc n) = n

abbrev pub unavailable : GspError
unavailable = record { kind = gstn_unavailable; retry_after_seconds = none; http_status = some 503 }

abbrev limited : GspError
limited = record { kind = rate_limited; retry_after_seconds = some 7; http_status = some 429 }

abbrev expired : GspError
expired = record { kind = session_expired; retry_after_seconds = none; http_status = some 503 }

abbrev pub policy : RetryPolicy
policy = record {
  max_attempts = 4;
  gstn_unavailable_backoff = 30 ∷ 120 ∷ [];
  rate_limited_default = 60;
}

-- Unavailable, then over the limit, then a result.
abbrev recovering : ℕ → Response ℕ
recovering zero = failure unavailable
recovering (suc zero) = failure limited
recovering (suc (suc n)) = success 42

-- Unavailable, then out of session.
abbrev expiring : ℕ → Response ℕ
expiring zero = failure unavailable
expiring (suc n) = failure expired

waits-recovering : (run_with_retry policy recovering).waits ≡ 30 ∷ 7 ∷ []
unfolding run_with_retry attempt_from is_retryable wait_seconds entry
waits-recovering = refl

run_with_retry_ends_example :
    ((run_with_retry policy expiring).verdict ≢ assertion_error)
    × (length (run_with_retry policy expiring).waits < 4)
run_with_retry_ends_example = run_with_retry_ends policy expiring (omega arith)

unavailable-is_retryable : is_retryable unavailable ≡ true
unfolding is_retryable
unavailable-is_retryable = refl

limited-is_retryable : is_retryable limited ≡ true
unfolding is_retryable
limited-is_retryable = refl

expired-is_retryable : is_retryable expired ≡ false
unfolding is_retryable
expired-is_retryable = refl

run_with_retry-success_example :
    ((run_with_retry policy recovering).verdict ≡ returned 42 3)
    × (length (run_with_retry policy recovering).waits ≡ 2)
run_with_retry-success_example =
    run_with_retry-success policy recovering 2 42 (omega arith)
      ((unavailable, refl, unavailable-is_retryable), ((limited, refl, limited-is_retryable), tt))
      refl

run_with_retry-failure_example :
    ((run_with_retry policy expiring).verdict ≡ raised expired)
    × (length (run_with_retry policy expiring).waits ≡ 1)
run_with_retry-failure_example =
    run_with_retry-failure policy expiring 1 expired (omega arith)
      ((unavailable, refl, unavailable-is_retryable), tt) refl (inl expired-is_retryable)

-- Counters and markers as functions of the key; nothing expires.
abbrev pub memory : Redis
memory = record {
  Store = (Text → ℕ) × (Text → Bool);
  value = λ k s. s.0 k;
  present = λ k s. s.1 k;
  ttl = λ k s. if s.1 k then some 900 else none;
  incr = λ k s.
      (λ j. if text_eq k j then suc (s.0 j) else s.0 j, λ j. if text_eq k j then true else s.1 j);
  decr = λ k s.
      (λ j. if text_eq k j then pred (s.0 k) else s.0 j, λ j. if text_eq k j then true else s.1 j);
  expire = λ k n s. s;
  set_ex =
      λ k n s. (λ j. if text_eq k j then 1 else s.0 j, λ j. if text_eq k j then true else s.1 j);
  delete =
      λ k s. (λ j. if text_eq k j then 0 else s.0 j, λ j. if text_eq k j then false else s.1 j);
}

memory-decr :
    (k j : Text) (s : memory.Store) (n : ℕ)
    → s.0 k ≡ suc n
    → memory.value j (memory.decr k s) ≡ (if text_eq k j then n else s.0 j)
memory-decr k j s n h = ground arith

memory-set_ex :
    (k j : Text) (n : ℕ) (s : memory.Store)
    → text_eq k j ≡ false
    → memory.value j (memory.set_ex k n s) ≡ s.0 j
memory-set_ex k j n s h = ground arith

memory-incr :
    (k j : Text) (s : memory.Store)
    → text_eq k j ≡ false
    → memory.present j (memory.incr k s) ≡ s.1 j
memory-incr k j s h = ground arith

pub memory-IsRedis : IsRedis memory
memory-IsRedis = record {
  value-incr = λ k j s. refl;
  value-decr = memory-decr;
  value-expire = λ k j n s h. refl;
  value-set_ex = memory-set_ex;
  value-delete = λ k j s. refl;
  present-incr = memory-incr;
  present-expire = λ k j n s h. refl;
  present-set_ex = λ k j n s h. refl;
  present-delete = λ k j s. refl;
}

abbrev pub empty : memory.Store
empty = (λ k. 0, λ k. false)

failures_lock_example :
    (is_locked memory (login_keys (codes "a@b.in")) (
        failures memory 6
          (login_keys (codes "a@b.in"))
          (clear memory (login_keys (codes "a@b.in")) empty))
      ≡ leb 5 6)
    × (is_locked memory (otp_keys (codes "u1") (codes "27aapfu0939f1zv")) (
          failures memory 6
            (otp_keys (codes "u1") (codes "27aapfu0939f1zv"))
            (clear memory (otp_keys (codes "u1") (codes "27aapfu0939f1zv")) empty))
        ≡ leb 5 6)
failures_lock_example =
    failures_lock memory memory-IsRedis 6 (codes "a@b.in") (codes "u1") (codes "27aapfu0939f1zv")
      empty

requests_cap_example :
    ((requests memory 5 (codes "27AAPFU0939F1ZV") empty).0 ≡ (if leb 5 3 then 5 else 3))
    × (memory.value
          (initiate_key (codes "27AAPFU0939F1ZV"))
          (requests memory 5 (codes "27AAPFU0939F1ZV") empty).1
        ≤ 3)
requests_cap_example = requests_cap memory memory-IsRedis 5 (codes "27AAPFU0939F1ZV") empty refl
