-- ===== src/Auth/Accounts/Logins.antt =====
-- Logins under the lockout (backend/app/auth/service.py with lockout.py).
use niyam_ai.Base.{
  ℕ, zero, suc, ◌≡◌, refl, sym, subst, ap, ◌∙◌, true, false, some, [], arith, Text, leb, Bool-cases,
  inl, inr, if◌then◌else◌,
}
use niyam_ai.Auth.Redis.{Redis, IsRedis}
use niyam_ai.Auth.Lockout.{
  login_keys, is_locked, record_failure, clear, failures, ttl_seconds, at_least_one,
}
use niyam_ai.Auth.Locking.{failures_lock}
use niyam_ai.Auth.Tables.{AppUser, Accounts, Hashing, user_of, refused, account_locked}
use niyam_ai.Auth.Accounts.{lookup_user_by_email, fail_login, authenticate}

-- The failures that are counted.
abbrev capped : ℕ → ℕ
capped n = if leb n 5 then n else 5

module _ {r : Redis} (hashing : Hashing) where
  -- A series of logins with the same password.
  unfoldable pub attempts : ℕ → Text → Text → Accounts r → Accounts r
  attempts zero email password s = s
  attempts (suc n) email password s =
      (authenticate hashing email password (attempts n email password s)).accounts

  module _ (laws : IsRedis r) (email wrong : Text) (u : AppUser) (s : Accounts r)
      (found : lookup_user_by_email email s ≡ some u)
      (bad : hashing.verify_password wrong u.password_hash ≡ false) where
    abbrev fresh : Accounts r
    fresh = record s { redis = clear r (login_keys email) s.redis }

    locked_at :
        (n : ℕ)
        → is_locked r (login_keys email) (failures r n (login_keys email) fresh.redis) ≡ leb 5 n
    locked_at n = (failures_lock r laws n email [] [] s.redis).0

    abbrev counted : r.Store → Accounts r
    counted redis = record s { redis = redis }

    authenticate-wrong :
        (redis : r.Store)
        → (authenticate hashing email wrong (counted redis)).accounts
          ≡ counted (
              if is_locked r (login_keys email) redis
              then redis
              else (record_failure r (login_keys email) redis).1)
    unfolding authenticate fail_login lookup_user_by_email
    authenticate-wrong redis = ground (arith, found, bad)

    authenticate-right :
        (right : Text) (redis : r.Store)
        → hashing.verify_password right u.password_hash ≡ true
        → u.is_active ≡ true
        → (authenticate hashing email right (counted redis)).answer ≡ (
            if is_locked r (login_keys email) redis
            then refused (account_locked (at_least_one r (ttl_seconds r (login_keys email) redis)))
            else user_of u)
    unfolding authenticate lookup_user_by_email
    authenticate-right right redis good active = ground (arith, found, good, active)

    abbrev failed : ℕ → r.Store
    failed n = failures r n (login_keys email) (clear r (login_keys email) s.redis)

    attempts_state : (n : ℕ) → attempts n email wrong fresh ≡ counted (failed (capped n))
    unfolding attempts failures
    attempts_state zero = refl
    attempts_state (suc n) =
        ap (λ t. (authenticate hashing email wrong t).accounts) (attempts_state n)
        ∙ authenticate-wrong (failed (capped n))
        ∙ elim (Bool-cases (leb n 4)) [
          | inl few ↦ ground (arith, few, locked_at n)
          | inr many ↦ ground (arith, many, locked_at 5)
        ]

    -- When a user with an active account logs in with the right password after `n` wrong ones, within
    -- the window of the lockout and starting from a count that was cleared, the login succeeds if
    -- `n` is at most four, and the account is locked from the fifth wrong password on.
    pub authenticate_locks :
        (n : ℕ) (right : Text)
        → hashing.verify_password right u.password_hash ≡ true
        → u.is_active ≡ true
        → (authenticate hashing email right (attempts n email wrong fresh)).answer ≡ (
            if leb 5 n
            then refused (
                account_locked (
                  at_least_one r
                    (ttl_seconds r (login_keys email) (attempts n email wrong fresh).redis)))
            else user_of u)
    authenticate_locks n right good active =
        subst
          (λ t. (authenticate hashing email right t).answer ≡ (
            if leb 5 n
            then refused
                (account_locked (at_least_one r (ttl_seconds r (login_keys email) t.redis)))
            else user_of u))
          (sym (attempts_state n))
          (ground
            (arith, authenticate-right right (failed (capped n)) good active, locked_at (capped n)))
