-- ===== src/Auth/Lockout.antt =====
-- The lockouts: of logins by email (backend/app/auth/lockout.py), of OTP submissions by user and
-- GSTIN, and the cooldown on OTP requests by GSTIN (backend/app/gsp/lockout.py).
use niyam_ai.Base.{
  ℕ, zero, suc, ◌+◌, Bool, true, false, Option, none, some, ◌∷◌, ◌++◌, map, Text, codes, strip,
  lower, upper, ◌==◌, ltb, leb, if◌then◌else◌,
}
use niyam_ai.Auth.Redis.{Redis}

abbrev pub max_attempts : ℕ
max_attempts = 5

abbrev pub window_seconds : ℕ
window_seconds = 900

-- The counter and the marker of one lockout.
abbrev pub LockKeys : Type 0
LockKeys = Text × Text

-- `_attempts_key(email)` and `_locked_key(email)`
unfoldable pub login_keys : Text → LockKeys
login_keys email = (
  codes "login_attempts:" ++ map lower (strip email),
  codes "locked_until:" ++ map lower (strip email),
)

-- The keys of `(user_id, gstin)`.
unfoldable pub otp_keys : Text → Text → LockKeys
otp_keys user_id gstin = (
  codes "gsp_otp_attempts:" ++ (user_id ++ b':' ∷ map upper (strip gstin)),
  codes "gsp_otp_locked:" ++ (user_id ++ b':' ∷ map upper (strip gstin)),
)

unfoldable pub initiate_key : Text → Text
initiate_key gstin = codes "gsp_initiate:" ++ map upper (strip gstin)

abbrev pub initiate_max_per_hour : ℕ
initiate_max_per_hour = 3

abbrev pub initiate_window_seconds : ℕ
initiate_window_seconds = 3600

module _ (r : Redis) where
  open r use {Store, value, present, ttl, incr, decr, expire, set_ex, delete}

  unfoldable pub is_locked : LockKeys → Store → Bool
  is_locked keys s = present keys.1 s

  -- Both modules run these commands, on their own keys; the result is the new count.
  unfoldable pub record_failure : LockKeys → Store → ℕ × Store
  record_failure keys s =
      let s1 = incr keys.0 s in
      let count = value keys.0 s1 in
      let s2 = if count == 1 then expire keys.0 window_seconds s1 else s1 in
      let s3 = if leb max_attempts count then set_ex keys.1 window_seconds s2 else s2 in (count, s3)

  unfoldable pub clear : LockKeys → Store → Store
  clear keys s = delete keys.1 (delete keys.0 s)

  -- -1, which is `none` here, unless the lockout is in effect.
  unfoldable pub ttl_seconds : LockKeys → Store → Option ℕ
  ttl_seconds keys s = ttl keys.1 s

  -- `ttl if ttl > 0 else -1`
  unfoldable pub initiate_cooldown_ttl : Text → Store → Option ℕ
  initiate_cooldown_ttl gstin s = elim (ttl (initiate_key gstin) s) [
    | none ↦ none
    | some n ↦ if ltb 0 n then some n else none
  ]

  -- `max(1, ttl)`
  abbrev pub at_least_one : Option ℕ → ℕ
  at_least_one none = 1
  at_least_one (some n) = if ltb 1 n then n else 1

  -- The result is the pair `(reserved, retry_after)`, and the new store.
  unfoldable pub try_reserve_initiate : Text → Store → Bool × ℕ × Store
  try_reserve_initiate gstin s =
      let key = initiate_key gstin in
      let s1 = incr key s in
      let count = value key s1 in
      let s2 = if count == 1 then expire key initiate_window_seconds s1 else s1 in
      let s3 = decr key s2 in
      if ltb initiate_max_per_hour count
      then (false, at_least_one (ttl key s3), s3)
      else (true, 0, s2)

  -- A series of failures with no success in between.
  unfoldable pub failures : ℕ → LockKeys → Store → Store
  failures zero keys s = s
  failures (suc n) keys s = (record_failure keys (failures n keys s)).1

  -- A series of requests: how many were let through.
  unfoldable pub requests : ℕ → Text → Store → ℕ × Store
  requests zero gstin s = (0, s)
  requests (suc n) gstin s =
      let (granted, s') = requests n gstin s in
      let (reserved, _, s'') = try_reserve_initiate gstin s' in
      ((if reserved then granted + 1 else granted), s'')
