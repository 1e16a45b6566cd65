-- ===== src/Auth/Locking.antt =====
-- When the lockouts lock (backend/app/auth/lockout.py, backend/app/gsp/lockout.py).
use niyam_ai.Base.{
  ℕ, zero, suc, ◌≤◌, ◌≡◌, refl, true, false, arith, Text, text_eq, text_eq_refl, leb, ltb,
  if◌then◌else◌,
}
use niyam_ai.Auth.Redis.{Redis, IsRedis}
use niyam_ai.Auth.Lockout.{
  LockKeys, login_keys, otp_keys, initiate_key, is_locked, record_failure, clear, failures,
  requests, try_reserve_initiate, max_attempts,
}

-- The counter is not the marker.
abbrev AreApart : LockKeys → Type 0
AreApart keys = (text_eq keys.0 keys.1 ≡ false) × (text_eq keys.1 keys.0 ≡ false)

login_keys-AreApart : (email : Text) → AreApart (login_keys email)
unfolding login_keys
login_keys-AreApart email = (refl, refl)

otp_keys-AreApart : (user_id gstin : Text) → AreApart (otp_keys user_id gstin)
unfolding otp_keys
otp_keys-AreApart user_id gstin = (refl, refl)

module _ (r : Redis) (laws : IsRedis r) where
  record_failure_step :
      (keys : LockKeys) (s : r.Store)
      → AreApart keys
      → (r.value keys.0 (record_failure r keys s).1 ≡ suc (r.value keys.0 s))
        × (is_locked r keys (record_failure r keys s).1
            ≡ (if leb max_attempts (suc (r.value keys.0 s)) then true else is_locked r keys s))
  unfolding record_failure is_locked
  record_failure_step keys s apart = ground (
    arith,
    laws.value-incr keys.0 keys.0 s,
    text_eq_refl keys.0,
    text_eq_refl keys.1,
    laws.value-expire keys.0 keys.0 900 (r.incr keys.0 s),
    laws.value-set_ex keys.1 keys.0 900 (r.incr keys.0 s),
    laws.value-set_ex keys.1 keys.0 900 (r.expire keys.0 900 (r.incr keys.0 s)),
    laws.present-incr keys.0 keys.1 s,
    laws.present-expire keys.0 keys.1 900 (r.incr keys.0 s),
    laws.present-set_ex keys.1 keys.1 900 (r.incr keys.0 s),
    laws.present-set_ex keys.1 keys.1 900 (r.expire keys.0 900 (r.incr keys.0 s)),
  )

  failures_state :
      (n : ℕ) (keys : LockKeys) (s : r.Store)
      → AreApart keys
      → r.value keys.0 s ≡ 0
      → is_locked r keys s ≡ false
      → (r.value keys.0 (failures r n keys s) ≡ n)
        × (is_locked r keys (failures r n keys s) ≡ leb max_attempts n)
  unfolding failures
  failures_state zero keys s apart v l = (v, l)
  failures_state (suc n) keys s apart v l =
      let (count, locked) = failures_state n keys s apart v l in
      let (count', locked') = record_failure_step keys (failures r n keys s) apart in ground arith

  clear_state :
      (keys : LockKeys) (s : r.Store)
      → AreApart keys
      → (r.value keys.0 (clear r keys s) ≡ 0) × (is_locked r keys (clear r keys s) ≡ false)
  unfolding clear is_locked
  clear_state keys s apart = ground (
    arith,
    laws.value-delete keys.1 keys.0 (r.delete keys.0 s),
    laws.value-delete keys.0 keys.0 s,
    laws.present-delete keys.1 keys.1 (r.delete keys.0 s),
    text_eq_refl keys.0,
    text_eq_refl keys.1,
  )

  -- After a successful login, or an OTP that was right, the count begins anew: a series of `n`
  -- failures within the window locks the email, and the user and GSTIN, exactly from the fifth on.
  pub failures_lock :
      (n : ℕ) (email user_id gstin : Text) (s : r.Store)
      → (is_locked r
            (login_keys email)
            (failures r n (login_keys email) (clear r (login_keys email) s))
          ≡ leb 5 n)
        × (is_locked r
              (otp_keys user_id gstin)
              (failures r n (otp_keys user_id gstin) (clear r (otp_keys user_id gstin) s))
            ≡ leb 5 n)
  failures_lock n email user_id gstin s =
      let login = login_keys-AreApart email in
      let otp = otp_keys-AreApart user_id gstin in
      let (v, l) = clear_state (login_keys email) s login in
      let (v', l') = clear_state (otp_keys user_id gstin) s otp in
      (
        (failures_state n (login_keys email) (clear r (login_keys email) s) login v l).1,
        (failures_state n (otp_keys user_id gstin) (clear r (otp_keys user_id gstin) s) otp v'
            l').1,
      )

  try_reserve_initiate_step :
      (gstin : Text) (s : r.Store)
      → let (reserved, _, s') = try_reserve_initiate r gstin s in
        (reserved ≡ ltb (r.value (initiate_key gstin) s) 3)
        × (r.value (initiate_key gstin) s' ≡ (
            if ltb (r.value (initiate_key gstin) s) 3
            then suc (r.value (initiate_key gstin) s)
            else r.value (initiate_key gstin) s))
  unfolding try_reserve_initiate
  try_reserve_initiate_step gstin s =
      let key = initiate_key gstin in
      let counted : r.value key (r.incr key s) ≡ suc (r.value key s) =
        ground (arith, laws.value-incr key key s, text_eq_refl key) in
      ground (
        arith,
        counted,
        text_eq_refl key,
        laws.value-expire key key 3600 (r.incr key s),
        laws.value-decr key key (r.incr key s) (r.value key s),
        laws.value-decr key key (r.expire key 3600 (r.incr key s)) (r.value key s),
      )

  requests_state :
      (n : ℕ) (gstin : Text) (s : r.Store)
      → r.value (initiate_key gstin) s ≡ 0
      → ((requests r n gstin s).0 ≡ r.value (initiate_key gstin) (requests r n gstin s).1)
        × ((requests r n gstin s).0 ≡ (if leb n 3 then n else 3))
  unfolding requests
  requests_state zero gstin s v = ground arith
  requests_state (suc n) gstin s v =
      let (granted, capped) = requests_state n gstin s v in
      let (reserved, count) = try_reserve_initiate_step gstin (requests r n gstin s).1 in
      ground arith

  -- Of any series of OTP requests for a GSTIN within an hour's window that begins with no count,
  -- the first three are let through and no other: the counter never passes three.
  pub requests_cap :
      (n : ℕ) (gstin : Text) (s : r.Store)
      → r.value (initiate_key gstin) s ≡ 0
      → ((requests r n gstin s).0 ≡ (if leb n 3 then n else 3))
        × (r.value (initiate_key gstin) (requests r n gstin s).1 ≤ 3)
  requests_cap n gstin s v =
      let (granted, capped) = requests_state n gstin s v in (capped, ground arith)
