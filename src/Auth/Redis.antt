-- ===== src/Auth/Redis.antt =====
-- The Redis server that the lockouts keep their counters in: a parameter. Keys are texts. The laws
-- are those of the commands between two moments at which no key expires.
use niyam_ai.Base.{ℕ, suc, ◌≡◌, ◌<◌, Bool, true, false, Option, Text, text_eq, if◌then◌else◌}

pub record Redis : Type 1 where
  pub Store : Type 0
  -- What a read of the key gives: the counter, 0 if the key is missing; and EXISTS.
  pub value : Text → Store → ℕ
  pub present : Text → Store → Bool
  -- TTL, `none` for the negative answers
  pub ttl : Text → Store → Option ℕ
  pub incr : Text → Store → Store
  pub decr : Text → Store → Store
  pub expire : Text → ℕ → Store → Store
  -- SET key "1" EX seconds
  pub set_ex : Text → ℕ → Store → Store
  pub delete : Text → Store → Store

-- What the commands do to the counters and to the presence of other keys.
pub record IsRedis (r : Redis) : Type 0 where
  pub value-incr :
      (k j : Text) (s : r.Store)
      → r.value j (r.incr k s) ≡ (if text_eq k j then suc (r.value j s) else r.value j s)
  pub value-decr :
      (k j : Text) (s : r.Store) (n : ℕ)
      → r.value k s ≡ suc n
      → r.value j (r.decr k s) ≡ (if text_eq k j then n else r.value j s)
  pub value-expire :
      (k j : Text) (n : ℕ) (s : r.Store) → 0 < n → r.value j (r.expire k n s) ≡ r.value j s
  pub value-set_ex :
      (k j : Text) (n : ℕ) (s : r.Store)
      → text_eq k j ≡ false
      → r.value j (r.set_ex k n s) ≡ r.value j s
  pub value-delete :
      (k j : Text) (s : r.Store)
      → r.value j (r.delete k s) ≡ (if text_eq k j then 0 else r.value j s)
  pub present-incr :
      (k j : Text) (s : r.Store) → text_eq k j ≡ false → r.present j (r.incr k s) ≡ r.present j s
  pub present-expire :
      (k j : Text) (n : ℕ) (s : r.Store) → 0 < n → r.present j (r.expire k n s) ≡ r.present j s
  pub present-set_ex :
      (k j : Text) (n : ℕ) (s : r.Store)
      → 0 < n
      → r.present j (r.set_ex k n s) ≡ (if text_eq k j then true else r.present j s)
  pub present-delete :
      (k j : Text) (s : r.Store)
      → r.present j (r.delete k s) ≡ (if text_eq k j then false else r.present j s)
