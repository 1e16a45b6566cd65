-- ===== src/Auth/RateLimit.antt =====
-- The sliding window of the authentication endpoints (backend/app/auth/rate_limit.py). A sorted set
-- is the list of its scores, in order: the members are unique. Instants are milliseconds. The key's
-- expiry five seconds after the window removes no score that counts, and is left out.
pub mod Window
use niyam_ai.Base.{
  ℕ, ◌+◌, ◌-◌, ◌*◌, ◌/◌, Bool, true, false, Option, none, some, List, [], ◌∷◌, ◌++◌, map, Text,
  codes, text_eq, lower, keep, length, insert_by, ltb, leb, if◌then◌else◌,
}

pub record Policy : Type 0 where
  pub name : Text
  pub max_hits : ℕ
  pub window_s : ℕ

-- `POLICIES[name]`; `none` is the KeyError.
unfoldable pub policy_of : Text → Option Policy
policy_of name =
    if text_eq name (codes "login_ip")
    then some (record { name = name; max_hits = 10; window_s = 60 })
    else if text_eq name (codes "login_email")
    then some (record { name = name; max_hits = 5; window_s = 60 })
    else if text_eq name (codes "register_ip")
    then some (record { name = name; max_hits = 5; window_s = 3600 })
    else if text_eq name (codes "forgot_email")
    then some (record { name = name; max_hits = 3; window_s = 3600 })
    else if text_eq name (codes "forgot_ip")
    then some (record { name = name; max_hits = 5; window_s = 3600 })
    else none

unfoldable pub bucket_key : Text → Text → Text
bucket_key policy_name identifier = codes "rl:" ++ (policy_name ++ b':' ∷ map lower identifier)

-- A score that ZREMRANGEBYSCORE up to `now - window` leaves.
abbrev pub is_recent : ℕ → ℕ → ℕ → Bool
is_recent window_ms now t = ltb now (t + window_ms)

-- The answer for a full window: `max(1, …)` is the number, as the oldest score is recent.
abbrev pub turn_away : ℕ → ℕ → List ℕ → Bool × ℕ × List ℕ
turn_away window_ms now [] = (true, 0, [])
turn_away window_ms now (oldest ∷ rest) =
    (false, (oldest + window_ms - now) / 1000 + 1, oldest ∷ rest)

-- The commands on one bucket: whether the hit is allowed, the seconds to wait, and the new bucket.
unfoldable pub check_bucket : Policy → ℕ → List ℕ → Bool × ℕ × List ℕ
check_bucket policy now bucket =
    let recent = keep (is_recent (policy.window_s * 1000) now) bucket in
    if leb policy.max_hits (length recent)
    then turn_away (policy.window_s * 1000) now recent
    else (true, 0, insert_by leb now recent)

-- The buckets by their keys.
unfoldable pub check : ℕ → Text → Text → (Text → List ℕ) → Option (Bool × ℕ × (Text → List ℕ))
check now policy_name identifier buckets = elim (policy_of policy_name) [
  | none ↦ none
  | some policy ↦
      let key = bucket_key policy_name identifier in
      let (allowed, retry_after, bucket) = check_bucket policy now (buckets key) in
      some (allowed, retry_after, λ k. if text_eq key k then bucket else buckets k)
]
