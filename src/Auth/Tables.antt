-- ===== src/Auth/Tables.antt =====
-- The rows of the accounts and the answers of their service (backend/app/models/tables.py and
-- backend/app/auth/service.py, password_reset.py, passwords.py, email.py), with the rows as the
-- service makes and changes them.
use niyam_ai.Base.{
  ℕ, ◌+◌, ◌*◌, Bool, true, false, not, ◌&&◌, Option, none, some, List, map, Text, text_eq, lower,
  length, ltb, ◌==◌,
}
use niyam_ai.Auth.Redis.{Redis}

pub record AppUser : Type 0 where
  pub id : ℕ
  pub firm_id : ℕ
  pub email : Text
  pub password_hash : Text
  pub role : Text
  pub totp_secret : Option Text
  pub totp_confirmed : Bool
  pub is_active : Bool
  pub last_login_at : Option ℕ
  pub password_changed_at : ℕ

pub record UserInvite : Type 0 where
  pub id : ℕ
  pub firm_id : ℕ
  pub email : Text
  pub role : Text
  pub token_hash : Text
  pub expires_at : ℕ
  pub accepted_at : Option ℕ

pub record PasswordReset : Type 0 where
  pub id : ℕ
  pub firm_id : ℕ
  pub user_id : ℕ
  pub token_hash : Text
  pub expires_at : ℕ
  pub used_at : Option ℕ
  pub requester_ip : Option Text

pub record Accounts (r : Redis) : Type 0 where
  pub users : List AppUser
  pub invites : List UserInvite
  pub resets : List PasswordReset
  pub redis : r.Store

pub data Refusal : Type 0 where
  weak_password invalid_invite invalid_credentials account_inactive invalid_reset_token : Refusal
  -- The user of a reset is gone, which its foreign key rules out.
  assertion_error : Refusal
  account_locked : (retry_after : ℕ) → Refusal
  -- A unique constraint of the tables.
  already_taken : Refusal

pub data Answer : Type 0 where
  user_of : AppUser → Answer
  secret_of : Text → Answer
  done : Answer
  refused : Refusal → Answer

pub record Served (r : Redis) : Type 0 where
  pub accounts : Accounts r
  pub answer : Answer

-- What the libraries provide; `verify_password` gives false on a malformed hash.
pub record Hashing : Type 0 where
  pub hash_password : (salt password : Text) → Text
  pub verify_password : (password hash : Text) → Bool
  pub hash_token : Text → Text
  pub zxcvbn_score : Text → ℕ
  pub verify_totp : (secret code : Text) → Bool

abbrev pub min_length : ℕ
min_length = 12

abbrev pub min_zxcvbn_score : ℕ
min_zxcvbn_score = 3

abbrev pub reset_token_ttl_seconds : ℕ
reset_token_ttl_seconds = 3600

-- CITEXT compares without case.
abbrev pub email_at : Text → AppUser → Bool
email_at email u = text_eq (map lower u.email) (map lower email)

abbrev pub user_at : ℕ → ℕ → AppUser → Bool
user_at firm id u = u.id == id && u.firm_id == firm

abbrev pub invite_at : Text → UserInvite → Bool
invite_at h i = text_eq i.token_hash h

abbrev pub reset_at : Text → PasswordReset → Bool
reset_at h p = text_eq p.token_hash h

abbrev pub with_password : Text → ℕ → AppUser → AppUser
with_password hash now u = record u { password_hash = hash; password_changed_at = now }

abbrev pub accepted_row : ℕ → UserInvite → UserInvite
accepted_row now i = record i { accepted_at = some now }

abbrev pub used_row : ℕ → PasswordReset → PasswordReset
used_row now p = record p { used_at = some now }

-- `assert_password_strength` raises where this is false.
unfoldable pub is_strong : Hashing → Text → Bool
is_strong hashing pw =
    not (ltb (length pw) min_length) && not (ltb (hashing.zxcvbn_score pw) min_zxcvbn_score)

abbrev pub new_user : ℕ → Text → ℕ → UserInvite → AppUser
new_user id hash now i = record {
  id = id;
  firm_id = i.firm_id;
  email = i.email;
  password_hash = hash;
  role = i.role;
  totp_secret = none;
  totp_confirmed = false;
  is_active = true;
  last_login_at = none;
  password_changed_at = now;
}

abbrev pub new_invite : ℕ → ℕ → ℕ → Text → Text → Text → ℕ → UserInvite
new_invite now id firm token_hash email role ttl_hours = record {
  id = id;
  firm_id = firm;
  email = email;
  role = role;
  token_hash = token_hash;
  expires_at = now + ttl_hours * 3600;
  accepted_at = none;
}

abbrev pub new_reset : ℕ → ℕ → Text → Option Text → AppUser → PasswordReset
new_reset now id token_hash ip u = record {
  id = id;
  firm_id = u.firm_id;
  user_id = u.id;
  token_hash = token_hash;
  expires_at = now + reset_token_ttl_seconds;
  used_at = none;
  requester_ip = ip;
}
