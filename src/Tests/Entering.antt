-- ===== src/Tests/Entering.antt =====
-- A user who is invited, resets the password and mistypes it.
use niyam_ai.Base.{◌≡◌, refl, true, none, some, List, [], ◌∷◌, codes, text_eq, if◌then◌else◌, leb}
use niyam_ai.Auth.Lockout.{login_keys, clear, ttl_seconds, at_least_one}
use niyam_ai.Auth.Tables.{
  AppUser, Accounts, Hashing, user_of, refused, account_locked, invalid_reset_token, weak_password,
  is_strong, with_password,
}
use niyam_ai.Auth.Accounts.{lookup_user_by_email, authenticate, complete_password_reset, use_reset}
use niyam_ai.Auth.Accounts.Tokens.{
  Request, forgetting, logging_in, serve_all, complete_password_reset_once,
}
use niyam_ai.Auth.Accounts.Logins.{attempts, authenticate_locks}
use niyam_ai.Tests.Connecting.{memory, memory-IsRedis, empty}

-- Hashes that keep the text.
abbrev hashing : Hashing
hashing = record {
  hash_password = λ salt password. password;
  verify_password = text_eq;
  hash_token = λ token. b'#' ∷ token;
  zxcvbn_score = λ password. 4;
  verify_totp = text_eq;
}

abbrev user : AppUser
user = record {
  id = 7;
  firm_id = 1;
  email = codes "asha@ca.in";
  password_hash = codes "monsoon-ledger";
  role = codes "admin";
  totp_secret = none;
  totp_confirmed = true;
  is_active = true;
  last_login_at = none;
  password_changed_at = 1;
}

abbrev accounts : Accounts memory
accounts = record {
  users = user ∷ [];
  invites = [];
  resets =
      (record {
        id = 3;
        firm_id = 1;
        user_id = 7;
        token_hash = codes "#tok";
        expires_at = 5000;
        used_at = none;
        requester_ip = none;
      })
      ∷ [];
  redis = empty;
}

reset-answer :
    (complete_password_reset hashing 2000 [] (codes "tok") (codes "harvest-ledger") accounts).answer
    ≡ user_of (with_password (codes "harvest-ledger") 2000 user)
unfolding complete_password_reset is_strong use_reset
reset-answer = refl

abbrev between : List Request
between =
    forgetting 2100 4 (codes "new") (codes "Asha@ca.in") none
    ∷ logging_in (codes "asha@ca.in") (codes "harvest-ledger")
    ∷ []

complete_password_reset_once_example :
    (complete_password_reset hashing 2200 [] (codes "tok") (codes "another-ledger") (
      serve_all hashing between
        (complete_password_reset hashing 2000 []
          (codes "tok")
          (codes "harvest-ledger")
          accounts).accounts)).answer
    ≡ refused
        (if is_strong hashing (codes "another-ledger") then invalid_reset_token else weak_password)
complete_password_reset_once_example =
    complete_password_reset_once hashing 2000 [] (codes "tok") (codes "harvest-ledger") _ accounts
      between 2200 [] (codes "another-ledger") reset-answer

found : lookup_user_by_email (codes "asha@ca.in") accounts ≡ some user
unfolding lookup_user_by_email
found = refl

abbrev fresh : Accounts memory
fresh = record accounts { redis = clear memory (login_keys (codes "asha@ca.in")) empty }

abbrev mistyped : Accounts memory
mistyped = attempts hashing 6 (codes "asha@ca.in") (codes "monsoon") fresh

authenticate_locks_example :
    (authenticate hashing (codes "asha@ca.in") (codes "monsoon-ledger") mistyped).answer ≡ (
      if leb 5 6
      then refused (
          account_locked (
            at_least_one memory
              (ttl_seconds memory (login_keys (codes "asha@ca.in")) mistyped.redis)))
      else user_of user)
authenticate_locks_example =
    authenticate_locks hashing memory-IsRedis (codes "asha@ca.in") (codes "monsoon") user accounts
      found refl 6 (codes "monsoon-ledger") refl refl
