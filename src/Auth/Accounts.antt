-- ===== src/Auth/Accounts.antt =====
-- Accounts (backend/app/auth/service.py, password_reset.py, passwords.py): invitations, logins,
-- passwords and TOTP. Hashes, zxcvbn and the TOTP code are the libraries'; the clock, the salts, the
-- new identifiers and the random tokens are arguments. Times of response are left out.
pub mod Tokens
pub mod Invitations
pub mod Logins
use niyam_ai.Base.{
  ℕ, ◌+◌, true, not, ◌&&◌, Option, none, some, [], ◌∷◌, ◌++◌, Text, leb, ◌==◌, is_some, find_where,
  update_where, if◌then◌else◌,
}
use niyam_ai.Auth.Redis.{Redis}
use niyam_ai.Auth.Tables.{
  AppUser, UserInvite, PasswordReset, Accounts, Refusal, Served, Hashing, email_at, user_at,
  invite_at, reset_at, with_password, accepted_row, used_row, is_strong, new_user, new_invite,
  new_reset, weak_password, invalid_invite, invalid_credentials, account_inactive,
  invalid_reset_token, assertion_error, account_locked, already_taken, user_of, secret_of, done,
  refused,
}
use niyam_ai.Auth.Lockout.{login_keys, is_locked, record_failure, clear, ttl_seconds, at_least_one}

module _ {r : Redis} where
  abbrev pub refuse : Refusal → Accounts r → Served r
  refuse why s = record { accounts = s; answer = refused why }

  -- `_lookup_user_by_email`
  unfoldable pub lookup_user_by_email : Text → Accounts r → Option AppUser
  lookup_user_by_email email s = find_where (email_at email) s.users

module _ {r : Redis} (hashing : Hashing) where
  open hashing use {hash_password, verify_password, hash_token, verify_totp}

  -- The writes of a registration, in the firm of the invite.
  unfoldable pub accept_invite : ℕ → AppUser → UserInvite → Accounts r → Served r
  accept_invite now u i s = elim (lookup_user_by_email u.email s) [
    | some taken ↦ refuse already_taken s
    | none ↦ record {
      accounts = record s {
        users = s.users ++ u ∷ [];
        invites = update_where (λ j. j.id == i.id) (accepted_row now) s.invites;
      };
      answer = user_of u;
    }
  ]

  unfoldable pub register_from_invite : ℕ → ℕ → Text → Text → Text → Accounts r → Served r
  register_from_invite now new_id salt token password s =
      if not (is_strong hashing password)
      then refuse weak_password s
      else elim (find_where (invite_at (hash_token token)) s.invites) [
        | none ↦ refuse invalid_invite s
        | some i ↦
            if is_some i.accepted_at
            then refuse invalid_invite s
            else if leb i.expires_at now
            then refuse invalid_invite s
            else accept_invite now (new_user new_id (hash_password salt password) now i) i s
      ]

  -- An admin's invitation (backend/app/api/invites.py); its mail may fail.
  unfoldable pub create_invite : ℕ → ℕ → ℕ → Text → Text → Text → ℕ → Accounts r → Served r
  create_invite now new_id firm token email role ttl_hours s =
      elim (find_where (invite_at (hash_token token)) s.invites) [
        | some taken ↦ refuse already_taken s
        | none ↦ record {
          accounts = record s {
            invites =
                s.invites
                ++ new_invite now new_id firm (hash_token token) email role ttl_hours ∷ [];
          };
          answer = done;
        }
      ]

  unfoldable pub fail_login : Text → Accounts r → Served r
  fail_login email s =
      refuse invalid_credentials
        (record s { redis = (record_failure r (login_keys email) s.redis).1 })

  unfoldable pub authenticate : Text → Text → Accounts r → Served r
  authenticate email password s =
      if is_locked r (login_keys email) s.redis
      then refuse (account_locked (at_least_one r (ttl_seconds r (login_keys email) s.redis))) s
      else elim (lookup_user_by_email email s) [
        | none ↦ fail_login email s
        | some u ↦
            if not (verify_password password u.password_hash)
            then fail_login email s
            else if not u.is_active
            then refuse account_inactive s
            else record {
              accounts = record s { redis = clear r (login_keys email) s.redis };
              answer = user_of u;
            }
      ]

  unfoldable pub touch_last_login : ℕ → ℕ → ℕ → Accounts r → Served r
  touch_last_login now id firm s = record {
    accounts = record s {
      users = update_where (user_at firm id) (λ u. record u { last_login_at = some now }) s.users;
    };
    answer = done;
  }

  unfoldable pub change_password : ℕ → Text → ℕ → ℕ → Text → Text → Accounts r → Served r
  change_password now salt id firm current new s =
      if not (is_strong hashing new)
      then refuse weak_password s
      else elim (find_where (user_at firm id) s.users) [
        | none ↦ refuse invalid_credentials s
        | some u ↦
            if not (verify_password current u.password_hash)
            then refuse invalid_credentials s
            else let hash = hash_password salt new in
              record {
                accounts = record s {
                  users = update_where (user_at firm id) (with_password hash now) s.users;
                };
                answer = user_of (with_password hash now u);
              }
      ]

  -- The mail with the token is sent after the row is committed, and may fail.
  unfoldable pub initiate_password_reset : ℕ → ℕ → Text → Text → Option Text → Accounts r → Served r
  initiate_password_reset now new_id token email ip s = elim (lookup_user_by_email email s) [
    | none ↦ record { accounts = s; answer = done }
    | some u ↦ elim (find_where (reset_at (hash_token token)) s.resets) [
      | some taken ↦ refuse already_taken s
      | none ↦ record {
        accounts = record s {
          resets = s.resets ++ new_reset now new_id (hash_token token) ip u ∷ [];
        };
        answer = done;
      }
    ]
  ]

  -- The writes of a reset, in the firm of the token. With calls one after another the second look
  -- at `used_at` finds what the first one found.
  unfoldable pub use_reset : ℕ → Text → PasswordReset → Accounts r → Served r
  use_reset now hash p s =
      let users = update_where (user_at p.firm_id p.user_id) (with_password hash now) s.users in
      elim (find_where (user_at p.firm_id p.user_id) users) [
        | none ↦ refuse assertion_error s
        | some u ↦ record {
          accounts = record s {
            users = users;
            resets =
                update_where (λ q. q.id == p.id && not (is_some q.used_at)) (used_row now) s.resets;
          };
          answer = user_of u;
        }
      ]

  unfoldable pub complete_password_reset : ℕ → Text → Text → Text → Accounts r → Served r
  complete_password_reset now salt token password s =
      if not (is_strong hashing password)
      then refuse weak_password s
      else elim (find_where (reset_at (hash_token token)) s.resets) [
        | none ↦ refuse invalid_reset_token s
        | some p ↦
            if is_some p.used_at
            then refuse invalid_reset_token s
            else if leb p.expires_at now
            then refuse invalid_reset_token s
            else use_reset now (hash_password salt password) p s
      ]

  -- `secret` is the new one, where none is kept.
  unfoldable pub begin_totp_setup : Text → ℕ → ℕ → Accounts r → Served r
  begin_totp_setup secret id firm s = elim (find_where (user_at firm id) s.users) [
    | none ↦ refuse invalid_credentials s
    | some u ↦ if u.totp_confirmed then refuse invalid_credentials s else elim u.totp_secret [
      | some kept ↦ record { accounts = s; answer = secret_of kept }
      | none ↦ record {
        accounts = record s {
          users =
              update_where (user_at firm id) (λ v. record v { totp_secret = some secret }) s.users;
        };
        answer = secret_of secret;
      }
    ]
  ]

  unfoldable pub confirm_totp : ℕ → ℕ → Text → Accounts r → Served r
  confirm_totp id firm code s = elim (find_where (user_at firm id) s.users) [
    | none ↦ refuse invalid_credentials s
    | some u ↦ elim u.totp_secret [
      | none ↦ refuse invalid_credentials s
      | some secret ↦
          if not (verify_totp secret code) then refuse invalid_credentials s else record {
            accounts = record s {
              users =
                  update_where (user_at firm id) (λ v. record v { totp_confirmed = true }) s.users;
            };
            answer = user_of (record u { totp_confirmed = true });
          }
    ]
  ]
