-- ===== src/Auth/Accounts/Tokens.antt =====
-- A token is spent once (backend/app/auth/service.py, password_reset.py).
use niyam_ai.Base.{
  ℕ, ◌≡◌, refl, Bool, true, false, not, ◌&&◌, Option, none, some, List, [], ◌∷◌, ◌++◌, arith, Text,
  ◌==◌, is_some, find_where, find_where-update_where, find_where-append, update_where, Option-cases,
  inl, inr, if◌then◌else◌,
}
use niyam_ai.Auth.Redis.{Redis}
use niyam_ai.Auth.Tables.{
  AppUser, UserInvite, PasswordReset, Accounts, weak_password, invalid_reset_token, user_of,
  refused, Served, Hashing, invite_at, reset_at, user_at, with_password, accepted_row, used_row,
  is_strong, new_invite, new_reset,
}
use niyam_ai.Auth.Accounts.{
  lookup_user_by_email, accept_invite, register_from_invite, create_invite, fail_login,
  authenticate, touch_last_login, change_password, initiate_password_reset, use_reset,
  complete_password_reset, begin_totp_setup, confirm_totp,
}

pub data Request : Type 0 where
  inviting : (now new_id firm : ℕ) (token email role : Text) (ttl_hours : ℕ) → Request
  registering : (now new_id : ℕ) (salt token password : Text) → Request
  logging_in : (email password : Text) → Request
  touching : (now id firm : ℕ) → Request
  changing : (now : ℕ) (salt : Text) (id firm : ℕ) (current new : Text) → Request
  forgetting : (now new_id : ℕ) (token email : Text) (ip : Option Text) → Request
  resetting : (now : ℕ) (salt token password : Text) → Request
  beginning_totp : (secret : Text) (id firm : ℕ) → Request
  confirming_totp : (id firm : ℕ) (code : Text) → Request

-- The token of a hash is in the table, and was used.
abbrev pub is_spent_invite : Text → List UserInvite → Bool
is_spent_invite h rows = elim (find_where (invite_at h) rows) [
  | none ↦ false
  | some i ↦ is_some i.accepted_at
]

abbrev pub is_spent_reset : Text → List PasswordReset → Bool
is_spent_reset h rows = elim (find_where (reset_at h) rows) [
  | none ↦ false
  | some p ↦ is_some p.used_at
]

is_spent_invite-append :
    (h : Text) (rows : List UserInvite) (i : UserInvite)
    → is_spent_invite h rows ≡ true
    → is_spent_invite h (rows ++ i ∷ []) ≡ true
is_spent_invite-append h rows i k = elim (Option-cases (find_where (invite_at h) rows)) [
  | inl e ↦ ground (arith, e, k)
  | inr (j, e) ↦ ground (arith, e, k, find_where-append (invite_at h) rows (i ∷ []) j e)
]

is_spent_invite-update_where :
    (h : Text) (now : ℕ) (p : UserInvite → Bool) (rows : List UserInvite)
    → is_spent_invite h rows ≡ true
    → is_spent_invite h (update_where p (accepted_row now) rows) ≡ true
is_spent_invite-update_where h now p rows k =
    let found = find_where-update_where (invite_at h) p (accepted_row now) rows (λ i. refl) in
    elim (Option-cases (find_where (invite_at h) rows)) [
      | inl e ↦ ground (arith, e, k)
      | inr (j, e) ↦ ground (arith, e, k, found)
    ]

is_spent_reset-append :
    (h : Text) (rows : List PasswordReset) (p : PasswordReset)
    → is_spent_reset h rows ≡ true
    → is_spent_reset h (rows ++ p ∷ []) ≡ true
is_spent_reset-append h rows p k = elim (Option-cases (find_where (reset_at h) rows)) [
  | inl e ↦ ground (arith, e, k)
  | inr (j, e) ↦ ground (arith, e, k, find_where-append (reset_at h) rows (p ∷ []) j e)
]

is_spent_reset-update_where :
    (h : Text) (now : ℕ) (q : PasswordReset → Bool) (rows : List PasswordReset)
    → is_spent_reset h rows ≡ true
    → is_spent_reset h (update_where q (used_row now) rows) ≡ true
is_spent_reset-update_where h now q rows k =
    let found = find_where-update_where (reset_at h) q (used_row now) rows (λ i. refl) in
    elim (Option-cases (find_where (reset_at h) rows)) [
      | inl e ↦ ground (arith, e, k)
      | inr (j, e) ↦ ground (arith, e, k, found)
    ]

module _ {r : Redis} (hashing : Hashing) where
  unfoldable pub serve : Request → Accounts r → Served r
  serve (inviting now new_id firm token email role ttl) s =
      create_invite hashing now new_id firm token email role ttl s
  serve (registering now new_id salt token password) s =
      register_from_invite hashing now new_id salt token password s
  serve (logging_in email password) s = authenticate hashing email password s
  serve (touching now id firm) s = touch_last_login hashing now id firm s
  serve (changing now salt id firm current new) s =
      change_password hashing now salt id firm current new s
  serve (forgetting now new_id token email ip) s =
      initiate_password_reset hashing now new_id token email ip s
  serve (resetting now salt token password) s =
      complete_password_reset hashing now salt token password s
  serve (beginning_totp secret id firm) s = begin_totp_setup hashing secret id firm s
  serve (confirming_totp id firm code) s = confirm_totp hashing id firm code s

  unfoldable pub serve_all : List Request → Accounts r → Accounts r
  serve_all [] s = s
  serve_all (q ∷ qs) s = serve_all qs (serve q s).accounts

  -- Both tables keep what was spent.
  abbrev pub KeepsSpent : Accounts r → Accounts r → Type 0
  KeepsSpent s s' =
      ((h : Text) → is_spent_invite h s.invites ≡ true → is_spent_invite h s'.invites ≡ true)
      × ((h : Text) → is_spent_reset h s.resets ≡ true → is_spent_reset h s'.resets ≡ true)

  serve-KeepsSpent : (q : Request) (s : Accounts r) → KeepsSpent s (serve q s).accounts
  unfolding serve create_invite register_from_invite accept_invite authenticate fail_login
      touch_last_login change_password initiate_password_reset complete_password_reset use_reset
      begin_totp_setup confirm_totp
  serve-KeepsSpent (inviting now new_id firm token email role ttl) s = (
    λ h k. ground (
      arith,
      k,
      is_spent_invite-append h s.invites
          (new_invite now new_id firm (hashing.hash_token token) email role ttl),
    ),
    λ h k. ground (arith, k),
  )
  serve-KeepsSpent (registering now new_id salt token password) s = (
    λ h k. elim (Option-cases (find_where (invite_at (hashing.hash_token token)) s.invites)) [
      | inl e ↦ ground (arith, e, k)
      | inr (i, e) ↦
          ground (arith, e, k, is_spent_invite-update_where h now (λ j. j.id == i.id) s.invites)
    ],
    λ h k. ground (arith, k),
  )
  serve-KeepsSpent (logging_in email password) s =
      (λ h k. ground (arith, k), λ h k. ground (arith, k))
  serve-KeepsSpent (touching now id firm) s = (λ h k. k, λ h k. k)
  serve-KeepsSpent (changing now salt id firm current new) s =
      (λ h k. ground (arith, k), λ h k. ground (arith, k))
  serve-KeepsSpent (forgetting now new_id token email ip) s = (
    λ h k. ground (arith, k),
    λ h k. elim (Option-cases (lookup_user_by_email email s)) [
      | inl e ↦ ground (arith, e, k)
      | inr (u, e) ↦ ground (
        arith,
        e,
        k,
        is_spent_reset-append h s.resets (new_reset now new_id (hashing.hash_token token) ip u),
      )
    ],
  )
  serve-KeepsSpent (resetting now salt token password) s = (
    λ h k. ground (arith, k),
    λ h k. elim (Option-cases (find_where (reset_at (hashing.hash_token token)) s.resets)) [
      | inl e ↦ ground (arith, e, k)
      | inr (p, e) ↦ ground (
        arith,
        e,
        k,
        is_spent_reset-update_where h now (λ q. q.id == p.id && not (is_some q.used_at)) s.resets,
      )
    ],
  )
  serve-KeepsSpent (beginning_totp secret id firm) s =
      (λ h k. ground (arith, k), λ h k. ground (arith, k))
  serve-KeepsSpent (confirming_totp id firm code) s =
      (λ h k. ground (arith, k), λ h k. ground (arith, k))

  pub serve_all-KeepsSpent : (qs : List Request) (s : Accounts r) → KeepsSpent s (serve_all qs s)
  unfolding serve_all
  serve_all-KeepsSpent [] s = (λ h k. k, λ h k. k)
  serve_all-KeepsSpent (q ∷ qs) s =
      let first = serve-KeepsSpent q s in
      let rest = serve_all-KeepsSpent qs (serve q s).accounts in
      (λ h k. rest.0 h (first.0 h k), λ h k. rest.1 h (first.1 h k))

  -- What a success spends.
  use_reset-is_spent_reset :
      (now : ℕ) (hash h : Text) (p : PasswordReset) (u : AppUser) (s : Accounts r)
      → find_where (reset_at h) s.resets ≡ some p
      → is_some p.used_at ≡ false
      → (use_reset hashing now hash p s).answer ≡ user_of u
      → is_spent_reset h (use_reset hashing now hash p s).accounts.resets ≡ true
  unfolding use_reset
  use_reset-is_spent_reset now hash h p u s e free ok =
      let found =
        find_where-update_where (reset_at h) (λ q. q.id == p.id && not (is_some q.used_at))
          (used_row now) s.resets (λ q. refl) in
      elim (Option-cases (
        find_where (user_at p.firm_id p.user_id)
          (update_where (user_at p.firm_id p.user_id) (with_password hash now) s.users))) [
            | inl m ↦ ground (arith, m, ok)
            | inr (v, m) ↦ ground (arith, m, e, free, found)
          ]

  complete_password_reset-is_spent_reset :
      (now : ℕ) (salt token password : Text) (u : AppUser) (s : Accounts r)
      → (complete_password_reset hashing now salt token password s).answer ≡ user_of u
      → is_spent_reset
          (hashing.hash_token token)
          (complete_password_reset hashing now salt token password s).accounts.resets
        ≡ true
  unfolding complete_password_reset
  complete_password_reset-is_spent_reset now salt token password u s ok =
      elim (Option-cases (find_where (reset_at (hashing.hash_token token)) s.resets)) [
        | inl e ↦ ground (arith, e, ok)
        | inr (p, e) ↦ ground (
          arith,
          e,
          ok,
          use_reset-is_spent_reset now (hashing.hash_password salt password)
              (hashing.hash_token token) p u s e,
        )
      ]

  spent-complete_password_reset :
      (now : ℕ) (salt token password : Text) (s : Accounts r)
      → is_spent_reset (hashing.hash_token token) s.resets ≡ true
      → (complete_password_reset hashing now salt token password s).answer
        ≡ refused (if is_strong hashing password then invalid_reset_token else weak_password)
  unfolding complete_password_reset
  spent-complete_password_reset now salt token password s k =
      elim (Option-cases (find_where (reset_at (hashing.hash_token token)) s.resets)) [
        | inl e ↦ ground (arith, e, k)
        | inr (p, e) ↦ ground (arith, e, k)
      ]

  -- A token that changed a password changes none again: whatever calls of the service come in
  -- between, and whenever, a second reset with the token is refused, with any new password.
  pub complete_password_reset_once :
      (now : ℕ) (salt token password : Text) (u : AppUser) (s : Accounts r) (qs : List Request)
      (later : ℕ) (salt' password' : Text)
      → (complete_password_reset hashing now salt token password s).answer ≡ user_of u
      → (complete_password_reset hashing later salt' token password' (
          serve_all qs (complete_password_reset hashing now salt token password s).accounts)).answer
        ≡ refused (if is_strong hashing password' then invalid_reset_token else weak_password)
  complete_password_reset_once now salt token password u s qs later salt' password' ok =
      let after = (complete_password_reset hashing now salt token password s).accounts in
      spent-complete_password_reset later salt' token password' (serve_all qs after) (
        (serve_all-KeepsSpent qs after).1 (hashing.hash_token token)
          (complete_password_reset-is_spent_reset now salt token password u s ok))
