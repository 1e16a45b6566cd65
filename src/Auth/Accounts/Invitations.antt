-- ===== src/Auth/Accounts/Invitations.antt =====
-- An invitation is accepted once (backend/app/auth/service.py).
use niyam_ai.Base.{
  ℕ, ◌≡◌, refl, true, some, List, arith, Text, ◌==◌, find_where, find_where-update_where,
  Option-cases, inl, inr, if◌then◌else◌,
}
use niyam_ai.Auth.Redis.{Redis}
use niyam_ai.Auth.Tables.{
  AppUser, UserInvite, Accounts, invalid_invite, weak_password, user_of, refused, Hashing,
  invite_at, accepted_row, is_strong, new_user,
}
use niyam_ai.Auth.Accounts.{accept_invite, register_from_invite}
use niyam_ai.Auth.Accounts.Tokens.{Request, is_spent_invite, serve_all, serve_all-KeepsSpent}

module _ {r : Redis} (hashing : Hashing) where
  accept_invite-is_spent_invite :
      (now : ℕ) (h : Text) (v u : AppUser) (i : UserInvite) (s : Accounts r)
      → find_where (invite_at h) s.invites ≡ some i
      → (accept_invite hashing now v i s).answer ≡ user_of u
      → is_spent_invite h (accept_invite hashing now v i s).accounts.invites ≡ true
  unfolding accept_invite
  accept_invite-is_spent_invite now h v u i s e ok = ground (
    arith,
    e,
    ok,
    find_where-update_where (invite_at h) (λ j. j.id == i.id) (accepted_row now) s.invites
        (λ j. refl),
  )

  register_from_invite-is_spent_invite :
      (now new_id : ℕ) (salt token password : Text) (u : AppUser) (s : Accounts r)
      → (register_from_invite hashing now new_id salt token password s).answer ≡ user_of u
      → is_spent_invite
          (hashing.hash_token token)
          (register_from_invite hashing now new_id salt token password s).accounts.invites
        ≡ true
  unfolding register_from_invite
  register_from_invite-is_spent_invite now new_id salt token password u s ok =
      elim (Option-cases (find_where (invite_at (hashing.hash_token token)) s.invites)) [
        | inl e ↦ ground (arith, e, ok)
        | inr (i, e) ↦ ground (
          arith,
          e,
          ok,
          accept_invite-is_spent_invite now (hashing.hash_token token)
              (new_user new_id (hashing.hash_password salt password) now i) u i s e,
        )
      ]

  spent-register_from_invite :
      (now new_id : ℕ) (salt token password : Text) (s : Accounts r)
      → is_spent_invite (hashing.hash_token token) s.invites ≡ true
      → (register_from_invite hashing now new_id salt token password s).answer
        ≡ refused (if is_strong hashing password then invalid_invite else weak_password)
  unfolding register_from_invite
  spent-register_from_invite now new_id salt token password s k =
      elim (Option-cases (find_where (invite_at (hashing.hash_token token)) s.invites)) [
        | inl e ↦ ground (arith, e, k)
        | inr (i, e) ↦ ground (arith, e, k)
      ]

  -- An invitation makes one user: whatever calls of the service come in between, a second
  -- registration with its token is refused.
  register_from_invite_once :
      (now new_id : ℕ) (salt token password : Text) (u : AppUser) (s : Accounts r)
      (qs : List Request) (later new_id' : ℕ) (salt' password' : Text)
      → (register_from_invite hashing now new_id salt token password s).answer ≡ user_of u
      → (register_from_invite hashing later new_id' salt' token password' (
          serve_all hashing qs
            (register_from_invite hashing now new_id salt token password s).accounts)).answer
        ≡ refused (if is_strong hashing password' then invalid_invite else weak_password)
  register_from_invite_once now new_id salt token password u s qs later new_id' salt' password' ok =
      let after = (register_from_invite hashing now new_id salt token password s).accounts in
      spent-register_from_invite later new_id' salt' token password' (serve_all hashing qs after) (
        (serve_all-KeepsSpent hashing qs after).0 (hashing.hash_token token)
          (register_from_invite-is_spent_invite now new_id salt token password u s ok))
