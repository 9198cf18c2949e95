-- ===== src/Auth/Revocation/Laws.antt =====
-- Access tokens after `revoke_token` and `revoke_tokens_for_user`
-- (src/resourcespace_platform/services/auth_service.py).
use resourcespace_authentica.Base.{
  ℕ, ◌<◌, ◌≡◌, refl, ap, ◌∙◌, String, Option, none, some, true, lookup, arith, ok,
  lookup-erase_self, lookup-map_values, inl, inr, Bool-cases,
}
use resourcespace_authentica.State.{State, AccessToken, RefreshToken}
use resourcespace_authentica.Auth.{AuthService, prune_state, is_expired_access_token}
use resourcespace_authentica.Auth.Prune.{lookup-prune_access_tokens}
use resourcespace_authentica.Auth.Tokens.{read_access_token}
use resourcespace_authentica.Auth.Tokens.Reading.{read_missing, read_expired}
use resourcespace_authentica.Auth.Revocation.{
  revoke_token, revoke_access, revoke_refresh, revoke_tokens_for_user, revoke_access_of,
  is_session_of,
}

access-revoke_refresh :
    (token : String) (now : ℕ) (s : State) (found : Option RefreshToken)
    → (revoke_refresh token now s found).1.access_tokens ≡ s.access_tokens
access-revoke_refresh token now s none = refl
access-revoke_refresh token now s (some r) = refl

revoke_access-missing :
    (token : String) (now : ℕ) (s : State) (found : Option AccessToken)
    → lookup token s.access_tokens ≡ found
    → lookup token (revoke_access token now s found).1.access_tokens ≡ none
revoke_access-missing token now s none e =
    ap (lookup token) (access-revoke_refresh token now s (lookup token s.refresh_tokens)) ∙ e
revoke_access-missing token now s (some r) e = lookup-erase_self token s.access_tokens

-- After a call of the revocation endpoint's `revoke_token`, the text that was revoked reads as no
-- access token, whatever it was and whenever it is read.
pub read-revoke_token :
    (service : AuthService) (n m now : ℕ) (token : String) (s : State)
    → (read_access_token service now token (revoke_token service n m token s).1).0 ≡ ok none
unfolding revoke_token
read-revoke_token service n m now token s =
    let s1 = prune_state service n s in
    read_missing service now token (revoke_token service n m token s).1
      (revoke_access-missing token m s1 (lookup token s1.access_tokens) refl)

-- A stored access token of the user reads as nothing once the user is revoked, whenever it is read;
-- the clock does not read zero at the revocation.
pub read-revoke_tokens_for_user :
    (service : AuthService) (n m now : ℕ) (user_id tenant_id token : String) (s : State)
    (r : AccessToken)
    → 0 < m
    → lookup token s.access_tokens ≡ some r
    → is_session_of user_id tenant_id r.session ≡ true
    → (read_access_token service now token
        (revoke_tokens_for_user service n m user_id tenant_id s)).0
      ≡ ok none
unfolding revoke_tokens_for_user
read-revoke_tokens_for_user service n m now user_id tenant_id token s r positive stored own =
    let s1 = prune_state service n s in
    let s2 = revoke_tokens_for_user service n m user_id tenant_id s in
    let f = revoke_access_of user_id tenant_id m in
    let mapped = lookup-map_values f token s1.access_tokens in
    elim (Bool-cases (is_expired_access_token n r)) [
      | inl gone ↦
          read_missing service now token s2
            (rw (mapped, lookup-prune_access_tokens service n s token) (rw stored (rw gone refl)))
      | inr kept ↦
          read_expired service now token s2 (f r)
            (rw (mapped, lookup-prune_access_tokens service n s token) (rw stored (rw kept refl)))
            (ground arith)
    ]
