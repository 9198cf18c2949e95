-- ===== src/Auth/Revocation/Replays.antt =====
-- `revoke_token` of a refresh token that was rotated before
-- (src/resourcespace_platform/services/auth_service.py).
use resourcespace_authentica.Base.{
  ℕ, ◌-◌, ◌≤◌, ◌<◌, ◌≡◌, refl, ap, ◌∙◌, String, none, some, true, false, lookup, insert, arith, ok,
  drop_if_keeps, lookup-insert_self, truthy_text, get_or,
}
use resourcespace_authentica.Session.{Session}
use resourcespace_authentica.State.{State, RefreshToken, TokenResponse}
use resourcespace_authentica.Auth.{
  AuthService, prune_state, refresh_grace_ms, is_expired_refresh_token,
}
use resourcespace_authentica.Auth.Prune.{lookup-prune_access_tokens, lookup-prune_refresh_tokens}
use resourcespace_authentica.Auth.Tokens.{
  RefreshDraws, refresh_access_token, replay_answer, stamp_refresh_token,
}
use resourcespace_authentica.Auth.Tokens.Refreshing.{IsUsable, refresh_revoked}
use resourcespace_authentica.Auth.Revocation.{revoke_token}

-- The state after the revocation of a refresh token.
abbrev marked_state : AuthService → ℕ → ℕ → String → State → RefreshToken → State
marked_state service n m token s r =
    let s1 = prune_state service n s in
    record s1 { refresh_tokens = insert token (record r { revoked_at = some m }) s1.refresh_tokens }

revoke_refresh_lem :
    (service : AuthService) (n m : ℕ) (token : String) (s : State) (r : RefreshToken)
    → lookup token s.access_tokens ≡ none
    → lookup token s.refresh_tokens ≡ some r
    → is_expired_refresh_token (refresh_grace_ms service.config) n r ≡ false
    → (revoke_token service n m token s).1 ≡ marked_state service n m token s r
unfolding revoke_token
revoke_refresh_lem service n m token s r no_access stored kept =
    let found =
      drop_if_keeps (is_expired_refresh_token (refresh_grace_ms service.config) n)
        (lookup token s.refresh_tokens) r stored kept in
    rw (lookup-prune_access_tokens service n s token)
      (rw no_access (rw (lookup-prune_refresh_tokens service n s token) (rw found refl)))

-- A refresh token whose rotation is cached, and which is revoked at the time `m`, answers with the
-- cached tokens for a grace period that starts at `m`, however long ago it was rotated, as long as
-- the store still has it at the revocation and it has not expired.
pub revoke_token_restarts_grace :
    (service : AuthService) (n m : ℕ) (d : RefreshDraws) (client_id token : String) (s : State)
    (r : RefreshToken) (session : Session) (tokens : TokenResponse)
    → lookup token s.access_tokens ≡ none
    → IsUsable service n client_id token s r session
    → r.rotation_response ≡ some tokens
    → truthy_text tokens.refresh_token ≡ true
    → 0 < m
    → d.prune_now - m ≤ refresh_grace_ms service.config
    → d.grace_now - m ≤ refresh_grace_ms service.config
    → d.prune_now < get_or r.expires_at 0
    → (refresh_access_token service d client_id token (revoke_token service n m token s).1).0
      ≡ ok (ok tokens)
unfolding stamp_refresh_token replay_answer
revoke_token_restarts_grace service n m d client_id token s r session tokens no_access u cached text
      positive pruned grace live =
    let marked : RefreshToken = record r { revoked_at = some m } in
    let s2 = marked_state service n m token s r in
    let u2 : IsUsable service d.prune_now client_id token s2 marked session = record {
      stored = lookup-insert_self token marked _;
      kept = ground arith;
      client = u.client;
      configured = u.configured;
      opens = u.opens;
    } in
    rw (revoke_refresh_lem service n m token s r no_access u.stored u.kept) (
      ap (λ x. x.0) (refresh_revoked service d client_id token s2 marked session u2 (ground arith))
      ∙ ap ok (ground (arith, cached, text)))
