-- ===== src/Auth/Tokens/Refreshing.antt =====
-- The rotation and the replay of `refresh_access_token`
-- (src/resourcespace_platform/services/auth_service.py).
use resourcespace_authentica.Base.{
  ℕ, ◌-◌, ◌≤◌, String, ◌≡◌, ◌≢◌, ◌<◌, refl, ap, ◌∙◌, some, true, false, lookup, insert, arith, ok,
  err, truthy, truthy_number, get_or, lookup-insert_self, drop_if_keeps, eq_iff, ◌==◌,
}
use resourcespace_authentica.Session.{Session, try_open_session_dict, stamp_broker_session_metadata}
use resourcespace_authentica.State.{State, RefreshToken}
use resourcespace_authentica.Auth.{
  AuthService, is_configured_client, prune_state, refresh_grace_ms, is_expired_refresh_token,
}
use resourcespace_authentica.Auth.Prune.{lookup-prune_refresh_tokens}
use resourcespace_authentica.Auth.Tokens.{
  RefreshDraws, token_response, refresh_access_token, refresh_stamped, refresh_opened,
  stamp_refresh_token, replay_answer, rotate, refresh_not_found,
}

-- A stored refresh token of a configured client whose sealed session opens; `now` is the time of
-- the pruning, which it survives.
pub record IsUsable (service : AuthService) (now : ℕ) (client_id token : String) (s : State)
    (r : RefreshToken) (session : Session) : Type 0 where
  pub stored : lookup token s.refresh_tokens ≡ some r
  pub kept : is_expired_refresh_token (refresh_grace_ms service.config) now r ≡ false
  pub client : r.client_id ≡ client_id
  pub configured : is_configured_client service.config client_id ≡ true
  pub opens :
      try_open_session_dict service.field_cipher (stamp_refresh_token service.config r).session
      ≡ ok (some session)

-- The state after the pruning in which the record was stamped in place.
abbrev pub stamped_state : AuthService → ℕ → String → State → RefreshToken → State
stamped_state service now token s r =
    let s1 = prune_state service now s in
    record s1 {
      refresh_tokens = insert token (stamp_refresh_token service.config r) s1.refresh_tokens;
    }

module _ (service : AuthService) (d : RefreshDraws) (client_id token : String) (s : State)
    (r : RefreshToken) (session : Session)
    (u : IsUsable service d.prune_now client_id token s r session) where
  pub refresh_usable : refresh_access_token service d client_id token s ≡ (
      let (answer, s') =
        refresh_opened service d token client_id
          (stamp_refresh_token service.config r)
          (stamped_state service d.prune_now token s r)
          (some session) in
      (ok answer, s'))
  unfolding refresh_access_token refresh_stamped
  refresh_usable =
      let found =
        drop_if_keeps (is_expired_refresh_token (refresh_grace_ms service.config) d.prune_now)
          (lookup token s.refresh_tokens) r u.stored u.kept in
      let same : (r.client_id == client_id) ≡ true = (eq_iff r.client_id client_id).1 u.client in
      let known : is_configured_client service.config r.client_id ≡ true =
        rw u.client u.configured in
      rw (u.configured, lookup-prune_refresh_tokens service d.prune_now s token)
        (rw found (rw same (rw known (rw u.opens refl))))

  -- A token that is revoked is answered from its cache, or refused, and the only change is the
  -- pruning and the stamp: nothing is minted.
  pub refresh_revoked :
      truthy_number r.revoked_at ≡ true
      → refresh_access_token service d client_id token s ≡ (
        ok (replay_answer service d.grace_now (stamp_refresh_token service.config r)),
        stamped_state service d.prune_now token s r,
      )
  unfolding stamp_refresh_token
  refresh_revoked revoked = refresh_usable ∙ rw revoked refl

  -- One that is not is rotated.
  pub refresh_rotates :
      truthy_number r.revoked_at ≡ false
      → refresh_access_token service d client_id token s ≡ (
          let (answer, s') =
            rotate service d token client_id
              (stamp_refresh_token service.config r)
              session
              (stamped_state service d.prune_now token s r) in
          (ok answer, s'))
  unfolding stamp_refresh_token
  refresh_rotates fresh = refresh_usable ∙ rw fresh refl

-- The record of a token after its rotation.
abbrev pub rotated_record : AuthService → RefreshDraws → RefreshToken → RefreshToken
rotated_record service d r = record (stamp_refresh_token service.config r) {
  revoked_at = some d.revoke_now;
  rotation_response = some (token_response service d.pair r.scope);
}

lookup-rotate :
    (service : AuthService) (d : RefreshDraws) (token client_id : String) (r : RefreshToken)
    (session : Session) (s : State)
    → d.pair.refresh_token ≢ token
    → lookup token
        (rotate service d token client_id
          (stamp_refresh_token service.config r)
          session
          s).1.refresh_tokens
      ≡ some (rotated_record service d r)
unfolding rotate stamp_refresh_token
lookup-rotate service d token client_id r session s h =
    let other : (d.pair.refresh_token == token) ≡ false =
      ground (arith, eq_iff d.pair.refresh_token token) in
    rw other (lookup-insert_self token (rotated_record service d r) _)

replay_rotated :
    (service : AuthService) (d : RefreshDraws) (now : ℕ) (r : RefreshToken)
    → truthy d.pair.refresh_token ≡ true
    → now - d.revoke_now ≤ refresh_grace_ms service.config
    → replay_answer service now (stamp_refresh_token service.config (rotated_record service d r))
      ≡ ok (token_response service d.pair r.scope)
unfolding replay_answer stamp_refresh_token
replay_rotated service d now r text grace = ground arith

-- The state after the rotation of a usable token.
abbrev rotated_state :
    AuthService → RefreshDraws → String → String → State → RefreshToken → Session → State
rotated_state service d client_id token s r session =
    (rotate service d token client_id (stamp_refresh_token service.config r) session
      (stamped_state service d.prune_now token s r)).1

rotated_IsUsable :
    (service : AuthService) (d : RefreshDraws) (now : ℕ) (client_id token : String) (s : State)
    (r : RefreshToken) (session : Session)
    → IsUsable service d.prune_now client_id token s r session
    → d.pair.refresh_token ≢ token
    → now - d.revoke_now ≤ refresh_grace_ms service.config
    → now < get_or r.expires_at 0
    → IsUsable service now client_id token
        (rotated_state service d client_id token s r session)
        (rotated_record service d r)
        session
unfolding stamp_refresh_token stamp_broker_session_metadata
rotated_IsUsable service d now client_id token s r session u other pruned live = record {
  stored =
      lookup-rotate service d token client_id r session
        (stamped_state service d.prune_now token s r) other;
  kept = ground arith;
  client = u.client;
  configured = u.configured;
  opens = u.opens;
}

-- A refresh that rotates a token and a replay of the same token within the grace period, both at
-- times at which the record is kept, are answered with the same tokens; the replay changes nothing
-- in the bucket of access tokens but the pruning. The new token differs from the old one and is not
-- empty, and the clock does not read zero at the revocation.
pub refresh_idempotent :
    (service : AuthService) (d d' : RefreshDraws) (client_id token : String) (s : State)
    (r : RefreshToken) (session : Session)
    → IsUsable service d.prune_now client_id token s r session
    → truthy_number r.revoked_at ≡ false
    → d.pair.refresh_token ≢ token
    → truthy d.pair.refresh_token ≡ true
    → 0 < d.revoke_now
    → d'.grace_now - d.revoke_now ≤ refresh_grace_ms service.config
    → d'.prune_now - d.revoke_now ≤ refresh_grace_ms service.config
    → d'.prune_now < get_or r.expires_at 0
    → (let s1 = (refresh_access_token service d client_id token s).1 in
        ((refresh_access_token service d client_id token s).0
          ≡ ok (ok (token_response service d.pair r.scope)))
        × ((refresh_access_token service d' client_id token s1).0
            ≡ ok (ok (token_response service d.pair r.scope)))
        × ((refresh_access_token service d' client_id token s1).1.access_tokens
            ≡ (prune_state service d'.prune_now s1).access_tokens))
unfolding rotate stamp_refresh_token
refresh_idempotent service d d' client_id token s r session u fresh other text positive grace pruned
      live =
    let u' =
      rotated_IsUsable service d d'.prune_now client_id token s r session u other pruned live in
    let s1 = rotated_state service d client_id token s r session in
    let again =
      refresh_revoked service d' client_id token s1 (rotated_record service d r) session u'
        (ground arith) in
    rw (refresh_rotates service d client_id token s r session u fresh)
      (rw again (refl, ap ok (replay_rotated service d d'.grace_now r text grace), refl))

-- A token that was revoked longer ago than the grace period is refused as unknown, to every
-- configured client.
pub refresh_after_grace :
    (service : AuthService) (d : RefreshDraws) (client_id token : String) (s : State)
    (r : RefreshToken) (revoked : ℕ)
    → is_configured_client service.config client_id ≡ true
    → lookup token s.refresh_tokens ≡ some r
    → r.revoked_at ≡ some revoked
    → 0 < revoked
    → refresh_grace_ms service.config < d.prune_now - revoked
    → refresh_access_token service d client_id token s
      ≡ (ok (err refresh_not_found), prune_state service d.prune_now s)
unfolding refresh_access_token
refresh_after_grace service d client_id token s r revoked c stored at positive late =
    let gone : is_expired_refresh_token (refresh_grace_ms service.config) d.prune_now r ≡ true =
      ground arith in
    rw (c, lookup-prune_refresh_tokens service d.prune_now s token) (rw stored (rw gone refl))
