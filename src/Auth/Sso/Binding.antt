-- ===== src/Auth/Sso/Binding.antt =====
-- The code that `complete_sso_authorization` mints for a handoff that
-- `begin_sso_authorization` began (src/resourcespace_platform/services/auth_service.py).
use mathlib.Core.Path.{subst}
use resourcespace_authentica.Base.{
  ◌+◌, ◌*◌, ok, err, Result, ok_inj, Bool-cases, inl, inr, leb, count, truthy, truthy_text, get_or,
  if◌then◌else◌, ℕ, ◌<◌, ◌≡◌, refl, ap, ◌∙◌, String, Option, none, some, ◌≤◌, drop_if_keeps, false,
  lookup, arith, lookup-insert_self, truthy_number,
}
use resourcespace_authentica.Errors.{Exception}
use resourcespace_authentica.Session.{
  seal_session, Session, stamp_broker_session_metadata, integration_for_client_id,
}
use resourcespace_authentica.State.{State, PendingSsoState}
use resourcespace_authentica.Auth.{AuthService, prune_state, is_purged}
use resourcespace_authentica.Auth.Prune.{lookup-prune_pending}
use resourcespace_authentica.Auth.Codes.{code_record, mint_authorization_code}
use resourcespace_authentica.Auth.Sso.{
  SsoDraws, SsoRequest, pending_record, begin_within, begin_sso_authorization,
  max_pending_sso_states, max_pending_sso_states_per_source, is_active_of_source,
  is_active_pending_sso_state, CompletionDraws, valid, active, classify_pending_sso_record,
  complete_sso_authorization, mark_found, request_of,
}

codes-mark_found :
    (handoff_state : String) (now : ℕ) (s : State) (found : Option PendingSsoState)
    → (mark_found handoff_state now s found).authorization_codes ≡ s.authorization_codes
codes-mark_found handoff_state now s none = refl
codes-mark_found handoff_state now s (some r) = refl

-- A completion of a handoff that is stored, not yet purged, unused and not past its expiry is the
-- minting of a code for its request.
complete_active :
    (service : AuthService) (d : CompletionDraws) (handoff_state : String) (session : Session)
    (s : State) (r : PendingSsoState)
    → lookup handoff_state s.pending_sso_states ≡ some r
    → d.prune_now < r.purge_at
    → truthy_number r.used_at ≡ false
    → d.classify_now ≤ r.expires_at
    → (let stamped =
          stamp_broker_session_metadata r.client_id
            (integration_for_client_id service.config r.client_id)
            session in
        let (answer, s') = complete_sso_authorization service d handoff_state session s in
        (answer ≡ valid d.mint.code (record r { used_at = some d.used_now }))
        × (lookup d.mint.code s'.authorization_codes
            ≡ some (code_record service d.mint (request_of r) stamped)))
unfolding complete_sso_authorization mint_authorization_code
complete_active service d handoff_state session s r stored kept unused live =
    let found =
      drop_if_keeps (is_purged d.prune_now) (lookup handoff_state s.pending_sso_states) r stored
        (ground arith) in
    let is_active : classify_pending_sso_record d.classify_now (some r) ≡ active r = ground arith in
    rw (lookup-prune_pending service d.prune_now s handoff_state) (
      rw found (
        rw is_active (
          refl,
          ap (lookup d.mint.code) (codes-mark_found handoff_state d.used_now _ _)
              ∙ lookup-insert_self d.mint.code _ _,
        )))

within_stored :
    (service : AuthService) (b : SsoDraws) (q : SsoRequest) (s s' : State) (token : String)
    (limit : Result Exception ℕ)
    → begin_within service b q s limit ≡ ok (token, s')
    → lookup token s'.pending_sso_states ≡ some (pending_record service b q)
within_stored service b q s s' token (err e) h = cc
within_stored service b q s s' token (ok limit) h =
    let pending = s.pending_sso_states in
    elim (Bool-cases
      (leb limit (count (is_active_of_source q.initiator_key b.count_now) pending))) [
        | inl full ↦ absurd (cc (rw full at h))
        | inr room ↦
            elim (Bool-cases (
              leb max_pending_sso_states
                (count (is_active_pending_sso_state b.count_now) pending))) [
                  | inl full ↦ absurd (cc (rw (room, full) at h))
                  | inr space ↦
                      subst
                        (λ x. lookup x.0 x.1.pending_sso_states ≡ some (pending_record service b q))
                        (ok_inj (rw (room, space) at h))
                        (lookup-insert_self b.handoff_state (pending_record service b q) pending)
                ]
      ]

-- An initiation that is accepted stores its record under the token that it answers with.
begun_stored :
    (service : AuthService) (b : SsoDraws) (q : SsoRequest) (s s' : State) (token : String)
    → begin_sso_authorization service b q s ≡ ok (token, s')
    → lookup token s'.pending_sso_states ≡ some (pending_record service b q)
unfolding begin_sso_authorization
begun_stored service b q s s' token h =
    within_stored service b q (prune_state service b.prune_now s) s' token
      (max_pending_sso_states_per_source service) h

-- The default of the method is taken once, when the handoff begins.
method_kept :
    (m : Option String)
    → (let first = if truthy_text m then get_or m "" else "S256" in
        if truthy first then first else "S256")
      ≡ (if truthy_text m then get_or m "" else "S256")
method_kept none = refl
method_kept (some t) = elim (Bool-cases (truthy t)) [
  | inl given ↦ rw (given, given) refl
  | inr missing ↦ rw missing refl
]

-- A handoff that an accepted initiation has just begun, and that is completed within its time to
-- live, gives a code that is bound to the sign-in that began it: it is stored with the client,
-- redirect URI, scope and challenge of the initiation (S256 where no method was sent) and with the
-- sealed session of the completion, stamped with the client.
pub complete-begin :
    (service : AuthService) (b : SsoDraws) (q : SsoRequest) (d : CompletionDraws)
    (session : Session) (s s' : State) (token : String)
    → begin_sso_authorization service b q s ≡ ok (token, s')
    → d.prune_now
      < b.now
        + service.config.resource_space.sso_pending_ttl_seconds * 1000
        + service.config.resource_space.sso_replay_retention_seconds * 1000
    → d.classify_now ≤ b.now + service.config.resource_space.sso_pending_ttl_seconds * 1000
    → (let (answer, s'') = complete_sso_authorization service d token session s' in
        (answer
          ≡ valid d.mint.code (record (pending_record service b q) { used_at = some d.used_now }))
        × (lookup d.mint.code s''.authorization_codes
            ≡ some (record {
              code = d.mint.code;
              client_id = q.client_id;
              redirect_uri = q.redirect_uri;
              scope = q.scope;
              code_challenge = q.code_challenge;
              code_challenge_method =
                  if truthy_text q.code_challenge_method
                  then get_or q.code_challenge_method ""
                  else "S256";
              session = seal_session service.field_cipher d.mint.key_nonce d.mint.email_nonce (
                  stamp_broker_session_metadata q.client_id
                    (integration_for_client_id service.config q.client_id)
                    session);
              expires_at = d.mint.expiry_now + service.config.oauth.auth_code_ttl_seconds * 1000;
            })))
complete-begin service b q d session s s' token begun kept live =
    let (answered, stored) =
      complete_active service d token session s' (pending_record service b q)
        (begun_stored service b q s s' token begun) kept refl live in
    (answered, rw (← method_kept q.code_challenge_method) stored)
