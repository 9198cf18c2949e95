-- ===== src/System/Handoffs.antt =====
-- The sealing of sessions in the steps of handoffs, revocation and grants.
use resourcespace_authentica.Base.{
  ℕ, ◌≡◌, refl, String, Option, none, some, lookup, not, ◌&&◌, ◌||◌, ◌==◌, AllValues-lookup,
  AllValues-insert, AllValues-erase, AllValues-map_values, Bool-cases, inl, inr, leb, ltb,
  truthy_text, get_or, count, is_ascii, Result, ok, err,
}
use resourcespace_authentica.Errors.{Exception}
use resourcespace_authentica.Cipher.{Fernet, fernet_cipher}
use resourcespace_authentica.Session.{Session}
use resourcespace_authentica.State.{State, AccessToken, RefreshToken, PendingSsoState}
use resourcespace_authentica.JsonStore.{settle, transaction}
use resourcespace_authentica.Auth.{AuthService, prune_state}
use resourcespace_authentica.Auth.Sso.{
  SsoDraws, SsoRequest, CompletionDraws, begin_sso_authorization, complete_sso_authorization,
  request_of, consume_pending_sso_state, mark_found, complete_classified, consume_classified,
  Classified, invalid, replayed, expired, active, classify_pending_sso_record,
  max_pending_sso_states, max_pending_sso_states_per_source, begin_within,
  is_active_pending_sso_state, is_active_of_source,
}
use resourcespace_authentica.Auth.Revocation.{
  revoke_token, revoke_access, revoke_refresh, revoke_tokens_for_user, revoke_access_of,
  revoke_refresh_of, is_session_of,
}
use resourcespace_authentica.CanvaVerifier.{Timestamp, positive, negative}
use resourcespace_authentica.Grants.{
  AssetService, GrantDraws, GrantRequest, VerifyDraws, create_grant, verify_grant, verify_parsed,
  prune_expired_grants, create_signature,
}
use resourcespace_authentica.System.Sealed.{
  IsSealedState, IsSealedAccess, IsSealedRefresh, prune-IsSealedState, mint-IsSealedState,
}

mark-IsSealedState :
    (handoff_state : String) (now : ℕ) (s : State) (found : Option PendingSsoState)
    → IsSealedState s
    → IsSealedState (mark_found handoff_state now s found)
mark-IsSealedState handoff_state now s none h = h
mark-IsSealedState handoff_state now s (some r) h = record {
  codes = h.codes;
  access = h.access;
  refresh = h.refresh;
}

module _ (service : AuthService) (f : Fernet) (keyed : service.field_cipher ≡ fernet_cipher f) where
  begin_within-IsSealedState :
      (d : SsoDraws) (q : SsoRequest) (s s1 : State) (limit : Result Exception ℕ)
      → IsSealedState s
      → IsSealedState s1
      → IsSealedState (settle s (begin_within service d q s1 limit)).1
  begin_within-IsSealedState d q s s1 (err e) h h1 = h
  begin_within-IsSealedState d q s s1 (ok limit) h h1 =
      let pending = s1.pending_sso_states in
      elim (Bool-cases
        (leb limit (count (is_active_of_source q.initiator_key d.count_now) pending))) [
          | inl full ↦ rw full h
          | inr room ↦
              elim (Bool-cases (
                leb max_pending_sso_states
                  (count (is_active_pending_sso_state d.count_now) pending))) [
                    | inl full ↦ rw (room, full) h
                    | inr space ↦
                        rw (room, space)
                          (record { codes = h1.codes; access = h1.access; refresh = h1.refresh })
                  ]
        ]

  pub begin-IsSealedState :
      (d : SsoDraws) (q : SsoRequest) (s : State)
      → IsSealedState s
      → IsSealedState (transaction (begin_sso_authorization service d q) s).1
  unfolding begin_sso_authorization
  begin-IsSealedState d q s h =
      begin_within-IsSealedState d q s (prune_state service d.prune_now s)
        (max_pending_sso_states_per_source service) h
        (prune-IsSealedState service f keyed d.prune_now s h)

  completed-IsSealedState :
      (d : CompletionDraws) (handoff_state : String) (session : Session) (s : State)
      (c : Classified)
      → IsSealedState s
      → IsSealedState (complete_classified service d handoff_state session s c).1
  completed-IsSealedState d handoff_state session s invalid h = h
  completed-IsSealedState d handoff_state session s (replayed r) h = h
  completed-IsSealedState d handoff_state session s (expired r) h = h
  completed-IsSealedState d handoff_state session s (active r) h =
      mark-IsSealedState handoff_state d.used_now _ _
        (mint-IsSealedState service f keyed d.mint (request_of r) _ s h)

  pub complete-IsSealedState :
      (d : CompletionDraws) (handoff_state : String) (session : Session) (s : State)
      → IsSealedState s
      → IsSealedState (complete_sso_authorization service d handoff_state session s).1
  unfolding complete_sso_authorization
  complete-IsSealedState d handoff_state session s h =
      completed-IsSealedState d handoff_state session (prune_state service d.prune_now s)
        (classify_pending_sso_record d.classify_now _)
        (prune-IsSealedState service f keyed d.prune_now s h)

  consumed-IsSealedState :
      (handoff_state : String) (now : ℕ) (s : State) (c : Classified)
      → IsSealedState s
      → IsSealedState (consume_classified handoff_state now s c).1
  consumed-IsSealedState handoff_state now s invalid h = h
  consumed-IsSealedState handoff_state now s (replayed r) h = h
  consumed-IsSealedState handoff_state now s (expired r) h = h
  consumed-IsSealedState handoff_state now s (active r) h =
      mark-IsSealedState handoff_state now s _ h

  pub consume-IsSealedState :
      (n m k : ℕ) (handoff_state : String) (s : State)
      → IsSealedState s
      → IsSealedState (consume_pending_sso_state service n m k handoff_state s).1
  unfolding consume_pending_sso_state
  consume-IsSealedState n m k handoff_state s h =
      consumed-IsSealedState handoff_state k (prune_state service n s)
        (classify_pending_sso_record m _) (prune-IsSealedState service f keyed n s h)

  revoked_refresh-IsSealedState :
      (token : String) (now : ℕ) (s : State) (found : Option RefreshToken)
      → IsSealedState s
      → ((r : RefreshToken) → found ≡ some r → IsSealedRefresh r)
      → IsSealedState (revoke_refresh token now s found).1
  revoked_refresh-IsSealedState token now s none h k = h
  revoked_refresh-IsSealedState token now s (some r) h k = record {
    codes = h.codes;
    access = h.access;
    refresh =
        AllValues-insert IsSealedRefresh token (record r { revoked_at = some now }) s.refresh_tokens
          (k r refl) h.refresh;
  }

  revoked_access-IsSealedState :
      (token : String) (now : ℕ) (s : State) (found : Option AccessToken)
      → IsSealedState s
      → IsSealedState (revoke_access token now s found).1
  revoked_access-IsSealedState token now s (some r) h = record {
    codes = h.codes;
    access = AllValues-erase IsSealedAccess token s.access_tokens h.access;
    refresh = h.refresh;
  }
  revoked_access-IsSealedState token now s none h =
      revoked_refresh-IsSealedState token now s (lookup token s.refresh_tokens) h
        (λ r e. AllValues-lookup IsSealedRefresh token s.refresh_tokens r h.refresh e)

  pub revoke_token-IsSealedState :
      (n m : ℕ) (token : String) (s : State)
      → IsSealedState s
      → IsSealedState (revoke_token service n m token s).1
  unfolding revoke_token
  revoke_token-IsSealedState n m token s h =
      let s1 = prune_state service n s in
      revoked_access-IsSealedState token m s1 (lookup token s1.access_tokens)
        (prune-IsSealedState service f keyed n s h)

  pub revoke_user-IsSealedState :
      (n m : ℕ) (user_id tenant_id : String) (s : State)
      → IsSealedState s
      → IsSealedState (revoke_tokens_for_user service n m user_id tenant_id s)
  unfolding revoke_tokens_for_user
  revoke_user-IsSealedState n m user_id tenant_id s h =
      let h1 = prune-IsSealedState service f keyed n s h in
      record {
        codes = h1.codes;
        access =
            AllValues-map_values IsSealedAccess (revoke_access_of user_id tenant_id m) _
              (λ r sealed. elim (Bool-cases (is_session_of user_id tenant_id r.session)) [
                | inl own ↦ rw own sealed
                | inr other ↦ rw other sealed
              ])
              h1.access;
        refresh =
            AllValues-map_values IsSealedRefresh (revoke_refresh_of user_id tenant_id m) _
              (λ r sealed. elim (Bool-cases (is_session_of user_id tenant_id r.session)) [
                | inl own ↦ rw own sealed
                | inr other ↦ rw other sealed
              ])
              h1.refresh;
      }

grants-IsSealedState :
    (now : ℕ) (s : State) → IsSealedState s → IsSealedState (prune_expired_grants now s)
unfolding prune_expired_grants
grants-IsSealedState now s h = record { codes = h.codes; access = h.access; refresh = h.refresh }

pub create_grant-IsSealedState :
    (assets : AssetService) (d : GrantDraws) (q : GrantRequest) (s : State)
    → IsSealedState s
    → IsSealedState (create_grant assets d q s).1
unfolding create_grant
create_grant-IsSealedState assets d q s h =
    let h1 = grants-IsSealedState d.prune_now s h in
    record { codes = h1.codes; access = h1.access; refresh = h1.refresh }

parsed_grant-IsSealedState :
    (assets : AssetService) (d : VerifyDraws) (grant_id signature : String) (s : State)
    (t : Option Timestamp)
    → IsSealedState s
    → IsSealedState (verify_parsed assets d grant_id signature s t).1
parsed_grant-IsSealedState assets d grant_id signature s none h = h
parsed_grant-IsSealedState assets d grant_id signature s (some (negative n)) h = h
parsed_grant-IsSealedState assets d grant_id signature s (some (positive expiry)) h =
    let expected = create_signature assets grant_id expiry in
    elim (Bool-cases (ltb expiry d.now)) [
      | inl late ↦ rw late h
      | inr timely ↦ elim (Bool-cases (not (is_ascii expected && is_ascii signature))) [
        | inl foreign ↦ rw (timely, foreign) h
        | inr ascii ↦ elim (Bool-cases (not (expected == signature))) [
          | inl forged ↦ rw (timely, ascii, forged) h
          | inr signed ↦ rw (timely, ascii, signed) (grants-IsSealedState d.prune_now s h)
        ]
      ]
    ]

pub verify_grant-IsSealedState :
    (assets : AssetService) (d : VerifyDraws) (grant_id expires_at signature : Option String)
    (s : State)
    → IsSealedState s
    → IsSealedState (verify_grant assets d grant_id expires_at signature s).1
unfolding verify_grant
verify_grant-IsSealedState assets d grant_id expires_at signature s h =
    elim (Bool-cases
      (not (truthy_text grant_id) || not (truthy_text expires_at) || not (truthy_text signature))) [
        | inl lacking ↦ rw lacking h
        | inr given ↦ rw given (
            parsed_grant-IsSealedState assets d (get_or grant_id "") (get_or signature "") s
              (assets.library.int (get_or expires_at "")) h)
      ]
