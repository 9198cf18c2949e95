-- ===== src/System/Refreshes.antt =====
-- The sealing of sessions in the steps of refreshing and reading.
use resourcespace_authentica.Base.{
  ℕ, ◌≡◌, refl, String, Option, none, some, lookup, insert, Result, ok, err, AllValues-lookup,
  AllValues-insert, ◌==◌, ◌>>=◌, Bool-cases, inl, inr, truthy_number, get_or,
}
use resourcespace_authentica.Cipher.{Fernet, fernet_cipher}
use resourcespace_authentica.Session.{Session, try_open_session_dict}
use resourcespace_authentica.Session.Laws.{IsSealedSession-stamp}
use resourcespace_authentica.State.{State, AccessToken, RefreshToken, TokenResponse}
use resourcespace_authentica.Errors.{Exception}
use resourcespace_authentica.JsonStore.{settle}
use resourcespace_authentica.Auth.{
  AuthService, prune_state, uncaught, OauthError, is_configured_client,
}
use resourcespace_authentica.Auth.Tokens.{
  RefreshDraws, write_token_pair_to_state, refresh_access_token, refresh_updater, refresh_found,
  refresh_stamped, refresh_opened, rotate, stamp_refresh_token, stamp_access_token,
  read_access_token, read_found, cache_rotation,
}
use resourcespace_authentica.System.Sealed.{
  IsSealedState, IsSealedAccess, IsSealedRefresh, prune-IsSealedState, write-IsSealedState,
}

-- A refresh token is put in the store.
with_refresh-IsSealedState :
    (s : State) (token : String) (r : RefreshToken)
    → IsSealedState s
    → IsSealedRefresh r
    → IsSealedState (record s { refresh_tokens = insert token r s.refresh_tokens })
with_refresh-IsSealedState s token r h sealed = record {
  codes = h.codes;
  access = h.access;
  refresh = AllValues-insert IsSealedRefresh token r s.refresh_tokens sealed h.refresh;
}

cache-IsSealedState :
    (token : String) (r : RefreshToken) (x : TokenResponse × State)
    → IsSealedState x.1
    → IsSealedRefresh r
    → IsSealedState (cache_rotation token r x).1
cache-IsSealedState token r (tokens, s) h sealed =
    elim (Bool-cases (get_or tokens.refresh_token "" == token)) [
      | inl same ↦ rw same h
      | inr other ↦ rw other (
          with_refresh-IsSealedState s token (record r { rotation_response = some tokens }) h
            sealed)
    ]

module _ (service : AuthService) (f : Fernet) (keyed : service.field_cipher ≡ fernet_cipher f) where
  rotate-IsSealedState :
      (d : RefreshDraws) (token client_id : String) (r : RefreshToken) (session : Session)
      (s : State)
      → IsSealedState s
      → IsSealedRefresh r
      → IsSealedState (rotate service d token client_id r session s).1
  unfolding rotate
  rotate-IsSealedState d token client_id r session s h sealed =
      let revoked = record r { revoked_at = some d.revoke_now } in
      let s1 = record s { refresh_tokens = insert token revoked s.refresh_tokens } in
      cache-IsSealedState token revoked
        (write_token_pair_to_state service d.pair session r.scope client_id s1)
        (write-IsSealedState service f keyed d.pair session r.scope client_id s1
          (with_refresh-IsSealedState s token revoked h sealed))
        sealed

  opened-IsSealedState :
      (d : RefreshDraws) (token client_id : String) (r : RefreshToken) (s : State)
      (opened : Option Session)
      → IsSealedState s
      → IsSealedRefresh r
      → IsSealedState (refresh_opened service d token client_id r s opened).1
  opened-IsSealedState d token client_id r s none h sealed = h
  opened-IsSealedState d token client_id r s (some session) h sealed =
      elim (Bool-cases (truthy_number r.revoked_at)) [
        | inl revoked ↦ rw revoked h
        | inr fresh ↦ rw fresh (rotate-IsSealedState d token client_id r session s h sealed)
      ]

  stamped-IsSealedState :
      (d : RefreshDraws) (token client_id : String) (r : RefreshToken) (s0 s : State)
      → IsSealedState s0
      → IsSealedState s
      → IsSealedRefresh r
      → IsSealedState (settle s0 (refresh_stamped service d token client_id r s)).1
  unfolding refresh_stamped
  stamped-IsSealedState d token client_id r s0 s h0 h sealed =
      opened_case (uncaught (try_open_session_dict service.field_cipher r.session))
    where
      opened_case :
          (x : Result Exception (Option Session))
          → IsSealedState
              (settle s0 (
                ◌>>=◌ {B = Result OauthError TokenResponse × State} x (λ opened. ok (
                  refresh_opened service d token client_id r
                    (record s { refresh_tokens = insert token r s.refresh_tokens })
                    opened)))).1
      opened_case (err e) = h0
      opened_case (ok opened) =
          opened-IsSealedState d token client_id r
            (record s { refresh_tokens = insert token r s.refresh_tokens }) opened
            (with_refresh-IsSealedState s token r h sealed) sealed

  found-IsSealedState :
      (d : RefreshDraws) (token client_id : String) (s0 s : State) (found : Option RefreshToken)
      → IsSealedState s0
      → IsSealedState s
      → ((r : RefreshToken) → found ≡ some r → IsSealedRefresh r)
      → IsSealedState (settle s0 (refresh_found service d token client_id s found)).1
  unfolding stamp_refresh_token
  found-IsSealedState d token client_id s0 s none h0 h k = h
  found-IsSealedState d token client_id s0 s (some r) h0 h k =
      elim (Bool-cases (r.client_id == client_id)) [
        | inr other ↦ rw other h
        | inl same ↦ elim (Bool-cases (is_configured_client service.config r.client_id)) [
          | inr unknown ↦ rw (same, unknown) h
          | inl known ↦
              rw (same, known)
                (stamped-IsSealedState d token client_id (stamp_refresh_token service.config r) s0 s
                  h0 h (IsSealedSession-stamp r.client_id _ r.session (k r refl)))
        ]
      ]

  pub refresh-IsSealedState :
      (d : RefreshDraws) (client_id token : String) (s : State)
      → IsSealedState s
      → IsSealedState (refresh_access_token service d client_id token s).1
  unfolding refresh_access_token refresh_updater
  refresh-IsSealedState d client_id token s h =
      let s1 = prune_state service d.prune_now s in
      let h1 = prune-IsSealedState service f keyed d.prune_now s h in
      elim (Bool-cases (is_configured_client service.config client_id)) [
        | inr unknown ↦ rw unknown h
        | inl known ↦ rw known (
            found-IsSealedState d token client_id s s1 (lookup token s1.refresh_tokens) h h1
              (λ r e. AllValues-lookup IsSealedRefresh token s1.refresh_tokens r h1.refresh e))
      ]

  read_found-IsSealedState :
      (token : String) (s : State) (found : Option AccessToken)
      → IsSealedState s
      → ((r : AccessToken) → found ≡ some r → IsSealedAccess r)
      → IsSealedState (read_found service token s found).1
  unfolding stamp_access_token
  read_found-IsSealedState token s none h k = h
  read_found-IsSealedState token s (some r) h k =
      elim (Bool-cases (is_configured_client service.config r.client_id)) [
        | inr unknown ↦ rw unknown h
        | inl known ↦ rw known (record {
          codes = h.codes;
          access =
              AllValues-insert IsSealedAccess token (stamp_access_token service.config r)
                s.access_tokens (IsSealedSession-stamp r.client_id _ r.session (k r refl)) h.access;
          refresh = h.refresh;
        })
      ]

  pub read-IsSealedState :
      (now : ℕ) (token : String) (s : State)
      → IsSealedState s
      → IsSealedState (read_access_token service now token s).1
  unfolding read_access_token
  read-IsSealedState now token s h =
      let s1 = prune_state service now s in
      let h1 = prune-IsSealedState service f keyed now s h in
      read_found-IsSealedState token s1 (lookup token s1.access_tokens) h1
        (λ r e. AllValues-lookup IsSealedAccess token s1.access_tokens r h1.access e)
