-- ===== src/Auth/Tokens/Reading.antt =====
-- `read_access_token` (src/resourcespace_platform/services/auth_service.py).
use resourcespace_authentica.Base.{
  ℕ, ◌+◌, ◌*◌, String, ◌≡◌, ◌<◌, refl, ap, ◌∙◌, none, some, true, false, lookup, arith, ok,
  lookup-insert_self, ◌>>=◌,
}
use resourcespace_authentica.Session.{
  Session, stamp_broker_session_metadata, integration_for_client_id, seal_session,
}
use resourcespace_authentica.Session.Laws.{
  IsSoundSession, IsPlainSession, IsPlainSession-stamp, try_open_session_dict-seal_session,
}
use resourcespace_authentica.State.{State, AccessToken}
use resourcespace_authentica.Auth.{
  AuthService, is_configured_client, is_expired_access_token, uncaught,
}
use resourcespace_authentica.Auth.Prune.{lookup-prune_access_tokens}
use resourcespace_authentica.Auth.Tokens.{
  PairDraws, access_record, write_token_pair_to_state, read_access_token, open_session,
  with_session, stamp_access_token,
}

-- The session stamped with the client and its integration.
abbrev pub stamped_for : AuthService → String → Session → Session
stamped_for service client_id session =
    stamp_broker_session_metadata client_id (integration_for_client_id service.config client_id)
      session

-- What reading the token of a pair is to give.
abbrev pub issued_record : AuthService → PairDraws → Session → String → String → AccessToken
issued_record service d session scope client_id =
    record (access_record service d session scope client_id) {
      session = stamped_for service client_id session;
    }

module _ (service : AuthService) (now : ℕ) (token : String) (s : State) where
  -- A token that is not stored reads as nothing.
  pub read_missing :
      lookup token s.access_tokens ≡ none → (read_access_token service now token s).0 ≡ ok none
  unfolding read_access_token
  read_missing e = rw (lookup-prune_access_tokens service now s token) (rw e refl)

  -- So does one that has expired or was revoked.
  pub read_expired :
      (r : AccessToken)
      → lookup token s.access_tokens ≡ some r
      → is_expired_access_token now r ≡ true
      → (read_access_token service now token s).0 ≡ ok none
  unfolding read_access_token
  read_expired r e x = rw (lookup-prune_access_tokens service now s token) (rw e (rw x refl))

  -- A live record of a configured client is read, stamped and opened.
  pub read_live :
      (r : AccessToken)
      → lookup token s.access_tokens ≡ some r
      → is_expired_access_token now r ≡ false
      → is_configured_client service.config r.client_id ≡ true
      → (read_access_token service now token s).0
        ≡ open_session service (stamp_access_token service.config r)
  unfolding read_access_token
  read_live r e x c = rw (lookup-prune_access_tokens service now s token) (rw e (rw x (rw c refl)))

open_issued :
    (service : AuthService) (d : PairDraws) (session : Session) (scope client_id : String)
    → IsSoundSession service.field_cipher session
    → IsPlainSession session
    → open_session service
        (stamp_access_token service.config (access_record service d session scope client_id))
      ≡ ok (some (issued_record service d session scope client_id))
unfolding open_session stamp_access_token stamp_broker_session_metadata seal_session
open_issued service d session scope client_id h p =
    let stamped = stamped_for service client_id session in
    let r = stamp_access_token service.config (access_record service d session scope client_id) in
    ap (λ x. (uncaught x >>= λ opened. ok (with_session r opened)))
      (try_open_session_dict-seal_session service.field_cipher d.key_nonce d.email_nonce stamped h (
        IsPlainSession-stamp client_id (integration_for_client_id service.config client_id) session
          p))

-- A pair that is written can be read: until its expiry the access token gives the session that the
-- pair was made for, stamped with its client, if the cipher is sound of its secrets and they carry no mark.
pub read-write_token_pair :
    (service : AuthService) (d : PairDraws) (session : Session) (scope client_id : String)
    (s : State) (now : ℕ)
    → is_configured_client service.config client_id ≡ true
    → IsSoundSession service.field_cipher session
    → IsPlainSession session
    → now < d.access_now + service.config.oauth.token_ttl_seconds * 1000
    → (read_access_token service now d.access_token
        (write_token_pair_to_state service d session scope client_id s).1).0
      ≡ ok (some (issued_record service d session scope client_id))
unfolding write_token_pair_to_state
read-write_token_pair service d session scope client_id s now c h p live =
    let r = access_record service d session scope client_id in
    read_live service now d.access_token
      (write_token_pair_to_state service d session scope client_id s).1 r
      (lookup-insert_self d.access_token r s.access_tokens) (ground arith) c
    ∙ open_issued service d session scope client_id h p
