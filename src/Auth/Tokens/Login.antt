-- ===== src/Auth/Tokens/Login.antt =====
-- From `begin_authorization_from_session` over `exchange_authorization_code` to
-- `read_access_token` (src/resourcespace_platform/services/auth_service.py).
use resourcespace_authentica.Base.{
  ℕ, ◌+◌, ◌*◌, String, ◌≡◌, ◌<◌, refl, none, some, true, erase, ok, truthy, lookup-insert_self,
}
use resourcespace_authentica.Session.{
  Session, stamp_broker_session_metadata, integration_for_client_id,
}
use resourcespace_authentica.Session.Laws.{
  IsSoundSession, IsPlainSession, IsPlainSession-stamp, try_open_session_dict-seal_session,
}
use resourcespace_authentica.State.{State}
use resourcespace_authentica.Auth.{AuthService, is_configured_client, prune_state, sha256_b64url}
use resourcespace_authentica.Auth.Codes.{
  MintDraws, CodeRequest, ExchangeRequest, code_record, mint_authorization_code,
  begin_authorization_from_session,
}
use resourcespace_authentica.Auth.Codes.Conditions.{
  IsExchange, IsProven, exchange_iff, state_of_IsExchange,
}
use resourcespace_authentica.Auth.Tokens.{
  PairDraws, token_response, create_token_pair, exchange_authorization_code, read_access_token,
}
use resourcespace_authentica.Auth.Tokens.Reading.{stamped_for, read-write_token_pair}

-- The exchange `q` comes from who asked for the code: the same client, redirect URI and code, and
-- the verifier whose S256 challenge was sent.
pub record IsOwnExchange (service : AuthService) (request : CodeRequest) (code : String)
    (q : ExchangeRequest) : Type 0 where
  pub verifier : String
  pub challenge : String
  pub client : request.client_id ≡ q.client_id
  pub redirect : request.redirect_uri ≡ q.redirect_uri
  pub same_code : q.code ≡ code
  pub sent : q.code_verifier ≡ some verifier
  pub sent_text : truthy verifier ≡ true
  pub challenged : request.code_challenge ≡ some challenge
  pub challenge_text : truthy challenge ≡ true
  pub method : request.code_challenge_method ≡ some "S256"
  pub digest : sha256_b64url service verifier ≡ challenge

module _ (service : AuthService) (md : MintDraws) (request : CodeRequest) (session : Session)
    (s : State) (q : ExchangeRequest) (n : ℕ) (d : PairDraws)
    (configured : is_configured_client service.config q.client_id ≡ true)
    (sound : IsSoundSession service.field_cipher session) (plain : IsPlainSession session)
    (own : IsOwnExchange service request md.code q)
    (in_time : n < md.expiry_now + service.config.oauth.auth_code_ttl_seconds * 1000) where
  code_IsProven :
      IsProven service q
        (code_record service md request (stamped_for service request.client_id session))
        (stamped_for service request.client_id session)
  unfolding stamp_broker_session_metadata
  code_IsProven = record {
    client = own.client;
    redirect = own.redirect;
    challenged = rw own.challenged own.challenge_text;
    verifier_sent = rw own.sent own.sent_text;
    method = rw own.method refl;
    verified = rw (own.sent, own.challenged) own.digest;
    opens =
        try_open_session_dict-seal_session service.field_cipher md.key_nonce md.email_nonce
          (stamped_for service request.client_id session) sound
          (IsPlainSession-stamp request.client_id
            (integration_for_client_id service.config request.client_id) session plain);
  }

  login_IsExchange :
      IsExchange service n d q
        (begin_authorization_from_session service md request session s).1
        (token_response service d request.scope)
  unfolding begin_authorization_from_session mint_authorization_code
  login_IsExchange = record {
    code = code_record service md request (stamped_for service request.client_id session);
    session = stamped_for service request.client_id session;
    configured = configured;
    stored = rw own.same_code (lookup-insert_self md.code _ _);
    live = in_time;
    proven = code_IsProven;
    answer = refl;
  }

  -- Who signed in and exchanges the code in time, with the verifier of the challenge that was sent,
  -- is given tokens with the scope that was asked for; and until the access token expires, reading
  -- it gives a record with that scope, the client, and the session of the sign-in, stamped with the
  -- client. This is for a configured client, a cipher that is sound of the secrets, and secrets that
  -- do not carry the mark of a sealed value.
  pub login_roundtrip :
      (m now : ℕ)
      → now < d.access_now + service.config.oauth.token_ttl_seconds * 1000
      → (let s1 = (begin_authorization_from_session service md request session s).1 in
          ((exchange_authorization_code service n m d q s1).0
            ≡ ok (
                ok (record {
                  access_token = d.access_token;
                  token_type = "Bearer";
                  expires_in = service.config.oauth.token_ttl_seconds;
                  refresh_token = some d.refresh_token;
                  scope = request.scope;
                })))
          × ((read_access_token service now d.access_token
                (exchange_authorization_code service n m d q s1).1).0
              ≡ ok (
                  some (record {
                    access_token = d.access_token;
                    client_id = q.client_id;
                    scope = request.scope;
                    integration = integration_for_client_id service.config q.client_id;
                    session =
                        stamp_broker_session_metadata q.client_id
                          (integration_for_client_id service.config q.client_id)
                          session;
                    expires_at = d.access_now + service.config.oauth.token_ttl_seconds * 1000;
                    created_at = d.created_now;
                    revoked_at = none;
                  }))))
  unfolding create_token_pair stamp_broker_session_metadata login_IsExchange
  login_roundtrip m now live =
      let s1 = (begin_authorization_from_session service md request session s).1 in
      let x = login_IsExchange in
      (
        (exchange_iff service n m d q s1 (token_response service d request.scope)).1 x,
        let s2 = prune_state service n s1 in
            let s3 = record s2 { authorization_codes = erase q.code s2.authorization_codes } in
            rw (state_of_IsExchange service n m d q s1 (token_response service d request.scope) x) (
              read-write_token_pair service d (stamped_for service request.client_id session)
                request.scope q.client_id (prune_state service m s3) now configured sound
                (IsPlainSession-stamp request.client_id
                  (integration_for_client_id service.config request.client_id) session plain)
                live),
      )
