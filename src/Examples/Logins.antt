-- ===== src/Examples/Logins.antt =====
-- The theorems on codes and tokens at concrete logins.
use resourcespace_authentica.Base.{
  is_ascii, remove_prefix, ◌↔◌, eq_iff, ◌≡◌, ◌≢◌, refl, some, none, true, false, ok, err, lookup,
  arith, [], ◌∷◌,
}
use resourcespace_authentica.Cipher.{decrypt_ascii, is_sealed, seal, unseal}
use resourcespace_authentica.Session.{
  Session, seal_session, seal_field, open_field, open_session_dict, try_open_session_dict,
  stamp_broker_session_metadata, integration_for_client_id,
}
use resourcespace_authentica.State.{State, initial_state, RefreshToken}
use resourcespace_authentica.Session.Laws.{IsSoundField}
use resourcespace_authentica.Grants.{AssetService}
use resourcespace_authentica.System.{Reach, start, later, session_login, exchanging}
use resourcespace_authentica.System.Sealed.{IsSealedState}
use resourcespace_authentica.System.Reached.{Reach-IsSealedState}
use resourcespace_authentica.Auth.Revocation.Replays.{revoke_token_restarts_grace}
use resourcespace_authentica.Auth.{prune_state, is_configured_client, sha256_b64url}
use resourcespace_authentica.Auth.Codes.{begin_authorization_from_session, code_not_found}
use resourcespace_authentica.Auth.Codes.Redeeming.{exchange_once}
use resourcespace_authentica.Auth.Codes.Conditions.{exchange_iff, IsExchange}
use resourcespace_authentica.Auth.Tokens.{
  exchange_authorization_code, read_access_token, refresh_access_token, token_response,
  refresh_record, access_record, stamp_refresh_token, refresh_not_found,
}
use resourcespace_authentica.Auth.Tokens.Reading.{issued_record}
use resourcespace_authentica.Auth.Tokens.Login.{login_roundtrip, IsOwnExchange}
use resourcespace_authentica.Auth.Tokens.Refreshing.{
  refresh_idempotent, refresh_after_grace, IsUsable,
}
use resourcespace_authentica.Auth.Revocation.{revoke_token, revoke_tokens_for_user}
use resourcespace_authentica.Auth.Revocation.Laws.{read-revoke_token, read-revoke_tokens_for_user}
use resourcespace_authentica.Auth.Revocation.Refreshes.{refresh_revoked-MintsNothing, MintsNothing}
use resourcespace_authentica.Examples.{
  demo, demo_session, mint_draws, code_request, exchange_request, pair_draws, next_pair_draws,
  toy_fernet, refresh_draws, replay_draws,
}

abbrev pub signed_in : State
signed_in =
    (begin_authorization_from_session demo mint_draws code_request demo_session initial_state).1

own_exchange : IsOwnExchange demo code_request "code_1" exchange_request
unfolding sha256_b64url
own_exchange = record {
  verifier = "verifier";
  challenge = "verifier";
  client = refl;
  redirect = refl;
  same_code = refl;
  sent = refl;
  sent_text = refl;
  challenged = refl;
  challenge_text = refl;
  method = refl;
  digest = refl;
}

configured : is_configured_client demo.config "canva" ≡ true
unfolding is_configured_client
configured = refl

sound_key : IsSoundField demo.field_cipher demo_session.upstream.session_key
unfolding is_ascii
sound_key nonce = (refl, refl)

sound_email : IsSoundField demo.field_cipher demo_session.user.email
unfolding is_ascii
sound_email nonce = (refl, refl)

login_roundtrip_example :
    ((exchange_authorization_code demo 1500 2000 pair_draws exchange_request signed_in).0
      ≡ ok (ok (token_response demo pair_draws "read")))
    × ((read_access_token demo 3000 "access_1"
          (exchange_authorization_code demo 1500 2000 pair_draws exchange_request signed_in).1).0
        ≡ ok (some (issued_record demo pair_draws demo_session "read" "canva")))
unfolding is_sealed
login_roundtrip_example =
    login_roundtrip demo mint_draws code_request demo_session initial_state exchange_request 1500
      pair_draws configured (sound_key, sound_email) (refl, refl) own_exchange (omega arith) 2000
      3000 (omega arith)

abbrev exchanged_in : State
exchanged_in = (exchange_authorization_code demo 1500 2000 pair_draws exchange_request signed_in).1

exchange_answers :
    (exchange_authorization_code demo 1500 2000 pair_draws exchange_request signed_in).0
    ≡ ok (ok (token_response demo pair_draws "read"))
exchange_answers = login_roundtrip_example.0

exchange_once_example :
    (exchange_authorization_code demo 1600 1700 next_pair_draws exchange_request exchanged_in).0
    ≡ ok (err code_not_found)
exchange_once_example =
    exchange_once demo 1500 2000 1600 1700 pair_draws next_pair_draws exchange_request
      exchange_request signed_in (ok (token_response demo pair_draws "read")) configured configured
      refl exchange_answers

exchange_iff_example :
    ((exchange_authorization_code demo 1500 2000 pair_draws exchange_request signed_in).0
      ≡ ok (ok (token_response demo pair_draws "read")))
    ↔ IsExchange demo 1500 pair_draws exchange_request signed_in
        (token_response demo pair_draws "read")
exchange_iff_example =
    exchange_iff demo 1500 2000 pair_draws exchange_request signed_in
      (token_response demo pair_draws "read")

-- A store with one refresh token and one access token.
abbrev stored_refresh : RefreshToken
stored_refresh = refresh_record demo pair_draws demo_session "read" "canva"

abbrev signed_on : State
signed_on = record initial_state {
  access_tokens = ("access_1", access_record demo pair_draws demo_session "read" "canva") ∷ [];
  refresh_tokens = ("refresh_1", stored_refresh) ∷ [];
}

abbrev revoked_refresh : RefreshToken
revoked_refresh = record stored_refresh { revoked_at = some 4000 }

abbrev signed_off : State
signed_off = record signed_on { refresh_tokens = ("refresh_1", revoked_refresh) ∷ [] }

abbrev user_session : Session
user_session = record demo_session {
  broker = some (record { client_id = "canva"; integration = some "canva" });
}

usable : IsUsable demo 5000 "canva" "refresh_1" signed_on stored_refresh user_session
unfolding stamp_refresh_token stamp_broker_session_metadata integration_for_client_id seal_session
    seal_field seal unseal is_sealed open_field open_session_dict try_open_session_dict lookup
    decrypt_ascii is_ascii remove_prefix
usable = record { stored = refl; kept = refl; client = refl; configured = configured; opens = refl }

other_token : next_pair_draws.refresh_token ≢ "refresh_1"
other_token e = let same : false ≡ true = (eq_iff "refresh_2" "refresh_1").1 e in cc

refresh_idempotent_example :
    (let s1 = (refresh_access_token demo refresh_draws "canva" "refresh_1" signed_on).1 in
      ((refresh_access_token demo refresh_draws "canva" "refresh_1" signed_on).0
        ≡ ok (ok (token_response demo next_pair_draws "read")))
      × ((refresh_access_token demo replay_draws "canva" "refresh_1" s1).0
          ≡ ok (ok (token_response demo next_pair_draws "read")))
      × ((refresh_access_token demo replay_draws "canva" "refresh_1" s1).1.access_tokens
          ≡ (prune_state demo 9000 s1).access_tokens))
refresh_idempotent_example =
    refresh_idempotent demo refresh_draws replay_draws "canva" "refresh_1" signed_on stored_refresh
      user_session usable refl other_token refl (omega arith) (omega arith) (omega arith)
      (omega arith)

refresh_after_grace_example :
    refresh_access_token demo
      (record replay_draws { prune_now = 50000 })
      "canva"
      "refresh_1"
      signed_off
    ≡ (ok (err refresh_not_found), prune_state demo 50000 signed_off)
unfolding lookup
refresh_after_grace_example =
    refresh_after_grace demo (record replay_draws { prune_now = 50000 }) "canva" "refresh_1"
      signed_off revoked_refresh 4000 configured refl refl (omega arith) (omega arith)

refresh_revoked-MintsNothing_example :
    MintsNothing demo 9000 signed_off
      (refresh_access_token demo replay_draws "canva" "refresh_1" signed_off).1
unfolding lookup
refresh_revoked-MintsNothing_example =
    refresh_revoked-MintsNothing demo replay_draws "canva" "refresh_1" signed_off refl

read-revoke_token_example :
    (read_access_token demo 3000 "access_1" (revoke_token demo 2500 2500 "access_1" signed_on).1).0
    ≡ ok none
read-revoke_token_example = read-revoke_token demo 2500 2500 3000 "access_1" signed_on

read-revoke_tokens_for_user_example :
    (read_access_token demo 3000 "access_1"
      (revoke_tokens_for_user demo 2500 2500 "u1" "t1" signed_on)).0
    ≡ ok none
unfolding lookup seal_session stamp_broker_session_metadata
read-revoke_tokens_for_user_example =
    read-revoke_tokens_for_user demo 2500 2500 3000 "u1" "t1" "access_1" signed_on
      (access_record demo pair_draws demo_session "read" "canva") (omega arith) refl refl

-- A token that was rotated into the pair of `next_pair_draws`, 20 seconds before the revocation.
abbrev rotated_refresh : RefreshToken
rotated_refresh = record stored_refresh {
  revoked_at = some 5000;
  rotation_response = some (token_response demo next_pair_draws "read");
}

abbrev rotated : State
rotated = record initial_state { refresh_tokens = ("refresh_1", rotated_refresh) ∷ [] }

rotated-IsUsable : IsUsable demo 25000 "canva" "refresh_1" rotated rotated_refresh user_session
unfolding stamp_refresh_token stamp_broker_session_metadata integration_for_client_id seal_session
    seal_field seal unseal is_sealed open_field open_session_dict try_open_session_dict lookup
    decrypt_ascii is_ascii remove_prefix
rotated-IsUsable = record {
  stored = refl;
  kept = refl;
  client = refl;
  configured = configured;
  opens = refl;
}

revoke_token_restarts_grace_example :
    (refresh_access_token demo
      (record replay_draws { prune_now = 54000; grace_now = 54000 })
      "canva"
      "refresh_1"
      (revoke_token demo 25000 25000 "refresh_1" rotated).1).0
    ≡ ok (ok (token_response demo next_pair_draws "read"))
unfolding lookup
revoke_token_restarts_grace_example =
    revoke_token_restarts_grace demo 25000 25000
      (record replay_draws { prune_now = 54000; grace_now = 54000 }) "canva" "refresh_1" rotated
      rotated_refresh user_session (token_response demo next_pair_draws "read") refl
      rotated-IsUsable refl refl (omega arith) (omega arith) (omega arith) (omega arith)

abbrev demo_assets : AssetService
demo_assets = record {
  config = demo.config;
  library = record { hmac_urlsafe = λ key message. "c2ln="; int = λ text. none; str = λ n. "1" };
}

reached :
    Reach demo demo_assets
      (exchange_authorization_code demo 1500 2000 pair_draws exchange_request
        (begin_authorization_from_session demo mint_draws code_request demo_session
          initial_state).1).1
reached =
    later (later start (session_login mint_draws code_request demo_session))
      (exchanging 1500 2000 pair_draws exchange_request)

Reach-IsSealedState_example :
    IsSealedState
      (exchange_authorization_code demo 1500 2000 pair_draws exchange_request
        (begin_authorization_from_session demo mint_draws code_request demo_session
          initial_state).1).1
Reach-IsSealedState_example = Reach-IsSealedState demo demo_assets toy_fernet refl reached
