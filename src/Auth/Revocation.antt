-- ===== src/Auth/Revocation.antt =====
-- Revocation, and what the service tells of its state (`revoke_token`, `revoke_tokens_for_user`,
-- `read_user_info_from_access_token`, `get_stats`, `prune`).
pub mod Laws
pub mod Refreshes
pub mod Replays
use resourcespace_authentica.Base.{
  ℕ, String, Option, none, some, Bool, true, false, ◌&&◌, ◌==◌, truthy_text, if◌then◌else◌, lookup,
  insert, erase, map_values, length, Result, ok, err, ◌>>=◌,
}
use resourcespace_authentica.Session.{Session, Tenant}
use resourcespace_authentica.Errors.{Exception}
use resourcespace_authentica.State.{State, AccessToken, RefreshToken, AssetGrant}
use resourcespace_authentica.Auth.{AuthService, prune_state}
use resourcespace_authentica.Auth.Tokens.{read_access_token}

abbrev pub revoke_refresh : String → ℕ → State → Option RefreshToken → Bool × State
revoke_refresh token now s none = (false, s)
revoke_refresh token now s (some r) = (
  true,
  record s { refresh_tokens = insert token (record r { revoked_at = some now }) s.refresh_tokens },
)

abbrev pub revoke_access : String → ℕ → State → Option AccessToken → Bool × State
revoke_access token now s none = revoke_refresh token now s (lookup token s.refresh_tokens)
revoke_access token now s (some r) =
    (true, record s { access_tokens = erase token s.access_tokens })

-- `revoke_token`: an access token goes, a refresh token is marked
unfoldable pub revoke_token : AuthService → ℕ → ℕ → String → State → Bool × State
revoke_token service prune_now now token s =
    let s' = prune_state service prune_now s in
    revoke_access token now s' (lookup token s'.access_tokens)

-- `session["user"]["id"] == user_id and session["tenant"]["id"] == tenant_id`
abbrev pub is_session_of : String → String → Session → Bool
is_session_of user_id tenant_id session =
    session.user.id == user_id && session.tenant.id == tenant_id

abbrev pub revoke_access_of : String → String → ℕ → AccessToken → AccessToken
revoke_access_of user_id tenant_id now r =
    if is_session_of user_id tenant_id r.session then record r { revoked_at = some now } else r

abbrev pub revoke_refresh_of : String → String → ℕ → RefreshToken → RefreshToken
revoke_refresh_of user_id tenant_id now r =
    if is_session_of user_id tenant_id r.session then record r { revoked_at = some now } else r

abbrev pub expire_grant_of : String → String → AssetGrant → AssetGrant
expire_grant_of user_id tenant_id r =
    if r.user_id == user_id && r.tenant_id == tenant_id then record r { expires_at = 0 } else r

-- `revoke_tokens_for_user`
unfoldable pub revoke_tokens_for_user : AuthService → ℕ → ℕ → String → String → State → State
revoke_tokens_for_user service prune_now now user_id tenant_id s =
    let s' = prune_state service prune_now s in
    record s' {
      access_tokens = map_values (revoke_access_of user_id tenant_id now) s'.access_tokens;
      refresh_tokens = map_values (revoke_refresh_of user_id tenant_id now) s'.refresh_tokens;
      asset_grants = map_values (expire_grant_of user_id tenant_id) s'.asset_grants;
    }

-- ResourceSpaceService.get_session_summary (services/resourcespace/service.py)
pub record SessionSummary : Type 0 where
  pub mode : String
  pub tenant_id : String
  pub tenant_slug : Option String
  pub tenant_name : Option String
  pub tenant_base_url : String
  pub user_id : String
  pub username : String
  pub display_name : Option String
  pub role : Option String
  pub email : Option String

unfoldable pub get_session_summary : Session → SessionSummary
get_session_summary session = record {
  mode = session.upstream.mode;
  tenant_id = session.tenant.id;
  tenant_slug = session.tenant.slug;
  tenant_name = session.tenant.name;
  tenant_base_url = session.tenant.base_url;
  user_id = session.user.id;
  username = session.user.username;
  display_name = session.user.display_name;
  role = session.user.role;
  email = if truthy_text session.user.email then session.user.email else none;
}

pub record UserInfo : Type 0 where
  pub sub : String
  pub preferred_username : String
  pub name : Option String
  pub tenant_id : String
  pub tenant_slug : Option String
  pub tenant_name : Option String
  pub role : Option String
  pub scope : String
  pub email : Option String

abbrev pub user_info_of : Option AccessToken → Option UserInfo
user_info_of none = none
user_info_of (some r) =
    let summary = get_session_summary r.session in
    some (record {
      sub = summary.user_id;
      preferred_username = summary.username;
      name = summary.display_name;
      tenant_id = summary.tenant_id;
      tenant_slug = summary.tenant_slug;
      tenant_name = summary.tenant_name;
      role = summary.role;
      scope = r.scope;
      email = if truthy_text summary.email then summary.email else none;
    })

-- `read_user_info_from_access_token`
unfoldable pub read_user_info_from_access_token :
    AuthService → ℕ → String → State → Result Exception (Option UserInfo) × State
unfolding get_session_summary
read_user_info_from_access_token service prune_now token s =
    let (found, s') = read_access_token service prune_now token s in
    ((do r ← found; ok (user_info_of r)), s')

pub record Stats : Type 0 where
  pub authorization_code_count : ℕ
  pub access_token_count : ℕ
  pub refresh_token_count : ℕ
  pub asset_grant_count : ℕ

-- `get_stats`: of a copy that is pruned and not saved
unfoldable pub get_stats : AuthService → ℕ → State → Stats
get_stats service now s =
    let s' = prune_state service now s in
    record {
      authorization_code_count = length s'.authorization_codes;
      access_token_count = length s'.access_tokens;
      refresh_token_count = length s'.refresh_tokens;
      asset_grant_count = length s'.asset_grants;
    }
