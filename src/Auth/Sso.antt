-- ===== src/Auth/Sso.antt =====
-- The hosted-login handoff: pending states, their capacity, and their single use
-- (`begin_sso_authorization`, `inspect_pending_sso_state`, `complete_sso_authorization`,
-- `consume_pending_sso_state`).
pub mod Capacity
pub mod SingleUse
pub mod Binding
use Prim.Native.Nat.{min, max}
use resourcespace_authentica.Base.{
  ℕ, ◌+◌, ◌*◌, String, Option, none, some, Bool, true, false, not, ◌&&◌, ◌==◌, leb, ltb,
  truthy_text, truthy_number, get_or, if◌then◌else◌, lookup, insert, count, Result, ok, err,
}
use resourcespace_authentica.Config.{AppConfig}
use resourcespace_authentica.Session.{
  Session, Tenant, stamp_broker_session_metadata, integration_for_client_id,
}
use resourcespace_authentica.Errors.{Exception, resource_space, unexpected, rs_error}
use resourcespace_authentica.State.{State, PendingSsoState}
use resourcespace_authentica.Auth.{AuthService, prune_state}
use resourcespace_authentica.Auth.Codes.{MintDraws, CodeRequest, mint_authorization_code}

-- `_MAX_PENDING_SSO_STATES`; a tenth of it, written out, is the most that one source may hold
abbrev pub max_pending_sso_states : ℕ
max_pending_sso_states = 2000

abbrev within_bounds : Option ℕ → Result Exception ℕ
within_bounds none = err unexpected
within_bounds (some from_rate) = ok (max 10 (min from_rate 200))

-- `_max_pending_sso_states_per_source`
unfoldable pub max_pending_sso_states_per_source : AuthService → Result Exception ℕ
max_pending_sso_states_per_source service =
    let config = service.config in
    within_bounds (
      service.rate_quotient config.rate_limit.max_requests
        config.resource_space.sso_pending_ttl_seconds config.rate_limit.window_ms)

-- `record.get("usedAt") is None`
abbrev pub is_none {ℓ} : {A : Type ℓ} → Option A → Bool
is_none none = true
is_none (some a) = false

-- `_is_active_pending_sso_state`
abbrev pub is_active_pending_sso_state : ℕ → PendingSsoState → Bool
is_active_pending_sso_state now r = is_none r.used_at && ltb now r.expires_at

abbrev pub is_active_of_source : String → ℕ → PendingSsoState → Bool
is_active_of_source key now r = r.initiator_key == key && is_active_pending_sso_state now r

-- What one initiation draws: the clock before the transaction, at the pruning and at the count,
-- and the handoff token.
pub record SsoDraws : Type 0 where
  pub now : ℕ
  pub prune_now : ℕ
  pub count_now : ℕ
  pub handoff_state : String

-- The arguments of `begin_sso_authorization`.
pub record SsoRequest : Type 0 where
  pub client_id : String
  pub redirect_uri : String
  pub scope : String
  pub code_challenge : Option String
  pub code_challenge_method : Option String
  pub canva_state : String
  pub tenant : Tenant
  pub correlation_id : String
  pub initiator_key : String

abbrev pub pending_record : AuthService → SsoDraws → SsoRequest → PendingSsoState
pending_record service d q =
    let expires_at = d.now + service.config.resource_space.sso_pending_ttl_seconds * 1000 in
    record {
      handoff_state = d.handoff_state;
      canva_state = q.canva_state;
      client_id = q.client_id;
      redirect_uri = q.redirect_uri;
      scope = q.scope;
      code_challenge = q.code_challenge;
      code_challenge_method =
          if truthy_text q.code_challenge_method then get_or q.code_challenge_method "" else "S256";
      tenant = q.tenant;
      correlation_id = q.correlation_id;
      initiator_key = q.initiator_key;
      created_at = d.count_now;
      expires_at = expires_at;
      used_at = none;
      purge_at = expires_at + service.config.resource_space.sso_replay_retention_seconds * 1000;
    }

abbrev pub source_capacity : Exception
source_capacity = resource_space (
    rs_error "SSO_CAPACITY" "Too many pending SSO sign-ins from this source; please retry shortly."
      503)

abbrev pub total_capacity : Exception
total_capacity =
    resource_space
      (rs_error "SSO_CAPACITY" "Too many pending SSO sign-ins; please retry shortly." 503)

-- From the pruned state and the limit of the source on.
abbrev pub begin_within :
    AuthService
    → SsoDraws
    → SsoRequest
    → State
    → Result Exception ℕ
    → Result Exception (String × State)
begin_within service d q s' (err e) = err e
begin_within service d q s' (ok limit) =
    let pending = s'.pending_sso_states in
    if leb limit (count (is_active_of_source q.initiator_key d.count_now) pending)
    then err source_capacity
    else if leb max_pending_sso_states (count (is_active_pending_sso_state d.count_now) pending)
    then err total_capacity
    else ok (
      d.handoff_state,
      record s' {
        pending_sso_states = insert d.handoff_state (pending_record service d q) pending;
      },
    )

-- `begin_sso_authorization`, its updater
unfoldable pub begin_sso_authorization :
    AuthService → SsoDraws → SsoRequest → State → Result Exception (String × State)
unfolding max_pending_sso_states_per_source
begin_sso_authorization service d q s =
    begin_within service d q (prune_state service d.prune_now s)
      (max_pending_sso_states_per_source service)

-- The answers of `_classify_pending_sso_record`.
pub data Classified : Type 0 where
  invalid : Classified
  replayed : PendingSsoState → Classified
  expired : PendingSsoState → Classified
  active : PendingSsoState → Classified

-- `_classify_pending_sso_record`
unfoldable pub classify_pending_sso_record : ℕ → Option PendingSsoState → Classified
classify_pending_sso_record now none = invalid
classify_pending_sso_record now (some r) =
    if truthy_number r.used_at
    then replayed r
    else if ltb r.expires_at now
    then expired r
    else active r

-- `inspect_pending_sso_state`
unfoldable pub inspect_pending_sso_state : ℕ → String → State → Classified
unfolding classify_pending_sso_record
inspect_pending_sso_state now handoff_state s =
    classify_pending_sso_record now (lookup handoff_state s.pending_sso_states)

-- The answers of `complete_sso_authorization`.
pub data Completion : Type 0 where
  refused : Classified → Completion
  valid : (code : String) → PendingSsoState → Completion

-- What one completion draws: the clock at its own pruning, at the classification and at the mark
-- of use, and the minting.
pub record CompletionDraws : Type 0 where
  pub prune_now : ℕ
  pub classify_now : ℕ
  pub used_now : ℕ
  pub mint : MintDraws

-- `record["usedAt"] = now` on the stored record, if the pruning of the minting has left it there
abbrev pub mark_found : String → ℕ → State → Option PendingSsoState → State
mark_found handoff_state now s none = s
mark_found handoff_state now s (some r) = record s {
  pending_sso_states = insert handoff_state (record r { used_at = some now }) s.pending_sso_states;
}

abbrev pub mark_used : String → ℕ → State → State
mark_used handoff_state now s =
    mark_found handoff_state now s (lookup handoff_state s.pending_sso_states)

-- What the record holds of the request that began the handoff.
abbrev pub request_of : PendingSsoState → CodeRequest
request_of r = record {
  client_id = r.client_id;
  redirect_uri = r.redirect_uri;
  scope = r.scope;
  code_challenge = r.code_challenge;
  code_challenge_method = some r.code_challenge_method;
}

abbrev pub complete_classified :
    AuthService → CompletionDraws → String → Session → State → Classified → Completion × State
complete_classified service d handoff_state session s (active r) =
    let integration = integration_for_client_id service.config r.client_id in
    let stamped = stamp_broker_session_metadata r.client_id integration session in
    let (code, s') = mint_authorization_code service d.mint (request_of r) stamped s in
    (valid code (record r { used_at = some d.used_now }), mark_used handoff_state d.used_now s')
complete_classified service d handoff_state session s invalid = (refused invalid, s)
complete_classified service d handoff_state session s (replayed r) = (refused (replayed r), s)
complete_classified service d handoff_state session s (expired r) = (refused (expired r), s)

-- `complete_sso_authorization`
unfoldable pub complete_sso_authorization :
    AuthService → CompletionDraws → String → Session → State → Completion × State
unfolding classify_pending_sso_record mint_authorization_code
complete_sso_authorization service d handoff_state session s =
    let s' = prune_state service d.prune_now s in
    complete_classified service d handoff_state session s'
      (classify_pending_sso_record d.classify_now (lookup handoff_state s'.pending_sso_states))

abbrev pub consume_classified : String → ℕ → State → Classified → Classified × State
consume_classified handoff_state now s (active r) =
    (active (record r { used_at = some now }), mark_used handoff_state now s)
consume_classified handoff_state now s other = (other, s)

-- `consume_pending_sso_state`: its "valid" is `active` here
unfoldable pub consume_pending_sso_state :
    AuthService → ℕ → ℕ → ℕ → String → State → Classified × State
unfolding classify_pending_sso_record
consume_pending_sso_state service prune_now classify_now used_now handoff_state s =
    let s' = prune_state service prune_now s in
    consume_classified handoff_state used_now s'
      (classify_pending_sso_record classify_now (lookup handoff_state s'.pending_sso_states))
