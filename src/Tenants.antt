-- ===== src/Tenants.antt =====
-- The lookup of a tenant: `_https_origin`, `_reject_private_tenant_sink` and `get_configured_tenant`
-- of src/resourcespace_platform/services/resourcespace/service.py. urllib.parse and ipaddress are
-- parameters.
pub mod Identities
pub mod Sinks
pub mod Guards
use Prim.Native.String
use resourcespace_authentica.Base.{
  ℕ, String, ◌<>◌, Option, none, some, Bool, true, false, not, ◌&&◌, ◌||◌, ◌==◌, same_code, any,
  if◌then◌else◌, truthy, get_or, is_present, List, [], ◌∷◌, remove_prefix, Result, ok, err, ◌>>=◌,
}
use resourcespace_authentica.Errors.{ResourceSpaceError, Exception, resource_space}
use resourcespace_authentica.Config.{AppConfig, ConfiguredTenant, is_dev_like}
use resourcespace_authentica.Session.{Tenant}
use resourcespace_authentica.Hosts.{IpAddress, canonical_ascii_host, lowered, host_matches_pattern}
use resourcespace_authentica.Hosts.Resolve.{has_entries, is_private_ip, unresolved}
use resourcespace_authentica.Tenants.Identities.{
  ParsedUrl, TenantLibrary, Identity, same_identity, slugify, normalize_api_url, present,
  tenant_error, normalize_base_url, tenant_identity,
}

module _ (library : TenantLibrary) where
  open library use {hosts, urlparse}

  abbrev check_resolved : String → Option (List String) → Result Exception (Unit {0})
  check_resolved host none = err (resource_space unresolved)
  check_resolved host (some infos) =
      if is_private_ip hosts host
      then err (
          tenant_error "FORBIDDEN" "This ResourceSpace URL resolves to a private network address."
            403)
      else ok tt

  abbrev check_canonical : String → Result ResourceSpaceError String → Result Exception (Unit {0})
  check_canonical host (err e) = err (resource_space unresolved)
  check_canonical host (ok ascii_host) = check_resolved host (hosts.getaddrinfo ascii_host)

  abbrev pub host_of : ParsedUrl → String
  host_of parsed = lowered hosts (get_or parsed.hostname "")

  abbrev pub check_parsed : ParsedUrl → Result Exception (Unit {0})
  check_parsed parsed =
      if not (truthy (host_of parsed))
      then ok tt
      else check_canonical (host_of parsed) (canonical_ascii_host hosts (host_of parsed))

  -- The loop of `_reject_private_tenant_sink`
  unfoldable pub check_sinks : List String → Result Exception (Unit {0})
  unfolding canonical_ascii_host is_private_ip
  check_sinks [] = ok tt
  check_sinks (url ∷ urls) =
      let later = check_sinks urls in
      if not (truthy url)
      then later
      else (do parsed ← present (urlparse url); checked ← check_parsed parsed; later)

  -- `_reject_private_tenant_sink`
  unfoldable pub reject_private_tenant_sink :
      AppConfig → List String → Bool → Result Exception (Unit {0})
  unfolding check_sinks
  reject_private_tenant_sink config urls skip_fixture =
      if skip_fixture && config.resource_space.mode == "fixture" then ok tt else check_sinks urls

  abbrev bracketed : String → Option IpAddress → String
  bracketed host none = host
  bracketed host (some ip) = if same_code ip.version 6 then "[" <> host <> "]" else host

  -- `_https_origin`
  unfoldable pub https_origin : String → ℕ → String
  https_origin host port =
      let authority = bracketed host (hosts.ip_address host) in
      if same_code port 443
      then "https://" <> authority
      else "https://" <> authority <> ":" <> hosts.str port

  -- What an entry of the registry becomes.
  abbrev registered : AppConfig → ConfiguredTenant → Option String → Result Exception Tenant
  registered config c base =
      let resolved_base = get_or base "" in
      let resolved_api = normalize_api_url resolved_base c.api_url in
      (do
        checked ← reject_private_tenant_sink config (resolved_base ∷ resolved_api ∷ []) true
        ok (record {
          id = c.id;
          slug = c.slug;
          name = c.name;
          base_url = resolved_base;
          api_url = resolved_api;
        }))

  abbrev is_requested : Identity → Option Identity → Bool
  is_requested requested none = false
  is_requested requested (some identity) = same_identity identity requested

  -- The first entry with the requested identity.
  unfoldable pub find_tenant :
      Identity → List ConfiguredTenant → Result Exception (Option ConfiguredTenant)
  unfolding tenant_identity
  find_tenant requested [] = ok none
  find_tenant requested (c ∷ tenants) =
      let later = find_tenant requested tenants in
      (do
        identity ← tenant_identity library c.base_url
        if is_requested requested identity then ok (some c) else later)

  abbrev find_requested :
      Option Identity → List ConfiguredTenant → Result Exception (Option ConfiguredTenant)
  find_requested none tenants = ok none
  find_requested (some requested) tenants = find_tenant requested tenants

  abbrev slug_of : Identity → String
  slug_of identity =
      let slug = slugify hosts identity.host in
      if same_code identity.port 443 then slug else slug <> "-" <> hosts.str identity.port

  -- `removeprefix("https://")`
  abbrev without_scheme : String → String
  without_scheme url = get_or (remove_prefix "https://" url) url

  -- The tenant of a URL that is not registered.
  abbrev pub dynamic_tenant : Identity → Tenant
  dynamic_tenant identity =
      let base = https_origin identity.host identity.port in
      record {
        id = "tenant_" <> slug_of identity;
        slug = some (slug_of identity);
        name = some (without_scheme base);
        base_url = base;
        api_url = normalize_api_url base none;
      }

  abbrev pub invalid_tenant_url : Exception
  invalid_tenant_url =
      tenant_error "INVALID_TENANT_URL" "ResourceSpace URLs must use HTTPS without credentials." 400

  abbrev pub unknown_tenant : Exception
  unknown_tenant =
      tenant_error "UNKNOWN_TENANT"
        "This ResourceSpace URL is not in the broker tenant registry or approved hostname suffixes."
        403

  -- The last check: HTTPS, a usable port, no credentials.
  abbrev pub checked_tenant : ParsedUrl → Option Identity → Result Exception Tenant
  checked_tenant parsed none = err invalid_tenant_url
  checked_tenant parsed (some identity) =
      if not (identity.scheme == "https")
        || same_code identity.port 0
        || is_present parsed.username
        || is_present parsed.password
      then err invalid_tenant_url
      else ok (dynamic_tenant identity)

  abbrev pub host_or_empty : Option Identity → String
  host_or_empty none = ""
  host_or_empty (some identity) = identity.host

  abbrev pub is_approved : List String → String → Bool
  is_approved allowed host = truthy host && any (host_matches_pattern hosts host) allowed

  abbrev pub unregistered :
      AppConfig → String → ParsedUrl → Option Identity → Result Exception Tenant
  unregistered config normalized parsed requested =
      let allowed = config.resource_space.allowed_hosts in
      if has_entries allowed && not (is_approved allowed (host_or_empty requested))
      then err unknown_tenant
      else (do
        checked ←
            reject_private_tenant_sink config (normalized ∷ []) (is_dev_like config.environment)
        checked_tenant parsed requested)

  abbrev pub tenant_found :
      AppConfig → String → Option Identity → Option ConfiguredTenant → Result Exception Tenant
  tenant_found config normalized requested none = do
    parsed ← present (urlparse normalized)
    unregistered config normalized parsed requested
  tenant_found config normalized requested (some c) = do
    base ← normalize_base_url library c.base_url
    registered config c base

  abbrev pub tenant_of : AppConfig → Option String → Result Exception Tenant
  tenant_of config none =
      err (tenant_error "INVALID_TENANT_URL" "A ResourceSpace URL is required." 400)
  tenant_of config (some normalized) = do
    requested ← tenant_identity library (some normalized)
    found ← find_requested requested config.resource_space.tenants
    tenant_found config normalized requested found

  -- `get_configured_tenant`; an origin that normalize_base_url gives is not empty.
  unfoldable pub get_configured_tenant : AppConfig → Option String → Result Exception Tenant
  unfolding normalize_base_url tenant_identity find_tenant reject_private_tenant_sink
      normalize_api_url https_origin slugify is_dev_like host_matches_pattern remove_prefix
  get_configured_tenant config base_url = do
    normalized ← normalize_base_url library base_url
    tenant_of config normalized
