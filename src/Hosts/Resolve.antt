-- ===== src/Hosts/Resolve.antt =====
-- The addresses of a host: `_ip_is_blocked`, `_is_private_ip`, `resolve_pinned_addresses`,
-- `_authority_for_header` and `pin_request` of
-- src/resourcespace_platform/services/resourcespace/_helpers.py.
use resourcespace_authentica.Base.{
  ℕ, String, ◌<>◌, Option, none, some, Bool, true, false, not, ◌&&◌, ◌||◌, ◌==◌, if◌then◌else◌,
  truthy, any, contains, List, [], ◌∷◌, ◌++◌, map, same_code, Result, ok, err, ◌>>=◌,
}
use resourcespace_authentica.Errors.{ResourceSpaceError, rs_error}
use resourcespace_authentica.Hosts.{
  IpAddress, Url, HostLibrary, found_or, canonical_ascii_host, host_matches_strict,
}

-- `_ip_is_blocked`
unfoldable pub ip_is_blocked : IpAddress → Bool
ip_is_blocked ip =
    ip.is_private
    || ip.is_loopback
    || ip.is_link_local
    || ip.is_reserved
    || ip.is_multicast
    || ip.is_unspecified
    || ip.is_site_local
    || not ip.is_global

abbrev pub unresolved : ResourceSpaceError
unresolved = rs_error "FORBIDDEN" "This ResourceSpace URL could not be resolved." 403

abbrev pub non_public : ResourceSpaceError
non_public = rs_error "FORBIDDEN" "Host resolves to a non-public address." 403

abbrev pub no_usable_address : ResourceSpaceError
no_usable_address = rs_error "FORBIDDEN" "Host has no usable address." 403

abbrev pub invalid_url : ResourceSpaceError
invalid_url = rs_error "FORBIDDEN" "Invalid URL." 400

abbrev pub not_https : ResourceSpaceError
not_https = rs_error "FORBIDDEN" "Only https URLs with a hostname may be fetched." 400

abbrev pub not_allowlisted : ResourceSpaceError
not_allowlisted = rs_error "FORBIDDEN" "Host is not in the configured allowlist." 403

-- `if addr not in ordered: ordered.append(addr)`
unfoldable pub append_new : List String → List String → List String
append_new ordered [] = ordered
append_new ordered (a ∷ addresses) =
    append_new (if contains a ordered then ordered else ordered ++ a ∷ []) addresses

abbrev pub not_empty : List String → Result ResourceSpaceError (List String)
not_empty [] = err no_usable_address
not_empty (a ∷ addresses) = ok (a ∷ addresses)

abbrev pub has_entries : List String → Bool
has_entries [] = false
has_entries (a ∷ entries) = true

-- What `pin_request` returns: the URLs, the Host header and the SNI name.
pub record Pinned : Type 0 where
  pub urls : List String
  pub host_header : String
  pub sni_hostname : String

module _ (library : HostLibrary) where
  open library use {getaddrinfo, ip_address, parse_url, str}

  abbrev blocked_if_parsed : Option IpAddress → Bool
  blocked_if_parsed none = false
  blocked_if_parsed (some ip) = ip_is_blocked ip

  abbrev infos_blocked : Option (List String) → Bool
  infos_blocked none = true
  infos_blocked (some infos) = any (λ a. blocked_if_parsed (ip_address a)) infos

  abbrev private_host : Result ResourceSpaceError String → Bool
  private_host (err e) = true
  private_host (ok host) = if truthy host then infos_blocked (getaddrinfo host) else true

  -- `_is_private_ip`
  unfoldable pub is_private_ip : String → Bool
  unfolding canonical_ascii_host ip_is_blocked
  is_private_ip host = private_host (canonical_ascii_host library host)

  abbrev pub place :
      String
      → Option IpAddress
      → Result ResourceSpaceError (List String × List String)
      → Result ResourceSpaceError (List String × List String)
  place a none rest = rest
  place a (some ip) rest =
      if ip_is_blocked ip
      then err non_public
      else (do (v4, v6) ← rest; ok (if same_code ip.version 6 then (v4, a ∷ v6) else (a ∷ v4, v6)))

  -- The loop of `resolve_pinned_addresses`: every error that it raises is the same.
  unfoldable pub sort_infos : List String → Result ResourceSpaceError (List String × List String)
  sort_infos [] = ok ([], [])
  sort_infos (a ∷ infos) = let rest = sort_infos infos in place a (ip_address a) rest

  -- `resolve_pinned_addresses`
  unfoldable pub resolve_pinned_addresses : String → Result ResourceSpaceError (List String)
  unfolding canonical_ascii_host sort_infos append_new
  resolve_pinned_addresses host = do
    ascii ← canonical_ascii_host library host
    infos ← found_or unresolved (getaddrinfo ascii)
    (v4, v6) ← sort_infos infos
    not_empty (append_new [] (v4 ++ v6))

  abbrev authority : String → Option IpAddress → String
  authority host none = host
  authority host (some ip) = if same_code ip.version 6 then "[" <> host <> "]" else host

  abbrev with_port : String → Option ℕ → String
  with_port a none = a
  with_port a (some port) = a <> ":" <> str port

  -- `_authority_for_header`
  unfoldable pub authority_for_header : String → Option ℕ → String
  authority_for_header host port = with_port (authority host (ip_address host)) port

  abbrev pub pinned : Url → List String → Pinned
  pinned parsed addresses = record {
    urls = map parsed.copy_with_host addresses;
    host_header = authority_for_header parsed.raw_host parsed.port;
    sni_hostname = parsed.raw_host;
  }

  abbrev pub pin_parsed : List String → Url → Result ResourceSpaceError Pinned
  pin_parsed allowed_hosts parsed =
      if not (parsed.scheme == "https") || not (truthy parsed.host)
      then err not_https
      else if has_entries allowed_hosts
          && not (any (host_matches_strict library parsed.raw_host) allowed_hosts)
      then err not_allowlisted
      else (do addresses ← resolve_pinned_addresses parsed.raw_host; ok (pinned parsed addresses))

  -- `pin_request`; an empty allowlist is none
  unfoldable pub pin_request : String → List String → Result ResourceSpaceError Pinned
  unfolding resolve_pinned_addresses authority_for_header
  pin_request url allowed_hosts = do
    parsed ← found_or invalid_url (parse_url url)
    pin_parsed allowed_hosts parsed
