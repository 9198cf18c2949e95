-- ===== src/TrustedProxy.antt =====
-- The client address behind reverse proxies: src/resourcespace_platform/trusted_proxy.py and
-- `resolve_client_host` of http_utils.py. The `ipaddress` module of the standard library is a
-- parameter.
pub mod Hops
use resourcespace_authentica.Base.{
  String, Option, none, some, Bool, true, false, not, ◌&&◌, ◌||◌, ◌==◌, if◌then◌else◌, truthy, any,
  contains, List, [], ◌∷◌, split_on, strip_parts, strip, has_code,
}
use mathlib.Core.List.{reverse}
use resourcespace_authentica.Config.{AppConfig}

-- `ip_address` and `ip_network(..., strict=False)` are `none` where they raise ValueError.
pub record IpLibrary : Type 1 where
  pub Address : Type 0
  pub Network : Type 0
  pub ip_address : String → Option Address
  pub ip_network : String → Option Network
  pub same_address : Address → Address → Bool
  pub in_network : Address → Network → Bool

abbrev pub not_empty : List String → Bool
not_empty [] = false
not_empty (p ∷ ps) = true

pub record ClientHostResolution : Type 0 where
  pub host : String
  pub transport_peer : String
  pub client_ip_header : String
  pub header_trusted : Bool
  pub header_present : Bool

-- The peer, or "unknown" for a connection without one.
abbrev pub peer_or_unknown : String → String
peer_or_unknown peer = if truthy peer then peer else "unknown"

abbrev pub forwarded_host : String → Option String → String
forwarded_host peer none = peer_or_unknown peer
forwarded_host peer (some hop) = if truthy hop then hop else peer_or_unknown peer

module _ (ip : IpLibrary) where
  open ip use {Address, Network, ip_address, ip_network, same_address, in_network}

  -- One pattern; where it is no address or network, the texts are compared.
  abbrev pub network_matches : String → Address → String → Option Network → Bool
  network_matches host address pattern none = host == pattern
  network_matches host address pattern (some network) = in_network address network

  abbrev pub address_matches : String → Address → String → Option Address → Bool
  address_matches host address pattern none = host == pattern
  address_matches host address pattern (some other) = same_address address other

  unfoldable pub pattern_matches : String → Address → String → Bool
  pattern_matches host address pattern =
      truthy pattern
      && (if has_code b'/' pattern
          then network_matches host address pattern (ip_network pattern)
          else address_matches host address pattern (ip_address pattern))

  abbrev pub host_matches : List String → String → Option Address → Bool
  host_matches patterns host none = contains host patterns
  host_matches patterns host (some address) = any (pattern_matches host address) patterns

  -- `host_matches_trusted_proxy`
  unfoldable pub host_matches_trusted_proxy : String → List String → Bool
  unfolding pattern_matches has_code
  host_matches_trusted_proxy host patterns =
      truthy host && not_empty patterns && host_matches patterns host (ip_address host)

  -- The loop of `client_ip_from_x_forwarded_for` over the reversed hops.
  unfoldable pub first_untrusted : List String → List String → Option String
  first_untrusted trusted [] = none
  first_untrusted trusted (hop ∷ hops) =
      let rest = first_untrusted trusted hops in
      if host_matches_trusted_proxy hop trusted then rest else some hop

  -- `client_ip_from_x_forwarded_for`
  unfoldable pub client_ip_from_x_forwarded_for : String → List String → Option String
  unfolding first_untrusted strip_parts split_on
  client_ip_from_x_forwarded_for raw trusted =
      first_untrusted trusted (reverse (strip_parts (split_on b',' raw)))

  -- `resolve_client_host` with a configuration: `peer` is the transport peer's host, empty if there
  -- is none, and `header` the value of the configured header, empty if it is missing.
  unfoldable pub resolve_client_host : AppConfig → String → String → ClientHostResolution
  unfolding client_ip_from_x_forwarded_for strip
  resolve_client_host config peer header =
      let name = config.client_ip_header in
      let raw = if truthy name then strip header else "" in
      let trusted =
        truthy name && truthy peer && host_matches_trusted_proxy peer config.trusted_proxy_hosts in
      record {
        host =
            if trusted && truthy raw
            then (if name == "x-forwarded-for"
                then forwarded_host peer
                    (client_ip_from_x_forwarded_for raw config.trusted_proxy_hosts)
                else raw)
            else peer_or_unknown peer;
        transport_peer = peer;
        client_ip_header = name;
        header_trusted = trusted;
        header_present = truthy raw;
      }
