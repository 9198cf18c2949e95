-- ===== src/Hosts/Requests.antt =====
-- The requests of `pin_request`
-- (src/resourcespace_platform/services/resourcespace/_helpers.py).
use resourcespace_authentica.Base.{
  String, Option, none, some, true, not, ◌||◌, ◌&&◌, ◌==◌, ◌≡◌, refl, truthy, any, List, Result, ok,
  err, ◌>>=◌, arith, eq_iff, Bool-cases, inl, inr,
}
use resourcespace_authentica.Errors.{ResourceSpaceError}
use resourcespace_authentica.Hosts.{Url, HostLibrary, found_or, host_matches_strict}
use resourcespace_authentica.Hosts.Resolve.{
  resolve_pinned_addresses, Pinned, pinned, pin_parsed, pin_request, has_entries, invalid_url,
}
use resourcespace_authentica.Hosts.Pinning.{IsPinnable, resolve_pinned_addresses-IsPinnable}

module _ (library : HostLibrary) where
  -- The URL is https with a host, the host is on the allowlist if there is one, and the request goes
  -- to the pinnable addresses under the host's own name.
  pub record IsSafe (parsed : Url) (allowed_hosts : List String) (p : Pinned) : Type 0 where
    pub https : parsed.scheme ≡ "https"
    pub has_host : truthy parsed.host ≡ true
    pub listed :
        has_entries allowed_hosts ≡ true
        → any (host_matches_strict library parsed.raw_host) allowed_hosts ≡ true
    pub addresses : List String
    pub pinnable : IsPinnable library addresses
    pub request : p ≡ pinned library parsed addresses

  resolved_case :
      (parsed : Url) (p : Pinned) (r : Result ResourceSpaceError (List String))
      → (do addresses ← r; ok (pinned library parsed addresses)) ≡ ok p
      → (addresses : List String) × (r ≡ ok addresses) × (p ≡ pinned library parsed addresses)
  resolved_case parsed p (err e) h = cc
  resolved_case parsed p (ok addresses) h = (addresses, refl, cc)

  pin_parsed-IsSafe :
      (parsed : Url) (allowed_hosts : List String) (p : Pinned)
      → pin_parsed library allowed_hosts parsed ≡ ok p
      → IsSafe parsed allowed_hosts p
  pin_parsed-IsSafe parsed allowed_hosts p h =
      elim (Bool-cases (not (parsed.scheme == "https") || not (truthy parsed.host))) [
        | inl refused ↦ absurd (cc (rw refused at h))
        | inr secure ↦
            elim (Bool-cases (
              has_entries allowed_hosts
              && not (any (host_matches_strict library parsed.raw_host) allowed_hosts))) [
                | inl unlisted ↦ absurd (cc (rw (secure, unlisted) at h))
                | inr listed ↦
                    let (addresses, e, same) =
                      resolved_case parsed p (resolve_pinned_addresses library parsed.raw_host)
                        (rw (secure, listed) at h) in
                    record {
                      https = ground (arith, eq_iff parsed.scheme "https");
                      has_host = ground arith;
                      listed = λ x. ground arith;
                      addresses = addresses;
                      pinnable =
                          resolve_pinned_addresses-IsPinnable library parsed.raw_host addresses e;
                      request = same;
                    }
              ]
      ]

  -- If a request is pinned, its URL parses to one with the scheme https and a host, whose raw host
  -- is strictly matched by an entry of the allowlist if that has entries; and the request goes to
  -- addresses that are all public, under the Host header and the SNI name of that host.
  pub pin_request-IsSafe :
      (url : String) (allowed_hosts : List String) (p : Pinned)
      → pin_request library url allowed_hosts ≡ ok p
      → (parsed : Url) × (library.parse_url url ≡ some parsed) × IsSafe parsed allowed_hosts p
  unfolding pin_request
  pin_request-IsSafe url allowed_hosts p h = parsed_case (library.parse_url url) h
    where
      parsed_case :
          (found : Option Url)
          → (do parsed ← found_or invalid_url found; pin_parsed library allowed_hosts parsed) ≡ ok p
          → (parsed : Url) × (found ≡ some parsed) × IsSafe parsed allowed_hosts p
      parsed_case none k = cc
      parsed_case (some parsed) k = (parsed, refl, pin_parsed-IsSafe parsed allowed_hosts p k)
