-- ===== src/Hosts.antt =====
-- The guard on the hosts that the broker connects to:
-- src/resourcespace_platform/services/resourcespace/_helpers.py (`canonical_ascii_host`,
-- `_canonical_pattern`, `_host_matches_pattern`, `_host_matches_strict`). The resolver, `ipaddress`
-- and httpx.URL are parameters.
pub mod Resolve
pub mod Pinning
pub mod Requests
use Prim.Native.Char.{Char, code}
use Prim.Native.String
use resourcespace_authentica.Base.{
  ℕ, zero, suc, ◌-◌, String, ◌<>◌, Option, none, some, Bool, true, false, not, ◌&&◌, ◌||◌, ◌==◌,
  leb, if◌then◌else◌, truthy, any, contains, List, [], ◌∷◌, ◌++◌, map, is_ascii, strip,
  remove_prefix, is_present, get_or, same_code, Result, ok, err, ◌>>=◌,
}
use resourcespace_authentica.Errors.{ResourceSpaceError, rs_error}

-- What `ipaddress` says of an address; `is_site_local` is false where the attribute is missing.
pub record IpAddress : Type 0 where
  pub version : ℕ
  pub is_private : Bool
  pub is_loopback : Bool
  pub is_link_local : Bool
  pub is_reserved : Bool
  pub is_multicast : Bool
  pub is_unspecified : Bool
  pub is_site_local : Bool
  pub is_global : Bool

-- A URL as httpx.URL gives it; `copy_with_host` is str(url.copy_with(host=...)).
pub record Url : Type 0 where
  pub scheme : String
  pub host : String
  pub raw_host : String
  pub port : Option ℕ
  pub copy_with_host : String → String

-- `none` where the function raises what its callers catch. `lower` is str.lower of a text that is
-- not ASCII, `idna_host` the raw host of httpx.URL(scheme="https", host=...), `getaddrinfo` the
-- addresses that it returns, in order.
pub record HostLibrary : Type 0 where
  pub lower : String → String
  pub idna_host : String → Option String
  pub getaddrinfo : String → Option (List String)
  pub ip_address : String → Option IpAddress
  pub parse_url : String → Option Url
  pub str : ℕ → String

abbrev nth_char : String → ℕ → Char → Char
nth_char String.[] n other = other
nth_char (String.◌∷◌ c s) zero other = c
nth_char (String.◌∷◌ c s) (suc n) other = nth_char s n other

abbrev lower_char : Char → Char
lower_char c =
    if leb 65 (code c) && leb (code c) 90
    then nth_char "abcdefghijklmnopqrstuvwxyz" (code c - 65) c
    else c

-- `str.lower` of an ASCII text
unfoldable pub lower_ascii : String → String
lower_ascii String.[] = ""
lower_ascii (String.◌∷◌ c s) = String.◌∷◌ (lower_char c) (lower_ascii s)

unfoldable pub ends_with : String → String → Bool
ends_with suffix String.[] = suffix == ""
ends_with suffix (String.◌∷◌ c s) =
    let later = ends_with suffix s in suffix == String.◌∷◌ c s || later

abbrev pub invalid_host : ResourceSpaceError
invalid_host = rs_error "FORBIDDEN" "Invalid host name." 400

abbrev pub found_or {ℓ} : {A : Type ℓ} → ResourceSpaceError → Option A → Result ResourceSpaceError A
found_or e none = err e
found_or e (some a) = ok a

abbrev pub ok_or : Result ResourceSpaceError String → String → String
ok_or (ok s) other = s
ok_or (err e) other = other

module _ (library : HostLibrary) where
  open library use {lower, idna_host}

  -- `canonical_ascii_host`
  unfoldable pub canonical_ascii_host : String → Result ResourceSpaceError String
  unfolding is_ascii lower_ascii
  canonical_ascii_host host =
      if not (truthy host)
      then ok ""
      else if is_ascii host
      then ok (lower_ascii host)
      else found_or invalid_host (idna_host host)

  abbrev pub lowered : String → String
  lowered s = if is_ascii s then lower_ascii s else lower s

  abbrev after_dot : String → Option String → Result ResourceSpaceError String
  after_dot p none = canonical_ascii_host p
  after_dot p (some rest) = do domain ← canonical_ascii_host rest; ok ("." <> domain)

  -- `_canonical_pattern`
  unfoldable pub canonical_pattern : String → String
  unfolding canonical_ascii_host remove_prefix strip
  canonical_pattern pattern =
      let p = lowered (strip pattern) in
      if truthy p then ok_or (after_dot p (remove_prefix "." p)) p else ""

  abbrev pattern_test : Result ResourceSpaceError String → String → Bool
  pattern_test (err e) normalized = false
  pattern_test (ok chost) normalized =
      truthy normalized
      && (if is_present (remove_prefix "." normalized)
          then ends_with normalized chost
          else (chost == normalized || ends_with ("." <> normalized) chost))

  -- `_host_matches_pattern`
  unfoldable pub host_matches_pattern : String → String → Bool
  unfolding canonical_pattern
  host_matches_pattern host pattern =
      pattern_test (canonical_ascii_host host) (canonical_pattern pattern)

  abbrev strict_dotted : String → String → Option String → Bool
  strict_dotted chost normalized none = chost == normalized
  strict_dotted chost normalized (some domain) = chost == domain || ends_with normalized chost

  abbrev pub strict_test : Result ResourceSpaceError String → String → Bool
  strict_test (err e) normalized = false
  strict_test (ok chost) normalized =
      truthy normalized && strict_dotted chost normalized (remove_prefix "." normalized)

  -- `_host_matches_strict`
  unfoldable pub host_matches_strict : String → String → Bool
  unfolding canonical_pattern
  host_matches_strict host pattern =
      strict_test (canonical_ascii_host host) (canonical_pattern pattern)
