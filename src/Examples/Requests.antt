-- ===== src/Examples/Requests.antt =====
-- The theorems on what comes in and goes out over the network, at concrete requests.
use resourcespace_authentica.Base.{
  ok, ◌≤◌, String, ◌==◌, ◌≡◌, ◌↔◌, refl, true, false, some, none, lookup, arith, [], ◌∷◌,
  if◌then◌else◌, split_on, strip_parts, strip, rstrip_class, lstrip_class, is_space, is_ascii,
  has_code, remove_prefix,
}
use resourcespace_authentica.Config.{is_dev_like}
use resourcespace_authentica.Config.Validation.{validate_config_for_environment}
use resourcespace_authentica.Config.Validation.Deployable.{IsDeployable, validate_iff}
use resourcespace_authentica.RateLimiter.{RateLimiter}
use resourcespace_authentica.RateLimiter.Window.{allowed_of, window_limit}
use resourcespace_authentica.TrustedProxy.{
  IpLibrary, host_matches_trusted_proxy, client_ip_from_x_forwarded_for, resolve_client_host,
  pattern_matches,
}
use resourcespace_authentica.TrustedProxy.Hops.{client_ip_last_untrusted, resolve_untrusted_peer}
use resourcespace_authentica.CanvaVerifier.{Signing, positive, verify_canva_post_request}
use resourcespace_authentica.CanvaVerifier.Laws.{IsSignedPost, verify_post_iff}
use resourcespace_authentica.Hosts.{
  HostLibrary, IpAddress, Url, canonical_ascii_host, lower_ascii, host_matches_strict,
  canonical_pattern, ends_with,
}
use resourcespace_authentica.Hosts.Resolve.{
  Pinned, pin_request, resolve_pinned_addresses, sort_infos, append_new, ip_is_blocked,
  authority_for_header,
}
use resourcespace_authentica.Hosts.Requests.{IsSafe, pin_request-IsSafe}
use resourcespace_authentica.Examples.{demo_config}

abbrev limiter : RateLimiter
limiter = record { max_requests = 2; window_ms = 1000 }

window_limit_example :
    allowed_of limiter "a" ((100, "a") ∷ (200, "a") ∷ (300, "b") ∷ (400, "a") ∷ []) [] ≤ 2
unfolding lookup
window_limit_example =
    window_limit limiter 100 "a" ((200, "a") ∷ (300, "b") ∷ (400, "a") ∷ []) [] (omega arith) tt
      (omega arith, (omega arith, (omega arith, tt)))

-- Addresses are compared as texts here, and no text is a network.
abbrev texts_as_addresses : IpLibrary
texts_as_addresses = record {
  Address = String;
  Network = String;
  ip_address = λ text. some text;
  ip_network = λ text. none;
  same_address = λ a b. a == b;
  in_network = λ a n. false;
}

client_ip_last_untrusted_example :
    client_ip_from_x_forwarded_for texts_as_addresses "1.2.3.4, 192.0.2.1, 10.0.0.1"
      ("10.0.0.1" ∷ [])
    ≡ some "192.0.2.1"
unfolding host_matches_trusted_proxy pattern_matches split_on strip_parts strip is_space
    rstrip_class lstrip_class has_code
client_ip_last_untrusted_example =
    client_ip_last_untrusted texts_as_addresses ("10.0.0.1" ∷ []) "1.2.3.4, 192.0.2.1, 10.0.0.1"
      "192.0.2.1" ("1.2.3.4" ∷ []) ("10.0.0.1" ∷ []) refl (refl, tt) refl

resolve_untrusted_peer_example :
    ((resolve_client_host texts_as_addresses demo_config "192.0.2.1" "1.2.3.4").host ≡ "192.0.2.1")
    × ((resolve_client_host texts_as_addresses demo_config "192.0.2.1" "1.2.3.4").header_trusted
        ≡ false)
unfolding host_matches_trusted_proxy pattern_matches has_code
resolve_untrusted_peer_example =
    resolve_untrusted_peer texts_as_addresses demo_config "192.0.2.1" "1.2.3.4" refl

-- A digest that is the same for every message, and one timestamp that parses.
abbrev toy_signing : Signing
toy_signing = record {
  Key = String;
  b64decode = λ text. some text;
  hmac_sha256 = λ key message. "ab12";
  parse_int = λ text. if text == "1000" then some (positive 1000) else none;
}

verify_post_iff_example :
    ((verify_canva_post_request toy_signing demo_config 1100
        (some "ab12")
        (some "1000")
        "/hook"
        "{}").is_ok
      ≡ true)
    ↔ IsSignedPost toy_signing demo_config 1100 (some "ab12") (some "1000") "/hook" "{}"
unfolding is_ascii
verify_post_iff_example =
    verify_post_iff toy_signing (λ k m. refl) demo_config 1100 (some "ab12") (some "1000") "/hook"
      "{}" refl

abbrev public_address : IpAddress
public_address = record {
  version = 4;
  is_private = false;
  is_loopback = false;
  is_link_local = false;
  is_reserved = false;
  is_multicast = false;
  is_unspecified = false;
  is_site_local = false;
  is_global = true;
}

-- Every URL is that of one host, which has one public address.
abbrev dam_url : Url
dam_url = record {
  scheme = "https";
  host = "dam.example";
  raw_host = "dam.example";
  port = none;
  copy_with_host = λ host. host;
}

abbrev one_host : HostLibrary
one_host = record {
  lower = λ text. text;
  idna_host = λ host. none;
  getaddrinfo = λ host. some ("192.0.2.7" ∷ []);
  ip_address = λ text. some public_address;
  parse_url = λ text. some dam_url;
  str = λ n. "443";
}

abbrev dam_pinned : Pinned
dam_pinned = record {
  urls = "192.0.2.7" ∷ [];
  host_header = "dam.example";
  sni_hostname = "dam.example";
}

pin_request-IsSafe_example :
    (parsed : Url) × (one_host.parse_url "https://dam.example/a.jpg" ≡ some parsed)
    × IsSafe one_host parsed ("dam.example" ∷ []) dam_pinned
unfolding pin_request resolve_pinned_addresses sort_infos append_new ip_is_blocked
    authority_for_header canonical_ascii_host lower_ascii host_matches_strict canonical_pattern
    is_ascii strip rstrip_class lstrip_class is_space remove_prefix ends_with
pin_request-IsSafe_example =
    pin_request-IsSafe one_host "https://dam.example/a.jpg" ("dam.example" ∷ []) dam_pinned refl

validate_iff_example :
    (validate_config_for_environment true (λ key. true) demo_config ≡ ok tt)
    ↔ IsDeployable (λ key. true) demo_config
unfolding is_dev_like
validate_iff_example = validate_iff true (λ key. true) demo_config refl
