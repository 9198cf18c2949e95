-- ===== src/Uploads/Downloads/Requests.antt =====
-- The checks and the requests of one turn of `_download_bytes`
-- (src/resourcespace_platform/services/resourcespace/_upload.py).
use resourcespace_authentica.Base.{
  ℕ, ◌≡◌, refl, ap, String, Option, none, some, true, false, ◌==◌, truthy, any, contains, get_or,
  List, [], ◌∷◌, Result, ok, err, >>=-eq-ok, ok_inj, All, arith, eq_iff, eq_refl, Bool-cases, inl,
  inr,
}
use resourcespace_authentica.Errors.{ResourceSpaceError}
use resourcespace_authentica.Hosts.{HostLibrary, canonical_ascii_host, host_matches_strict}
use resourcespace_authentica.Hosts.Resolve.{Pinned, has_entries, is_private_ip}
use resourcespace_authentica.Api.{HttpRequest, raised}
use resourcespace_authentica.Uploads.{
  SplitUrl, ExportLibrary, Streamed, connect_error, http_error, answered, HopError, Hop, present,
  check_split, export_request, tried, read_export_hop,
}

raised-eq-ok : (r : Result ResourceSpaceError String) (a : String) → raised r ≡ ok a → r ≡ ok a
raised-eq-ok (ok b) a h = ap ok (ok_inj h)
raised-eq-ok (err e) a h = cc

pub raised_pin-eq-ok :
    (r : Result ResourceSpaceError Pinned) (p : Pinned) → raised r ≡ ok p → r ≡ ok p
raised_pin-eq-ok (ok b) p h = ap ok (ok_inj h)
raised_pin-eq-ok (err e) p h = cc

pub present-eq-ok : (o : Option SplitUrl) (a : SplitUrl) → present o ≡ ok a → o ≡ some a
present-eq-ok none a h = cc
present-eq-ok (some b) a h = ap some (ok_inj h)

-- The validated URL is https by urlparse, its host is on the allowlist if there is one, and no
-- address of the host is private.
pub record IsValidated (library : HostLibrary) (allowed_hosts : List String) (split : SplitUrl)
    : Type 0 where
  pub https : split.scheme ≡ "https"
  pub host : String
  pub canonical : canonical_ascii_host library (get_or split.hostname "") ≡ ok host
  pub has_host : truthy host ≡ true
  pub listed :
      has_entries allowed_hosts ≡ true → any (host_matches_strict library host) allowed_hosts ≡ true
  pub public : is_private_ip library host ≡ false

pub check_split-IsValidated :
    (library : HostLibrary) (allowed_hosts : List String) (split : SplitUrl)
    → check_split library allowed_hosts split ≡ ok tt
    → IsValidated library allowed_hosts split
check_split-IsValidated library allowed_hosts split h =
    elim (Bool-cases (split.scheme == "https")) [
      | inr other ↦ absurd (cc (rw other at h))
      | inl https ↦
          let (host, e, k) =
            >>=-eq-ok (raised (canonical_ascii_host library (get_or split.hostname ""))) _ tt
              (rw https at h) in
          record {
            https = ground (arith, eq_iff split.scheme "https");
            host = host;
            canonical =
                raised-eq-ok (canonical_ascii_host library (get_or split.hostname "")) host e;
            has_host = ground arith;
            listed = λ x. ground arith;
            public = ground arith;
          }
    ]

module _ (P : String → Type 0) (p : Pinned) (export : ExportLibrary) (max_bytes : ℕ) where
  -- The request goes to a URL with the property, under the names of the pinned host.
  abbrev pub IsSentTo : HttpRequest → Type 0
  IsSentTo r = P r.url × (r.host_header ≡ p.host_header) × (r.sni_hostname ≡ p.sni_hostname)

  tried-AllSentTo :
      (url : String) (answer : Streamed) (later : String → Result HopError Hop × List HttpRequest)
      → P url
      → ((message : String) → All IsSentTo (later message).1)
      → All IsSentTo (tried export max_bytes (export_request p url) answer later).1
  tried-AllSentTo url (connect_error message) later holds h = ((holds, refl, refl), h message)
  tried-AllSentTo url (http_error message) later holds h = ((holds, refl, refl), tt)
  tried-AllSentTo url (answered response) later holds h = ((holds, refl, refl), tt)

  pub read_export_hop-AllSentTo :
      (stream : HttpRequest → Streamed) (urls : List String) (last : String)
      → All P urls
      → All IsSentTo (read_export_hop export max_bytes stream p urls last).1
  unfolding read_export_hop
  read_export_hop-AllSentTo stream [] last h = tt
  read_export_hop-AllSentTo stream (url ∷ urls) last (holds, h) =
      tried-AllSentTo url (stream (export_request p url))
        (λ message. read_export_hop export max_bytes stream p urls message) holds
        (λ message. read_export_hop-AllSentTo stream urls message h)

All-weaken :
    (x : String) (urls some_urls : List String)
    → All (λ u. contains u urls ≡ true) some_urls
    → All (λ u. contains u (x ∷ urls) ≡ true) some_urls
All-weaken x urls [] h = tt
All-weaken x urls (u ∷ us) (e, h) = (ground arith, All-weaken x urls us h)

pub All-contains : (urls : List String) → All (λ u. contains u urls ≡ true) urls
All-contains [] = tt
All-contains (u ∷ urls) = (ground (arith, eq_refl u), All-weaken u urls urls (All-contains urls))
