-- ===== src/Tenants/Sinks.antt =====
-- The URLs that `_reject_private_tenant_sink`
-- (src/resourcespace_platform/services/resourcespace/service.py) lets through.
use resourcespace_authentica.Base.{
  String, Option, none, some, Bool, true, false, ◌&&◌, ◌==◌, ◌≡◌, ◌⊎◌, inl, inr, truthy, List, [],
  ◌∷◌, Result, ok, err, >>=-eq-ok, All, Bool-cases,
}
use resourcespace_authentica.Errors.{ResourceSpaceError}
use resourcespace_authentica.Config.{AppConfig}
use resourcespace_authentica.Hosts.{canonical_ascii_host}
use resourcespace_authentica.Hosts.Resolve.{is_private_ip}
use resourcespace_authentica.Tenants.{
  host_of, check_resolved, check_canonical, check_parsed, check_sinks, reject_private_tenant_sink,
}
use resourcespace_authentica.Tenants.Identities.{ParsedUrl, TenantLibrary, present}

module _ (library : TenantLibrary) where
  -- The URL has no host, or no address of its host is private.
  pub record IsPublicSink (url : String) : Type 0 where
    pub parsed : ParsedUrl
    pub parses : library.urlparse url ≡ some parsed
    pub public :
        (truthy (host_of library parsed) ≡ false)
        ⊎ (is_private_ip library.hosts (host_of library parsed) ≡ false)

  abbrev pub IsSafeSink : String → Type 0
  IsSafeSink url = (truthy url ≡ false) ⊎ IsPublicSink url

  pub present-eq-ok : (o : Option ParsedUrl) (p : ParsedUrl) → present o ≡ ok p → o ≡ some p
  present-eq-ok none p h = cc
  present-eq-ok (some q) p h = cc

  resolved_public :
      (host : String) (infos : Option (List String))
      → check_resolved library host infos ≡ ok tt
      → is_private_ip library.hosts host ≡ false
  resolved_public host none h = cc
  resolved_public host (some infos) h = elim (Bool-cases (is_private_ip library.hosts host)) [
    | inl private ↦ absurd (cc (rw private at h))
    | inr public ↦ public
  ]

  canonical_public :
      (host : String) (r : Result ResourceSpaceError String)
      → check_canonical library host r ≡ ok tt
      → is_private_ip library.hosts host ≡ false
  canonical_public host (err e) h = cc
  canonical_public host (ok ascii_host) h =
      resolved_public host (library.hosts.getaddrinfo ascii_host) h

  check_parsed_public :
      (parsed : ParsedUrl)
      → check_parsed library parsed ≡ ok tt
      → (truthy (host_of library parsed) ≡ false)
        ⊎ (is_private_ip library.hosts (host_of library parsed) ≡ false)
  check_parsed_public parsed h = elim (Bool-cases (truthy (host_of library parsed))) [
    | inr empty ↦ inl empty
    | inl given ↦ inr (
        canonical_public (host_of library parsed)
          (canonical_ascii_host library.hosts (host_of library parsed)) (rw given at h))
  ]

  check_sinks-AllSafe :
      (urls : List String) → check_sinks library urls ≡ ok tt → All IsSafeSink urls
  unfolding check_sinks
  check_sinks-AllSafe [] h = tt
  check_sinks-AllSafe (url ∷ urls) h = elim (Bool-cases (truthy url)) [
    | inr empty ↦ (inl empty, check_sinks-AllSafe urls (rw empty at h))
    | inl given ↦
        let (parsed, e, k) = >>=-eq-ok (present (library.urlparse url)) _ tt (rw given at h) in
        let (checked, f, later) = >>=-eq-ok (check_parsed library parsed) _ tt k in
        (
          inr (record {
            parsed = parsed;
            parses = present-eq-ok (library.urlparse url) parsed e;
            public = check_parsed_public parsed f;
          }),
          check_sinks-AllSafe urls later,
        )
  ]

  -- The guard is left out only in fixture mode, where it may be.
  abbrev pub IsChecked : AppConfig → List String → Bool → Type 0
  IsChecked config urls skip_fixture =
      ((skip_fixture && config.resource_space.mode == "fixture") ≡ true) ⊎ All IsSafeSink urls

  pub reject-IsChecked :
      (config : AppConfig) (urls : List String) (skip_fixture : Bool)
      → reject_private_tenant_sink library config urls skip_fixture ≡ ok tt
      → IsChecked config urls skip_fixture
  unfolding reject_private_tenant_sink
  reject-IsChecked config urls skip_fixture h =
      elim (Bool-cases (skip_fixture && config.resource_space.mode == "fixture")) [
        | inl skipped ↦ inl skipped
        | inr checked ↦ inr (check_sinks-AllSafe urls (rw checked at h))
      ]
