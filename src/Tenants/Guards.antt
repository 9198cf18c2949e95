-- ===== src/Tenants/Guards.antt =====
-- The tenants that `get_configured_tenant`
-- (src/resourcespace_platform/services/resourcespace/service.py) gives out.
use mathlib.Core.Path.{subst}
use resourcespace_authentica.Base.{
  String, Option, none, some, true, false, not, ◌&&◌, ◌||◌, ◌==◌, ◌≡◌, ◌⊎◌, inl, inr, refl, sym, ap,
  ◌∙◌, same_code, get_or, is_present, List, [], ◌∷◌, if◌then◌else◌, ok, >>=-eq-ok, ok_inj, arith,
  eq_iff, Bool-cases,
}
use resourcespace_authentica.Config.{AppConfig, ConfiguredTenant, is_dev_like}
use resourcespace_authentica.Session.{Tenant}
use resourcespace_authentica.Hosts.Resolve.{has_entries}
use resourcespace_authentica.Tenants.{
  reject_private_tenant_sink, is_requested, find_tenant, find_requested, registered, tenant_found,
  unregistered, checked_tenant, dynamic_tenant, host_or_empty, is_approved, tenant_of,
  get_configured_tenant,
}
use resourcespace_authentica.Tenants.Identities.{
  ParsedUrl, TenantLibrary, Identity, present, normalize_base_url, tenant_identity,
  normalize_api_url,
}
use resourcespace_authentica.Tenants.Sinks.{IsChecked, reject-IsChecked, present-eq-ok}

-- The entry is one of the registry's.
abbrev pub IsEntry : ConfiguredTenant → List ConfiguredTenant → Type 0
IsEntry c [] = ⊥
IsEntry c (t ∷ tenants) = (c ≡ t) ⊎ IsEntry c tenants

module _ (library : TenantLibrary) where
  -- A tenant from the registry: an entry of it has the scheme, host and port of the URL that was
  -- asked for, and both URLs that are called were checked.
  pub record IsRegistered (config : AppConfig) (url : String) (tenant : Tenant) : Type 0 where
    pub entry : ConfiguredTenant
    pub listed : IsEntry entry config.resource_space.tenants
    pub identity : Identity
    pub requested : tenant_identity library (some url) ≡ ok (some identity)
    pub same_identity : tenant_identity library entry.base_url ≡ ok (some identity)
    pub id : tenant.id ≡ entry.id
    pub slug : tenant.slug ≡ entry.slug
    pub name : tenant.name ≡ entry.name
    pub base : Option String
    pub normalized : normalize_base_url library entry.base_url ≡ ok base
    pub base_url : tenant.base_url ≡ get_or base ""
    pub api_url : tenant.api_url ≡ normalize_api_url (get_or base "") entry.api_url
    pub sinks : IsChecked library config (tenant.base_url ∷ tenant.api_url ∷ []) true

  -- A tenant of a URL that was entered: HTTPS, a usable port, no credentials, on the allowlist if
  -- there is one, and its URL was checked.
  pub record IsEntered (config : AppConfig) (normalized : String) (tenant : Tenant) : Type 0 where
    pub identity : Identity
    pub identified : tenant_identity library (some normalized) ≡ ok (some identity)
    pub https : identity.scheme ≡ "https"
    pub port : same_code identity.port 0 ≡ false
    pub parsed : ParsedUrl
    pub parses : library.urlparse normalized ≡ some parsed
    pub no_username : is_present parsed.username ≡ false
    pub no_password : is_present parsed.password ≡ false
    pub approved :
        (has_entries config.resource_space.allowed_hosts ≡ false)
        ⊎ (is_approved library config.resource_space.allowed_hosts identity.host ≡ true)
    pub sink : IsChecked library config (normalized ∷ []) (is_dev_like config.environment)
    pub built : tenant ≡ dynamic_tenant library identity

  abbrev pub IsGuarded : AppConfig → String → Tenant → Type 0
  IsGuarded config normalized tenant =
      IsRegistered config normalized tenant ⊎ IsEntered config normalized tenant

  -- What the search for an identity gives: an entry of the list, with this identity.
  record IsMatch (requested : Identity) (tenants : List ConfiguredTenant) (c : ConfiguredTenant)
      : Type 0 where
    listed : IsEntry c tenants
    same : tenant_identity library c.base_url ≡ ok (some requested)

  requested_same :
      (requested : Identity) (found : Option Identity)
      → is_requested library requested found ≡ true
      → found ≡ some requested
  requested_same requested none h = cc
  requested_same requested (some i) h =
      let scheme : i.scheme ≡ requested.scheme = ground (arith, eq_iff i.scheme requested.scheme) in
      let host : i.host ≡ requested.host = ground (arith, eq_iff i.host requested.host) in
      let port : i.port ≡ requested.port = ground arith in ap some (cong_identity scheme host port)
    where
      cong_identity :
          {a b : Identity} → a.scheme ≡ b.scheme → a.host ≡ b.host → a.port ≡ b.port → a ≡ b
      cong_identity s h p i = record { scheme = s i; host = h i; port = p i }

  find_tenant-IsMatch :
      (requested : Identity) (tenants : List ConfiguredTenant) (c : ConfiguredTenant)
      → find_tenant library requested tenants ≡ ok (some c)
      → IsMatch requested tenants c
  unfolding find_tenant
  find_tenant-IsMatch requested [] c h = cc
  find_tenant-IsMatch requested (t ∷ tenants) c h =
      let (identity, e, k) = >>=-eq-ok (tenant_identity library t.base_url) _ (some c) h in
      elim (Bool-cases (is_requested library requested identity)) [
        | inl same ↦ record {
          listed = inl (first_found identity same k);
          same =
              subst (λ x. tenant_identity library x.base_url ≡ ok (some requested))
                (sym (first_found identity same k))
                (e ∙ ap ok (requested_same requested identity same));
        }
        | inr other ↦
            let later = find_tenant-IsMatch requested tenants c (rw other at k) in
            record { listed = inr later.listed; same = later.same }
      ]
    where
      first_found :
          (identity : Option Identity)
          → is_requested library requested identity ≡ true
          → (if is_requested library requested identity
              then ok (some t)
              else find_tenant library requested tenants)
            ≡ ok (some c)
          → c ≡ t
      first_found identity same k = cc (rw same at k)

  find_requested-IsMatch :
      (requested : Option Identity) (tenants : List ConfiguredTenant) (c : ConfiguredTenant)
      → find_requested library requested tenants ≡ ok (some c)
      → (identity : Identity) × (requested ≡ some identity) × IsMatch identity tenants c
  find_requested-IsMatch none tenants c h = cc
  find_requested-IsMatch (some identity) tenants c h =
      (identity, refl, find_tenant-IsMatch identity tenants c h)

  module _ (config : AppConfig) (normalized : String) (tenant : Tenant) where
    registered-IsRegistered :
        (c : ConfiguredTenant) (base : Option String) (identity : Identity)
        → tenant_identity library (some normalized) ≡ ok (some identity)
        → IsMatch identity config.resource_space.tenants c
        → normalize_base_url library c.base_url ≡ ok base
        → registered library config c base ≡ ok tenant
        → IsRegistered config normalized tenant
    registered-IsRegistered c base identity asked matched e h =
        let resolved_base = get_or base "" in
        let resolved_api = normalize_api_url resolved_base c.api_url in
        let (checked, f, same) =
          >>=-eq-ok
            (reject_private_tenant_sink library config (resolved_base ∷ resolved_api ∷ []) true) _
            tenant h in
        rw (← ok_inj same) (record {
          entry = c;
          listed = matched.listed;
          identity = identity;
          requested = asked;
          same_identity = matched.same;
          id = refl;
          slug = refl;
          name = refl;
          api_url = refl;
          base = base;
          normalized = e;
          base_url = refl;
          sinks = reject-IsChecked library config (resolved_base ∷ resolved_api ∷ []) true f;
        })

    checked-IsEntered :
        (parsed : ParsedUrl) (requested : Option Identity)
        → library.urlparse normalized ≡ some parsed
        → tenant_identity library (some normalized) ≡ ok requested
        → (has_entries config.resource_space.allowed_hosts ≡ false)
          ⊎ (is_approved library config.resource_space.allowed_hosts
                (host_or_empty library requested)
              ≡ true)
        → IsChecked library config (normalized ∷ []) (is_dev_like config.environment)
        → checked_tenant library parsed requested ≡ ok tenant
        → IsEntered config normalized tenant
    checked-IsEntered parsed none e f approved sink h = cc
    checked-IsEntered parsed (some identity) e f approved sink h =
        elim (Bool-cases (
          not (identity.scheme == "https")
          || same_code identity.port 0
          || is_present parsed.username
          || is_present parsed.password)) [
            | inl bad ↦ absurd (cc (rw bad at h))
            | inr good ↦ record {
              identity = identity;
              identified = f;
              https = ground (arith, eq_iff identity.scheme "https");
              port = ground arith;
              parsed = parsed;
              parses = e;
              no_username = ground arith;
              no_password = ground arith;
              approved = approved;
              sink = sink;
              built = sym (ok_inj (rw good at h));
            }
          ]

    unregistered-IsEntered :
        (parsed : ParsedUrl) (requested : Option Identity)
        → library.urlparse normalized ≡ some parsed
        → tenant_identity library (some normalized) ≡ ok requested
        → unregistered library config normalized parsed requested ≡ ok tenant
        → IsEntered config normalized tenant
    unregistered-IsEntered parsed requested e f h =
        let allowed = config.resource_space.allowed_hosts in
        let host = host_or_empty library requested in
        elim (Bool-cases (has_entries allowed && not (is_approved library allowed host))) [
          | inl unknown ↦ absurd (cc (rw unknown at h))
          | inr known ↦
              let (checked, sink, last) =
                >>=-eq-ok
                  (reject_private_tenant_sink library config (normalized ∷ [])
                    (is_dev_like config.environment))
                  _ tenant (rw known at h) in
              checked-IsEntered parsed requested e f (known_case known)
                (reject-IsChecked library config (normalized ∷ []) (is_dev_like config.environment)
                  sink)
                last
        ]
      where
        known_case :
            (has_entries config.resource_space.allowed_hosts
                && not (
                    is_approved library config.resource_space.allowed_hosts
                      (host_or_empty library requested)))
              ≡ false
            → (has_entries config.resource_space.allowed_hosts ≡ false)
              ⊎ (is_approved library config.resource_space.allowed_hosts
                    (host_or_empty library requested)
                  ≡ true)
        known_case known = elim (Bool-cases (has_entries config.resource_space.allowed_hosts)) [
          | inl some_entries ↦ inr (ground arith)
          | inr no_entries ↦ inl no_entries
        ]

    found-IsGuarded :
        (requested : Option Identity) (found : Option ConfiguredTenant)
        → tenant_identity library (some normalized) ≡ ok requested
        → find_requested library requested config.resource_space.tenants ≡ ok found
        → tenant_found library config normalized requested found ≡ ok tenant
        → IsGuarded config normalized tenant
    found-IsGuarded requested none f g h =
        let (parsed, e, k) = >>=-eq-ok (present (library.urlparse normalized)) _ tenant h in
        inr (
          unregistered-IsEntered parsed requested
            (present-eq-ok library (library.urlparse normalized) parsed e) f k)
    found-IsGuarded requested (some c) f g h =
        let (base, e, k) = >>=-eq-ok (normalize_base_url library c.base_url) _ tenant h in
        let (identity, is_some, matched) =
          find_requested-IsMatch requested config.resource_space.tenants c g in
        inl (registered-IsRegistered c base identity (f ∙ ap ok is_some) matched e k)

  tenant_of-IsGuarded :
      (config : AppConfig) (normalized : Option String) (tenant : Tenant)
      → tenant_of library config normalized ≡ ok tenant
      → (url : String) × (normalized ≡ some url) × IsGuarded config url tenant
  tenant_of-IsGuarded config none tenant h = cc
  tenant_of-IsGuarded config (some url) tenant h =
      let (requested, e, k) = >>=-eq-ok (tenant_identity library (some url)) _ tenant h in
      let (found, f, last) =
        >>=-eq-ok (find_requested library requested config.resource_space.tenants) _ tenant k in
      (url, refl, found-IsGuarded config url tenant requested found e f last)

  -- A tenant that is given out is an entry of the registry with the scheme, host and port of the URL
  -- that was asked for, whose base URL and API URL passed the guard against private addresses, or it
  -- stands for the URL that was asked for: its scheme is https,
  -- its port is not 0, it has no credentials, its host is on the allowlist if there is one, and the
  -- URL passed the guard; the guard is left out in fixture mode alone, and for a URL that was asked
  -- for only in development and test.
  pub get_configured_tenant-IsGuarded :
      (config : AppConfig) (base_url : Option String) (tenant : Tenant)
      → get_configured_tenant library config base_url ≡ ok tenant
      → (url : String) × (normalize_base_url library base_url ≡ ok (some url))
        × IsGuarded config url tenant
  unfolding get_configured_tenant
  get_configured_tenant-IsGuarded config base_url tenant h =
      let (normalized, e, k) = >>=-eq-ok (normalize_base_url library base_url) _ tenant h in
      let (url, same, guarded) = tenant_of-IsGuarded config normalized tenant k in
      (url, e ∙ ap ok same, guarded)
