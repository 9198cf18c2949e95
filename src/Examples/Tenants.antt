-- ===== src/Examples/Tenants.antt =====
-- The theorem on tenants at a URL that is not registered.
use resourcespace_authentica.Base.{
  String, ◌≡◌, refl, some, none, ok, [], ◌∷◌, strip, rstrip_class, lstrip_class, is_space, is_ascii,
  remove_prefix,
}
use resourcespace_authentica.Config.{is_dev_like}
use resourcespace_authentica.Session.{Tenant}
use resourcespace_authentica.Hosts.{HostLibrary, canonical_ascii_host, lower_ascii, ends_with}
use resourcespace_authentica.Hosts.Resolve.{is_private_ip}
use resourcespace_authentica.Tenants.{
  find_tenant, reject_private_tenant_sink, check_sinks, https_origin, get_configured_tenant,
}
use resourcespace_authentica.Tenants.Identities.{
  TenantLibrary, normalize_base_url, tenant_identity, normalize_api_url, slugify, dashed,
}
use resourcespace_authentica.Tenants.Guards.{IsGuarded, get_configured_tenant-IsGuarded}
use resourcespace_authentica.Examples.{demo_config}

-- Every host has one address, which parses as none that is private.
abbrev hosts : HostLibrary
hosts = record {
  lower = λ text. text;
  idna_host = λ host. none;
  getaddrinfo = λ host. some ("192.0.2.7" ∷ []);
  ip_address = λ text. none;
  parse_url = λ text. none;
  str = λ n. "443";
}

abbrev pub tenants : TenantLibrary
tenants = record {
  hosts = hosts;
  urlparse = λ url. some (record {
    scheme = "https";
    netloc = "dam.example";
    hostname = some "dam.example";
    port = some none;
    username = none;
    password = none;
  });
  compressed = λ host. none;
}

abbrev dam_tenant : Tenant
dam_tenant = record {
  id = "tenant_dam-example";
  slug = some "dam-example";
  name = some "dam.example";
  base_url = "https://dam.example";
  api_url = "https://dam.example/api/";
}

get_configured_tenant-IsGuarded_example :
    (url : String) × (normalize_base_url tenants (some " dam.example/ ") ≡ ok (some url))
    × IsGuarded tenants demo_config url dam_tenant
unfolding get_configured_tenant normalize_base_url tenant_identity find_tenant
    reject_private_tenant_sink check_sinks normalize_api_url https_origin slugify dashed is_dev_like
    canonical_ascii_host lower_ascii is_private_ip strip rstrip_class lstrip_class is_space is_ascii
    remove_prefix ends_with
get_configured_tenant-IsGuarded_example =
    get_configured_tenant-IsGuarded tenants demo_config (some " dam.example/ ") dam_tenant refl
