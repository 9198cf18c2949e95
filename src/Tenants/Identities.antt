-- ===== src/Tenants/Identities.antt =====
-- The URL of a tenant: `_slugify`, `normalize_base_url` and `_normalize_api_url` of
-- src/resourcespace_platform/services/resourcespace/_helpers.py, and `_tenant_identity` of
-- service.py. urllib.parse is a parameter.
use Prim.Native.Char.{code}
use resourcespace_authentica.Base.{
  ℕ, String, ◌<>◌, Option, none, some, Bool, true, false, not, ◌&&◌, ◌||◌, ◌==◌, leb, same_code,
  if◌then◌else◌, truthy, truthy_text, get_or, is_present, strip, rstrip_class, lstrip_class,
  remove_prefix, Result, ok, err, ◌>>=◌,
}
use resourcespace_authentica.Errors.{
  ResourceSpaceError, Exception, resource_space, unexpected, rs_error,
}
use resourcespace_authentica.Hosts.{
  HostLibrary, canonical_ascii_host, lower_ascii, lowered, ends_with,
}

-- What urlparse gives of a URL; `port` is `none` where reading it raises ValueError.
pub record ParsedUrl : Type 0 where
  pub scheme : String
  pub netloc : String
  pub hostname : Option String
  pub port : Option (Option ℕ)
  pub username : Option String
  pub password : Option String

-- `urlparse` is `none` where it raises ValueError; `compressed` is str of a compressed address,
-- `none` where the text is no address.
pub record TenantLibrary : Type 0 where
  pub hosts : HostLibrary
  pub urlparse : String → Option ParsedUrl
  pub compressed : String → Option String

-- The key of `_tenant_identity`.
pub record Identity : Type 0 where
  pub scheme : String
  pub host : String
  pub port : ℕ

abbrev pub same_identity : Identity → Identity → Bool
same_identity a b = a.scheme == b.scheme && a.host == b.host && same_code a.port b.port

abbrev is_slug_code : ℕ → Bool
is_slug_code c = (leb b'a' c && leb c b'z') || (leb b'0' c && leb c b'9')

-- Each run of other characters becomes one dash.
unfoldable pub dashed : Bool → String → String
dashed in_run String.[] = ""
dashed in_run (String.◌∷◌ c s) =
    let after_run = dashed true s in
    let after_kept = dashed false s in
    if is_slug_code (code c)
    then String.◌∷◌ c after_kept
    else if in_run
    then after_run
    else "-" <> after_run

abbrev is_dash : ℕ → Bool
is_dash c = same_code c b'-'

-- `_slugify`, of a host in small letters
unfoldable pub slugify : HostLibrary → String → String
unfolding dashed rstrip_class lstrip_class lower_ascii
slugify hosts value =
    lstrip_class is_dash (rstrip_class is_dash (dashed false (lowered hosts value)))

-- `_normalize_api_url`
unfoldable pub normalize_api_url : String → Option String → String
unfolding ends_with
normalize_api_url base_url override =
    if truthy_text override
    then (let url = get_or override "" in if ends_with "/" url then url else url <> "/")
    else base_url <> "/api/"

abbrev pub present {ℓ} : {A : Type ℓ} → Option A → Result Exception A
present none = err unexpected
present (some a) = ok a

abbrev pub tenant_error : String → String → ℕ → Exception
tenant_error code message status = resource_space (rs_error code message status)

module _ (library : TenantLibrary) where
  open library use {hosts, urlparse}

  abbrev with_scheme : String → String
  with_scheme candidate =
      if is_present (remove_prefix "http://" candidate)
        || is_present (remove_prefix "https://" candidate)
      then candidate
      else "https://" <> candidate

  abbrev is_slash : ℕ → Bool
  is_slash c = same_code c b'/'

  abbrev origin_of : ParsedUrl → Option String
  origin_of parsed =
      if truthy parsed.netloc
      then some (rstrip_class is_slash (parsed.scheme <> "://" <> parsed.netloc))
      else none

  -- `normalize_base_url`
  unfoldable pub normalize_base_url : Option String → Result Exception (Option String)
  unfolding strip rstrip_class remove_prefix
  normalize_base_url value =
      let candidate = strip (get_or value "") in
      if not (truthy candidate)
      then ok none
      else (do parsed ← present (urlparse (with_scheme candidate)); ok (origin_of parsed))

  abbrev default_port : String → Option ℕ → ℕ
  default_port scheme none = if scheme == "https" then 443 else 80
  default_port scheme (some port) = port

  abbrev identity_at : String → String → Option (Option ℕ) → Option Identity
  identity_at scheme host none = none
  identity_at scheme host (some port) =
      some (record { scheme = scheme; host = host; port = default_port scheme port })

  abbrev identity_of : ParsedUrl → Result ResourceSpaceError String → Option Identity
  identity_of parsed (err e) = none
  identity_of parsed (ok host) =
      if truthy host
      then identity_at (lower_ascii parsed.scheme) (get_or (library.compressed host) host)
          parsed.port
      else none

  abbrev identity_from : Option String → Result Exception (Option Identity)
  identity_from none = ok none
  identity_from (some normalized) = do
    parsed ← present (urlparse normalized)
    ok (identity_of parsed (canonical_ascii_host hosts (get_or parsed.hostname "")))

  -- `_tenant_identity`
  unfoldable pub tenant_identity : Option String → Result Exception (Option Identity)
  unfolding normalize_base_url canonical_ascii_host lower_ascii
  tenant_identity url = do normalized ← normalize_base_url url; identity_from normalized
