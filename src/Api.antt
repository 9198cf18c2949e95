-- ===== src/Api.antt =====
-- The calls to the ResourceSpace API: `_build_signed_api_url` and `_resourcespace_request_headers`
-- of src/resourcespace_platform/services/resourcespace/_helpers.py, and `_first_reachable`,
-- `_parse_jsonish_response`, `_fetch_jsonish_sync`, `_post_jsonish_sync` and `_call_live_api` of
-- _live_backend.py. The network is a parameter, the timeouts are left out.
pub mod Values
use resourcespace_authentica.Base.{
  ℕ, String, ◌<>◌, Option, none, some, Bool, true, false, ◌||◌, ◌==◌, leb, same_code, any,
  if◌then◌else◌, truthy, List, [], ◌∷◌, map, Result, ok, err, ◌>>=◌,
}
use resourcespace_authentica.Errors.{
  ResourceSpaceError, Exception, resource_space, unreachable, unexpected, rs_error,
}
use resourcespace_authentica.Hosts.{HostLibrary}
use resourcespace_authentica.Hosts.Resolve.{Pinned, pin_request}
use resourcespace_authentica.Api.Values.{Json, text}

-- The body of a request: none, form fields, or a file by its name, bytes and content type.
pub data Content : Type 0 where
  no_content : Content
  form : List (String × String) → Content
  file : String → List ℕ → String → Content

-- A request as httpx sends it: `url` holds an address in the place of the host.
pub record HttpRequest : Type 0 where
  pub url : String
  pub host_header : String
  pub sni_hostname : String
  pub user_agent : Option String
  pub content : Content

-- A response: `json` is `none` where response.json() raises ValueError.
pub record HttpResponse : Type 0 where
  pub status_code : ℕ
  pub body_text : String
  pub json : Option Json

-- What one request comes to: httpx.ConnectError or ConnectTimeout, another httpx.HTTPError, or a
-- response.
pub data Attempt : Type 0 where
  connect_error : Attempt
  http_error : Attempt
  answered : HttpResponse → Attempt

-- `hosts` is the part of the guard on hosts; `urlencode` is that of urllib.parse, `sha256_hex` the
-- hexadecimal digest, `send` the network.
pub record ApiLibrary : Type 0 where
  pub hosts : HostLibrary
  pub urlencode : List (String × String) → String
  pub sha256_hex : String → String
  pub send : HttpRequest → Attempt

pub record ApiCall : Type 0 where
  pub api_url : String
  pub username : String
  pub session_key : String
  pub function : String
  pub params : List (String × String)
  pub integration : Option String

abbrev pub raised {ℓ} : {A : Type ℓ} → Result ResourceSpaceError A → Result Exception A
raised (ok a) = ok a
raised (err e) = err (resource_space e)

-- `_resourcespace_request_headers`: the User-Agent, if it is set
unfoldable pub resourcespace_request_headers : Option String → Option String
resourcespace_request_headers none = none
resourcespace_request_headers (some integration) =
    if integration == "canva" then some "python-httpx RSCanva" else none

-- The parameters that are sent: the function stands apart, and an empty value is left out. An
-- absent value is not in the list.
unfoldable pub sent_params : List (String × String) → List (String × String)
sent_params [] = []
sent_params ((key, value) ∷ params) =
    let rest = sent_params params in
    if key == "function" || value == "" then rest else (key, value) ∷ rest

-- `_build_signed_api_url`
unfoldable pub build_signed_api_url : ApiLibrary → ApiCall → String
unfolding sent_params
build_signed_api_url library c =
    let query_string =
      library.urlencode (("user", c.username) ∷ ("function", c.function) ∷ sent_params c.params) in
    let signature = library.sha256_hex (c.session_key <> query_string) in
    c.api_url <> "?" <> query_string <> "&sign=" <> signature <> "&authmode=sessionkey"

abbrev pub or_next : Attempt → Result Exception HttpResponse → Result Exception HttpResponse
or_next connect_error later = later
or_next http_error later = err unreachable
or_next (answered response) later = ok response

-- `_first_reachable`
unfoldable pub first_reachable : (String → Attempt) → List String → Result Exception HttpResponse
first_reachable attempt [] = err unreachable
first_reachable attempt (url ∷ urls) =
    let later = first_reachable attempt urls in or_next (attempt url) later

abbrev pub session_expired : ResourceSpaceError
session_expired =
    rs_error "UPSTREAM_SESSION_EXPIRED"
      "ResourceSpace session is no longer valid; re-authentication required." 401

abbrev pub request_failed : String → ResourceSpaceError
request_failed status =
    rs_error "UPSTREAM_REQUEST_FAILED"
      ("ResourceSpace API request failed with status " <> status <> ".") 502

abbrev pub unavailable : ResourceSpaceError
unavailable = rs_error "UPSTREAM_UNAVAILABLE" "ResourceSpace could not be reached." 502

abbrev pub json_or_text : HttpResponse → Option Json → Json
json_or_text response none = text response.body_text
json_or_text response (some json) = json

-- `_parse_jsonish_response`; `str` is str() of the status
unfoldable pub parse_jsonish_response : (ℕ → String) → HttpResponse → Result Exception Json
parse_jsonish_response str response =
    if same_code response.status_code 401 || same_code response.status_code 403
    then err (resource_space session_expired)
    else if leb 400 response.status_code
    then err (resource_space (request_failed (str response.status_code)))
    else ok (json_or_text response response.json)

-- `except httpx.HTTPError`
abbrev pub caught_http {ℓ} :
    {A : Type ℓ} → ResourceSpaceError → Result Exception A → Result Exception A
caught_http e (ok a) = ok a
caught_http e (err unreachable) = err (resource_space e)
caught_http e (err unexpected) = err unexpected
caught_http e (err (resource_space f)) = err (resource_space f)

module _ (library : ApiLibrary) where
  -- A request to each pinned URL in turn, under the headers of the host.
  abbrev pub sent_to : Pinned → Option String → Content → Result Exception HttpResponse
  sent_to p integration content = caught_http unavailable (
      first_reachable
        (λ url. library.send (record {
          url = url;
          host_header = p.host_header;
          sni_hostname = p.sni_hostname;
          user_agent = resourcespace_request_headers integration;
          content = content;
        }))
        p.urls)

  -- `_fetch_jsonish_sync`
  unfoldable pub fetch_jsonish_sync : String → Option String → Result Exception Json
  unfolding first_reachable parse_jsonish_response resourcespace_request_headers
  fetch_jsonish_sync url integration = do
    p ← raised (pin_request library.hosts url [])
    response ← sent_to p integration no_content
    parse_jsonish_response library.hosts.str response

  -- `_post_jsonish_sync`
  unfoldable pub post_jsonish_sync :
      String → List (String × String) → Option String → Result Exception Json
  unfolding first_reachable parse_jsonish_response resourcespace_request_headers
  post_jsonish_sync url data_fields integration = do
    p ← raised (pin_request library.hosts url [])
    response ← sent_to p integration (form data_fields)
    parse_jsonish_response library.hosts.str response

  -- `_call_live_api`
  unfoldable pub call_live_api : ApiCall → Result Exception Json
  unfolding build_signed_api_url fetch_jsonish_sync
  call_live_api c = fetch_jsonish_sync (build_signed_api_url library c) c.integration
