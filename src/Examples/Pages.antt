-- ===== src/Examples/Pages.antt =====
-- The theorems on the content search at a small listing.
use resourcespace_authentica.Base.{
  ℕ, zero, suc, String, none, some, false, ◌≡◌, refl, List, [], ◌∷◌, Result, ok, err, arith,
}
use resourcespace_authentica.Errors.{Exception, unexpected}
use resourcespace_authentica.CanvaVerifier.{Timestamp, positive}
use resourcespace_authentica.State.{State, initial_state}
use resourcespace_authentica.Auth.Tokens.{access_record}
use resourcespace_authentica.Api.Values.{JsonLibrary, text}
use resourcespace_authentica.Live.Containers.{Container}
use resourcespace_authentica.Pages.{ListedPage}
use resourcespace_authentica.Pages.Following.{Position, at, window_page, read_all}
use resourcespace_authentica.Pages.Delivery.{remaining, find, read_all_delivers}
use resourcespace_authentica.Pages.Continuations.{ContinuationLibrary}
use resourcespace_authentica.Pages.Messages.{
  ImageResponse, build_image_response, ContentBackend, ContentLibrary, FindRequest, FindDraws,
}
use resourcespace_authentica.Live.Records.{ProxyImage, LiveAsset}
use resourcespace_authentica.Pages.Images.{preview_link}
use resourcespace_authentica.Examples.{demo, demo_config, demo_session, pair_draws}

-- Two records of a listing of three show an asset, and a window has at most two records.
abbrev shown : ℕ → List String
shown zero = []
shown (suc n) = "asset" ∷ []

abbrev listing : List ℕ
listing = 1 ∷ 0 ∷ 2 ∷ []

abbrev window : ℕ → ℕ
window n = 1

abbrev list_assets : Timestamp → Timestamp → Result Exception (ListedPage String)
list_assets (positive offset) (positive (suc n)) = ok (window_page shown listing offset (window n))
list_assets offset n = err unexpected

abbrev search_start : Position
search_start = record { container_offset = 0; asset_offset = 0 }

read_all_delivers_example :
    read_all
      (find {C = String} shown listing ("a" ∷ "b" ∷ []) list_assets window 0)
      9
      (at search_start)
    ≡ some (remaining shown listing ("a" ∷ "b" ∷ []) search_start)
read_all_delivers_example =
    read_all_delivers shown listing ("a" ∷ "b" ∷ []) list_assets window 0 9 search_start
      (λ offset n. refl) (omega arith)

abbrev proxied : ProxyImage
proxied = record { url = text "u"; mime_type = "image/jpeg"; width = none; height = none }

abbrev found_asset : LiveAsset
found_asset = record {
  id = "7";
  name = "Asset 7";
  description = "";
  mime_type = "image/jpeg";
  filename = text "7.jpg";
  width = none;
  height = none;
  created_at = none;
  updated_at = none;
  thumbnail_source = some proxied;
  preview_source = none;
}

abbrev backend : ContentBackend
backend = record {
  list_containers = λ session parent_id.
      ok (record { id = "c"; name = text "C"; description = none; num_containers = 0 } ∷ []);
  search_containers = λ session parent_id query. ok [];
  list_assets =
      λ session q. ok (record { items = found_asset ∷ []; total = positive 2; scanned = none });
}

abbrev json : JsonLibrary
json = record {
  str = λ value. "";
  repr = λ value. "";
  int = λ value. some (positive 0);
  isdigit = λ s. false;
  lower = λ s. s;
  to_iso_date = λ value. none;
}

abbrev continuations : ContinuationLibrary
continuations = record {
  encode_json = λ fields. "continuation";
  decode_json = λ s. none;
  dumps = λ fields. "scope";
}

abbrev content : ContentLibrary
content = record {
  service = demo;
  assets = record {
    config = demo_config;
    library = record { hmac_urlsafe = λ key s. s; int = λ s. none; str = λ n. "" };
  };
  limiter = record { max_requests = 2; window_ms = 1000 };
  backend = backend;
  continuations = continuations;
  json = json;
}

abbrev signed_in : State
signed_in = record initial_state {
  access_tokens =
      ("t", access_record demo pair_draws demo_session "dam:read dam:write" "canva") ∷ [];
}

abbrev find_request : FindRequest
find_request = record {
  host = some "192.0.2.1";
  authorization = some "Bearer t";
  body = some (record {
    continuation = none;
    types = [];
    query = none;
    sort = none;
    container_id = none;
    limit = some (positive 2);
  });
}

abbrev find_draws : FindDraws
find_draws = record {
  rate_now = 2000;
  read_now = 3000;
  grant = λ i. record { prune_now = 3000; now = 3000; grant_id = "grant_1" };
}

abbrev found_image : ImageResponse
found_image = build_image_response found_asset (preview_link content (find_draws.grant 0))

abbrev found_container : Container
found_container = record { id = "c"; name = text "C"; description = none; num_containers = 0 }
