-- ===== src/Errors.antt =====
-- The exceptions of the broker: ResourceSpaceError of
-- src/resourcespace_platform/services/resourcespace/_helpers.py, and how service.py maps the others.
use resourcespace_authentica.Base.{ℕ, String}

pub record ResourceSpaceError : Type 0 where
  pub code : String
  pub message : String
  pub status_code : ℕ

pub data Exception : Type 0 where
  resource_space : ResourceSpaceError → Exception
  -- httpx.HTTPError, ConnectionError, TimeoutError
  unreachable : Exception
  -- any other class
  unexpected : Exception

abbrev pub rs_error : String → String → ℕ → ResourceSpaceError
rs_error code message status_code = record {
  code = code;
  message = message;
  status_code = status_code;
}

-- ResourceSpaceService.map_error
unfoldable pub map_error : Exception → ResourceSpaceError
map_error (resource_space e) = e
map_error unreachable = rs_error "UPSTREAM_UNAVAILABLE" "ResourceSpace could not be reached." 502
map_error unexpected = rs_error "INTERNAL_ERROR" "Unexpected ResourceSpace integration failure." 500
