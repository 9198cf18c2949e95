-- ===== src/Lib.antt =====
-- The ResourceSpace connector for Canva: a broker that signs users of a ResourceSpace server in,
-- hands OAuth tokens to Canva, and passes assets on. Paths below are from the repository's root, in
-- src/resourcespace_platform.
--
-- The broker keeps one state, a JSON file with five buckets: authorization codes, access tokens,
-- refresh tokens, asset grants and pending sign-ins. Every operation of the authorization service
-- and of the asset service is an updater that the file store runs under a lock, as one step.
--
--   Config         config.py: the settings and their validation at the start
--   Cipher         services/field_crypto.py: sealing of single fields
--   Session        the user's session, its sealing and stamping (services/auth_service.py)
--   State          the records of the five buckets (services/auth_service.py, asset_service.py)
--   JsonStore      services/json_store.py: the file, its loading, saving and updates
--   Errors         ResourceSpaceError and map_error (services/resourcespace)
--   Auth           services/auth_service.py: Codes (minting and redeeming), Tokens (pairs, refresh,
--                  reading), Sso (the hosted login's handoff), Revocation, Prune
--   RateLimiter    services/rate_limiter.py
--   TrustedProxy   trusted_proxy.py and resolve_client_host of http_utils.py
--   CanvaVerifier  services/canva_verifier.py
--   Hosts          services/resourcespace/_helpers.py: hosts, allowlists, addresses, pinning
--   Grants         services/asset_service.py: grants, the race of connections (Race), the size cap
--                  (Body), file names (Filenames) and headers (Headers); routes/assets.py
--   Api            the signed calls of the ResourceSpace API (services/resourcespace/_helpers.py,
--                  _live_backend.py) and the JSON values they answer with (Values)
--   Live           services/resourcespace/_live_backend.py: authentication and downloads,
--                  Containers, Records (one asset) and Assets (Listing)
--   Uploads        services/resourcespace/_upload.py: export URLs and hops, Downloads (the loop over
--                  redirects), Posting (multipart), Sequence (the calls of an upload)
--   Pages          routes/content.py: one page of a search, Continuations, Gate (token and scope),
--                  Messages, Finding, Images and Handlers (the three endpoints), Integers (their
--                  offsets and slices); Following and Delivery (all pages)
--   Tenants        services/resourcespace/service.py: the lookup of a tenant, Identities (its URL),
--                  Sinks (its guard)
--   Routes         routes/oauth.py: the checks of a sign-in, Authorize (its handlers), Callback (the
--                  end of the hosted login), Tokens (with routes/session.py and webhooks.py)
--   System         all operations that write the store as a step system, and what holds in every
--                  reachable state
--   Examples       a configuration and the theorems at concrete data
--   Base           dictionaries, texts, results and tests that the others share
--
-- Function names are those of the source, in lower case without a leading underscore. An updater is
-- a function from the state to the answer and the next state; what raises is a Result, and
-- JsonStore.transaction undoes the step of an updater that raises, as the store does by not saving.
-- What a call reads of the clock and draws from the random generator is an argument, one for each
-- reading. Times are milliseconds.
--
-- Loops are structural recursion over the data they run over (a dictionary, a list of hops, of
-- requests, of chunks, of batches), with two exceptions. The download follows redirects on fuel: it
-- is run with six turns, one more than the five redirects it allows, and Uploads.Downloads.Stopping
-- is about more. A client that follows continuations is run on fuel, one page each.
--
-- Parameters: Fernet, SHA-256, HMAC and base64, ipaddress, the resolver and httpx.URL, int() and
-- str(), and the floating-point quotient of the sign-in limit. What is relied on of them is a
-- hypothesis of the theorem that needs it.
--
-- Not modelled: JSON texts (a body, a continuation and an answer of the API are what parsing finds in
-- them, and a number is an integer), the fixture backend and its data, timeouts, the authorize page,
-- the parsing of the environment, logging and set-up.
pub mod Base
pub mod Config
pub mod Cipher
pub mod Session
pub mod State
pub mod JsonStore
pub mod Errors
pub mod Auth
pub mod RateLimiter
pub mod TrustedProxy
pub mod CanvaVerifier
pub mod Hosts
pub mod Grants
pub mod System
pub mod Api
pub mod Live
pub mod Uploads
pub mod Pages
pub mod Tenants
pub mod Routes
pub mod Examples
