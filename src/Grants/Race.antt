-- ===== src/Grants/Race.antt =====
-- The race for a pinned address: `_race_pinned_connection` of
-- src/resourcespace_platform/services/asset_service.py. What the event loop reports is a list of
-- batches, each the attempts that `asyncio.wait` found done, in the order of its set; the list ends
-- where no attempt is pending or where the deadline strikes.
pub mod Winner
use resourcespace_authentica.Base.{
  ℕ, ◌<◌, ◌≤◌, ◌≡◌, ◌≢◌, refl, Option, none, some, Bool, true, false, leb, ltb, List, [], ◌∷◌, ◌++◌,
  Result, ok, err, if◌then◌else◌, arith, ◌||◌, All, any, ◌⊎◌, inl, inr, ap, ◌∙◌, Bool-cases,
  Option-cases, ◌&&◌,
}
use resourcespace_authentica.Errors.{Exception}

-- How an attempt ended: with the status of a response, with an httpx.TransportError, or otherwise.
pub data Outcome : Type 0 where
  responded : (status : ℕ) → Outcome
  transport_error : Outcome
  other_error : Exception → Outcome

-- An attempt is known by the index of its address.
pub record Attempt : Type 0 where
  pub index : ℕ
  pub outcome : Outcome

abbrev pub is_accepted : Outcome → Bool
is_accepted (responded status) = ltb status 400
is_accepted transport_error = false
is_accepted (other_error e) = false

abbrev pub is_refusal : Outcome → Bool
is_refusal (responded status) = leb 400 status
is_refusal transport_error = false
is_refusal (other_error e) = false

abbrev pub is_rejected : Attempt → Bool
is_rejected a = is_refusal a.outcome

-- `accepted.sort(key=index)`, its first element.
abbrev pub lower : ℕ → Option ℕ → Option ℕ
lower i none = some i
lower i (some j) = if leb i j then some i else some j

unfoldable pub first_accepted : List Attempt → Option ℕ
first_accepted [] = none
first_accepted (a ∷ batch) =
    let rest = first_accepted batch in if is_accepted a.outcome then lower a.index rest else rest

abbrev pub error_or : Outcome → Option Exception → Option Exception
error_or (responded status) rest = rest
error_or transport_error rest = rest
error_or (other_error e) rest = some e

-- `elif unexpected is None: unexpected = exc`
unfoldable pub first_unexpected : List Attempt → Option Exception
first_unexpected [] = none
first_unexpected (a ∷ batch) = let rest = first_unexpected batch in error_or a.outcome rest

-- A batch without an accepted response: an unexpected error is raised, a response that was refused
-- gives up, and after transport errors alone the loop goes on.
abbrev pub after_batch :
    Option ℕ → Option Exception → Bool → Result Exception (Option ℕ) → Result Exception (Option ℕ)
after_batch (some i) unexpected saw_reject later = ok (some i)
after_batch none (some e) saw_reject later = err e
after_batch none none true later = ok none
after_batch none none false later = later

-- `_race_pinned_connection`: the index of the winner
unfoldable pub race_pinned_connection : List (List Attempt) → Result Exception (Option ℕ)
unfolding first_accepted first_unexpected
race_pinned_connection [] = ok none
race_pinned_connection (batch ∷ batches) =
    let later = race_pinned_connection batches in
    after_batch (first_accepted batch) (first_unexpected batch) (any is_rejected batch) later
