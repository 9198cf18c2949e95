-- ===== src/Pages/Scopes.antt =====
-- What a token must allow for the handlers of
-- src/resourcespace_platform/routes/content.py to answer.
use resourcespace_authentica.Base.{
  ℕ, String, Option, none, some, true, ◌≡◌, ◌↔◌, refl, truthy, contains, Result, ok, err,
  Bool-cases, inl, inr,
}
use resourcespace_authentica.Errors.{Exception}
use resourcespace_authentica.State.{State, AccessToken}
use resourcespace_authentica.Auth.{AuthService}
use resourcespace_authentica.Auth.Tokens.{read_access_token}
use resourcespace_authentica.Pages.Gate.{
  admitted, read_bearer_token, words, token_has_scope, scope_gate, token_gate, bearer_gate,
}

-- The header carries a token that reads as the record, and the scope is a word of the record's.
pub record IsAdmitted (service : AuthService) (now : ℕ) (scope : String) (header : Option String)
    (s : State) (token_record : AccessToken) : Type 0 where
  pub token : String
  pub carried : read_bearer_token header ≡ some token
  pub given : truthy token ≡ true
  pub read : (read_access_token service now token s).0 ≡ ok (some token_record)
  pub scoped : contains scope (words token_record.scope) ≡ true

module _ (service : AuthService) (now : ℕ) (scope : String) where
  scope_gate-eq-admitted :
      (r : Result Exception (Option AccessToken)) (token_record : AccessToken)
      → scope_gate scope r ≡ admitted token_record
      → (r ≡ ok (some token_record)) × (contains scope (words token_record.scope) ≡ true)
  unfolding token_has_scope
  scope_gate-eq-admitted (err e) token_record h = cc
  scope_gate-eq-admitted (ok none) token_record h = cc
  scope_gate-eq-admitted (ok (some found)) token_record h =
      elim (Bool-cases (contains scope (words found.scope))) [
        | inl has ↦ let same : found ≡ token_record = cc (rw has at h) in rw (← same) (refl, has)
        | inr lacks ↦ absurd (cc (rw lacks at h))
      ]

  pub token_gate-IsAdmitted :
      (header carried : Option String) (s : State) (token_record : AccessToken)
      → read_bearer_token header ≡ carried
      → (token_gate service now scope carried s).1 ≡ admitted token_record
      → IsAdmitted service now scope header s token_record
  token_gate-IsAdmitted header none s token_record e h = cc
  token_gate-IsAdmitted header (some token) s token_record e h = elim (Bool-cases (truthy token)) [
    | inl given ↦
        let (read, scoped) =
          scope_gate-eq-admitted (read_access_token service now token s).0 token_record
            (rw given at h) in
        record { token = token; carried = e; given = given; read = read; scoped = scoped }
    | inr missing ↦ absurd (cc (rw missing at h))
  ]

  bearer_gate-IsAdmitted :
      (header : Option String) (s : State) (token_record : AccessToken)
      → IsAdmitted service now scope header s token_record
      → (bearer_gate service now scope header s).1 ≡ admitted token_record
  unfolding bearer_gate token_has_scope
  bearer_gate-IsAdmitted header s token_record h = rw (h.carried, h.given, h.read, h.scoped) refl

  -- The gate of a content endpoint lets a request through exactly when its Authorization header
  -- carries a bearer token that is not empty, the token reads as a live record, and the required scope
  -- is one of the words of the record's scope.
  pub bearer_gate_iff :
      (header : Option String) (s : State) (token_record : AccessToken)
      → ((bearer_gate service now scope header s).1 ≡ admitted token_record)
        ↔ IsAdmitted service now scope header s token_record
  unfolding bearer_gate
  bearer_gate_iff header s token_record = (
    λ h. token_gate-IsAdmitted header (read_bearer_token header) s token_record refl h,
    λ h. bearer_gate-IsAdmitted header s token_record h,
  )
