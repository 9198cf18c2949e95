-- ===== src/Auth/Revocation/Refreshes.antt =====
-- `refresh_access_token` with a revoked token
-- (src/resourcespace_platform/services/auth_service.py).
use resourcespace_authentica.Base.{
  ℕ, ◌≡◌, refl, ◌⊎◌, String, Option, Bool, none, some, true, lookup, insert, arith, ok, err, Result,
  truthy_number, drop_if, inl, inr, ◌>>=◌, Bool-cases, ◌==◌,
}
use resourcespace_authentica.Session.{Session, try_open_session_dict}
use resourcespace_authentica.Errors.{Exception}
use resourcespace_authentica.State.{State, RefreshToken}
use resourcespace_authentica.JsonStore.{settle}
use resourcespace_authentica.Auth.{AuthService, prune_state, uncaught, is_configured_client}
use resourcespace_authentica.Auth.Prune.{lookup-prune_refresh_tokens}
use resourcespace_authentica.Auth.Tokens.{
  RefreshDraws, refresh_access_token, refresh_found, refresh_stamped, refresh_opened,
  stamp_refresh_token,
}

-- The bucket is the pruned one, or the one before the call.
abbrev pub MintsNothing : AuthService → ℕ → State → State → Type 0
MintsNothing service now s s' =
    (s'.access_tokens ≡ (prune_state service now s).access_tokens)
    ⊎ (s'.access_tokens ≡ s.access_tokens)

-- The record, if there is one, is revoked.
abbrev pub IsRevoked : Option RefreshToken → Type 0
IsRevoked none = Unit
IsRevoked (some r) = truthy_number r.revoked_at ≡ true

IsRevoked-drop_if :
    (p : RefreshToken → Bool) (o : Option RefreshToken) → IsRevoked o → IsRevoked (drop_if p o)
IsRevoked-drop_if p none h = tt
IsRevoked-drop_if p (some r) h = ground arith

stamped-MintsNothing :
    (service : AuthService) (d : RefreshDraws) (token client_id : String) (r : RefreshToken)
    (s : State)
    → truthy_number r.revoked_at ≡ true
    → MintsNothing service d.prune_now s
        (settle s
          (refresh_stamped service d token client_id r (prune_state service d.prune_now s))).1
unfolding refresh_stamped
stamped-MintsNothing service d token client_id r s h =
    opened_case (uncaught (try_open_session_dict service.field_cipher r.session))
  where
    opened_case :
        (x : Result Exception (Option Session))
        → MintsNothing service d.prune_now s
            (settle s (
              x >>= λ opened. ok (
                refresh_opened service d token client_id r
                  (let s1 = prune_state service d.prune_now s in
                    record s1 { refresh_tokens = insert token r s1.refresh_tokens })
                  opened))).1
    opened_case (err e) = inr refl
    opened_case (ok none) = inl refl
    opened_case (ok (some session)) = inl (rw h refl)

found-MintsNothing :
    (service : AuthService) (d : RefreshDraws) (token client_id : String) (s : State)
    (found : Option RefreshToken)
    → IsRevoked found
    → MintsNothing service d.prune_now s
        (settle s
          (refresh_found service d token client_id (prune_state service d.prune_now s) found)).1
found-MintsNothing service d token client_id s none h = inl refl
found-MintsNothing service d token client_id s (some r) h =
    elim (Bool-cases (r.client_id == client_id)) [
      | inr other ↦ rw other (inl refl)
      | inl same ↦ elim (Bool-cases (is_configured_client service.config r.client_id)) [
        | inr unknown ↦ rw (same, unknown) (inl refl)
        | inl known ↦
            rw (same, known)
              (stamped-MintsNothing service d token client_id (stamp_refresh_token service.config r)
                s (unfold stamp_refresh_token in h))
      ]
    ]

-- A refresh token that is stored as revoked mints no access token, whoever presents it, and
-- whether the call answers, refuses or raises.
pub refresh_revoked-MintsNothing :
    (service : AuthService) (d : RefreshDraws) (client_id token : String) (s : State)
    → IsRevoked (lookup token s.refresh_tokens)
    → MintsNothing service d.prune_now s (refresh_access_token service d client_id token s).1
unfolding refresh_access_token
refresh_revoked-MintsNothing service d client_id token s h =
    elim (Bool-cases (is_configured_client service.config client_id)) [
      | inr unknown ↦ rw unknown (inr refl)
      | inl known ↦ rw known (
          found-MintsNothing service d token client_id s
            (lookup token (prune_state service d.prune_now s).refresh_tokens)
            (rw (lookup-prune_refresh_tokens service d.prune_now s token)
              (IsRevoked-drop_if _ (lookup token s.refresh_tokens) h)))
    ]
