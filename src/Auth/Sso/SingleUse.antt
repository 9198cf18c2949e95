-- ===== src/Auth/Sso/SingleUse.antt =====
-- The use of a handoff state by `complete_sso_authorization`
-- (src/resourcespace_platform/services/auth_service.py).
use resourcespace_authentica.Base.{
  ℕ, ◌<◌, ◌≡◌, ◌≢◌, refl, String, Option, Bool, none, some, true, lookup, arith, lookup-insert_self,
  truthy_number, drop_if,
}
use resourcespace_authentica.Session.{
  Session, stamp_broker_session_metadata, integration_for_client_id,
}
use resourcespace_authentica.State.{State, PendingSsoState}
use resourcespace_authentica.Auth.{AuthService, prune_state, is_purged}
use resourcespace_authentica.Auth.Prune.{lookup-prune_pending}
use resourcespace_authentica.Auth.Codes.{mint_authorization_code}
use resourcespace_authentica.Auth.Sso.{
  CompletionDraws, valid, Classified, active, invalid, replayed, expired,
  classify_pending_sso_record, complete_classified, complete_sso_authorization, mark_found,
  request_of,
}

-- The record is gone, or it carries a time of use.
abbrev pub IsSpent : Option PendingSsoState → Type 0
IsSpent none = Unit
IsSpent (some r) = truthy_number r.used_at ≡ true

IsSpent-drop_if :
    (p : PendingSsoState → Bool) (o : Option PendingSsoState) → IsSpent o → IsSpent (drop_if p o)
IsSpent-drop_if p none h = tt
IsSpent-drop_if p (some r) h = ground arith

IsSpent-mark_found :
    (handoff_state : String) (now : ℕ) (s : State) (found : Option PendingSsoState)
    → lookup handoff_state s.pending_sso_states ≡ found
    → 0 < now
    → IsSpent (lookup handoff_state (mark_found handoff_state now s found).pending_sso_states)
IsSpent-mark_found handoff_state now s none e h = rw e tt
IsSpent-mark_found handoff_state now s (some r) e h =
    rw (lookup-insert_self handoff_state (record r { used_at = some now }) s.pending_sso_states)
      (ground arith)

classified-IsSpent :
    (service : AuthService) (d : CompletionDraws) (handoff_state : String) (session : Session)
    (s : State) (c : Classified) (code : String) (r : PendingSsoState)
    → 0 < d.used_now
    → (complete_classified service d handoff_state session s c).0 ≡ valid code r
    → IsSpent (
        lookup handoff_state
          (complete_classified service d handoff_state session s c).1.pending_sso_states)
unfolding mint_authorization_code
classified-IsSpent service d handoff_state session s invalid code r h e = cc
classified-IsSpent service d handoff_state session s (replayed x) code r h e = cc
classified-IsSpent service d handoff_state session s (expired x) code r h e = cc
classified-IsSpent service d handoff_state session s (active x) code r h e =
    let stamped =
      stamp_broker_session_metadata x.client_id
        (integration_for_client_id service.config x.client_id) session in
    let (minted, s') = mint_authorization_code service d.mint (request_of x) stamped s in
    IsSpent-mark_found handoff_state d.used_now s' (lookup handoff_state s'.pending_sso_states) refl
      h

-- What is spent is never classified as active.
spent_refused :
    (service : AuthService) (d : CompletionDraws) (handoff_state : String) (session : Session)
    (s : State) (now : ℕ) (found : Option PendingSsoState) (code : String) (r : PendingSsoState)
    → IsSpent found
    → (complete_classified service d handoff_state session s
        (classify_pending_sso_record now found)).0
      ≢ valid code r
unfolding classify_pending_sso_record
spent_refused service d handoff_state session s now none code r h e = cc
spent_refused service d handoff_state session s now (some x) code r h e = cc (rw h at e)

-- After a completion that minted a code, a completion of the same handoff state, run in the state
-- that it left, mints no other, at any time and for any session; the clock does not read zero at the
-- first.
pub complete_once :
    (service : AuthService) (d d' : CompletionDraws) (handoff_state : String)
    (session session' : Session) (s : State) (code code' : String) (r r' : PendingSsoState)
    → 0 < d.used_now
    → (complete_sso_authorization service d handoff_state session s).0 ≡ valid code r
    → (complete_sso_authorization service d' handoff_state session'
        (complete_sso_authorization service d handoff_state session s).1).0
      ≢ valid code' r'
unfolding complete_sso_authorization
complete_once service d d' handoff_state session session' s code code' r r' h e =
    let s1 = prune_state service d.prune_now s in
    let c =
      classify_pending_sso_record d.classify_now (lookup handoff_state s1.pending_sso_states) in
    let s2 = (complete_classified service d handoff_state session s1 c).1 in
    let s3 = prune_state service d'.prune_now s2 in
    let spent = classified-IsSpent service d handoff_state session s1 c code r h e in
    spent_refused service d' handoff_state session' s3 d'.classify_now
      (lookup handoff_state s3.pending_sso_states) code' r'
      (rw (lookup-prune_pending service d'.prune_now s2 handoff_state) (
        IsSpent-drop_if (is_purged d'.prune_now) (lookup handoff_state s2.pending_sso_states)
          spent))
