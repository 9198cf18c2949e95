-- ===== src/Examples/Handoffs.antt =====
-- The theorems on handoffs at a concrete sign-in.
use resourcespace_authentica.Base.{
  ◌≡◌, ◌≢◌, refl, ok, some, lookup, insert, prune, count, arith, [], ◌∷◌,
}
use resourcespace_authentica.State.{State, initial_state}
use resourcespace_authentica.Session.{stamp_broker_session_metadata, integration_for_client_id}
use resourcespace_authentica.Auth.{prune_expired}
use resourcespace_authentica.Auth.Codes.{code_record}
use resourcespace_authentica.Auth.Sso.{
  SsoDraws, SsoRequest, CompletionDraws, pending_record, begin_sso_authorization, valid, request_of,
  complete_sso_authorization, max_pending_sso_states_per_source,
}
use resourcespace_authentica.Auth.Sso.Capacity.{IsWithinCapacity, begin-IsWithinCapacity}
use resourcespace_authentica.Auth.Sso.SingleUse.{complete_once}
use resourcespace_authentica.Auth.Sso.Binding.{complete-begin}
use resourcespace_authentica.Examples.{demo, demo_session, mint_draws}

abbrev sso_draws : SsoDraws
sso_draws = record { now = 100; prune_now = 100; count_now = 100; handoff_state = "handoff_1" }

abbrev sso_request : SsoRequest
sso_request = record {
  client_id = "canva";
  redirect_uri = "https://www.canva.com/apps/oauth/authorized";
  scope = "read";
  code_challenge = some "verifier";
  code_challenge_method = some "S256";
  canva_state = "state";
  tenant = demo_session.tenant;
  correlation_id = "c1";
  initiator_key = "192.0.2.1";
}

abbrev waiting : State
waiting = record initial_state {
  pending_sso_states = ("handoff_1", pending_record demo sso_draws sso_request) ∷ [];
}

abbrev completion_draws : CompletionDraws
completion_draws = record { prune_now = 500; classify_now = 500; used_now = 500; mint = mint_draws }

demo_limit : max_pending_sso_states_per_source demo ≡ ok 10
unfolding max_pending_sso_states_per_source
demo_limit = refl

begun : begin_sso_authorization demo sso_draws sso_request initial_state ≡ ok ("handoff_1", waiting)
unfolding begin_sso_authorization count prune insert prune_expired max_pending_sso_states_per_source
begun = refl

initial-IsWithinCapacity : IsWithinCapacity 10 0 initial_state
unfolding count
initial-IsWithinCapacity = record {
  per_source = λ key t le. omega arith;
  total = λ t le. omega arith;
}

begin-IsWithinCapacity_example : IsWithinCapacity 10 100 waiting
begin-IsWithinCapacity_example =
    begin-IsWithinCapacity demo sso_draws sso_request 0 10 initial_state waiting "handoff_1"
      (omega arith) demo_limit initial-IsWithinCapacity begun

complete-begin_example :
    (let (answer, s') =
        complete_sso_authorization demo completion_draws "handoff_1" demo_session waiting in
      (answer
        ≡ valid "code_1"
            (record (pending_record demo sso_draws sso_request) { used_at = some 500 }))
      × (lookup "code_1" s'.authorization_codes
          ≡ some (
              code_record demo mint_draws (request_of (pending_record demo sso_draws sso_request)) (
                stamp_broker_session_metadata "canva"
                  (integration_for_client_id demo.config "canva")
                  demo_session))))
complete-begin_example =
    complete-begin demo sso_draws sso_request completion_draws demo_session initial_state waiting
      "handoff_1" begun (omega arith) (omega arith)

completed_active :
    (complete_sso_authorization demo completion_draws "handoff_1" demo_session waiting).0
    ≡ valid "code_1" (record (pending_record demo sso_draws sso_request) { used_at = some 500 })
completed_active = complete-begin_example.0

complete_once_example :
    (complete_sso_authorization demo completion_draws "handoff_1" demo_session
      (complete_sso_authorization demo completion_draws "handoff_1" demo_session waiting).1).0
    ≢ valid "code_2" (pending_record demo sso_draws sso_request)
complete_once_example =
    complete_once demo completion_draws completion_draws "handoff_1" demo_session demo_session
      waiting "code_1" "code_2"
      (record (pending_record demo sso_draws sso_request) { used_at = some 500 })
      (pending_record demo sso_draws sso_request) (omega arith) completed_active
