-- ===== src/Auth/Sso/Capacity.antt =====
-- The capacity of the pending handoffs: `begin_sso_authorization`
-- (src/resourcespace_platform/services/auth_service.py).
use resourcespace_authentica.Base.{
  ℕ, ◌≤◌, ◌<◌, String, ◌≡◌, true, false, insert, count, count-insert, count-prune, count_mono,
  arith, ok, ◌==◌, eq_iff, eq_refl, Dict, inl, inr, Bool-cases,
}
use resourcespace_authentica.State.{State, PendingSsoState}
use resourcespace_authentica.Auth.{AuthService, prune_state, prune_expired, is_purged}
use resourcespace_authentica.Auth.Sso.{
  max_pending_sso_states, max_pending_sso_states_per_source, begin_within,
  is_active_pending_sso_state, is_active_of_source, SsoDraws, SsoRequest, pending_record,
  begin_sso_authorization,
}

-- From `now` on, no source has more active handoffs than the limit, and there are at most 2000.
pub record IsWithinCapacity (limit now : ℕ) (s : State) : Type 0 where
  pub per_source :
      (key : String) (t : ℕ)
      → now ≤ t
      → count (is_active_of_source key t) s.pending_sso_states ≤ limit
  pub total :
      (t : ℕ)
      → now ≤ t
      → count (is_active_pending_sso_state t) s.pending_sso_states ≤ max_pending_sso_states

active_earlier :
    (t u : ℕ) (r : PendingSsoState)
    → t ≤ u
    → is_active_pending_sso_state u r ≡ true
    → is_active_pending_sso_state t r ≡ true
active_earlier t u r h e = ground arith

active_of_source_earlier :
    (key : String) (t u : ℕ) (r : PendingSsoState)
    → t ≤ u
    → is_active_of_source key u r ≡ true
    → is_active_of_source key t r ≡ true
active_of_source_earlier key t u r h e = ground arith

pub prune-IsWithinCapacity :
    (service : AuthService) (limit now at : ℕ) (s : State)
    → IsWithinCapacity limit now s
    → IsWithinCapacity limit now (prune_state service at s)
unfolding prune_expired
prune-IsWithinCapacity service limit now at s h = record {
  per_source = λ key t le. omega (
    arith,
    h.per_source key t le,
    count-prune (is_active_of_source key t) (is_purged at) s.pending_sso_states,
  );
  total = λ t le. omega (
    arith,
    h.total t le,
    count-prune (is_active_pending_sso_state t) (is_purged at) s.pending_sso_states,
  );
}

module _ (service : AuthService) (limit : ℕ) (d : SsoDraws) (q : SsoRequest)
    (pending : Dict PendingSsoState) where
  abbrev added : Dict PendingSsoState
  added = insert d.handoff_state (pending_record service d q) pending

  -- The source that has passed the test of its capacity may add a record.
  begin_same_source :
      (t : ℕ)
      → d.count_now ≤ t
      → count (is_active_of_source q.initiator_key d.count_now) pending < limit
      → count (is_active_of_source q.initiator_key t) added ≤ limit
  begin_same_source t le room = ground (
    arith,
    eq_refl q.initiator_key,
    count-insert (is_active_of_source q.initiator_key t) d.handoff_state
        (pending_record service d q) pending,
    count_mono (is_active_of_source q.initiator_key t)
        (is_active_of_source q.initiator_key d.count_now)
        (λ r. active_of_source_earlier q.initiator_key d.count_now t r le) pending,
  )

  -- It adds nothing to another source.
  begin_other_source :
      (key : String) (t : ℕ)
      → (q.initiator_key == key) ≡ false
      → count (is_active_of_source key t) added ≤ count (is_active_of_source key t) pending
  begin_other_source key t other = ground (
    arith,
    count-insert (is_active_of_source key t) d.handoff_state (pending_record service d q) pending,
  )

  begin_total :
      (t : ℕ)
      → d.count_now ≤ t
      → count (is_active_pending_sso_state d.count_now) pending < max_pending_sso_states
      → count (is_active_pending_sso_state t) added ≤ max_pending_sso_states
  begin_total t le room = ground (
    arith,
    count-insert (is_active_pending_sso_state t) d.handoff_state (pending_record service d q)
        pending,
    count_mono (is_active_pending_sso_state t) (is_active_pending_sso_state d.count_now)
        (λ r. active_earlier d.count_now t r le) pending,
  )

  begin_per_source :
      ((key : String) (t : ℕ) → d.count_now ≤ t → count (is_active_of_source key t) pending ≤ limit)
      → count (is_active_of_source q.initiator_key d.count_now) pending < limit
      → (key : String) (t : ℕ) → d.count_now ≤ t
      → count (is_active_of_source key t) added ≤ limit
  begin_per_source h room key t le = elim (Bool-cases (q.initiator_key == key)) [
    | inl same ↦ rw (← (eq_iff q.initiator_key key).0 same) (begin_same_source t le room)
    | inr other ↦ omega (arith, begin_other_source key t other, h key t le)
  ]

begin_within-IsWithinCapacity :
    (service : AuthService) (d : SsoDraws) (q : SsoRequest) (now limit : ℕ) (s1 s' : State)
    (token : String)
    → now ≤ d.count_now
    → IsWithinCapacity limit now s1
    → begin_within service d q s1 (ok limit) ≡ ok (token, s')
    → IsWithinCapacity limit d.count_now s'
begin_within-IsWithinCapacity service d q now limit s1 s' token later h1 e =
    let pending = s1.pending_sso_states in
    let room : count (is_active_of_source q.initiator_key d.count_now) pending < limit =
      ground arith in
    let space : count (is_active_pending_sso_state d.count_now) pending < max_pending_sso_states =
      ground arith in
    let same : s'.pending_sso_states ≡ added service limit d q pending = ground arith in
    record {
      per_source = λ key t le. rw same (
          begin_per_source service limit d q pending (λ k u le'. h1.per_source k u (omega arith))
            room key t le);
      total = λ t le. rw same (begin_total service limit d q pending t le space);
    }

-- An initiation that is accepted keeps the capacity from its count on, whatever the time of the
-- others, with the limit of a source that the configuration gives: a source that is full, or a store
-- that is full, is refused.
pub begin-IsWithinCapacity :
    (service : AuthService) (d : SsoDraws) (q : SsoRequest) (now limit : ℕ) (s s' : State)
    (token : String)
    → now ≤ d.count_now
    → max_pending_sso_states_per_source service ≡ ok limit
    → IsWithinCapacity limit now s
    → begin_sso_authorization service d q s ≡ ok (token, s')
    → IsWithinCapacity limit d.count_now s'
unfolding begin_sso_authorization
begin-IsWithinCapacity service d q now limit s s' token later limited h e =
    begin_within-IsWithinCapacity service d q now limit (prune_state service d.prune_now s) s' token
      later (prune-IsWithinCapacity service limit now d.prune_now s h) (rw limited at e)
