-- ===== src/Grants/Race/Winner.antt =====
-- The winner of `_race_pinned_connection`
-- (src/resourcespace_platform/services/asset_service.py).
use mathlib.Core.Path.{subst}
use resourcespace_authentica.Base.{
  ℕ, ◌≤◌, ◌≡◌, ◌≢◌, refl, Option, none, some, Bool, true, false, leb, List, [], ◌∷◌, ◌++◌, ok,
  if◌then◌else◌, arith, All, any, ◌⊎◌, inl, inr, ap, ◌∙◌, Bool-cases, Option-cases, ◌&&◌,
}
use resourcespace_authentica.Errors.{Exception}
use resourcespace_authentica.Grants.Race.{
  Outcome, responded, transport_error, other_error, Attempt, is_accepted, is_refusal, is_rejected,
  lower, first_accepted, error_or, first_unexpected, after_batch, race_pinned_connection,
}

-- Nothing but transport errors.
abbrev pub IsSilent : Attempt → Type 0
IsSilent a = a.outcome ≡ transport_error

IsSilent-attempt :
    (o : Outcome)
    → is_accepted o ≡ false
    → error_or o none ≡ none
    → is_refusal o ≡ false
    → o ≡ transport_error
IsSilent-attempt (responded status) p q r = ground arith
IsSilent-attempt transport_error p q r = refl
IsSilent-attempt (other_error e) p q r = cc

not_accepted :
    (o : Outcome) (i : ℕ) (rest : Option ℕ)
    → (if is_accepted o then lower i rest else rest) ≡ none
    → (is_accepted o ≡ false) × (rest ≡ none)
not_accepted o i none h = ground arith
not_accepted o i (some j) h = ground arith

no_error :
    (o : Outcome) (rest : Option Exception)
    → error_or o rest ≡ none
    → (error_or o none ≡ none) × (rest ≡ none)
no_error (responded status) rest h = (refl, h)
no_error transport_error rest h = (refl, h)
no_error (other_error e) rest h = cc

IsSilent-batch :
    (batch : List Attempt)
    → first_accepted batch ≡ none
    → first_unexpected batch ≡ none
    → any is_rejected batch ≡ false
    → All IsSilent batch
unfolding first_accepted first_unexpected
IsSilent-batch [] p q r = tt
IsSilent-batch (a ∷ batch) p q r =
    let (p0, p1) = not_accepted a.outcome a.index (first_accepted batch) p in
    let (q0, q1) = no_error a.outcome (first_unexpected batch) q in
    (IsSilent-attempt a.outcome p0 q0 (ground arith), IsSilent-batch batch p1 q1 (ground arith))

first_accepted-IsSilent :
    (batch : List Attempt)
    → All IsSilent batch
    → (first_accepted batch ≡ none)
      × (first_unexpected batch ≡ none)
      × (any is_rejected batch ≡ false)
unfolding first_accepted first_unexpected
first_accepted-IsSilent [] h = (refl, refl, refl)
first_accepted-IsSilent (a ∷ batch) (p, h) = rw p (first_accepted-IsSilent batch h)

-- The attempt with index `i` got an acceptable response, and none with a lower index did.
abbrev pub IsBelowAccepted : ℕ → Attempt → Type 0
IsBelowAccepted i a = is_accepted a.outcome ≡ true → i ≤ a.index

abbrev pub Has : (Attempt → Type 0) → List Attempt → Type 0
Has P [] = ⊥
Has P (a ∷ batch) = P a ⊎ Has P batch

pub record IsLowestAccepted (i : ℕ) (batch : List Attempt) : Type 0 where
  pub present : Has (λ a. (is_accepted a.outcome ≡ true) × (a.index ≡ i)) batch
  pub lowest : All (IsBelowAccepted i) batch

none_accepted :
    (batch : List Attempt) (i : ℕ) → first_accepted batch ≡ none → All (IsBelowAccepted i) batch
unfolding first_accepted
none_accepted [] i h = tt
none_accepted (a ∷ batch) i h =
    let (p, q) = not_accepted a.outcome a.index (first_accepted batch) h in
    (λ t. absurd (cc (rw p at t)), none_accepted batch i q)

All-lower :
    (batch : List Attempt) (i j : ℕ)
    → i ≤ j
    → All (IsBelowAccepted j) batch
    → All (IsBelowAccepted i) batch
All-lower [] i j le h = tt
All-lower (a ∷ batch) i j le (p, h) = (λ t. omega (arith, p t), All-lower batch i j le h)

lowest_step :
    (a : Attempt) (batch : List Attempt) (i : ℕ) (rest : Option ℕ)
    → ((j : ℕ) → All (IsBelowAccepted j) batch ⊎ (rest ≢ none))
    → ((j : ℕ) → rest ≡ some j → IsLowestAccepted j batch)
    → (if is_accepted a.outcome then lower a.index rest else rest) ≡ some i
    → IsLowestAccepted i (a ∷ batch)
lowest_step a batch i none k h e = record {
  present = inl (ground arith);
  lowest = (λ t. ground arith, ground (arith, k i));
}
lowest_step a batch i (some j) k h e = elim (Bool-cases (is_accepted a.outcome && leb a.index j)) [
  | inl first ↦ record {
    present = inl (ground arith);
    lowest = (λ t. ground arith, All-lower batch i j (ground arith) (h j refl).lowest);
  }
  | inr later ↦
      let same : j ≡ i = ground arith in
      let x : IsLowestAccepted i batch = subst (λ k. IsLowestAccepted k batch) same (h j refl) in
      record { present = inr x.present; lowest = (λ t. ground arith, x.lowest) }
]

first_accepted-IsLowest :
    (batch : List Attempt) (i : ℕ) → first_accepted batch ≡ some i → IsLowestAccepted i batch
unfolding first_accepted
first_accepted-IsLowest [] i h = cc
first_accepted-IsLowest (a ∷ batch) i h =
    lowest_step a batch i (first_accepted batch)
      (λ j. elim (Option-cases (first_accepted batch)) [
        | inl e ↦ inl (none_accepted batch j e)
        | inr (k, e) ↦ inr (λ x. cc)
      ])
      (λ j e. first_accepted-IsLowest batch j e) h

-- The winner is the accepted attempt with the lowest index in the first batch that is not silent.
pub record IsWinner (i : ℕ) (batches : List (List Attempt)) : Type 0 where
  pub before : List (List Attempt)
  pub batch : List Attempt
  pub after : List (List Attempt)
  pub split : batches ≡ before ++ batch ∷ after
  pub silent : All (All IsSilent) before
  pub first : IsLowestAccepted i batch

-- If the race ends with a winner, then every batch before the winner's consists of transport errors
-- alone, the winner's status is below 400, and no other such attempt of its batch has a lower index.
pub race-IsWinner :
    (batches : List (List Attempt)) (i : ℕ)
    → race_pinned_connection batches ≡ ok (some i)
    → IsWinner i batches
unfolding race_pinned_connection
race-IsWinner [] i h = cc
race-IsWinner (batch ∷ batches) i h = elim (Option-cases (first_accepted batch)) [
  | inr (j, e) ↦
      let same : j ≡ i = cc (rw e at h) in
      record {
        before = [];
        batch = batch;
        after = batches;
        split = refl;
        silent = tt;
        first = first_accepted-IsLowest batch i (e ∙ ap some same);
      }
  | inl p ↦
      later_winner p (first_unexpected batch) (any is_rejected batch) refl refl (rw p at h)
        (race-IsWinner batches i)
]
  where
    later_winner :
        first_accepted batch ≡ none
        → (u : Option Exception) (r : Bool) → first_unexpected batch ≡ u
        → any is_rejected batch ≡ r
        → after_batch none u r (race_pinned_connection batches) ≡ ok (some i)
        → (race_pinned_connection batches ≡ ok (some i) → IsWinner i batches)
        → IsWinner i (batch ∷ batches)
    later_winner p (some e) r q s k ih = cc
    later_winner p none true q s k ih = cc
    later_winner p none false q s k ih =
        let w = ih k in
        record {
          before = batch ∷ w.before;
          batch = w.batch;
          after = w.after;
          split = ap (λ x. batch ∷ x) w.split;
          silent = (IsSilent-batch batch p q s, w.silent);
          first = w.first;
        }
