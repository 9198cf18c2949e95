-- ===== src/Base/Dicts.antt =====
-- Python dictionaries with text keys, in insertion order, as association lists.
use Prim.Native.Nat.{ℕ, suc, ◌+◌, ◌≤◌}
use Prim.Native.String.{String}
use mathlib.Core.Path.{◌≡◌, refl}
use mathlib.Core.Bool.{Bool, true, false}
use mathlib.Core.Option.{Option, none, some}
use mathlib.Core.List.{List, [], ◌∷◌}
use native.Mathlib.Omega.{arith}
use text.Mathlib.Text.{◌==◌}
use text.Mathlib.TextEquality.{eq_iff}
use text.Mathlib.TextPositions.{eq_refl}
use resourcespace_authentica.Base.Tests.{if◌then◌else◌}

abbrev pub Dict {ℓ} : Type ℓ → Type ℓ
Dict V = List (String × V)

module _ {ℓ} {V : Type ℓ} where
  -- `d.get(k)`
  unfoldable pub lookup : String → Dict V → Option V
  lookup k [] = none
  lookup k ((j, v) ∷ d) = if j == k then some v else lookup k d

  -- `d[k] = v`
  unfoldable pub insert : String → V → Dict V → Dict V
  insert k v [] = (k, v) ∷ []
  insert k v ((j, w) ∷ d) = if j == k then (k, v) ∷ d else (j, w) ∷ insert k v d

  -- `del d[k]`, of a key that may be missing
  unfoldable pub erase : String → Dict V → Dict V
  erase k [] = []
  erase k ((j, v) ∷ d) = let rest = erase k d in if j == k then rest else (j, v) ∷ rest

  -- `for k, v in list(d.items()): if drop(v): del d[k]`
  unfoldable pub prune : (V → Bool) → Dict V → Dict V
  prune drop [] = []
  prune drop ((j, v) ∷ d) =
      let rest = prune drop d in if drop v then erase j rest else (j, v) ∷ rest

  -- `for v in d.values(): ...` that changes the values in place
  unfoldable pub map_values : (V → V) → Dict V → Dict V
  map_values f [] = []
  map_values f ((j, v) ∷ d) = (j, f v) ∷ map_values f d

  -- `sum(1 for v in d.values() if p(v))`
  unfoldable pub count : (V → Bool) → Dict V → ℕ
  count p [] = 0
  count p ((j, v) ∷ d) = let rest = count p d in if p v then suc rest else rest

  abbrev pub drop_if : (V → Bool) → Option V → Option V
  drop_if drop none = none
  drop_if drop (some v) = if drop v then none else some v

  pub drop_if-eq-some :
      (drop : V → Bool) (o : Option V) (v : V)
      → drop_if drop o ≡ some v
      → (o ≡ some v) × (drop v ≡ false)
  drop_if-eq-some drop none v h = cc
  drop_if-eq-some drop (some w) v h = ground arith

  pub drop_if_keeps :
      (drop : V → Bool) (o : Option V) (v : V)
      → o ≡ some v
      → drop v ≡ false
      → drop_if drop o ≡ some v
  drop_if_keeps drop o v e h = rw e (rw h)

  abbrev pub map_option : (V → V) → Option V → Option V
  map_option f none = none
  map_option f (some v) = some (f v)

  pub lookup-insert :
      (j k : String) (v : V) (d : Dict V)
      → lookup j (insert k v d) ≡ (if k == j then some v else lookup j d)
  unfolding lookup insert
  lookup-insert j k v [] = refl
  lookup-insert j k v ((i, w) ∷ d) =
      ground (arith, eq_iff k j, eq_iff i k, eq_iff i j, lookup-insert j k v d)

  pub lookup-insert_self : (k : String) (v : V) (d : Dict V) → lookup k (insert k v d) ≡ some v
  lookup-insert_self k v d = simp (lookup-insert, eq_refl)

  pub lookup-erase :
      (j k : String) (d : Dict V) → lookup j (erase k d) ≡ (if k == j then none else lookup j d)
  unfolding lookup erase
  lookup-erase j k [] = ground arith
  lookup-erase j k ((i, v) ∷ d) =
      ground (arith, eq_iff k j, eq_iff i k, eq_iff i j, lookup-erase j k d)

  pub lookup-erase_self : (k : String) (d : Dict V) → lookup k (erase k d) ≡ none
  lookup-erase_self k d = simp (lookup-erase, eq_refl)

  pub lookup-prune :
      (drop : V → Bool) (j : String) (d : Dict V)
      → lookup j (prune drop d) ≡ drop_if drop (lookup j d)
  unfolding lookup prune
  lookup-prune drop j [] = refl
  lookup-prune drop j ((i, v) ∷ d) =
      ground (arith, lookup-prune drop j d, lookup-erase j i (prune drop d))

  pub lookup-map_values :
      (f : V → V) (j : String) (d : Dict V) → lookup j (map_values f d) ≡ map_option f (lookup j d)
  unfolding lookup map_values
  lookup-map_values f j [] = refl
  lookup-map_values f j ((i, v) ∷ d) = ground (arith, lookup-map_values f j d)

  pub count-insert :
      (p : V → Bool) (k : String) (v : V) (d : Dict V)
      → count p (insert k v d) ≤ count p d + (if p v then 1 else 0)
  unfolding count insert
  count-insert p k v [] = ground arith
  count-insert p k v ((j, w) ∷ d) = ground (arith, count-insert p k v d)

  pub count-erase : (p : V → Bool) (k : String) (d : Dict V) → count p (erase k d) ≤ count p d
  unfolding count erase
  count-erase p k [] = omega arith
  count-erase p k ((j, v) ∷ d) = ground (arith, count-erase p k d)

  pub count-prune : (p drop : V → Bool) (d : Dict V) → count p (prune drop d) ≤ count p d
  unfolding count prune
  count-prune p drop [] = omega arith
  count-prune p drop ((j, v) ∷ d) =
      ground (arith, count-prune p drop d, count-erase p j (prune drop d))

  -- A test that implies another counts no more.
  pub count_mono :
      (p q : V → Bool) → ((v : V) → p v ≡ true → q v ≡ true) → (d : Dict V) → count p d ≤ count q d
  unfolding count
  count_mono p q h [] = omega arith
  count_mono p q h ((j, v) ∷ d) = ground (arith, h v, count_mono p q h d)

pub ruleset dict_laws = (
  lookup-insert, lookup-insert_self, lookup-erase, lookup-erase_self, lookup-prune,
  lookup-map_values,
)

-- What holds of every value.
module _ {ℓ κ} {V : Type ℓ} (P : V → Type κ) where
  abbrev pub AllValues : Dict V → Type κ
  AllValues [] = Unit
  AllValues ((k, v) ∷ d) = P v × AllValues d

  pub AllValues-lookup : (k : String) (d : Dict V) (v : V) → AllValues d → lookup k d ≡ some v → P v
  unfolding lookup
  AllValues-lookup k [] v h e = cc
  AllValues-lookup k ((j, w) ∷ d) v (p, h) e = ground (arith, AllValues-lookup k d v h)

  pub AllValues-insert :
      (k : String) (v : V) (d : Dict V) → P v → AllValues d → AllValues (insert k v d)
  unfolding insert
  AllValues-insert k v [] p h = (p, tt)
  AllValues-insert k v ((j, w) ∷ d) p (q, h) = ground (arith, AllValues-insert k v d p h)

  pub AllValues-erase : (k : String) (d : Dict V) → AllValues d → AllValues (erase k d)
  unfolding erase
  AllValues-erase k [] h = tt
  AllValues-erase k ((j, w) ∷ d) (q, h) = ground (arith, AllValues-erase k d h)

  pub AllValues-prune : (drop : V → Bool) (d : Dict V) → AllValues d → AllValues (prune drop d)
  unfolding prune
  AllValues-prune drop [] h = tt
  AllValues-prune drop ((j, w) ∷ d) (q, h) =
      ground (
        arith,
        AllValues-prune drop d h,
        AllValues-erase j (prune drop d) (AllValues-prune drop d h),
      )

  pub AllValues-map_values :
      (f : V → V) (d : Dict V)
      → ((v : V) → P v → P (f v))
      → AllValues d
      → AllValues (map_values f d)
  unfolding map_values
  AllValues-map_values f [] keep h = tt
  AllValues-map_values f ((j, w) ∷ d) keep (q, h) = (keep w q, AllValues-map_values f d keep h)
