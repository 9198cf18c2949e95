-- ===== src/Base/Lists.antt =====
-- Slices of lists by native numbers.
use Prim.Native.Nat.{ℕ, zero, suc, ◌+◌, ◌≤◌, ◌<◌}
use mathlib.Core.Path.{◌≡◌, refl, sym, ap, ◌∙◌}
use mathlib.Core.List.{List, [], ◌∷◌, ◌++◌}
use native.Mathlib.Omega.{arith}
use resourcespace_authentica.Base.Tests.{length}

module _ {ℓ} {A : Type ℓ} where
  -- `xs[:n]`
  unfoldable pub take : ℕ → List A → List A
  take zero xs = []
  take (suc n) [] = []
  take (suc n) (x ∷ xs) = x ∷ take n xs

  -- `xs[n:]`
  unfoldable pub drop : ℕ → List A → List A
  drop zero xs = xs
  drop (suc n) [] = []
  drop (suc n) (x ∷ xs) = drop n xs

  pub take-append-drop : (n : ℕ) (xs : List A) → take n xs ++ drop n xs ≡ xs
  unfolding take drop
  take-append-drop zero xs = refl
  take-append-drop (suc n) [] = refl
  take-append-drop (suc n) (x ∷ xs) = ap (λ ys. x ∷ ys) (take-append-drop n xs)

  pub length-append : (xs ys : List A) → length (xs ++ ys) ≡ length xs + length ys
  length-append [] ys = omega arith
  length-append (x ∷ xs) ys = omega (arith, length-append xs ys)

  pub length-take_le : (n : ℕ) (xs : List A) → length (take n xs) ≤ n
  unfolding take
  length-take_le zero xs = omega arith
  length-take_le (suc n) [] = omega arith
  length-take_le (suc n) (x ∷ xs) = omega (arith, length-take_le n xs)

  pub drop_past : (n : ℕ) (xs : List A) → length xs ≤ n → drop n xs ≡ []
  unfolding drop
  drop_past zero [] le = refl
  drop_past zero (x ∷ xs) le = absurd (omega (arith, le))
  drop_past (suc n) [] le = refl
  drop_past (suc n) (x ∷ xs) le = drop_past n xs (omega (arith, le))

  pub drop-nil : (n : ℕ) (xs : List A) → xs ≡ [] → drop n xs ≡ []
  unfolding drop
  drop-nil zero xs e = e
  drop-nil (suc n) xs e = rw e refl

  pub length-drop : (n : ℕ) (xs : List A) → n ≤ length xs → n + length (drop n xs) ≡ length xs
  unfolding drop
  length-drop zero xs le = omega arith
  length-drop (suc n) [] le = absurd (omega (arith, le))
  length-drop (suc n) (x ∷ xs) le = omega (arith, length-drop n xs (omega (arith, le)))

  pub drop-drop : (n m : ℕ) (xs : List A) → drop (n + m) xs ≡ drop m (drop n xs)
  unfolding drop
  drop-drop zero m xs = ap (λ k. drop k xs) (omega arith)
  drop-drop (suc n) m [] = ap (λ k. drop k []) same ∙ sym (drop-nil m [] refl)
    where
      same : suc n + m ≡ suc (n + m)
      same = omega arith
  drop-drop (suc n) m (x ∷ xs) = ap (λ k. drop k (x ∷ xs)) same ∙ drop-drop n m xs
    where
      same : suc n + m ≡ suc (n + m)
      same = omega arith

  -- A prefix that is shorter than it might be is the whole list.
  pub take_all : (n : ℕ) (xs : List A) → length xs ≤ n → take n xs ≡ xs
  unfolding take
  take_all zero [] le = refl
  take_all zero (x ∷ xs) le = absurd (omega (arith, le))
  take_all (suc n) [] le = refl
  take_all (suc n) (x ∷ xs) le = ap (λ ys. x ∷ ys) (take_all n xs (omega (arith, le)))

  -- What a slice leaves is what stands from its end on.
  pub take-append-rest : (n : ℕ) (xs : List A) → take n xs ++ drop (length (take n xs)) xs ≡ xs
  unfolding take drop
  take-append-rest zero xs = refl
  take-append-rest (suc n) [] = refl
  take-append-rest (suc n) (x ∷ xs) = ap (λ ys. x ∷ ys) (take-append-rest n xs)

  pub slice-append-rest :
      (o n : ℕ) (xs : List A)
      → take n (drop o xs) ++ drop (o + length (take n (drop o xs))) xs ≡ drop o xs
  slice-append-rest o n xs =
      ap (λ ys. take n (drop o xs) ++ ys) (drop-drop o (length (take n (drop o xs))) xs)
      ∙ take-append-rest n (drop o xs)

  -- A slice that is not full ends at the end of the list.
  pub slice_short :
      (o n : ℕ) (xs : List A)
      → length (take n (drop o xs)) < n
      → length xs ≤ o + length (take n (drop o xs))
  unfolding take drop
  slice_short zero n xs lt = take_short n xs lt
    where
      take_short :
          (n : ℕ) (xs : List A) → length (take n xs) < n → length xs ≤ 0 + length (take n xs)
      take_short zero xs lt = absurd (omega (arith, lt))
      take_short (suc n) [] lt = omega arith
      take_short (suc n) (x ∷ xs) lt = omega (arith, take_short n xs (omega (arith, lt)))
  slice_short (suc o) n [] lt = omega arith
  slice_short (suc o) n (x ∷ xs) lt = omega (arith, slice_short o n xs lt)

  -- A slice that is not empty starts before the end of the list, and stays in it.
  pub slice_within :
      (o n : ℕ) (xs : List A)
      → 0 < length (take n (drop o xs))
      → o + length (take n (drop o xs)) ≤ length xs
  unfolding take drop
  slice_within zero n xs lt = take_within n xs
    where
      take_within : (n : ℕ) (xs : List A) → 0 + length (take n xs) ≤ length xs
      take_within zero xs = omega arith
      take_within (suc n) [] = omega arith
      take_within (suc n) (x ∷ xs) = omega (arith, take_within n xs)
  slice_within (suc o) zero [] lt = lt_absurd lt
    where
      lt_absurd : 0 < 0 → suc o + 0 ≤ 0
      lt_absurd h = absurd (omega (arith, h))
  slice_within (suc o) (suc n) [] lt = absurd (omega (arith, lt))
  slice_within (suc o) n (x ∷ xs) lt = omega (arith, slice_within o n xs lt)
