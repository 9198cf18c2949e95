-- ===== src/Pages/Integers.antt =====
-- The integers of src/resourcespace_platform/routes/content.py, whose offsets and limits may be
-- negative in a request, and the slices of a list between two of them.
use resourcespace_authentica.Base.{
  ℕ, suc, ◌+◌, ◌-◌, Bool, true, false, ltb, if◌then◌else◌, List, length, take, drop,
}
use resourcespace_authentica.CanvaVerifier.{Timestamp, positive, negative}

-- `a - b` of two natural numbers; `negative n` is -(n + 1).
abbrev pub difference : ℕ → ℕ → Timestamp
difference a b = if ltb a b then negative (b - suc a) else positive (a - b)

abbrev pub plus : Timestamp → Timestamp → Timestamp
plus (positive a) (positive b) = positive (a + b)
plus (positive a) (negative b) = difference a (suc b)
plus (negative a) (positive b) = difference b (suc a)
plus (negative a) (negative b) = negative (suc (a + b))

abbrev pub minus_length : Timestamp → ℕ → Timestamp
minus_length (positive a) n = difference a n
minus_length (negative a) n = negative (a + n)

-- `a < b`
abbrev pub is_below : Timestamp → Timestamp → Bool
is_below (positive a) (positive b) = ltb a b
is_below (positive a) (negative b) = false
is_below (negative a) (positive b) = true
is_below (negative a) (negative b) = ltb b a

-- `max(a, b)`
abbrev pub larger : Timestamp → Timestamp → Timestamp
larger (positive a) (positive b) = positive (if ltb a b then b else a)
larger (positive a) (negative b) = positive a
larger (negative a) (positive b) = positive b
larger (negative a) (negative b) = negative (if ltb b a then b else a)

-- Where an index of a slice falls in a list of this length: a negative one counts from the end.
abbrev pub bound : ℕ → Timestamp → ℕ
bound n (positive i) = i
bound n (negative i) = n - suc i

-- `xs[i:j]`
unfoldable pub slice {ℓ} : {A : Type ℓ} → List A → Timestamp → Timestamp → List A
unfolding take drop
slice xs i j = take (bound (length xs) j - bound (length xs) i) (drop (bound (length xs) i) xs)
