-- ===== src/RateLimiter/Window.antt =====
-- The requests of one key during a window of `consume`
-- (src/resourcespace_platform/services/rate_limiter.py).
use resourcespace_authentica.Base.{
  ℕ, ◌+◌, ◌≤◌, ◌<◌, ◌-◌, insert, ◌≡◌, refl, String, Option, none, some, false, ◌==◌, eq_iff,
  eq_refl, leb, if◌then◌else◌, Dict, lookup, lookup-insert, lookup-insert_self, lookup-erase, List,
  [], ◌∷◌, arith, All, Bool-cases, inl, inr,
}
use resourcespace_authentica.RateLimiter.{
  Bucket, RateLimiter, RateLimitResult, allowed, denied, sweep, consume, consume_bucket,
}

-- A request: its time and its key.
abbrev pub Request : Type 0
Request = ℕ × String

abbrev pub is_allowed : RateLimitResult → ℕ
is_allowed allowed = 1
is_allowed (denied _) = 0

-- How many requests of `key` a run of requests allows.
pub allowed_of : RateLimiter → String → List Request → Dict Bucket → ℕ
allowed_of limiter key [] d = 0
allowed_of limiter key ((now, k) ∷ requests) d =
    let (result, d') = consume limiter now k d in
    let rest = allowed_of limiter key requests d' in
    if k == key then is_allowed result + rest else rest

-- The sweep for one key keeps every bucket whose window is not over.
lookup-sweep :
    (now : ℕ) (key k : String) (d : Dict Bucket) (b : Bucket)
    → lookup k d ≡ some b
    → now < b.reset_at
    → lookup k (sweep now key d) ≡ some b
unfolding sweep lookup
lookup-sweep now key k [] b h live = cc
lookup-sweep now key k ((j, c) ∷ d) b h live = ground (
  arith,
  lookup-sweep now key k d b,
  lookup-erase k j (sweep now key d),
  eq_iff j k,
  eq_iff j key,
)

module _ (limiter : RateLimiter) (now : ℕ) (key : String) (d : Dict Bucket) (b : Bucket)
    (stored : lookup key d ≡ some b) (live : now < b.reset_at) where
  consume-live : consume limiter now key d ≡ (
      if leb limiter.max_requests b.count
      then (denied (b.reset_at - now), sweep now key d)
      else (allowed, insert key (record b { count = b.count + 1 }) (sweep now key d)))
  unfolding consume
  consume-live =
      let open_yet : leb b.reset_at now ≡ false = ground arith in
      rw (lookup-sweep now key key d b stored live) (rw open_yet refl)

  -- A request of another key leaves the bucket.
  consume-other :
      (k : String) → (k == key) ≡ false → lookup key (consume limiter now k d).1 ≡ some b
  unfolding consume
  consume-other k other = bucket_kept (lookup k (sweep now k d))
    where
      bucket_kept :
          (found : Option Bucket)
          → lookup key (consume_bucket limiter now k (sweep now k d) found).1 ≡ some b
      bucket_kept none = rw lookup-insert (rw other (lookup-sweep now k key d b stored live))
      bucket_kept (some c) = ground (
        arith,
        lookup-sweep now k key d b stored live,
        lookup-insert key k (record { count = 1; reset_at = now + limiter.window_ms })
            (sweep now k d),
        lookup-insert key k (record c { count = c.count + 1 }) (sweep now k d),
      )

-- From a bucket of the key on, requests of any keys at times before its reset leave the key at most
-- what its count leaves of the maximum.
pub allowed_of-le :
    (limiter : RateLimiter) (key : String) (requests : List Request) (d : Dict Bucket) (b : Bucket)
    → lookup key d ≡ some b
    → All (λ r. r.0 < b.reset_at) requests
    → b.count ≤ limiter.max_requests
    → allowed_of limiter key requests d + b.count ≤ limiter.max_requests
unfolding allowed_of
allowed_of-le limiter key [] d b stored h le = omega arith
allowed_of-le limiter key ((now, k) ∷ requests) d b stored (live, h) le =
    elim (Bool-cases (k == key)) [
      | inr other ↦ rw other (
          allowed_of-le limiter key requests (consume limiter now k d).1 b
            (consume-other limiter now key d b stored live k other) h le)
      | inl same ↦
          rw (same, (eq_iff k key).0 same, consume-live limiter now key d b stored live)
            (elim (Bool-cases (leb limiter.max_requests b.count)) [
              | inl full ↦ rw full (
                  omega (
                    arith,
                    allowed_of-le limiter key requests (sweep now key d) b
                        (lookup-sweep now key key d b stored live) h le,
                  ))
              | inr room ↦ rw room (
                  let b' = record b { count = b.count + 1 } in
                  let below : b.count + 1 ≤ limiter.max_requests = ground arith in
                  omega (
                    arith,
                    allowed_of-le limiter key requests (insert key b' (sweep now key d)) b'
                        (lookup-insert_self key b' (sweep now key d)) h below,
                  ))
            ])
    ]

-- The key has no window that is open at `now`.
abbrev pub IsClosed : ℕ → Option Bucket → Type 0
IsClosed now none = Unit
IsClosed now (some b) = b.reset_at ≤ now

-- The sweep does not touch the key itself.
lookup-sweep_self :
    (now : ℕ) (key : String) (d : Dict Bucket) → lookup key (sweep now key d) ≡ lookup key d
unfolding sweep lookup
lookup-sweep_self now key [] = refl
lookup-sweep_self now key ((j, c) ∷ d) =
    ground (arith, lookup-sweep_self now key d, lookup-erase key j (sweep now key d), eq_iff j key)

consume-closed :
    (limiter : RateLimiter) (now : ℕ) (key : String) (d : Dict Bucket)
    → IsClosed now (lookup key d)
    → consume limiter now key d ≡ (
      allowed,
      insert key (record { count = 1; reset_at = now + limiter.window_ms }) (sweep now key d),
    )
unfolding consume
consume-closed limiter now key d h = rw (lookup-sweep_self now key d) (opened (lookup key d) h)
  where
    opened :
        (found : Option Bucket)
        → IsClosed now found
        → consume_bucket limiter now key (sweep now key d) found ≡ (
          allowed,
          insert key (record { count = 1; reset_at = now + limiter.window_ms }) (sweep now key d),
        )
    opened none k = refl
    opened (some b) k = ground arith

-- From the request that opens the window of a key until the window is over, at most `max_requests`
-- requests of the key are allowed, the first included, in any run of requests of any keys whose
-- times lie before the end of the window, for a limiter that allows at least one.
pub window_limit :
    (limiter : RateLimiter) (now : ℕ) (key : String) (requests : List Request) (d : Dict Bucket)
    → 1 ≤ limiter.max_requests
    → IsClosed now (lookup key d)
    → All (λ r. r.0 < now + limiter.window_ms) requests
    → allowed_of limiter key ((now, key) ∷ requests) d ≤ limiter.max_requests
unfolding allowed_of
window_limit limiter now key requests d positive closed h =
    let b : Bucket = record { count = 1; reset_at = now + limiter.window_ms } in
    rw (eq_refl key, consume-closed limiter now key d closed)
      (omega (
        arith,
        allowed_of-le limiter key requests (insert key b (sweep now key d)) b
            (lookup-insert_self key b (sweep now key d)) h positive,
      ))
