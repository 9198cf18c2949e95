-- ===== src/RateLimiter.antt =====
-- The fixed-window limiter of src/resourcespace_platform/services/rate_limiter.py. The lock makes
-- each `consume` one step; the clock's reading is an argument.
pub mod Window
use resourcespace_authentica.Base.{
  ℕ, ◌+◌, ◌-◌, String, Option, none, some, not, ◌&&◌, ◌==◌, leb, if◌then◌else◌, Dict, lookup,
  insert, erase, [], ◌∷◌,
}

pub record Bucket : Type 0 where
  pub count : ℕ
  pub reset_at : ℕ

pub record RateLimiter : Type 0 where
  pub max_requests : ℕ
  pub window_ms : ℕ

pub data RateLimitResult : Type 0 where
  allowed : RateLimitResult
  denied : (retry_after_ms : ℕ) → RateLimitResult

-- The loop that deletes the buckets of other keys whose window is over.
unfoldable pub sweep : ℕ → String → Dict Bucket → Dict Bucket
sweep now key [] = []
sweep now key ((k, b) ∷ d) =
    let rest = sweep now key d in
    if leb b.reset_at now && not (k == key) then erase k rest else (k, b) ∷ rest

abbrev pub open_window : RateLimiter → ℕ → String → Dict Bucket → RateLimitResult × Dict Bucket
open_window limiter now key d =
    (allowed, insert key (record { count = 1; reset_at = now + limiter.window_ms }) d)

abbrev pub consume_bucket :
    RateLimiter → ℕ → String → Dict Bucket → Option Bucket → RateLimitResult × Dict Bucket
consume_bucket limiter now key d none = open_window limiter now key d
consume_bucket limiter now key d (some b) =
    if leb b.reset_at now
    then open_window limiter now key d
    else if leb limiter.max_requests b.count
    then (denied (b.reset_at - now), d)
    else (allowed, insert key (record b { count = b.count + 1 }) d)

-- `consume`
unfoldable pub consume : RateLimiter → ℕ → String → Dict Bucket → RateLimitResult × Dict Bucket
consume limiter now key d =
    let swept = sweep now key d in consume_bucket limiter now key swept (lookup key swept)
