-- ===== src/RateLimit.antt =====
-- ratelimit/ratelimit.go: the in-memory token buckets. Times and durations are nanoseconds; the
-- clock is an argument and, like Go's monotonic clock, does not run backwards. Configured numbers
-- are not negative, and products of them stay within 64 bits.
pub mod Buckets
pub mod Limiters
pub mod Redis
pub mod Exclusions
pub mod ClientIp
pub mod Middleware
pub mod Waiting
pub mod Examples
use nflow_runtime.Common.{
  ℕ, ◌+◌, ◌-◌, ◌*◌, ◌/◌, ◌%◌, String, Bool, true, false, not, Option, none, some, List, [], ◌∷◌,
  ltb, if◌then◌else◌, ◌==◌,
}
use nflow_runtime.Common.Dict.{Dict, lookup, insert, delete, retain}

pub record RateLimitConfig : Type 0 where
  pub enabled : Bool
  pub ip_rate_limit : ℕ
  pub ip_window_minutes : ℕ
  pub ip_burst_size : ℕ
  pub backend : String
  pub cleanup_interval : ℕ
  pub retry_after_header : Bool
  pub error_message : String
  pub excluded_ips : String
  pub excluded_paths : String

-- time.Minute
abbrev pub minute : ℕ
minute = 60_000_000_000

abbrev pub ip_window : RateLimitConfig → ℕ
ip_window c = c.ip_window_minutes * minute

pub record Bucket : Type 0 where
  pub tokens : ℕ
  pub last_fill : ℕ

pub record MemoryRateLimiter : Type 0 where
  pub config : RateLimitConfig
  pub ip_buckets : Dict Bucket
  pub closed : Bool

unfoldable pub new_memory_rate_limiter : RateLimitConfig → MemoryRateLimiter
new_memory_rate_limiter config = record { config = config; ip_buckets = []; closed = false }

-- The period of the cleanup ticker.
unfoldable pub cleanup_period : RateLimitConfig → ℕ
cleanup_period config =
    if ltb 0 (config.cleanup_interval * minute)
    then config.cleanup_interval * minute
    else 10 * minute

-- The package's own `min`.
unfoldable pub min : ℕ → ℕ → ℕ
min a b = if ltb a b then a else b

unfoldable pub refill : Bucket → (limit window burst now : ℕ) → Bucket
unfolding min
refill b limit window burst now =
    let tokens_to_add = (now - b.last_fill) / window * limit in
    if ltb 0 tokens_to_add
    then record { tokens = min (b.tokens + tokens_to_add) (limit + burst); last_fill = now }
    else b

unfoldable pub take_token : Bucket → (retry_after : ℕ) → Bucket × Bool × ℕ
take_token b retry_after =
    if ltb 0 b.tokens
    then (record b { tokens = b.tokens - 1 }, true, 0)
    else (b, false, retry_after)

-- `none` is the panic of a division by a window of zero minutes.
unfoldable pub allow_from_bucket :
    Bucket → (limit window burst now : ℕ) → Option (Bucket × Bool × ℕ)
allow_from_bucket b limit window burst now =
    if window == 0
    then none
    else some (take_token (refill b limit window burst now) (window - (now - b.last_fill) % window))

abbrev get_bucket : Option Bucket → (limit created : ℕ) → Bucket
get_bucket (some b) limit created = b
get_bucket none limit created = record { tokens = limit; last_fill = created }

-- The entry that `AllowIP` finds or makes under its lock.
unfoldable pub find_bucket : MemoryRateLimiter → String → (created : ℕ) → Bucket
find_bucket m ip created = get_bucket (lookup ip m.ip_buckets) m.config.ip_rate_limit created

abbrev store : MemoryRateLimiter → String → Bucket → MemoryRateLimiter
store m ip b = record m { ip_buckets = insert ip b m.ip_buckets }

-- `AllowIP` reads the clock twice: `created` for a new bucket, `now` in `allowFromBucket`. Buckets
-- are shared by pointer, so the one that was served is the one in the map. A panic leaves the new
-- bucket in the map.
unfoldable pub allow_ip :
    MemoryRateLimiter → String → (created now : ℕ) → MemoryRateLimiter × Option (Bool × ℕ)
allow_ip m ip created now =
    elim (allow_from_bucket (find_bucket m ip created) m.config.ip_rate_limit (ip_window m.config)
      m.config.ip_burst_size now) [
        | none ↦ (store m ip (find_bucket m ip created), none)
        | some (b, allowed, retry_after) ↦ (store m ip b, some (allowed, retry_after))
      ]

unfoldable pub reset_ip : MemoryRateLimiter → String → MemoryRateLimiter
reset_ip m ip = record m { ip_buckets = delete ip m.ip_buckets }

unfoldable pub is_fresh : (window now : ℕ) → Bucket → Bool
is_fresh window now b = not (ltb (window * 2) (now - b.last_fill))

unfoldable pub cleanup_buckets : MemoryRateLimiter → (now : ℕ) → MemoryRateLimiter
cleanup_buckets m now = record m {
  ip_buckets = retain (is_fresh (ip_window m.config) now) m.ip_buckets;
}

-- Closing the `done` channel a second time panics.
unfoldable pub close : MemoryRateLimiter → Option MemoryRateLimiter
close m = if m.closed then none else some (record m { closed = true })
