-- ===== src/RateLimit/Middleware.antt =====
-- ratelimit/middleware.go: `Middleware`, and `NewRateLimiter` with the three limiters behind it.
use nflow_runtime.Common.{
  ℕ, ◌+◌, ◌/◌, Bool, true, false, not, ◌&&◌, Option, none, some, String, str_eq, ltb, if◌then◌else◌,
}
use nflow_runtime.Common.Text.{is_empty}
use nflow_runtime.RateLimit.{
  RateLimitConfig, MemoryRateLimiter, new_memory_rate_limiter, allow_ip, reset_ip,
}
use nflow_runtime.RateLimit.Redis.{RedisClient, allow_ip_redis, reset_ip_redis}
use nflow_runtime.RateLimit.Exclusions.{Net, is_ip_excluded, is_path_excluded}
use nflow_runtime.RateLimit.ClientIp.{RequestAddress, get_client_ip}

-- The implementations of the interface. The Redis one holds the state that its client talks to.
pub data RateLimiter (S : Type 0) : Type 0 where
  noop : RateLimiter S
  memory : MemoryRateLimiter → RateLimiter S
  redis : RateLimitConfig → RedisClient S → S → RateLimiter S

-- A client that is missing makes the limiter fall back to memory.
unfoldable pub new_rate_limiter :
    {S : Type 0} → RateLimitConfig → Option (RedisClient S × S) → RateLimiter S
unfolding new_memory_rate_limiter
new_rate_limiter config client =
    if not config.enabled
    then noop
    else if str_eq config.backend "redis"
    then elim client [
      | none ↦ memory (new_memory_rate_limiter config)
      | some (r, s) ↦ redis config r s
    ]
    else memory (new_memory_rate_limiter config)

-- `none` is a panic.
unfoldable pub allow :
    {S : Type 0} → RateLimiter S → String → (created now : ℕ) → RateLimiter S × Option (Bool × ℕ)
allow noop ip created now = (noop, some (true, 0))
allow (memory m) ip created now = let (m', r) = allow_ip m ip created now in (memory m', r)
allow (redis config r s) ip created now =
    let (s', allowed, retry_after) = allow_ip_redis r config s ip now in
    (redis config r s', some (allowed, retry_after))

unfoldable pub reset : {S : Type 0} → RateLimiter S → String → RateLimiter S
reset noop ip = noop
reset (memory m) ip = memory (reset_ip m ip)
reset (redis config r s) ip = redis config r (reset_ip_redis r s ip)

pub record Request : Type 0 where
  pub path : String
  pub address : RequestAddress

-- Status 429: its headers and the fields of its JSON body.
pub record TooManyRequests : Type 0 where
  pub retry_after_header : Option ℕ
  pub limit_header : ℕ
  pub remaining_header : ℕ
  pub reset_header : ℕ
  pub error : String
  pub retry_after : ℕ

-- `next` runs the next handler; `panics` is a panic that leaves the handler.
pub data Reply : Type 0 where
  next : Reply
  refused : TooManyRequests → Reply
  panics : Reply

-- time.Duration.Seconds, and time.Time.Unix, as whole seconds
abbrev seconds : ℕ → ℕ
seconds d = d / 1_000_000_000

unfoldable pub too_many : RateLimitConfig → (retry_after replied : ℕ) → TooManyRequests
too_many config retry_after replied = record {
  retry_after_header =
      if config.retry_after_header && ltb 0 retry_after then some (seconds retry_after) else none;
  limit_header = config.ip_rate_limit;
  remaining_header = 0;
  reset_header = seconds (replied + retry_after);
  error =
      if is_empty config.error_message
      then "Rate limit exceeded. Please try again later."
      else config.error_message;
  retry_after = seconds retry_after;
}

unfoldable pub reply_of : RateLimitConfig → (replied : ℕ) → Option (Bool × ℕ) → Reply
unfolding too_many
reply_of config replied none = panics
reply_of config replied (some (true, retry_after)) = next
reply_of config replied (some (false, retry_after)) = refused (too_many config retry_after replied)

-- The clock is read for a new bucket, for the decision and for the reply.
unfoldable pub middleware :
    {S Ip : Type 0}
    → Net Ip
    → RateLimitConfig
    → RateLimiter S
    → Request
    → (created now replied : ℕ) → RateLimiter S × Reply
unfolding reply_of
middleware net config limiter request created now replied =
    let ip : String = get_client_ip request.address in
    if not config.enabled
    then (limiter, next)
    else if is_path_excluded request.path config.excluded_paths
    then (limiter, next)
    else if is_ip_excluded net ip config.excluded_ips
    then (limiter, next)
    else (let (limiter', answer) = allow limiter ip created now in
        (limiter', reply_of config replied answer))
