-- ===== src/RateLimit/Waiting.antt =====
-- What the middleware does with a request, and what its refusal tells the client, over the
-- in-memory limiter.
use nflow_runtime.Common.{
  ◌∙◌, ℕ, ◌+◌, ◌/◌, ◌≤◌, ◌<◌, ◌≡◌, ◌⊎◌, ap, sym, ◌↔◌, Bool, true, false, Option, none, some, String,
  eq_iff, arith, leb, leb→le, le→leb, Option-cases, inl, inr,
}
use nflow_runtime.Common.Dict.{insert, lookup-insert}
use nflow_runtime.RateLimit.{
  RateLimitConfig, Bucket, MemoryRateLimiter, ip_window, find_bucket, allow_from_bucket, allow_ip,
}
use nflow_runtime.RateLimit.Buckets.{is_allowed, retry_after_exact}
use nflow_runtime.RateLimit.Exclusions.{Net, is_ip_excluded, is_path_excluded}
use nflow_runtime.RateLimit.ClientIp.{get_client_ip}
use nflow_runtime.RateLimit.Middleware.{
  RateLimiter, memory, allow, Request, Reply, next, refused, too_many, reply_of, middleware,
  TooManyRequests,
}

-- The requests that the limiter sees.
pub record IsLimited {Ip : Type 0} (net : Net Ip) (config : RateLimitConfig) (request : Request)
    : Type 0 where
  pub enabled : config.enabled ≡ true
  pub path : is_path_excluded request.path config.excluded_paths ≡ false
  pub ip : is_ip_excluded net (get_client_ip request.address) config.excluded_ips ≡ false

module _ {S Ip : Type 0} (net : Net Ip) (config : RateLimitConfig) (limiter : RateLimiter S)
    (request : Request) (created now replied : ℕ) where
  middleware-limited :
      IsLimited net config request
      → middleware net config limiter request created now replied ≡ (
          let (limiter', answer) = allow limiter (get_client_ip request.address) created now in
          (limiter', reply_of config replied answer))
  unfolding middleware
  middleware-limited l = ground arith

  -- A request that the configuration exempts goes on to the next handler, and spends no token.
  pub middleware-exempt :
      (config.enabled ≡ false)
        ⊎ (is_path_excluded request.path config.excluded_paths ≡ true)
        ⊎ (is_ip_excluded net (get_client_ip request.address) config.excluded_ips ≡ true)
      → middleware net config limiter request created now replied ≡ (limiter, next)
  unfolding middleware
  middleware-exempt h = ground arith

found_again :
    (m m' : MemoryRateLimiter) (ip : String) (b : Bucket) (later : ℕ)
    → m' ≡ record m { ip_buckets = insert ip b m.ip_buckets }
    → find_bucket m' ip later ≡ b
unfolding find_bucket
found_again m m' ip b later e =
    rw e (ground (arith, eq_iff ip ip, lookup-insert ip ip b m.ip_buckets))

-- What a refusal leaves in the map.
refusal :
    (m m' : MemoryRateLimiter) (ip : String) (created now retry_after : ℕ)
    → allow_ip m ip created now ≡ (m', some (false, retry_after))
    → (b : Bucket) × (allow_from_bucket
          (find_bucket m ip created)
          m.config.ip_rate_limit
          (ip_window m.config)
          m.config.ip_burst_size
          now
        ≡ some (b, false, retry_after))
      × (m'.config ≡ m.config)
      × ((later : ℕ) → find_bucket m' ip later ≡ b)
unfolding allow_ip
refusal m m' ip created now retry_after e =
    elim (Option-cases (
      allow_from_bucket (find_bucket m ip created) m.config.ip_rate_limit (ip_window m.config)
        m.config.ip_burst_size now)) [
          | inl f ↦ absurd (cc (rw (f, allow_ip) at e))
          | inr ((b, allowed, r), f) ↦
              let stored = rw (f, allow_ip) at e in
              (b, ground arith, ground arith, λ later. found_again m m' ip b later (ground arith))
        ]

reply-next_iff :
    (config : RateLimitConfig) (m : MemoryRateLimiter) (ip : String) (created now replied : ℕ)
    → (reply_of config replied (allow_ip m ip created now).1 ≡ next) ↔ (
        is_allowed (
          allow_from_bucket
            (find_bucket m ip created)
            m.config.ip_rate_limit
            (ip_window m.config)
            m.config.ip_burst_size
            now)
        ≡ true)
unfolding allow_ip reply_of
reply-next_iff config m ip created now replied = ground arith

refused_inv :
    {S : Type 0} (config : RateLimitConfig) (x : MemoryRateLimiter × Option (Bool × ℕ))
    (m' : MemoryRateLimiter) (replied : ℕ) (t : TooManyRequests)
    → ◌≡◌ {A = RateLimiter S × Reply}
        (memory x.0, reply_of config replied x.1)
        (memory m', refused t)
    → (r : ℕ) × (x ≡ (m', some (false, r))) × (t ≡ too_many config r replied)
unfolding reply_of
refused_inv config (n, none) m' replied t e = cc
refused_inv config (n, some (true, r)) m' replied t e = cc
refused_inv config (n, some (false, r)) m' replied t e = (r, ground arith, ground arith)

abbrev decision : MemoryRateLimiter → Bucket → (now : ℕ) → Option (Bucket × Bool × ℕ)
decision m b now =
    allow_from_bucket b m.config.ip_rate_limit (ip_window m.config) m.config.ip_burst_size now

later_decision :
    (m m' : MemoryRateLimiter) (b b' : Bucket) (now later r : ℕ)
    → 0 < m.config.ip_rate_limit
    → b.last_fill ≤ now
    → now ≤ later
    → m'.config ≡ m.config
    → decision m b now ≡ some (b', false, r)
    → is_allowed (decision m' b' later) ≡ leb (now + r) later
later_decision m m' b b' now later r pos old le same e = rw same (
    retry_after_exact b b' m.config.ip_rate_limit (ip_window m.config) m.config.ip_burst_size now
      later r pos old le e)

-- After the in-memory limiter has refused a request at `now`, the next one from that address is let
-- through exactly from `now + r` on, where the refusal named `r` rounded down to whole seconds.
pub middleware-retry :
    {S Ip : Type 0} (net : Net Ip) (config : RateLimitConfig) (m m' : MemoryRateLimiter)
    (request : Request) (created now replied : ℕ) (t : TooManyRequests)
    → IsLimited net config request
    → m.config ≡ config
    → 0 < config.ip_rate_limit
    → (find_bucket m (get_client_ip request.address) created).last_fill ≤ now
    → middleware {S = S} net config (memory m) request created now replied ≡ (memory m', refused t)
    → (r : ℕ) × (t.retry_after ≡ r / 1_000_000_000)
      × ((created' later replied' : ℕ)
          → now ≤ later
          → ((middleware {S = S} net config (memory m') request created' later replied').1 ≡ next)
            ↔ (now + r ≤ later))
unfolding too_many allow
middleware-retry {S} net config m m' request created now replied t l same pos old e =
    let ip : String = get_client_ip request.address in
    let (r, refused_now, told) =
      refused_inv {S = S} config (allow_ip m ip created now) m' replied t
        (sym (middleware-limited net config (memory m) request created now replied l) ∙ e) in
    let (b, decided, kept, again) = refusal m m' ip created now r refused_now in
    (
      r,
      ground (arith, told),
      λ created' later replied' le.
          let iff = reply-next_iff config m' ip created' later replied' in
          let exact =
            later_decision m m' (find_bucket m ip created) b now later r (rw same pos) old le kept
              decided in
          let found = again created' in
          let same_reply =
            ap (λ (x : RateLimiter S × Reply). x.1)
              (middleware-limited net config (memory m') request created' later replied' l) in
          let allowed = ap (λ (x : Bucket). is_allowed (decision m' x later)) found ∙ exact in
          (
            λ h. leb→le (now + r) later (sym allowed ∙ iff.0 (sym same_reply ∙ h)),
            λ h. same_reply ∙ iff.1 (allowed ∙ le→leb (now + r) later h),
          ),
    )
