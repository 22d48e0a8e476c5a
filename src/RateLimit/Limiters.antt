-- ===== src/RateLimit/Limiters.antt =====
-- The map of buckets: addresses do not affect one another, no bucket outgrows its bound, and the
-- periodic cleanup never makes the limiter more generous.
use native.Mathlib.Nat.{le-div_iff_mul-le, mul-le-mul_right, div-mul-le_self}
use nflow_runtime.Common.{
  ◌∙◌, ℕ, ◌%◌, ◌+◌, ◌-◌, ◌*◌, ◌/◌, ◌≤◌, ◌<◌, ◌≡◌, refl, ◌≢◌, inl, inr, Bool, true, false, Option,
  none, some, List, [], ◌∷◌, String, eq_iff, arith, ltb, Option-cases, Bool-cases, ap, ◌⊎◌,
}
use nflow_runtime.Common.Dict.{
  lookup, insert, IsDict, lookup-insert, lookup-delete, lookup-retain, insert-IsDict, delete-IsDict,
  retain-IsDict,
}
use nflow_runtime.RateLimit.{
  RateLimitConfig, Bucket, MemoryRateLimiter, ip_window, min, refill, take_token, allow_from_bucket,
  find_bucket, allow_ip, reset_ip, is_fresh, cleanup_buckets,
}
use nflow_runtime.RateLimit.Buckets.{allow_from_bucket_bound}

pub data Call : Type 0 where
  allows : String → (created now : ℕ) → Call
  resets : String → Call
  cleans : (now : ℕ) → Call

unfoldable pub step : MemoryRateLimiter → Call → MemoryRateLimiter
step m (allows ip created now) = (allow_ip m ip created now).0
step m (resets ip) = reset_ip m ip
step m (cleans now) = cleanup_buckets m now

unfoldable pub run : MemoryRateLimiter → List Call → MemoryRateLimiter
run m [] = m
run m (c ∷ cs) = run (step m c) cs

-- The map has one bucket for an address, none above `limit + burst`.
abbrev pub WithinCap : RateLimitConfig → Bucket → Type 0
WithinCap c b = b.tokens ≤ c.ip_rate_limit + c.ip_burst_size

pub record IsBounded (m : MemoryRateLimiter) : Type 0 where
  pub distinct : IsDict m.ip_buckets
  pub capped : (ip : String) (b : Bucket) → lookup ip m.ip_buckets ≡ some b → WithinCap m.config b

find_bucket-WithinCap :
    (m : MemoryRateLimiter) (ip : String) (created : ℕ)
    → IsBounded m
    → WithinCap m.config (find_bucket m ip created)
unfolding find_bucket
find_bucket-WithinCap m ip created v = elim (Option-cases (lookup ip m.ip_buckets)) [
  | inl e ↦ rw e (omega arith)
  | inr (b, e) ↦ rw e (v.capped ip b e)
]

store-IsBounded :
    (m : MemoryRateLimiter) (ip : String) (b : Bucket)
    → IsBounded m
    → WithinCap m.config b
    → IsBounded (record m { ip_buckets = insert ip b m.ip_buckets })
store-IsBounded m ip b v h = record {
  distinct = insert-IsDict ip b m.ip_buckets v.distinct;
  capped = λ j c e. ground (arith, eq_iff ip j, lookup-insert ip j b m.ip_buckets, v.capped j c);
}

allow_ip-IsBounded :
    (m : MemoryRateLimiter) (ip : String) (created now : ℕ)
    → IsBounded m
    → IsBounded (allow_ip m ip created now).0
unfolding allow_ip
allow_ip-IsBounded m ip created now v =
    elim (Option-cases (
      allow_from_bucket (find_bucket m ip created) m.config.ip_rate_limit (ip_window m.config)
        m.config.ip_burst_size now)) [
          | inl e ↦
              rw (e, allow_ip)
                (store-IsBounded m ip (find_bucket m ip created) v
                  (find_bucket-WithinCap m ip created v))
          | inr ((b, allowed, r), e) ↦
              rw (e, allow_ip)
                (store-IsBounded m ip b v (
                  allow_from_bucket_bound (find_bucket m ip created) b m.config.ip_rate_limit
                    (ip_window m.config) m.config.ip_burst_size now r allowed
                    (find_bucket-WithinCap m ip created v) e))
        ]

-- Every operation keeps the buckets distinct and within their cap.
pub step-IsBounded : (m : MemoryRateLimiter) (c : Call) → IsBounded m → IsBounded (step m c)
unfolding step reset_ip cleanup_buckets
step-IsBounded m (allows ip created now) v = allow_ip-IsBounded m ip created now v
step-IsBounded m (resets ip) v = record {
  distinct = delete-IsDict ip m.ip_buckets v.distinct;
  capped = λ j c e. ground (arith, eq_iff ip j, lookup-delete ip j m.ip_buckets, v.capped j c);
}
step-IsBounded m (cleans now) v = record {
  distinct = retain-IsDict _ m.ip_buckets v.distinct;
  capped = λ j c e.
      let keep : Bucket → Bool = is_fresh (ip_window m.config) now in
      ground (arith, lookup-retain keep j m.ip_buckets v.distinct, v.capped j c);
}

-- Any sequence of requests, resets and cleanups of a limiter keeps one bucket for each address, and in
-- each bucket at most the limit and the burst, if both hold at first.
pub run-IsBounded : (m : MemoryRateLimiter) (cs : List Call) → IsBounded m → IsBounded (run m cs)
unfolding run
run-IsBounded m [] v = v
run-IsBounded m (c ∷ cs) v = run-IsBounded (step m c) cs (step-IsBounded m c v)

-- A request from one address leaves the bucket of every other address as it is.
pub allow_ip_isolated :
    (m : MemoryRateLimiter) (ip other : String) (created now : ℕ)
    → ip ≢ other
    → lookup other (allow_ip m ip created now).0.ip_buckets ≡ lookup other m.ip_buckets
unfolding allow_ip
allow_ip_isolated m ip other created now h =
    elim (Option-cases (
      allow_from_bucket (find_bucket m ip created) m.config.ip_rate_limit (ip_window m.config)
        m.config.ip_burst_size now)) [
          | inl e ↦
              rw (e, allow_ip)
                (ground (
                  arith,
                  eq_iff ip other,
                  lookup-insert ip other (find_bucket m ip created) m.ip_buckets,
                ))
          | inr ((b, allowed, r), e) ↦
              rw (e, allow_ip)
                (ground (arith, eq_iff ip other, lookup-insert ip other b m.ip_buckets))
        ]

-- Tokens that an address has left in the map.
abbrev pub tokens_left : Option Bucket → ℕ
tokens_left none = 0
tokens_left (some b) = b.tokens

abbrev new_bucket : (limit created : ℕ) → Bucket
new_bucket limit created = record { tokens = limit; last_fill = created }

two_windows : (lf t w : ℕ) → 0 < w → ltb (w * 2) (t - lf) ≡ true → 2 ≤ (t - lf) / w
two_windows lf t w h e = (le-div_iff_mul-le h).1 (ground arith)

more_windows :
    (lf t created now w : ℕ)
    → 0 < w
    → ltb (w * 2) (t - lf) ≡ true
    → t ≤ created
    → created ≤ now
    → (now - created) / w + 2 ≤ (now - lf) / w
more_windows lf t created now w h e p q =
    (le-div_iff_mul-le h).1 (ground (arith, div-mul-le_self (now - created) w))

more_tokens : (tokens k k' limit : ℕ) → k + 2 ≤ k' → limit + k * limit + limit ≤ tokens + k' * limit
more_tokens tokens k k' limit h = omega (arith, mul-le-mul_right {m = k + 2} {n = k'} limit h)

dropped_refill :
    (b : Bucket) (limit window burst t created now : ℕ)
    → 0 < window
    → 0 < limit
    → ltb (window * 2) (t - b.last_fill) ≡ true
    → t ≤ created
    → created ≤ now
    → (0 < (refill (new_bucket limit created) limit window burst now).tokens)
      × ((refill (new_bucket limit created) limit window burst now).tokens
          ≤ (refill b limit window burst now).tokens)
unfolding refill min
dropped_refill b limit window burst t created now h l e p q = ground (
  arith,
  more_tokens b.tokens ((now - created) / window) ((now - b.last_fill) / window) limit
      (more_windows b.last_fill t created now window h e p q),
)

-- What `AllowIP` answers, and the tokens that it leaves, as a function of the entry it finds.
served : RateLimitConfig → Option Bucket → (created now : ℕ) → Option (Bucket × Bool × ℕ)
served c o created now =
    allow_from_bucket (elim o [ none ↦ new_bucket c.ip_rate_limit created | some b ↦ b ])
      c.ip_rate_limit (ip_window c) c.ip_burst_size now

abbrev answer : Option (Bucket × Bool × ℕ) → Option (Bool × ℕ)
answer none = none
answer (some (b, allowed, r)) = some (allowed, r)

found :
    (m : MemoryRateLimiter) (ip : String) (created now : ℕ)
    → allow_from_bucket
        (find_bucket m ip created)
        m.config.ip_rate_limit
        (ip_window m.config)
        m.config.ip_burst_size
        now
      ≡ served m.config (lookup ip m.ip_buckets) created now
unfolding served find_bucket
found m ip created now = elim (Option-cases (lookup ip m.ip_buckets)) [
  | inl e ↦ rw e
  | inr (b, e) ↦ rw e
]

allow_from_bucket_some :
    (b : Bucket) (limit window burst now : ℕ)
    → 0 < window
    → allow_from_bucket b limit window burst now ≢ none
unfolding allow_from_bucket
allow_from_bucket_some b limit window burst now h = ground arith

allow_ip-served :
    (m : MemoryRateLimiter) (ip : String) (created now : ℕ)
    → 0 < ip_window m.config
    → (b : Bucket) × (r : Bool × ℕ) × (served m.config (lookup ip m.ip_buckets) created now
        ≡ some (b, r.0, r.1))
      × ((allow_ip m ip created now).1 ≡ some r)
      × (lookup ip (allow_ip m ip created now).0.ip_buckets ≡ some b)
unfolding allow_ip
allow_ip-served m ip created now h =
    elim (Option-cases (served m.config (lookup ip m.ip_buckets) created now)) [
      | inl e ↦ absurd (
          allow_from_bucket_some (find_bucket m ip created) m.config.ip_rate_limit _
            m.config.ip_burst_size now h (found m ip created now ∙ e))
      | inr ((b, allowed, r), e) ↦ (
        b,
        (allowed, r),
        e,
        rw (found m ip created now ∙ e, allow_ip) refl,
        rw (found m ip created now ∙ e, allow_ip)
            (ground (arith, eq_iff ip ip, lookup-insert ip ip b m.ip_buckets)),
      )
    ]

take_token_pos :
    (b : Bucket) (r : ℕ)
    → 0 < b.tokens
    → take_token b r ≡ (record b { tokens = b.tokens - 1 }, true, 0)
unfolding take_token
take_token_pos b r h = ground arith

spends :
    (b : Bucket) (limit window burst now : ℕ)
    → 0 < window
    → 0 < (refill b limit window burst now).tokens
    → (x : Bucket) × (allow_from_bucket b limit window burst now ≡ some (x, true, 0))
      × (x.tokens ≡ (refill b limit window burst now).tokens - 1)
unfolding allow_from_bucket
spends b limit window burst now h p =
    let after : Bucket = refill b limit window burst now in
    (
      record after { tokens = after.tokens - 1 },
      ground (arith, take_token_pos after (window - (now - b.last_fill) % window)),
      refl,
    )

served_dropped :
    (c : RateLimitConfig) (b : Bucket) (t created now : ℕ)
    → 0 < ip_window c
    → 0 < c.ip_rate_limit
    → is_fresh (ip_window c) t b ≡ false
    → t ≤ created
    → created ≤ now
    → (x : Bucket) × (y : Bucket) × (served c none created now ≡ some (x, true, 0))
      × (served c (some b) created now ≡ some (y, true, 0))
      × (x.tokens ≤ y.tokens)
unfolding served is_fresh
served_dropped c b t created now h l e p q =
    let (some_left, fewer) =
      dropped_refill b c.ip_rate_limit (ip_window c) c.ip_burst_size t created now h l
        (ground arith) p q in
    let (x, x_served, x_tokens) =
      spends (new_bucket c.ip_rate_limit created) c.ip_rate_limit (ip_window c) c.ip_burst_size now
        h some_left in
    let (y, y_served, y_tokens) =
      spends b c.ip_rate_limit (ip_window c) c.ip_burst_size now h (omega arith) in
    (x, y, x_served, y_served, omega arith)

-- What the cleanup does to the entry of one address.
cleaned :
    (m : MemoryRateLimiter) (ip : String) (t : ℕ)
    → IsBounded m
    → (lookup ip (cleanup_buckets m t).ip_buckets ≡ lookup ip m.ip_buckets)
      ⊎ ((b : Bucket) × (lookup ip m.ip_buckets ≡ some b)
          × (lookup ip (cleanup_buckets m t).ip_buckets ≡ none)
          × (is_fresh (ip_window m.config) t b ≡ false))
unfolding cleanup_buckets
cleaned m ip t v =
    let kept = lookup-retain (is_fresh (ip_window m.config) t) ip m.ip_buckets v.distinct in
    elim (Option-cases (lookup ip m.ip_buckets)) [
      | inl e ↦ inl (ground (arith, kept))
      | inr (b, e) ↦ elim (Bool-cases (is_fresh (ip_window m.config) t b)) [
        | inl fresh ↦ inl (ground (arith, kept))
        | inr stale ↦ inr (b, e, ground (arith, kept), stale)
      ]
    ]

-- Two runs of `served` on the same entry, or on a stale one and on none.
compare_served :
    (m : MemoryRateLimiter) (ip : String) (t created now : ℕ) (x y : Bucket) (r s : Bool × ℕ)
    → IsBounded m
    → 0 < ip_window m.config
    → 0 < m.config.ip_rate_limit
    → t ≤ created
    → created ≤ now
    → served m.config (lookup ip (cleanup_buckets m t).ip_buckets) created now ≡ some (x, r.0, r.1)
    → served m.config (lookup ip m.ip_buckets) created now ≡ some (y, s.0, s.1)
    → (some r ≡ some s) × (x.tokens ≤ y.tokens)
compare_served m ip t created now x y r s v h l p q sx sy = elim (cleaned m ip t v) [
  | inl same ↦ ground (arith, ap (λ o. served m.config o created now) same)
  | inr (b, there, gone, stale) ↦
      let (x', y', ex, ey, le) = served_dropped m.config b t created now h l stale p q in
      ground (
        arith,
        ap (λ o. served m.config o created now) there,
        ap (λ o. served m.config o created now) gone,
      )
]

-- Cleaning up at `t` changes no later answer, and leaves an address at most the tokens that it
-- would have had otherwise.
pub cleanup_conservative :
    (m : MemoryRateLimiter) (ip : String) (t created now : ℕ)
    → IsBounded m
    → 0 < ip_window m.config
    → 0 < m.config.ip_rate_limit
    → t ≤ created
    → created ≤ now
    → ((allow_ip (cleanup_buckets m t) ip created now).1 ≡ (allow_ip m ip created now).1)
      × (tokens_left (lookup ip (allow_ip (cleanup_buckets m t) ip created now).0.ip_buckets)
          ≤ tokens_left (lookup ip (allow_ip m ip created now).0.ip_buckets))
unfolding cleanup_buckets
cleanup_conservative m ip t created now v h l p q =
    let (x, r, sx, ax, bx) = allow_ip-served (cleanup_buckets m t) ip created now h in
    let (y, s, sy, ay, by) = allow_ip-served m ip created now h in
    let (same, fewer) = compare_served m ip t created now x y r s v h l p q sx sy in
    rw (ax, ay, bx, by) (same, fewer)
