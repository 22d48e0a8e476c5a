-- ===== src/RateLimit/Examples.antt =====
-- Runs of the rate limiter, and its theorems at concrete inputs.
use nflow_runtime.Common.{
  ℕ, ◌+◌, ◌*◌, ◌/◌, ◌≤◌, ◌≡◌, ◌≢◌, refl, ◌↔◌, true, false, Option, none, some, List, [], ◌∷◌,
  String, arith, eq_iff,
}
use nflow_runtime.Common.Dict.{lookup, insert}
use nflow_runtime.Common.Text.{split, trim_space, is_empty}
use nflow_runtime.RateLimit.{
  RateLimitConfig, Bucket, MemoryRateLimiter, minute, refill, take_token, find_bucket,
  allow_from_bucket, allow_ip,
}
use nflow_runtime.RateLimit.Buckets.{count_allowed, count_allowed_bound}
use nflow_runtime.RateLimit.Limiters.{allows, resets, cleans, run, IsBounded, run-IsBounded}
use nflow_runtime.RateLimit.Redis.{RedisClient, CountsEntries}
use nflow_runtime.RateLimit.Exclusions.{
  Net, any_path, path_matches, is_ip_excluded, is_path_excluded,
}
use nflow_runtime.RateLimit.ClientIp.{get_client_ip}
use nflow_runtime.RateLimit.Middleware.{memory, Request, next, TooManyRequests, allow, middleware}
use nflow_runtime.RateLimit.Waiting.{IsLimited, middleware-retry}

-- One request a minute, with room for one more.
abbrev strict : RateLimitConfig
strict = record {
  enabled = true;
  ip_rate_limit = 1;
  ip_window_minutes = 1;
  ip_burst_size = 1;
  backend = "memory";
  cleanup_interval = 10;
  retry_after_header = true;
  error_message = "";
  excluded_ips = "";
  excluded_paths = "/health, /metrics";
}

abbrev full : Bucket
full = record { tokens = 1; last_fill = 0 }

abbrev spent : Bucket
spent = record { tokens = 0; last_fill = 0 }

count_allowed_bound_example :
    count_allowed full 1 minute 1 (5 ∷ 6 ∷ minute ∷ (minute + 1) ∷ [])
    ≤ 1 + (minute + 2) / minute * 1
count_allowed_bound_example =
    count_allowed_bound full 1 minute 1 0 (minute + 2) (5 ∷ 6 ∷ minute ∷ (minute + 1) ∷ [])
      (omega arith) (omega arith) (omega arith)

refused_spent : allow_from_bucket spent 1 minute 1 7 ≡ some (spent, false, 59_999_999_993)
unfolding allow_from_bucket take_token refill
refused_spent = refl

abbrev idle : MemoryRateLimiter
idle = record { config = strict; ip_buckets = ("10.0.0.1", spent) ∷ []; closed = false }

idle-IsBounded : IsBounded idle
unfolding lookup
idle-IsBounded = record {
  distinct = (refl, tt);
  capped = λ ip b e. ground (arith, eq_iff "10.0.0.1" ip);
}

run-IsBounded_example :
    IsBounded (run idle (allows "10.0.0.1" 9 9 ∷ resets "10.0.0.1" ∷ cleans 10 ∷ []))
run-IsBounded_example =
    run-IsBounded idle (allows "10.0.0.1" 9 9 ∷ resets "10.0.0.1" ∷ cleans 10 ∷ []) idle-IsBounded

distinct_ips : ◌≢◌ {A = String} "10.0.0.2" "10.0.0.1"
distinct_ips = ground (arith, eq_iff "10.0.0.2" "10.0.0.1")

-- A sorted set that keeps the scores under one key; the members are not kept.
abbrev scores : RedisClient (List ℕ)
scores = record {
  z_rem_range_by_score = λ s key max. s;
  z_card = λ s key. some (size s);
  z_range_first = λ s key. first s;
  z_add = λ s key score member. score ∷ s;
  expire = λ s key after. s;
  del = λ s key. [];
}
  where
    size : List ℕ → ℕ
    size [] = 0
    size (x ∷ xs) = 1 + size xs

    first : List ℕ → Option (List String)
    first [] = some []
    first (x ∷ xs) = some ("m" ∷ [])

scores-CountsEntries : CountsEntries scores
scores-CountsEntries = record {
  prune_le = λ s key max n m h e. ground arith;
  add_le = λ s key score member n m h e. ground arith;
  add_some = λ s key score member n h. (_, refl);
  expire_same = λ s key after. refl;
}

abbrev no_net : Net ℕ
no_net = record { parse_ip = λ s. none; cidr_contains = λ s ip. false }

abbrev ask : String → Request
ask path = record {
  path = path;
  address = record { x_real_ip = "10.0.0.1"; x_forwarded_for = ""; remote_addr = "" };
}

exempt_path : is_path_excluded "/health" "/health, /metrics" ≡ true
unfolding is_path_excluded any_path path_matches is_empty split trim_space
exempt_path = refl

ask-IsLimited : IsLimited no_net strict (ask "/app")
unfolding is_path_excluded any_path path_matches is_empty split trim_space is_ip_excluded
ask-IsLimited = record { enabled = refl; path = refl; ip = refl }

abbrev told : TooManyRequests
told = record {
  retry_after_header = some 59;
  limit_header = 1;
  remaining_header = 0;
  reset_header = 60;
  error = "Rate limit exceeded. Please try again later.";
  retry_after = 59;
}

middleware-retry_example :
    (r : ℕ) × (59 ≡ r / 1_000_000_000)
    × ((created' later replied' : ℕ)
        → 7 ≤ later
        → ((middleware {S = ℕ} no_net strict (memory idle) (ask "/app") created' later replied').1
            ≡ next)
          ↔ (7 + r ≤ later))
unfolding middleware allow allow_ip allow_from_bucket find_bucket refill take_token lookup insert
    is_ip_excluded get_client_ip is_path_excluded any_path path_matches is_empty split trim_space
middleware-retry_example =
    middleware-retry {S = ℕ} no_net strict idle idle (ask "/app") 7 7 7 told ask-IsLimited refl
      (omega arith) (omega arith) refl
