-- ===== src/RateLimit/Redis.antt =====
-- ratelimit/ratelimit.go: the limiter over a Redis sorted set. The client is a parameter: a state
-- and the commands that the limiter sends.
use Prim.Native.String
use nflow_runtime.Common.{
  ℕ, ◌+◌, ◌-◌, ◌/◌, ◌≤◌, ◌≡◌, Bool, true, false, Option, none, some, List, [], ◌∷◌, String, arith,
  leb, if◌then◌else◌,
}
use nflow_runtime.RateLimit.{RateLimitConfig, ip_window}

-- `none` where the command returns an error.
pub record RedisClient (S : Type 0) : Type 0 where
  pub z_rem_range_by_score : S → (key : String) → (max : ℕ) → S
  pub z_card : S → (key : String) → Option ℕ
  pub z_range_first : S → (key : String) → Option (List String)
  pub z_add : S → (key : String) → (score member : ℕ) → S
  pub expire : S → (key : String) → (after : ℕ) → S
  pub del : S → (key : String) → S

-- time.Time.Unix of nanoseconds
abbrev unix : ℕ → ℕ
unix t = t / 1_000_000_000

unfoldable pub key_of : String → String
key_of ip = String.◌++◌ "ratelimit:ip:" ip

module _ {S : Type 0} (r : RedisClient S) where
  -- The two ways to refuse: with a listed oldest entry, and without.
  unfoldable pub refuse : Option (List String) → (window window_start now : ℕ) → ℕ
  refuse none window window_start now = window
  refuse (some []) window window_start now = window
  refuse (some (_ ∷ _)) window window_start now = window - (now - window_start)

  -- The entries up to the start of the window are dropped first.
  unfoldable pub prune : S → (key : String) → (window_start : ℕ) → S
  prune s key window_start = r.z_rem_range_by_score s key (unix window_start)

  unfoldable pub decide : S → (key : String) → (limit window window_start now : ℕ) → S × Bool × ℕ
  decide s key limit window window_start now = elim (r.z_card s key) [
    | none ↦ (s, true, 0)
    | some count ↦
        if leb limit count
        then (s, false, refuse (r.z_range_first s key) window window_start now)
        else (r.expire (r.z_add s key (unix now) now) key window, true, 0)
  ]

  unfoldable pub check_limit : S → (key : String) → (limit window now : ℕ) → S × Bool × ℕ
  unfolding prune decide refuse
  check_limit s key limit window now =
      decide (prune s key (now - window)) key limit window (now - window) now

  unfoldable pub allow_ip_redis : RateLimitConfig → S → String → (now : ℕ) → S × Bool × ℕ
  allow_ip_redis config s ip now =
      check_limit s (key_of ip) config.ip_rate_limit (ip_window config) now

  unfoldable pub reset_ip_redis : S → String → S
  reset_ip_redis s ip = r.del s (key_of ip)

-- What the limiter relies on: pruning adds no entry, adding adds at most one, and a key's expiry
-- does not change its entries.
pub record CountsEntries {S : Type 0} (r : RedisClient S) : Type 0 where
  pub prune_le :
      (s : S) (key : String) (max n m : ℕ)
      → r.z_card s key ≡ some n
      → r.z_card (r.z_rem_range_by_score s key max) key ≡ some m
      → m ≤ n
  pub add_le :
      (s : S) (key : String) (score member n m : ℕ)
      → r.z_card s key ≡ some n
      → r.z_card (r.z_add s key score member) key ≡ some m
      → m ≤ n + 1
  pub add_some :
      (s : S) (key : String) (score member n : ℕ)
      → r.z_card s key ≡ some n
      → (m : ℕ) × (r.z_card (r.z_add s key score member) key ≡ some m)
  pub expire_same :
      (s : S) (key : String) (after : ℕ) → r.z_card (r.expire s key after) key ≡ r.z_card s key

decide_bound :
    {S : Type 0} (r : RedisClient S) (laws : CountsEntries r) (s : S) (key : String)
    (limit window window_start now n m : ℕ)
    → r.z_card s key ≡ some n
    → n ≤ limit
    → r.z_card (decide r s key limit window window_start now).0 key ≡ some m
    → m ≤ limit
unfolding decide
decide_bound r laws s key limit window window_start now n m h le e =
    let (k, added) = laws.add_some s key (unix now) now n h in
    ground (
      arith,
      laws.expire_same (r.z_add s key (unix now) now) key window,
      laws.add_le s key (unix now) now n k h added,
      added,
    )

-- A call never leaves more than `limit` entries under a key that had no more before it.
pub check_limit_bound :
    {S : Type 0} (r : RedisClient S) (laws : CountsEntries r) (s : S) (key : String)
    (limit window now n k m : ℕ)
    → r.z_card s key ≡ some n
    → n ≤ limit
    → r.z_card (prune r s key (now - window)) key ≡ some k
    → r.z_card (check_limit r s key limit window now).0 key ≡ some m
    → m ≤ limit
unfolding check_limit prune
check_limit_bound r laws s key limit window now n k m h le p e =
    decide_bound r laws (prune r s key (now - window)) key limit window (now - window) now k m p
      (omega (arith, laws.prune_le s key (unix (now - window)) n k h p)) e

-- A refusal that found an oldest entry always tells the client to wait for no time at all, whatever
-- that entry's age.
pub check_limit_no_wait :
    {S : Type 0} (r : RedisClient S) (s s' : S) (key oldest : String) (rest : List String)
    (limit window now retry_after : ℕ)
    → window ≤ now
    → r.z_range_first (prune r s key (now - window)) key ≡ some (oldest ∷ rest)
    → check_limit r s key limit window now ≡ (s', false, retry_after)
    → retry_after ≡ 0
unfolding check_limit prune
check_limit_no_wait r s s' key oldest rest limit window now retry_after le found e =
    ground (arith, found)
