-- ===== src/RateLimit/Buckets.antt =====
-- One token bucket: its bound, the rate that it enforces, and what `Retry-After` promises.
use native.Mathlib.Nat.{le-div_iff_mul-le, div-mul-le_self, mul-le-mul_right, mod-eq_of_lt}
use nflow_runtime.Common.{
  ℕ, ◌∙◌, ◌+◌, ◌-◌, ◌*◌, ◌/◌, ◌≤◌, ◌<◌, ◌≡◌, ◌⊎◌, inl, inr, Bool, true, false, Option, none, some,
  List, [], ◌∷◌, arith, Option-cases, zero, suc, ltb, leb,
}
use nflow_runtime.RateLimit.{min, Bucket, refill, take_token, allow_from_bucket}

-- Every bucket holds at most `limit + burst` tokens.
pub allow_from_bucket_bound :
    (b b' : Bucket) (limit window burst now retry_after : ℕ) (allowed : Bool)
    → b.tokens ≤ limit + burst
    → allow_from_bucket b limit window burst now ≡ some (b', allowed, retry_after)
    → b'.tokens ≤ limit + burst
unfolding allow_from_bucket refill take_token
allow_from_bucket_bound b b' limit window burst now retry_after allowed h e = ground arith

weight : Bool → ℕ
weight true = 1
weight false = 0

-- How many of the requests at the given times one bucket lets through.
pub count_allowed : Bucket → (limit window burst : ℕ) → List ℕ → ℕ
count_allowed b limit window burst [] = 0
count_allowed b limit window burst (now ∷ later) =
    elim (allow_from_bucket b limit window burst now) [
      | none ↦ 0
      | some (b', allowed, _) ↦ weight allowed + count_allowed b' limit window burst later
    ]

abbrev pub Ordered : ℕ → List ℕ → ℕ → Type 0
Ordered from [] until = from ≤ until
Ordered from (t ∷ ts) until = (from ≤ t) × Ordered t ts until

Ordered-le : (from : ℕ) (times : List ℕ) (until : ℕ) → Ordered from times until → from ≤ until
Ordered-le from [] until h = h
Ordered-le from (t ∷ ts) until (p, h) = omega (arith, Ordered-le t ts until h)

div_superadd : (a b w : ℕ) → 0 < w → a / w + b / w ≤ (a + b) / w
div_superadd a b w h =
    (le-div_iff_mul-le h).1 (omega (arith, div-mul-le_self a w, div-mul-le_self b w))

-- One request: without a refill the tokens pay for it; a refill adds `limit` for each full window.
allow_from_bucket_step :
    (b b' : Bucket) (limit window burst now retry_after : ℕ) (allowed : Bool)
    → allow_from_bucket b limit window burst now ≡ some (b', allowed, retry_after)
    → ((weight allowed + b'.tokens ≤ b.tokens) × (b'.last_fill ≡ b.last_fill))
      ⊎ ((weight allowed + b'.tokens ≤ b.tokens + (now - b.last_fill) / window * limit)
          × (b'.last_fill ≡ now))
unfolding allow_from_bucket refill take_token min weight
allow_from_bucket_step b b' limit window burst now retry_after allowed e = ground arith

scale : (x y z l : ℕ) → x + y ≤ z → x * l + y * l ≤ z * l
scale x y z l h = omega (arith, mul-le-mul_right l h)

later_windows :
    (lf now until w limit : ℕ)
    → 0 < w
    → lf ≤ now
    → now ≤ until
    → (now - lf) / w * limit + (until - now) / w * limit ≤ (until - lf) / w * limit
later_windows lf now until w limit h p q =
    scale ((now - lf) / w) ((until - now) / w) ((until - lf) / w) limit
      (rw regroup at (div_superadd (now - lf) (until - now) w h))
  where
    regroup : now - lf + (until - now) ≡ until - lf
    regroup = omega arith

-- What a bucket can still let through until a given time.
abbrev potential : Bucket → (limit window until : ℕ) → ℕ
potential b limit window until = b.tokens + (until - b.last_fill) / window * limit

potential_step :
    (b b' : Bucket) (limit window burst now until retry_after : ℕ) (allowed : Bool)
    → 0 < window
    → b.last_fill ≤ now
    → now ≤ until
    → allow_from_bucket b limit window burst now ≡ some (b', allowed, retry_after)
    → (weight allowed + potential b' limit window until ≤ potential b limit window until)
      × (b'.last_fill ≤ now)
potential_step b b' limit window burst now until retry_after allowed h p q e =
    elim (allow_from_bucket_step b b' limit window burst now retry_after allowed e) [
      | inl (paid, same) ↦ rw same (omega arith, p)
      | inr (paid, filled) ↦
          rw filled
            (omega (arith, later_windows b.last_fill now until window limit h p q), omega arith)
    ]

-- From any state, at most `tokens` requests and `limit` more for each full window since the last
-- refill are let through, whatever the burst size, however the requests are spread in time.
pub count_allowed_bound :
    (b : Bucket) (limit window burst from until : ℕ) (times : List ℕ)
    → 0 < window
    → b.last_fill ≤ from
    → Ordered from times until
    → count_allowed b limit window burst times ≤ b.tokens + (until - b.last_fill) / window * limit
unfolding count_allowed
count_allowed_bound b limit window burst from until [] h p o = omega arith
count_allowed_bound b limit window burst from until (now ∷ later) h p (le, o) =
    elim (Option-cases (allow_from_bucket b limit window burst now)) [
      | inl e ↦ rw (e, count_allowed) (omega arith)
      | inr ((b', allowed, r), e) ↦
          let (pays, filled) =
            potential_step b b' limit window burst now until r allowed h (omega arith)
              (Ordered-le now later until o) e in
          rw (e, count_allowed)
            (omega (arith, count_allowed_bound b' limit window burst now until later h filled o))
    ]

-- Whether a request was let through.
abbrev pub is_allowed : Option (Bucket × Bool × ℕ) → Bool
is_allowed none = false
is_allowed (some (b, allowed, retry_after)) = allowed

pays : (windows limit : ℕ) → 0 < limit → ltb 0 (windows * limit) ≡ ltb 0 windows
pays zero limit h = ground arith
pays (suc n) limit h = ground arith

refill_pays :
    (elapsed window limit : ℕ)
    → 0 < window
    → 0 < limit
    → ltb 0 (elapsed / window * limit) ≡ leb window elapsed
refill_pays elapsed window limit h p =
    pays (elapsed / window) limit p
    ∙ ground (arith, le-div_iff_mul-le {k = window} {x = 1} {y = elapsed} h)

-- A refusal means that no token is left and no full window has passed.
refused_state :
    (b b' : Bucket) (limit window burst now retry_after : ℕ)
    → 0 < limit
    → allow_from_bucket b limit window burst now ≡ some (b', false, retry_after)
    → (0 < window)
      × (b'.tokens ≡ 0)
      × (b'.last_fill ≡ b.last_fill)
      × (now - b.last_fill < window)
      × (retry_after + (now - b.last_fill) ≡ window)
unfolding allow_from_bucket refill take_token min
refused_state b b' limit window burst now retry_after h e = ground (
  arith,
  refill_pays (now - b.last_fill) window limit,
  mod-eq_of_lt {n = now - b.last_fill} {m = window},
)

empty_bucket :
    (b : Bucket) (limit window burst later : ℕ)
    → 0 < window
    → 0 < limit
    → b.tokens ≡ 0
    → is_allowed (allow_from_bucket b limit window burst later) ≡ leb window (later - b.last_fill)
unfolding allow_from_bucket refill take_token min
empty_bucket b limit window burst later h p e =
    ground (arith, refill_pays (later - b.last_fill) window limit h p)

-- `Retry-After` is exact: after a refusal, and with no other request in between, a later request
-- is let through if and only if it comes `retry_after` or more after the refused one.
pub retry_after_exact :
    (b b' : Bucket) (limit window burst now later retry_after : ℕ)
    → 0 < limit
    → b.last_fill ≤ now
    → now ≤ later
    → allow_from_bucket b limit window burst now ≡ some (b', false, retry_after)
    → is_allowed (allow_from_bucket b' limit window burst later) ≡ leb (now + retry_after) later
retry_after_exact b b' limit window burst now later retry_after h p q e =
    let (pos, spent, same, short, wait) =
      refused_state b b' limit window burst now retry_after h e in
    empty_bucket b' limit window burst later pos h spent ∙ ground arith
