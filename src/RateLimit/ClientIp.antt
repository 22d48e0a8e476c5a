-- ===== src/RateLimit/ClientIp.antt =====
-- ratelimit/middleware.go: `getClientIP`.
use Prim.Native.Char.{Char, code}
use Prim.Native.String
use text.Mathlib.TextLemmas.{nil-append, cons-append}
use nflow_runtime.Common.{
  ℕ, ◌+◌, ◌≡◌, ◌≢◌, ◌<◌, refl, false, not, none, some, String, arith, ltb, if◌then◌else◌,
  Option-cases, inl, inr,
}
use nflow_runtime.Common.Text.{
  trim_space, is_empty, count, before_first, before_last, before_last_pair, begins, tail,
}

-- The parts of a request that the function reads.
pub record RequestAddress : Type 0 where
  pub x_real_ip : String
  pub x_forwarded_for : String
  pub remote_addr : String

-- `RemoteAddr` without its port.
unfoldable pub strip_port : String → String
strip_port ip = elim (before_last b':' ip) [
  | none ↦ ip
  | some host ↦
      if ltb 1 (count b':' ip)
      then (if begins b'[' ip
          then elim (before_last_pair b']' b':' ip) [ none ↦ ip | some p ↦ tail p ]
          else ip)
      else host
]

unfoldable pub first_forwarded : String → String
first_forwarded xff = elim (before_first b',' xff) [
  | some first ↦ trim_space first
  | none ↦ trim_space xff
]

unfoldable pub get_client_ip : RequestAddress → String
get_client_ip r =
    if not (is_empty r.x_real_ip)
    then r.x_real_ip
    else if not (is_empty r.x_forwarded_for)
    then first_forwarded r.x_forwarded_for
    else strip_port r.remote_addr

count-append : (c : ℕ) (s t : String) → count c (String.◌++◌ s t) ≡ count c s + count c t
unfolding count
count-append c String.[] t = rw nil-append (omega arith)
count-append c (String.◌∷◌ ch s) t = rw cons-append (omega (arith, count-append c s t))

begins-absent : (d : ℕ) (t : String) → count d t ≡ 0 → begins d t ≡ false
unfolding begins count
begins-absent d String.[] h = refl
begins-absent d (String.◌∷◌ ch t) h = ground arith

colon_count : (port : String) → count b':' (String.◌∷◌ ":" port) ≡ 1 + count b':' port
unfolding count
colon_count port = refl

before_last-absent : (c : ℕ) (t : String) → count c t ≡ 0 → before_last c t ≡ none
unfolding before_last count
before_last-absent c String.[] h = refl
before_last-absent c (String.◌∷◌ ch t) h = ground (arith, before_last-absent c t)

before_last-append :
    (c : ℕ) (ch : Char) (s t : String)
    → code ch ≡ c
    → count c t ≡ 0
    → before_last c (String.◌++◌ s (String.◌∷◌ ch t)) ≡ some s
unfolding before_last
before_last-append c ch String.[] t e h = rw nil-append (ground (arith, before_last-absent c t))
before_last-append c ch (String.◌∷◌ x s) t e h =
    rw cons-append (ground (arith, before_last-append c ch s t e h))

before_last_pair-absent : (c d : ℕ) (t : String) → count d t ≡ 0 → before_last_pair c d t ≡ none
unfolding before_last_pair count
before_last_pair-absent c d String.[] h = refl
before_last_pair-absent c d (String.◌∷◌ ch t) h =
    ground (arith, before_last_pair-absent c d t, begins-absent d t)

before_last_pair-append :
    (c d : ℕ) (ch dh : Char) (s t : String)
    → code ch ≡ c
    → code dh ≡ d
    → c ≢ d
    → count d t ≡ 0
    → before_last_pair c d (String.◌++◌ s (String.◌∷◌ ch (String.◌∷◌ dh t))) ≡ some s
unfolding before_last_pair
before_last_pair-append c d ch dh String.[] t e f ne h =
    rw nil-append (ground (arith, before_last_pair-absent c d t))
before_last_pair-append c d ch dh (String.◌∷◌ x s) t e f ne h =
    rw cons-append (ground (arith, before_last_pair-append c d ch dh s t e f ne h))

before_last-some : (c : ℕ) (s : String) → 0 < count c s → (p : String) × (before_last c s ≡ some p)
unfolding before_last count
before_last-some c String.[] h = elim h [ ]
before_last-some c (String.◌∷◌ ch s) h = elim (Option-cases (before_last c s)) [
  | inl e ↦ (String.[], ground (arith, before_last-some c s))
  | inr (p, e) ↦ (String.◌∷◌ ch p, rw e)
]

count_bracket :
    (host port : String)
    → 0 < count b':' host
    → 1 < count b':' (String.◌∷◌ "[" (String.◌++◌ host (String.◌∷◌ "]" (String.◌∷◌ ":" port))))
unfolding count
count_bracket host port h =
    omega (arith, count-append b':' host (String.◌∷◌ "]" (String.◌∷◌ ":" port)))

-- Of an address with one colon, what stands before it is the client.
pub strip_port_v4 :
    (host port : String)
    → count b':' host ≡ 0
    → count b':' port ≡ 0
    → strip_port (String.◌++◌ host (String.◌∷◌ ":" port)) ≡ host
unfolding strip_port
strip_port_v4 host port h p = ground (
  arith,
  before_last-append b':' ":" host port refl p,
  count-append b':' host (String.◌∷◌ ":" port),
  colon_count port,
)

-- Of an address "[host]:port" whose host holds a colon, the host is the client.
pub strip_port_v6 :
    (host port : String)
    → 0 < count b':' host
    → count b':' port ≡ 0
    → strip_port (String.◌∷◌ "[" (String.◌++◌ host (String.◌∷◌ "]" (String.◌∷◌ ":" port)))) ≡ host
unfolding strip_port begins tail
strip_port_v6 host port h p =
    let rest : String = String.◌∷◌ "]" (String.◌∷◌ ":" port) in
    let (some_host, found) =
      before_last-some b':' (String.◌∷◌ "[" (String.◌++◌ host rest))
        (omega (arith, count_bracket host port h)) in
    ground (
      arith,
      found,
      count_bracket host port h,
      rw cons-append at (
          before_last_pair-append b']' b':' "]" ":" (String.◌∷◌ "[" host) port refl refl
            (omega arith) p),
    )
