-- ===== src/Cache.antt =====
-- cache/cache.go: the cache with expiry. Times and lifetimes are numbers of nanoseconds.
pub mod History
pub mod Examples
use nflow_runtime.Common.{
  ℕ, ◌+◌, String, Bool, true, false, not, Option, none, some, [], ltb, if◌then◌else◌, length,
}
use nflow_runtime.Common.Dict.{Dict, lookup, insert, delete, retain}

pub record CacheItem (V : Type 0) : Type 0 where
  pub value : V
  pub expiration : ℕ

pub record Cache (V : Type 0) : Type 0 where
  pub items : Dict (CacheItem V)
  pub ttl : ℕ

-- What a computation gives, or an error of type `E`.
pub data Computed (E V : Type 0) : Type 0 where
  error : E → Computed E V
  value : V → Computed E V

module _ {V : Type 0} where
  unfoldable pub new_cache : (ttl : ℕ) → Cache V
  new_cache ttl = record { items = []; ttl = ttl }

  -- `now.After(item.Expiration)`
  unfoldable pub has_expired : (now : ℕ) → CacheItem V → Bool
  has_expired now item = ltb item.expiration now

  unfoldable pub get : Cache V → String → (now : ℕ) → Option V
  unfolding has_expired
  get c key now = elim (lookup key c.items) [
    | none ↦ none
    | some item ↦ if has_expired now item then none else some item.value
  ]

  unfoldable pub set_with_ttl : Cache V → String → V → (ttl now : ℕ) → Cache V
  set_with_ttl c key v ttl now = record c {
    items = insert key (record { value = v; expiration = now + ttl }) c.items;
  }

  unfoldable pub set : Cache V → String → V → (now : ℕ) → Cache V
  unfolding set_with_ttl
  set c key v now = set_with_ttl c key v c.ttl now

  unfoldable pub remove : Cache V → String → Cache V
  remove c key = record c { items = delete key c.items }

  unfoldable pub clear : Cache V → Cache V
  clear c = record c { items = [] }

  unfoldable pub size : Cache V → ℕ
  size c = length c.items

  -- One tick of `cleanupExpired`
  unfoldable pub cleanup_expired : Cache V → (now : ℕ) → Cache V
  unfolding has_expired
  cleanup_expired c now = record c { items = retain (λ item. not (has_expired now item)) c.items }

  -- `later` is the time after the computation, which may take a while.
  unfoldable pub get_or_compute :
      {E : Type 0} → Cache V → String → Computed E V → (now later : ℕ) → Computed E V × Cache V
  unfolding get set
  get_or_compute c key computed now later = elim (get c key now) [
    | some v ↦ (value v, c)
    | none ↦ elim computed [ error e ↦ (error e, c) | value v ↦ (value v, set c key v later) ]
  ]
