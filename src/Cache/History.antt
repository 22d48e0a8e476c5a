-- ===== src/Cache/History.antt =====
-- The cache against the history of the calls that were made.
use nflow_runtime.Common.{
  ℕ, ◌+◌, ◌≤◌, ◌≡◌, refl, ap, ◌∙◌, inl, inr, false, not, Option, none, some, List, [], ◌∷◌, String,
  eq_iff, arith, ltb, if◌then◌else◌, str_eq, Bool-cases,
}
use nflow_runtime.Common.Dict.{
  lookup, insert, filter, IsDict, lookup-insert, lookup-delete, lookup-retain, insert-IsDict,
  delete-IsDict, retain-IsDict,
}
use nflow_runtime.Cache.{
  CacheItem, Cache, Computed, value, new_cache, has_expired, get, set_with_ttl, set, remove, clear,
  cleanup_expired, get_or_compute,
}

pub data Call (V : Type 0) : Type 0 where
  sets : String → V → (ttl now : ℕ) → Call V
  removes : String → Call V
  clears : Call V
  cleans : (now : ℕ) → Call V

module _ {V : Type 0} where
  unfoldable pub apply : Cache V → Call V → Cache V
  unfolding set_with_ttl remove clear cleanup_expired
  apply c (sets key v ttl now) = set_with_ttl c key v ttl now
  apply c (removes key) = remove c key
  apply c clears = clear c
  apply c (cleans now) = cleanup_expired c now

  -- The cache after the calls of a history, the latest call first.
  unfoldable pub after : (ttl : ℕ) → List (Call V) → Cache V
  unfolding apply new_cache
  after ttl [] = new_cache ttl
  after ttl (call ∷ calls) = apply (after ttl calls) call

  -- What the history says of a key: its last value, if no removal came later. Cleanups say nothing.
  unfoldable pub written : String → List (Call V) → Option (CacheItem V)
  written key [] = none
  written key (sets other v ttl now ∷ calls) =
      if str_eq other key
      then some (record { value = v; expiration = now + ttl })
      else written key calls
  written key (removes other ∷ calls) = if str_eq other key then none else written key calls
  written key (clears ∷ calls) = none
  written key (cleans now ∷ calls) = written key calls

  unfoldable pub live : (now : ℕ) → Option (CacheItem V) → Option V
  unfolding has_expired
  live now none = none
  live now (some item) = if has_expired now item then none else some item.value

  -- No cleanup comes after `now`.
  abbrev pub CleanedBy : (now : ℕ) → List (Call V) → Type 0
  CleanedBy now [] = Unit
  CleanedBy now (sets key v ttl t ∷ calls) = CleanedBy now calls
  CleanedBy now (removes key ∷ calls) = CleanedBy now calls
  CleanedBy now (clears ∷ calls) = CleanedBy now calls
  CleanedBy now (cleans t ∷ calls) = (t ≤ now) × CleanedBy now calls

  after-IsDict : (ttl : ℕ) (calls : List (Call V)) → IsDict (after ttl calls).items
  unfolding after apply new_cache set_with_ttl remove clear cleanup_expired
  after-IsDict ttl [] = tt
  after-IsDict ttl (sets key v t now ∷ calls) =
      insert-IsDict key _ (after ttl calls).items (after-IsDict ttl calls)
  after-IsDict ttl (removes key ∷ calls) =
      delete-IsDict key (after ttl calls).items (after-IsDict ttl calls)
  after-IsDict ttl (clears ∷ calls) = tt
  after-IsDict ttl (cleans now ∷ calls) =
      retain-IsDict (λ item. not (has_expired now item)) (after ttl calls).items
        (after-IsDict ttl calls)

  live-filter :
      (t now : ℕ) (o : Option (CacheItem V))
      → t ≤ now
      → live now (filter (λ item. not (has_expired t item)) o) ≡ live now o
  unfolding live has_expired
  live-filter t now none early = refl
  live-filter t now (some item) early = ground (arith, early)

  after-written :
      (ttl now : ℕ) (calls : List (Call V)) (key : String)
      → CleanedBy now calls
      → live now (lookup key (after ttl calls).items) ≡ live now (written key calls)
  unfolding after apply new_cache set_with_ttl remove clear cleanup_expired written lookup
  after-written ttl now [] key h = refl
  after-written ttl now (sets other v t s ∷ calls) key h =
      let set_value : CacheItem V = record { value = v; expiration = s + t } in
      let found = lookup-insert other key set_value (after ttl calls).items in
      elim (Bool-cases (str_eq other key)) [
        | inl same ↦ rw (found, same, written) refl
        | inr differ ↦ rw (found, differ, written) (after-written ttl now calls key h)
      ]
  after-written ttl now (removes other ∷ calls) key h =
      let found = lookup-delete other key (after ttl calls).items in
      elim (Bool-cases (str_eq other key)) [
        | inl same ↦ rw (found, same, written) refl
        | inr differ ↦ rw (found, differ, written) (after-written ttl now calls key h)
      ]
  after-written ttl now (clears ∷ calls) key h = refl
  after-written ttl now (cleans t ∷ calls) key (early, h) =
      ap (live now) (
        lookup-retain (λ item. not (has_expired t item)) key (after ttl calls).items
          (after-IsDict ttl calls))
      ∙ live-filter t now (lookup key (after ttl calls).items) early
      ∙ after-written ttl now calls key h

  get-live : (c : Cache V) (key : String) (now : ℕ) → get c key now ≡ live now (lookup key c.items)
  unfolding get live
  get-live c key now = go (lookup key c.items) refl
    where
      go :
          (o : Option (CacheItem V))
          → lookup key c.items ≡ o
          → get c key now ≡ live now (lookup key c.items)
      go none e = rw (e, get) refl
      go (some item) e = rw (e, get) refl

  -- After any calls on a new cache, `Get` at a time not before the last cleanup returns the value
  -- that was last set for the key, unless the key was removed since, or the value has expired.
  pub get-written :
      (ttl now : ℕ) (calls : List (Call V)) (key : String)
      → CleanedBy now calls
      → get (after ttl calls) key now ≡ live now (written key calls)
  get-written ttl now calls key h =
      get-live (after ttl calls) key now ∙ after-written ttl now calls key h

  get_or_compute-miss :
      {E : Type 0} (c : Cache V) (key : String) (v : V) (now later : ℕ)
      → get c key now ≡ none
      → get_or_compute {E = E} c key (value v) now later ≡ (value v, set c key v later)
  unfolding get_or_compute
  get_or_compute-miss c key v now later miss = rw (miss, get_or_compute) refl

  get-set :
      (c : Cache V) (key : String) (v : V) (now later : ℕ)
      → now ≤ later + c.ttl
      → get (set c key v later) key now ≡ some v
  unfolding get set set_with_ttl has_expired
  get-set c key v now later early =
      let item : CacheItem V = record { value = v; expiration = later + c.ttl } in
      let found : lookup key (insert key item c.items) ≡ some item =
        ground (arith, eq_iff key key, lookup-insert key key item c.items) in
      let fresh : ltb (later + c.ttl) now ≡ false = ground (arith, early) in
      rw (found, get) (rw fresh refl)

  get_or_compute-hit :
      {E : Type 0} (c : Cache V) (key : String) (v : V) (other : Computed E V) (now later : ℕ)
      → get c key now ≡ some v
      → get_or_compute c key other now later ≡ (value v, c)
  unfolding get_or_compute
  get_or_compute-hit c key v other now later hit = rw (hit, get_or_compute) refl

  -- A value that `GetOrCompute` computed after a miss answers the calls of the cache's lifetime that
  -- follows, whatever they would compute, and leaves the cache as it is.
  pub get_or_compute_twice :
      {E : Type 0} (c : Cache V) (key : String) (v : V) (other : Computed E V)
      (now later now' later' : ℕ)
      → get c key now ≡ none
      → now' ≤ later + c.ttl
      → let c' = (get_or_compute {E = E} c key (value v) now later).1 in
        get_or_compute c' key other now' later' ≡ (value v, c')
  get_or_compute_twice c key v other now later now' later' miss early =
      rw (get_or_compute-miss c key v now later miss) (
        get_or_compute-hit (set c key v later) key v other now' later'
          (get-set c key v now' later early))
