-- ===== src/VmPool.antt =====
-- engine/vm_manager.go: the pool of JavaScript machines. The machine itself, a goja runtime, is a
-- parameter. An instance is a value known by its ID: the text that `fmt.Sprintf` makes of the clock
-- enters as an argument, and so do the times, in nanoseconds. Counters are integers.
pub mod Cleanup
pub mod Capacity
pub mod Lifetime
pub mod Startup
pub mod Isolation
pub mod Race
pub mod Examples
use nflow_runtime.Common.{
  ℕ, zero, suc, ◌+◌, ◌-◌, ◌*◌, ◌/◌, String, Bool, true, false, not, Option, none, some, List, [],
  ◌∷◌, ◌++◌, ltb, leb, if◌then◌else◌, ◌==◌, length,
}
use nflow_runtime.Common.Int.{ℤ, pos, inc, dec}
use nflow_runtime.Common.Dict.{Dict, lookup, insert, delete}

-- A goja runtime of type `V` for requests of type `C`: `create` is `createVM` (`none` is an error),
-- `reset` is `resetVM`, `undefine` sets a global to undefined, `delete_globals` is the script that
-- deletes what else is global.
pub record Machine (V C : Type 0) : Type 0 where
  pub create : Option V
  pub reset : V → C → V
  pub undefine : V → String → V
  pub delete_globals : V → V

pub record VmInstance (V : Type 0) : Type 0 where
  pub vm : V
  pub id : String
  pub in_use : Bool
  pub last_used : ℕ
  pub use_count : ℕ

pub record VmStats : Type 0 where
  pub created : ℤ
  pub in_use : ℤ
  pub available : ℤ
  pub total_uses : ℤ
  pub errors : ℤ

-- The head of `pool` is what the channel yields next.
pub record VmManager (V : Type 0) : Type 0 where
  pub pool : List (VmInstance V)
  pub max_size : ℕ
  pub active_vms : Dict (VmInstance V)
  pub stats : VmStats

abbrev pub no_stats : VmStats
no_stats = record {
  created = pos 0;
  in_use = pos 0;
  available = pos 0;
  total_uses = pos 0;
  errors = pos 0;
}

module _ {V : Type 0} where
  -- `select { case m.pool <- instance: ... default: ... }`
  unfoldable pub has_room : VmManager V → Bool
  has_room m = ltb (length m.pool) m.max_size

  -- `instance.InUse = true` and the lines below it, up to `updateStats`
  unfoldable pub mark_used : VmInstance V → (now : ℕ) → VmInstance V
  mark_used i now = record i { in_use = true; last_used = now; use_count = i.use_count + 1 }

  unfoldable pub lend : VmManager V → VmInstance V → List (VmInstance V) → (now : ℕ) → VmManager V
  unfolding mark_used inc dec
  lend m i rest now = record m {
    pool = rest;
    active_vms = insert i.id (mark_used i now) m.active_vms;
    stats = record (m.stats) {
      in_use = inc m.stats.in_use;
      available = dec m.stats.available;
      total_uses = inc m.stats.total_uses;
    };
  }

  -- The receive from the pool: the oldest instance, if there is one.
  unfoldable pub take_pooled : VmManager V → (now : ℕ) → Option (VmInstance V × VmManager V)
  unfolding lend
  take_pooled m now = elim m.pool [
    | [] ↦ none
    | i ∷ rest ↦ some (mark_used i now, lend m i rest now)
  ]

  -- The test that is made, under a read lock of its own, before an instance is created.
  unfoldable pub may_create : VmManager V → Bool
  may_create m = not (leb m.max_size (length m.active_vms))

  unfoldable pub register : VmManager V → V → String → (now : ℕ) → VmInstance V × VmManager V
  unfolding inc
  register m vm id now =
      let i : VmInstance V = record {
        vm = vm;
        id = id;
        in_use = true;
        last_used = now;
        use_count = 1;
      } in
      (
        i,
        record m {
          active_vms = insert id i m.active_vms;
          stats = record (m.stats) {
            created = inc m.stats.created;
            in_use = inc m.stats.in_use;
            total_uses = inc m.stats.total_uses;
          };
        },
      )

pub data AcquireError : Type 0 where
  pool_exhausted create_failed : AcquireError

pub data Acquired (V : Type 0) : Type 0 where
  got : VmInstance V → VmManager V → Acquired V
  failed : AcquireError → VmManager V → Acquired V

module _ {V C : Type 0} (g : Machine V C) where
  unfoldable pub create : VmManager V → C → String → (now : ℕ) → Acquired V
  unfolding register inc
  create m c id now = elim g.create [
    | none ↦
        failed create_failed (record m { stats = record (m.stats) { errors = inc m.stats.errors } })
    | some vm ↦ (let (i, m') = register m vm id now in got (record i { vm = g.reset vm c }) m')
  ]

  -- The end of the wait for a release, where the pool is `m` by then: a pooled instance, or else the
  -- timeout.
  unfoldable pub end_wait : VmManager V → C → (now : ℕ) → Acquired V
  unfolding take_pooled
  end_wait m c now = elim (take_pooled m now) [
    | some (i, m') ↦ got (record i { vm = g.reset i.vm c }) m'
    | none ↦ failed pool_exhausted m
  ]

  -- `AcquireVM`; `waited` is the pool at `later`, what other calls have made of it when a wait for a
  -- release ends.
  unfoldable pub acquire_vm_waiting :
      VmManager V → (waited : VmManager V) → C → String → (now later : ℕ) → Acquired V
  unfolding create take_pooled may_create end_wait
  acquire_vm_waiting m waited c id now later = elim (take_pooled m now) [
    | some (i, m') ↦ got (record i { vm = g.reset i.vm c }) m'
    | none ↦ if may_create m then create m c id now else end_wait waited c later
  ]

  -- `AcquireVM` while nobody else uses the pool: a wait for a release then ends by its timeout.
  unfoldable pub acquire_vm : VmManager V → C → String → (now : ℕ) → Acquired V
  unfolding acquire_vm_waiting
  acquire_vm m c id now = acquire_vm_waiting m m c id now now

  abbrev sensitive_keys : List String
  sensitive_keys =
      "form" ∷ "header" ∷ "auth_session" ∷ "profile" ∷ "redis_hset" ∷ "redis_hget" ∷ "redis_hdel"
      ∷ "nflow_endpoint" ∷ "shared_var" ∷ []

  unfoldable pub undefine_all : V → List String → V
  undefine_all vm [] = vm
  undefine_all vm (k ∷ ks) = undefine_all (g.undefine vm k) ks

  unfoldable pub clear_vm : V → V
  unfolding undefine_all
  clear_vm vm = g.delete_globals (undefine_all vm sensitive_keys)

  -- The instance as `ReleaseVM` puts it back.
  unfoldable pub returned : VmInstance V → (now : ℕ) → VmInstance V
  returned i now = record i { vm = clear_vm i.vm; in_use = false; last_used = now }

  unfoldable pub release_vm : VmManager V → VmInstance V → (now : ℕ) → VmManager V
  unfolding inc dec
  release_vm m i now =
      let m' : VmManager V = record m { active_vms = delete i.id m.active_vms } in
      if has_room m
      then record m' {
        pool = m.pool ++ returned i now ∷ [];
        stats = record (m.stats) { in_use = dec m.stats.in_use; available = inc m.stats.available };
      }
      else record m' { stats = record (m.stats) { in_use = dec m.stats.in_use } }

-- As many `x--` as there are rounds.
unfoldable pub dec_by : ℕ → ℤ → ℤ
unfolding dec
dec_by zero z = z
dec_by (suc n) z = dec_by n (dec z)

-- The loop of `cleanupIdleVMs`: `rounds` receives are left, `removed` counts `toRemove`.
module _ {V : Type 0} where
  unfoldable pub is_idle : (now idle_timeout : ℕ) → VmInstance V → Bool
  is_idle now idle_timeout i = ltb idle_timeout (now - i.last_used)

  -- An empty channel returns from the whole function: the result is then `none`.
  unfoldable pub sweep :
      (rounds now idle_timeout : ℕ)
      → List (VmInstance V)
      → (removed : ℕ) → List (VmInstance V) × Option ℕ
  sweep zero now idle_timeout pool removed = (pool, some removed)
  sweep (suc rounds) now idle_timeout [] removed = ([], none)
  sweep (suc rounds) now idle_timeout (i ∷ rest) removed =
      let dropped = sweep rounds now idle_timeout rest (removed + 1) in
      let kept = sweep rounds now idle_timeout (rest ++ i ∷ []) removed in
      if is_idle now idle_timeout i then dropped else kept

  unfoldable pub after_sweep : VmManager V → List (VmInstance V) × Option ℕ → VmManager V
  unfolding dec_by
  after_sweep m (pool, none) = record m { pool = pool }
  after_sweep m (pool, some removed) = record m {
    pool = pool;
    stats = record (m.stats) { available = dec_by removed m.stats.available };
  }

  unfoldable pub cleanup_idle_vms : VmManager V → (now idle_timeout : ℕ) → VmManager V
  unfolding sweep is_idle after_sweep
  cleanup_idle_vms m now idle_timeout =
      after_sweep m (sweep (length m.pool) now idle_timeout m.pool 0)

unfoldable pub idle_instance : {V : Type 0} → V → String → (now : ℕ) → VmInstance V
idle_instance vm id now = record {
  vm = vm;
  id = id;
  in_use = false;
  last_used = now;
  use_count = 0;
}

unfoldable pub empty_manager : {V : Type 0} → (max_size : ℕ) → VmManager V
empty_manager max_size = record {
  pool = [];
  max_size = max_size;
  active_vms = [];
  stats = no_stats;
}

-- A size that is not set, here 0, gives the default.
unfoldable pub pool_size : (max_size : ℕ) → ℕ
pool_size max_size = if ltb 0 max_size then max_size else 10

unfoldable pub preload_rounds : (max_size preload_size : ℕ) → ℕ
preload_rounds max_size preload_size = if ltb 0 preload_size then preload_size else max_size / 2

module _ {V C : Type 0} (g : Machine V C) where
  unfoldable pub preload_one : VmManager V → (id : String) → (now : ℕ) → VmManager V
  unfolding has_room inc
  preload_one m id now = elim g.create [
    | none ↦ m
    | some vm ↦
        if has_room m
        then record m {
          pool = m.pool ++ idle_instance vm id now ∷ [];
          stats = record (m.stats) {
            created = inc m.stats.created;
            available = inc m.stats.available;
          };
        }
        else m
  ]

  -- The preload loop; round `i` reads the clock, which gives an ID and a time.
  unfoldable pub preload : (clock : ℕ → String × ℕ) → (i rounds : ℕ) → VmManager V → VmManager V
  unfolding preload_one
  preload clock i zero m = m
  preload clock i (suc rounds) m =
      preload clock (i + 1) rounds (preload_one m (clock i).0 (clock i).1)

  unfoldable pub new_vm_manager :
      (clock : ℕ → String × ℕ) → (max_size preload_size : ℕ) → VmManager V
  unfolding preload pool_size preload_rounds empty_manager
  new_vm_manager clock max_size preload_size =
      preload clock 0 (preload_rounds (pool_size max_size) preload_size)
        (empty_manager (pool_size max_size))
