-- ===== src/VmPool/Startup.antt =====
-- `NewVMManagerWithConfig` makes a pool that is sound from the start.
use nflow_runtime.Common.{
  ℕ, zero, suc, ◌+◌, ◌≤◌, ◌<◌, ◌≡◌, refl, sym, ap, ◌∙◌, inl, inr, List, [], ◌∷◌, ◌++◌, String,
  arith, length, length-append, All, Bool-cases, Option-cases, add-zero,
}
use nflow_runtime.Common.Int.{pos, inc}
use nflow_runtime.Common.Dict.{lookup}
use nflow_runtime.VmPool.{
  Machine, VmInstance, VmManager, has_room, empty_manager, idle_instance, preload_one, preload,
  pool_size, preload_rounds, new_vm_manager,
}
use nflow_runtime.VmPool.Capacity.{Unpooled, Distinct, Apart, IsSound, Distinct-append}

module _ (clock : ℕ → String × ℕ) where
  -- Each pooled instance comes from an earlier round.
  abbrev FromRounds : {V : Type 0} → ℕ → List (VmInstance V) → Type 0
  FromRounds i pool = All (λ x. (k : ℕ) × (k < i) × (x.id ≡ (clock k).0)) pool

  record IsLoading {V : Type 0} (i : ℕ) (m : VmManager V) : Type 0 where
    unlent : m.active_vms ≡ []
    distinct : Distinct m.pool
    rounds : FromRounds i m.pool
    room : length m.pool ≤ m.max_size
    in_use : m.stats.in_use ≡ pos 0
    available : m.stats.available ≡ pos (length m.pool)

  abbrev Injective : Type 0
  Injective = (j k : ℕ) → (clock j).0 ≡ (clock k).0 → j ≡ k

  Unpooled-next :
      {V : Type 0} (i : ℕ) (pool : List (VmInstance V))
      → Injective
      → FromRounds i pool
      → Unpooled (clock i).0 pool
  Unpooled-next i [] inj f = tt
  Unpooled-next i (x ∷ xs) inj ((k, lt, e), f) =
      (λ same. absurd (omega (arith, inj k i (sym e ∙ same))), Unpooled-next i xs inj f)

  FromRounds-suc :
      {V : Type 0} (i : ℕ) (pool : List (VmInstance V))
      → FromRounds i pool
      → FromRounds (i + 1) pool
  FromRounds-suc i [] f = tt
  FromRounds-suc i (x ∷ xs) ((k, lt, e), f) = ((k, omega arith, e), FromRounds-suc i xs f)

  FromRounds-append :
      {V : Type 0} (i : ℕ) (x : VmInstance V) (pool : List (VmInstance V))
      → x.id ≡ (clock i).0
      → FromRounds i pool
      → FromRounds (i + 1) (pool ++ x ∷ [])
  FromRounds-append i x [] e f = ((i, omega arith, e), tt)
  FromRounds-append i x (y ∷ ys) e ((k, lt, e'), f) =
      ((k, omega arith, e'), FromRounds-append i x ys e f)

  skip-IsLoading : {V : Type 0} (i : ℕ) (m : VmManager V) → IsLoading i m → IsLoading (i + 1) m
  skip-IsLoading i m v = record {
    unlent = v.unlent;
    distinct = v.distinct;
    rounds = FromRounds-suc i m.pool v.rounds;
    room = v.room;
    in_use = v.in_use;
    available = v.available;
  }

  preload_one-IsLoading :
      {V C : Type 0} (g : Machine V C) (i : ℕ) (m : VmManager V)
      → Injective
      → IsLoading i m
      → IsLoading (i + 1) (preload_one g m (clock i).0 (clock i).1)
  unfolding preload_one has_room inc idle_instance
  preload_one-IsLoading g i m inj v = elim (Option-cases g.create) [
    | inl f ↦ rw (f, preload_one) (skip-IsLoading i m v)
    | inr (vm, f) ↦ elim (Bool-cases (has_room m)) [
      | inr full ↦ rw (f, preload_one, full) (skip-IsLoading i m v)
      | inl free ↦
          rw (f, preload_one, free)
            (let grown = length-append m.pool (idle_instance vm (clock i).0 (clock i).1 ∷ []) in
              record {
                unlent = v.unlent;
                distinct =
                    Distinct-append (idle_instance vm (clock i).0 (clock i).1) m.pool
                      (Unpooled-next i m.pool inj v.rounds) v.distinct;
                rounds =
                    FromRounds-append i (idle_instance vm (clock i).0 (clock i).1) m.pool refl
                      v.rounds;
                room = ground (arith, grown);
                in_use = v.in_use;
                available = ground (arith, grown, v.available);
              })
    ]
  ]

  preload-IsLoading :
      {V C : Type 0} (g : Machine V C) (i rounds : ℕ) (m : VmManager V)
      → Injective
      → IsLoading i m
      → IsLoading (i + rounds) (preload g clock i rounds m)
  unfolding preload
  preload-IsLoading g i zero m inj v = rw add-zero v
  preload-IsLoading g i (suc rounds) m inj v = rw (← shift) (
      preload-IsLoading g (i + 1) rounds (preload_one g m (clock i).0 (clock i).1) inj
        (preload_one-IsLoading g i m inj v))
    where
      shift : i + 1 + rounds ≡ i + suc rounds
      shift = omega arith

Apart-nil : {V : Type 0} (pool : List (VmInstance V)) → Apart [] pool
unfolding lookup
Apart-nil [] = tt
Apart-nil (x ∷ xs) = (refl, Apart-nil xs)

module _ (clock : ℕ → String × ℕ) {V : Type 0} where
  loaded-IsSound : (i : ℕ) (m : VmManager V) → IsLoading clock i m → IsSound m
  loaded-IsSound i m v = record {
    keyed = rw (v.unlent) tt;
    distinct = v.distinct;
    apart = rw (v.unlent) (Apart-nil m.pool);
    room = omega (arith, v.room, ap length (v.unlent));
    in_use = v.in_use ∙ ap (λ a. pos (length a)) (sym (v.unlent));
    available = v.available;
  }

  empty-IsLoading : (max_size : ℕ) → IsLoading clock 0 (empty_manager {V = V} max_size)
  unfolding empty_manager
  empty-IsLoading max_size = record {
    unlent = refl;
    distinct = tt;
    rounds = tt;
    room = omega arith;
    in_use = refl;
    available = refl;
  }

-- A new pool is sound, if the clock gives every preloaded machine an ID of its own.
pub new_vm_manager-IsSound :
    {V C : Type 0} (g : Machine V C) (clock : ℕ → String × ℕ) (max_size preload_size : ℕ)
    → ((j k : ℕ) → (clock j).0 ≡ (clock k).0 → j ≡ k)
    → IsSound (new_vm_manager g clock max_size preload_size)
unfolding new_vm_manager
new_vm_manager-IsSound {V} g clock max_size preload_size inj = loaded-IsSound clock _ _ (
    preload-IsLoading clock g 0 (preload_rounds (pool_size max_size) preload_size)
      (empty_manager (pool_size max_size)) inj (empty-IsLoading clock (pool_size max_size)))
