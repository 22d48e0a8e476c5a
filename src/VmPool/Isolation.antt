-- ===== src/VmPool/Isolation.antt =====
-- What one request leaves in a machine does not reach the next: only cleared or new machines are
-- lent.
use nflow_runtime.Common.{
  ℕ, zero, suc, ◌+◌, ◌≡◌, refl, ◌⊎◌, inl, inr, some, List, [], ◌∷◌, ◌++◌, String, arith, All,
  All-append, Bool-cases, Option-cases,
}
use nflow_runtime.VmPool.{
  Machine, VmInstance, VmManager, has_room, mark_used, lend, take_pooled, may_create, register, got,
  create, end_wait, acquire_vm_waiting, acquire_vm, clear_vm, returned, release_vm, is_idle,
  idle_instance, empty_manager, preload_one, preload, preload_rounds, pool_size, new_vm_manager,
}
use nflow_runtime.VmPool.Cleanup.{in_time, cleanup_idle_vms_lem}
use nflow_runtime.VmPool.Lifetime.{
  after, Step, acquires, ends_wait, releases, cleans, Reach, here, next, List-cases,
}

module _ {V C : Type 0} (g : Machine V C) where
  -- As it was made, or as `clearVM` left it.
  abbrev pub IsClean : V → Type 0
  IsClean v = (g.create ≡ some v) ⊎ ((u : V) × (v ≡ clear_vm g u))

  abbrev pub AllClean : VmManager V → Type 0
  AllClean m = All (λ i. IsClean i.vm) m.pool

  register-pool :
      (m : VmManager V) (c : C) (id : String) (now : ℕ)
      → (after (create g m c id now)).pool ≡ m.pool
  unfolding create register
  register-pool m c id now = ground arith

  end_wait-AllClean :
      (m : VmManager V) (c : C) (now : ℕ) → AllClean m → AllClean (after (end_wait g m c now))
  unfolding end_wait take_pooled lend
  end_wait-AllClean m c now v = elim (List-cases m.pool) [
    | inr (i, rest, e) ↦ rw (e, end_wait, take_pooled) (rw e at v).1
    | inl e ↦ rw (e, end_wait, take_pooled) v
  ]

  acquire_vm-AllClean :
      (m : VmManager V) (c : C) (id : String) (now : ℕ)
      → AllClean m
      → AllClean (after (acquire_vm g m c id now))
  unfolding acquire_vm acquire_vm_waiting take_pooled lend
  acquire_vm-AllClean m c id now v = elim (List-cases m.pool) [
    | inr (i, rest, e) ↦ rw (e, acquire_vm, acquire_vm_waiting, take_pooled) (rw e at v).1
    | inl e ↦ elim (Bool-cases (may_create m)) [
      | inl free ↦
          rw (e, acquire_vm, acquire_vm_waiting, take_pooled, free)
            (rw (register-pool m c id now) v)
      | inr full ↦
          rw (e, acquire_vm, acquire_vm_waiting, take_pooled, full) (end_wait-AllClean m c now v)
    ]
  ]

  release_vm-AllClean :
      (m : VmManager V) (i : VmInstance V) (now : ℕ) → AllClean m → AllClean (release_vm g m i now)
  unfolding release_vm returned
  release_vm-AllClean m i now v = elim (Bool-cases (has_room m)) [
    | inl free ↦
        rw (free, release_vm)
          (All-append (λ (x : VmInstance V). IsClean x.vm) m.pool (returned g i now ∷ []) v
            (inr (i.vm, refl), tt))
    | inr full ↦ rw (full, release_vm) v
  ]

  in_time-AllClean :
      (now idle_timeout : ℕ) (pool : List (VmInstance V))
      → All (λ i. IsClean i.vm) pool
      → All (λ i. IsClean i.vm) (in_time now idle_timeout pool)
  unfolding in_time
  in_time-AllClean now idle_timeout [] v = tt
  in_time-AllClean now idle_timeout (i ∷ is) (p, v) =
      elim (Bool-cases (is_idle now idle_timeout i)) [
        | inl idle ↦ rw (idle, in_time) (in_time-AllClean now idle_timeout is v)
        | inr live ↦ rw (live, in_time) (p, in_time-AllClean now idle_timeout is v)
      ]

  Step-AllClean : {m n : VmManager V} → Step g m n → AllClean m → AllClean n
  Step-AllClean (acquires m c id now fresh) v = acquire_vm-AllClean m c id now v
  Step-AllClean (ends_wait m c now) v = end_wait-AllClean m c now v
  Step-AllClean (releases m i j now held) v = release_vm-AllClean m i now v
  Step-AllClean (cleans m now idle_timeout) v =
      rw (cleanup_idle_vms_lem m now idle_timeout) (in_time-AllClean now idle_timeout m.pool v)

  -- Every call keeps the pooled machines clean.
  pub Reach-AllClean : {m n : VmManager V} → AllClean m → Reach g m n → AllClean n
  Reach-AllClean v here = v
  Reach-AllClean v (next r s) = Step-AllClean s (Reach-AllClean v r)

  -- A round adds nothing, or an instance with a new machine.
  preload_one-pool :
      (m : VmManager V) (id : String) (now : ℕ)
      → ((preload_one g m id now).pool ≡ m.pool)
        ⊎ ((vm : V) × (g.create ≡ some vm)
            × ((preload_one g m id now).pool ≡ m.pool ++ idle_instance vm id now ∷ []))
  unfolding preload_one
  preload_one-pool m id now = elim (Option-cases g.create) [
    | inl f ↦ inl (rw (f, preload_one) refl)
    | inr (vm, f) ↦ elim (Bool-cases (has_room m)) [
      | inr full ↦ inl (rw (f, preload_one, full) refl)
      | inl free ↦ inr (vm, f, rw (f, preload_one, free) refl)
    ]
  ]

  preload_one-AllClean :
      (m : VmManager V) (id : String) (now : ℕ) → AllClean m → AllClean (preload_one g m id now)
  unfolding idle_instance
  preload_one-AllClean m id now v = elim (preload_one-pool m id now) [
    | inl same ↦ rw same v
    | inr (vm, made, grown) ↦ rw grown (
        All-append (λ (x : VmInstance V). IsClean x.vm) m.pool (idle_instance vm id now ∷ []) v
          (inl made, tt))
  ]

  preload-AllClean :
      (clock : ℕ → String × ℕ) (i rounds : ℕ) (m : VmManager V)
      → AllClean m
      → AllClean (preload g clock i rounds m)
  unfolding preload
  preload-AllClean clock i zero m v = v
  preload-AllClean clock i (suc rounds) m v =
      preload-AllClean clock (i + 1) rounds (preload_one g m (clock i).0 (clock i).1)
        (preload_one-AllClean m (clock i).0 (clock i).1 v)

  pub new_vm_manager-AllClean :
      (clock : ℕ → String × ℕ) (max_size preload_size : ℕ)
      → AllClean (new_vm_manager g clock max_size preload_size)
  unfolding new_vm_manager empty_manager
  new_vm_manager-AllClean clock max_size preload_size =
      preload-AllClean clock 0 (preload_rounds (pool_size max_size) preload_size)
        (empty_manager (pool_size max_size)) tt

-- Where the machine of an instance comes from.
acquire_vm-got :
    {V C : Type 0} (g : Machine V C) (m m' : VmManager V) (c : C) (id : String) (now : ℕ)
    (i : VmInstance V)
    → acquire_vm g m c id now ≡ got i m'
    → ((j : VmInstance V) × (rest : List (VmInstance V)) × (m.pool ≡ j ∷ rest)
        × (i.vm ≡ g.reset j.vm c))
      ⊎ ((vm : V) × (g.create ≡ some vm) × (i.vm ≡ g.reset vm c))
unfolding acquire_vm acquire_vm_waiting end_wait take_pooled create register mark_used
acquire_vm-got g m m' c id now i e = elim (List-cases m.pool) [
  | inr (j, rest, f) ↦ inl (j, rest, f, ground (arith, f))
  | inl f ↦ elim (Option-cases g.create) [
    | inl broken ↦ absurd (ground (arith, f, broken))
    | inr (vm, made) ↦ inr (vm, made, ground (arith, f, made))
  ]
]

-- In a pool that was made by `NewVMManagerWithConfig` and used by any calls and ends of waits, one at a
-- time, a request always gets a machine that was new or cleared, set up for that request.
pub acquire_vm-IsClean :
    {V C : Type 0} (g : Machine V C) (clock : ℕ → String × ℕ) (max_size preload_size : ℕ)
    (m m' : VmManager V) (c : C) (id : String) (now : ℕ) (i : VmInstance V)
    → Reach g (new_vm_manager g clock max_size preload_size) m
    → acquire_vm g m c id now ≡ got i m'
    → (u : V) × IsClean g u × (i.vm ≡ g.reset u c)
acquire_vm-IsClean g clock max_size preload_size m m' c id now i r e =
    let v = Reach-AllClean g (new_vm_manager-AllClean g clock max_size preload_size) r in
    elim (acquire_vm-got g m m' c id now i e) [
      | inl (j, rest, f, set_up) ↦ (j.vm, (rw f at v).0, set_up)
      | inr (vm, made, set_up) ↦ (vm, inl made, set_up)
    ]
