-- ===== src/VmPool/Lifetime.antt =====
-- The pool from its creation through any sequence of calls, one at a time; a call that waits for a
-- release is two, with the calls of others between.
use nflow_runtime.Common.{
  ℕ, zero, suc, ◌+◌, ◌≤◌, ◌≡◌, refl, ap, zero-add, ◌∙◌, ◌↔◌, ◌⊎◌, inl, inr, true, none, some, List,
  [], ◌∷◌, String, arith, length, Bool-cases, Option-cases,
}
use nflow_runtime.Common.Int.{pos, inc, dec}
use nflow_runtime.Common.Dict.{Dict, lookup}
use nflow_runtime.VmPool.{
  Machine, VmInstance, VmManager, take_pooled, may_create, pool_exhausted, Acquired, got, failed,
  create, end_wait, acquire_vm_waiting, acquire_vm, release_vm, dec_by, cleanup_idle_vms,
}
use nflow_runtime.VmPool.Cleanup.{in_time, count_idle, length-in_time, cleanup_idle_vms_lem}
use nflow_runtime.VmPool.Capacity.{
  Unpooled, Distinct, Apart, IsSound, lend-IsSound, register-IsSound, release_vm_lem,
}

abbrev pub after : {V : Type 0} → Acquired V → VmManager V
after (got i m) = m
after (failed e m) = m

-- One call, or the end of a wait for a release. A new instance gets an ID that is not in use; only a lent instance is released, with
-- whatever the request has made of its machine.
pub data Step {V C : Type 0} (g : Machine V C) : VmManager V → VmManager V → Type 0 where
  acquires :
      (m : VmManager V) (c : C) (id : String) (now : ℕ)
      → lookup id m.active_vms ≡ none
      → Step g m (after (acquire_vm g m c id now))
  ends_wait : (m : VmManager V) (c : C) (now : ℕ) → Step g m (after (end_wait g m c now))
  releases :
      (m : VmManager V) (i j : VmInstance V) (now : ℕ)
      → lookup i.id m.active_vms ≡ some j
      → Step g m (release_vm g m i now)
  cleans : (m : VmManager V) (now idle_timeout : ℕ) → Step g m (cleanup_idle_vms m now idle_timeout)

pub data Reach {V C : Type 0} (g : Machine V C) (s : VmManager V) : VmManager V → Type 0 where
  here : Reach g s s
  next : {m n : VmManager V} → Reach g s m → Step g m n → Reach g s n

errors-IsSound :
    {V : Type 0} (m : VmManager V)
    → IsSound m
    → IsSound (record m { stats = record (m.stats) { errors = inc m.stats.errors } })
errors-IsSound m v = record {
  keyed = v.keyed;
  distinct = v.distinct;
  apart = v.apart;
  room = v.room;
  in_use = v.in_use;
  available = v.available;
}

create-IsSound :
    {V C : Type 0} (g : Machine V C) (m : VmManager V) (c : C) (id : String) (now : ℕ)
    → IsSound m
    → m.pool ≡ []
    → may_create m ≡ true
    → lookup id m.active_vms ≡ none
    → IsSound (after (create g m c id now))
unfolding create
create-IsSound g m c id now v e free fresh = elim (Option-cases g.create) [
  | inl f ↦ rw (f, create) (errors-IsSound m v)
  | inr (vm, f) ↦ rw (f, create) (register-IsSound m vm id now v e free fresh)
]

pub List-cases :
    {A : Type 0} (xs : List A) → (xs ≡ []) ⊎ ((x : A) × (rest : List A) × (xs ≡ x ∷ rest))
List-cases [] = inl refl
List-cases (x ∷ xs) = inr (x, xs, refl)

end_wait-IsSound :
    {V C : Type 0} (g : Machine V C) (m : VmManager V) (c : C) (now : ℕ)
    → IsSound m
    → IsSound (after (end_wait g m c now))
unfolding end_wait take_pooled
end_wait-IsSound g m c now v = elim (List-cases m.pool) [
  | inr (i, rest, e) ↦ rw (e, end_wait, take_pooled) (lend-IsSound m i rest now v e)
  | inl e ↦ rw (e, end_wait, take_pooled) v
]

acquire_vm-IsSound :
    {V C : Type 0} (g : Machine V C) (m : VmManager V) (c : C) (id : String) (now : ℕ)
    → IsSound m
    → lookup id m.active_vms ≡ none
    → IsSound (after (acquire_vm g m c id now))
unfolding acquire_vm acquire_vm_waiting take_pooled
acquire_vm-IsSound g m c id now v fresh = elim (List-cases m.pool) [
  | inr (i, rest, e) ↦
      rw (e, acquire_vm, acquire_vm_waiting, take_pooled) (lend-IsSound m i rest now v e)
  | inl e ↦ elim (Bool-cases (may_create m)) [
    | inl free ↦
        rw (e, acquire_vm, acquire_vm_waiting, take_pooled, free)
          (create-IsSound g m c id now v e free fresh)
    | inr full ↦
        rw (e, acquire_vm, acquire_vm_waiting, take_pooled, full) (end_wait-IsSound g m c now v)
  ]
]

module _ {V : Type 0} (now idle_timeout : ℕ) where
  Unpooled-in_time :
      (id : String) (pool : List (VmInstance V))
      → Unpooled id pool
      → Unpooled id (in_time now idle_timeout pool)
  unfolding in_time
  Unpooled-in_time id [] u = tt
  Unpooled-in_time id (i ∷ is) (p, u) = ground (arith, Unpooled-in_time id is u)

  Distinct-in_time :
      (pool : List (VmInstance V)) → Distinct pool → Distinct (in_time now idle_timeout pool)
  unfolding in_time
  Distinct-in_time [] d = tt
  Distinct-in_time (i ∷ is) (u, d) =
      ground (arith, Distinct-in_time is d, Unpooled-in_time i.id is u)

  Apart-in_time :
      (active : Dict (VmInstance V)) (pool : List (VmInstance V))
      → Apart active pool
      → Apart active (in_time now idle_timeout pool)
  unfolding in_time
  Apart-in_time active [] a = tt
  Apart-in_time active (i ∷ is) (p, a) = ground (arith, Apart-in_time active is a)

dec_by-pos : (n k : ℕ) → dec_by n (pos (n + k)) ≡ pos k
unfolding dec_by dec
dec_by-pos zero k = ap pos (zero-add k)
dec_by-pos (suc n) k = ap (λ t. dec_by n (dec (pos t))) (add_one n k) ∙ dec_by-pos n k
  where
    add_one : (n k : ℕ) → suc n + k ≡ suc (n + k)
    add_one n k = omega arith

cleanup_idle_vms-IsSound :
    {V : Type 0} (m : VmManager V) (now idle_timeout : ℕ)
    → IsSound m
    → IsSound (cleanup_idle_vms m now idle_timeout)
cleanup_idle_vms-IsSound m now idle_timeout v =
    let kept = length-in_time now idle_timeout m.pool in
    let split : length m.pool
        ≡ count_idle now idle_timeout m.pool + length (in_time now idle_timeout m.pool) =
      omega (arith, kept) in
    rw (cleanup_idle_vms_lem m now idle_timeout) (record {
      keyed = v.keyed;
      distinct = Distinct-in_time now idle_timeout m.pool v.distinct;
      apart = Apart-in_time now idle_timeout m.active_vms m.pool v.apart;
      room = omega (arith, kept, v.room);
      in_use = v.in_use;
      available =
          ap (dec_by (count_idle now idle_timeout m.pool)) (v.available ∙ ap pos split)
          ∙ dec_by-pos _ (length (in_time now idle_timeout m.pool));
    })

Step-IsSound :
    {V C : Type 0} {g : Machine V C} {m n : VmManager V} → Step g m n → IsSound m → IsSound n
Step-IsSound {g} (acquires m c id now fresh) v = acquire_vm-IsSound g m c id now v fresh
Step-IsSound {g} (ends_wait m c now) v = end_wait-IsSound g m c now v
Step-IsSound {g} (releases m i j now held) v = (release_vm_lem g m i j now v held).0
Step-IsSound (cleans m now idle_timeout) v = cleanup_idle_vms-IsSound m now idle_timeout v

-- From a sound pool on, whatever calls and ends of waits come, one at a time, with unused IDs for new
-- instances and releases of lent ones: pooled and lent instances together stay within `max_size`, no
-- instance is pooled twice or while it is lent, and `in_use` and `available` count them exactly.
pub Reach-IsSound :
    {V C : Type 0} {g : Machine V C} {m n : VmManager V} → IsSound m → Reach g m n → IsSound n
Reach-IsSound v here = v
Reach-IsSound v (next r s) = Step-IsSound s (Reach-IsSound v r)

-- While the pool is sound and a machine can be made, `AcquireVM` gives up, after its wait, exactly
-- when `max_size` instances are lent as it arrives and none is pooled as the wait ends, whatever other
-- calls have made of the pool meanwhile.
pub acquire_vm_waiting-exhausted :
    {V C : Type 0} (g : Machine V C) (m waited : VmManager V) (c : C) (id : String) (now later : ℕ)
    (vm : V)
    → IsSound m
    → g.create ≡ some vm
    → (acquire_vm_waiting g m waited c id now later ≡ failed pool_exhausted waited)
      ↔ ((m.max_size ≤ length m.active_vms) × (waited.pool ≡ []))
unfolding acquire_vm_waiting take_pooled create may_create end_wait
acquire_vm_waiting-exhausted g m waited c id now later vm v made = elim (List-cases m.pool) [
  | inr (i, rest, e) ↦ ground (arith, v.room, ap length e)
  | inl e ↦ elim (List-cases waited.pool) [
    | inr (j, more, f) ↦ ground (arith, e, f, made)
    | inl f ↦ ground (arith, e, f, made)
  ]
]
