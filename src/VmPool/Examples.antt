-- ===== src/VmPool/Examples.antt =====
-- The theorems about the pool at a small pool, whose machines are lists of the names they define.
use nflow_runtime.Common.{
  ℕ, zero, suc, ◌≤◌, ◌<◌, ◌≡◌, refl, sym, ap, ◌∙◌, ◌↔◌, true, some, List, [], ◌∷◌, String, length,
  arith, eq_iff,
}
use nflow_runtime.Common.Dict.{lookup, insert}
use nflow_runtime.Common.Text.{count}
use nflow_runtime.VmPool.{
  Machine, VmInstance, VmManager, may_create, register, failed, pool_exhausted, end_wait, lend,
  idle_instance, release_vm, acquire_vm_waiting, acquire_vm, create, take_pooled, empty_manager,
  new_vm_manager, preload, preload_one, has_room, pool_size, preload_rounds,
}
use nflow_runtime.VmPool.Capacity.{IsSound}
use nflow_runtime.VmPool.Lifetime.{
  acquires, Reach, here, next, after, Reach-IsSound, acquire_vm_waiting-exhausted,
}
use nflow_runtime.VmPool.Startup.{new_vm_manager-IsSound}
use nflow_runtime.VmPool.Isolation.{IsClean, acquire_vm-IsClean}
use nflow_runtime.VmPool.Race.{overcommit}

abbrev names : Machine (List String) String
names = record {
  create = some [];
  reset = λ vm c. c ∷ vm;
  undefine = λ vm k. vm;
  delete_globals = λ vm. [];
}

-- A text of its own for every number.
unfoldable tick : ℕ → String
tick zero = ""
tick (suc n) = String.◌∷◌ "v" (tick n)

count-tick : (n : ℕ) → count 118 (tick n) ≡ n
unfolding tick count
count-tick zero = refl
count-tick (suc n) = omega (arith, count-tick n)

tick_injective : (j k : ℕ) → tick j ≡ tick k → j ≡ k
tick_injective j k e = sym (count-tick j) ∙ ap (count 118) e ∙ count-tick k

abbrev clock : ℕ → String × ℕ
clock n = (tick n, n)

abbrev small : VmManager (List String)
small = new_vm_manager names clock 2 1

abbrev lent : VmManager (List String)
lent = after (acquire_vm names small "first" "fresh" 9)

small-lent : Reach names small lent
unfolding new_vm_manager preload preload_one has_room pool_size preload_rounds empty_manager lookup
small-lent = next here (acquires small "first" "fresh" 9 refl)

Reach-IsSound_example : IsSound lent
Reach-IsSound_example =
    Reach-IsSound (new_vm_manager-IsSound names clock 2 1 tick_injective) small-lent

abbrev first_lent : VmInstance (List String)
first_lent = record {
  vm = "second" ∷ [];
  id = "fresh";
  in_use = true;
  last_used = 12;
  use_count = 1;
}

-- Two are lent, and one of them comes back during the wait.
abbrev full : VmManager (List String)
full = after (acquire_vm names lent "second" "other" 10)

abbrev back : VmManager (List String)
back = release_vm names full first_lent 14

small-full : Reach names small full
unfolding acquire_vm acquire_vm_waiting end_wait take_pooled create register may_create
    new_vm_manager preload preload_one has_room pool_size preload_rounds empty_manager lookup insert
    lend idle_instance tick
small-full = next small-lent (acquires lent "second" "other" 10 refl)

acquire_vm_waiting-exhausted_example :
    (acquire_vm_waiting names full back "c" "id" 11 14 ≡ failed pool_exhausted back)
    ↔ ((full.max_size ≤ length full.active_vms) × (back.pool ≡ []))
acquire_vm_waiting-exhausted_example =
    acquire_vm_waiting-exhausted names full back "c" "id" 11 14 []
      (Reach-IsSound (new_vm_manager-IsSound names clock 2 1 tick_injective) small-full) refl

acquire_vm-IsClean_example :
    (u : List String) × IsClean names u × (("second" ∷ []) ≡ names.reset u "second")
unfolding acquire_vm acquire_vm_waiting end_wait take_pooled create register may_create
    new_vm_manager preload preload_one has_room pool_size preload_rounds empty_manager lookup insert
acquire_vm-IsClean_example =
    acquire_vm-IsClean names clock 2 1 lent _ "second" "fresh" 12 first_lent small-lent refl

overcommit_example :
    let n =
      (register
        (register (empty_manager {V = List String} 1) ("a" ∷ []) "vm-1" 1).1
        ("b" ∷ [])
        "vm-2"
        1).1 in
    (may_create (empty_manager {V = List String} 1) ≡ true)
    × (1 < length n.active_vms)
    × (¬ IsSound n)
unfolding empty_manager lookup
overcommit_example =
    overcommit (empty_manager 1) ("a" ∷ []) ("b" ∷ []) "vm-1" "vm-2" 1 1 refl refl refl refl
      (λ e. ground (arith, e, eq_iff "vm-1" "vm-2"))
