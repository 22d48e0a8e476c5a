-- ===== src/VmPool/Race.antt =====
-- What the separate locks of `AcquireVM` allow to requests that run at the same time.
use nflow_runtime.Common.{ℕ, ◌+◌, ◌<◌, ◌≡◌, ◌≢◌, true, none, [], String, eq_iff, arith, length}
use nflow_runtime.Common.Dict.{lookup, insert, lookup-insert, length-insert}
use nflow_runtime.VmPool.{VmManager, may_create, register}
use nflow_runtime.VmPool.Capacity.{IsSound}

-- With one place left and an empty pool, two requests both pass the test before either registers
-- its new instance; then more than `max_size` instances are lent, and the pool is sound no more.
pub overcommit :
    {V : Type 0} (m : VmManager V) (vm vm' : V) (id id' : String) (now now' : ℕ)
    → m.pool ≡ []
    → length m.active_vms + 1 ≡ m.max_size
    → lookup id m.active_vms ≡ none
    → lookup id' m.active_vms ≡ none
    → id ≢ id'
    → let n = (register (register m vm id now).1 vm' id' now').1 in
      (may_create m ≡ true) × (m.max_size < length n.active_vms) × (¬ IsSound n)
unfolding may_create register
overcommit m vm vm' id id' now now' empty last fresh fresh' ne =
    let first = (register m vm id now).0 in
    let one = length-insert id first m.active_vms in
    let two =
      length-insert id' (register (register m vm id now).1 vm' id' now').0
        (insert id first m.active_vms) in
    let unlent = lookup-insert id id' first m.active_vms in
    let over : m.max_size < length (register (register m vm id now).1 vm' id' now').1.active_vms =
      ground (arith, one, two, unlent, eq_iff id id') in
    (ground arith, over, λ v. omega (arith, v.room, over))
