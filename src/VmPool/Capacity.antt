-- ===== src/VmPool/Capacity.antt =====
-- The pool used by one request at a time: it never holds more than `max_size` instances, lent ones
-- included, its counters tell the truth, and a release always finds room.
use nflow_runtime.Common.{
  ℕ, ◌+◌, ◌≤◌, ◌≡◌, ◌≢◌, refl, sym, ap, true, none, some, List, [], ◌∷◌, ◌++◌, String, eq_iff,
  arith, length, length-append, All,
}
use nflow_runtime.Common.Int.{pos, inc, dec}
use nflow_runtime.Common.Dict.{
  Dict, lookup, insert, delete, IsDict, lookup-insert, lookup-delete, insert-IsDict, delete-IsDict,
  length-insert, length-delete,
}
use nflow_runtime.VmPool.{
  Machine, VmInstance, VmManager, has_room, mark_used, lend, may_create, register, returned,
  release_vm,
}

module _ {V : Type 0} where
  -- No pooled instance has this ID.
  abbrev pub Unpooled : String → List (VmInstance V) → Type 0
  Unpooled id pool = All (λ i. i.id ≢ id) pool

  abbrev pub Distinct : List (VmInstance V) → Type 0
  Distinct [] = Unit
  Distinct (i ∷ is) = Unpooled i.id is × Distinct is

  -- No pooled instance is lent.
  abbrev pub Apart : Dict (VmInstance V) → List (VmInstance V) → Type 0
  Apart active pool = All (λ i. lookup i.id active ≡ none) pool

  pub record IsSound (m : VmManager V) : Type 0 where
    pub keyed : IsDict m.active_vms
    pub distinct : Distinct m.pool
    pub apart : Apart m.active_vms m.pool
    pub room : length m.pool + length m.active_vms ≤ m.max_size
    pub in_use : m.stats.in_use ≡ pos (length m.active_vms)
    pub available : m.stats.available ≡ pos (length m.pool)

  Apart-insert :
      (id : String) (v : VmInstance V) (active : Dict (VmInstance V)) (pool : List (VmInstance V))
      → Unpooled id pool
      → Apart active pool
      → Apart (insert id v active) pool
  Apart-insert id v active [] u a = tt
  Apart-insert id v active (i ∷ is) (ne, u) (p, a) = (
    ground (arith, eq_iff id i.id, lookup-insert id i.id v active),
    Apart-insert id v active is u a,
  )

  Apart-delete :
      (id : String) (active : Dict (VmInstance V)) (pool : List (VmInstance V))
      → Apart active pool
      → Apart (delete id active) pool
  Apart-delete id active [] a = tt
  Apart-delete id active (i ∷ is) (p, a) =
      (ground (arith, lookup-delete id i.id active), Apart-delete id active is a)

  Unpooled-lent :
      (id : String) (v : VmInstance V) (active : Dict (VmInstance V)) (pool : List (VmInstance V))
      → lookup id active ≡ some v
      → Apart active pool
      → Unpooled id pool
  Unpooled-lent id v active [] held a = tt
  Unpooled-lent id v active (i ∷ is) held (p, a) =
      (λ same. ground (arith, ap (λ k. lookup k active) same), Unpooled-lent id v active is held a)

  pub Unpooled-append :
      (id : String) (i : VmInstance V) (pool : List (VmInstance V))
      → i.id ≢ id
      → Unpooled id pool
      → Unpooled id (pool ++ i ∷ [])
  Unpooled-append id i [] ne u = (ne, tt)
  Unpooled-append id i (j ∷ js) ne (p, u) = (p, Unpooled-append id i js ne u)

  pub Apart-append :
      (active : Dict (VmInstance V)) (i : VmInstance V) (pool : List (VmInstance V))
      → lookup i.id active ≡ none
      → Apart active pool
      → Apart active (pool ++ i ∷ [])
  Apart-append active i [] e a = (e, tt)
  Apart-append active i (j ∷ js) e (p, a) = (p, Apart-append active i js e a)

  pub Distinct-append :
      (i : VmInstance V) (pool : List (VmInstance V))
      → Unpooled i.id pool
      → Distinct pool
      → Distinct (pool ++ i ∷ [])
  Distinct-append i [] u d = (tt, tt)
  Distinct-append i (j ∷ js) (ne, u) (apart, d) =
      (Unpooled-append j.id i js (λ e. ne (sym e)) apart, Distinct-append i js u d)

-- Taking the first pooled instance.
pub lend-IsSound :
    {V : Type 0} (m : VmManager V) (i : VmInstance V) (rest : List (VmInstance V)) (now : ℕ)
    → IsSound m
    → m.pool ≡ i ∷ rest
    → IsSound (lend m i rest now)
unfolding lend inc dec mark_used
lend-IsSound m i rest now v e =
    let (fresh, distinct) = rw e at (v.distinct) in
    let (unlent, apart) = rw e at (v.apart) in
    let size = ap length e in
    let grown = length-insert i.id (mark_used i now) m.active_vms in
    record {
      keyed = insert-IsDict i.id _ m.active_vms v.keyed;
      distinct = distinct;
      apart = Apart-insert i.id _ m.active_vms rest fresh apart;
      room = ground (arith, v.room, grown);
      in_use = ground (arith, v.in_use, grown);
      available = ground (arith, v.available);
    }

-- A new instance, made where there is room, under an ID that is not in use.
pub register-IsSound :
    {V : Type 0} (m : VmManager V) (vm : V) (id : String) (now : ℕ)
    → IsSound m
    → m.pool ≡ []
    → may_create m ≡ true
    → lookup id m.active_vms ≡ none
    → IsSound (register m vm id now).1
unfolding register inc may_create
register-IsSound m vm id now v e free fresh =
    let size = ap length e in
    let grown = length-insert id (register m vm id now).0 m.active_vms in
    record {
      keyed = insert-IsDict id _ m.active_vms v.keyed;
      distinct = v.distinct;
      apart = rw e tt;
      room = ground (arith, v.room, grown);
      in_use = ground (arith, v.in_use, grown);
      available = v.available;
    }

has_room_lem :
    {V : Type 0} (m : VmManager V) (id : String) (j : VmInstance V)
    → IsSound m
    → lookup id m.active_vms ≡ some j
    → has_room m ≡ true
unfolding has_room
has_room_lem m id j v held = ground (arith, v.room, length-delete id m.active_vms v.keyed)

-- Giving back a lent instance: there is room for it, so it is pooled.
pub release_vm_lem :
    {V C : Type 0} (g : Machine V C) (m : VmManager V) (i j : VmInstance V) (now : ℕ)
    → IsSound m
    → lookup i.id m.active_vms ≡ some j
    → IsSound (release_vm g m i now)
      × ((release_vm g m i now).pool ≡ m.pool ++ returned g i now ∷ [])
unfolding release_vm inc dec returned
release_vm_lem g m i j now v held =
    let shrunk = length-delete i.id m.active_vms v.keyed in
    let grown = length-append m.pool (returned g i now ∷ []) in
    rw (has_room_lem m i.id j v held, release_vm)
      (
        record {
          keyed = delete-IsDict i.id m.active_vms v.keyed;
          distinct =
              Distinct-append (returned g i now) m.pool
                (Unpooled-lent i.id j m.active_vms m.pool held v.apart) v.distinct;
          apart =
              Apart-append (delete i.id m.active_vms) (returned g i now) m.pool
                (ground (arith, eq_iff i.id i.id, lookup-delete i.id i.id m.active_vms))
                (Apart-delete i.id m.active_vms m.pool v.apart);
          room = ground (arith, v.room, shrunk, grown);
          in_use = ground (arith, v.in_use, shrunk);
          available = ground (arith, v.available, grown);
        },
        refl,
      )
