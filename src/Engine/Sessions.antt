-- ===== src/Engine/Sessions.antt =====
-- The values that `Execute` carries from node to node through the session.
use nflow_runtime.Common.{
  ◌≡◌, ◌≢◌, refl, Option, none, some, [], ◌∷◌, String, eq_iff, arith, if◌then◌else◌, str_eq,
}
use nflow_runtime.Common.Dict.{Dict, lookup, insert, IsDict, lookup-insert, insert-IsDict}
use nflow_runtime.Workflow.{Value}
use nflow_runtime.Engine.{merge, save, is_break}

module _ {X : Type 0} where
  abbrev pub or_else : Option (Value X) → Option (Value X) → Option (Value X)
  or_else none b = b
  or_else (some v) b = some v

  -- The payload of a round: for each key but "break" the value of the session, a map, if it has one,
  -- and else that of the payload; "break" comes from the payload alone.
  pub lookup-merge :
      (k : String) (form m : Dict (Value X))
      → IsDict form
      → lookup k (merge form m)
        ≡ (if str_eq k "break" then lookup k m else or_else (lookup k form) (lookup k m))
  unfolding merge lookup
  lookup-merge k [] m h = ground arith
  lookup-merge k ((j, v) ∷ form) m (fresh, h) = ground (
    arith,
    eq_iff j "break",
    eq_iff k "break",
    eq_iff j k,
    fresh,
    lookup-insert j k v m,
    lookup-merge k form m h,
    lookup-merge k form (insert j v m) h,
  )

  lookup-save :
      (k : String) (m form : Dict (Value X))
      → IsDict m
      → lookup k (save m form) ≡ or_else (lookup k m) (lookup k form)
  unfolding save lookup
  lookup-save k [] form h = refl
  lookup-save k ((j, v) ∷ m) form (fresh, h) =
      ground
        (arith, eq_iff j k, fresh, lookup-insert j k v form, lookup-save k m (insert j v form) h)

  save-IsDict : (m form : Dict (Value X)) → IsDict form → IsDict (save m form)
  unfolding save
  save-IsDict [] form h = h
  save-IsDict ((j, v) ∷ m) form h = save-IsDict m (insert j v form) (insert-IsDict j v form h)

  -- What a node leaves in its payload, but for "break", is once it is saved in the payload of the next
  -- round, whatever payload that round starts from. Keys stand once in the payload and the session.
  pub merge-save :
      (k : String) (v : Value X) (m form m' : Dict (Value X))
      → IsDict m
      → IsDict form
      → lookup k m ≡ some v
      → k ≢ "break"
      → lookup k (merge (save m form) m') ≡ some v
  merge-save k v m form m' hm hf e ne = ground (
    arith,
    eq_iff k "break",
    lookup-merge k (save m form) m' (save-IsDict m form hf),
    lookup-save k m form hm,
  )

  -- A "break" that an earlier node left in the session does not stop a later one: merging the
  -- session, a map, changes nothing about whether the payload asks for a break.
  pub is_break-merge :
      (form m : Dict (Value X)) → IsDict form → is_break (merge form m) ≡ is_break m
  unfolding is_break
  is_break-merge form m h =
      let same : lookup "break" (merge form m) ≡ lookup "break" m =
        ground (arith, eq_iff "break" "break", lookup-merge "break" form m h) in
      rw (same, is_break) refl
