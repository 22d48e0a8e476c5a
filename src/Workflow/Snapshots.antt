-- ===== src/Workflow/Snapshots.antt =====
-- engine/immutable.go: the manager of snapshots. The copy of a node has maps of its own, which are
-- there even if the node's were nil, and leaves out null outputs and null nodes.
use nflow_runtime.Common.{
  ℕ, ◌+◌, ◌≡◌, refl, ap, ◌∙◌, inl, inr, Option, none, some, List, [], ◌∷◌, String, arith, eq_iff,
  Option-cases,
}
use nflow_runtime.Common.Dict.{Dict, lookup, IsDict}
use nflow_runtime.Workflow.{
  Connection, Output, Node, Playbook, Controller, Either, left, right, StartError, no_start,
  no_outputs, no_output_1, null_output, null_connections, no_connections, first_connection,
  output_1, start_next,
}

pub record Snapshot (X : Type 0) : Type 0 where
  pub playbook : Option (Dict (Node X))
  pub start_node : Option (Node X)
  pub version : ℕ

pub record Manager (X : Type 0) : Type 0 where
  pub current : Option (Snapshot X)
  pub version : ℕ

-- `make` and `copy` of the connections: those of a nil slice are there, and empty.
unfoldable pub copy_output : Output → Output
copy_output o = elim o.connections [
  | none ↦ record { connections = some [] }
  | some cs ↦ record { connections = some cs }
]

unfoldable pub copy_outputs : Dict (Option Output) → Dict (Option Output)
unfolding copy_output
copy_outputs [] = []
copy_outputs ((k, none) ∷ outputs) = copy_outputs outputs
copy_outputs ((k, some o) ∷ outputs) = (k, some (copy_output o)) ∷ copy_outputs outputs

module _ {X : Type 0} where
  unfoldable pub copy_node : Node X → Node X
  unfolding copy_outputs
  copy_node n = elim n.outputs [
    | none ↦ record n { outputs = some [] }
    | some outputs ↦ record n { outputs = some (copy_outputs outputs) }
  ]

  unfoldable pub copy_playbook : Playbook X → Dict (Node X)
  unfolding copy_node
  copy_playbook [] = []
  copy_playbook ((k, none) ∷ pb) = copy_playbook pb
  copy_playbook ((k, some n) ∷ pb) = (k, copy_node n) ∷ copy_playbook pb

  unfoldable pub update_workflow : Manager X → Controller X → Manager X
  unfolding copy_playbook copy_node
  update_workflow m c =
      let pb : Option (Dict (Node X)) = elim c.playbook [
        | none ↦ none
        | some pb ↦ some (copy_playbook pb)
      ] in
      let start : Option (Node X) = elim c.start [ none ↦ none | some n ↦ some (copy_node n) ] in
      record {
        current = some (record { playbook = pb; start_node = start; version = m.version + 1 });
        version = m.version + 1;
      }

  unfoldable pub get_node : Snapshot X → String → Option (Node X)
  get_node s id = elim s.playbook [ none ↦ none | some pb ↦ lookup id pb ]

  -- `GetStartNextNode`. A null output would be a panic: here it is `null_output`.
  unfoldable pub get_start_next_node : Snapshot X → Either StartError String
  unfolding output_1
  get_start_next_node s = elim s.start_node [
    | none ↦ left no_start
    | some n ↦ elim (output_1 n.outputs) [ left e ↦ left e | right c ↦ right c.node ]
  ]

-- The error that is left of an error of the start node when the node is copied.
unfoldable pub copied_error : StartError → StartError
copied_error no_start = no_start
copied_error no_outputs = no_output_1
copied_error no_output_1 = no_output_1
copied_error null_output = no_output_1
copied_error null_connections = no_connections
copied_error no_connections = no_connections

abbrev kept : Option (Option Output) → Option (Option Output)
kept none = none
kept (some none) = none
kept (some (some o)) = some (some (copy_output o))

copy_outputs-absent :
    (k : String) (outputs : Dict (Option Output))
    → lookup k outputs ≡ none
    → lookup k (copy_outputs outputs) ≡ none
unfolding copy_outputs lookup
copy_outputs-absent k [] e = refl
copy_outputs-absent k ((j, none) ∷ outputs) e = ground (arith, e, copy_outputs-absent k outputs)
copy_outputs-absent k ((j, some o) ∷ outputs) e = ground (arith, e, copy_outputs-absent k outputs)

lookup-copy_outputs :
    (k : String) (outputs : Dict (Option Output))
    → IsDict outputs
    → lookup k (copy_outputs outputs) ≡ kept (lookup k outputs)
unfolding copy_outputs lookup
lookup-copy_outputs k [] h = refl
lookup-copy_outputs k ((j, none) ∷ outputs) (fresh, h) =
    ground (arith, eq_iff j k, lookup-copy_outputs k outputs h, copy_outputs-absent k outputs)
lookup-copy_outputs k ((j, some o) ∷ outputs) (fresh, h) =
    ground (arith, eq_iff j k, lookup-copy_outputs k outputs h, copy_outputs-absent k outputs)

abbrev pub copied : Either StartError Connection → Either StartError String
copied (left e) = left (copied_error e)
copied (right c) = right c.node

abbrev name_of : Either StartError Connection → Either StartError String
name_of (left e) = left e
name_of (right c) = right c.node

first_connection-copy_output :
    (o : Output) → name_of (first_connection (copy_output o)) ≡ copied (first_connection o)
unfolding first_connection copy_output copied_error
first_connection-copy_output o = go o.connections
  where
    go :
        (cs : Option (List Connection))
        → name_of (first_connection (copy_output (record { connections = cs })))
          ≡ copied (first_connection (record { connections = cs }))
    go none = refl
    go (some []) = refl
    go (some (c ∷ cs)) = refl

output_1-copy_outputs :
    (outputs : Dict (Option Output))
    → IsDict outputs
    → name_of (output_1 (some (copy_outputs outputs))) ≡ copied (output_1 (some outputs))
unfolding output_1 copied_error
output_1-copy_outputs outputs h =
    let copy : lookup "output_1" (copy_outputs outputs) ≡ kept (lookup "output_1" outputs) =
      lookup-copy_outputs "output_1" outputs h in
    elim (Option-cases (lookup "output_1" outputs)) [
      | inl e ↦ rw (copy ∙ ap kept e, e, output_1) refl
      | inr (none, e) ↦ rw (copy ∙ ap kept e, e, output_1) refl
      | inr (some o, e) ↦ rw (copy ∙ ap kept e, e, output_1) (first_connection-copy_output o)
    ]

abbrev Unique : Option (Dict (Option Output)) → Type 0
Unique none = Unit
Unique (some outputs) = IsDict outputs

abbrev UniqueOutputs : {X : Type 0} → Option (Node X) → Type 0
UniqueOutputs none = Unit
UniqueOutputs (some n) = Unique n.outputs

-- The snapshot of a workflow, the outputs of whose start are a map, has the start that `run` finds:
-- the same next node, or an error where `run` has one, except that what was null is reported as
-- missing or empty.
pub update_workflow-start_next :
    {X : Type 0} (m : Manager X) (c : Controller X)
    → UniqueOutputs c.start
    → (s : Snapshot X) × ((update_workflow m c).current ≡ some s)
      × (get_start_next_node s ≡ copied (start_next c))
unfolding update_workflow get_start_next_node start_next copy_node copied_error output_1 lookup
update_workflow-start_next {X} m c unique = (_, refl, go c.start unique)
  where
    snapshot : Option (Node X) → Snapshot X
    snapshot start = record {
      playbook = elim c.playbook [ none ↦ none | some pb ↦ some (copy_playbook pb) ];
      start_node = elim start [ none ↦ none | some n ↦ some (copy_node n) ];
      version = m.version + 1;
    }

    with_outputs :
        (n : Node X) (outputs : Option (Dict (Option Output)))
        → Unique outputs
        → get_start_next_node (snapshot (some (record n { outputs = outputs })))
          ≡ copied (output_1 outputs)
    with_outputs n none unique = refl
    with_outputs n (some outputs) unique = output_1-copy_outputs outputs unique

    go :
        (start : Option (Node X))
        → UniqueOutputs start
        → get_start_next_node (snapshot start) ≡ copied (start_next (record c { start = start }))
    go none unique = refl
    go (some n) unique = with_outputs n n.outputs unique
