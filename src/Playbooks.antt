-- ===== src/Playbooks.antt =====
-- engine/playbook_repository.go: the cache of the applications' workflows. The database and the parse
-- of its JSON are the argument `source` of a load. Nil maps within an application read as empty ones.
pub mod Rebuild
pub mod Routes
pub mod Caching
pub mod Examples
use nflow_runtime.Common.{
  ◌==◌, ℕ, ◌+◌, String, Bool, true, false, not, ◌&&◌, ◌||◌, Option, none, some, List, [], ◌∷◌,
  if◌then◌else◌, length,
}
use nflow_runtime.Common.Dict.{Dict, lookup, insert}
use nflow_runtime.Workflow.{
  Value, nil, text, flag, other, Connection, Output, Node, Playbook, value_of, is_text, output_1,
}

-- The flows of an application, by their names, each with its playbooks.
abbrev pub Books : Type 0 → Type 0
Books X = Dict (Dict (Option (Playbook X)))

pub record PlaybookRepository (X : Type 0) : Type 0 where
  pub playbooks : Dict (Option (Books X))
  pub needs_reload : Dict Bool

-- What the database gives: an error, or the application, nil if its JSON has no "drawflow".
pub data Source (X : Type 0) : Type 0 where
  unreadable : Source X
  read : Option (Books X) → Source X

pub data Loaded (X : Type 0) : Type 0 where
  answered : Option (Books X) → PlaybookRepository X → Loaded X
  failed panicked : PlaybookRepository X → Loaded X

unfoldable pub copy_output : Output → Output
copy_output o = elim o.connections [
  | none ↦ record { connections = some [] }
  | some cs ↦ record { connections = some cs }
]

unfoldable pub copy_outputs : Dict (Option Output) → Dict (Option Output)
unfolding copy_output
copy_outputs [] = []
copy_outputs ((k, none) ∷ outputs) = (k, none) ∷ copy_outputs outputs
copy_outputs ((k, some o) ∷ outputs) = (k, some (copy_output o)) ∷ copy_outputs outputs

unfoldable pub all_true : Dict Bool → Dict Bool
all_true [] = []
all_true ((k, b) ∷ m) = (k, true) ∷ all_true m

module _ {X : Type 0} where
  unfoldable pub new_repository : PlaybookRepository X
  new_repository = record { playbooks = []; needs_reload = [] }

  unfoldable pub needs_reload : PlaybookRepository X → String → Bool
  needs_reload r app_name = elim (lookup app_name r.needs_reload) [ none ↦ true | some b ↦ b ]

  -- nil for an application that is not there
  unfoldable pub get_playbooks : PlaybookRepository X → String → Option (Books X)
  get_playbooks r app_name = elim (lookup app_name r.playbooks) [ none ↦ none | some b ↦ b ]

  unfoldable pub set_playbooks :
      PlaybookRepository X → String → Option (Books X) → PlaybookRepository X
  set_playbooks r app_name books = record r { playbooks = insert app_name books r.playbooks }

  unfoldable pub set_reloaded : PlaybookRepository X → String → PlaybookRepository X
  set_reloaded r app_name = record r { needs_reload = insert app_name false r.needs_reload }

  unfoldable pub invalidate_cache : PlaybookRepository X → String → PlaybookRepository X
  invalidate_cache r app_name = record r { needs_reload = insert app_name true r.needs_reload }

  unfoldable pub invalidate_all_cache : PlaybookRepository X → PlaybookRepository X
  unfolding all_true
  invalidate_all_cache r = record r { needs_reload = all_true r.needs_reload }

  unfoldable pub get_cache_size : PlaybookRepository X → ℕ
  get_cache_size r = length r.playbooks

  unfoldable pub copy_node : Node X → Node X
  unfolding copy_outputs
  copy_node n = elim n.outputs [
    | none ↦ record n { outputs = some [] }
    | some outputs ↦ record n { outputs = some (copy_outputs outputs) }
  ]

  unfoldable pub copy_playbook : Playbook X → Playbook X
  unfolding copy_node
  copy_playbook [] = []
  copy_playbook ((k, none) ∷ pb) = (k, none) ∷ copy_playbook pb
  copy_playbook ((k, some n) ∷ pb) = (k, some (copy_node n)) ∷ copy_playbook pb

  unfoldable pub copy_flows : Dict (Option (Playbook X)) → Dict (Option (Playbook X))
  unfolding copy_playbook
  copy_flows [] = []
  copy_flows ((k, none) ∷ flows) = (k, none) ∷ copy_flows flows
  copy_flows ((k, some pb) ∷ flows) = (k, some (copy_playbook pb)) ∷ copy_flows flows

  unfoldable pub deep_copy_playbooks : Books X → Books X
  unfolding copy_flows
  deep_copy_playbooks [] = []
  deep_copy_playbooks ((k, flows) ∷ books) = (k, copy_flows flows) ∷ deep_copy_playbooks books

  -- The checks of `cleanPlaybooksForCache` on the outputs of a starter.
  unfoldable pub has_output_1 : Node X → Bool
  has_output_1 n = elim n.outputs [
    | none ↦ false
    | some outputs ↦ elim (lookup "output_1" outputs) [
      | none ↦ false
      | some output1 ↦ elim output1 [
        | none ↦ false
        | some o ↦ elim o.connections [ none ↦ false | some cs ↦ not (length cs == 0) ]
      ]
    ]
  ]

  -- A starter without connections is left out of the cache.
  unfoldable pub is_kept : Node X → Bool
  unfolding is_text value_of has_output_1
  is_kept n = not (is_text (value_of n.values "type") "starter") || has_output_1 n

  unfoldable pub clean_playbook : Playbook X → Playbook X
  unfolding is_kept
  clean_playbook [] = []
  clean_playbook ((k, none) ∷ pb) = (k, none) ∷ clean_playbook pb
  clean_playbook ((k, some n) ∷ pb) =
      let rest = clean_playbook pb in if is_kept n then (k, some n) ∷ rest else rest

  unfoldable pub clean_flows : Dict (Option (Playbook X)) → Dict (Option (Playbook X))
  unfolding clean_playbook
  clean_flows [] = []
  clean_flows ((k, none) ∷ flows) = (k, none) ∷ clean_flows flows
  clean_flows ((k, some pb) ∷ flows) = (k, some (clean_playbook pb)) ∷ clean_flows flows

  unfoldable pub clean_playbooks_for_cache : Books X → Books X
  unfolding clean_flows
  clean_playbooks_for_cache [] = []
  clean_playbooks_for_cache ((k, flows) ∷ books) =
      (k, clean_flows flows) ∷ clean_playbooks_for_cache books

  -- The check of a loaded application logs what it finds; its type assertions panic where a starter
  -- has a URL pattern or a method that is no text.
  unfoldable pub is_asserted : Value X → Bool
  is_asserted nil = false
  is_asserted (text t) = true
  is_asserted (flag b) = false
  is_asserted (other x) = false

  unfoldable pub asserted_at : String → Dict (Value X) → Bool
  unfolding is_asserted
  asserted_at key values = elim (lookup key values) [ none ↦ true | some v ↦ is_asserted v ]

  unfoldable pub is_checkable : Node X → Bool
  unfolding is_text value_of asserted_at
  is_checkable n =
      not (is_text (value_of n.values "type") "starter")
      || (asserted_at "urlpattern" n.values && asserted_at "method" n.values)

  unfoldable pub check_playbook : Playbook X → Bool
  unfolding is_checkable
  check_playbook [] = true
  check_playbook ((k, none) ∷ pb) = check_playbook pb
  check_playbook ((k, some n) ∷ pb) = is_checkable n && check_playbook pb

  unfoldable pub check_flows : Dict (Option (Playbook X)) → Bool
  unfolding check_playbook
  check_flows [] = true
  check_flows ((k, none) ∷ flows) = check_flows flows
  check_flows ((k, some pb) ∷ flows) = check_playbook pb && check_flows flows

  -- `validatePlaybooksIntegrity`: false is a panic.
  unfoldable pub validate_playbooks_integrity : Books X → Bool
  unfolding check_flows
  validate_playbooks_integrity [] = true
  validate_playbooks_integrity ((k, flows) ∷ books) =
      check_flows flows && validate_playbooks_integrity books

  unfoldable pub keep_loaded :
      PlaybookRepository X → String → Option (Books X) → PlaybookRepository X
  unfolding set_playbooks set_reloaded
  keep_loaded r app_name books = set_reloaded (set_playbooks r app_name books) app_name

  unfoldable pub load_from_source : PlaybookRepository X → String → Source X → Loaded X
  unfolding keep_loaded
  load_from_source r app_name unreadable = failed r
  load_from_source r app_name (read none) = answered none (keep_loaded r app_name none)
  load_from_source r app_name (read (some books)) =
      let cleaned = clean_playbooks_for_cache books in
      if validate_playbooks_integrity books
      then answered (some cleaned) (keep_loaded r app_name (some cleaned))
      else panicked r

  -- `LoadPlaybook`
  unfoldable pub load_playbook : PlaybookRepository X → String → Source X → Loaded X
  unfolding needs_reload get_playbooks load_from_source
  load_playbook r app_name source =
      if needs_reload r app_name
      then load_from_source r app_name source
      else elim (get_playbooks r app_name) [
        | none ↦ load_from_source r app_name source
        | some books ↦ answered (some (deep_copy_playbooks books)) r
      ]
