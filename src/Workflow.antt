-- ===== src/Workflow.antt =====
-- model/model.go (the workflow graph), engine/playbook.go (which workflow answers a request) and
-- engine/immutable.go (snapshots of a workflow). A Go map is a list of keys and values in the order
-- in which `range` visits them; a nil map, slice or pointer is `none`.
pub mod Paths
pub mod Routing
pub mod NotFound
pub mod Snapshots
pub mod Examples
use Prim.Native.String
use nflow_runtime.Common.{
  ℕ, zero, suc, ◌+◌, String, Bool, true, false, not, ◌&&◌, ◌||◌, Option, none, some, List, [], ◌∷◌,
  length, ltb, if◌then◌else◌, ◌==◌, str_eq,
}
use nflow_runtime.Common.Dict.{Dict, lookup, insert}
use nflow_runtime.Common.Text.{split, is_empty, begins, tail}

-- A Go `interface{}`: what the code tells apart, and anything else as `other`.
pub data Value (X : Type 0) : Type 0 where
  nil : Value X
  text : String → Value X
  flag : Bool → Value X
  other : X → Value X

pub record Connection : Type 0 where
  pub node : String
  pub output : String

pub record Output : Type 0 where
  pub connections : Option (List Connection)

pub record Node (X : Type 0) : Type 0 where
  pub values : Dict (Value X)
  pub outputs : Option (Dict (Option Output))

abbrev pub Playbook : Type 0 → Type 0
Playbook X = Dict (Option (Node X))

pub record Controller (X : Type 0) : Type 0 where
  pub methods : List String
  pub start : Option (Node X)
  pub playbook : Option (Playbook X)
  pub flow_name : String
  pub app_name : String

abbrev pub Vars : Type 0
Vars = Dict String

-- The loop of `comparePath`, over the terms of the template and of the path.
unfoldable pub match_terms : List String → List String → Vars → Option Vars
match_terms [] rs vars = some vars
match_terms (t ∷ ts) [] vars = none
match_terms (t ∷ ts) (r ∷ rs) vars =
    let skipped = match_terms ts rs vars in
    let bound = match_terms ts rs (insert (tail t) r vars) in
    if is_empty t
    then skipped
    else if begins 58 t
    then bound
    else if str_eq t r
    then skipped
    else none

unfoldable pub compare_path : (template real : String) → Option Vars
unfolding match_terms split
compare_path template real =
    let terms_of_template = split 47 template in
    let terms_of_real = split 47 real in
    if length terms_of_template == length terms_of_real
    then match_terms terms_of_template terms_of_real []
    else none

module _ {X : Type 0} where
  -- `v == "text"` of a Go interface
  unfoldable pub is_text : Value X → String → Bool
  is_text nil s = false
  is_text (text t) s = str_eq t s
  is_text (flag b) s = false
  is_text (other x) s = false

  -- `m[key]`, which is nil for a missing key
  unfoldable pub value_of : Dict (Value X) → String → Value X
  value_of values key = elim (lookup key values) [ none ↦ nil | some v ↦ v ]

  -- `v.(string)`, which panics (`none`) on anything else
  unfoldable pub as_text : Value X → Option String
  as_text nil = none
  as_text (text t) = some t
  as_text (flag b) = none
  as_text (other x) = none

-- Why a start node has no next node.
pub data StartError : Type 0 where
  no_start no_outputs no_output_1 null_output null_connections no_connections : StartError

pub data Either (A B : Type 0) : Type 0 where
  left : A → Either A B
  right : B → Either A B

unfoldable pub first_connection : Output → Either StartError Connection
first_connection o = elim o.connections [
  | none ↦ left null_connections
  | some cs ↦ elim cs [ [] ↦ left no_connections | c ∷ rest ↦ right c ]
]

-- What `output_1` of the start node leads to.
unfoldable pub output_1 : Option (Dict (Option Output)) → Either StartError Connection
unfolding first_connection
output_1 none = left no_outputs
output_1 (some outputs) = elim (lookup "output_1" outputs) [
  | none ↦ left no_output_1
  | some o ↦ elim o [ none ↦ left null_output | some out ↦ first_connection out ]
]

-- The checks of `run` on the start node, and the node it goes on with.
unfoldable pub start_next : {X : Type 0} → Controller X → Either StartError Connection
unfolding output_1
start_next c = elim c.start [ none ↦ left no_start | some n ↦ output_1 n.outputs ]

unfoldable pub has_connections : Option (List Connection) → Bool
has_connections none = false
has_connections (some cs) = not (length cs == 0)

-- The visit of one node by `GetWorkflow`: passed over, chosen (with the variables of the path and
-- whether the order of the boxes is reset in the session), or a panic.
pub data Visit : Type 0 where
  skip panic : Visit
  chosen : Vars → (reset : Bool) → Visit

-- What `GetWorkflow` returns; `resets_order` tells whether it set `order_box` to 0 on the way.
pub data Found (X : Type 0) : Type 0 where
  found : Controller X → Vars → (resets_order : Bool) → Found X
  not_found : Found X
  panicked : Found X

module _ {X : Type 0} where
  -- The checks of `GetWorkflow` on the outputs of a starter, which it passes over if one fails.
  unfoldable pub is_connected : Node X → Bool
  unfolding has_connections
  is_connected n = elim n.outputs [
    | none ↦ false
    | some outputs ↦ elim (lookup "output_1" outputs) [
      | none ↦ false
      | some output1 ↦ elim output1 [ none ↦ false | some o ↦ has_connections o.connections ]
    ]
  ]

  unfoldable pub accepts : Dict (Value X) → (method : String) → Bool
  unfolding is_text value_of
  accepts values method =
      let item = value_of values "method" in is_text item "ANY" || is_text item method

  unfoldable pub resets : Dict (Value X) → (method : String) → Bool
  unfolding is_text value_of
  resets values method = str_eq method "GET" && is_text (value_of values "reset_order_box") "true"

  unfoldable pub try_path : Dict (Value X) → (wf_path method : String) → Visit
  unfolding as_text value_of resets compare_path
  try_path values wf_path method = elim (as_text (value_of values "urlpattern")) [
    | none ↦ panic
    | some pattern ↦ elim (compare_path pattern wf_path) [
      | none ↦ skip
      | some vars ↦ chosen vars (resets values method)
    ]
  ]

  unfoldable pub visit : Option (Node X) → (wf_path method : String) → Visit
  unfolding as_text value_of is_connected accepts try_path
  visit none wf_path method = panic
  visit (some n) wf_path method = elim (as_text (value_of n.values "type")) [
    | none ↦ panic
    | some type_item ↦
        if str_eq type_item "starter" && is_connected n && accepts n.values method
        then try_path n.values wf_path method
        else skip
  ]

module _ {X : Type 0} (wf_path method app_name : String) where
  -- The controller that `GetWorkflow` makes of the node `n`.
  unfoldable pub controller : String → Playbook X → Option (Node X) → Controller X
  controller key pb n = record {
    methods = method ∷ [];
    start = n;
    playbook = some pb;
    flow_name = key;
    app_name = app_name;
  }

  -- The visit of the nodes that are left, of the playbook `pb`.
  unfoldable pub search_nodes :
      (key : String) → Playbook X → List (String × Option (Node X)) → Found X → Found X
  unfolding visit controller
  search_nodes key pb [] rest = rest
  search_nodes key pb ((k, n) ∷ ns) rest =
      let later = search_nodes key pb ns rest in
      elim (visit n wf_path method) [
        | skip ↦ later
        | panic ↦ panicked
        | chosen vars reset ↦ found (controller key pb n) vars reset
      ]

  unfoldable pub search_flows : (key : String) → Dict (Option (Playbook X)) → Found X → Found X
  unfolding search_nodes
  search_flows key [] rest = rest
  search_flows key ((k, none) ∷ flows) rest = panicked
  search_flows key ((k, some pb) ∷ flows) rest =
      search_nodes key pb pb (search_flows key flows rest)

  unfoldable pub get_workflow : Dict (Dict (Option (Playbook X))) → Found X
  unfolding search_flows
  get_workflow [] = not_found
  get_workflow ((key, flows) ∷ playbooks) = search_flows key flows (get_workflow playbooks)
