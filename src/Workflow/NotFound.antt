-- ===== src/Workflow/NotFound.antt =====
-- What it means that `GetWorkflow` finds nothing.
use nflow_runtime.Common.{◌≡◌, ap, inl, inr, Option, none, some, [], ◌∷◌, String, arith}
use nflow_runtime.Common.Dict.{Dict}
use nflow_runtime.Workflow.{
  Node, Playbook, Vars, visit, Found, not_found, search_nodes, search_flows, get_workflow,
}
use nflow_runtime.Workflow.Routing.{
  Answers, Answers-visit, Visit-cases, InNodes, InFlows, InPlaybooks,
}

module _ {X : Type 0} (wf_path method app_name : String) where
  search_nodes-not_found :
      (key : String) (pb ns : Playbook X) (rest : Found X) (n : Node X) (vars : Vars)
      → search_nodes wf_path method app_name key pb ns rest ≡ not_found
      → (rest ≡ not_found) × (InNodes (some n) ns → ¬ Answers n wf_path method vars)
  unfolding search_nodes
  search_nodes-not_found key pb [] rest n vars e = (e, λ listed a. listed)
  search_nodes-not_found key pb ((k, none) ∷ ns) rest n vars e = absurd (ground (arith, e))
  search_nodes-not_found key pb ((k, some m) ∷ ns) rest n vars e =
      elim (Visit-cases (visit (some m) wf_path method)) [
        | inl f ↦
            let (none_left, later) =
              search_nodes-not_found key pb ns rest n vars (ground (arith, e, f)) in
            (
              none_left,
              λ listed a. elim listed [
                | inl same ↦
                    let it : m ≡ n = ground (arith, same) in
                    let seen = Answers-visit n wf_path method vars a in
                    ground (arith, ap (λ x. visit (some x) wf_path method) it, seen, f)
                | inr further ↦ later further a
              ],
            )
        | inr (inl f) ↦ absurd (ground (arith, e, f))
        | inr (inr (vs, r, f)) ↦ absurd (ground (arith, e, f))
      ]

  search_flows-not_found :
      (key : String) (flows : Dict (Option (Playbook X))) (rest : Found X) (pb : Playbook X)
      (n : Node X) (vars : Vars)
      → search_flows wf_path method app_name key flows rest ≡ not_found
      → (rest ≡ not_found)
        × (InFlows pb flows → InNodes (some n) pb → ¬ Answers n wf_path method vars)
  unfolding search_flows
  search_flows-not_found key [] rest pb n vars e = (e, λ placed listed a. placed)
  search_flows-not_found key ((k, none) ∷ flows) rest pb n vars e = absurd (ground (arith, e))
  search_flows-not_found key ((k, some p) ∷ flows) rest pb n vars e =
      let (none_left, first) = search_nodes-not_found key p p _ n vars e in
      let (all_left, later) = search_flows-not_found key flows rest pb n vars none_left in
      (
        all_left,
        λ placed listed a. elim placed [
          | inl same ↦ let it : p ≡ pb = ground (arith, same) in first (rw it listed) a
          | inr further ↦ later further listed a
        ],
      )

  -- When `GetWorkflow` answers "not found", no node of any playbook answers the request.
  pub get_workflow-not_found :
      (books : Dict (Dict (Option (Playbook X)))) (key : String) (pb : Playbook X) (n : Node X)
      (vars : Vars)
      → get_workflow wf_path method app_name books ≡ not_found
      → InPlaybooks key pb books
      → InNodes (some n) pb
      → ¬ Answers n wf_path method vars
  unfolding get_workflow
  get_workflow-not_found [] key pb n vars e placed listed a = placed
  get_workflow-not_found ((k, flows) ∷ books) key pb n vars e (inl (same, placed)) listed a =
      (search_flows-not_found k flows _ pb n vars e).1 placed listed a
  get_workflow-not_found ((k, flows) ∷ books) key pb n vars e (inr later) listed a =
      get_workflow-not_found books key pb n vars (search_flows-not_found k flows _ pb n vars e).0
        later listed a
