-- ===== src/Playbooks/Rebuild.antt =====
-- `GetWorkflow` on an application whose nodes are rebuilt one by one, some left out.
use nflow_runtime.Common.{
  ◌≡◌, refl, ap, ◌∙◌, inl, inr, Bool, false, Option, none, some, [], ◌∷◌, String, if◌then◌else◌,
  arith, Bool-cases,
}
use nflow_runtime.Common.Dict.{Dict}
use nflow_runtime.Workflow.{
  Node, Playbook, Controller, skip, visit, Found, found, not_found, panicked, search_nodes,
  search_flows, get_workflow,
}
use nflow_runtime.Workflow.Routing.{Visit-cases}
use nflow_runtime.Playbooks.{Books}

module _ {X : Type 0} (keep : Node X → Bool) (remake : Node X → Node X) where
  unfoldable pub rebuild : Playbook X → Playbook X
  rebuild [] = []
  rebuild ((k, none) ∷ pb) = (k, none) ∷ rebuild pb
  rebuild ((k, some n) ∷ pb) =
      let rest = rebuild pb in if keep n then (k, some (remake n)) ∷ rest else rest

  unfoldable pub rebuild_flows : Dict (Option (Playbook X)) → Dict (Option (Playbook X))
  rebuild_flows [] = []
  rebuild_flows ((k, none) ∷ flows) = (k, none) ∷ rebuild_flows flows
  rebuild_flows ((k, some pb) ∷ flows) = (k, some (rebuild pb)) ∷ rebuild_flows flows

  unfoldable pub rebuild_books : Books X → Books X
  rebuild_books [] = []
  rebuild_books ((k, flows) ∷ books) = (k, rebuild_flows flows) ∷ rebuild_books books

  abbrev pub remake_start : Option (Node X) → Option (Node X)
  remake_start none = none
  remake_start (some n) = some (remake n)

  abbrev pub rebuild_controller : Controller X → Controller X
  rebuild_controller c = record c {
    start = remake_start c.start;
    playbook = elim c.playbook [ none ↦ none | some pb ↦ some (rebuild pb) ];
  }

  -- The same result, with the nodes rebuilt.
  unfoldable pub rebuild_found : Found X → Found X
  rebuild_found (found c vars reset) = found (rebuild_controller c) vars reset
  rebuild_found not_found = not_found
  rebuild_found panicked = panicked

  module _ (wf_path method app_name : String)
      (dropped : (n : Node X) → keep n ≡ false → visit (some n) wf_path method ≡ skip)
      (same : (n : Node X)
        → visit (some (remake n)) wf_path method ≡ visit (some n) wf_path method) where
    search_nodes-rebuild :
        (key : String) (pb ns : Playbook X) (rest : Found X)
        → search_nodes wf_path method app_name key (rebuild pb) (rebuild ns) (rebuild_found rest)
          ≡ rebuild_found (search_nodes wf_path method app_name key pb ns rest)
    unfolding search_nodes rebuild rebuild_found
    search_nodes-rebuild key pb [] rest = refl
    search_nodes-rebuild key pb ((k, none) ∷ ns) rest = refl
    search_nodes-rebuild key pb ((k, some n) ∷ ns) rest =
        let ih = search_nodes-rebuild key pb ns rest in
        elim (Bool-cases (keep n)) [
          | inr e ↦ ground (arith, e, ih, dropped n e)
          | inl e ↦ elim (Visit-cases (visit (some n) wf_path method)) [
            | inl f ↦ ground (arith, e, f, same n, ih)
            | inr (inl f) ↦ ground (arith, e, f, same n, ih)
            | inr (inr (vs, r, f)) ↦ ground (arith, e, f, same n, ih)
          ]
        ]

    search_flows-rebuild :
        (key : String) (flows : Dict (Option (Playbook X))) (rest : Found X)
        → search_flows wf_path method app_name key (rebuild_flows flows) (rebuild_found rest)
          ≡ rebuild_found (search_flows wf_path method app_name key flows rest)
    unfolding search_flows rebuild_flows rebuild_found
    search_flows-rebuild key [] rest = refl
    search_flows-rebuild key ((k, none) ∷ flows) rest = refl
    search_flows-rebuild key ((k, some pb) ∷ flows) rest =
        ap (λ r. search_nodes wf_path method app_name key (rebuild pb) (rebuild pb) r)
          (search_flows-rebuild key flows rest)
        ∙ search_nodes-rebuild key pb pb _

    pub get_workflow-rebuild_books :
        (books : Books X)
        → get_workflow wf_path method app_name (rebuild_books books)
          ≡ rebuild_found (get_workflow wf_path method app_name books)
    unfolding get_workflow rebuild_books rebuild_found
    get_workflow-rebuild_books [] = refl
    get_workflow-rebuild_books ((key, flows) ∷ books) =
        ap (λ r. search_flows wf_path method app_name key (rebuild_flows flows) r)
          (get_workflow-rebuild_books books)
        ∙ search_flows-rebuild key flows _
