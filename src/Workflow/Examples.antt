-- ===== src/Workflow/Examples.antt =====
-- The theorems about workflows at a playbook with one starter.
use nflow_runtime.Common.{ℕ, ◌≡◌, refl, ◌↔◌, false, Option, some, [], ◌∷◌, length, inl}
use nflow_runtime.Common.Dict.{Dict, lookup, insert}
use nflow_runtime.Common.Text.{split, is_empty, begins, tail, cons_first}
use nflow_runtime.Workflow.{
  text, Node, Playbook, Controller, Vars, compare_path, match_terms, found, get_workflow,
  controller, search_flows, search_nodes, visit, try_path, accepts, is_connected, has_connections,
  resets, is_text, value_of, as_text,
}
use nflow_runtime.Workflow.Paths.{Matches, compare_path-Matches}
use nflow_runtime.Workflow.Routing.{IsChosen, Answers, get_workflow-IsChosen}
use nflow_runtime.Workflow.NotFound.{get_workflow-not_found}

compare_path-Matches_example :
    ((vars : Vars) × (compare_path "/users/:id" "/users/7" ≡ some vars)) ↔ (
      (length (split 47 "/users/:id") ≡ length (split 47 "/users/7"))
      × Matches (split 47 "/users/:id") (split 47 "/users/7"))
compare_path-Matches_example = compare_path-Matches "/users/:id" "/users/7"

abbrev entry : Node ℕ
entry = record {
  values =
      ("type", text "starter") ∷ ("method", text "ANY") ∷ ("urlpattern", text "/users/:id") ∷ [];
  outputs = some (
      (
        "output_1",
        some (record { connections = some (record { node = "n2"; output = "input_1" } ∷ []) }),
      )
      ∷ []);
}

abbrev flow : Playbook ℕ
flow = ("n1", some entry) ∷ []

abbrev books : Dict (Dict (Option (Playbook ℕ)))
books = ("app", ("data", some flow) ∷ []) ∷ []

abbrev served : Controller ℕ
served = controller "/users/7" "GET" "shop" "app" flow (some entry)

serves : get_workflow "/users/7" "GET" "shop" books ≡ found served (("id", "7") ∷ []) false
unfolding get_workflow search_flows search_nodes visit try_path accepts is_connected has_connections
    resets is_text value_of as_text lookup compare_path match_terms split cons_first is_empty begins
    tail insert
serves = refl

get_workflow-IsChosen_example : IsChosen "/users/7" "GET" "shop" served (("id", "7") ∷ []) books
get_workflow-IsChosen_example =
    get_workflow-IsChosen "/users/7" "GET" "shop" books served (("id", "7") ∷ []) false serves

get_workflow-not_found_example : ¬ Answers entry "/orders" "GET" []
unfolding get_workflow search_flows search_nodes visit try_path accepts is_connected has_connections
    resets is_text value_of as_text lookup compare_path match_terms split cons_first is_empty begins
    tail insert
get_workflow-not_found_example =
    get_workflow-not_found "/orders" "GET" "shop" books "app" flow entry [] refl
      (inl (refl, inl refl)) (inl refl)
