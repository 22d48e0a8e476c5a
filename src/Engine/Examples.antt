-- ===== src/Engine/Examples.antt =====
-- The theorems about the engine at a workflow of two nodes, whose steps pass their payload on.
use nflow_runtime.Common.{
  ℕ, ◌<◌, ◌≡◌, ◌≢◌, refl, true, false, Option, none, some, [], ◌∷◌, String, arith, eq_iff, inl, inr,
  sym, ap, ◌∙◌, ◌⊎◌, Bool-cases, if◌then◌else◌, str_eq,
}
use nflow_runtime.Common.Dict.{Dict, lookup, insert}
use nflow_runtime.Common.Text.{is_empty}
use nflow_runtime.Process.{
  Process, get_elem?, create_process, new_process, store, w_kill, modify, get_flag_exit,
}
use nflow_runtime.Workflow.{Value, text, Node, Playbook, as_text}
use nflow_runtime.Engine.{
  Payload, Exec, Outcome, ran, StepResult, went, lost, Runtime, Result, done, crashed, merge, save,
  is_break, step, run_node, execute, finish, close_process, loop, round, after_step, is_flagged,
  is_one, node_at, text_at, write_process, set_type, payload_map, merged, saved,
}
use nflow_runtime.Engine.Sessions.{merge-save, is_break-merge}
use nflow_runtime.Engine.Ends.{execute-w_kill, boxed}
use nflow_runtime.Engine.Termination.{Descends, execute-terminates}
use nflow_runtime.Engine.Isolation.{LeavesForm, execute-isolated}

abbrev form : Dict (Value ℕ)
form = ("name", text "Ada") ∷ ("break", text "true") ∷ []

abbrev payload : Dict (Value ℕ)
payload = ("step", text "2") ∷ []

not_break : ◌≢◌ {A = String} "step" "break"
not_break = ground (arith, eq_iff "step" "break")

merge-save_example : lookup "step" (merge (save payload form) []) ≡ some (text "2")
unfolding lookup
merge-save_example =
    merge-save "step" (text "2") payload form [] (refl, tt) (refl, (refl, tt)) refl not_break

is_break-merge_example : is_break (merge form payload) ≡ is_break payload
unfolding lookup
is_break-merge_example = is_break-merge form payload (refl, (refl, tt))

-- Steps of the type "js" that pass their payload on to the node that their "next" names.
unfoldable next_of : Option String → String
next_of none = ""
next_of (some name) = name

unfoldable pass_on : ℕ → Node ℕ → Exec ℕ ℕ → Option (Payload ℕ) → Outcome ℕ × Exec ℕ ℕ
unfolding next_of text_at
pass_on p n e x = (ran (next_of (text_at "next" n.values)) x, e)

unfoldable find_js :
    String → Option (ℕ → Node ℕ → Exec ℕ ℕ → Option (Payload ℕ) → Outcome ℕ × Exec ℕ ℕ)
find_js type_name = if str_eq type_name "js" then some pass_on else none

abbrev in_turn : Runtime ℕ ℕ
in_turn = record { find = find_js; deep_copy = λ n. some n; set_boxes = λ s current previous. s }

abbrev two_nodes : Playbook ℕ
two_nodes =
    (
      "n1",
      some (record { values = ("type", text "js") ∷ ("next", text "n2") ∷ []; outputs = none }),
    )
    ∷ ("n2", some (record { values = ("type", text "js") ∷ []; outputs = none }))
    ∷ []

abbrev fresh : Exec ℕ ℕ
fresh = record {
  world = (create_process "w1" (record { heap = []; repo = []; closed = [] })).1;
  form = some form;
  replies = [];
  state = 0;
}

abbrev first : Process (Payload ℕ)
first = new_process "w1" none

execute-w_kill_example :
    execute in_turn two_nodes 0 false false 2 "n1" none
      (record fresh { world = w_kill "w1" fresh.world })
    ≡ some (
        done (
          finish 0 false false "" (
            close_process 0 (
              boxed in_turn two_nodes 0 false "" "n1"
                (record fresh { world = w_kill "w1" fresh.world })))))
unfolding create_process new_process store insert lookup get_elem? is_empty payload_map
execute-w_kill_example =
    execute-w_kill in_turn two_nodes 0 false false 0 "w1" "n1" none [] fresh first refl refl refl
      refl

abbrev rank : String → ℕ
rank name = if str_eq name "n1" then 1 else 0

step-in_turn :
    (e : Exec ℕ ℕ) (next : String) (p : Option (Payload ℕ))
    → ((step in_turn two_nodes 0 e next p).0 ≡ went "" none)
      ⊎ ((step in_turn two_nodes 0 e next p).0 ≡ lost)
      ⊎ ((step in_turn two_nodes 0 e next p).0 ≡ went "" p)
      ⊎ ((next ≡ "n1") × ((step in_turn two_nodes 0 e next p).0 ≡ went "n2" p))
unfolding step node_at text_at run_node find_js pass_on next_of lookup as_text set_type
    write_process
step-in_turn e next p = elim (Bool-cases (is_flagged 0 e)) [
  | inl set ↦ inl (rw (set, step) refl)
  | inr live ↦ elim (Bool-cases (str_eq "n1" next)) [
    | inl one ↦
        inr (inr (inr (sym ((eq_iff "n1" next).0 one), rw (live, step, one, node_at, lookup) refl)))
    | inr other ↦ elim (Bool-cases (str_eq "n2" next)) [
      | inl two ↦ inr (inr (inl (rw (live, step, other, two, node_at, lookup) refl)))
      | inr neither ↦ inr (inl (rw (live, step, other, neither, node_at, lookup) refl))
    ]
  ]
]

abbrev next_in : StepResult ℕ → String
next_in lost = ""
next_in (went next p) = next

in_turn-Descends : Descends in_turn two_nodes 0 rank
unfolding is_empty
in_turn-Descends next next' p p' e e' h more =
    let named : (r : StepResult ℕ) → (step in_turn two_nodes 0 e next p).0 ≡ r → next_in r ≡ next' =
      λ r f. ap next_in (sym f ∙ ap (λ r. r.0) h) in
    let contradiction : "" ≡ next' → rank next' < rank next =
      λ last. absurd (ground (arith, ap is_empty last, more)) in
    elim (step-in_turn e next p) [
      | inl f ↦ contradiction (named _ f)
      | inr (inl f) ↦ contradiction (named _ f)
      | inr (inr (inl f)) ↦ contradiction (named _ f)
      | inr (inr (inr (one, f))) ↦
          let two : "n2" ≡ next' = named _ f in rw (one, sym two) (omega arith)
    ]

execute-terminates_example :
    (r : Result ℕ ℕ) × (execute in_turn two_nodes 0 false false 3 "n1" none fresh ≡ some r)
execute-terminates_example =
    execute-terminates in_turn two_nodes 0 false rank false "n1" none fresh in_turn-Descends

in_turn-LeavesForm : LeavesForm in_turn two_nodes 0
unfolding find_js pass_on
in_turn-LeavesForm type_name run found n e p = elim (Bool-cases (str_eq type_name "js")) [
  | inl js ↦
      let same : pass_on ≡ run = ground (arith, found, js) in
      sym (ap (λ r. (r 0 n e p).1.form) same)
  | inr other ↦ absurd (ground (arith, found, other))
]

unfoldable done_state : Option (Result ℕ ℕ) → Exec ℕ ℕ
done_state none = fresh
done_state (some (done e)) = e
done_state (some (crashed e)) = e

abbrev after : Exec ℕ ℕ
after = done_state (execute in_turn two_nodes 0 true true 5 "n1" none fresh)

after_done : execute in_turn two_nodes 0 true true 5 "n1" none fresh ≡ some (done after)
unfolding create_process new_process store insert lookup get_elem? is_empty execute loop finish
    round step is_flagged get_flag_exit is_one node_at text_at run_node find_js pass_on next_of
    payload_map merged saved after_step as_text write_process modify set_type is_break done_state
after_done = refl

execute-isolated_example : after.form ≡ fresh.form
execute-isolated_example =
    execute-isolated in_turn two_nodes 0 true 5 "n1" none fresh after in_turn-LeavesForm after_done
