-- ===== src/Workflow/Routing.antt =====
-- `GetWorkflow` and the use that `run` makes of its result.
use nflow_runtime.Common.{
  ◌≡◌, refl, ◌⊎◌, inl, inr, Bool, true, Option, none, some, [], ◌∷◌, String, eq_iff, arith,
  Bool-cases, Option-cases, str_eq, ◌&&◌, List,
}
use nflow_runtime.Common.Dict.{Dict, lookup}
use nflow_runtime.Workflow.{
  Connection, Output, has_connections, Node, Playbook, Controller, Vars, compare_path, value_of,
  as_text, Visit, skip, panic, chosen, is_connected, accepts, resets, try_path, visit, Found, found,
  controller, search_nodes, search_flows, get_workflow,
}

pub Visit-cases :
    (v : Visit)
    → (v ≡ skip) ⊎ (v ≡ panic) ⊎ ((vars : Vars) × (reset : Bool) × (v ≡ chosen vars reset))
Visit-cases skip = inl refl
Visit-cases panic = inr (inl refl)
Visit-cases (chosen vars reset) = inr (inr (vars, reset, refl))

-- An output with a connection stands at `output_1`, and `first` is its first connection.
pub record Leads (outputs : Option (Dict (Option Output))) : Type 0 where
  pub held : Dict (Option Output)
  pub output : Output
  pub first : Connection
  pub rest : List Connection
  pub some_held : outputs ≡ some held
  pub listed : lookup "output_1" held ≡ some (some output)
  pub connected : output.connections ≡ some (first ∷ rest)

module _ {X : Type 0} where
  -- A starter that answers this request.
  pub record Answers (n : Node X) (wf_path method : String) (vars : Vars) : Type 0 where
    pub starter : as_text (value_of n.values "type") ≡ some "starter"
    pub connected : Leads n.outputs
    pub accepted : accepts n.values method ≡ true
    pub pattern : String
    pub written : as_text (value_of n.values "urlpattern") ≡ some pattern
    pub matched : compare_path pattern wf_path ≡ some vars

  is_connected-Leads : (n : Node X) → is_connected n ≡ true → Leads n.outputs
  unfolding is_connected has_connections
  is_connected-Leads n e = elim (Option-cases n.outputs) [
    | inl f ↦ absurd (ground (arith, e, f))
    | inr (held, f) ↦ elim (Option-cases (lookup "output_1" held)) [
      | inl g ↦ absurd (ground (arith, e, f, g))
      | inr (none, g) ↦ absurd (ground (arith, e, f, g))
      | inr (some output, g) ↦ elim (Option-cases output.connections) [
        | inl h ↦ absurd (ground (arith, e, f, g, h))
        | inr ([], h) ↦ absurd (ground (arith, e, f, g, h))
        | inr (first ∷ rest, h) ↦ record {
          held = held;
          output = output;
          first = first;
          rest = rest;
          some_held = f;
          listed = g;
          connected = h;
        }
      ]
    ]
  ]

  Leads-is_connected : (n : Node X) → Leads n.outputs → is_connected n ≡ true
  unfolding is_connected has_connections
  Leads-is_connected n l = ground (arith, l.some_held, l.listed, l.connected)

  visit-Answers :
      (n : Node X) (wf_path method : String) (vars : Vars) (reset : Bool)
      → visit (some n) wf_path method ≡ chosen vars reset
      → Answers n wf_path method vars
  unfolding visit try_path is_connected
  visit-Answers n wf_path method vars reset e =
      elim (Option-cases (as_text (value_of n.values "type"))) [
        | inl f ↦ absurd (ground (arith, e, f))
        | inr (ty, f) ↦
            elim (Bool-cases (str_eq ty "starter" && is_connected n && accepts n.values method)) [
              | inr refused ↦ absurd (ground (arith, e, f, refused))
              | inl ready ↦ elim (Option-cases (as_text (value_of n.values "urlpattern"))) [
                | inl g ↦ absurd (ground (arith, e, f, ready, g))
                | inr (pattern, g) ↦ elim (Option-cases (compare_path pattern wf_path)) [
                  | inl h ↦ absurd (ground (arith, e, f, ready, g, h))
                  | inr (vs, h) ↦ record {
                    starter = ground (arith, f, ready, eq_iff ty "starter");
                    connected = is_connected-Leads n (ground (arith, ready));
                    accepted = ground (arith, ready);
                    pattern = pattern;
                    written = g;
                    matched = ground (arith, e, f, ready, g, h);
                  }
                ]
              ]
            ]
      ]

  pub Answers-visit :
      (n : Node X) (wf_path method : String) (vars : Vars)
      → Answers n wf_path method vars
      → visit (some n) wf_path method ≡ chosen vars (resets n.values method)
  unfolding visit try_path is_connected
  Answers-visit n wf_path method vars a =
      let joined = Leads-is_connected n a.connected in
      ground
        (arith, a.starter, joined, a.accepted, a.written, a.matched, eq_iff "starter" "starter")

  -- A node that stands in one of the playbooks, under the name of its flow.
  abbrev pub InNodes : Option (Node X) → Playbook X → Type 0
  InNodes n [] = ⊥
  InNodes n ((k, m) ∷ ms) = (m ≡ n) ⊎ InNodes n ms

  abbrev pub InFlows : Playbook X → Dict (Option (Playbook X)) → Type 0
  InFlows pb [] = ⊥
  InFlows pb ((k, p) ∷ ps) = (p ≡ some pb) ⊎ InFlows pb ps

  abbrev pub InPlaybooks : String → Playbook X → Dict (Dict (Option (Playbook X))) → Type 0
  InPlaybooks key pb [] = ⊥
  InPlaybooks key pb ((k, flows) ∷ rest) = ((k ≡ key) × InFlows pb flows) ⊎ InPlaybooks key pb rest

  module _ (wf_path method app_name : String) where
    -- What is said of a result: its controller is made of a node of its playbook that answers.
    pub record IsChosen (c : Controller X) (vars : Vars) (books : Dict (Dict (Option (Playbook X))))
        : Type 0 where
      pub key : String
      pub pb : Playbook X
      pub node : Node X
      pub made : c ≡ controller wf_path method app_name key pb (some node)
      pub listed : InNodes (some node) pb
      pub placed : InPlaybooks key pb books
      pub answers : Answers node wf_path method vars

    search_nodes-found :
        (key : String) (pb ns : Playbook X) (rest : Found X) (c : Controller X) (vars : Vars)
        (reset : Bool)
        → search_nodes wf_path method app_name key pb ns rest ≡ found c vars reset
        → ((n : Node X) × (c ≡ controller wf_path method app_name key pb (some n))
            × InNodes (some n) ns
            × Answers n wf_path method vars)
          ⊎ (rest ≡ found c vars reset)
    unfolding search_nodes
    search_nodes-found key pb [] rest c vars reset e = inr e
    search_nodes-found key pb ((k, none) ∷ ns) rest c vars reset e = absurd (ground (arith, e))
    search_nodes-found key pb ((k, some n) ∷ ns) rest c vars reset e =
        elim (Visit-cases (visit (some n) wf_path method)) [
          | inl f ↦ elim (search_nodes-found key pb ns rest c vars reset (ground (arith, e, f))) [
            | inl (m, made, listed, answers) ↦ inl (m, made, inr listed, answers)
            | inr later ↦ inr later
          ]
          | inr (inl f) ↦ absurd (ground (arith, e, f))
          | inr (inr (vs, r, f)) ↦
              let same : found (controller wf_path method app_name key pb (some n)) vs r
                  ≡ found c vars reset =
                ground (arith, e, f) in
              inl (
                n,
                ground (arith, same),
                inl refl,
                visit-Answers n wf_path method vars r (ground (arith, same, f)),
              )
        ]

    search_flows-found :
        (key : String) (flows : Dict (Option (Playbook X))) (rest : Found X) (c : Controller X)
        (vars : Vars) (reset : Bool)
        → search_flows wf_path method app_name key flows rest ≡ found c vars reset
        → ((n : Node X) × (pb : Playbook X) × (c
              ≡ controller wf_path method app_name key pb (some n))
            × InNodes (some n) pb
            × InFlows pb flows
            × Answers n wf_path method vars)
          ⊎ (rest ≡ found c vars reset)
    unfolding search_flows
    search_flows-found key [] rest c vars reset e = inr e
    search_flows-found key ((k, none) ∷ flows) rest c vars reset e = absurd (ground (arith, e))
    search_flows-found key ((k, some pb) ∷ flows) rest c vars reset e =
        elim (search_nodes-found key pb pb _ c vars reset e) [
          | inl (n, made, listed, answers) ↦ inl (n, pb, made, listed, inl refl, answers)
          | inr f ↦ elim (search_flows-found key flows rest c vars reset f) [
            | inl (n, p, made, listed, placed, answers) ↦
                inl (n, p, made, listed, inr placed, answers)
            | inr later ↦ inr later
          ]
        ]

    -- A workflow that `GetWorkflow` finds starts at a node of its playbook that is a starter with a
    -- connection, and whose method and URL pattern fit the request.
    pub get_workflow-IsChosen :
        (books : Dict (Dict (Option (Playbook X)))) (c : Controller X) (vars : Vars) (reset : Bool)
        → get_workflow wf_path method app_name books ≡ found c vars reset
        → IsChosen c vars books
    unfolding get_workflow
    get_workflow-IsChosen [] c vars reset e = absurd (ground (arith, e))
    get_workflow-IsChosen ((key, flows) ∷ books) c vars reset e =
        elim (search_flows-found key flows _ c vars reset e) [
          | inl (n, pb, made, listed, placed, answers) ↦ record {
            key = key;
            pb = pb;
            node = n;
            made = made;
            listed = listed;
            placed = inl (refl, placed);
            answers = answers;
          }
          | inr later ↦
              let v = get_workflow-IsChosen books c vars reset later in
              record {
                key = v.key;
                pb = v.pb;
                node = v.node;
                made = v.made;
                listed = v.listed;
                placed = inr v.placed;
                answers = v.answers;
              }
        ]
