-- ===== src/Playbooks/Routes.antt =====
-- The two ways in which the cache remakes an application, `deepCopyPlaybooks` and
-- `cleanPlaybooksForCache`, against the workflows that `GetWorkflow` finds in it.
use nflow_runtime.Common.{
  ◌≡◌, refl, sym, ap, ◌∙◌, inl, inr, Bool, true, false, Option, none, some, List, [], ◌∷◌, String,
  if◌then◌else◌, arith, Option-cases, eq_iff,
}
use nflow_runtime.Common.Dict.{Dict, lookup}
use nflow_runtime.Workflow.{
  Value, nil, text, flag, other, Output, Connection, Node, Playbook, skip, visit, get_workflow,
  value_of, is_text, as_text, has_connections, is_connected,
}
use nflow_runtime.Playbooks.{
  Books, copy_output, copy_outputs, copy_node, copy_playbook, copy_flows, deep_copy_playbooks,
  has_output_1, is_kept, clean_playbook, clean_flows, clean_playbooks_for_cache,
}
use nflow_runtime.Playbooks.Rebuild.{
  rebuild, rebuild_flows, rebuild_books, rebuild_found, get_workflow-rebuild_books,
}

abbrev kept : Option (Option Output) → Option (Option Output)
kept none = none
kept (some none) = some none
kept (some (some o)) = some (some (copy_output o))

lookup-copy_outputs :
    (k : String) (outputs : Dict (Option Output))
    → lookup k (copy_outputs outputs) ≡ kept (lookup k outputs)
unfolding copy_outputs lookup
lookup-copy_outputs k [] = refl
lookup-copy_outputs k ((j, none) ∷ outputs) = ground (arith, lookup-copy_outputs k outputs)
lookup-copy_outputs k ((j, some o) ∷ outputs) = ground (arith, lookup-copy_outputs k outputs)

leads : Option Output → Bool
leads none = false
leads (some o) = has_connections o.connections

leads-copy_output : (o : Output) → leads (some (copy_output o)) ≡ leads (some o)
unfolding leads has_connections copy_output
leads-copy_output o = go o.connections
  where
    go :
        (cs : Option (List Connection))
        → leads (some (copy_output (record { connections = cs })))
          ≡ leads (some (record { connections = cs }))
    go none = refl
    go (some []) = refl
    go (some (c ∷ cs)) = refl

module _ {X : Type 0} where
  is_connected-copy_node : (n : Node X) → is_connected (copy_node n) ≡ is_connected n
  unfolding is_connected copy_node lookup leads
  is_connected-copy_node n = go n.outputs
    where
      go :
          (outputs : Option (Dict (Option Output)))
          → is_connected (copy_node (record n { outputs = outputs }))
            ≡ is_connected (record n { outputs = outputs })
      go none = refl
      go (some outputs) =
          let copy = lookup-copy_outputs "output_1" outputs in
          elim (Option-cases (lookup "output_1" outputs)) [
            | inl e ↦ rw (is_connected, copy_node, copy ∙ ap kept e, e) refl
            | inr (none, e) ↦ rw (is_connected, copy_node, copy ∙ ap kept e, e) refl
            | inr (some o, e) ↦
                rw (is_connected, copy_node, copy ∙ ap kept e, e) (leads-copy_output o)
          ]

  copy_node-values : (n : Node X) → (copy_node n).values ≡ n.values
  unfolding copy_node
  copy_node-values n = go n.outputs
    where
      go :
          (outputs : Option (Dict (Option Output)))
          → (copy_node (record n { outputs = outputs })).values ≡ n.values
      go none = refl
      go (some outputs) = refl

  visit-alike :
      (wf_path method : String) (n m : Node X)
      → n.values ≡ m.values
      → is_connected n ≡ is_connected m
      → visit (some n) wf_path method ≡ visit (some m) wf_path method
  unfolding visit
  visit-alike wf_path method n m e f = ground (arith, e, f)

  visit-copy_node :
      (wf_path method : String) (n : Node X)
      → visit (some (copy_node n)) wf_path method ≡ visit (some n) wf_path method
  visit-copy_node wf_path method n =
      visit-alike wf_path method (copy_node n) n (copy_node-values n) (is_connected-copy_node n)

  copy_playbook-rebuild : (pb : Playbook X) → copy_playbook pb ≡ rebuild (λ n. true) copy_node pb
  unfolding copy_playbook rebuild
  copy_playbook-rebuild [] = refl
  copy_playbook-rebuild ((k, none) ∷ pb) = ap (λ r. (k, none) ∷ r) (copy_playbook-rebuild pb)
  copy_playbook-rebuild ((k, some n) ∷ pb) =
      ap (λ r. (k, some (copy_node n)) ∷ r) (copy_playbook-rebuild pb)

  copy_flows-rebuild :
      (flows : Dict (Option (Playbook X)))
      → copy_flows flows ≡ rebuild_flows (λ n. true) copy_node flows
  unfolding copy_flows rebuild_flows
  copy_flows-rebuild [] = refl
  copy_flows-rebuild ((k, none) ∷ flows) = ap (λ r. (k, none) ∷ r) (copy_flows-rebuild flows)
  copy_flows-rebuild ((k, some pb) ∷ flows) =
      ground (arith, copy_playbook-rebuild pb, copy_flows-rebuild flows)

  deep_copy_playbooks-rebuild :
      (books : Books X) → deep_copy_playbooks books ≡ rebuild_books (λ n. true) copy_node books
  unfolding deep_copy_playbooks rebuild_books
  deep_copy_playbooks-rebuild [] = refl
  deep_copy_playbooks-rebuild ((k, flows) ∷ books) =
      ground (arith, copy_flows-rebuild flows, deep_copy_playbooks-rebuild books)

  clean_playbook-rebuild : (pb : Playbook X) → clean_playbook pb ≡ rebuild is_kept (λ n. n) pb
  unfolding clean_playbook rebuild
  clean_playbook-rebuild [] = refl
  clean_playbook-rebuild ((k, none) ∷ pb) = ap (λ r. (k, none) ∷ r) (clean_playbook-rebuild pb)
  clean_playbook-rebuild ((k, some n) ∷ pb) =
      ap (λ r. if is_kept n then (k, some n) ∷ r else r) (clean_playbook-rebuild pb)

  clean_flows-rebuild :
      (flows : Dict (Option (Playbook X)))
      → clean_flows flows ≡ rebuild_flows is_kept (λ n. n) flows
  unfolding clean_flows rebuild_flows
  clean_flows-rebuild [] = refl
  clean_flows-rebuild ((k, none) ∷ flows) = ap (λ r. (k, none) ∷ r) (clean_flows-rebuild flows)
  clean_flows-rebuild ((k, some pb) ∷ flows) =
      ground (arith, clean_playbook-rebuild pb, clean_flows-rebuild flows)

  clean_playbooks_for_cache-rebuild :
      (books : Books X) → clean_playbooks_for_cache books ≡ rebuild_books is_kept (λ n. n) books
  unfolding clean_playbooks_for_cache rebuild_books
  clean_playbooks_for_cache-rebuild [] = refl
  clean_playbooks_for_cache-rebuild ((k, flows) ∷ books) =
      ground (arith, clean_flows-rebuild flows, clean_playbooks_for_cache-rebuild books)

  is_text-as_text : (v : Value X) (s : String) → is_text v s ≡ true → as_text v ≡ some s
  unfolding is_text as_text
  is_text-as_text nil s e = absurd (ground (arith, e))
  is_text-as_text (text t) s e = ground (arith, e, eq_iff t s)
  is_text-as_text (flag b) s e = absurd (ground (arith, e))
  is_text-as_text (other x) s e = absurd (ground (arith, e))

  -- What is left out of the cache and what `GetWorkflow` passes over have the same outputs.
  has_output_1-is_connected : (n : Node X) → has_output_1 n ≡ is_connected n
  unfolding has_output_1 is_connected has_connections
  has_output_1-is_connected n = elim (Option-cases n.outputs) [
    | inl e ↦ ground (arith, e)
    | inr (outputs, e) ↦ elim (Option-cases (lookup "output_1" outputs)) [
      | inl f ↦ ground (arith, e, f)
      | inr (none, f) ↦ ground (arith, e, f)
      | inr (some o, f) ↦ elim (Option-cases o.connections) [
        | inl g ↦ ground (arith, e, f, g)
        | inr (cs, g) ↦ ground (arith, e, f, g)
      ]
    ]
  ]

  visit-dropped :
      (wf_path method : String) (n : Node X)
      → is_kept n ≡ false
      → visit (some n) wf_path method ≡ skip
  unfolding is_kept visit
  visit-dropped wf_path method n e =
      let starter : is_text (value_of n.values "type") "starter" ≡ true = ground (arith, e) in
      let cut : is_connected n ≡ false = sym (has_output_1-is_connected n) ∙ ground (arith, e) in
      let typed = is_text-as_text (value_of n.values "type") "starter" starter in
      ground (arith, typed, cut)

  module _ (wf_path method app_name : String) where
    -- `GetWorkflow` finds the same in the deep copy of an application as in the application, with the
    -- copies of its nodes.
    pub deep_copy_playbooks-get_workflow :
        (books : Books X)
        → get_workflow wf_path method app_name (deep_copy_playbooks books)
          ≡ rebuild_found (λ n. true) copy_node (get_workflow wf_path method app_name books)
    deep_copy_playbooks-get_workflow books = rw (deep_copy_playbooks-rebuild books) (
        get_workflow-rebuild_books (λ n. true) copy_node wf_path method app_name
          (λ n e. absurd (ground (arith, e))) (visit-copy_node wf_path method) books)

    -- What `GetWorkflow` finds in an application as the database has it is what it finds in the one
    -- that is kept for it: the starters that are left out answer no request.
    pub clean_playbooks_for_cache-get_workflow :
        (books : Books X)
        → get_workflow wf_path method app_name (clean_playbooks_for_cache books)
          ≡ rebuild_found is_kept (λ n. n) (get_workflow wf_path method app_name books)
    clean_playbooks_for_cache-get_workflow books = rw (clean_playbooks_for_cache-rebuild books) (
        get_workflow-rebuild_books is_kept (λ n. n) wf_path method app_name
          (visit-dropped wf_path method) (λ n. refl) books)
