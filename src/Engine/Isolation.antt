-- ===== src/Engine/Isolation.antt =====
-- What a workflow in an isolated context, as every fork has, leaves alone.
use nflow_runtime.Common.{
  ℕ, zero, suc, ◌≡◌, refl, ◌∙◌, inl, inr, Bool, true, false, Option, none, some, String, arith,
  Option-cases, Bool-cases, not, ◌&&◌,
}
use nflow_runtime.Common.Dict.{Dict}
use nflow_runtime.Common.Text.{is_empty}
use nflow_runtime.Workflow.{Value, Playbook, Node}
use nflow_runtime.Engine.{
  Payload, object, scalar, Exec, Outcome, Runtime, StepResult, went, lost, step, run_node,
  payload_map, merged, Round, goes_on, stops, crashes, done, after_step, round, loop, finish,
  execute, saved, is_flagged, close_process, write_process, set_type, reply, node_at, text_at,
}
use nflow_runtime.Engine.Termination.{Round-cases}

module _ {X S : Type 0} where
  close_process-form : (a : ℕ) (e : Exec X S) → (close_process a e).form ≡ e.form
  unfolding close_process
  close_process-form a e = ground arith

  write_process-form : (a : ℕ) (f : _) (e : Exec X S) → (write_process a f e).form ≡ e.form
  unfolding write_process
  write_process-form a f e = refl

module _ {X S : Type 0} (g : Runtime X S) (pb : Playbook X) (a : ℕ) where
  -- No step writes the session of the request.
  abbrev pub LeavesForm : Type 0
  LeavesForm =
      (type_name : String) (run : ℕ → Node X → Exec X S → Option (Payload X) → Outcome X × Exec X S)
      → g.find type_name ≡ some run
      → (n : Node X) (e : Exec X S) (payload : Option (Payload X))
      → (run a n e payload).1.form ≡ e.form

  run_node-form :
      (n : Node X) (type_name : String) (e : Exec X S) (payload : Option (Payload X))
      → LeavesForm
      → (run_node g pb a n type_name e payload).1.form ≡ e.form
  unfolding run_node reply
  run_node-form n type_name e payload keeps = elim (Option-cases (g.find type_name)) [
    | inl f ↦ ground (arith, f)
    | inr (run, f) ↦ ground (arith, f, keeps type_name run f n e payload)
  ]

  step-form :
      (e : Exec X S) (next : String) (payload : Option (Payload X))
      → LeavesForm
      → (step g pb a e next payload).1.form ≡ e.form
  unfolding step set_type write_process
  step-form e next payload keeps = elim (Bool-cases (is_flagged a e)) [
    | inl set ↦ rw (set, step) (close_process-form a e)
    | inr live ↦ elim (Option-cases (node_at pb next)) [
      | inl missing ↦ rw (live, step, missing) refl
      | inr (original, found) ↦ found_node original live found
    ]
  ]
    where
      found_node :
          (original : Node X)
          → is_flagged a e ≡ false
          → node_at pb next ≡ some original
          → (step g pb a e next payload).1.form ≡ e.form
      found_node original live found =
          let actor : Node X = elim (g.deep_copy original) [ none ↦ original | some n ↦ n ] in
          elim (Option-cases (text_at "name_box" actor.values)) [
            | inl t ↦ rw (live, step, found, t) refl
            | inr (name, t) ↦ elim (Option-cases (text_at "type" actor.values)) [
              | inl u ↦ rw (live, step, found, t, u) refl
              | inr (type_name, u) ↦
                  rw (live, step, found, t, u) (run_node-form actor type_name _ payload keeps)
            ]
          ]

  -- The state with which a round ends.
  abbrev state_of : Round X S → Exec X S
  state_of (goes_on next payload e) = e
  state_of (stops next e) = e
  state_of (crashes e) = e

  after_step-form : (r : StepResult X × Exec X S) → (state_of (after_step true r)).form ≡ r.1.form
  unfolding after_step saved
  after_step-form (lost, e) = refl
  after_step-form (went next none, e) = refl
  after_step-form (went next (some (scalar x)), e) = refl
  after_step-form (went next (some (object m)), e) = ground arith

  round-form :
      (previous next : String) (payload : Option (Payload X)) (e : Exec X S)
      → LeavesForm
      → (state_of (round g pb a true previous next payload e)).form ≡ e.form
  unfolding round
  round-form previous next payload e keeps = elim (Option-cases (payload_map payload)) [
    | inl f ↦ rw (f, round) refl
    | inr (m, f) ↦
        let e1 : Exec X S = record e { state = g.set_boxes e.state next previous } in
        let p : Option (Payload X) = some (object (merged true e1 m)) in
        rw (f, round) (after_step-form (step g pb a e1 next p) ∙ step-form e1 next p keeps)
  ]

  -- What the loop comes to, if it does, has the form `form`.
  abbrev HasForm : Option (Dict (Value X)) → Option (Round X S) → Type 0
  HasForm form none = Unit
  HasForm form (some r) = (state_of r).form ≡ form

  HasForm-shift :
      (form form' : Option (Dict (Value X))) (o : Option (Round X S))
      → form ≡ form'
      → HasForm form o
      → HasForm form' o
  HasForm-shift form form' none same v = tt
  HasForm-shift form form' (some r) same v = v ∙ same

  loop-form :
      (fuel : ℕ) (previous next : String) (payload : Option (Payload X)) (e : Exec X S)
      → LeavesForm
      → HasForm e.form (loop g pb a true fuel previous next payload e)
  unfolding loop
  loop-form zero previous next payload e keeps = tt
  loop-form (suc fuel) previous next payload e keeps = elim (Bool-cases (is_empty next)) [
    | inl last ↦ rw (last, loop) refl
    | inr more ↦ elim (Round-cases (round g pb a true previous next payload e)) [
      | inl (next', payload', e', h) ↦
          let same : e'.form ≡ e.form = rw h at (round-form previous next payload e keeps) in
          rw (more, loop, h)
            (HasForm-shift e'.form e.form (loop g pb a true fuel next next' payload' e') same
              (loop-form fuel next next' payload' e' keeps))
      | inr (inl (next', e', h)) ↦
          rw (more, loop, h) (rw h at (round-form previous next payload e keeps))
      | inr (inr (e', h)) ↦ rw (more, loop, h) (rw h at (round-form previous next payload e keeps))
    ]
  ]

  finish-form :
      (fork : Bool) (next : String) (e : Exec X S) → (finish a true fork next e).form ≡ e.form
  unfolding finish write_process
  finish-form fork next e = elim (Bool-cases (is_empty next && not fork)) [
    | inl last ↦ rw (last, finish) (close_process-form a _)
    | inr more ↦ rw (more, finish) refl
  ]

  -- In an isolated context `Execute` leaves the session of the request as it is, from the first node
  -- to the last, as long as the steps themselves do.
  pub execute-isolated :
      (fork : Bool) (fuel : ℕ) (next : String) (payload : Option (Payload X)) (e e' : Exec X S)
      → LeavesForm
      → execute g pb a true fork fuel next payload e ≡ some (done e')
      → e'.form ≡ e.form
  unfolding execute
  execute-isolated fork fuel next payload e e' keeps h =
      let v = loop-form fuel "" next payload e keeps in
      elim (Option-cases (loop g pb a true fuel "" next payload e)) [
        | inl f ↦ absurd (ground (arith, h, f))
        | inr (goes_on n p x, f) ↦ absurd (ground (arith, h, f))
        | inr (crashes x, f) ↦ absurd (ground (arith, h, f))
        | inr (stops n x, f) ↦
            let kept : x.form ≡ e.form = rw f at v in
            let same : finish a true fork n x ≡ e' = ground (arith, h, f) in
            rw (← same) (finish-form fork n x ∙ kept)
      ]
