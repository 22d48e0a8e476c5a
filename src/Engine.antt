-- ===== src/Engine.antt =====
-- engine/engine.go: `Execute`, which runs a workflow node by node, and `step`, which runs one node.
-- The steps themselves (scripts and plugins) are parameters; they may do anything to the state of
-- the request, also what other goroutines do meanwhile. The session is the values of `nflow_form`,
-- by their keys, which are strings. The log session, the tracker entry and the logs are left out.
pub mod Sessions
pub mod AuthCode
pub mod Helpers
pub mod Ends
pub mod Termination
pub mod Isolation
pub mod Examples
use Prim.Native.String
use nflow_runtime.Common.{
  ℕ, zero, suc, ◌+◌, String, Bool, true, false, not, ◌&&◌, ◌||◌, Option, none, some, List, [], ◌∷◌,
  if◌then◌else◌, str_eq, ◌==◌, ◌++◌,
}
use nflow_runtime.Common.Int.{ℤ, pos, negsuc}
use nflow_runtime.Common.Dict.{Dict, lookup, insert}
use nflow_runtime.Common.Text.{is_empty}
use nflow_runtime.Process.{Process, World, get_elem?, modify, close, get_flag_exit}
use nflow_runtime.Workflow.{Value, nil, text, flag, other, Node, Playbook, as_text, is_text}

-- A goja value as `Export` shows it: an object, or anything else.
pub data Payload (X : Type 0) : Type 0 where
  object : Dict (Value X) → Payload X
  scalar : X → Payload X

-- The state of a request of type `S` holds the machine and the response. `form` is `none` when
-- `session.Get` fails. `replies` are the status codes and error texts sent by the engine.
pub record Exec (X S : Type 0) : Type 0 where
  pub world : World (Payload X)
  pub form : Option (Dict (Value X))
  pub replies : List (ℕ × String)
  pub state : S

-- What the `Run` of a step comes to.
pub data Outcome (X : Type 0) : Type 0 where
  ran : (next : String) → Option (Payload X) → Outcome X
  failed : Outcome X
  panicked : Outcome X

-- `find` looks up `Steps`, `deep_copy` is `DeepCopy` (`none` is an error), `set_boxes` sets
-- `current_box` and `prev_box` in the machine.
pub record Runtime (X S : Type 0) : Type 0 where
  pub find :
      (type_name : String)
      → Option ((process : ℕ) → Node X → Exec X S → Option (Payload X) → Outcome X × Exec X S)
  pub deep_copy : Node X → Option (Node X)
  pub set_boxes : S → (current previous : String) → S

-- What `step` returns: the next node and the payload, or an error.
pub data StepResult (X : Type 0) : Type 0 where
  went : (next : String) → Option (Payload X) → StepResult X
  lost : StepResult X

module _ {X : Type 0} where
  -- `payloadMap[k] = v` for each value of the session, but for the key "break"
  unfoldable pub merge : Dict (Value X) → (payload_map : Dict (Value X)) → Dict (Value X)
  merge [] payload_map = payload_map
  merge ((k, v) ∷ form) payload_map =
      let skipped = merge form payload_map in
      let taken = merge form (insert k v payload_map) in if str_eq k "break" then skipped else taken

  -- `s.Values[k] = v` for each value of the payload
  unfoldable pub save : Dict (Value X) → (form : Dict (Value X)) → Dict (Value X)
  save [] form = form
  save ((k, v) ∷ raw_payload) form = save raw_payload (insert k v form)

  unfoldable pub is_break_value : Value X → Bool
  is_break_value nil = false
  is_break_value (text t) = str_eq t "true"
  is_break_value (flag b) = b
  is_break_value (other x) = false

  unfoldable pub is_break : Dict (Value X) → Bool
  unfolding is_break_value
  is_break raw_payload = elim (lookup "break" raw_payload) [
    | none ↦ false
    | some v ↦ is_break_value v
  ]

  -- `m[key].(string)` if the key is there: a missing one leaves "", and another type panics.
  unfoldable pub text_at : String → Dict (Value X) → Option String
  unfolding as_text
  text_at key values = elim (lookup key values) [ none ↦ some "" | some v ↦ as_text v ]

  -- The node of a playbook under a key: nil if it is missing or null.
  unfoldable pub node_at : Playbook X → String → Option (Node X)
  node_at pb next = elim (lookup next pb) [ none ↦ none | some n ↦ n ]

-- The payload as a map: nil is an empty one, and anything but an object crashes the program,
-- since the goroutine that asserts the type does not recover.
unfoldable pub payload_map : {X : Type 0} → Option (Payload X) → Option (Dict (Value X))
payload_map none = some []
payload_map (some (object m)) = some m
payload_map (some (scalar x)) = none

-- `== 1`
unfoldable pub is_one : ℤ → Bool
is_one (pos n) = n == 1
is_one (negsuc n) = false

module _ {X S : Type 0} where
  unfoldable pub write_process :
      (a : ℕ) → (Process (Payload X) → Process (Payload X)) → Exec X S → Exec X S
  unfolding modify
  write_process a f e = record e { world = record (e.world) { heap = modify f a e.world.heap } }

  -- `currentProcess.Close()`
  unfoldable pub close_process : (a : ℕ) → Exec X S → Exec X S
  unfolding close get_elem?
  close_process a e = elim (get_elem? e.world.heap a) [
    | none ↦ e
    | some p ↦ record e { world = close p.uuid e.world }
  ]

  unfoldable pub is_flagged : (a : ℕ) → Exec X S → Bool
  unfolding get_flag_exit
  is_flagged a e = elim (get_flag_exit e.world a) [ none ↦ false | some z ↦ is_one z ]

  unfoldable pub reply : (status : ℕ) → String → Exec X S → Exec X S
  reply status message e = record e { replies = e.replies ++ (status, message) ∷ [] }

  -- The type of the process follows the type of the node.
  unfoldable pub set_type : (a : ℕ) → String → Exec X S → Exec X S
  unfolding write_process
  set_type a type_name e = write_process a (λ p. record p { type_name = type_name }) e

  unfoldable pub merged : (isolated : Bool) → Exec X S → Dict (Value X) → Dict (Value X)
  unfolding merge
  merged isolated e m = if isolated then m else elim e.form [ none ↦ m | some form ↦ merge form m ]

  unfoldable pub saved : (isolated : Bool) → Dict (Value X) → Exec X S → Exec X S
  unfolding save
  saved isolated m e =
      if isolated
      then e
      else elim e.form [ none ↦ e | some form ↦ record e { form = some (save m form) } ]

module _ {X S : Type 0} (g : Runtime X S) (pb : Playbook X) (a : ℕ) where
  -- The end of `step`: the process has the type of the node.
  unfoldable pub run_node :
      Node X → (type_name : String) → Exec X S → Option (Payload X) → StepResult X × Exec X S
  unfolding reply
  run_node actor type_name e payload = elim (g.find type_name) [
    | none ↦ (
      went "" none,
      if str_eq type_name "starter"
          then reply 500 "Starter can not run with play button" e
          else reply 500 "Type node not found" e,
    )
    | some run ↦
        (let (o, e') = run a actor e payload in
          elim o [
            | ran next payload' ↦ (went next payload', e')
            | failed ↦ (went "" none, e')
            | panicked ↦ (went "" none, e')
          ])
  ]

  -- `step`. A panic, also the one it raises itself when the exit flag is set, is recovered and
  -- leaves the zero values of its results.
  unfoldable pub step : Exec X S → (next : String) → Option (Payload X) → StepResult X × Exec X S
  unfolding is_flagged close_process node_at text_at write_process set_type run_node
  step e next payload =
      if is_flagged a e then (went "" none, close_process a e) else elim (node_at pb next) [
        | none ↦ (lost, e)
        | some original ↦
            (let actor : Node X = elim (g.deep_copy original) [ none ↦ original | some n ↦ n ] in
              let e1 = write_process a (λ p. record p { uuid_box_current = next }) e in
              elim (text_at "name_box" actor.values) [
                | none ↦ (went "" none, e1)
                | some name ↦ elim (text_at "type" actor.values) [
                  | none ↦ (went "" none, set_type a "" e1)
                  | some type_name ↦ run_node actor type_name (set_type a type_name e1) payload
                ]
              ])
      ]

-- What `Execute` comes to; a crash ends the program.
pub data Result (X S : Type 0) : Type 0 where
  done crashed : Exec X S → Result X S

-- What a round of the loop comes to.
pub data Round (X S : Type 0) : Type 0 where
  goes_on : (next : String) → Option (Payload X) → Exec X S → Round X S
  stops : (next : String) → Exec X S → Round X S
  crashes : Exec X S → Round X S

module _ {X S : Type 0} (isolated : Bool) where
  unfoldable pub after_step : StepResult X × Exec X S → Round X S
  unfolding saved is_break
  after_step (lost, e) = stops "" e
  after_step (went next none, e) = goes_on next none e
  after_step (went next (some (scalar x)), e) = goes_on next (some (scalar x)) e
  after_step (went next (some (object m)), e) =
      if is_break m
      then stops next (saved isolated m e)
      else goes_on next (some (object m)) (saved isolated m e)

module _ {X S : Type 0} (a : ℕ) (isolated : Bool) where
  -- What follows the loop.
  unfoldable pub finish : (fork : Bool) → (next : String) → Exec X S → Exec X S
  unfolding write_process close_process
  finish fork next e =
      if is_empty next && not fork
      then (let e1 : Exec X S =
            if isolated
            then e
            else (elim e.form [ none ↦ e | some form ↦ record e { form = some [] } ]) in
          close_process a (write_process a (λ p. record p { state = "end"; killeable = false }) e1))
      else e

module _ {X S : Type 0} (g : Runtime X S) (pb : Playbook X) (a : ℕ) (isolated : Bool) where
  -- One round of the loop of `Execute`, for a node `next` that is not "".
  unfoldable pub round : (previous next : String) → Option (Payload X) → Exec X S → Round X S
  unfolding payload_map merged step after_step
  round previous next payload e =
      let e1 : Exec X S = record e { state = g.set_boxes e.state next previous } in
      elim (payload_map payload) [
        | none ↦ crashes e1
        | some m ↦ after_step isolated (step g pb a e1 next (some (object (merged isolated e1 m))))
      ]

  -- The loop, on fuel: `none` is a loop that needs more rounds.
  unfoldable pub loop :
      (fuel : ℕ) → (previous next : String) → Option (Payload X) → Exec X S → Option (Round X S)
  unfolding round
  loop zero previous next payload e = none
  loop (suc fuel) previous next payload e =
      if is_empty next then some (stops next e) else elim (round previous next payload e) [
        | crashes e' ↦ some (crashes e')
        | stops next' e' ↦ some (stops next' e')
        | goes_on next' payload' e' ↦ loop fuel next next' payload' e'
      ]

  -- `Execute`: `none` is out of fuel.
  unfoldable pub execute :
      (fork : Bool)
      → (fuel : ℕ) → (next : String) → Option (Payload X)
      → Exec X S
      → Option (Result X S)
  unfolding loop finish
  execute fork fuel next payload e = elim (loop fuel "" next payload e) [
    | none ↦ none
    | some r ↦ elim r [
      | crashes e' ↦ some (crashed e')
      | stops next' e' ↦ some (done (finish a isolated fork next' e'))
      | goes_on next' payload' e' ↦ none
    ]
  ]
