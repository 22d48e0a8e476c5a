-- ===== src/Engine/Ends.antt =====
-- How `Execute` ends.
use nflow_runtime.Common.{
  ℕ, zero, suc, ◌≡◌, refl, ap, ◌∙◌, Bool, true, false, Option, none, some, List, [], ◌∷◌, String,
  eq_iff, arith,
}
use nflow_runtime.Common.Dict.{Dict, lookup, delete, lookup-delete}
use nflow_runtime.Common.Text.{is_empty}
use nflow_runtime.Process.{Process, get_elem?, modify, close, exists_process, get_flag_exit, w_kill}
use nflow_runtime.Process.Kill.{killed, w_kill-reached, killed-flag_exit}
use nflow_runtime.Workflow.{Value, Playbook}
use nflow_runtime.Engine.{
  is_one, Payload, Exec, Runtime, is_flagged, close_process, write_process, step, payload_map,
  goes_on, done, after_step, round, loop, finish, execute,
}

module _ {X S : Type 0} (g : Runtime X S) (pb : Playbook X) (a : ℕ) (isolated : Bool) where
  -- The state in which a node is run.
  abbrev pub boxed : (previous next : String) → Exec X S → Exec X S
  boxed previous next e = record e { state = g.set_boxes e.state next previous }

  round-flagged :
      (previous next : String) (payload : Option (Payload X)) (m : Dict (Value X)) (e : Exec X S)
      → payload_map payload ≡ some m
      → is_flagged a e ≡ true
      → round g pb a isolated previous next payload e
        ≡ goes_on "" none (close_process a (boxed previous next e))
  unfolding round step after_step is_flagged
  round-flagged previous next payload m e readable killed =
      rw (readable, round) (rw (killed, step) refl)

  -- Once the exit flag of its process is set, a workflow runs no further node.
  pub execute-flagged :
      (fork : Bool) (fuel : ℕ) (next : String) (payload : Option (Payload X)) (m : Dict (Value X))
      (e : Exec X S)
      → is_empty next ≡ false
      → payload_map payload ≡ some m
      → is_flagged a e ≡ true
      → execute g pb a isolated fork (suc (suc fuel)) next payload e
        ≡ some (done (finish a isolated fork "" (close_process a (boxed "" next e))))
  unfolding execute loop is_empty
  execute-flagged fork fuel next payload m e more readable killed =
      rw (more, round-flagged "" next payload m e readable killed, execute, loop) refl

get_elem?-modify :
    {P : Type 0} (f : Process P → Process P) (n : ℕ) (p : Process P) (ps : List (Process P))
    → get_elem? ps n ≡ some p
    → get_elem? (modify f n ps) n ≡ some (f p)
unfolding get_elem? modify
get_elem?-modify f zero p [] h = absurd (ground (arith, h))
get_elem?-modify f (suc n) p [] h = absurd (ground (arith, h))
get_elem?-modify f zero p (q ∷ ps) h = ground (arith, h)
get_elem?-modify f (suc n) p (q ∷ ps) h = get_elem?-modify f n p ps h

module _ {X S : Type 0} (a : ℕ) where
  close_process-exists :
      (e : Exec X S) (p : Process (Payload X))
      → get_elem? e.world.heap a ≡ some p
      → ((close_process a e).form ≡ e.form)
        × (exists_process p.uuid (close_process a e).world ≡ false)
        × ((close_process a e).world.heap ≡ e.world.heap)
  unfolding close_process exists_process close
  close_process-exists e p here =
      let gone : lookup p.uuid (delete p.uuid e.world.repo) ≡ none =
        ground (arith, eq_iff p.uuid p.uuid, lookup-delete p.uuid p.uuid e.world.repo) in
      rw (here, close_process) (refl, rw (gone, exists_process) refl, refl)

  -- After its last node a workflow that is no fork, in a context that is not isolated and whose
  -- session can be read, leaves an empty session, and its process ended and no longer registered.
  pub finish_lem :
      (e : Exec X S) (form : Dict (Value X)) (p : Process (Payload X))
      → e.form ≡ some form
      → get_elem? e.world.heap a ≡ some p
      → ((finish a false false "" e).form ≡ some [])
        × (exists_process p.uuid (finish a false false "" e).world ≡ false)
        × (get_elem? (finish a false false "" e).world.heap a
            ≡ some (record p { state = "end"; killeable = false }))
  unfolding finish is_empty write_process
  finish_lem e form p readable here =
      let ended : Process (Payload X) → Process (Payload X) =
        λ q. record q { state = "end"; killeable = false } in
      let there = get_elem?-modify ended a p e.world.heap here in
      let e2 : Exec X S = record e {
        form = some [];
        world = record (e.world) { heap = modify ended a e.world.heap };
      } in
      let (cleared, gone, same) = close_process-exists e2 (ended p) there in
      rw (readable, finish) (cleared, gone, ap (λ heap. get_elem? heap a) same ∙ there)

-- A workflow that goes on to a node, with no payload or an object, after a kill by the ID that its
-- process is registered under, does not run that node or any other: it ends as after its last node,
-- and its process is closed.
pub execute-w_kill :
    {X S : Type 0} (g : Runtime X S) (pb : Playbook X) (a : ℕ) (isolated fork : Bool) (fuel : ℕ)
    (wid next : String) (payload : Option (Payload X)) (m : Dict (Value X)) (e : Exec X S)
    (p : Process (Payload X))
    → lookup wid e.world.repo ≡ some a
    → get_elem? e.world.heap a ≡ some p
    → is_empty next ≡ false
    → payload_map payload ≡ some m
    → let e' : Exec X S = record e { world = w_kill wid e.world } in
      execute g pb a isolated fork (suc (suc fuel)) next payload e'
      ≡ some (done (finish a isolated fork "" (close_process a (boxed g pb a isolated "" next e'))))
unfolding is_flagged get_flag_exit is_one
execute-w_kill g pb a isolated fork fuel wid next payload m e p registered here more readable =
    let reached = w_kill-reached e.world wid a p registered here in
    let set = killed-flag_exit p in
    execute-flagged g pb a isolated fork fuel next payload m
      (record e { world = w_kill wid e.world }) more readable
      (rw (reached, set, is_flagged, get_flag_exit) refl)
