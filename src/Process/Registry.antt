-- ===== src/Process/Registry.antt =====
-- Sequences of operations on the store of processes, against what they make of each ID.
use nflow_runtime.Common.{
  ℕ, ◌≡◌, refl, ◌∙◌, ap, sym, subst, ◌⊎◌, inl, inr, none, some, List, [], ◌∷◌, String, arith,
  Option-cases,
}
use nflow_runtime.Common.Dict.{keys}
use nflow_runtime.Process.{
  Process, World, get_elem?, modify, send, send_callback, receive, w_kill_all, new_process,
  create_process, create_process_with_callback,
}
use nflow_runtime.Process.Store.{
  Op, creates, forks, kills, closes, kills_all, sends, receives, expected, expected_all, apply,
  apply_all, flag_of, IsNamed, Keeps, w_kill-IsNamed, w_kill-flag_of, kill_each-IsNamed,
  w_kill_all-flag_of, close-IsNamed, close-flag_of, store-IsNamed, store-flag_of, modify-IsNamed,
  modify-flag_of, send-Keeps,
}

module _ {P : Type 0} where
  -- The store names its processes well, and an ID has the flag that is expected of it.
  abbrev pub Follows : World P → World P → Op → String → Type 0
  Follows w w' op wid = IsNamed w' × (flag_of wid w' ≡ expected op wid (flag_of wid w))

  empties : List String → Process P → Process P
  empties rest p = record p { callback = some rest }

  receives-cases :
      (w : World P) (a : ℕ)
      → (apply w (receives a) ≡ w)
        ⊎ ((rest : List String) × (apply w (receives a)
              ≡ record w { heap = modify (empties rest) a w.heap }))
  unfolding apply receive empties
  receives-cases w a = elim (Option-cases (get_elem? w.heap a)) [
    | inl f ↦ inl (ground (arith, f))
    | inr (p, f) ↦ elim (Option-cases p.callback) [
      | inl g ↦ inl (ground (arith, f, g))
      | inr ([], g) ↦ inl (ground (arith, f, g))
      | inr (first ∷ rest, g) ↦ inr (rest, ground (arith, f, g))
    ]
  ]

  empties-Keeps : (rest : List String) → Keeps (empties rest)
  unfolding empties
  empties-Keeps rest p = (refl, refl)

  receive-Follows :
      (w : World P) (a : ℕ) (wid : String)
      → IsNamed w
      → Follows w (apply w (receives a)) (receives a) wid
  unfolding expected
  receive-Follows w a wid named = elim (receives-cases w a) [
    | inl e ↦ subst (λ (v : World P). Follows w v (receives a) wid) (sym e) (named, refl)
    | inr (rest, e) ↦
        let keeps = empties-Keeps rest in
        subst (λ (v : World P). Follows w v (receives a) wid) (sym e)
          (
            modify-IsNamed (empties rest) a w keeps named,
            modify-flag_of (empties rest) a w wid keeps named,
          )
  ]

  apply-Follows : (w : World P) (op : Op) (wid : String) → IsNamed w → Follows w (apply w op) op wid
  unfolding apply expected create_process create_process_with_callback new_process w_kill_all
      send_callback
  apply-Follows w (creates i) wid named = (
    store-IsNamed (new_process i none) i w refl named,
    store-flag_of (new_process i none) i wid w named,
  )
  apply-Follows w (forks i) wid named = (
    store-IsNamed (new_process i (some [])) i w refl named,
    store-flag_of (new_process i (some [])) i wid w named,
  )
  apply-Follows w (kills i) wid named = (w_kill-IsNamed w i named, w_kill-flag_of w i wid named)
  apply-Follows w (closes i) wid named = (close-IsNamed w i named, close-flag_of w i wid)
  apply-Follows w kills_all wid named =
      (kill_each-IsNamed (keys w.repo) w named, w_kill_all-flag_of w wid named)
  apply-Follows w (sends a message) wid named = (
    modify-IsNamed (send message) a w (send-Keeps message) named,
    modify-flag_of (send message) a w wid (send-Keeps message) named,
  )
  apply-Follows w (receives a) wid named = receive-Follows w a wid named

  -- From a store on in which each process stands under its own UUID, any sequence of starts, forks,
  -- kills, ends, sends and receives leaves at each ID what the ID's own operations say: nothing before
  -- a start and after an end, and else a process with its flag clear since the last start, or set
  -- once a kill of the ID or of all has come after it. No operation on another ID, send or receive
  -- changes it.
  pub apply_all-expected_all :
      (ops : List Op) (w : World P) (wid : String)
      → IsNamed w
      → flag_of wid (apply_all w ops) ≡ expected_all ops wid (flag_of wid w)
  unfolding apply_all expected_all
  apply_all-expected_all [] w wid named = refl
  apply_all-expected_all (op ∷ ops) w wid named =
      let (named', step) = apply-Follows w op wid named in
      apply_all-expected_all ops (apply w op) wid named' ∙ ap (expected_all ops wid) step
