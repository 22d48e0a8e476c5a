-- ===== src/Process/Kill.antt =====
-- Kills against the processes they reach.
use nflow_runtime.Common.{
  ℕ, zero, suc, ◌≡◌, ◌≢◌, refl, ap, ◌∙◌, ◌⊎◌, inl, inr, true, none, some, List, [], ◌∷◌, ◌++◌,
  String, eq_iff, arith, ◌==◌, length, Bool-cases, Option-cases,
}
use nflow_runtime.Common.Int.{pos}
use nflow_runtime.Common.Dict.{Dict, lookup, delete, keys, lookup-insert, lookup-delete}
use nflow_runtime.Process.{
  Process, World, get_elem?, modify, send, send_callback, receive, set_flag_exit, exit_message,
  w_kill, kill_each, w_kill_all, new_process, store, create_process, create_process_with_callback,
  close, exists_process,
}

abbrev pub Listed : String → List String → Type 0
Listed k [] = ⊥
Listed k (j ∷ js) = (j ≡ k) ⊎ Listed k js

pub lookup-Listed : (k : String) (a : ℕ) (m : Dict ℕ) → lookup k m ≡ some a → Listed k (keys m)
unfolding lookup keys
lookup-Listed k a [] h = ground (arith, h)
lookup-Listed k a ((j, b) ∷ m) h = ground (arith, eq_iff j k, lookup-Listed k a m)

module _ {P : Type 0} where
  pub get_elem?-modify_same :
      (f : Process P → Process P) (n : ℕ) (p : Process P) (ps : List (Process P))
      → get_elem? ps n ≡ some p
      → get_elem? (modify f n ps) n ≡ some (f p)
  unfolding get_elem? modify
  get_elem?-modify_same f zero p [] h = ground (arith, h)
  get_elem?-modify_same f (suc n) p [] h = ground (arith, h)
  get_elem?-modify_same f zero p (q ∷ ps) h = ground (arith, h)
  get_elem?-modify_same f (suc n) p (q ∷ ps) h = get_elem?-modify_same f n p ps h

  pub get_elem?-modify_other :
      (f : Process P → Process P) (n k : ℕ) (ps : List (Process P))
      → n ≢ k
      → get_elem? (modify f n ps) k ≡ get_elem? ps k
  unfolding get_elem? modify
  get_elem?-modify_other f n k [] ne = refl
  get_elem?-modify_other f zero zero (q ∷ ps) ne = absurd (ne refl)
  get_elem?-modify_other f zero (suc k) (q ∷ ps) ne = refl
  get_elem?-modify_other f (suc n) zero (q ∷ ps) ne = refl
  get_elem?-modify_other f (suc n) (suc k) (q ∷ ps) ne =
      get_elem?-modify_other f n k ps (λ e. ne (ap suc e))

  pub get_elem?-append :
      (ps : List (Process P)) (p : Process P) → get_elem? (ps ++ p ∷ []) (length ps) ≡ some p
  unfolding get_elem?
  get_elem?-append [] p = refl
  get_elem?-append (q ∷ ps) p = get_elem?-append ps p

  length-modify :
      (f : Process P → Process P) (n : ℕ) (ps : List (Process P))
      → length (modify f n ps) ≡ length ps
  unfolding modify
  length-modify f n [] = refl
  length-modify f zero (p ∷ ps) = refl
  length-modify f (suc n) (p ∷ ps) = ap suc (length-modify f n ps)

  -- What a kill leaves of the process it reaches.
  abbrev pub killed : Process P → Process P
  killed p = send exit_message (set_flag_exit (pos 1) p)

  pub w_kill-reached :
      (w : World P) (wid : String) (a : ℕ) (p : Process P)
      → lookup wid w.repo ≡ some a
      → get_elem? w.heap a ≡ some p
      → get_elem? (w_kill wid w).heap a ≡ some (killed p)
  unfolding w_kill send_callback
  w_kill-reached w wid a p registered here =
      rw (registered, w_kill)
        (get_elem?-modify_same (send exit_message) a (set_flag_exit (pos 1) p) _
          (get_elem?-modify_same (set_flag_exit (pos 1)) a p w.heap here))

  pub w_kill-other :
      (w : World P) (wid : String) (a : ℕ)
      → lookup wid w.repo ≢ some a
      → get_elem? (w_kill wid w).heap a ≡ get_elem? w.heap a
  unfolding w_kill send_callback
  w_kill-other w wid a ne = elim (Option-cases (lookup wid w.repo)) [
    | inl e ↦ rw (e, w_kill) refl
    | inr (b, e) ↦
        rw (e, w_kill)
          (get_elem?-modify_other (send exit_message) b a _ (λ same. ne (e ∙ ap some same))
            ∙ get_elem?-modify_other (set_flag_exit (pos 1)) b a w.heap
                (λ same. ne (e ∙ ap some same)))
  ]

  pub w_kill-repo : (w : World P) (wid : String) → (w_kill wid w).repo ≡ w.repo
  unfolding w_kill send_callback
  w_kill-repo w wid = ground arith

  pub killed-flag_exit : (p : Process P) → (killed p).flag_exit ≡ pos 1
  unfolding send set_flag_exit
  killed-flag_exit p = ground arith

  -- The process at `a` has its exit flag set.
  abbrev pub IsFlagged : World P → ℕ → Type 0
  IsFlagged w a = (p : Process P) × (get_elem? w.heap a ≡ some p) × (p.flag_exit ≡ pos 1)

  w_kill-cases :
      (w : World P) (k : String) (a : ℕ) (p : Process P)
      → get_elem? w.heap a ≡ some p
      → IsFlagged (w_kill k w) a ⊎ (get_elem? (w_kill k w).heap a ≡ some p)
  w_kill-cases w k a p here = elim (Option-cases (lookup k w.repo)) [
    | inl e ↦ inr (w_kill-other w k a (λ e'. ground (arith, e, e')) ∙ here)
    | inr (b, e) ↦ elim (Bool-cases (b == a)) [
      | inl same ↦ inl (
        killed p,
        w_kill-reached w k a p (e ∙ ap some (ground (arith, same))) here,
        killed-flag_exit p,
      )
      | inr differ ↦ inr (w_kill-other w k a (λ e'. ground (arith, e, e', differ)) ∙ here)
    ]
  ]

  w_kill-IsFlagged :
      (w : World P) (wid : String) (a : ℕ) → IsFlagged w a → IsFlagged (w_kill wid w) a
  w_kill-IsFlagged w wid a (p, here, flag) = elim (w_kill-cases w wid a p here) [
    | inl f ↦ f
    | inr untouched ↦ (p, untouched, flag)
  ]

  kill_each-IsFlagged :
      (ks : List String) (w : World P) (wid : String) (a : ℕ) (p : Process P)
      → lookup wid w.repo ≡ some a
      → get_elem? w.heap a ≡ some p
      → Listed wid ks ⊎ IsFlagged w a
      → IsFlagged (kill_each ks w) a
  unfolding kill_each
  kill_each-IsFlagged [] w wid a p registered here (inr f) = f
  kill_each-IsFlagged [] w wid a p registered here (inl none_listed) = absurd none_listed
  kill_each-IsFlagged (k ∷ ks) w wid a p registered here reached =
      let still : lookup wid (w_kill k w).repo ≡ some a =
        ap (lookup wid) (w_kill-repo w k) ∙ registered in
      let flagged : IsFlagged (w_kill k w) a → IsFlagged (kill_each ks (w_kill k w)) a =
        λ f. kill_each-IsFlagged ks (w_kill k w) wid a f.0 still f.1 (inr f) in
      elim reached [
        | inr f ↦ flagged (w_kill-IsFlagged w k a f)
        | inl (inl same) ↦ flagged (
          killed p,
          w_kill-reached w k a p (ap (λ j. lookup j w.repo) same ∙ registered) here,
          killed-flag_exit p,
        )
        | inl (inr later) ↦ elim (w_kill-cases w k a p here) [
          | inl f ↦ flagged f
          | inr untouched ↦ kill_each-IsFlagged ks (w_kill k w) wid a p still untouched (inl later)
        ]
      ]

-- After `WKillAll` the exit flag is set on every process that is registered under some ID and
-- stands in the heap.
pub w_kill_all-IsFlagged :
    {P : Type 0} (w : World P) (wid : String) (a : ℕ) (p : Process P)
    → lookup wid w.repo ≡ some a
    → get_elem? w.heap a ≡ some p
    → IsFlagged (w_kill_all w) a
unfolding w_kill_all
w_kill_all-IsFlagged w wid a p registered here =
    kill_each-IsFlagged (keys w.repo) w wid a p registered here
      (inl (lookup-Listed wid a w.repo registered))

-- A kill of a registered process whose channel is empty is received by whoever waits on the
-- channel, and leaves the exit flag set.
pub w_kill-receive :
    {P : Type 0} (w : World P) (wid : String) (a : ℕ) (p : Process P)
    → lookup wid w.repo ≡ some a
    → get_elem? w.heap a ≡ some p
    → p.callback ≡ some []
    → (w' : World P) × (receive (w_kill wid w) a ≡ some (exit_message, w')) × IsFlagged w' a
unfolding receive send set_flag_exit
w_kill-receive w wid a p registered here empty =
    let reached = w_kill-reached w wid a p registered here in
    let full : (killed p).callback ≡ some (exit_message ∷ []) = rw (empty, send) refl in
    (
      record (w_kill wid w) {
        heap = modify (λ q. record q { callback = some [] }) a (w_kill wid w).heap;
      },
      rw (reached, receive) (rw full refl),
      (
        record (killed p) { callback = some [] },
        get_elem?-modify_same (λ q. record q { callback = some [] }) a (killed p)
            (w_kill wid w).heap reached,
        killed-flag_exit p,
      ),
    )

-- When a workflow is started again under an ID that is in use and the first run then ends, the
-- second is still in the heap, not killed, but no kill by that ID reaches it.
pub restart_unkillable :
    {P : Type 0} (w : World P) (wid : String)
    → let (b, w') = create_process_with_callback wid (create_process wid w).1 in
      (get_elem? (close wid w').heap b ≡ some (new_process wid (some [])))
      × (exists_process wid w' ≡ true)
      × (w_kill wid (close wid w') ≡ close wid w')
unfolding create_process_with_callback create_process store close w_kill exists_process
restart_unkillable w wid =
    let (b, w') = create_process_with_callback wid (create_process wid w).1 in
    let gone : lookup wid (delete wid w'.repo) ≡ none =
      ground (arith, eq_iff wid wid, lookup-delete wid wid w'.repo) in
    let known : lookup wid w'.repo ≡ some b =
      ground (arith, eq_iff wid wid, lookup-insert wid wid b (create_process wid w).1.repo) in
    (
      get_elem?-append (create_process wid w).1.heap _,
      rw (known, exists_process) refl,
      rw (gone, w_kill) refl,
    )
