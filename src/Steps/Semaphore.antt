-- ===== src/Steps/Semaphore.antt =====
-- The semaphore of the machines in engine/step_goja.go under script steps that run at the same time.
use nflow_runtime.Common.{
  ℕ, suc, ◌+◌, ◌≤◌, ◌≡◌, ◌↔◌, refl, ◌∙◌, inl, inr, Option, none, some, String, arith, Option-elim,
  ltb, Bool-cases, subst,
}
use nflow_runtime.Common.Dict.{Dict}
use nflow_runtime.Workflow.{Output, Node}
use nflow_runtime.Steps.{
  Runtime, Ran, erred, panicked, done, Answer, take_slot, give_back, after_run, run_program, run_js,
}
use nflow_runtime.Steps.Slots.{HasSlotsOf, run_js-elim}

-- The slots that the end of a run does not give back.
unfoldable pub leaks : {Y : Type 0} → Ran Y → ℕ
leaks (erred by_limit) = 0
leaks (panicked payload next) = 1
leaks (done payload next) = 0

-- What requests come to that run script steps at the same time: the runtime, how many scripts run,
-- and how many runs have ended with a panic. All that a step does before and after its run leaves the
-- semaphore as it is.
pub data Reach {P : Type 0} (Y : Type 0) (s : Runtime P)
    : Runtime P → (running panics : ℕ) → Type 0 where
  here : Reach Y s s 0 0
  passes :
      {rt : Runtime P} {n k : ℕ} (after : Runtime P)
      → Reach Y s rt n k
      → HasSlotsOf after rt
      → Reach Y s after n k
  starts :
      {rt : Runtime P} {n k : ℕ} (held : Runtime P)
      → Reach Y s rt n k
      → take_slot rt ≡ some held
      → Reach Y s held (suc n) k
  ends :
      {rt : Runtime P} {n k : ℕ} (outputs : Option (Dict (Option Output))) (ran : Ran Y)
      → Reach Y s rt (suc n) k
      → Reach Y s (after_run rt outputs ran).0 n (k + leaks ran)

module _ {P : Type 0} where
  -- All slots are accounted for.
  pub record Accounted (s rt : Runtime P) (n k : ℕ) : Type 0 where
    pub taken : rt.taken ≡ n + k
    pub slots : rt.slots ≡ s.slots
    pub room : n + k ≤ s.slots

  take_slot-Accounted :
      (s rt held : Runtime P) (n k : ℕ)
      → Accounted s rt n k
      → take_slot rt ≡ some held
      → Accounted s held (suc n) k
  unfolding take_slot
  take_slot-Accounted s rt held n k v e = elim (Bool-cases (ltb rt.taken rt.slots)) [
    | inr full ↦ absurd (ground (arith, e, full))
    | inl free ↦
        let same : record rt { taken = rt.taken + 1 } ≡ held = ground (arith, e, free) in
        subst (λ (h : Runtime P). Accounted s h (suc n) k) same
          (record {
            taken = omega (arith, v.taken);
            slots = v.slots;
            room = ground (arith, free, v.taken, v.slots);
          })
  ]

  after_run-Accounted :
      {Y : Type 0} (s rt : Runtime P) (n k : ℕ) (outputs : Option (Dict (Option Output)))
      (ran : Ran Y)
      → Accounted s rt (suc n) k
      → Accounted s (after_run rt outputs ran).0 n (k + leaks ran)
  unfolding after_run give_back leaks
  after_run-Accounted s rt n k outputs (erred by_limit) v = record {
    taken = omega (arith, v.taken);
    slots = v.slots;
    room = omega (arith, v.room);
  }
  after_run-Accounted s rt n k outputs (panicked payload next) v = record {
    taken = omega (arith, v.taken);
    slots = v.slots;
    room = omega (arith, v.room);
  }
  after_run-Accounted s rt n k outputs (done payload next) v = record {
    taken = omega (arith, v.taken);
    slots = v.slots;
    room = omega (arith, v.room);
  }

  take_slot-none : (rt : Runtime P) → (take_slot rt ≡ none) ↔ (rt.slots ≤ rt.taken)
  unfolding take_slot
  take_slot-none rt = ground arith

  Reach-Accounted :
      {Y : Type 0} (s rt : Runtime P) (n k : ℕ)
      → s.taken ≡ 0
      → Reach Y s rt n k
      → Accounted s rt n k
  unfolding HasSlotsOf
  Reach-Accounted s rt n k free here = record { taken = free; slots = refl; room = omega arith }
  Reach-Accounted s rt n k free (passes after r same) =
      let v = Reach-Accounted s _ n k free r in
      record { taken = same.0 ∙ v.taken; slots = same.1 ∙ v.slots; room = v.room }
  Reach-Accounted s rt n k free (starts {rt = before} {n = m} held r e) =
      take_slot-Accounted s before held m k (Reach-Accounted s before m k free r) e
  Reach-Accounted s rt n k free (ends {rt = before} {k = j} outputs ran r) =
      after_run-Accounted s before n j outputs ran (Reach-Accounted s before (suc n) j free r)

  -- From a semaphore with no slot taken on, however script steps overlap: the slots taken are those of
  -- the scripts that run and one more for each run that has ended with a panic, which no end gives
  -- back; together they are never more than the slots there are, and a step is held up at the
  -- semaphore exactly when they are as many.
  pub Reach-take_slot :
      {Y : Type 0} (s rt : Runtime P) (n k : ℕ)
      → s.taken ≡ 0
      → Reach Y s rt n k
      → (rt.taken ≡ n + k) × (n + k ≤ s.slots) × ((take_slot rt ≡ none) ↔ (s.slots ≤ n + k))
  Reach-take_slot s rt n k free r =
      let v = Reach-Accounted s rt n k free r in
      let full = take_slot-none rt in
      (
        v.taken,
        v.room,
        (
          λ e. omega (arith, full.0 e, v.taken, v.slots),
          λ h. full.1 (omega (arith, h, v.taken, v.slots)),
        ),
      )

-- A whole `run_js` is made of such steps, and leaves as many scripts running as before.
module _ {P Y : Type 0} (run : P → Ran Y) where
  run_program-Reach :
      (s rt : Runtime P) (n k : ℕ) (outputs : Option (Dict (Option Output))) (p : P)
      → Reach Y s rt n k
      → (j : ℕ) × Reach Y s (run_program run rt outputs p).0 n j
  unfolding run_program
  run_program-Reach s rt n k outputs p r =
      Option-elim (λ (a : Runtime P × Answer Y). (j : ℕ) × Reach Y s a.0 n j) (take_slot rt)
        (λ e. (k, r)) (λ held e. (k + leaks (run p), ends outputs (run p) (starts held r e)))

module _ {P X Y : Type 0} (transform : String → Option String)
    (module_code : String → Option String) (compile : String → Option P) (run : P → Ran Y) where
  run_js-Reach :
      (s rt : Runtime P) (n k : ℕ) (id : String) (actor : Node X)
      → Reach Y s rt n k
      → (j : ℕ) × Reach Y s (run_js transform module_code compile run rt id actor).0 n j
  run_js-Reach s rt n k id actor r =
      run_js-elim transform module_code compile run rt actor
        (λ (a : Runtime P × Answer Y). (j : ℕ) × Reach Y s a.0 n j)
        (λ after a same stopped. (k, passes after r same))
        (λ after p same. run_program-Reach run s after n k actor.outputs p (passes after r same)) id
