-- ===== src/Steps/Slots.antt =====
-- The slots of the semaphore of the machines in engine/step_goja.go.
use nflow_runtime.Common.{
  ◌≡◌, refl, String, Option, none, some, ltb, Option-elim, if-elim, subst, ◌∙◌,
}
use nflow_runtime.Common.Dict.{Dict, lookup, insert}
use nflow_runtime.Workflow.{Value, text, Node, as_text}
use nflow_runtime.Steps.{
  Runtime, Ran, Answer, goes_on, compile_failed, crashed, waits, run_failed, keep_transform,
  keep_program, babel_transform, compile_value, load_script, load_code, load_compile, code_of,
  program_of, run_program, run_code, run_js, outputs_lead,
}

-- The script did not run.
unfoldable pub IsStopped : {Y : Type 0} → Answer Y → Type 0
IsStopped (goes_on next payload) = ⊥
IsStopped compile_failed = Unit
IsStopped crashed = Unit
IsStopped waits = Unit
IsStopped (run_failed by_limit) = ⊥

unfoldable pub HasSlotsOf : {P : Type 0} → Runtime P → Runtime P → Type 0
HasSlotsOf a b = (a.taken ≡ b.taken) × (a.slots ≡ b.slots)

unfoldable pub KeepsSlots :
    {P X : Type 0} → Runtime P → Option (Runtime P × Dict (Value X)) → Type 0
unfolding HasSlotsOf
KeepsSlots rt none = Unit
KeepsSlots rt (some (after, values)) = HasSlotsOf after rt

module _ {P : Type 0} where
  pub keep_transform-HasSlotsOf :
      (rt : Runtime P) (code transformed : String)
      → HasSlotsOf (keep_transform rt code transformed) rt
  unfolding keep_transform HasSlotsOf
  keep_transform-HasSlotsOf rt code transformed =
      if-elim (λ (a : Runtime P). HasSlotsOf a rt) _ (refl, refl) (refl, refl)

  pub keep_program-HasSlotsOf :
      (rt : Runtime P) (code : String) (program : P) → HasSlotsOf (keep_program rt code program) rt
  unfolding keep_program HasSlotsOf
  keep_program-HasSlotsOf rt code program =
      if-elim (λ (a : Runtime P). HasSlotsOf a rt) _ (refl, refl) (refl, refl)

  pub KeepsSlots-trans :
      {X : Type 0} (rt after : Runtime P) (o : Option (Runtime P × Dict (Value X)))
      → HasSlotsOf after rt
      → KeepsSlots after o
      → KeepsSlots rt o
  unfolding KeepsSlots HasSlotsOf
  KeepsSlots-trans rt after none h k = tt
  KeepsSlots-trans rt after (some (last, values)) h k = (k.0 ∙ h.0, k.1 ∙ h.1)

  module _ (transform : String → Option String) where
    pub babel_transform-HasSlotsOf :
        (rt : Runtime P) (code : String) → HasSlotsOf (babel_transform transform rt code).0 rt
    unfolding babel_transform HasSlotsOf
    babel_transform-HasSlotsOf rt code =
        Option-elim (λ (r : Runtime P × String). HasSlotsOf r.0 rt) (lookup code rt.transforms)
          (λ _.
            Option-elim (λ (r : Runtime P × String). HasSlotsOf r.0 rt) (transform code)
              (λ _. (refl, refl)) (λ transformed _. keep_transform-HasSlotsOf rt code transformed))
          (λ cached _. (refl, refl))

    module _ {X : Type 0} (module_code : String → Option String) where
      pub compile_value-KeepsSlots :
          (rt : Runtime P) (values : Dict (Value X)) (code : Option String)
          → KeepsSlots rt (compile_value transform rt values code)
      unfolding compile_value KeepsSlots
      compile_value-KeepsSlots rt values none = tt
      compile_value-KeepsSlots rt values (some code) = babel_transform-HasSlotsOf rt code

      pub load_script-KeepsSlots :
          (rt : Runtime P) (values : Dict (Value X))
          → KeepsSlots rt (load_script transform module_code rt values)
      unfolding load_script KeepsSlots HasSlotsOf
      load_script-KeepsSlots rt values =
          Option-elim (KeepsSlots rt) (lookup "script" values) (λ _. (refl, refl))
            (λ v _.
              Option-elim (KeepsSlots rt) (as_text v) (λ _. tt)
                (λ name _.
                  Option-elim (KeepsSlots rt) (module_code name) (λ _. (refl, refl))
                    (λ code _. compile_value-KeepsSlots rt values (some code))))

      pub load_code-KeepsSlots :
          (rt : Runtime P) (values : Dict (Value X))
          → KeepsSlots rt (load_code transform module_code rt values)
      unfolding load_code KeepsSlots HasSlotsOf
      load_code-KeepsSlots rt values =
          Option-elim (KeepsSlots rt) (lookup "code" values) (λ _. (refl, refl))
            (λ v _. compile_value-KeepsSlots rt values (as_text v))

      pub load_compile-KeepsSlots :
          (rt : Runtime P) (values : Dict (Value X))
          → KeepsSlots rt (load_compile transform module_code rt values)
      unfolding load_compile KeepsSlots HasSlotsOf
      load_compile-KeepsSlots rt values =
          Option-elim (KeepsSlots rt) (lookup "compile" values)
            (λ _.
              Option-elim (KeepsSlots rt) (load_script transform module_code rt values) (λ _. tt)
                (λ loaded e.
                  KeepsSlots-trans rt loaded.0 _
                    (subst (KeepsSlots rt) e (load_script-KeepsSlots rt values))
                    (load_code-KeepsSlots loaded.0 loaded.1)))
            (λ v _. (refl, refl))

  pub program_of-HasSlotsOf :
      (compile : String → Option P) (rt : Runtime P) (code : String)
      → HasSlotsOf (program_of compile rt code).0 rt
  unfolding program_of HasSlotsOf
  program_of-HasSlotsOf compile rt code =
      Option-elim (λ (r : Runtime P × Option P). HasSlotsOf r.0 rt) (lookup code rt.programs)
        (λ _.
          Option-elim (λ (r : Runtime P × Option P). HasSlotsOf r.0 rt) (compile code)
            (λ _. (refl, refl)) (λ program _. keep_program-HasSlotsOf rt code program))
        (λ program _. (refl, refl))

-- A run of the step stops before the script, or runs a program; no slot is taken before.
module _ {P X Y : Type 0} (transform : String → Option String)
    (module_code : String → Option String) (compile : String → Option P) (run : P → Ran Y)
    (rt : Runtime P) (actor : Node X) (Q : Runtime P × Answer Y → Type 0)
    (stops : (after : Runtime P) (a : Answer Y) → HasSlotsOf after rt → IsStopped a → Q (after, a))
    (runs : (after : Runtime P) (p : P)
      → HasSlotsOf after rt
      → Q (run_program run after actor.outputs p)) where
  pub run_code-elim :
      (before : Runtime P) (code : String)
      → HasSlotsOf before rt
      → Q (run_code transform module_code compile run before actor code)
  unfolding run_code HasSlotsOf IsStopped
  run_code-elim before code h =
      let same = program_of-HasSlotsOf compile before code in
      Option-elim Q (program_of compile before code).1
        (λ _.
          stops (program_of compile before code).0 compile_failed (same.0 ∙ h.0, same.1 ∙ h.1) tt)
        (λ p _. runs (program_of compile before code).0 p (same.0 ∙ h.0, same.1 ∙ h.1))

  pub run_js-elim : (id : String) → Q (run_js transform module_code compile run rt id actor)
  unfolding run_js IsStopped KeepsSlots HasSlotsOf
  run_js-elim id =
      let values = insert "storage_id" (text id) actor.values in
      Option-elim Q (load_compile transform module_code rt values)
        (λ _. stops rt crashed (refl, refl) tt)
        (λ loaded e.
          let same =
            subst (KeepsSlots rt) e (load_compile-KeepsSlots transform module_code rt values) in
          Option-elim Q (code_of loaded.1) (λ _. stops loaded.0 crashed same tt)
            (λ code _.
              if-elim Q (outputs_lead actor.outputs) (run_code-elim loaded.0 code same)
                (stops loaded.0 crashed same tt)))

module _ {P : Type 0} where
  pub HasSlotsOf-ltb :
      (after rt : Runtime P)
      → HasSlotsOf after rt
      → ltb after.taken after.slots ≡ ltb rt.taken rt.slots
  unfolding HasSlotsOf
  HasSlotsOf-ltb after rt same = cc
