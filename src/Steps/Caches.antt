-- ===== src/Steps/Caches.antt =====
-- A script step of engine/step_goja.go with its caches of transforms and of programs, and with none.
use nflow_runtime.Common.{
  ◌≡◌, refl, String, Bool, Option, none, some, ltb, Option-elim, Option-elim₂, if-elim₂, if-elim,
  subst, ap, sym, ◌∙◌, if◌then◌else◌, [], eq_iff, arith,
}
use nflow_runtime.Common.Dict.{Dict, lookup, insert, lookup-insert}
use nflow_runtime.Workflow.{Value, text, Output, Node, as_text}
use nflow_runtime.Steps.{
  Runtime, Ran, Answer, compile_failed, crashed, waits, keep_transform, keep_program,
  babel_transform, compile_value, load_script, load_code, load_compile, code_of, program_of,
  take_slot, give_back, after_run, run_program, run_code, run_js, outputs_lead, follow, erred,
  panicked, done, run_failed, goes_on,
}
use nflow_runtime.Steps.Slots.{HasSlotsOf, HasSlotsOf-ltb}

-- Each kept text is what the transform gives, and each kept program what the compiler gives.
unfoldable pub AreTrue : {A : Type 0} → (String → Option A) → Dict A → Type 0
AreTrue {A} make kept = (key : String) (a : A) → lookup key kept ≡ some a → make key ≡ some a

module _ {A : Type 0} (make : String → Option A) where
  pub insert-AreTrue :
      (key : String) (a : A) (kept : Dict A)
      → make key ≡ some a
      → AreTrue make kept
      → AreTrue make (insert key a kept)
  unfolding AreTrue
  insert-AreTrue key a kept e h other b found =
      ground (arith, lookup-insert key other a kept, h other b, eq_iff key other)

  pub empty-AreTrue : AreTrue make []
  unfolding AreTrue lookup
  empty-AreTrue key a e = ground (arith, e)

-- What the step would do with no caches.
unfoldable pub transformed : (transform : String → Option String) → String → String
transformed transform code = elim (transform code) [ none ↦ code | some result ↦ result ]

module _ {X : Type 0} (transform : String → Option String) where
  unfoldable pub plain_value : Dict (Value X) → Option String → Option (Dict (Value X))
  unfolding transformed
  plain_value values none = none
  plain_value values (some code) =
      some (insert "compile" (text (transformed transform code)) values)

  unfoldable pub plain_code : Dict (Value X) → Option (Dict (Value X))
  unfolding plain_value as_text
  plain_code values = elim (lookup "code" values) [
    | none ↦ some values
    | some v ↦ plain_value values (as_text v)
  ]

module _ {X : Type 0} (transform module_code : String → Option String) where
  unfoldable pub plain_script : Dict (Value X) → Option (Dict (Value X))
  unfolding plain_value as_text
  plain_script values = elim (lookup "script" values) [
    | none ↦ some values
    | some v ↦ elim (as_text v) [
      | none ↦ none
      | some name ↦ elim (module_code name) [
        | none ↦ some values
        | some code ↦ plain_value transform values (some code)
      ]
    ]
  ]

  unfoldable pub plain_compile : Dict (Value X) → Option (Dict (Value X))
  unfolding plain_script plain_code
  plain_compile values = elim (lookup "compile" values) [
    | some v ↦ some values
    | none ↦ elim (plain_script values) [ none ↦ none | some loaded ↦ plain_code transform loaded ]
  ]

module _ {P : Type 0} (transform : String → Option String) (compile : String → Option P) where
  unfoldable pub IsCoherent : Runtime P → Type 0
  unfolding AreTrue
  IsCoherent rt = AreTrue transform rt.transforms × AreTrue compile rt.programs

  -- The runtime is still coherent, with the slots it had.
  unfoldable pub IsNext : Runtime P → Runtime P → Type 0
  unfolding IsCoherent HasSlotsOf
  IsNext rt after = IsCoherent after × HasSlotsOf after rt

  module _ (rt : Runtime P) (h : IsCoherent rt) where
    pub keep_transform-IsNext :
        (code result : String)
        → transform code ≡ some result
        → IsNext rt (keep_transform rt code result)
    unfolding keep_transform IsNext IsCoherent HasSlotsOf
    keep_transform-IsNext code result e =
        if-elim (IsNext rt) _
          ((insert-AreTrue transform code result [] e (empty-AreTrue transform), h.1), (refl, refl))
          ((insert-AreTrue transform code result rt.transforms e h.0, h.1), (refl, refl))

    pub keep_program-IsNext :
        (code : String) (program : P)
        → compile code ≡ some program
        → IsNext rt (keep_program rt code program)
    unfolding keep_program IsNext IsCoherent HasSlotsOf
    keep_program-IsNext code program e =
        if-elim (IsNext rt) _
          ((h.0, insert-AreTrue compile code program [] e (empty-AreTrue compile)), (refl, refl))
          ((h.0, insert-AreTrue compile code program rt.programs e h.1), (refl, refl))

    pub babel_transform-transformed :
        (code : String)
        → IsNext rt (babel_transform transform rt code).0
          × ((babel_transform transform rt code).1 ≡ transformed transform code)
    unfolding babel_transform transformed IsNext IsCoherent AreTrue HasSlotsOf
    babel_transform-transformed code =
        Option-elim (λ (r : Runtime P × String). IsNext rt r.0 × (r.1 ≡ transformed transform code))
          (lookup code rt.transforms)
          (λ _.
            Option-elim₂ (λ (r : Runtime P × String) (t : String). IsNext rt r.0 × (r.1 ≡ t))
              (transform code) (λ _. ((h, (refl, refl)), refl))
              (λ result e. (keep_transform-IsNext code result e, refl)))
          (λ cached e. (
            (h, (refl, refl)),
            subst (λ (o : Option String). cached ≡ (elim o [ none ↦ code | some result ↦ result ]))
                (sym (h.0 code cached e)) refl,
          ))

    pub program_of-compile :
        (code : String)
        → IsNext rt (program_of compile rt code).0 × ((program_of compile rt code).1 ≡ compile code)
    unfolding program_of IsNext IsCoherent AreTrue HasSlotsOf
    program_of-compile code =
        Option-elim (λ (r : Runtime P × Option P). IsNext rt r.0 × (r.1 ≡ compile code))
          (lookup code rt.programs)
          (λ _.
            Option-elim (λ (r : Runtime P × Option P). IsNext rt r.0 × (r.1 ≡ compile code))
              (compile code) (λ e. ((h, (refl, refl)), sym e))
              (λ program e. (keep_program-IsNext code program e, sym e)))
          (λ program e. ((h, (refl, refl)), sym (h.1 code program e)))

-- Where both loads go on, they have the same values and a coherent runtime.
unfoldable pub Agrees :
    {P X : Type 0} (transform : String → Option String) (compile : String → Option P)
    (rt : Runtime P)
    → Option (Runtime P × Dict (Value X))
    → Option (Dict (Value X))
    → Type 0
unfolding IsNext
Agrees transform compile rt none none = Unit
Agrees transform compile rt none (some values) = ⊥
Agrees transform compile rt (some (after, held)) none = ⊥
Agrees transform compile rt (some (after, held)) (some values) =
    IsNext transform compile rt after × (held ≡ values)

module _ {P X : Type 0} (transform module_code : String → Option String)
    (compile : String → Option P) where
  pub compile_value-Agrees :
      (rt : Runtime P) (values : Dict (Value X)) (code : Option String)
      → IsCoherent transform compile rt
      → Agrees transform compile rt
          (compile_value transform rt values code)
          (plain_value transform values code)
  unfolding compile_value plain_value Agrees
  compile_value-Agrees rt values none h = tt
  compile_value-Agrees rt values (some code) h =
      let same = babel_transform-transformed transform compile rt h code in
      (same.0, ap (λ (t : String). insert "compile" (text t) values) same.1)

  pub load_script-Agrees :
      (rt : Runtime P) (values : Dict (Value X))
      → IsCoherent transform compile rt
      → Agrees transform compile rt
          (load_script transform module_code rt values)
          (plain_script transform module_code values)
  unfolding load_script plain_script Agrees IsNext HasSlotsOf
  load_script-Agrees rt values h =
      let R = Agrees {X = X} transform compile rt in
      Option-elim₂ R (lookup "script" values) (λ _. ((h, (refl, refl)), refl))
        (λ v _.
          Option-elim₂ R (as_text v) (λ _. tt)
            (λ name _.
              Option-elim₂ R (module_code name) (λ _. ((h, (refl, refl)), refl))
                (λ code _. compile_value-Agrees rt values (some code) h)))

  pub load_code-Agrees :
      (rt : Runtime P) (values : Dict (Value X))
      → IsCoherent transform compile rt
      → Agrees transform compile rt
          (load_code transform module_code rt values)
          (plain_code transform values)
  unfolding load_code plain_code Agrees IsNext HasSlotsOf
  load_code-Agrees rt values h =
      Option-elim₂ (Agrees {X = X} transform compile rt) (lookup "code" values)
        (λ _. ((h, (refl, refl)), refl)) (λ v _. compile_value-Agrees rt values (as_text v) h)

  pub Agrees-trans :
      (rt after : Runtime P) (o : Option (Runtime P × Dict (Value X)))
      (o' : Option (Dict (Value X)))
      → IsNext transform compile rt after
      → Agrees transform compile after o o'
      → Agrees transform compile rt o o'
  unfolding Agrees IsNext HasSlotsOf
  Agrees-trans rt after none none h k = tt
  Agrees-trans rt after none (some values) h k = k
  Agrees-trans rt after (some (last, held)) none h k = k
  Agrees-trans rt after (some (last, held)) (some values) h ((coherent, same), e) =
      ((coherent, (same.0 ∙ h.1.0, same.1 ∙ h.1.1)), e)

  pub load_compile-Agrees :
      (rt : Runtime P) (values : Dict (Value X))
      → IsCoherent transform compile rt
      → Agrees transform compile rt
          (load_compile transform module_code rt values)
          (plain_compile transform module_code values)
  unfolding load_compile plain_compile Agrees IsNext HasSlotsOf
  load_compile-Agrees rt values h =
      Option-elim₂ (Agrees {X = X} transform compile rt) (lookup "compile" values)
        (λ _.
          then_code (load_script transform module_code rt values)
            (plain_script transform module_code values) (load_script-Agrees rt values h))
        (λ v _. ((h, (refl, refl)), refl))
    where
      then_code :
          (o : Option (Runtime P × Dict (Value X))) (o' : Option (Dict (Value X)))
          → Agrees transform compile rt o o'
          → Agrees transform compile rt
              (elim o [
                | none ↦ none
                | some (after, held) ↦ load_code transform module_code after held
              ])
              (elim o' [ none ↦ none | some loaded ↦ plain_code transform loaded ])
      then_code none none k = tt
      then_code none (some values) k = absurd k
      then_code (some (after, held)) none k = absurd k
      then_code (some (after, held)) (some loaded) (next, e) = Agrees-trans rt after _ _ next (
          subst
            (λ (v : Dict (Value X)).
              Agrees transform compile after (load_code transform module_code after held)
                (plain_code transform v))
            e (load_code-Agrees after held next.0))

unfoldable pub answer_to : {Y : Type 0} → Option (Dict (Option Output)) → Ran Y → Answer Y
unfolding follow
answer_to outputs (erred by_limit) = run_failed by_limit
answer_to outputs (panicked payload next) = elim (follow outputs next) [
  | none ↦ crashed
  | some n ↦ goes_on n payload
]
answer_to outputs (done payload next) = elim (follow outputs next) [
  | none ↦ crashed
  | some n ↦ goes_on n payload
]

module _ {P X Y : Type 0} (transform module_code : String → Option String)
    (compile : String → Option P) (run : P → Ran Y) where
  unfoldable pub plain_run_code : (free : Bool) → Node X → String → Answer Y
  unfolding answer_to
  plain_run_code free actor code = elim (compile code) [
    | none ↦ compile_failed
    | some p ↦ if free then answer_to actor.outputs (run p) else waits
  ]

  unfoldable pub plain_run_values : (free : Bool) → Node X → Dict (Value X) → Answer Y
  unfolding code_of outputs_lead plain_run_code
  plain_run_values free actor values = elim (code_of values) [
    | none ↦ crashed
    | some code ↦ if outputs_lead actor.outputs then plain_run_code free actor code else crashed
  ]

  -- The step with no caches; `free` says whether a slot is free.
  unfoldable pub plain_run : (free : Bool) → (id : String) → Node X → Answer Y
  unfolding plain_compile plain_run_values
  plain_run free id actor =
      elim (plain_compile transform module_code (insert "storage_id" (text id) actor.values)) [
        | none ↦ crashed
        | some values ↦ plain_run_values free actor values
      ]

module _ {P Y : Type 0} (transform : String → Option String) (compile : String → Option P) where
  unfoldable pub Answers : Runtime P × Answer Y → Answer Y → Type 0
  unfolding IsCoherent
  Answers r a = IsCoherent transform compile r.0 × (r.1 ≡ a)

  pub after_run-Answers :
      (rt : Runtime P) (outputs : Option (Dict (Option Output))) (ran : Ran Y)
      → IsCoherent transform compile rt
      → Answers (after_run rt outputs ran) (answer_to outputs ran)
  unfolding after_run give_back answer_to Answers IsCoherent
  after_run-Answers rt outputs (erred by_limit) h = (h, refl)
  after_run-Answers rt outputs (panicked payload next) h = (h, refl)
  after_run-Answers rt outputs (done payload next) h = (h, refl)

  pub run_program-Answers :
      (run : P → Ran Y) (rt : Runtime P) (free : Bool) (outputs : Option (Dict (Option Output)))
      (p : P)
      → IsCoherent transform compile rt
      → ltb rt.taken rt.slots ≡ free
      → Answers (run_program run rt outputs p) (if free then answer_to outputs (run p) else waits)
  unfolding run_program take_slot Answers IsCoherent
  run_program-Answers run rt free outputs p h e =
      subst
        (λ (b : Bool).
          Answers (run_program run rt outputs p) (if b then answer_to outputs (run p) else waits))
        e
        (if-elim₂
          (λ (o : Option (Runtime P)) (a : Answer Y).
            Answers (elim o [ none ↦ (rt, waits) | some held ↦ after_run held outputs (run p) ]) a)
          (ltb rt.taken rt.slots) (after_run-Answers _ outputs (run p) h) (h, refl))

module _ {P X Y : Type 0} (transform module_code : String → Option String)
    (compile : String → Option P) (run : P → Ran Y) where
  pub run_code-Answers :
      (rt : Runtime P) (free : Bool) (actor : Node X) (code : String)
      → IsCoherent transform compile rt
      → ltb rt.taken rt.slots ≡ free
      → Answers transform compile
          (run_code transform module_code compile run rt actor code)
          (plain_run_code transform module_code compile run free actor code)
  unfolding run_code plain_run_code Answers IsNext HasSlotsOf
  run_code-Answers rt free actor code h e =
      ran (program_of compile rt code) (compile code)
        (program_of-compile transform compile rt h code)
    where
      ran :
          (r : Runtime P × Option P) (o : Option P)
          → IsNext transform compile rt r.0 × (r.1 ≡ o)
          → Answers transform compile
              (elim r.1 [
                | none ↦ (r.0, compile_failed)
                | some p ↦ run_program run r.0 actor.outputs p
              ])
              (elim o [
                | none ↦ compile_failed
                | some p ↦ if free then answer_to actor.outputs (run p) else waits
              ])
      ran r o (next, same) =
          subst
            (λ (q : Option P).
              Answers {Y = Y} transform compile
                (elim r.1 [
                  | none ↦ (r.0, compile_failed)
                  | some p ↦ run_program run r.0 actor.outputs p
                ])
                (elim q [
                  | none ↦ compile_failed
                  | some p ↦ if free then answer_to actor.outputs (run p) else waits
                ]))
            same
            (Option-elim₂ (Answers {Y = Y} transform compile) r.1 (λ _. (next.0, refl))
              (λ p _.
                run_program-Answers transform compile run r.0 free actor.outputs p next.0
                  (HasSlotsOf-ltb r.0 rt next.1 ∙ e)))

  -- With caches that hold only what the transform and the compiler give, a step answers as one with no
  -- caches, and the caches stay so.
  pub run_js-plain_run :
      (rt : Runtime P) (id : String) (actor : Node X)
      → IsCoherent transform compile rt
      → IsCoherent transform compile (run_js transform module_code compile run rt id actor).0
        × ((run_js transform module_code compile run rt id actor).1
            ≡ plain_run transform module_code compile run (ltb rt.taken rt.slots) id actor)
  unfolding run_js plain_run plain_run_values Answers IsNext Agrees
  run_js-plain_run rt id actor h =
      let values = insert "storage_id" (text id) actor.values in
      ran _ _ (load_compile-Agrees transform module_code compile rt values h)
    where
      ran :
          (o : Option (Runtime P × Dict (Value X))) (o' : Option (Dict (Value X)))
          → Agrees transform compile rt o o'
          → Answers transform compile
              (elim o [
                | none ↦ (rt, crashed)
                | some (after, values) ↦ elim (code_of values) [
                  | none ↦ (after, crashed)
                  | some code ↦
                      if outputs_lead actor.outputs
                      then run_code transform module_code compile run after actor code
                      else (after, crashed)
                ]
              ])
              (elim o' [
                | none ↦ crashed
                | some values ↦
                    plain_run_values transform module_code compile run
                      (ltb rt.taken rt.slots)
                      actor
                      values
              ])
      ran none none k = (h, refl)
      ran none (some values) k = absurd k
      ran (some (after, held)) none k = absurd k
      ran (some (after, held)) (some values) (next, e) =
          subst
            (λ (v : Dict (Value X)).
              Answers transform compile
                (elim (code_of held) [
                  | none ↦ (after, crashed)
                  | some code ↦
                      if outputs_lead actor.outputs
                      then run_code transform module_code compile run after actor code
                      else (after, crashed)
                ])
                (plain_run_values transform module_code compile run (ltb rt.taken rt.slots) actor
                  v))
            e
            (Option-elim₂ (Answers {Y = Y} transform compile) (code_of held) (λ _. (next.0, refl))
              (λ code _.
                if-elim₂ (Answers {Y = Y} transform compile) (outputs_lead actor.outputs)
                  (run_code-Answers after _ actor code next.0 (HasSlotsOf-ltb after rt next.1))
                  (next.0, refl)))
