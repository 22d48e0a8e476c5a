-- ===== src/Steps.antt =====
-- engine/step_goja.go: a step that runs a script. goja, babel and the repository of modules are
-- parameters; a run of a program may end with an error, with a panic or done, and leaves a payload and
-- a next output in the machine. The variables that are set in the machine are part of that parameter.
-- The values of the node are its copy for this step: what the step writes there is not in its result.
pub mod Caches
pub mod Slots
pub mod Semaphore
pub mod Examples
use Prim.Native.String
use nflow_runtime.Common.{
  ℕ, zero, suc, ◌+◌, ◌-◌, String, Bool, true, false, Option, none, some, List, [], ◌∷◌, length, ltb,
  if◌then◌else◌,
}
use nflow_runtime.Common.Dict.{Dict, lookup, insert}
use nflow_runtime.Workflow.{Value, text, Connection, Output, Node, as_text}

-- What the steps share: the caches of programs and of transforms, and the taken slots of the semaphore
-- of the machines.
pub record Runtime (P : Type 0) : Type 0 where
  pub programs : Dict P
  pub transforms : Dict String
  pub taken : ℕ
  pub slots : ℕ

pub data Ran (Y : Type 0) : Type 0 where
  erred : (by_limit : Bool) → Ran Y
  panicked done : (payload : Y) (next : String) → Ran Y

-- What the step answers; `waits` is a step that finds no slot and is held up at the semaphore, until a
-- slot is given back; `crashed` is a panic out of the step.
pub data Answer (Y : Type 0) : Type 0 where
  goes_on : (next : String) (payload : Y) → Answer Y
  compile_failed crashed waits : Answer Y
  run_failed : (by_limit : Bool) → Answer Y

unfoldable pub first_node : Output → Option String
first_node o = elim o.connections [
  | none ↦ none
  | some cs ↦ elim cs [ [] ↦ none | c ∷ rest ↦ some c.node ]
]

-- The loop over the outputs, which panics at a null output and at one without connections.
unfoldable pub all_lead : Dict (Option Output) → Bool
unfolding first_node
all_lead [] = true
all_lead ((k, none) ∷ outputs) = false
all_lead ((k, some o) ∷ outputs) =
    let rest = all_lead outputs in elim (first_node o) [ none ↦ false | some n ↦ rest ]

unfoldable pub outputs_lead : Option (Dict (Option Output)) → Bool
unfolding all_lead
outputs_lead none = true
outputs_lead (some outputs) = all_lead outputs

-- Where the step goes on from the output that the script chose; none is a panic.
unfoldable pub follow : Option (Dict (Option Output)) → (next : String) → Option String
unfolding first_node
follow none next = some next
follow (some outputs) next = elim (lookup next outputs) [
  | none ↦ some ""
  | some o ↦ elim o [ none ↦ some "" | some output ↦ first_node output ]
]

module _ {P : Type 0} where
  unfoldable pub keep_transform : Runtime P → (code transformed : String) → Runtime P
  keep_transform rt code transformed =
      if ltb 1000 (length rt.transforms)
      then record rt { transforms = insert code transformed [] }
      else record rt { transforms = insert code transformed rt.transforms }

  unfoldable pub keep_program : Runtime P → (code : String) → P → Runtime P
  keep_program rt code program =
      if ltb 500 (length rt.programs)
      then record rt { programs = insert code program [] }
      else record rt { programs = insert code program rt.programs }

module _ {P : Type 0} (transform : String → Option String) where
  -- `babelTransform`
  unfoldable pub babel_transform : Runtime P → String → Runtime P × String
  unfolding keep_transform
  babel_transform rt code = elim (lookup code rt.transforms) [
    | some cached ↦ (rt, cached)
    | none ↦ elim (transform code) [
      | none ↦ (rt, code)
      | some transformed ↦ (keep_transform rt code transformed, transformed)
    ]
  ]

  -- The code of a text of the node, kept as "compile"; none is a panic.
  unfoldable pub compile_value :
      {X : Type 0}
      → Runtime P
      → Dict (Value X)
      → (code : Option String) → Option (Runtime P × Dict (Value X))
  unfolding babel_transform
  compile_value rt values none = none
  compile_value rt values (some code) =
      let (after, transformed) = babel_transform rt code in
      some (after, insert "compile" (text transformed) values)

  module _ {X : Type 0} (module_code : String → Option String) where
    unfoldable pub load_script : Runtime P → Dict (Value X) → Option (Runtime P × Dict (Value X))
    unfolding compile_value as_text
    load_script rt values = elim (lookup "script" values) [
      | none ↦ some (rt, values)
      | some v ↦ elim (as_text v) [
        | none ↦ none
        | some name ↦ elim (module_code name) [
          | none ↦ some (rt, values)
          | some code ↦ compile_value rt values (some code)
        ]
      ]
    ]

    unfoldable pub load_code : Runtime P → Dict (Value X) → Option (Runtime P × Dict (Value X))
    unfolding compile_value as_text
    load_code rt values = elim (lookup "code" values) [
      | none ↦ some (rt, values)
      | some v ↦ compile_value rt values (as_text v)
    ]

    unfoldable pub load_compile : Runtime P → Dict (Value X) → Option (Runtime P × Dict (Value X))
    unfolding load_script load_code
    load_compile rt values = elim (lookup "compile" values) [
      | some v ↦ some (rt, values)
      | none ↦ elim (load_script rt values) [
        | none ↦ none
        | some (after, loaded) ↦ load_code after loaded
      ]
    ]

unfoldable pub code_of : {X : Type 0} → Dict (Value X) → Option String
unfolding as_text
code_of values = elim (lookup "compile" values) [
  | none ↦ some "function main(){}\nmain()"
  | some v ↦ elim (as_text v) [ none ↦ none | some code ↦ some (String.◌++◌ code "\nmain()") ]
]

module _ {P : Type 0} (compile : String → Option P) where
  -- The program from the cache, or compiled and kept; none is an error of the compiler.
  unfoldable pub program_of : Runtime P → String → Runtime P × Option P
  unfolding keep_program
  program_of rt code = elim (lookup code rt.programs) [
    | some program ↦ (rt, some program)
    | none ↦ elim (compile code) [
      | none ↦ (rt, none)
      | some program ↦ (keep_program rt code program, some program)
    ]
  ]

module _ {P : Type 0} where
  -- `semVM <- 1`, which goes on once there is a free slot.
  unfoldable pub take_slot : Runtime P → Option (Runtime P)
  take_slot rt = if ltb rt.taken rt.slots then some (record rt { taken = rt.taken + 1 }) else none

  -- `<-semVM`
  unfoldable pub give_back : Runtime P → Runtime P
  give_back rt = record rt { taken = rt.taken - 1 }

module _ {P Y : Type 0} where
  -- What comes after the run: a panic is recovered, with no error, before the slot is given back.
  unfoldable pub after_run :
      Runtime P → Option (Dict (Option Output)) → Ran Y → Runtime P × Answer Y
  unfolding follow give_back
  after_run rt outputs (erred by_limit) = (give_back rt, run_failed by_limit)
  after_run rt outputs (panicked payload next) =
      (rt, elim (follow outputs next) [ none ↦ crashed | some n ↦ goes_on n payload ])
  after_run rt outputs (done payload next) =
      (give_back rt, elim (follow outputs next) [ none ↦ crashed | some n ↦ goes_on n payload ])

  unfoldable pub run_program :
      (run : P → Ran Y) → Runtime P → Option (Dict (Option Output)) → P → Runtime P × Answer Y
  unfolding take_slot after_run
  run_program run rt outputs program = elim (take_slot rt) [
    | none ↦ (rt, waits)
    | some held ↦ after_run held outputs (run program)
  ]

module _ {P X Y : Type 0} (transform : String → Option String)
    (module_code : String → Option String) (compile : String → Option P) (run : P → Ran Y) where
  unfoldable pub run_code : Runtime P → Node X → String → Runtime P × Answer Y
  unfolding program_of run_program
  run_code rt actor code =
      let (after, program) = program_of compile rt code in
      elim program [
        | none ↦ (after, compile_failed)
        | some p ↦ run_program run after actor.outputs p
      ]

  -- `StepJS.Run`, once it has a connection to the database; `id` is the new storage id.
  unfoldable pub run_js : Runtime P → (id : String) → Node X → Runtime P × Answer Y
  unfolding load_compile code_of outputs_lead run_code
  run_js rt id actor =
      elim (load_compile transform module_code rt (insert "storage_id" (text id) actor.values)) [
        | none ↦ (rt, crashed)
        | some (after, values) ↦ elim (code_of values) [
          | none ↦ (after, crashed)
          | some code ↦
              if outputs_lead actor.outputs then run_code after actor code else (after, crashed)
        ]
      ]
