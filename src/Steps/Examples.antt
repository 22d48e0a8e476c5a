-- ===== src/Steps/Examples.antt =====
-- The theorems about the script step at a node with a script of its own.
use Prim.Native.String
use nflow_runtime.Common.{ℕ, ◌+◌, ◌≤◌, ◌≡◌, ◌↔◌, refl, String, true, Option, none, some, [], ◌∷◌}
use nflow_runtime.Common.Dict.{lookup, insert}
use nflow_runtime.Workflow.{Node, text}
use nflow_runtime.Steps.{
  Runtime, Ran, done, panicked, goes_on, run_js, take_slot, give_back, after_run,
}
use nflow_runtime.Steps.Semaphore.{Reach, here, starts, ends, leaks, Reach-take_slot}
use nflow_runtime.Steps.Caches.{IsCoherent, plain_run, run_js-plain_run, empty-AreTrue}

abbrev ticked : String → Option String
ticked code = some (String.◌++◌ code ";")

abbrev no_module : String → Option String
no_module name = none

abbrev says : String → Ran ℕ
says program = done 7 "n9"

abbrev breaks : String → Ran ℕ
breaks program = panicked 7 "n9"

abbrev fresh : ℕ → Runtime String
fresh taken = record { programs = []; transforms = []; taken = taken; slots = 1 }

abbrev scripted : Node ℕ
scripted = record { values = ("code", text "f()") ∷ []; outputs = none }

-- A panic takes the only slot, and the step goes on.
breaks_test : run_js ticked no_module some breaks (fresh 0) "s1" scripted ≡ (
  record {
    programs = ("f();\nmain()", "f();\nmain()") ∷ [];
    transforms = ("f()", "f();") ∷ [];
    taken = 1;
    slots = 1;
  },
  goes_on "n9" 7,
)
unfolding run_js lookup insert
breaks_test = refl

-- Two slots; two scripts start, one of them panics and another ends.
abbrev pair : ℕ → Runtime String
pair taken = record { programs = []; transforms = []; taken = taken; slots = 2 }

both_run : Reach ℕ (pair 0) (pair 2) 2 0
unfolding take_slot
both_run = starts (pair 2) (starts (pair 1) here refl) refl

one_panics : Reach ℕ (pair 0) (pair 1) 0 1
unfolding after_run give_back leaks
one_panics = ends none (done 3 "n") (ends none (panicked 7 "n9") both_run)

Reach-take_slot_example : (1 ≡ 0 + 1) × (0 + 1 ≤ 2) × ((take_slot (pair 1) ≡ none) ↔ (2 ≤ 0 + 1))
Reach-take_slot_example = Reach-take_slot (pair 0) (pair 1) 0 1 refl one_panics

run_js-plain_run_example :
    IsCoherent ticked some (run_js ticked no_module some says (fresh 0) "s1" scripted).0
    × ((run_js ticked no_module some says (fresh 0) "s1" scripted).1
        ≡ plain_run ticked no_module some says true "s1" scripted)
unfolding IsCoherent
run_js-plain_run_example =
    run_js-plain_run ticked no_module some says (fresh 0) "s1" scripted
      (empty-AreTrue ticked, empty-AreTrue some)
