-- ===== src/Process/Examples.antt =====
-- The theorems about processes at a store with one process or two.
use nflow_runtime.Common.{ℕ, ◌≡◌, refl, none, some, List, [], ◌∷◌, arith}
use nflow_runtime.Common.Int.{pos}
use nflow_runtime.Common.Dict.{lookup, insert}
use nflow_runtime.Process.{
  World, get_elem?, receive, exit_message, w_kill, w_kill_all, new_process, store,
  create_process_with_callback,
}
use nflow_runtime.Process.Kill.{IsFlagged, w_kill_all-IsFlagged, w_kill-receive}
use nflow_runtime.Process.Store.{
  Op, creates, forks, kills, closes, sends, receives, expected, expected_all, marked, apply_all,
  flag_of,
}
use nflow_runtime.Process.Registry.{apply_all-expected_all}

abbrev nothing : World ℕ
nothing = record { heap = []; repo = []; closed = [] }

abbrev one : World ℕ
one = (create_process_with_callback "w1" nothing).1

abbrev ops : List Op
ops = creates "w2" ∷ sends 0 "hello" ∷ kills "w1" ∷ receives 0 ∷ closes "w2" ∷ []

apply_all-expected_all_example :
    flag_of "w1" (apply_all nothing (forks "w1" ∷ ops))
    ≡ expected_all (forks "w1" ∷ ops) "w1" (flag_of "w1" nothing)
unfolding lookup
apply_all-expected_all_example =
    apply_all-expected_all (forks "w1" ∷ ops) nothing "w1" (λ wid a e. absurd (ground (arith, e)))

-- What is expected there: a process with its flag set, and none.
killed_test : expected_all (forks "w1" ∷ ops) "w1" none ≡ some (pos 1)
unfolding expected_all expected marked
killed_test = refl

closed_test : expected_all (forks "w1" ∷ ops) "w2" none ≡ none
unfolding expected_all expected marked
closed_test = refl

w_kill_all-IsFlagged_example : IsFlagged (w_kill_all one) 0
unfolding create_process_with_callback new_process store insert lookup get_elem?
w_kill_all-IsFlagged_example =
    w_kill_all-IsFlagged one "w1" 0 (new_process "w1" (some [])) refl refl

w_kill-receive_example :
    (w' : World ℕ) × (receive (w_kill "w1" one) 0 ≡ some (exit_message, w')) × IsFlagged w' 0
unfolding create_process_with_callback new_process store insert lookup get_elem?
w_kill-receive_example = w_kill-receive one "w1" 0 (new_process "w1" (some [])) refl refl refl
