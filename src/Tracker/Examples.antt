-- ===== src/Tracker/Examples.antt =====
-- The theorems about the tracker at short runs.
use nflow_runtime.Common.{ℕ, ◌+◌, ◌≡◌, refl, true, List, [], ◌∷◌, length}
use nflow_runtime.Common.Int.{pos, negsuc}
use nflow_runtime.Tracker.{
  TrackerConfig, Tracker, Attempt, or_default, new_processors, new_tracker, start_tracker,
  insert_batch, execute_all, insert_with_retries, process_batch, count_error, count_batch, Event,
  tracked, received, processed, run, step, track, finish, receive, on_processor, flush_batch,
  set_processor, add_to_batch, take_entry, drop_entry,
}
use nflow_runtime.Tracker.Accounting.{accounted, lost, offered}
use nflow_runtime.Tracker.Conservation.{run-accounted}
use nflow_runtime.Tracker.Losses.{run-lost, start_tracker-stored}
use nflow_runtime.Tracker.Bounds.{start_tracker-IsBounded}
use nflow_runtime.Tracker.Batches.{IsBounded}
use nflow_runtime.Tracker.Breaker.{IsShut, run-IsShut}

abbrev settings : TrackerConfig
settings = record {
  enabled = true;
  workers = pos 1;
  batch_size = pos 2;
  channel_buffer = negsuc 0;
  has_query = true;
}

abbrev works : ℕ → Attempt ℕ
works n = record { begins = true; prepares = true; executes = λ e. true; commits = true }

abbrev started : Tracker ℕ
started = new_tracker settings 70 true

abbrev events : List (Event ℕ)
events = tracked 5 ∷ received 0 ∷ tracked 6 ∷ received 0 ∷ processed 0 works ∷ tracked 7 ∷ []

run-accounted_example :
    accounted (run started events) + lost started events
    ≡ accounted started + offered started events
run-accounted_example = run-accounted started events

run-lost_example : lost started events ≡ 0
unfolding run step track receive on_processor take_entry add_to_batch flush_batch set_processor
    finish process_batch insert_with_retries insert_batch execute_all count_batch count_error
    new_tracker or_default new_processors drop_entry
run-lost_example = run-lost started events refl refl

start_tracker-stored_example :
    length (run started events).stored ≡ (run started events).stats.processed
unfolding start_tracker
start_tracker-stored_example = start_tracker-stored settings 70 true started events refl

start_tracker-IsBounded_example : IsBounded (or_default (pos 2) 100) (run started events)
unfolding start_tracker
start_tracker-IsBounded_example = start_tracker-IsBounded settings 70 true started events refl

abbrev cut : Tracker ℕ
cut = record started { circuit_breaker = true }

run-IsShut_example : IsShut cut (run cut events)
run-IsShut_example = run-IsShut events cut refl tt
