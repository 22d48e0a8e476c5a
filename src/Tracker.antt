-- ===== src/Tracker.antt =====
-- engine/tracker.go: the entries of the steps, collected in batches that workers write to the
-- database. A batch is handed to a goroutine, here to the list `running`; an event of the system is
-- one constructor of `Event`. The rows of a transaction are stored when its commit succeeds.
pub mod Conservation
pub mod Losses
pub mod Batches
pub mod Bounds
pub mod Accounting
pub mod Breaker
pub mod Retries
pub mod Examples
use nflow_runtime.Common.{
  ℕ, zero, suc, ◌+◌, ◌*◌, ◌^◌, Bool, true, false, not, Option, none, some, List, [], ◌∷◌, ◌++◌,
  length, ltb, leb, if◌then◌else◌,
}
use nflow_runtime.Common.Int.{ℤ, pos, negsuc}
use nflow_runtime.Common.Indexed.{get_elem?, set, erase_idx}

pub record TrackerConfig : Type 0 where
  pub enabled : Bool
  pub workers : ℤ
  pub batch_size : ℤ
  pub channel_buffer : ℤ
  -- `DatabaseNflow.QueryInsertLog` is not empty.
  pub has_query : Bool

pub record TrackerStats : Type 0 where
  pub processed : ℕ
  pub errors : ℕ
  pub dropped : ℕ
  pub batch_count : ℕ

pub record BatchProcessor (E : Type 0) : Type 0 where
  pub batch : List E
  pub batch_size : ℕ

pub record Tracker (E : Type 0) : Type 0 where
  pub channel : List E
  pub channel_size : ℕ
  pub stats : TrackerStats
  pub tracker_enabled : Bool
  pub circuit_breaker : Bool
  pub consecutive_errors : ℕ
  pub has_query : Bool
  pub batch_processors : List (BatchProcessor E)
  pub running : List (List E)
  -- the rows of the table
  pub stored : List E

-- What the calls of the database answer in one attempt to insert a batch.
pub record Attempt (E : Type 0) : Type 0 where
  pub begins : Bool
  pub prepares : Bool
  pub executes : E → Bool
  pub commits : Bool

abbrev pub max_retries : ℕ
max_retries = 3

abbrev pub max_consecutive_errors : ℕ
max_consecutive_errors = 50

-- in milliseconds
abbrev pub retry_delay : ℕ
retry_delay = 100

-- A setting that is not above 0 is left at its default.
unfoldable pub or_default : ℤ → ℕ → ℕ
or_default (pos zero) d = d
or_default (pos (suc n)) d = suc n
or_default (negsuc n) d = d

abbrev pub new_stats : TrackerStats
new_stats = record { processed = 0; errors = 0; dropped = 0; batch_count = 0 }

module _ {E : Type 0} where
  unfoldable pub new_processors : (workers batch_size : ℕ) → List (BatchProcessor E)
  new_processors zero batch_size = []
  new_processors (suc n) batch_size =
      record { batch = []; batch_size = batch_size } ∷ new_processors n batch_size

  unfoldable pub new_tracker : TrackerConfig → (num_workers : ℕ) (has_db : Bool) → Tracker E
  unfolding or_default new_processors
  new_tracker config num_workers has_db = record {
    channel = [];
    channel_size = or_default config.channel_buffer 100000;
    stats = new_stats;
    tracker_enabled = true;
    circuit_breaker = false;
    consecutive_errors = 0;
    has_query = config.has_query;
    batch_processors =
        if has_db
        then new_processors (or_default config.workers num_workers)
            (or_default config.batch_size 100)
        else [];
    running = [];
    stored = [];
  }

  -- `StartTracker`, from the settings, the number of workers of the call and whether `GetDB` answers;
  -- none if the tracker is disabled. Without a database no worker runs, but entries are taken.
  unfoldable pub start_tracker :
      TrackerConfig → (num_workers : ℕ) (has_db : Bool) → Option (Tracker E)
  unfolding new_tracker
  start_tracker config num_workers has_db =
      if config.enabled then some (new_tracker config num_workers has_db) else none

  -- `insertBatch`: the rows that the transaction stores, none for an error.
  unfoldable pub execute_all : Attempt E → List E → Bool
  execute_all a [] = true
  execute_all a (entry ∷ entries) =
      let rest = execute_all a entries in if a.executes entry then rest else false

  unfoldable pub insert_batch : Attempt E → List E → Option (List E)
  unfolding execute_all
  insert_batch a [] = some []
  insert_batch a (entry ∷ entries) =
      if not a.begins
      then none
      else if not a.prepares
      then none
      else if not (execute_all a (entry ∷ entries))
      then none
      else if a.commits
      then some (entry ∷ entries)
      else none

  -- The loop of `processBatch` from the retry `retry`, with `left` retries left: the stored rows, and
  -- the delays that it sleeps.
  unfoldable pub insert_with_retries :
      (left retry : ℕ) → (ℕ → Attempt E) → List E → Option (List E) × List ℕ
  unfolding insert_batch
  insert_with_retries zero retry attempts batch = (none, [])
  insert_with_retries (suc left) retry attempts batch =
      let (rows, delays) = insert_with_retries left (suc retry) attempts batch in
      elim (insert_batch (attempts retry) batch) [
        | none ↦ (rows, (retry_delay * 2 ^ retry) ∷ delays)
        | some stored ↦ (some stored, [])
      ]

  unfoldable pub count_error : Tracker E → Tracker E
  count_error t = record t {
    stats = record t.stats { errors = t.stats.errors + 1 };
    consecutive_errors = t.consecutive_errors + 1;
  }

  unfoldable pub count_batch : Tracker E → (batch rows : List E) → Tracker E
  count_batch t batch rows = record t {
    consecutive_errors = 0;
    stats = record t.stats {
      processed = t.stats.processed + length batch;
      batch_count = t.stats.batch_count + 1;
    };
    stored = t.stored ++ rows;
  }

  unfoldable pub process_batch : Tracker E → (ℕ → Attempt E) → List E → Tracker E
  unfolding insert_with_retries count_error count_batch
  process_batch t attempts batch =
      let outcome = (insert_with_retries max_retries 0 attempts batch).0 in
      if not t.has_query
      then t
      else elim outcome [ none ↦ count_error t | some rows ↦ count_batch t batch rows ]

  unfoldable pub set_processor : Tracker E → ℕ → BatchProcessor E → Tracker E
  set_processor t i bp = record t { batch_processors = set t.batch_processors i bp }

  -- `flushBatch` of the worker `i`, which is `bp`
  unfoldable pub flush_batch : Tracker E → ℕ → BatchProcessor E → Tracker E
  unfolding set_processor
  flush_batch t i bp = elim bp.batch [
    | [] ↦ set_processor t i bp
    | entry ∷ entries ↦
        set_processor (record t { running = (entry ∷ entries) ∷ t.running }) i
          (record bp { batch = [] })
  ]

  unfoldable pub add_to_batch : Tracker E → ℕ → BatchProcessor E → E → Tracker E
  unfolding flush_batch set_processor
  add_to_batch t i bp entry =
      let added : BatchProcessor E = record bp { batch = bp.batch ++ (entry ∷ []) } in
      if leb bp.batch_size (length added.batch)
      then flush_batch t i added
      else set_processor t i added

  unfoldable pub drop_entry : Tracker E → Tracker E
  drop_entry t = record t { stats = record t.stats { dropped = t.stats.dropped + 1 } }

  -- A worker takes the entry `entry` from the channel.
  unfoldable pub take_entry : Tracker E → ℕ → BatchProcessor E → E → Tracker E
  unfolding drop_entry add_to_batch
  take_entry t i bp entry =
      if t.circuit_breaker
      then drop_entry t
      else if not t.tracker_enabled
      then drop_entry t
      else add_to_batch t i bp entry

  unfoldable pub receive : Tracker E → ℕ → BatchProcessor E → Tracker E
  unfolding take_entry
  receive t i bp = elim t.channel [
    | [] ↦ t
    | entry ∷ entries ↦ take_entry (record t { channel = entries }) i bp entry
  ]

  -- The end of `step`, in engine/engine.go: the entry goes to the channel, or is dropped if that is full.
  unfoldable pub track : Tracker E → E → Tracker E
  unfolding drop_entry
  track t entry =
      if not t.tracker_enabled
      then t
      else if ltb (length t.channel) t.channel_size
      then record t { channel = t.channel ++ (entry ∷ []) }
      else drop_entry t

  -- The first half of a tick of `monitorCircuitBreaker`, and the second, after the recovery time.
  unfoldable pub open_breaker : Tracker E → Tracker E
  open_breaker t =
      if leb max_consecutive_errors t.consecutive_errors
      then record t { circuit_breaker = true }
      else t

  unfoldable pub close_breaker : Tracker E → Tracker E
  close_breaker t =
      if t.circuit_breaker then record t { circuit_breaker = false; consecutive_errors = 0 } else t

pub data Event (E : Type 0) : Type 0 where
  tracked : E → Event E
  -- of the worker with this number: it takes an entry, its ticker fires, it sees the shutdown
  received flushed stopped : ℕ → Event E
  -- the end of the goroutine of the running batch with this number
  processed : ℕ → (ℕ → Attempt E) → Event E
  checked recovered enables disables : Event E

module _ {E : Type 0} where
  unfoldable pub on_processor : Tracker E → ℕ → (BatchProcessor E → Tracker E) → Tracker E
  on_processor t i f = elim (get_elem? t.batch_processors i) [ none ↦ t | some bp ↦ f bp ]

  -- The worker flushes its batch and ends.
  unfoldable pub stop : Tracker E → ℕ → BatchProcessor E → Tracker E
  unfolding flush_batch
  stop t i bp =
      let flushed : Tracker E = flush_batch t i bp in
      record flushed { batch_processors = erase_idx flushed.batch_processors i }

  unfoldable pub finish : Tracker E → ℕ → (ℕ → Attempt E) → Tracker E
  unfolding process_batch
  finish t j attempts = elim (get_elem? t.running j) [
    | none ↦ t
    | some batch ↦ process_batch (record t { running = erase_idx t.running j }) attempts batch
  ]

  unfoldable pub step : Tracker E → Event E → Tracker E
  unfolding on_processor stop finish track receive flush_batch open_breaker close_breaker
  step t (tracked entry) = track t entry
  step t (received i) = on_processor t i (λ bp. receive t i bp)
  step t (flushed i) = on_processor t i (λ bp. flush_batch t i bp)
  step t (stopped i) = on_processor t i (λ bp. stop t i bp)
  step t (processed j attempts) = finish t j attempts
  step t checked = open_breaker t
  step t recovered = close_breaker t
  step t enables = record t { tracker_enabled = true }
  step t disables = record t { tracker_enabled = false }

  unfoldable pub run : Tracker E → List (Event E) → Tracker E
  unfolding step
  run t [] = t
  run t (event ∷ events) = run (step t event) events
