-- ===== src/Tracker/Bounds.antt =====
-- The sizes of the batches and of the channel over a run.
use nflow_runtime.Common.{
  ℕ, zero, suc, ◌<◌, ◌≡◌, refl, Bool, some, List, [], ◌∷◌, leb, arith, if-elim, All,
}
use nflow_runtime.Common.Int.{ℤ, pos, negsuc}
use nflow_runtime.Tracker.{
  TrackerConfig, Tracker, or_default, new_processors, new_tracker, start_tracker, open_breaker,
  close_breaker, flush_batch, receive, stop, Event, tracked, received, flushed, stopped, processed,
  checked, recovered, enables, disables, step, run,
}
use nflow_runtime.Tracker.Batches.{
  HasRoom, IsBounded, flush_batch-IsBounded, track-IsBounded, receive-IsBounded, stop-IsBounded,
  finish-IsBounded, on_processor-IsBounded,
}

or_default-positive : (setting : ℤ) (d : ℕ) → 0 < d → 0 < or_default setting d
unfolding or_default
or_default-positive (pos zero) d h = h
or_default-positive (pos (suc n)) d h = omega arith
or_default-positive (negsuc n) d h = h

new_processors-HasRoom :
    (E : Type 0) (workers size : ℕ)
    → 0 < size
    → All (HasRoom {E = E} size) (new_processors workers size)
unfolding new_processors
new_processors-HasRoom E zero size h = tt
new_processors-HasRoom E (suc n) size h = ((refl, h), new_processors-HasRoom E n size h)

module _ {E : Type 0} where
  step-IsBounded :
      (size : ℕ) (t : Tracker E) (event : Event E)
      → IsBounded size t
      → IsBounded size (step t event)
  unfolding step open_breaker close_breaker
  step-IsBounded size t (tracked entry) h = track-IsBounded size t entry h
  step-IsBounded size t (received i) h =
      on_processor-IsBounded size t i (λ bp. receive t i bp)
        (λ bp room. receive-IsBounded size t i bp room h) h
  step-IsBounded size t (flushed i) h =
      on_processor-IsBounded size t i (λ bp. flush_batch t i bp)
        (λ bp room.
          flush_batch-IsBounded size t i bp room.0 (omega (arith, room.1)) (omega (arith, room.1))
            h)
        h
  step-IsBounded size t (stopped i) h =
      on_processor-IsBounded size t i (λ bp. stop t i bp)
        (λ bp room. stop-IsBounded size t i bp room h) h
  step-IsBounded size t (processed j attempts) h = finish-IsBounded size t j attempts h
  step-IsBounded size t checked h =
      if-elim (IsBounded size) (leb 50 t.consecutive_errors)
        (record { workers = h.workers; batches = h.batches; channel = h.channel }) h
  step-IsBounded size t recovered h =
      if-elim (IsBounded size) t.circuit_breaker
        (record { workers = h.workers; batches = h.batches; channel = h.channel }) h
  step-IsBounded size t enables h = (record {
    workers = h.workers;
    batches = h.batches;
    channel = h.channel;
  })
  step-IsBounded size t disables h = (record {
    workers = h.workers;
    batches = h.batches;
    channel = h.channel;
  })

  run-IsBounded :
      (size : ℕ) (t : Tracker E) (events : List (Event E))
      → IsBounded size t
      → IsBounded size (run t events)
  unfolding run
  run-IsBounded size t [] h = h
  run-IsBounded size t (event ∷ events) h =
      run-IsBounded size (step t event) events (step-IsBounded size t event h)

  new_tracker-IsBounded :
      (config : TrackerConfig) (num_workers : ℕ) (has_db : Bool)
      → IsBounded (or_default config.batch_size 100) (new_tracker {E = E} config num_workers has_db)
  unfolding new_tracker
  new_tracker-IsBounded config num_workers has_db =
      let size = or_default config.batch_size 100 in
      record {
        workers =
            if-elim (All (HasRoom size)) has_db
              (new_processors-HasRoom E (or_default config.workers num_workers) size
                (or_default-positive config.batch_size 100 (omega arith)))
              tt;
        batches = tt;
        channel = omega arith;
      }

  -- Whatever happens after the start of the tracker, with the settings that are not above 0 at their
  -- defaults: each worker's batch is shorter than the batch size, each batch that is handed over has
  -- at least one entry and at most the batch size, and the channel holds at most its size.
  pub start_tracker-IsBounded :
      (config : TrackerConfig) (num_workers : ℕ) (has_db : Bool) (t : Tracker E)
      (events : List (Event E))
      → start_tracker config num_workers has_db ≡ some t
      → IsBounded (or_default config.batch_size 100) (run t events)
  unfolding start_tracker
  start_tracker-IsBounded config num_workers has_db t events e =
      let new : new_tracker config num_workers has_db ≡ t = ground (arith, e) in
      run-IsBounded (or_default config.batch_size 100) t events
        (rw⁻¹ (new) (new_tracker-IsBounded config num_workers has_db))
