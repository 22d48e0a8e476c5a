-- ===== src/Tracker/Losses.antt =====
-- What of the tracker's state only the end of a batch changes, the count of its errors and the stored
-- rows.
use nflow_runtime.Common.{
  ℕ, zero, suc, ◌+◌, ◌≤◌, ◌<◌, ◌≡◌, refl, ap, ◌∙◌, ◌⊎◌, inl, inr, Bool, true, not, some, List, [],
  ◌∷◌, ◌++◌, length, length-append, ltb, leb, arith, Bool-cases, Option-cases, if-elim,
}
use nflow_runtime.Common.Indexed.{get_elem?, erase_idx}
use nflow_runtime.Tracker.{
  TrackerConfig, BatchProcessor, Tracker, Attempt, max_retries, insert_batch, insert_with_retries,
  new_tracker, start_tracker, process_batch, count_error, count_batch, track, drop_entry,
  open_breaker, close_breaker, set_processor, flush_batch, add_to_batch, take_entry, receive, stop,
  finish, Event, tracked, received, flushed, stopped, processed, checked, recovered, enables,
  disables, on_processor, step, run,
}
use nflow_runtime.Tracker.Accounting.{given_up, lost_in, lost}

module _ {E : Type 0} where
  -- The steps that end no batch leave these alone.
  abbrev IsQuiet : (t u : Tracker E) → Type 0
  IsQuiet t u =
      (u.stats.errors ≡ t.stats.errors)
      × (u.has_query ≡ t.has_query)
      × (u.stored ≡ t.stored)
      × (u.stats.processed ≡ t.stats.processed)

  quiet : (t : Tracker E) → IsQuiet t t
  quiet t = (refl, refl, refl, refl)

  flush_batch-IsQuiet :
      (t : Tracker E) (i : ℕ) (bp : BatchProcessor E) → IsQuiet t (flush_batch t i bp)
  unfolding flush_batch set_processor
  flush_batch-IsQuiet t i bp = go bp.batch
    where
      go : (batch : List E) → IsQuiet t (flush_batch t i (record bp { batch = batch }))
      go [] = (quiet t)
      go (entry ∷ entries) = (quiet t)

  add_to_batch-IsQuiet :
      (t : Tracker E) (i : ℕ) (bp : BatchProcessor E) (entry : E)
      → IsQuiet t (add_to_batch t i bp entry)
  unfolding add_to_batch set_processor
  add_to_batch-IsQuiet t i bp entry =
      let added : BatchProcessor E = record bp { batch = bp.batch ++ (entry ∷ []) } in
      if-elim (IsQuiet t) (leb bp.batch_size (length added.batch)) (flush_batch-IsQuiet t i added)
        (quiet t)

  take_entry-IsQuiet :
      (t : Tracker E) (i : ℕ) (bp : BatchProcessor E) (entry : E)
      → IsQuiet t (take_entry t i bp entry)
  unfolding take_entry drop_entry
  take_entry-IsQuiet t i bp entry =
      if-elim (IsQuiet t) t.circuit_breaker (quiet t)
        (if-elim (IsQuiet t) (not t.tracker_enabled) (quiet t) (add_to_batch-IsQuiet t i bp entry))

  receive-IsQuiet : (t : Tracker E) (i : ℕ) (bp : BatchProcessor E) → IsQuiet t (receive t i bp)
  unfolding receive
  receive-IsQuiet t i bp = go t.channel
    where
      go : (channel : List E) → IsQuiet t (receive (record t { channel = channel }) i bp)
      go [] = (quiet t)
      go (entry ∷ entries) = take_entry-IsQuiet (record t { channel = entries }) i bp entry

  stop-IsQuiet : (t : Tracker E) (i : ℕ) (bp : BatchProcessor E) → IsQuiet t (stop t i bp)
  unfolding stop
  stop-IsQuiet t i bp = flush_batch-IsQuiet t i bp

  track-IsQuiet : (t : Tracker E) (entry : E) → IsQuiet t (track t entry)
  unfolding track drop_entry
  track-IsQuiet t entry =
      if-elim (IsQuiet t) (not t.tracker_enabled) (quiet t)
        (if-elim (IsQuiet t) (ltb (length t.channel) t.channel_size) (quiet t) (quiet t))

  open_breaker-IsQuiet : (t : Tracker E) → IsQuiet t (open_breaker t)
  unfolding open_breaker
  open_breaker-IsQuiet t = if-elim (IsQuiet t) (leb 50 t.consecutive_errors) (quiet t) (quiet t)

  close_breaker-IsQuiet : (t : Tracker E) → IsQuiet t (close_breaker t)
  unfolding close_breaker
  close_breaker-IsQuiet t = if-elim (IsQuiet t) t.circuit_breaker (quiet t) (quiet t)

  on_processor-IsQuiet :
      (t : Tracker E) (i : ℕ) (f : BatchProcessor E → Tracker E)
      → ((bp : BatchProcessor E) → IsQuiet t (f bp))
      → IsQuiet t (on_processor t i f)
  unfolding on_processor
  on_processor-IsQuiet t i f h = elim (Option-cases (get_elem? t.batch_processors i)) [
    | inl e ↦ rw (on_processor, e) (quiet t)
    | inr (bp, e) ↦ rw (on_processor, e) (h bp)
  ]

  -- The rows that a transaction stores are those of its batch.
  insert_batch-whole :
      (a : Attempt E) (batch rows : List E) → insert_batch a batch ≡ some rows → rows ≡ batch
  unfolding insert_batch
  insert_batch-whole a [] rows e = ground (arith, e)
  insert_batch-whole a (entry ∷ entries) rows e = ground (arith, e)

  insert_with_retries-whole :
      (left retry : ℕ) (attempts : ℕ → Attempt E) (batch rows : List E)
      → (insert_with_retries left retry attempts batch).0 ≡ some rows
      → rows ≡ batch
  unfolding insert_with_retries
  insert_with_retries-whole zero retry attempts batch rows e = absurd (ground (arith, e))
  insert_with_retries-whole (suc left) retry attempts batch rows e =
      elim (Option-cases (insert_batch (attempts retry) batch)) [
        | inl f ↦
            insert_with_retries-whole left (suc retry) attempts batch rows (ground (arith, e, f))
        | inr (kept, f) ↦ insert_batch-whole (attempts retry) batch rows (ground (arith, e, f))
      ]

  -- What a step may do to the errors, and to the stored rows, when it gives up `gone` entries.
  record IsCounted (t u : Tracker E) (gone : ℕ) : Type 0 where
    grows : t.stats.errors ≤ u.stats.errors
    keeps : u.has_query ≡ t.has_query
    counts : t.has_query ≡ true → (gone ≡ 0) ⊎ (t.stats.errors < u.stats.errors)
    stores : length u.stored + t.stats.processed ≡ length t.stored + u.stats.processed

  IsQuiet-IsCounted : (t u : Tracker E) → IsQuiet t u → IsCounted t u 0
  IsQuiet-IsCounted t u (same_errors, same_query, same_rows, same_processed) =
      let rows : length u.stored ≡ length t.stored = ap length same_rows in
      record {
        grows = omega (arith, same_errors);
        keeps = same_query;
        counts = λ e. inl refl;
        stores = omega (arith, rows, same_processed);
      }

  process_batch-IsCounted :
      (t : Tracker E) (attempts : ℕ → Attempt E) (batch : List E)
      → IsCounted t (process_batch t attempts batch) (given_up t.has_query attempts batch)
  unfolding process_batch given_up count_error count_batch
  process_batch-IsCounted t attempts batch = elim (Bool-cases t.has_query) [
    | inr e ↦ record {
      grows = ground (arith, e);
      keeps = ground (arith, e);
      counts = λ f. absurd (ground (arith, e, f));
      stores = ground (arith, e);
    }
    | inl e ↦ elim (Option-cases (insert_with_retries max_retries 0 attempts batch).0) [
      | inl f ↦ record {
        grows = ground (arith, e, f);
        keeps = ground (arith, e, f);
        counts = λ g. inr (ground (arith, e, f));
        stores = ground (arith, e, f);
      }
      | inr (rows, f) ↦
          let whole = insert_with_retries-whole max_retries 0 attempts batch rows f in
          record {
            grows = ground (arith, e, f);
            keeps = ground (arith, e, f);
            counts = λ g. inl (ground (arith, e, f));
            stores = ground (arith, e, f, length-append t.stored rows, whole);
          }
    ]
  ]

  step-IsCounted : (t : Tracker E) (event : Event E) → IsCounted t (step t event) (lost_in t event)
  unfolding step lost_in finish
  step-IsCounted t (tracked entry) = IsQuiet-IsCounted t _ (track-IsQuiet t entry)
  step-IsCounted t (received i) =
      IsQuiet-IsCounted t _ (on_processor-IsQuiet t i (λ bp. receive t i bp) (receive-IsQuiet t i))
  step-IsCounted t (flushed i) =
      IsQuiet-IsCounted t _
        (on_processor-IsQuiet t i (λ bp. flush_batch t i bp) (flush_batch-IsQuiet t i))
  step-IsCounted t (stopped i) =
      IsQuiet-IsCounted t _ (on_processor-IsQuiet t i (λ bp. stop t i bp) (stop-IsQuiet t i))
  step-IsCounted t (processed j attempts) = elim (Option-cases (get_elem? t.running j)) [
    | inl e ↦ rw (finish, lost_in, e) (IsQuiet-IsCounted t t (quiet t))
    | inr (batch, e) ↦
        let done =
          process_batch-IsCounted (record t { running = erase_idx t.running j }) attempts batch in
        rw (finish, lost_in, e)
          (record {
            grows = done.grows;
            keeps = done.keeps;
            counts = done.counts;
            stores = done.stores;
          })
  ]
  step-IsCounted t checked = IsQuiet-IsCounted t _ (open_breaker-IsQuiet t)
  step-IsCounted t recovered = IsQuiet-IsCounted t _ (close_breaker-IsQuiet t)
  step-IsCounted t enables = IsQuiet-IsCounted t _ (quiet t)
  step-IsCounted t disables = IsQuiet-IsCounted t _ (quiet t)

  run-grows :
      (t : Tracker E) (events : List (Event E)) → t.stats.errors ≤ (run t events).stats.errors
  unfolding run
  run-grows t [] = omega arith
  run-grows t (event ∷ events) =
      omega (arith, (step-IsCounted t event).grows, run-grows (step t event) events)

  -- With a query for the log, a run in which no batch is counted as an error gives up no entry.
  pub run-lost :
      (t : Tracker E) (events : List (Event E))
      → t.has_query ≡ true
      → (run t events).stats.errors ≡ t.stats.errors
      → lost t events ≡ 0
  unfolding run lost
  run-lost t [] asked same = refl
  run-lost t (event ∷ events) asked same =
      let first = step-IsCounted t event in
      let later = run-grows (step t event) events in
      elim (first.counts asked) [
        | inr more ↦ absurd (omega (arith, more, later, same))
        | inl none_gone ↦
            let rest =
              run-lost (step t event) events (first.keeps ∙ asked)
                (omega (arith, first.grows, later, same)) in
            omega (arith, none_gone, rest)
      ]

  run-stores :
      (t : Tracker E) (events : List (Event E))
      → length (run t events).stored + t.stats.processed
        ≡ length t.stored + (run t events).stats.processed
  unfolding run
  run-stores t [] = refl
  run-stores t (event ∷ events) =
      omega (arith, (step-IsCounted t event).stores, run-stores (step t event) events)

  -- Whatever happens after the start of the tracker, the entries that it counts as processed are as
  -- many as the rows that it stored.
  pub start_tracker-stored :
      (config : TrackerConfig) (num_workers : ℕ) (has_db : Bool) (t : Tracker E)
      (events : List (Event E))
      → start_tracker config num_workers has_db ≡ some t
      → length (run t events).stored ≡ (run t events).stats.processed
  unfolding start_tracker new_tracker
  start_tracker-stored config num_workers has_db t events e =
      let stored : length t.stored ≡ 0 = ground (arith, e) in
      let counted : t.stats.processed ≡ 0 = ground (arith, e) in
      omega (arith, stored, counted, run-stores t events)
