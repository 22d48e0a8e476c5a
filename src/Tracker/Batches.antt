-- ===== src/Tracker/Batches.antt =====
-- The sizes of the batches and of the channel under each operation.
use nflow_runtime.Common.{
  ℕ, ◌+◌, ◌≤◌, ◌<◌, ◌≡◌, inl, inr, not, List, [], ◌∷◌, ◌++◌, length, length-append, ltb, leb, arith,
  Bool-cases, Option-cases, if-elim, All,
}
use nflow_runtime.Common.Indexed.{get_elem?, set, erase_idx, All-get_elem?, All-set, All-erase_idx}
use nflow_runtime.Tracker.{
  BatchProcessor, Tracker, Attempt, max_retries, insert_with_retries, process_batch, count_error,
  count_batch, track, drop_entry, set_processor, flush_batch, add_to_batch, take_entry, receive,
  stop, finish, on_processor,
}

module _ {E : Type 0} where
  -- A worker of batches of the size `size`, whose batch is not full.
  abbrev pub HasRoom : ℕ → BatchProcessor E → Type 0
  HasRoom size bp = (bp.batch_size ≡ size) × (length bp.batch < size)

  abbrev pub IsBatch : ℕ → List E → Type 0
  IsBatch size batch = (0 < length batch) × (length batch ≤ size)

  pub record IsBounded (size : ℕ) (t : Tracker E) : Type 0 where
    pub workers : All (HasRoom size) t.batch_processors
    pub batches : All (IsBatch size) t.running
    pub channel : length t.channel ≤ t.channel_size

  pub flush_batch-IsBounded :
      (size : ℕ) (t : Tracker E) (i : ℕ) (bp : BatchProcessor E)
      → bp.batch_size ≡ size
      → 0 < size
      → length bp.batch ≤ size
      → IsBounded size t
      → IsBounded size (flush_batch t i bp)
  unfolding flush_batch set_processor
  flush_batch-IsBounded size t i bp sized positive short h = go bp.batch short
    where
      emptied : All (HasRoom size) (set t.batch_processors i (record bp { batch = [] }))
      emptied = All-set (HasRoom size) t.batch_processors i _ (sized, positive) h.workers

      go :
          (batch : List E)
          → length batch ≤ size
          → IsBounded size (flush_batch t i (record bp { batch = batch }))
      go [] k = record { workers = emptied; batches = h.batches; channel = h.channel }
      go (entry ∷ entries) k = record {
        workers = emptied;
        batches = ((omega arith, k), h.batches);
        channel = h.channel;
      }

  set_processor-IsBounded :
      (size : ℕ) (t : Tracker E) (i : ℕ) (bp : BatchProcessor E)
      → HasRoom size bp
      → IsBounded size t
      → IsBounded size (set_processor t i bp)
  unfolding set_processor
  set_processor-IsBounded size t i bp room h = record {
    workers = All-set (HasRoom size) t.batch_processors i bp room h.workers;
    batches = h.batches;
    channel = h.channel;
  }

  add_to_batch-IsBounded :
      (size : ℕ) (t : Tracker E) (i : ℕ) (bp : BatchProcessor E) (entry : E)
      → HasRoom size bp
      → IsBounded size t
      → IsBounded size (add_to_batch t i bp entry)
  unfolding add_to_batch
  add_to_batch-IsBounded size t i bp entry (sized, room) h =
      let added : BatchProcessor E = record bp { batch = bp.batch ++ (entry ∷ []) } in
      let longer : length added.batch ≡ length bp.batch + 1 =
        omega (arith, length-append bp.batch (entry ∷ [])) in
      elim (Bool-cases (leb bp.batch_size (length (bp.batch ++ (entry ∷ []))))) [
        | inl e ↦ rw (e) (
            flush_batch-IsBounded size t i added sized (omega (arith, room))
              (omega (arith, room, longer)) h)
        | inr e ↦
            rw (e)
              (set_processor-IsBounded size t i added (sized, ground (arith, e, sized, longer)) h)
      ]

  drop_entry-IsBounded :
      (size : ℕ) (t : Tracker E) → IsBounded size t → IsBounded size (drop_entry t)
  unfolding drop_entry
  drop_entry-IsBounded size t h = record {
    workers = h.workers;
    batches = h.batches;
    channel = h.channel;
  }

  take_entry-IsBounded :
      (size : ℕ) (t : Tracker E) (i : ℕ) (bp : BatchProcessor E) (entry : E)
      → HasRoom size bp
      → IsBounded size t
      → IsBounded size (take_entry t i bp entry)
  unfolding take_entry
  take_entry-IsBounded size t i bp entry room h =
      if-elim (IsBounded size) t.circuit_breaker (drop_entry-IsBounded size t h) (
        if-elim (IsBounded size) (not t.tracker_enabled) (drop_entry-IsBounded size t h)
          (add_to_batch-IsBounded size t i bp entry room h))

  pub receive-IsBounded :
      (size : ℕ) (t : Tracker E) (i : ℕ) (bp : BatchProcessor E)
      → HasRoom size bp
      → IsBounded size t
      → IsBounded size (receive t i bp)
  unfolding receive
  receive-IsBounded size t i bp room h = go t.channel h.channel
    where
      go :
          (channel : List E)
          → length channel ≤ t.channel_size
          → IsBounded size (receive (record t { channel = channel }) i bp)
      go [] k = record { workers = h.workers; batches = h.batches; channel = k }
      go (entry ∷ entries) k =
          take_entry-IsBounded size (record t { channel = entries }) i bp entry room
            (record { workers = h.workers; batches = h.batches; channel = omega (arith, k) })

  pub stop-IsBounded :
      (size : ℕ) (t : Tracker E) (i : ℕ) (bp : BatchProcessor E)
      → HasRoom size bp
      → IsBounded size t
      → IsBounded size (stop t i bp)
  unfolding stop
  stop-IsBounded size t i bp (sized, room) h =
      let k =
        flush_batch-IsBounded size t i bp sized (omega (arith, room)) (omega (arith, room)) h in
      record {
        workers = All-erase_idx (HasRoom size) (flush_batch t i bp).batch_processors i k.workers;
        batches = k.batches;
        channel = k.channel;
      }

  pub track-IsBounded :
      (size : ℕ) (t : Tracker E) (entry : E) → IsBounded size t → IsBounded size (track t entry)
  unfolding track
  track-IsBounded size t entry h =
      if-elim (IsBounded size) (not t.tracker_enabled) h
        (elim (Bool-cases (ltb (length t.channel) t.channel_size)) [
          | inl e ↦ rw (e) (record {
            workers = h.workers;
            batches = h.batches;
            channel = ground (arith, e, length-append t.channel (entry ∷ []));
          })
          | inr e ↦ rw (e) (drop_entry-IsBounded size t h)
        ])

  process_batch-IsBounded :
      (size : ℕ) (t : Tracker E) (attempts : ℕ → Attempt E) (batch : List E)
      → IsBounded size t
      → IsBounded size (process_batch t attempts batch)
  unfolding process_batch count_error count_batch
  process_batch-IsBounded size t attempts batch h =
      if-elim (IsBounded size) (not t.has_query) h
        (elim (Option-cases (insert_with_retries max_retries 0 attempts batch).0) [
          | inl e ↦
              rw (e) (record { workers = h.workers; batches = h.batches; channel = h.channel })
          | inr (rows, e) ↦
              rw (e) (record { workers = h.workers; batches = h.batches; channel = h.channel })
        ])

  pub finish-IsBounded :
      (size : ℕ) (t : Tracker E) (j : ℕ) (attempts : ℕ → Attempt E)
      → IsBounded size t
      → IsBounded size (finish t j attempts)
  unfolding finish
  finish-IsBounded size t j attempts h = elim (Option-cases (get_elem? t.running j)) [
    | inl e ↦ rw (finish, e) h
    | inr (batch, e) ↦
        rw (finish, e)
          (process_batch-IsBounded size (record t { running = erase_idx t.running j }) attempts
            batch
            (record {
              workers = h.workers;
              batches = All-erase_idx (IsBatch size) t.running j h.batches;
              channel = h.channel;
            }))
  ]

  pub on_processor-IsBounded :
      (size : ℕ) (t : Tracker E) (i : ℕ) (f : BatchProcessor E → Tracker E)
      → ((bp : BatchProcessor E) → HasRoom size bp → IsBounded size (f bp))
      → IsBounded size t
      → IsBounded size (on_processor t i f)
  unfolding on_processor
  on_processor-IsBounded size t i f k h = elim (Option-cases (get_elem? t.batch_processors i)) [
    | inl e ↦ rw (on_processor, e) h
    | inr (bp, e) ↦
        rw (on_processor, e)
          (k bp (All-get_elem? (HasRoom size) t.batch_processors i bp e h.workers))
  ]
