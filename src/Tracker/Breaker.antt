-- ===== src/Tracker/Breaker.antt =====
-- The circuit breaker.
use nflow_runtime.Common.{
  ℕ, ◌+◌, ◌≤◌, ◌≡◌, refl, ◌∙◌, inl, inr, true, not, some, List, [], ◌∷◌, length, ltb, leb, arith,
  Option-cases, if-elim,
}
use nflow_runtime.Common.Indexed.{get_elem?, erase_idx, sum_by}
use nflow_runtime.Tracker.{
  BatchProcessor, Tracker, Attempt, max_retries, insert_with_retries, process_batch, count_error,
  count_batch, track, drop_entry, open_breaker, set_processor, flush_batch, take_entry, receive,
  stop, finish, Event, tracked, received, flushed, stopped, processed, checked, recovered, enables,
  disables, on_processor, step, run,
}
use nflow_runtime.Tracker.Accounting.{
  accounted, held, flush_batch-accounted, stop-accounted, finish-accounted,
}

module _ {E : Type 0} where
  -- The entries that were taken from the channel and not dropped.
  unfoldable pub admitted : Tracker E → ℕ
  admitted t = sum_by held t.batch_processors + sum_by length t.running + t.stats.processed

  -- No end of the recovery time.
  abbrev pub StaysOpen : List (Event E) → Type 0
  StaysOpen [] = Unit
  StaysOpen (tracked entry ∷ events) = StaysOpen events
  StaysOpen (received i ∷ events) = StaysOpen events
  StaysOpen (flushed i ∷ events) = StaysOpen events
  StaysOpen (stopped i ∷ events) = StaysOpen events
  StaysOpen (processed j attempts ∷ events) = StaysOpen events
  StaysOpen (checked ∷ events) = StaysOpen events
  StaysOpen (recovered ∷ events) = ⊥
  StaysOpen (enables ∷ events) = StaysOpen events
  StaysOpen (disables ∷ events) = StaysOpen events

  -- The breaker, the channel and the dropped entries are as before.
  abbrev IsCalm : (t u : Tracker E) → Type 0
  IsCalm t u =
      (u.circuit_breaker ≡ t.circuit_breaker)
      × (length u.channel ≡ length t.channel)
      × (u.stats.dropped ≡ t.stats.dropped)

  -- The breaker is open, and nothing more was admitted.
  abbrev pub IsShut : (t u : Tracker E) → Type 0
  IsShut t u = (u.circuit_breaker ≡ true) × (admitted u ≤ admitted t)

  IsCalm-IsShut :
      (t u : Tracker E)
      → t.circuit_breaker ≡ true
      → accounted u ≤ accounted t
      → IsCalm t u
      → IsShut t u
  unfolding accounted admitted
  IsCalm-IsShut t u open_now fewer (b, c, d) = (b ∙ open_now, omega (arith, fewer, c, d))

  flush_batch-IsCalm :
      (t : Tracker E) (i : ℕ) (bp : BatchProcessor E) → IsCalm t (flush_batch t i bp)
  unfolding flush_batch set_processor
  flush_batch-IsCalm t i bp = go bp.batch
    where
      go : (batch : List E) → IsCalm t (flush_batch t i (record bp { batch = batch }))
      go [] = (refl, refl, refl)
      go (entry ∷ entries) = (refl, refl, refl)

  stop-IsCalm : (t : Tracker E) (i : ℕ) (bp : BatchProcessor E) → IsCalm t (stop t i bp)
  unfolding stop
  stop-IsCalm t i bp = flush_batch-IsCalm t i bp

  process_batch-IsCalm :
      (t : Tracker E) (attempts : ℕ → Attempt E) (batch : List E)
      → IsCalm t (process_batch t attempts batch)
  unfolding process_batch count_error count_batch
  process_batch-IsCalm t attempts batch =
      if-elim (IsCalm t) (not t.has_query) (refl, refl, refl)
        (elim (Option-cases (insert_with_retries max_retries 0 attempts batch).0) [
          | inl e ↦ rw (e) (refl, refl, refl)
          | inr (rows, e) ↦ rw (e) (refl, refl, refl)
        ])

  finish-IsCalm :
      (t : Tracker E) (j : ℕ) (attempts : ℕ → Attempt E) → IsCalm t (finish t j attempts)
  unfolding finish
  finish-IsCalm t j attempts = elim (Option-cases (get_elem? t.running j)) [
    | inl e ↦ rw (finish, e) (refl, refl, refl)
    | inr (batch, e) ↦
        rw (finish, e)
          (process_batch-IsCalm (record t { running = erase_idx t.running j }) attempts batch)
  ]

  receive-IsShut :
      (t : Tracker E) (i : ℕ) (bp : BatchProcessor E)
      → t.circuit_breaker ≡ true
      → IsShut t (receive t i bp)
  unfolding receive take_entry drop_entry admitted
  receive-IsShut t i bp e = go t.channel
    where
      go : (channel : List E) → IsShut t (receive (record t { channel = channel }) i bp)
      go [] = (e, omega arith)
      go (entry ∷ entries) = rw (e) (refl, omega arith)

  track-IsShut : (t : Tracker E) (entry : E) → t.circuit_breaker ≡ true → IsShut t (track t entry)
  unfolding track drop_entry admitted
  track-IsShut t entry e =
      if-elim (IsShut t) (not t.tracker_enabled) (e, omega arith)
        (if-elim (IsShut t) (ltb (length t.channel) t.channel_size) (e, omega arith)
          (e, omega arith))

  on_processor-IsShut :
      (t : Tracker E) (i : ℕ) (f : BatchProcessor E → Tracker E)
      → t.circuit_breaker ≡ true
      → ((bp : BatchProcessor E) → get_elem? t.batch_processors i ≡ some bp → IsShut t (f bp))
      → IsShut t (on_processor t i f)
  unfolding on_processor admitted
  on_processor-IsShut t i f open_now h = elim (Option-cases (get_elem? t.batch_processors i)) [
    | inl e ↦ rw (on_processor, e) (open_now, omega arith)
    | inr (bp, e) ↦ rw (on_processor, e) (h bp e)
  ]

  step-IsShut :
      (t : Tracker E) (event : Event E)
      → t.circuit_breaker ≡ true
      → StaysOpen (event ∷ [])
      → IsShut t (step t event)
  unfolding step open_breaker admitted
  step-IsShut t (tracked entry) e h = track-IsShut t entry e
  step-IsShut t (received i) e h =
      on_processor-IsShut t i (λ bp. receive t i bp) e (λ bp f. receive-IsShut t i bp e)
  step-IsShut t (flushed i) e h =
      on_processor-IsShut t i (λ bp. flush_batch t i bp) e
        (λ bp f.
          IsCalm-IsShut t (flush_batch t i bp) e (omega (arith, flush_batch-accounted t i bp bp f))
            (flush_batch-IsCalm t i bp))
  step-IsShut t (stopped i) e h =
      on_processor-IsShut t i (λ bp. stop t i bp) e
        (λ bp f.
          IsCalm-IsShut t (stop t i bp) e (omega (arith, stop-accounted t i bp f))
            (stop-IsCalm t i bp))
  step-IsShut t (processed j attempts) e h =
      IsCalm-IsShut t (finish t j attempts) e (omega (arith, finish-accounted t j attempts))
        (finish-IsCalm t j attempts)
  step-IsShut t checked e h =
      if-elim (IsShut t) (leb 50 t.consecutive_errors) (refl, omega arith) (e, omega arith)
  step-IsShut t recovered e h = absurd h
  step-IsShut t enables e h = (e, omega arith)
  step-IsShut t disables e h = (e, omega arith)

  -- From an open breaker, and until the recovery time ends, no entry gets into a batch: those in the
  -- batches, in the goroutines and counted as processed are no more than before, and the breaker
  -- stays open.
  pub run-IsShut :
      (events : List (Event E)) (t : Tracker E)
      → t.circuit_breaker ≡ true
      → StaysOpen events
      → IsShut t (run t events)
  unfolding run admitted
  run-IsShut [] t e h = (e, omega arith)
  run-IsShut (event ∷ events) t e h =
      let (one, rest) = split_open event events h in
      let (open_now, fewer) = step-IsShut t event e one in
      let (open_later, fewest) = run-IsShut events (step t event) open_now rest in
      (open_later, omega (arith, fewer, fewest))
    where
      split_open :
          (event : Event E) (events : List (Event E))
          → StaysOpen (event ∷ events)
          → StaysOpen (event ∷ []) × StaysOpen events
      split_open (tracked entry) events h = (tt, h)
      split_open (received i) events h = (tt, h)
      split_open (flushed i) events h = (tt, h)
      split_open (stopped i) events h = (tt, h)
      split_open (processed j attempts) events h = (tt, h)
      split_open checked events h = (tt, h)
      split_open recovered events h = absurd h
      split_open enables events h = (tt, h)
      split_open disables events h = (tt, h)
