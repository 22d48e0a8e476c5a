-- ===== src/Tracker/Conservation.antt =====
-- The entries over a run of the tracker.
use nflow_runtime.Common.{
  ℕ, ◌+◌, ◌≡◌, refl, inl, inr, some, List, [], ◌∷◌, length, length-append, ltb, arith, Bool-cases,
  Option-cases,
}
use nflow_runtime.Common.Indexed.{get_elem?}
use nflow_runtime.Tracker.{
  BatchProcessor, Tracker, track, drop_entry, open_breaker, close_breaker, flush_batch, receive,
  stop, Event, tracked, received, flushed, stopped, processed, checked, recovered, enables,
  disables, on_processor, step, run,
}
use nflow_runtime.Tracker.Accounting.{
  accounted, lost_in, offered_in, lost, offered, flush_batch-accounted, receive-accounted,
  stop-accounted, finish-accounted,
}

module _ {E : Type 0} where
  on_processor-accounted :
      (t : Tracker E) (i : ℕ) (f : BatchProcessor E → Tracker E)
      → ((bp : BatchProcessor E)
          → get_elem? t.batch_processors i ≡ some bp
          → accounted (f bp) ≡ accounted t)
      → accounted (on_processor t i f) ≡ accounted t
  unfolding on_processor accounted
  on_processor-accounted t i f h = elim (Option-cases (get_elem? t.batch_processors i)) [
    | inl e ↦ rw (on_processor, e) refl
    | inr (bp, e) ↦ rw (on_processor, e) (h bp e)
  ]

  track-accounted :
      (t : Tracker E) (entry : E)
      → accounted (track t entry) ≡ accounted t + offered_in t (tracked entry)
  unfolding track offered_in accounted drop_entry
  track-accounted t entry = elim (Bool-cases t.tracker_enabled) [
    | inr e ↦ rw (e) (omega arith)
    | inl e ↦ elim (Bool-cases (ltb (length t.channel) t.channel_size)) [
      | inl f ↦ rw (e, f) (omega (arith, length-append t.channel (entry ∷ [])))
      | inr f ↦ rw (e, f) (omega arith)
    ]
  ]

  open_breaker-accounted : (t : Tracker E) → accounted (open_breaker t) ≡ accounted t
  unfolding open_breaker accounted
  open_breaker-accounted t = ground arith

  close_breaker-accounted : (t : Tracker E) → accounted (close_breaker t) ≡ accounted t
  unfolding close_breaker accounted
  close_breaker-accounted t = ground arith

  step-accounted :
      (t : Tracker E) (event : Event E)
      → accounted (step t event) + lost_in t event ≡ accounted t + offered_in t event
  unfolding step lost_in offered_in accounted
  step-accounted t (tracked entry) = omega (arith, track-accounted t entry)
  step-accounted t (received i) =
      omega (arith, on_processor-accounted t i (λ bp. receive t i bp) (receive-accounted t i))
  step-accounted t (flushed i) = omega (
    arith,
    on_processor-accounted t i (λ bp. flush_batch t i bp)
        (λ bp e. omega (arith, flush_batch-accounted t i bp bp e)),
  )
  step-accounted t (stopped i) =
      omega (arith, on_processor-accounted t i (λ bp. stop t i bp) (stop-accounted t i))
  step-accounted t (processed j attempts) = omega (arith, finish-accounted t j attempts)
  step-accounted t checked = omega (arith, open_breaker-accounted t)
  step-accounted t recovered = omega (arith, close_breaker-accounted t)
  step-accounted t enables = refl
  step-accounted t disables = refl

  -- After any events, the entries that wait, run, or are counted as processed or dropped, together
  -- with those of the batches that were given up, are those before and the ones that steps offered
  -- while the tracker was enabled: no entry disappears uncounted but in a batch that is given up,
  -- and none is counted twice.
  pub run-accounted :
      (t : Tracker E) (events : List (Event E))
      → accounted (run t events) + lost t events ≡ accounted t + offered t events
  unfolding run lost offered
  run-accounted t [] = refl
  run-accounted t (event ∷ events) =
      omega (arith, step-accounted t event, run-accounted (step t event) events)
