-- ===== src/Tracker/Accounting.antt =====
-- Where the entries are that were given to the tracker.
use nflow_runtime.Common.{
  ℕ, suc, ◌+◌, ◌≡◌, refl, ap, inl, inr, Bool, none, some, List, [], ◌∷◌, ◌++◌, length,
  length-append, leb, if◌then◌else◌, arith, Bool-cases, Option-cases,
}
use nflow_runtime.Common.Indexed.{
  get_elem?, set, erase_idx, sum_by, sum_by-set, sum_by-erase_idx, get_elem?-set,
}
use nflow_runtime.Tracker.{
  BatchProcessor, Tracker, Attempt, max_retries, insert_with_retries, count_error, count_batch,
  process_batch, set_processor, flush_batch, add_to_batch, drop_entry, take_entry, receive, Event,
  tracked, received, flushed, stopped, processed, checked, recovered, enables, disables, stop,
  finish, step,
}

module _ {E : Type 0} where
  abbrev pub held : BatchProcessor E → ℕ
  held bp = length bp.batch

  -- The entries that wait in the channel, in a batch or in a goroutine, or are counted as dropped or
  -- processed.
  unfoldable pub accounted : Tracker E → ℕ
  accounted t =
      length t.channel
      + t.stats.dropped
      + sum_by held t.batch_processors
      + sum_by length t.running
      + t.stats.processed

  -- The entries of a batch that the goroutine gives up.
  unfoldable pub given_up : (has_query : Bool) → (ℕ → Attempt E) → List E → ℕ
  given_up has_query attempts batch =
      if has_query
      then elim (insert_with_retries max_retries 0 attempts batch).0 [
        | none ↦ length batch
        | some rows ↦ 0
      ]
      else length batch

  unfoldable pub lost_in : Tracker E → Event E → ℕ
  unfolding given_up
  lost_in t (processed j attempts) = elim (get_elem? t.running j) [
    | none ↦ 0
    | some batch ↦ given_up t.has_query attempts batch
  ]
  lost_in t (tracked entry) = 0
  lost_in t (received i) = 0
  lost_in t (flushed i) = 0
  lost_in t (stopped i) = 0
  lost_in t checked = 0
  lost_in t recovered = 0
  lost_in t enables = 0
  lost_in t disables = 0

  unfoldable pub offered_in : Tracker E → Event E → ℕ
  offered_in t (tracked entry) = if t.tracker_enabled then 1 else 0
  offered_in t (received i) = 0
  offered_in t (flushed i) = 0
  offered_in t (stopped i) = 0
  offered_in t (processed j attempts) = 0
  offered_in t checked = 0
  offered_in t recovered = 0
  offered_in t enables = 0
  offered_in t disables = 0

  -- The entries given up in a run, and the entries offered while the tracker was enabled.
  unfoldable pub lost : Tracker E → List (Event E) → ℕ
  lost t [] = 0
  lost t (event ∷ events) = lost_in t event + lost (step t event) events

  unfoldable pub offered : Tracker E → List (Event E) → ℕ
  offered t [] = 0
  offered t (event ∷ events) = offered_in t event + offered (step t event) events

  pub flush_batch-accounted :
      (t : Tracker E) (i : ℕ) (old bp : BatchProcessor E)
      → get_elem? t.batch_processors i ≡ some old
      → accounted (flush_batch t i bp) + held old ≡ accounted t + held bp
  unfolding accounted flush_batch set_processor
  flush_batch-accounted t i old bp e = go bp.batch
    where
      go :
          (batch : List E)
          → accounted (flush_batch t i (record bp { batch = batch })) + held old
            ≡ accounted t + length batch
      go [] = omega (arith, sum_by-set held t.batch_processors i old (record bp { batch = [] }) e)
      go (entry ∷ entries) =
          omega (arith, sum_by-set held t.batch_processors i old (record bp { batch = [] }) e)

  pub set_processor-accounted :
      (t : Tracker E) (i : ℕ) (old bp : BatchProcessor E)
      → get_elem? t.batch_processors i ≡ some old
      → accounted (set_processor t i bp) + held old ≡ accounted t + held bp
  unfolding accounted set_processor
  set_processor-accounted t i old bp e =
      omega (arith, sum_by-set held t.batch_processors i old bp e)

  add_to_batch-accounted :
      (t : Tracker E) (i : ℕ) (bp : BatchProcessor E) (entry : E)
      → get_elem? t.batch_processors i ≡ some bp
      → accounted (add_to_batch t i bp entry) ≡ accounted t + 1
  unfolding add_to_batch
  add_to_batch-accounted t i bp entry e =
      let added : BatchProcessor E = record bp { batch = bp.batch ++ (entry ∷ []) } in
      let grown : held added ≡ held bp + 1 = omega (arith, length-append bp.batch (entry ∷ [])) in
      elim (Bool-cases (leb bp.batch_size (length (bp.batch ++ (entry ∷ []))))) [
        | inl f ↦ rw (f) (omega (arith, grown, flush_batch-accounted t i bp added e))
        | inr f ↦ rw (f) (omega (arith, grown, set_processor-accounted t i bp added e))
      ]

  pub drop_entry-accounted : (t : Tracker E) → accounted (drop_entry t) ≡ accounted t + 1
  unfolding accounted drop_entry
  drop_entry-accounted t = omega arith

  take_entry-accounted :
      (t : Tracker E) (i : ℕ) (bp : BatchProcessor E) (entry : E)
      → get_elem? t.batch_processors i ≡ some bp
      → accounted (take_entry t i bp entry) ≡ accounted t + 1
  unfolding take_entry
  take_entry-accounted t i bp entry e =
      ground (arith, drop_entry-accounted t, add_to_batch-accounted t i bp entry e)

  taken-accounted :
      (t : Tracker E) (entry : E) (entries : List E)
      → t.channel ≡ entry ∷ entries
      → accounted (record t { channel = entries }) + 1 ≡ accounted t
  unfolding accounted
  taken-accounted t entry entries f =
      let longer : length t.channel ≡ suc (length entries) = ap length f in omega (arith, longer)

  pub receive-accounted :
      (t : Tracker E) (i : ℕ) (bp : BatchProcessor E)
      → get_elem? t.batch_processors i ≡ some bp
      → accounted (receive t i bp) ≡ accounted t
  unfolding receive accounted
  receive-accounted t i bp e = go t.channel refl
    where
      go : (channel : List E) → t.channel ≡ channel → accounted (receive t i bp) ≡ accounted t
      go [] f = rw (f) refl
      go (entry ∷ entries) f = rw (f) (
          omega (
            arith,
            taken-accounted t entry entries f,
            take_entry-accounted (record t { channel = entries }) i bp entry e,
          ))

  pub stop-accounted :
      (t : Tracker E) (i : ℕ) (bp : BatchProcessor E)
      → get_elem? t.batch_processors i ≡ some bp
      → accounted (stop t i bp) ≡ accounted t
  unfolding stop flush_batch set_processor accounted
  stop-accounted t i bp e =
      let emptied : BatchProcessor E = record bp { batch = [] } in
      let moved = sum_by-set held t.batch_processors i bp emptied e in
      let gone =
        sum_by-erase_idx held (set t.batch_processors i emptied) i emptied
          (get_elem?-set t.batch_processors i bp emptied e) in
      go bp.batch refl moved gone
    where
      go :
          (batch : List E)
          → bp.batch ≡ batch
          → sum_by held (set t.batch_processors i (record bp { batch = [] })) + held bp
            ≡ sum_by held t.batch_processors + 0
          → sum_by held (erase_idx (set t.batch_processors i (record bp { batch = [] })) i) + 0
            ≡ sum_by held (set t.batch_processors i (record bp { batch = [] }))
          → accounted (stop t i (record bp { batch = batch })) ≡ accounted t
      go [] f moved gone =
          let none_held : held bp ≡ 0 = ap length f in omega (arith, moved, gone, none_held)
      go (entry ∷ entries) f moved gone =
          let all_held : held bp ≡ suc (length entries) = ap length f in
          omega (arith, moved, gone, all_held)

  process_batch-accounted :
      (t : Tracker E) (attempts : ℕ → Attempt E) (batch : List E)
      → accounted (process_batch t attempts batch) + given_up t.has_query attempts batch
        ≡ accounted t + length batch
  unfolding process_batch given_up accounted count_error count_batch
  process_batch-accounted t attempts batch = elim (Bool-cases t.has_query) [
    | inr e ↦ rw (e) refl
    | inl e ↦ elim (Option-cases (insert_with_retries max_retries 0 attempts batch).0) [
      | inl f ↦ rw (e, f) refl
      | inr (rows, f) ↦ rw (e, f) (omega arith)
    ]
  ]

  shorter-accounted :
      (t : Tracker E) (j : ℕ) (batch : List E)
      → get_elem? t.running j ≡ some batch
      → accounted (record t { running = erase_idx t.running j }) + length batch ≡ accounted t
  unfolding accounted
  shorter-accounted t j batch e = omega (arith, sum_by-erase_idx length t.running j batch e)

  pub finish-accounted :
      (t : Tracker E) (j : ℕ) (attempts : ℕ → Attempt E)
      → accounted (finish t j attempts) + lost_in t (processed j attempts) ≡ accounted t
  unfolding finish lost_in
  finish-accounted t j attempts = elim (Option-cases (get_elem? t.running j)) [
    | inl e ↦ rw (finish, lost_in, e) (omega arith)
    | inr (batch, e) ↦
        let done =
          process_batch-accounted (record t { running = erase_idx t.running j }) attempts batch in
        rw (finish, lost_in, e) (omega (arith, done, shorter-accounted t j batch e))
  ]
