-- ===== src/Tracker/Retries.antt =====
-- The attempts to store a batch.
use nflow_runtime.Common.{
  ℕ, suc, ◌*◌, ◌^◌, ◌≡◌, refl, ◌↔◌, inl, inr, none, some, List, [], ◌∷◌, arith, Option-cases,
}
use nflow_runtime.Tracker.{Attempt, max_retries, retry_delay, insert_batch, insert_with_retries}

module _ {E : Type 0} where
  insert_with_retries-next :
      (left retry : ℕ) (attempts : ℕ → Attempt E) (batch : List E)
      → insert_batch (attempts retry) batch ≡ none
      → insert_with_retries (suc left) retry attempts batch ≡ (
        (insert_with_retries left (suc retry) attempts batch).0,
        (retry_delay * 2 ^ retry) ∷ (insert_with_retries left (suc retry) attempts batch).1,
      )
  unfolding insert_with_retries
  insert_with_retries-next left retry attempts batch e = rw (insert_with_retries, e) refl

  insert_with_retries-stored :
      (left retry : ℕ) (attempts : ℕ → Attempt E) (batch rows : List E)
      → insert_batch (attempts retry) batch ≡ some rows
      → insert_with_retries (suc left) retry attempts batch ≡ (some rows, [])
  unfolding insert_with_retries
  insert_with_retries-stored left retry attempts batch rows e = rw (insert_with_retries, e) refl

  -- A batch is given up exactly when the transactions of all its three attempts fail.
  pub insert_with_retries-none :
      (attempts : ℕ → Attempt E) (batch : List E)
      → ((insert_with_retries max_retries 0 attempts batch).0 ≡ none) ↔ (
          (insert_batch (attempts 0) batch ≡ none)
          × (insert_batch (attempts 1) batch ≡ none)
          × (insert_batch (attempts 2) batch ≡ none))
  unfolding insert_with_retries
  insert_with_retries-none attempts batch = elim (Option-cases (insert_batch (attempts 0) batch)) [
    | inr (rows, e) ↦
        let first = insert_with_retries-stored 2 0 attempts batch rows e in
        ((λ f. absurd (ground (arith, first, f))), (λ f. absurd (ground (arith, f, e))))
    | inl e ↦ elim (Option-cases (insert_batch (attempts 1) batch)) [
      | inr (rows, f) ↦
          let first = insert_with_retries-next 2 0 attempts batch e in
          let second = insert_with_retries-stored 1 1 attempts batch rows f in
          ((λ g. absurd (ground (arith, first, second, g))), (λ g. absurd (ground (arith, f, g))))
      | inl f ↦ elim (Option-cases (insert_batch (attempts 2) batch)) [
        | inr (rows, g) ↦
            let first = insert_with_retries-next 2 0 attempts batch e in
            let second = insert_with_retries-next 1 1 attempts batch f in
            let third = insert_with_retries-stored 0 2 attempts batch rows g in
            (
              (λ h. absurd (ground (arith, first, second, third, h))),
              (λ h. absurd (ground (arith, g, h))),
            )
        | inl g ↦
            let first = insert_with_retries-next 2 0 attempts batch e in
            let second = insert_with_retries-next 1 1 attempts batch f in
            let third = insert_with_retries-next 0 2 attempts batch g in
            ((λ h. (e, f, g)), (λ h. ground (arith, first, second, third)))
      ]
    ]
  ]
