-- ===== src/Engine/Termination.antt =====
-- Workflows whose nodes only lead forward come to an end.
use nflow_runtime.Common.{
  ℕ, zero, suc, ◌+◌, ◌<◌, ◌≡◌, refl, ◌⊎◌, inl, inr, Bool, true, false, Option, none, some, String,
  arith, Option-cases, Bool-cases,
}
use nflow_runtime.Common.Text.{is_empty}
use nflow_runtime.Workflow.{Playbook}
use nflow_runtime.Engine.{
  Payload, object, scalar, Exec, Runtime, StepResult, went, lost, step, payload_map, Round, goes_on,
  stops, crashes, Result, done, crashed, after_step, round, loop, finish, execute,
}

module _ {X S : Type 0} (g : Runtime X S) (pb : Playbook X) (a : ℕ) where
  -- From each node, the steps lead to nodes of lower rank, or end.
  abbrev pub Descends : (String → ℕ) → Type 0
  Descends rank =
      (next next' : String) (payload payload' : Option (Payload X)) (e e' : Exec X S)
      → step g pb a e next payload ≡ (went next' payload', e')
      → is_empty next' ≡ false
      → rank next' < rank next

pub Round-cases :
    {X S : Type 0} (r : Round X S)
    → ((next : String) × (payload : Option (Payload X)) × (e : Exec X S) × (r
          ≡ goes_on next payload e))
      ⊎ ((next : String) × (e : Exec X S) × (r ≡ stops next e))
      ⊎ ((e : Exec X S) × (r ≡ crashes e))
Round-cases (goes_on next payload e) = inl (next, payload, e, refl)
Round-cases (stops next e) = inr (inl (next, e, refl))
Round-cases (crashes e) = inr (inr (e, refl))

module _ {X S : Type 0} (g : Runtime X S) (pb : Playbook X) (a : ℕ) (isolated : Bool) where
  after_step-goes_on :
      (r : StepResult X × Exec X S) (next : String) (payload : Option (Payload X)) (e : Exec X S)
      → after_step isolated r ≡ goes_on next payload e
      → (payload' : Option (Payload X)) × (e' : Exec X S) × (r ≡ (went next payload', e'))
  unfolding after_step
  after_step-goes_on (lost, e) next payload e' h = absurd (ground (arith, h))
  after_step-goes_on (went n none, e) next payload e' h = (none, e, ground (arith, h))
  after_step-goes_on (went n (some (scalar x)), e) next payload e' h =
      (some (scalar x), e, ground (arith, h))
  after_step-goes_on (went n (some (object m)), e) next payload e' h =
      (some (object m), e, ground (arith, h))

  round-Descends :
      (rank : String → ℕ) (previous next next' : String) (payload payload' : Option (Payload X))
      (e e' : Exec X S)
      → Descends g pb a rank
      → round g pb a isolated previous next payload e ≡ goes_on next' payload' e'
      → is_empty next' ≡ false
      → rank next' < rank next
  unfolding round
  round-Descends rank previous next next' payload payload' e e' d h more =
      elim (Option-cases (payload_map payload)) [
        | inl f ↦ absurd (ground (arith, h, f))
        | inr (m, f) ↦
            let (p, e2, same) = after_step-goes_on _ next' payload' e' (rw (f, round) at h) in
            d next next' _ p _ e2 same more
      ]

  -- Out of the loop, by its end or by a crash.
  abbrev Ends : Option (Round X S) → Type 0
  Ends o =
      ((next : String) × (e : Exec X S) × (o ≡ some (stops next e)))
      ⊎ ((e : Exec X S) × (o ≡ some (crashes e)))

  loop-Ends :
      (rank : String → ℕ) (fuel : ℕ) (previous next : String) (payload : Option (Payload X))
      (e : Exec X S)
      → Descends g pb a rank
      → is_empty next ≡ true ⊎ rank next < fuel
      → Ends (loop g pb a isolated (suc fuel) previous next payload e)
  unfolding loop
  loop-Ends rank fuel previous next payload e d (inl last) = inl (next, e, rw (last, loop) refl)
  loop-Ends rank zero previous next payload e d (inr below) = absurd (omega (arith, below))
  loop-Ends rank (suc fuel) previous next payload e d (inr below) =
      elim (Bool-cases (is_empty next)) [
        | inl last ↦ inl (next, e, rw (last, loop) refl)
        | inr more ↦ elim (Round-cases (round g pb a isolated previous next payload e)) [
          | inl (next', payload', e', h) ↦
              rw (more, loop, h)
                (loop-Ends rank fuel next next' payload' e' d (elim (Bool-cases (is_empty next')) [
                  | inl last ↦ inl last
                  | inr further ↦
                      let falls =
                        round-Descends rank previous next next' payload payload' e e' d h further in
                      inr (omega (arith, falls, below))
                ]))
          | inr (inl (next', e', h)) ↦ inl (next', e', rw (more, loop, h) refl)
          | inr (inr (e', h)) ↦ inr (e', rw (more, loop, h) refl)
        ]
      ]

  -- If a rank falls from each node to the next, `Execute` comes to an end: its loop needs at most
  -- two rounds more than the rank of the first node.
  pub execute-terminates :
      (rank : String → ℕ) (fork : Bool) (next : String) (payload : Option (Payload X))
      (e : Exec X S)
      → Descends g pb a rank
      → (r : Result X S) × (execute g pb a isolated fork (rank next + 2) next payload e ≡ some r)
  unfolding execute
  execute-terminates rank fork next payload e d =
      rw (two (rank next))
        (elim (loop-Ends rank (suc (rank next)) "" next payload e d (inr (omega arith))) [
          | inl (next', e', h) ↦ (done (finish a isolated fork next' e'), rw (h, execute) refl)
          | inr (e', h) ↦ (crashed e', rw (h, execute) refl)
        ])
    where
      two : (n : ℕ) → n + 2 ≡ suc (suc n)
      two n = omega arith
