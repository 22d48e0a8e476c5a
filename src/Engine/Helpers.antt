-- ===== src/Engine/Helpers.antt =====
-- engine/engine.go: `mergeSessionPayload`, `savePayloadToSession` and `cleanupSession`, which write out
-- parts of `Execute` once more.
use nflow_runtime.Common.{◌≡◌, refl, String, Bool, false, Option, none, some, [], if◌then◌else◌}
use nflow_runtime.Engine.{
  Payload, object, scalar, Exec, merge, is_break, saved, goes_on, stops, went, after_step,
}

module _ {X S : Type 0} (isolated : Bool) where
  -- `none` is a panic: the payload is no object.
  unfoldable pub merge_session_payload : Exec X S → Option (Payload X) → Option (Option (Payload X))
  unfolding merge
  merge_session_payload e none = if isolated then some none else elim e.form [
    | none ↦ some (some (object []))
    | some form ↦ some (some (object (merge form [])))
  ]
  merge_session_payload e (some (scalar x)) = none
  merge_session_payload e (some (object m)) =
      if isolated then some (some (object m)) else elim e.form [
        | none ↦ some (some (object m))
        | some form ↦ some (some (object (merge form m)))
      ]

  unfoldable pub save_payload_to_session : Exec X S → Option (Payload X) → Bool × Exec X S
  unfolding saved is_break
  save_payload_to_session e none = (false, e)
  save_payload_to_session e (some (scalar x)) = (false, e)
  save_payload_to_session e (some (object m)) = (is_break m, saved isolated m e)

  unfoldable pub cleanup_session : Exec X S → Exec X S
  cleanup_session e =
      if isolated then e else elim e.form [ none ↦ e | some form ↦ record e { form = some [] } ]

  -- The loop of `Execute` after a step does what `savePayloadToSession` does, and stops where that
  -- asks for a break.
  pub after_step-save_payload_to_session :
      (next : String) (payload : Option (Payload X)) (e : Exec X S)
      → let (stop, e') = save_payload_to_session e payload in
        after_step isolated (went next payload, e)
        ≡ (if stop then stops next e' else goes_on next payload e')
  unfolding save_payload_to_session after_step
  after_step-save_payload_to_session next none e = refl
  after_step-save_payload_to_session next (some (scalar x)) e = refl
  after_step-save_payload_to_session next (some (object m)) e = refl
