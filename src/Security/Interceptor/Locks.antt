-- ===== src/Security/Interceptor/Locks.antt =====
-- The lock of the interceptor.
use nflow_runtime.Common.{
  ◌≡◌, refl, inl, inr, ◌⊎◌, Option, none, some, [], ◌∷◌, String, Option-cases,
}
use nflow_runtime.Common.Dict.{Dict}
use nflow_runtime.Security.Encryption.{EncryptionService}
use nflow_runtime.Security.Interceptor.{
  Interceptor, InterceptorConfig, compile_patterns, add_custom_pattern, add_all, fresh_interceptor,
  new_interceptor,
}

module _ {R : Type 0} (compile : String → Option R) where
  -- One of the custom patterns compiles.
  abbrev pub Compiles : Dict String → Type 0
  Compiles [] = ⊥
  Compiles ((name, pattern) ∷ rest) = ((regex : R) × (compile pattern ≡ some regex)) ⊎ Compiles rest

  add_custom_pattern-blocks :
      (sdi : Interceptor R) (name pattern : String) (regex : R)
      → compile pattern ≡ some regex
      → add_custom_pattern compile sdi name pattern ≡ none
  unfolding add_custom_pattern compile_patterns
  add_custom_pattern-blocks sdi name pattern regex e = rw (add_custom_pattern, e) refl

  add_all-blocks :
      (patterns : Dict String) (sdi : Interceptor R)
      → Compiles patterns
      → add_all compile sdi patterns ≡ none
  unfolding add_all
  add_all-blocks [] sdi h = absurd h
  add_all-blocks ((name, pattern) ∷ rest) sdi (inl (regex, e)) =
      rw (add_all, add_custom_pattern-blocks sdi name pattern regex e) refl
  add_all-blocks ((name, pattern) ∷ rest) sdi (inr h) =
      elim (Option-cases (add_custom_pattern compile sdi name pattern)) [
        | inl e ↦ rw (add_all, e) refl
        | inr ((after, added), e) ↦ rw (add_all, e) (add_all-blocks rest after h)
      ]

  -- With a custom pattern that compiles in its configuration, the making of an interceptor never
  -- returns: it waits for a lock that it holds.
  pub new_interceptor-blocks :
      (default_regex : String → R) (service : EncryptionService) (config : InterceptorConfig)
      → Compiles config.custom_patterns
      → new_interceptor compile default_regex service (some config) ≡ none
  unfolding new_interceptor
  new_interceptor-blocks default_regex service config h =
      rw
        (
          new_interceptor,
          add_all-blocks config.custom_patterns
              (fresh_interceptor compile default_regex service config) h,
        )
        refl
