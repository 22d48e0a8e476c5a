-- ===== src/Security/Sanitizer/Patterns.antt =====
-- Adding and removing custom patterns.
use nflow_runtime.Common.{
  ◌≡◌, refl, sym, ap, inl, inr, true, Option, none, some, [], ◌∷◌, ◌++◌, String, eq_iff, arith,
  Option-cases,
}
use nflow_runtime.Common.Dict.{Dict, lookup, insert, delete, lookup-insert}
use nflow_runtime.Security.Sanitizer.{
  Pattern, LogSanitizer, SanitizerConfig, values, compile_patterns, custom_pattern,
  remove_custom_pattern, add_custom_pattern, new_log_sanitizer,
}

delete-absent :
    {V : Type 0} (key : String) (dict : Dict V) → lookup key dict ≡ none → delete key dict ≡ dict
unfolding lookup delete
delete-absent key [] h = refl
delete-absent key ((other, held) ∷ dict) h = ground (arith, h, delete-absent key dict)

delete-insert :
    {V : Type 0} (key : String) (value : V) (dict : Dict V)
    → lookup key dict ≡ none
    → delete key (insert key value dict) ≡ dict
unfolding lookup delete insert
delete-insert key value [] h = ground (arith, eq_iff key key)
delete-insert key value ((other, held) ∷ dict) h =
    ground (arith, h, delete-insert key value dict, eq_iff other key)

module _ {R : Type 0} where
  -- The compiled patterns are the built-in ones and then the custom ones.
  abbrev pub IsCompiled : LogSanitizer R → Type 0
  IsCompiled ls = ls.compiled_patterns ≡ ls.patterns ++ values ls.custom_patterns

  module _ (compile : String → Option R) where
    add_custom_pattern-IsCompiled :
        (ls ls' : LogSanitizer R) (name pattern : String)
        → add_custom_pattern compile ls name pattern ≡ some ls'
        → IsCompiled ls'
    unfolding add_custom_pattern compile_patterns
    add_custom_pattern-IsCompiled ls ls' name pattern e = elim (Option-cases (compile pattern)) [
      | inl f ↦ absurd (ground (arith, e, f))
      | inr (regex, f) ↦
          let same : compile_patterns (record ls {
            custom_patterns = insert name (custom_pattern name regex) ls.custom_patterns;
          })
              ≡ ls' =
            ground (arith, e, f) in
          rw⁻¹ (same) refl
    ]

    new_log_sanitizer-IsCompiled :
        (default_regex : String → R) (config : Option SanitizerConfig)
        → IsCompiled (new_log_sanitizer compile default_regex config)
    unfolding new_log_sanitizer compile_patterns
    new_log_sanitizer-IsCompiled default_regex config = refl

    removed-added :
        (ls : LogSanitizer R) (name : String) (p : Pattern R)
        → IsCompiled ls
        → lookup name ls.custom_patterns ≡ none
        → remove_custom_pattern
            (compile_patterns (record ls { custom_patterns = insert name p ls.custom_patterns }))
            name
          ≡ (ls, true)
    unfolding remove_custom_pattern compile_patterns
    removed-added ls name p compiled fresh =
        let there : lookup name (insert name p ls.custom_patterns) ≡ some p =
          ground (arith, lookup-insert name name p ls.custom_patterns, eq_iff name name) in
        rw
          (
            remove_custom_pattern,
            compile_patterns,
            there,
            delete-insert name p ls.custom_patterns fresh,
          )
          (ap (λ c. (record ls { compiled_patterns = c }, true)) (sym compiled))

    -- A custom pattern of a new name that is added and then removed leaves the sanitizer as it was.
    pub remove_custom_pattern-add_custom_pattern :
        (ls ls' : LogSanitizer R) (name pattern : String)
        → IsCompiled ls
        → lookup name ls.custom_patterns ≡ none
        → add_custom_pattern compile ls name pattern ≡ some ls'
        → remove_custom_pattern ls' name ≡ (ls, true)
    unfolding add_custom_pattern
    remove_custom_pattern-add_custom_pattern ls ls' name pattern compiled fresh e =
        elim (Option-cases (compile pattern)) [
          | inl f ↦ absurd (ground (arith, e, f))
          | inr (regex, f) ↦
              let same : compile_patterns (record ls {
                custom_patterns = insert name (custom_pattern name regex) ls.custom_patterns;
              })
                  ≡ ls' =
                ground (arith, e, f) in
              rw⁻¹ (same) (removed-added ls name (custom_pattern name regex) compiled fresh)
        ]
