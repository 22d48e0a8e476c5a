-- ===== src/Security/Sanitizer/Masking.antt =====
-- `Sanitize` on one message.
use nflow_runtime.Common.{
  ℕ, zero, suc, ◌<◌, ◌≡◌, ◌↔◌, refl, ap, ◌∙◌, inl, inr, true, false, List, [], ◌∷◌, length,
  length-append, arith, Bool-cases,
}
use nflow_runtime.Security.{
  Bytes, Piece, plain, match, written, join, any_match, count_matches, replace_matches, IsSplit,
}
use nflow_runtime.Security.Sanitizer.{
  Pattern, LogSanitizer, repeat, mask_match, apply_patterns, is_skipped, sanitize, any_pattern,
  should_sanitize,
}

any_match-count_matches : (ps : List Piece) → any_match ps ≡ true → 0 < count_matches ps
unfolding any_match count_matches
any_match-count_matches [] e = absurd (ground (arith, e))
any_match-count_matches (plain s ∷ ps) e = any_match-count_matches ps e
any_match-count_matches (match s ∷ ps) e = omega arith

length-replace_matches :
    (f : Bytes → Bytes) (ps : List Piece)
    → ((s : Bytes) → length (f s) ≡ length s)
    → length (replace_matches f ps) ≡ length (join ps)
unfolding replace_matches join written
length-replace_matches f [] h = refl
length-replace_matches f (plain s ∷ ps) h = omega (
  arith,
  length-replace_matches f ps h,
  length-append s (replace_matches f ps),
  length-append s (join ps),
)
length-replace_matches f (match s ∷ ps) h = omega (
  arith,
  length-replace_matches f ps h,
  h s,
  length-append (f s) (replace_matches f ps),
  length-append s (join ps),
)

length-repeat : (n : ℕ) (s : Bytes) → length s ≡ 1 → length (repeat n s) ≡ n
unfolding repeat
length-repeat zero s h = refl
length-repeat (suc n) s h = omega (arith, length-append s (repeat n s), length-repeat n s h, h)

module _ {R : Type 0} where
  length-mask_match :
      (ls : LogSanitizer R) (p : Pattern R) (s : Bytes)
      → ls.preserve_length ≡ true
      → ls.show_type ≡ false
      → length ls.masking_char ≡ 1
      → length (mask_match ls s p) ≡ length s
  unfolding mask_match
  length-mask_match ls p s keeps hides one =
      rw (keeps, hides) (length-repeat (length s) ls.masking_char one)

module _ {R : Type 0} (pieces : R → Bytes → List Piece) where
  apply_patterns-clean :
      (mask : Bytes → Pattern R → Bytes) (ps : List (Pattern R)) (s : Bytes)
      → any_pattern pieces ps s ≡ false
      → apply_patterns pieces mask ps s ≡ (s, 0)
  unfolding apply_patterns any_pattern
  apply_patterns-clean mask [] s e = refl
  apply_patterns-clean mask (p ∷ ps) s e =
      let none_here : any_match (pieces p.regex s) ≡ false = ground (arith, e) in
      let none_later : any_pattern pieces ps s ≡ false = ground (arith, e) in
      rw (none_here) (apply_patterns-clean mask ps s none_later)

  apply_patterns-masks :
      (mask : Bytes → Pattern R → Bytes) (ps : List (Pattern R)) (s : Bytes)
      → any_pattern pieces ps s ≡ true
      → 0 < (apply_patterns pieces mask ps s).1
  unfolding apply_patterns any_pattern
  apply_patterns-masks mask [] s e = absurd (ground (arith, e))
  apply_patterns-masks mask (p ∷ ps) s e = elim (Bool-cases (any_match (pieces p.regex s))) [
    | inl f ↦ rw (f) (omega (arith, any_match-count_matches (pieces p.regex s) f))
    | inr f ↦ rw (f) (apply_patterns-masks mask ps s (ground (arith, e, f)))
  ]

  -- `ShouldSanitize` tells whether `Sanitize` of the message would count masked data.
  pub should_sanitize-counts :
      (ls : LogSanitizer R) (s : Bytes)
      → (should_sanitize pieces ls s ≡ true)
        ↔ (ls.data_sanitized < (sanitize pieces ls s).0.data_sanitized)
  unfolding should_sanitize sanitize
  should_sanitize-counts ls s = elim (Bool-cases (is_skipped ls s)) [
    | inl e ↦ rw (e) ((λ f. absurd (ground (arith, f))), (λ f. absurd (omega (arith, f))))
    | inr e ↦ elim (Bool-cases (any_pattern pieces ls.compiled_patterns s)) [
      | inl f ↦
          let counted = apply_patterns-masks (mask_match ls) ls.compiled_patterns s f in
          rw (e) ((λ g. omega (arith, counted)), (λ g. f))
      | inr f ↦
          let clean = apply_patterns-clean (mask_match ls) ls.compiled_patterns s f in
          rw (e) ((λ g. absurd (ground (arith, f, g))), (λ g. absurd (ground (arith, g, clean))))
    ]
  ]

  -- A message that `ShouldSanitize` refuses is left as it is.
  pub should_sanitize-unchanged :
      (ls : LogSanitizer R) (s : Bytes)
      → should_sanitize pieces ls s ≡ false
      → (sanitize pieces ls s).1 ≡ s
  unfolding should_sanitize sanitize
  should_sanitize-unchanged ls s e = elim (Bool-cases (is_skipped ls s)) [
    | inl f ↦ rw (f) refl
    | inr f ↦
        let clean =
          apply_patterns-clean (mask_match ls) ls.compiled_patterns s (ground (arith, e, f)) in
        rw (f) (ap (λ r. r.0) clean)
  ]

  length-apply_patterns :
      (mask : Bytes → Pattern R → Bytes) (ps : List (Pattern R)) (s : Bytes)
      → IsSplit pieces
      → ((m : Bytes) (p : Pattern R) → length (mask m p) ≡ length m)
      → length (apply_patterns pieces mask ps s).0 ≡ length s
  unfolding apply_patterns
  length-apply_patterns mask [] s splits h = refl
  length-apply_patterns mask (p ∷ ps) s splits h =
      let replaced = replace_matches (λ m. mask m p) (pieces p.regex s) in
      let same : length replaced ≡ length s =
        length-replace_matches (λ m. mask m p) (pieces p.regex s) (λ m. h m p)
        ∙ ap length (splits p.regex s) in
      elim (Bool-cases (any_match (pieces p.regex s))) [
        | inl e ↦ rw (e) (length-apply_patterns mask ps replaced splits h ∙ same)
        | inr e ↦ rw (e) (length-apply_patterns mask ps s splits h)
      ]

  -- With PreserveLength, without ShowType and with a masking character of one byte, a sanitized
  -- message is as long as the message.
  pub length-sanitize :
      (ls : LogSanitizer R) (s : Bytes)
      → IsSplit pieces
      → ls.preserve_length ≡ true
      → ls.show_type ≡ false
      → length ls.masking_char ≡ 1
      → length (sanitize pieces ls s).1 ≡ length s
  unfolding sanitize
  length-sanitize ls s splits keeps hides one = elim (Bool-cases (is_skipped ls s)) [
    | inl e ↦ rw (e) refl
    | inr e ↦ rw (e) (
        length-apply_patterns (mask_match ls) ls.compiled_patterns s splits
          (λ m p. length-mask_match ls p m keeps hides one))
  ]
