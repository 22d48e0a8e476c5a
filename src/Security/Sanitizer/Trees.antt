-- ===== src/Security/Sanitizer/Trees.antt =====
-- `SanitizeMap` against a walk that keeps no state.
use nflow_runtime.Common.{
  ℕ, ◌≡◌, refl, ap, inl, inr, true, Option, some, List, [], ◌∷◌, Bool-cases, if-true,
}
use nflow_runtime.Security.{Bytes, Piece}
use nflow_runtime.Security.Sanitizer.{
  LogSanitizer, mask_match, is_skipped, sanitize, Value, text, nil_map, nil_slice, table, slice,
  other, Entries, no_entry, entry, Items, no_item, item, sanitize_value, sanitize_entries,
  sanitize_items, sanitize_map,
}

unfoldable mutual
  -- Each text of the value replaced by its image; a nil slice becomes an empty one.
  pub clean_value : {X : Type 0} → (Bytes → Bytes) → Value X → Value X
  clean_value f (text s) = text (f s)
  clean_value f nil_map = nil_map
  clean_value f nil_slice = slice no_item
  clean_value f (table es) = table (clean_entries f es)
  clean_value f (slice is) = slice (clean_items f is)
  clean_value f (other x) = other x

  pub clean_entries : {X : Type 0} → (Bytes → Bytes) → Entries X → Entries X
  clean_entries f no_entry = no_entry
  clean_entries f (entry key v es) = entry key (clean_value f v) (clean_entries f es)

  pub clean_items : {X : Type 0} → (Bytes → Bytes) → Items X → Items X
  clean_items f no_item = no_item
  clean_items f (item v is) = item (clean_value f v) (clean_items f is)

module _ {R : Type 0} (pieces : R → Bytes → List Piece) (ls : LogSanitizer R) where
  -- The sanitizer with other counts.
  abbrev pub with_counts : ℕ → ℕ → LogSanitizer R
  with_counts a b = record ls { logs_processed = a; data_sanitized = b }

  abbrev pub IsRecounted : LogSanitizer R → Type 0
  IsRecounted after = (a : ℕ) × (b : ℕ) × (after ≡ with_counts a b)

  abbrev pub clean : Bytes → Bytes
  clean s = (sanitize pieces ls s).1

  pub sanitize-with_counts :
      (a b : ℕ) (s : Bytes) → (sanitize pieces (with_counts a b) s).1 ≡ clean s
  unfolding sanitize is_skipped mask_match
  sanitize-with_counts a b [] = refl
  sanitize-with_counts a b (c ∷ cs) = elim (Bool-cases ls.enabled) [
    | inl e ↦ rw (e) refl
    | inr e ↦ rw (e) refl
  ]

  pub sanitize-IsRecounted :
      (a b : ℕ) (s : Bytes) → IsRecounted (sanitize pieces (with_counts a b) s).0
  unfolding sanitize is_skipped
  sanitize-IsRecounted a b [] = (a, b, refl)
  sanitize-IsRecounted a b (c ∷ cs) = elim (Bool-cases ls.enabled) [
    | inl e ↦ rw (e) (_, _, refl)
    | inr e ↦ rw (e) (a, b, refl)
  ]

  module _ (on : ls.enabled ≡ true) where
    mutual
      unfolding sanitize_value sanitize_entries sanitize_items clean_value clean_entries clean_items

      sanitize_value-clean :
          {X : Type 0} (v : Value X) (a b : ℕ)
          → ((sanitize_value pieces (with_counts a b) v).1 ≡ clean_value clean v)
            × IsRecounted (sanitize_value pieces (with_counts a b) v).0
      sanitize_value-clean (text s) a b =
          (ap text (sanitize-with_counts a b s), sanitize-IsRecounted a b s)
      sanitize_value-clean nil_map a b = (refl, (a, b, refl))
      sanitize_value-clean nil_slice a b = (refl, (a, b, refl))
      sanitize_value-clean {X} (table es) a b =
          let (walked, counts) = sanitize_entries-clean es a b in
          if-true
            (λ (r : LogSanitizer R × Value X).
              (r.1 ≡ clean_value clean (table es)) × IsRecounted r.0)
            ls.enabled _ on (ap table walked, counts)
      sanitize_value-clean (slice is) a b =
          let (walked, counts) = sanitize_items-clean is a b in (ap slice walked, counts)
      sanitize_value-clean (other x) a b = (refl, (a, b, refl))

      sanitize_entries-clean :
          {X : Type 0} (es : Entries X) (a b : ℕ)
          → ((sanitize_entries pieces (with_counts a b) es).1 ≡ clean_entries clean es)
            × IsRecounted (sanitize_entries pieces (with_counts a b) es).0
      sanitize_entries-clean no_entry a b = (refl, (a, b, refl))
      sanitize_entries-clean (entry key v es) a b =
          let (walked, (c, d, counts)) = sanitize_value-clean v a b in
          let (later, final) = sanitize_entries-clean es c d in
          rw (walked, counts, later) (refl, final)

      sanitize_items-clean :
          {X : Type 0} (is : Items X) (a b : ℕ)
          → ((sanitize_items pieces (with_counts a b) is).1 ≡ clean_items clean is)
            × IsRecounted (sanitize_items pieces (with_counts a b) is).0
      sanitize_items-clean no_item a b = (refl, (a, b, refl))
      sanitize_items-clean (item v is) a b =
          let (walked, (c, d, counts)) = sanitize_value-clean v a b in
          let (later, final) = sanitize_items-clean is c d in
          rw (walked, counts, later) (refl, final)

    -- `SanitizeMap` of an enabled sanitizer keeps the keys and the shape of the map, and each text
    -- in it becomes what `Sanitize` of that text alone gives.
    pub sanitize_map-clean :
        {X : Type 0} (es : Entries X)
        → (sanitize_map pieces ls (some es)).1 ≡ some (clean_entries clean es)
    unfolding sanitize_map
    sanitize_map-clean {X} es =
        if-true (λ (r : LogSanitizer R × Option (Entries X)). r.1 ≡ some (clean_entries clean es))
          ls.enabled _ on
          (ap some (sanitize_entries-clean es ls.logs_processed ls.data_sanitized).0)
