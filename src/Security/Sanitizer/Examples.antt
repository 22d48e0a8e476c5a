-- ===== src/Security/Sanitizer/Examples.antt =====
-- The theorems about the sanitizer with expressions that match one byte.
use nflow_runtime.Common.{
  ℕ, ◌≡◌, refl, inl, inr, true, false, some, List, [], ◌∷◌, map, length, ◌==◌, if◌then◌else◌,
  Bool-cases, arith,
}
use mathlib.Core.List.{Permᴰ}
use nflow_runtime.Security.{Bytes, Piece, plain, match, written, join, IsSplit}
use nflow_runtime.Security.Sanitizer.{
  LogSanitizer, sanitize, batch_positions, batch_sanitize, upto, text, slice, Entries, no_entry,
  entry, no_item, item, sanitize_map,
}
use nflow_runtime.Security.Sanitizer.Masking.{length-sanitize}
use nflow_runtime.Security.Sanitizer.Trees.{clean, clean_entries, sanitize_map-clean}
use nflow_runtime.Security.Sanitizer.Batches.{batch_sanitize-map}

-- The matches of the byte `c`.
unfoldable by_byte : ℕ → Bytes → List Piece
by_byte c [] = []
by_byte c (b ∷ bs) =
    let rest = by_byte c bs in if b == c then match (b ∷ []) ∷ rest else plain (b ∷ []) ∷ rest

by_byte-IsSplit : IsSplit by_byte
unfolding by_byte join written
by_byte-IsSplit c [] = refl
by_byte-IsSplit c (b ∷ bs) = elim (Bool-cases (b == c)) [
  | inl e ↦ ground (arith, e, by_byte-IsSplit c bs)
  | inr e ↦ ground (arith, e, by_byte-IsSplit c bs)
]

abbrev masker : LogSanitizer ℕ
masker = record {
  patterns = record { kind = "seven"; name = "Seven"; regex = 7; replacement = "seven" } ∷ [];
  custom_patterns = [];
  enabled = true;
  masking_char = 42 ∷ [];
  preserve_length = true;
  show_type = false;
  compiled_patterns =
      record { kind = "seven"; name = "Seven"; regex = 7; replacement = "seven" } ∷ [];
  logs_processed = 0;
  data_sanitized = 0;
}

length-sanitize_example : length (sanitize by_byte masker (5 ∷ 7 ∷ 7 ∷ [])).1 ≡ 3
length-sanitize_example =
    length-sanitize by_byte masker (5 ∷ 7 ∷ 7 ∷ []) by_byte-IsSplit refl refl refl

abbrev fields : Entries ℕ
fields = entry "a" (text (7 ∷ [])) (entry "b" (slice (item (text (7 ∷ 8 ∷ [])) no_item)) no_entry)

sanitize_map-clean_example :
    (sanitize_map by_byte masker (some fields)).1
    ≡ some (clean_entries (clean by_byte masker) fields)
sanitize_map-clean_example = sanitize_map-clean by_byte masker refl fields

abbrev messages : List Bytes
messages = (7 ∷ []) ∷ (8 ∷ []) ∷ (7 ∷ 7 ∷ []) ∷ []

batch_sanitize-map_example :
    (batch_sanitize by_byte masker messages (1 ∷ 0 ∷ 2 ∷ [])).1
    ≡ map (clean by_byte masker) messages
unfolding batch_positions upto
batch_sanitize-map_example =
    batch_sanitize-map by_byte masker messages (1 ∷ 0 ∷ 2 ∷ []) refl (Permᴰ.swap refl refl)
