-- ===== src/Security/Sanitizer.antt =====
-- security/sanitizer/log_sanitizer.go: sensitive data in logs, masked. `compile` is regexp.Compile, and
-- `default_regex` the compiled expression of each kind of data.
pub mod Masking
pub mod Trees
pub mod Batches
pub mod Patterns
pub mod Examples
use Prim.Native.String
use nflow_runtime.Common.{
  ℕ, zero, suc, ◌+◌, ◌-◌, ◌*◌, ◌/◌, String, Bool, true, false, not, ◌&&◌, ◌||◌, Option, none, some,
  List, [], ◌∷◌, ◌++◌, map, length, ltb, ◌==◌, if◌then◌else◌,
}
use nflow_runtime.Common.Dict.{Dict, lookup, insert, delete}
use nflow_runtime.Common.Indexed.{get_elem?, set}
use nflow_runtime.Security.{Bytes, bytes, Piece, any_match, count_matches, replace_matches}

pub record Pattern (R : Type 0) : Type 0 where
  pub kind : String
  pub name : String
  pub regex : R
  pub replacement : String

pub record SanitizerConfig : Type 0 where
  pub enabled : Bool
  pub masking_char : Bytes
  pub preserve_length : Bool
  pub show_type : Bool
  pub custom_patterns : Dict String

pub record LogSanitizer (R : Type 0) : Type 0 where
  pub patterns : List (Pattern R)
  pub custom_patterns : Dict (Pattern R)
  pub enabled : Bool
  pub masking_char : Bytes
  pub preserve_length : Bool
  pub show_type : Bool
  pub compiled_patterns : List (Pattern R)
  pub logs_processed : ℕ
  pub data_sanitized : ℕ

unfoldable pub values : {V : Type 0} → Dict V → List V
values [] = []
values ((k, v) ∷ dict) = v ∷ values dict

unfoldable pub repeat : ℕ → Bytes → Bytes
repeat zero s = []
repeat (suc n) s = s ++ repeat n s

abbrev pub default_config : SanitizerConfig
default_config = record {
  enabled = true;
  masking_char = bytes "*";
  preserve_length = false;
  show_type = true;
  custom_patterns = [];
}

module _ {R : Type 0} where
  unfoldable pub compile_patterns : LogSanitizer R → LogSanitizer R
  unfolding values
  compile_patterns ls = record ls { compiled_patterns = ls.patterns ++ values ls.custom_patterns }

  unfoldable pub mask_match : LogSanitizer R → Bytes → Pattern R → Bytes
  unfolding repeat bytes
  mask_match ls found pattern =
      let masked = repeat (length found) ls.masking_char in
      if ls.preserve_length
      then if ls.show_type
        then bytes "[" ++ bytes pattern.replacement ++ bytes ":" ++ masked ++ bytes "]"
        else masked
      else if ls.show_type
      then bytes "[REDACTED:" ++ bytes pattern.replacement ++ bytes "]"
      else bytes "[REDACTED]"

  unfoldable pub is_skipped : LogSanitizer R → Bytes → Bool
  is_skipped ls [] = true
  is_skipped ls (b ∷ bs) = not ls.enabled

  unfoldable pub set_enabled : LogSanitizer R → Bool → LogSanitizer R
  set_enabled ls enabled = record ls { enabled = enabled }

  unfoldable pub reset_metrics : LogSanitizer R → LogSanitizer R
  reset_metrics ls = record ls { logs_processed = 0; data_sanitized = 0 }

  unfoldable pub custom_pattern : String → R → Pattern R
  custom_pattern name regex = record {
    kind = String.◌++◌ "custom_" name;
    name = name;
    regex = regex;
    replacement = name;
  }

  unfoldable pub remove_custom_pattern : LogSanitizer R → String → LogSanitizer R × Bool
  unfolding compile_patterns
  remove_custom_pattern ls name = elim (lookup name ls.custom_patterns) [
    | none ↦ (ls, false)
    | some p ↦
        (compile_patterns (record ls { custom_patterns = delete name ls.custom_patterns }), true)
  ]

module _ {R : Type 0} (compile : String → Option R) where
  unfoldable pub add_custom_pattern :
      LogSanitizer R → (name pattern : String) → Option (LogSanitizer R)
  unfolding compile_patterns custom_pattern
  add_custom_pattern ls name pattern = elim (compile pattern) [
    | none ↦ none
    | some regex ↦ some (
        compile_patterns (record ls {
          custom_patterns = insert name (custom_pattern name regex) ls.custom_patterns;
        }))
  ]

  -- The loop of `NewLogSanitizer` over the custom patterns: those that do not compile are left out.
  unfoldable pub add_all : Dict String → Dict (Pattern R) → Dict (Pattern R)
  unfolding custom_pattern
  add_all [] custom = custom
  add_all ((name, pattern) ∷ rest) custom = elim (compile pattern) [
    | none ↦ add_all rest custom
    | some regex ↦ add_all rest (insert name (custom_pattern name regex) custom)
  ]

  module _ (default_regex : String → R) where
    unfoldable pub default_pattern : (kind name : String) → Pattern R
    default_pattern kind name = record {
      kind = kind;
      name = name;
      regex = default_regex kind;
      replacement = kind;
    }

    unfoldable pub default_patterns : List (Pattern R)
    unfolding default_pattern
    default_patterns =
        default_pattern "api_key" "API Key"
        ∷ default_pattern "jwt" "JWT Token"
        ∷ default_pattern "private_key" "Private Key"
        ∷ default_pattern "password" "Password"
        ∷ default_pattern "access_token" "Access Token"
        ∷ default_pattern "email" "Email Address"
        ∷ default_pattern "ssn" "Social Security Number"
        ∷ default_pattern "credit_card" "Credit Card"
        ∷ default_pattern "ip_address" "IP Address"
        ∷ default_pattern "phone" "Phone Number"
        ∷ []

    unfoldable pub or_star : Bytes → Bytes
    unfolding bytes
    or_star [] = bytes "*"
    or_star (b ∷ bs) = b ∷ bs

    -- `NewLogSanitizer`; none is a nil configuration.
    unfoldable pub new_log_sanitizer : Option SanitizerConfig → LogSanitizer R
    unfolding add_all default_patterns or_star compile_patterns
    new_log_sanitizer config =
        let c : SanitizerConfig = elim config [ none ↦ default_config | some c ↦ c ] in
        compile_patterns (record {
          patterns = default_patterns;
          custom_patterns = add_all c.custom_patterns [];
          enabled = c.enabled;
          masking_char = or_star c.masking_char;
          preserve_length = c.preserve_length;
          show_type = c.show_type;
          compiled_patterns = [];
          logs_processed = 0;
          data_sanitized = 0;
        })

-- The values that are walked through: a map and a slice may be nil.
mutual
  pub data Value (X : Type 0) : Type 0 where
    text : Bytes → Value X
    nil_map nil_slice : Value X
    table : Entries X → Value X
    slice : Items X → Value X
    other : X → Value X

  pub data Entries (X : Type 0) : Type 0 where
    no_entry : Entries X
    entry : (key : String) → Value X → Entries X → Entries X

  pub data Items (X : Type 0) : Type 0 where
    no_item : Items X
    item : Value X → Items X → Items X

module _ {R : Type 0} (pieces : R → Bytes → List Piece) where
  -- The loop of `Sanitize`: the text, and the number of matches that were masked.
  unfoldable pub apply_patterns : (Bytes → Pattern R → Bytes) → List (Pattern R) → Bytes → Bytes × ℕ
  apply_patterns mask [] s = (s, 0)
  apply_patterns mask (p ∷ ps) s =
      let found = pieces p.regex s in
      let unchanged = apply_patterns mask ps s in
      let (masked, count) = apply_patterns mask ps (replace_matches (λ m. mask m p) found) in
      if any_match found then (masked, count_matches found + count) else unchanged

  unfoldable pub sanitize : LogSanitizer R → Bytes → LogSanitizer R × Bytes
  unfolding apply_patterns is_skipped mask_match
  sanitize ls s =
      let (result, count) = apply_patterns (mask_match ls) ls.compiled_patterns s in
      if is_skipped ls s then (ls, s) else (
        record ls {
          logs_processed = ls.logs_processed + 1;
          data_sanitized = ls.data_sanitized + count;
        },
        result,
      )

  unfoldable pub any_pattern : List (Pattern R) → Bytes → Bool
  any_pattern [] s = false
  any_pattern (p ∷ ps) s = any_match (pieces p.regex s) || any_pattern ps s

  unfoldable pub should_sanitize : LogSanitizer R → Bytes → Bool
  unfolding is_skipped any_pattern
  should_sanitize ls s = if is_skipped ls s then false else any_pattern ls.compiled_patterns s

  unfoldable mutual
    unfolding sanitize

    pub sanitize_value : {X : Type 0} → LogSanitizer R → Value X → LogSanitizer R × Value X
    sanitize_value ls (text s) = let (after, clean) = sanitize ls s in (after, text clean)
    sanitize_value ls nil_map = (ls, nil_map)
    sanitize_value ls nil_slice = (ls, slice no_item)
    sanitize_value ls (table es) =
        let (after, clean) = sanitize_entries ls es in
        if ls.enabled then (after, table clean) else (ls, table es)
    sanitize_value ls (slice is) = let (after, clean) = sanitize_items ls is in (after, slice clean)
    sanitize_value ls (other x) = (ls, other x)

    -- the loop of `SanitizeMap`
    pub sanitize_entries : {X : Type 0} → LogSanitizer R → Entries X → LogSanitizer R × Entries X
    sanitize_entries ls no_entry = (ls, no_entry)
    sanitize_entries ls (entry key v es) =
        let (middle, clean) = sanitize_value ls v in
        let (after, rest) = sanitize_entries middle es in (after, entry key clean rest)

    -- the loop of `sanitizeSlice`
    pub sanitize_items : {X : Type 0} → LogSanitizer R → Items X → LogSanitizer R × Items X
    sanitize_items ls no_item = (ls, no_item)
    sanitize_items ls (item v is) =
        let (middle, clean) = sanitize_value ls v in
        let (after, rest) = sanitize_items middle is in (after, item clean rest)

  -- `SanitizeMap`
  unfoldable pub sanitize_map :
      {X : Type 0} → LogSanitizer R → Option (Entries X) → LogSanitizer R × Option (Entries X)
  unfolding sanitize_entries
  sanitize_map ls none = (ls, none)
  sanitize_map ls (some es) =
      let (after, clean) = sanitize_entries ls es in
      if ls.enabled then (after, some clean) else (ls, some es)

-- `for j := start; j < start+n; j++`
unfoldable pub upto : (start n : ℕ) → List ℕ
upto start zero = []
upto start (suc n) = start ∷ upto (suc start) n

-- The positions of the worker `i` of `BatchSanitize`, of `n` messages.
unfoldable pub positions_of : (n i : ℕ) → List ℕ
unfolding upto
positions_of n i =
    let start = i * (n / 4) in if i == 3 then upto start (n - start) else upto start (n / 4)

-- The positions in the order of the workers.
unfoldable pub batch_positions : ℕ → List ℕ
unfolding positions_of
batch_positions n =
    if ltb 100 n
    then positions_of n 0 ++ positions_of n 1 ++ positions_of n 2 ++ positions_of n 3
    else upto 0 n

unfoldable pub blanks : List Bytes → List Bytes
blanks [] = []
blanks (m ∷ ms) = [] ∷ blanks ms

module _ {R : Type 0} (pieces : R → Bytes → List Piece) where
  -- `result[j] = ls.Sanitize(messages[j])` for the positions in this order
  unfoldable pub write_all :
      LogSanitizer R
      → (messages : List Bytes) → (order : List ℕ) → (result : List Bytes)
      → LogSanitizer R × List Bytes
  unfolding sanitize
  write_all ls messages [] result = (ls, result)
  write_all ls messages (j ∷ order) result = elim (get_elem? messages j) [
    | none ↦ write_all ls messages order result
    | some message ↦
        let (after, clean) = sanitize pieces ls message in
        write_all after messages order (set result j clean)
  ]

  -- `BatchSanitize`, with the order in which the workers come to the positions.
  unfoldable pub batch_sanitize :
      LogSanitizer R → List Bytes → (order : List ℕ) → LogSanitizer R × List Bytes
  unfolding write_all blanks
  batch_sanitize ls [] order = (ls, [])
  batch_sanitize ls (m ∷ ms) order =
      let written = write_all ls (m ∷ ms) order (blanks (m ∷ ms)) in
      if ls.enabled then written else (ls, m ∷ ms)
