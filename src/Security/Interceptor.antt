-- ===== src/Security/Interceptor.antt =====
-- security/interceptor/sensitive_data_interceptor.go: sensitive data in responses, found and
-- encrypted. `find` are the matches of an expression, `compile` is regexp.Compile; the JSON of a value
-- and back are parameters too. A confidence is in hundredths. Blocked on a lock for ever is none.
pub mod Detecting
pub mod Metadata
pub mod Locks
pub mod Examples
use Prim.Native.String
use nflow_runtime.Common.{
  ℕ, zero, suc, ◌+◌, String, Bool, true, false, not, ◌&&◌, ◌||◌, Option, none, some, List, [], ◌∷◌,
  ◌++◌, length, ltb, leb, ◌==◌, if◌then◌else◌, str_eq,
}
use nflow_runtime.Common.Dict.{Dict, lookup, insert, delete}
use nflow_runtime.Security.{Bytes, bytes}
use nflow_runtime.Security.Encryption.{Crypto, EncryptionService, Result, failed, done, encrypt}
use nflow_runtime.Security.Sanitizer.{values}

pub record SensitivePattern (R : Type 0) : Type 0 where
  pub kind : String
  pub name : String
  pub regex : R
  pub min_length : ℕ
  pub max_length : ℕ
  pub confidence : ℕ

pub record Detection : Type 0 where
  pub kind : String
  pub value : Bytes
  pub encrypted : Bytes
  pub confidence : ℕ

-- A match, with its groups.
pub record Submatch : Type 0 where
  pub whole : Bytes
  pub groups : List Bytes

pub record InterceptorConfig : Type 0 where
  pub enabled : Bool
  pub encrypt_in_place : Bool
  pub metadata_key : String
  pub custom_patterns : Dict String

pub record Interceptor (R : Type 0) : Type 0 where
  pub encryption_service : EncryptionService
  pub patterns : Dict (SensitivePattern R)
  pub custom_patterns : Dict (SensitivePattern R)
  pub enabled : Bool
  pub encrypt_in_place : Bool
  pub metadata_key : String
  pub compiled_patterns : List (SensitivePattern R)
  pub detection_count : ℕ
  pub encrypt_count : ℕ

abbrev pub default_interceptor_config : InterceptorConfig
default_interceptor_config = record {
  enabled = true;
  encrypt_in_place = true;
  metadata_key = "_encrypted_fields";
  custom_patterns = [];
}

-- strings.ReplaceAll(strings.ReplaceAll(s, " ", ""), "-", "")
unfoldable pub clean_number : Bytes → Bytes
clean_number [] = []
clean_number (b ∷ bs) = let rest = clean_number bs in if b == 32 || b == 45 then rest else b ∷ rest

unfoldable pub all_digits : Bytes → Bool
all_digits [] = true
all_digits (b ∷ bs) = if ltb b 48 || ltb 57 b then false else all_digits bs

unfoldable pub is_valid_credit_card : Bytes → Bool
unfolding clean_number all_digits
is_valid_credit_card number =
    let cleaned = clean_number number in
    if ltb (length cleaned) 13 || ltb 19 (length cleaned) then false else all_digits cleaned

unfoldable pub first_group : Submatch → Bytes
first_group found = elim found.groups [
  | [] ↦ found.whole
  | group ∷ groups ↦ elim group [ [] ↦ found.whole | b ∷ bs ↦ b ∷ bs ]
]

module _ {R : Type 0} where
  unfoldable pub value_of : SensitivePattern R → Submatch → Bytes
  unfolding first_group
  value_of p found = if str_eq p.kind "api_key" then first_group found else found.whole

  unfoldable pub is_accepted : SensitivePattern R → Bytes → Bool
  unfolding is_valid_credit_card
  is_accepted p value =
      if ltb 0 p.min_length && ltb (length value) p.min_length
      then false
      else if ltb 0 p.max_length && ltb p.max_length (length value)
      then false
      else not (str_eq p.kind "credit_card" && not (is_valid_credit_card value))

  unfoldable pub detection_of : SensitivePattern R → Bytes → Detection
  detection_of p value = record {
    kind = p.kind;
    value = value;
    encrypted = [];
    confidence = p.confidence;
  }

  -- The loop over the matches of a pattern, before the detections `later`.
  unfoldable pub detect_matches :
      SensitivePattern R → List Submatch → List Detection → List Detection
  unfolding value_of is_accepted detection_of
  detect_matches p [] later = later
  detect_matches p (found ∷ rest) later =
      let others = detect_matches p rest later in
      let value = value_of p found in
      if is_accepted p value then detection_of p value ∷ others else others

  unfoldable pub set_enabled : Interceptor R → Bool → Interceptor R
  set_enabled sdi enabled = record sdi { enabled = enabled }

  unfoldable pub reset_metrics : Interceptor R → Interceptor R
  reset_metrics sdi = record sdi { detection_count = 0; encrypt_count = 0 }

  unfoldable pub count_encrypted : Interceptor R → EncryptionService → Interceptor R
  count_encrypted sdi service = record sdi {
    encryption_service = service;
    encrypt_count = sdi.encrypt_count + 1;
  }

  unfoldable pub custom_pattern : String → R → SensitivePattern R
  custom_pattern name regex = record {
    kind = "custom";
    name = name;
    regex = regex;
    min_length = 1;
    max_length = 0;
    confidence = 80;
  }

  -- `compilePatterns` takes the lock: it blocks if its caller holds it.
  unfoldable pub compile_patterns : (locked : Bool) → Interceptor R → Option (Interceptor R)
  unfolding values
  compile_patterns true sdi = none
  compile_patterns false sdi =
      some (record sdi { compiled_patterns = values sdi.patterns ++ values sdi.custom_patterns })

  unfoldable pub remove_custom_pattern : Interceptor R → String → Option (Interceptor R × Bool)
  unfolding compile_patterns
  remove_custom_pattern sdi name = elim (lookup name sdi.custom_patterns) [
    | none ↦ some (sdi, false)
    | some p ↦
        elim (compile_patterns true
          (record sdi { custom_patterns = delete name sdi.custom_patterns })) [
            | none ↦ none
            | some after ↦ some (after, true)
          ]
  ]

module _ {R : Type 0} (compile : String → Option R) where
  -- Whether the pattern was added, and the interceptor; none if the call never returns.
  unfoldable pub add_custom_pattern :
      Interceptor R → (name pattern : String) → Option (Interceptor R × Bool)
  unfolding compile_patterns custom_pattern
  add_custom_pattern sdi name pattern = elim (compile pattern) [
    | none ↦ some (sdi, false)
    | some regex ↦
        elim (compile_patterns true (record sdi {
          custom_patterns = insert name (custom_pattern name regex) sdi.custom_patterns;
        })) [ none ↦ none | some after ↦ some (after, true) ]
  ]

  unfoldable pub add_all : Interceptor R → Dict String → Option (Interceptor R)
  unfolding add_custom_pattern
  add_all sdi [] = some sdi
  add_all sdi ((name, pattern) ∷ rest) = elim (add_custom_pattern sdi name pattern) [
    | none ↦ none
    | some (after, added) ↦ add_all after rest
  ]

  module _ (default_regex : String → R) where
    unfoldable pub default_pattern :
        (kind name : String) (min max confidence : ℕ) → String × SensitivePattern R
    default_pattern kind name min max confidence = (
      kind,
      record {
        kind = kind;
        name = name;
        regex = default_regex kind;
        min_length = min;
        max_length = max;
        confidence = confidence;
      },
    )

    unfoldable pub default_patterns : Dict (SensitivePattern R)
    unfolding default_pattern
    default_patterns =
        default_pattern "email" "Email Address" 5 254 90
        ∷ default_pattern "phone" "Phone Number" 10 20 80
        ∷ default_pattern "ssn" "Social Security Number" 11 11 95
        ∷ default_pattern "credit_card" "Credit Card Number" 13 19 70
        ∷ default_pattern "api_key" "API Key" 16 256 85
        ∷ default_pattern "jwt" "JWT Token" 30 0 90
        ∷ []

    unfoldable pub fresh_interceptor : EncryptionService → InterceptorConfig → Interceptor R
    unfolding default_patterns
    fresh_interceptor service config = record {
      encryption_service = service;
      patterns = default_patterns;
      custom_patterns = [];
      enabled = config.enabled;
      encrypt_in_place = config.encrypt_in_place;
      metadata_key = config.metadata_key;
      compiled_patterns = [];
      detection_count = 0;
      encrypt_count = 0;
    }

    -- `NewSensitiveDataInterceptor`; a nil configuration is none, and so is a call that never returns.
    unfoldable pub new_interceptor :
        EncryptionService → Option InterceptorConfig → Option (Interceptor R)
    unfolding fresh_interceptor add_all compile_patterns
    new_interceptor service config =
        let c : InterceptorConfig = elim config [
          | none ↦ default_interceptor_config
          | some c ↦ c
        ] in
        elim (add_all (fresh_interceptor service c) c.custom_patterns) [
          | none ↦ none
          | some sdi ↦ compile_patterns false sdi
        ]

-- `s` without this prefix
unfoldable pub after_prefix : (prefix s : Bytes) → Option Bytes
after_prefix [] s = some s
after_prefix (p ∷ ps) [] = none
after_prefix (p ∷ ps) (b ∷ bs) = let rest = after_prefix ps bs in if p == b then rest else none

-- strings.Replace(s, old, new, 1)
unfoldable pub replace_first : (s old new : Bytes) → Bytes
unfolding after_prefix
replace_first [] old new = elim (after_prefix old []) [ none ↦ [] | some rest ↦ new ++ rest ]
replace_first (b ∷ bs) old new = elim (after_prefix old (b ∷ bs)) [
  | none ↦ b ∷ replace_first bs old new
  | some rest ↦ new ++ rest
]

module _ {R : Type 0} (find : R → Bytes → List Submatch) where
  unfoldable pub detect_all : List (SensitivePattern R) → Bytes → List Detection
  unfolding detect_matches
  detect_all [] s = []
  detect_all (p ∷ ps) s = detect_matches p (find p.regex s) (detect_all ps s)

  -- `detectSensitiveData`
  unfoldable pub detect_sensitive_data : Interceptor R → Bytes → Interceptor R × List Detection
  unfolding detect_all
  detect_sensitive_data sdi s =
      let found = detect_all sdi.compiled_patterns s in
      (record sdi { detection_count = sdi.detection_count + length found }, found)

unfoldable pub quoted : Bytes → Bytes
quoted s = 34 ∷ s ++ (34 ∷ [])

unfoldable pub replacement : Detection → (sealed : Bytes) → Bytes
unfolding bytes
replacement d sealed = bytes "\"[ENCRYPTED_" ++ bytes d.kind ++ bytes ":" ++ sealed ++ bytes "]\""

module _ {R : Type 0} (c : Crypto) where
  -- The loop of `processWithMetadata`, with the random bytes of each encryption.
  unfoldable pub encrypt_detections :
      Interceptor R → (random : ℕ → Option Bytes) → List Detection → Interceptor R × List Detection
  unfolding count_encrypted
  encrypt_detections sdi random [] = (sdi, [])
  encrypt_detections sdi random (d ∷ ds) =
      elim (encrypt c sdi.encryption_service (random (length ds)) d.value) [
        | failed e ↦ encrypt_detections sdi random ds
        | done (service, sealed) ↦
            let (after, rest) = encrypt_detections (count_encrypted sdi service) random ds in
            (after, record d { encrypted = sealed } ∷ rest)
      ]

  -- The loop of `processInPlace`, from the last detection to the first.
  unfoldable pub replace_detections :
      Interceptor R → (random : ℕ → Option Bytes) → List Detection → Bytes → Interceptor R × Bytes
  unfolding count_encrypted quoted replacement replace_first
  replace_detections sdi random [] s = (sdi, s)
  replace_detections sdi random (d ∷ ds) s =
      let (later, replaced) = replace_detections sdi random ds s in
      elim (encrypt c later.encryption_service (random (length ds)) d.value) [
        | failed e ↦ (later, replaced)
        | done (service, sealed) ↦ (
          count_encrypted later service,
          replace_first replaced (quoted d.value) (replacement d sealed),
        )
      ]

-- A value of the object that is returned: what was parsed, or the metadata.
pub data Field (J : Type 0) : Type 0 where
  parsed : J → Field J
  metadata : List Detection → Field J

pub data Processed (D J : Type 0) : Type 0 where
  unchanged : Option D → Processed D J
  replaced : J → Processed D J
  annotated : Dict (Field J) → Processed D J
  marshal_failed : D → Processed D J
  unmarshal_failed : Processed D J

unfoldable pub fields : {J : Type 0} → Dict J → Dict (Field J)
fields [] = []
fields ((k, j) ∷ dict) = (k, parsed j) ∷ fields dict

-- encoding/json: of a value, and back to a value, an object or an array.
pub record Json (D J : Type 0) : Type 0 where
  pub marshal : D → Option Bytes
  pub unmarshal : Bytes → Option J
  pub unmarshal_object : Bytes → Option (Dict J)
  pub unmarshal_array : Bytes → Option J

module _ {R D J : Type 0} (c : Crypto) (find : R → Bytes → List Submatch) (json : Json D J) where
  unfoldable pub process_in_place :
      Interceptor R → (random : ℕ → Option Bytes) → Bytes → Interceptor R × Processed D J
  unfolding detect_sensitive_data replace_detections
  process_in_place sdi random s =
      let (after, detections) = detect_sensitive_data find sdi s in
      let (final, text) = replace_detections c after random detections s in
      (final, elim (json.unmarshal text) [ none ↦ unmarshal_failed | some j ↦ replaced j ])

  -- The object that the metadata is added to: an array is wrapped.
  unfoldable pub object_of : Bytes → Option (Dict (Field J))
  unfolding fields
  object_of s = elim (json.unmarshal_object s) [
    | some object ↦ some (fields object)
    | none ↦ elim (json.unmarshal_array s) [
      | none ↦ none
      | some items ↦ some (("data", parsed items) ∷ [])
    ]
  ]

  unfoldable pub process_with_metadata :
      Interceptor R → (random : ℕ → Option Bytes) → Bytes → Interceptor R × Processed D J
  unfolding detect_sensitive_data encrypt_detections object_of
  process_with_metadata sdi random s =
      let (after, detections) = detect_sensitive_data find sdi s in
      let (final, entries) = encrypt_detections c after random detections in
      elim (object_of s) [
        | none ↦ (sdi, unmarshal_failed)
        | some object ↦ (
          final,
          annotated (
              if ltb 0 (length entries)
              then insert sdi.metadata_key (metadata entries) object
              else object),
        )
      ]

  -- `ProcessResponse`; nil data is none.
  unfoldable pub process_response :
      Interceptor R → (random : ℕ → Option Bytes) → Option D → Interceptor R × Processed D J
  unfolding process_in_place process_with_metadata
  process_response sdi random none = (sdi, unchanged none)
  process_response sdi random (some content) =
      if not sdi.enabled then (sdi, unchanged (some content)) else elim (json.marshal content) [
        | none ↦ (sdi, marshal_failed content)
        | some s ↦
            if sdi.encrypt_in_place
            then process_in_place sdi random s
            else process_with_metadata sdi random s
      ]
