-- ===== src/Security/Middleware.antt =====
-- security/security_middleware.go: the layer that puts the analyzer, the encryption, the interceptor
-- and the sanitizer together. A part that is not there is none. Times and what is logged are left out.
pub mod Blocking
pub mod Fields
pub mod Examples
use nflow_runtime.Common.{
  ℕ, ◌+◌, String, Bool, true, false, not, ◌&&◌, ◌||◌, Option, none, some, List, [], ◌∷◌,
  if◌then◌else◌, str_eq, length, ltb,
}
use nflow_runtime.Common.Dict.{Dict}
use nflow_runtime.Security.{Bytes, Piece}
use nflow_runtime.Security.Analyzer as Analyzer
use nflow_runtime.Security.Analyzer.{
  SecurityIssue, SecurityPattern, analyze_script, has_high_severity_issues, filter_by_severity,
  severity_high, severity_medium, severity_low, new_static_analyzer,
}
use nflow_runtime.Security.Encryption as Encryption
use nflow_runtime.Security.Encryption.{
  Crypto, EncryptionService, Result, failed, done, encrypt, decrypt, is_encrypted, EncryptionError,
  new_encryption_service,
}
use nflow_runtime.Security.Interceptor as Interceptor
use nflow_runtime.Security.Interceptor.{
  Submatch, Json, Processed, unchanged, replaced, annotated, marshal_failed, unmarshal_failed,
  process_response, new_interceptor,
}
use nflow_runtime.Security.Sanitizer as Sanitizer
use nflow_runtime.Security.Sanitizer.{LogSanitizer, sanitize, batch_sanitize, new_log_sanitizer}

pub record SecurityConfig : Type 0 where
  pub enable_static_analysis : Bool
  pub block_on_high_severity : Bool
  pub log_security_warnings : Bool
  pub enable_encryption : Bool
  pub encryption_key : Bytes
  pub encrypt_sensitive_data : Bool
  pub encrypt_in_place : Bool
  pub always_encrypt_fields : List String
  pub custom_patterns : Dict String
  pub enable_log_sanitization : Bool
  pub log_masking_char : Bytes
  pub log_preserve_length : Bool
  pub log_show_type : Bool
  pub log_custom_patterns : Dict String

abbrev pub default_security_config : SecurityConfig
default_security_config = record {
  enable_static_analysis = true;
  block_on_high_severity = true;
  log_security_warnings = true;
  enable_encryption = true;
  encryption_key = [];
  encrypt_sensitive_data = false;
  encrypt_in_place = true;
  always_encrypt_fields = [];
  custom_patterns = [];
  enable_log_sanitization = true;
  log_masking_char = [];
  log_preserve_length = false;
  log_show_type = true;
  log_custom_patterns = [];
}

pub record SecurityMetrics : Type 0 where
  pub scripts_analyzed : ℕ
  pub scripts_blocked : ℕ
  pub high_severity_issues : ℕ
  pub medium_severity_issues : ℕ
  pub low_severity_issues : ℕ
  pub data_encrypted : ℕ
  pub logs_processed : ℕ
  pub logs_sanitized : ℕ

pub record SecurityMiddleware (R : Type 0) : Type 0 where
  pub analyzer : Option (List (SecurityPattern R))
  pub encryption : Option EncryptionService
  pub interceptor : Option (Interceptor.Interceptor R)
  pub sanitizer : Option (LogSanitizer R)
  pub config : SecurityConfig
  pub metrics : SecurityMetrics

abbrev pub no_metrics : SecurityMetrics
no_metrics = record {
  scripts_analyzed = 0;
  scripts_blocked = 0;
  high_severity_issues = 0;
  medium_severity_issues = 0;
  low_severity_issues = 0;
  data_encrypted = 0;
  logs_processed = 0;
  logs_sanitized = 0;
}

-- What the caller learns of a script: nothing to say, or blocked with the number of issues of high
-- severity; `crashed` is a panic of the analyzer.
pub data Verdict : Type 0 where
  allowed crashed : Verdict
  blocked : (high : ℕ) → Verdict

unfoldable pub count_issue : SecurityMetrics → SecurityIssue → SecurityMetrics
count_issue m issue =
    if str_eq issue.severity severity_high
    then record m { high_severity_issues = m.high_severity_issues + 1 }
    else if str_eq issue.severity severity_medium
    then record m { medium_severity_issues = m.medium_severity_issues + 1 }
    else if str_eq issue.severity severity_low
    then record m { low_severity_issues = m.low_severity_issues + 1 }
    else m

-- `updateIssueMetrics`
unfoldable pub count_issues : SecurityMetrics → List SecurityIssue → SecurityMetrics
unfolding count_issue
count_issues m [] = m
count_issues m (issue ∷ issues) = count_issues (count_issue m issue) issues

unfoldable pub count_analyzed : SecurityMetrics → SecurityMetrics
count_analyzed m = record m { scripts_analyzed = m.scripts_analyzed + 1 }

unfoldable pub count_blocked : SecurityMetrics → SecurityMetrics
count_blocked m = record m { scripts_blocked = m.scripts_blocked + 1 }

module _ {R : Type 0} where
  unfoldable pub is_enabled : SecurityMiddleware R → Bool
  is_enabled sm = sm.config.enable_static_analysis || sm.config.enable_encryption

  unfoldable pub set_enabled :
      SecurityMiddleware R → (analysis encryption : Bool) → SecurityMiddleware R
  unfolding Interceptor.set_enabled
  set_enabled sm analysis encryption = record sm {
    config = record sm.config { enable_static_analysis = analysis; enable_encryption = encryption };
    interceptor = elim sm.interceptor [
      | none ↦ none
      | some sdi ↦ some (Interceptor.set_enabled sdi encryption)
    ];
  }

  -- The middleware and its interceptor share one service.
  unfoldable pub with_service : SecurityMiddleware R → EncryptionService → SecurityMiddleware R
  with_service sm es = record sm {
    encryption = some es;
    interceptor = elim sm.interceptor [
      | none ↦ none
      | some sdi ↦ some (record sdi { encryption_service = es })
    ];
  }

  unfoldable pub reset_service : SecurityMiddleware R → SecurityMiddleware R
  unfolding with_service Encryption.reset_metrics
  reset_service sm = elim sm.encryption [
    | none ↦ sm
    | some es ↦ with_service sm (Encryption.reset_metrics es)
  ]

  unfoldable pub reset_metrics : SecurityMiddleware R → SecurityMiddleware R
  unfolding reset_service Interceptor.reset_metrics Sanitizer.reset_metrics
  reset_metrics sm =
      let shared : SecurityMiddleware R = reset_service sm in
      record shared {
        metrics = no_metrics;
        interceptor = elim shared.interceptor [
          | none ↦ none
          | some sdi ↦ some (Interceptor.reset_metrics sdi)
        ];
        sanitizer = elim sm.sanitizer [ none ↦ none | some ls ↦ some (Sanitizer.reset_metrics ls) ];
      }

  unfoldable pub with_encryption : SecurityMiddleware R → SecurityMetrics → SecurityMetrics
  with_encryption sm m = elim sm.encryption [
    | none ↦ m
    | some es ↦ record m { data_encrypted = es.encrypt_count + es.decrypt_count }
  ]

  unfoldable pub with_sanitizer : SecurityMiddleware R → SecurityMetrics → SecurityMetrics
  with_sanitizer sm m = elim sm.sanitizer [
    | none ↦ m
    | some ls ↦ record m { logs_processed = ls.logs_processed; logs_sanitized = ls.data_sanitized }
  ]

  unfoldable pub get_metrics : SecurityMiddleware R → SecurityMetrics
  unfolding with_encryption with_sanitizer
  get_metrics sm = with_sanitizer sm (with_encryption sm sm.metrics)

  -- What `AnalyzeScript` does with the issues, after the messages.
  unfoldable pub judge : SecurityMiddleware R → List SecurityIssue → SecurityMiddleware R × Verdict
  unfolding count_issues count_analyzed count_blocked
  judge sm issues =
      let counted = count_analyzed (count_issues sm.metrics issues) in
      if sm.config.block_on_high_severity && has_high_severity_issues issues
      then (
        record sm { metrics = count_blocked counted },
        blocked (length (filter_by_severity issues (severity_high ∷ []))),
      )
      else (record sm { metrics = counted }, allowed)

module _ {R : Type 0} (pieces : R → Bytes → List Piece) where
  -- The messages on the issues pass the sanitizer; `format` writes a message.
  unfoldable pub sanitize_all :
      (format : SecurityIssue → Bytes) → LogSanitizer R → List SecurityIssue → LogSanitizer R
  unfolding sanitize
  sanitize_all format ls [] = ls
  sanitize_all format ls (issue ∷ issues) =
      sanitize_all format (sanitize pieces ls (format issue)).0 issues

  unfoldable pub log_issues :
      (format : SecurityIssue → Bytes)
      → SecurityMiddleware R
      → List SecurityIssue
      → SecurityMiddleware R
  unfolding sanitize_all
  log_issues format sm issues = elim sm.sanitizer [
    | none ↦ sm
    | some ls ↦
        if sm.config.log_security_warnings
        then record sm { sanitizer = some (sanitize_all format ls issues) }
        else sm
  ]

  module _ (find : R → Bytes → List ℕ) (trim : Bytes → Bytes) (format : SecurityIssue → Bytes) where
    unfoldable pub analyze :
        SecurityMiddleware R → (script : Bytes) → SecurityMiddleware R × Verdict
    unfolding judge log_issues
    analyze sm script = elim sm.analyzer [
      | none ↦ (sm, allowed)
      | some patterns ↦
          if not sm.config.enable_static_analysis
          then (sm, allowed)
          else elim (analyze_script find trim patterns script) [
            | none ↦ (record sm { metrics = count_analyzed sm.metrics }, crashed)
            | some issues ↦ judge (log_issues format sm issues) issues
          ]
    ]

  -- `SanitizeLog`
  unfoldable pub sanitize_log : SecurityMiddleware R → Bytes → SecurityMiddleware R × Bytes
  unfolding sanitize
  sanitize_log sm message = elim sm.sanitizer [
    | none ↦ (sm, message)
    | some ls ↦
        let (after, clean) = sanitize pieces ls message in
        if not sm.config.enable_log_sanitization
        then (sm, message)
        else (record sm { sanitizer = some after }, clean)
  ]

  -- `SanitizeLogs`, with the order in which the workers come to the messages
  unfoldable pub sanitize_logs :
      SecurityMiddleware R → List Bytes → (order : List ℕ) → SecurityMiddleware R × List Bytes
  unfolding batch_sanitize
  sanitize_logs sm messages order = elim sm.sanitizer [
    | none ↦ (sm, messages)
    | some ls ↦
        let (after, clean) = batch_sanitize pieces ls messages order in
        if not sm.config.enable_log_sanitization
        then (sm, messages)
        else (record sm { sanitizer = some after }, clean)
  ]

unfoldable pub is_field : String → List String → Bool
is_field name [] = false
is_field name (field ∷ fields) = str_eq field name || is_field name fields

module _ {R : Type 0} (c : Crypto) where
  -- The result of a call of the service, which the middleware and its interceptor share.
  unfoldable pub with_result :
      SecurityMiddleware R
      → Result (EncryptionService × Bytes)
      → Result (SecurityMiddleware R × Bytes)
  unfolding with_service
  with_result sm (failed e) = failed e
  with_result sm (done (es, value)) = done (with_service sm es, value)

  unfoldable pub encrypt_field :
      SecurityMiddleware R
      → (random : Option Bytes) → (name : String) (value : Bytes)
      → Result (SecurityMiddleware R × Bytes)
  unfolding with_result is_field encrypt
  encrypt_field sm random name value = elim sm.encryption [
    | none ↦ done (sm, value)
    | some es ↦
        if is_field name sm.config.always_encrypt_fields
        then with_result sm (encrypt c es random value)
        else done (sm, value)
  ]

  unfoldable pub decrypt_field :
      SecurityMiddleware R → (value : Bytes) → Result (SecurityMiddleware R × Bytes)
  unfolding with_result is_encrypted decrypt
  decrypt_field sm value = elim sm.encryption [
    | none ↦ done (sm, value)
    | some es ↦
        if is_encrypted c value then with_result sm (decrypt c es value) else done (sm, value)
  ]

  module _ {D J : Type 0} (matches : R → Bytes → List Submatch) (json : Json D J) where
    unfoldable pub count_response : Processed D J → SecurityMetrics → SecurityMetrics
    count_response (unchanged d) m = record m { data_encrypted = m.data_encrypted + 1 }
    count_response (replaced j) m = record m { data_encrypted = m.data_encrypted + 1 }
    count_response (annotated fields) m = record m { data_encrypted = m.data_encrypted + 1 }
    count_response (marshal_failed d) m = m
    count_response unmarshal_failed m = m

    -- `ProcessResponse`; its errors, with the data as it was, are the last two results.
    unfoldable pub process :
        SecurityMiddleware R
        → (random : ℕ → Option Bytes) → Option D
        → SecurityMiddleware R × Processed D J
    unfolding process_response count_response with_service
    process sm random content = elim sm.interceptor [
      | none ↦ (sm, unchanged content)
      | some sdi ↦
          let (after, result) = process_response c matches json sdi random content in
          let counted : SecurityMiddleware R = record sm {
            interceptor = some after;
            metrics = count_response result sm.metrics;
          } in
          if not sm.config.enable_encryption
          then (sm, unchanged content)
          else (with_service counted after.encryption_service, result)
    ]

-- The making of a middleware: it may be refused for its key, or never return.
pub data Made (R : Type 0) : Type 0 where
  made : SecurityMiddleware R → Made R
  refused : EncryptionError → Made R
  hung : Made R

module _ {R : Type 0} (c : Crypto) (compile : String → Option R)
    (script_regex data_regex log_regex : String → R) where
  unfoldable pub bare_middleware : SecurityConfig → SecurityMiddleware R
  unfolding new_log_sanitizer new_static_analyzer
  bare_middleware config = record {
    analyzer =
        if config.enable_static_analysis then some (new_static_analyzer script_regex) else none;
    encryption = none;
    interceptor = none;
    sanitizer =
        if config.enable_log_sanitization
        then some (
            new_log_sanitizer compile log_regex (
              some (record {
                enabled = true;
                masking_char = config.log_masking_char;
                preserve_length = config.log_preserve_length;
                show_type = config.log_show_type;
                custom_patterns = config.log_custom_patterns;
              })))
        else none;
    config = config;
    metrics = no_metrics;
  }

  unfoldable pub add_interceptor : SecurityMiddleware R → EncryptionService → Made R
  unfolding new_interceptor
  add_interceptor sm es =
      elim (new_interceptor compile data_regex es (
        some (record {
          enabled = sm.config.encrypt_sensitive_data;
          encrypt_in_place = sm.config.encrypt_in_place;
          metadata_key = "_encrypted_fields";
          custom_patterns = sm.config.custom_patterns;
        }))) [
          | none ↦ hung
          | some sdi ↦ made (record sm { encryption = some es; interceptor = some sdi })
        ]

  -- `NewSecurityMiddleware`; a nil configuration is none.
  unfoldable pub new_security_middleware : Option SecurityConfig → Made R
  unfolding bare_middleware add_interceptor new_encryption_service
  new_security_middleware config =
      let settings : SecurityConfig = elim config [ none ↦ default_security_config | some s ↦ s ] in
      let sm = bare_middleware settings in
      if settings.enable_encryption && ltb 0 (length settings.encryption_key)
      then elim (new_encryption_service c settings.encryption_key) [
        | failed e ↦ refused e
        | done es ↦ add_interceptor sm es
      ]
      else made sm
