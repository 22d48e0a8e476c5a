-- ===== src/Security/Interceptor/Examples.antt =====
-- The theorems about the interceptor with one pattern.
use nflow_runtime.Common.{ℕ, ◌≡◌, refl, inl, true, Option, none, some, [], ◌∷◌, String, All}
use nflow_runtime.Security.Encryption.Examples.{toy, toy-laws, twelve, service}
use nflow_runtime.Security.Interceptor.{
  SensitivePattern, Detection, Interceptor, InterceptorConfig, encrypt_detections, new_interceptor,
}
use nflow_runtime.Security.Interceptor.Locks.{new_interceptor-blocks}
use nflow_runtime.Security.Interceptor.Metadata.{Opens, encrypt_detections-Opens}

abbrev two_bytes : SensitivePattern ℕ
two_bytes = record {
  kind = "ssn";
  name = "Two";
  regex = 0;
  min_length = 2;
  max_length = 2;
  confidence = 95;
}

abbrev watcher : Interceptor ℕ
watcher = record {
  encryption_service = service;
  patterns = ("ssn", two_bytes) ∷ [];
  custom_patterns = [];
  enabled = true;
  encrypt_in_place = true;
  metadata_key = "_encrypted_fields";
  compiled_patterns = two_bytes ∷ [];
  detection_count = 0;
  encrypt_count = 0;
}

abbrev settings : InterceptorConfig
settings = record {
  enabled = true;
  encrypt_in_place = true;
  metadata_key = "_encrypted_fields";
  custom_patterns = ("order", "[0-9]+") ∷ [];
}

abbrev compile_any : String → Option ℕ
compile_any s = some 1

abbrev regex_any : String → ℕ
regex_any s = 0

new_interceptor-blocks_example :
    new_interceptor compile_any regex_any service (some settings) ≡ none
new_interceptor-blocks_example =
    new_interceptor-blocks compile_any regex_any service settings (inl (1, refl))

abbrev held : Detection
held = record { kind = "ssn"; value = 55 ∷ 56 ∷ []; encrypted = []; confidence = 95 }

encrypt_detections-Opens_example :
    All
      (Opens toy toy-laws service)
      (encrypt_detections toy watcher (λ n. some twelve) (held ∷ [])).1
encrypt_detections-Opens_example =
    encrypt_detections-Opens toy toy-laws (λ n. some twelve) (λ n. refl) service (held ∷ []) watcher
      refl
