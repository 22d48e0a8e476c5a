-- ===== src/Security/Middleware/Examples.antt =====
-- The theorems about the middleware with an analyzer of one pattern and a service.
use nflow_runtime.Common.{ℕ, ◌≡◌, refl, none, some, List, [], ◌∷◌, ◌++◌, ltb, if◌then◌else◌}
use nflow_runtime.Security.{Bytes, Piece, plain}
use nflow_runtime.Security.Encryption.{done, encrypt, count_encrypt}
use nflow_runtime.Security.Encryption.Examples.{toy, toy-laws, twelve, sixteen, service}
use nflow_runtime.Security.Analyzer.{SecurityIssue, SecurityPattern}
use nflow_runtime.Security.Middleware.{
  SecurityMiddleware, default_security_config, no_metrics, allowed, blocked, analyze, is_field,
  encrypt_field, decrypt_field, with_result, with_service,
}
use nflow_runtime.Security.Middleware.Blocking.{high_matches, analyze-high_matches}
use nflow_runtime.Security.Middleware.Fields.{decrypt_field-encrypt_field}

abbrev pattern : SecurityPattern ℕ
pattern = record { name = "eval_usage"; regex = 3; severity = "high"; description = "eval" }

abbrev guard : SecurityMiddleware ℕ
guard = record {
  analyzer = some (pattern ∷ []);
  encryption = some service;
  interceptor = none;
  sanitizer = none;
  config = record default_security_config { always_encrypt_fields = "email" ∷ [] };
  metrics = no_metrics;
}

abbrev find_two : ℕ → Bytes → List ℕ
find_two r s = 0 ∷ 2 ∷ []

abbrev same : Bytes → Bytes
same s = s

abbrev whole : ℕ → Bytes → List Piece
whole r s = plain s ∷ []

abbrev message : SecurityIssue → Bytes
message issue = issue.snippet

analyze-high_matches_example : (analyze whole find_two same message guard (97 ∷ 98 ∷ 99 ∷ [])).1 ≡ (
    if ltb 0 (high_matches find_two same (pattern ∷ []) (97 ∷ 98 ∷ 99 ∷ []))
    then blocked (high_matches find_two same (pattern ∷ []) (97 ∷ 98 ∷ 99 ∷ []))
    else allowed)
analyze-high_matches_example =
    analyze-high_matches find_two same whole message guard (pattern ∷ []) 97 (98 ∷ 99 ∷ []) refl
      refl refl

abbrev spent : SecurityMiddleware ℕ
spent = record guard { encryption = some (record service { encrypt_count = 1 }) }

decrypt_field-encrypt_field_example :
    (sm : SecurityMiddleware ℕ) × (decrypt_field toy spent (twelve ++ sixteen ++ (65 ∷ []))
      ≡ done (sm, 65 ∷ []))
unfolding encrypt_field with_result with_service encrypt count_encrypt is_field
decrypt_field-encrypt_field_example =
    decrypt_field-encrypt_field toy toy-laws guard spent service twelve
      (twelve ++ sixteen ++ (65 ∷ [])) "email" 65 [] refl refl refl refl
