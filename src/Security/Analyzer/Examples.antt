-- ===== src/Security/Analyzer/Examples.antt =====
-- The theorems about the analyzer at a script of two lines.
use nflow_runtime.Common.{ℕ, ◌+◌, ◌≡◌, refl, some, List, [], ◌∷◌, length}
use nflow_runtime.Common.Indexed.{get_elem?, sum_by}
use nflow_runtime.Security.{Bytes}
use nflow_runtime.Security.Analyzer.{
  SecurityIssue, SecurityPattern, get_line_and_column, split_lines, analyze_script,
}
use nflow_runtime.Security.Analyzer.Positions.{get_line_and_column-split_lines}
use nflow_runtime.Security.Analyzer.Issues.{analyze_script-total}

abbrev script : Bytes
script = 97 ∷ 10 ∷ 98 ∷ 99 ∷ []

get_line_and_column-split_lines_example :
    (index : ℕ) × (offset : ℕ) × (content : Bytes) × (get_line_and_column script 3
      ≡ (index + 1, offset + 1))
    × (get_elem? (split_lines script) index ≡ some content)
    × (get_elem? content offset ≡ some 99)
get_line_and_column-split_lines_example = get_line_and_column-split_lines script 3 99 refl refl

abbrev pattern : SecurityPattern ℕ
pattern = record { name = "eval_usage"; regex = 3; severity = "high"; description = "eval" }

abbrev find_at : ℕ → Bytes → List ℕ
find_at position s = position ∷ 1 ∷ []

abbrev same : Bytes → Bytes
same s = s

analyze_script-total_example :
    (issues : List SecurityIssue) × (analyze_script find_at same (pattern ∷ []) script
      ≡ some issues)
    × (length issues ≡ sum_by (λ p. length (find_at p.regex script)) (pattern ∷ []))
analyze_script-total_example =
    analyze_script-total same find_at (pattern ∷ []) 97 (10 ∷ 98 ∷ 99 ∷ [])
