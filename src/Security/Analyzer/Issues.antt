-- ===== src/Security/Analyzer/Issues.antt =====
-- The analysis of a script ends, and its results filtered by severity.
use nflow_runtime.Common.{
  ℕ, suc, ◌+◌, ◌-◌, ◌≤◌, ◌≡◌, refl, inl, inr, some, List, [], ◌∷◌, length, take, drop, ltb, eq_iff,
  arith, Bool-cases, Option-cases,
}
use nflow_runtime.Common.Indexed.{get_elem?, sum_by}
use nflow_runtime.Security.{Bytes}
use nflow_runtime.Security.Analyzer.{
  SecurityPattern, SecurityIssue, severity_high, get_line_and_column, split_lines, slice,
  snippet_of, extract_snippet, index_of_line, issue_at, issues_at, issues_of, analyze_script,
  has_high_severity_issues, is_listed, keep_listed, filter_by_severity,
}
use nflow_runtime.Security.Analyzer.Positions.{get_line_and_column-within}

slice-some :
    (s : Bytes) (start end : ℕ)
    → start ≤ end
    → end ≤ length s
    → slice s start end ≡ some (take (end - start) (drop start s))
unfolding slice
slice-some s start end h k = ground (arith, h, k)

module _ (trim : Bytes → Bytes) where
  snippet_of-total :
      (line : Bytes) (column : ℕ)
      → column ≤ length line + 1
      → (part : Bytes) × (snippet_of trim line column ≡ some part)
  unfolding snippet_of
  snippet_of-total line column h = elim (Option-cases (snippet_of trim line column)) [
    | inr there ↦ there
    | inl none_there ↦ elim (Bool-cases (ltb (length line) (column + 40))) [
      | inl e ↦
          let cut = slice-some line (column - 40) (length line) (ground (arith, h)) (omega arith) in
          absurd (ground (arith, none_there, e, cut))
      | inr e ↦
          let cut = slice-some line (column - 40) (column + 40) (omega arith) (ground (arith, e)) in
          absurd (ground (arith, none_there, e, cut))
    ]
  ]

  extract_snippet-listed :
      (lines : List Bytes) (line index column : ℕ) (content part : Bytes)
      → line ≡ suc index
      → get_elem? lines index ≡ some content
      → snippet_of trim content column ≡ some part
      → extract_snippet trim lines (index_of_line line) column ≡ some part
  unfolding extract_snippet index_of_line
  extract_snippet-listed lines line index column content part e f g =
      rw (e) (rw (extract_snippet, f, g) refl)

  module _ {R : Type 0} (find : R → Bytes → List ℕ) where
    issue_at-total :
        (p : SecurityPattern R) (script : Bytes) (position : ℕ)
        → (issue : SecurityIssue) × (issue_at find trim p script position ≡ some issue)
    unfolding issue_at
    issue_at-total p script position =
        let (index, content, line_is, listed, within) =
          get_line_and_column-within script position in
        let (line, column) = get_line_and_column script position in
        let (part, cut) = snippet_of-total content column within in
        let extracted =
          extract_snippet-listed (split_lines script) line index column content part line_is listed
            cut in
        elim (Option-cases (issue_at find trim p script position)) [
          | inr there ↦ there
          | inl none_there ↦ absurd (ground (arith, none_there, extracted))
        ]

    issues_at-here :
        (p : SecurityPattern R) (script : Bytes) (position : ℕ) (positions : List ℕ)
        (later : List SecurityIssue) (issue : SecurityIssue) (issues : List SecurityIssue)
        → issue_at find trim p script position ≡ some issue
        → issues_at find trim p script positions (some later) ≡ some issues
        → issues_at find trim p script (position ∷ positions) (some later) ≡ some (issue ∷ issues)
    unfolding issues_at
    issues_at-here p script position positions later issue issues e f = rw (issues_at, e, f) refl

    issues_at-total :
        (p : SecurityPattern R) (script : Bytes) (positions : List ℕ) (later : List SecurityIssue)
        → (issues : List SecurityIssue) × (issues_at find trim p script positions (some later)
            ≡ some issues)
          × (length issues ≡ length positions + length later)
    unfolding issues_at
    issues_at-total p script [] later = (later, refl, omega arith)
    issues_at-total p script (position ∷ positions) later =
        let (issue, here) = issue_at-total p script position in
        let (issues, rest, counted) = issues_at-total p script positions later in
        (
          issue ∷ issues,
          issues_at-here p script position positions later issue issues here rest,
          omega (arith, counted),
        )

    pub issues_of-total :
        (ps : List (SecurityPattern R)) (script : Bytes)
        → (issues : List SecurityIssue) × (issues_of find trim ps script ≡ some issues)
          × (length issues ≡ sum_by (λ p. length (find p.regex script)) ps)
    unfolding issues_of
    issues_of-total [] script = ([], refl, refl)
    issues_of-total (p ∷ ps) script =
        let (later, rest, counted) = issues_of-total ps script in
        let (issues, all, length_is) = issues_at-total p script (find p.regex script) later in
        (issues, rw (rest) all, omega (arith, counted, length_is))

    -- The analysis of a script that is not empty never panics, whatever the positions of the matches,
    -- and reports one issue for each match of each pattern.
    pub analyze_script-total :
        (ps : List (SecurityPattern R)) (b : ℕ) (bs : Bytes)
        → (issues : List SecurityIssue) × (analyze_script find trim ps (b ∷ bs) ≡ some issues)
          × (length issues ≡ sum_by (λ p. length (find p.regex (b ∷ bs))) ps)
    unfolding analyze_script
    analyze_script-total ps b bs = issues_of-total ps (b ∷ bs)

-- There is an issue of high severity exactly if the filter by that severity keeps one.
pub has_high_severity_issues-filter_by_severity :
    (issues : List SecurityIssue)
    → has_high_severity_issues issues
      ≡ ltb 0 (length (filter_by_severity issues (severity_high ∷ [])))
unfolding has_high_severity_issues filter_by_severity keep_listed is_listed
has_high_severity_issues-filter_by_severity [] = refl
has_high_severity_issues-filter_by_severity (issue ∷ issues) = ground (
  arith,
  has_high_severity_issues-filter_by_severity issues,
  eq_iff issue.severity severity_high,
  eq_iff severity_high issue.severity,
)
