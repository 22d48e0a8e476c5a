-- ===== src/Security/Middleware/Blocking.antt =====
-- Which scripts are blocked.
use nflow_runtime.Common.{
  ℕ, ◌+◌, ◌≡◌, refl, ap, ◌∙◌, inl, inr, true, some, List, [], ◌∷◌, length, ltb, if◌then◌else◌,
  str_eq, arith, Bool-cases, Option-cases,
}
use nflow_runtime.Common.Indexed.{sum_by}
use nflow_runtime.Security.{Bytes, Piece}
use nflow_runtime.Security.Analyzer.{
  SecurityIssue, SecurityPattern, severity_high, get_line_and_column, split_lines, extract_snippet,
  index_of_line, issue_at, issues_at, issues_of, analyze_script, is_listed, keep_listed,
  filter_by_severity,
}
use nflow_runtime.Security.Analyzer.Issues.{
  issues_of-total, has_high_severity_issues-filter_by_severity,
}
use nflow_runtime.Security.Middleware.{
  SecurityConfig, SecurityMiddleware, allowed, blocked, judge, log_issues, analyze,
}

abbrev high : List SecurityIssue → ℕ
high issues = length (filter_by_severity issues (severity_high ∷ []))

module _ {R : Type 0} (find : R → Bytes → List ℕ) (trim : Bytes → Bytes) where
  -- The matches of the patterns of high severity.
  abbrev pub high_matches : List (SecurityPattern R) → Bytes → ℕ
  high_matches ps script =
      sum_by (λ p. if str_eq severity_high p.severity then length (find p.regex script) else 0) ps

  issue_at-severity :
      (p : SecurityPattern R) (script : Bytes) (position : ℕ) (issue : SecurityIssue)
      → issue_at find trim p script position ≡ some issue
      → issue.severity ≡ p.severity
  unfolding issue_at
  issue_at-severity p script position issue e =
      let (line, column) = get_line_and_column script position in
      elim (Option-cases (extract_snippet trim (split_lines script) (index_of_line line) column)) [
        | inl f ↦ absurd (ground (arith, e, f))
        | inr (snippet, f) ↦ ground (arith, e, f)
      ]

  issues_at-high :
      (p : SecurityPattern R) (script : Bytes) (positions : List ℕ)
      (later issues : List SecurityIssue)
      → issues_at find trim p script positions (some later) ≡ some issues
      → high issues ≡ (if str_eq severity_high p.severity then length positions else 0) + high later
  unfolding issues_at filter_by_severity keep_listed is_listed
  issues_at-high p script [] later issues e =
      let same : later ≡ issues = ground (arith, e) in rw⁻¹ (same) (ground arith)
  issues_at-high p script (position ∷ positions) later issues e =
      elim (Option-cases (issue_at find trim p script position)) [
        | inl f ↦ absurd (ground (arith, e, f))
        | inr (issue, f) ↦
            elim (Option-cases (issues_at find trim p script positions (some later))) [
              | inl g ↦ absurd (ground (arith, e, f, g))
              | inr (rest, g) ↦
                  let same : issue ∷ rest ≡ issues = ground (arith, e, f, g) in
                  let kind = issue_at-severity p script position issue f in
                  let others = issues_at-high p script positions later rest g in
                  rw⁻¹ (same) (rw (kind) (ground (arith, others)))
            ]
      ]

  issues_of-high :
      (ps : List (SecurityPattern R)) (script : Bytes) (issues : List SecurityIssue)
      → issues_of find trim ps script ≡ some issues
      → high issues ≡ high_matches ps script
  unfolding issues_of filter_by_severity keep_listed
  issues_of-high [] script issues e = let same : [] ≡ issues = ground (arith, e) in rw⁻¹ (same) refl
  issues_of-high (p ∷ ps) script issues e = elim (Option-cases (issues_of find trim ps script)) [
    | inl f ↦
        let (later, f2, counted) = issues_of-total trim find ps script in
        absurd (ground (arith, f, f2))
    | inr (later, f) ↦
        let here = issues_at-high p script (find p.regex script) later issues (rw⁻¹ (f) e) in
        ground (arith, here, issues_of-high ps script later f)
  ]

  judge-verdict :
      (sm : SecurityMiddleware R) (issues : List SecurityIssue)
      → sm.config.block_on_high_severity ≡ true
      → (judge sm issues).1 ≡ (if ltb 0 (high issues) then blocked (high issues) else allowed)
  unfolding judge
  judge-verdict sm issues blocks =
      ground (arith, blocks, has_high_severity_issues-filter_by_severity issues)

  module _ (pieces : R → Bytes → List Piece) (format : SecurityIssue → Bytes) where
    log_issues-config :
        (sm : SecurityMiddleware R) (issues : List SecurityIssue)
        → (log_issues pieces format sm issues).config ≡ sm.config
    unfolding log_issues
    log_issues-config sm issues = elim (Option-cases sm.sanitizer) [
      | inl e ↦ rw (log_issues, e) refl
      | inr (ls, e) ↦ elim (Bool-cases sm.config.log_security_warnings) [
        | inl f ↦ ground (arith, e, f)
        | inr f ↦ ground (arith, e, f)
      ]
    ]

    analyze-issues :
        (sm : SecurityMiddleware R) (ps : List (SecurityPattern R)) (script : Bytes)
        (issues : List SecurityIssue)
        → sm.analyzer ≡ some ps
        → sm.config.enable_static_analysis ≡ true
        → analyze_script find trim ps script ≡ some issues
        → analyze pieces find trim format sm script
          ≡ judge (log_issues pieces format sm issues) issues
    unfolding analyze
    analyze-issues sm ps script issues there on found = ground (arith, there, on, found)

    -- With the analysis and the blocking on, a script that is not empty is blocked exactly if patterns
    -- of high severity match, with the number of their matches, and allowed otherwise.
    pub analyze-high_matches :
        (sm : SecurityMiddleware R) (ps : List (SecurityPattern R)) (b : ℕ) (bs : Bytes)
        → sm.analyzer ≡ some ps
        → sm.config.enable_static_analysis ≡ true
        → sm.config.block_on_high_severity ≡ true
        → (analyze pieces find trim format sm (b ∷ bs)).1 ≡ (
            if ltb 0 (high_matches ps (b ∷ bs))
            then blocked (high_matches ps (b ∷ bs))
            else allowed)
    unfolding analyze_script
    analyze-high_matches sm ps b bs there on blocks =
        let (issues, found, counted) = issues_of-total trim find ps (b ∷ bs) in
        let config = log_issues-config sm issues in
        let run = analyze-issues sm ps (b ∷ bs) issues there on found in
        let verdict =
          judge-verdict (log_issues pieces format sm issues) issues
            (ap (λ (s : SecurityConfig). s.block_on_high_severity) config ∙ blocks) in
        rw⁻¹ (issues_of-high ps (b ∷ bs) issues found) (ap (λ r. r.1) run ∙ verdict)
