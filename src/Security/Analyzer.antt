-- ===== src/Security/Analyzer.antt =====
-- security/analyzer/static_analyzer.go: dangerous patterns in scripts. `find` are the first positions
-- of the matches of an expression, `compile` is regexp.Compile, `trim` strings.TrimSpace on bytes.
pub mod Positions
pub mod Issues
pub mod Examples
use Prim.Native.String
use nflow_runtime.Common.{
  ℕ, zero, suc, ◌+◌, ◌-◌, String, Bool, true, false, not, ◌&&◌, ◌||◌, Option, none, some, List, [],
  ◌∷◌, ◌++◌, length, take, drop, ltb, leb, ◌==◌, if◌then◌else◌, str_eq,
}
use nflow_runtime.Common.Indexed.{get_elem?}
use nflow_runtime.Security.{Bytes, bytes}

abbrev pub severity_high : String
severity_high = "high"

abbrev pub severity_medium : String
severity_medium = "medium"

abbrev pub severity_low : String
severity_low = "low"

pub record SecurityIssue : Type 0 where
  pub kind : String
  pub severity : String
  pub description : String
  pub line : ℕ
  pub column : ℕ
  pub snippet : Bytes

pub record SecurityPattern (R : Type 0) : Type 0 where
  pub name : String
  pub regex : R
  pub severity : String
  pub description : String

-- The patterns of `NewStaticAnalyzer`; `regex` gives the compiled expression of each.
unfoldable pub new_static_analyzer : {R : Type 0} → (regex : String → R) → List (SecurityPattern R)
new_static_analyzer {R} regex =
    pattern "eval_usage" severity_high "Direct eval() usage can execute arbitrary code"
    ∷ pattern "function_constructor" severity_high
        "Function constructor can create arbitrary functions"
    ∷ pattern "file_system_access" severity_high "Attempting to access file system"
    ∷ pattern "child_process" severity_high "Attempting to spawn child processes"
    ∷ pattern "network_access" severity_medium "Attempting network access"
    ∷ pattern "infinite_loop" severity_medium "Potential infinite loop detected"
    ∷ pattern "global_assignment" severity_medium "Modifying global scope"
    ∷ pattern "dangerous_regex" severity_low "Complex regex that might cause ReDoS"
    ∷ pattern "dynamic_require" severity_medium "Dynamic require with non-literal argument"
    ∷ pattern "buffer_constructor" severity_low "Deprecated Buffer constructor usage"
    ∷ []
  where
    pattern : (name severity description : String) → SecurityPattern R
    pattern name severity description = record {
      name = name;
      regex = regex name;
      severity = severity;
      description = description;
    }

-- The loop of `getLineAndColumn`, over the bytes before the position.
unfoldable pub count_position : Bytes → (line column : ℕ) → ℕ × ℕ
count_position [] line column = (line, column)
count_position (b ∷ bs) line column =
    let newline = count_position bs (line + 1) 1 in
    let same_line = count_position bs line (column + 1) in if b == 10 then newline else same_line

unfoldable pub get_line_and_column : Bytes → ℕ → ℕ × ℕ
unfolding count_position
get_line_and_column s position = count_position (take position s) 1 1

unfoldable pub cons_line : ℕ → List Bytes → List Bytes
cons_line b [] = (b ∷ []) ∷ []
cons_line b (line ∷ lines) = (b ∷ line) ∷ lines

-- strings.Split(script, "\n")
unfoldable pub split_lines : Bytes → List Bytes
unfolding cons_line
split_lines [] = [] ∷ []
split_lines (b ∷ bs) = let rest = split_lines bs in if b == 10 then [] ∷ rest else cons_line b rest

-- `s[start:end]`, none for a panic
unfoldable pub slice : Bytes → (start end : ℕ) → Option Bytes
slice s start end =
    if leb start end && leb end (length s) then some (take (end - start) (drop start s)) else none

-- `extractSnippet` in a line, with the ellipses
unfoldable pub snippet_of : (trim : Bytes → Bytes) → Bytes → (column : ℕ) → Option Bytes
unfolding slice bytes
snippet_of trim line column =
    let start = column - 40 in
    let end = if ltb (length line) (column + 40) then length line else column + 40 in
    elim (slice line start end) [
      | none ↦ none
      | some part ↦
          let head = if ltb 0 start then bytes "..." ++ part else part in
          some (trim (if ltb end (length line) then head ++ bytes "..." else head))
    ]

-- A negative line index is `none`.
unfoldable pub extract_snippet : (trim : Bytes → Bytes) → List Bytes → Option ℕ → ℕ → Option Bytes
unfolding snippet_of
extract_snippet trim lines none column = some []
extract_snippet trim lines (some index) column = elim (get_elem? lines index) [
  | none ↦ some []
  | some line ↦ snippet_of trim line column
]

-- line - 1
unfoldable pub index_of_line : ℕ → Option ℕ
index_of_line zero = none
index_of_line (suc line) = some line

unfoldable pub has_high_severity_issues : List SecurityIssue → Bool
has_high_severity_issues [] = false
has_high_severity_issues (issue ∷ issues) =
    str_eq issue.severity severity_high || has_high_severity_issues issues

unfoldable pub is_listed : String → List String → Bool
is_listed s [] = false
is_listed s (t ∷ ts) = str_eq t s || is_listed s ts

-- The loop of `FilterBySeverity`.
unfoldable pub keep_listed : List String → List SecurityIssue → List SecurityIssue
unfolding is_listed
keep_listed severities [] = []
keep_listed severities (issue ∷ issues) =
    let rest = keep_listed severities issues in
    if is_listed issue.severity severities then issue ∷ rest else rest

unfoldable pub filter_by_severity : List SecurityIssue → List String → List SecurityIssue
unfolding keep_listed
filter_by_severity issues [] = issues
filter_by_severity issues (s ∷ ss) = keep_listed (s ∷ ss) issues

module _ {R : Type 0} where
  -- `RemovePattern`: the first pattern of this name goes.
  unfoldable pub remove_pattern :
      List (SecurityPattern R) → String → List (SecurityPattern R) × Bool
  remove_pattern [] name = ([], false)
  remove_pattern (p ∷ ps) name =
      let (rest, removed) = remove_pattern ps name in
      if str_eq p.name name then (ps, true) else (p ∷ rest, removed)

  unfoldable pub add_pattern :
      (compile : String → Option R)
      → List (SecurityPattern R)
      → (name pattern severity description : String) → Option (List (SecurityPattern R))
  add_pattern compile ps name pattern severity description = elim (compile pattern) [
    | none ↦ none
    | some regex ↦ some (
        ps
        ++ (record { name = name; regex = regex; severity = severity; description = description }
            ∷ []))
  ]

module _ {R : Type 0} (find : R → Bytes → List ℕ) (trim : Bytes → Bytes) where
  unfoldable pub issue_at :
      SecurityPattern R → (script : Bytes) → (position : ℕ) → Option SecurityIssue
  unfolding get_line_and_column extract_snippet split_lines index_of_line
  issue_at p script position =
      let (line, column) = get_line_and_column script position in
      elim (extract_snippet trim (split_lines script) (index_of_line line) column) [
        | none ↦ none
        | some snippet ↦ some (record {
          kind = p.name;
          severity = p.severity;
          description = p.description;
          line = line;
          column = column;
          snippet = snippet;
        })
      ]

  -- The loop over the matches of a pattern, before the issues `later`; none is a panic.
  unfoldable pub issues_at :
      SecurityPattern R
      → (script : Bytes) → List ℕ
      → Option (List SecurityIssue)
      → Option (List SecurityIssue)
  unfolding issue_at
  issues_at p script [] later = later
  issues_at p script (position ∷ positions) later = elim (issue_at p script position) [
    | none ↦ none
    | some issue ↦ elim (issues_at p script positions later) [
      | none ↦ none
      | some issues ↦ some (issue ∷ issues)
    ]
  ]

  unfoldable pub issues_of :
      List (SecurityPattern R) → (script : Bytes) → Option (List SecurityIssue)
  unfolding issues_at
  issues_of [] script = some []
  issues_of (p ∷ ps) script = issues_at p script (find p.regex script) (issues_of ps script)

  unfoldable pub analyze_script :
      List (SecurityPattern R) → (script : Bytes) → Option (List SecurityIssue)
  unfolding issues_of
  analyze_script ps [] = some []
  analyze_script ps (b ∷ bs) = issues_of ps (b ∷ bs)
