-- ===== src/Common/Text.antt =====
-- What the program uses of Go's package `strings`, on texts as sequences of characters.
use Prim.Native.Char.{Char, code}
use Prim.Native.String.{String}
use mathlib.Core.Bool.{Bool, true, false, ◌&&◌, ◌||◌}
use mathlib.Core.Option
use mathlib.Core.Option.{Option, none, some}
use mathlib.Core.List.{List, [], ◌∷◌}
use Prim.Native.Nat.{ℕ, ◌+◌}
use nflow_runtime.Common.Tests.{leb, if◌then◌else◌, ◌==◌}

-- Unicode's White_Space, which `strings.TrimSpace` removes.
unfoldable pub is_space : ℕ → Bool
is_space c =
    (leb 9 c && leb c 13)
    || c == 32
    || c == 0x85
    || c == 0xa0
    || c == 0x1680
    || (leb 0x2000 c && leb c 0x200a)
    || c == 0x2028
    || c == 0x2029
    || c == 0x202f
    || c == 0x205f
    || c == 0x3000

unfoldable pub is_empty : String → Bool
is_empty String.[] = true
is_empty (String.◌∷◌ ch s) = false

unfoldable pub trim_left : String → String
trim_left String.[] = String.[]
trim_left (String.◌∷◌ ch s) =
    let rest = trim_left s in if is_space (code ch) then rest else String.◌∷◌ ch s

unfoldable pub trim_right : String → String
trim_right String.[] = String.[]
trim_right (String.◌∷◌ ch s) =
    let rest = trim_right s in
    if is_empty rest && is_space (code ch) then String.[] else String.◌∷◌ ch rest

-- strings.TrimSpace
unfoldable pub trim_space : String → String
unfolding trim_left trim_right is_space is_empty
trim_space s = trim_right (trim_left s)

unfoldable pub cons_first : Char → List String → List String
cons_first ch [] = String.◌∷◌ ch String.[] ∷ []
cons_first ch (part ∷ parts) = String.◌∷◌ ch part ∷ parts

-- strings.Split by one character
unfoldable pub split : ℕ → String → List String
unfolding cons_first
split sep String.[] = String.[] ∷ []
split sep (String.◌∷◌ ch s) =
    let rest = split sep s in if code ch == sep then String.[] ∷ rest else cons_first ch rest

-- strings.Contains of one character
unfoldable pub contains : ℕ → String → Bool
contains c String.[] = false
contains c (String.◌∷◌ ch s) = code ch == c || contains c s

-- strings.Count of one character
unfoldable pub count : ℕ → String → ℕ
count c String.[] = 0
count c (String.◌∷◌ ch s) = (if code ch == c then 1 else 0) + count c s

-- s[:strings.Index(s, c)], if there is one
unfoldable pub before_first : ℕ → String → Option String
before_first c String.[] = none
before_first c (String.◌∷◌ ch s) =
    let rest = before_first c s in
    if code ch == c then some String.[] else Option.map (String.◌∷◌ ch) rest

-- s[:strings.LastIndex(s, c)], if there is one
unfoldable pub before_last : ℕ → String → Option String
before_last c String.[] = none
before_last c (String.◌∷◌ ch s) = elim (before_last c s) [
  | some p ↦ some (String.◌∷◌ ch p)
  | none ↦ if code ch == c then some String.[] else none
]

unfoldable pub begins : ℕ → String → Bool
begins c String.[] = false
begins c (String.◌∷◌ ch s) = code ch == c

-- s[:strings.LastIndex(s, cd)] of two characters, if they stand together somewhere
unfoldable pub before_last_pair : (c d : ℕ) → String → Option String
unfolding begins
before_last_pair c d String.[] = none
before_last_pair c d (String.◌∷◌ ch s) = elim (before_last_pair c d s) [
  | some p ↦ some (String.◌∷◌ ch p)
  | none ↦ if code ch == c && begins d s then some String.[] else none
]

-- s[1:]
unfoldable pub tail : String → String
tail String.[] = String.[]
tail (String.◌∷◌ ch s) = s
