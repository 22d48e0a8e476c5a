-- ===== src/Security.antt =====
-- The packages under security/. A Go string that is cut, measured or encrypted is the list of its
-- bytes; a name, which is only compared, is a text. The package regexp is a parameter: `pieces r s`
-- are the pieces of `s` between the matches of `r`, and the matches, from left to right.
pub mod Sanitizer
pub mod Middleware
pub mod Interceptor
pub mod Analyzer
pub mod Encryption
use Prim.Native.Char.{Char, code}
use Prim.Native.String
use nflow_runtime.Common.{
  ℕ, zero, suc, ◌+◌, ◌*◌, ◌/◌, ◌%◌, String, Bool, true, false, ◌||◌, Option, none, some, List, [],
  ◌∷◌, ◌++◌, map, length, ltb, if◌then◌else◌, ◌≡◌,
}

abbrev pub Bytes : Type 0
Bytes = List ℕ

unfoldable pub encode_char : ℕ → Bytes
encode_char c =
    if ltb c 0x80
    then c ∷ []
    else if ltb c 0x800
    then (0xc0 + c / 0x40) ∷ (0x80 + c % 0x40) ∷ []
    else if ltb c 0x10000
    then (0xe0 + c / 0x1000) ∷ (0x80 + (c / 0x40) % 0x40) ∷ (0x80 + c % 0x40) ∷ []
    else (0xf0 + c / 0x40000)
      ∷ (0x80 + (c / 0x1000) % 0x40)
      ∷ (0x80 + (c / 0x40) % 0x40)
      ∷ (0x80 + c % 0x40)
      ∷ []

-- The bytes of a text, in UTF-8.
unfoldable pub bytes : String → Bytes
unfolding encode_char
bytes String.[] = []
bytes (String.◌∷◌ ch s) = encode_char (code ch) ++ bytes s

pub data Piece : Type 0 where
  plain match : Bytes → Piece

unfoldable pub written : Piece → Bytes
written (plain s) = s
written (match s) = s

unfoldable pub join : List Piece → Bytes
unfolding written
join [] = []
join (p ∷ ps) = written p ++ join ps

unfoldable pub count_matches : List Piece → ℕ
count_matches [] = 0
count_matches (plain s ∷ ps) = count_matches ps
count_matches (match s ∷ ps) = suc (count_matches ps)

-- `MatchString`
unfoldable pub any_match : List Piece → Bool
any_match [] = false
any_match (plain s ∷ ps) = any_match ps
any_match (match s ∷ ps) = true

-- `ReplaceAllStringFunc`
unfoldable pub replace_matches : (Bytes → Bytes) → List Piece → Bytes
replace_matches f [] = []
replace_matches f (plain s ∷ ps) = s ++ replace_matches f ps
replace_matches f (match s ∷ ps) = f s ++ replace_matches f ps

-- What is documented of the matches of a text: with the rest they make up the text.
abbrev pub IsSplit : {R : Type 0} → (R → Bytes → List Piece) → Type 0
IsSplit pieces = (r : _) (s : Bytes) → join (pieces r s) ≡ s
