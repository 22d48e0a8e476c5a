-- ===== src/Security/Analyzer/Positions.antt =====
-- Where a match is reported.
use nflow_runtime.Common.{
  ℕ, zero, suc, ◌+◌, ◌≤◌, ◌≡◌, refl, sym, ap, ◌∙◌, inl, inr, true, false, some, List, [], ◌∷◌,
  length, take, ◌==◌, if◌then◌else◌, arith, Bool-cases,
}
use nflow_runtime.Common.Indexed.{get_elem?}
use nflow_runtime.Security.{Bytes}
use nflow_runtime.Security.Analyzer.{count_position, get_line_and_column, cons_line, split_lines}

-- The position `p` of `s`, counted from `line` and `column`, and the line that holds it.
record IsPlaced (s : Bytes) (p line column : ℕ) : Type 0 where
  index : ℕ
  offset : ℕ
  content : Bytes
  listed : get_elem? (split_lines s) index ≡ some content
  line_is : (count_position (take p s) line column).0 ≡ line + index
  column_is :
      (count_position (take p s) line column).1
      ≡ (if index == 0 then column + offset else 1 + offset)
  within : offset ≤ length content
  byte_is : (b : ℕ) → get_elem? s p ≡ some b → (b == 10) ≡ false → get_elem? content offset ≡ some b

split_lines-cons :
    (s : Bytes) → (first : Bytes) × (rest : List Bytes) × (split_lines s ≡ first ∷ rest)
unfolding split_lines cons_line
split_lines-cons [] = ([], [], refl)
split_lines-cons (b ∷ bs) =
    let (first, rest, e) = split_lines-cons bs in
    elim (Bool-cases (b == 10)) [
      | inl f ↦ ([], split_lines bs, ground (arith, f))
      | inr f ↦ (b ∷ first, rest, ground (arith, e, f))
    ]

split_lines-newline :
    (b : ℕ) (bs : Bytes) → (b == 10) ≡ true → split_lines (b ∷ bs) ≡ [] ∷ split_lines bs
unfolding split_lines
split_lines-newline b bs e = ground (arith, e)

split_lines-byte :
    (b : ℕ) (bs first : Bytes) (rest : List Bytes)
    → (b == 10) ≡ false
    → split_lines bs ≡ first ∷ rest
    → split_lines (b ∷ bs) ≡ (b ∷ first) ∷ rest
unfolding split_lines cons_line
split_lines-byte b bs first rest e f = ground (arith, e, f)

count_position-newline :
    (b : ℕ) (bs : Bytes) (line column : ℕ)
    → (b == 10) ≡ true
    → count_position (b ∷ bs) line column ≡ count_position bs (line + 1) 1
unfolding count_position
count_position-newline b bs line column e = ground (arith, e)

count_position-byte :
    (b : ℕ) (bs : Bytes) (line column : ℕ)
    → (b == 10) ≡ false
    → count_position (b ∷ bs) line column ≡ count_position bs line (column + 1)
unfolding count_position
count_position-byte b bs line column e = ground (arith, e)

get_elem?-later :
    (x y : Bytes) (xs : List Bytes) (i : ℕ)
    → (i == 0) ≡ false
    → get_elem? (x ∷ xs) i ≡ get_elem? (y ∷ xs) i
get_elem?-later x y xs zero e = absurd (ground (arith, e))
get_elem?-later x y xs (suc i) e = refl

count_position-nil : (line column : ℕ) → count_position [] line column ≡ (line, column)
unfolding count_position
count_position-nil line column = refl

nil-IsPlaced : (p line column : ℕ) → Path Bytes (take p []) [] → IsPlaced [] p line column
unfolding split_lines
nil-IsPlaced p line column e = record {
  index = 0;
  offset = 0;
  content = [];
  listed = refl;
  line_is = rw (e, count_position-nil line column) (omega arith);
  column_is = rw (e, count_position-nil line column) (ground arith);
  within = omega arith;
  byte_is = λ b f g. absurd (ground (arith, f));
}

count_position-IsPlaced : (s : Bytes) (p line column : ℕ) → IsPlaced s p line column
count_position-IsPlaced [] zero line column = nil-IsPlaced zero line column refl
count_position-IsPlaced [] (suc p) line column = nil-IsPlaced (suc p) line column refl
count_position-IsPlaced (b ∷ bs) zero line column = elim (Bool-cases (b == 10)) [
  | inl f ↦ record {
    index = 0;
    offset = 0;
    content = [];
    listed = rw (split_lines-newline b bs f) refl;
    line_is = rw (count_position-nil line column) (omega arith);
    column_is = rw (count_position-nil line column) (ground arith);
    within = omega arith;
    byte_is = λ c e g. absurd (ground (arith, e, f, g));
  }
  | inr f ↦
      let (first, rest, e) = split_lines-cons bs in
      record {
        index = 0;
        offset = 0;
        content = b ∷ first;
        listed = rw (split_lines-byte b bs first rest f e) refl;
        line_is = rw (count_position-nil line column) (omega arith);
        column_is = rw (count_position-nil line column) (ground arith);
        within = omega arith;
        byte_is = λ c g h. g;
      }
]
count_position-IsPlaced (b ∷ bs) (suc p) line column = elim (Bool-cases (b == 10)) [
  | inl f ↦
      let later = count_position-IsPlaced bs p (line + 1) 1 in
      let counted = count_position-newline b (take p bs) line column f in
      record {
        index = suc later.index;
        offset = later.offset;
        content = later.content;
        listed = rw (split_lines-newline b bs f) (later.listed);
        line_is = rw (counted) (omega (arith, later.line_is));
        column_is = rw (counted) (ground (arith, later.column_is));
        within = later.within;
        byte_is = later.byte_is;
      }
  | inr f ↦
      let later = count_position-IsPlaced bs p line (column + 1) in
      let counted = count_position-byte b (take p bs) line column f in
      let (first, rest, e) = split_lines-cons bs in
      let lines = split_lines-byte b bs first rest f e in
      elim (Bool-cases (later.index == 0)) [
        | inl g ↦
            let same : later.index ≡ 0 = ground (arith, g) in
            let first_is : get_elem? (split_lines bs) 0 ≡ some later.content =
              ap (get_elem? (split_lines bs)) (sym same) ∙ later.listed in
            record {
              index = 0;
              offset = suc later.offset;
              content = b ∷ later.content;
              listed = rw (lines) (ground (arith, e, first_is));
              line_is = rw (counted) (omega (arith, later.line_is, same));
              column_is = rw (counted) (ground (arith, later.column_is, g));
              within = omega (arith, later.within);
              byte_is = later.byte_is;
            }
        | inr g ↦ record {
          index = later.index;
          offset = later.offset;
          content = later.content;
          listed =
              rw (lines)
                (get_elem?-later (b ∷ first) first rest later.index g ∙ rw⁻¹ (e) later.listed);
          line_is = rw (counted) (omega (arith, later.line_is));
          column_is = rw (counted) (ground (arith, later.column_is, g));
          within = later.within;
          byte_is = later.byte_is;
        }
      ]
]

-- A byte of the script that is no newline stands at the reported line and column, both counted from
-- 1, of the lines into which the script is split.
pub get_line_and_column-split_lines :
    (s : Bytes) (position b : ℕ)
    → get_elem? s position ≡ some b
    → (b == 10) ≡ false
    → (index : ℕ) × (offset : ℕ) × (content : Bytes) × (get_line_and_column s position
        ≡ (index + 1, offset + 1))
      × (get_elem? (split_lines s) index ≡ some content)
      × (get_elem? content offset ≡ some b)
unfolding get_line_and_column
get_line_and_column-split_lines s position b e f =
    let h = count_position-IsPlaced s position 1 1 in
    (
      h.index,
      h.offset,
      h.content,
      ground (arith, h.line_is, h.column_is),
      h.listed,
      h.byte_is b e f,
    )

-- The reported line is one of the script's, and the column at most one past its end.
pub get_line_and_column-within :
    (s : Bytes) (position : ℕ)
    → (index : ℕ) × (content : Bytes) × ((get_line_and_column s position).0 ≡ suc index)
      × (get_elem? (split_lines s) index ≡ some content)
      × ((get_line_and_column s position).1 ≤ length content + 1)
unfolding get_line_and_column
get_line_and_column-within s position =
    let h = count_position-IsPlaced s position 1 1 in
    (h.index, h.content, omega (arith, h.line_is), h.listed, ground (arith, h.column_is, h.within))
