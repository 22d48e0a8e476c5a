-- ===== src/Workflow/Paths.antt =====
-- `comparePath` against what a template means.
use nflow_runtime.Common.{
  ℕ, ◌≡◌, refl, ◌↔◌, inl, inr, true, false, Option, none, some, List, [], ◌∷◌, String, arith,
  if◌then◌else◌, ◌==◌, length, Bool-cases, str_eq, ◌||◌,
}
use nflow_runtime.Common.Dict.{lookup, insert, lookup-insert}
use nflow_runtime.Common.Text.{split, is_empty, begins, tail}
use nflow_runtime.Workflow.{Vars, match_terms, compare_path}

-- Term by term: an empty term and a variable match anything, any other term itself.
abbrev pub Matches : List String → List String → Type 0
Matches [] [] = Unit
Matches [] (r ∷ rs) = ⊥
Matches (t ∷ ts) [] = ⊥
Matches (t ∷ ts) (r ∷ rs) = ((is_empty t || begins 58 t || str_eq t r) ≡ true) × Matches ts rs

-- What the terms of a path give the variable `x`: the last term at which it stands wins.
unfoldable pub value_at : String → List String → List String → Option String
value_at x [] rs = none
value_at x (t ∷ ts) [] = none
value_at x (t ∷ ts) (r ∷ rs) =
    let later = value_at x ts rs in
    elim later [
      | some v ↦ some v
      | none ↦ if begins 58 t then (if str_eq (tail t) x then some r else none) else none
    ]

begins-is_empty : (c : ℕ) (t : String) → is_empty t ≡ true → begins c t ≡ false
unfolding is_empty begins
begins-is_empty c String.[] e = refl
begins-is_empty c (String.◌∷◌ ch t) e = ground (arith, e)

match_terms-Matches :
    (ts rs : List String) (vars vars' : Vars)
    → length ts ≡ length rs
    → match_terms ts rs vars ≡ some vars'
    → Matches ts rs
unfolding match_terms
match_terms-Matches [] [] vars vars' same e = tt
match_terms-Matches [] (r ∷ rs) vars vars' same e = ground (arith, same)
match_terms-Matches (t ∷ ts) [] vars vars' same e = ground (arith, same)
match_terms-Matches (t ∷ ts) (r ∷ rs) vars vars' same e = ground (
  arith,
  e,
  same,
  match_terms-Matches ts rs vars vars',
  match_terms-Matches ts rs (insert (tail t) r vars) vars',
)

Matches-match_terms :
    (ts rs : List String) (vars : Vars)
    → Matches ts rs
    → (vars' : Vars) × (match_terms ts rs vars ≡ some vars')
unfolding match_terms
Matches-match_terms [] [] vars h = (vars, refl)
Matches-match_terms [] (r ∷ rs) vars h = absurd h
Matches-match_terms (t ∷ ts) [] vars h = absurd h
Matches-match_terms (t ∷ ts) (r ∷ rs) vars (h, hs) =
    let (v, e) = Matches-match_terms ts rs vars hs in
    let (w, f) = Matches-match_terms ts rs (insert (tail t) r vars) hs in
    elim (Bool-cases (is_empty t)) [
      | inl blank ↦ (v, rw (blank, match_terms) e)
      | inr filled ↦ elim (Bool-cases (begins 58 t)) [
        | inl variable ↦ (w, rw (filled, match_terms, variable) f)
        | inr fixed ↦ (v, rw (filled, match_terms, fixed) (ground (arith, e, h, filled, fixed)))
      ]
    ]

match_terms-value_at :
    (ts rs : List String) (vars vars' : Vars) (x : String)
    → match_terms ts rs vars ≡ some vars'
    → length ts ≡ length rs
    → lookup x vars' ≡ (elim (value_at x ts rs) [ some v ↦ some v | none ↦ lookup x vars ])
unfolding match_terms value_at
match_terms-value_at [] [] vars vars' x e same = ground (arith, e)
match_terms-value_at [] (r ∷ rs) vars vars' x e same = ground (arith, same)
match_terms-value_at (t ∷ ts) [] vars vars' x e same = ground (arith, same)
match_terms-value_at (t ∷ ts) (r ∷ rs) vars vars' x e same = ground (
  arith,
  e,
  same,
  begins-is_empty 58 t,
  lookup-insert (tail t) x r vars,
  match_terms-value_at ts rs vars vars' x,
  match_terms-value_at ts rs (insert (tail t) r vars) vars' x,
)

-- `comparePath` succeeds exactly when the path has as many terms as the template and each term of
-- the template is empty, a variable, or the path's own term.
pub compare_path-Matches :
    (template real : String)
    → ((vars : Vars) × (compare_path template real ≡ some vars)) ↔ (
        (length (split 47 template) ≡ length (split 47 real))
        × Matches (split 47 template) (split 47 real))
unfolding compare_path
compare_path-Matches template real =
    let ts = split 47 template in
    let rs = split 47 real in
    (
      λ (vars, e). elim (Bool-cases (length ts == length rs)) [
        | inl same ↦
            let sizes : length ts ≡ length rs = ground (arith, same) in
            (sizes, match_terms-Matches ts rs [] vars sizes (ground (arith, e, same)))
        | inr differ ↦ absurd (ground (arith, e, differ))
      ],
      λ (same, m).
          let (vars, e) = Matches-match_terms ts rs [] m in (vars, ground (arith, e, same)),
    )

-- The variables of a path that matches: each has the term of the path at its last place in the
-- template, and nothing else is bound.
pub compare_path-value_at :
    (template real : String) (vars : Vars) (x : String)
    → compare_path template real ≡ some vars
    → lookup x vars ≡ value_at x (split 47 template) (split 47 real)
unfolding compare_path lookup
compare_path-value_at template real vars x e =
    let ts = split 47 template in
    let rs = split 47 real in
    elim (Bool-cases (length ts == length rs)) [
      | inl same ↦ ground (
        arith,
        match_terms-value_at ts rs [] vars x (ground (arith, e, same)) (ground (arith, same)),
      )
      | inr differ ↦ absurd (ground (arith, e, differ))
    ]
