-- ===== src/Common/Dict.antt =====
-- Go's `map[string]V`, as an association list. The order of the list stands for the order, not
-- fixed by Go, in which `range` visits the keys.
use Prim.Native.Nat.{◌+◌}
use Prim.Native.String.{String}
use mathlib.Core.Path.{◌≡◌, refl}
use mathlib.Core.Bool.{Bool}
use mathlib.Core.Option.{Option, none, some}
use mathlib.Core.List.{List, [], ◌∷◌}
use native.Mathlib.Omega.{arith}
use text.Mathlib.Text.{◌==◌}
use text.Mathlib.TextEquality.{eq_iff}
use nflow_runtime.Common.Tests.{if◌then◌else◌}
use nflow_runtime.Common.Lists.{length}

abbrev pub Dict {ℓ} : Type ℓ → Type ℓ
Dict V = List (String × V)

module _ {ℓ} {V : Type ℓ} where
  unfoldable pub lookup : String → Dict V → Option V
  lookup key [] = none
  lookup key ((other, value) ∷ dict) = if other == key then some value else lookup key dict

  unfoldable pub insert : String → V → Dict V → Dict V
  insert key value [] = (key, value) ∷ []
  insert key value ((other, held) ∷ dict) =
      if other == key then (key, value) ∷ dict else (other, held) ∷ insert key value dict

  unfoldable pub delete : String → Dict V → Dict V
  delete key [] = []
  delete key ((other, held) ∷ dict) =
      if other == key then delete key dict else (other, held) ∷ delete key dict

  -- `for k, v := range m { if !keep(k, v) { delete(m, k) } }`
  unfoldable pub retain : (V → Bool) → Dict V → Dict V
  retain keep [] = []
  retain keep ((other, held) ∷ dict) =
      if keep held then (other, held) ∷ retain keep dict else retain keep dict

  unfoldable pub keys : Dict V → List String
  keys [] = []
  keys ((other, held) ∷ dict) = other ∷ keys dict

  -- No key stands twice.
  abbrev pub IsDict : Dict V → Type ℓ
  IsDict [] = Unit
  IsDict ((other, held) ∷ dict) = (lookup other dict ≡ none) × IsDict dict

  pub lookup-insert :
      (key other : String) (value : V) (dict : Dict V)
      → lookup other (insert key value dict)
        ≡ (if key == other then some value else lookup other dict)
  unfolding lookup insert
  lookup-insert key other value [] = refl
  lookup-insert key other value ((first, held) ∷ dict) = ground (
    arith,
    lookup-insert key other value dict,
    eq_iff first other,
    eq_iff first key,
    eq_iff key other,
  )

  pub lookup-delete :
      (key other : String) (dict : Dict V)
      → lookup other (delete key dict) ≡ (if key == other then none else lookup other dict)
  unfolding lookup delete
  lookup-delete key other [] = ground arith
  lookup-delete key other ((first, held) ∷ dict) =
      ground (
        arith,
        eq_iff key other,
        eq_iff first key,
        eq_iff first other,
        lookup-delete key other dict,
      )

  abbrev pub filter : (V → Bool) → Option V → Option V
  filter keep none = none
  filter keep (some value) = if keep value then some value else none

  retain-absent :
      (keep : V → Bool) (other : String) (dict : Dict V)
      → lookup other dict ≡ none
      → lookup other (retain keep dict) ≡ none
  unfolding lookup retain
  retain-absent keep other [] h = refl
  retain-absent keep other ((first, held) ∷ dict) h = ground (arith, retain-absent keep other dict)

  pub lookup-retain :
      (keep : V → Bool) (other : String) (dict : Dict V)
      → IsDict dict
      → lookup other (retain keep dict) ≡ filter keep (lookup other dict)
  unfolding lookup retain
  lookup-retain keep other [] h = refl
  lookup-retain keep other ((first, held) ∷ dict) (fresh, h) =
      ground
        (arith, eq_iff first other, lookup-retain keep other dict h, retain-absent keep other dict)

  pub insert-IsDict :
      (key : String) (value : V) (dict : Dict V) → IsDict dict → IsDict (insert key value dict)
  unfolding insert lookup
  insert-IsDict key value [] h = (refl, tt)
  insert-IsDict key value ((first, held) ∷ dict) (fresh, h) = ground (
    arith,
    eq_iff first key,
    eq_iff key first,
    insert-IsDict key value dict h,
    lookup-insert key first value dict,
  )

  pub delete-IsDict : (key : String) (dict : Dict V) → IsDict dict → IsDict (delete key dict)
  unfolding delete
  delete-IsDict key [] h = tt
  delete-IsDict key ((first, held) ∷ dict) (fresh, h) =
      ground (arith, eq_iff first key, delete-IsDict key dict h, lookup-delete key first dict)

  pub retain-IsDict : (keep : V → Bool) (dict : Dict V) → IsDict dict → IsDict (retain keep dict)
  unfolding retain
  retain-IsDict keep [] h = tt
  retain-IsDict keep ((first, held) ∷ dict) (fresh, h) =
      ground (arith, retain-IsDict keep dict h, retain-absent keep first dict fresh)

  pub length-insert :
      (key : String) (value : V) (dict : Dict V)
      → length (insert key value dict)
        ≡ length dict + (elim (lookup key dict) [ none ↦ 1 | some _ ↦ 0 ])
  unfolding insert lookup
  length-insert key value [] = refl
  length-insert key value ((first, held) ∷ dict) = ground (arith, length-insert key value dict)

  pub delete-absent :
      (key : String) (dict : Dict V) → lookup key dict ≡ none → delete key dict ≡ dict
  unfolding delete lookup
  delete-absent key [] h = refl
  delete-absent key ((first, held) ∷ dict) h = ground (arith, delete-absent key dict)

  pub length-delete :
      (key : String) (dict : Dict V)
      → IsDict dict
      → length (delete key dict) + (elim (lookup key dict) [ none ↦ 0 | some _ ↦ 1 ]) ≡ length dict
  unfolding delete lookup
  length-delete key [] h = refl
  length-delete key ((first, held) ∷ dict) (fresh, h) =
      ground (arith, eq_iff first key, length-delete key dict h, ap-length dict)
    where
      ap-length : (n : Dict V) → lookup key n ≡ none → length (delete key n) ≡ length n
      ap-length n e = rw (delete-absent key n e)
