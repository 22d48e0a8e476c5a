-- ===== src/Security/Sanitizer/Batches.antt =====
-- `BatchSanitize` whatever the order in which its workers come to the messages.
use nflow_runtime.Common.{
  ℕ, zero, suc, ◌+◌, ◌-◌, ◌*◌, ◌/◌, ◌≤◌, ◌<◌, ◌≡◌, refl, ap, ◌∙◌, inl, inr, Bool, true, false, ◌||◌,
  Option, none, some, List, [], ◌∷◌, ◌++◌, map, length, ltb, ◌==◌, if◌then◌else◌, arith, Bool-cases,
  Option-cases, if-true,
}
use mathlib.Core.List.{Permᴰ}
use nflow_runtime.Common.Indexed.{get_elem?, set, ext-get_elem?}
use nflow_runtime.Security.{Bytes, Piece}
use nflow_runtime.Security.Sanitizer.{
  LogSanitizer, sanitize, upto, positions_of, batch_positions, blanks, write_all, batch_sanitize,
}
use nflow_runtime.Security.Sanitizer.Trees.{
  with_counts, clean, sanitize-with_counts, sanitize-IsRecounted,
}

abbrev has : ℕ → List ℕ → Bool
has i [] = false
has i (j ∷ js) = (i == j) || has i js

has-append : (i : ℕ) (js ks : List ℕ) → has i (js ++ ks) ≡ (has i js || has i ks)
has-append i [] ks = refl
has-append i (j ∷ js) ks = ground (arith, has-append i js ks)

has-upto : (i start n : ℕ) → start ≤ i → i < start + n → has i (upto start n) ≡ true
unfolding upto
has-upto i start zero h k = absurd (omega (arith, h, k))
has-upto i start (suc n) h k = ground (arith, has-upto i (suc start) n)

has-quarters :
    (n q i : ℕ)
    → i < n
    → has i (upto (0 * q) q ++ upto (1 * q) q ++ upto (2 * q) q ++ upto (3 * q) (n - 3 * q)) ≡ true
has-quarters n q i h =
    let a = upto (0 * q) q in
    let b = upto (1 * q) q in
    let c = upto (2 * q) q in
    let d = upto (3 * q) (n - 3 * q) in
    let one = has-append i (a ++ b ++ c) d in
    let two = has-append i (a ++ b) c in
    let three = has-append i a b in
    elim (Bool-cases (ltb i q)) [
      | inl e ↦
          let here = has-upto i (0 * q) q (omega arith) (ground (arith, e)) in
          ground (arith, one, two, three, here)
      | inr e ↦ elim (Bool-cases (ltb i (2 * q))) [
        | inl f ↦
            let here = has-upto i (1 * q) q (ground (arith, e)) (ground (arith, f)) in
            ground (arith, one, two, three, here)
        | inr f ↦ elim (Bool-cases (ltb i (3 * q))) [
          | inl g ↦
              let here = has-upto i (2 * q) q (ground (arith, f)) (ground (arith, g)) in
              ground (arith, one, two, three, here)
          | inr g ↦
              let here =
                has-upto i (3 * q) (n - 3 * q) (ground (arith, g)) (ground (arith, g, h)) in
              ground (arith, one, two, three, here)
        ]
      ]
    ]

-- Every message is at a position of some worker.
has-batch_positions : (n i : ℕ) → i < n → has i (batch_positions n) ≡ true
unfolding batch_positions positions_of
has-batch_positions n i h = elim (Bool-cases (ltb 100 n)) [
  | inl e ↦ rw (e) (has-quarters n (n / 4) i h)
  | inr e ↦ rw (e) (has-upto i 0 n (omega arith) (omega (arith, h)))
]

has-Permᴰ : {js ks : List ℕ} (i : ℕ) → Permᴰ js ks → has i js ≡ has i ks
has-Permᴰ i Permᴰ.nil = refl
has-Permᴰ i (Permᴰ.cons e p) = ground (arith, e, has-Permᴰ i p)
has-Permᴰ i (Permᴰ.swap e f) = ground (arith, e, f)
has-Permᴰ i (Permᴰ.trans p q) = has-Permᴰ i p ∙ has-Permᴰ i q

get_elem?-set_at :
    (xs : List Bytes) (j i : ℕ) (y : Bytes)
    → get_elem? (set xs j y) i
      ≡ (if i == j then elim (get_elem? xs j) [ none ↦ none | some x ↦ some y ] else get_elem? xs i)
get_elem?-set_at [] j i y = ground arith
get_elem?-set_at (x ∷ xs) zero zero y = ground arith
get_elem?-set_at (x ∷ xs) zero (suc i) y = ground arith
get_elem?-set_at (x ∷ xs) (suc j) zero y = ground arith
get_elem?-set_at (x ∷ xs) (suc j) (suc i) y = ground (arith, get_elem?-set_at xs j i y)

positions-differ :
    (xs : List Bytes) (i j : ℕ) (x : Bytes)
    → get_elem? xs i ≡ some x
    → get_elem? xs j ≡ none
    → (i == j) ≡ false
positions-differ xs i j x e f = elim (Bool-cases (i == j)) [
  | inr q ↦ q
  | inl q ↦
      let same : i ≡ j = ground (arith, q) in absurd (ground (arith, e, f, ap (get_elem? xs) same))
]

get_elem?-bound : (xs : List Bytes) (i : ℕ) (x : Bytes) → get_elem? xs i ≡ some x → i < length xs
get_elem?-bound [] i x e = absurd (ground (arith, e))
get_elem?-bound (y ∷ xs) zero x e = omega arith
get_elem?-bound (y ∷ xs) (suc i) x e = omega (arith, get_elem?-bound xs i x e)

get_elem?-map :
    (f : Bytes → Bytes) (xs : List Bytes) (i : ℕ)
    → get_elem? (map f xs) i ≡ elim (get_elem? xs i) [ none ↦ none | some x ↦ some (f x) ]
get_elem?-map f [] i = refl
get_elem?-map f (x ∷ xs) zero = refl
get_elem?-map f (x ∷ xs) (suc i) = get_elem?-map f xs i

get_elem?-blanks :
    (xs : List Bytes) (i : ℕ)
    → get_elem? (blanks xs) i ≡ elim (get_elem? xs i) [ none ↦ none | some x ↦ some [] ]
unfolding blanks
get_elem?-blanks [] i = refl
get_elem?-blanks (x ∷ xs) zero = refl
get_elem?-blanks (x ∷ xs) (suc i) = get_elem?-blanks xs i

module _ {R : Type 0} (pieces : R → Bytes → List Piece) (ls : LogSanitizer R) where
  write_all-none :
      (messages : List Bytes) (order : List ℕ) (result : List Bytes) (now : LogSanitizer R) (i : ℕ)
      → get_elem? result i ≡ none
      → get_elem? (write_all pieces now messages order result).1 i ≡ none
  unfolding write_all
  write_all-none messages [] result now i h = h
  write_all-none messages (j ∷ order) result now i h = elim (Option-cases (get_elem? messages j)) [
    | inl e ↦ rw (write_all, e) (write_all-none messages order result now i h)
    | inr (m, e) ↦
        let (after, cleaned) = sanitize pieces now m in
        rw (write_all, e)
          (write_all-none messages order (set result j cleaned) after i
            (ground (arith, h, get_elem?-set_at result j i cleaned)))
  ]

  write_all-some :
      (messages : List Bytes) (order : List ℕ) (result : List Bytes) (a b i : ℕ) (m r : Bytes)
      → get_elem? messages i ≡ some m
      → get_elem? result i ≡ some r
      → get_elem? (write_all pieces (with_counts pieces ls a b) messages order result).1 i
        ≡ some (if has i order then clean pieces ls m else r)
  unfolding write_all
  write_all-some messages [] result a b i m r e f = f
  write_all-some messages (j ∷ order) result a b i m r e f =
      elim (Option-cases (get_elem? messages j)) [
        | inl g ↦
            let differ : (i == j) ≡ false = positions-differ messages i j m e g in
            rw (write_all, g)
              (write_all-some messages order result a b i m r e f
                ∙ keeps (i == j) (has i order) differ)
        | inr (found, g) ↦
            let cleaned = sanitize-with_counts pieces ls a b found in
            let (c, d, counts) = sanitize-IsRecounted pieces ls a b found in
            let there = get_elem?-set_at result j i (clean pieces ls found) in
            rw (write_all, g, cleaned, counts)
              (elim (Bool-cases (i == j)) [
                | inl q ↦
                    let same : i ≡ j = ground (arith, q) in
                    let alike : found ≡ m = ground (arith, e, g, ap (get_elem? messages) same) in
                    let filled : get_elem? (set result j (clean pieces ls found)) i
                        ≡ some (clean pieces ls m) =
                      ground (
                        arith,
                        there,
                        q,
                        f,
                        ap (get_elem? result) same,
                        ap (clean pieces ls) alike,
                      ) in
                    write_all-some messages order (set result j (clean pieces ls found)) c d i m
                      (clean pieces ls m) e filled
                    ∙ meets (i == j) (has i order) q
                | inr q ↦
                    write_all-some messages order (set result j (clean pieces ls found)) c d i m r e
                      (ground (arith, there, q, f))
                    ∙ keeps (i == j) (has i order) q
              ])
      ]
    where
      keeps :
          (here later : Bool)
          → here ≡ false
          → Path
              (Option Bytes)
              (some (if later then clean pieces ls m else r))
              (some (if here || later then clean pieces ls m else r))
      keeps true later q = absurd (ground (arith, q))
      keeps false later q = refl

      meets :
          (here later : Bool)
          → here ≡ true
          → Path
              (Option Bytes)
              (some (if later then clean pieces ls m else clean pieces ls m))
              (some (if here || later then clean pieces ls m else r))
      meets true true q = refl
      meets true false q = refl
      meets false later q = absurd (ground (arith, q))

  write_all-map :
      (messages : List Bytes) (order : List ℕ)
      → Permᴰ order (batch_positions (length messages))
      → (write_all pieces ls messages order (blanks messages)).1 ≡ map (clean pieces ls) messages
  write_all-map messages order p = ext-get_elem? _ (map (clean pieces ls) messages) (λ i. at i)
    where
      at :
          (i : ℕ)
          → get_elem? (write_all pieces ls messages order (blanks messages)).1 i
            ≡ get_elem? (map (clean pieces ls) messages) i
      at i = elim (Option-cases (get_elem? messages i)) [
        | inl e ↦
            let blank : get_elem? (blanks messages) i ≡ none =
              ground (arith, e, get_elem?-blanks messages i) in
            let absent = write_all-none messages order (blanks messages) ls i blank in
            ground (arith, e, absent, get_elem?-map (clean pieces ls) messages i)
        | inr (m, e) ↦
            let blank : get_elem? (blanks messages) i ≡ some [] =
              ground (arith, e, get_elem?-blanks messages i) in
            let there =
              write_all-some messages order (blanks messages) ls.logs_processed ls.data_sanitized i
                m [] e blank in
            let visited : has i order ≡ true =
              has-Permᴰ i p
              ∙ has-batch_positions (length messages) i (get_elem?-bound messages i m e) in
            ground (arith, e, there, visited, get_elem?-map (clean pieces ls) messages i)
      ]

  -- Whatever the order in which the four workers of an enabled sanitizer come to the messages (the
  -- one worker of at most 100), `BatchSanitize` gives for each message what `Sanitize` of it alone
  -- gives.
  pub batch_sanitize-map :
      (messages : List Bytes) (order : List ℕ)
      → ls.enabled ≡ true
      → Permᴰ order (batch_positions (length messages))
      → (batch_sanitize pieces ls messages order).1 ≡ map (clean pieces ls) messages
  unfolding batch_sanitize
  batch_sanitize-map [] order on p = refl
  batch_sanitize-map (m ∷ ms) order on p =
      if-true (λ (r : LogSanitizer R × List Bytes). r.1 ≡ map (clean pieces ls) (m ∷ ms)) ls.enabled
        _ on (write_all-map (m ∷ ms) order p)
