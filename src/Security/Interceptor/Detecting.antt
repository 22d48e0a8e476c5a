-- ===== src/Security/Interceptor/Detecting.antt =====
-- Which data is detected.
use nflow_runtime.Common.{
  ℕ, ◌+◌, ◌≤◌, ◌≡◌, refl, ◌⊎◌, inl, inr, Bool, true, ◌&&◌, ◌||◌, List, [], ◌∷◌, length, leb, ◌==◌,
  if◌then◌else◌, arith, Bool-cases, All,
}
use nflow_runtime.Security.{Bytes}
use nflow_runtime.Security.Interceptor.{
  SensitivePattern, Detection, Submatch, Interceptor, clean_number, all_digits,
  is_valid_credit_card, value_of, is_accepted, detection_of, detect_matches, detect_all,
  detect_sensitive_data,
}

abbrev pub is_digit : ℕ → Bool
is_digit b = leb 48 b && leb b 57

-- The digits of a number, and whether it has but digits, spaces and dashes.
unfoldable pub count_digits : Bytes → ℕ
count_digits [] = 0
count_digits (b ∷ bs) = (if is_digit b then 1 else 0) + count_digits bs

unfoldable pub is_written : Bytes → Bool
is_written [] = true
is_written (b ∷ bs) = (is_digit b || b == 32 || b == 45) && is_written bs

all_digits-clean_number : (s : Bytes) → all_digits (clean_number s) ≡ is_written s
unfolding all_digits clean_number is_written
all_digits-clean_number [] = refl
all_digits-clean_number (b ∷ bs) = ground (arith, all_digits-clean_number bs)

length-clean_number : (s : Bytes) → is_written s ≡ true → length (clean_number s) ≡ count_digits s
unfolding clean_number is_written count_digits
length-clean_number [] h = refl
length-clean_number (b ∷ bs) h = ground (arith, h, length-clean_number bs)

-- A card number is valid exactly if it has but digits, spaces and dashes, and 13 to 19 digits.
pub is_valid_credit_card-digits :
    (s : Bytes)
    → is_valid_credit_card s ≡ (is_written s && leb 13 (count_digits s) && leb (count_digits s) 19)
unfolding is_valid_credit_card
is_valid_credit_card-digits s = elim (Bool-cases (is_written s)) [
  | inl e ↦ ground (arith, e, all_digits-clean_number s, length-clean_number s e)
  | inr e ↦ ground (arith, e, all_digits-clean_number s)
]

module _ {R : Type 0} where
  -- A detection that fits a pattern: it has its kind, and a length within its bounds, of which 0 is
  -- none.
  abbrev pub Fits : SensitivePattern R → Detection → Type 0
  Fits p d =
      (d.kind ≡ p.kind)
      × (p.min_length ≤ length d.value)
      × ((p.max_length ≡ 0) ⊎ (length d.value ≤ p.max_length))

  abbrev pub IsFound : List (SensitivePattern R) → Detection → Type 0
  IsFound [] d = ⊥
  IsFound (p ∷ ps) d = Fits p d ⊎ IsFound ps d

  is_accepted-Fits :
      (p : SensitivePattern R) (value : Bytes)
      → is_accepted p value ≡ true
      → Fits p (detection_of p value)
  unfolding is_accepted detection_of
  is_accepted-Fits p value e = (
    refl,
    ground (arith, e),
    elim (Bool-cases (p.max_length == 0)) [
      | inl f ↦ inl (ground (arith, f))
      | inr f ↦ inr (ground (arith, e, f))
    ],
  )

  detect_matches-IsFound :
      (p : SensitivePattern R) (ps : List (SensitivePattern R)) (matches : List Submatch)
      (later : List Detection)
      → All (IsFound (p ∷ ps)) later
      → All (IsFound (p ∷ ps)) (detect_matches p matches later)
  unfolding detect_matches
  detect_matches-IsFound p ps [] later h = h
  detect_matches-IsFound p ps (found ∷ rest) later h =
      let others = detect_matches-IsFound p ps rest later h in
      elim (Bool-cases (is_accepted p (value_of p found))) [
        | inl e ↦ rw (e) (inl (is_accepted-Fits p (value_of p found) e), others)
        | inr e ↦ rw (e) others
      ]

  weaken :
      (p : SensitivePattern R) (ps : List (SensitivePattern R)) (ds : List Detection)
      → All (IsFound ps) ds
      → All (IsFound (p ∷ ps)) ds
  weaken p ps [] h = tt
  weaken p ps (d ∷ ds) (here, h) = (inr here, weaken p ps ds h)

  module _ (find : R → Bytes → List Submatch) where
    detect_all-IsFound :
        (ps : List (SensitivePattern R)) (s : Bytes) → All (IsFound ps) (detect_all find ps s)
    unfolding detect_all
    detect_all-IsFound [] s = tt
    detect_all-IsFound (p ∷ ps) s =
        detect_matches-IsFound p ps (find p.regex s) (detect_all find ps s)
          (weaken p ps (detect_all find ps s) (detect_all-IsFound ps s))

    -- Each detection has the kind of one of the compiled patterns and a length within its bounds, and
    -- the count of detections grows by their number.
    pub detect_sensitive_data-IsFound :
        (sdi : Interceptor R) (s : Bytes)
        → All (IsFound sdi.compiled_patterns) (detect_sensitive_data find sdi s).1
          × ((detect_sensitive_data find sdi s).0.detection_count
              ≡ sdi.detection_count + length (detect_sensitive_data find sdi s).1)
    unfolding detect_sensitive_data
    detect_sensitive_data-IsFound sdi s = (detect_all-IsFound sdi.compiled_patterns s, refl)
