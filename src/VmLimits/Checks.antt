-- ===== src/VmLimits/Checks.antt =====
-- When the checks of a tracker stop a script.
use native.Mathlib.Nat.{suc-mod, mod-eq_of_lt, mod-lt, mod_self}
use nflow_runtime.Common.{
  ℕ, suc, ◌+◌, ◌%◌, ◌≤◌, ◌<◌, ◌≡◌, ◌≢◌, sym, ap, ◌∙◌, inl, inr, true, false, some, List, [], ◌∷◌,
  arith, ltb, length, Bool-cases, Option-cases, All,
}
use nflow_runtime.VmLimits.{
  VmResourceTracker, uses_more, interrupt, is_over_operations, is_over_memory, check_counted,
  check_limits, monitor_limits,
}

abbrev pub counted : VmResourceTracker → VmResourceTracker
counted t = record t { operation_count = t.operation_count + 1 }

check_counted-interrupted :
    (t t' : VmResourceTracker) (alloc now : ℕ)
    → check_counted t alloc now ≡ some (true, t')
    → t' ≡ interrupt t
unfolding check_counted
check_counted-interrupted t t' alloc now e = ground (arith, e)

-- Once a check has stopped a script, each later check says so as well.
pub check_limits-interrupted :
    (t t' : VmResourceTracker) (alloc now alloc' now' : ℕ)
    → check_limits t alloc now ≡ some (true, t')
    → check_limits t' alloc' now' ≡ some (true, t')
unfolding check_limits interrupt
check_limits-interrupted t t' alloc now alloc' now' e = elim (Bool-cases t.interrupted) [
  | inl set ↦
      let same : t ≡ t' = ground (arith, e, set) in
      let still : t'.interrupted ≡ true = ap (λ u. u.interrupted) (sym same) ∙ set in
      ground (arith, still)
  | inr unset ↦
      let same = check_counted-interrupted (counted t) t' alloc now (ground (arith, e, unset)) in
      let still : t'.interrupted ≡ true = ap (λ u. u.interrupted) same in ground (arith, still)
]

check_counted-goes_on :
    (t t' : VmResourceTracker) (alloc now : ℕ)
    → check_counted t alloc now ≡ some (false, t')
    → (t ≡ t') × (is_over_operations t ≡ false) × (is_over_memory t alloc ≡ false)
unfolding check_counted
check_counted-goes_on t t' alloc now e = (ground (arith, e), ground (arith, e), ground (arith, e))

-- A check that lets a script go on has counted one operation and found no limit exceeded.
check_limits-goes_on :
    (t t' : VmResourceTracker) (alloc now : ℕ)
    → check_limits t alloc now ≡ some (false, t')
    → (counted t ≡ t')
      × (is_over_operations (counted t) ≡ false)
      × (is_over_memory (counted t) alloc ≡ false)
unfolding check_limits
check_limits-goes_on t t' alloc now e = elim (Bool-cases t.interrupted) [
  | inl set ↦ absurd (ground (arith, e, set))
  | inr unset ↦ check_counted-goes_on (counted t) t' alloc now (ground (arith, e, unset))
]

monitor_limits-next :
    (t t' : VmResourceTracker) (alloc now : ℕ) (ticks : List (ℕ × ℕ))
    → monitor_limits t ((alloc, now) ∷ ticks) ≡ some (false, t')
    → (check_limits t alloc now ≡ some (false, counted t))
      × (monitor_limits (counted t) ticks ≡ some (false, t'))
unfolding monitor_limits
monitor_limits-next t t' alloc now ticks e = elim (Option-cases (check_limits t alloc now)) [
  | inl f ↦ absurd (ground (arith, e, f))
  | inr ((true, u), f) ↦ absurd (ground (arith, e, f))
  | inr ((false, u), f) ↦
      let same = (check_limits-goes_on t u alloc now f).0 in
      (
        f ∙ ap (λ x. some (false, x)) (sym same),
        ap (λ x. monitor_limits x ticks) same ∙ ground (arith, e, f),
      )
]

-- A script that the monitor lets run has been checked at most as often as `max_operations` says, if
-- that is set and had not been passed before.
pub monitor_limits-max_operations :
    (t t' : VmResourceTracker) (ticks : List (ℕ × ℕ))
    → 0 < t.limits.max_operations
    → t.operation_count ≤ t.limits.max_operations
    → monitor_limits t ticks ≡ some (false, t')
    → t.operation_count + length ticks ≤ t.limits.max_operations
unfolding is_over_operations
monitor_limits-max_operations t t' [] set below e = omega (arith, below)
monitor_limits-max_operations t t' ((alloc, now) ∷ ticks) set below e =
    let (first, rest) = monitor_limits-next t t' alloc now ticks e in
    let under = (check_limits-goes_on t (counted t) alloc now first).1 in
    let later =
      monitor_limits-max_operations (counted t) t' ticks set (ground (arith, under, set)) rest in
    omega (arith, later)

suc-mod_small : (n k : ℕ) → 0 < k → suc n % k ≢ 0 → suc n % k ≡ suc (n % k)
suc-mod_small n k positive ne = elim (Bool-cases (ltb (suc (n % k)) k)) [
  | inl small ↦ suc-mod n k ∙ mod-eq_of_lt (ground (arith, small))
  | inr full ↦
      let below = mod-lt n positive in
      let whole : suc (n % k) ≡ k = ground (arith, below, full) in
      absurd (ne (suc-mod n k ∙ ap (λ x. x % k) whole ∙ mod_self k))
]

-- While memory stays over its limit, the monitor lets a script run for less than `check_interval`
-- checks.
pub monitor_limits-max_memory :
    (t t' : VmResourceTracker) (ticks : List (ℕ × ℕ))
    → 0 < t.check_interval
    → 0 < t.limits.max_memory_bytes
    → All (λ tick. uses_more tick.0 t.memory_baseline t.limits.max_memory_bytes ≡ true) ticks
    → monitor_limits t ticks ≡ some (false, t')
    → t.operation_count % t.check_interval + length ticks < t.check_interval
unfolding is_over_memory
monitor_limits-max_memory t t' [] positive set over e =
    let below = mod-lt t.operation_count positive in omega (arith, below)
monitor_limits-max_memory t t' ((alloc, now) ∷ ticks) positive set (first_over, over) e =
    let (first, rest) = monitor_limits-next t t' alloc now ticks e in
    let unseen = (check_limits-goes_on t (counted t) alloc now first).2 in
    let off : suc t.operation_count % t.check_interval ≢ 0 =
      λ zero_mod. ground (arith, unseen, first_over, set, rw plus_one at unseen, zero_mod) in
    let step = suc-mod_small t.operation_count t.check_interval positive off in
    let later : (t.operation_count + 1) % t.check_interval + length ticks < t.check_interval =
      monitor_limits-max_memory (counted t) t' ticks positive set over rest in
    let counted_one = ap (λ n. n % t.check_interval) plus_one in
    omega (arith, later, step, counted_one)
  where
    plus_one : t.operation_count + 1 ≡ suc t.operation_count
    plus_one = omega arith
