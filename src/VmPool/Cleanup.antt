-- ===== src/VmPool/Cleanup.antt =====
-- The rotation of `cleanupIdleVMs` against its purpose: keep the instances that are not idle, in
-- order, and count the others.
use nflow_runtime.Common.{
  ℕ, ◌+◌, ◌≡◌, refl, ap, some, List, [], ◌∷◌, ◌++◌, arith, if◌then◌else◌, length, Bool-cases, inl,
  inr, append_assoc, append-nil, add-zero, zero-add, add_assoc,
}
use nflow_runtime.VmPool.{
  VmInstance, VmManager, is_idle, sweep, dec_by, after_sweep, cleanup_idle_vms,
}

module _ {V : Type 0} (now idle_timeout : ℕ) where
  unfoldable pub in_time : List (VmInstance V) → List (VmInstance V)
  in_time [] = []
  in_time (i ∷ is) = if is_idle now idle_timeout i then in_time is else i ∷ in_time is

  unfoldable pub count_idle : List (VmInstance V) → ℕ
  count_idle [] = 0
  count_idle (i ∷ is) = (if is_idle now idle_timeout i then 1 else 0) + count_idle is

  pub length-in_time : (is : List (VmInstance V)) → length (in_time is) + count_idle is ≡ length is
  unfolding in_time count_idle
  length-in_time [] = refl
  length-in_time (i ∷ is) = ground (arith, length-in_time is)

  sweep-in_time :
      (is seen : List (VmInstance V)) (removed : ℕ)
      → sweep (length is) now idle_timeout (is ++ seen) removed
        ≡ (seen ++ in_time is, some (removed + count_idle is))
  unfolding sweep in_time count_idle
  sweep-in_time [] seen removed = simp (append-nil, add-zero)
  sweep-in_time (i ∷ is) seen removed = elim (Bool-cases (is_idle now idle_timeout i)) [
    | inl idle ↦
        rw (idle, sweep, in_time, count_idle)
          (simp (sweep-in_time is seen (removed + 1), add_assoc))
    | inr live ↦
        rw (live, sweep, in_time, count_idle)
          (simp (append_assoc, sweep-in_time is (seen ++ i ∷ []) removed, zero-add))
  ]

-- One pass keeps the instances that are not idle, in order, and lowers `available` by the number of
-- those that it drops; nothing else changes.
pub cleanup_idle_vms_lem :
    {V : Type 0} (m : VmManager V) (now idle_timeout : ℕ)
    → cleanup_idle_vms m now idle_timeout ≡ record m {
      pool = in_time now idle_timeout m.pool;
      stats = record (m.stats) {
        available = dec_by (count_idle now idle_timeout m.pool) m.stats.available;
      };
    }
unfolding cleanup_idle_vms after_sweep
cleanup_idle_vms_lem m now idle_timeout =
    ap (after_sweep m) (rw (append-nil, zero-add) at (sweep-in_time now idle_timeout m.pool [] 0))
