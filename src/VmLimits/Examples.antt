-- ===== src/VmLimits/Examples.antt =====
-- The theorems about limits at a tracker that reads memory at every third check.
use nflow_runtime.Common.{ℕ, ◌+◌, ◌%◌, ◌<◌, ◌≡◌, refl, false, some, List, [], ◌∷◌, arith}
use nflow_runtime.VmLimits.{
  VmResourceLimits, VmResourceTracker, new_vm_resource_tracker, check_limits, check_counted,
  monitor_limits, is_over_operations, is_over_memory, is_over_time, uses_more,
}
use nflow_runtime.VmLimits.Checks.{monitor_limits-max_memory}

abbrev limits : VmResourceLimits
limits = record {
  max_memory_bytes = 100;
  max_execution_time = 50;
  max_operations = 4;
  max_stack_depth = 10;
  check_interval = 3;
}

abbrev tracker : VmResourceTracker
tracker = new_vm_resource_tracker limits 1000 0

-- Three readings, with too much memory in the first two.
abbrev ticks : List (ℕ × ℕ)
ticks = (1200, 10) ∷ (1150, 20) ∷ []

abbrev checked : VmResourceTracker
checked = record tracker { operation_count = 2 }

lets_run : monitor_limits tracker ticks ≡ some (false, checked)
unfolding monitor_limits check_limits check_counted is_over_operations is_over_memory is_over_time
    uses_more new_vm_resource_tracker
lets_run = refl

monitor_limits-max_memory_example : 0 % 3 + 2 < 3
unfolding new_vm_resource_tracker uses_more
monitor_limits-max_memory_example =
    monitor_limits-max_memory tracker checked ticks (omega arith) (omega arith) (refl, (refl, tt))
      lets_run
