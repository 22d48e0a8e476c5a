-- ===== src/VmLimits.antt =====
-- engine/vm_limits.go: the limits of a script machine. Times are nanoseconds, memory is a number of
-- bytes as the Go runtime reports it, below 2 ^ 64. A limit that is not positive is 0 here.
pub mod Checks
pub mod Examples
use nflow_runtime.Common.{
  ℕ, zero, suc, ◌+◌, ◌-◌, ◌*◌, ◌%◌, ◌^◌, String, Bool, true, false, not, ◌&&◌, ◌||◌, Option, none,
  some, List, [], ◌∷◌, ltb, ◌==◌, if◌then◌else◌, str_eq,
}

pub record VmResourceLimits : Type 0 where
  pub max_memory_bytes : ℕ
  pub max_execution_time : ℕ
  pub max_operations : ℕ
  pub max_stack_depth : ℕ
  pub check_interval : ℕ

abbrev pub default_vm_resource_limits : VmResourceLimits
default_vm_resource_limits = record {
  max_memory_bytes = 134_217_728;
  max_execution_time = 30_000_000_000;
  max_operations = 10_000_000;
  max_stack_depth = 1000;
  check_interval = 1000;
}

-- `cancelled` tells whether the context is done.
pub record VmResourceTracker : Type 0 where
  pub start_time : ℕ
  pub operation_count : ℕ
  pub check_interval : ℕ
  pub limits : VmResourceLimits
  pub cancelled : Bool
  pub memory_baseline : ℕ
  pub interrupted : Bool

unfoldable pub is_resource_limit_error : Option String → Bool
is_resource_limit_error none = false
is_resource_limit_error (some e) =
    str_eq e "memory limit exceeded"
    || str_eq e "execution time limit exceeded"
    || str_eq e "operation limit exceeded"
    || str_eq e "execution interrupted"
    || str_eq e "RuntimeError: execution terminated"

unfoldable pub new_vm_resource_tracker : VmResourceLimits → (alloc now : ℕ) → VmResourceTracker
new_vm_resource_tracker limits alloc now = record {
  start_time = now;
  operation_count = 0;
  check_interval = limits.check_interval;
  limits = limits;
  cancelled = false;
  memory_baseline = alloc;
  interrupted = false;
}

-- `int64(m.Alloc - t.memoryBaseline) > limit`: the difference wraps around, and is negative as an
-- int64 from 2 ^ 63 on.
unfoldable pub uses_more : (alloc baseline limit : ℕ) → Bool
uses_more alloc baseline limit =
    let difference = (alloc + 2 ^ 64 - baseline) % 2 ^ 64 in
    ltb difference (2 ^ 63) && ltb limit difference

unfoldable pub interrupt : VmResourceTracker → VmResourceTracker
interrupt t = record t { interrupted = true }

unfoldable pub is_over_operations : VmResourceTracker → Bool
is_over_operations t =
    ltb 0 t.limits.max_operations && ltb t.limits.max_operations t.operation_count

unfoldable pub is_over_memory : VmResourceTracker → (alloc : ℕ) → Bool
unfolding uses_more
is_over_memory t alloc =
    (t.operation_count % t.check_interval == 0)
    && ltb 0 t.limits.max_memory_bytes
    && uses_more alloc t.memory_baseline t.limits.max_memory_bytes

unfoldable pub is_over_time : VmResourceTracker → (now : ℕ) → Bool
is_over_time t now =
    ltb 0 t.limits.max_execution_time && ltb t.limits.max_execution_time (now - t.start_time)

-- What follows the increment of the counter; `none` is the panic of a division by zero.
unfoldable pub check_counted :
    VmResourceTracker → (alloc now : ℕ) → Option (Bool × VmResourceTracker)
check_counted t alloc now =
    if is_over_operations t
    then some (true, interrupt t)
    else if t.check_interval == 0
    then none
    else if is_over_memory t alloc
    then some (true, interrupt t)
    else if is_over_time t now
    then some (true, interrupt t)
    else if t.cancelled
    then some (true, interrupt t)
    else some (false, t)

unfoldable pub check_limits :
    VmResourceTracker → (alloc now : ℕ) → Option (Bool × VmResourceTracker)
check_limits t alloc now =
    if t.interrupted
    then some (true, t)
    else check_counted (record t { operation_count = t.operation_count + 1 }) alloc now

-- The timer of `watchTimeout`
unfoldable pub time_out : VmResourceTracker → VmResourceTracker
time_out t = record t { interrupted = true; cancelled = true }

unfoldable pub stop : VmResourceTracker → VmResourceTracker
stop t = record t { cancelled = true }

-- The limits that the configuration sets; 0 leaves the default.
unfoldable pub get_limits_from_config :
    (max_memory_mb max_execution_seconds max_operations : ℕ) → VmResourceLimits
get_limits_from_config max_memory_mb max_execution_seconds max_operations =
    let limits = default_vm_resource_limits in
    record limits {
      max_memory_bytes =
          if ltb 0 max_memory_mb then max_memory_mb * 1024 * 1024 else limits.max_memory_bytes;
      max_execution_time =
          if ltb 0 max_execution_seconds
          then max_execution_seconds * 1_000_000_000
          else limits.max_execution_time;
      max_operations = if ltb 0 max_operations then max_operations else limits.max_operations;
    }

-- `monitorLimits` over the readings of its ticks, until the first check that says stop: `none` is a
-- panic, and `some true` the interrupt of the machine. The end of the context ends the list.
unfoldable pub monitor_limits : VmResourceTracker → List (ℕ × ℕ) → Option (Bool × VmResourceTracker)
monitor_limits t [] = some (false, t)
monitor_limits t ((alloc, now) ∷ ticks) = elim (check_limits t alloc now) [
  | none ↦ none
  | some (true, t') ↦ some (true, t')
  | some (false, t') ↦ monitor_limits t' ticks
]
