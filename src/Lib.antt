-- ===== src/Lib.antt =====
-- nflow-runtime: a server that answers requests by running workflows, graphs of nodes whose steps are
-- scripts and plugins. A request passes the rate limiter, is routed to a workflow by its path and
-- method, gets a process and a pooled script machine, and then runs node after node, while a session
-- carries values between nodes and requests.
--
-- Which file models what:
--   * Common: Go's maps (Common/Dict), counters (Common/Int), texts (Common/Text) and slices by index
--     (Common/Indexed), and lemmas on lists and tests that the others share.
--   * RateLimit: ratelimit/ratelimit.go, ratelimit/middleware.go and the rate limit settings of
--     engine/config.go. `allow_from_bucket` is allowFromBucket, `allow_ip` AllowIP, `cleanup_buckets`
--     cleanupBuckets, `check_limit` checkLimit, `middleware` Middleware. Buckets, Limiters, Waiting,
--     ClientIp, Exclusions and Redis hold what is shown of them, and the models of their own parts.
--   * VmPool: engine/vm_manager.go. `acquire_vm_waiting` is AcquireVM, `acquire_vm` what it does while
--     nobody else uses the pool, `release_vm` ReleaseVM, `new_vm_manager` NewVMManagerWithConfig,
--     `cleanup_idle_vms` cleanupIdleVMs. Capacity, Lifetime, Startup, Cleanup, Isolation and Race hold
--     the theorems.
--   * Process: process/process.go and process/process_repository.go. `w_kill` is WKill, `create_process`
--     CreateProcess, `close` Close, `send` SendCallback. Kill and Registry hold the theorems,
--     Store what the operations are expected to do.
--   * Workflow: model/model.go, engine/playbook.go (`compare_path` is comparePath, `get_workflow`
--     GetWorkflow) and engine/immutable.go (Workflow/Snapshots). `start_next` is the part of run in
--     engine/engine.go that finds the first node. Paths, Routing and NotFound hold theorems.
--   * Engine: engine/engine.go. `execute` is Execute, `step` step, `merge`, `saved` and `finish` its
--     parts; Engine/AuthCode is getCachedAuthCode, and Engine/Helpers the helpers that repeat parts of
--     Execute. Sessions, Ends, Termination and Isolation hold theorems.
--   * Cache: cache/cache.go. `get` is Get, `set_with_ttl` SetWithTTL, `cleanup_expired` a tick of
--     cleanupExpired, `get_or_compute` GetOrCompute. History holds the theorems.
--   * VmLimits: engine/vm_limits.go. `check_limits` is CheckLimits, `monitor_limits` monitorLimits.
--     Checks holds the theorems.
--   * Playbooks: engine/playbook_repository.go. `load_playbook` and the operations around it are the
--     repository's load, its cache, and what it keeps of a failed load; Rebuild, Routes and Caching
--     hold the theorems.
--   * Tracker: engine/tracker.go, TrackerConfig of engine/config.go and the entry that step of
--     engine/engine.go sends. `add_to_batch` is addToBatch, `process_batch` processBatch,
--     `insert_with_retries` its retry loop, `start_tracker` StartTracker. Accounting, Conservation,
--     Losses, Batches, Bounds, Breaker and Retries hold the theorems.
--   * Security: the folder security. Sanitizer is security/sanitizer/log_sanitizer.go, Analyzer
--     security/analyzer/static_analyzer.go, Encryption security/encryption/encryption_service.go,
--     Interceptor security/interceptor/sensitive_data_interceptor.go, and Middleware
--     security/security_middleware.go; each has child modules for its theorems.
--   * Steps: engine/step_goja.go. `run_js` is the Run of StepJS, `babel_transform` babelTransform,
--     `take_slot` and `give_back` the send to semVM and the receive from it. Slots, Semaphore and
--     Caches hold the theorems.
-- Each Examples file has runs at concrete inputs.
--
-- State is passed explicitly: an operation takes the state and returns the new one. Shared objects,
-- the processes, stand in a heap. Operations are steps, as if called alone, and sequences of operations
-- are lists or step relations. Some operations whose parts no lock holds together are taken apart: the
-- test and the registration of AcquireVM in VmPool/Race, its wait for a release in VmPool/Lifetime, the
-- writes of LoadPlaybook in Playbooks/Caching, and the slot that a script takes and gives back in
-- Steps/Semaphore. For other overlaps the theorems say nothing. Time
-- is a number of nanoseconds that each operation takes as an argument; Go's counters that can fall
-- below zero are integers and the other numbers naturals; only VmLimits, where a difference of bytes
-- can wrap around, writes out the width of 64 bits. The order in which Go visits a map is the order of
-- the list that stands for it, and the theorems hold for each order.
--
-- Parameters stand for code that is not in the repository or not modelled: the script machine
-- (create, reset, undefine), the steps' own work, encoding/json's copy of a node, the Redis client,
-- net.ParseIP and net.ParseCIDR, the rows and the answers of the database, regexp, encoding/json,
-- base64, AES-GCM, SHA-256 and the random bytes of the encryption, with the laws that the theorems
-- need as hypotheses, strings.TrimSpace, goja and babel. Texts that the code cuts are lists of bytes.
-- The loop of `execute` runs on fuel, one unit for each round and one for the end; for workflows that
-- only lead forward Engine/Termination says how much is enough, and a workflow with a cycle may run for
-- ever, as in the code. All other loops are structural.
--
-- Not modelled: logs, metrics and tickers, HTTP handlers that only print, the authentication of run
-- and the log session of step, what stands in the entries of the tracker, the steps other than
-- scripts, the session manager, the sandbox of the machines, the database pool, the wrappers of the
-- web framework, the functions set in the machines, and the start of the server.
pub mod Cache
pub mod Common
pub mod Engine
pub mod Playbooks
pub mod Process
pub mod RateLimit
pub mod Security
pub mod Steps
pub mod Tracker
pub mod VmLimits
pub mod VmPool
pub mod Workflow
