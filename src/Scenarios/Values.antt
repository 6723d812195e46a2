-- ===== src/Scenarios/Values.antt =====
-- Configuration values, backend names and worker processes of src/leasepool.
use leasepool.Base.{ℕ, ◌≡◌, refl, ◌⊎◌, true, false, ◌&&◌, none, some, [], ◌∷◌, ◌++◌, if◌then◌else◌}
use text.Mathlib.Text.{◌==◌ as str_eq}
use leasepool.Base.Ints.{pos}
use leasepool.Base.Exec.{ok, raised, value_error, overflow_error}
use leasepool.Kwargs.{Kwargs, Arg, LogQueue, spawn, get, name, or_else}
use leasepool.Backends.{
  thread, member, spelled, Executor, thread_pool, prefix_key, normalize_backend, class_of,
  build_executor,
}
use leasepool.Backends.Selection.{build_executor_ok, wants_prefix}
use leasepool.Validation.{
  PyObject, object, finite, nan, int, float, coerce_positive_int, coerce_finite_duration,
}
use leasepool.Validation.Exactness
use leasepool.ProcessLogging.{
  number, Worker, existing, queue_handler, coerce_log_level, process_worker_initializer,
}
use leasepool.ProcessLogging.Workers.{process_worker_initializer_lem, outcome_result}
use leasepool.Manager.Config.{Arguments, init}
use leasepool.Manager.Config.Checks.{IsSound, init-IsSound}
use leasepool.Scenarios.Pools.{ticking, pool}

nan_refused : coerce_finite_duration true (float nan) ≡ raised value_error
unfolding coerce_finite_duration
nan_refused = refl

-- A fraction that is no integer and beyond the floats: its __float__ raises.
abbrev huge_fraction : PyObject
huge_fraction = object none (some (raised overflow_error))

abbrev two_workers : Executor
two_workers = record {
  seq = 3;
  cls = thread_pool;
  max_workers = 2;
  kwargs = (prefix_key, name "pool" 3) ∷ [];
}

builds : build_executor false none (member thread) 2 "pool" 3 [] ≡ ok two_workers
unfolding build_executor leasepool.Kwargs.set_default get leasepool.Kwargs.set
builds = refl

build_executor_ok_example :
    (two_workers.seq ≡ 3)
    × (two_workers.max_workers ≡ 2)
    × (ok two_workers.cls ≡ class_of false thread)
    × (get prefix_key two_workers.kwargs ≡ (
        if wants_prefix thread && str_eq prefix_key prefix_key
        then some (or_else (name "pool" 3) (get prefix_key []))
        else get prefix_key []))
build_executor_ok_example = build_executor_ok false none thread 2 "pool" 3 [] prefix_key builds

abbrev worker : Worker
worker = record { handlers = existing 1 ∷ []; level = 30; initialized = [] }

abbrev queue : LogQueue
queue = record { context = spawn; number = 0 }

process_worker_initializer_lem_example :
    let hs = (if true then [] else worker.handlers) ++ queue_handler queue ∷ [] in
    ((n : ℕ) × (coerce_log_level (number 20) ≡ ok n)
      × (process_worker_initializer (some queue) (number 20) true (some (5, 6, none)) worker ≡ (
        outcome_result none,
        record { handlers = hs; level = n; initialized = worker.initialized ++ (5, 6) ∷ [] },
      )))
    ⊎ ((coerce_log_level (number 20) ≡ raised value_error)
        × (process_worker_initializer (some queue) (number 20) true (some (5, 6, none)) worker
            ≡ (raised value_error, record worker { handlers = hs })))
process_worker_initializer_lem_example =
    process_worker_initializer_lem queue (number 20) true 5 6 none worker

abbrev arguments : Arguments
arguments = record {
  backend = spelled "THREAD";
  max_pools = int (pos 2);
  min_pools = int (pos 1);
  units_per_pool = int (pos 10);
  size_provider = none;
  check_interval = float (finite (pos 120));
  default_lease_seconds = float (finite (pos 300));
  lease_grace_seconds = float (finite (pos 15));
  workers_per_pool = int (pos 4);
  name_prefix = "leasepool";
  logger = none;
  process_logging = none;
  forward_process_logs = false;
  process_log_level = number 20;
  process_log_target_logger = none;
  clear_process_log_handlers = true;
  executor_kwargs = [];
}

accepts : init ticking arguments ≡ ok pool
unfolding init coerce_positive_int coerce_finite_duration normalize_backend coerce_log_level
accepts = refl

init-IsSound_example : IsSound pool
init-IsSound_example = init-IsSound ticking arguments accepts
