-- ===== src/Manager/Config.antt =====
-- The attributes that LeasedExecutorManager.__init__ (src/leasepool/manager.py) fixes, the checks
-- by which it does so, and what the manager asks of its surroundings.
pub mod Checks
use leasepool.Base.{
  ℕ, String, Bool, true, false, not, ◌&&◌, ◌||◌, Option, none, some, ◌==◌, ltb, is_none,
}
use leasepool.Base.Ints.{ℤ}
use leasepool.Base.Exec.{Exn, value_error, Result, ok, raised}
use leasepool.Base.Results.{◌>>=◌, ◌>>◌, raise_if}
use leasepool.Kwargs.{Kwargs}
use leasepool.Backends.{
  ExecutorBackend, thread, process, interpreter, BackendArg, normalize_backend,
}
use leasepool.Validation.{PyObject, coerce_positive_int, coerce_finite_duration}
use leasepool.ProcessLogging.{
  Level, number, level_name, ProcessLoggingConfig, info, coerce_log_level,
}

-- `int(self._size_provider())`: an integer, or an exception.
pub data Reading : Type 0 where
  units : ℤ → Reading
  failing : Reading

-- How a future ended.
pub data FutureOutcome : Type 0 where
  was_cancelled returned : FutureOutcome
  failed : Exn → FutureOutcome

-- What `executor.submit` does: it accepts the work and returns a future, finds itself broken, or
-- raises another exception.
pub data Submission : Type 0 where
  accepted : ℕ → Option FutureOutcome → Submission
  broken refused : Exn → Submission

-- What the manager asks of Python and of the platform. `clock`, `uuid` and `submit` answer the
-- reads of the environment, which are numbered from 0 in the order of time; `construct` says what
-- the constructor of the executor of each number raises, if anything; `ceil_div a b` is
-- math.ceil(a / b), a division of floats; `make_queue`, `start_listener` and `stop_listener` say what
-- the Queue of a context, and the start and stop of a queue listener raise, if anything.
pub record Runtime : Type 0 where
  pub clock : ℕ → ℕ
  pub uuid : ℕ → ℕ
  pub submit : ℕ → Submission
  pub construct : ℕ → Option Exn
  pub ceil_div : ℕ → ℕ → Result ℕ
  pub has_interpreter_pool : Bool
  pub has_forkserver : Bool
  pub has_spawn : Bool
  pub make_queue : Option Exn
  pub start_listener : Option Exn
  pub stop_listener : Option Exn

-- Durations count ticks. A size provider answers each call, by the number of the read.
pub record Config : Type 0 where
  pub runtime : Runtime
  pub open runtime use *
  pub backend : ExecutorBackend
  pub process_logging : ProcessLoggingConfig
  pub process_log_level : ℕ
  pub max_pools : ℕ
  pub min_pools : ℕ
  pub units_per_pool : ℕ
  pub size_provider : Option (ℕ → Reading)
  pub check_interval : ℕ
  pub default_lease_seconds : ℕ
  pub lease_grace_seconds : ℕ
  pub workers_per_pool : ℕ
  pub name_prefix : String
  pub executor_kwargs : Kwargs
  pub logger : ℕ

-- The keyword arguments of __init__.
pub record Arguments : Type 0 where
  pub backend : BackendArg
  pub max_pools : PyObject
  pub min_pools : PyObject
  pub units_per_pool : PyObject
  pub size_provider : Option (ℕ → Reading)
  pub check_interval : PyObject
  pub default_lease_seconds : PyObject
  pub lease_grace_seconds : PyObject
  pub workers_per_pool : PyObject
  pub name_prefix : String
  pub logger : Option ℕ
  pub process_logging : Option ProcessLoggingConfig
  pub forward_process_logs : Bool
  pub process_log_level : Level
  pub process_log_target_logger : Option ℕ
  pub clear_process_log_handlers : Bool
  pub executor_kwargs : Kwargs

abbrev differs_from_info : Level → Bool
differs_from_info (number n) = not (n == info)
differs_from_info (level_name t) = true

abbrev pub is_process : ExecutorBackend → Bool
is_process process = true
is_process _ = false

-- A process_logging argument leaves the four single options at their defaults.
abbrev log_options_given : Arguments → Bool
log_options_given a =
    a.forward_process_logs
    || differs_from_info a.process_log_level
    || not (is_none a.process_log_target_logger)
    || not a.clear_process_log_handlers

abbrev chosen_logging : Arguments → Option ProcessLoggingConfig → ProcessLoggingConfig
chosen_logging a (some p) = p
chosen_logging a none = record {
  enabled = a.forward_process_logs;
  level = a.process_log_level;
  target_logger = a.process_log_target_logger;
  clear_child_handlers = a.clear_process_log_handlers;
}

-- `logging.getLogger(__name__)`
abbrev module_logger : ℕ
module_logger = 0

abbrev or_module_logger : Option ℕ → ℕ
or_module_logger none = module_logger
or_module_logger (some l) = l

unfoldable pub init : Runtime → Arguments → Result Config
init env a = do
  max_pools ← coerce_positive_int a.max_pools
  min_pools ← coerce_positive_int a.min_pools
  units_per_pool ← coerce_positive_int a.units_per_pool
  workers_per_pool ← coerce_positive_int a.workers_per_pool
  default_lease_seconds ← coerce_finite_duration false a.default_lease_seconds
  lease_grace_seconds ← coerce_finite_duration true a.lease_grace_seconds
  check_interval ← coerce_finite_duration false a.check_interval
  raise_if (ltb max_pools min_pools) value_error
  backend ← normalize_backend a.backend
  raise_if (not (is_none a.process_logging) && log_options_given a) value_error
  let process_logging = chosen_logging a a.process_logging
  raise_if (process_logging.enabled && not (is_process backend)) value_error
  process_log_level ← coerce_log_level process_logging.level
  ok (record {
    runtime = env;
    backend = backend;
    process_logging = process_logging;
    process_log_level = process_log_level;
    max_pools = max_pools;
    min_pools = min_pools;
    units_per_pool = units_per_pool;
    size_provider = a.size_provider;
    check_interval = check_interval;
    default_lease_seconds = default_lease_seconds;
    lease_grace_seconds = lease_grace_seconds;
    workers_per_pool = workers_per_pool;
    name_prefix = a.name_prefix;
    executor_kwargs = a.executor_kwargs;
    logger = or_module_logger a.logger;
  })
