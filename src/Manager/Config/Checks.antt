-- ===== src/Manager/Config/Checks.antt =====
-- What the checks of LeasedExecutorManager.__init__ (src/leasepool/manager.py) establish.
use leasepool.Base.{◌≡◌, ◌≤◌, ◌<◌, true, arith}
use leasepool.Base.Exec.{ok}
use leasepool.Backends.{process}
use leasepool.Validation.Exactness.{coerce_positive_int_result, coerce_finite_duration_result}
use leasepool.ProcessLogging.{coerce_log_level}
use leasepool.Manager.Config.{Runtime, Config, Arguments, init}

-- What every manager's sizes and durations satisfy.
pub record IsSound (c : Config) : Type 0 where
  pub at_least_one : 0 < c.min_pools
  pub ordered : c.min_pools ≤ c.max_pools
  pub units_positive : 0 < c.units_per_pool
  pub workers_positive : 0 < c.workers_per_pool
  pub interval_positive : 0 < c.check_interval
  pub lease_positive : 0 < c.default_lease_seconds
  pub forwards_from_processes : c.process_logging.enabled ≡ true → c.backend ≡ process
  pub level_numeric : coerce_log_level c.process_logging.level ≡ ok c.process_log_level

-- A manager that __init__ accepts has at least one pool and no more minimum than maximum pools,
-- positive counts and durations, and forwards logs only with the process backend.
pub init-IsSound : (env : Runtime) (a : Arguments) {c : Config} → init env a ≡ ok c → IsSound c
unfolding init
init-IsSound env a h = ground (
  arith,
  coerce_positive_int_result a.max_pools,
  coerce_positive_int_result a.min_pools,
  coerce_positive_int_result a.units_per_pool,
  coerce_positive_int_result a.workers_per_pool,
  coerce_finite_duration_result a.default_lease_seconds,
  coerce_finite_duration_result a.check_interval,
)
