-- ===== src/Scenarios/Forwarding.antt =====
-- A manager of process pools that forwards its workers' logs (src/leasepool/manager.py).
use leasepool.Base.{◌+◌, ◌≡◌, refl, true, none, ◌++◌}
use leasepool.Base.Exec.{ok, ◌>>◌}
use leasepool.Kwargs.{forkserver, get}
use leasepool.Backends.{process}
use leasepool.ProcessLogging.{number}
use leasepool.Manager.Config.{Config}
use leasepool.Manager.State.{initial}
use leasepool.Manager.LogBridge.{
  logging_context, default_process_logging_mp_context, start_process_logging_if_needed,
  stop_process_logging_if_needed,
}
use leasepool.Manager.Forwarding.{life, stop_process_logging-start}
use leasepool.Scenarios.Pools.{pool}

abbrev forwarding : Config
forwarding = record pool {
  backend = process;
  process_logging = record {
    enabled = true;
    level = number 20;
    target_logger = none;
    clear_child_handlers = true;
  };
}

finds_forkserver : logging_context forwarding ≡ ok forkserver
unfolding logging_context default_process_logging_mp_context get
finds_forkserver = refl

stop_process_logging-start_example :
    (start_process_logging_if_needed forwarding >> stop_process_logging_if_needed forwarding)
      initial
    ≡ (
      ok tt,
      record initial {
        queues = initial.queues + 1;
        process_log_mp_context = none;
        process_log_queue = none;
        process_log_listener = none;
        log_calls = initial.log_calls ++ life forwarding forkserver initial;
      },
    )
stop_process_logging-start_example =
    stop_process_logging-start forwarding initial refl refl finds_forkserver refl refl refl
