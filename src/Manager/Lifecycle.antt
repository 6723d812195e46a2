-- ===== src/Manager/Lifecycle.antt =====
-- LeasedExecutorManager.start and stop (src/leasepool/manager.py). `stop` is in two parts, since
-- other tasks run while it awaits the checker task that it has cancelled.
use leasepool.Base.{
  ℕ, ◌+◌, Bool, true, false, Option, none, some, List, [], ◌∷◌, ◌++◌, map, if◌then◌else◌,
}
use leasepool.Base.Exec.{
  runtime_error, Result, ok, raised, pure, modify, gets, lift, on_error, ◌>>=◌, ◌>>◌,
}
use leasepool.Backends.{Executor}
use leasepool.Manager.Config.{Config}
use leasepool.Manager.State.{
  Action, LeaseRecord, TaskState, running, finished, shutdown_executor, wake_waiters,
}
use leasepool.Manager.Sizing.{desired_executor_count}
use leasepool.Manager.Pool.{ensure_minimum}
use leasepool.Manager.Acquire.{require_owner_loop}
use leasepool.Manager.LogBridge.{start_process_logging_if_needed, stop_process_logging_if_needed}

abbrev pub executors_of : List LeaseRecord → List Executor
executors_of = map λ r. r.executor

unfoldable pub shutdown_all : List Executor → Action (Unit {0})
unfolding shutdown_executor
shutdown_all [] = pure tt
shutdown_all (e ∷ es) = do shutdown_executor e; shutdown_all es

-- Idle and leased executors leave the manager.
unfoldable pub take_all : Action (List Executor)
take_all = do
  executors ← gets λ s. s.available ++ executors_of s.leased
  modify λ s. record s { available = []; leased = [] }
  pure executors

abbrev pub running_loop : Option ℕ → Result ℕ
running_loop none = raised runtime_error
running_loop (some l) = ok l

-- The body of the `try`.
abbrev pub launch : Config → Action (Unit {0})
launch c = do
  modify λ s. record s { stopping = false }
  ensure_minimum c
  modify λ s. record s { checker_task = some running; started = true }

-- The handler of the `except`.
abbrev pub abort_start : Config → Action (Unit {0})
abort_start c = do executors ← take_all; shutdown_all executors; stop_process_logging_if_needed c

abbrev pub start_fresh : Config → Option ℕ → Action (Unit {0})
start_fresh c caller = do
  l ← lift (running_loop caller)
  modify λ s. record s {
    loop = some l;
    availability_event = some s.events;
    scale_change_event = some (s.events + 1);
    events = s.events + 2;
  }
  start_process_logging_if_needed c
  on_error (launch c) (abort_start c)
  desired_executor_count c
  pure tt

-- `start`; `caller` is the loop that it runs on. The last call is an argument of the log message.
unfoldable pub start : Config → Option ℕ → Action (Unit {0})
unfolding require_owner_loop take_all shutdown_all
start c caller s =
    (if s.started then (do require_owner_loop caller; pure tt) else start_fresh c caller) s

abbrev cancelled : Option TaskState → Option TaskState
cancelled none = none
cancelled (some task) = some finished

-- `stop` up to the `await` of the checker task that it cancels; the result says whether it goes on.
unfoldable pub stop_begin : Option ℕ → Action Bool
unfolding require_owner_loop
stop_begin caller s =
    (if s.started
        then (do
          require_owner_loop caller
          modify λ t. record t { stopping = true; checker_task = cancelled t.checker_task }
          pure true)
        else pure false)
      s

-- The rest of `stop`.
unfoldable pub stop_finish : Config → Action (Unit {0})
unfolding take_all shutdown_all
stop_finish c = do
  modify λ s. record s { checker_task = none }
  executors ← take_all
  modify λ s. record s { started = false }
  shutdown_all executors
  stop_process_logging_if_needed c
  wake_waiters
  modify λ s. record s {
    availability_event = none;
    scale_change_event = none;
    loop = none;
    stopping = false;
  }
