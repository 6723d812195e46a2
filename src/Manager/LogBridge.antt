-- ===== src/Manager/LogBridge.antt =====
-- The parent's end of log forwarding (src/leasepool/manager.py): the choice of a multiprocessing
-- context, and the start and stop of the queue and its listener.
use leasepool.Base.{
  ℕ, ◌+◌, Bool, true, false, ◌&&◌, Option, none, some, [], ◌∷◌, ◌++◌, if◌then◌else◌, is_none,
}
use leasepool.Base.Exec.{
  attribute_error, Result, ok, raised, pure, modify, gets, lift, raise_some, ◌>>=◌, ◌>>◌,
}
use leasepool.Kwargs.{
  Context, spawn, forkserver, default_context, LogQueue, Arg, nothing, context, get,
}
use leasepool.ProcessLogging.{QueueListener, build_queue_listener}
use leasepool.Manager.Config.{Config, is_process}
use leasepool.Manager.State.{
  Action, LogCall, listener_started, listener_stopped, queue_closed, queue_joined,
}

-- `_default_process_logging_mp_context`
unfoldable pub default_process_logging_mp_context : Config → Context
default_process_logging_mp_context c =
    if c.has_forkserver then forkserver else if c.has_spawn then spawn else default_context

-- `x is None`, for the result of `kwargs.get`.
abbrev is_nothing : Option Arg → Bool
is_nothing none = true
is_nothing (some nothing) = true
is_nothing (some _) = false

-- The object whose Queue method is called; a value that is no context has none.
abbrev as_context : Option Arg → Result Context
as_context (some (context x)) = ok x
as_context _ = raised attribute_error

unfoldable pub logging_context : Config → Result Context
unfolding default_process_logging_mp_context
logging_context c =
    if is_nothing (get "mp_context" c.executor_kwargs)
    then (if is_nothing (get "max_tasks_per_child" c.executor_kwargs)
        then ok (default_process_logging_mp_context c)
        else ok spawn)
    else as_context (get "mp_context" c.executor_kwargs)

-- `self._process_logging.target_logger or self._logger`
abbrev pub target : Config → Option ℕ → ℕ
target c none = c.logger
target c (some l) = l

abbrev log_call : LogCall → Action (Unit {0})
log_call l = modify λ s. record s { log_calls = s.log_calls ++ l ∷ [] }

-- The context stays set when `mp_context.Queue(-1)` raises, and the queue and the listener too when
-- `listener.start()` does.
abbrev pub start_bridge : Config → Action (Unit {0})
start_bridge c = do
  x ← lift (logging_context c)
  modify λ s. record s { process_log_mp_context = some x }
  raise_some c.make_queue
  k ← gets λ s. s.queues
  let queue : LogQueue = record { context = x; number = k }
  let listener = build_queue_listener queue (target c c.process_logging.target_logger)
  modify λ s. record s {
    queues = k + 1;
    process_log_queue = some queue;
    process_log_listener = some listener;
  }
  raise_some c.start_listener
  log_call (listener_started listener)

unfoldable pub start_process_logging_if_needed : Config → Action (Unit {0})
unfolding logging_context build_queue_listener
start_process_logging_if_needed c s =
    (if is_process c.backend && c.process_logging.enabled && is_none s.process_log_listener
        then start_bridge c
        else pure tt)
      s

-- `try: listener.stop()  finally: self._process_log_listener = None`
abbrev pub stop_listening : Config → Option QueueListener → Action (Unit {0})
stop_listening c none = pure tt
stop_listening c (some listener) = do
  log_call (listener_stopped listener)
  modify λ s. record s { process_log_listener = none }
  raise_some c.stop_listener

-- An exception of close() or join_thread() is caught.
abbrev pub close_queue : Config → Option LogQueue → Action (Unit {0})
close_queue c none = pure tt
close_queue c (some queue) = do
  log_call (queue_closed queue)
  log_call (queue_joined queue)
  modify λ s. record s { process_log_queue = none; process_log_mp_context = none }

unfoldable pub stop_process_logging_if_needed : Config → Action (Unit {0})
stop_process_logging_if_needed c = do
  listener ← gets λ s. s.process_log_listener
  stop_listening c listener
  queue ← gets λ s. s.process_log_queue
  close_queue c queue
