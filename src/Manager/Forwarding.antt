-- ===== src/Manager/Forwarding.antt =====
-- The log forwarding over its life: _start_process_logging_if_needed and
-- _stop_process_logging_if_needed of src/leasepool/manager.py.
use leasepool.Base.{◌+◌, ◌≡◌, refl, true, ◌&&◌, none, some, List, [], ◌∷◌, ◌++◌, arith, ◌∙◌, ap}
use leasepool.Base.Exec.{ok, raised, ◌>>◌}
use leasepool.Kwargs.{Context, LogQueue}
use leasepool.ProcessLogging.{QueueListener, build_queue_listener}
use leasepool.Manager.Config.{Config, is_process}
use leasepool.Manager.State.{
  State, LogCall, listener_started, listener_stopped, queue_closed, queue_joined,
}
use leasepool.Manager.LogBridge.{
  logging_context, target, start_process_logging_if_needed, stop_process_logging_if_needed,
}

abbrev pub new_queue : Context → State → LogQueue
new_queue x s = record { context = x; number = s.queues }

abbrev pub new_listener : Config → Context → State → QueueListener
new_listener c x s = build_queue_listener (new_queue x s) (target c c.process_logging.target_logger)

-- The calls on a listener and its queue, from the start on.
abbrev pub life : Config → Context → State → List LogCall
life c x s =
    listener_started (new_listener c x s)
    ∷ listener_stopped (new_listener c x s)
    ∷ queue_closed (new_queue x s)
    ∷ queue_joined (new_queue x s)
    ∷ []

abbrev bridged : Config → Context → State → State
bridged c x s = record s {
  queues = s.queues + 1;
  process_log_mp_context = some x;
  process_log_queue = some (new_queue x s);
  process_log_listener = some (new_listener c x s);
  log_calls = s.log_calls ++ listener_started (new_listener c x s) ∷ [];
}

start_lem :
    (c : Config) (s : State) {x : Context}
    → (is_process c.backend && c.process_logging.enabled) ≡ true
    → s.process_log_listener ≡ none
    → logging_context c ≡ ok x
    → c.make_queue ≡ none
    → c.start_listener ≡ none
    → start_process_logging_if_needed c s ≡ (ok tt, bridged c x s)
unfolding start_process_logging_if_needed
start_lem c s wanted fresh ctx made starts = ground (arith, wanted, fresh, ctx, made, starts)

in_order :
    (xs : List LogCall) (a b c d : LogCall)
    → (((xs ++ a ∷ []) ++ b ∷ []) ++ c ∷ []) ++ d ∷ [] ≡ xs ++ a ∷ b ∷ c ∷ d ∷ []
in_order [] a b c d = refl
in_order (x ∷ xs) a b c d = ap (λ ys. x ∷ ys) (in_order xs a b c d)

stop_lem :
    (c : Config) (x : Context) (s : State)
    → c.stop_listener ≡ none
    → stop_process_logging_if_needed c (bridged c x s) ≡ (
      ok tt,
      record s {
        queues = s.queues + 1;
        process_log_mp_context = none;
        process_log_queue = none;
        process_log_listener = none;
        log_calls = s.log_calls ++ life c x s;
      },
    )
unfolding stop_process_logging_if_needed
stop_lem c x s quiet =
    let l = new_listener c x s in
    let q = new_queue x s in
    simp quiet (
      ap
        (λ calls. (
          ok tt,
          record s {
            queues = s.queues + 1;
            process_log_mp_context = none;
            process_log_queue = none;
            process_log_listener = none;
            log_calls = calls;
          },
        ))
        (in_order s.log_calls (listener_started l) (listener_stopped l) (queue_closed q)
          (queue_joined q)))

-- With the process backend and log forwarding enabled, and none running, a start of the log forwarding
-- that finds a context, and whose queue and listener start without an exception, and then a stop of which the listener does not raise, leave no queue, no
-- listener and no context behind; the listener that was started was stopped, before its queue was
-- closed and then joined; and nothing else was called.
pub stop_process_logging-start :
    (c : Config) (s : State) {x : Context}
    → (is_process c.backend && c.process_logging.enabled) ≡ true
    → s.process_log_listener ≡ none
    → logging_context c ≡ ok x
    → c.make_queue ≡ none
    → c.start_listener ≡ none
    → c.stop_listener ≡ none
    → (start_process_logging_if_needed c >> stop_process_logging_if_needed c) s ≡ (
      ok tt,
      record s {
        queues = s.queues + 1;
        process_log_mp_context = none;
        process_log_queue = none;
        process_log_listener = none;
        log_calls = s.log_calls ++ life c x s;
      },
    )
stop_process_logging-start c s {x} wanted fresh ctx made starts quiet =
    ap (λ (r, t). elim r [ ok _ ↦ stop_process_logging_if_needed c t | raised e ↦ (raised e, t) ])
      (start_lem c s wanted fresh ctx made starts)
    ∙ stop_lem c x s quiet
