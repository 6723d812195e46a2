-- ===== src/Manager/State.antt =====
-- The mutable state of LeasedExecutorManager (src/leasepool/manager.py): the idle executors, the
-- table of leases, the event loop's side, and what has happened to executors and queues.
use leasepool.Base.{ℕ, ◌+◌, String, Bool, false, Option, none, some, List, [], ◌∷◌, ◌++◌, length}
use leasepool.Base.Exec.{Exec, pure, modify, gets, ◌>>=◌, ◌>>◌}
use leasepool.Kwargs.{Context, LogQueue}
use leasepool.Backends.{Executor}
use leasepool.ProcessLogging.{QueueListener}
use leasepool.Manager.Config.{Config}

-- `_LeaseRecord`. `ref` is the identity of the object, for the tests with `is`.
pub record LeaseRecord : Type 0 where
  pub lease_id : ℕ
  pub ref : ℕ
  pub executor : Executor
  pub owner : Option String
  pub leased_at : ℕ
  pub lease_seconds : ℕ
  pub grace_seconds : ℕ
  pub pending_futures : List ℕ
  pub release_requested : Bool
  pub broken : Bool

abbrev pub soft_expires_at : LeaseRecord → ℕ
soft_expires_at r = r.leased_at + r.lease_seconds

abbrev pub hard_expires_at : LeaseRecord → ℕ
hard_expires_at r = soft_expires_at r + r.grace_seconds

-- What call_soon_threadsafe has put on the event loop: event.set, or _shutdown_executor.
pub data Callback : Type 0 where
  set_event : ℕ → Callback
  shut_down : Executor → Callback

pub data TaskState : Type 0 where
  running finished : TaskState

pub data LogCall : Type 0 where
  listener_started listener_stopped : QueueListener → LogCall
  queue_closed queue_joined : LogQueue → LogCall

-- From `reads` on the fields are no attributes of the source's: the environment's reads so far,
-- the events made and those that are set, the queues made, the loop's pending callbacks, the
-- executors whose shutdown a thread has been started for, those whose shutdown() was called, those
-- that were built, the records that were retired, and the calls on listeners and queues.
pub record State : Type 0 where
  pub available : List Executor
  pub leased : List LeaseRecord
  pub availability_event : Option ℕ
  pub scale_change_event : Option ℕ
  pub loop : Option ℕ
  pub checker_task : Option TaskState
  pub started : Bool
  pub stopping : Bool
  pub executor_seq : ℕ
  pub process_log_queue : Option LogQueue
  pub process_log_listener : Option QueueListener
  pub process_log_mp_context : Option Context
  pub reads : ℕ
  pub events : ℕ
  pub set_events : List ℕ
  pub queues : ℕ
  pub loop_closed : Bool
  pub ready : List Callback
  pub closing : List Executor
  pub shut : List Executor
  pub built : List Executor
  pub retired : List LeaseRecord
  pub log_calls : List LogCall

abbrev pub Action : Type 0 → Type 0
Action = Exec State

-- The state that __init__ leaves.
abbrev pub initial : State
initial = record {
  available = [];
  leased = [];
  availability_event = none;
  scale_change_event = none;
  loop = none;
  checker_task = none;
  started = false;
  stopping = false;
  executor_seq = 0;
  process_log_queue = none;
  process_log_listener = none;
  process_log_mp_context = none;
  reads = 0;
  events = 0;
  set_events = [];
  queues = 0;
  loop_closed = false;
  ready = [];
  closing = [];
  shut = [];
  built = [];
  retired = [];
  log_calls = [];
}

-- `_current_count_locked`
abbrev pub current_count : State → ℕ
current_count s = length s.available + length s.leased

-- `time.monotonic()`
unfoldable pub monotonic : Config → Action ℕ
monotonic c = do k ← gets λ s. s.reads; modify λ s. record s { reads = k + 1 }; pure (c.clock k)

-- `_shutdown_executor`
unfoldable pub shutdown_executor : Executor → Action (Unit {0})
shutdown_executor e = modify λ s. record s { shut = s.shut ++ e ∷ [] }

abbrev pub notify : Option ℕ → Option ℕ → Bool → Action (Unit {0})
notify (some event) (some loop) false =
    modify λ s. record s { ready = s.ready ++ set_event event ∷ [] }
notify _ _ _ = pure tt

unfoldable pub wake_waiters : Action (Unit {0})
wake_waiters s = notify s.availability_event s.loop s.loop_closed s

-- `notify_scale_changed` and `_wake_scale_checker` only call it.
unfoldable pub wake_checker : Action (Unit {0})
wake_checker s = notify s.scale_change_event s.loop s.loop_closed s

abbrev pub on_loop : Option ℕ → Bool → Executor → Action (Unit {0})
on_loop (some loop) false e = modify λ s. record s { ready = s.ready ++ shut_down e ∷ [] }
on_loop _ _ e = modify λ s. record s { closing = s.closing ++ e ∷ [] }

-- `_shutdown_executor_from_callback`: on the loop, or in a thread of its own.
unfoldable pub shutdown_executor_from_callback : Executor → Action (Unit {0})
shutdown_executor_from_callback e s = on_loop s.loop s.loop_closed e s
