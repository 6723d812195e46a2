-- ===== src/Manager/Steps.antt =====
-- A manager in use (src/leasepool/manager.py): every method that tasks, executors' threads and the
-- event loop may call, in any order and with any arguments. A method that holds the lock is one
-- step; `stop` and `acquire` are as many as there are sections between their awaits. A task that has
-- begun such a method may be between any two of its sections.
use leasepool.Base.{ℕ, ◌≡◌, true, Option, some, List, [], ◌∷◌, ◌++◌, discard, add_member}
use leasepool.Backends.{Executor}
use leasepool.Manager.Config.{Config}
use leasepool.Manager.State.{State, Callback, set_event, shut_down, running, initial, wake_checker}
use leasepool.Manager.Leases.{release, submit_for_lease, FutureOutcome, on_lease_future_done}
use leasepool.Manager.Acquire.{Request, acquire_begin, attempt}
use leasepool.Manager.Checker.{checker_turn}
use leasepool.Manager.Lifecycle.{start, stop_begin, stop_finish}

abbrev pub run_first : List Callback → State → State
run_first [] s = s
run_first (set_event event ∷ cs) s = record s {
  ready = cs;
  set_events = add_member event s.set_events;
}
run_first (shut_down e ∷ cs) s = record s { ready = cs; shut = s.shut ++ e ∷ [] }

-- The event loop runs the oldest callback.
unfoldable pub run_callback : State → State
run_callback s = run_first s.ready s

abbrev pub close_first : List Executor → State → State
close_first [] s = s
close_first (e ∷ es) s = record s { closing = es; shut = s.shut ++ e ∷ [] }

-- A thread that was started to shut an executor down does so.
unfoldable pub run_closing : State → State
run_closing s = close_first s.closing s

pub data Step (c : Config) (s : State) : State → Type 0 where
  starts : (caller : Option ℕ) → Step c s (start c caller s).1
  stops : (caller : Option ℕ) → Step c s (stop_begin caller s).1
  finishes_stop : Step c s (stop_finish c s).1
  begins : (caller : Option ℕ) (q : Request) → Step c s (acquire_begin c caller q s).1
  attempts : (q : Request) (ticks started_at : ℕ) → Step c s (attempt c q ticks started_at s).1
  wakes : (event : ℕ) → Step c s (record s { set_events = discard event s.set_events })
  releases : (lease_id : ℕ) → Step c s (release c lease_id s).1
  submits : (lease_id : ℕ) → Step c s (submit_for_lease c lease_id s).1
  future_ends :
      (lease_id future : ℕ) (outcome : FutureOutcome)
      → Step c s (on_lease_future_done c lease_id future outcome s).1
  checks : s.checker_task ≡ some running → Step c s (checker_turn c s).1
  notifies : Step c s (wake_checker s).1
  calls_back : Step c s (run_callback s)
  closes : Step c s (run_closing s)
  loop_ends : Step c s (record s { loop_closed = true })

-- The states of a manager since it was made.
pub data Reach (c : Config) : State → Type 0 where
  made : Reach c initial
  next : {s t : State} → Reach c s → Step c s t → Reach c t
