-- ===== src/Manager/Waiting.antt =====
-- _wait_for_checker_event of src/leasepool/manager.py, between the awaits of the checker task, and
-- the task as a whole: rounds of _checker_loop with such a wait after each.
use leasepool.Base.{ℕ, Bool, true, false, Option, none, some, List, [], ◌∷◌, ◌==◌, if◌then◌else◌}
use leasepool.Manager.Config.{Config}
use leasepool.Manager.State.{State}
use leasepool.Manager.Checker.{checker_turn}

-- Where the checker task stands: in asyncio.sleep(0); in asyncio.wait, with wait_task done or not; in
-- the `await wait_task` of the `finally`, with a CancelledError on its way or not; past the wait; or
-- ended, by a CancelledError or by an exception of a round.
pub data Waiting : Type 0 where
  sleeps_once : Waiting
  awaits : Bool → Waiting
  drains : Bool → Waiting
  past stopped crashed : Waiting

-- What happens to a task in the wait: the event is set, so that wait_task ends; the timeout of
-- asyncio.wait runs out; what the task awaits is over, and it goes on; someone cancels the task.
pub data WaitEvent : Type 0 where
  is_set times_out resumes is_cancelled : WaitEvent

abbrev pub wait_starts : ℕ → Waiting
wait_starts timeout = if timeout == 0 then sleeps_once else awaits false

-- The end of the `finally`.
abbrev after_finally : Bool → Waiting
after_finally true = stopped
after_finally false = past

-- The `finally`, from asyncio.wait on: `done` is wait_task.done(), `raising` whether a CancelledError
-- is on its way.
abbrev in_finally : Bool → Bool → Waiting
in_finally true raising = after_finally raising
in_finally false raising = drains raising

-- A cancellation goes on to what the task awaits. In the `finally` that is wait_task, which is
-- cancelled already; the CancelledError that comes of it is suppressed.
unfoldable pub wait_on : WaitEvent → Waiting → Waiting
wait_on is_set (awaits d) = awaits true
wait_on is_set w = w
wait_on times_out (awaits d) = in_finally d false
wait_on times_out w = w
wait_on resumes sleeps_once = past
wait_on resumes (awaits true) = past
wait_on resumes (drains raising) = after_finally raising
wait_on resumes w = w
wait_on is_cancelled sleeps_once = stopped
wait_on is_cancelled (awaits d) = in_finally d true
wait_on is_cancelled w = w

abbrev pub wait_for_all : List WaitEvent → Waiting → Waiting
wait_for_all [] w = w
wait_for_all (e ∷ es) w = wait_for_all es (wait_on e w)

abbrev pub after_turn : Option (ℕ × ℕ) → Waiting
after_turn none = crashed
after_turn (some (event, wait_seconds)) = wait_starts wait_seconds

-- `_checker_loop` from the end of one wait into the next.
unfoldable pub checker_loop : Config → Waiting × State → Waiting × State
checker_loop c (past, s) = let (r, t) = checker_turn c s in (after_turn r, t)
checker_loop c (w, s) = (w, s)
