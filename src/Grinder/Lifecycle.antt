-- ===== src/Grinder/Lifecycle.antt =====
-- start and stop of WorkGrinder (src/leasepool/grinder.py).
use leasepool.Base.{
  ℕ, Bool, true, false, not, ◌&&◌, ◌||◌, Option, none, some, [], ◌==◌, if◌then◌else◌,
}
use leasepool.Base.Exec.{cancelled, runtime_error, modify, pure, raise_if, ◌>>◌}
use leasepool.Grinder.State.{
  was_cancelled, Phase, absent, waiting, killed, acquiring, gathering, GrinderState, GrinderAction,
  settle_batch,
}
use leasepool.Grinder.Queue.{require_grinder_loop}

abbrev other_loop : ℕ → Option ℕ → Bool
other_loop running none = true
other_loop running (some l) = not (l == running)

-- `WorkGrinder.start` on the loop `running`.
unfoldable pub start_grinder : ℕ → GrinderAction (Unit {0})
start_grinder running s =
    (if s.started
        then raise_if (other_loop running s.loop) runtime_error
        else modify (λ t. record t {
          loop = some running;
          stopping = false;
          phase = waiting;
          cancel_asked = false;
          started = true;
        }))
      s

abbrev pub has_task : Phase → Bool
has_task absent = false
has_task _ = true

-- `while self._pending: ... item.result_future.cancel()`
unfoldable pub cancel_pending : GrinderState → GrinderState
unfolding settle_batch
cancel_pending s = record (settle_batch was_cancelled s.pending s) { pending = [] }

-- `stop(cancel_pending=...)`, up to the await of the task. The result is False where it returns at
-- once.
unfoldable pub stop_grinder_begin : Option ℕ → Bool → GrinderAction Bool
unfolding require_grinder_loop cancel_pending
stop_grinder_begin running cancelling s =
    (if not s.started then pure false else do
      require_grinder_loop running
      modify λ t. record t { stopping = true }
      modify λ t. if cancelling then cancel_pending t else t
      modify λ t. record t { cancel_asked = t.cancel_asked || cancelling && has_task t.phase }
      pure true)
      s

-- `task.cancelled()`
abbrev pub was_killed : Phase → Bool
was_killed killed = true
was_killed _ = false

-- `stop(cancel_pending=...)`, after the task has ended.
unfoldable pub stop_grinder_finish : Bool → GrinderAction (Unit {0})
stop_grinder_finish cancelling s =
    (do
      modify λ t. record t { phase = absent; cancel_asked = false }
      raise_if (was_killed s.phase && not cancelling) cancelled
      modify λ t. record t { started = false; stopping = false; loop = none })
      s

-- `task.done()`, or no task at all.
abbrev pub ended : Phase → Bool
ended waiting = false
ended (acquiring _) = false
ended (gathering _ _) = false
ended _ = true
