-- ===== src/Grinder/Queue.antt =====
-- The pending queue of WorkGrinder (src/leasepool/grinder.py): enqueue, the calls from other
-- threads, the clean-up of cancelled items, and the statistics.
use leasepool.Base.{
  ℕ, ◌+◌, String, Bool, true, false, not, ◌&&◌, ◌||◌, Option, none, some, List, [], ◌∷◌, ◌++◌, ◌==◌,
  length, if◌then◌else◌, is_none,
}
use leasepool.Base.Ints.{pos, ◌-ℤ◌, clamp_zero}
use leasepool.Base.Exec.{
  runtime_error, Result, ok, raised, modify, pure, gets, raise_if, ◌>>=◌, ◌>>◌,
}
use leasepool.Grinder.State.{
  unsettled, is_cancelled, WorkItem, GrinderConfig, GrinderState, GrinderAction, assign,
}

abbrev pub owner : Option ℕ → Bool → Option ℕ → Result ℕ
owner none started running = raised runtime_error
owner (some l) false running = raised runtime_error
owner (some l) true none = raised runtime_error
owner (some l) true (some r) = if r == l then ok l else raised runtime_error

-- `WorkGrinder._require_owner_loop`; `running` is the loop that the caller runs on, if any.
unfoldable pub require_grinder_loop : Option ℕ → GrinderAction ℕ
require_grinder_loop running s = (owner s.loop s.started running, s)

abbrev same_loop : Option ℕ → Option ℕ → Bool
same_loop (some l) (some r) = r == l
same_loop _ _ = false

-- `_reject_owner_loop_thread_sync_call`
unfoldable pub reject_owner_loop_thread_sync_call : Option ℕ → GrinderAction (Unit {0})
reject_owner_loop_thread_sync_call running s = raise_if (same_loop s.loop running) runtime_error s

-- `enqueue` of a call at time `now`; the result is the future.
unfoldable pub enqueue : Option ℕ → ℕ → ℕ → Option String → ℕ → GrinderAction ℕ
unfolding require_grinder_loop
enqueue running work_id call owner now = do
  require_grinder_loop running
  stopping ← gets λ s. s.stopping
  raise_if stopping runtime_error
  f ← gets λ s. s.future_count
  modify λ s. record s {
    futures = assign f unsettled s.futures;
    future_count = f + 1;
    pending =
        s.pending
        ++ record {
          work_id = work_id;
          call = call;
          result_future = f;
          submitted_at = now;
          owner = owner;
        }
          ∷ [];
  }
  pure f

abbrev unusable : GrinderState → Bool
unusable s = not s.started || is_none s.loop || s.loop_closed

-- `submit_from_thread` up to run_coroutine_threadsafe, which has the loop run `submit`.
unfoldable pub submit_from_thread : Option ℕ → GrinderAction (Unit {0})
unfolding reject_owner_loop_thread_sync_call
submit_from_thread running = do
  closed ← gets unusable
  raise_if closed runtime_error
  reject_owner_loop_thread_sync_call running
  stopping ← gets λ s. s.stopping
  raise_if stopping runtime_error

-- `stats_from_thread` up to run_coroutine_threadsafe, which has the loop run `astats`.
unfoldable pub stats_from_thread : Option ℕ → GrinderAction (Unit {0})
unfolding reject_owner_loop_thread_sync_call
stats_from_thread running = do
  closed ← gets unusable
  raise_if closed runtime_error
  reject_owner_loop_thread_sync_call running

-- `_on_result_future_done`, for the future whose callback is the oldest.
abbrev pub callback_of : List ℕ → GrinderState → GrinderState
callback_of [] s = s
callback_of (f ∷ fs) s =
    let t : GrinderState = record s { done_callbacks = fs } in
    if is_cancelled (s.futures f) && not (is_none s.loop || s.loop_closed)
    then record t { removals = s.removals ++ f ∷ [] }
    else t

unfoldable pub run_done_callback : GrinderState → GrinderState
run_done_callback s = callback_of s.done_callbacks s

-- The queue without the first item whose result future is `f`.
unfoldable pub without_future : ℕ → List WorkItem → List WorkItem
without_future f [] = []
without_future f (x ∷ xs) = if x.result_future == f then xs else x ∷ without_future f xs

abbrev pub removal_of : List ℕ → GrinderState → GrinderState
removal_of [] s = s
removal_of (f ∷ fs) s = record s { removals = fs; pending = without_future f s.pending }

-- `_remove_cancelled_pending_item`, for the oldest removal task.
unfoldable pub run_removal : GrinderState → GrinderState
unfolding without_future
run_removal s = removal_of s.removals s

pub record GrinderStats : Type 0 where
  pub started : Bool
  pub stopping : Bool
  pub pending : ℕ
  pub batch_size_threshold : ℕ
  pub max_wait_seconds : ℕ
  pub lease_seconds : ℕ
  pub oldest_wait_seconds : ℕ

-- `max(0.0, loop.time() - self._pending[0].submitted_at)`
abbrev oldest_wait : ℕ → List WorkItem → ℕ
oldest_wait now [] = 0
oldest_wait now (x ∷ xs) = clamp_zero (pos now -ℤ pos x.submitted_at)

abbrev stats_of : GrinderConfig → ℕ → GrinderState → GrinderStats
stats_of c oldest s = record {
  started = s.started;
  stopping = s.stopping;
  pending = length s.pending;
  batch_size_threshold = c.batch_size_threshold;
  max_wait_seconds = c.max_wait_seconds;
  lease_seconds = c.lease_seconds;
  oldest_wait_seconds = oldest;
}

-- `WorkGrinder.stats`
unfoldable pub grinder_stats : GrinderConfig → Option ℕ → ℕ → GrinderAction GrinderStats
unfolding require_grinder_loop
grinder_stats c running now s =
    (if s.started
        then (do require_grinder_loop running; pure (stats_of c (oldest_wait now s.pending) s))
        else pure (stats_of c 0 s))
      s

-- `WorkGrinder.astats`
unfoldable pub astats : GrinderConfig → Option ℕ → ℕ → GrinderAction GrinderStats
unfolding require_grinder_loop
astats c running now s =
    (do require_grinder_loop running; pure (stats_of c (oldest_wait now s.pending) s)) s
