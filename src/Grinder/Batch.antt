-- ===== src/Grinder/Batch.antt =====
-- The loop of WorkGrinder (src/leasepool/grinder.py): the wait for a batch, and the batch between
-- one await and the next.
use leasepool.Base.{
  ℕ, suc, ◌+◌, ◌-◌, Bool, ◌&&◌, ◌||◌, Option, none, some, List, [], ◌∷◌, leb, length, is_empty,
  if◌then◌else◌,
}
use leasepool.Base.Exec.{Exn, cancelled, runtime_error, value_error, Result, ok, raised}
use leasepool.Grinder.State.{
  FutureState, was_cancelled, has_result, has_exception, is_cancelled, WorkItem, GrinderConfig,
  waiting, over, killed, crashed, acquiring, gathering, GrinderState, settle_if_open, settle_batch,
}

-- A turn of `_wait_for_next_batch`: the batch that it returns, or the longest time that it waits for
-- the condition.
pub data Turn : Type 0 where
  batch : List WorkItem → Turn
  sleep : Option ℕ → Turn

-- `threshold_reached or timeout_reached or self._stopping`
abbrev pub ready : GrinderConfig → ℕ → WorkItem → GrinderState → Bool
ready c now oldest s =
    leb c.batch_size_threshold (length s.pending)
    || leb (c.max_wait_seconds + oldest.submitted_at) now
    || s.stopping

-- `_drain_pending_locked`
unfoldable pub drain_pending : GrinderState → List WorkItem × GrinderState
drain_pending s = (s.pending, record s { pending = [] })

abbrev pub turn_of : GrinderConfig → ℕ → List WorkItem → GrinderState → Turn × GrinderState
turn_of c now [] s = (if s.stopping then batch [] else sleep none, s)
turn_of c now (x ∷ xs) s =
    if ready c now x s
    then (batch (drain_pending s).0, (drain_pending s).1)
    else (sleep (some (c.max_wait_seconds + x.submitted_at - now)), s)

unfoldable pub wait_for_next_batch : GrinderConfig → ℕ → GrinderState → Turn × GrinderState
unfolding drain_pending
wait_for_next_batch c now s = turn_of c now s.pending s

-- `[item for item in batch if not item.result_future.cancelled()]`
unfoldable pub live_items : (ℕ → FutureState) → List WorkItem → List WorkItem
live_items futures [] = []
live_items futures (x ∷ xs) =
    if is_cancelled (futures x.result_future)
    then live_items futures xs
    else x ∷ live_items futures xs

-- The loop after a batch: `if self._stopping` and nothing is pending, it ends.
unfoldable pub after_batch : GrinderState → GrinderState
after_batch s = record s { phase = if s.stopping && is_empty s.pending then over else waiting }

-- `_grinder_loop`, when an exception other than CancelledError reaches it.
unfoldable pub loop_crashes : GrinderState → GrinderState
unfolding settle_batch
loop_crashes s = record (settle_batch (has_exception runtime_error) s.pending s) {
  pending = [];
  phase = crashed;
}

abbrev pub begin_of : List WorkItem → GrinderState → GrinderState
begin_of [] s = after_batch s
begin_of (x ∷ xs) s = record s { batch_seq = s.batch_seq + 1; phase = acquiring (x ∷ xs) }

-- `_process_batch`, up to the await of acquire.
unfoldable pub begin_batch : List WorkItem → GrinderState → GrinderState
unfolding live_items after_batch
begin_batch items s = begin_of (live_items s.futures items) s

abbrev pub loop_of : Turn × GrinderState → GrinderState
loop_of (batch [], s) = record s { phase = if s.stopping then over else waiting }
loop_of (batch (x ∷ xs), s) = begin_batch (x ∷ xs) s
loop_of (sleep _, s) = record s { phase = waiting }

-- `_grinder_loop`, from the top of a turn to the next await.
unfoldable pub loop_turn : GrinderConfig → ℕ → GrinderState → GrinderState
unfolding wait_for_next_batch begin_batch
loop_turn c now s = loop_of (wait_for_next_batch c now s)

-- `await lease.release()` in the finally of a batch that goes on with `next`, and what it raised.
abbrev pub after_release : (GrinderState → GrinderState) → Option Exn → GrinderState → GrinderState
after_release next none s = next s
after_release next (some cancelled) s = record s { phase = killed }
after_release next (some _) s = loop_crashes s

-- The submissions of a batch: the items that run_in_executor took, those from the first refusal on,
-- and the exception of that refusal. `refusal k` tells the outcome of the
-- k-th submission, from 0.
unfoldable pub submit_items :
    (ℕ → Option Exn) → List WorkItem → List WorkItem × List WorkItem × Option Exn
submit_items refusal [] = ([], [], none)
submit_items refusal (x ∷ xs) =
    let (taken, left, e) = submit_items (λ k. refusal (suc k)) xs in
    elim (refusal 0) [ none ↦ (x ∷ taken, left, e) | some e' ↦ ([], x ∷ xs, some e') ]

abbrev pub refuse : List WorkItem → Option Exn → GrinderState → GrinderState
refuse left none s = s
refuse left (some e) s = settle_batch (has_exception e) left s

abbrev pub gather_or_end : List WorkItem → List WorkItem → Option Exn → GrinderState → GrinderState
gather_or_end live [] released s = after_release after_batch released s
gather_or_end live (x ∷ xs) released s = record s { phase = gathering live (x ∷ xs) }

abbrev pub submitted_of :
    List WorkItem
    → Option Exn
    → GrinderState
    → List WorkItem × List WorkItem × Option Exn
    → GrinderState
submitted_of live released s (taken, left, e) = gather_or_end live taken released (refuse left e s)

-- From a lease on: the items are submitted, up to the await of gather. Without an executor future
-- the batch ends, and its release has the outcome `released`.
unfoldable pub batch_acquired :
    (ℕ → Option Exn) → Option Exn → List WorkItem → GrinderState → GrinderState
unfolding submit_items settle_batch after_batch loop_crashes
batch_acquired refusal released live s = submitted_of live released s (submit_items refusal live)

-- `except Exception` in a batch that has no lease.
unfoldable pub acquire_failed : Exn → List WorkItem → GrinderState → GrinderState
unfolding settle_batch after_batch
acquire_failed e live s = after_batch (settle_batch (has_exception e) live s)

abbrev pub outcome : Result ℕ → FutureState
outcome (ok v) = has_result v
outcome (raised e) = has_exception e

-- The loop over `zip(submitted_items, results, strict=True)`.
unfoldable pub settle_results :
    List WorkItem → List (Result ℕ) → GrinderState → Option Exn × GrinderState
unfolding settle_if_open
settle_results [] [] s = (none, s)
settle_results [] (r ∷ rs) s = (some value_error, s)
settle_results (x ∷ xs) [] s = (some value_error, s)
settle_results (x ∷ xs) (r ∷ rs) s =
    settle_results xs rs (settle_if_open x.result_future (outcome r) s)

abbrev pub gathered_of : List WorkItem → Option Exn → Option Exn × GrinderState → GrinderState
gathered_of live released (none, s) = after_release after_batch released s
gathered_of live released (some e, s) =
    after_release after_batch released (settle_batch (has_exception e) live s)

-- From the results of gather on.
unfoldable pub batch_gathered :
    List (Result ℕ) → Option Exn → List WorkItem → List WorkItem → GrinderState → GrinderState
unfolding settle_results settle_batch after_batch loop_crashes
batch_gathered results released live submitted s =
    gathered_of live released (settle_results submitted results s)

-- `except asyncio.CancelledError` in a batch, at either await; the exception goes on to the loop.
-- Without a lease `released` is none.
unfoldable pub batch_cancelled : Option Exn → List WorkItem → GrinderState → GrinderState
unfolding settle_batch loop_crashes
batch_cancelled released live s =
    after_release (λ t. record t { phase = killed }) released (settle_batch was_cancelled live s)
