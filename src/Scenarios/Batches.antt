-- ===== src/Scenarios/Batches.antt =====
-- A concrete work grinder: the inputs of the instances of the theorems on WorkGrinder.
use leasepool.Base.{
  length, ℕ, true, false, ◌||◌, ◌<◌, ◌≤◌, ◌+◌, ◌-◌, ◌==◌, if◌then◌else◌, ◌≡◌, refl, ◌⊎◌, inl,
  Option, none, some, [], ◌∷◌, arith,
}
use leasepool.Base.Exec.{Exn, runtime_error, ok}
use leasepool.Grinder.State.{
  unsettled, was_cancelled, absent, crashed, killed, is_done, WorkItem, GrinderConfig, GrinderState,
  new_grinder, settle_if_open, settle_batch,
}
use leasepool.Grinder.Queue.{enqueue, require_grinder_loop}
use leasepool.Grinder.Batch.{
  batch, sleep, loop_crashes, loop_turn, wait_for_next_batch, drain_pending, begin_batch,
  live_items, batch_acquired, submit_items, batch_gathered, settle_results, after_batch,
}
use leasepool.Grinder.Lifecycle.{start_grinder, stop_grinder_begin}
use leasepool.Grinder.Steps.{
  GrinderReach, new, next, starts, enqueues, turns, acquires, gathers, stop_begins,
}
use leasepool.Grinder.Settling.{queued}
use leasepool.Grinder.Accounted.{owed}
use leasepool.Grinder.Delivery
use leasepool.Grinder.Turning
use leasepool.Grinder.WindingDown
use leasepool.Grinder.Results
use leasepool.Grinder.Crash

abbrev pub batches : GrinderConfig
batches = record {
  max_wait_seconds = 10;
  batch_size_threshold = 2;
  lease_seconds = 60;
  owner_prefix = "work-grinder";
}

-- The second call is refused by the executor.
abbrev refuse_second : ℕ → Option Exn
refuse_second k = if k == 1 then some runtime_error else none

abbrev first_call : WorkItem
first_call = record { work_id = 101; call = 5; result_future = 0; submitted_at = 3; owner = none }

-- Two calls wait, 5 and 6.
abbrev pub two_calls : GrinderState
two_calls =
    (enqueue (some 1) 102 6 none 4
      (enqueue (some 1) 101 5 none 3 (start_grinder 1 new_grinder).1).1).1

two_calls-Reach : GrinderReach batches two_calls
two_calls-Reach =
    next (next (next new (starts 1)) (enqueues (some 1) 101 5 none 3))
      (enqueues (some 1) 102 6 none 4)

abbrev one_call : GrinderState
one_call = (enqueue (some 1) 101 5 none 3 (start_grinder 1 new_grinder).1).1

-- Their batch, with call 5 submitted.
abbrev working_batch : GrinderState
working_batch = batch_acquired refuse_second none two_calls.pending (loop_turn batches 4 two_calls)

-- The same after stop was called.
abbrev stopping_batch : GrinderState
stopping_batch = (stop_grinder_begin (some 1) false working_batch).1

stopping_batch-Reach : GrinderReach batches stopping_batch
unfolding start_grinder enqueue require_grinder_loop loop_turn wait_for_next_batch drain_pending
    begin_batch live_items
stopping_batch-Reach =
    next
      (next (next two_calls-Reach (turns 4 refl))
        (acquires refuse_second none two_calls.pending refl))
      (stop_begins (some 1) false)

abbrev finished : GrinderState
finished = batch_gathered (ok 25 ∷ []) none two_calls.pending (first_call ∷ []) stopping_batch

accounted_for_example :
    (is_done (stopping_batch.futures 0)
      || queued 0 stopping_batch.pending
      || owed 0 stopping_batch.phase)
    ≡ true
unfolding start_grinder enqueue require_grinder_loop loop_turn wait_for_next_batch drain_pending
    begin_batch live_items batch_acquired submit_items settle_batch settle_if_open
    stop_grinder_begin
accounted_for_example = Delivery.accounted_for batches 0 stopping_batch-Reach (omega arith)

finished-Reach : GrinderReach batches finished
unfolding start_grinder enqueue require_grinder_loop loop_turn wait_for_next_batch drain_pending
    begin_batch live_items batch_acquired submit_items settle_batch settle_if_open
    stop_grinder_begin
finished-Reach =
    next stopping_batch-Reach (gathers (ok 25 ∷ []) none two_calls.pending (first_call ∷ []) refl)

ended-settled_example : is_done (finished.futures 1) ≡ true
unfolding start_grinder enqueue require_grinder_loop loop_turn wait_for_next_batch drain_pending
    begin_batch live_items batch_acquired submit_items settle_batch settle_if_open
    stop_grinder_begin batch_gathered settle_results after_batch
ended-settled_example =
    Delivery.ended-settled batches 1 finished-Reach refl (inl refl) (omega arith)

wait_for_next_batch-sleep_example :
    (3 < 10 + 3)
    × (3 + 10 ≡ 10 + 3)
    × (length one_call.pending < 2)
    × (one_call.stopping ≡ false)
    × (8 < 10 + 3 → wait_for_next_batch batches 8 one_call ≡ (sleep (some (10 + 3 - 8)), one_call))
    × (10 + 3 ≤ 8
        → wait_for_next_batch batches 8 one_call
          ≡ (batch one_call.pending, record one_call { pending = [] }))
unfolding wait_for_next_batch enqueue require_grinder_loop start_grinder
wait_for_next_batch-sleep_example =
    Turning.wait_for_next_batch-sleep batches one_call 3 10 8 refl refl

batch_gathered-delivers_example :
    Results.futures_of
      (batch_gathered (ok 25 ∷ []) none two_calls.pending (first_call ∷ []) working_batch).futures
      (first_call ∷ [])
    ≡ Results.outcomes (ok 25 ∷ [])
unfolding start_grinder enqueue require_grinder_loop loop_turn wait_for_next_batch drain_pending
    begin_batch live_items batch_acquired submit_items settle_batch settle_if_open
batch_gathered-delivers_example =
    Results.batch_gathered-delivers (ok 25 ∷ []) two_calls.pending (first_call ∷ []) working_batch
      (refl, refl, tt) refl

-- The release of the batch's lease raised.
abbrev crashed_grinder : GrinderState
crashed_grinder =
    (enqueue (some 1) 103 7 none 30 (
      batch_gathered (ok 25 ∷ []) (some runtime_error) two_calls.pending (first_call ∷ [])
        working_batch)).1

lost_loop-unanswered_example :
    let t = (enqueue (some 1) 104 8 none 31 crashed_grinder).1 in
    ((t.phase ≡ crashed) ⊎ (t.phase ≡ killed) ⊎ (t.phase ≡ absent))
    × ((t.futures 2 ≡ unsettled) ⊎ (t.futures 2 ≡ was_cancelled))
unfolding start_grinder enqueue require_grinder_loop loop_turn wait_for_next_batch drain_pending
    begin_batch live_items batch_acquired submit_items settle_batch settle_if_open batch_gathered
    settle_results after_batch loop_crashes
lost_loop-unanswered_example =
    Crash.lost_loop-unanswered batches 2 {s = crashed_grinder} refl (inl refl) (inl refl)
      (Crash.goes_on Crash.not_yet (enqueues (some 1) 104 8 none 31) refl)

finishing : WindingDown.StopRun batches 1 stopping_batch finished
unfolding start_grinder enqueue require_grinder_loop loop_turn wait_for_next_batch drain_pending
    begin_batch live_items batch_acquired submit_items settle_batch settle_if_open
    stop_grinder_begin
finishing =
    WindingDown.one_more WindingDown.none_yet refl
      (gathers (ok 25 ∷ []) none two_calls.pending (first_call ∷ []) refl)

stopping-ends_example : 1 ≤ 6
unfolding start_grinder enqueue require_grinder_loop loop_turn wait_for_next_batch drain_pending
    begin_batch live_items batch_acquired submit_items settle_batch settle_if_open
    stop_grinder_begin
stopping-ends_example = WindingDown.stopping-ends batches finishing refl refl
