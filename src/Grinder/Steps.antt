-- ===== src/Grinder/Steps.antt =====
-- The states that calls of WorkGrinder (src/leasepool/grinder.py), its loop, its callbacks, and the
-- callers that cancel futures can lead to. One call of stop is under way at a time.
use leasepool.Base.{ℕ, String, Bool, true, false, Option, none, List, ltb, ◌≡◌}
use leasepool.Base.Exec.{Exn, Result}
use leasepool.Grinder.State.{
  was_cancelled, WorkItem, GrinderConfig, waiting, killed, acquiring, gathering, GrinderState,
  new_grinder, settle_if_open,
}
use leasepool.Grinder.Queue.{enqueue, run_done_callback, run_removal}
use leasepool.Grinder.Batch.{
  loop_turn, batch_acquired, acquire_failed, batch_gathered, batch_cancelled,
}
use leasepool.Grinder.Lifecycle.{start_grinder, stop_grinder_begin, stop_grinder_finish, ended}

pub data GrinderStep (c : GrinderConfig) : GrinderState → GrinderState → Type 0 where
  starts : {s : GrinderState} (l : ℕ) → GrinderStep c s (start_grinder l s).1
  enqueues :
      {s : GrinderState} (running : Option ℕ) (w call : ℕ) (o : Option String) (now : ℕ)
      → GrinderStep c s (enqueue running w call o now s).1
  -- a caller cancels its future
  caller_cancels :
      {s : GrinderState} (f : ℕ)
      → ltb f s.future_count ≡ true
      → GrinderStep c s (settle_if_open f was_cancelled s)
  calls_back : {s : GrinderState} → GrinderStep c s (run_done_callback s)
  removes : {s : GrinderState} → GrinderStep c s (run_removal s)
  -- the loop, at the top of _wait_for_next_batch or woken in it
  turns : {s : GrinderState} (now : ℕ) → s.phase ≡ waiting → GrinderStep c s (loop_turn c now s)
  acquires :
      {s : GrinderState} (refusal : ℕ → Option Exn) (released : Option Exn) (live : List WorkItem)
      → s.phase ≡ acquiring live
      → GrinderStep c s (batch_acquired refusal released live s)
  acquire_raises :
      {s : GrinderState} (e : Exn) (live : List WorkItem)
      → s.phase ≡ acquiring live
      → GrinderStep c s (acquire_failed e live s)
  gathers :
      {s : GrinderState} (results : List (Result ℕ)) (released : Option Exn)
      (live submitted : List WorkItem)
      → s.phase ≡ gathering live submitted
      → GrinderStep c s (batch_gathered results released live submitted s)
  -- a CancelledError at an await of the loop
  waiting_cancelled :
      {s : GrinderState} → s.phase ≡ waiting → GrinderStep c s (record s { phase = killed })
  acquire_cancelled :
      {s : GrinderState} (live : List WorkItem)
      → s.phase ≡ acquiring live
      → GrinderStep c s (batch_cancelled none live s)
  gather_cancelled :
      {s : GrinderState} (released : Option Exn) (live submitted : List WorkItem)
      → s.phase ≡ gathering live submitted
      → GrinderStep c s (batch_cancelled released live s)
  stop_begins :
      {s : GrinderState} (running : Option ℕ) (cancelling : Bool)
      → GrinderStep c s (stop_grinder_begin running cancelling s).1
  stop_finishes :
      {s : GrinderState} (cancelling : Bool)
      → ended s.phase ≡ true
      → s.started ≡ true
      → s.stopping ≡ true
      → GrinderStep c s (stop_grinder_finish cancelling s).1

-- The steps of the grinder that do not touch the manager.
abbrev pub is_own : {g : GrinderConfig} {s t : GrinderState} → GrinderStep g s t → Bool
is_own (starts l) = true
is_own (enqueues running w call o now) = true
is_own (caller_cancels f h) = true
is_own calls_back = true
is_own removes = true
is_own (turns now p) = true
is_own (waiting_cancelled p) = true
is_own (stop_begins running cancelling) = true
is_own (stop_finishes cancelling a b d) = true
is_own _ = false

pub data GrinderReach (c : GrinderConfig) : GrinderState → Type 0 where
  new : GrinderReach c new_grinder
  next : {s t : GrinderState} → GrinderReach c s → GrinderStep c s t → GrinderReach c t
