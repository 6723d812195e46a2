-- ===== src/Scenarios/Systems.antt =====
-- A concrete grinder over a concrete manager (src/leasepool/grinder.py, src/leasepool/manager.py).
use leasepool.Base.{zero, suc, ◌+◌, ℕ, List, ◌≤◌, ◌≡◌, refl, false, none, some, [], ◌∷◌, arith}
use leasepool.Base.Exec.{ok, raised, lease_expired}
use leasepool.Backends.{build_executor}
use leasepool.Kwargs.{get, set, set_default}
use leasepool.Manager.Config.{Config}
use leasepool.Manager.State.{State, initial, monotonic, wake_checker}
use leasepool.Manager.Table.{find, insert, update, expired_ids}
use leasepool.Manager.Sizing.{desired_executor_count}
use leasepool.Manager.Pool.{create_executor, take_or_create_available, ensure_minimum}
use leasepool.Manager.Leases.{
  on_lease_future_done, broken_exception_from_future, returned, release, submit_for_lease,
  revoke_all, revoke_expired_leases,
}
use leasepool.Manager.Acquire.{Request, ExecutorLease, attempt, leased}
use leasepool.Manager.LogBridge.{start_process_logging_if_needed}
use leasepool.Manager.Lifecycle.{start}
use leasepool.Manager.Handle.{lease_release}
use leasepool.Manager.Steps.{starts as manager_starts, attempts}
use leasepool.Manager.Writes.Steps.{now, after}
use leasepool.Grinder.State.{GrinderState, gathering}
use leasepool.Grinder.Queue.{enqueue, require_grinder_loop}
use leasepool.Grinder.Idle.{is_gathering, batch_gathered-Idle}
use leasepool.Grinder.Batch.{
  loop_turn, wait_for_next_batch, drain_pending, begin_batch, live_items, batch_gathered,
}
use leasepool.Grinder.Lifecycle.{start_grinder}
use leasepool.Grinder.Steps.{starts, enqueues, turns}
use leasepool.Grinder.Results.{futures_of, outcomes}
use leasepool.System.{
  System, FutureEnd, futures_end, batch_request, submit_batch, process_leased, release_lease,
  SystemReach, set_up, followed, manager_moves, grinder_moves, leases, results_come,
}
use leasepool.System.Held
use leasepool.System.LettingGo
use leasepool.System.Whole
use leasepool.Scenarios.Pools.{ticking, pool}
use leasepool.Scenarios.Batches.{batches, two_calls}

-- A clock that stands still.
abbrev steady : Config
steady = record pool { runtime = record ticking { clock = λ k. 2 } }

abbrev opened : State
opened = (start steady (some 1) initial).1

-- The loop is about to acquire a lease for the two calls.
abbrev asking : GrinderState
asking = loop_turn batches 4 two_calls

abbrev asking-Reach :
    SystemReach steady batches (record { manager = opened; grinder = asking; lease = none })
unfolding start_grinder enqueue require_grinder_loop loop_turn wait_for_next_batch drain_pending
    begin_batch live_items
asking-Reach =
    followed
      (followed
        (followed
          (followed (followed set_up (manager_moves (manager_starts (some 1))))
            (grinder_moves (starts 1) refl))
          (grinder_moves (enqueues (some 1) 101 5 none 3) refl))
        (grinder_moves (enqueues (some 1) 102 6 none 4) refl))
      (grinder_moves (turns 4 refl) refl)

abbrev asked : Request
asked = batch_request batches 1

abbrev batch_lease : ExecutorLease
batch_lease = record {
  lease_id = 1;
  owner = asked.owner;
  lease_seconds = 60;
  grace_seconds = 15;
  leased_at = 2;
  released = false;
}

abbrev granted : State
granted = (attempt steady asked 60 0 opened).1

gives_lease : attempt steady asked 60 0 opened ≡ (ok (leased batch_lease), granted)
unfolding start attempt ensure_minimum desired_executor_count create_executor build_executor
    revoke_expired_leases start_process_logging_if_needed monotonic revoke_all expired_ids
    take_or_create_available wake_checker set_default get set insert
gives_lease = refl

-- The future of the first call ends before the second call is submitted.
abbrev first_end : ℕ → List FutureEnd
first_end zero = []
first_end (suc zero) = record { lease_id = 1; future = granted.reads + 1; outcome = returned } ∷ []
first_end (suc (suc n)) = []

ordinary : (i : ℕ) → Whole.Ordinary 1 (first_end i)
unfolding broken_exception_from_future
ordinary zero = tt
ordinary (suc zero) = (refl, refl, tt)
ordinary (suc (suc n)) = tt

-- The loop waits for the results of the two calls.
abbrev working : System
working = process_leased steady batch_lease first_end two_calls.pending asking granted

working-Reach : SystemReach steady batches working
unfolding start_grinder enqueue require_grinder_loop loop_turn wait_for_next_batch drain_pending
    begin_batch live_items
working-Reach =
    followed asking-Reach
      (leases 0 two_calls.pending batch_lease first_end granted refl gives_lease)

system-Held_example : is_gathering working.grinder.phase ≡ Held.holds working.lease
system-Held_example = Held.system-Held steady batches working-Reach

calm : Whole.Undisturbed steady 77
calm = record { in_time = λ k. omega arith; takes = λ k. (k, none, refl, refl) }

release_returns : (lease_release steady (batch_lease, working.manager)).0 ≡ ok tt
unfolding start_grinder enqueue require_grinder_loop loop_turn wait_for_next_batch drain_pending
    begin_batch live_items start attempt ensure_minimum desired_executor_count create_executor
    build_executor revoke_expired_leases start_process_logging_if_needed monotonic revoke_all
    expired_ids take_or_create_available wake_checker set_default get set insert process_leased
    futures_end on_lease_future_done broken_exception_from_future submit_batch submit_for_lease
    update find release lease_release
release_returns = refl

is_working :
    (working.grinder.phase ≡ gathering two_calls.pending two_calls.pending)
    × (working.lease ≡ some batch_lease)
unfolding start_grinder enqueue require_grinder_loop loop_turn wait_for_next_batch drain_pending
    begin_batch live_items start attempt ensure_minimum desired_executor_count create_executor
    build_executor revoke_expired_leases start_process_logging_if_needed monotonic revoke_all
    expired_ids take_or_create_available wake_checker set_default get set insert process_leased
    futures_end on_lease_future_done broken_exception_from_future submit_batch submit_for_lease
    update find
is_working = (refl, refl)

batch-runs_whole_example :
    let u =
      release_lease steady batch_lease
        (λ released.
          batch_gathered
            (ok 25 ∷ ok 36 ∷ [])
            released
            two_calls.pending
            two_calls.pending
            working.grinder)
        working.manager in
    (working.grinder.phase ≡ gathering two_calls.pending two_calls.pending)
    × (working.lease ≡ some batch_lease)
    × (futures_of u.grinder.futures two_calls.pending ≡ outcomes (ok 25 ∷ ok 36 ∷ []))
unfolding start_grinder enqueue require_grinder_loop loop_turn wait_for_next_batch drain_pending
    begin_batch live_items
batch-runs_whole_example =
    Whole.batch-runs_whole steady asked 60 0 opened granted working.manager batch_lease asking
      first_end
      (record { work_id = 101; call = 5; result_future = 0; submitted_at = 3; owner = none })
      (record { work_id = 102; call = 6; result_future = 1; submitted_at = 4; owner = none } ∷ [])
      (ok 25 ∷ ok 36 ∷ []) gives_lease calm ordinary (refl, refl, (refl, refl, tt)) refl
      release_returns

-- The manager when the results have come, and the lease is released.
abbrev released_pool : State
released_pool = (lease_release steady (batch_lease, working.manager)).1.1

asked_twice : 2 ≤ released_pool.reads
unfolding start_grinder enqueue require_grinder_loop loop_turn wait_for_next_batch drain_pending
    begin_batch live_items start attempt ensure_minimum desired_executor_count create_executor
    build_executor revoke_expired_leases start_process_logging_if_needed monotonic revoke_all
    expired_ids take_or_create_available wake_checker set_default get set insert process_leased
    futures_end on_lease_future_done broken_exception_from_future submit_batch submit_for_lease
    update find release lease_release
asked_twice = omega arith

-- Then a lease is acquired anew.
batch-gives_back_example :
    (submit_for_lease steady 1 (attempt steady asked 60 0 released_pool).1).0 ≡ raised lease_expired
unfolding release_lease
batch-gives_back_example =
    LettingGo.batch-gives_back steady batches batch_lease working-Reach
      (results_come (ok 25 ∷ ok 36 ∷ []) two_calls.pending two_calls.pending batch_lease
        is_working.0 is_working.1)
      refl
      (batch_gathered-Idle (ok 25 ∷ ok 36 ∷ []) _ two_calls.pending two_calls.pending
        working.grinder)
      (λ n later same. omega (arith, asked_twice, later, same)) (after now (attempts asked 60 0))
