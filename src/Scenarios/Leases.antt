-- ===== src/Scenarios/Leases.antt =====
-- The use of a lease of the manager of Scenarios.Pools (src/leasepool/manager.py).
use mathlib.Core.Path.{subst}
use leasepool.Base.{
  ℕ, ◌+◌, ◌^◌, Option, ◌/◌, ◌≡◌, refl, ◌≤◌, true, false, none, some, [], ◌∷◌, length, inl, inr,
  arith, ◌==◌, ltb, if◌then◌else◌,
}
use leasepool.Base.Exec.{◌>>◌, ok, raised, lease_expired, runtime_error}
use leasepool.Backends.{build_executor}
use leasepool.Kwargs.{get, set, set_default}
use leasepool.Manager.Config.{Config, Submission, accepted, FutureOutcome}
use leasepool.Manager.State.{State, LeaseRecord, initial, monotonic, wake_checker}
use leasepool.Manager.Table.{find, insert, remove, update, expired_ids}
use leasepool.Manager.Sizing.{desired_executor_count}
use leasepool.Manager.Pool.{create_executor, take_or_create_available, ensure_minimum}
use leasepool.Manager.Leases.{
  revoke, release, submit_for_lease, revoke_all, revoke_expired_leases, on_lease_future_done,
  broken_exception_from_future, returned, finalize_released_record, should_keep,
}
use leasepool.Manager.Acquire.{ExecutorLease, attempt}
use leasepool.Manager.LogBridge.{start_process_logging_if_needed}
use leasepool.Manager.Lifecycle.{start}
use leasepool.Manager.Handle.{LeaseAction, on_manager, within_lease}
use leasepool.Manager.Stats.{ManagerStats, manager_stats, all_lease_stats}
use leasepool.Manager.Steps.{Reach, made, next, starts, attempts, releases}
use leasepool.Manager.Writes.Steps.{now, after}
use leasepool.Manager.Retirement.{may_become, stage, nowhere, stage-may_become}
use leasepool.Manager.Identity.{revoke_expired_leases-reached}
use leasepool.Manager.Losing.{release-loses}
use leasepool.Manager.LeaseUse.{release-refuses, within_lease-released}
use leasepool.Manager.Demand.{IsCeiling, IsTarget, demand, desired_executor_count-IsTarget}
use leasepool.Manager.Observing.{Ordered, manager_stats_sound}
use leasepool.Manager.Draining.{drops, DrainedFate, on_lease_future_done-drained}
use leasepool.Manager.Ledger.Leases.{dropped}
use leasepool.Manager.Drained
use leasepool.Manager.Releasing.{requested}
use leasepool.Manager.Checker.{checker_round, checker_turn}
use leasepool.Manager.Writes.{off}
use leasepool.Manager.Crashing.{not_yet, goes_on, checker_turn-crashes}
use leasepool.Scenarios.Pools.{
  ticking, pool, request, leased_pool, leased_pool-Reach, found_first, first_lease,
}

stage-may_become_example :
    may_become (stage 1 leased_pool) (stage 1 (release pool 1 leased_pool).1) ≡ true
stage-may_become_example = stage-may_become pool 1 leased_pool-Reach (after now (releases 1))

-- The lease of leased_pool, as its holder has it.
abbrev pub held : ExecutorLease
held = record {
  lease_id = 1;
  owner = none;
  lease_seconds = 300;
  grace_seconds = 15;
  leased_at = 2;
  released = false;
}

release-refuses_example :
    (submit_for_lease pool 1 (release pool 1 leased_pool).1).0 ≡ raised lease_expired
release-refuses_example = release-refuses pool 1 leased_pool-Reach

abbrev submits_once : LeaseAction ℕ
submits_once = on_manager (submit_for_lease pool 1)

within_lease-released_example :
    (within_lease pool submits_once (held, leased_pool)).1.0.released ≡ true
within_lease-released_example = within_lease-released pool submits_once (held, leased_pool)

-- A clock that jumps past the hard deadline, and a platform that cannot make a second executor.
abbrev brittle : Config
brittle = record pool {
  runtime = record ticking {
    clock = λ k. if ltb k 3 then k else 900;
    construct = λ seq. if seq == 2 then some runtime_error else none;
  };
}

brittle_leased : (attempt brittle request 300 0 (start brittle (some 7) initial).1).1 ≡ leased_pool
unfolding start attempt ensure_minimum desired_executor_count create_executor build_executor
    revoke_expired_leases start_process_logging_if_needed monotonic revoke_all expired_ids
    take_or_create_available wake_checker set_default get set insert
brittle_leased = refl

brittle-Reach : Reach brittle leased_pool
brittle-Reach =
    subst (Reach brittle) brittle_leased
      (next (next made (starts (some 7))) (attempts request 300 0))

release_fails : (release brittle 1 leased_pool).0 ≡ raised runtime_error
unfolding release find remove update finalize_released_record should_keep monotonic ensure_minimum
    desired_executor_count create_executor build_executor set_default get set
release_fails = refl

release-loses_example : stage 1 (release brittle 1 leased_pool).1 ≡ nowhere
release-loses_example =
    release-loses brittle 1 brittle-Reach found_first refl (inr (inr (inl (omega arith))))
      release_fails

revoke_expired_leases-reached_example : (revoke_expired_leases brittle leased_pool).1.leased ≡ []
revoke_expired_leases-reached_example = revoke_expired_leases-reached brittle brittle-Reach

rounds_up : (a q : ℕ) → a ≤ 2 ^ 53 → pool.ceil_div a 10 ≡ ok q → IsCeiling a 10 q
rounds_up a q small h =
    let same : (a + 9) / 10 ≡ q = ground (arith, h) in
    record { covers = omega (arith, same); least = λ k le. omega (arith, same, le) }

wanted : (desired_executor_count pool leased_pool).0 ≡ ok 1
unfolding desired_executor_count
wanted = refl

few_units : demand pool.size_provider leased_pool.reads ≤ 2 ^ 53
few_units = omega arith

desired_executor_count-IsTarget_example :
    IsTarget pool (demand pool.size_provider leased_pool.reads) 1
desired_executor_count-IsTarget_example =
    desired_executor_count-IsTarget pool leased_pool rounds_up few_units wanted

abbrev shown : ManagerStats
shown = record {
  backend = pool.backend;
  desired = 1;
  max_pools = 2;
  min_pools = 1;
  available = 0;
  leased = 1;
  total = 1;
  workers_per_pool = 4;
  leases = all_lease_stats 3 (first_lease ∷ []);
}

shows : manager_stats pool leased_pool ≡ (ok shown, record leased_pool { reads = 4 })
unfolding manager_stats monotonic desired_executor_count
shows = refl

manager_stats_sound_example :
    (shown.total ≡ shown.available + shown.leased)
    × (shown.total ≤ shown.max_pools)
    × (shown.desired ≤ shown.max_pools)
    × (length shown.leases ≡ shown.leased)
    × Ordered shown.leases
    × (record leased_pool { reads = 4 } ≡ record leased_pool { reads = 4 })
manager_stats_sound_example = manager_stats_sound pool leased_pool-Reach shows

abbrev outcome_of : Submission → Option FutureOutcome
outcome_of (accepted f d) = d
outcome_of _ = none

-- The lease, released while future 4 is pending.
abbrev draining_lease : LeaseRecord
draining_lease = record first_lease { pending_futures = 4 ∷ []; release_requested = true }

abbrev draining_pool : State
draining_pool = record leased_pool { leased = draining_lease ∷ [] }

found_draining : find 1 draining_pool.leased ≡ some draining_lease
unfolding find
found_draining = refl

on_lease_future_done-drained_example :
    let out = on_lease_future_done pool 1 4 returned draining_pool in
    (out.1.leased ≡ remove 1 draining_pool.leased)
    × DrainedFate pool (drops 4 draining_lease) draining_pool (dropped 1 draining_pool) out
unfolding broken_exception_from_future
on_lease_future_done-drained_example =
    on_lease_future_done-drained pool 1 4 returned draining_pool found_draining refl refl refl

-- The lease, with the futures 4 and 5 pending.
abbrev busy_lease : LeaseRecord
busy_lease = record first_lease { pending_futures = 4 ∷ 5 ∷ [] }

abbrev busy_pool : State
busy_pool = record leased_pool { leased = busy_lease ∷ [] }

found_busy : find 1 busy_pool.leased ≡ some busy_lease
unfolding find
found_busy = refl

-- Future 4 ends first.
abbrev four_ends : Drained.Ends
four_ends = (4, returned) ∷ []

on_lease_future_done-release_example :
    let (res, waiting) = (release pool 1 >> Drained.futures_done pool 1 four_ends) busy_pool in
    let out = on_lease_future_done pool 1 5 returned waiting in
    let both = λ (x : LeaseRecord). Drained.leaves four_ends (requested x) in
    (res ≡ ok tt)
    × (waiting ≡ record busy_pool { leased = update 1 both busy_pool.leased })
    × (find 1 waiting.leased ≡ some (both busy_lease))
    × (out.1.leased ≡ remove 1 busy_pool.leased)
    × DrainedFate pool (drops 5 (both busy_lease)) busy_pool (dropped 1 busy_pool) out
unfolding broken_exception_from_future Drained.left
on_lease_future_done-release_example =
    Drained.on_lease_future_done-release pool 1 5 returned four_ends busy_pool found_busy (λ e. cc)
      refl (refl, tt) refl

-- The checker finds the lease expired, and cannot make another executor.
checker_fails : (checker_round brittle leased_pool).0 ≡ raised runtime_error
unfolding checker_round revoke_expired_leases revoke_all revoke remove find expired_ids monotonic
    ensure_minimum desired_executor_count create_executor build_executor set_default get set
checker_fails = refl

checker_turn-crashes_example :
    let t = (release brittle 1 (checker_turn brittle leased_pool).1).1 in
    (t.started ≡ true) × (off t.checker_task ≡ true)
unfolding checker_turn release find checker_round revoke_expired_leases monotonic revoke_all
    expired_ids revoke ensure_minimum desired_executor_count remove create_executor build_executor
checker_turn-crashes_example =
    checker_turn-crashes brittle leased_pool refl checker_fails (goes_on not_yet (releases 1) refl)
