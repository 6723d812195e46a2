-- ===== src/Scenarios/Waits.antt =====
-- The waits of the manager of Scenarios.Pools: of a caller of acquire, and of the checker task
-- (src/leasepool/manager.py).
use leasepool.Base.{
  member, ◌⊎◌, ◌≢◌, subst, ◌-◌, ◌≡◌, refl, if◌then◌else◌, true, false, some, [], ◌∷◌, ◌++◌, length,
  max, arith, ap, ◌≢◌, discard,
}
use leasepool.Base.Ints.{pos}
use leasepool.Base.Exec.{ok}
use leasepool.Backends.{build_executor}
use leasepool.Kwargs.{get, set, set_default}
use leasepool.Manager.Config.{Config}
use leasepool.Manager.State.{
  State, initial, monotonic, wake_checker, wake_waiters, shutdown_executor, current_count,
  set_event,
}
use leasepool.Manager.Table.{insert, expired_ids, find, update, remove}
use leasepool.Manager.Sizing.{desired_executor_count}
use leasepool.Manager.Pool.{
  create_executor, take_or_create_available, ensure_minimum, shrink_idle_if_above_target,
}
use leasepool.Manager.Leases.{
  revoke_all, revoke_expired_leases, release, finalize_released_record, should_keep,
}
use leasepool.Manager.Acquire.{
  Request, ExecutorLease, leased, waits, attempt, acquire_loop, prepare_wait, try_acquire, Wake,
}
use leasepool.Manager.LogBridge.{start_process_logging_if_needed, stop_process_logging_if_needed}
use leasepool.Manager.Lifecycle.{start, stop_begin, stop_finish, take_all, shutdown_all}
use leasepool.Manager.Steps.{attempts, starts, made, releases, Reach, next, stops, finishes_stop}
use leasepool.Manager.Serving.{acquire_loop-served}
use leasepool.Manager.Writes.{off}
use leasepool.Manager.Ownership.Steps.{owns_none_unless_started}
use leasepool.Manager.Checker.{checker_round, seconds_until_next_hard_expiry, least}
use leasepool.Manager.Waiting.{
  drains, past, stopped, times_out, resumes, is_cancelled, wait_for_all,
}
use leasepool.Manager.Cancelling.{hears, wait_on-cancelled}
use leasepool.Manager.Sleeping.{Sleeps, checker_round_sleep}
use leasepool.Manager.Balance.{checker_round_balances}
use leasepool.Manager.Acquiring.{Granted, attempt-Granted}
use leasepool.Manager.Queueing.{Waits, attempt-Waits}
use leasepool.Scenarios.Pools.{pool, request, leased_pool, leased_pool-Reach, first_executor}
use leasepool.Scenarios.Leases.{held}
use leasepool.Manager.Alerting.{Working, Growing, Gives, Any}
use leasepool.Manager.Alerting.Growth.{sizes-Growing}
use leasepool.Manager.Alerting.Steps.{lies_down, sleeps_on}
use leasepool.Manager.Alerting.Arrival.{Asleep-woken, run_ready}
use leasepool.Manager.Checker.{checker_turn}

-- After a round of the checker.
abbrev checked_pool : State
checked_pool = record leased_pool { reads = 5; ready = set_event 1 ∷ set_event 0 ∷ [] }

checks_pool : checker_round pool leased_pool ≡ (ok (1, 120), checked_pool)
unfolding checker_round seconds_until_next_hard_expiry least revoke_expired_leases revoke_all
    expired_ids monotonic ensure_minimum shrink_idle_if_above_target desired_executor_count
    wake_waiters
checks_pool = refl

checker_round_sleep_example :
    Sleeps pool (pool.clock (checked_pool.reads - 1)) 120 checked_pool.leased
checker_round_sleep_example = checker_round_sleep pool leased_pool checked_pool checks_pool

always_one : (u : State) → (desired_executor_count pool u).0 ≡ ok 1
unfolding desired_executor_count
always_one u = refl

checker_round_balances_example : current_count checked_pool ≡ max 1 (length checked_pool.leased)
checker_round_balances_example =
    checker_round_balances pool leased_pool checked_pool always_one checks_pool

wait_on-cancelled_example :
    wait_for_all (is_cancelled ∷ (times_out ∷ []) ++ resumes ∷ []) (drains false)
    ≡ (if hears (drains false) then stopped else past)
wait_on-cancelled_example = wait_on-cancelled (drains false) (times_out ∷ []) refl

abbrev started_pool : State
started_pool = (start pool (some 7) initial).1

attempts_lease : attempt pool request 300 0 started_pool ≡ (ok (leased held), leased_pool)
unfolding start attempt ensure_minimum desired_executor_count create_executor build_executor
    revoke_expired_leases start_process_logging_if_needed monotonic revoke_all expired_ids
    take_or_create_available wake_checker set_default get set insert
attempts_lease = refl

attempt-Granted_example :
    (started_pool.started ≡ true)
    × (started_pool.stopping ≡ false)
    × Granted pool request 300 held leased_pool
attempt-Granted_example = attempt-Granted pool request 300 0 started_pool leased_pool attempts_lease

-- A pool that one lease fills.
abbrev small : Config
small = record pool { max_pools = 1 }

abbrev hurried : Request
hurried = record request { timeout = some (pos 60) }

abbrev refused_pool : State
refused_pool = record leased_pool { reads = 5 }

waits_a_while :
    attempt small hurried 300 0 leased_pool ≡ (ok (waits 0 (some (pos 56))), refused_pool)
unfolding attempt revoke_expired_leases monotonic revoke_all expired_ids take_or_create_available
    create_executor prepare_wait try_acquire
waits_a_while = refl

attempt-Waits_example : Waits small hurried 0 0 (some (pos 56)) refused_pool
attempt-Waits_example = attempt-Waits small hurried 300 0 0 leased_pool refused_pool waits_a_while

-- After stop.
abbrev stopped_pool : State
stopped_pool = (stop_finish pool (stop_begin (some 7) leased_pool).1).1

stopped_pool-Reach : Reach pool stopped_pool
stopped_pool-Reach = next (next leased_pool-Reach (stops (some 7))) finishes_stop

not_started : stopped_pool.started ≡ false
unfolding stop_begin stop_finish take_all shutdown_all shutdown_executor
    stop_process_logging_if_needed wake_waiters
not_started = refl

owns_none_unless_started_example :
    (stopped_pool.available ≡ [])
    × (stopped_pool.leased ≡ [])
    × (off stopped_pool.checker_task ≡ true)
owns_none_unless_started_example = owns_none_unless_started pool stopped_pool-Reach not_started

-- While the caller waits, the lease is released.
abbrev release_wake : Wake
release_wake = record { between = λ s. (release small 1 s).1; timed_out = false }

abbrev freed_pool : State
freed_pool = record refused_pool {
  available = first_executor ∷ [];
  leased = [];
  reads = 6;
  ready = set_event 1 ∷ set_event 0 ∷ set_event 1 ∷ [];
}

frees : (release small 1 refused_pool).1 ≡ freed_pool
unfolding release find update remove finalize_released_record should_keep monotonic ensure_minimum
    desired_executor_count wake_waiters wake_checker
frees = refl

frees_one : (release_wake.between refused_pool).available ≢ []
frees_one e = let shown = ap (λ s. s.available) frees in ground (arith, e, shown)

nothing_expired :
    (revoke_expired_leases small (record (release_wake.between refused_pool) {
      set_events = discard 0 (release_wake.between refused_pool).set_events;
    })).0
    ≡ ok tt
unfolding revoke_expired_leases revoke_all expired_ids monotonic release find update remove
    finalize_released_record should_keep ensure_minimum desired_executor_count wake_waiters
    wake_checker
nothing_expired = refl

acquire_loop-served_example :
    (l : ExecutorLease) × (v : State) × (acquire_loop small hurried 300 0
        (release_wake ∷ [])
        leased_pool
      ≡ (ok (some l), v))
    × Granted small hurried 300 l v
acquire_loop-served_example =
    acquire_loop-served small hurried 300 0 0 release_wake [] leased_pool refused_pool waits_a_while
      refl (ap (λ s. s.started) frees) (ap (λ s. s.stopping) frees) frees_one nothing_expired

makes_executors : Gives Any (create_executor small)
unfolding create_executor build_executor set_default get set
makes_executors s = (_, refl, tt)

small-Growing : Growing small
unfolding desired_executor_count
small-Growing = sizes-Growing small (λ s. (_, refl, tt)) makes_executors

small_leased : (attempt small request 300 0 (start small (some 7) initial).1).1 ≡ leased_pool
unfolding start attempt ensure_minimum desired_executor_count create_executor build_executor
    revoke_expired_leases start_process_logging_if_needed monotonic revoke_all expired_ids
    take_or_create_available wake_checker set_default get set insert
small_leased = refl

small-Reach : Reach small leased_pool
small-Reach =
    subst (Reach small) small_leased (next (next made (starts (some 7))) (attempts request 300 0))

is_working : Working 0 1 7 refused_pool
is_working = record {
  started = refl;
  going = refl;
  event = refl;
  changes = refl;
  on_its_loop = refl;
  loop_open = refl;
  checking = refl;
}

-- While the caller sleeps, the lease is released.
abbrev freed : State
freed = (release small 1 refused_pool).1

Asleep-woken_example :
    (member 0 (run_ready freed).set_events ≡ true)
    ⊎ ((member 1 (run_ready freed).set_events ≡ true)
        × (member 0 (run_ready (checker_turn small (run_ready freed)).1).set_events ≡ true))
Asleep-woken_example =
    Asleep-woken small hurried 300 0 0 1 7 leased_pool refused_pool freed small-Growing small-Reach
      waits_a_while is_working (sleeps_on lies_down (releases 1) refl) frees_one
