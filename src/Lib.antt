-- ===== src/Lib.antt =====
-- Verification library of leasepool, an executor lease pool for asyncio programs (src/leasepool).
--
-- A LeasedExecutorManager (src/leasepool/manager.py) owns executors, which it makes by build_executor
-- (src/leasepool/backends.py) up to max_pools. acquire() lends one under a lease; the caller submits
-- work through the lease, and release() or the hard deadline ends it. The executor then goes back to
-- the idle ones or is shut down. A checker task revokes leases that have run out and adjusts the
-- number of executors to a target, which a size provider may raise. For the process backend the
-- manager also forwards the workers' log records (src/leasepool/_process_logging.py). A WorkGrinder
-- (src/leasepool/grinder.py) batches work onto leases.
--
-- Which file models what:
-- - Base and its children: shared tests, lists, integers, and methods with state and exceptions (Exec:
--   what a method wrote before it raised stays written; Results: the same without state).
-- - Kwargs: the dictionary of keyword arguments that an executor is built with.
-- - Backends: backends.py, with normalize_backend, resolve_executor_cls and build_executor under their
--   own names. Whether InterpreterPoolExecutor can be imported and whether a constructor raises are
--   arguments.
-- - Validation: _coerce_positive_int and _coerce_finite_duration of manager.py.
-- - ProcessLogging: _process_logging.py.
-- - Manager.Config: LeasedExecutorManager.__init__ (init) and the attributes that it fixes (Config).
--   Runtime holds what the manager asks of Python and the platform.
-- - Manager.State: the attributes that methods change, with _LeaseRecord; time.monotonic,
--   _shutdown_executor, _shutdown_executor_from_callback, _wake_waiters and _wake_checker.
-- - Manager.Table: the operations of the dictionary _leased.
-- - Manager.Sizing: _unit_count_locked and _desired_executor_count_locked.
-- - Manager.Pool: _create_executor_locked, _take_or_create_available_locked, _ensure_minimum_locked
--   and _shrink_idle_if_above_target_locked.
-- - Manager.Leases: _revoke_expired_leases_locked, _retire_broken_record_locked,
--   _finalize_released_record_locked, release, _submit_for_lease and _on_lease_future_done.
-- - Manager.Acquire: acquire, in sections between its awaits, and as a loop over the waits.
-- - Manager.LogBridge: _start_process_logging_if_needed and _stop_process_logging_if_needed.
-- - Manager.Handle: what acquire hands out: ExecutorLease and _LeasedExecutorProxy.
-- - Manager.Stats: stats, available_count, leased_count and total_count.
-- - Manager.Checker: a round of _checker_loop; Manager.Waiting: _wait_for_checker_event between its
--   awaits, and the loop of rounds and waits; Manager.Lifecycle: start and stop.
-- - Manager.Steps: all of these as steps of one relation, in any order.
-- - Manager.Writes: that every method is a sequence of single writes, and what such sequences keep.
-- - Manager.Ledger, Manager.Growth, Manager.Waking, Manager.Releasing, Manager.Submitting,
--   Manager.Revoking, Manager.Stopping, Manager.Demand, Manager.Identity, Manager.Retirement,
--   Manager.Losing, Manager.LeaseUse, Manager.Expired, Manager.Observing, Manager.Draining,
--   Manager.Drained, Manager.Settled, Manager.Rounds, Manager.Sleeping, Manager.Balance,
--   Manager.Cancelling, Manager.Acquiring, Manager.Queueing, Manager.Serving, Manager.Alerting,
--   Manager.Crashing, Manager.Ownership and Manager.Forwarding: proofs.
-- - Grinder.State, Grinder.Queue, Grinder.Batch and Grinder.Lifecycle: WorkGrinder. Queue has
--   _require_owner_loop, _reject_owner_loop_thread_sync_call, enqueue, submit_from_thread, the done
--   callback with _remove_cancelled_pending_item, and the statistics; Batch has _grinder_loop,
--   _wait_for_next_batch, _drain_pending_locked and _process_batch, cut at their awaits; Lifecycle
--   has start and stop, cut at the await of the task. Names that the manager has too carry grinder.
-- - Grinder.Steps: all of these, and callers that cancel futures, as steps of one relation.
-- - Grinder.Effects, Grinder.Settling, Grinder.Accounted, Grinder.Kept, Grinder.Ending,
--   Grinder.Soundness, Grinder.Delivery, Grinder.Results, Grinder.Turning, Grinder.Stopping,
--   Grinder.WindingDown, Grinder.Crash and Grinder.Idle: proofs.
-- - System: _process_batch of a grinder together with the manager that it leases from: acquire, the
--   submissions through the lease and release are the manager's, and both take their other steps as
--   they like. System.Refining, System.Held, System.LettingGo and System.Whole: proofs.
-- - Scenarios: concrete inputs.
--
-- How the model stands to the code:
-- - A section under the lock is atomic, and so are the shutdowns and wake-ups that follow it.
-- - Each answer of the environment (the clock, a uuid, the size provider, executor.submit) is read
--   under a number of its own, in the order of the reads, and can be any function of that number.
-- - An executor is known by the number executor_seq under which it was built; a future, an event loop
--   and a logger by a number.
-- - Durations and times count ticks of a fixed length; rounding of floats is left out. math.ceil of a
--   quotient of floats is a parameter, which can also raise; up to 2 ^ 53 it can be relied on to be
--   the ceiling of the exact quotient, above that not.
-- - executor.submit returns a future that may be done already, as a quick call on an idle thread often
--   is. add_done_callback then runs _on_lease_future_done at once, inside of the submission; else the
--   future ends in a later step.
-- - What a value's own __index__ and __float__ return or raise is part of the value.
-- - mp_context.Queue, the start of a queue listener and its stop may raise; what was assigned before
--   stays assigned.
-- - The loops of _ensure_minimum_locked and _shrink_idle_if_above_target_locked have as many rounds
--   as executors are missing, or idle: each round adds one executor, or takes one away, or ends.
-- - stop() cancels the checker task in its first part; in Manager.Steps the cancellation is taken to
--   arrive. When it does is a matter of Manager.Waiting, which follows the task through its awaits;
--   the end of an await and the code up to the next one are one event there.
-- - Logging calls of the library's own logger are left out, but for what their arguments compute.
-- - The grinder's condition is never held over an await, as with the wait_for of Python 3.12 on, so
--   that its sections are atomic; the loop may wake at any time. acquire, run_in_executor, gather
--   and release may have any outcome, and a CancelledError may arrive at each await of the loop.
-- - In System the submissions of a batch follow one another without an await; only futures that end in
--   threads meanwhile, in any number, come between two of them.
-- - In System, lease is the handle of the latest batch; after the batch it is there still, released.
-- - In System the results of gather can be any; the cancel() that a cancelled batch calls on the
--   executor's futures shows as their end, a later step of the manager.
-- - One call of the grinder's stop is under way at a time.
--
-- Not modelled: the await of the future in ExecutorLease.run, the threads, processes and queues behind
-- Python's executors, and the programs of examples and tests, which call the library and print.
pub mod Base
pub mod Kwargs
pub mod Backends
pub mod Validation
pub mod ProcessLogging
pub mod Manager
pub mod Grinder
pub mod System
mod Scenarios
