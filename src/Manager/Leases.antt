-- ===== src/Manager/Leases.antt =====
-- What becomes of a lease (src/leasepool/manager.py): revocation on expiry, retirement of a broken
-- executor, submission of work, the end of a future, and release.
use leasepool.Base.{
  ℕ, ◌+◌, Bool, true, false, not, ◌&&◌, Option, none, some, List, [], ◌∷◌, ◌++◌, ◌==◌, ltb, leb,
  if◌then◌else◌, is_empty, is_none, discard, add_member,
}
use leasepool.Base.Exec.{
  ok, Exn, broken_executor, key_error, lease_expired, pure, modify, gets, raise, raise_if, raise_if,
  ◌>>=◌, ◌>>◌,
}
use leasepool.Backends.{Executor}
use leasepool.Manager.Config.{
  Config, Submission, accepted, broken, refused, FutureOutcome, was_cancelled, returned, failed,
}
pub use leasepool.Manager.Config.{FutureOutcome, was_cancelled, returned, failed}
use leasepool.Manager.State.{
  Action, LeaseRecord, hard_expires_at, current_count, monotonic, shutdown_executor, wake_waiters,
  wake_checker, shutdown_executor_from_callback,
}
use leasepool.Manager.Table.{find, remove, update, expired_ids}
use leasepool.Manager.Sizing.{desired_executor_count}
use leasepool.Manager.Pool.{ensure_minimum}

abbrev pub drop_record : ℕ → Action (Unit {0})
drop_record lease_id = modify λ s. record s { leased = remove lease_id s.leased }

abbrev popped : ℕ → Option LeaseRecord → Action (Unit {0})
popped lease_id none = raise key_error
popped lease_id (some r) = do drop_record lease_id; shutdown_executor r.executor

-- One round of the loop of _revoke_expired_leases_locked: `_leased.pop(lease_id)` and the shutdown.
unfoldable pub revoke : ℕ → Action (Unit {0})
unfolding shutdown_executor
revoke lease_id s = popped lease_id (find lease_id s.leased) s

unfoldable pub revoke_all : List ℕ → Action (Unit {0})
revoke_all [] = pure tt
revoke_all (k ∷ ks) = do revoke k; revoke_all ks

abbrev pub unless_empty : List ℕ → Action (Unit {0}) → Action (Unit {0})
unless_empty [] m = pure tt
unless_empty (k ∷ ks) m = m

unfoldable pub revoke_expired_leases : Config → Action (Unit {0})
revoke_expired_leases c = do
  now ← monotonic c
  ids ← gets λ s. expired_ids now s.leased
  revoke_all ids
  unless_empty ids (ensure_minimum c)

-- `current is record`
abbrev pub is_current : Option LeaseRecord → LeaseRecord → Bool
is_current none r = false
is_current (some x) r = x.ref == r.ref

abbrev pub retire_current : Config → ℕ → LeaseRecord → Action (Option Executor)
retire_current c lease_id r = do
  drop_record lease_id
  let r' = record r { release_requested = true; pending_futures = []; broken = true }
  modify λ s. record s { retired = s.retired ++ r' ∷ [] }
  ensure_minimum c
  pure (some r.executor)

-- `_retire_broken_record_locked`
unfoldable pub retire_broken_record : Config → ℕ → LeaseRecord → Action (Option Executor)
retire_broken_record c lease_id r s =
    (if is_current (find lease_id s.leased) r then retire_current c lease_id r else pure none) s

-- Whether a released executor goes back to the pool; the clock and the size provider are asked
-- only where the tests before them pass.
abbrev pub keep_within_target : Config → Bool → Action Bool
keep_within_target c false = pure false
keep_within_target c true = do
  target ← desired_executor_count c
  count ← gets current_count
  pure (leb (count + 1) target)

abbrev pub before_deadline : Config → LeaseRecord → Bool → Action Bool
before_deadline c r false = pure false
before_deadline c r true = do now ← monotonic c; pure (ltb now (hard_expires_at r))

unfoldable pub should_keep : Config → LeaseRecord → Action Bool
should_keep c r = do
  stopping ← gets λ s. s.stopping
  in_time ← before_deadline c r (not r.broken && not stopping)
  keep_within_target c in_time

abbrev pub append_if : Bool → Executor → Action (Unit {0})
append_if true e = modify λ s. record s { available = s.available ++ e ∷ [] }
append_if false e = pure tt

abbrev pub finalize_current : Config → ℕ → LeaseRecord → Action (Option Executor × Bool)
finalize_current c lease_id r = do
  drop_record lease_id
  keep ← should_keep c r
  append_if keep r.executor
  ensure_minimum c
  pure (if keep then none else some r.executor, true)

-- `_finalize_released_record_locked`
unfoldable pub finalize_released_record : Config → ℕ → LeaseRecord → Action (Option Executor × Bool)
finalize_released_record c lease_id r s =
    (if is_current (find lease_id s.leased) r && r.release_requested && is_empty r.pending_futures
        then finalize_current c lease_id r
        else pure (none, false))
      s

abbrev pub shutdown_some : Option Executor → Action (Unit {0})
shutdown_some none = pure tt
shutdown_some (some e) = shutdown_executor e

abbrev pub wake_if : Bool → Action (Unit {0})
wake_if false = pure tt
wake_if true = do wake_waiters; wake_checker

abbrev pub release_idle : Config → ℕ → LeaseRecord → Action (Unit {0})
release_idle c lease_id r = if not (is_empty r.pending_futures) then pure tt else do
  (executor_to_shutdown, finalized) ← finalize_released_record c lease_id r
  shutdown_some executor_to_shutdown
  wake_if finalized

abbrev pub release_found : Config → ℕ → Option LeaseRecord → Action (Unit {0})
release_found c lease_id none = pure tt
release_found c lease_id (some r) = do
  modify λ s. record s {
    leased = update lease_id (λ x. record x { release_requested = true }) s.leased;
  }
  release_idle c lease_id (record r { release_requested = true })

-- `LeasedExecutorManager.release`
unfoldable pub release : Config → ℕ → Action (Unit {0})
release c lease_id s = release_found c lease_id (find lease_id s.leased) s

-- `_broken_exception_from_future`
unfoldable pub broken_exception_from_future : FutureOutcome → Option Exn
broken_exception_from_future (failed broken_executor) = some broken_executor
broken_exception_from_future _ = none

abbrev pub callback_shutdown : Option Executor → Action (Unit {0})
callback_shutdown none = pure tt
callback_shutdown (some e) = shutdown_executor_from_callback e

abbrev pub settle : Config → ℕ → LeaseRecord → Option Exn → Action (Unit {0})
settle c lease_id r (some e) = do
  executor_to_shutdown ← retire_broken_record c lease_id r
  callback_shutdown executor_to_shutdown
  wake_if (not (is_none executor_to_shutdown))
settle c lease_id r none =
    if r.release_requested && is_empty r.pending_futures
    then (do
      (executor_to_shutdown, finalized) ← finalize_released_record c lease_id r
      callback_shutdown executor_to_shutdown
      wake_if finalized)
    else pure tt

abbrev pub future_done_found : Config → ℕ → ℕ → Option Exn → Option LeaseRecord → Action (Unit {0})
future_done_found c lease_id future broken_exc none = pure tt
future_done_found c lease_id future broken_exc (some r) = do
  modify λ s. record s {
    leased =
        update lease_id (λ x. record x { pending_futures = discard future x.pending_futures })
          s.leased;
  }
  settle c lease_id (record r { pending_futures = discard future r.pending_futures }) broken_exc

-- `_on_lease_future_done`
unfoldable pub on_lease_future_done : Config → ℕ → ℕ → FutureOutcome → Action (Unit {0})
unfolding broken_exception_from_future
on_lease_future_done c lease_id future outcome s =
    future_done_found c lease_id future (broken_exception_from_future outcome)
      (find lease_id s.leased) s

-- `future.add_done_callback(...)`: where the future is done already, its callback runs at once, and
-- Python logs an exception of it. Otherwise it runs when the future ends.
abbrev pub add_done_callback : Config → ℕ → ℕ → Option FutureOutcome → Action (Unit {0})
add_done_callback c lease_id future none = pure tt
add_done_callback c lease_id future (some outcome) =
    λ s. (ok tt, (on_lease_future_done c lease_id future outcome s).1)

-- After the lock: the executor is shut down, the sleepers are woken, and an error is raised.
abbrev pub conclude : Option Executor → Exn → Action ℕ
conclude none e = raise e
conclude (some x) e = do shutdown_executor x; wake_waiters; wake_checker; raise e

-- The outcome of `record.executor.submit`; an exception that is no BrokenExecutor passes through.
abbrev pub submitted : Config → ℕ → LeaseRecord → Submission → Action ℕ
submitted c lease_id r (accepted future done) = do
  modify λ s. record s {
    leased =
        update lease_id (λ x. record x { pending_futures = add_member future x.pending_futures })
          s.leased;
  }
  add_done_callback c lease_id future done
  pure future
submitted c lease_id r (broken e) = do x ← retire_broken_record c lease_id r; conclude x e
submitted c lease_id r (refused e) = raise e

abbrev pub revoke_late : Config → ℕ → LeaseRecord → Action ℕ
revoke_late c lease_id r = do
  drop_record lease_id
  ensure_minimum c
  conclude (some r.executor) lease_expired

abbrev pub submit_in_time : Config → ℕ → LeaseRecord → Action ℕ
submit_in_time c lease_id r = do
  k ← gets λ s. s.reads
  modify λ s. record s { reads = k + 1 }
  submitted c lease_id r (c.submit k)

abbrev pub submit_active : Config → ℕ → LeaseRecord → Action ℕ
submit_active c lease_id r = do
  now ← monotonic c
  raise_if r.release_requested lease_expired
  if leb (hard_expires_at r) now then revoke_late c lease_id r else submit_in_time c lease_id r

abbrev pub submit_found : Config → ℕ → Option LeaseRecord → Action ℕ
submit_found c lease_id none = raise lease_expired
submit_found c lease_id (some r) = submit_active c lease_id r

-- `_submit_for_lease`, which `_LeasedExecutorProxy.submit` calls; the result is the future.
unfoldable pub submit_for_lease : Config → ℕ → Action ℕ
submit_for_lease c lease_id s = submit_found c lease_id (find lease_id s.leased) s
