-- ===== src/Manager/Acquire.antt =====
-- LeasedExecutorManager.acquire (src/leasepool/manager.py): one attempt under the lock, what
-- follows a failed attempt, and the loop over the waits between attempts.
use leasepool.Base.{
  ℕ, ◌+◌, String, Bool, false, not, ◌||◌, Option, none, some, List, [], ◌∷◌, ◌==◌, if◌then◌else◌,
  discard,
}
use leasepool.Base.Ints.{ℤ, pos, ◌-ℤ◌, leb_ℤ}
use leasepool.Base.Exec.{
  not_started, runtime_error, unavailable, timeout_error, Result, ok, raised, pure, modify, gets,
  lift, raise_if, ◌>>=◌, ◌>>◌,
}
use leasepool.Backends.{Executor}
use leasepool.Validation.{PyObject, coerce_finite_duration}
use leasepool.Manager.Config.{Config}
use leasepool.Manager.State.{State, Action, monotonic, wake_checker}
use leasepool.Manager.Table.{insert}
use leasepool.Manager.Pool.{take_or_create_available}
use leasepool.Manager.Leases.{revoke_expired_leases}

-- The arguments of `acquire`; an argument `lease_seconds` that is None is `none`. A timeout counts
-- ticks, as durations do.
pub record Request : Type 0 where
  pub lease_seconds : Option PyObject
  pub owner : Option String
  pub wait : Bool
  pub timeout : Option ℤ

-- `ExecutorLease`, as acquire makes it.
pub record ExecutorLease : Type 0 where
  pub lease_id : ℕ
  pub owner : Option String
  pub lease_seconds : ℕ
  pub grace_seconds : ℕ
  pub leased_at : ℕ
  pub released : Bool

abbrev owner_loop : Option ℕ → Option ℕ → Result ℕ
owner_loop none running = raised not_started
owner_loop (some l) none = raised runtime_error
owner_loop (some l) (some r) = if r == l then ok l else raised runtime_error

-- `_require_owner_loop`; `running` is the loop of the caller, if it runs on one.
unfoldable pub require_owner_loop : Option ℕ → Action ℕ
require_owner_loop running s = (owner_loop s.loop running, s)

abbrev pub lease_ticks : Config → Option PyObject → Result ℕ
lease_ticks c none =
    coerce_finite_duration false
      (PyObject.float (leasepool.Validation.Float.finite (pos c.default_lease_seconds)))
lease_ticks c (some v) = coerce_finite_duration false v

-- The checks before the loop, with the result that the loop starts from: the lease's duration and
-- `started_at`.
unfoldable pub acquire_begin : Config → Option ℕ → Request → Action (ℕ × ℕ)
unfolding require_owner_loop
acquire_begin c running q = do
  started ← gets λ s. s.started
  raise_if (not started) not_started
  require_owner_loop running
  lease_seconds ← lift (lease_ticks c q.lease_seconds)
  started_at ← monotonic c
  pure (lease_seconds, started_at)

abbrev pub grant : Config → Request → ℕ → Option Executor → Action (Option ExecutorLease)
grant c q lease_seconds none = pure none
grant c q lease_seconds (some executor) = do
  k ← gets λ s. s.reads
  modify λ s. record s { reads = k + 1 }
  leased_at ← monotonic c
  let lease_id = c.uuid k
  modify λ s. record s {
    leased =
        insert
          (record {
            lease_id = lease_id;
            ref = k;
            executor = executor;
            owner = q.owner;
            leased_at = leased_at;
            lease_seconds = lease_seconds;
            grace_seconds = c.lease_grace_seconds;
            pending_futures = [];
            release_requested = false;
            broken = false;
          })
          s.leased;
  }
  wake_checker
  pure (
      some (record {
        lease_id = lease_id;
        owner = q.owner;
        lease_seconds = lease_seconds;
        grace_seconds = c.lease_grace_seconds;
        leased_at = leased_at;
        released = false;
      }))

-- The section under the lock.
unfoldable pub try_acquire : Config → Request → ℕ → Action (Option ExecutorLease)
try_acquire c q lease_seconds = do
  closed ← gets λ s. not s.started || s.stopping
  raise_if closed not_started
  revoke_expired_leases c
  executor ← take_or_create_available c
  grant c q lease_seconds executor

abbrev pub time_left : Config → ℕ → Option ℤ → Action (Option ℤ)
time_left c started_at none = pure none
time_left c started_at (some timeout) = do
  now ← monotonic c
  let remaining = timeout -ℤ (pos now -ℤ pos started_at)
  raise_if (leb_ℤ remaining (pos 0)) timeout_error
  pure (some remaining)

abbrev pub or_not_started : Option ℕ → Result ℕ
or_not_started none = raised not_started
or_not_started (some event) = ok event

-- After a failed attempt: the event to wait for, and how long, if not for ever.
unfoldable pub prepare_wait : Config → Request → ℕ → Action (ℕ × Option ℤ)
prepare_wait c q started_at = do
  raise_if (not q.wait) unavailable
  remaining ← time_left c started_at q.timeout
  event ← gets λ s. s.availability_event
  event ← lift (or_not_started event)
  pure (event, remaining)

-- How a wait ended. What the other tasks did to the manager meanwhile is `between`.
pub record Wake : Type 0 where
  pub between : State → State
  pub timed_out : Bool

-- `event.clear()`, on every way out of the wait, and the TimeoutError.
abbrev pub wake_up : ℕ → Wake → Action (Unit {0})
wake_up event w = do
  modify w.between
  modify λ s. record s { set_events = discard event s.set_events }
  raise_if w.timed_out timeout_error

-- One round: the lease, or the event that the caller then waits for.
pub data Attempt : Type 0 where
  leased : ExecutorLease → Attempt
  waits : ℕ → Option ℤ → Attempt

abbrev pub after_try : Config → Request → ℕ → Option ExecutorLease → Action Attempt
after_try c q started_at (some lease) = pure (leased lease)
after_try c q started_at none = do
  (event, remaining) ← prepare_wait c q started_at
  pure (waits event remaining)

unfoldable pub attempt : Config → Request → ℕ → ℕ → Action Attempt
unfolding try_acquire prepare_wait
attempt c q lease_seconds started_at = do
  lease ← try_acquire c q lease_seconds
  after_try c q started_at lease

-- The loop of `acquire` over the waits that end; when they are used up, the caller still waits.
unfoldable pub acquire_loop : Config → Request → ℕ → ℕ → List Wake → Action (Option ExecutorLease)
acquire_loop c q lease_seconds started_at [] = do
  a ← attempt c q lease_seconds started_at
  pure (elim a [ leased lease ↦ some lease | waits event remaining ↦ none ])
acquire_loop c q lease_seconds started_at (w ∷ ws) = do
  a ← attempt c q lease_seconds started_at
  elim a [
    | leased lease ↦ pure (some lease)
    | waits event remaining ↦ (do wake_up event w; acquire_loop c q lease_seconds started_at ws)
  ]

unfoldable pub acquire : Config → Option ℕ → Request → List Wake → Action (Option ExecutorLease)
acquire c running q wakes = do
  (lease_seconds, started_at) ← acquire_begin c running q
  acquire_loop c q lease_seconds started_at wakes
