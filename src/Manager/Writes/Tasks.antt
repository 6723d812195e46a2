-- ===== src/Manager/Writes/Tasks.antt =====
-- acquire, start, stop and the checker are made of single writes, and so is every step of a manager in
-- use (src/leasepool/manager.py), but for the callbacks and threads that shut executors down.
use leasepool.Base.{
  ℕ, ◌+◌, refl, Bool, true, false, not, ◌||◌, Option, none, some, List, [], ◌∷◌, arith, inl, inr,
  discard,
}
use leasepool.Base.Ints.{ℤ}
use leasepool.Base.Exec.{
  pure, gets, modify, ◌>>=◌, ◌>>◌, raise_if, on_error, Result-cases, not_started,
}
use leasepool.Backends.{Executor}
use leasepool.Manager.Config.{Config}
use leasepool.Manager.State.{
  State, Action, LeaseRecord, monotonic, shutdown_executor, wake_waiters, wake_checker, running,
}
use leasepool.Manager.Table.{insert}
use leasepool.Manager.Sizing.{desired_executor_count}
use leasepool.Manager.Pool.{ensure_minimum, shrink_idle_if_above_target, take_or_create_available}
use leasepool.Manager.Leases.{revoke_expired_leases}
use leasepool.Manager.Acquire
use leasepool.Manager.Acquire.{
  Request, ExecutorLease, acquire_begin, grant, try_acquire, time_left, prepare_wait, after_try,
  attempt,
}
use leasepool.Manager.LogBridge.{start_process_logging_if_needed, stop_process_logging_if_needed}
use leasepool.Manager.Checker.{
  checker_work, checker_round, checker_turn, seconds_until_next_hard_expiry, wait_seconds,
  round_from,
}
use leasepool.Manager.Lifecycle.{
  shutdown_all, take_all, launch, abort_start, start_fresh, start, stop_begin, stop_finish,
}
use leasepool.Manager.Writes
use leasepool.Manager.Writes.{Mild, Writes, done, Writing, Writing-bind, Writing-then}
use leasepool.Manager.Writes.Methods

module _ (c : Config) where
  pub acquire_begin-Writing :
      {uuid : ℕ → ℕ} {calm : Bool}
      → (caller : Option ℕ) (q : Request) → Writing uuid calm (acquire_begin c caller q)
  unfolding acquire_begin monotonic
  acquire_begin-Writing caller q s =
      Methods.quiet (ground arith) (ground arith) (ground arith) (ground arith) (ground arith)
        (ground arith) (λ _ h. ground arith) (ground arith)

  grant-Writing :
      {calm : Bool}
      → (q : Request) (ticks : ℕ) (o : Option Executor) → Writing c.uuid calm (grant c q ticks o)
  unfolding monotonic
  grant-Writing q ticks none s = done
  grant-Writing q ticks (some e) s =
      let r : LeaseRecord = record {
        lease_id = c.uuid s.reads;
        ref = s.reads;
        executor = e;
        owner = q.owner;
        leased_at = c.clock (s.reads + 1);
        lease_seconds = ticks;
        grace_seconds = c.lease_grace_seconds;
        pending_futures = [];
        release_requested = false;
        broken = false;
      } in
      let t : State = record s { leased = insert r s.leased } in
      let u : State = record t { reads = s.reads + 1 + 1 } in
      let w : Writes _ _ s u =
        Writes.Writes-trans (Writes.one-Write (Writes.inserts r refl refl))
          (Methods.quiet {s = t} {t = u} (omega arith) refl refl refl refl refl (λ _ h. h) refl) in
      Writes.Writes-trans w (
        Writing-then wake_checker
          (pure (
            some (record {
              lease_id = r.lease_id;
              owner = q.owner;
              lease_seconds = ticks;
              grace_seconds = c.lease_grace_seconds;
              leased_at = r.leased_at;
              released = false;
            })))
          Methods.wake_checker-Writing (λ _. done) u)

  time_left-Writing :
      {uuid : ℕ → ℕ} {calm : Bool}
      → (started_at : ℕ) (timeout : Option ℤ) → Writing uuid calm (time_left c started_at timeout)
  unfolding monotonic
  time_left-Writing started_at none s = done
  time_left-Writing started_at (some z) s =
      Methods.quiet (ground arith) (ground arith) (ground arith) (ground arith) (ground arith)
        (ground arith) (λ _ h. ground arith) (ground arith)

  prepare_wait-Writing :
      {uuid : ℕ → ℕ} {calm : Bool}
      → (q : Request) (started_at : ℕ) → Writing uuid calm (prepare_wait c q started_at)
  unfolding prepare_wait monotonic
  prepare_wait-Writing q started_at s =
      Methods.quiet (ground arith) (ground arith) (ground arith) (ground arith) (ground arith)
        (ground arith) (λ _ h. ground arith) (ground arith)

  try_acquire-Writing :
      {calm : Bool} → (q : Request) (ticks : ℕ) → Writing c.uuid calm (try_acquire c q ticks)
  unfolding try_acquire
  try_acquire-Writing q ticks =
      let rest = revoke_expired_leases c >> (take_or_create_available c >>= grant c q ticks) in
      Writing-bind (gets λ t. not t.started || t.stopping) (λ b. raise_if b not_started >> rest)
        (λ s. done)
        (λ b.
          Writing-then (raise_if b not_started) rest (λ s. done)
            (Writing-then (revoke_expired_leases c) (take_or_create_available c >>= grant c q ticks)
              (Methods.revoke_expired-Writing c)
              (Writing-bind (take_or_create_available c) (grant c q ticks) (Methods.take-Writing c)
                (grant-Writing q ticks))))

  after_try-Writing :
      {uuid : ℕ → ℕ} {calm : Bool}
      → (q : Request) (started_at : ℕ) (o : Option ExecutorLease)
      → Writing uuid calm (after_try c q started_at o)
  after_try-Writing q started_at (some l) s = done
  after_try-Writing q started_at none s =
      Writing-bind (prepare_wait c q started_at) (λ (event, left). pure (Acquire.waits event left))
        (prepare_wait-Writing q started_at) (λ _ t. done) s

  pub attempt-Writing :
      {calm : Bool}
      → (q : Request) (ticks started_at : ℕ) → Writing c.uuid calm (attempt c q ticks started_at)
  unfolding attempt
  attempt-Writing q ticks started_at =
      Writing-bind (try_acquire c q ticks) (after_try c q started_at) (try_acquire-Writing q ticks)
        (after_try-Writing q started_at)

  start_logging-Writing :
      {uuid : ℕ → ℕ} {calm : Bool} → Writing uuid calm (start_process_logging_if_needed c)
  unfolding start_process_logging_if_needed
  start_logging-Writing s =
      Methods.quiet (ground arith) (ground arith) (ground arith) (ground arith) (ground arith)
        (ground arith) (λ _ h. ground arith) (ground arith)

  stop_logging-Writing :
      {uuid : ℕ → ℕ} {calm : Bool} → Writing uuid calm (stop_process_logging_if_needed c)
  unfolding stop_process_logging_if_needed
  stop_logging-Writing s =
      Methods.quiet (ground arith) (ground arith) (ground arith) (ground arith) (ground arith)
        (ground arith) (λ _ h. ground arith) (ground arith)

  shutdown_all-Writing :
      {uuid : ℕ → ℕ} {calm : Bool} → (es : List Executor) → Writing uuid calm (shutdown_all es)
  unfolding shutdown_all
  shutdown_all-Writing [] s = done
  shutdown_all-Writing (e ∷ es) s =
      Writing-then (shutdown_executor e) (shutdown_all es) (Methods.shutdown-Writing e)
        (shutdown_all-Writing es) s

  take_all-Writing : {uuid : ℕ → ℕ} {calm : Bool} → Writing uuid calm take_all
  unfolding take_all
  take_all-Writing s = Writes.one-Write (Writes.empties refl)

  launch-Writing : {uuid : ℕ → ℕ} → Writing uuid false (launch c)
  launch-Writing =
      let go : Action (Unit {0}) = modify λ s. record s { stopping = false } in
      let up : Action (Unit {0}) =
        modify λ s. record s { checker_task = some running; started = true } in
      Writing-then go (ensure_minimum c >> up)
        (λ s. Methods.quiet (omega arith) refl refl refl refl refl (λ _ h. h) refl)
        (Writing-then (ensure_minimum c) up (Methods.ensure-Writing c) (λ s.
          Writes.Writes-trans
            (Methods.quiet {t = record s { checker_task = some running }} (omega arith) refl refl
              refl refl refl (λ e _. absurd (ground (arith, e))) refl)
            (Writes.one-Write (Writes.turns true refl refl))))

  abort-Writing : {uuid : ℕ → ℕ} {calm : Bool} → Writing uuid calm (abort_start c)
  abort-Writing =
      Writing-bind take_all (λ es. shutdown_all es >> stop_process_logging_if_needed c)
        take_all-Writing
        (λ es.
          Writing-then (shutdown_all es) (stop_process_logging_if_needed c)
            (shutdown_all-Writing es) stop_logging-Writing)

  try_launch-Writing : {uuid : ℕ → ℕ} → Writing uuid false (on_error (launch c) (abort_start c))
  try_launch-Writing =
      Writes.Writing-on_error (launch c) (abort_start c) launch-Writing abort-Writing

  start_fresh-Writing :
      {uuid : ℕ → ℕ} → (caller : Option ℕ) → Writing uuid false (start_fresh c caller)
  start_fresh-Writing none s = done
  start_fresh-Writing (some l) s =
      let make : Action (Unit {0}) = modify λ s. record s {
        loop = some l;
        availability_event = some s.events;
        scale_change_event = some (s.events + 1);
        events = s.events + 2;
      } in
      let report : Action (Unit {0}) = desired_executor_count c >> pure tt in
      let try = on_error (launch c) (abort_start c) in
      Writing-then make (start_process_logging_if_needed c >> (try >> report))
        (λ t. Methods.quiet (omega arith) refl refl refl refl refl (λ _ h. h) refl)
        (Writing-then (start_process_logging_if_needed c) (try >> report) start_logging-Writing (
          Writing-then try report try_launch-Writing (
            Writing-then (desired_executor_count c) (pure tt) (Methods.desired-Writing c)
              (λ t. done))))
        s

  require-Writing :
      {uuid : ℕ → ℕ} {calm : Bool}
      → (caller : Option ℕ) → Writing uuid calm (Acquire.require_owner_loop caller)
  unfolding Acquire.require_owner_loop
  require-Writing caller s = done

  pub start-Writing : {uuid : ℕ → ℕ} → (caller : Option ℕ) → Writing uuid false (start c caller)
  unfolding start
  start-Writing caller s =
      Writes.Writing-if s.started (Acquire.require_owner_loop caller >> pure tt)
        (start_fresh c caller)
        (Writing-then (Acquire.require_owner_loop caller) (pure tt) (require-Writing caller)
          (λ t. done))
        (start_fresh-Writing caller) s

  pub stop_begin-Writing :
      {uuid : ℕ → ℕ} {calm : Bool} → (caller : Option ℕ) → Writing uuid calm (stop_begin caller)
  unfolding stop_begin
  stop_begin-Writing caller s =
      Methods.quiet (ground arith) (ground arith) (ground arith) (ground arith) (ground arith)
        (ground arith) (λ _ h. ground arith) (ground arith)

  pub stop_finish-Writing : {uuid : ℕ → ℕ} → Writing uuid false (stop_finish c)
  unfolding stop_finish
  stop_finish-Writing =
      let off : Action (Unit {0}) = modify λ s. record s { checker_task = none } in
      let down : Action (Unit {0}) = modify λ s. record s { started = false } in
      let forget : Action (Unit {0}) = modify λ s. record s {
        availability_event = none;
        scale_change_event = none;
        loop = none;
        stopping = false;
      } in
      let rest = stop_process_logging_if_needed c >> (wake_waiters >> forget) in
      Writing-then off (take_all >>= λ es. down >> (shutdown_all es >> rest))
        (λ s. Methods.quiet (omega arith) refl refl refl refl refl (λ _ _. refl) refl)
        (Writing-bind take_all (λ es. down >> (shutdown_all es >> rest)) take_all-Writing
          (λ es.
            Writing-then down (shutdown_all es >> rest)
              (λ s. Writes.one-Write (Writes.turns false refl refl))
              (Writing-then (shutdown_all es) rest (shutdown_all-Writing es) (
                Writing-then (stop_process_logging_if_needed c) (wake_waiters >> forget)
                  stop_logging-Writing
                  (Writing-then wake_waiters forget Methods.wake_waiters-Writing
                    (λ s. Methods.quiet (omega arith) refl refl refl refl refl (λ _ h. h) refl))))))

  next_expiry-Writing :
      {uuid : ℕ → ℕ} {calm : Bool} → Writing uuid calm (seconds_until_next_hard_expiry c)
  unfolding seconds_until_next_hard_expiry monotonic
  next_expiry-Writing s =
      Methods.quiet (ground arith) (ground arith) (ground arith) (ground arith) (ground arith)
        (ground arith) (λ _ h. ground arith) (ground arith)

  checker_work-Writing :
      {uuid : ℕ → ℕ} {calm : Bool} → (event : ℕ) → Writing uuid calm (checker_work c event)
  checker_work-Writing event =
      let finish : Option ℤ → Action (ℕ × ℕ) =
        λ delay. wake_waiters >> pure (event, wait_seconds c delay) in
      let measure = seconds_until_next_hard_expiry c >>= finish in
      Writing-then (revoke_expired_leases c)
        (ensure_minimum c >> (shrink_idle_if_above_target c >> measure))
        (Methods.revoke_expired-Writing c)
        (Writing-then (ensure_minimum c) (shrink_idle_if_above_target c >> measure)
          (Methods.ensure-Writing c)
          (Writing-then (shrink_idle_if_above_target c) measure (Methods.shrink_idle-Writing c) (
            Writing-bind (seconds_until_next_hard_expiry c) finish next_expiry-Writing (λ delay.
              Writing-then wake_waiters (pure (event, wait_seconds c delay))
                Methods.wake_waiters-Writing (λ t. done)))))

  round_from-Writing :
      {uuid : ℕ → ℕ} {calm : Bool} → (o : Option ℕ) → Writing uuid calm (round_from c o)
  round_from-Writing none s = done
  round_from-Writing (some event) s =
      Writing-then (modify λ t. record t { set_events = discard event t.set_events })
        (checker_work c event)
        (λ t. Methods.quiet (omega arith) refl refl refl refl refl (λ _ h. h) refl)
        (checker_work-Writing event) s

  checker_round-Writing : {uuid : ℕ → ℕ} {calm : Bool} → Writing uuid calm (checker_round c)
  unfolding checker_round
  checker_round-Writing s = round_from-Writing s.scale_change_event s

  pub checker_turn-Writing :
      {uuid : ℕ → ℕ} {calm : Bool} → (s : State) → Writes uuid calm s (checker_turn c s).1
  unfolding checker_turn
  checker_turn-Writing s =
      let w = checker_round-Writing s in
      elim (Result-cases (checker_round c s).0) [
        | inl (x, e) ↦ rw (e, checker_turn) w
        | inr (x, e) ↦
            rw (e, checker_turn)
              (Writes.Writes-trans w
                (Methods.quiet (omega arith) refl refl refl refl refl (λ _ _. refl) refl))
      ]
