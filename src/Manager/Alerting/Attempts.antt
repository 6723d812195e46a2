-- ===== src/Manager/Alerting/Attempts.antt =====
-- An attempt of acquire leaves no executor idle without telling those who wait for one
-- (src/leasepool/manager.py).
use leasepool.Base.{
  ℕ, ◌+◌, false, not, ◌||◌, Option, none, some, ◌≡◌, refl, sym, subst, arith, inl, inr, Bool-cases,
}
use leasepool.Base.Ints.{ℤ, pos, ◌-ℤ◌, leb_ℤ}
use leasepool.Base.Exec.{
  Result, ok, raised, pure, lift, gets, raise_if, Keeps, Keeps-bind, bind-keeps, ◌>>=◌, unavailable,
  timeout_error,
}
use leasepool.Backends.{Executor}
use leasepool.Manager.Config.{Config}
use leasepool.Manager.State.{State, Action, monotonic, wake_checker}
use leasepool.Manager.Table.{insert}
use leasepool.Manager.Pool.{take_or_create_available}
use leasepool.Manager.Leases.{revoke_expired_leases}
use leasepool.Manager.Acquire.{
  Request, waits, ExecutorLease, grant, try_acquire, prepare_wait, after_try, attempt, time_left,
  or_not_started,
}
use leasepool.Manager.Acquiring.{record_of, from_take}
use leasepool.Manager.Revoking.{Distinct, revoke_expired_leases-returns}
use leasepool.Manager.Ledger.Pool.{take-cases}
use leasepool.Manager.Alerting.{Alert, Growing, Tells, Tells-then, Unmoved-Working, Unmoved-Alert}
use leasepool.Manager.Alerting.Methods
use leasepool.Manager.Alerting.Rounds.{revoke_expired-Working}

abbrev lease_of : Config → Request → ℕ → ℕ → ExecutorLease
lease_of c q ticks k = record {
  lease_id = c.uuid k;
  owner = q.owner;
  lease_seconds = ticks;
  grace_seconds = c.lease_grace_seconds;
  leased_at = c.clock (k + 1);
  released = false;
}

-- What holds after a bind whose first part comes to `r` and `t`.
bind_at :
    {A B : Type 0} (P : State → Type 0) (m : Action A) (f : A → Action B) {s t : State}
    (r : Result A)
    → m s ≡ (r, t)
    → P (elim r as (λ _. Result B × State) [ ok a ↦ f a t | raised x ↦ (raised x, t) ]).1
    → P ((m >>= f) s).1
bind_at {A} {B} P m f r e =
    subst
      (λ (p : Result A × State).
        P (elim p.0 as (λ _. Result B × State) [ ok a ↦ f a p.1 | raised x ↦ (raised x, p.1) ]).1)
      (sym e)

module _ {available scale loop : ℕ} (c : Config) where
  grant-Tells :
      (q : Request) (ticks : ℕ) (e : Executor)
      → Tells available scale loop (grant c q ticks (some e))
  unfolding monotonic
  grant-Tells q ticks e s w =
      let u : State = record s {
        reads = s.reads + 1 + 1;
        leased = insert (record_of c q ticks s.reads e) s.leased;
      } in
      Tells-then available scale loop wake_checker (λ _. pure (some (lease_of c q ticks s.reads)))
        Methods.wake_checker-Tells (λ _ t a. a) u
        (Unmoved-Working (refl, refl, refl, refl, refl, refl, refl) w)

  from_take-Tells : (q : Request) (ticks : ℕ) → Tells available scale loop (from_take c q ticks)
  from_take-Tells q ticks s w =
      let at : (r : Result (Option Executor)) (t : State)
          → take_or_create_available c s ≡ (r, t)
          → Alert available scale loop
              (elim r as (λ _. Result (Option ExecutorLease) × State) [
                | ok e ↦ grant c q ticks e t
                | raised x ↦ (raised x, t)
              ]).1
          → Alert available scale loop (from_take c q ticks s).1 =
        λ r t e.
          bind_at (Alert available scale loop) (take_or_create_available c) (grant c q ticks)
            {t = t} r e in
      elim (take-cases c s) [
        | inl (e, rest, idle, same) ↦
            at (ok (some e)) (record s { available = rest }) same
              (grant-Tells q ticks e (record s { available = rest })
                (Unmoved-Working (refl, refl, refl, refl, refl, refl, refl) w))
        | inr (inl (e, empty, room, numbered, same)) ↦
            at (ok (some e)) _ same (
              grant-Tells q ticks e _
                (Unmoved-Working (refl, refl, refl, refl, refl, refl, refl) w))
        | inr (inr (inl (x, empty, room, same))) ↦ at (raised x) _ same (record {
          working = Unmoved-Working (refl, refl, refl, refl, refl, refl, refl) w;
          told = ground (arith, empty);
        })
        | inr (inr (inr (empty, full, same))) ↦
            at (ok none) s same (record { working = w; told = ground (arith, empty) })
      ]

  try_acquire-Alert :
      (q : Request) (ticks : ℕ) {s : State}
      → Growing c
      → Distinct s.leased
      → Alert available scale loop s
      → Alert available scale loop (try_acquire c q ticks s).1
  unfolding try_acquire
  try_acquire-Alert q ticks {s} growing d a = elim (Bool-cases (not s.started || s.stopping)) [
    | inl shut ↦ rw shut a
    | inr going ↦
        let e = revoke_expired_leases-returns c s d growing in
        rw going (
          bind_at (Alert available scale loop) (revoke_expired_leases c) (λ _. from_take c q ticks)
            {t = (revoke_expired_leases c s).1} (ok tt) (λ i. (e i, (revoke_expired_leases c s).1))
            (from_take-Tells q ticks (revoke_expired_leases c s).1
              (revoke_expired-Working c s a.working)))
  ]

  time_left-Alert :
      (started_at : ℕ) (timeout : Option ℤ)
      → Keeps (Alert available scale loop) (time_left c started_at timeout)
  unfolding monotonic
  time_left-Alert started_at none s a = a
  time_left-Alert started_at (some v) s a =
      Keeps-bind (Alert available scale loop)
        (raise_if (leb_ℤ (v -ℤ (pos (c.clock s.reads) -ℤ pos started_at)) (pos 0)) timeout_error)
        (λ _. pure (some (v -ℤ (pos (c.clock s.reads) -ℤ pos started_at)))) (λ t b. b) (λ _ t b. b)
        (record s { reads = s.reads + 1 })
        (Unmoved-Alert (refl, refl, refl, refl, refl, refl, refl) refl a)

  prepare_wait-Alert :
      (q : Request) (started_at : ℕ)
      → Keeps (Alert available scale loop) (prepare_wait c q started_at)
  unfolding prepare_wait
  prepare_wait-Alert q started_at =
      let event_of : Option ℤ → Action (ℕ × Option ℤ) = λ remaining.
        gets (λ s. s.availability_event) >>= λ event.
        lift (or_not_started event) >>= λ e. pure (e, remaining) in
      Keeps-bind (Alert available scale loop) (raise_if (not q.wait) unavailable)
        (λ _. time_left c started_at q.timeout >>= event_of) (λ s a. a)
        (λ _.
          Keeps-bind (Alert available scale loop) (time_left c started_at q.timeout) event_of
            (time_left-Alert started_at q.timeout)
            (λ remaining s a.
              Keeps-bind (Alert available scale loop) (lift (or_not_started s.availability_event))
                (λ e. pure (e, remaining)) (λ t b. b) (λ e t b. b) s a))

  after_try-Alert :
      (q : Request) (started_at : ℕ) (o : Option ExecutorLease)
      → Keeps (Alert available scale loop) (after_try c q started_at o)
  after_try-Alert q started_at (some l) s a = a
  after_try-Alert q started_at none s a =
      Keeps-bind (Alert available scale loop) (prepare_wait c q started_at)
        (λ (event, remaining). pure (waits event remaining)) (prepare_wait-Alert q started_at)
        (λ _ t b. b) s a

  pub attempt-Alert :
      (q : Request) (ticks started_at : ℕ) {s : State}
      → Growing c
      → Distinct s.leased
      → Alert available scale loop s
      → Alert available scale loop (attempt c q ticks started_at s).1
  unfolding attempt
  attempt-Alert q ticks started_at {s} growing d a =
      let b = try_acquire-Alert q ticks growing d a in
      bind-keeps (Alert available scale loop) (try_acquire c q ticks) (after_try c q started_at) s
        (λ x failed. b) (λ o done. after_try-Alert q started_at o (try_acquire c q ticks s).1 b)
