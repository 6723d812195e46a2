-- ===== src/Manager/Ledger/Acquire.antt =====
-- Attempts to acquire a lease keep the ledger (acquire of src/leasepool/manager.py).
use leasepool.Base.{ℕ, ◌+◌, false, not, ◌||◌, Option, none, some, [], arith}
use leasepool.Base.Ints.{ℤ}
use leasepool.Base.Exec.{not_started, gets, raise_if, ◌>>=◌, ◌>>◌, bind-keeps, Keeps, Keeps-bind}
use leasepool.Backends.{Executor}
use leasepool.Manager.Config.{Config}
use leasepool.Manager.State.{State, LeaseRecord, monotonic}
use leasepool.Manager.Table.{insert}
use leasepool.Manager.Pool.{take_or_create_available}
use leasepool.Manager.Leases.{revoke_expired_leases}
use leasepool.Manager.Acquire.{
  Request, ExecutorLease, acquire_begin, grant, try_acquire, time_left, prepare_wait, after_try,
  attempt,
}
use leasepool.Manager.Ledger.Count.{Inv, count_option}
use leasepool.Manager.Ledger.Pool.{take-Inv, granted_slot}
use leasepool.Manager.Ledger.Leases.{revoke_expired-Inv}
use leasepool.Manager.Ledger.Table.{count-insert}
use leasepool.Manager.Ledger.Methods.{wake_checker-Inv}

module _ (c : Config) (n k : ℕ) where
  abbrev P : State → Type 0
  P = Inv c n 0 k

  reads-Inv : Keeps P (monotonic c)
  unfolding monotonic
  reads-Inv s v = ground arith

  pub acquire_begin-Inv : (running : Option ℕ) (q : Request) → Keeps P (acquire_begin c running q)
  unfolding acquire_begin monotonic
  acquire_begin-Inv running q s v = ground arith

  -- The slot and the executor that were held go into the table.
  grant-Inv :
      (q : Request) (ticks : ℕ) (o : Option Executor) (s : State)
      → Inv c n (granted_slot o) (k + count_option n o) s
      → P (grant c q ticks o s).1
  unfolding monotonic
  grant-Inv q ticks none s v = ground (arith, v)
  grant-Inv q ticks (some e) s v =
      let r : LeaseRecord = record {
        lease_id = c.uuid s.reads;
        ref = s.reads;
        executor = e;
        owner = q.owner;
        leased_at = c.clock (s.reads + 1);
        lease_seconds = ticks;
        grace_seconds = c.lease_grace_seconds;
        pending_futures = [];
        release_requested = false;
        broken = false;
      } in
      let t : State = record s { reads = s.reads + 1 + 1; leased = insert r s.leased } in
      let w : P t = ground (arith, count-insert n r s.leased) in
      ground (arith, wake_checker-Inv c w)

  -- A failed attempt raises, or says what to wait for.
  time_left-Inv : (started_at : ℕ) (timeout : Option ℤ) → Keeps P (time_left c started_at timeout)
  unfolding monotonic
  time_left-Inv started_at none s v = v
  time_left-Inv started_at (some z) s v = ground arith

  prepare_wait-Inv : (q : Request) (started_at : ℕ) → Keeps P (prepare_wait c q started_at)
  unfolding prepare_wait
  prepare_wait-Inv q started_at s v = ground (arith, time_left-Inv started_at q.timeout s v)

  pub try_acquire-Inv : (q : Request) (ticks : ℕ) → Keeps P (try_acquire c q ticks)
  unfolding try_acquire
  try_acquire-Inv q ticks s v =
      bind-keeps P (gets λ t. not t.started || t.stopping)
        (λ b.
          raise_if b not_started
          >> (revoke_expired_leases c >> (take_or_create_available c >>= grant c q ticks)))
        s (λ x h. v)
        λ b _.
          bind-keeps P (raise_if b not_started)
            (λ _. revoke_expired_leases c >> (take_or_create_available c >>= grant c q ticks)) s
            (λ x h. v)
            λ _ _.
              bind-keeps P (revoke_expired_leases c)
                (λ _. take_or_create_available c >>= grant c q ticks) s
                (λ x h. revoke_expired-Inv c v)
                λ _ _.
                  let t = (revoke_expired_leases c s).1 in
                  let w = take-Inv c (revoke_expired-Inv c v) in
                  bind-keeps P (take_or_create_available c) (grant c q ticks) t
                    (λ x h. ground (arith, w))
                    λ o h. grant-Inv q ticks o (take_or_create_available c t).1 (rw h at w)

  pub attempt-Inv : (q : Request) (ticks started_at : ℕ) → Keeps P (attempt c q ticks started_at)
  unfolding attempt
  attempt-Inv q ticks started_at =
      Keeps-bind P (try_acquire c q ticks) (after_try c q started_at) (try_acquire-Inv q ticks)
        (after_try-Inv q started_at)
    where
      after_try-Inv :
          (q : Request) (started_at : ℕ) (o : Option ExecutorLease)
          → Keeps P (after_try c q started_at o)
      after_try-Inv q started_at (some lease) s v = v
      after_try-Inv q started_at none s v = ground (arith, prepare_wait-Inv q started_at s v)
