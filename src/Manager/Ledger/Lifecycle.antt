-- ===== src/Manager/Ledger/Lifecycle.antt =====
-- start, stop and the checker keep the ledger (src/leasepool/manager.py).
use leasepool.Base.{
  ℕ, ◌+◌, ◌≡◌, refl, false, Option, none, some, List, [], ◌∷◌, ◌++◌, arith, inl, inr, Bool-cases,
  discard,
}
use leasepool.Base.Ints.{ℤ}
use leasepool.Base.Exec.{
  pure, modify, on_error, ◌>>=◌, ◌>>◌, bind-keeps, Exec, Keeps, Keeps-bind, Keeps-on_error,
}
use leasepool.Backends.{Executor}
use leasepool.Manager.Config.{Config}
use leasepool.Manager.State.{State, LeaseRecord, wake_waiters, monotonic}
use leasepool.Manager.Sizing.{desired_executor_count}
use leasepool.Manager.Pool.{ensure_minimum, shrink_idle_if_above_target}
use leasepool.Manager.Leases.{revoke_expired_leases}
use leasepool.Manager.LogBridge.{start_process_logging_if_needed, stop_process_logging_if_needed}
use leasepool.Manager.Checker.{
  checker_work, checker_round, checker_turn, seconds_until_next_hard_expiry, wait_seconds,
  round_from,
}
use leasepool.Manager.Lifecycle.{
  executors_of, shutdown_all, take_all, launch, abort_start, start_fresh, start, stop_begin,
  stop_finish,
}
use leasepool.Manager.Ledger.Count.{Inv, count, count_leased, count-append}
use leasepool.Manager.Ledger.Sizes.{ensure-Inv, shrink_idle-Inv, desired-cases}
use leasepool.Manager.Ledger.Leases.{revoke_expired-Inv}
use leasepool.Manager.Ledger.Methods.{wake_waiters-Inv}

count-executors_of : (n : ℕ) (rs : List LeaseRecord) → count n (executors_of rs) ≡ count_leased n rs
count-executors_of n [] = refl
count-executors_of n (r ∷ rs) = omega (arith, count-executors_of n rs)

shutdown_all-Inv :
    (c : Config) (n k : ℕ) (es : List Executor) (s : State)
    → Inv c n 0 (k + count n es) s
    → Inv c n 0 k (shutdown_all es s).1
unfolding shutdown_all
shutdown_all-Inv c n k [] s v = ground (arith, v)
shutdown_all-Inv c n k (e ∷ es) s v =
    shutdown_all-Inv c n k es (record s { shut = s.shut ++ e ∷ [] })
      (ground (arith, count-append n s.shut (e ∷ [])))

-- Everything that the manager has is shut down.
drained-Inv :
    (c : Config) (n k : ℕ) (s : State)
    → Inv c n 0 k s
    → Inv c n 0 k
        (shutdown_all
          (s.available ++ executors_of s.leased)
          (record s { available = []; leased = [] })).1
drained-Inv c n k s v =
    shutdown_all-Inv c n k (s.available ++ executors_of s.leased)
      (record s { available = []; leased = [] })
      (ground
        (arith, count-append n s.available (executors_of s.leased), count-executors_of n s.leased))

module _ (c : Config) (n k : ℕ) where
  abbrev P : State → Type 0
  P = Inv c n 0 k

  desired-Inv : Keeps P (desired_executor_count c)
  desired-Inv s v = ground (arith, desired-cases c s)

  start_logging-Inv : Keeps P (start_process_logging_if_needed c)
  unfolding start_process_logging_if_needed
  start_logging-Inv s v = ground arith

  stop_logging-Inv : Keeps P (stop_process_logging_if_needed c)
  unfolding stop_process_logging_if_needed
  stop_logging-Inv s v = ground arith

  launch-Inv : Keeps P (launch c)
  launch-Inv s v =
      ground
        (arith, ensure-Inv c {n = n} {k = k} {s = record s { stopping = false }} (ground arith))

  -- The executors go, and then something else that keeps the ledger is done.
  drain-then :
      (s : State) (rest : Exec State (Unit {0}))
      → P s
      → Keeps P rest
      → P
          ((shutdown_all (s.available ++ executors_of s.leased) >> rest)
            (record s { available = []; leased = [] })).1
  drain-then s rest v keeps =
      let es = s.available ++ executors_of s.leased in
      let t : State = record s { available = []; leased = [] } in
      let w = drained-Inv c n k s v in
      bind-keeps P (shutdown_all es) (λ _. rest) t (λ _ _. w) (λ _ _. keeps (shutdown_all es t).1 w)

  abort-Inv : Keeps P (abort_start c)
  unfolding take_all
  abort-Inv s v = drain-then s (stop_process_logging_if_needed c) v stop_logging-Inv

  try_launch-Inv : Keeps P (on_error (launch c) (abort_start c))
  try_launch-Inv = Keeps-on_error P (launch c) (abort_start c) launch-Inv abort-Inv

  start_fresh-Inv : (caller : Option ℕ) → Keeps P (start_fresh c caller)
  start_fresh-Inv none s v = v
  start_fresh-Inv (some l) s v =
      let t : State = record s {
        loop = some l;
        availability_event = some s.events;
        scale_change_event = some (s.events + 1);
        events = s.events + 2;
      } in
      Keeps-bind P (start_process_logging_if_needed c)
        (λ _. on_error (launch c) (abort_start c) >> (desired_executor_count c >> pure tt))
        start_logging-Inv
        (λ _.
          Keeps-bind P (on_error (launch c) (abort_start c))
            (λ _. desired_executor_count c >> pure tt) try_launch-Inv
            (λ _. Keeps-bind P (desired_executor_count c) (λ _. pure tt) desired-Inv (λ _ u w. w)))
        t (ground arith)

  pub start-Inv : (caller : Option ℕ) → Keeps P (start c caller)
  unfolding start
  start-Inv caller s v = elim (Bool-cases s.started) [
    | inl on ↦ simp on (ground arith)
    | inr off ↦ simp off (start_fresh-Inv caller s v)
  ]

  pub stop_begin-Inv : (caller : Option ℕ) → Keeps P (stop_begin caller)
  unfolding stop_begin
  stop_begin-Inv caller s v = ground arith

  pub stop_finish-Inv : Keeps P (stop_finish c)
  unfolding stop_finish
  stop_finish-Inv s v =
      let f : State → State = λ t. record t {
        availability_event = none;
        scale_change_event = none;
        loop = none;
        stopping = false;
      } in
      drain-then (record s { checker_task = none; started = false })
        (stop_process_logging_if_needed c >> (wake_waiters >> modify f)) (ground arith)
        (Keeps-bind P (stop_process_logging_if_needed c) (λ _. wake_waiters >> modify f)
          stop_logging-Inv
          (λ _.
            Keeps-bind P wake_waiters (λ _. modify f) (λ t w. wake_waiters-Inv c w)
              (λ _ t w. ground (arith, w))))

  next_expiry-Inv : Keeps P (seconds_until_next_hard_expiry c)
  unfolding seconds_until_next_hard_expiry monotonic
  next_expiry-Inv s v = ground arith

  checker_work-Inv : (event : ℕ) → Keeps P (checker_work c event)
  checker_work-Inv event =
      let finish : Option ℤ → Exec State (ℕ × ℕ) =
        λ delay. wake_waiters >> pure (event, wait_seconds c delay) in
      let measure = seconds_until_next_hard_expiry c >>= finish in
      let resize = ensure_minimum c >> (shrink_idle_if_above_target c >> measure) in
      Keeps-bind P (revoke_expired_leases c) (λ _. resize) (λ t w. revoke_expired-Inv c w)
        (λ _.
          Keeps-bind P (ensure_minimum c) (λ _. shrink_idle_if_above_target c >> measure)
            (λ t w. ensure-Inv c w)
            (λ _.
              Keeps-bind P (shrink_idle_if_above_target c) (λ _. measure)
                (λ t w. shrink_idle-Inv c w)
                (λ _.
                  Keeps-bind P (seconds_until_next_hard_expiry c) finish next_expiry-Inv (λ delay.
                    Keeps-bind P wake_waiters (λ _. pure (event, wait_seconds c delay))
                      (λ t w. wake_waiters-Inv c w) (λ _ t w. w)))))

  round_from-Inv : (o : Option ℕ) → Keeps P (round_from c o)
  round_from-Inv none s v = v
  round_from-Inv (some event) s v =
      checker_work-Inv event (record s { set_events = discard event s.set_events }) (ground arith)

  checker_round-Inv : Keeps P (checker_round c)
  unfolding checker_round
  checker_round-Inv s v = round_from-Inv s.scale_change_event s v

  pub checker_turn-Inv : (s : State) → P s → P (checker_turn c s).1
  unfolding checker_turn
  checker_turn-Inv s v = ground (arith, checker_round-Inv s v)
