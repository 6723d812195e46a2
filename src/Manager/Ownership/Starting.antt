-- ===== src/Manager/Ownership/Starting.antt =====
-- start and stop (src/leasepool/manager.py) leave a manager that is started, or that owns nothing.
use leasepool.Base.{
  ℕ, ◌+◌, true, false, Option, none, some, [], ◌++◌, ◌≡◌, refl, ap, subst, sym, arith, ◌⊎◌, inl,
  inr,
}
use leasepool.Base.Exec.{Exn, ok, raised, Result-cases, bind-keeps, on_error, ◌>>◌}
use leasepool.Manager.Config.{Config}
use leasepool.Manager.State.{State, Action, wake_waiters}
use leasepool.Manager.Sizing.{desired_executor_count}
use leasepool.Manager.Pool.{ensure_minimum}
use leasepool.Manager.LogBridge.{start_process_logging_if_needed, stop_process_logging_if_needed}
use leasepool.Manager.Lifecycle.{
  start, start_fresh, launch, abort_start, take_all, stop_finish, executors_of,
}
use leasepool.Manager.Waking.{notify_lem}
use leasepool.Manager.Stopping.{shutdown_all_lem}
use leasepool.Manager.Growth.{ensure-extends}
use leasepool.Manager.Ledger.Sizes.{desired-cases}
use leasepool.Manager.Ownership.{
  Down, Free, Same, start_logging-Same, stop_logging-Same, Same-Free, Sound, Same-Sound,
}

-- The handler of a start that failed.
abort-Free : (c : Config) (s : State) → Down s → Free (abort_start c s).1
unfolding take_all
abort-Free c s d =
    let es = s.available ++ executors_of s.leased in
    let t : State = record s { available = []; leased = [] } in
    let u : State = record t { shut = t.shut ++ es } in
    let v : Free u = record {
      at_rest = record { down = d.down; no_checker = d.no_checker };
      none_idle = refl;
      none_lent = refl;
    } in
    let same : abort_start c s ≡ stop_process_logging_if_needed c u =
      ap (λ (r, w). elim r [ ok _ ↦ stop_process_logging_if_needed c w | raised x ↦ (raised x, w) ])
        (shutdown_all_lem es t) in
    subst (λ q. Free q.1) (sym same)
      (Same-Free u (stop_process_logging_if_needed c u).1 (stop_logging-Same c u) v)

launch-cases :
    (c : Config) (s : State)
    → Down s
    → (((launch c s).0 ≡ ok tt) × ((launch c s).1.started ≡ true))
      ⊎ ((x : Exn) × ((launch c s).0 ≡ raised x) × Down (launch c s).1)
launch-cases c s d =
    let u : State = record s { stopping = false } in
    let (new, reads, seq, built, same) = ensure-extends c u in
    elim (Result-cases (ensure_minimum c u).0) [
      | inl (a, e) ↦ inl (ground (arith, e), ground (arith, e))
      | inr (x, e) ↦ inr (
        x,
        ground (arith, e),
        record {
          down = ground (arith, e, same, d.down);
          no_checker = ground (arith, e, same, d.no_checker);
        },
      )
    ]

try_launch-Sound :
    (c : Config) (s : State) → Down s → Sound (on_error (launch c) (abort_start c) s).1
try_launch-Sound c s d = elim (launch-cases c s d) [
  | inl (e, up) ↦ inl (rw (e, on_error) up)
  | inr (x, e, down) ↦
      let f = abort-Free c (launch c s).1 down in
      elim (Result-cases (abort_start c (launch c s).1).0) [
        | inl (a, e') ↦ rw (e, e', on_error) (inr f)
        | inr (y, e') ↦ rw (e, e', on_error) (inr f)
      ]
]

desired-Same : (c : Config) (s : State) → Same s (desired_executor_count c s).1
desired-Same c s = elim (desired-cases c s) [
  | inl (d, k, capped, e) ↦
      rw e (record { started = refl; checker_task = refl; available = refl; leased = refl })
  | inr (x, k, e) ↦
      rw e (record { started = refl; checker_task = refl; available = refl; leased = refl })
]

start_fresh-Sound :
    (c : Config) (caller : Option ℕ) (s : State) → Free s → Sound (start_fresh c caller s).1
start_fresh-Sound c none s f = inr f
start_fresh-Sound c (some l) s f =
    let u : State = record s {
      loop = some l;
      availability_event = some s.events;
      scale_change_event = some (s.events + 1);
      events = s.events + 2;
    } in
    let g : Free u = record {
      at_rest = record { down = f.at_rest.down; no_checker = f.at_rest.no_checker };
      none_idle = f.none_idle;
      none_lent = f.none_lent;
    } in
    let try = on_error (launch c) (abort_start c) in
    let report : Action (Unit {0}) = desired_executor_count c >> (λ t. (ok tt, t)) in
    bind-keeps Sound (start_process_logging_if_needed c) (λ _. try >> report) u
      (λ x e. inr (Same-Free u (start_process_logging_if_needed c u).1 (start_logging-Same c u) g))
      (λ a e.
        let v = (start_process_logging_if_needed c u).1 in
        let h = Same-Free u v (start_logging-Same c u) g in
        bind-keeps Sound try (λ _. report) v (λ x e'. try_launch-Sound c v h.at_rest)
          (λ b e'.
            let w = (try v).1 in
            bind-keeps Sound (desired_executor_count c) (λ _ t. (ok tt, t)) w
              (λ x e''. Same-Sound w _ (desired-Same c w) (try_launch-Sound c v h.at_rest))
              (λ k e''. Same-Sound w _ (desired-Same c w) (try_launch-Sound c v h.at_rest))))

wake_waiters-Same : (s : State) → Same s (wake_waiters s).1
unfolding wake_waiters
wake_waiters-Same s =
    rw (notify_lem s.availability_event s.loop s.loop_closed s)
      (record { started = refl; checker_task = refl; available = refl; leased = refl })

forget-Free :
    {s : State}
    → Free s
    → Free (record s {
      availability_event = none;
      scale_change_event = none;
      loop = none;
      stopping = false;
    })
forget-Free f = record {
  at_rest = record { down = f.at_rest.down; no_checker = f.at_rest.no_checker };
  none_idle = f.none_idle;
  none_lent = f.none_lent;
}

pub stop_finish-Free : (c : Config) (s : State) → Free (stop_finish c s).1
unfolding stop_finish take_all
stop_finish-Free c s =
    let es = s.available ++ executors_of s.leased in
    let t : State = record s {
      checker_task = none;
      available = [];
      leased = [];
      started = false;
    } in
    let u : State = record t { shut = t.shut ++ es } in
    let v : Free u = record {
      at_rest = record { down = refl; no_checker = refl };
      none_idle = refl;
      none_lent = refl;
    } in
    let forget : Action (Unit {0}) = λ w. (
      ok tt,
      record w {
        availability_event = none;
        scale_change_event = none;
        loop = none;
        stopping = false;
      },
    ) in
    let rest = stop_process_logging_if_needed c >> (wake_waiters >> forget) in
    let same : stop_finish c s ≡ rest u =
      ap (λ (r, w). elim r [ ok _ ↦ rest w | raised x ↦ (raised x, w) ]) (shutdown_all_lem es t) in
    let w = (stop_process_logging_if_needed c u).1 in
    let f : Free w = Same-Free u w (stop_logging-Same c u) v in
    subst (λ q. Free q.1) (sym same)
      (bind-keeps Free (stop_process_logging_if_needed c) (λ _. wake_waiters >> forget) u (λ x e. f)
        (λ a e.
          bind-keeps Free wake_waiters (λ _. forget) w
            (λ x e'. Same-Free w (wake_waiters w).1 (wake_waiters-Same w) f)
            (λ b e'. forget-Free (Same-Free w (wake_waiters w).1 (wake_waiters-Same w) f))))

pub start-Sound :
    (c : Config) (caller : Option ℕ) (s : State) → Sound s → Sound (start c caller s).1
unfolding start
start-Sound c caller s (inl up) = inl (ground (arith, up))
start-Sound c caller s (inr f) = simp f.at_rest.down (start_fresh-Sound c caller s f)
