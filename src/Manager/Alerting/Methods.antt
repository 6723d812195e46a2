-- ===== src/Manager/Alerting/Methods.antt =====
-- release, submission and the end of a future tell the sleepers (src/leasepool/manager.py).
use leasepool.Base.{
  ◌+◌, ℕ, Bool, true, false, not, ◌&&◌, Option, none, some, refl, arith, inl, inr, leb,
}
use leasepool.Base.Exec.{ok, Keeps, Keeps-bind, ◌>>◌}
use leasepool.Backends.{Executor}
use leasepool.Manager.Config.{Config}
use leasepool.Manager.State.{
  LeaseRecord, monotonic, shutdown_executor, current_count, wake_waiters, wake_checker,
  shutdown_executor_from_callback, on_loop,
}
use leasepool.Manager.Sizing.{desired_executor_count}
use leasepool.Manager.Pool.{ensure_minimum}
use leasepool.Manager.Leases.{
  shutdown_some, callback_shutdown, drop_record, should_keep, append_if, before_deadline,
  keep_within_target,
}
use leasepool.Manager.Waking.{notify_lem, note}
use leasepool.Manager.Growth.{ensure-extends}
use leasepool.Manager.Ledger.Sizes.{desired-cases}
use leasepool.Manager.Alerting.{
  Working, Alert, Growing, Gives, Any, Gives-bind, Tells, Tells-then, rings-append, Unmoved-Working,
  Unmoved-Alert,
}

-- With the sizes at hand, and the executors that can be made.
pub desired-Gives : (c : Config) → Growing c → Gives Any (desired_executor_count c)
unfolding ensure_minimum
desired-Gives c growing s = elim (desired-cases c s) [
  | inl (d, reads, capped, same) ↦ (d, ground (arith, same), tt)
  | inr (x, reads, same) ↦ let fine = growing s in absurd (ground (arith, same, fine))
]

module _ {available scale loop : ℕ} where
  pub desired-Alert : (c : Config) → Keeps (Alert available scale loop) (desired_executor_count c)
  desired-Alert c s a = elim (desired-cases c s) [
    | inl (d, reads, capped, same) ↦
        rw same (Unmoved-Alert (refl, refl, refl, refl, refl, refl, refl) refl a)
    | inr (x, reads, same) ↦
        rw same (Unmoved-Alert (refl, refl, refl, refl, refl, refl, refl) refl a)
  ]

  pub desired-Working :
      (c : Config) → Keeps (Working available scale loop) (desired_executor_count c)
  desired-Working c s w = elim (desired-cases c s) [
    | inl (d, reads, capped, same) ↦
        rw same (Unmoved-Working (refl, refl, refl, refl, refl, refl, refl) w)
    | inr (x, reads, same) ↦ rw same (Unmoved-Working (refl, refl, refl, refl, refl, refl, refl) w)
  ]

  pub ensure-Working : (c : Config) → Keeps (Working available scale loop) (ensure_minimum c)
  ensure-Working c s w =
      let (new, reads, seq, built, same) = ensure-extends c s in
      rw same (Unmoved-Working (refl, refl, refl, refl, refl, refl, refl) w)

  pub wake_waiters-Tells : Tells available scale loop wake_waiters
  unfolding wake_waiters
  wake_waiters-Tells s w =
      let e = w.event in
      let l = w.on_its_loop in
      let o = w.loop_open in
      let cs = note s.availability_event s.loop s.loop_closed in
      rw (notify_lem s.availability_event s.loop s.loop_closed s) (record {
        working = Unmoved-Working (refl, refl, refl, refl, refl, refl, refl) w;
        told = ground (arith, rings-append available s.ready cs, e, l, o);
      })

  pub wake_checker-Tells : Tells available scale loop wake_checker
  unfolding wake_checker
  wake_checker-Tells s w =
      let e = w.changes in
      let l = w.on_its_loop in
      let o = w.loop_open in
      let cs = note s.scale_change_event s.loop s.loop_closed in
      rw (notify_lem s.scale_change_event s.loop s.loop_closed s) (record {
        working = Unmoved-Working (refl, refl, refl, refl, refl, refl, refl) w;
        told = ground (arith, rings-append scale s.ready cs, e, l, o);
      })

  pub wake-Tells : Tells available scale loop (wake_waiters >> wake_checker)
  wake-Tells =
      Tells-then available scale loop wake_waiters (λ _. wake_checker) wake_waiters-Tells
        (λ _ s a. wake_checker-Tells s a.working)

-- Methods that write nothing that matters here.
module _ {available scale loop : ℕ} where
  pub drop-Alert : (k : ℕ) → Keeps (Alert available scale loop) (drop_record k)
  drop-Alert k s a = Unmoved-Alert (refl, refl, refl, refl, refl, refl, refl) refl a

  pub drop-Working : (k : ℕ) → Keeps (Working available scale loop) (drop_record k)
  drop-Working k s w = Unmoved-Working (refl, refl, refl, refl, refl, refl, refl) w

  pub monotonic-Alert : (c : Config) → Keeps (Alert available scale loop) (monotonic c)
  unfolding monotonic
  monotonic-Alert c s a = Unmoved-Alert (refl, refl, refl, refl, refl, refl, refl) refl a

  pub monotonic-Working : (c : Config) → Keeps (Working available scale loop) (monotonic c)
  unfolding monotonic
  monotonic-Working c s w = Unmoved-Working (refl, refl, refl, refl, refl, refl, refl) w

  pub shutdown-Working : (e : Executor) → Keeps (Working available scale loop) (shutdown_executor e)
  unfolding shutdown_executor
  shutdown-Working e s w = Unmoved-Working (refl, refl, refl, refl, refl, refl, refl) w

  pub shutdown_some-Working :
      (o : Option Executor) → Keeps (Working available scale loop) (shutdown_some o)
  shutdown_some-Working none s w = w
  shutdown_some-Working (some e) s w = shutdown-Working e s w

  on_loop-Working :
      (l : Option ℕ) (closed : Bool) (e : Executor)
      → Keeps (Working available scale loop) (on_loop l closed e)
  on_loop-Working (some l) false e s w =
      Unmoved-Working (refl, refl, refl, refl, refl, refl, refl) w
  on_loop-Working (some l) true e s w = Unmoved-Working (refl, refl, refl, refl, refl, refl, refl) w
  on_loop-Working none closed e s w = Unmoved-Working (refl, refl, refl, refl, refl, refl, refl) w

  pub callback_shutdown-Working :
      (o : Option Executor) → Keeps (Working available scale loop) (callback_shutdown o)
  unfolding shutdown_executor_from_callback
  callback_shutdown-Working none s w = w
  callback_shutdown-Working (some e) s w = on_loop-Working s.loop s.loop_closed e s w

  before_deadline-Working :
      (c : Config) (r : LeaseRecord) (b : Bool)
      → Keeps (Working available scale loop) (before_deadline c r b)
  unfolding monotonic
  before_deadline-Working c r false s w = w
  before_deadline-Working c r true s w =
      Unmoved-Working (refl, refl, refl, refl, refl, refl, refl) w

  keep_within_target-Working :
      (c : Config) (b : Bool) → Keeps (Working available scale loop) (keep_within_target c b)
  keep_within_target-Working c false s w = w
  keep_within_target-Working c true s w =
      Keeps-bind (Working available scale loop) (desired_executor_count c)
        (λ target t. (ok (leb (current_count t + 1) target), t)) (desired-Working c)
        (λ target t v. v) s w

  pub should_keep-Working :
      (c : Config) (r : LeaseRecord) → Keeps (Working available scale loop) (should_keep c r)
  unfolding should_keep
  should_keep-Working c r s w =
      Keeps-bind (Working available scale loop)
        (before_deadline c r (not r.broken && not s.stopping)) (keep_within_target c)
        (before_deadline-Working c r _) (keep_within_target-Working c) s w

  pub append_if-Working :
      (b : Bool) (e : Executor) → Keeps (Working available scale loop) (append_if b e)
  append_if-Working true e s w = Unmoved-Working (refl, refl, refl, refl, refl, refl, refl) w
  append_if-Working false e s w = w

before_deadline-Gives :
    (c : Config) (r : LeaseRecord) (b : Bool) → Gives Any (before_deadline c r b)
unfolding monotonic
before_deadline-Gives c r false s = (false, refl, tt)
before_deadline-Gives c r true s = (_, refl, tt)

keep_within_target-Gives :
    (c : Config) → Growing c → (b : Bool) → Gives Any (keep_within_target c b)
keep_within_target-Gives c growing false s = (false, refl, tt)
keep_within_target-Gives c growing true s =
    Gives-bind Any Any (desired_executor_count c)
      (λ target t. (ok (leb (current_count t + 1) target), t)) (desired-Gives c growing)
      (λ target _ t. (_, refl, tt)) s

pub should_keep-Gives : (c : Config) → Growing c → (r : LeaseRecord) → Gives Any (should_keep c r)
unfolding should_keep
should_keep-Gives c growing r s =
    Gives-bind Any Any (before_deadline c r (not r.broken && not s.stopping)) (keep_within_target c)
      (before_deadline-Gives c r _) (λ b _. keep_within_target-Gives c growing b) s

pub append_if-Gives : (b : Bool) (e : Executor) → Gives Any (append_if b e)
append_if-Gives true e s = (tt, refl, tt)
append_if-Gives false e s = (tt, refl, tt)

pub ensure-Gives : (c : Config) → Growing c → Gives Any (ensure_minimum c)
ensure-Gives c growing s = (tt, growing s, tt)
