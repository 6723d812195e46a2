-- ===== src/Manager/Alerting/Rounds.antt =====
-- A round of the checker and an attempt of acquire leave no executor idle without telling those who wait
-- for one (src/leasepool/manager.py).
use leasepool.Base.{
  ℕ, zero, suc, ◌+◌, Option, none, some, List, [], ◌∷◌, ◌≡◌, refl, ap, sym, subst, ◌∙◌, inl, inr,
  Option-cases, discard, length,
}
use leasepool.Base.Ints.{ℤ}
use leasepool.Base.Exec.{Result, ok, raised, pure, Keeps, Keeps-bind, ◌>>=◌, ◌>>◌}
use leasepool.Manager.Config.{Config}
use leasepool.Manager.State.{
  State, Action, LeaseRecord, finished, monotonic, wake_waiters, shutdown_executor,
}
use leasepool.Manager.Table.{find, expired_ids}
use leasepool.Manager.Sizing.{desired_executor_count}
use leasepool.Manager.Pool.{ensure_minimum, shrink, shrink_idle_if_above_target}
use leasepool.Manager.Leases.{revoke, revoke_all, revoke_expired_leases, unless_empty}
use leasepool.Manager.Checker.{
  soonest, checker_work, checker_round, checker_turn, seconds_until_next_hard_expiry, wait_seconds,
}
use leasepool.Manager.Revoking.{Distinct, revoke_expired_leases-returns}
use leasepool.Manager.Ledger.Sizes.{shrink-cases, shrunk}
use leasepool.Manager.Alerting.{
  Working, Alert, Growing, Gives, Any, Gives-bind, Tells, Tells-bind, Tells-then, Unmoved-Working,
}
use leasepool.Manager.Rounds.{from_shrink, from_growth}
use leasepool.Manager.Waking.{notify_lem}
use leasepool.Manager.Alerting.Methods

shrink-Gives : (rounds target : ℕ) → Gives Any (shrink rounds target)
unfolding shrink
shrink-Gives zero target s = (tt, refl, tt)
shrink-Gives (suc rounds) target s = elim (shrink-cases rounds target s) [
  | inl (x, xs, idle, above, same) ↦
      let (_, e, _) = shrink-Gives rounds target (shrunk s x xs) in (tt, ap (λ p. p.0) same ∙ e, tt)
  | inr (stopped, same) ↦ (tt, ap (λ p. p.0) same, tt)
]

shrink_idle-Gives : (c : Config) → Growing c → Gives Any (shrink_idle_if_above_target c)
unfolding shrink_idle_if_above_target
shrink_idle-Gives c growing =
    Gives-bind Any Any (desired_executor_count c) (λ target s. shrink (length s.available) target s)
      (Methods.desired-Gives c growing) (λ target _ s. shrink-Gives (length s.available) target s)

soonest-Gives : (c : Config) (rs : List LeaseRecord) → Gives Any (soonest c rs)
unfolding monotonic
soonest-Gives c [] s = (none, refl, tt)
soonest-Gives c (r ∷ rs) s = (_, refl, tt)

next_expiry-Gives : (c : Config) → Gives Any (seconds_until_next_hard_expiry c)
unfolding seconds_until_next_hard_expiry
next_expiry-Gives c s = soonest-Gives c s.leased s

module _ {available scale loop : ℕ} where
  shrink-Working : (rounds target : ℕ) → Keeps (Working available scale loop) (shrink rounds target)
  unfolding shrink
  shrink-Working zero target s w = w
  shrink-Working (suc rounds) target s w = elim (shrink-cases rounds target s) [
    | inl (x, xs, idle, above, same) ↦ rw same (
        shrink-Working rounds target (shrunk s x xs)
          (Unmoved-Working (refl, refl, refl, refl, refl, refl, refl) w))
    | inr (stopped, same) ↦ rw same w
  ]

  pub shrink_idle-Working :
      (c : Config) → Keeps (Working available scale loop) (shrink_idle_if_above_target c)
  unfolding shrink_idle_if_above_target
  shrink_idle-Working c =
      Keeps-bind (Working available scale loop) (desired_executor_count c)
        (λ target s. shrink (length s.available) target s) (Methods.desired-Working c)
        (λ target s. shrink-Working (length s.available) target s)

  soonest-Working :
      (c : Config) (rs : List LeaseRecord) → Keeps (Working available scale loop) (soonest c rs)
  unfolding monotonic
  soonest-Working c [] s w = w
  soonest-Working c (r ∷ rs) s w = Unmoved-Working (refl, refl, refl, refl, refl, refl, refl) w

  pub next_expiry-Working :
      (c : Config) → Keeps (Working available scale loop) (seconds_until_next_hard_expiry c)
  unfolding seconds_until_next_hard_expiry
  next_expiry-Working c s w = soonest-Working c s.leased s w

  revoke-Working : (k : ℕ) → Keeps (Working available scale loop) (revoke k)
  unfolding revoke shutdown_executor
  revoke-Working k s w = elim (Option-cases (find k s.leased)) [
    | inl e ↦ rw e w
    | inr (r, e) ↦ rw e (Unmoved-Working (refl, refl, refl, refl, refl, refl, refl) w)
  ]

  revoke_all-Working : (ks : List ℕ) → Keeps (Working available scale loop) (revoke_all ks)
  unfolding revoke_all
  revoke_all-Working [] s w = w
  revoke_all-Working (k ∷ ks) s w =
      Keeps-bind (Working available scale loop) (revoke k) (λ _. revoke_all ks) (revoke-Working k)
        (λ _. revoke_all-Working ks) s w

  unless_empty-Working :
      (c : Config) (ks : List ℕ)
      → Keeps (Working available scale loop) (unless_empty ks (ensure_minimum c))
  unless_empty-Working c [] s w = w
  unless_empty-Working c (k ∷ ks) s w = Methods.ensure-Working c s w

  pub revoke_expired-Working :
      (c : Config) → Keeps (Working available scale loop) (revoke_expired_leases c)
  unfolding revoke_expired_leases monotonic
  revoke_expired-Working c s w =
      let ids = expired_ids (c.clock s.reads) s.leased in
      Keeps-bind (Working available scale loop) (revoke_all ids)
        (λ _. unless_empty ids (ensure_minimum c)) (revoke_all-Working ids)
        (λ _. unless_empty-Working c ids) (record s { reads = s.reads + 1 })
        (Unmoved-Working (refl, refl, refl, refl, refl, refl, refl) w)

-- The end of a round.
abbrev finish : ℕ → Config → Option ℤ → Action (ℕ × ℕ)
finish event c delay = do wake_waiters; pure (event, wait_seconds c delay)

wake_waiters-Gives : Gives Any wake_waiters
unfolding wake_waiters
wake_waiters-Gives s =
    (tt, ap (λ p. p.0) (notify_lem s.availability_event s.loop s.loop_closed s), tt)

from_growth-Gives : (c : Config) → Growing c → (event : ℕ) → Gives Any (from_growth c event)
from_growth-Gives c growing event =
    Gives-bind Any Any (ensure_minimum c) (λ _. from_shrink c event)
      (Methods.ensure-Gives c growing)
      (λ _ _.
        Gives-bind Any Any (shrink_idle_if_above_target c)
          (λ _. seconds_until_next_hard_expiry c >>= finish event c) (shrink_idle-Gives c growing)
          (λ _ _.
            Gives-bind Any Any (seconds_until_next_hard_expiry c) (finish event c)
              (next_expiry-Gives c)
              (λ delay _.
                Gives-bind Any Any wake_waiters (λ _. pure (event, wait_seconds c delay))
                  wake_waiters-Gives (λ _ _ s. (_, refl, tt)))))

from_growth-Tells :
    {available scale loop : ℕ} (c : Config)
    → Growing c
    → (event : ℕ) → Tells available scale loop (from_growth c event)
from_growth-Tells {available} {scale} {loop} c growing event =
    Tells-bind available scale loop Any (ensure_minimum c) (λ _. from_shrink c event)
      (Methods.ensure-Gives c growing) (Methods.ensure-Working c)
      (λ _ _.
        Tells-bind available scale loop Any (shrink_idle_if_above_target c)
          (λ _. seconds_until_next_hard_expiry c >>= finish event c) (shrink_idle-Gives c growing)
          (shrink_idle-Working c)
          (λ _ _.
            Tells-bind available scale loop Any (seconds_until_next_hard_expiry c) (finish event c)
              (next_expiry-Gives c) (next_expiry-Working c)
              (λ delay _.
                Tells-then available scale loop wake_waiters
                  (λ _. pure (event, wait_seconds c delay)) Methods.wake_waiters-Tells
                  (λ _ s a. a))))

-- A round of the checker tells, and ends without an exception.
checker_work-Alert :
    {available scale loop : ℕ} (c : Config) (event : ℕ) {s : State}
    → Growing c
    → Distinct s.leased
    → Working available scale loop s
    → (w : ℕ × ℕ) × ((checker_work c event s).0 ≡ ok w)
      × Alert available scale loop (checker_work c event s).1
checker_work-Alert c event {s} growing d w =
    let e = revoke_expired_leases-returns c s d growing in
    let t = (revoke_expired_leases c s).1 in
    let (v, done, _) = from_growth-Gives c growing event t in
    (
      v,
      rw (e, ◌>>=◌) done,
      rw (e, ◌>>=◌) (from_growth-Tells c growing event t (revoke_expired-Working c s w)),
    )

pub checker_round-returns :
    {available scale loop : ℕ} (c : Config) {s : State}
    → Growing c
    → Distinct s.leased
    → Working available scale loop s
    → (event : ℕ) × (w : ℕ) × ((checker_round c s).0 ≡ ok (event, w))
unfolding checker_round
checker_round-returns {available} {scale} {loop} c {s} growing d w =
    let t : State = record s { set_events = discard scale s.set_events } in
    let ((event, v), done, told) =
      checker_work-Alert {available = available} {scale = scale} {loop = loop} c scale {s = t}
        growing d (Unmoved-Working (refl, refl, refl, refl, refl, refl, refl) w) in
    let same : checker_round c s ≡ checker_work c scale t = rw (w.changes) refl in
    (event, v, ap (λ (p : Result (ℕ × ℕ) × State). p.0) same ∙ done)

pub checker_turn-Alert :
    {available scale loop : ℕ} (c : Config) {s : State}
    → Growing c
    → Distinct s.leased
    → Alert available scale loop s
    → Alert available scale loop (checker_turn c s).1
unfolding checker_turn checker_round
checker_turn-Alert {available} {scale} {loop} c {s} growing d a =
    let t : State = record s { set_events = discard scale s.set_events } in
    let (v, done, told) =
      checker_work-Alert {available = available} {scale = scale} {loop = loop} c scale {s = t}
        growing d (Unmoved-Working (refl, refl, refl, refl, refl, refl, refl) a.working) in
    let same : checker_round c s ≡ checker_work c scale t = rw (a.working.changes) refl in
    subst
      (λ p.
        Alert available scale loop
          (elim p.0 as (λ _. Option (ℕ × ℕ) × State) [
            | ok x ↦ (some x, p.1)
            | raised e ↦ (none, record p.1 { checker_task = some finished })
          ]).1)
      (sym same) (rw done told)
