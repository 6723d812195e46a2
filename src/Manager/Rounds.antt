-- ===== src/Manager/Rounds.antt =====
-- A round of the checker task (src/leasepool/manager.py) that returns, taken apart.
use leasepool.Base.{ℕ, ◌≡◌, subst, Option, ◌++◌, arith, inl, inr, Option-cases, discard}
use leasepool.Base.Ints.{ℤ}
use leasepool.Base.Exec.{ok, bind-ok, pure, ◌>>=◌, ◌>>◌}
use leasepool.Manager.Config.{Config}
use leasepool.Manager.State.{State, Action, wake_waiters}
use leasepool.Manager.Pool.{ensure_minimum, shrink_idle_if_above_target}
use leasepool.Manager.Leases.{revoke_expired_leases}
use leasepool.Manager.Waking.{notify_lem, note}
use leasepool.Manager.Checker.{
  seconds_until_next_hard_expiry, wait_seconds, checker_work, checker_round,
}

-- The rest of a round, from the delay on, from the shrinking on, and from the growth on.
abbrev from_delay : Config → ℕ → Action (ℕ × ℕ)
from_delay c event = do
  delay ← seconds_until_next_hard_expiry c
  wake_waiters
  pure (event, wait_seconds c delay)

abbrev pub from_shrink : Config → ℕ → Action (ℕ × ℕ)
from_shrink c event = do shrink_idle_if_above_target c; from_delay c event

abbrev pub from_growth : Config → ℕ → Action (ℕ × ℕ)
from_growth c event = do ensure_minimum c; from_shrink c event

-- The parts of a round that returns.
pub record Round (c : Config) (event w : ℕ) (s t : State) : Type 0 where
  pub revoked : State
  pub grown : State
  pub shrunk : State
  pub timed : State
  pub delay : Option ℤ
  pub revokes :
      revoke_expired_leases c (record s { set_events = discard event s.set_events })
      ≡ (ok tt, revoked)
  pub grows : ensure_minimum c revoked ≡ (ok tt, grown)
  pub shrinks : shrink_idle_if_above_target c grown ≡ (ok tt, shrunk)
  pub times : seconds_until_next_hard_expiry c shrunk ≡ (ok delay, timed)
  pub waits : w ≡ wait_seconds c delay
  pub ends : t ≡ record timed {
    ready = timed.ready ++ note timed.availability_event timed.loop timed.loop_closed;
  }

abbrev waking : ℕ → ℕ → Action (ℕ × ℕ)
waking event w = do wake_waiters; pure (event, w)

ending :
    (k v : ℕ) (u t : State) {event w : ℕ}
    → waking k v u ≡ (ok (event, w), t)
    → (k ≡ event)
      × (w ≡ v)
      × (t ≡ record u { ready = u.ready ++ note u.availability_event u.loop u.loop_closed })
unfolding wake_waiters
ending k v u t h = ground (arith, h, notify_lem u.availability_event u.loop u.loop_closed u)

pub checker_round-parts :
    (c : Config) (s t : State) {event w : ℕ}
    → checker_round c s ≡ (ok (event, w), t)
    → Round c event w s t
unfolding checker_round
checker_round-parts c s t {event} {w} h = elim (Option-cases s.scale_change_event) [
  | inl e ↦ ground (arith, h, e)
  | inr (k, e) ↦
      let u : State = record s { set_events = discard k s.set_events } in
      let work : checker_work c k u ≡ (ok (event, w), t) = ground (arith, h, e) in
      let (_, u1, e1, h1) = bind-ok (revoke_expired_leases c) (λ _. from_growth c k) {s = u} work in
      let (_, u2, e2, h2) = bind-ok (ensure_minimum c) (λ _. from_shrink c k) {s = u1} h1 in
      let (_, u3, e3, h3) =
        bind-ok (shrink_idle_if_above_target c) (λ _. from_delay c k) {s = u2} h2 in
      let (delay, u4, e4, h4) =
        bind-ok (seconds_until_next_hard_expiry c) (λ delay. waking k (wait_seconds c delay))
          {s = u3} h3 in
      let (same, waits, ends) = ending k (wait_seconds c delay) u4 t h4 in
      subst (λ i. Round c i w s t) same
        (record {
          revoked = u1;
          grown = u2;
          shrunk = u3;
          timed = u4;
          delay = delay;
          revokes = e1;
          grows = e2;
          shrinks = e3;
          times = e4;
          waits = waits;
          ends = ends;
        })
]
