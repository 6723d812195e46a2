-- ===== src/Manager/Checker.antt =====
-- The checker task (src/leasepool/manager.py): one round of _checker_loop, and how long it then
-- sleeps at most (_seconds_until_next_hard_expiry_locked, _wait_for_checker_event).
use leasepool.Base.{ℕ, Option, none, some, List, [], ◌∷◌, min, discard}
use leasepool.Base.Ints.{ℤ, pos, ◌-ℤ◌, min_ℤ, clamp_zero}
use leasepool.Base.Exec.{assertion_error, ok, raised, pure, modify, raise, ◌>>=◌, ◌>>◌}
use leasepool.Manager.Config.{Config}
use leasepool.Manager.State.{
  State, Action, LeaseRecord, hard_expires_at, finished, monotonic, wake_waiters,
}
use leasepool.Manager.Pool.{ensure_minimum, shrink_idle_if_above_target}
use leasepool.Manager.Leases.{revoke_expired_leases}

abbrev pub until_expiry : ℕ → LeaseRecord → ℤ
until_expiry now r = pos (hard_expires_at r) -ℤ pos now

-- `min(record.hard_expires_at - now for record in …)`, from the first record on.
unfoldable pub least : ℕ → ℤ → List LeaseRecord → ℤ
least now best [] = best
least now best (r ∷ rs) = least now (min_ℤ best (until_expiry now r)) rs

abbrev pub soonest : Config → List LeaseRecord → Action (Option ℤ)
soonest c [] = pure none
soonest c (r ∷ rs) = do now ← monotonic c; pure (some (least now (until_expiry now r) rs))

unfoldable pub seconds_until_next_hard_expiry : Config → Action (Option ℤ)
unfolding least
seconds_until_next_hard_expiry c s = soonest c s.leased s

abbrev pub wait_seconds : Config → Option ℤ → ℕ
wait_seconds c none = c.check_interval
wait_seconds c (some delay) = min c.check_interval (clamp_zero delay)

-- The work under the lock, and the time to wait at most.
abbrev pub checker_work : Config → ℕ → Action (ℕ × ℕ)
checker_work c event = do
  revoke_expired_leases c
  ensure_minimum c
  shrink_idle_if_above_target c
  next_expiry_delay ← seconds_until_next_hard_expiry c
  wake_waiters
  pure (event, wait_seconds c next_expiry_delay)

-- `assert event is not None`, and the rest of the round.
abbrev pub round_from : Config → Option ℕ → Action (ℕ × ℕ)
round_from c none = raise assertion_error
round_from c (some event) = do
  modify λ s. record s { set_events = discard event s.set_events }
  checker_work c event

-- One round: the event to wait for and the time to wait at most.
unfoldable pub checker_round : Config → Action (ℕ × ℕ)
unfolding seconds_until_next_hard_expiry
checker_round c s = round_from c s.scale_change_event s

-- `except Exception`: the crash is logged, and the task is done.
unfoldable pub checker_turn : Config → State → Option (ℕ × ℕ) × State
checker_turn c s =
    let (r, t) = checker_round c s in
    elim r [ ok w ↦ (some w, t) | raised e ↦ (none, record t { checker_task = some finished }) ]
