-- ===== src/Manager/Balance.antt =====
-- The number of executors that a round of the checker task (src/leasepool/manager.py) leaves.
use leasepool.Base.{
  ℕ, zero, suc, ◌+◌, ◌≡◌, refl, ◌≤◌, max, Option, List, ◌∷◌, arith, length, inl, inr, List-cases,
  ap, ◌∙◌,
}
use leasepool.Base.Ints.{ℤ}
use leasepool.Base.Exec.{ok}
use leasepool.Backends.{Executor}
use leasepool.Manager.Config.{Config}
use leasepool.Manager.State.{State, current_count, monotonic}
use leasepool.Manager.Sizing.{desired_executor_count}
use leasepool.Manager.Pool.{shrink, shrink_idle_if_above_target}
use leasepool.Manager.Growth.{ensure_minimum-reaches}
use leasepool.Manager.Ledger.Sizes.{desired-cases, shrink-cases, shrunk, pop_right-count}
use leasepool.Manager.Checker.{seconds_until_next_hard_expiry, checker_round}
use leasepool.Manager.Rounds.{checker_round-parts}

shrunk-count :
    (s : State) (x : Executor) (xs : List Executor)
    → s.available ≡ x ∷ xs
    → length (shrunk s x xs).available + 1 ≡ length s.available
shrunk-count s x xs idle = omega (arith, (pop_right-count 0 x xs).1, ap length idle)

-- With as many rounds as there are idle executors, shrinking to a target ends at the target, or at the
-- leased executors, when these are more.
shrink-reaches :
    (rounds target : ℕ) (s : State)
    → length s.available ≤ rounds
    → target ≤ current_count s
    → let t = (shrink rounds target s).1 in
      (current_count t ≡ max target (length s.leased)) × (t.leased ≡ s.leased)
unfolding shrink
shrink-reaches zero target s enough above = (omega (arith, enough, above), refl)
shrink-reaches (suc rounds) target s enough above = elim (shrink-cases rounds target s) [
  | inl (x, xs, idle, more_, same) ↦
      let size = shrunk-count s x xs idle in
      rw same (
        shrink-reaches rounds target (shrunk s x xs) (omega (arith, size, enough))
          (omega (arith, size, more_)))
  | inr (inl empty, same) ↦ rw same (omega (arith, ap length empty, above), refl)
  | inr (inr within, same) ↦ rw same (omega (arith, within, above), refl)
]

module _ (c : Config) {d : ℕ} (steady : (u : State) → (desired_executor_count c u).0 ≡ ok d) where
  shrink_idle-reaches :
      (s t : State)
      → shrink_idle_if_above_target c s ≡ (ok tt, t)
      → d ≤ current_count s
      → current_count t ≡ max d (length t.leased)
  unfolding shrink_idle_if_above_target
  shrink_idle-reaches s t h above = elim (desired-cases c s) [
    | inl (d', k, capped, same) ↦
        let agree : d' ≡ d = ground (arith, same, steady s) in
        let u : State = record s { reads = k } in
        let end : (shrink (length s.available) d u).1 ≡ t = ground (arith, h, same, agree) in
        let (reached, kept) = shrink-reaches (length s.available) d u (omega arith) above in
        let r : current_count t ≡ max d (length s.leased) = rw end at reached in
        let l : t.leased ≡ s.leased = rw end at kept in omega (arith, r, ap length l)
    | inr (x, k, same) ↦ ground (arith, same, h)
  ]

  delay-keeps :
      (s t : State) {delay : Option ℤ}
      → seconds_until_next_hard_expiry c s ≡ (ok delay, t)
      → (t.available ≡ s.available) × (t.leased ≡ s.leased)
  unfolding seconds_until_next_hard_expiry monotonic
  delay-keeps s t h = elim (List-cases s.leased) [
    | inl e ↦ ground (arith, h, e)
    | inr (r, rs, e) ↦ ground (arith, h, e)
  ]

-- While the target stays the same, a round of the checker that returns leaves the manager with as
-- many executors as the target asks for; or, when more are leased, with the leased ones and no idle one.
pub checker_round_balances :
    (c : Config) (s t : State) {d event w : ℕ}
    → ((u : State) → (desired_executor_count c u).0 ≡ ok d)
    → checker_round c s ≡ (ok (event, w), t)
    → current_count t ≡ max d (length t.leased)
checker_round_balances c s t {d} steady h =
    let m = checker_round-parts c s t h in
    let grown : current_count m.grown ≡ max (current_count m.revoked) d =
      rw (ap (λ q. q.1) m.grows) at
        (ensure_minimum-reaches c m.revoked (steady m.revoked) (ap (λ q. q.0) m.grows)) in
    let reached = shrink_idle-reaches c steady m.grown m.shrunk m.shrinks (omega (arith, grown)) in
    let (idle, lent) = delay-keeps c steady m.shrunk m.timed m.times in
    let idle' : t.available ≡ m.shrunk.available = ap (λ q. q.available) m.ends ∙ idle in
    let lent' : t.leased ≡ m.shrunk.leased = ap (λ q. q.leased) m.ends ∙ lent in
    omega (arith, reached, ap length idle', ap length lent')
