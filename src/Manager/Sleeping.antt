-- ===== src/Manager/Sleeping.antt =====
-- How long the checker task (src/leasepool/manager.py) sleeps after a round.
use leasepool.Base.{
  ℕ, ◌+◌, ◌-◌, ◌≡◌, refl, ◌≤◌, ◌<◌, min, ap, subst, sym, Option, none, some, List, [], ◌∷◌, arith,
  ◌⊎◌, inl, inr, ltb, Bool-cases, List-cases,
}
use leasepool.Base.Ints.{ℤ, pos, negsuc, pos_part, min_ℤ}
use leasepool.Base.Exec.{ok}
use leasepool.Manager.Config.{Config}
use leasepool.Manager.State.{State, LeaseRecord, hard_expires_at, monotonic}
use leasepool.Manager.Rounds.{checker_round-parts}
use leasepool.Manager.Checker.{
  until_expiry, least, seconds_until_next_hard_expiry, wait_seconds, checker_round,
}

-- No lease runs out before `w` has passed.
abbrev pub BeforeExpiries : ℕ → ℕ → List LeaseRecord → Type 0
BeforeExpiries now w [] = Unit
BeforeExpiries now w (r ∷ rs) = (w ≤ hard_expires_at r - now) × BeforeExpiries now w rs

-- Some lease has run out when `w` has passed, and not earlier.
abbrev pub AtExpiry : ℕ → ℕ → List LeaseRecord → Type 0
AtExpiry now w [] = ⊥
AtExpiry now w (r ∷ rs) = (w ≡ hard_expires_at r - now) ⊎ AtExpiry now w rs

part_min : (a b : ℤ) → pos_part (min_ℤ a b) ≡ min (pos_part a) (pos_part b)
part_min (pos a) (pos b) = ground arith
part_min (pos a) (negsuc b) = ground arith
part_min (negsuc a) (pos b) = ground arith
part_min (negsuc a) (negsuc b) = ground arith

part_until : (now : ℕ) (r : LeaseRecord) → pos_part (until_expiry now r) ≡ hard_expires_at r - now
part_until now r = ground arith

least_lem :
    (now : ℕ) (best : ℤ) (rs : List LeaseRecord)
    → let w = pos_part (least now best rs) in
      (w ≤ pos_part best) × BeforeExpiries now w rs × ((w ≡ pos_part best) ⊎ AtExpiry now w rs)
unfolding least
least_lem now best [] = (omega arith, tt, inl refl)
least_lem now best (r ∷ rs) =
    let e = part_until now r in
    let m = part_min best (until_expiry now r) in
    let (le, before, at_one) = least_lem now (min_ℤ best (until_expiry now r)) rs in
    (
      omega (arith, e, m, le),
      (omega (arith, e, m, le), before),
      elim at_one [
        | inr later ↦ inr (inr later)
        | inl same ↦ elim (Bool-cases (ltb (pos_part (until_expiry now r)) (pos_part best))) [
          | inl smaller ↦ inr (inl (ground (arith, e, m, same, smaller)))
          | inr larger ↦ inl (ground (arith, e, m, same, larger))
        ]
      ],
    )

-- The time to sleep for a table of leases, at the time `now`.
abbrev pub Sleeps : Config → ℕ → ℕ → List LeaseRecord → Type 0
Sleeps c now w rs =
    (w ≤ c.check_interval) × BeforeExpiries now w rs × ((w ≡ c.check_interval) ⊎ AtExpiry now w rs)

earlier :
    (now w v : ℕ) (rs : List LeaseRecord)
    → v ≤ w
    → BeforeExpiries now w rs
    → BeforeExpiries now v rs
earlier now w v [] le before = tt
earlier now w v (r ∷ rs) le (h, before) = (omega (arith, le, h), earlier now w v rs le before)

capped :
    (c : Config) (now q : ℕ) (rs : List LeaseRecord)
    → BeforeExpiries now q rs
    → AtExpiry now q rs
    → Sleeps c now (min c.check_interval q) rs
capped c now q rs before at_one = elim (Bool-cases (ltb q c.check_interval)) [
  | inl smaller ↦
      let below : q < c.check_interval = ground (arith, smaller) in
      let same : q ≡ min c.check_interval q = omega (arith, below) in
      subst (λ w. Sleeps c now w rs) same (omega (arith, below), before, inr at_one)
  | inr larger ↦
      let above : c.check_interval ≤ q = ground (arith, larger) in
      let same : c.check_interval ≡ min c.check_interval q = omega (arith, above) in
      subst (λ w. Sleeps c now w rs) same
        (omega arith, earlier now q c.check_interval rs above before, inl refl)
]

wait_seconds_lem :
    (c : Config) (now : ℕ) (r : LeaseRecord) (rs : List LeaseRecord)
    → Sleeps c now (wait_seconds c (some (least now (until_expiry now r) rs))) (r ∷ rs)
wait_seconds_lem c now r rs =
    let e = part_until now r in
    let (le, before, at_one) = least_lem now (until_expiry now r) rs in
    capped c now (pos_part (least now (until_expiry now r) rs)) (r ∷ rs)
      (omega (arith, le, e), before)
      (elim at_one [ inl first ↦ inl (omega (arith, first, e)) | inr later ↦ inr later ])

-- The delay is read under the last number that a clock was read under.
next_expiry_lem :
    (c : Config) (s t : State) {delay : Option ℤ}
    → seconds_until_next_hard_expiry c s ≡ (ok delay, t)
    → Sleeps c (c.clock (t.reads - 1)) (wait_seconds c delay) t.leased
unfolding seconds_until_next_hard_expiry monotonic
next_expiry_lem c s t {delay} h = elim (List-cases s.leased) [
  | inl e ↦
      let same : t ≡ s = ground (arith, h, e) in
      let unlimited : delay ≡ none = ground (arith, h, e) in
      rw (same, e, unlimited) (omega arith, tt, inl refl)
  | inr (r, rs, e) ↦
      let now = c.clock s.reads in
      let same : t ≡ record s { reads = s.reads + 1 } = ground (arith, h, e) in
      let shown : delay ≡ some (least now (until_expiry now r) rs) = ground (arith, h, e) in
      let last : t.reads - 1 ≡ s.reads = omega (arith, ap (λ q. q.reads) same) in
      rw (last, same, shown, e) (wait_seconds_lem c now r rs)
]

-- After a round that returns, the checker sleeps at most the check interval, and no longer than until
-- the first hard deadline of the leases there are, from the time that the clock read last; and it
-- sleeps for one of the two, exactly.
pub checker_round_sleep :
    (c : Config) (s t : State) {event w : ℕ}
    → checker_round c s ≡ (ok (event, w), t)
    → Sleeps c (c.clock (t.reads - 1)) w t.leased
checker_round_sleep c s t {w = w} h =
    let m = checker_round-parts c s t h in
    subst (λ u. Sleeps c (c.clock (u.reads - 1)) w u.leased) (sym m.ends)
      (subst (λ v. Sleeps c (c.clock (m.timed.reads - 1)) v m.timed.leased) (sym m.waits)
        (next_expiry_lem c m.shrunk m.timed m.times))
