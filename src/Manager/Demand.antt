-- ===== src/Manager/Demand.antt =====
-- What _desired_executor_count_locked (src/leasepool/manager.py) promises: enough executors for the
-- units, and no more than are needed.
use native.Mathlib.Nat.{mul-le-mul_right}
use leasepool.Base.{ℕ, ◌*◌, ◌^◌, ◌≡◌, refl, ◌≤◌, ◌<◌, min, max, Option, none, some, arith, inl, inr}
use leasepool.Base.Exec.{ok, Result-cases}
use leasepool.Manager.Config.{Config, Reading}
use leasepool.Manager.State.{State}
use leasepool.Manager.Sizing.{desired_executor_count, unit_count, ask, count_of}

-- `q` is the least number of times that `b` covers `a`.
pub record IsCeiling (a b q : ℕ) : Type 0 where
  pub covers : a ≤ q * b
  pub least : (k : ℕ) → a ≤ k * b → q ≤ k

-- The units that the size provider answers next.
abbrev pub demand : Option (ℕ → Reading) → ℕ → ℕ
demand none k = 0
demand (some provider) k = count_of (provider k)

-- The target that the sizing rule asks for, with `u` units.
pub record IsTarget (c : Config) (u d : ℕ) : Type 0 where
  pub capped : d ≤ c.max_pools
  pub at_least : min c.max_pools c.min_pools ≤ d
  pub enough : d < c.max_pools → u ≤ d * c.units_per_pool
  pub least : (k : ℕ) → c.min_pools ≤ k → u ≤ k * c.units_per_pool → d ≤ k

ask_lem : (p : Option (ℕ → Reading)) (s : State) → (ask p s).0 ≡ ok (demand p s.reads)
ask_lem none s = refl
ask_lem (some f) s = refl

min-IsTarget :
    (c : Config) (u q : ℕ)
    → IsCeiling u c.units_per_pool q
    → IsTarget c u (min c.max_pools (max c.min_pools q))
min-IsTarget c u q h = record {
  capped = omega arith;
  at_least = omega arith;
  enough = λ below.
      let q_le : q ≤ min c.max_pools (max c.min_pools q) = omega arith in
      omega (arith, h.covers, mul-le-mul_right c.units_per_pool q_le);
  least = λ k above covers. omega (arith, h.least k covers);
}

-- While the size provider answers at most 2 ^ 53 units, where the float quotient of math.ceil rounds
-- up as the exact one does, the target is at least the minimum and at most the maximum; below the maximum it covers the units that the size provider answers, at
-- units_per_pool each; and no smaller number that reaches the minimum covers them.
pub desired_executor_count-IsTarget :
    (c : Config) (s : State) {d : ℕ}
    → ((a q : ℕ)
        → a ≤ 2 ^ 53
        → c.ceil_div a c.units_per_pool ≡ ok q
        → IsCeiling a c.units_per_pool q)
    → demand c.size_provider s.reads ≤ 2 ^ 53
    → (desired_executor_count c s).0 ≡ ok d
    → IsTarget c (demand c.size_provider s.reads) d
unfolding desired_executor_count unit_count
desired_executor_count-IsTarget c s {d} rounds small h =
    let u = demand c.size_provider s.reads in
    let asked = ask_lem c.size_provider s in
    elim (Result-cases (c.ceil_div u c.units_per_pool)) [
      | inl (q, e) ↦
          let same : min c.max_pools (max c.min_pools q) ≡ d = ground (arith, h, asked, e) in
          rw same at (min-IsTarget c u q (rounds u q small e))
      | inr (x, e) ↦ ground (arith, h, asked, e)
    ]
