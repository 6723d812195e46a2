-- ===== src/Manager/Ledger/Sizes.antt =====
-- Growing to the target and shrinking to it keep the ledger (_ensure_minimum_locked and
-- _shrink_idle_if_above_target_locked of src/leasepool/manager.py).
use leasepool.Base.{
  ℕ, zero, suc, ◌+◌, ◌-◌, ◌≡◌, refl, ap, ◌≤◌, ◌<◌, min, max, Option, none, some, List, [], ◌∷◌,
  ◌++◌, arith, length, ◌⊎◌, inl, inr, ltb, Bool-cases, List-cases,
}
use leasepool.Base.Exec.{Exn, ok, raised, Result-cases}
use leasepool.Backends.{Executor}
use leasepool.Manager.Config.{Config}
use leasepool.Manager.State.{State, current_count}
use leasepool.Manager.Sizing.{desired_executor_count, unit_count}
use leasepool.Manager.Pool.{ensure_minimum, pop_right, shrink, shrink_idle_if_above_target}
use leasepool.Manager.Ledger.Count.{Inv, count, one_if, count-append}
use leasepool.Manager.Ledger.Pool.{grow-Inv}

unit_count-total :
    (c : Config) (s : State) → (u : ℕ) × (k : ℕ) × (unit_count c s ≡ (ok u, record s { reads = k }))
unfolding unit_count
unit_count-total c s = unit_count_of c.size_provider
  where
    unit_count_of :
        (p : Option (ℕ → leasepool.Manager.Config.Reading))
        → (u : ℕ) × (k : ℕ) × (leasepool.Manager.Sizing.ask p s ≡ (ok u, record s { reads = k }))
    unit_count_of none = (0, s.reads, refl)
    unit_count_of (some f) = (leasepool.Manager.Sizing.count_of (f s.reads), s.reads + 1, refl)

-- The target is never above the maximum; asking for it moves nothing but the reads.
pub desired-cases :
    (c : Config) (s : State)
    → ((d : ℕ) × (k : ℕ) × (d ≤ c.max_pools)
        × (desired_executor_count c s ≡ (ok d, record s { reads = k })))
      ⊎ ((x : Exn) × (k : ℕ) × (desired_executor_count c s ≡ (raised x, record s { reads = k })))
unfolding desired_executor_count
desired-cases c s =
    let (u, k, asked) = unit_count-total c s in
    elim (Result-cases (c.ceil_div u c.units_per_pool)) [
      | inl (q, divided) ↦ inl (min c.max_pools (max c.min_pools q), k, omega arith, ground arith)
      | inr (x, failed) ↦ inr (x, k, ground arith)
    ]

pub ensure-Inv :
    (c : Config) {n k : ℕ} {s : State} → Inv c n 0 k s → Inv c n 0 k (ensure_minimum c s).1
unfolding ensure_minimum
ensure-Inv c {n} {k} {s} v = elim (desired-cases c s) [
  | inl (d, reads, capped, same) ↦ ground (
    arith,
    grow-Inv c (d - current_count s) d {n = n} {k = k} {s = record s { reads = reads }} capped
        (ground arith),
  )
  | inr (x, reads, same) ↦ ground arith
]

pub pop_right-count :
    (n : ℕ) (x : Executor) (xs : List Executor)
    → let (left, last) = pop_right x xs in
      (count n left + one_if n last ≡ one_if n x + count n xs) × (length left ≡ length xs)
unfolding pop_right
pop_right-count n x [] = (omega arith, refl)
pop_right-count n x (y ∷ ys) = ground (arith, pop_right-count n y ys)

-- The state after one round of shrinking: the executor at the right end is shut down.
abbrev pub shrunk : State → Executor → List Executor → State
shrunk s x xs =
    let (left, last) = pop_right x xs in record s { available = left; shut = s.shut ++ last ∷ [] }

pub shrink-cases :
    (rounds target : ℕ) (s : State)
    → ((x : Executor) × (xs : List Executor) × (s.available ≡ x ∷ xs)
        × (target < current_count s)
        × (shrink (suc rounds) target s ≡ shrink rounds target (shrunk s x xs)))
      ⊎ (((s.available ≡ []) ⊎ (current_count s ≤ target))
          × (shrink (suc rounds) target s ≡ (ok tt, s)))
unfolding shrink
shrink-cases rounds target s = elim (List-cases s.available) [
  | inl empty ↦ inr (inl empty, ground arith)
  | inr (x, xs, idle) ↦ elim (Bool-cases (ltb target (current_count s))) [
    | inl above ↦ inl (x, xs, idle, ground arith, ground arith)
    | inr within ↦ inr (inr (ground arith), ground arith)
  ]
]

shrunk-Inv :
    (c : Config) {n m k : ℕ} {s : State} (x : Executor) (xs : List Executor)
    → s.available ≡ x ∷ xs
    → Inv c n m k s
    → Inv c n m k (shrunk s x xs)
shrunk-Inv c {n} {m} {k} {s} x xs idle v = ground (
  arith,
  pop_right-count n x xs,
  count-append n s.shut ((pop_right x xs).1 ∷ []),
  ap length idle,
  ap (count n) idle,
)

shrink-loop-Inv :
    (c : Config) (rounds target : ℕ) {n m k : ℕ} {s : State}
    → Inv c n m k s
    → Inv c n m k (shrink rounds target s).1
unfolding shrink
shrink-loop-Inv c zero target v = v
shrink-loop-Inv c (suc rounds) target {s = s} v = elim (shrink-cases rounds target s) [
  | inl (x, xs, idle, above, same) ↦
      rw same (shrink-loop-Inv c rounds target (shrunk-Inv c x xs idle v))
  | inr (stopped, same) ↦ rw same v
]

pub shrink_idle-Inv :
    (c : Config) {n k : ℕ} {s : State}
    → Inv c n 0 k s
    → Inv c n 0 k (shrink_idle_if_above_target c s).1
unfolding shrink_idle_if_above_target
shrink_idle-Inv c {n} {k} {s} v = elim (desired-cases c s) [
  | inl (d, reads, capped, same) ↦ ground (
    arith,
    shrink-loop-Inv c (length s.available) d {n = n} {m = 0} {k = k}
        {s = record s { reads = reads }} (ground arith),
  )
  | inr (x, reads, same) ↦ ground arith
]
