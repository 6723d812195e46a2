-- ===== src/Manager/Growth.antt =====
-- _ensure_minimum_locked of src/leasepool/manager.py reaches its target, and touches nothing but
-- the right end of the idle executors.
use leasepool.Base.{
  ℕ, zero, suc, ◌+◌, ◌-◌, ◌≡◌, ◌≤◌, max, List, [], ◌∷◌, ◌++◌, arith, length-append, inl, inr,
}
use mathlib.Core.List.{append-nil, append_assoc}
use leasepool.Base.Exec.{ok}
use leasepool.Backends.{Executor}
use leasepool.Manager.Config.{Config}
use leasepool.Manager.State.{State, current_count}
use leasepool.Manager.Sizing.{desired_executor_count}
use leasepool.Manager.Pool.{grow, ensure_minimum}
use leasepool.Manager.Ledger.Pool.{grow-cases, grown}
use leasepool.Manager.Ledger.Sizes.{desired-cases}

-- The state with `new` idle executors at the right end.
abbrev pub extended : State → List Executor → ℕ → ℕ → List Executor → State
extended s new reads seq built = record s {
  available = s.available ++ new;
  reads = reads;
  executor_seq = seq;
  built = built;
}

grow-extends :
    (c : Config) (rounds target : ℕ) (s : State)
    → (new : List Executor) × (seq : ℕ) × (built : List Executor) × ((grow c rounds target s).1
        ≡ extended s new s.reads seq built)
unfolding grow
grow-extends c zero target s = ([], s.executor_seq, s.built, simp append-nil)
grow-extends c (suc rounds) target s = elim (grow-cases c rounds target s) [
  | inl (e, room, numbered, same) ↦
      let (new, seq, built, rest) = grow-extends c rounds target (grown s e) in
      (e ∷ new, seq, built, rw same (ground (arith, append_assoc s.available (e ∷ []) new)))
  | inr (inl (x, room, same)) ↦
      ([], s.executor_seq + 1, s.built, rw same (ground (arith, append-nil s.available)))
  | inr (inr (reached, same)) ↦
      ([], s.executor_seq, s.built, rw same (ground (arith, append-nil s.available)))
]

-- Fuel for the rounds that are missing is enough: unless a creation fails, the loop ends with the
-- larger of the count at its start and the target.
grow-reaches :
    (c : Config) (rounds target : ℕ) (s : State)
    → target ≤ current_count s + rounds
    → (grow c rounds target s).0 ≡ ok tt
    → current_count (grow c rounds target s).1 ≡ max (current_count s) target
unfolding grow
grow-reaches c zero target s enough h = omega arith
grow-reaches c (suc rounds) target s enough h = elim (grow-cases c rounds target s) [
  | inl (e, room, numbered, same) ↦
      let size = length-append s.available (e ∷ []) in
      rw same (
        omega (
          arith,
          size,
          grow-reaches c rounds target (grown s e) (omega (arith, size)) (ground (arith, same)),
        ))
  | inr (inl (x, room, same)) ↦ ground (arith, same)
  | inr (inr (reached, same)) ↦ rw same (omega arith)
]

-- Whatever happens, growing only adds idle executors at the right end.
pub ensure-extends :
    (c : Config) (s : State)
    → (new : List Executor) × (reads : ℕ) × (seq : ℕ) × (built : List Executor) × ((ensure_minimum c
          s).1
        ≡ extended s new reads seq built)
unfolding ensure_minimum
ensure-extends c s = elim (desired-cases c s) [
  | inl (d, k, capped, same) ↦
      let (new, seq, built, rest) =
        grow-extends c (d - current_count s) d (record s { reads = k }) in
      (new, k, seq, built, ground arith)
  | inr (x, k, same) ↦ ([], k, s.executor_seq, s.built, ground (arith, append-nil s.available))
]

-- Unless it raises, _ensure_minimum_locked leaves the larger of the executors there were and the
-- executors that are desired.
pub ensure_minimum-reaches :
    (c : Config) (s : State) {d : ℕ}
    → (desired_executor_count c s).0 ≡ ok d
    → (ensure_minimum c s).0 ≡ ok tt
    → current_count (ensure_minimum c s).1 ≡ max (current_count s) d
unfolding ensure_minimum
ensure_minimum-reaches c s {d} wanted h = elim (desired-cases c s) [
  | inl (d', k, capped, same) ↦
      ground (arith, grow-reaches c (d - current_count s) d (record s { reads = k }) (omega arith))
  | inr (x, k, same) ↦ ground arith
]
