-- ===== src/Manager/Ledger/Pool.antt =====
-- The pool's own operations keep the ledger: creation, taking, growing and shrinking.
use leasepool.Base.{
  ℕ, String, zero, suc, ◌+◌, ◌≡◌, refl, ◌≤◌, ◌<◌, Bool, Option, none, some, List, [], ◌∷◌, ◌++◌,
  arith, length, length-append, ◌⊎◌, inl, inr,
}
use leasepool.Base.Exec.{Exn, Result, ok, raised, Result-cases}
use leasepool.Base.{ap, ltb, Bool-cases, List-cases}
use leasepool.Backends.{BackendArg, Executor, member, build_executor}
use leasepool.Kwargs.{Kwargs}
use leasepool.Manager.Config.{Config}
use leasepool.Manager.State.{State, current_count}
use leasepool.Manager.Pool.{
  create_executor, take_or_create_available, grow, executor_kwargs_for_new_executor,
}
use leasepool.Manager.Ledger.Count.{Inv, count, in_result, in_option, count-append}

module _ (i : Bool) (f : Option Exn) (b : BackendArg) (w : ℕ) (p : String) (seq : ℕ)
    (kw : Kwargs) where
  build_executor-seq : {e : Executor} → build_executor i f b w p seq kw ≡ ok e → e.seq ≡ seq
  unfolding build_executor
  build_executor-seq h = ground arith

  build_executor-cases :
      ((e : Executor) × (build_executor i f b w p seq kw ≡ ok e) × (e.seq ≡ seq))
      ⊎ ((x : Exn) × (build_executor i f b w p seq kw ≡ raised x))
  build_executor-cases = elim (Result-cases (build_executor i f b w p seq kw)) [
    | inl (e, made) ↦ inl (e, made, build_executor-seq made)
    | inr failed ↦ inr failed
  ]

executor_kwargs-pure :
    (c : Config) (s : State)
    → executor_kwargs_for_new_executor c s ≡ ((executor_kwargs_for_new_executor c s).0, s)
unfolding executor_kwargs_for_new_executor
executor_kwargs-pure c s = refl

-- An executor is made under the next number, or nothing but that number is used up.
pub create-cases :
    (c : Config) (s : State)
    → let seq = s.executor_seq + 1 in
      ((e : Executor) × (create_executor c s
          ≡ (ok e, record s { executor_seq = seq; built = s.built ++ e ∷ [] }))
        × (e.seq ≡ seq))
      ⊎ ((x : Exn) × (create_executor c s ≡ (raised x, record s { executor_seq = seq })))
unfolding create_executor
create-cases c s =
    let seq = s.executor_seq + 1 in
    let t : State = record s { executor_seq = seq } in
    elim (Result-cases (executor_kwargs_for_new_executor c t).0) [
      | inr (x, failed) ↦ inr (x, ground (arith, executor_kwargs-pure c t))
      | inl (kw, given) ↦
          elim (build_executor-cases c.has_interpreter_pool (c.construct seq) (member c.backend)
            c.workers_per_pool c.name_prefix seq kw) [
              | inl (e, made, numbered) ↦
                  inl (e, ground (arith, executor_kwargs-pure c t), numbered)
              | inr (x, failed) ↦ inr (x, ground (arith, executor_kwargs-pure c t))
            ]
    ]

create-Inv :
    (c : Config) {n m k : ℕ} {s : State}
    → Inv c n m k s
    → Inv c n m (k + in_result n (create_executor c s).0) (create_executor c s).1
create-Inv c {n} {m} {k} {s} v = elim (create-cases c s) [
  | inl (e, made, numbered) ↦ rw made (ground (arith, count-append n s.built (e ∷ [])))
  | inr (x, failed) ↦ rw failed (ground arith)
]

abbrev pub granted_slot : Option Executor → ℕ
granted_slot none = 0
granted_slot (some e) = 1

abbrev pub slot : Result (Option Executor) → ℕ
slot (ok o) = granted_slot o
slot (raised x) = 0

-- The oldest idle executor is taken; with none idle one is made, if the maximum allows it.
pub take-cases :
    (c : Config) (s : State)
    → ((e : Executor) × (rest : List Executor) × (s.available ≡ e ∷ rest)
        × (take_or_create_available c s ≡ (ok (some e), record s { available = rest })))
      ⊎ ((e : Executor) × (s.available ≡ [])
          × (current_count s < c.max_pools)
          × (e.seq ≡ s.executor_seq + 1)
          × (take_or_create_available c s ≡ (
            ok (some e),
            record s { executor_seq = s.executor_seq + 1; built = s.built ++ e ∷ [] },
          )))
      ⊎ ((x : Exn) × (s.available ≡ [])
          × (current_count s < c.max_pools)
          × (take_or_create_available c s
              ≡ (raised x, record s { executor_seq = s.executor_seq + 1 })))
      ⊎ ((s.available ≡ [])
          × (c.max_pools ≤ current_count s)
          × (take_or_create_available c s ≡ (ok none, s)))
unfolding take_or_create_available
take-cases c s = elim (List-cases s.available) [
  | inr (e, rest, idle) ↦ inl (e, rest, idle, ground arith)
  | inl empty ↦ elim (Bool-cases (ltb (current_count s) c.max_pools)) [
    | inr full ↦ inr (inr (inr (empty, ground arith, ground arith)))
    | inl room ↦ elim (create-cases c s) [
      | inl (e, made, numbered) ↦ inr (inl (e, empty, ground arith, numbered, ground arith))
      | inr (x, failed) ↦ inr (inr (inl (x, empty, ground arith, ground arith)))
    ]
  ]
]

-- Taking an executor leaves a free slot for its lease.
pub take-Inv :
    (c : Config) {n k : ℕ} {s : State}
    → Inv c n 0 k s
    → let (r, t) = take_or_create_available c s in Inv c n (slot r) (k + in_option n r) t
take-Inv c {n} {k} {s} v = elim (take-cases c s) [
  | inl (e, rest, idle, same) ↦ rw same (ground (arith, ap length idle, ap (count n) idle))
  | inr (inl (e, empty, room, numbered, same)) ↦
      rw same (ground (arith, count-append n s.built (e ∷ [])))
  | inr (inr (inl (x, empty, room, same))) ↦ rw same (ground arith)
  | inr (inr (inr (empty, full, same))) ↦ rw same (ground arith)
]

-- The state after one round of growth.
abbrev pub grown : State → Executor → State
grown s e = record s {
  executor_seq = s.executor_seq + 1;
  built = s.built ++ e ∷ [];
  available = s.available ++ e ∷ [];
}

grown-Inv :
    (c : Config) {n k : ℕ} {s : State} (e : Executor)
    → e.seq ≡ s.executor_seq + 1
    → current_count s < c.max_pools
    → Inv c n 0 k s
    → Inv c n 0 k (grown s e)
grown-Inv c {n} {k} {s} e numbered room v = ground (
  arith,
  count-append n s.built (e ∷ []),
  count-append n s.available (e ∷ []),
  length-append s.available (e ∷ []),
)

-- A round of growth adds one executor, unless the target is reached or creation fails.
pub grow-cases :
    (c : Config) (rounds target : ℕ) (s : State)
    → ((e : Executor) × (current_count s < target)
        × (e.seq ≡ s.executor_seq + 1)
        × (grow c (suc rounds) target s ≡ grow c rounds target (grown s e)))
      ⊎ ((x : Exn) × (current_count s < target)
          × (grow c (suc rounds) target s
              ≡ (raised x, record s { executor_seq = s.executor_seq + 1 })))
      ⊎ ((target ≤ current_count s) × (grow c (suc rounds) target s ≡ (ok tt, s)))
unfolding grow
grow-cases c rounds target s = elim (Bool-cases (ltb (current_count s) target)) [
  | inr reached ↦ inr (inr (ground arith, ground arith))
  | inl more ↦ elim (create-cases c s) [
    | inl (e, made, numbered) ↦ inl (e, ground arith, numbered, ground arith)
    | inr (x, failed) ↦ inr (inl (x, ground arith, ground arith))
  ]
]

pub grow-Inv :
    (c : Config) (rounds target : ℕ) {n k : ℕ} {s : State}
    → target ≤ c.max_pools
    → Inv c n 0 k s
    → Inv c n 0 k (grow c rounds target s).1
unfolding grow
grow-Inv c zero target h v = v
grow-Inv c (suc rounds) target {n} {k} {s} h v = elim (grow-cases c rounds target s) [
  | inl (e, room, numbered, same) ↦
      rw same (grow-Inv c rounds target h (grown-Inv c e numbered (omega arith) v))
  | inr (inl (x, room, same)) ↦ rw same (ground arith)
  | inr (inr (reached, same)) ↦ rw same v
]
