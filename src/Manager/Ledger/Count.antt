-- ===== src/Manager/Ledger/Count.antt =====
-- Counting the places of the executor with a given number.
use leasepool.Base.{
  ℕ, ◌+◌, ◌≡◌, ◌≤◌, ◌<◌, Option, none, some, List, [], ◌∷◌, ◌++◌, arith, ◌==◌, if◌then◌else◌,
}
use leasepool.Base.Exec.{Result, ok, raised}
use leasepool.Backends.{Executor}
use leasepool.Manager.Config.{Config}
use leasepool.Manager.State.{State, LeaseRecord, Callback, set_event, shut_down, current_count}

abbrev pub one_if : ℕ → Executor → ℕ
one_if n e = if e.seq == n then 1 else 0

abbrev pub count : ℕ → List Executor → ℕ
count n [] = 0
count n (e ∷ es) = one_if n e + count n es

abbrev pub count_leased : ℕ → List LeaseRecord → ℕ
count_leased n [] = 0
count_leased n (r ∷ rs) = one_if n r.executor + count_leased n rs

abbrev pub count_ready : ℕ → List Callback → ℕ
count_ready n [] = 0
count_ready n (set_event event ∷ cs) = count_ready n cs
count_ready n (shut_down e ∷ cs) = one_if n e + count_ready n cs

-- The copies of executor `n` in a result.
abbrev pub count_option : ℕ → Option Executor → ℕ
count_option n none = 0
count_option n (some e) = one_if n e

abbrev pub in_result : ℕ → Result Executor → ℕ
in_result n (ok e) = one_if n e
in_result n (raised x) = 0

abbrev pub in_option : ℕ → Result (Option Executor) → ℕ
in_option n (ok o) = count_option n o
in_option n (raised x) = 0

-- The places where executor `n` is.
abbrev pub census : ℕ → State → ℕ
census n s =
    count n s.available
    + count_leased n s.leased
    + count_ready n s.ready
    + count n s.closing
    + count n s.shut

-- The manager keeps within its maximum, `m` slots apart; executor `n` was built at most once, under
-- a number that is not ahead of `executor_seq`, and is in at most one place, the `k` copies that
-- the running method holds included.
pub record Inv (c : Config) (n m k : ℕ) (s : State) : Type 0 where
  pub capped : current_count s + m ≤ c.max_pools
  pub placed : k + census n s ≤ count n s.built
  pub once : count n s.built ≤ 1
  pub fresh : s.executor_seq < n → count n s.built ≡ 0

pub count-append : (n : ℕ) (xs ys : List Executor) → count n (xs ++ ys) ≡ count n xs + count n ys
count-append n [] ys = omega arith
count-append n (x ∷ xs) ys = omega (arith, count-append n xs ys)

pub count_ready-append :
    (n : ℕ) (xs ys : List Callback) → count_ready n (xs ++ ys) ≡ count_ready n xs + count_ready n ys
count_ready-append n [] ys = omega arith
count_ready-append n (set_event event ∷ xs) ys = count_ready-append n xs ys
count_ready-append n (shut_down e ∷ xs) ys = omega (arith, count_ready-append n xs ys)
