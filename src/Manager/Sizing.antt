-- ===== src/Manager/Sizing.antt =====
-- How many executors the manager wants (_unit_count_locked and _desired_executor_count_locked of
-- src/leasepool/manager.py).
use leasepool.Base.{ℕ, ◌+◌, Option, none, some, min, max}
use leasepool.Base.Ints.{clamp_zero}
use leasepool.Base.Exec.{pure, modify, gets, lift, ◌>>=◌, ◌>>◌}
use leasepool.Manager.Config.{Config, Reading, units, failing}
use leasepool.Manager.State.{Action}

abbrev pub count_of : Reading → ℕ
count_of (units z) = clamp_zero z
count_of failing = 0

abbrev pub ask : Option (ℕ → Reading) → Action ℕ
ask none = pure 0
ask (some provider) = do
  k ← gets λ s. s.reads
  modify λ s. record s { reads = k + 1 }
  pure (count_of (provider k))

unfoldable pub unit_count : Config → Action ℕ
unit_count c = ask c.size_provider

-- `desired_executor_count` takes the lock and calls it. The division is one of floats, and can
-- raise an OverflowError.
unfoldable pub desired_executor_count : Config → Action ℕ
unfolding unit_count
desired_executor_count c = do
  unit_count ← unit_count c
  unit_based ← lift (c.ceil_div unit_count c.units_per_pool)
  let desired = max c.min_pools unit_based
  pure (min c.max_pools desired)
