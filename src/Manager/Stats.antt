-- ===== src/Manager/Stats.antt =====
-- The read-only views of LeasedExecutorManager (src/leasepool/manager.py): stats and the counts.
use leasepool.Base.{ℕ, String, Option, List, [], ◌∷◌, length}
use leasepool.Base.Ints.{pos, ◌-ℤ◌, clamp_zero}
use leasepool.Base.Exec.{gets, ◌>>=◌}
use leasepool.Backends.{ExecutorBackend}
use leasepool.Manager.Config.{Config}
use leasepool.Manager.State.{
  Action, LeaseRecord, soft_expires_at, hard_expires_at, monotonic, current_count,
}
use leasepool.Manager.Sizing.{desired_executor_count}

pub record LeaseStats : Type 0 where
  pub lease_id : ℕ
  pub owner : Option String
  pub seconds_until_soft_expiry : ℕ
  pub seconds_until_hard_expiry : ℕ

pub record ManagerStats : Type 0 where
  pub backend : ExecutorBackend
  pub desired : ℕ
  pub max_pools : ℕ
  pub min_pools : ℕ
  pub available : ℕ
  pub leased : ℕ
  pub total : ℕ
  pub workers_per_pool : ℕ
  pub leases : List LeaseStats

abbrev pub lease_stats : ℕ → LeaseRecord → LeaseStats
lease_stats now r = record {
  lease_id = r.lease_id;
  owner = r.owner;
  seconds_until_soft_expiry = clamp_zero (pos (soft_expires_at r) -ℤ pos now);
  seconds_until_hard_expiry = clamp_zero (pos (hard_expires_at r) -ℤ pos now);
}

abbrev pub all_lease_stats : ℕ → List LeaseRecord → List LeaseStats
all_lease_stats now [] = []
all_lease_stats now (r ∷ rs) = lease_stats now r ∷ all_lease_stats now rs

-- `LeasedExecutorManager.stats`
unfoldable pub manager_stats : Config → Action ManagerStats
manager_stats c = do
  now ← monotonic c
  desired ← desired_executor_count c
  gets λ s. record {
    backend = c.backend;
    desired = desired;
    max_pools = c.max_pools;
    min_pools = c.min_pools;
    available = length s.available;
    leased = length s.leased;
    total = current_count s;
    workers_per_pool = c.workers_per_pool;
    leases = all_lease_stats now s.leased;
  }

abbrev pub available_count : Action ℕ
available_count = gets λ s. length s.available

abbrev pub leased_count : Action ℕ
leased_count = gets λ s. length s.leased

abbrev pub total_count : Action ℕ
total_count = gets current_count
