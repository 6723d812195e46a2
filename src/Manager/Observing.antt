-- ===== src/Manager/Observing.antt =====
-- What stats of LeasedExecutorManager (src/leasepool/manager.py) can show.
use leasepool.Base.{ℕ, ◌+◌, ◌≡◌, refl, ◌≤◌, List, [], ◌∷◌, length, arith, inl, inr}
use leasepool.Base.Exec.{ok}
use leasepool.Manager.Config.{Config}
use leasepool.Manager.State.{State, LeaseRecord, monotonic, current_count}
use leasepool.Manager.Stats.{LeaseStats, ManagerStats, all_lease_stats, manager_stats}
use leasepool.Manager.Steps.{Reach}
use leasepool.Manager.Ledger.Sizes.{desired-cases}
use leasepool.Manager.Ledger.Reach.{current_count-le}

abbrev pub Ordered : List LeaseStats → Type 0
Ordered [] = Unit
Ordered (x ∷ xs) = (x.seconds_until_soft_expiry ≤ x.seconds_until_hard_expiry) × Ordered xs

all_lease_stats-Ordered :
    (now : ℕ) (rs : List LeaseRecord)
    → Ordered (all_lease_stats now rs) × (length (all_lease_stats now rs) ≡ length rs)
all_lease_stats-Ordered now [] = (tt, refl)
all_lease_stats-Ordered now (r ∷ rs) =
    let (order, size) = all_lease_stats-Ordered now rs in
    ((ground arith, order), omega (arith, size))

abbrev stats_at : Config → ℕ → ℕ → State → ManagerStats
stats_at c d now s = record {
  backend = c.backend;
  desired = d;
  max_pools = c.max_pools;
  min_pools = c.min_pools;
  available = length s.available;
  leased = length s.leased;
  total = current_count s;
  workers_per_pool = c.workers_per_pool;
  leases = all_lease_stats now s.leased;
}

-- The numbers of stats agree: the total is the idle and the leased executors and at most the maximum,
-- as is the target; there is an entry for each lease, whose soft expiry comes no later than its
-- hard expiry; and the manager is as it was, but for the environment's reads.
pub manager_stats_sound :
    (c : Config) {s t : State} {st : ManagerStats}
    → Reach c s
    → manager_stats c s ≡ (ok st, t)
    → (st.total ≡ st.available + st.leased)
      × (st.total ≤ st.max_pools)
      × (st.desired ≤ st.max_pools)
      × (length st.leases ≡ st.leased)
      × Ordered st.leases
      × (t ≡ record s { reads = t.reads })
unfolding manager_stats monotonic
manager_stats_sound c {s} {t} {st} r h =
    let (order, size) = all_lease_stats-Ordered (c.clock s.reads) s.leased in
    let most = current_count-le c r in
    elim (desired-cases c (record s { reads = s.reads + 1 })) [
      | inl (d, k, capped, same) ↦
          let shown = stats_at c d (c.clock s.reads) s in
          let st_eq : st ≡ shown = ground (arith, h, same) in
          let t_eq : t ≡ record s { reads = k } = ground (arith, h, same) in
          rw (st_eq, t_eq) (refl, most, capped, size, order, refl)
      | inr (x, k, same) ↦ ground (arith, h, same)
    ]
