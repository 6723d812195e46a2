-- ===== src/Manager/Ledger/Release.antt =====
-- A released executor, kept or to be shut down, in the ledger (_finalize_released_record_locked,
-- _retire_broken_record_locked and release of src/leasepool/manager.py).
use leasepool.Base.{
  ℕ, ◌+◌, ◌≡◌, refl, ◌≤◌, ◌<◌, Bool, true, false, ◌&&◌, Option, none, some, [], ◌∷◌, ◌++◌, arith,
  ==_iff, ltb, leb, length-append, ◌⊎◌, inl, inr, Bool-cases, is_empty,
}
use leasepool.Base.Exec.{Exn, Result, ok, raised, pure, ◌>>◌}
use leasepool.Backends.{Executor}
use leasepool.Manager.Config.{Config}
use leasepool.Manager.State.{State, LeaseRecord, hard_expires_at, current_count, monotonic}
use leasepool.Manager.Sizing.{desired_executor_count}
use leasepool.Manager.Table.{find, remove}
use leasepool.Manager.Pool.{ensure_minimum}
use leasepool.Manager.Leases.{retire_broken_record, should_keep, finalize_released_record}
use leasepool.Manager.Ledger.Count.{Inv, one_if, count_option, in_option, count-append}
use leasepool.Manager.Ledger.Sizes.{ensure-Inv, desired-cases}
use leasepool.Manager.Ledger.Table.{count-remove}
use leasepool.Manager.Ledger.Leases.{dropped}

-- What the target is when an executor is to be kept: it is asked for after the clock.
abbrev pub target_at : Config → State → Result ℕ
target_at c s = (desired_executor_count c (record s { reads = s.reads + 1 })).0

-- Why an executor may go back to the pool, with the record out of the table.
abbrev pub Returns : Config → LeaseRecord → State → Type 0
Returns c r s =
    (d : ℕ) × (target_at c s ≡ ok d)
    × (d ≤ c.max_pools)
    × (current_count s + 1 ≤ d)
    × (r.broken ≡ false)
    × (s.stopping ≡ false)
    × (c.clock s.reads < hard_expires_at r)

-- Why it may not.
abbrev pub Refused : Config → LeaseRecord → State → Type 0
Refused c r s =
    (r.broken ≡ true)
    ⊎ (s.stopping ≡ true)
    ⊎ (hard_expires_at r ≤ c.clock s.reads)
    ⊎ ((d : ℕ) × (target_at c s ≡ ok d) × (d < current_count s + 1))

-- An executor is kept only if it is sound, the manager is not stopping, its lease has not passed
-- the hard deadline, and the target has room for it.
pub should_keep-cases :
    (c : Config) (r : LeaseRecord) (s : State)
    → ((k : ℕ) × Returns c r s × (should_keep c r s ≡ (ok true, record s { reads = k })))
      ⊎ ((k : ℕ) × Refused c r s × (should_keep c r s ≡ (ok false, record s { reads = k })))
      ⊎ ((x : Exn) × (k : ℕ) × (should_keep c r s ≡ (raised x, record s { reads = k })))
unfolding should_keep monotonic
should_keep-cases c r s = elim (Bool-cases r.broken) [
  | inl unfit ↦ inr (inl (s.reads, inl unfit, ground arith))
  | inr fit ↦ elim (Bool-cases s.stopping) [
    | inl ending ↦ inr (inl (s.reads, inr (inl ending), ground arith))
    | inr going ↦ elim (Bool-cases (ltb (c.clock s.reads) (hard_expires_at r))) [
      | inr late ↦ inr (inl (s.reads + 1, inr (inr (inl (ground arith))), ground arith))
      | inl in_time ↦ elim (desired-cases c (record s { reads = s.reads + 1 })) [
        | inr (x, k, same) ↦ inr (inr (x, k, ground arith))
        | inl (d, k, capped, same) ↦ elim (Bool-cases (leb (current_count s + 1) d)) [
          | inl room ↦
              inl
                (k, (d, ground arith, capped, ground arith, fit, going, ground arith), ground arith)
          | inr full ↦ inr (inl (k, inr (inr (inr (d, ground arith, ground arith))), ground arith))
        ]
      ]
    ]
  ]
]

abbrev pub in_final : ℕ → Result (Option Executor × Bool) → ℕ
in_final n (ok (o, finalized)) = count_option n o
in_final n (raised x) = 0

-- The state in which a released executor is idle again.
abbrev pub kept : ℕ → LeaseRecord → ℕ → State → State
kept key r reads s = record s {
  leased = remove key s.leased;
  available = s.available ++ r.executor ∷ [];
  reads = reads;
}

-- The state in which the record is gone and its executor is held by the method.
abbrev pub parted : ℕ → ℕ → State → State
parted key reads s = record s { leased = remove key s.leased; reads = reads }

-- The state in which a broken record has left the table.
abbrev pub retired_state : ℕ → LeaseRecord → State → State
retired_state key r s = record s {
  leased = remove key s.leased;
  retired =
      s.retired ++ record r { release_requested = true; pending_futures = []; broken = true } ∷ [];
}

module _ (c : Config) (key : ℕ) (r : LeaseRecord) (s : State)
    (found : find key s.leased ≡ some r) where
  pub finalize-unfinished :
      (r.release_requested && is_empty r.pending_futures) ≡ false
      → finalize_released_record c key r s ≡ (ok (none, false), s)
  unfolding finalize_released_record
  finalize-unfinished h = ground (arith, (==_iff r.ref r.ref).1 refl)

  pub finalize-cases :
      (r.release_requested && is_empty r.pending_futures) ≡ true
      → ((k : ℕ) × Returns c r (dropped key s)
          × (current_count (kept key r k s) ≤ c.max_pools)
          × (finalize_released_record c key r s
              ≡ (ensure_minimum c >> pure (none, true)) (kept key r k s)))
        ⊎ ((k : ℕ) × Refused c r (dropped key s)
            × (finalize_released_record c key r s
                ≡ (ensure_minimum c >> pure (some r.executor, true)) (parted key k s)))
        ⊎ ((x : Exn) × (k : ℕ) × (finalize_released_record c key r s ≡ (raised x, parted key k s)))
  unfolding finalize_released_record
  finalize-cases h =
      let same_ref = (==_iff r.ref r.ref).1 refl in
      elim (should_keep-cases c r (dropped key s)) [
        | inr (inr (x, k, same)) ↦ inr (inr (x, k, ground (arith, same_ref)))
        | inr (inl (k, why, same)) ↦ inr (inl (k, why, ground (arith, same_ref)))
        | inl (k, why, same) ↦ inl (
          k,
          why,
          ground (arith, why, length-append s.available (r.executor ∷ [])),
          ground (arith, same_ref),
        )
      ]

  pub retire-same :
      retire_broken_record c key r s
      ≡ (ensure_minimum c >> pure (some r.executor)) (retired_state key r s)
  unfolding retire_broken_record
  retire-same = ground (arith, (==_iff r.ref r.ref).1 refl)

module _ (c : Config) (key : ℕ) (r : LeaseRecord) {n k : ℕ} (s : State)
    (found : find key s.leased ≡ some r) (v : Inv c n 0 k s) where
  kept-Inv :
      (reads : ℕ)
      → current_count (kept key r reads s) ≤ c.max_pools
      → Inv c n 0 k (kept key r reads s)
  kept-Inv reads room =
      ground
        (arith, count-remove n key s.leased found, count-append n s.available (r.executor ∷ []))

  pub parted-Inv : (reads : ℕ) → Inv c n 0 (k + one_if n r.executor) (parted key reads s)
  parted-Inv reads = ground (arith, count-remove n key s.leased found)

  pub finalize-Inv :
      let (res, t) = finalize_released_record c key r s in Inv c n 0 (k + in_final n res) t
  finalize-Inv = elim (Bool-cases (r.release_requested && is_empty r.pending_futures)) [
    | inr unfinished ↦ rw (finalize-unfinished c key r s found unfinished) (ground arith)
    | inl finished ↦ elim (finalize-cases c key r s found finished) [
      | inl (reads, why, room, same) ↦ rw same (ground (arith, ensure-Inv c (kept-Inv reads room)))
      | inr (inl (reads, why, same)) ↦ rw same (ground (arith, ensure-Inv c (parted-Inv reads)))
      | inr (inr (x, reads, same)) ↦ rw same (ground (arith, parted-Inv reads))
    ]
  ]

  pub retire-Inv :
      let (res, t) = retire_broken_record c key r s in Inv c n 0 (k + in_option n res) t
  retire-Inv =
      let w : Inv c n 0 (k + one_if n r.executor) (retired_state key r s) =
        ground (arith, count-remove n key s.leased found) in
      rw (retire-same c key r s found) (ground (arith, ensure-Inv c w))
