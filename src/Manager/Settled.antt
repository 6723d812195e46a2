-- ===== src/Manager/Settled.antt =====
-- A submission and the end of its future (src/leasepool/manager.py) undo each other.
use leasepool.Base.{
  Bool, true, Option, is_none, Option-cases, ℕ, ◌≡◌, false, none, some, arith, inl, inr, add_member,
}
use leasepool.Base.Exec.{ok}
use leasepool.Manager.Config.{Config}
use leasepool.Manager.State.{State, LeaseRecord}
use leasepool.Manager.Table.{find, update}
use leasepool.Manager.Leases.{on_lease_future_done, FutureOutcome, broken_exception_from_future}
use leasepool.Manager.Draining.{drops}

abbrev adds : ℕ → LeaseRecord → LeaseRecord
adds f r = record r { pending_futures = add_member f r.pending_futures }

-- The end of a future whose lease is not released only takes it off the lease.
pub ended :
    (c : Config) (k f : ℕ) (outcome : FutureOutcome) (t : State) (r : LeaseRecord)
    → find k t.leased ≡ some r
    → r.release_requested ≡ false
    → broken_exception_from_future outcome ≡ none
    → on_lease_future_done c k f outcome t
      ≡ (ok tt, record t { leased = update k (drops f) t.leased })
unfolding on_lease_future_done
ended c k f outcome t r there open_ fine = ground (arith, there, open_, fine)

-- A future that was not done at once, or not by a broken executor.
abbrev pub unbroken : Option FutureOutcome → Bool
unbroken none = true
unbroken (some outcome) = is_none (broken_exception_from_future outcome)

pub unbroken-none :
    (o : FutureOutcome) → unbroken (some o) ≡ true → broken_exception_from_future o ≡ none
unbroken-none o whole = elim (Option-cases (broken_exception_from_future o)) [
  | inl e ↦ e
  | inr (x, e) ↦ absurd (ground (arith, whole, e))
]
