-- ===== src/Manager/Releasing.antt =====
-- What LeasedExecutorManager.release does, case by case (src/leasepool/manager.py).
use leasepool.Base.{ℕ, ◌≡◌, refl, ◌≢◌, true, none, some, List, [], ◌∷◌, ◌++◌, arith, ◌⊎◌, inl, inr}
use mathlib.Core.List.{append_assoc}
use leasepool.Base.Exec.{Exn, Result, ok, raised, ◌>>◌, Result-cases}
use leasepool.Backends.{Executor}
use leasepool.Manager.Config.{Config}
use leasepool.Manager.State.{State, LeaseRecord, shutdown_executor}
use leasepool.Manager.Table.{find, remove, update}
use leasepool.Manager.Pool.{ensure_minimum}
use leasepool.Manager.Leases.{release, release_idle, wake_if}
use leasepool.Manager.Waking.{notes, wake_if_lem}
use leasepool.Manager.Growth.{ensure-extends}
use leasepool.Manager.Ledger.Table.{find-update, remove-update}
use leasepool.Manager.Ledger.Release.{Returns, Refused, kept, parted, finalize-cases}
use leasepool.Manager.Ledger.Leases.{dropped}

-- Releasing a lease that the manager does not have changes nothing.
pub release_unknown :
    (c : Config) (key : ℕ) (s : State) → find key s.leased ≡ none → release c key s ≡ (ok tt, s)
unfolding release
release_unknown c key s h = rw h

abbrev pub requested : LeaseRecord → LeaseRecord
requested r = record r { release_requested = true }

-- While work is pending, a release only marks the lease.
pub release_draining :
    (c : Config) (key : ℕ) (s : State) {r : LeaseRecord}
    → find key s.leased ≡ some r
    → r.pending_futures ≢ []
    → release c key s ≡ (ok tt, record s { leased = update key requested s.leased })
unfolding release
release_draining c key s found busy = ground arith

-- How the release of a lease with no work pending goes on: the executor returns to the pool, or it
-- is shut down, or the size provider's answer cannot be used.
abbrev pub Released : Config → ℕ → LeaseRecord → State → Result (Unit {0}) × State → Type 0
Released c key r s out =
    ((k : ℕ) × Returns c r (dropped key s)
      × (out ≡ (ensure_minimum c >> wake_if true) (kept key r k s)))
    ⊎ ((k : ℕ) × Refused c r (dropped key s)
        × (out
            ≡ (ensure_minimum c >> (shutdown_executor r.executor >> wake_if true))
                (parted key k s)))
    ⊎ ((x : Exn) × (k : ℕ) × (out ≡ (raised x, parted key k s)))

release_idle-cases :
    (c : Config) (key : ℕ) (r : LeaseRecord) (s : State)
    → find key s.leased ≡ some r
    → r.pending_futures ≡ []
    → r.release_requested ≡ true
    → Released c key r s (release_idle c key r s)
unfolding shutdown_executor
release_idle-cases c key r s found idle asked =
    elim (finalize-cases c key r s found (ground arith)) [
      | inl (k, why, room, same) ↦ inl (k, why, ground arith)
      | inr (inl (k, why, same)) ↦ inr (inl (k, why, ground arith))
      | inr (inr (x, k, same)) ↦ inr (inr (x, k, ground arith))
    ]

pub release-cases :
    (c : Config) (key : ℕ) (s : State) {r : LeaseRecord}
    → find key s.leased ≡ some r
    → r.pending_futures ≡ []
    → Released c key r s (release c key s)
unfolding release
release-cases c key s {r} found idle =
    let marked : State = record s { leased = update key requested s.leased } in
    let gone = remove-update key requested (λ x. refl) s.leased in
    let done =
      release_idle-cases c key (requested r) marked
        (find-update key requested (λ x. refl) s.leased found) idle refl in
    rw found (rw gone at done)

-- What becomes of the executor of a lease that is released with no work pending.
abbrev pub Fate : Config → LeaseRecord → State → State → Result (Unit {0}) × State → Type 0
Fate c r s gone (res, t) =
    ((new : List Executor) × (res ≡ ok tt)
      × Returns c r gone
      × (t.available ≡ s.available ++ r.executor ∷ new)
      × (t.shut ≡ s.shut)
      × (t.ready ≡ s.ready ++ notes s))
    ⊎ ((new : List Executor) × (res ≡ ok tt)
        × Refused c r gone
        × (t.available ≡ s.available ++ new)
        × (t.shut ≡ s.shut ++ r.executor ∷ [])
        × (t.ready ≡ s.ready ++ notes s))
    ⊎ ((x : Exn) × (res ≡ raised x) × (t.shut ≡ s.shut))

-- A release with no work pending takes the lease out of the table. Its executor goes to the right
-- end of the pool, ahead of executors that are made to reach the target, exactly if it is not
-- broken, the manager is not stopping, the hard deadline is ahead and the target has room; else it
-- is shut down. Either way all who wait for an executor and the checker are woken. The one other
-- outcome is an exception, of the size provider's answer or of a failed creation.
pub release_idle_lem :
    (c : Config) (key : ℕ) (s : State) {r : LeaseRecord}
    → find key s.leased ≡ some r
    → r.pending_futures ≡ []
    → ((release c key s).1.leased ≡ remove key s.leased)
      × Fate c r s (dropped key s) (release c key s)
unfolding shutdown_executor
release_idle_lem c key s {r} found idle = elim (release-cases c key s found idle) [
  | inl (k, why, same) ↦
      let t = kept key r k s in
      let (new, reads, seq, built, grown) = ensure-extends c t in
      let woken = wake_if_lem true (ensure_minimum c t).1 in
      elim (Result-cases (ensure_minimum c t).0) [
        | inl (u, fine) ↦ rw same (
          ground arith,
          inl (
            new,
            ground arith,
            why,
            ground (arith, append_assoc s.available (r.executor ∷ []) new),
            ground arith,
            ground arith,
          ),
        )
        | inr (x, failed) ↦ rw same (ground arith, inr (inr (x, ground arith, ground arith)))
      ]
  | inr (inl (k, why, same)) ↦
      let t = parted key k s in
      let u = (ensure_minimum c t).1 in
      let (new, reads, seq, built, grown) = ensure-extends c t in
      let woken = wake_if_lem true (record u { shut = u.shut ++ r.executor ∷ [] }) in
      elim (Result-cases (ensure_minimum c t).0) [
        | inl (v, fine) ↦ rw same (
          ground arith,
          inr (inl (new, ground arith, why, ground arith, ground arith, ground arith)),
        )
        | inr (x, failed) ↦ rw same (ground arith, inr (inr (x, ground arith, ground arith)))
      ]
  | inr (inr (x, k, same)) ↦ rw same (refl, inr (inr (x, refl, refl)))
]
