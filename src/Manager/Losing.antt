-- ===== src/Manager/Losing.antt =====
-- What becomes of an executor when the release of its lease raises (src/leasepool/manager.py).
use leasepool.Base.{◌∙◌, ap, ℕ, ◌≡◌, refl, true, some, [], ◌∷◌, ◌++◌, arith, ==_iff, inl, inr}
use leasepool.Base.Exec.{Exn, ◌>>◌, ok, raised, Result-cases}
use leasepool.Manager.Config.{Config}
use leasepool.Manager.State.{State, Action, LeaseRecord, shutdown_executor}
use leasepool.Manager.Table.{find}
use leasepool.Manager.Pool.{ensure_minimum}
use leasepool.Manager.Leases.{release, wake_if}
use leasepool.Manager.Steps.{Reach}
use leasepool.Manager.Waking.{wake_if_lem}
use leasepool.Manager.Releasing.{release-cases}
use leasepool.Manager.Ledger.Count.{Inv}
use leasepool.Manager.Ledger.Leases.{dropped}
use leasepool.Manager.Ledger.Release.{Refused, parted, parted-Inv}
use leasepool.Manager.Ledger.Reach.{Reach-Inv}
use leasepool.Manager.Ledger.Sizes.{ensure-Inv}
use leasepool.Manager.Retirement.{nowhere, stage}

-- An executor that was built, and that a copy outside the manager accounts for, is nowhere in it.
raised_after :
    {A B : Type 0} {y : Exn} (m : Action A) (k : Action B) (s : State)
    → (m s).0 ≡ raised y
    → (m >> k) s ≡ (raised y, (m s).1)
raised_after {y = y} m k s e =
    ap (λ r. elim r [ ok _ ↦ k (m s).1 | raised x ↦ (raised x, (m s).1) ]) e

lost-nowhere : (c : Config) (n : ℕ) (s : State) → Inv c n 0 1 s → stage n s ≡ nowhere
lost-nowhere c n s v = ground (arith, v.placed, v.once)

-- When the release of a lease with no work pending raises, and its executor may not go back to the
-- pool, the manager has lost hold of the executor: it is neither shut down nor on its way there.
pub release-loses :
    (c : Config) (key : ℕ) {s : State} {r : LeaseRecord} {x : Exn}
    → Reach c s
    → find key s.leased ≡ some r
    → r.pending_futures ≡ []
    → Refused c r (dropped key s)
    → (release c key s).0 ≡ raised x
    → stage r.executor.seq (release c key s).1 ≡ nowhere
unfolding shutdown_executor
release-loses c key {s} {r} {x} reach found idle why fails =
    let n = r.executor.seq in
    let one = (==_iff n n).1 refl in
    let v = Reach-Inv c n reach in
    elim (release-cases c key s found idle) [
      | inl (k, keeps, same) ↦ ground (arith, keeps, why)
      | inr (inl (k, refused, same)) ↦
          let t = parted key k s in
          let w : Inv c n 0 1 t = rw one at (parted-Inv c key r {n = n} {k = 0} s found v k) in
          elim (Result-cases (ensure_minimum c t).0) [
            | inl (u, fine) ↦
                let woken = wake_if_lem true (record (ensure_minimum c t).1 {
                  shut = (ensure_minimum c t).1.shut ++ r.executor ∷ [];
                }) in
                ground (arith, fails)
            | inr (y, failed) ↦
                rw
                  (same
                    ∙ raised_after (ensure_minimum c) (shutdown_executor r.executor >> wake_if true)
                        t failed)
                  (lost-nowhere c n (ensure_minimum c t).1 (ensure-Inv c w))
          ]
      | inr (inr (y, k, same)) ↦ rw same (
          lost-nowhere c n (parted key k s)
            (rw one at (parted-Inv c key r {n = n} {k = 0} s found v k)))
    ]
