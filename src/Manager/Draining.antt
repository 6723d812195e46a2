-- ===== src/Manager/Draining.antt =====
-- The end of the last future of a lease that was released before (src/leasepool/manager.py).
use leasepool.Base.{
  ℕ, ◌≡◌, refl, Bool, true, false, Option, none, some, List, [], ◌∷◌, ◌++◌, arith, ◌⊎◌, inl, inr,
  discard, ap, subst, ◌∙◌,
}
use mathlib.Core.List.{append_assoc}
use leasepool.Base.Exec.{Exn, Result, ok, raised, ◌>>◌, Result-cases}
use leasepool.Backends.{Executor}
use leasepool.Manager.Config.{Config}
use leasepool.Manager.State.{
  State, LeaseRecord, shut_down, shutdown_executor_from_callback, on_loop,
}
use leasepool.Manager.Table.{find, remove, update}
use leasepool.Manager.Pool.{ensure_minimum}
use leasepool.Manager.Leases.{
  on_lease_future_done, FutureOutcome, broken_exception_from_future, settle, wake_if,
}
use leasepool.Manager.Waking.{notes, wake_if_lem}
use leasepool.Manager.Growth.{ensure-extends}
use leasepool.Manager.Ledger.Table.{find-update, remove-update}
use leasepool.Manager.Ledger.Release.{Returns, Refused, kept, parted, finalize-cases}
use leasepool.Manager.Ledger.Leases.{dropped}

abbrev pub drops : ℕ → LeaseRecord → LeaseRecord
drops f r = record r { pending_futures = discard f r.pending_futures }

abbrev Settled : Config → ℕ → LeaseRecord → State → Result (Unit {0}) × State → Type 0
Settled c key r s out =
    ((k : ℕ) × Returns c r (dropped key s)
      × (out ≡ (ensure_minimum c >> wake_if true) (kept key r k s)))
    ⊎ ((k : ℕ) × Refused c r (dropped key s)
        × (out
            ≡ (ensure_minimum c >> (shutdown_executor_from_callback r.executor >> wake_if true))
                (parted key k s)))
    ⊎ ((x : Exn) × (k : ℕ) × (out ≡ (raised x, parted key k s)))

settle-cases :
    (c : Config) (key : ℕ) (r : LeaseRecord) (s : State)
    → find key s.leased ≡ some r
    → r.pending_futures ≡ []
    → r.release_requested ≡ true
    → Settled c key r s (settle c key r none s)
settle-cases c key r s found idle asked = elim (finalize-cases c key r s found (ground arith)) [
  | inl (k, why, room, same) ↦ inl (k, why, ground arith)
  | inr (inl (k, why, same)) ↦ inr (inl (k, why, ground arith))
  | inr (inr (x, k, same)) ↦ inr (inr (x, k, ground arith))
]

done-cases :
    (c : Config) (key f : ℕ) (outcome : FutureOutcome) (s : State) {r : LeaseRecord}
    → find key s.leased ≡ some r
    → r.release_requested ≡ true
    → discard f r.pending_futures ≡ []
    → broken_exception_from_future outcome ≡ none
    → Settled c key (drops f r) s (on_lease_future_done c key f outcome s)
unfolding on_lease_future_done
done-cases c key f outcome s {r} found asked last fine =
    let marked : State = record s { leased = update key (drops f) s.leased } in
    let gone = remove-update key (drops f) (λ x. refl) s.leased in
    let done =
      settle-cases c key (drops f r) marked (find-update key (drops f) (λ x. refl) s.leased found)
        last asked in
    rw (fine, found) (rw gone at done)

-- The executor is handed to the event loop, or to a thread of its own, that shuts it down.
abbrev pub Handed : Executor → State → State → Type 0
Handed e s t =
    (t.shut ≡ s.shut)
    × (((t.ready ≡ s.ready ++ shut_down e ∷ notes s) × (t.closing ≡ s.closing))
        ⊎ ((t.ready ≡ s.ready ++ notes s) × (t.closing ≡ s.closing ++ e ∷ [])))

abbrev pub DrainedFate : Config → LeaseRecord → State → State → Result (Unit {0}) × State → Type 0
DrainedFate c r s gone (res, t) =
    ((new : List Executor) × (res ≡ ok tt)
      × Returns c r gone
      × (t.available ≡ s.available ++ r.executor ∷ new)
      × (t.shut ≡ s.shut))
    ⊎ ((new : List Executor) × (res ≡ ok tt)
        × Refused c r gone
        × (t.available ≡ s.available ++ new)
        × Handed r.executor s t)
    ⊎ ((x : Exn) × (res ≡ raised x) × (t.shut ≡ s.shut))

abbrev on_its_way : Executor → State → State
on_its_way e s = record s { ready = s.ready ++ shut_down e ∷ [] }

abbrev in_thread : Executor → State → State
in_thread e s = record s { closing = s.closing ++ e ∷ [] }

callback-cases :
    (e : Executor) (s : State)
    → (shutdown_executor_from_callback e s ≡ (ok tt, on_its_way e s))
      ⊎ (shutdown_executor_from_callback e s ≡ (ok tt, in_thread e s))
unfolding shutdown_executor_from_callback
callback-cases e s = by_loop s.loop s.loop_closed
  where
    by_loop :
        (l : Option ℕ) (closed : Bool)
        → (on_loop l closed e s ≡ (ok tt, on_its_way e s))
          ⊎ (on_loop l closed e s ≡ (ok tt, in_thread e s))
    by_loop none closed = inr refl
    by_loop (some l) true = inr refl
    by_loop (some l) false = inl refl

-- What follows the growth of the pool, when the executor is to be shut down.
hands_over :
    (e : Executor) (s : State)
    → (t : State) × ((shutdown_executor_from_callback e >> wake_if true) s ≡ (ok tt, t))
      × Handed e s t
      × (t.leased ≡ s.leased)
      × (t.available ≡ s.available)
hands_over e s = elim (callback-cases e s) [
  | inl same ↦
      let u = on_its_way e s in
      let woken = wake_if_lem true u in
      (
        record u { ready = u.ready ++ notes s },
        ground (arith, same, woken),
        (refl, inl (append_assoc s.ready (shut_down e ∷ []) (notes s), refl)),
        refl,
        refl,
      )
  | inr same ↦
      let u = in_thread e s in
      let woken = wake_if_lem true u in
      (
        record u { ready = u.ready ++ notes s },
        ground (arith, same, woken),
        (refl, inr (refl, refl)),
        refl,
        refl,
      )
]

-- When the last future of a lease that was released has ended, without a broken executor, the lease
-- leaves the table. Its executor goes back to the pool under the conditions of a release with no work
-- pending; else it is handed over to be shut down. The one other outcome is an exception, of the
-- size provider's answer or of a failed creation.
pub on_lease_future_done-drained :
    (c : Config) (key f : ℕ) (outcome : FutureOutcome) (s : State) {r : LeaseRecord}
    → find key s.leased ≡ some r
    → r.release_requested ≡ true
    → discard f r.pending_futures ≡ []
    → broken_exception_from_future outcome ≡ none
    → let out = on_lease_future_done c key f outcome s in
      (out.1.leased ≡ remove key s.leased) × DrainedFate c (drops f r) s (dropped key s) out
on_lease_future_done-drained c key f outcome s {r} found asked last fine =
    elim (done-cases c key f outcome s found asked last fine) [
      | inl (k, why, same) ↦
          let t = kept key (drops f r) k s in
          let (new, reads, seq, built, grown) = ensure-extends c t in
          let woken = wake_if_lem true (ensure_minimum c t).1 in
          elim (Result-cases (ensure_minimum c t).0) [
            | inl (u, e) ↦ rw same (
              ground arith,
              inl (
                new,
                ground arith,
                why,
                ground (arith, append_assoc s.available (r.executor ∷ []) new),
                ground arith,
              ),
            )
            | inr (x, e) ↦ rw same (ground arith, inr (inr (x, ground arith, ground arith)))
          ]
      | inr (inl (k, why, same)) ↦
          let t = parted key k s in
          let u = (ensure_minimum c t).1 in
          let (new, reads, seq, built, grown) = ensure-extends c t in
          elim (Result-cases (ensure_minimum c t).0) [
            | inl (v, e) ↦
                let (w, over, handed, leases, idle) = hands_over r.executor u in
                let end : on_lease_future_done c key f outcome s ≡ (ok tt, w) =
                  ground (arith, same, over) in
                let h : Handed r.executor s w = subst (λ q. Handed r.executor q w) grown handed in
                rw end (
                  leases ∙ ap (λ q. q.leased) grown,
                  inr (inl (new, refl, why, idle ∙ ap (λ q. q.available) grown, h)),
                )
            | inr (x, e) ↦ rw same (ground arith, inr (inr (x, ground arith, ground arith)))
          ]
      | inr (inr (x, k, same)) ↦ rw same (refl, inr (inr (x, refl, refl)))
    ]
