-- ===== src/Manager/Expired.antt =====
-- A lease that was released stays so, whatever its manager does later (src/leasepool/manager.py).
use leasepool.Base.{
  ℕ, ◌≤◌, ◌≡◌, ◌≢◌, true, false, ◌==◌, ==_iff, none, some, List, [], ◌∷◌, arith, inl, inr,
  Bool-cases, ap, sym, subst, ◌∙◌,
}
use leasepool.Base.Exec.{lease_expired, raised}
use leasepool.Manager.Config.{Config}
use leasepool.Manager.State.{State, LeaseRecord}
use leasepool.Manager.Table.{find, insert, remove, update}
use leasepool.Manager.Leases.{submit_for_lease}
use leasepool.Manager.LeaseUse.{Shut, Shut-refuses}
use leasepool.Manager.Revoking.{Distinct}
use leasepool.Manager.Steps.{Reach, run_callback, run_closing}
use leasepool.Manager.Identity.{Reach-Distinct, run_callback-leased, run_closing-leased}
use leasepool.Manager.Writes.{
  Mild, Write, aside, inserts, removes, updates, empties, shuts, closes, calls_soon, turns,
}
use leasepool.Manager.Writes.Steps.{Later, Later-keeps}

-- Every lease `k` was released.
abbrev Marked : ℕ → List LeaseRecord → Type 0
Marked k [] = Unit {0}
Marked k (r ∷ rs) = (r.lease_id ≡ k → r.release_requested ≡ true) × Marked k rs

Marked-Shut :
    (k : ℕ) (rs : List LeaseRecord) (r : LeaseRecord)
    → Marked k rs
    → find k rs ≡ some r
    → r.release_requested ≡ true
unfolding find
Marked-Shut k [] r m h = absurd (ground (arith, h))
Marked-Shut k (x ∷ rs) r (first, m) h = elim (Bool-cases (x.lease_id == k)) [
  | inl e ↦
      let same : x ≡ r = ground (arith, h, e) in
      ap (λ (q : LeaseRecord). q.release_requested) (sym same) ∙ first ((==_iff x.lease_id k).0 e)
  | inr e ↦ Marked-Shut k rs r m (ground (arith, h, e))
]

none-Marked : (k : ℕ) (rs : List LeaseRecord) → find k rs ≡ none → Marked k rs
unfolding find
none-Marked k [] h = tt
none-Marked k (x ∷ rs) h = elim (Bool-cases (x.lease_id == k)) [
  | inl e ↦ absurd (ground (arith, h, e))
  | inr e ↦ (λ same. absurd (ground (arith, same, e)), none-Marked k rs (ground (arith, h, e)))
]

Shut-Marked :
    (k : ℕ) (rs : List LeaseRecord)
    → Distinct rs
    → ((r : LeaseRecord) → find k rs ≡ some r → r.release_requested ≡ true)
    → Marked k rs
unfolding find
Shut-Marked k [] d shut = tt
Shut-Marked k (x ∷ rs) (new, d) shut = elim (Bool-cases (x.lease_id == k)) [
  | inl e ↦
      let same = (==_iff x.lease_id k).0 e in
      (λ _. shut x (ground (arith, e)), none-Marked k rs (subst (λ j. find j rs ≡ none) same new))
  | inr e ↦ (
    λ same. absurd (ground (arith, same, e)),
    Shut-Marked k rs d (λ r h. shut r (ground (arith, h, e))),
  )
]

Marked-insert :
    (k : ℕ) (r : LeaseRecord) (rs : List LeaseRecord)
    → r.lease_id ≢ k
    → Marked k rs
    → Marked k (insert r rs)
unfolding insert
Marked-insert k r [] other m = (λ same. absurd (other same), tt)
Marked-insert k r (x ∷ rs) other (first, m) = elim (Bool-cases (x.lease_id == r.lease_id)) [
  | inl e ↦ rw e (λ same. absurd (other same), m)
  | inr e ↦ rw e (first, Marked-insert k r rs other m)
]

Marked-remove : (k j : ℕ) (rs : List LeaseRecord) → Marked k rs → Marked k (remove j rs)
unfolding remove
Marked-remove k j [] m = tt
Marked-remove k j (x ∷ rs) (first, m) = elim (Bool-cases (x.lease_id == j)) [
  | inl e ↦ rw e m
  | inr e ↦ rw e (first, Marked-remove k j rs m)
]

Marked-update :
    (k j : ℕ) (f : LeaseRecord → LeaseRecord) (rs : List LeaseRecord)
    → Mild f
    → Marked k rs
    → Marked k (update j f rs)
unfolding update
Marked-update k j f [] mild m = tt
Marked-update k j f (x ∷ rs) mild (first, m) = elim (Bool-cases (x.lease_id == j)) [
  | inl e ↦ rw e (λ same. mild.released x (first (sym (mild.lease_id x) ∙ same)), m)
  | inr e ↦ rw e (first, Marked-update k j f rs mild m)
]

-- Every lease `k` is released, and the environment was asked `n` times or more.
record Over (k n : ℕ) (s : State) : Type 0 where
  since : n ≤ s.reads
  marked : Marked k s.leased

module _ (c : Config) (k n : ℕ) (new : (m : ℕ) → n ≤ m → c.uuid m ≢ k) where
  Write-Over : (s t : State) → Write c.uuid false s t → Over k n s → Over k n t
  Write-Over s t (aside on e _ _ _ _ _ _) h = record {
    since = omega (arith, on, h.since);
    marked = rw e h.marked;
  }
  Write-Over s t (inserts r named e) h = rw e (record {
    since = h.since;
    marked = Marked-insert k r s.leased (λ same. new s.reads h.since (sym named ∙ same)) h.marked;
  })
  Write-Over s t (removes j e) h =
      rw e (record { since = h.since; marked = Marked-remove k j s.leased h.marked })
  Write-Over s t (updates j f mild e) h =
      rw e (record { since = h.since; marked = Marked-update k j f s.leased mild h.marked })
  Write-Over s t (empties e) h = rw e (record { since = h.since; marked = tt })
  Write-Over s t (shuts x e) h = rw e (record { since = h.since; marked = h.marked })
  Write-Over s t (closes x e) h = rw e (record { since = h.since; marked = h.marked })
  Write-Over s t (calls_soon x e) h = rw e (record { since = h.since; marked = h.marked })
  Write-Over s t (turns v calm e) h = rw e (record { since = h.since; marked = h.marked })

run_callback-reads : (s : State) → (run_callback s).reads ≡ s.reads
unfolding run_callback
run_callback-reads s = ground arith

run_closing-reads : (s : State) → (run_closing s).reads ≡ s.reads
unfolding run_closing
run_closing-reads s = ground arith

-- While no new lease gets the id of a lease that was released, a submission through that one raises
-- LeaseExpiredError in every later state of the manager.
pub Later-refuses :
    (c : Config) (k : ℕ) {s t : State}
    → Reach c s
    → Shut k s
    → ((m : ℕ) → s.reads ≤ m → c.uuid m ≢ k)
    → Later c s t
    → (submit_for_lease c k t).0 ≡ raised lease_expired
Later-refuses c k {s} {t} reach shut new later =
    let start : Over k s.reads s = record {
      since = omega arith;
      marked = Shut-Marked k s.leased (Reach-Distinct c reach) shut;
    } in
    let end =
      Later-keeps c (Over k s.reads) (Write-Over c k s.reads new)
        (λ u h. record {
          since = omega (arith, h.since, run_callback-reads u);
          marked = rw (run_callback-leased u) h.marked;
        })
        (λ u h. record {
          since = omega (arith, h.since, run_closing-reads u);
          marked = rw (run_closing-leased u) h.marked;
        })
        later start in
    Shut-refuses c k t (λ r h. Marked-Shut k t.leased r end.marked h)
