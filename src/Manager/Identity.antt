-- ===== src/Manager/Identity.antt =====
-- The table of leases of LeasedExecutorManager (src/leasepool/manager.py) has no id twice.
use leasepool.Base.{
  ℕ, false, none, List, [], ◌∷◌, ◌≡◌, refl, arith, inl, inr, ◌==◌, ==_iff, subst, Bool-cases,
  List-cases,
}
use leasepool.Manager.Config.{Config}
use leasepool.Manager.State.{State, LeaseRecord, set_event, shut_down}
use leasepool.Manager.Table.{find, insert, remove, update}
use leasepool.Manager.Steps.{Reach, run_callback, run_closing}
use leasepool.Manager.Revoking.{Distinct, alive, revoke_expired_leases_lem}
use leasepool.Manager.Leases.{revoke_expired_leases}
use leasepool.Manager.Writes.{
  Mild, Write, aside, inserts, removes, updates, empties, shuts, closes, calls_soon, turns,
}
use leasepool.Manager.Writes.Steps.{Reach-keeps}

find-insert-other :
    (k : ℕ) (r : LeaseRecord) (rs : List LeaseRecord)
    → (r.lease_id == k) ≡ false
    → find k rs ≡ none
    → find k (insert r rs) ≡ none
unfolding find insert
find-insert-other k r [] other h = ground arith
find-insert-other k r (x ∷ rs) other h = ground (arith, find-insert-other k r rs other)

Distinct-insert : (r : LeaseRecord) (rs : List LeaseRecord) → Distinct rs → Distinct (insert r rs)
unfolding insert find
Distinct-insert r [] d = (refl, tt)
Distinct-insert r (x ∷ rs) (new, d) = elim (Bool-cases (x.lease_id == r.lease_id)) [
  | inl e ↦ rw e (subst (λ k. find k rs ≡ none) ((==_iff x.lease_id r.lease_id).0 e) new, d)
  | inr e ↦ rw e (find-insert-other x.lease_id r rs (ground arith) new, Distinct-insert r rs d)
]

find-remove-none :
    (k j : ℕ) (rs : List LeaseRecord) → find k rs ≡ none → find k (remove j rs) ≡ none
unfolding find remove
find-remove-none k j [] h = refl
find-remove-none k j (x ∷ rs) h = ground (arith, find-remove-none k j rs)

Distinct-remove : (k : ℕ) (rs : List LeaseRecord) → Distinct rs → Distinct (remove k rs)
unfolding remove
Distinct-remove k [] d = d
Distinct-remove k (x ∷ rs) (new, d) = elim (Bool-cases (x.lease_id == k)) [
  | inl e ↦ rw e d
  | inr e ↦ rw e (find-remove-none x.lease_id k rs new, Distinct-remove k rs d)
]

find-update-none :
    (k j : ℕ) (f : LeaseRecord → LeaseRecord) (rs : List LeaseRecord)
    → Mild f
    → find k rs ≡ none
    → find k (update j f rs) ≡ none
unfolding find update
find-update-none k j f [] m h = refl
find-update-none k j f (x ∷ rs) m h = ground (arith, m.lease_id x, find-update-none k j f rs m)

Distinct-update :
    (k : ℕ) (f : LeaseRecord → LeaseRecord) (rs : List LeaseRecord)
    → Mild f
    → Distinct rs
    → Distinct (update k f rs)
unfolding update
Distinct-update k f [] m d = d
Distinct-update k f (x ∷ rs) m (new, d) = elim (Bool-cases (x.lease_id == k)) [
  | inl e ↦ rw (e, m.lease_id x) (new, d)
  | inr e ↦ rw e (find-update-none x.lease_id k f rs m new, Distinct-update k f rs m d)
]

abbrev Named : State → Type 0
Named s = Distinct s.leased

Write-Named : {uuid : ℕ → ℕ} → (s t : State) → Write uuid false s t → Named s → Named t
Write-Named s t (aside _ e _ _ _ _ _ _) d = rw e d
Write-Named s t (inserts r named e) d = rw e (Distinct-insert r s.leased d)
Write-Named s t (removes k e) d = rw e (Distinct-remove k s.leased d)
Write-Named s t (updates k f m e) d = rw e (Distinct-update k f s.leased m d)
Write-Named s t (empties e) d = rw e tt
Write-Named s t (shuts x e) d = rw e d
Write-Named s t (closes x e) d = rw e d
Write-Named s t (calls_soon x e) d = rw e d
Write-Named s t (turns v calm e) d = rw e d

pub run_callback-leased : (s : State) → (run_callback s).leased ≡ s.leased
unfolding run_callback
run_callback-leased s = elim (List-cases s.ready) [
  | inl e ↦ rw e refl
  | inr (set_event k, cs, e) ↦ rw e refl
  | inr (shut_down x, cs, e) ↦ rw e refl
]

pub run_closing-leased : (s : State) → (run_closing s).leased ≡ s.leased
unfolding run_closing
run_closing-leased s = elim (List-cases s.closing) [
  | inl e ↦ rw e refl
  | inr (x, xs, e) ↦ rw e refl
]

-- In every state that a manager comes to, no lease id stands twice in the table.
pub Reach-Distinct : (c : Config) {s : State} → Reach c s → Distinct s.leased
Reach-Distinct c r =
    Reach-keeps c Named Write-Named (λ s d. rw (run_callback-leased s) d)
      (λ s d. rw (run_closing-leased s) d) r tt

-- Revocation in a manager in use leaves exactly the leases whose hard deadline is after the time that
-- the clock reads next, in their order, also when the growth of the pool that follows it fails.
pub revoke_expired_leases-reached :
    (c : Config) {s : State}
    → Reach c s
    → (revoke_expired_leases c s).1.leased ≡ alive (c.clock s.reads) s.leased
revoke_expired_leases-reached c {s} r = revoke_expired_leases_lem c s (Reach-Distinct c r)
