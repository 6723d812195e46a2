-- ===== src/Manager/LeaseUse.antt =====
-- The use of a lease by its holder: ExecutorLease over the manager (src/leasepool/manager.py).
use leasepool.Base.{
  ℕ, true, none, some, List, [], ◌∷◌, ◌≡◌, refl, arith, ◌==◌, ==_iff, subst, inl, inr, Bool-cases,
  Option-cases, List-cases,
}
use leasepool.Base.Exec.{lease_expired, ok, raised, Result-cases}
use leasepool.Manager.Config.{Config}
use leasepool.Manager.State.{State, LeaseRecord, monotonic}
use leasepool.Manager.Table.{find, remove}
use leasepool.Manager.Leases.{release, submit_for_lease}
use leasepool.Manager.Acquire.{ExecutorLease}
use leasepool.Manager.Handle.{LeaseAction, lease_release, within_lease}
use leasepool.Manager.Steps.{Reach}
use leasepool.Manager.Releasing.{release_idle_lem, release_draining, requested}
use leasepool.Manager.Revoking.{Distinct}
use leasepool.Manager.Identity.{Reach-Distinct}
use leasepool.Manager.Ledger.Table.{find-update}

-- A lease is released once: after its release, even one that raised, releasing it again does nothing.
pub lease_release-again :
    (c : Config) (h : ExecutorLease × State)
    → let h' = (lease_release c h).1 in (h'.0.released ≡ true) × (lease_release c h' ≡ (ok tt, h'))
unfolding lease_release
lease_release-again c (l, s) = elim (Bool-cases l.released) [
  | inl e ↦ ground arith
  | inr e ↦ ground arith
]

find-remove : (k : ℕ) (rs : List LeaseRecord) → Distinct rs → find k (remove k rs) ≡ none
unfolding find remove
find-remove k [] d = refl
find-remove k (r ∷ rs) (new, d) = elim (Bool-cases (r.lease_id == k)) [
  | inl e ↦ rw e (subst (λ j. find j rs ≡ none) ((==_iff r.lease_id k).0 e) new)
  | inr e ↦ rw (e, e) (find-remove k rs d)
]

unknown : (c : Config) (k : ℕ) (s : State) → find k s.leased ≡ none → release c k s ≡ (ok tt, s)
unfolding release
unknown c k s h = rw h refl

refuses :
    (c : Config) (k : ℕ) (s : State)
    → find k s.leased ≡ none
    → (submit_for_lease c k s).0 ≡ raised lease_expired
unfolding submit_for_lease
refuses c k s h = rw h refl

refuses_released :
    (c : Config) (k : ℕ) (s : State) {r : LeaseRecord}
    → find k s.leased ≡ some r
    → r.release_requested ≡ true
    → (submit_for_lease c k s).0 ≡ raised lease_expired
unfolding submit_for_lease monotonic
refuses_released c k s h e = ground arith

-- No lease `k` is in the table but one that was released.
abbrev pub Shut : ℕ → State → Type 0
Shut k s = (r : LeaseRecord) → find k s.leased ≡ some r → r.release_requested ≡ true

pub Shut-refuses :
    (c : Config) (k : ℕ) (s : State) → Shut k s → (submit_for_lease c k s).0 ≡ raised lease_expired
Shut-refuses c k s shut = elim (Option-cases (find k s.leased)) [
  | inl e ↦ refuses c k s e
  | inr (r, e) ↦ refuses_released c k s e (shut r e)
]

-- A release shuts its lease.
pub release-Shut : (c : Config) (k : ℕ) {s : State} → Reach c s → Shut k (release c k s).1
release-Shut c k {s} reach = elim (Option-cases (find k s.leased)) [
  | inl e ↦ rw (unknown c k s e) (λ r h. absurd (ground (arith, h, e)))
  | inr (r, e) ↦ elim (List-cases r.pending_futures) [
    | inl idle ↦
        let (gone, fate) = release_idle_lem c k s e idle in
        let out = find-remove k s.leased (Reach-Distinct c reach) in
        λ q h. absurd (ground (arith, h, gone, out))
    | inr (f, fs, busy) ↦
        let same = release_draining c k s e (λ none_. absurd (ground (arith, none_, busy))) in
        let kept = find-update k requested (λ x. refl) s.leased e in
        rw same (λ q h. ground (arith, h, kept))
  ]
]

-- Once a lease was released, with work pending or not, and whether the release returned or raised, no
-- work can be submitted through it: a submission raises LeaseExpiredError.
pub release-refuses :
    (c : Config) (k : ℕ) {s : State}
    → Reach c s
    → (submit_for_lease c k (release c k s).1).0 ≡ raised lease_expired
release-refuses c k {s} reach = Shut-refuses c k (release c k s).1 (release-Shut c k reach)

-- An `async with` block releases its lease, whether its body returns or raises.
pub within_lease-released :
    {A : Type 0} (c : Config) (body : LeaseAction A) (h : ExecutorLease × State)
    → (within_lease c body h).1.0.released ≡ true
unfolding within_lease
within_lease-released c body h =
    let h' = (body h).1 in
    let once = (lease_release-again c h').0 in
    elim (Result-cases (lease_release c h').0) [
      | inl (u, e) ↦ ground (arith, once)
      | inr (x, e) ↦ ground (arith, once)
    ]
