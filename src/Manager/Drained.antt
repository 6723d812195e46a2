-- ===== src/Manager/Drained.antt =====
-- A lease that is released while work is pending, up to the end of its last future
-- (src/leasepool/manager.py).
use leasepool.Base.{
  ℕ, ◌==◌, ◌≡◌, ◌≢◌, refl, sym, none, some, List, [], ◌∷◌, discard, ap, subst, ◌∙◌, arith, inl, inr,
  List-cases, Bool-cases,
}
use leasepool.Base.Exec.{Result, ok, raised, pure, ◌>>◌}
use leasepool.Manager.Config.{Config}
use leasepool.Manager.State.{State, Action, LeaseRecord}
use leasepool.Manager.Table.{find, remove, update}
use leasepool.Manager.Leases.{
  release, on_lease_future_done, FutureOutcome, broken_exception_from_future,
}
use leasepool.Manager.Releasing.{requested, release_draining}
use leasepool.Manager.Ledger.Table.{find-update, remove-update}
use leasepool.Manager.Ledger.Leases.{dropped}
use leasepool.Manager.Draining.{drops, DrainedFate, on_lease_future_done-drained}

-- Futures that end one after the other, with their outcomes.
abbrev pub Ends : Type 0
Ends = List (ℕ × FutureOutcome)

unfoldable pub futures_done : Config → ℕ → Ends → Action (Unit {0})
futures_done c key [] = pure tt
futures_done c key ((f, outcome) ∷ ends) = do
  on_lease_future_done c key f outcome
  futures_done c key ends

-- The futures that are pending after `ends`.
unfoldable pub left : Ends → List ℕ → List ℕ
left [] fs = fs
left ((f, outcome) ∷ ends) fs = left ends (discard f fs)

abbrev pub leaves : Ends → LeaseRecord → LeaseRecord
leaves ends r = record r { pending_futures = left ends r.pending_futures }

-- None of the futures was ended by a broken executor.
abbrev pub Unbroken : Ends → Type 0
Unbroken [] = Unit {0}
Unbroken ((f, outcome) ∷ ends) = (broken_exception_from_future outcome ≡ none) × Unbroken ends

left-[] : (ends : Ends) → left ends [] ≡ []
unfolding left
left-[] [] = refl
left-[] ((f, outcome) ∷ ends) = left-[] ends

-- The end of a future that is not the last one only takes it off the lease.
not_last :
    (c : Config) (key f : ℕ) (outcome : FutureOutcome) (s : State) {r : LeaseRecord}
    → find key s.leased ≡ some r
    → discard f r.pending_futures ≢ []
    → broken_exception_from_future outcome ≡ none
    → on_lease_future_done c key f outcome s
      ≡ (ok tt, record s { leased = update key (drops f) s.leased })
unfolding on_lease_future_done
not_last c key f outcome s {r} found more fine = elim (List-cases (discard f r.pending_futures)) [
  | inl e ↦ absurd (more e)
  | inr (x, xs, e) ↦ ground (arith, found, fine, e)
]

update-twice :
    (key : ℕ) (f g : LeaseRecord → LeaseRecord)
    → ((r : LeaseRecord) → (f r).lease_id ≡ r.lease_id)
    → (rs : List LeaseRecord) → update key g (update key f rs) ≡ update key (λ x. g (f x)) rs
unfolding update
update-twice key f g same [] = refl
update-twice key f g same (x ∷ rs) = ground (arith, same x, update-twice key f g same rs)

update-nothing : (key : ℕ) (rs : List LeaseRecord) → update key (leaves []) rs ≡ rs
unfolding update left
update-nothing key [] = refl
update-nothing key (x ∷ rs) = elim (Bool-cases (x.lease_id == key)) [
  | inl e ↦ rw e refl
  | inr e ↦ rw e (ap (λ q. x ∷ q) (update-nothing key rs))
]

then-ok : (m k : Action (Unit {0})) {s t : State} → m s ≡ (ok tt, t) → (m >> k) s ≡ k t
then-ok m k h =
    ap
      (λ (p : Result (Unit {0}) × State). elim p.0 as (λ _. Result (Unit {0}) × State) [
        | ok _ ↦ k p.1
        | raised e ↦ (raised e, p.1)
      ])
      h

-- While a future is left, the lease stays, with the futures that are left.
futures_done-left :
    (c : Config) (key : ℕ) (ends : Ends) (s : State) {r : LeaseRecord}
    → find key s.leased ≡ some r
    → Unbroken ends
    → left ends r.pending_futures ≢ []
    → futures_done c key ends s ≡ (ok tt, record s { leased = update key (leaves ends) s.leased })
unfolding futures_done
futures_done-left c key [] s found fine more =
    ap (λ q. (ok tt, record s { leased = q })) (sym (update-nothing key s.leased))
futures_done-left c key ((f, outcome) ∷ ends) s {r} found fine more =
    let t : State = record s { leased = update key (drops f) s.leased } in
    let first =
      not_last c key f outcome s found (λ e. more (unfold left in ap (left ends) e ∙ left-[] ends))
        fine.0 in
    let rest =
      futures_done-left c key ends t (find-update key (drops f) (λ x. refl) s.leased found) fine.1
        (unfold left in more) in
    let fused : update key (leaves ends) (update key (drops f) s.leased)
        ≡ update key (leaves ((f, outcome) ∷ ends)) s.leased =
      unfold left in update-twice key (drops f) (leaves ends) (λ x. refl) s.leased in
    then-ok (on_lease_future_done c key f outcome) (futures_done c key ends) first
    ∙ rest
    ∙ ap (λ q. (ok tt, record s { leased = q })) fused

-- A release while work is pending keeps the lease and its executor until the last future ends. While
-- its futures end one after the other, none by a broken executor, and one of them is left, nothing
-- changes but that the lease is marked and waits for those that are left. The end that leaves none
-- takes the lease out of the table, and the executor has the fate of a release with no work
-- pending, under the conditions of that time.
pub on_lease_future_done-release :
    (c : Config) (key f : ℕ) (outcome : FutureOutcome) (ends : Ends) (s : State) {r : LeaseRecord}
    → find key s.leased ≡ some r
    → left ends r.pending_futures ≢ []
    → discard f (left ends r.pending_futures) ≡ []
    → Unbroken ends
    → broken_exception_from_future outcome ≡ none
    → let (res, waiting) = (release c key >> futures_done c key ends) s in
      let out = on_lease_future_done c key f outcome waiting in
      (res ≡ ok tt)
      × (waiting ≡ record s { leased = update key (λ x. leaves ends (requested x)) s.leased })
      × (find key waiting.leased ≡ some (leaves ends (requested r)))
      × (out.1.leased ≡ remove key s.leased)
      × DrainedFate c (drops f (leaves ends (requested r))) s (dropped key s) out
on_lease_future_done-release c key f outcome ends s {r} found more last each fine =
    let both : LeaseRecord → LeaseRecord = λ x. leaves ends (requested x) in
    let marked : State = record s { leased = update key requested s.leased } in
    let w : State = record s { leased = update key both s.leased } in
    let busy : r.pending_futures ≢ [] = λ e. more (ap (left ends) e ∙ left-[] ends) in
    let begin =
      then-ok (release c key) (futures_done c key ends) (release_draining c key s found busy) in
    let run : (release c key >> futures_done c key ends) s ≡ (ok tt, w) =
      begin
      ∙ futures_done-left c key ends marked (find-update key requested (λ x. refl) s.leased found)
          each more
      ∙ ap (λ q. (ok tt, record s { leased = q }))
          (update-twice key requested (leaves ends) (λ x. refl) s.leased) in
    let kept_ = find-update key both (λ x. refl) s.leased found in
    let (gone, fate) = on_lease_future_done-drained c key f outcome w kept_ refl last fine in
    let same = remove-update key both (λ x. refl) s.leased in
    let fate_here =
      subst
        (λ rs.
          DrainedFate c (drops f (both r)) s (record s { leased = rs })
            (on_lease_future_done c key f outcome w))
        same fate in
    subst
      (λ (p : Result (Unit {0}) × State).
        let out = on_lease_future_done c key f outcome p.1 in
        (p.0 ≡ ok tt)
        × (p.1 ≡ w)
        × (find key p.1.leased ≡ some (both r))
        × (out.1.leased ≡ remove key s.leased)
        × DrainedFate c (drops f (both r)) s (dropped key s) out)
      (sym run) (refl, refl, kept_, gone ∙ same, fate_here)
