-- ===== src/Manager/Revoking.antt =====
-- Which leases LeasedExecutorManager._revoke_expired_leases_locked (src/leasepool/manager.py) ends.
use leasepool.Base.{
  List-cases, ℕ, ◌+◌, true, false, none, some, List, [], ◌∷◌, ◌++◌, ◌≡◌, refl, arith, inl, inr,
  ◌==◌, leb, member, Bool-cases, if◌then◌else◌, ◌∙◌, ap,
}
use leasepool.Base.Exec.{ok}
use leasepool.Manager.Config.{Config}
use leasepool.Manager.State.{State, LeaseRecord, hard_expires_at, monotonic, shutdown_executor}
use leasepool.Manager.Table.{find, remove, expired_ids}
use leasepool.Manager.Pool.{ensure_minimum}
use leasepool.Manager.Leases.{revoke, revoke_all, revoke_expired_leases, unless_empty}
use leasepool.Manager.Growth.{ensure-extends}

-- No lease id stands twice, as in every dictionary.
abbrev pub Distinct : List LeaseRecord → Type 0
Distinct [] = Unit
Distinct (r ∷ rs) = (find r.lease_id rs ≡ none) × Distinct rs

-- The records whose hard deadline is still to come.
abbrev pub alive : ℕ → List LeaseRecord → List LeaseRecord
alive now [] = []
alive now (r ∷ rs) = if leb (hard_expires_at r) now then alive now rs else r ∷ alive now rs

abbrev remove_all : List ℕ → List LeaseRecord → List LeaseRecord
remove_all [] rs = rs
remove_all (k ∷ ks) rs = remove_all ks (remove k rs)

-- Each id is there when its turn comes.
abbrev Found : List ℕ → List LeaseRecord → Type 0
Found [] rs = Unit
Found (k ∷ ks) rs = ((r : LeaseRecord) × (find k rs ≡ some r)) × Found ks (remove k rs)

revoke-found :
    (k : ℕ) (r : LeaseRecord) (s : State)
    → find k s.leased ≡ some r
    → revoke k s
      ≡ (ok tt, record s { leased = remove k s.leased; shut = s.shut ++ r.executor ∷ [] })
unfolding revoke shutdown_executor
revoke-found k r s e = ground arith

revoke_all-Found :
    (ks : List ℕ) (s : State)
    → Found ks s.leased
    → ((revoke_all ks s).0 ≡ ok tt) × ((revoke_all ks s).1.leased ≡ remove_all ks s.leased)
unfolding revoke_all
revoke_all-Found [] s h = (refl, refl)
revoke_all-Found (k ∷ ks) s ((r, e), h) =
    let t : State = record s { leased = remove k s.leased; shut = s.shut ++ r.executor ∷ [] } in
    let (fine, rest) = revoke_all-Found ks t h in
    (ground (arith, revoke-found k r s e, fine), ground (arith, revoke-found k r s e, rest))

-- A record that no id names stays.
skip :
    (r : LeaseRecord) (ks : List ℕ) (rs : List LeaseRecord)
    → member r.lease_id ks ≡ false
    → Found ks rs
    → Found ks (r ∷ rs) × (remove_all ks (r ∷ rs) ≡ r ∷ remove_all ks rs)
unfolding find remove
skip r [] rs h f = (tt, refl)
skip r (k ∷ ks) rs h ((x, e), f) =
    let other : (r.lease_id == k) ≡ false = ground arith in
    let (more, same) = skip r ks (remove k rs) (ground arith) f in rw other (((x, e), more), same)

expired_ids-other :
    (now k : ℕ) (rs : List LeaseRecord) → find k rs ≡ none → member k (expired_ids now rs) ≡ false
unfolding find expired_ids
expired_ids-other now k [] h = refl
expired_ids-other now k (r ∷ rs) h = ground (arith, expired_ids-other now k rs)

expired_ids-Found :
    (now : ℕ) (rs : List LeaseRecord)
    → Distinct rs
    → Found (expired_ids now rs) rs × (remove_all (expired_ids now rs) rs ≡ alive now rs)
unfolding find remove expired_ids
expired_ids-Found now [] d = (tt, refl)
expired_ids-Found now (r ∷ rs) (new, d) =
    let (found, rest) = expired_ids-Found now rs d in
    elim (Bool-cases (leb (hard_expires_at r) now)) [
      | inl e ↦
          let same : (r.lease_id == r.lease_id) ≡ true = ground arith in
          let gone : remove r.lease_id (r ∷ rs) ≡ rs = rw same refl in
          rw e
            (((r, rw same refl), rw same found), ap (remove_all (expired_ids now rs)) gone ∙ rest)
      | inr e ↦
          let (more, same) =
            skip r (expired_ids now rs) rs (expired_ids-other now r.lease_id rs new) found in
          rw e (more, same ∙ ap (λ q. r ∷ q) rest)
    ]

unless_empty-leased :
    (c : Config) (ks : List ℕ) (s : State)
    → (unless_empty ks (ensure_minimum c) s).1.leased ≡ s.leased
unless_empty-leased c [] s = refl
unless_empty-leased c (k ∷ ks) s =
    let (new, reads, seq, built, e) = ensure-extends c s in ground (arith, e)

-- Where no lease id stands twice, revocation leaves exactly the leases whose hard deadline is after
-- the time that the clock reads next, in their order, also when the growth of the pool that follows
-- it fails.
pub revoke_expired_leases_lem :
    (c : Config) (s : State)
    → Distinct s.leased
    → (revoke_expired_leases c s).1.leased ≡ alive (c.clock s.reads) s.leased
unfolding revoke_expired_leases monotonic
revoke_expired_leases_lem c s d =
    let t : State = record s { reads = s.reads + 1 } in
    let ids = expired_ids (c.clock s.reads) s.leased in
    let (found, left) = expired_ids-Found (c.clock s.reads) s.leased d in
    let (fine, rest) = revoke_all-Found ids t found in
    let grows = unless_empty-leased c ids (revoke_all ids t).1 in
    ground (arith, fine, rest, grows, left)

-- Where no lease id stands twice, revocation returns, unless the growth of the pool raises.
pub revoke_expired_leases-returns :
    (c : Config) (s : State)
    → Distinct s.leased
    → ((t : State) → (ensure_minimum c t).0 ≡ ok tt)
    → (revoke_expired_leases c s).0 ≡ ok tt
unfolding revoke_expired_leases monotonic
revoke_expired_leases-returns c s d grows =
    let t : State = record s { reads = s.reads + 1 } in
    let ids = expired_ids (c.clock s.reads) s.leased in
    let (found, left) = expired_ids-Found (c.clock s.reads) s.leased d in
    let (fine, rest) = revoke_all-Found ids t found in
    elim (List-cases ids) [
      | inl none_ ↦ ground (arith, fine, none_)
      | inr (k, ks, some_) ↦ ground (arith, fine, some_, grows (revoke_all ids t).1)
    ]
