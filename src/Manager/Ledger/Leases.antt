-- ===== src/Manager/Ledger/Leases.antt =====
-- Revocation, retirement and release keep the ledger (src/leasepool/manager.py).
use leasepool.Base.{ℕ, ◌+◌, ◌≡◌, some, List, [], ◌∷◌, arith, inl, inr, Option-cases}
use leasepool.Base.{List-cases}
use leasepool.Manager.Config.{Config}
use leasepool.Manager.State.{State, LeaseRecord, current_count, monotonic}
use leasepool.Manager.Table.{find, remove, expired_ids}
use leasepool.Manager.Leases.{revoke, revoke_all, revoke_expired_leases}
use leasepool.Manager.Ledger.Count.{Inv, one_if, count-append}
use leasepool.Manager.Ledger.Sizes.{ensure-Inv}
use leasepool.Manager.Ledger.Table.{count-remove}

revoke-Inv :
    (c : Config) (key : ℕ) {n k : ℕ} {s : State} → Inv c n 0 k s → Inv c n 0 k (revoke key s).1
unfolding revoke
revoke-Inv c key {n} {k} {s} v = elim (Option-cases (find key s.leased)) [
  | inl missing ↦ ground arith
  | inr (r, found) ↦
      ground (arith, count-remove n key s.leased found, count-append n s.shut (r.executor ∷ []))
]

revoke_all-Inv :
    (c : Config) (keys : List ℕ) {n k : ℕ} {s : State}
    → Inv c n 0 k s
    → Inv c n 0 k (revoke_all keys s).1
unfolding revoke_all
revoke_all-Inv c [] v = v
revoke_all-Inv c (key ∷ keys) {n} {k} {s} v =
    let w = revoke-Inv c key v in ground (arith, w, revoke_all-Inv c keys w)

pub revoke_expired-Inv :
    (c : Config) {n k : ℕ} {s : State} → Inv c n 0 k s → Inv c n 0 k (revoke_expired_leases c s).1
unfolding revoke_expired_leases monotonic
revoke_expired-Inv c {n} {k} {s} v =
    let t : State = record s { reads = s.reads + 1 } in
    let tv : Inv c n 0 k t = ground arith in
    let ids = expired_ids (c.clock s.reads) s.leased in
    let after = revoke_all-Inv c ids tv in
    elim (List-cases ids) [
      | inl nothing ↦ ground (arith, after)
      | inr (x, xs, some_ids) ↦ ground (arith, after, ensure-Inv c after)
    ]

-- The state without the record under `key`.
abbrev pub dropped : ℕ → State → State
dropped key s = record s { leased = remove key s.leased }

pub dropped-Inv :
    (c : Config) (key : ℕ) {n k : ℕ} {s : State} {r : LeaseRecord}
    → find key s.leased ≡ some r
    → Inv c n 0 k s
    → (Inv c n 0 (k + one_if n r.executor) (dropped key s))
      × (current_count (dropped key s) + 1 ≡ current_count s)
dropped-Inv c key {n} {k} {s} found v = ground (arith, count-remove n key s.leased found)
