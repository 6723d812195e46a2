-- ===== src/Manager/Ledger/Table.antt =====
-- The table of leases (`_leased` of src/leasepool/manager.py) under the count of executors.
use leasepool.Base.{ℕ, ◌+◌, ◌≡◌, refl, ◌≤◌, some, List, [], ◌∷◌, arith, length}
use leasepool.Manager.State.{LeaseRecord}
use leasepool.Manager.Table.{find, insert, remove, update}
use leasepool.Manager.Ledger.Count.{count_leased, one_if}

pub count-remove :
    (n key : ℕ) (rs : List LeaseRecord) {r : LeaseRecord}
    → find key rs ≡ some r
    → (count_leased n (remove key rs) + one_if n r.executor ≡ count_leased n rs)
      × (length (remove key rs) + 1 ≡ length rs)
unfolding find remove
count-remove n key [] h = cc
count-remove n key (x ∷ rs) {r} h = ground (arith, count-remove n key rs {r = r})

pub count-insert :
    (n : ℕ) (r : LeaseRecord) (rs : List LeaseRecord)
    → (count_leased n (insert r rs) ≤ one_if n r.executor + count_leased n rs)
      × (length (insert r rs) ≤ length rs + 1)
unfolding insert
count-insert n r [] = ground arith
count-insert n r (x ∷ rs) = ground (arith, count-insert n r rs)

-- A write that leaves the executor alone moves nothing.
pub count-update :
    (n key : ℕ) (f : LeaseRecord → LeaseRecord)
    → ((r : LeaseRecord) → (f r).executor ≡ r.executor)
    → (rs : List LeaseRecord)
    → (count_leased n (update key f rs) ≡ count_leased n rs)
      × (length (update key f rs) ≡ length rs)
unfolding update
count-update n key f same [] = (refl, refl)
count-update n key f same (x ∷ rs) = ground (arith, same x, count-update n key f same rs)

pub find-update :
    (key : ℕ) (f : LeaseRecord → LeaseRecord)
    → ((r : LeaseRecord) → (f r).lease_id ≡ r.lease_id)
    → (rs : List LeaseRecord) {r : LeaseRecord} → find key rs ≡ some r
    → find key (update key f rs) ≡ some (f r)
unfolding find update
find-update key f same [] h = cc
find-update key f same (x ∷ rs) {r} h = ground (arith, same x, find-update key f same rs {r = r})

pub remove-update :
    (key : ℕ) (f : LeaseRecord → LeaseRecord)
    → ((r : LeaseRecord) → (f r).lease_id ≡ r.lease_id)
    → (rs : List LeaseRecord) → remove key (update key f rs) ≡ remove key rs
unfolding remove update
remove-update key f same [] = refl
remove-update key f same (x ∷ rs) = ground (arith, same x, remove-update key f same rs)
