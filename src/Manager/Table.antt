-- ===== src/Manager/Table.antt =====
-- The dictionary `_leased` of LeasedExecutorManager (src/leasepool/manager.py): records by lease
-- id, in insertion order.
use leasepool.Base.{ℕ, Option, none, some, List, [], ◌∷◌, ◌==◌, leb, if◌then◌else◌}
use leasepool.Manager.State.{LeaseRecord, hard_expires_at}

-- `_leased.get(lease_id)`
unfoldable pub find : ℕ → List LeaseRecord → Option LeaseRecord
find k [] = none
find k (r ∷ rs) = if r.lease_id == k then some r else find k rs

-- `_leased[r.lease_id] = r`
unfoldable pub insert : LeaseRecord → List LeaseRecord → List LeaseRecord
insert r [] = r ∷ []
insert r (x ∷ rs) = if x.lease_id == r.lease_id then r ∷ rs else x ∷ insert r rs

-- `_leased.pop(lease_id, None)`
unfoldable pub remove : ℕ → List LeaseRecord → List LeaseRecord
remove k [] = []
remove k (r ∷ rs) = if r.lease_id == k then rs else r ∷ remove k rs

-- A write to the attributes of the record under `lease_id`.
unfoldable pub update : ℕ → (LeaseRecord → LeaseRecord) → List LeaseRecord → List LeaseRecord
update k f [] = []
update k f (r ∷ rs) = if r.lease_id == k then f r ∷ rs else r ∷ update k f rs

-- The ids of the records whose hard deadline has come.
unfoldable pub expired_ids : ℕ → List LeaseRecord → List ℕ
expired_ids now [] = []
expired_ids now (r ∷ rs) =
    let rest = expired_ids now rs in if leb (hard_expires_at r) now then r.lease_id ∷ rest else rest
