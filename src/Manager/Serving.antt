-- ===== src/Manager/Serving.antt =====
-- A caller of acquire (src/leasepool/manager.py) that waits is served when an executor is idle.
use leasepool.Base.{
  ℕ, ◌+◌, ◌≡◌, refl, ◌≢◌, ◌∙◌, ap, true, false, Option, none, some, List, [], ◌∷◌, ◌++◌, arith, inl,
  inr, List-cases, Option-cases, discard,
}
use mathlib.Core.List.{append-nil}
use leasepool.Base.Ints.{ℤ}
use leasepool.Base.Exec.{ok, Result-cases, ◌>>=◌, ◌>>◌}
use leasepool.Backends.{Executor}
use leasepool.Manager.Config.{Config}
use leasepool.Manager.State.{State, monotonic, wake_checker, shutdown_executor}
use leasepool.Manager.Table.{find, insert, expired_ids}
use leasepool.Manager.Pool.{ensure_minimum}
use leasepool.Manager.Leases.{revoke, revoke_all, revoke_expired_leases, unless_empty}
use leasepool.Manager.Acquire.{
  Request, ExecutorLease, leased, waits, Wake, wake_up, grant, try_acquire, attempt, acquire_loop,
}
use leasepool.Manager.Waking.{notify_lem}
use leasepool.Manager.Growth.{ensure-extends}
use leasepool.Manager.Acquiring.{Granted, attempt-Granted, record_of}
use leasepool.Manager.Ledger.Pool.{take-cases}

revoke-available : (k : ℕ) (s : State) → (revoke k s).1.available ≡ s.available
unfolding revoke shutdown_executor
revoke-available k s = elim (Option-cases (find k s.leased)) [
  | inl e ↦ ground (arith, e)
  | inr (r, e) ↦ ground (arith, e)
]

revoke_all-available : (ks : List ℕ) (s : State) → (revoke_all ks s).1.available ≡ s.available
unfolding revoke_all
revoke_all-available [] s = refl
revoke_all-available (k ∷ ks) s =
    let t = (revoke k s).1 in
    let same = revoke-available k s in
    let rest = revoke_all-available ks t in
    elim (Result-cases (revoke k s).0) [
      | inl (u, e) ↦ rw (e, ◌>>◌, ◌>>=◌) (rest ∙ same)
      | inr (x, e) ↦ rw (e, ◌>>◌, ◌>>=◌) same
    ]

unless_empty-available :
    (c : Config) (ks : List ℕ) (s : State)
    → (new : List Executor) × ((unless_empty ks (ensure_minimum c) s).1.available
        ≡ s.available ++ new)
unless_empty-available c [] s = ([], ground (arith, append-nil s.available))
unless_empty-available c (k ∷ ks) s =
    let (new, reads, seq, built, same) = ensure-extends c s in (new, ap (λ t. t.available) same)

-- The revocation of leases takes no idle executor away.
revoke_expired-available :
    (c : Config) (s : State)
    → (new : List Executor) × ((revoke_expired_leases c s).1.available ≡ s.available ++ new)
unfolding revoke_expired_leases monotonic
revoke_expired-available c s =
    let ids = expired_ids (c.clock s.reads) s.leased in
    let t : State = record s { reads = s.reads + 1 } in
    let u = (revoke_all ids t).1 in
    let same = revoke_all-available ids t in
    elim (Result-cases (revoke_all ids t).0) [
      | inl (v, e) ↦
          let (new, grown) = unless_empty-available c ids u in
          (new, rw (e, ◌>>◌, ◌>>=◌) (grown ∙ ap (λ xs. xs ++ new) same))
      | inr (x, e) ↦ ([], rw (e, ◌>>◌, ◌>>=◌) (ground (arith, same, append-nil s.available)))
    ]

grant-gives :
    (c : Config) (q : Request) (ticks : ℕ) (e : Executor) (s : State)
    → (l : ExecutorLease) × (t : State) × (grant c q ticks (some e) s ≡ (ok (some l), t))
unfolding monotonic wake_checker
grant-gives c q ticks e s =
    let t : State = record s {
      reads = s.reads + 2;
      leased = insert (record_of c q ticks s.reads e) s.leased;
    } in
    let woken = notify_lem t.scale_change_event t.loop t.loop_closed t in
    elim (Result-cases (grant c q ticks (some e) s).0) [
      | inl (some l, h) ↦
          (l, (grant c q ticks (some e) s).1, ap (λ r. (r, (grant c q ticks (some e) s).1)) h)
      | inl (none, h) ↦ absurd (ground (arith, h, woken))
      | inr (x, h) ↦ absurd (ground (arith, h, woken))
    ]

-- An attempt in an open manager with an idle executor, whose revocations do not raise, gives a lease.
attempt-gives :
    (c : Config) (q : Request) (ticks started_at : ℕ) (s : State)
    → s.started ≡ true
    → s.stopping ≡ false
    → s.available ≢ []
    → (revoke_expired_leases c s).0 ≡ ok tt
    → (l : ExecutorLease) × (t : State) × (attempt c q ticks started_at s ≡ (ok (leased l), t))
unfolding attempt try_acquire
attempt-gives c q ticks started_at s up going some_idle fine =
    let u = (revoke_expired_leases c s).1 in
    let (new, kept) = revoke_expired-available c s in
    elim (take-cases c u) [
      | inl (e, rest, idle, taken) ↦
          let (l, t, given) = grant-gives c q ticks e (record u { available = rest }) in
          (l, t, ground (arith, up, going, fine, taken, given))
      | inr (inl (e, empty, room, numbered, taken)) ↦ absurd (was_empty new (kept) empty)
      | inr (inr (inl (x, empty, room, taken))) ↦ absurd (was_empty new kept empty)
      | inr (inr (inr (empty, full, taken))) ↦ absurd (was_empty new kept empty)
    ]
  where
    was_empty :
        (new : List Executor)
        → (revoke_expired_leases c s).1.available ≡ s.available ++ new
        → ¬ ((revoke_expired_leases c s).1.available ≡ [])
    was_empty new kept empty = elim (List-cases s.available) [
      | inl e ↦ some_idle e
      | inr (x, xs, e) ↦ ground (arith, kept, empty, e)
    ]

loop-gives :
    (c : Config) (q : Request) (ticks started_at : ℕ) (wakes : List Wake) (s t : State)
    {l : ExecutorLease}
    → attempt c q ticks started_at s ≡ (ok (leased l), t)
    → acquire_loop c q ticks started_at wakes s ≡ (ok (some l), t)
unfolding acquire_loop
loop-gives c q ticks started_at [] s t h = ground (arith, h)
loop-gives c q ticks started_at (w ∷ ws) s t h = ground (arith, h)

loop-wakes :
    (c : Config) (q : Request) (ticks started_at event : ℕ) (w : Wake) (ws : List Wake)
    (s t u : State) {remaining : Option ℤ}
    → attempt c q ticks started_at s ≡ (ok (waits event remaining), t)
    → wake_up event w t ≡ (ok tt, u)
    → acquire_loop c q ticks started_at (w ∷ ws) s ≡ acquire_loop c q ticks started_at ws u
unfolding acquire_loop
loop-wakes c q ticks started_at event w ws s t u h woken = ground (arith, h, woken)

-- A caller that waits, and wakes up before its timeout in a manager that is open and has an idle
-- executor, gets a lease at once, unless a growth of the pool fails; the lease stands in the table as
-- the one that an attempt gives.
pub acquire_loop-served :
    (c : Config) (q : Request) (ticks started_at event : ℕ) (w : Wake) (ws : List Wake)
    (s t : State) {remaining : Option ℤ}
    → attempt c q ticks started_at s ≡ (ok (waits event remaining), t)
    → w.timed_out ≡ false
    → (w.between t).started ≡ true
    → (w.between t).stopping ≡ false
    → (w.between t).available ≢ []
    → (revoke_expired_leases c
        (record (w.between t) { set_events = discard event (w.between t).set_events })).0
      ≡ ok tt
    → (l : ExecutorLease) × (v : State) × (acquire_loop c q ticks started_at (w ∷ ws) s
        ≡ (ok (some l), v))
      × Granted c q ticks l v
acquire_loop-served c q ticks started_at event w ws s t h in_time up going some_idle fine =
    let u : State = record (w.between t) { set_events = discard event (w.between t).set_events } in
    let woken : wake_up event w t ≡ (ok tt, u) = ground (arith, in_time) in
    let (l, v, gives) = attempt-gives c q ticks started_at u up going some_idle fine in
    let (_, _, granted) = attempt-Granted c q ticks started_at u v gives in
    (
      l,
      v,
      loop-wakes c q ticks started_at event w ws s t u h woken
          ∙ loop-gives c q ticks started_at ws u v gives,
      granted,
    )
