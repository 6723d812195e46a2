-- ===== src/Manager/Acquiring.antt =====
-- What an attempt of acquire (src/leasepool/manager.py) gives, and when a caller waits instead.
use leasepool.Base.{
  ℕ, ◌+◌, ◌-◌, ◌≡◌, refl, ◌<◌, true, false, not, ◌||◌, Option, none, some, List, [], ◌∷◌, ◌++◌,
  arith, inl, inr, Bool-cases, Option-cases, ==_iff,
}
use leasepool.Base.Exec.{ok, bind-ok, ◌>>=◌, ◌>>◌}
use leasepool.Backends.{Executor}
use leasepool.Manager.Config.{Config, accepted, FutureOutcome}
use leasepool.Manager.State.{State, Action, LeaseRecord, monotonic, wake_checker}
use leasepool.Manager.Table.{find, insert}
use leasepool.Manager.Pool.{take_or_create_available}
use leasepool.Manager.Leases.{add_done_callback, revoke_expired_leases, submit_for_lease}
use leasepool.Manager.Acquire.{
  Request, ExecutorLease, leased, waits, grant, try_acquire, prepare_wait, after_try, attempt,
}
use leasepool.Manager.Handle.{lease_hard_expires_at}
use leasepool.Manager.Waking.{notify_lem, note}
use leasepool.Manager.Submitting.{submitting, submit_for_lease_iff}

pub find-insert : (r : LeaseRecord) (rs : List LeaseRecord) → find r.lease_id (insert r rs) ≡ some r
unfolding find insert
find-insert r [] = let same = (==_iff r.lease_id r.lease_id).1 refl in ground arith
find-insert r (x ∷ rs) =
    let same = (==_iff r.lease_id r.lease_id).1 refl in ground (arith, find-insert r rs)

abbrev pub from_take : Config → Request → ℕ → Action (Option ExecutorLease)
from_take c q ticks = take_or_create_available c >>= grant c q ticks

abbrev pub from_revoke : Config → Request → ℕ → Action (Option ExecutorLease)
from_revoke c q ticks = revoke_expired_leases c >> from_take c q ticks

-- A section under the lock that returns: the manager is open, `swept` is the
-- state after the revocations, and `e` what there is to lend.
pub record Tried (c : Config) (q : Request) (ticks : ℕ) (o : Option ExecutorLease) (s t : State)
    : Type 0 where
  pub open_ : (s.started ≡ true) × (s.stopping ≡ false)
  pub swept : State
  pub holding : State
  pub e : Option Executor
  pub takes : take_or_create_available c swept ≡ (ok e, holding)
  pub grants : grant c q ticks e holding ≡ (ok o, t)

pub try_acquire-Tried :
    (c : Config) (q : Request) (ticks : ℕ) (s t : State) {o : Option ExecutorLease}
    → try_acquire c q ticks s ≡ (ok o, t)
    → Tried c q ticks o s t
unfolding try_acquire
try_acquire-Tried c q ticks s t {o} h = elim (Bool-cases (not s.started || s.stopping)) [
  | inl shut ↦ ground (arith, h, shut)
  | inr going ↦
      let begun : from_revoke c q ticks s ≡ (ok o, t) = ground (arith, h, going) in
      let (_, u, _, h1) =
        bind-ok (revoke_expired_leases c) (λ _. from_take c q ticks) {s = s} begun in
      let (e, v, takes, grants) =
        bind-ok (take_or_create_available c) (grant c q ticks) {s = u} h1 in
      record {
        open_ = ground (arith, going);
        swept = u;
        holding = v;
        e = e;
        takes = takes;
        grants = grants;
      }
]

-- The record that a lease stands for.
abbrev pub record_of : Config → Request → ℕ → ℕ → Executor → LeaseRecord
record_of c q ticks k e = record {
  lease_id = c.uuid k;
  ref = k;
  executor = e;
  owner = q.owner;
  leased_at = c.clock (k + 1);
  lease_seconds = ticks;
  grace_seconds = c.lease_grace_seconds;
  pending_futures = [];
  release_requested = false;
  broken = false;
}

-- A lease and the record that the manager has under its id.
pub record Granted (c : Config) (q : Request) (ticks : ℕ) (l : ExecutorLease) (t : State)
    : Type 0 where
  pub entry : LeaseRecord
  pub found : find l.lease_id t.leased ≡ some entry
  pub owners : (l.owner ≡ q.owner) × (entry.owner ≡ q.owner)
  pub times :
      (l.leased_at ≡ entry.leased_at) × (l.lease_seconds ≡ ticks) × (entry.lease_seconds ≡ ticks)
  pub graces :
      (l.grace_seconds ≡ entry.grace_seconds) × (entry.grace_seconds ≡ c.lease_grace_seconds)
  pub fresh :
      (l.released ≡ false)
      × (entry.release_requested ≡ false)
      × (entry.broken ≡ false)
      × (entry.pending_futures ≡ [])
  pub now : l.leased_at ≡ c.clock (t.reads - 1)

grant-Granted :
    (c : Config) (q : Request) (ticks : ℕ) (e : Executor) (s t : State) {l : ExecutorLease}
    → grant c q ticks (some e) s ≡ (ok (some l), t)
    → Granted c q ticks l t
unfolding monotonic wake_checker
grant-Granted c q ticks e s t {l} h =
    let k = s.reads in
    let r = record_of c q ticks k e in
    let u : State = record s { reads = k + 2; leased = insert r s.leased } in
    let woken = notify_lem u.scale_change_event u.loop u.loop_closed u in
    let same : t ≡ record u { ready = u.ready ++ note u.scale_change_event u.loop u.loop_closed } =
      ground (arith, h, woken) in
    let lease : l ≡ record {
      lease_id = c.uuid k;
      owner = q.owner;
      lease_seconds = ticks;
      grace_seconds = c.lease_grace_seconds;
      leased_at = c.clock (k + 1);
      released = false;
    } =
      ground (arith, h, woken) in
    let last : t.reads - 1 ≡ k + 1 = ground (arith, same) in
    record {
      entry = r;
      found = ground (arith, find-insert r s.leased, same, lease);
      owners = ground (arith, lease);
      times = ground (arith, lease);
      graces = ground (arith, lease);
      fresh = ground (arith, lease);
      now = ground (arith, lease, last);
    }

granted :
    (c : Config) (q : Request) (ticks : ℕ) (e : Option Executor) (s t : State) {l : ExecutorLease}
    → grant c q ticks e s ≡ (ok (some l), t)
    → Granted c q ticks l t
granted c q ticks none s t h = ground (arith, h)
granted c q ticks (some e) s t h = grant-Granted c q ticks e s t h

-- A wait that is asked for needs the caller's leave.
no_lease :
    (c : Config) (q : Request) (started_at : ℕ) (s t : State) {l : ExecutorLease}
    → ¬ (after_try c q started_at none s ≡ (ok (leased l), t))
no_lease c q started_at s t h =
    let ((event, remaining), u, _, h1) =
      bind-ok (prepare_wait c q started_at) (λ (e, r). (λ v. (ok (waits e r), v))) {s = s} h in
    ground (arith, h1)

-- An attempt that gives a lease: the manager was open; the lease is in its table, under its id, with
-- the caller's name, duration and grace, without work, and unreleased; and it runs from the time
-- that the clock read last.
pub attempt-Granted :
    (c : Config) (q : Request) (ticks started_at : ℕ) (s t : State) {l : ExecutorLease}
    → attempt c q ticks started_at s ≡ (ok (leased l), t)
    → (s.started ≡ true) × (s.stopping ≡ false) × Granted c q ticks l t
unfolding attempt
attempt-Granted c q ticks started_at s t {l} h =
    let (o, u, tried, h1) = bind-ok (try_acquire c q ticks) (after_try c q started_at) {s = s} h in
    elim (Option-cases o) [
      | inl e ↦ absurd (no_lease c q started_at u t (rw e at h1))
      | inr (l', e) ↦
          let h2 : after_try c q started_at (some l') u ≡ (ok (leased l), t) = rw e at h1 in
          let same : l' ≡ l = ground (arith, h2) in
          let end : u ≡ t = ground (arith, h2) in
          let m = try_acquire-Tried c q ticks s u tried in
          let g : grant c q ticks m.e m.holding ≡ (ok (some l), t) =
            ground (arith, m.grants, e, same, end) in
          (m.open_.0, m.open_.1, granted c q ticks m.e m.holding t g)
    ]

-- A lease that an attempt gave takes work at once, before its hard deadline, if its executor does.
pub submit_for_lease-attempt :
    (c : Config) (q : Request) (ticks started_at f : ℕ) (d : Option FutureOutcome) (s t : State)
    {l : ExecutorLease}
    → attempt c q ticks started_at s ≡ (ok (leased l), t)
    → c.clock t.reads < lease_hard_expires_at l
    → c.submit (t.reads + 1) ≡ accepted f d
    → (u : State) × (submit_for_lease c l.lease_id t ≡ (ok f, u))
submit_for_lease-attempt c q ticks started_at f d s t {l} h before takes =
    let (_, _, g) = attempt-Granted c q ticks started_at s t h in
    let u : State = (add_done_callback c l.lease_id f d (submitting l.lease_id f t)).1 in
    (
      u,
      (submit_for_lease_iff c l.lease_id f t u).1 (
        g.entry,
        record {
          active = g.found;
          not_released = g.fresh.1;
          in_time = omega (arith, before, g.times.0, g.times.1, g.times.2, g.graces.0);
          outcome = d;
          taken = takes;
          result = refl;
        },
      ),
    )
