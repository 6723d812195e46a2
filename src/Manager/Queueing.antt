-- ===== src/Manager/Queueing.antt =====
-- When a caller of acquire (src/leasepool/manager.py) waits for an executor.
use leasepool.Base.{
  ℕ, ◌+◌, ◌-◌, ap, subst, length, ◌≡◌, refl, ◌≤◌, true, false, Option, none, some, List, [], ◌∷◌,
  arith, ◌⊎◌, inl, inr, Bool-cases, Option-cases,
}
use leasepool.Base.Ints.{ℤ, pos, ◌-ℤ◌, leb_ℤ}
use leasepool.Base.Exec.{Exn, ok, raised, Result-cases, bind-ok, ◌>>=◌}
use leasepool.Backends.{Executor}
use leasepool.Manager.Config.{Config}
use leasepool.Manager.State.{State, Action, monotonic, current_count, wake_checker}
use leasepool.Manager.Table.{insert}
use leasepool.Manager.Pool.{take_or_create_available}
use leasepool.Manager.Acquire.{
  Request, ExecutorLease, leased, waits, grant, try_acquire, time_left, prepare_wait, after_try,
  attempt, or_not_started, Wake, acquire_loop,
}
use leasepool.Manager.Waking.{notify_lem}
use leasepool.Manager.Ledger.Pool.{take-cases}
use leasepool.Manager.Acquiring.{try_acquire-Tried, record_of}

-- How long a caller waits at most, with the time that the clock read last.
abbrev pub Remains : Config → ℕ → Option ℤ → Option ℤ → State → Type 0
Remains c started_at none remaining t = remaining ≡ none
Remains c started_at (some timeout) remaining t =
    (z : ℤ) × (remaining ≡ some z)
    × (z ≡ timeout -ℤ (pos (c.clock (t.reads - 1)) -ℤ pos started_at))
    × (leb_ℤ z (pos 0) ≡ false)

-- What is true when a caller waits.
pub record Waits (c : Config) (q : Request) (started_at event : ℕ) (remaining : Option ℤ)
    (t : State) : Type 0 where
  pub asked : q.wait ≡ true
  pub none_idle : t.available ≡ []
  pub full : c.max_pools ≤ current_count t
  pub for_event : t.availability_event ≡ some event
  pub remains : Remains c started_at q.timeout remaining t

abbrev Shows : Config → ℕ → State → State → Option ℤ → Option ℤ → Type 0
Shows c started_at s u timeout remaining =
    Remains c started_at timeout remaining u × (u ≡ record s { reads = u.reads })

time_left-Shows :
    (c : Config) (started_at : ℕ) (timeout : Option ℤ) (s u : State) {remaining : Option ℤ}
    → time_left c started_at timeout s ≡ (ok remaining, u)
    → Shows c started_at s u timeout remaining
unfolding monotonic
time_left-Shows c started_at none s u h = (ground (arith, h), ground (arith, h))
time_left-Shows c started_at (some timeout) s u {remaining} h =
    let z = timeout -ℤ (pos (c.clock s.reads) -ℤ pos started_at) in
    elim (Bool-cases (leb_ℤ z (pos 0))) [
      | inl late ↦ ground (arith, h, late)
      | inr early ↦
          let shown : remaining ≡ some z = ground (arith, h, early) in
          let same : u ≡ record s { reads = s.reads + 1 } = ground (arith, h, early) in
          let last : s.reads ≡ u.reads - 1 = omega (arith, ap (λ v. v.reads) same) in
          (
            (z, shown, ap (λ k. timeout -ℤ (pos (c.clock k) -ℤ pos started_at)) last, early),
            ground (arith, same),
          )
    ]

abbrev from_event : Option ℤ → Action (ℕ × Option ℤ)
from_event remaining = λ s. elim (or_not_started s.availability_event) [
  | ok event ↦ (ok (event, remaining), s)
  | raised x ↦ (raised x, s)
]

prepare_wait-Waits :
    (c : Config) (q : Request) (started_at event : ℕ) (s t : State) {remaining : Option ℤ}
    → prepare_wait c q started_at s ≡ (ok (event, remaining), t)
    → s.available ≡ []
    → c.max_pools ≤ current_count s
    → Waits c q started_at event remaining t
unfolding prepare_wait
prepare_wait-Waits c q started_at event s t {remaining} h empty full = elim (Bool-cases q.wait) [
  | inr never ↦ ground (arith, h, never)
  | inl willing ↦
      let begun : (time_left c started_at q.timeout >>= from_event) s ≡ (ok (event, remaining), t) =
        ground (arith, h, willing) in
      let (z, u, timed, h1) =
        bind-ok (time_left c started_at q.timeout) (from_event) {s = s} begun in
      let (left, same) = time_left-Shows c started_at q.timeout s u timed in
      elim (Option-cases u.availability_event) [
        | inl e ↦ ground (arith, h1, e)
        | inr (k, e) ↦
            let named : k ≡ event = ground (arith, h1, e) in
            let shown : z ≡ remaining = ground (arith, h1, e) in
            let end : u ≡ t = ground (arith, h1, e) in
            let kept : t.available ≡ s.available = ground (arith, same, end) in
            let leases : t.leased ≡ s.leased = ground (arith, same, end) in
            record {
              asked = willing;
              none_idle = ground (arith, kept, empty);
              full = omega (arith, full, ap length kept, ap length leases);
              for_event = ground (arith, e, named, end);
              remains =
                  subst (λ v. Remains c started_at q.timeout remaining v) end
                    (subst (λ y. Remains c started_at q.timeout y u) shown left);
            }
      ]
]

none_left :
    (c : Config) (q : Request) (ticks : ℕ) (e : Option Executor) (s u : State)
    → grant c q ticks e s ≡ (ok none, u)
    → (e ≡ none) × (s ≡ u)
unfolding monotonic wake_checker
none_left c q ticks none s u h = (refl, ground (arith, h))
none_left c q ticks (some e) s u h =
    let t : State = record s {
      reads = s.reads + 2;
      leased = insert (record_of c q ticks s.reads e) s.leased;
    } in
    let woken = notify_lem t.scale_change_event t.loop t.loop_closed t in ground (arith, h, woken)

take-none :
    (c : Config) (s t : State)
    → take_or_create_available c s ≡ (ok none, t)
    → (t.available ≡ []) × (c.max_pools ≤ current_count t)
take-none c s t h = elim (take-cases c s) [
  | inl (e, rest, idle, same) ↦ ground (arith, h, same)
  | inr (inl (e, empty, room, numbered, same)) ↦ ground (arith, h, same)
  | inr (inr (inl (x, empty, room, same))) ↦ ground (arith, h, same)
  | inr (inr (inr (empty, full, same))) ↦
      let kept : s ≡ t = ground (arith, h, same) in
      subst (λ u. (u.available ≡ []) × (c.max_pools ≤ current_count u)) kept (empty, full)
]

-- A caller waits only if it asked to, when no executor is idle and max_pools is reached; it waits for
-- the event that tells of a free executor; and, with a timeout, for what is left of it, above 0.
pub attempt-Waits :
    (c : Config) (q : Request) (ticks started_at event : ℕ) (s t : State) {remaining : Option ℤ}
    → attempt c q ticks started_at s ≡ (ok (waits event remaining), t)
    → Waits c q started_at event remaining t
unfolding attempt
attempt-Waits c q ticks started_at event s t {remaining} h =
    let (o, u, tried, h1) = bind-ok (try_acquire c q ticks) (after_try c q started_at) {s = s} h in
    elim (Option-cases o) [
      | inr (l, e) ↦ ground (arith, h1, e)
      | inl e ↦
          let h2 : after_try c q started_at none u ≡ (ok (waits event remaining), t) = rw e at h1 in
          let m = try_acquire-Tried c q ticks s u tried in
          let g : grant c q ticks m.e m.holding ≡ (ok none, u) = ground (arith, m.grants, e) in
          let (nothing, same) = none_left c q ticks m.e m.holding u g in
          let taken : take_or_create_available c m.swept ≡ (ok none, u) =
            ground (arith, m.takes, nothing, same) in
          let (empty, full) = take-none c m.swept u taken in
          let ((k, z), v, prepared, h3) =
            bind-ok (prepare_wait c q started_at) (λ (k, r). (λ v. (ok (waits k r), v))) {s = u}
              h2 in
          prepare_wait-Waits c q started_at event u t (ground (arith, prepared, h3)) empty full
    ]

attempt-cases :
    (c : Config) (q : Request) (ticks started_at : ℕ) (s : State)
    → q.wait ≡ false
    → ((l : ExecutorLease) × (t : State) × (attempt c q ticks started_at s ≡ (ok (leased l), t)))
      ⊎ ((x : Exn) × (t : State) × (attempt c q ticks started_at s ≡ (raised x, t)))
attempt-cases c q ticks started_at s no_wait =
    let t = (attempt c q ticks started_at s).1 in
    elim (Result-cases (attempt c q ticks started_at s).0) [
      | inr (x, e) ↦ inr (x, t, ap (λ r. (r, t)) e)
      | inl (leased l, e) ↦ inl (l, t, ap (λ r. (r, t)) e)
      | inl (waits k z, e) ↦
          let w = attempt-Waits c q ticks started_at k s t (ap (λ r. (r, t)) e) in
          absurd (ground (arith, w.asked, no_wait))
    ]

-- With wait=False, acquire does not wait: it makes one attempt, and gives the lease or raises what
-- the attempt gave or raised.
pub acquire_loop-no_wait :
    (c : Config) (q : Request) (ticks started_at : ℕ) (wakes : List Wake) (s : State)
    → q.wait ≡ false
    → ((l : ExecutorLease) × (t : State) × (attempt c q ticks started_at s ≡ (ok (leased l), t))
        × (acquire_loop c q ticks started_at wakes s ≡ (ok (some l), t)))
      ⊎ ((x : Exn) × (t : State) × (attempt c q ticks started_at s ≡ (raised x, t))
          × (acquire_loop c q ticks started_at wakes s ≡ (raised x, t)))
unfolding acquire_loop
acquire_loop-no_wait c q ticks started_at [] s no_wait =
    elim (attempt-cases c q ticks started_at s no_wait) [
      | inl (l, t, e) ↦ inl (l, t, e, ground (arith, e))
      | inr (x, t, e) ↦ inr (x, t, e, ground (arith, e))
    ]
acquire_loop-no_wait c q ticks started_at (w ∷ ws) s no_wait =
    elim (attempt-cases c q ticks started_at s no_wait) [
      | inl (l, t, e) ↦ inl (l, t, e, ground (arith, e))
      | inr (x, t, e) ↦ inr (x, t, e, ground (arith, e))
    ]
