-- ===== src/Manager/Alerting.antt =====
-- How the methods of LeasedExecutorManager (src/leasepool/manager.py) tell those who wait for an
-- executor that one is idle: the judgements, and the methods that every other one is made of.
pub mod Methods
pub mod Growth
pub mod Calls
pub mod Submissions
pub mod Rounds
pub mod Attempts
pub mod Steps
pub mod Arrival
use leasepool.Base.{
  ◌∙◌, ℕ, Bool, true, false, ◌||◌, Option, none, some, List, [], ◌∷◌, ◌++◌, ◌≡◌, refl, ◌==◌, arith,
  inl, inr, is_empty, is_none, member, Option-cases, List-cases, if◌then◌else◌,
}
use leasepool.Base.Exec.{
  Exn, Result, ok, raised, Result-cases, Exec, Keeps, bind-keeps, ◌>>=◌, ◌>>◌,
}
use leasepool.Backends.{Executor}
use leasepool.Manager.Config.{Config}
use leasepool.Manager.State.{
  State, Action, Callback, set_event, shut_down, TaskState, running, monotonic, shutdown_executor,
  wake_waiters, wake_checker, shutdown_executor_from_callback, on_loop,
}
use leasepool.Manager.Sizing.{desired_executor_count}
use leasepool.Manager.Pool.{grow, ensure_minimum}
use leasepool.Manager.Leases.{shutdown_some, callback_shutdown, wake_if}
use leasepool.Manager.Growth.{ensure-extends}
use leasepool.Manager.Ledger.Sizes.{desired-cases}

-- The event loop is going to set `event`.
abbrev pub rings : ℕ → List Callback → Bool
rings event [] = false
rings event (set_event f ∷ cs) = f == event || rings event cs
rings event (shut_down e ∷ cs) = rings event cs

-- A manager at work, with its two events and its loop, whose checker runs.
pub record Working (available scale loop : ℕ) (s : State) : Type 0 where
  pub started : s.started ≡ true
  pub going : s.stopping ≡ false
  pub event : s.availability_event ≡ some available
  pub changes : s.scale_change_event ≡ some scale
  pub on_its_loop : s.loop ≡ some loop
  pub loop_open : s.loop_closed ≡ false
  pub checking : s.checker_task ≡ some running

-- No executor is idle, or the event that the waiters wait for is going to be set, or the one that has
-- the checker do a round, which sets the other.
abbrev pub announced : ℕ → ℕ → State → Bool
announced available scale s =
    is_empty s.available
    || rings available s.ready
    || rings scale s.ready
    || member scale s.set_events

pub record Alert (available scale loop : ℕ) (s : State) : Type 0 where
  pub working : Working available scale loop s
  pub told : announced available scale s ≡ true

-- _ensure_minimum_locked raises in no state at all: the size provider and the executor classes do their
-- work, and no log forwarding is asked for, since a process manager that forwards logs raises in the
-- states where its queue is not there.
abbrev pub Growing : Config → Type 0
Growing c = (s : State) → (ensure_minimum c s).0 ≡ ok tt

-- `m` returns a value that `Q` holds of.
abbrev pub Gives : {A : Type 0} → (A → Type 0) → Action A → Type 0
Gives {A = A} Q m = (s : State) → (a : A) × ((m s).0 ≡ ok a) × Q a

abbrev pub Any : {A : Type 0} → A → Type 0
Any a = Unit {0}

pub Gives-bind :
    {A B : Type 0} (Q : A → Type 0) (R : B → Type 0) (m : Action A) (f : A → Action B)
    → Gives Q m
    → ((a : A) → Q a → Gives R (f a))
    → Gives R (m >>= f)
Gives-bind Q R m f gm gf s =
    let (a, e, q) = gm s in let (b, e', r) = gf a q (m s).1 in (b, rw (e, ◌>>=◌) e', r)

module _ (available scale loop : ℕ) where
  -- `m` leaves the sleepers told, whatever it finds.
  abbrev pub Tells : {A : Type 0} → Action A → Type 0
  Tells m = (s : State) → Working available scale loop s → Alert available scale loop (m s).1

  -- A method that tells after parts that return and leave the manager at work.
  pub Tells-bind :
      {A B : Type 0} (Q : A → Type 0) (m : Action A) (f : A → Action B)
      → Gives Q m
      → Keeps (Working available scale loop) m
      → ((a : A) → Q a → Tells (f a))
      → Tells (m >>= f)
  Tells-bind Q m f gm km tf s w = let (a, e, q) = gm s in rw (e, ◌>>=◌) (tf a q (m s).1 (km s w))

  -- Once told, they stay so.
  pub Tells-then :
      {A B : Type 0} (m : Action A) (f : A → Action B)
      → Tells m
      → ((a : A) → Keeps (Alert available scale loop) (f a))
      → Tells (m >>= f)
  Tells-then m f tm kf s w =
      bind-keeps (Alert available scale loop) m f s (λ x failed. tm s w)
        (λ a done. kf a (m s).1 (tm s w))

pub rings-append :
    (event : ℕ) (cs ds : List Callback)
    → rings event (cs ++ ds) ≡ (rings event cs || rings event ds)
rings-append event [] ds = refl
rings-append event (set_event f ∷ cs) ds = ground (arith, rings-append event cs ds)
rings-append event (shut_down e ∷ cs) ds = rings-append event cs ds

-- A callback more loses no announcement.
pub Alert-ready :
    {available scale loop : ℕ} {s : State} (cs : List Callback)
    → Alert available scale loop s
    → Alert available scale loop (record s { ready = s.ready ++ cs })
Alert-ready {available} {scale} {loop} {s} cs a =
    let first = rings-append available s.ready cs in
    let second = rings-append scale s.ready cs in
    let told = a.told in
    let w = a.working in
    record {
      working = record {
        started = w.started;
        going = w.going;
        event = w.event;
        changes = w.changes;
        on_its_loop = w.on_its_loop;
        loop_open = w.loop_open;
        checking = w.checking;
      };
      told = ground (arith, first, second, told);
    }

-- What Working looks at is the same in both states.
abbrev pub Unmoved : State → State → Type 0
Unmoved s t =
    (t.started ≡ s.started)
    × (t.stopping ≡ s.stopping)
    × (t.availability_event ≡ s.availability_event)
    × (t.scale_change_event ≡ s.scale_change_event)
    × (t.loop ≡ s.loop)
    × (t.loop_closed ≡ s.loop_closed)
    × (t.checker_task ≡ s.checker_task)

module _ {available scale loop : ℕ} {s t : State} (m : Unmoved s t) where
  pub Unmoved-Working : Working available scale loop s → Working available scale loop t
  Unmoved-Working w = record {
    started = m.0 ∙ w.started;
    going = m.1 ∙ w.going;
    event = m.2 ∙ w.event;
    changes = m.3 ∙ w.changes;
    on_its_loop = m.4 ∙ w.on_its_loop;
    loop_open = m.5 ∙ w.loop_open;
    checking = m.6 ∙ w.checking;
  }

  pub Unmoved-Alert :
      announced available scale t ≡ announced available scale s
      → Alert available scale loop s
      → Alert available scale loop t
  Unmoved-Alert same a = record { working = Unmoved-Working a.working; told = same ∙ a.told }
