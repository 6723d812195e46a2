-- ===== src/System.antt =====
-- A WorkGrinder over the LeasedExecutorManager that it leases from (src/leasepool/grinder.py and
-- src/leasepool/manager.py): _process_batch with the manager's own acquire, submissions and release.
pub mod Refining
pub mod Held
pub mod LettingGo
pub mod Whole
use Prim.Native.String.{◌++◌ as join, slice}
use leasepool.Base.{
  ℕ, zero, suc, ◌+◌, ◌/◌, ◌%◌, String, Bool, true, false, Option, none, some, List, [], ◌∷◌, ◌≡◌,
  ltb, if◌then◌else◌,
}
use leasepool.Base.Ints.{pos}
use leasepool.Base.Exec.{Exn, Result, ok, raised}
use leasepool.Validation.{PyObject, Float}
use leasepool.Manager.Config.{Config}
use leasepool.Manager.State.{State, initial}
use leasepool.Manager.Leases.{submit_for_lease, on_lease_future_done, FutureOutcome}
use leasepool.Manager.Acquire.{Request, ExecutorLease, leased, acquire_begin, attempt}
use leasepool.Manager.Handle.{lease_release}
use leasepool.Manager.Steps.{Step}
use leasepool.Grinder.State.{
  WorkItem, GrinderConfig, GrinderState, new_grinder, acquiring, gathering,
}
use leasepool.Grinder.Batch.{submitted_of, acquire_failed, batch_gathered, batch_cancelled}
use leasepool.Grinder.Steps.{GrinderStep, is_own}

-- `lease` is the local variable of _process_batch: the handle of the latest batch, whose `released`
-- is what lease.release() has made of it.
pub record System : Type 0 where
  pub manager : State
  pub grinder : GrinderState
  pub lease : Option ExecutorLease

abbrev pub new_system : System
new_system = record { manager = initial; grinder = new_grinder; lease = none }

abbrev digit : ℕ → String
digit n = slice "0123456789" n (n + 1)

-- A number in decimal digits; as many rounds as the number has are enough.
unfoldable pub digits : ℕ → ℕ → String
digits zero n = digit n
digits (suc rounds) n =
    let rest = digits rounds (n / 10) in if ltb n 10 then digit n else join rest (digit (n % 10))

-- `f"{self._owner_prefix}-batch-{batch_id}"`
abbrev pub lease_owner : GrinderConfig → ℕ → String
lease_owner g batch_id = join g.owner_prefix (join "-batch-" (digits batch_id batch_id))

-- What _process_batch asks of acquire.
abbrev pub batch_request : GrinderConfig → ℕ → Request
batch_request g batch_id = record {
  lease_seconds = some (PyObject.float (Float.finite (pos g.lease_seconds)));
  owner = some (lease_owner g batch_id);
  wait = true;
  timeout = none;
}

-- What the loop over the items of a batch comes to: the items that were submitted, those from the first
-- refusal on, and its exception; and the manager.
abbrev pub Submissions : Type 0
Submissions = (List WorkItem × List WorkItem × Option Exn) × State

abbrev pub one_taken : WorkItem → Submissions → Submissions
one_taken x ((taken, left, e), m) = ((x ∷ taken, left, e), m)

-- A future ends in a thread of its executor, and its callback runs there.
pub record FutureEnd : Type 0 where
  pub lease_id : ℕ
  pub future : ℕ
  pub outcome : FutureOutcome

unfoldable pub futures_end : Config → List FutureEnd → State → State
futures_end c [] m = m
futures_end c (e ∷ es) m =
    futures_end c es (on_lease_future_done c e.lease_id e.future e.outcome m).1

-- The loop over the items of a batch, which submits each through the lease; `ends` are the futures that
-- end in threads meanwhile, before the submission of each number. Nothing else can come between two
-- submissions, since the loop awaits nothing there.
unfoldable pub submit_batch :
    Config → ℕ → (ℕ → List FutureEnd) → List WorkItem → State → Submissions
unfolding futures_end
submit_batch c lease_id ends [] m = (([], [], none), m)
submit_batch c lease_id ends (x ∷ xs) m =
    let (r, m') = submit_for_lease c lease_id (futures_end c (ends zero) m) in
    let rest = one_taken x (submit_batch c lease_id (λ n. ends (suc n)) xs m') in
    elim r [ ok future ↦ rest | raised e ↦ (([], x ∷ xs, some e), m') ]

abbrev pub exception : {A : Type 0} → Result A → Option Exn
exception (ok a) = none
exception (raised e) = some e

-- The `finally` of _process_batch, with the lease `l`: `next` is what the grinder comes to when
-- lease.release() has the outcome that it is given.
unfoldable pub release_lease : Config → ExecutorLease → (Option Exn → GrinderState) → State → System
unfolding lease_release
release_lease c l next m =
    let (r, (l', m')) = lease_release c (l, m) in
    record { manager = m'; grinder = next (exception r); lease = some l' }

abbrev submitted_with : Config → ExecutorLease → List WorkItem → GrinderState → Submissions → System
submitted_with c l live g (([], left, e), m) =
    release_lease c l (λ released. submitted_of live released g ([], left, e)) m
submitted_with c l live g ((x ∷ taken, left, e), m) = record {
  manager = m;
  grinder = submitted_of live none g (x ∷ taken, left, e);
  lease = some l;
}

-- _process_batch from a lease to the await of gather, or to its end when nothing was submitted.
unfoldable pub process_leased :
    Config → ExecutorLease → (ℕ → List FutureEnd) → List WorkItem → GrinderState → State → System
unfolding submit_batch release_lease
process_leased c l ends live g m = submitted_with c l live g (submit_batch c l.lease_id ends live m)

-- The steps of the whole: the manager's, those of the grinder alone, and those of a batch.
pub data SystemStep (c : Config) (g : GrinderConfig) (s : System) : System → Type 0 where
  manager_moves : {m : State} → Step c s.manager m → SystemStep c g s (record s { manager = m })
  grinder_moves :
      {t : GrinderState} (step : GrinderStep g s.grinder t)
      → is_own step ≡ true
      → SystemStep c g s (record s { grinder = t })
  acquire_fails_at_once :
      (caller : Option ℕ) (live : List WorkItem) (e : Exn) (m : State)
      → s.grinder.phase ≡ acquiring live
      → acquire_begin c caller (batch_request g s.grinder.batch_seq) s.manager ≡ (raised e, m)
      → SystemStep c g s (record s { manager = m; grinder = acquire_failed e live s.grinder })
  acquire_fails :
      (started_at : ℕ) (live : List WorkItem) (e : Exn) (m : State)
      → s.grinder.phase ≡ acquiring live
      → attempt c (batch_request g s.grinder.batch_seq) g.lease_seconds started_at s.manager
        ≡ (raised e, m)
      → SystemStep c g s (record s { manager = m; grinder = acquire_failed e live s.grinder })
  leases :
      (started_at : ℕ) (live : List WorkItem) (l : ExecutorLease) (ends : ℕ → List FutureEnd)
      (m : State)
      → s.grinder.phase ≡ acquiring live
      → attempt c (batch_request g s.grinder.batch_seq) g.lease_seconds started_at s.manager
        ≡ (ok (leased l), m)
      → SystemStep c g s (process_leased c l ends live s.grinder m)
  results_come :
      (results : List (Result ℕ)) (live submitted : List WorkItem) (l : ExecutorLease)
      → s.grinder.phase ≡ gathering live submitted
      → s.lease ≡ some l
      → SystemStep c g s (
          release_lease c l
            (λ released. batch_gathered results released live submitted s.grinder)
            s.manager)
  acquire_is_cancelled :
      (live : List WorkItem)
      → s.grinder.phase ≡ acquiring live
      → SystemStep c g s (record s { grinder = batch_cancelled none live s.grinder })
  gather_is_cancelled :
      (live submitted : List WorkItem) (l : ExecutorLease)
      → s.grinder.phase ≡ gathering live submitted
      → s.lease ≡ some l
      → SystemStep c g s
          (release_lease c l (λ released. batch_cancelled released live s.grinder) s.manager)

pub data SystemReach (c : Config) (g : GrinderConfig) : System → Type 0 where
  set_up : SystemReach c g new_system
  followed : {s t : System} → SystemReach c g s → SystemStep c g s t → SystemReach c g t
