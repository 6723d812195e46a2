-- ===== src/Manager/Writes.antt =====
-- The writes that the methods of LeasedExecutorManager (src/leasepool/manager.py) are made of, as far as
-- they concern the table of leases and the executors on their way to a shutdown.
pub mod Methods
pub mod Calls
pub mod Tasks
pub mod Steps
use leasepool.Base.{
  ℕ, ◌≤◌, Bool, true, false, Option, none, some, List, [], ◌∷◌, ◌++◌, ◌≡◌, refl, inl, inr,
  if◌then◌else◌,
}
use leasepool.Base.Exec.{Exn, Result, ok, raised, Result-cases, Exec, on_error, ◌>>=◌, ◌>>◌}
use leasepool.Backends.{Executor}
use leasepool.Manager.State.{
  State, Action, LeaseRecord, TaskState, running, finished, Callback, set_event, shut_down,
}
use leasepool.Manager.Ledger.Count.{count}
use leasepool.Manager.Table.{insert, remove, update}

-- A change of a record that leaves alone what acquire gave it, and takes no release back.
pub record Mild (f : LeaseRecord → LeaseRecord) : Type 0 where
  pub lease_id : (r : LeaseRecord) → (f r).lease_id ≡ r.lease_id
  pub ref : (r : LeaseRecord) → (f r).ref ≡ r.ref
  pub executor : (r : LeaseRecord) → (f r).executor ≡ r.executor
  pub leased_at : (r : LeaseRecord) → (f r).leased_at ≡ r.leased_at
  pub lease_seconds : (r : LeaseRecord) → (f r).lease_seconds ≡ r.lease_seconds
  pub grace_seconds : (r : LeaseRecord) → (f r).grace_seconds ≡ r.grace_seconds
  pub released : (r : LeaseRecord) → r.release_requested ≡ true → (f r).release_requested ≡ true

-- The checker task is not there, or has ended.
abbrev pub off : Option TaskState → Bool
off none = true
off (some finished) = true
off (some running) = false

-- One write; a new lease gets its id from `uuid`, by the number of the read. `aside` writes to none of the fields at hand, but may note executors that were built; a
-- calm one starts no checker task.
-- `turns` starts or ends the manager, which calm writes do not.
pub data Write (uuid : ℕ → ℕ) (calm : Bool) (s t : State) : Type 0 where
  aside :
      s.reads ≤ t.reads
      → t.leased ≡ s.leased
      → t.ready ≡ s.ready
      → t.closing ≡ s.closing
      → t.shut ≡ s.shut
      → t.started ≡ s.started
      → (calm ≡ true → off s.checker_task ≡ true → off t.checker_task ≡ true)
      → ((n : ℕ) → count n s.built ≤ count n t.built)
      → Write uuid calm s t
  inserts :
      (r : LeaseRecord)
      → r.lease_id ≡ uuid s.reads
      → t ≡ record s { leased = insert r s.leased }
      → Write uuid calm s t
  removes : (k : ℕ) → t ≡ record s { leased = remove k s.leased } → Write uuid calm s t
  updates :
      (k : ℕ) (f : LeaseRecord → LeaseRecord)
      → Mild f
      → t ≡ record s { leased = update k f s.leased }
      → Write uuid calm s t
  empties : t ≡ record s { available = []; leased = [] } → Write uuid calm s t
  shuts : (e : Executor) → t ≡ record s { shut = s.shut ++ e ∷ [] } → Write uuid calm s t
  closes : (e : Executor) → t ≡ record s { closing = s.closing ++ e ∷ [] } → Write uuid calm s t
  calls_soon : (x : Callback) → t ≡ record s { ready = s.ready ++ x ∷ [] } → Write uuid calm s t
  turns : (v : Bool) → calm ≡ false → t ≡ record s { started = v } → Write uuid calm s t

-- Any number of writes.
pub data Writes (uuid : ℕ → ℕ) (calm : Bool) (s : State) : State → Type 0 where
  done : Writes uuid calm s s
  more : {t u : State} → Writes uuid calm s t → Write uuid calm t u → Writes uuid calm s u

pub Writes-trans :
    {uuid : ℕ → ℕ} {calm : Bool} {s t u : State}
    → Writes uuid calm s t
    → Writes uuid calm t u
    → Writes uuid calm s u
Writes-trans a done = a
Writes-trans a (more b w) = more (Writes-trans a b) w

pub one-Write :
    {uuid : ℕ → ℕ} {calm : Bool} {s t : State} → Write uuid calm s t → Writes uuid calm s t
one-Write w = more done w

-- A method that is made of such writes, in whatever way it ends.
abbrev pub Writing : {A : Type 0} → (ℕ → ℕ) → Bool → Action A → Type 0
Writing uuid calm m = (s : State) → Writes uuid calm s (m s).1

pub Writing-bind :
    {A B : Type 0} {uuid : ℕ → ℕ} {calm : Bool} (m : Action A) (f : A → Action B)
    → Writing uuid calm m
    → ((a : A) → Writing uuid calm (f a))
    → Writing uuid calm (m >>= f)
Writing-bind m f wm wf s = elim (Result-cases (m s).0) [
  | inl (a, e) ↦ rw (e, ◌>>=◌) (Writes-trans (wm s) (wf a (m s).1))
  | inr (x, e) ↦ rw (e, ◌>>=◌) (wm s)
]

pub Writing-then :
    {A B : Type 0} {uuid : ℕ → ℕ} {calm : Bool} (m : Action A) (k : Action B)
    → Writing uuid calm m
    → Writing uuid calm k
    → Writing uuid calm (m >> k)
Writing-then m k wm wk = Writing-bind m (λ _. k) wm (λ _. wk)

pub Writing-if :
    {A : Type 0} {uuid : ℕ → ℕ} {calm : Bool} (v : Bool) (m k : Action A)
    → Writing uuid calm m
    → Writing uuid calm k
    → Writing uuid calm (if v then m else k)
Writing-if true m k wm wk = wm
Writing-if false m k wm wk = wk

pub Writing-on_error :
    {A : Type 0} {uuid : ℕ → ℕ} {calm : Bool} (m : Action A) (handler : Action (Unit {0}))
    → Writing uuid calm m
    → Writing uuid calm handler
    → Writing uuid calm (on_error m handler)
Writing-on_error m handler wm wh s = elim (Result-cases (m s).0) [
  | inl (a, e) ↦ rw (e, on_error) (wm s)
  | inr (x, e) ↦ elim (Result-cases (handler (m s).1).0) [
    | inl (u, e') ↦ rw (e, e', on_error) (Writes-trans (wm s) (wh (m s).1))
    | inr (y, e') ↦ rw (e, e', on_error) (Writes-trans (wm s) (wh (m s).1))
  ]
]
