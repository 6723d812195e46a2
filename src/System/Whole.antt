-- ===== src/System/Whole.antt =====
-- A batch as a whole, from its lease to its results (src/leasepool/grinder.py, _process_batch, over
-- src/leasepool/manager.py).
use leasepool.Base.{
  ℕ, zero, suc, ◌+◌, true, subst, sym, false, Option, none, some, List, [], ◌∷◌, ◌≡◌, ◌<◌, refl,
  arith, add_member, ap, ◌∙◌, length,
}
use leasepool.Base.Exec.{Exn, Result, ok, raised}
use leasepool.Manager.Config.{Config, accepted}
use leasepool.Manager.State.{State, LeaseRecord, hard_expires_at}
use leasepool.Manager.Table.{find}
use leasepool.Manager.Leases.{
  submit_for_lease, add_done_callback, on_lease_future_done, FutureOutcome,
  broken_exception_from_future,
}
use leasepool.Manager.Acquire.{Request, ExecutorLease, attempt, leased}
use leasepool.Manager.Acquiring.{attempt-Granted}
use leasepool.Manager.Handle.{lease_hard_expires_at, lease_release}
use leasepool.Manager.Submitting.{submitting, submit_for_lease_iff}
use leasepool.Manager.Settled.{unbroken, unbroken-none, ended}
use leasepool.Manager.Draining.{drops}
use leasepool.Manager.Ledger.Table.{find-update}
use leasepool.Grinder.State.{WorkItem, GrinderState, gathering, FutureState}
use leasepool.Grinder.Batch.{batch_gathered}
use leasepool.Grinder.Results.{Open, futures_of, outcomes, batch_gathered-delivers}
use leasepool.System.{
  System, FutureEnd, futures_end, Submissions, one_taken, exception, submitted_with, submit_batch,
  release_lease, process_leased,
}

-- While the batch is submitted, the clock stays before `deadline`, and the executor takes the calls;
-- a call that is done at once was not ended by a broken executor.
pub record Undisturbed (c : Config) (deadline : ℕ) : Type 0 where
  pub in_time : (k : ℕ) → c.clock k < deadline
  pub takes :
      (k : ℕ)
      → (f : ℕ) × (d : Option FutureOutcome) × (c.submit k ≡ accepted f d) × (unbroken d ≡ true)

-- The lease `k` can take work until `deadline`.
record Usable (k deadline : ℕ) (m : State) : Type 0 where
  entry : LeaseRecord
  active : find k m.leased ≡ some entry
  not_released : entry.release_requested ≡ false
  lasts : hard_expires_at entry ≡ deadline

submitting-Usable :
    (k deadline f : ℕ) (m : State) → Usable k deadline m → Usable k deadline (submitting k f m)
submitting-Usable k deadline f m u =
    let more : LeaseRecord → LeaseRecord =
      λ x. record x { pending_futures = add_member f x.pending_futures } in
    record {
      entry = more u.entry;
      active = find-update k more (λ r. refl) m.leased u.active;
      not_released = u.not_released;
      lasts = u.lasts;
    }

future_ends-Usable :
    (c : Config) (k deadline f : ℕ) (o : FutureOutcome) (m : State)
    → broken_exception_from_future o ≡ none
    → Usable k deadline m
    → Usable k deadline (on_lease_future_done c k f o m).1
future_ends-Usable c k deadline f o m fine u =
    subst (λ (p : Result (Unit {0}) × State). Usable k deadline p.1)
      (sym (ended c k f o m u.entry u.active u.not_released fine))
      (record {
        entry = drops f u.entry;
        active = find-update k (drops f) (λ r. refl) m.leased u.active;
        not_released = u.not_released;
        lasts = u.lasts;
      })

add_done_callback-Usable :
    (c : Config) (k deadline f : ℕ) (d : Option FutureOutcome) (m : State)
    → unbroken d ≡ true
    → Usable k deadline m
    → Usable k deadline (add_done_callback c k f d m).1
add_done_callback-Usable c k deadline f none m whole u = u
add_done_callback-Usable c k deadline f (some o) m whole u =
    future_ends-Usable c k deadline f o m (unbroken-none o whole) u

submits_one :
    (c : Config) (k deadline : ℕ) (m : State)
    → Undisturbed c deadline
    → Usable k deadline m
    → (f : ℕ) × (n : State) × (submit_for_lease c k m ≡ (ok f, n)) × Usable k deadline n
submits_one c k deadline m calm u =
    let (f, d, taken, whole) = calm.takes (m.reads + 1) in
    let n : State = (add_done_callback c k f d (submitting k f m)).1 in
    (
      f,
      n,
      (submit_for_lease_iff c k f m n).1 (
        u.entry,
        record {
          active = u.active;
          not_released = u.not_released;
          in_time = omega (arith, calm.in_time m.reads, u.lasts);
          outcome = d;
          taken = taken;
          result = refl;
        },
      ),
      add_done_callback-Usable c k deadline f d (submitting k f m) whole
          (submitting-Usable k deadline f m u),
    )

-- Only futures of the lease `k` end, none by a broken executor.
abbrev pub Ordinary : ℕ → List FutureEnd → Type 0
Ordinary k [] = Unit {0}
Ordinary k (e ∷ es) =
    (e.lease_id ≡ k) × (broken_exception_from_future e.outcome ≡ none) × Ordinary k es

futures_end-Usable :
    (c : Config) (k deadline : ℕ) (es : List FutureEnd) (m : State)
    → Ordinary k es
    → Usable k deadline m
    → Usable k deadline (futures_end c es m)
unfolding futures_end
futures_end-Usable c k deadline [] m plain u = u
futures_end-Usable c k deadline (e ∷ es) m (own, fine, plain) u =
    futures_end-Usable c k deadline es (on_lease_future_done c e.lease_id e.future e.outcome m).1
      plain
      (subst (λ j. Usable k deadline (on_lease_future_done c j e.future e.outcome m).1) (sym own)
        (future_ends-Usable c k deadline e.future e.outcome m fine u))

submit_batch-takes :
    (c : Config) (k f : ℕ) (ends : ℕ → List FutureEnd) (x : WorkItem) (xs : List WorkItem)
    (m n : State)
    → submit_for_lease c k (futures_end c (ends zero) m) ≡ (ok f, n)
    → submit_batch c k ends (x ∷ xs) m ≡ one_taken x (submit_batch c k (λ i. ends (suc i)) xs n)
unfolding submit_batch
submit_batch-takes c k f ends x xs m n e =
    ap
      (λ (y : Result ℕ × State).
        let rest = one_taken x (submit_batch c k (λ i. ends (suc i)) xs y.1) in
        elim y.0 as (λ _. Submissions) [
          | ok future ↦ rest
          | raised e ↦ (([], x ∷ xs, some e), y.1)
        ])
      e

submit_batch-all :
    (c : Config) (k deadline : ℕ) (ends : ℕ → List FutureEnd) (xs : List WorkItem) (m : State)
    → Undisturbed c deadline
    → ((i : ℕ) → Ordinary k (ends i))
    → Usable k deadline m
    → (submit_batch c k ends xs m).0 ≡ (xs, [], none)
unfolding submit_batch
submit_batch-all c k deadline ends [] m calm plain u = refl
submit_batch-all c k deadline ends (x ∷ xs) m calm plain u =
    let u' = futures_end-Usable c k deadline (ends zero) m (plain zero) u in
    let (f, n, e, v) = submits_one c k deadline (futures_end c (ends zero) m) calm u' in
    ap (λ (y : Submissions). y.0) (submit_batch-takes c k f ends x xs m n e)
    ∙ ap (λ (y : List WorkItem × List WorkItem × Option Exn). (x ∷ y.0, y.1, y.2))
        (submit_batch-all c k deadline (λ i. ends (suc i)) xs n calm (λ i. plain (suc i)) v)

leased-Usable :
    (c : Config) (q : Request) (ticks started_at : ℕ) (s m : State) {l : ExecutorLease}
    → attempt c q ticks started_at s ≡ (ok (leased l), m)
    → Usable l.lease_id (lease_hard_expires_at l) m
leased-Usable c q ticks started_at s m gives =
    let (_, _, g) = attempt-Granted c q ticks started_at s m gives in
    record {
      entry = g.entry;
      active = g.found;
      not_released = g.fresh.1;
      lasts = omega (arith, g.times.0, g.times.1, g.times.2, g.graces.0);
    }

-- All calls of a batch that is not empty are submitted: the loop then waits for their results.
all_gather :
    (c : Config) (l : ExecutorLease) (ends : ℕ → List FutureEnd) (x : WorkItem) (xs : List WorkItem)
    (g : GrinderState) (m : State)
    → (submit_batch c l.lease_id ends (x ∷ xs) m).0 ≡ (x ∷ xs, [], none)
    → process_leased c l ends (x ∷ xs) g m ≡ record {
      manager = (submit_batch c l.lease_id ends (x ∷ xs) m).1;
      grinder = record g { phase = gathering (x ∷ xs) (x ∷ xs) };
      lease = some l;
    }
unfolding process_leased
all_gather c l ends x xs g m all =
    ap
      (λ (y : List WorkItem × List WorkItem × Option Exn).
        submitted_with c l (x ∷ xs) g (y, (submit_batch c l.lease_id ends (x ∷ xs) m).1))
      all

-- A batch runs as a whole: with a lease that an attempt of acquire gave, while the clock stays before
-- the lease's hard deadline and the executor takes every call, and only calls of the batch end meanwhile, none by a broken executor, all its calls are submitted, and the
-- lease is kept for them; when their results come, one for each, and the release returns, each
-- call's future, provided that they are different and unsettled, has its own result or exception.
pub batch-runs_whole :
    (c : Config) (q : Request) (ticks started_at : ℕ) (s m later : State) (l : ExecutorLease)
    (g : GrinderState) (ends : ℕ → List FutureEnd) (x : WorkItem) (xs : List WorkItem)
    (results : List (Result ℕ))
    → attempt c q ticks started_at s ≡ (ok (leased l), m)
    → Undisturbed c (lease_hard_expires_at l)
    → ((i : ℕ) → Ordinary l.lease_id (ends i))
    → Open g.futures (x ∷ xs)
    → length (x ∷ xs) ≡ length results
    → (lease_release c (l, later)).0 ≡ ok tt
    → let t = process_leased c l ends (x ∷ xs) g m in
      let u =
        release_lease c l
          (λ released. batch_gathered results released (x ∷ xs) (x ∷ xs) t.grinder)
          later in
      (t.grinder.phase ≡ gathering (x ∷ xs) (x ∷ xs))
      × (t.lease ≡ some l)
      × (futures_of u.grinder.futures (x ∷ xs) ≡ outcomes results)
unfolding release_lease
batch-runs_whole c q ticks started_at s m later l g ends x xs results gives calm plain open_ each
      fine =
    let usable = leased-Usable c q ticks started_at s m gives in
    let whole =
      all_gather c l ends x xs g m (
        submit_batch-all c l.lease_id (lease_hard_expires_at l) ends (x ∷ xs) m calm plain
          usable) in
    let waiting : GrinderState = record g { phase = gathering (x ∷ xs) (x ∷ xs) } in
    let after : Result (Unit {0}) → GrinderState → List FutureState = λ r t.
      futures_of (batch_gathered results (exception r) (x ∷ xs) (x ∷ xs) t).futures (x ∷ xs) in
    (
      ap (λ (t : System). t.grinder.phase) whole,
      ap (λ (t : System). t.lease) whole,
      ap (λ (t : System). after (lease_release c (l, later)).0 t.grinder) whole
          ∙ ap (λ (r : Result (Unit {0})). after r waiting) fine
          ∙ batch_gathered-delivers results (x ∷ xs) (x ∷ xs) waiting open_ each,
    )
