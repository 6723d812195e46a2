-- ===== src/System/Refining.antt =====
-- The whole of a grinder and its manager (src/leasepool/grinder.py, src/leasepool/manager.py) does to
-- each of them only what it can do by itself.
use leasepool.Base.{
  ℕ, zero, suc, Option, none, some, List, [], ◌∷◌, ◌≡◌, refl, arith, inl, inr, Bool-cases, subst,
  sym, ap, ◌∙◌,
}
use leasepool.Base.Exec.{Exn, Result, Result-cases}
use leasepool.Manager.Config.{Config}
use leasepool.Manager.State.{State}
use leasepool.Manager.Leases.{submit_for_lease}
use leasepool.Manager.Acquire.{Request, Attempt, ExecutorLease, attempt}
use leasepool.Manager.Handle.{lease_release}
use leasepool.Manager.Steps.{Reach, made, next, submits, future_ends, releases, begins, attempts}
use leasepool.Grinder.State.{WorkItem, GrinderConfig, GrinderState}
use leasepool.Grinder.Batch.{
  submit_items, submitted_of, batch_acquired, batch_gathered, batch_cancelled,
}
use leasepool.Grinder.Steps.{
  GrinderReach, new, next as next_step, acquires, acquire_raises, gathers, acquire_cancelled,
  gather_cancelled,
}
use leasepool.System.{
  System, FutureEnd, futures_end, submit_batch, exception, release_lease, process_leased,
  submitted_with, Submissions, SystemStep, manager_moves, grinder_moves, acquire_fails_at_once,
  acquire_fails, leases, results_come, acquire_is_cancelled, gather_is_cancelled, SystemReach,
  set_up, followed,
}

futures_end-Reach :
    (c : Config) (es : List FutureEnd) {m : State} → Reach c m → Reach c (futures_end c es m)
unfolding futures_end
futures_end-Reach c [] r = r
futures_end-Reach c (e ∷ es) r =
    futures_end-Reach c es (next r (future_ends e.lease_id e.future e.outcome))

pub submit_batch-Reach :
    (c : Config) (k : ℕ) (ends : ℕ → List FutureEnd) (xs : List WorkItem) {m : State}
    → Reach c m
    → Reach c (submit_batch c k ends xs m).1
unfolding submit_batch
submit_batch-Reach c k ends [] r = r
submit_batch-Reach c k ends (x ∷ xs) {m} r =
    let r' = next (futures_end-Reach c (ends zero) r) (submits k) in
    elim (Result-cases (submit_for_lease c k (futures_end c (ends zero) m)).0) [
      | inl (f, e) ↦ rw (e, submit_batch) (submit_batch-Reach c k (λ n. ends (suc n)) xs r')
      | inr (y, e) ↦ rw (e, submit_batch) r'
    ]

-- The first submission is taken, and the others as `refusal` tells.
abbrev then_refused : (ℕ → Option Exn) → ℕ → Option Exn
then_refused refusal zero = none
then_refused refusal (suc k) = refusal k

-- The outcomes of the submissions, by number.
submit_batch-items :
    (c : Config) (k : ℕ) (ends : ℕ → List FutureEnd) (xs : List WorkItem) (m : State)
    → (refusal : ℕ → Option Exn) × ((submit_batch c k ends xs m).0 ≡ submit_items refusal xs)
unfolding submit_batch submit_items
submit_batch-items c k ends [] m = ((λ n. none), refl)
submit_batch-items c k ends (x ∷ xs) m =
    let m' = (submit_for_lease c k (futures_end c (ends zero) m)).1 in
    let (refusal, same) = submit_batch-items c k (λ n. ends (suc n)) xs m' in
    elim (Result-cases (submit_for_lease c k (futures_end c (ends zero) m)).0) [
      | inl (f, e) ↦ (then_refused refusal, rw (e, submit_batch) (ground (arith, same)))
      | inr (y, e) ↦ ((λ n. some y), rw (e, submit_batch) refl)
    ]

pub lease_release-Reach :
    (c : Config) (l : ExecutorLease) {m : State} → Reach c m → Reach c (lease_release c (l, m)).1.1
unfolding lease_release
lease_release-Reach c l {m} r = elim (Bool-cases l.released) [
  | inl e ↦ rw e r
  | inr e ↦ rw e (next r (releases l.lease_id))
]

pub release_lease-manager :
    (c : Config) (l : ExecutorLease) (n : Option Exn → GrinderState) (m : State)
    → (release_lease c l n m).manager ≡ (lease_release c (l, m)).1.1
unfolding release_lease
release_lease-manager c l n m = refl

release_lease-grinder :
    (c : Config) (l : ExecutorLease) (n : Option Exn → GrinderState) (m : State)
    → (released : Option Exn) × ((release_lease c l n m).grinder ≡ n released)
unfolding release_lease
release_lease-grinder c l n m = (exception (lease_release c (l, m)).0, refl)

pub submitted_with-Reach :
    (c : Config) (l : ExecutorLease) (live : List WorkItem) (g : GrinderState) (x : Submissions)
    → Reach c x.1
    → Reach c (submitted_with c l live g x).manager
unfolding release_lease
submitted_with-Reach c l live g (([], left, e), m) r = lease_release-Reach c l r
submitted_with-Reach c l live g ((y ∷ taken, left, e), m) r = r

submitted_with-grinder :
    (c : Config) (l : ExecutorLease) (live : List WorkItem) (g : GrinderState) (x : Submissions)
    → (released : Option Exn) × ((submitted_with c l live g x).grinder
        ≡ submitted_of live released g x.0)
unfolding release_lease
submitted_with-grinder c l live g (([], left, e), m) =
    release_lease-grinder c l (λ released. submitted_of live released g ([], left, e)) m
submitted_with-grinder c l live g ((y ∷ taken, left, e), m) = (none, refl)

process_leased-Reach :
    (c : Config) (l : ExecutorLease) (ends : ℕ → List FutureEnd) (live : List WorkItem)
    (g : GrinderState) {m : State}
    → Reach c m
    → Reach c (process_leased c l ends live g m).manager
unfolding process_leased
process_leased-Reach c l ends live g {m} r =
    submitted_with-Reach c l live g (submit_batch c l.lease_id ends live m)
      (submit_batch-Reach c l.lease_id ends live r)

process_leased-grinder :
    (c : Config) (l : ExecutorLease) (ends : ℕ → List FutureEnd) (live : List WorkItem)
    (g : GrinderState) (m : State)
    → (refusal : ℕ → Option Exn) × (released : Option Exn) × ((process_leased c l ends live g
          m).grinder
        ≡ batch_acquired refusal released live g)
unfolding process_leased batch_acquired
process_leased-grinder c l ends live g m =
    let (refusal, same) = submit_batch-items c l.lease_id ends live m in
    let (released, e) = submitted_with-grinder c l live g (submit_batch c l.lease_id ends live m) in
    (refusal, released, e ∙ ap (submitted_of live released g) same)

-- What an attempt that gives `r` leaves is a state of the manager.
pub made_by_attempt :
    (c : Config) (q : Request) (ticks started_at : ℕ) (r : Result Attempt) {m n : State}
    → attempt c q ticks started_at m ≡ (r, n)
    → Reach c m
    → Reach c n
made_by_attempt c q ticks started_at r e reach =
    subst (Reach c) (ap (λ (x : Result Attempt × State). x.1) e)
      (next reach (attempts q ticks started_at))

system-refines-step :
    (c : Config) (g : GrinderConfig) {s t : System}
    → Reach c s.manager
    → GrinderReach g s.grinder
    → SystemStep c g s t
    → Reach c t.manager × GrinderReach g t.grinder
system-refines-step c g rm rg (manager_moves step) = (next rm step, rg)
system-refines-step c g rm rg (grinder_moves step own) = (rm, next_step rg step)
system-refines-step c g {s} rm rg (acquire_fails_at_once caller live e m at h) = (
  subst (Reach c) (ap (λ (x : Result (ℕ × ℕ) × State). x.1) h) (next rm (begins caller _)),
  next_step rg (acquire_raises e live at),
)
system-refines-step c g {s} rm rg (acquire_fails started_at live e m at h) =
    (made_by_attempt c _ _ _ _ h rm, next_step rg (acquire_raises e live at))
system-refines-step c g {s} rm rg (leases started_at live l ends m at h) =
    let (refusal, released, same) = process_leased-grinder c l ends live s.grinder m in
    (
      process_leased-Reach c l ends live s.grinder (made_by_attempt c _ _ _ _ h rm),
      subst (GrinderReach g) (sym same) (next_step rg (acquires refusal released live at)),
    )
system-refines-step c g {s} rm rg (results_come results live submitted l at held) = (
  subst (Reach c) (sym (release_lease-manager c l _ s.manager)) (lease_release-Reach c l rm),
  let (released, same) =
        release_lease-grinder c l
          (λ released. batch_gathered results released live submitted s.grinder) s.manager in
      subst (GrinderReach g) (sym same) (next_step rg (gathers results released live submitted at)),
)
system-refines-step c g rm rg (acquire_is_cancelled live at) =
    (rm, next_step rg (acquire_cancelled live at))
system-refines-step c g {s} rm rg (gather_is_cancelled live submitted l at held) = (
  subst (Reach c) (sym (release_lease-manager c l _ s.manager)) (lease_release-Reach c l rm),
  let (released, same) =
        release_lease-grinder c l (λ released. batch_cancelled released live s.grinder) s.manager in
      subst (GrinderReach g) (sym same)
        (next_step rg (gather_cancelled released live submitted at)),
)

-- Whatever a grinder and the manager that it leases from come to together, each comes to by steps of
-- its own.
pub system-refines :
    (c : Config) (g : GrinderConfig) {s : System}
    → SystemReach c g s
    → Reach c s.manager × GrinderReach g s.grinder
system-refines c g set_up = (made, new)
system-refines c g (followed reach step) =
    let (rm, rg) = system-refines c g reach in system-refines-step c g rm rg step
