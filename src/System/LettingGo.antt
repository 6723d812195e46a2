-- ===== src/System/LettingGo.antt =====
-- The end of a batch's lease (src/leasepool/grinder.py, the `finally` of _process_batch).
use leasepool.Base.{
  ℕ, ◌≤◌, ◌≢◌, true, false, ap, Option, none, some, List, [], ◌∷◌, ◌≡◌, arith, subst,
}
use leasepool.Base.Exec.{Exn, raised, lease_expired}
use leasepool.Manager.Config.{Config}
use leasepool.Manager.State.{State}
use leasepool.Manager.Leases.{submit_for_lease}
use leasepool.Manager.Acquire.{ExecutorLease}
use leasepool.Manager.Handle.{lease_release}
use leasepool.Manager.LeaseUse.{Shut, release-Shut}
use leasepool.Manager.Expired.{Later-refuses}
use leasepool.Manager.Writes.Steps.{Later}
use leasepool.Manager.Steps.{Reach}
use leasepool.Grinder.State.{WorkItem, GrinderConfig, GrinderState}
use leasepool.Grinder.Idle.{is_gathering}
use leasepool.Grinder.Batch.{batch_gathered, batch_cancelled}
use leasepool.System.{
  System, submit_batch, release_lease, process_leased, submitted_with, Submissions, SystemStep,
  manager_moves, grinder_moves, acquire_fails_at_once, acquire_fails, leases, results_come,
  acquire_is_cancelled, gather_is_cancelled, SystemReach, followed,
}
use leasepool.System.Refining.{system-refines, submit_batch-Reach, made_by_attempt}
use leasepool.System.Held.{system-Held, unreleased, leased-unreleased}

-- The manager has no lease `l` but a released one.
abbrev pub Closed : ExecutorLease → State → Type 0
Closed l m = Shut l.lease_id m

-- The lease of the batch that a step ends or has a lease for.
abbrev pub lease_in :
    {c : Config} {g : GrinderConfig} {s t : System} → SystemStep c g s t → Option ExecutorLease
lease_in (leases started_at live l ends m at gives) = some l
lease_in (results_come results live submitted l at held) = some l
lease_in (gather_is_cancelled live submitted l at held) = some l
lease_in _ = none

release_lease-Closed :
    (c : Config) (l : ExecutorLease) (next : Option Exn → GrinderState) (m : State)
    → l.released ≡ false
    → Reach c m
    → Closed l (release_lease c l next m).manager
unfolding release_lease lease_release
release_lease-Closed c l next m fresh reach = rw fresh (release-Shut c l.lease_id reach)

submitted_with-Closed :
    (c : Config) (l : ExecutorLease) (live : List WorkItem) (g : GrinderState) (x : Submissions)
    → l.released ≡ false
    → Reach c x.1
    → is_gathering (submitted_with c l live g x).grinder.phase ≡ false
    → Closed l (submitted_with c l live g x).manager
submitted_with-Closed c l live g (([], left, e), m) fresh reach over =
    release_lease-Closed c l _ m fresh reach
submitted_with-Closed c l live g ((y ∷ taken, left, e), m) fresh reach over = absurd (ground arith)

-- The release of the lease that the grinder has.
release_of_held :
    (c : Config) (g : GrinderConfig) {s : System} (l : ExecutorLease)
    (next : Option Exn → GrinderState)
    → SystemReach c g s
    → is_gathering s.grinder.phase ≡ true
    → s.lease ≡ some l
    → Closed l (release_lease c l next s.manager).manager
release_of_held c g {s} l next reach busy has =
    release_lease-Closed c l next s.manager (unreleased s (system-Held c g reach) busy has)
      (system-refines c g reach).0

-- The step that ends a batch closes its lease.
batch-Closed :
    (c : Config) (g : GrinderConfig) {s t : System} (l : ExecutorLease)
    → SystemReach c g s
    → (step : SystemStep c g s t) → lease_in step ≡ some l
    → is_gathering t.grinder.phase ≡ false
    → Closed l t.manager
unfolding process_leased
batch-Closed c g {s} l reach (leases started_at live k ends m at gives) held over =
    let same : k ≡ l = ground (arith, held) in
    let made = made_by_attempt c _ _ started_at _ gives (system-refines c g reach).0 in
    subst (λ j. Closed j (process_leased c k ends live s.grinder m).manager) same
      (submitted_with-Closed c k live s.grinder (submit_batch c k.lease_id ends live m)
        (leased-unreleased c _ _ started_at s.manager m gives)
        (submit_batch-Reach c k.lease_id ends live made) over)
batch-Closed c g {s} l reach (results_come results live submitted k at has) held over =
    let next : Option Exn → GrinderState =
      λ released. batch_gathered results released live submitted s.grinder in
    let same : k ≡ l = ground (arith, held) in
    subst (λ j. Closed j (release_lease c k next s.manager).manager) same
      (release_of_held c g k next reach (ap is_gathering at) has)
batch-Closed c g {s} l reach (gather_is_cancelled live submitted k at has) held over =
    let next : Option Exn → GrinderState = λ released. batch_cancelled released live s.grinder in
    let same : k ≡ l = ground (arith, held) in
    subst (λ j. Closed j (release_lease c k next s.manager).manager) same
      (release_of_held c g k next reach (ap is_gathering at) has)
batch-Closed c g l reach (manager_moves step) held over = absurd (ground (arith, held))
batch-Closed c g l reach (grinder_moves step own) held over = absurd (ground (arith, held))
batch-Closed c g l reach (acquire_fails_at_once caller live e m at fails) held over =
    absurd (ground (arith, held))
batch-Closed c g l reach (acquire_fails started_at live e m at fails) held over =
    absurd (ground (arith, held))
batch-Closed c g l reach (acquire_is_cancelled live at) held over = absurd (ground (arith, held))

-- However a batch ends, be it that its results come, that it is cancelled while it waits for them, or
-- that no call could be submitted, its lease is given back: whatever the release returns or raises,
-- from the step on that ends the batch, in every state that the manager comes to later, while no new
-- lease gets the same id, a submission through the lease raises LeaseExpiredError.
pub batch-gives_back :
    (c : Config) (g : GrinderConfig) {s t : System} (l : ExecutorLease) {later : State}
    → SystemReach c g s
    → (step : SystemStep c g s t) → lease_in step ≡ some l
    → is_gathering t.grinder.phase ≡ false
    → ((n : ℕ) → t.manager.reads ≤ n → c.uuid n ≢ l.lease_id)
    → Later c t.manager later
    → (submit_for_lease c l.lease_id later).0 ≡ raised lease_expired
batch-gives_back c g l reach step held over new after_ =
    Later-refuses c l.lease_id (system-refines c g (followed reach step)).0
      (batch-Closed c g l reach step held over) new after_
