-- ===== src/System/Held.antt =====
-- The lease of a batch (src/leasepool/grinder.py, _process_batch): when the grinder holds it, and what
-- its manager does with it afterwards.
use leasepool.Base.{
  ℕ, Bool, true, false, not, Bool-cases, Option, none, some, List, [], ◌∷◌, ◌≡◌, refl, arith, sym,
  ap, ◌∙◌,
}
use leasepool.Base.Exec.{Exn, ok}
use leasepool.Manager.Config.{Config}
use leasepool.Manager.State.{State}
use leasepool.Manager.Acquire.{Request, ExecutorLease, attempt, leased}
use leasepool.Manager.Acquiring.{attempt-Granted}
use leasepool.Manager.Handle.{lease_release}
use leasepool.Grinder.State.{WorkItem, GrinderConfig, GrinderState}
use leasepool.Grinder.Batch.{
  submitted_of, acquire_failed, after_batch, refuse, batch_gathered, batch_cancelled,
}
use leasepool.Grinder.Idle.{
  is_gathering, own-gathering, after_release-Idle, after_batch-Idle, batch_gathered-Idle,
  batch_cancelled-Idle, acquire_failed-Idle,
}
use leasepool.Grinder.Delivery.{reach-Sound}
use leasepool.System.{
  System, submit_batch, release_lease, process_leased, submitted_with, Submissions, SystemStep,
  manager_moves, grinder_moves, acquire_fails_at_once, acquire_fails, leases, results_come,
  acquire_is_cancelled, gather_is_cancelled, SystemReach, set_up, followed,
}
use leasepool.System.Refining.{system-refines}

-- Whether there is a lease that is not released.
abbrev pub holds : Option ExecutorLease → Bool
holds none = false
holds (some l) = not l.released

-- The lease of the latest batch is unreleased exactly while the loop waits for results.
abbrev pub Held : System → Type 0
Held s = is_gathering s.grinder.phase ≡ holds s.lease

pub unreleased :
    (s : System) {l : ExecutorLease}
    → Held s
    → is_gathering s.grinder.phase ≡ true
    → s.lease ≡ some l
    → l.released ≡ false
unreleased s h busy has = ground (arith, h, busy, has)

-- An attempt gives a lease that is not released.
pub leased-unreleased :
    (c : Config) (q : Request) (ticks started_at : ℕ) (s t : State) {l : ExecutorLease}
    → attempt c q ticks started_at s ≡ (ok (leased l), t)
    → l.released ≡ false
leased-unreleased c q ticks started_at s t h =
    let (_, _, g) = attempt-Granted c q ticks started_at s t h in g.fresh.0

-- The handle that a release leaves behind is released, whatever the manager's release raises.
lease_release-released :
    (c : Config) (l : ExecutorLease) (m : State) → (lease_release c (l, m)).1.0.released ≡ true
unfolding lease_release
lease_release-released c l m = ground (arith, Bool-cases l.released)

release_lease-Held :
    (c : Config) (l : ExecutorLease) (next : Option Exn → GrinderState) (m : State)
    → ((released : Option Exn) → is_gathering (next released).phase ≡ false)
    → Held (release_lease c l next m)
unfolding release_lease
release_lease-Held c l next m idle = idle _ ∙ sym (ap not (lease_release-released c l m))

submitted_with-Held :
    (c : Config) (l : ExecutorLease) (live : List WorkItem) (g : GrinderState) (x : Submissions)
    → l.released ≡ false
    → Held (submitted_with c l live g x)
submitted_with-Held c l live g (([], left, e), m) fresh =
    release_lease-Held c l (λ released. submitted_of live released g ([], left, e)) m
      (λ released. after_release-Idle after_batch after_batch-Idle released (refuse left e g))
submitted_with-Held c l live g ((y ∷ taken, left, e), m) fresh = sym (ap not fresh)

-- Nothing is held outside of a batch.
idle-Held :
    (s : System) (g : GrinderState) (m : State)
    → Held s
    → is_gathering s.grinder.phase ≡ false
    → is_gathering g.phase ≡ false
    → Held (record s { grinder = g; manager = m })
idle-Held s g m h before after = after ∙ sym before ∙ h

step-Held :
    (c : Config) (g : GrinderConfig) {s t : System}
    → SystemReach c g s
    → Held s
    → SystemStep c g s t
    → Held t
unfolding process_leased
step-Held c g reach h (manager_moves step) = h
step-Held c g reach h (grinder_moves step own) =
    own-gathering g (reach-Sound g (system-refines c g reach).1) step own ∙ h
step-Held c g {s} reach h (acquire_fails_at_once caller live e m at _) =
    idle-Held s (acquire_failed e live s.grinder) m h (ap is_gathering at)
      (acquire_failed-Idle e live s.grinder)
step-Held c g {s} reach h (acquire_fails started_at live e m at _) =
    idle-Held s (acquire_failed e live s.grinder) m h (ap is_gathering at)
      (acquire_failed-Idle e live s.grinder)
step-Held c g {s} reach h (leases started_at live l ends m at gives) =
    submitted_with-Held c l live s.grinder (submit_batch c l.lease_id ends live m)
      (leased-unreleased c _ _ started_at s.manager m gives)
step-Held c g {s} reach h (results_come results live submitted l at held) =
    release_lease-Held c l (λ released. batch_gathered results released live submitted s.grinder)
      s.manager (λ released. batch_gathered-Idle results released live submitted s.grinder)
step-Held c g {s} reach h (acquire_is_cancelled live at) =
    idle-Held s (batch_cancelled none live s.grinder) s.manager h (ap is_gathering at)
      (batch_cancelled-Idle none live s.grinder)
step-Held c g {s} reach h (gather_is_cancelled live submitted l at held) =
    release_lease-Held c l (λ released. batch_cancelled released live s.grinder) s.manager
      (λ released. batch_cancelled-Idle released live s.grinder)

-- In every state of a grinder over its manager, the lease of its latest batch is there and not
-- released exactly while its loop waits for the results of that batch: each end of a batch has
-- released it.
pub system-Held :
    (c : Config) (g : GrinderConfig) {s : System}
    → SystemReach c g s
    → is_gathering s.grinder.phase ≡ holds s.lease
system-Held c g set_up = refl
system-Held c g (followed reach step) = step-Held c g reach (system-Held c g reach) step
