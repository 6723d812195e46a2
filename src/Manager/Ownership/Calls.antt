-- ===== src/Manager/Ownership/Calls.antt =====
-- Calls on a manager that is not started (src/leasepool/manager.py).
use leasepool.Base.{ℕ, Option, none, ◌≡◌, refl, ap, subst, sym}
use leasepool.Base.Exec.{not_started, ok, raised}
use leasepool.Manager.Config.{Config}
use leasepool.Manager.State.{State}
use leasepool.Manager.Table.{find}
use leasepool.Manager.Leases.{release, submit_for_lease, on_lease_future_done, FutureOutcome}
use leasepool.Manager.Acquire.{Request, acquire_begin, attempt, try_acquire, after_try}
use leasepool.Manager.Lifecycle.{stop_begin}
use leasepool.Manager.Ownership.{Free}

-- Calls on a manager that owns nothing.
module _ (c : Config) (s : State) (f : Free s) where
  no_lease : (k : ℕ) → find k s.leased ≡ none
  unfolding find
  no_lease k = rw f.none_lent refl

  pub stop-Free : (caller : Option ℕ) → Free (stop_begin caller s).1
  unfolding stop_begin
  stop-Free caller = simp f.at_rest.down f

  pub begin-Free : (caller : Option ℕ) (q : Request) → Free (acquire_begin c caller q s).1
  unfolding acquire_begin
  begin-Free caller q = simp f.at_rest.down f

  closed : (q : Request) (ticks : ℕ) → try_acquire c q ticks s ≡ (raised not_started, s)
  unfolding try_acquire
  closed q ticks = simp f.at_rest.down refl

  pub attempt-Free : (q : Request) (ticks started_at : ℕ) → Free (attempt c q ticks started_at s).1
  unfolding attempt
  attempt-Free q ticks started_at =
      let same : attempt c q ticks started_at s ≡ (raised not_started, s) =
        ap (λ (r, u). elim r [ ok o ↦ after_try c q started_at o u | raised x ↦ (raised x, u) ])
          (closed q ticks) in
      subst (λ p. Free p.1) (sym same) f

  pub release-Free : (k : ℕ) → Free (release c k s).1
  unfolding release
  release-Free k = rw (no_lease k) f

  pub submit-Free : (k : ℕ) → Free (submit_for_lease c k s).1
  unfolding submit_for_lease
  submit-Free k = rw (no_lease k) f

  pub future_done-Free :
      (k future : ℕ) (o : FutureOutcome) → Free (on_lease_future_done c k future o s).1
  unfolding on_lease_future_done
  future_done-Free k future o = rw (no_lease k) f
