-- ===== src/Manager/Alerting/Submissions.antt =====
-- _submit_for_lease and _on_lease_future_done leave no executor idle without telling those who
-- wait for one (src/leasepool/manager.py).
use leasepool.Base.{
  ◌+◌, add_member, sym, subst, ℕ, Bool, true, false, not, ◌&&◌, Option, none, some, refl, arith,
  inl, inr, is_empty, is_none, leb, discard, Bool-cases, Option-cases, if◌then◌else◌,
}
use leasepool.Base.Exec.{
  pure, raise_if, Exn, pure, raise, lease_expired, Keeps, Keeps-bind, ◌>>=◌, ◌>>◌,
}
use leasepool.Backends.{Executor}
use leasepool.Manager.Config.{Config, Submission, accepted, broken, refused}
use leasepool.Manager.State.{
  LeaseRecord, Action, monotonic, shutdown_executor, hard_expires_at, wake_waiters, wake_checker,
}
use leasepool.Manager.Table.{find, update}
use leasepool.Manager.Pool.{ensure_minimum}
use leasepool.Manager.Leases.{
  callback_shutdown, wake_if, drop_record, retire_current, retire_broken_record, is_current,
  conclude, submitted, revoke_late, submit_in_time, submit_active, submit_for_lease, settle,
  on_lease_future_done, FutureOutcome, add_done_callback, broken_exception_from_future,
}
use leasepool.Manager.Alerting.{Alert, Growing, Any, Tells, Tells-bind, Tells-then, Unmoved-Alert}
use leasepool.Manager.Alerting.Methods
use leasepool.Manager.Alerting.Calls.{
  Present, shutdown_some-Gives, callback_shutdown-Gives, bind-same, retire-Gives, retire-Working,
  ends_told, finalized-Alert,
}

module _ {available scale loop : ℕ} (c : Config) (growing : Growing c) where
  -- A submission that ends its lease: the executor is shut down.
  conclude-Tells : (x : Executor) (e : Exn) → Tells available scale loop (conclude (some x) e)
  conclude-Tells x e =
      Tells-bind available scale loop Any (shutdown_executor x)
        (λ _. wake_waiters >> (wake_checker >> raise e)) (shutdown_some-Gives (some x))
        (Methods.shutdown-Working x)
        (λ _ _.
          Tells-then available scale loop wake_waiters (λ _. wake_checker >> raise e)
            Methods.wake_waiters-Tells
            (λ _ s a.
              Tells-then available scale loop wake_checker (λ _. raise e) Methods.wake_checker-Tells
                (λ _ t b. b) s a.working))

  revoke_late-Tells : (k : ℕ) (r : LeaseRecord) → Tells available scale loop (revoke_late c k r)
  revoke_late-Tells k r s w =
      Tells-bind available scale loop Any (ensure_minimum c)
        (λ _. conclude (some r.executor) lease_expired) (Methods.ensure-Gives c growing)
        (Methods.ensure-Working c) (λ _ _. conclude-Tells r.executor lease_expired)
        (drop_record k s).1 (Methods.drop-Working k s w)

  -- A broken executor is retired; `ending` is what is done with it.
  retired-Alert :
      {B : Type 0} (k : ℕ) (r : LeaseRecord) (ending : Option Executor → Action B)
      → ((o : Option Executor) → Present o → Tells available scale loop (ending o))
      → Keeps (Alert available scale loop) (ending none)
      → Keeps (Alert available scale loop) (retire_broken_record c k r >>= ending)
  unfolding retire_broken_record
  retired-Alert k r ending tells idle s a = elim (Bool-cases (is_current (find k s.leased) r)) [
    | inl current ↦
        subst (λ p. Alert available scale loop p.1)
          (sym (
            bind-same (retire_broken_record c k r) (retire_current c k r) ending (rw current refl)))
          (Tells-bind available scale loop Present (retire_current c k r) ending
            (retire-Gives c growing k r) (retire-Working c k r) tells s a.working)
    | inr other ↦
        subst (λ p. Alert available scale loop p.1)
          (sym (bind-same (retire_broken_record c k r) (pure none) ending (rw other refl)))
          (idle s a)
  ]

  conclude_if-Tells :
      (e : Exn) (o : Option Executor) → Present o → Tells available scale loop (conclude o e)
  conclude_if-Tells e none there = absurd (ground arith)
  conclude_if-Tells e (some x) there = conclude-Tells x e

  retired_told :
      (o : Option Executor)
      → Present o
      → Tells available scale loop (callback_shutdown o >> wake_if (not (is_none o)))
  retired_told none there = absurd (ground arith)
  retired_told (some x) there =
      ends_told c growing (callback_shutdown (some x)) (callback_shutdown-Gives (some x))
        (Methods.callback_shutdown-Working (some x))

  settle-Alert :
      (k : ℕ) (r : LeaseRecord) (o : Option Exn)
      → Keeps (Alert available scale loop) (settle c k r o)
  settle-Alert k r (some e) s a =
      retired-Alert k r (λ o. callback_shutdown o >> wake_if (not (is_none o))) retired_told
        (λ t b. b) s a
  settle-Alert k r none s a =
      elim (Bool-cases (r.release_requested && is_empty r.pending_futures)) [
        | inl over ↦ rw over (
            finalized-Alert c growing k r callback_shutdown callback_shutdown-Gives
              Methods.callback_shutdown-Working refl s a)
        | inr going ↦ rw going a
      ]

  pub future_done-Alert :
      (k future : ℕ) (o : FutureOutcome)
      → Keeps (Alert available scale loop) (on_lease_future_done c k future o)
  unfolding on_lease_future_done
  future_done-Alert k future o s a = elim (Option-cases (find k s.leased)) [
    | inl e ↦ rw e a
    | inr (r, e) ↦ rw e (
        settle-Alert k (record r { pending_futures = discard future r.pending_futures })
          (broken_exception_from_future o) _
          (Unmoved-Alert (refl, refl, refl, refl, refl, refl, refl) refl a))
  ]

  add_callback-Alert :
      (k future : ℕ) (o : Option FutureOutcome)
      → Keeps (Alert available scale loop) (add_done_callback c k future o)
  add_callback-Alert k future none s a = a
  add_callback-Alert k future (some o) s a = future_done-Alert k future o s a

  submitted-Alert :
      (k : ℕ) (r : LeaseRecord) (o : Submission)
      → Keeps (Alert available scale loop) (submitted c k r o)
  submitted-Alert k r (accepted f o) s a =
      Keeps-bind (Alert available scale loop) (add_done_callback c k f o) (λ _. pure f)
        (add_callback-Alert k f o) (λ _ u b. b)
        (record s {
          leased =
              update k (λ x. record x { pending_futures = add_member f x.pending_futures })
                s.leased;
        })
        (Unmoved-Alert (refl, refl, refl, refl, refl, refl, refl) refl a)
  submitted-Alert k r (broken e) s a =
      retired-Alert k r (λ o. conclude o e) (conclude_if-Tells e) (λ t b. b) s a
  submitted-Alert k r (refused e) s a = a

  in_time-Alert :
      (k : ℕ) (r : LeaseRecord) → Keeps (Alert available scale loop) (submit_in_time c k r)
  in_time-Alert k r s a =
      submitted-Alert k r (c.submit s.reads) (record s { reads = s.reads + 1 })
        (Unmoved-Alert (refl, refl, refl, refl, refl, refl, refl) refl a)

  late_or_not :
      (k : ℕ) (r : LeaseRecord) (late : Bool)
      → Keeps
          (Alert available scale loop)
          (if late then revoke_late c k r else submit_in_time c k r)
  late_or_not k r true s a = revoke_late-Tells k r s a.working
  late_or_not k r false s a = in_time-Alert k r s a

  active-Alert :
      (k : ℕ) (r : LeaseRecord) → Keeps (Alert available scale loop) (submit_active c k r)
  active-Alert k r =
      let submits : ℕ → Action ℕ =
        λ now. if leb (hard_expires_at r) now then revoke_late c k r else submit_in_time c k r in
      Keeps-bind (Alert available scale loop) (monotonic c)
        (λ now. raise_if r.release_requested lease_expired >> submits now)
        (Methods.monotonic-Alert c)
        (λ now.
          Keeps-bind (Alert available scale loop) (raise_if r.release_requested lease_expired)
            (λ _. submits now) (λ s a. a) (λ _. late_or_not k r (leb (hard_expires_at r) now)))

  pub submit-Alert : (k : ℕ) → Keeps (Alert available scale loop) (submit_for_lease c k)
  unfolding submit_for_lease
  submit-Alert k s a = elim (Option-cases (find k s.leased)) [
    | inl e ↦ rw e a
    | inr (r, e) ↦ rw e (active-Alert k r s a)
  ]
