-- ===== src/Manager/Writes/Calls.antt =====
-- The calls of tasks, callbacks and the checker are made of single writes
-- (src/leasepool/manager.py).
use leasepool.Base.{
  arith, ℕ, ◌+◌, refl, Bool, true, not, ◌&&◌, is_empty, is_none, Option, none, some, inl, inr,
  Bool-cases, Option-cases, leb, add_member, discard,
}
use leasepool.Base.Exec.{pure, Exn, raise, modify, ◌>>◌, lease_expired}
use leasepool.Backends.{Executor}
use leasepool.Manager.Config.{Config, Submission, accepted, broken, refused}
use leasepool.Manager.State.{
  State, Action, LeaseRecord, monotonic, shutdown_executor, wake_waiters, wake_checker,
  hard_expires_at,
}
use leasepool.Manager.Table.{find, update}
use leasepool.Manager.Pool.{ensure_minimum}
use leasepool.Manager.Leases.{
  drop_record, retire_broken_record, finalize_released_record, release, release_idle, conclude,
  submitted, revoke_late, submit_for_lease, FutureOutcome, add_done_callback,
  broken_exception_from_future, settle, on_lease_future_done, shutdown_some, callback_shutdown,
  wake_if,
}
use leasepool.Manager.Writes
use leasepool.Manager.Writes.{Mild, Writes, done, Writing, Writing-bind, Writing-then}
use leasepool.Manager.Writes.Methods

asks_release : Mild (λ r. record r { release_requested = true })
asks_release = record {
  lease_id = λ r. refl;
  ref = λ r. refl;
  executor = λ r. refl;
  leased_at = λ r. refl;
  lease_seconds = λ r. refl;
  grace_seconds = λ r. refl;
  released = λ r h. refl;
}

adds_future : (f : ℕ) → Mild (λ r. record r { pending_futures = add_member f r.pending_futures })
adds_future f = record {
  lease_id = λ r. refl;
  ref = λ r. refl;
  executor = λ r. refl;
  leased_at = λ r. refl;
  lease_seconds = λ r. refl;
  grace_seconds = λ r. refl;
  released = λ r h. h;
}

drops_future : (f : ℕ) → Mild (λ r. record r { pending_futures = discard f r.pending_futures })
drops_future f = record {
  lease_id = λ r. refl;
  ref = λ r. refl;
  executor = λ r. refl;
  leased_at = λ r. refl;
  lease_seconds = λ r. refl;
  grace_seconds = λ r. refl;
  released = λ r h. h;
}

module _ (c : Config) where
  release_idle-Writing :
      {uuid : ℕ → ℕ} {calm : Bool}
      → (k : ℕ) (r : LeaseRecord) → Writing uuid calm (release_idle c k r)
  release_idle-Writing k r s = elim (Bool-cases (is_empty r.pending_futures)) [
    | inr busy ↦ rw busy done
    | inl idle ↦
        let rest : Option Executor × Bool → Action (Unit {0}) =
          λ (o, b). shutdown_some o >> wake_if b in
        rw idle (
          Writing-bind (finalize_released_record c k r) rest (Methods.finalize-Writing c k r)
            (λ (o, b).
              Writing-then (shutdown_some o) (wake_if b) (Methods.shutdown_some-Writing o)
                (Methods.wake_if-Writing b))
            s)
  ]

  pub release-Writing : {uuid : ℕ → ℕ} {calm : Bool} → (k : ℕ) → Writing uuid calm (release c k)
  unfolding release
  release-Writing k s = elim (Option-cases (find k s.leased)) [
    | inl e ↦ rw e done
    | inr (r, e) ↦
        let mark : Action (Unit {0}) = modify λ t. record t {
          leased = update k (λ x. record x { release_requested = true }) t.leased;
        } in
        let r' = record r { release_requested = true } in
        rw e (
          Writing-then mark (release_idle c k r')
            (λ t. Writes.one-Write (Writes.updates k _ asks_release refl))
            (release_idle-Writing k r') s)
  ]

  settle-Writing :
      {uuid : ℕ → ℕ} {calm : Bool}
      → (k : ℕ) (r : LeaseRecord) (o : Option Exn) → Writing uuid calm (settle c k r o)
  settle-Writing k r (some e) s =
      Writing-bind (retire_broken_record c k r)
        (λ x. callback_shutdown x >> wake_if (not (is_none x))) (Methods.retire-Writing c k r)
        (λ x.
          Writing-then (callback_shutdown x) (wake_if (not (is_none x)))
            (Methods.callback_shutdown-Writing x) (Methods.wake_if-Writing (not (is_none x))))
        s
  settle-Writing k r none s =
      elim (Bool-cases (r.release_requested && is_empty r.pending_futures)) [
        | inr still ↦ rw still done
        | inl all ↦
            let rest : Option Executor × Bool → Action (Unit {0}) =
              λ (o, b). callback_shutdown o >> wake_if b in
            rw all (
              Writing-bind (finalize_released_record c k r) rest (Methods.finalize-Writing c k r)
                (λ (o, b).
                  Writing-then (callback_shutdown o) (wake_if b)
                    (Methods.callback_shutdown-Writing o) (Methods.wake_if-Writing b))
                s)
      ]

  pub future_done-Writing :
      {uuid : ℕ → ℕ} {calm : Bool}
      → (k f : ℕ) (o : FutureOutcome) → Writing uuid calm (on_lease_future_done c k f o)
  unfolding on_lease_future_done
  future_done-Writing k f o s = elim (Option-cases (find k s.leased)) [
    | inl e ↦ rw e done
    | inr (r, e) ↦
        let mark : Action (Unit {0}) = modify λ t. record t {
          leased =
              update k (λ x. record x { pending_futures = discard f x.pending_futures }) t.leased;
        } in
        let r' = record r { pending_futures = discard f r.pending_futures } in
        let b = broken_exception_from_future o in
        rw e (
          Writing-then mark (settle c k r' b)
            (λ t. Writes.one-Write (Writes.updates k _ (drops_future f) refl))
            (settle-Writing k r' b) s)
  ]

  add_callback-Writing :
      {uuid : ℕ → ℕ} {calm : Bool}
      → (k future : ℕ) (o : Option FutureOutcome)
      → Writing uuid calm (add_done_callback c k future o)
  add_callback-Writing k future none s = done
  add_callback-Writing k future (some o) s = future_done-Writing k future o s

  conclude-Writing :
      {uuid : ℕ → ℕ} {calm : Bool}
      → (o : Option Executor) (e : Exn) → Writing {A = ℕ} uuid calm (conclude o e)
  conclude-Writing none e s = done
  conclude-Writing (some x) e s =
      Writing-then (shutdown_executor x) (wake_waiters >> (wake_checker >> raise e))
        (Methods.shutdown-Writing x)
        (Writing-then wake_waiters (wake_checker >> raise e) Methods.wake_waiters-Writing
          (Writing-then wake_checker (raise e) Methods.wake_checker-Writing (λ t. done)))
        s

  revoke_late-Writing :
      {uuid : ℕ → ℕ} {calm : Bool}
      → (k : ℕ) (r : LeaseRecord) → Writing uuid calm (revoke_late c k r)
  revoke_late-Writing k r =
      Writing-then (drop_record k) (ensure_minimum c >> conclude (some r.executor) lease_expired)
        (Methods.drop-Writing k)
        (Writing-then (ensure_minimum c) (conclude (some r.executor) lease_expired)
          (Methods.ensure-Writing c) (conclude-Writing (some r.executor) lease_expired))

  submitted-Writing :
      {uuid : ℕ → ℕ} {calm : Bool}
      → (k : ℕ) (r : LeaseRecord) (o : Submission) → Writing uuid calm (submitted c k r o)
  submitted-Writing k r (accepted f o) s =
      Writes.Writes-trans (Writes.one-Write (Writes.updates k _ (adds_future f) refl)) (
        Writing-then (add_done_callback c k f o) (pure f) (add_callback-Writing k f o) (λ u. done)
          _)
  submitted-Writing k r (broken e) s =
      Writing-bind (retire_broken_record c k r) (λ x. conclude x e) (Methods.retire-Writing c k r)
        (λ x. conclude-Writing x e) s
  submitted-Writing k r (refused e) s = done

  pub submit-Writing :
      {uuid : ℕ → ℕ} {calm : Bool} → (k : ℕ) → Writing uuid calm (submit_for_lease c k)
  unfolding submit_for_lease monotonic
  submit-Writing k s = elim (Option-cases (find k s.leased)) [
    | inl e ↦ rw e done
    | inr (r, e) ↦ elim (Bool-cases r.release_requested) [
      | inl draining ↦
          rw (e, draining) (Methods.quiet (omega arith) refl refl refl refl refl (λ _ h. h) refl)
      | inr active ↦ elim (Bool-cases (leb (hard_expires_at r) (c.clock s.reads))) [
        | inl late ↦
            let t : State = record s { reads = s.reads + 1 } in
            simp (e, active, late)
              (Writes.Writes-trans
                (Methods.quiet {s = s} {t = t} (omega arith) refl refl refl refl refl (λ _ h. h)
                  refl)
                (revoke_late-Writing k r t))
        | inr early ↦
            let t : State = record s { reads = s.reads + 1 + 1 } in
            simp (e, active, early)
              (Writes.Writes-trans
                (Methods.quiet {s = s} {t = t} (omega arith) refl refl refl refl refl (λ _ h. h)
                  refl)
                (submitted-Writing k r (c.submit (s.reads + 1)) t))
      ]
    ]
  ]
