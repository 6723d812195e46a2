-- ===== src/Manager/Alerting/Calls.antt =====
-- The ends of the methods that free an executor, and release, which tell those who wait for one
-- (src/leasepool/manager.py).
use leasepool.Base.{
  ap, sym, subst, ◌∙◌, ℕ, Bool, true, false, ◌&&◌, Option, none, some, ◌≡◌, refl, inl, inr,
  is_empty, is_none, Bool-cases, Option-cases, if◌then◌else◌,
}
use leasepool.Base.Exec.{Result, pure, ok, raised, Keeps, Keeps-bind, ◌>>=◌, ◌>>◌}
use leasepool.Backends.{Executor}
use leasepool.Manager.Config.{Config}
use leasepool.Manager.State.{
  State, LeaseRecord, Action, on_loop, shutdown_executor_from_callback, shutdown_executor,
  wake_waiters, wake_checker,
}
use leasepool.Manager.Table.{find}
use leasepool.Manager.Pool.{ensure_minimum}
use leasepool.Manager.Leases.{
  shutdown_some, callback_shutdown, wake_if, drop_record, should_keep, append_if, finalize_current,
  finalize_released_record, retire_current, is_current, release, release_idle,
}
use leasepool.Manager.Alerting.{
  Working, Alert, Growing, Gives, Any, Gives-bind, Tells, Tells-bind, Unmoved-Working,
  Unmoved-Alert,
}
use leasepool.Manager.Alerting.Methods

abbrev Flagged : Option Executor × Bool → Type 0
Flagged (o, b) = b ≡ true

abbrev pub Present : Option Executor → Type 0
Present o = is_none o ≡ false

-- A finished release, from the decision on whether the executor is kept.
abbrev from_keep : Config → LeaseRecord → Bool → Action (Option Executor × Bool)
from_keep c r keep = do
  append_if keep r.executor
  ensure_minimum c
  pure (if keep then none else some r.executor, true)

pub shutdown_some-Gives : (o : Option Executor) → Gives Any (shutdown_some o)
unfolding shutdown_executor
shutdown_some-Gives none s = (tt, refl, tt)
shutdown_some-Gives (some e) s = (tt, refl, tt)

on_loop-Gives : (l : Option ℕ) (closed : Bool) (e : Executor) → Gives Any (on_loop l closed e)
on_loop-Gives (some l) false e s = (tt, refl, tt)
on_loop-Gives (some l) true e s = (tt, refl, tt)
on_loop-Gives none closed e s = (tt, refl, tt)

pub callback_shutdown-Gives : (o : Option Executor) → Gives Any (callback_shutdown o)
unfolding shutdown_executor_from_callback
callback_shutdown-Gives none s = (tt, refl, tt)
callback_shutdown-Gives (some e) s = on_loop-Gives s.loop s.loop_closed e s

-- A bind sees of its first part only what that comes to.
pub bind-same :
    {A B : Type 0} (m k : Action A) (f : A → Action B) {s : State}
    → m s ≡ k s
    → (m >>= f) s ≡ (k >>= f) s
bind-same {A} {B} m k f e =
    ap
      (λ (p : Result A × State). elim p.0 as (λ _. Result B × State) [
        | ok a ↦ f a p.1
        | raised x ↦ (raised x, p.1)
      ])
      e

module _ (c : Config) (growing : Growing c) where
  -- The parts of a finished release: they return, and the record is done with.
  from_keep-Gives : (r : LeaseRecord) (b : Bool) → Gives Flagged (from_keep c r b)
  from_keep-Gives r b =
      let last : Action (Option Executor × Bool) =
        pure (if b then none else some r.executor, true) in
      Gives-bind Any Flagged (append_if b r.executor) (λ _. ensure_minimum c >> last)
        (Methods.append_if-Gives b r.executor)
        (λ _ _.
          Gives-bind Any Flagged (ensure_minimum c) (λ _. last) (Methods.ensure-Gives c growing)
            (λ _ _ s. (_, refl, refl)))

  finalize-Gives : (k : ℕ) (r : LeaseRecord) → Gives Flagged (finalize_current c k r)
  finalize-Gives k r s =
      Gives-bind Any Flagged (should_keep c r) (from_keep c r)
        (Methods.should_keep-Gives c growing r) (λ b _. from_keep-Gives r b) (drop_record k s).1

  pub retire-Gives : (k : ℕ) (r : LeaseRecord) → Gives Present (retire_current c k r)
  retire-Gives k r s =
      Gives-bind Any Present (ensure_minimum c) (λ _ t. (ok (some r.executor), t))
        (Methods.ensure-Gives c growing) (λ _ _ t. (_, refl, refl)) _

module _ {available scale loop : ℕ} (c : Config) where
  from_keep-Working :
      (r : LeaseRecord) (b : Bool) → Keeps (Working available scale loop) (from_keep c r b)
  from_keep-Working r b =
      let last : Action (Option Executor × Bool) =
        pure (if b then none else some r.executor, true) in
      Keeps-bind (Working available scale loop) (append_if b r.executor)
        (λ _. ensure_minimum c >> last) (Methods.append_if-Working b r.executor)
        (λ _.
          Keeps-bind (Working available scale loop) (ensure_minimum c) (λ _. last)
            (Methods.ensure-Working c) (λ _ t v. v))

  finalize-Working :
      (k : ℕ) (r : LeaseRecord) → Keeps (Working available scale loop) (finalize_current c k r)
  finalize-Working k r s w =
      Keeps-bind (Working available scale loop) (should_keep c r) (from_keep c r)
        (Methods.should_keep-Working c r) (from_keep-Working r) (drop_record k s).1
        (Methods.drop-Working k s w)

  pub retire-Working :
      (k : ℕ) (r : LeaseRecord) → Keeps (Working available scale loop) (retire_current c k r)
  retire-Working k r s w =
      Keeps-bind (Working available scale loop) (ensure_minimum c)
        (λ _ t. (ok (some r.executor), t)) (Methods.ensure-Working c) (λ _ t v. v) _
        (Unmoved-Working (refl, refl, refl, refl, refl, refl, refl) w)

module _ {available scale loop : ℕ} (c : Config) (growing : Growing c) where
  -- The end of a method that has an executor to shut down or to give back.
  pub ends_told :
      (m : Action (Unit {0}))
      → Gives Any m
      → Keeps (Working available scale loop) m
      → Tells available scale loop (m >> (wake_waiters >> wake_checker))
  ends_told m gm km =
      Tells-bind available scale loop Any m (λ _. wake_waiters >> wake_checker) gm km
        (λ _ _. Methods.wake-Tells)

  -- A finished release as a whole; `ending` shuts the executor down.
  pub finalized-Alert :
      (k : ℕ) (r : LeaseRecord) (ending : Option Executor → Action (Unit {0}))
      → ((o : Option Executor) → Gives Any (ending o))
      → ((o : Option Executor) → Keeps (Working available scale loop) (ending o))
      → (ending none >> wake_if false ≡ pure tt)
      → Keeps
          (Alert available scale loop)
          (finalize_released_record c k r >>= λ (o, b). ending o >> wake_if b)
  unfolding finalize_released_record
  finalized-Alert k r ending gives keeps idle s a =
      let rest : Option Executor × Bool → Action (Unit {0}) = λ (o, b). ending o >> wake_if b in
      elim (Bool-cases
        (is_current (find k s.leased) r && r.release_requested && is_empty r.pending_futures)) [
          | inl current ↦
              subst (λ p. Alert available scale loop p.1)
                (sym (
                  bind-same (finalize_released_record c k r) (finalize_current c k r) rest
                    (rw current refl)))
                (Tells-bind available scale loop Flagged (finalize_current c k r) rest
                  (finalize-Gives c growing k r) (finalize-Working c k r)
                  (λ (o, b) flag. rw flag (ends_told (ending o) (gives o) (keeps o))) s a.working)
          | inr other ↦
              subst (λ p. Alert available scale loop p.1)
                (sym (
                  bind-same (finalize_released_record c k r) (pure (none, false)) rest
                    (rw other refl)
                  ∙ ap (λ m. m s) idle))
                a
        ]

  release_idle-Alert :
      (k : ℕ) (r : LeaseRecord) → Keeps (Alert available scale loop) (release_idle c k r)
  release_idle-Alert k r s a = elim (Bool-cases (is_empty r.pending_futures)) [
    | inr busy ↦ rw busy a
    | inl idle ↦ rw idle (
        finalized-Alert k r shutdown_some shutdown_some-Gives Methods.shutdown_some-Working refl s
          a)
  ]

  pub release-Alert : (k : ℕ) → Keeps (Alert available scale loop) (release c k)
  unfolding release
  release-Alert k s a = elim (Option-cases (find k s.leased)) [
    | inl e ↦ rw e a
    | inr (r, e) ↦ rw e (
        release_idle-Alert k (record r { release_requested = true }) _
          (Unmoved-Alert (refl, refl, refl, refl, refl, refl, refl) refl a))
  ]
