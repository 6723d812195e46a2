-- ===== src/Manager/Alerting/Steps.antt =====
-- A caller of acquire (src/leasepool/manager.py) does not sleep on while an executor is idle.
use leasepool.Base.{
  ℕ, Bool, true, false, not, ◌||◌, Option, List, [], ◌∷◌, ◌++◌, ◌≡◌, refl, ◌==◌, ap, sym, subst,
  arith, inl, inr, List-cases, discard, member,
}
use leasepool.Base.Ints.{ℤ}
use leasepool.Base.Exec.{Result, ok, pure, lift, raise_if, not_started, Keeps, Keeps-bind, ◌>>=◌}
use leasepool.Manager.Config.{Config}
use leasepool.Manager.State.{State, Action, Callback, set_event, shut_down, monotonic}
use leasepool.Manager.Acquire.{
  Request, Attempt, waits, attempt, acquire_begin, require_owner_loop, lease_ticks,
}
use leasepool.Manager.Lifecycle.{start}
use leasepool.Manager.Queueing.{attempt-Waits}
use leasepool.Manager.Identity.{Reach-Distinct}
use leasepool.Manager.Steps.{
  Step, Reach, next, starts, stops, finishes_stop, begins, attempts, wakes, releases, submits,
  future_ends, checks, notifies, calls_back, closes, loop_ends, run_callback, run_first,
  close_first, run_closing,
}
use leasepool.Manager.Alerting.{Working, Alert, Growing, Unmoved-Working, Unmoved-Alert}
use leasepool.Manager.Alerting.Methods
use leasepool.Manager.Alerting.Calls
use leasepool.Manager.Alerting.Submissions
use leasepool.Manager.Alerting.Rounds
use leasepool.Manager.Alerting.Attempts

-- The next callback of the loop sets `event`.
abbrev sets : ℕ → List Callback → Bool
sets event (set_event f ∷ cs) = f == event
sets event _ = false

-- The step does not wake up the caller that waits for `event`: neither is that event set, nor is the
-- manager or its loop ended. The waits that end are not the checker's, for `scale`.
abbrev pub undisturbed : ℕ → ℕ → {c : Config} {s t : State} → Step c s t → Bool
undisturbed event scale (stops caller) = false
undisturbed event scale finishes_stop = false
undisturbed event scale loop_ends = false
undisturbed event scale (wakes f) = not (f == scale)
undisturbed event scale {s = s} calls_back = not (sets event s.ready)
undisturbed event scale _ = true

-- What the manager may do while that caller sleeps.
pub data Asleep (c : Config) (event scale : ℕ) (s : State) : State → Type 0 where
  lies_down : Asleep c event scale s s
  sleeps_on :
      {t u : State}
      → Asleep c event scale s t
      → (step : Step c t u) → undisturbed event scale step ≡ true
      → Asleep c event scale s u

member-discard : (a b : ℕ) (xs : List ℕ) → (b == a) ≡ false → member a (discard b xs) ≡ member a xs
member-discard a b [] other = refl
member-discard a b (x ∷ xs) other = ground (arith, member-discard a b xs other)

pub member-append : (a b : ℕ) (xs : List ℕ) → member a (xs ++ b ∷ []) ≡ (member a xs || b == a)
member-append a b [] = ground arith
member-append a b (x ∷ xs) = ground (arith, member-append a b xs)

module _ {event scale loop : ℕ} (c : Config) where
  wakes-Alert :
      (f : ℕ) {s : State}
      → (f == scale) ≡ false
      → Alert event scale loop s
      → Alert event scale loop (record s { set_events = discard f s.set_events })
  wakes-Alert f {s} other a =
      Unmoved-Alert (refl, refl, refl, refl, refl, refl, refl)
        (ground (arith, member-discard scale f s.set_events other)) a

  run_callback-Alert :
      {s : State}
      → sets event s.ready ≡ false
      → Alert event scale loop s
      → Alert event scale loop (run_callback s)
  unfolding run_callback
  run_callback-Alert {s} other a =
      let told = a.told in
      elim (List-cases s.ready) [
        | inl e ↦ subst (λ cs. Alert event scale loop (run_first cs s)) (sym e) a
        | inr (set_event f, cs, e) ↦
            subst (λ ds. Alert event scale loop (run_first ds s)) (sym e)
              (record {
                working = Unmoved-Working (refl, refl, refl, refl, refl, refl, refl) a.working;
                told = ground (arith, told, other, e, member-append scale f s.set_events);
              })
        | inr (shut_down x, cs, e) ↦
            subst (λ ds. Alert event scale loop (run_first ds s)) (sym e)
              (Unmoved-Alert (refl, refl, refl, refl, refl, refl, refl) (ground (arith, e)) a)
      ]

  run_closing-Alert :
      {s : State} → Alert event scale loop s → Alert event scale loop (run_closing s)
  unfolding run_closing
  run_closing-Alert {s} a = elim (List-cases s.closing) [
    | inl e ↦ subst (λ es. Alert event scale loop (close_first es s)) (sym e) a
    | inr (x, es, e) ↦
        subst (λ fs. Alert event scale loop (close_first fs s)) (sym e)
          (Unmoved-Alert (refl, refl, refl, refl, refl, refl, refl) refl a)
  ]

  start-Alert :
      (caller : Option ℕ) {s : State}
      → Alert event scale loop s
      → Alert event scale loop (start c caller s).1
  unfolding start require_owner_loop
  start-Alert caller {s} a = simp a.working.started (
      Keeps-bind (Alert event scale loop) (require_owner_loop caller) (λ _. pure tt) (λ t b. b)
        (λ _ t b. b) s a)

  acquire_begin-Alert :
      (caller : Option ℕ) (q : Request) → Keeps (Alert event scale loop) (acquire_begin c caller q)
  unfolding acquire_begin require_owner_loop
  acquire_begin-Alert caller q s a =
      let begin : ℕ → Action (ℕ × ℕ) =
        λ ticks. monotonic c >>= λ started_at. pure (ticks, started_at) in
      Keeps-bind (Alert event scale loop) (raise_if (not s.started) not_started)
        (λ _. require_owner_loop caller >>= λ _. lift (lease_ticks c q.lease_seconds) >>= begin)
        (λ t b. b)
        (λ _.
          Keeps-bind (Alert event scale loop) (require_owner_loop caller)
            (λ _. lift (lease_ticks c q.lease_seconds) >>= begin) (λ t b. b)
            (λ _.
              Keeps-bind (Alert event scale loop) (lift (lease_ticks c q.lease_seconds)) begin
                (λ t b. b)
                (λ ticks.
                  Keeps-bind (Alert event scale loop) (monotonic c)
                    (λ started_at. pure (ticks, started_at)) (Methods.monotonic-Alert c)
                    (λ _ t b. b))))
        s a

Step-Alert :
    {event scale loop : ℕ} (c : Config) {s t : State}
    → Growing c
    → Reach c s
    → (step : Step c s t) → undisturbed event scale step ≡ true
    → Alert event scale loop s
    → Alert event scale loop t
Step-Alert c growing r (starts caller) calm a = start-Alert c caller a
Step-Alert c growing r (stops caller) calm a = absurd (ground arith)
Step-Alert c growing r finishes_stop calm a = absurd (ground arith)
Step-Alert c {s} growing r (begins caller q) calm a = acquire_begin-Alert c caller q s a
Step-Alert c growing r (attempts q ticks started_at) calm a =
    Attempts.attempt-Alert c q ticks started_at growing (Reach-Distinct c r) a
Step-Alert c growing r (wakes f) calm a = wakes-Alert c f (ground arith) a
Step-Alert c {s} growing r (releases k) calm a = Calls.release-Alert c growing k s a
Step-Alert c {s} growing r (submits k) calm a = Submissions.submit-Alert c growing k s a
Step-Alert c {s} growing r (future_ends k future o) calm a =
    Submissions.future_done-Alert c growing k future o s a
Step-Alert c growing r (checks runs) calm a =
    Rounds.checker_turn-Alert c growing (Reach-Distinct c r) a
Step-Alert c {s} growing r notifies calm a = Methods.wake_checker-Tells s a.working
Step-Alert c growing r calls_back calm a = run_callback-Alert c (ground arith) a
Step-Alert c growing r closes calm a = run_closing-Alert c a
Step-Alert c growing r loop_ends calm a = absurd (ground arith)

Asleep-Alert :
    {event scale loop : ℕ} (c : Config) {s t : State}
    → Growing c
    → Reach c s
    → Alert event scale loop s
    → Asleep c event scale s t
    → Reach c t × Alert event scale loop t
Asleep-Alert c growing r a lies_down = (r, a)
Asleep-Alert c growing r a (sleeps_on before step calm) =
    let (reach, b) = Asleep-Alert c growing r a before in
    (next reach step, Step-Alert c growing reach step calm b)

-- No wake-up is lost. A caller whose attempt to acquire made it wait, in a manager whose growth does
-- not raise, and that has not been woken up since, nor the manager been stopped or its loop closed:
-- while it sleeps the manager is at work and its checker runs, and when an executor is idle, the
-- event loop is about to set the caller's event, or the event that has the checker do a round is set
-- or about to be set.
pub Asleep-told :
    (c : Config) (q : Request) (ticks started_at event scale loop : ℕ) (s t u : State)
    {remaining : Option ℤ}
    → Growing c
    → Reach c s
    → attempt c q ticks started_at s ≡ (ok (waits event remaining), t)
    → Working event scale loop t
    → Asleep c event scale t u
    → Reach c u × Alert event scale loop u
Asleep-told c q ticks started_at event scale loop s t u growing r gives w run =
    let none_idle = (attempt-Waits c q ticks started_at event s t gives).none_idle in
    let reach : Reach c t =
      subst (Reach c) (ap (λ (p : Result Attempt × State). p.1) gives)
        (next r (attempts q ticks started_at)) in
    Asleep-Alert c growing reach (record { working = w; told = ground (arith, none_idle) }) run
