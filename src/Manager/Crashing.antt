-- ===== src/Manager/Crashing.antt =====
-- The checker task of src/leasepool/manager.py after an exception in one of its rounds
-- (_checker_loop).
use leasepool.Base.{ℕ, ◌≡◌, refl, true, Option, arith, ap, ◌∙◌}
use leasepool.Base.Exec.{Exn, raised, pure, Keeps-bind}
use leasepool.Manager.Config.{Config}
use leasepool.Manager.State.{State}
use leasepool.Manager.Acquire.{require_owner_loop}
use leasepool.Manager.Checker.{checker_round, checker_turn}
use leasepool.Manager.Lifecycle.{start}
use leasepool.Manager.Stopping.{stop_finish_lem}
use leasepool.Manager.Ownership.{calm}
use leasepool.Manager.Steps.{
  Step, starts, stops, finishes_stop, begins, attempts, wakes, releases, submits, future_ends,
  checks, notifies, calls_back, closes, loop_ends, run_callback, run_closing,
}
use leasepool.Manager.Writes.{
  off, Write, Writes, done, more, aside, inserts, removes, updates, empties, shuts,
  closes as closes_one, calls_soon, turns,
}
use leasepool.Manager.Writes.Calls.{release-Writing, submit-Writing, future_done-Writing}
use leasepool.Manager.Writes.Methods.{wake_checker-Writing}
use leasepool.Manager.Writes.Tasks.{
  acquire_begin-Writing, attempt-Writing, stop_begin-Writing, checker_turn-Writing,
}

-- What a manager comes to while it stays started.
pub data StaysUp (c : Config) (s : State) : State → Type 0 where
  not_yet : StaysUp c s s
  goes_on : {t u : State} → StaysUp c s t → Step c t u → u.started ≡ true → StaysUp c s u

one_off :
    {uuid : ℕ → ℕ}
    → (s t : State) → Write uuid true s t
    → off s.checker_task ≡ true
    → off t.checker_task ≡ true
one_off s t (aside _ _ _ _ _ _ o _) h = o refl h
one_off s t (inserts r named e) h = ap (λ u. off u.checker_task) e ∙ h
one_off s t (removes k e) h = ap (λ u. off u.checker_task) e ∙ h
one_off s t (updates k f m e) h = ap (λ u. off u.checker_task) e ∙ h
one_off s t (empties e) h = ap (λ u. off u.checker_task) e ∙ h
one_off s t (shuts x e) h = ap (λ u. off u.checker_task) e ∙ h
one_off s t (closes_one x e) h = ap (λ u. off u.checker_task) e ∙ h
one_off s t (calls_soon x e) h = ap (λ u. off u.checker_task) e ∙ h
one_off s t (turns v calm e) h = absurd (ground (arith, calm))

calm_off :
    (uuid : ℕ → ℕ) {s t : State}
    → Writes uuid true s t
    → off s.checker_task ≡ true
    → off t.checker_task ≡ true
calm_off uuid done h = h
calm_off uuid (more {t} {u} a w) h = one_off t u w (calm_off uuid a h)

start-off :
    (c : Config) (caller : Option ℕ) (s : State)
    → s.started ≡ true
    → off s.checker_task ≡ true
    → off (start c caller s).1.checker_task ≡ true
unfolding start require_owner_loop
start-off c caller s up h = simp up (
    Keeps-bind (λ t. off t.checker_task ≡ true) (require_owner_loop caller) (λ _. pure tt)
      (λ t k. k) (λ _ t k. k) s h)

Step-off :
    (c : Config) {s t : State}
    → Step c s t
    → s.started ≡ true
    → t.started ≡ true
    → off s.checker_task ≡ true
    → off t.checker_task ≡ true
unfolding run_callback run_closing
Step-off c {s} (starts caller) up still h = start-off c caller s up h
Step-off c {s} (stops caller) up still h = calm_off c.uuid (stop_begin-Writing c caller s) h
Step-off c {s} finishes_stop up still h = absurd (ground (arith, still, stop_finish_lem c s))
Step-off c {s} (begins caller q) up still h = calm_off c.uuid (acquire_begin-Writing c caller q s) h
Step-off c {s} (attempts q ticks started_at) up still h =
    calm_off c.uuid (attempt-Writing c q ticks started_at s) h
Step-off c (wakes event) up still h = h
Step-off c {s} (releases k) up still h = calm_off c.uuid (release-Writing c k s) h
Step-off c {s} (submits k) up still h = calm_off c.uuid (submit-Writing c k s) h
Step-off c {s} (future_ends k future o) up still h =
    calm_off c.uuid (future_done-Writing c k future o s) h
Step-off c {s} (checks runs) up still h = calm_off c.uuid (checker_turn-Writing c s) h
Step-off c {s} notifies up still h = calm_off c.uuid (wake_checker-Writing s) h
Step-off c {s} calls_back up still h = ground (arith, h)
Step-off c {s} closes up still h = ground (arith, h)
Step-off c loop_ends up still h = h

StaysUp-off :
    (c : Config) {s t : State}
    → s.started ≡ true
    → off s.checker_task ≡ true
    → StaysUp c s t
    → (t.started ≡ true) × (off t.checker_task ≡ true)
StaysUp-off c up h not_yet = (up, h)
StaysUp-off c up h (goes_on before step still) =
    let (going, k) = StaysUp-off c up h before in (still, Step-off c step going still k)

-- A round of the checker that raises ends the checker for good: the manager stays started, and while
-- it does, whatever is called and happens, start included, no checker task runs.
pub checker_turn-crashes :
    (c : Config) (s : State) {t : State} {x : Exn}
    → s.started ≡ true
    → (checker_round c s).0 ≡ raised x
    → StaysUp c (checker_turn c s).1 t
    → (t.started ≡ true) × (off t.checker_task ≡ true)
unfolding checker_turn
checker_turn-crashes c s up failed run =
    StaysUp-off c (calm c.uuid (checker_turn-Writing c s) ∙ up) (rw (failed, checker_turn) refl) run
