-- ===== src/Manager/Ownership/Steps.antt =====
-- A manager that is not started (src/leasepool/manager.py) owns no executor.
use leasepool.Base.{ℕ, true, false, [], ◌≡◌, refl, ◌∙◌, arith, inl, inr, List-cases}
use leasepool.Manager.Config.{Config}
use leasepool.Manager.State.{State, wake_checker, set_event, shut_down}
use leasepool.Manager.Steps.{
  Step, Reach, made, next, starts, stops, finishes_stop, begins, attempts, wakes, releases, submits,
  future_ends, checks, notifies, calls_back, closes, loop_ends, run_callback, run_closing,
}
use leasepool.Manager.Waking.{notify_lem}
use leasepool.Manager.Writes.{Writes}
use leasepool.Manager.Writes.Calls.{release-Writing, submit-Writing, future_done-Writing}
use leasepool.Manager.Writes.Tasks.{
  acquire_begin-Writing, attempt-Writing, stop_begin-Writing, checker_turn-Writing,
}
use leasepool.Manager.Ownership.{calm, off, Same, Sound, Same-Sound}
use leasepool.Manager.Ownership.Starting.{start-Sound, stop_finish-Free}
use leasepool.Manager.Ownership.Calls.{
  stop-Free, begin-Free, attempt-Free, release-Free, submit-Free, future_done-Free,
}

run_callback-Same : (s : State) → Same s (run_callback s)
unfolding run_callback
run_callback-Same s = elim (List-cases s.ready) [
  | inl e ↦ rw e (record { started = refl; checker_task = refl; available = refl; leased = refl })
  | inr (set_event k, cs, e) ↦
      rw e (record { started = refl; checker_task = refl; available = refl; leased = refl })
  | inr (shut_down x, cs, e) ↦
      rw e (record { started = refl; checker_task = refl; available = refl; leased = refl })
]

run_closing-Same : (s : State) → Same s (run_closing s)
unfolding run_closing
run_closing-Same s = elim (List-cases s.closing) [
  | inl e ↦ rw e (record { started = refl; checker_task = refl; available = refl; leased = refl })
  | inr (x, xs, e) ↦
      rw e (record { started = refl; checker_task = refl; available = refl; leased = refl })
]

notifies-Same : (s : State) → Same s (wake_checker s).1
unfolding wake_checker
notifies-Same s =
    rw (notify_lem s.scale_change_event s.loop s.loop_closed s)
      (record { started = refl; checker_task = refl; available = refl; leased = refl })

kept : (uuid : ℕ → ℕ) {s t : State} → Writes uuid true s t → s.started ≡ true → Sound t
kept uuid w up = inl (calm uuid w ∙ up)

Step-Sound : (c : Config) {s t : State} → Step c s t → Sound s → Sound t
Step-Sound c {s} (starts caller) h = start-Sound c caller s h
Step-Sound c {s} (stops caller) (inl up) = kept c.uuid (stop_begin-Writing c caller s) up
Step-Sound c {s} (stops caller) (inr f) = inr (stop-Free c s f caller)
Step-Sound c {s} finishes_stop h = inr (stop_finish-Free c s)
Step-Sound c {s} (begins caller q) (inl up) = kept c.uuid (acquire_begin-Writing c caller q s) up
Step-Sound c {s} (begins caller q) (inr f) = inr (begin-Free c s f caller q)
Step-Sound c {s} (attempts q ticks started_at) (inl up) =
    kept c.uuid (attempt-Writing c q ticks started_at s) up
Step-Sound c {s} (attempts q ticks started_at) (inr f) = inr (attempt-Free c s f q ticks started_at)
Step-Sound c (wakes event) (inl up) = inl up
Step-Sound c (wakes event) (inr f) = inr (record {
  at_rest = record { down = f.at_rest.down; no_checker = f.at_rest.no_checker };
  none_idle = f.none_idle;
  none_lent = f.none_lent;
})
Step-Sound c {s} (releases key) (inl up) = kept c.uuid (release-Writing c key s) up
Step-Sound c {s} (releases key) (inr f) = inr (release-Free c s f key)
Step-Sound c {s} (submits key) (inl up) = kept c.uuid (submit-Writing c key s) up
Step-Sound c {s} (submits key) (inr f) = inr (submit-Free c s f key)
Step-Sound c {s} (future_ends key future outcome) (inl up) =
    kept c.uuid (future_done-Writing c key future outcome s) up
Step-Sound c {s} (future_ends key future outcome) (inr f) =
    inr (future_done-Free c s f key future outcome)
Step-Sound c {s} (checks h) (inl up) = kept c.uuid (checker_turn-Writing c s) up
Step-Sound c {s} (checks h) (inr f) = absurd (ground (arith, h, f.at_rest.no_checker))
Step-Sound c {s} notifies h = Same-Sound s (wake_checker s).1 (notifies-Same s) h
Step-Sound c {s} calls_back h = Same-Sound s (run_callback s) (run_callback-Same s) h
Step-Sound c {s} closes h = Same-Sound s (run_closing s) (run_closing-Same s) h
Step-Sound c loop_ends (inl up) = inl up
Step-Sound c loop_ends (inr f) = inr (record {
  at_rest = record { down = f.at_rest.down; no_checker = f.at_rest.no_checker };
  none_idle = f.none_idle;
  none_lent = f.none_lent;
})

Reach-Sound : (c : Config) {s : State} → Reach c s → Sound s
Reach-Sound c made = inr (record {
  at_rest = record { down = refl; no_checker = refl };
  none_idle = refl;
  none_lent = refl;
})
Reach-Sound c (next r step) = Step-Sound c step (Reach-Sound c r)

-- A manager that is not started has no idle and no lent executor, and its checker does not run:
-- before it is started, when its start failed, and when it was stopped, whatever is called on it.
pub owns_none_unless_started :
    (c : Config) {s : State}
    → Reach c s
    → s.started ≡ false
    → (s.available ≡ []) × (s.leased ≡ []) × (off s.checker_task ≡ true)
owns_none_unless_started c r down = elim (Reach-Sound c r) [
  | inl up ↦ ground (arith, up, down)
  | inr f ↦ (f.none_idle, f.none_lent, f.at_rest.no_checker)
]
