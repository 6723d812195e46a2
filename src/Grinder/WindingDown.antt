-- ===== src/Grinder/WindingDown.antt =====
-- The loop of WorkGrinder (src/leasepool/grinder.py) ends once stop was called.
use leasepool.Base.{
  ℕ, ◌+◌, Bool, true, false, ◌&&◌, ◌||◌, is_empty, ◌<◌, ◌≤◌, ◌≡◌, refl, ◌∙◌, Option, none, List, [],
  ◌∷◌, arith, inl, inr, Bool-cases, List-cases, is_none, not,
}
use leasepool.Grinder.State.{
  was_cancelled, is_cancelled, WorkItem, GrinderConfig, Phase, absent, over, killed, crashed,
  waiting, acquiring, gathering, GrinderState,
}
use leasepool.Grinder.Queue.{run_done_callback, run_removal, without_future}
use leasepool.Grinder.Batch.{acquire_failed, batch_gathered, batch_cancelled}
use leasepool.Grinder.Lifecycle.{cancel_pending, stop_grinder_begin, ended}
use leasepool.Grinder.Effects.{enqueue-cases, start-cases, stop_begin-cases}
use leasepool.Grinder.Settling
use leasepool.Grinder.Settling.{Frame, settle_if_open-Frame, settle_batch-Frame}
use leasepool.Grinder.Ending
use leasepool.Grinder.Stopping.{rank, weight}
use leasepool.Grinder.Stopping
use leasepool.Grinder.Steps.{
  GrinderStep, starts, enqueues, caller_cancels, calls_back, removes, turns, acquires,
  acquire_raises, gathers, waiting_cancelled, acquire_cancelled, gather_cancelled, stop_begins,
  stop_finishes,
}

-- A step that leaves the grinder stopping, with `k` steps of its loop.
record Down (k : ℕ) (s t : GrinderState) : Type 0 where
  started : t.started ≡ s.started
  stopping : t.stopping ≡ true
  moves : k + rank t ≤ rank s

moved :
    {s t : GrinderState} → s.stopping ≡ true → Ending.Continues s t → rank t < rank s → Down 1 s t
moved h k less = record {
  started = k.started;
  stopping = k.stopping ∙ h;
  moves = omega (arith, less);
}

same : {s t : GrinderState} → s.stopping ≡ true → Frame s t → Down 0 s t
same {s = s} h f = record {
  started = f.started;
  stopping = f.stopping ∙ h;
  moves = rw (f.phase, f.pending) (omega arith);
}

weight-empty : (p : Phase) (b : Bool) → weight p true ≤ weight p b
weight-empty absent b = omega arith
weight-empty over b = omega arith
weight-empty killed b = omega arith
weight-empty crashed b = omega arith
weight-empty waiting true = omega arith
weight-empty waiting false = omega arith
weight-empty (acquiring live) true = omega arith
weight-empty (acquiring live) false = omega arith
weight-empty (gathering live submitted) true = omega arith
weight-empty (gathering live submitted) false = omega arith

run_done_callback-Down : (s : GrinderState) → s.stopping ≡ true → Down 0 s (run_done_callback s)
unfolding run_done_callback
run_done_callback-Down s h = elim (List-cases s.done_callbacks) [
  | inl e ↦ rw e (record { started = refl; stopping = h; moves = omega arith })
  | inr (f, fs, e) ↦
      elim (Bool-cases (is_cancelled (s.futures f) && not (is_none s.loop || s.loop_closed))) [
        | inl found ↦ rw (e, found) (record { started = refl; stopping = h; moves = omega arith })
        | inr other ↦ rw (e, other) (record { started = refl; stopping = h; moves = omega arith })
      ]
]

fewer :
    (p : Phase) (f : ℕ) (xs : List WorkItem)
    → weight p (is_empty (without_future f xs)) ≤ weight p (is_empty xs)
unfolding without_future
fewer p f [] = omega arith
fewer p f (x ∷ xs) = elim (Bool-cases (is_empty (without_future f (x ∷ xs)))) [
  | inl e ↦ rw e (weight-empty p false)
  | inr e ↦ rw e (omega arith)
]

run_removal-Down : (s : GrinderState) → s.stopping ≡ true → Down 0 s (run_removal s)
unfolding run_removal without_future
run_removal-Down s h = elim (List-cases s.removals) [
  | inl e ↦ rw e (record { started = refl; stopping = h; moves = omega arith })
  | inr (f, fs, e) ↦
      rw e
        (record { started = refl; stopping = h; moves = omega (arith, fewer s.phase f s.pending) })
]

stop_begin-Down :
    (running : Option ℕ) (cancelling : Bool) (s : GrinderState)
    → s.stopping ≡ true
    → Down 0 s (stop_grinder_begin running cancelling s).1
unfolding cancel_pending
stop_begin-Down running false s h = elim (stop_begin-cases s running false) [
  | inl e ↦ rw e (same h Settling.Frame-same)
  | inr e ↦ rw e (record { started = refl; stopping = refl; moves = omega arith })
]
stop_begin-Down running true s h =
    let t : GrinderState = record s { stopping = true } in
    let f = settle_batch-Frame was_cancelled s.pending t in
    elim (stop_begin-cases s running true) [
      | inl e ↦ rw e (same h Settling.Frame-same)
      | inr e ↦ rw e (record {
        started = f.started;
        stopping = f.stopping;
        moves = rw f.phase (omega (arith, weight-empty s.phase (is_empty s.pending)));
      })
    ]

-- The steps of the loop, from one await to the next.
abbrev pub loop_steps : {c : GrinderConfig} {s t : GrinderState} → GrinderStep c s t → ℕ
loop_steps (turns now p) = 1
loop_steps (acquires refusal released live p) = 1
loop_steps (acquire_raises e live p) = 1
loop_steps (gathers results released live submitted p) = 1
loop_steps (waiting_cancelled p) = 1
loop_steps (acquire_cancelled live p) = 1
loop_steps (gather_cancelled released live submitted p) = 1
loop_steps _ = 0

step-Down :
    (c : GrinderConfig) {s t : GrinderState} (step : GrinderStep c s t)
    → s.started ≡ true
    → s.stopping ≡ true
    → ended s.phase ≡ false
    → Down (loop_steps step) s t
step-Down c {s = s} (starts l) up h o = elim (start-cases s l) [
  | inl e ↦ rw e (same h Settling.Frame-same)
  | inr (out, e) ↦ ground arith
]
step-Down c {s = s} (enqueues running w call own now) up h o =
    elim (enqueue-cases s running w call own now) [
      | inl (x, e) ↦ rw e (same h Settling.Frame-same)
      | inr (e, _, open_) ↦ ground arith
    ]
step-Down c {s = s} (caller_cancels f k) up h o = same h (settle_if_open-Frame f was_cancelled s)
step-Down c {s = s} calls_back up h o = run_done_callback-Down s h
step-Down c {s = s} removes up h o = run_removal-Down s h
step-Down c {s = s} (turns now p) up h o =
    moved h (Ending.loop_turn-Continues c now s) (Stopping.loop_turn-rank c now s h p)
step-Down c {s = s} (acquires refusal released live p) up h o =
    moved h (Ending.batch_acquired-Continues s refusal released live)
      (Stopping.batch_acquired-rank s h refusal released live p)
step-Down c {s = s} (acquire_raises e live p) up h o =
    moved h (Ending.acquire_failed-Continues s e live) (
      Stopping.Less-acquiring s (acquire_failed e live s) p
        (Stopping.acquire_failed-Less s h e live))
step-Down c {s = s} (gathers results released live submitted p) up h o =
    moved h (Ending.batch_gathered-Continues s results released live submitted) (
      Stopping.Less-gathering s (batch_gathered results released live submitted s) p
        (Stopping.batch_gathered-Less s h results released live submitted))
step-Down c {s = s} (waiting_cancelled p) up h o =
    moved h (Ending.killed-Continues s) (Stopping.killed-rank s p)
step-Down c {s = s} (acquire_cancelled live p) up h o =
    moved h (Ending.batch_cancelled-Continues s none live) (
      Stopping.Less-acquiring s (batch_cancelled none live s) p
        (Stopping.batch_cancelled-Less s h none live))
step-Down c {s = s} (gather_cancelled released live submitted p) up h o =
    moved h (Ending.batch_cancelled-Continues s released live) (
      Stopping.Less-gathering s (batch_cancelled released live s) p
        (Stopping.batch_cancelled-Less s h released live))
step-Down c {s = s} (stop_begins running cancelling) up h o = stop_begin-Down running cancelling s h
step-Down c {s = s} (stop_finishes cancelling k _ stopping) up h o = ground arith

-- Steps, `n` of them the loop's, none of which follows the end of the loop.
pub data StopRun (c : GrinderConfig) : ℕ → GrinderState → GrinderState → Type 0 where
  none_yet : {s : GrinderState} → StopRun c 0 s s
  one_more :
      {s t u : GrinderState} {n : ℕ}
      → StopRun c n s t
      → ended t.phase ≡ false
      → (step : GrinderStep c t u) → StopRun c (loop_steps step + n) s u

run-Down :
    (c : GrinderConfig) {s t : GrinderState} {n : ℕ}
    → StopRun c n s t
    → s.started ≡ true
    → s.stopping ≡ true
    → Down n s t
run-Down c none_yet up h = record { started = refl; stopping = h; moves = omega arith }
run-Down c (one_more r o step) up h =
    let a = run-Down c r up h in
    let b = step-Down c step (a.started ∙ up) a.stopping o in
    record {
      started = b.started ∙ a.started;
      stopping = b.stopping;
      moves = omega (arith, a.moves, b.moves);
    }

weight-most : (p : Phase) (b : Bool) → weight p b ≤ 6
weight-most absent b = omega arith
weight-most over b = omega arith
weight-most killed b = omega arith
weight-most crashed b = omega arith
weight-most waiting true = omega arith
weight-most waiting false = omega arith
weight-most (acquiring live) true = omega arith
weight-most (acquiring live) false = omega arith
weight-most (gathering live submitted) true = omega arith
weight-most (gathering live submitted) false = omega arith

-- From a started grinder that is stopping, the loop makes at most six steps, from one await to the
-- next, before it ends, whatever else is called and whatever the awaits bring.
pub stopping-ends :
    (c : GrinderConfig) {s t : GrinderState} {n : ℕ}
    → StopRun c n s t
    → s.started ≡ true
    → s.stopping ≡ true
    → n ≤ 6
stopping-ends c {s = s} r up h =
    let d = run-Down c r up h in omega (arith, d.moves, weight-most s.phase (is_empty s.pending))
