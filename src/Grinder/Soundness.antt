-- ===== src/Grinder/Soundness.antt =====
-- What every state of WorkGrinder (src/leasepool/grinder.py) has: when it is started, and what a loop
-- that ended left behind.
use leasepool.Base.{
  ℕ, Bool, true, false, ◌||◌, ◌&&◌, ◌≡◌, refl, Option, none, [], arith, inl, inr, Bool-cases,
  List-cases, is_none, not, sym, ◌∙◌,
}
use leasepool.Grinder.State.{
  is_cancelled, was_cancelled, GrinderConfig, Phase, absent, waiting, over, acquiring, gathering,
  GrinderState,
}
use leasepool.Grinder.Queue.{run_done_callback, run_removal, without_future}
use leasepool.Grinder.Lifecycle.{cancel_pending, stop_grinder_begin}
use leasepool.Grinder.Steps.{
  GrinderStep, starts, enqueues, caller_cancels, calls_back, removes, turns, acquires,
  acquire_raises, gathers, waiting_cancelled, acquire_cancelled, gather_cancelled, stop_begins,
  stop_finishes,
}
use leasepool.Grinder.Effects.{enqueue-cases, start-cases, stop_begin-cases, stop_finish-cases}
use leasepool.Grinder.Settling.{settle_if_open-Frame, settle_batch-Frame}
use leasepool.Grinder.Ending

-- Without a task the grinder is not started; a loop that returned, or that stop cancelled, left
-- nothing pending.
pub record Sound (s : GrinderState) : Type 0 where
  pub rested : s.started ≡ false → s.phase ≡ absent
  pub returned : s.phase ≡ over → (s.stopping ≡ true) × (s.pending ≡ [])
  pub emptied : s.cancel_asked ≡ true → (s.stopping ≡ true) × (s.pending ≡ [])

Continues-Sound : {s t : GrinderState} → s.started ≡ true → Sound s → Ending.Continues s t → Sound t
Continues-Sound up i k = record {
  rested = λ h. ground (arith, k.started);
  returned = k.returns;
  emptied = λ h.
      (k.stopping ∙ (i.emptied (sym k.asked ∙ h)).0, k.shrinks (i.emptied (sym k.asked ∙ h)).1);
}

abbrev runs : Phase → Bool
runs waiting = true
runs (acquiring _) = true
runs (gathering _ _) = true
runs _ = false

pub started_of : (s : GrinderState) → Sound s → runs s.phase ≡ true → s.started ≡ true
started_of s i h = elim (Bool-cases s.started) [ inl e ↦ e | inr e ↦ ground (arith, i.rested e) ]

run_done_callback-Sound : (s : GrinderState) → Sound s → Sound (run_done_callback s)
unfolding run_done_callback
run_done_callback-Sound s i = elim (List-cases s.done_callbacks) [
  | inl e ↦ rw e (record { rested = i.rested; returned = i.returned; emptied = i.emptied })
  | inr (f, fs, e) ↦
      elim (Bool-cases (is_cancelled (s.futures f) && not (is_none s.loop || s.loop_closed))) [
        | inl found ↦
            rw (e, found) (record { rested = i.rested; returned = i.returned; emptied = i.emptied })
        | inr other ↦
            rw (e, other) (record { rested = i.rested; returned = i.returned; emptied = i.emptied })
      ]
]

run_removal-Sound : (s : GrinderState) → Sound s → Sound (run_removal s)
unfolding run_removal without_future
run_removal-Sound s i = elim (List-cases s.removals) [
  | inl e ↦ rw e (record { rested = i.rested; returned = i.returned; emptied = i.emptied })
  | inr (f, fs, e) ↦ rw e (record {
    rested = i.rested;
    returned = λ h. let (a, b) = i.returned h in (a, rw b refl);
    emptied = λ h. let (a, b) = i.emptied h in (a, rw b refl);
  })
]

stop_begin-Sound :
    (running : Option ℕ) (cancelling : Bool) (s : GrinderState)
    → Sound s
    → Sound (stop_grinder_begin running cancelling s).1
unfolding cancel_pending
stop_begin-Sound running false s i = elim (stop_begin-cases s running false) [
  | inl e ↦ rw e i
  | inr e ↦ rw e (record {
    rested = i.rested;
    returned = λ h. (refl, (i.returned h).1);
    emptied = λ h. (refl, (i.emptied (ground arith)).1);
  })
]
stop_begin-Sound running true s i =
    let t : GrinderState = record s { stopping = true } in
    let f = settle_batch-Frame was_cancelled s.pending t in
    elim (stop_begin-cases s running true) [
      | inl e ↦ rw e i
      | inr e ↦ rw e (record {
        rested = λ h. f.phase ∙ i.rested (sym f.started ∙ h);
        returned = λ h. (f.stopping, refl);
        emptied = λ h. (f.stopping, refl);
      })
    ]

pub step-Sound : (c : GrinderConfig) {s t : GrinderState} → GrinderStep c s t → Sound s → Sound t
step-Sound c {s = s} (starts l) i = elim (start-cases s l) [
  | inl e ↦ rw e i
  | inr (out, e) ↦ rw e (record {
    rested = λ h. ground arith;
    returned = λ h. ground arith;
    emptied = λ h. ground arith;
  })
]
step-Sound c {s = s} (enqueues running w call o now) i =
    elim (enqueue-cases s running w call o now) [
      | inl (x, e) ↦ rw e i
      | inr (e, up, open_) ↦ rw e (record {
        rested = i.rested;
        returned = λ h. ground (arith, i.returned h);
        emptied = λ h. ground (arith, i.emptied h);
      })
    ]
step-Sound c {s = s} (caller_cancels f h) i =
    let fr = settle_if_open-Frame f was_cancelled s in
    record {
      rested = λ k. fr.phase ∙ i.rested (sym fr.started ∙ k);
      returned =
          λ k. let (a, b) = i.returned (sym fr.phase ∙ k) in (fr.stopping ∙ a, fr.pending ∙ b);
      emptied = λ k.
          let (a, b) = i.emptied (sym fr.cancel_asked ∙ k) in (fr.stopping ∙ a, fr.pending ∙ b);
    }
step-Sound c {s = s} calls_back i = run_done_callback-Sound s i
step-Sound c {s = s} removes i = run_removal-Sound s i
step-Sound c {s = s} (turns now h) i =
    Continues-Sound (started_of s i (ground (arith, h))) i (Ending.loop_turn-Continues c now s)
step-Sound c {s = s} (acquires refusal released live h) i =
    Continues-Sound (started_of s i (ground (arith, h))) i
      (Ending.batch_acquired-Continues s refusal released live)
step-Sound c {s = s} (acquire_raises e live h) i =
    Continues-Sound (started_of s i (ground (arith, h))) i
      (Ending.acquire_failed-Continues s e live)
step-Sound c {s = s} (gathers results released live submitted h) i =
    Continues-Sound (started_of s i (ground (arith, h))) i
      (Ending.batch_gathered-Continues s results released live submitted)
step-Sound c {s = s} (waiting_cancelled h) i =
    Continues-Sound (started_of s i (ground (arith, h))) i (Ending.killed-Continues s)
step-Sound c {s = s} (acquire_cancelled live h) i =
    Continues-Sound (started_of s i (ground (arith, h))) i
      (Ending.batch_cancelled-Continues s none live)
step-Sound c {s = s} (gather_cancelled released live submitted h) i =
    Continues-Sound (started_of s i (ground (arith, h))) i
      (Ending.batch_cancelled-Continues s released live)
step-Sound c {s = s} (stop_begins running cancelling) i = stop_begin-Sound running cancelling s i
step-Sound c {s = s} (stop_finishes cancelling h up stopping) i =
    elim (stop_finish-cases s cancelling) [
      | inl e ↦
          rw e (record {
            rested = λ k. refl;
            returned = λ k. ground arith;
            emptied = λ k. ground arith;
          })
      | inr e ↦
          rw e (record {
            rested = λ k. refl;
            returned = λ k. ground arith;
            emptied = λ k. ground arith;
          })
    ]
