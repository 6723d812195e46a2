-- ===== src/Grinder/Delivery.antt =====
-- What callers of WorkGrinder (src/leasepool/grinder.py) can rely on in every state that it reaches.
use leasepool.Base.{ℕ, Bool, true, false, ◌||◌, ◌<◌, ◌≡◌, refl, Option, none, arith, ◌⊎◌, inl, inr}
use leasepool.Grinder.State.{is_done, GrinderConfig, over, GrinderState}
use leasepool.Grinder.Lifecycle.{stop_grinder_begin, ended}
use leasepool.Grinder.Steps.{
  GrinderStep, GrinderReach, new, next, starts, enqueues, caller_cancels, calls_back, removes,
  turns, acquires, acquire_raises, gathers, waiting_cancelled, acquire_cancelled, gather_cancelled,
  stop_begins, stop_finishes,
}
use leasepool.Grinder.Effects.{stop_begin-cases}
use leasepool.Grinder.Settling.{queued}
use leasepool.Grinder.Accounted
use leasepool.Grinder.Kept
use leasepool.Grinder.Soundness

stop_grinder_begin-Accounted :
    (g : ℕ) (running : Option ℕ) (cancelling : Bool) (s : GrinderState)
    → Accounted.Accounted g s
    → Accounted.Accounted g (stop_grinder_begin running cancelling s).1
stop_grinder_begin-Accounted g running false s a = elim (stop_begin-cases s running false) [
  | inl e ↦ rw e a
  | inr e ↦
      rw e (record { exists_ = a.exists_; covered = a.covered; within = a.within; gone = a.gone })
]
stop_grinder_begin-Accounted g running true s a =
    let t : GrinderState = record s { stopping = true } in
    let b =
      Kept.cancel_pending-Accounted g t
        (record { exists_ = a.exists_; covered = a.covered; within = a.within; gone = a.gone }) in
    elim (stop_begin-cases s running true) [
      | inl e ↦ rw e a
      | inr e ↦
          rw e
            (record { exists_ = b.exists_; covered = b.covered; within = b.within; gone = b.gone })
    ]

step-Accounted :
    (c : GrinderConfig) (g : ℕ) {s t : GrinderState}
    → GrinderStep c s t
    → Soundness.Sound s
    → Accounted.Accounted g s
    → Accounted.Accounted g t
step-Accounted c g {s = s} (starts l) i a = Kept.start_grinder-Accounted g s a l i.rested
step-Accounted c g {s = s} (enqueues running w call o now) i a =
    Kept.enqueue-Accounted g s a running w call o now
step-Accounted c g {s = s} (caller_cancels f h) i a = Kept.caller_cancels-Accounted g s a f h
step-Accounted c g {s = s} calls_back i a = Kept.run_done_callback-Accounted g s a
step-Accounted c g {s = s} removes i a = Kept.run_removal-Accounted g s a
step-Accounted c g {s = s} (turns now h) i a = Kept.loop_turn-Accounted g s a c now h
step-Accounted c g {s = s} (acquires refusal released live h) i a =
    Accounted.batch_acquired-Accounted g s a refusal released live h
step-Accounted c g {s = s} (acquire_raises e live h) i a =
    Accounted.acquire_failed-Accounted g s a e live h
step-Accounted c g {s = s} (gathers results released live submitted h) i a =
    Accounted.batch_gathered-Accounted g s a results released live submitted h
step-Accounted c g {s = s} (waiting_cancelled h) i a = Kept.killed-Accounted g s a h
step-Accounted c g {s = s} (acquire_cancelled live h) i a =
    Accounted.batch_cancelled-Accounted g s a none live (λ k. ground (arith, h))
      (λ k. ground (arith, h))
step-Accounted c g {s = s} (gather_cancelled released live submitted h) i a =
    Accounted.batch_cancelled-Accounted g s a released live (λ k. ground (arith, a.within, h))
      (λ k. ground (arith, h))
step-Accounted c g {s = s} (stop_begins running cancelling) i a =
    stop_grinder_begin-Accounted g running cancelling s a
step-Accounted c g {s = s} (stop_finishes cancelling h up stopping) i a =
    Kept.stop_grinder_finish-Accounted g s a cancelling h

pub reach-Sound : (c : GrinderConfig) {s : GrinderState} → GrinderReach c s → Soundness.Sound s
reach-Sound c new = record {
  rested = λ h. refl;
  returned = λ h. ground arith;
  emptied = λ h. ground arith;
}
reach-Sound c (next r step) = Soundness.step-Sound c step (reach-Sound c r)

reach-Accounted :
    (c : GrinderConfig) (g : ℕ) {s : GrinderState} → GrinderReach c s → Accounted.Accounted g s
reach-Accounted c g new = record {
  exists_ = λ h. ground arith;
  covered = λ h. ground arith;
  within = λ h. h;
  gone = λ h. ground arith;
}
reach-Accounted c g (next r step) =
    step-Accounted c g step (reach-Sound c r) (reach-Accounted c g r)

-- In every state that the grinder reaches, a future that it gave out is settled, or its item waits
-- in the queue, or the batch under way has still to settle it.
pub accounted_for :
    (c : GrinderConfig) (g : ℕ) {s : GrinderState}
    → GrinderReach c s
    → g < s.future_count
    → (is_done (s.futures g) || queued g s.pending || Accounted.owed g s.phase) ≡ true
accounted_for c g r = (reach-Accounted c g r).covered

-- When the loop has returned by itself, or has ended after stop asked for its cancellation, every
-- future that the grinder gave out is settled.
pub ended-settled :
    (c : GrinderConfig) (g : ℕ) {s : GrinderState}
    → GrinderReach c s
    → ended s.phase ≡ true
    → (s.phase ≡ over) ⊎ (s.cancel_asked ≡ true)
    → g < s.future_count
    → is_done (s.futures g) ≡ true
ended-settled c g {s = s} r h (inl e) known =
    let a = accounted_for c g r known in let i = reach-Sound c r in ground (arith, i.returned e)
ended-settled c g {s = s} r h (inr e) known =
    let a = accounted_for c g r known in
    let i = reach-Sound c r in ground (arith, i.emptied e, Kept.ended-owes g s.phase h)
