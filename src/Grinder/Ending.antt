-- ===== src/Grinder/Ending.antt =====
-- How the loop of WorkGrinder (src/leasepool/grinder.py) ends: with nothing pending, unless it was
-- cancelled or crashed.
use leasepool.Base.{
  ℕ, true, ◌≡◌, refl, Option, none, some, List, [], ◌∷◌, arith, inl, inr, Bool-cases, List-cases,
  ◌∙◌,
}
use leasepool.Base.Exec.{Exn, cancelled, runtime_error, Result}
use leasepool.Grinder.State.{
  has_exception, was_cancelled, WorkItem, GrinderConfig, over, killed, GrinderState, settle_batch,
}
use leasepool.Grinder.Batch.{
  loop_turn, wait_for_next_batch, turn_of, loop_of, ready, drain_pending, begin_batch, begin_of,
  after_batch, live_items, loop_crashes, after_release, refuse, submitted_of, submit_items,
  batch_acquired, acquire_failed, settle_results, gathered_of, batch_gathered, batch_cancelled,
}
use leasepool.Grinder.Settling.{Frame, settle_batch-Frame, settle_results-Frame, refuse-Frame}

-- A step of the loop: it adds no work, and returns only when it stops and nothing is pending.
pub record Continues (s t : GrinderState) : Type 0 where
  pub started : t.started ≡ s.started
  pub stopping : t.stopping ≡ s.stopping
  pub asked : t.cancel_asked ≡ s.cancel_asked
  pub shrinks : s.pending ≡ [] → t.pending ≡ []
  pub returns : t.phase ≡ over → (t.stopping ≡ true) × (t.pending ≡ [])

Frame-Continues : {s t u : GrinderState} → Frame s t → Continues t u → Continues s u
Frame-Continues f k = record {
  started = cc (f.started, k.started);
  stopping = cc (f.stopping, k.stopping);
  asked = cc (f.cancel_asked, k.asked);
  shrinks = λ e. k.shrinks (f.pending ∙ e);
  returns = k.returns;
}

after_batch-Continues : (s : GrinderState) → Continues s (after_batch s)
unfolding after_batch
after_batch-Continues s = record {
  started = refl;
  stopping = refl;
  asked = refl;
  shrinks = λ e. e;
  returns = λ e. elim (List-cases s.pending) [
    | inl none_left ↦ (ground arith, none_left)
    | inr (x, xs, left) ↦ ground arith
  ];
}

pub killed-Continues : (s : GrinderState) → Continues s (record s { phase = killed })
killed-Continues s = record {
  started = refl;
  stopping = refl;
  asked = refl;
  shrinks = λ e. e;
  returns = λ e. ground arith;
}

loop_crashes-Continues : (s : GrinderState) → Continues s (loop_crashes s)
unfolding loop_crashes
loop_crashes-Continues s =
    let f = settle_batch-Frame (has_exception runtime_error) s.pending s in
    record {
      started = f.started;
      stopping = f.stopping;
      asked = f.cancel_asked;
      shrinks = λ e. refl;
      returns = λ e. ground arith;
    }

after_release-Continues :
    (next : GrinderState → GrinderState) (released : Option Exn) (s : GrinderState)
    → Continues s (next s)
    → Continues s (after_release next released s)
after_release-Continues next none s k = k
after_release-Continues next (some cancelled) s k = killed-Continues s
after_release-Continues next (some _) s k = loop_crashes-Continues s

module _ (s : GrinderState) where
  pub acquire_failed-Continues :
      (e : Exn) (live : List WorkItem) → Continues s (acquire_failed e live s)
  unfolding acquire_failed
  acquire_failed-Continues e live =
      Frame-Continues (settle_batch-Frame (has_exception e) live s)
        (after_batch-Continues (settle_batch (has_exception e) live s))

  pub batch_cancelled-Continues :
      (released : Option Exn) (live : List WorkItem) → Continues s (batch_cancelled released live s)
  unfolding batch_cancelled
  batch_cancelled-Continues released live =
      let t = settle_batch was_cancelled live s in
      Frame-Continues (settle_batch-Frame was_cancelled live s)
        (after_release-Continues (λ u. record u { phase = killed }) released t (killed-Continues t))

  gathered_of-Continues :
      (live : List WorkItem) (released : Option Exn) (r : Option Exn × GrinderState)
      → Frame s r.1
      → Continues s (gathered_of live released r)
  gathered_of-Continues live released (none, t) f =
      Frame-Continues f (after_release-Continues after_batch released t (after_batch-Continues t))
  gathered_of-Continues live released (some e, t) f =
      let u = settle_batch (has_exception e) live t in
      Frame-Continues f (
        Frame-Continues (settle_batch-Frame (has_exception e) live t)
          (after_release-Continues after_batch released u (after_batch-Continues u)))

  pub batch_gathered-Continues :
      (results : List (Result ℕ)) (released : Option Exn) (live submitted : List WorkItem)
      → Continues s (batch_gathered results released live submitted s)
  unfolding batch_gathered
  batch_gathered-Continues results released live submitted =
      gathered_of-Continues live released (settle_results submitted results s)
        (settle_results-Frame submitted results s)

  submitted_of-Continues :
      (live : List WorkItem) (released : Option Exn)
      (r : List WorkItem × List WorkItem × Option Exn)
      → Continues s (submitted_of live released s r)
  submitted_of-Continues live released ([], left, e) =
      let t = refuse left e s in
      Frame-Continues (refuse-Frame left e s)
        (after_release-Continues after_batch released t (after_batch-Continues t))
  submitted_of-Continues live released (x ∷ xs, left, e) =
      Frame-Continues (refuse-Frame left e s) (record {
        started = refl;
        stopping = refl;
        asked = refl;
        shrinks = λ h. h;
        returns = λ h. ground arith;
      })

  pub batch_acquired-Continues :
      (refusal : ℕ → Option Exn) (released : Option Exn) (live : List WorkItem)
      → Continues s (batch_acquired refusal released live s)
  unfolding batch_acquired
  batch_acquired-Continues refusal released live =
      submitted_of-Continues live released (submit_items refusal live)

  begin_of-Continues : (live : List WorkItem) → Continues s (begin_of live s)
  begin_of-Continues [] = after_batch-Continues s
  begin_of-Continues (x ∷ xs) = record {
    started = refl;
    stopping = refl;
    asked = refl;
    shrinks = λ e. e;
    returns = λ e. ground arith;
  }

turn_of-Continues :
    (c : GrinderConfig) (now : ℕ) (items : List WorkItem) (s : GrinderState)
    → s.pending ≡ items
    → Continues s (loop_of (turn_of c now items s))
unfolding begin_batch drain_pending
turn_of-Continues c now [] s e = elim (Bool-cases s.stopping) [
  | inl stopping ↦ rw stopping (record {
    started = refl;
    stopping = refl;
    asked = refl;
    shrinks = λ k. k;
    returns = λ k. (refl, e);
  })
  | inr open_ ↦ rw open_ (record {
    started = refl;
    stopping = refl;
    asked = refl;
    shrinks = λ k. k;
    returns = λ k. ground arith;
  })
]
turn_of-Continues c now (x ∷ xs) s e = elim (Bool-cases (ready c now x s)) [
  | inr later ↦ rw later (record {
    started = refl;
    stopping = refl;
    asked = refl;
    shrinks = λ k. k;
    returns = λ k. ground arith;
  })
  | inl now_ ↦
      let t : GrinderState = record s { pending = [] } in
      let k = begin_of-Continues t (live_items s.futures (x ∷ xs)) in
      rw (now_, e)
        (record {
          started = k.started;
          stopping = k.stopping;
          asked = k.asked;
          shrinks = λ h. k.shrinks refl;
          returns = λ h. k.returns h;
        })
]

pub loop_turn-Continues :
    (c : GrinderConfig) (now : ℕ) (s : GrinderState) → Continues s (loop_turn c now s)
unfolding loop_turn wait_for_next_batch
loop_turn-Continues c now s = turn_of-Continues c now s.pending s refl
