-- ===== src/Grinder/Stopping.antt =====
-- Once stop was called, the loop of WorkGrinder (src/leasepool/grinder.py) ends after a few steps.
use leasepool.Base.{
  ℕ, Bool, true, false, is_empty, ◌<◌, ◌≡◌, refl, ◌∙◌, Option, none, some, List, [], ◌∷◌, arith,
  inl, inr, Bool-cases,
}
use leasepool.Base.Exec.{Exn, cancelled, Result}
use leasepool.Grinder.State.{
  has_exception, was_cancelled, WorkItem, GrinderConfig, Phase, absent, waiting, over, killed,
  crashed, acquiring, gathering, GrinderState, settle_batch,
}
use leasepool.Grinder.Batch.{
  loop_turn, wait_for_next_batch, turn_of, loop_of, ready, drain_pending, begin_batch, begin_of,
  after_batch, live_items, loop_crashes, after_release, refuse, submitted_of, submit_items,
  batch_acquired, acquire_failed, settle_results, gathered_of, batch_gathered, batch_cancelled,
}
use leasepool.Grinder.Settling.{
  Frame, Frame-trans, settle_batch-Frame, settle_results-Frame, refuse-Frame,
}

-- What is left of the loop once it stops: the awaits that it can still come to, and those of one
-- more batch when there is work pending.
abbrev pub weight : Phase → Bool → ℕ
weight waiting true = 3
weight (acquiring live) true = 2
weight (gathering live submitted) true = 1
weight (acquiring live) false = 6
weight (gathering live submitted) false = 5
weight waiting false = 4
weight absent empty = 0
weight over empty = 0
weight killed empty = 0
weight crashed empty = 0

abbrev pub rank : GrinderState → ℕ
rank s = weight s.phase (is_empty s.pending)

-- What a batch may leave: less than a batch in gather.
abbrev pub Less : GrinderState → GrinderState → Type 0
Less s t = rank t < weight (gathering [] []) (is_empty s.pending)

after_batch-Less : (s : GrinderState) → s.stopping ≡ true → Less s (after_batch s)
unfolding after_batch
after_batch-Less s h = elim (Bool-cases (is_empty s.pending)) [
  | inl e ↦ rw (h, e) (omega arith)
  | inr e ↦ rw (h, e) (omega arith)
]

killed-Less : (s : GrinderState) → Less s (record s { phase = killed })
killed-Less s = elim (Bool-cases (is_empty s.pending)) [
  | inl e ↦ rw e (omega arith)
  | inr e ↦ rw e (omega arith)
]

loop_crashes-Less : (s : GrinderState) → Less s (loop_crashes s)
unfolding loop_crashes
loop_crashes-Less s = elim (Bool-cases (is_empty s.pending)) [
  | inl e ↦ rw e (omega arith)
  | inr e ↦ rw e (omega arith)
]

after_release-Less :
    (next : GrinderState → GrinderState) (released : Option Exn) (s : GrinderState)
    → Less s (next s)
    → Less s (after_release next released s)
after_release-Less next none s k = k
after_release-Less next (some cancelled) s k = killed-Less s
after_release-Less next (some _) s k = loop_crashes-Less s

-- The same after a batch was settled.
Frame-Less : {s t : GrinderState} (u : GrinderState) → Frame s t → Less t u → Less s u
Frame-Less u f k = rw⁻¹ f.pending k

pub Less-acquiring :
    {live : List WorkItem} (s t : GrinderState)
    → s.phase ≡ acquiring live
    → Less s t
    → rank t < rank s
Less-acquiring s t p k = elim (Bool-cases (is_empty s.pending)) [
  | inl e ↦ ground arith
  | inr e ↦ ground arith
]

pub Less-gathering :
    {live submitted : List WorkItem} (s t : GrinderState)
    → s.phase ≡ gathering live submitted
    → Less s t
    → rank t < rank s
Less-gathering s t p k = elim (Bool-cases (is_empty s.pending)) [
  | inl e ↦ ground arith
  | inr e ↦ ground arith
]

below-waiting : {p : Phase} {n : ℕ} → p ≡ waiting → n < 4 → n < weight p false
below-waiting e h = rw e h

begin_of-rank :
    (live : List WorkItem) (t : GrinderState)
    → t.stopping ≡ true
    → t.pending ≡ []
    → rank (begin_of live t) < 4
unfolding after_batch
begin_of-rank [] t h e = rw (h, e) (omega arith)
begin_of-rank (x ∷ xs) t h e = rw e (omega arith)

module _ (s : GrinderState) (h : s.stopping ≡ true) where
  -- A batch that goes on from `t`, after settling it from `s`, and ends.
  ends-Less :
      (released : Option Exn) (t : GrinderState)
      → Frame s t
      → Less s (after_release after_batch released t)
  ends-Less released t f =
      Frame-Less (after_release after_batch released t) f
        (after_release-Less after_batch released t (after_batch-Less t (f.stopping ∙ h)))

  gathered_of-Less :
      (live : List WorkItem) (released : Option Exn) (r : Option Exn × GrinderState)
      → Frame s r.1
      → Less s (gathered_of live released r)
  gathered_of-Less live released (none, t) f = ends-Less released t f
  gathered_of-Less live released (some e, t) f =
      ends-Less released (settle_batch (has_exception e) live t)
        (Frame-trans f (settle_batch-Frame (has_exception e) live t))

  pub batch_gathered-Less :
      (results : List (Result ℕ)) (released : Option Exn) (live submitted : List WorkItem)
      → Less s (batch_gathered results released live submitted s)
  unfolding batch_gathered
  batch_gathered-Less results released live submitted =
      gathered_of-Less live released (settle_results submitted results s)
        (settle_results-Frame submitted results s)

  pub acquire_failed-Less : (e : Exn) (live : List WorkItem) → Less s (acquire_failed e live s)
  unfolding acquire_failed
  acquire_failed-Less e live =
      ends-Less none (settle_batch (has_exception e) live s)
        (settle_batch-Frame (has_exception e) live s)

  pub batch_cancelled-Less :
      (released : Option Exn) (live : List WorkItem) → Less s (batch_cancelled released live s)
  unfolding batch_cancelled
  batch_cancelled-Less released live =
      let t = settle_batch was_cancelled live s in
      let after = after_release (λ u. record u { phase = killed }) released t in
      Frame-Less after (settle_batch-Frame was_cancelled live s)
        (after_release-Less (λ u. record u { phase = killed }) released t (killed-Less t))

  submitted_of-rank :
      (live : List WorkItem) (released : Option Exn)
      (r : List WorkItem × List WorkItem × Option Exn)
      → s.phase ≡ acquiring live
      → rank (submitted_of live released s r) < rank s
  submitted_of-rank live released ([], left, e) p =
      let t = refuse left e s in
      Less-acquiring s (after_release after_batch released t) p
        (ends-Less released t (refuse-Frame left e s))
  submitted_of-rank live released (x ∷ xs, left, e) p =
      let f = refuse-Frame left e s in
      elim (Bool-cases (is_empty s.pending)) [
        | inl k ↦ ground (arith, f.pending)
        | inr k ↦ ground (arith, f.pending)
      ]

  turn_of-rank :
      (c : GrinderConfig) (now : ℕ) (items : List WorkItem)
      → s.pending ≡ items
      → s.phase ≡ waiting
      → rank (loop_of (turn_of c now items s)) < rank s
  unfolding begin_batch drain_pending
  turn_of-rank c now [] e p = rw (h, e, p) (omega arith)
  turn_of-rank c now (x ∷ xs) e p =
      let t : GrinderState = record s { pending = [] } in
      let all : ready c now x s ≡ true = ground arith in
      let below = begin_of-rank (live_items s.futures (x ∷ xs)) t h refl in
      rw (all, e) (below-waiting p below)

  pub batch_acquired-rank :
      (refusal : ℕ → Option Exn) (released : Option Exn) (live : List WorkItem)
      → s.phase ≡ acquiring live
      → rank (batch_acquired refusal released live s) < rank s
  unfolding batch_acquired
  batch_acquired-rank refusal released live p =
      submitted_of-rank live released (submit_items refusal live) p

pub loop_turn-rank :
    (c : GrinderConfig) (now : ℕ) (s : GrinderState)
    → s.stopping ≡ true
    → s.phase ≡ waiting
    → rank (loop_turn c now s) < rank s
unfolding loop_turn wait_for_next_batch
loop_turn-rank c now s h p = turn_of-rank s h c now s.pending refl p

pub killed-rank :
    (s : GrinderState) → s.phase ≡ waiting → rank (record s { phase = killed }) < rank s
killed-rank s p = elim (Bool-cases (is_empty s.pending)) [
  | inl e ↦ ground arith
  | inr e ↦ ground arith
]
