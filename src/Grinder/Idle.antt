-- ===== src/Grinder/Idle.antt =====
-- When the loop of WorkGrinder (src/leasepool/grinder.py) waits for the results of a batch.
use leasepool.Base.{
  ℕ, Bool, true, false, Option, none, some, List, [], ◌∷◌, ◌≡◌, refl, arith, inl, inr, Bool-cases,
  List-cases, ap, sym, ◌∙◌,
}
use leasepool.Base.Exec.{Exn, Result}
use leasepool.Grinder.State.{
  was_cancelled, has_exception, WorkItem, GrinderConfig, Phase, gathering, killed, GrinderState,
  settle_batch,
}
use leasepool.Grinder.Batch.{
  batch_gathered, batch_cancelled, acquire_failed, loop_turn, loop_of, begin_of, Turn, batch, sleep,
  after_batch, after_release, loop_crashes, settle_results, gathered_of, begin_batch,
  wait_for_next_batch, live_items,
}
use leasepool.Grinder.Queue.{run_done_callback, run_removal}
use leasepool.Grinder.Steps.{
  GrinderStep, is_own, starts, enqueues, caller_cancels, calls_back, removes, turns,
  waiting_cancelled, stop_begins, stop_finishes, acquires, acquire_raises, gathers,
  acquire_cancelled, gather_cancelled,
}
use leasepool.Grinder.Lifecycle.{cancel_pending, stop_grinder_begin}
use leasepool.Grinder.Effects.{enqueue-cases, start-cases, stop_begin-cases, stop_finish-cases}
use leasepool.Grinder.Settling.{settle_if_open-Frame, settle_batch-Frame}
use leasepool.Grinder.Soundness.{Sound}

abbrev pub is_gathering : Phase → Bool
is_gathering (gathering live submitted) = true
is_gathering _ = false

-- The parts of the grinder that a batch ends in.
pub after_batch-Idle : (s : GrinderState) → is_gathering (after_batch s).phase ≡ false
unfolding after_batch
after_batch-Idle s = ground arith

loop_crashes-Idle : (s : GrinderState) → is_gathering (loop_crashes s).phase ≡ false
unfolding loop_crashes
loop_crashes-Idle s = refl

abbrev pub Idle : (GrinderState → GrinderState) → Type 0
Idle next = (s : GrinderState) → is_gathering (next s).phase ≡ false

pub after_release-Idle :
    (next : GrinderState → GrinderState)
    → Idle next
    → (released : Option Exn) → Idle (after_release next released)
after_release-Idle next idle none s = idle s
after_release-Idle next idle (some e) s = ground (arith, loop_crashes-Idle s)

gathered_of-Idle :
    (live : List WorkItem) (released : Option Exn) (x : Option Exn × GrinderState)
    → is_gathering (gathered_of live released x).phase ≡ false
gathered_of-Idle live released (none, s) =
    after_release-Idle after_batch after_batch-Idle released s
gathered_of-Idle live released (some e, s) =
    after_release-Idle after_batch after_batch-Idle released _

pub batch_gathered-Idle :
    (results : List (Result ℕ)) (released : Option Exn) (live submitted : List WorkItem)
    → Idle (batch_gathered results released live submitted)
unfolding batch_gathered
batch_gathered-Idle results released live submitted s =
    gathered_of-Idle live released (settle_results submitted results s)

pub batch_cancelled-Idle :
    (released : Option Exn) (live : List WorkItem) → Idle (batch_cancelled released live)
unfolding batch_cancelled
batch_cancelled-Idle released live s =
    after_release-Idle (λ t. record t { phase = killed }) (λ t. refl) released _

pub acquire_failed-Idle : (e : Exn) (live : List WorkItem) → Idle (acquire_failed e live)
unfolding acquire_failed
acquire_failed-Idle e live s = after_batch-Idle (settle_batch (has_exception e) live s)

begin_of-Idle : (items : List WorkItem) → Idle (begin_of items)
begin_of-Idle [] s = after_batch-Idle s
begin_of-Idle (x ∷ xs) s = refl

loop_of-Idle : (x : Turn × GrinderState) → is_gathering (loop_of x).phase ≡ false
unfolding begin_batch
loop_of-Idle (batch [], s) = ground arith
loop_of-Idle (batch (x ∷ xs), s) = begin_of-Idle (live_items s.futures (x ∷ xs)) s
loop_of-Idle (sleep _, s) = refl

loop_turn-Idle : (c : GrinderConfig) (now : ℕ) → Idle (loop_turn c now)
unfolding loop_turn
loop_turn-Idle c now s = loop_of-Idle (wait_for_next_batch c now s)

run_done_callback-phase : (s : GrinderState) → (run_done_callback s).phase ≡ s.phase
unfolding run_done_callback
run_done_callback-phase s = elim (List-cases s.done_callbacks) [
  | inl e ↦ ground arith
  | inr (f, fs, e) ↦ ground arith
]

run_removal-phase : (s : GrinderState) → (run_removal s).phase ≡ s.phase
unfolding run_removal
run_removal-phase s = elim (List-cases s.removals) [
  | inl e ↦ ground arith
  | inr (f, fs, e) ↦ ground arith
]

stop_begin-phase :
    (running : Option ℕ) (cancelling : Bool) (s : GrinderState)
    → (stop_grinder_begin running cancelling s).1.phase ≡ s.phase
unfolding cancel_pending
stop_begin-phase running cancelling s =
    let t : GrinderState = record s { stopping = true } in
    let f = settle_batch-Frame was_cancelled s.pending t in
    elim (stop_begin-cases s running cancelling) [
      | inl e ↦ ap (λ (u : GrinderState). u.phase) e
      | inr e ↦ elim (Bool-cases cancelling) [
        | inl yes_ ↦ ground (arith, e, f.phase)
        | inr no_ ↦ ground (arith, e)
      ]
    ]

-- A step of the grinder alone starts and ends no gathering.
pub own-gathering :
    (g : GrinderConfig) {s t : GrinderState}
    → Sound s
    → (step : GrinderStep g s t) → is_own step ≡ true
    → is_gathering t.phase ≡ is_gathering s.phase
own-gathering g {s} i (starts l) own = elim (start-cases s l) [
  | inl e ↦ rw e refl
  | inr (out, e) ↦ rw (e, i.rested out) refl
]
own-gathering g {s} i (enqueues running w call o now) own =
    elim (enqueue-cases s running w call o now) [
      | inl (x, e) ↦ rw e refl
      | inr (e, up, open_) ↦ rw e refl
    ]
own-gathering g {s} i (caller_cancels f h) own =
    ap is_gathering (settle_if_open-Frame f was_cancelled s).phase
own-gathering g {s} i calls_back own = ap is_gathering (run_done_callback-phase s)
own-gathering g {s} i removes own = ap is_gathering (run_removal-phase s)
own-gathering g {s} i (turns now h) own = loop_turn-Idle g now s ∙ sym (ap is_gathering h)
own-gathering g i (acquires refusal released live h) own = absurd (ground arith)
own-gathering g i (acquire_raises e live h) own = absurd (ground arith)
own-gathering g i (gathers results released live submitted h) own = absurd (ground arith)
own-gathering g {s} i (waiting_cancelled h) own = sym (ap is_gathering h)
own-gathering g i (acquire_cancelled live h) own = absurd (ground arith)
own-gathering g i (gather_cancelled released live submitted h) own = absurd (ground arith)
own-gathering g {s} i (stop_begins running cancelling) own =
    ap is_gathering (stop_begin-phase running cancelling s)
own-gathering g {s} i (stop_finishes cancelling h up stopping) own =
    elim (stop_finish-cases s cancelling) [
      | inl e ↦ rw e (ground (arith, h))
      | inr e ↦ rw e (ground (arith, h))
    ]
