-- ===== src/Grinder/Crash.antt =====
-- What the loop of WorkGrinder (src/leasepool/grinder.py) leaves behind when it crashes or is cancelled.
use leasepool.Base.{
  ℕ, Bool, true, false, ◌||◌, ◌&&◌, not, is_none, ◌≡◌, refl, Option, List, [], ◌∷◌, arith, ◌⊎◌, inl,
  inr, ◌==◌, Bool-cases, List-cases,
}
use leasepool.Grinder.State.{
  unsettled, was_cancelled, is_cancelled, is_done, WorkItem, GrinderConfig, Phase, absent, crashed,
  killed, GrinderState, settle_if_open, settle_batch,
}
use leasepool.Grinder.Queue.{run_done_callback, run_removal}
use leasepool.Grinder.Lifecycle.{cancel_pending, stop_grinder_begin}
use leasepool.Grinder.Effects.{enqueue-cases, start-cases, stop_begin-cases, stop_finish-cases}
use leasepool.Grinder.Settling.{settle_if_open-Frame, settle_batch-Frame}
use leasepool.Grinder.Steps.{
  GrinderStep, starts, enqueues, caller_cancels, calls_back, removes, turns, acquires,
  acquire_raises, gathers, waiting_cancelled, acquire_cancelled, gather_cancelled, stop_begins,
  stop_finishes,
}

-- Future `g` has no result and no exception.
abbrev Unanswered : ℕ → GrinderState → Type 0
Unanswered g s = (s.futures g ≡ unsettled) ⊎ (s.futures g ≡ was_cancelled)

settle_if_open-Unanswered :
    (g f : ℕ) (s : GrinderState) → Unanswered g s → Unanswered g (settle_if_open f was_cancelled s)
unfolding settle_if_open
settle_if_open-Unanswered g f s h = elim (Bool-cases (is_done (s.futures f))) [
  | inl e ↦ rw e h
  | inr e ↦ elim (Bool-cases (g == f)) [
    | inl here ↦ inr (ground arith)
    | inr other ↦ rw (e, other) h
  ]
]

settle_batch-Unanswered :
    (g : ℕ) (xs : List WorkItem) (s : GrinderState)
    → Unanswered g s
    → Unanswered g (settle_batch was_cancelled xs s)
unfolding settle_batch
settle_batch-Unanswered g [] s h = h
settle_batch-Unanswered g (x ∷ xs) s h =
    settle_batch-Unanswered g xs (settle_if_open x.result_future was_cancelled s)
      (settle_if_open-Unanswered g x.result_future s h)

-- The task is where it was, at `p`, or stop has returned since; and `g` is unanswered.
abbrev Dead : ℕ → Phase → GrinderState → Type 0
Dead g p s = ((s.phase ≡ p) ⊎ (s.phase ≡ absent)) × Unanswered g s

module _ (g : ℕ) (p : Phase) where
  run_done_callback-Dead : (s : GrinderState) → Dead g p s → Dead g p (run_done_callback s)
  unfolding run_done_callback
  run_done_callback-Dead s d = elim (List-cases s.done_callbacks) [
    | inl e ↦ rw e d
    | inr (f, fs, e) ↦
        elim (Bool-cases (is_cancelled (s.futures f) && not (is_none s.loop || s.loop_closed))) [
          | inl found ↦ rw (e, found) d
          | inr other ↦ rw (e, other) d
        ]
  ]

  run_removal-Dead : (s : GrinderState) → Dead g p s → Dead g p (run_removal s)
  unfolding run_removal
  run_removal-Dead s d = elim (List-cases s.removals) [ inl e ↦ rw e d | inr (f, fs, e) ↦ rw e d ]

  stop_begin-Dead :
      (running : Option ℕ) (cancelling : Bool) (s : GrinderState)
      → Dead g p s
      → Dead g p (stop_grinder_begin running cancelling s).1
  unfolding cancel_pending
  stop_begin-Dead running false s d = elim (stop_begin-cases s running false) [
    | inl e ↦ rw e d
    | inr e ↦ rw e d
  ]
  stop_begin-Dead running true s (q, u) =
      let t : GrinderState = record s { stopping = true } in
      let f = settle_batch-Frame was_cancelled s.pending t in
      elim (stop_begin-cases s running true) [
        | inl e ↦ rw e (q, u)
        | inr e ↦ rw e (rw (f.phase) q, settle_batch-Unanswered g s.pending t u)
      ]

-- The loop's task has ended without having returned by itself, or stop has returned since.
abbrev pub is_lost : Phase → Bool
is_lost crashed = true
is_lost killed = true
is_lost absent = true
is_lost _ = false

lost-step :
    (c : GrinderConfig) (g : ℕ) {s t : GrinderState}
    → GrinderStep c s t
    → s.started ≡ true
    → is_lost s.phase ≡ true
    → Unanswered g s
    → Dead g s.phase t
lost-step c g {s = s} (starts l) up h u = elim (start-cases s l) [
  | inl e ↦ rw e (inl refl, u)
  | inr (out, e) ↦ absurd (ground (arith, out, up))
]
lost-step c g {s = s} (enqueues running w call o now) up h u =
    elim (enqueue-cases s running w call o now) [
      | inl (x, e) ↦ rw e (inl refl, u)
      | inr (e, _, open_) ↦ rw e (
        inl refl,
        elim (Bool-cases (g == s.future_count)) [
          | inl here ↦ inl (ground arith)
          | inr other ↦ rw other u
        ],
      )
    ]
lost-step c g {s = s} (caller_cancels f k) up h u =
    (inl (settle_if_open-Frame f was_cancelled s).phase, settle_if_open-Unanswered g f s u)
lost-step c g {s = s} calls_back up h u = run_done_callback-Dead g s.phase s (inl refl, u)
lost-step c g {s = s} removes up h u = run_removal-Dead g s.phase s (inl refl, u)
lost-step c g (turns now k) up h u = absurd (ground (arith, h, k))
lost-step c g (acquires refusal released live k) up h u = absurd (ground (arith, h, k))
lost-step c g (acquire_raises e live k) up h u = absurd (ground (arith, h, k))
lost-step c g (gathers results released live submitted k) up h u = absurd (ground (arith, h, k))
lost-step c g (waiting_cancelled k) up h u = absurd (ground (arith, h, k))
lost-step c g (acquire_cancelled live k) up h u = absurd (ground (arith, h, k))
lost-step c g (gather_cancelled released live submitted k) up h u = absurd (ground (arith, h, k))
lost-step c g {s = s} (stop_begins running cancelling) up h u =
    stop_begin-Dead g s.phase running cancelling s (inl refl, u)
lost-step c g {s = s} (stop_finishes cancelling k _ stopping) up h u =
    elim (stop_finish-cases s cancelling) [
      | inl e ↦ rw e (inr refl, u)
      | inr e ↦ rw e (inr refl, u)
    ]

-- What a grinder comes to while it stays started.
pub data StaysStarted (c : GrinderConfig) (s : GrinderState) : GrinderState → Type 0 where
  not_yet : StaysStarted c s s
  goes_on :
      {t u : GrinderState}
      → StaysStarted c s t
      → GrinderStep c t u
      → u.started ≡ true
      → StaysStarted c s u

lost-run :
    (c : GrinderConfig) (g : ℕ) {s t : GrinderState}
    → s.started ≡ true
    → is_lost s.phase ≡ true
    → Unanswered g s
    → StaysStarted c s t
    → (t.started ≡ true) × (is_lost t.phase ≡ true) × Unanswered g t
lost-run c g up h u not_yet = (up, h, u)
lost-run c g up h u (goes_on before step still) =
    let (going, lost, v) = lost-run c g up h u before in
    let (where_, w) = lost-step c g step going lost v in (still, ground (arith, where_, lost), w)

-- Once the loop of a started grinder has crashed, or its task was cancelled, as by the cancellation of
-- a stop that awaits it, nothing answers a call: while the grinder stays started, whatever is called,
-- start included, the loop does not run again, and no future that has no result and no exception,
-- of a call that was made before or comes later, is given one.
pub lost_loop-unanswered :
    (c : GrinderConfig) (g : ℕ) {s t : GrinderState}
    → s.started ≡ true
    → (s.phase ≡ crashed) ⊎ (s.phase ≡ killed)
    → (s.futures g ≡ unsettled) ⊎ (s.futures g ≡ was_cancelled)
    → StaysStarted c s t
    → ((t.phase ≡ crashed) ⊎ (t.phase ≡ killed) ⊎ (t.phase ≡ absent))
      × ((t.futures g ≡ unsettled) ⊎ (t.futures g ≡ was_cancelled))
lost_loop-unanswered c g up h u run =
    let (_, lost, v) = lost-run c g up (ground (arith, h)) u run in (ground (arith, lost), v)

-- One step after a crash: it leaves the loop crashed, or is the end of stop and leaves no task, and it
-- gives no result and no exception to a future that has none.
crashed-unanswered :
    (c : GrinderConfig) (g : ℕ) {s t : GrinderState}
    → GrinderStep c s t
    → s.started ≡ true
    → s.phase ≡ crashed
    → (s.futures g ≡ unsettled) ⊎ (s.futures g ≡ was_cancelled)
    → ((t.phase ≡ crashed) ⊎ (t.phase ≡ absent))
      × ((t.futures g ≡ unsettled) ⊎ (t.futures g ≡ was_cancelled))
crashed-unanswered c g step up h u =
    let (where_, v) = lost-step c g step up (ground (arith, h)) u in (ground (arith, where_, h), v)
