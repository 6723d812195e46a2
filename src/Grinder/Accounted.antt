-- ===== src/Grinder/Accounted.antt =====
-- No future is lost: the invariant of one future over the steps of WorkGrinder
-- (src/leasepool/grinder.py).
use leasepool.Base.{
  ℕ, Bool, true, false, ◌||◌, ◌&&◌, is_empty, ◌<◌, ◌≡◌, Option, none, some, List, [], ◌∷◌, arith,
  refl, inl, inr, Bool-cases, member,
}
use leasepool.Base.Exec.{Exn, cancelled, runtime_error, Result}
use leasepool.Grinder.State.{
  FutureState, was_cancelled, has_exception, is_done, WorkItem, Phase, killed, acquiring, gathering,
  GrinderState, settle_batch,
}
use leasepool.Grinder.Batch.{
  after_batch, loop_crashes, after_release, gathered_of, submitted_of, refuse, submit_items,
  batch_acquired, acquire_failed, settle_results, batch_gathered, batch_cancelled,
}
use leasepool.Grinder.Settling

-- Whether the batch under way has an item of future `g`.
abbrev pub held : ℕ → Phase → Bool
held g (acquiring live) = Settling.queued g live
held g (gathering live submitted) = Settling.queued g live
held g _ = false

-- Whether the batch under way has still to settle future `g`.
abbrev pub owed : ℕ → Phase → Bool
owed g (acquiring live) = Settling.queued g live
owed g (gathering live submitted) = Settling.queued g submitted
owed g _ = false

-- Future `g` exists when something knows it; then it is settled, pending, or owed by the batch.
pub record Tracked (g count : ℕ) (done waits holds owes removing : Bool) : Type 0 where
  pub exists_ : (done || waits || holds) ≡ true → g < count
  pub covered : g < count → (done || waits || owes) ≡ true
  pub within : owes ≡ true → holds ≡ true
  pub gone : removing ≡ true → done ≡ true

abbrev pub Accounted : ℕ → GrinderState → Type 0
Accounted g s =
    Tracked g s.future_count (is_done (s.futures g)) (Settling.queued g s.pending) (held g s.phase)
      (owed g s.phase) (member g s.removals)

-- Nothing is owed: the batch has ended.
abbrev pub Idle : ℕ → Bool → GrinderState → Type 0
Idle g d s =
    Tracked g s.future_count d (Settling.queued g s.pending) false false (member g s.removals)

pub after_batch-Accounted :
    (g : ℕ) (s : GrinderState) → Idle g (is_done (s.futures g)) s → Accounted g (after_batch s)
unfolding after_batch
after_batch-Accounted g s i = elim (Bool-cases (s.stopping && is_empty s.pending)) [
  | inl e ↦
      rw e (record { exists_ = i.exists_; covered = i.covered; within = λ h. h; gone = i.gone })
  | inr e ↦
      rw e (record { exists_ = i.exists_; covered = i.covered; within = λ h. h; gone = i.gone })
]

pub loop_crashes-Accounted :
    (g : ℕ) (s : GrinderState) → Idle g (is_done (s.futures g)) s → Accounted g (loop_crashes s)
unfolding loop_crashes
loop_crashes-Accounted g s i =
    let v = has_exception runtime_error in
    let f = Settling.settle_batch-Frame v s.pending s in
    let d = Settling.settle_batch-done g v s.pending s refl in
    record {
      exists_ = ground (arith, i.exists_, f.future_count);
      covered = λ h. ground (arith, i.covered, f.future_count);
      within = λ h. h;
      gone = λ h. ground (arith, i.gone, f.removals);
    }

abbrev killed_of : GrinderState → GrinderState
killed_of s = record s { phase = killed }

killed-Accounted :
    (g : ℕ) (s : GrinderState) → Idle g (is_done (s.futures g)) s → Accounted g (killed_of s)
killed-Accounted g s i = record {
  exists_ = i.exists_;
  covered = i.covered;
  within = λ h. h;
  gone = i.gone;
}

pub after_release-Accounted :
    (g : ℕ) (next : GrinderState → GrinderState) (released : Option Exn) (s : GrinderState)
    → Accounted g (next s)
    → Idle g (is_done (s.futures g)) s
    → Accounted g (after_release next released s)
after_release-Accounted g next none s a i = a
after_release-Accounted g next (some cancelled) s a i = killed-Accounted g s i
after_release-Accounted g next (some _) s a i = loop_crashes-Accounted g s i

-- A batch that is settled with at least what is owed, and no stranger, leaves nothing to do.
pub settle_batch-Idle :
    (g : ℕ) (v : FutureState) (xs : List WorkItem) (s : GrinderState)
    → is_done v ≡ true
    → Accounted g s
    → (owed g s.phase ≡ true → Settling.queued g xs ≡ true)
    → (Settling.queued g xs ≡ true → held g s.phase ≡ true)
    → let t = settle_batch v xs s in Idle g (is_done (t.futures g)) t
settle_batch-Idle g v xs s settles a all only =
    let f = Settling.settle_batch-Frame v xs s in
    let d = Settling.settle_batch-done g v xs s settles in
    record {
      exists_ = λ h. ground (arith, a.exists_, only, f.future_count, f.pending);
      covered = λ h. ground (arith, a.covered, all, f.future_count, f.pending);
      within = λ h. h;
      gone = λ h. ground (arith, a.gone, f.removals);
    }

gathered_of-Accounted :
    {g : ℕ} (live : List WorkItem) (released : Option Exn) (r : Option Exn × GrinderState)
    → (r.0 ≡ none → Idle g (is_done (r.1.futures g)) r.1)
    → ((x : Exn)
        → let t = settle_batch (has_exception x) live r.1 in Idle g (is_done (t.futures g)) t)
    → Accounted g (gathered_of live released r)
gathered_of-Accounted {g = g} live released (none, t) i j =
    after_release-Accounted g after_batch released t (after_batch-Accounted g t (i refl)) (i refl)
gathered_of-Accounted {g = g} live released (some e, t) i j =
    let u = settle_batch (has_exception e) live t in
    after_release-Accounted g after_batch released u (after_batch-Accounted g u (j e)) (j e)

refuse-done :
    (g : ℕ) (left : List WorkItem) (e : Option Exn) (s : GrinderState)
    → (e ≡ none → left ≡ [])
    → is_done ((refuse left e s).futures g) ≡ (is_done (s.futures g) || Settling.queued g left)
refuse-done g left none s all = let nothing = all refl in ground arith
refuse-done g left (some e) s all = Settling.settle_batch-done g (has_exception e) left s refl

module _ (g : ℕ) (s : GrinderState) (a : Accounted g s) where
  pub acquire_failed-Accounted :
      (e : Exn) (live : List WorkItem)
      → s.phase ≡ acquiring live
      → Accounted g (acquire_failed e live s)
  unfolding acquire_failed
  acquire_failed-Accounted e live h =
      after_batch-Accounted g (settle_batch (has_exception e) live s) (
        settle_batch-Idle g (has_exception e) live s refl a (λ k. ground (arith, h))
          (λ k. ground (arith, h)))

  pub batch_cancelled-Accounted :
      (released : Option Exn) (live : List WorkItem)
      → (owed g s.phase ≡ true → Settling.queued g live ≡ true)
      → (Settling.queued g live ≡ true → held g s.phase ≡ true)
      → Accounted g (batch_cancelled released live s)
  unfolding batch_cancelled
  batch_cancelled-Accounted released live all only =
      let t = settle_batch was_cancelled live s in
      let i = settle_batch-Idle g was_cancelled live s refl a all only in
      after_release-Accounted g killed_of released t (killed-Accounted g t i) i

  results-Accounted :
      (results : List (Result ℕ)) (live submitted : List WorkItem)
      → s.phase ≡ gathering live submitted
      → Accounted g (settle_results submitted results s).1
  results-Accounted results live submitted h =
      let f = Settling.settle_results-Frame submitted results s in
      let only = Settling.settle_results-only g submitted results s in
      let keeps = Settling.settle_results-keeps g submitted results s in
      record {
        exists_ =
            λ k. ground (arith, a.exists_, a.within, only, f.pending, f.phase, f.future_count, h);
        covered = λ k. ground (arith, a.covered, keeps, f.pending, f.phase, f.future_count);
        within = λ k. ground (arith, a.within, f.phase);
        gone = λ k. keeps (a.gone (ground (arith, f.removals)));
      }

  submitted_of-Accounted :
      (live : List WorkItem) (released : Option Exn)
      (r : List WorkItem × List WorkItem × Option Exn)
      → s.phase ≡ acquiring live
      → (Settling.queued g r.0 || Settling.queued g r.1) ≡ Settling.queued g live
      → (r.2 ≡ none → r.1 ≡ [])
      → Accounted g (submitted_of live released s r)
  submitted_of-Accounted live released ([], left, e) h split all =
      let t = refuse left e s in
      let f = Settling.refuse-Frame left e s in
      let d = refuse-done g left e s all in
      let i : Idle g (is_done (t.futures g)) t = record {
        exists_ = λ k. ground (arith, a.exists_, f.pending, f.future_count, h);
        covered = λ k. ground (arith, a.covered, f.pending, f.future_count, h);
        within = λ k. k;
        gone = λ k. ground (arith, a.gone, f.removals);
      } in
      after_release-Accounted g after_batch released t (after_batch-Accounted g t i) i
  submitted_of-Accounted live released (x ∷ xs, left, e) h split all =
      let f = Settling.refuse-Frame left e s in
      let d = refuse-done g left e s all in
      record {
        exists_ = λ k. ground (arith, a.exists_, f.pending, f.future_count, h);
        covered = λ k. ground (arith, a.covered, f.pending, f.future_count, h);
        within = λ k. ground arith;
        gone = λ k. ground (arith, a.gone, f.removals);
      }

  pub batch_gathered-Accounted :
      (results : List (Result ℕ)) (released : Option Exn) (live submitted : List WorkItem)
      → s.phase ≡ gathering live submitted
      → Accounted g (batch_gathered results released live submitted s)
  unfolding batch_gathered
  batch_gathered-Accounted results released live submitted h =
      let t = (settle_results submitted results s).1 in
      let b = results-Accounted results live submitted h in
      let f = Settling.settle_results-Frame submitted results s in
      gathered_of-Accounted live released (settle_results submitted results s)
        (λ e. record {
          exists_ = λ k. ground (arith, b.exists_);
          covered = λ k. ground (
            arith,
            a.covered,
            f.future_count,
            f.pending,
            h,
            Settling.settle_results-done g submitted results s e,
          );
          within = λ k. k;
          gone = b.gone;
        })
        (λ x.
          settle_batch-Idle g (has_exception x) live t refl b
            (λ k. ground (arith, b.within, f.phase, h)) (λ k. ground (arith, f.phase, h)))

  pub batch_acquired-Accounted :
      (refusal : ℕ → Option Exn) (released : Option Exn) (live : List WorkItem)
      → s.phase ≡ acquiring live
      → Accounted g (batch_acquired refusal released live s)
  unfolding batch_acquired
  batch_acquired-Accounted refusal released live h =
      submitted_of-Accounted live released (submit_items refusal live) h
        (Settling.submit_items-queued g refusal live) (Settling.submit_items-all refusal live)
