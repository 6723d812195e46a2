-- ===== src/Grinder/Kept.antt =====
-- The calls, callbacks and turns of WorkGrinder (src/leasepool/grinder.py) keep a future accounted
-- for.
use leasepool.Base.{
  ℕ, String, Bool, true, false, ◌||◌, ◌&&◌, not, is_none, ◌≡◌, Option, List, [], ◌∷◌, ◌++◌, ltb,
  ltb→lt, ◌==◌, arith, refl, inl, inr, Bool-cases, List-cases, member,
}
use leasepool.Grinder.State.{
  was_cancelled, is_done, is_cancelled, WorkItem, GrinderConfig, Phase, absent, waiting, over,
  killed, crashed, acquiring, gathering, GrinderState, settle_if_open,
}
use leasepool.Grinder.Queue.{enqueue, run_done_callback, run_removal}
use leasepool.Grinder.Batch.{
  loop_turn, wait_for_next_batch, turn_of, drain_pending, begin_batch, begin_of, loop_of,
  live_items, ready,
}
use leasepool.Grinder.Lifecycle.{start_grinder, cancel_pending, stop_grinder_finish, ended}
use leasepool.Grinder.Effects.{new_item, enqueue-cases, start-cases, stop_finish-cases}
use leasepool.Grinder.Settling
use leasepool.Grinder.Accounted

-- A member of a list with `f` put last is `f` or a member of the list.
member-last :
    (g f : ℕ) (xs : List ℕ) {P : Type 0}
    → member g (xs ++ f ∷ []) ≡ true
    → (member g xs ≡ true → P)
    → (f ≡ g → P)
    → P
member-last g f [] k old new_ = new_ (ground arith)
member-last g f (x ∷ xs) k old new_ = elim (Bool-cases (x == g)) [
  | inl here ↦ old (ground arith)
  | inr other ↦ member-last g f xs (ground arith) (λ h. old (ground arith)) new_
]

module _ (g : ℕ) where
  begin_of-Accounted :
      (live : List WorkItem) (s : GrinderState)
      → Accounted.Tracked g s.future_count
          (is_done (s.futures g))
          (Settling.queued g s.pending)
          (Settling.queued g live)
          (Settling.queued g live)
          (member g s.removals)
      → Accounted.Accounted g (begin_of live s)
  begin_of-Accounted [] s i = Accounted.after_batch-Accounted g s i
  begin_of-Accounted (x ∷ xs) s i = record {
    exists_ = i.exists_;
    covered = i.covered;
    within = λ h. h;
    gone = i.gone;
  }

  turn_of-Accounted :
      (c : GrinderConfig) (now : ℕ) (items : List WorkItem) (s : GrinderState)
      → s.pending ≡ items
      → s.phase ≡ waiting
      → Accounted.Accounted g s
      → Accounted.Accounted g (loop_of (turn_of c now items s))
  unfolding begin_batch drain_pending
  turn_of-Accounted c now [] s e h a = elim (Bool-cases s.stopping) [
    | inl stopping ↦ rw stopping (record {
      exists_ = λ k. ground (arith, a.exists_);
      covered = λ k. ground (arith, a.covered);
      within = λ k. k;
      gone = a.gone;
    })
    | inr open_ ↦ rw open_ (record {
      exists_ = λ k. ground (arith, a.exists_);
      covered = λ k. ground (arith, a.covered);
      within = λ k. k;
      gone = a.gone;
    })
  ]
  turn_of-Accounted c now (x ∷ xs) s e h a = elim (Bool-cases (ready c now x s)) [
    | inr later ↦ rw later (record {
      exists_ = λ k. ground (arith, a.exists_);
      covered = λ k. ground (arith, a.covered);
      within = λ k. k;
      gone = a.gone;
    })
    | inl now_ ↦
        let (same, only) = Settling.live_items-queued g s.futures (x ∷ xs) in
        rw (now_, e)
          (begin_of-Accounted (live_items s.futures (x ∷ xs)) (record s { pending = [] })
            (record {
              exists_ = λ k. ground (arith, a.exists_, only, e);
              covered = λ k. ground (arith, a.covered, e);
              within = λ k. k;
              gone = a.gone;
            }))
  ]

pub ended-owes : (g : ℕ) (p : Phase) → ended p ≡ true → Accounted.owed g p ≡ false
ended-owes g absent h = refl
ended-owes g over h = refl
ended-owes g killed h = refl
ended-owes g crashed h = refl
ended-owes g waiting h = refl
ended-owes g (acquiring live) h = ground arith
ended-owes g (gathering live submitted) h = ground arith

module _ (g : ℕ) (s : GrinderState) (a : Accounted.Accounted g s) where
  pub caller_cancels-Accounted :
      (f : ℕ)
      → ltb f s.future_count ≡ true
      → Accounted.Accounted g (settle_if_open f was_cancelled s)
  caller_cancels-Accounted f h =
      let fr = Settling.settle_if_open-Frame f was_cancelled s in
      let d = Settling.settle_if_open-done g was_cancelled f s refl in
      record {
        exists_ = λ k.
            ground
              (arith, a.exists_, ltb→lt f s.future_count h, fr.pending, fr.phase, fr.future_count);
        covered = λ k. ground (arith, a.covered, fr.pending, fr.phase, fr.future_count);
        within = λ k. ground (arith, a.within, fr.phase);
        gone = λ k. ground (arith, a.gone, fr.removals);
      }

  pub enqueue-Accounted :
      (running : Option ℕ) (w call : ℕ) (o : Option String) (now : ℕ)
      → Accounted.Accounted g (enqueue running w call o now s).1
  enqueue-Accounted running w call o now =
      let more = Settling.queued-append g s.pending (new_item w call o now s ∷ []) in
      elim (enqueue-cases s running w call o now) [
        | inl (x, e) ↦ rw e a
        | inr (e, running_, open_) ↦ rw e (record {
          exists_ = λ k. ground (arith, a.exists_, more);
          covered = λ k. ground (arith, a.covered, more);
          within = a.within;
          gone = λ k. ground (arith, a.gone, a.exists_);
        })
      ]

  pub run_done_callback-Accounted : Accounted.Accounted g (run_done_callback s)
  unfolding run_done_callback
  run_done_callback-Accounted = elim (List-cases s.done_callbacks) [
    | inl e ↦ rw e a
    | inr (f, fs, e) ↦
        elim (Bool-cases (is_cancelled (s.futures f) && not (is_none s.loop || s.loop_closed))) [
          | inr other ↦
              rw (e, other)
                (record {
                  exists_ = a.exists_;
                  covered = a.covered;
                  within = a.within;
                  gone = a.gone;
                })
          | inl found ↦
              rw (e, found)
                (record {
                  exists_ = a.exists_;
                  covered = a.covered;
                  within = a.within;
                  gone = λ k.
                      member-last g f s.removals k a.gone
                        (λ here. ground (arith, Settling.cancelled-done (s.futures f)));
                })
        ]
  ]

  pub run_removal-Accounted : Accounted.Accounted g (run_removal s)
  unfolding run_removal
  run_removal-Accounted = elim (List-cases s.removals) [
    | inl e ↦ rw e (record {
      exists_ = a.exists_;
      covered = a.covered;
      within = a.within;
      gone = λ k. ground arith;
    })
    | inr (f, fs, e) ↦
        let (back, kept) = Settling.without_future-queued g f s.pending in
        rw e (record {
          exists_ = λ k. ground (arith, a.exists_, back);
          covered = λ k. elim (Bool-cases (f == g)) [
            | inl here ↦ ground (arith, a.gone, e)
            | inr other ↦ ground (arith, a.covered, kept)
          ];
          within = a.within;
          gone = λ k. ground (arith, a.gone, e);
        })
  ]

  pub start_grinder-Accounted :
      (l : ℕ) → (s.started ≡ false → s.phase ≡ absent) → Accounted.Accounted g (start_grinder l s).1
  start_grinder-Accounted l h = elim (start-cases s l) [
    | inl e ↦ rw e a
    | inr (out, e) ↦ rw e (record {
      exists_ = λ k. ground (arith, a.exists_);
      covered = λ k. ground (arith, a.covered, h out);
      within = λ k. k;
      gone = a.gone;
    })
  ]

  pub cancel_pending-Accounted : Accounted.Accounted g (cancel_pending s)
  unfolding cancel_pending
  cancel_pending-Accounted =
      let v = was_cancelled in
      let f = Settling.settle_batch-Frame v s.pending s in
      let d = Settling.settle_batch-done g v s.pending s refl in
      record {
        exists_ = λ h. ground (arith, a.exists_, f.future_count, f.phase);
        covered = λ h. ground (arith, a.covered, f.future_count, f.phase);
        within = λ h. ground (arith, a.within, f.phase);
        gone = λ h. ground (arith, a.gone, f.removals);
      }

  pub killed-Accounted : s.phase ≡ waiting → Accounted.Accounted g (record s { phase = killed })
  killed-Accounted h = record {
    exists_ = λ k. ground (arith, a.exists_);
    covered = λ k. ground (arith, a.covered);
    within = λ k. k;
    gone = a.gone;
  }

  pub stop_grinder_finish-Accounted :
      (cancelling : Bool)
      → ended s.phase ≡ true
      → Accounted.Accounted g (stop_grinder_finish cancelling s).1
  stop_grinder_finish-Accounted cancelling h =
      let nothing = ended-owes g s.phase h in
      elim (stop_finish-cases s cancelling) [
        | inl e ↦ rw e (record {
          exists_ = λ k. ground (arith, a.exists_);
          covered = λ k. ground (arith, a.covered);
          within = λ k. k;
          gone = a.gone;
        })
        | inr e ↦ rw e (record {
          exists_ = λ k. ground (arith, a.exists_);
          covered = λ k. ground (arith, a.covered);
          within = λ k. k;
          gone = a.gone;
        })
      ]

  pub loop_turn-Accounted :
      (c : GrinderConfig) (now : ℕ) → s.phase ≡ waiting → Accounted.Accounted g (loop_turn c now s)
  unfolding loop_turn wait_for_next_batch
  loop_turn-Accounted c now h = turn_of-Accounted g c now s.pending s refl h a
