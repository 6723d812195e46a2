-- ===== src/Manager/Retirement.antt =====
-- The life of one executor under LeasedExecutorManager (src/leasepool/manager.py), against a small
-- automaton that says what may become of it.
use leasepool.Base.{
  ℕ, ◌+◌, ◌≡◌, ◌≤◌, ◌<◌, Bool, true, false, [], ◌∷◌, ltb, ◌==◌, if◌then◌else◌, arith, inl, inr,
  List-cases,
}
use leasepool.Manager.Config.{Config}
use leasepool.Manager.State.{State, set_event, shut_down}
use leasepool.Manager.Steps.{Reach, run_callback, run_closing}
use leasepool.Manager.Ledger.Count.{
  Inv, count, count_leased, count_ready, count-append, count_ready-append,
}
use leasepool.Manager.Ledger.Reach.{Reach-Inv, Step-Inv}
use leasepool.Manager.Writes.{
  Write, aside, inserts, removes, updates, empties, shuts, closes, calls_soon, turns,
}
use leasepool.Manager.Writes.Steps.{Later, now, after, Later-keeps}

-- Where an executor is: not built yet, idle, lent, on its way to a shutdown, shut down, or in the
-- manager's hands no more.
pub data Stage : Type 0 where
  unbuilt idle lent ending gone nowhere : Stage

-- What may become of an executor: it is lent and returned any number of times, then it ends. What
-- ends is shut down, and nothing comes back.
abbrev pub may_become : Stage → Stage → Bool
may_become unbuilt y = true
may_become idle unbuilt = false
may_become idle y = true
may_become lent unbuilt = false
may_become lent y = true
may_become ending ending = true
may_become ending gone = true
may_become ending y = false
may_become gone gone = true
may_become gone y = false
may_become nowhere nowhere = true
may_become nowhere y = false

abbrev stage_of : ℕ → ℕ → ℕ → ℕ → ℕ → Stage
stage_of built available leased to_shut shut =
    if built == 0
    then unbuilt
    else if ltb 0 shut
    then gone
    else if ltb 0 to_shut
    then ending
    else if ltb 0 leased
    then lent
    else if ltb 0 available
    then idle
    else nowhere

abbrev pub stage : ℕ → State → Stage
stage n s =
    stage_of (count n s.built) (count n s.available) (count_leased n s.leased)
      (count_ready n s.ready + count n s.closing) (count n s.shut)

-- What grows for ever: the executors that are shut down, those that are or will be, and those built.
record Above (n shut to_shut built : ℕ) (s : State) : Type 0 where
  shut_on : shut ≤ count n s.shut
  ends_on : to_shut ≤ count_ready n s.ready + count n s.closing + count n s.shut
  built_on : built ≤ count n s.built

module _ (n q w b : ℕ) where
  abbrev P : State → Type 0
  P = Above n q w b

  Write-Above : {uuid : ℕ → ℕ} → (s t : State) → Write uuid false s t → P s → P t
  Write-Above s t (aside _ e1 e2 e3 e4 e5 _ grows) h =
      let g = grows n in
      record {
        shut_on = ground (arith, h.shut_on, e4);
        ends_on = ground (arith, h.ends_on, e2, e3, e4);
        built_on = omega (arith, h.built_on, g);
      }
  Write-Above s t (inserts r named e) h =
      rw e (record { shut_on = h.shut_on; ends_on = h.ends_on; built_on = h.built_on })
  Write-Above s t (removes k e) h =
      rw e (record { shut_on = h.shut_on; ends_on = h.ends_on; built_on = h.built_on })
  Write-Above s t (updates k f m e) h =
      rw e (record { shut_on = h.shut_on; ends_on = h.ends_on; built_on = h.built_on })
  Write-Above s t (empties e) h =
      rw e (record { shut_on = h.shut_on; ends_on = h.ends_on; built_on = h.built_on })
  Write-Above s t (shuts x e) h =
      let more = count-append n s.shut (x ∷ []) in
      rw e (record {
        shut_on = omega (arith, h.shut_on, more);
        ends_on = omega (arith, h.ends_on, more);
        built_on = h.built_on;
      })
  Write-Above s t (closes x e) h =
      let more = count-append n s.closing (x ∷ []) in
      rw e (record {
        shut_on = h.shut_on;
        ends_on = omega (arith, h.ends_on, more);
        built_on = h.built_on;
      })
  Write-Above s t (calls_soon x e) h =
      let more = count_ready-append n s.ready (x ∷ []) in
      rw e (record {
        shut_on = h.shut_on;
        ends_on = omega (arith, h.ends_on, more);
        built_on = h.built_on;
      })
  Write-Above s t (turns v calm e) h =
      rw e (record { shut_on = h.shut_on; ends_on = h.ends_on; built_on = h.built_on })

  run_callback-Above : (s : State) → P s → P (run_callback s)
  unfolding run_callback
  run_callback-Above s h = elim (List-cases s.ready) [
    | inl e ↦ rw e (record {
      shut_on = h.shut_on;
      ends_on = ground (arith, h.ends_on, e);
      built_on = h.built_on;
    })
    | inr (set_event k, cs, e) ↦ rw e (record {
      shut_on = h.shut_on;
      ends_on = ground (arith, h.ends_on, e);
      built_on = h.built_on;
    })
    | inr (shut_down x, cs, e) ↦
        let more = count-append n s.shut (x ∷ []) in
        rw e (record {
          shut_on = omega (arith, h.shut_on, more);
          ends_on = ground (arith, h.ends_on, e, more);
          built_on = h.built_on;
        })
  ]

  run_closing-Above : (s : State) → P s → P (run_closing s)
  unfolding run_closing
  run_closing-Above s h = elim (List-cases s.closing) [
    | inl e ↦ rw e (record {
      shut_on = h.shut_on;
      ends_on = ground (arith, h.ends_on, e);
      built_on = h.built_on;
    })
    | inr (x, xs, e) ↦
        let more = count-append n s.shut (x ∷ []) in
        rw e (record {
          shut_on = omega (arith, h.shut_on, more);
          ends_on = ground (arith, h.ends_on, e, more);
          built_on = h.built_on;
        })
  ]

stage_of-may_become :
    (b a l e q b' a' l' e' q' : ℕ)
    → a + l + e + q ≤ b
    → b ≤ 1
    → a' + l' + e' + q' ≤ b'
    → b' ≤ 1
    → b ≤ b'
    → q ≤ q'
    → e + q ≤ e' + q'
    → (a + l + e + q < b → a' + l' + e' + q' < b')
    → may_become (stage_of b a l e q) (stage_of b' a' l' e' q') ≡ true
stage_of-may_become b a l e q b' a' l' e' q' h1 h2 h3 h4 h5 h6 h7 h8 = ground arith

Later-Inv : (c : Config) (n k : ℕ) {s t : State} → Later c s t → Inv c n 0 k s → Inv c n 0 k t
Later-Inv c n k now v = v
Later-Inv c n k (after l step) v = Step-Inv c n k step (Later-Inv c n k l v)

-- Whatever is called and whatever fails, an executor only becomes what the automaton allows: it is
-- lent and returned until it ends; one that ends is shut down and never lent again; and one that the
-- manager has lost hold of does not come back.
pub stage-may_become :
    (c : Config) (n : ℕ) {s t : State}
    → Reach c s
    → Later c s t
    → may_become (stage n s) (stage n t) ≡ true
stage-may_become c n {s} {t} r l =
    let v = Reach-Inv c n r in
    let w = Later-Inv c n 0 l v in
    let h = later-Above in
    stage_of-may_become (count n s.built) (count n s.available) (count_leased n s.leased)
      (count_ready n s.ready + count n s.closing) (count n s.shut) (count n t.built)
      (count n t.available) (count_leased n t.leased) (count_ready n t.ready + count n t.closing)
      (count n t.shut) (omega (arith, v.placed)) v.once (omega (arith, w.placed)) w.once h.built_on
      h.shut_on (omega (arith, h.ends_on))
      (λ lost. omega (arith, (Later-Inv c n 1 l (one_lost lost)).placed))
  where
    later-Above :
        Above n
          (count n s.shut)
          (count_ready n s.ready + count n s.closing + count n s.shut)
          (count n s.built)
          t
    later-Above =
        let q = count n s.shut in
        let e = count_ready n s.ready + count n s.closing + count n s.shut in
        let b = count n s.built in
        Later-keeps c (P n q e b) (Write-Above n q e b) (run_callback-Above n q e b)
          (run_closing-Above n q e b) l
          (record { shut_on = omega arith; ends_on = omega arith; built_on = omega arith })

    one_lost :
        count n s.available
            + count_leased n s.leased
            + (count_ready n s.ready + count n s.closing)
            + count n s.shut
          < count n s.built
        → Inv c n 0 1 s
    one_lost lost =
        let v = Reach-Inv c n r in
        record { capped = v.capped; placed = omega (arith, lost); once = v.once; fresh = v.fresh }
