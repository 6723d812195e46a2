-- ===== src/Manager/Alerting/Arrival.antt =====
-- What is announced arrives: the event loop sets the event of a caller of acquire that sleeps while an
-- executor is idle (src/leasepool/manager.py).
use leasepool.Base.{
  Option, ℕ, zero, suc, true, false, List, [], ◌∷◌, ◌++◌, ◌≡◌, ◌≢◌, refl, ap, sym, subst, ◌∙◌, ◌⊎◌,
  inl, inr, arith, Bool-cases, List-cases, member, add_member, length, discard,
}
use leasepool.Base.Ints.{ℤ}
use leasepool.Base.Exec.{ok}
use leasepool.Manager.Config.{Config}
use leasepool.Manager.State.{State, Callback, set_event, shut_down}
use leasepool.Manager.Acquire.{Request, attempt, waits}
use leasepool.Manager.Checker.{checker_round, checker_turn}
use leasepool.Manager.Rounds.{Round, checker_round-parts}
use leasepool.Manager.Waking.{note}
use leasepool.Manager.Identity.{Reach-Distinct}
use leasepool.Manager.Steps.{Reach, next, calls_back, run_callback, run_first}
use leasepool.Manager.Alerting.{Working, Alert, Growing, Unmoved-Working, rings, rings-append}
use leasepool.Manager.Alerting.Methods
use leasepool.Manager.Alerting.Rounds
use leasepool.Manager.Alerting.Steps.{Asleep, Asleep-told, member-append}

-- The loop runs its `n` oldest callbacks.
abbrev pub run_callbacks : ℕ → State → State
run_callbacks zero s = s
run_callbacks (suc n) s = run_callbacks n (run_callback s)

-- It runs those that are there now.
abbrev pub run_ready : State → State
run_ready s = run_callbacks (length s.ready) s

run_callback-sets :
    (event : ℕ) (s : State)
    → member event s.set_events ≡ true
    → member event (run_callback s).set_events ≡ true
unfolding run_callback
run_callback-sets event s h = elim (List-cases s.ready) [
  | inl e ↦ subst (λ cs. member event (run_first cs s).set_events ≡ true) (sym e) h
  | inr (set_event f, cs, e) ↦
      subst (λ ds. member event (run_first ds s).set_events ≡ true) (sym e)
        (ground (arith, h, member-append event f s.set_events))
  | inr (shut_down x, cs, e) ↦
      subst (λ ds. member event (run_first ds s).set_events ≡ true) (sym e) h
]

-- An event that is set stays so.
run_callbacks-sets :
    (event n : ℕ) (s : State)
    → member event s.set_events ≡ true
    → member event (run_callbacks n s).set_events ≡ true
run_callbacks-sets event zero s h = h
run_callbacks-sets event (suc n) s h =
    run_callbacks-sets event n (run_callback s) (run_callback-sets event s h)

added : (event : ℕ) (xs : List ℕ) → member event (add_member event xs) ≡ true
added event xs = ground (arith, member-append event event xs)

-- An event that is going to be set is set.
run_ready-sets :
    (event : ℕ) (cs : List Callback) (s : State)
    → rings event cs ≡ true
    → member event (run_callbacks (length cs) (record s { ready = cs })).set_events ≡ true
unfolding run_callback
run_ready-sets event [] s h = absurd (ground (arith, h))
run_ready-sets event (set_event f ∷ cs) s h =
    let t : State = record s { ready = cs; set_events = add_member f s.set_events } in
    elim (Bool-cases (rings event cs)) [
      | inl later ↦ run_ready-sets event cs t later
      | inr now ↦
          run_callbacks-sets event (length cs) t
            (ground (arith, h, now, member-append event f s.set_events))
    ]
run_ready-sets event (shut_down x ∷ cs) s h =
    run_ready-sets event cs (record s { shut = s.shut ++ x ∷ [] }) h

run_callback-Working :
    (event scale loop : ℕ) (s : State)
    → Working event scale loop s
    → Working event scale loop (run_callback s)
unfolding run_callback
run_callback-Working event scale loop s w = elim (List-cases s.ready) [
  | inl e ↦ subst (λ cs. Working event scale loop (run_first cs s)) (sym e) w
  | inr (set_event f, cs, e) ↦
      subst (λ ds. Working event scale loop (run_first ds s)) (sym e)
        (Unmoved-Working (refl, refl, refl, refl, refl, refl, refl) w)
  | inr (shut_down x, cs, e) ↦
      subst (λ ds. Working event scale loop (run_first ds s)) (sym e)
        (Unmoved-Working (refl, refl, refl, refl, refl, refl, refl) w)
]

run_callbacks-Working :
    (c : Config) (event scale loop n : ℕ) (s : State)
    → Reach c s
    → Working event scale loop s
    → Reach c (run_callbacks n s) × Working event scale loop (run_callbacks n s)
run_callbacks-Working c event scale loop zero s r w = (r, w)
run_callbacks-Working c event scale loop (suc n) s r w =
    run_callbacks-Working c event scale loop n (run_callback s) (next r calls_back)
      (run_callback-Working event scale loop s w)

-- With nothing scheduled, the checker's event is already set.
checker_is_up :
    {event scale loop : ℕ} (s : State)
    → Alert event scale loop s
    → s.available ≢ []
    → rings event s.ready ≡ false
    → rings scale s.ready ≡ false
    → member scale s.set_events ≡ true
checker_is_up s a idle later neither =
    let told = a.told in
    elim (List-cases s.available) [
      | inl none_ ↦ absurd (idle none_)
      | inr (x, xs, some_) ↦ ground (arith, told, some_, later, neither)
    ]

module _ (c : Config) (event scale loop : ℕ) where
  timed-Working :
      {f w : ℕ} {s t : State}
      → Working event scale loop s
      → (p : Round c f w s t) → Working event scale loop p.timed
  timed-Working {s = s} w p =
      let u : State = record s { set_events = discard _ s.set_events } in
      let start : Working event scale loop u =
        Unmoved-Working (refl, refl, refl, refl, refl, refl, refl) w in
      let a =
        subst (Working event scale loop) (ap (λ q. q.1) p.revokes)
          (Rounds.revoke_expired-Working c u start) in
      let b =
        subst (Working event scale loop) (ap (λ q. q.1) p.grows)
          (Methods.ensure-Working c p.revoked a) in
      let d =
        subst (Working event scale loop) (ap (λ q. q.1) p.shrinks)
          (Rounds.shrink_idle-Working c p.grown b) in
      subst (Working event scale loop) (ap (λ q. q.1) p.times)
        (Rounds.next_expiry-Working c p.shrunk d)

  -- Each round of the checker has the waiters' event set.
  checker_turn-rings :
      (s : State)
      → Growing c
      → Reach c s
      → Working event scale loop s
      → rings event (checker_turn c s).1.ready ≡ true
  unfolding checker_turn
  checker_turn-rings s growing r w =
      let (f, v, done) = Rounds.checker_round-returns c growing (Reach-Distinct c r) w in
      let t = (checker_round c s).1 in
      let p : Round c f v s t = checker_round-parts c s t (λ i. (done i, t)) in
      let timed = timed-Working w p in
      rw (done, checker_turn)
        (ap (λ (u : State). rings event u.ready) p.ends
          ∙ ground (
            arith,
            rings-append event p.timed.ready
                (note p.timed.availability_event p.timed.loop p.timed.loop_closed),
            timed.event,
            timed.on_its_loop,
            timed.loop_open,
          ))

  -- What Alert says arrives. With an executor idle, once the loop has run the callbacks that are
  -- there, the waiters' event is set, or the checker's is, so that its wait ends and it does a round;
  -- and then the event loop sets the waiters' event with the callbacks that there are after the round.
  pub idle-arrives :
      (s : State)
      → Growing c
      → Reach c s
      → Alert event scale loop s
      → s.available ≢ []
      → (member event (run_ready s).set_events ≡ true)
        ⊎ ((member scale (run_ready s).set_events ≡ true)
            × (member event (run_ready (checker_turn c (run_ready s)).1).set_events ≡ true))
  idle-arrives s growing r a idle =
      let t = run_ready s in
      let (reach, w) = run_callbacks-Working c event scale loop (length s.ready) s r a.working in
      let u = (checker_turn c t).1 in
      let woken : member event (run_ready u).set_events ≡ true =
        run_ready-sets event u.ready u (checker_turn-rings t growing reach w) in
      elim (Bool-cases (rings event s.ready)) [
        | inl now ↦ inl (run_ready-sets event s.ready s now)
        | inr later ↦ inr (
          elim (Bool-cases (rings scale s.ready)) [
            | inl soon ↦ run_ready-sets scale s.ready s soon
            | inr neither ↦
                run_callbacks-sets scale (length s.ready) s (checker_is_up s a idle later neither)
          ],
          woken,
        )
      ]

-- A sleeping caller is woken when an executor is idle. A caller whose attempt to acquire made it wait,
-- in a manager at work whose growth raises in no state at all, has not been woken up since, nor was the manager
-- stopped or its loop closed. If an executor is then idle, once the loop has run the callbacks that
-- are scheduled, the caller's event is set; or else the checker's is, so that its wait ends, and when
-- it has done its round and the loop has run the callbacks that are then scheduled, the caller's is.
pub Asleep-woken :
    (c : Config) (q : Request) (ticks started_at event scale loop : ℕ) (s t u : State)
    {remaining : Option ℤ}
    → Growing c
    → Reach c s
    → attempt c q ticks started_at s ≡ (ok (waits event remaining), t)
    → Working event scale loop t
    → Asleep c event scale t u
    → u.available ≢ []
    → (member event (run_ready u).set_events ≡ true)
      ⊎ ((member scale (run_ready u).set_events ≡ true)
          × (member event (run_ready (checker_turn c (run_ready u)).1).set_events ≡ true))
Asleep-woken c q ticks started_at event scale loop s t u growing r gives w run idle =
    let (reach, alert) =
      Asleep-told c q ticks started_at event scale loop s t u growing r gives w run in
    idle-arrives c event scale loop u growing reach alert idle
