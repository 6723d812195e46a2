-- ===== src/Manager/Stopping.antt =====
-- What stop of LeasedExecutorManager (src/leasepool/manager.py) leaves behind.
use mathlib.Core.List.{append_assoc, append-nil}
use leasepool.Kwargs.{LogQueue}
use leasepool.Base.{
  ap, ℕ, Bool, true, false, Option, none, some, List, [], ◌∷◌, ◌++◌, ◌≡◌, refl, sym, ◌∙◌, arith,
  ◌⊎◌, inl, inr, Option-cases,
}
use leasepool.Base.Exec.{Exn, Exec, ok, raised, Result-cases, Keeps, Keeps-bind, modify, ◌>>◌}
use leasepool.Backends.{Executor}
use leasepool.ProcessLogging.{QueueListener}
use leasepool.Manager.Config.{Config}
use leasepool.Manager.State.{State, Action, notify, shutdown_executor, wake_waiters}
use leasepool.Manager.LogBridge.{stop_process_logging_if_needed, stop_listening, close_queue}
use leasepool.Manager.Lifecycle.{executors_of, shutdown_all, take_all, stop_finish}

pub shutdown_all_lem :
    (es : List Executor) (s : State) → shutdown_all es s ≡ (ok tt, record s { shut = s.shut ++ es })
unfolding shutdown_all shutdown_executor
shutdown_all_lem [] s = ap (λ q. (ok tt, record s { shut = q })) (sym (append-nil s.shut))
shutdown_all_lem (e ∷ es) s =
    let t : State = record s { shut = s.shut ++ e ∷ [] } in
    shutdown_all_lem es t
    ∙ ap (λ q. (ok tt, record s { shut = q })) (append_assoc s.shut (e ∷ []) es)

-- The parts of the state that the end of the log forwarding leaves alone.
record Aside (s t : State) : Type 0 where
  available : t.available ≡ s.available
  leased : t.leased ≡ s.leased
  shut : t.shut ≡ s.shut
  started : t.started ≡ s.started
  stopping : t.stopping ≡ s.stopping
  loop : t.loop ≡ s.loop

same-Aside : (s : State) → Aside s s
same-Aside s = record {
  available = refl;
  leased = refl;
  shut = refl;
  started = refl;
  stopping = refl;
  loop = refl;
}

stop_listening-Aside :
    (c : Config) (s : State) (l : Option QueueListener) → Keeps (Aside s) (stop_listening c l)
stop_listening-Aside c s none t a = a
stop_listening-Aside c s (some l) t a = elim (Option-cases c.stop_listener) [
  | inl e ↦ rw e (record {
    available = a.available;
    leased = a.leased;
    shut = a.shut;
    started = a.started;
    stopping = a.stopping;
    loop = a.loop;
  })
  | inr (x, e) ↦ rw e (record {
    available = a.available;
    leased = a.leased;
    shut = a.shut;
    started = a.started;
    stopping = a.stopping;
    loop = a.loop;
  })
]

close_queue-Aside :
    (c : Config) (s : State) (q : Option LogQueue) → Keeps (Aside s) (close_queue c q)
close_queue-Aside c s none t a = a
close_queue-Aside c s (some q) t a = record {
  available = a.available;
  leased = a.leased;
  shut = a.shut;
  started = a.started;
  stopping = a.stopping;
  loop = a.loop;
}

stop_process_logging-Aside :
    (c : Config) (s : State) → Aside s (stop_process_logging_if_needed c s).1
unfolding stop_process_logging_if_needed
stop_process_logging-Aside c s =
    Keeps-bind (Aside s) (stop_listening c s.process_log_listener)
      (λ _ t. close_queue c t.process_log_queue t) (stop_listening-Aside c s s.process_log_listener)
      (λ _ t a. close_queue-Aside c s t.process_log_queue t a) s
      (record {
        available = refl;
        leased = refl;
        shut = refl;
        started = refl;
        stopping = refl;
        loop = refl;
      })

notify-Aside :
    (event loop : Option ℕ) (closed : Bool) (s : State)
    → ((notify event loop closed s).0 ≡ ok tt) × Aside s (notify event loop closed s).1
notify-Aside none loop closed s = (refl, same-Aside s)
notify-Aside (some event) none closed s = (refl, same-Aside s)
notify-Aside (some event) (some loop) true s = (refl, same-Aside s)
notify-Aside (some event) (some loop) false s = (
  refl,
  record {
    available = refl;
    leased = refl;
    shut = refl;
    started = refl;
    stopping = refl;
    loop = refl;
  },
)

wake_waiters-Aside : (s : State) → ((wake_waiters s).0 ≡ ok tt) × Aside s (wake_waiters s).1
unfolding wake_waiters
wake_waiters-Aside s = notify-Aside s.availability_event s.loop s.loop_closed s

bind-ok :
    {S A B : Type 0} {a : A} {t : S} (m : Exec S A) (k : Exec S B) (s : S)
    → m s ≡ (ok a, t)
    → (m >> k) s ≡ k t
bind-ok m k s e = ap (λ p. elim p.0 [ ok _ ↦ k p.1 | raised x ↦ (raised x, p.1) ]) e

-- The rest of stop once the executors are shut down.
abbrev rest_of_stop : Config → Action (Unit {0})
rest_of_stop c = do
  stop_process_logging_if_needed c
  wake_waiters
  modify λ s. record s {
    availability_event = none;
    scale_change_event = none;
    loop = none;
    stopping = false;
  }

abbrev emptied : State → State
emptied s = record s {
  checker_task = none;
  available = [];
  leased = [];
  started = false;
  shut = s.shut ++ (s.available ++ executors_of s.leased);
}

stop_finish-rest : (c : Config) (s : State) → stop_finish c s ≡ rest_of_stop c (emptied s)
unfolding stop_finish take_all
stop_finish-rest c s =
    let es = s.available ++ executors_of s.leased in
    let t : State = record s {
      checker_task = none;
      available = [];
      leased = [];
      started = false;
    } in
    bind-ok (shutdown_all es) (rest_of_stop c) t (shutdown_all_lem es t)

rest_of_stop-cases :
    (c : Config) (u : State)
    → let (r, t) = stop_process_logging_if_needed c u in
      let w = (wake_waiters t).1 in
      (rest_of_stop c u ≡ (
        ok tt,
        record w {
          availability_event = none;
          scale_change_event = none;
          loop = none;
          stopping = false;
        },
      ))
      ⊎ ((x : Exn) × (rest_of_stop c u ≡ (raised x, t)))
rest_of_stop-cases c u =
    let (woken, b) = wake_waiters-Aside (stop_process_logging_if_needed c u).1 in
    elim (Result-cases (stop_process_logging_if_needed c u).0) [
      | inl (_, e) ↦ inl (ground arith)
      | inr (x, e) ↦ inr (x, ground arith)
    ]

-- When the checker task has ended, stop empties the manager: no executor is idle or leased any
-- more, all that were are shut down, and the manager is not started. It forgets its loop and is
-- no longer stopping, unless the end of the log forwarding raises; then that exception passes and
-- these two stay as they were.
pub stop_finish_lem :
    (c : Config) (s : State)
    → let (r, t) = stop_finish c s in
      (t.available ≡ [])
      × (t.leased ≡ [])
      × (t.started ≡ false)
      × (t.shut ≡ s.shut ++ (s.available ++ executors_of s.leased))
      × (((r ≡ ok tt) × (t.loop ≡ none) × (t.stopping ≡ false))
          ⊎ ((x : Exn) × (r ≡ raised x) × (t.loop ≡ s.loop) × (t.stopping ≡ s.stopping)))
stop_finish_lem c s =
    let u = emptied s in
    let a = stop_process_logging-Aside c u in
    let (woken, b) = wake_waiters-Aside (stop_process_logging_if_needed c u).1 in
    elim (rest_of_stop-cases c u) [
      | inl e ↦ rw (stop_finish-rest c s ∙ e) (
        b.available ∙ a.available,
        b.leased ∙ a.leased,
        b.started ∙ a.started,
        b.shut ∙ a.shut,
        inl (refl, refl, refl),
      )
      | inr (x, e) ↦
          rw (stop_finish-rest c s ∙ e)
            (a.available, a.leased, a.started, a.shut, inr (x, refl, a.loop, a.stopping))
    ]
