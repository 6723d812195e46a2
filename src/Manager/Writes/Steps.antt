-- ===== src/Manager/Writes/Steps.antt =====
-- What every single write keeps, every step of a manager in use keeps (src/leasepool/manager.py), if the
-- callbacks and the threads that shut executors down keep it too.
use leasepool.Base.{arith, false, refl}
use leasepool.Manager.Config.{Config}
use leasepool.Manager.State.{State, initial}
use leasepool.Manager.Steps.{
  Step, Reach, made, next, starts, stops, finishes_stop, begins, attempts, wakes, releases, submits,
  future_ends, checks, notifies, calls_back, closes, loop_ends, run_callback, run_closing,
}
use leasepool.Manager.Writes.{Write, Writes, done, more}
use leasepool.Manager.Writes.Methods.{quiet, wake_checker-Writing}
use leasepool.Manager.Writes.Calls.{release-Writing, submit-Writing, future_done-Writing}
use leasepool.Manager.Writes.Tasks.{
  acquire_begin-Writing, attempt-Writing, start-Writing, stop_begin-Writing, stop_finish-Writing,
  checker_turn-Writing,
}

-- A state that a manager comes to from another.
pub data Later (c : Config) (s : State) : State → Type 0 where
  now : Later c s s
  after : {t u : State} → Later c s t → Step c t u → Later c s u

module _ (c : Config) (P : State → Type 0)
    (keeps : (s t : State) → Write c.uuid false s t → P s → P t) where
  Writes-keeps : {s t : State} → Writes c.uuid false s t → P s → P t
  Writes-keeps done h = h
  Writes-keeps (more {t} {u} a w) h = keeps t u w (Writes-keeps a h)

  module _ (called : (s : State) → P s → P (run_callback s))
      (closed : (s : State) → P s → P (run_closing s)) where
    pub Step-keeps : {s t : State} → Step c s t → P s → P t
    Step-keeps {s} (starts caller) = Writes-keeps (start-Writing c caller s)
    Step-keeps {s} (stops caller) = Writes-keeps (stop_begin-Writing c caller s)
    Step-keeps {s} finishes_stop = Writes-keeps (stop_finish-Writing c s)
    Step-keeps {s} (begins caller q) = Writes-keeps (acquire_begin-Writing c caller q s)
    Step-keeps {s} (attempts q ticks started_at) =
        Writes-keeps (attempt-Writing c q ticks started_at s)
    Step-keeps (wakes event) =
        Writes-keeps (quiet (omega arith) refl refl refl refl refl (λ _ h. h) refl)
    Step-keeps {s} (releases key) = Writes-keeps (release-Writing c key s)
    Step-keeps {s} (submits key) = Writes-keeps (submit-Writing c key s)
    Step-keeps {s} (future_ends key future outcome) =
        Writes-keeps (future_done-Writing c key future outcome s)
    Step-keeps {s} (checks h) = Writes-keeps (checker_turn-Writing c s)
    Step-keeps {s} notifies = Writes-keeps (wake_checker-Writing s)
    Step-keeps {s} calls_back = called s
    Step-keeps {s} closes = closed s
    Step-keeps loop_ends =
        Writes-keeps (quiet (omega arith) refl refl refl refl refl (λ _ h. h) refl)

    pub Reach-keeps : {s : State} → Reach c s → P initial → P s
    Reach-keeps made h = h
    Reach-keeps (next r step) h = Step-keeps step (Reach-keeps r h)

    pub Later-keeps : {s t : State} → Later c s t → P s → P t
    Later-keeps now h = h
    Later-keeps (after l step) h = Step-keeps step (Later-keeps l h)
