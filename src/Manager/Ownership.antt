-- ===== src/Manager/Ownership.antt =====
-- What a manager that is not started (src/leasepool/manager.py) owns.
pub mod Starting
pub mod Calls
pub mod Steps
use leasepool.Base.{
  ℕ, ◌+◌, Bool, true, false, Option, none, some, List, [], ◌∷◌, ◌++◌, ◌≡◌, refl, ◌∙◌, ap, subst,
  sym, arith, ◌⊎◌, inl, inr, Bool-cases, List-cases, if◌then◌else◌,
}
use leasepool.Base.Exec.{
  Exn, not_started, ok, raised, Result-cases, bind-keeps, on_error, ◌>>=◌, ◌>>◌,
}
use leasepool.Manager.Config.{Config}
use leasepool.Manager.State.{
  State, Action, TaskState, running, finished, initial, wake_waiters, wake_checker, Callback,
  set_event, shut_down,
}
use leasepool.Manager.Table.{find}
use leasepool.Manager.Sizing.{desired_executor_count}
use leasepool.Manager.Pool.{ensure_minimum}
use leasepool.Manager.Leases.{release, submit_for_lease, on_lease_future_done, FutureOutcome}
use leasepool.Manager.Acquire.{
  Request, acquire_begin, attempt, require_owner_loop, try_acquire, after_try,
}
use leasepool.Manager.LogBridge.{start_process_logging_if_needed, stop_process_logging_if_needed}
use leasepool.Manager.Lifecycle.{
  start, stop_begin, start_fresh, launch, abort_start, take_all, shutdown_all, stop_finish,
  executors_of,
}
use leasepool.Manager.Steps.{
  Step, Reach, made, next, starts, stops, finishes_stop, begins, attempts, wakes, releases, submits,
  future_ends, checks, notifies, calls_back, closes, loop_ends, run_callback, run_closing,
}
use leasepool.Manager.Waking.{notify_lem}
use leasepool.Manager.Stopping.{shutdown_all_lem}
use leasepool.Manager.Growth.{ensure-extends}
use leasepool.Manager.Ledger.Sizes.{desired-cases}
use leasepool.Manager.Writes.{
  off, Write, Writes, done, more, aside, inserts, removes, updates, empties, shuts,
  closes as closes_one, calls_soon, turns,
}
use leasepool.Manager.Writes.Calls.{release-Writing, submit-Writing, future_done-Writing}
use leasepool.Manager.Writes.Methods.{wake_checker-Writing}
use leasepool.Manager.Writes.Tasks.{
  acquire_begin-Writing, attempt-Writing, stop_begin-Writing, checker_turn-Writing,
}

pub one_calm : {uuid : ℕ → ℕ} → (s t : State) → Write uuid true s t → t.started ≡ s.started
one_calm s t (aside _ _ _ _ _ up _ _) = up
one_calm s t (inserts r named e) = ap (λ u. u.started) e
one_calm s t (removes k e) = ap (λ u. u.started) e
one_calm s t (updates k f m e) = ap (λ u. u.started) e
one_calm s t (empties e) = ap (λ u. u.started) e
one_calm s t (shuts x e) = ap (λ u. u.started) e
one_calm s t (closes_one x e) = ap (λ u. u.started) e
one_calm s t (calls_soon x e) = ap (λ u. u.started) e
one_calm s t (turns v calm e) = absurd (ground (arith, calm))

pub calm : (uuid : ℕ → ℕ) {s t : State} → Writes uuid true s t → t.started ≡ s.started
calm uuid done = refl
calm uuid (more {t} {u} a w) = one_calm t u w ∙ calm uuid a

-- Not started, and no checker task to wake up.
pub record Down (s : State) : Type 0 where
  pub down : s.started ≡ false
  pub no_checker : off s.checker_task ≡ true

pub record Free (s : State) : Type 0 where
  pub at_rest : Down s
  pub none_idle : s.available ≡ []
  pub none_lent : s.leased ≡ []

-- What the methods of the log forwarding leave alone.
pub record Same (s t : State) : Type 0 where
  pub started : t.started ≡ s.started
  pub checker_task : t.checker_task ≡ s.checker_task
  pub available : t.available ≡ s.available
  pub leased : t.leased ≡ s.leased

pub start_logging-Same : (c : Config) (s : State) → Same s (start_process_logging_if_needed c s).1
unfolding start_process_logging_if_needed
start_logging-Same c s = record {
  started = ground arith;
  checker_task = ground arith;
  available = ground arith;
  leased = ground arith;
}

pub stop_logging-Same : (c : Config) (s : State) → Same s (stop_process_logging_if_needed c s).1
unfolding stop_process_logging_if_needed
stop_logging-Same c s = record {
  started = ground arith;
  checker_task = ground arith;
  available = ground arith;
  leased = ground arith;
}

pub Same-Free : (s t : State) → Same s t → Free s → Free t
Same-Free s t a f = record {
  at_rest = record {
    down = a.started ∙ f.at_rest.down;
    no_checker = ap off a.checker_task ∙ f.at_rest.no_checker;
  };
  none_idle = a.available ∙ f.none_idle;
  none_lent = a.leased ∙ f.none_lent;
}

-- A manager that is started, or owns nothing.
abbrev pub Sound : State → Type 0
Sound s = (s.started ≡ true) ⊎ Free s

pub Same-Sound : (s t : State) → Same s t → Sound s → Sound t
Same-Sound s t a (inl up) = inl (a.started ∙ up)
Same-Sound s t a (inr f) = inr (Same-Free s t a f)
