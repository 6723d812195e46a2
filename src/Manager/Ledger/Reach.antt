-- ===== src/Manager/Ledger/Reach.antt =====
-- The ledger of a manager in use (src/leasepool/manager.py): the maximum, and who holds an executor.
use leasepool.Base.{ℕ, ◌≡◌, refl, ◌≤◌, some, List, [], ◌∷◌, arith, ==_iff}
use leasepool.Backends.{Executor}
use leasepool.Manager.Config.{Config}
use leasepool.Manager.State.{State, Callback, set_event, shut_down, LeaseRecord, current_count}
use leasepool.Manager.Table.{find, remove}
use leasepool.Manager.Steps.{
  Step, Reach, made, next, starts, stops, finishes_stop, begins, attempts, wakes, releases, submits,
  future_ends, checks, notifies, calls_back, closes, loop_ends, run_callback, run_closing,
  run_first, close_first,
}
use leasepool.Manager.Ledger.Count.{Inv, count, count_leased, count_ready, census, count-append}
use leasepool.Manager.Ledger.Table.{count-remove}
use leasepool.Manager.Ledger.Methods.{release-Inv, submit-Inv, future_done-Inv, wake_checker-Inv}
use leasepool.Manager.Ledger.Acquire.{acquire_begin-Inv, attempt-Inv}
use leasepool.Manager.Ledger.Lifecycle.{
  start-Inv, stop_begin-Inv, stop_finish-Inv, checker_turn-Inv,
}

module _ (c : Config) (n k : ℕ) where
  abbrev P : State → Type 0
  P = Inv c n 0 k

  run_first-Inv : (cs : List Callback) (s : State) → s.ready ≡ cs → P s → P (run_first cs s)
  run_first-Inv [] s e v = v
  run_first-Inv (set_event event ∷ cs) s e v = ground arith
  run_first-Inv (shut_down x ∷ cs) s e v = ground (arith, count-append n s.shut (x ∷ []))

  close_first-Inv : (es : List Executor) (s : State) → s.closing ≡ es → P s → P (close_first es s)
  close_first-Inv [] s e v = v
  close_first-Inv (x ∷ es) s e v = ground (arith, count-append n s.shut (x ∷ []))

  pub Step-Inv : {s t : State} → Step c s t → P s → P t
  unfolding run_callback run_closing
  Step-Inv {s} (starts caller) v = start-Inv c n k caller s v
  Step-Inv {s} (stops caller) v = stop_begin-Inv c n k caller s v
  Step-Inv {s} finishes_stop v = stop_finish-Inv c n k s v
  Step-Inv {s} (begins caller q) v = acquire_begin-Inv c n k caller q s v
  Step-Inv {s} (attempts q ticks started_at) v = attempt-Inv c n k q ticks started_at s v
  Step-Inv (wakes event) v = ground (arith, v)
  Step-Inv {s} (releases key) v = release-Inv c key s v
  Step-Inv {s} (submits key) v = submit-Inv c n k key s v
  Step-Inv {s} (future_ends key future outcome) v = future_done-Inv c n k key future outcome s v
  Step-Inv {s} (checks h) v = checker_turn-Inv c n k s v
  Step-Inv notifies v = wake_checker-Inv c v
  Step-Inv {s} calls_back v = run_first-Inv s.ready s refl v
  Step-Inv {s} closes v = close_first-Inv s.closing s refl v
  Step-Inv loop_ends v = ground (arith, v)

pub Reach-Inv : (c : Config) (n : ℕ) {s : State} → Reach c s → Inv c n 0 0 s
Reach-Inv c n made = ground arith
Reach-Inv c n (next r st) = Step-Inv c n 0 st (Reach-Inv c n r)

-- A manager never holds more executors, idle and leased together, than its maximum: whatever is
-- called, in whatever order, and whatever fails.
pub current_count-le : (c : Config) {s : State} → Reach c s → current_count s ≤ c.max_pools
current_count-le c r = omega (arith, (Reach-Inv c 0 r).capped)

-- A leased executor is in no other lease; it is not idle, not shut down and not about to be.
pub leased_alone :
    (c : Config) {s : State} (key : ℕ) {r : LeaseRecord}
    → Reach c s
    → find key s.leased ≡ some r
    → let n = r.executor.seq in
      (count_leased n (remove key s.leased) ≡ 0)
      × (count n s.available ≡ 0)
      × (count n s.shut ≡ 0)
      × (count n s.closing ≡ 0)
      × (count_ready n s.ready ≡ 0)
leased_alone c {s} key {r} reach found = ground (
  arith,
  Reach-Inv c r.executor.seq reach,
  count-remove r.executor.seq key s.leased found,
  (==_iff r.executor.seq r.executor.seq).1 refl,
)

-- Every executor was built once, and is in one place at most: idle, in one lease, waiting for its
-- shutdown, or shut down once.
pub placed_once :
    (c : Config) (n : ℕ) {s : State}
    → Reach c s
    → (census n s ≤ count n s.built) × (count n s.built ≤ 1)
placed_once c n r = ground (arith, Reach-Inv c n r)
