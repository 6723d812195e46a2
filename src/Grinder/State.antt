-- ===== src/Grinder/State.antt =====
-- The attributes of WorkGrinder (src/leasepool/grinder.py), its work items, and the asyncio futures
-- that it settles.
use leasepool.Base.{
  ℕ, String, Bool, true, false, Option, none, List, [], ◌∷◌, ◌++◌, ◌==◌, if◌then◌else◌,
}
use leasepool.Base.Exec.{Exn, Result, ok, Exec}
use leasepool.Base.Results
use leasepool.Validation.{PyObject, coerce_positive_int, coerce_finite_duration}

-- An asyncio future.
pub data FutureState : Type 0 where
  unsettled was_cancelled : FutureState
  has_result : ℕ → FutureState
  has_exception : Exn → FutureState

-- `future.done()`
abbrev pub is_done : FutureState → Bool
is_done unsettled = false
is_done _ = true

-- `future.cancelled()`
abbrev pub is_cancelled : FutureState → Bool
is_cancelled was_cancelled = true
is_cancelled _ = false

-- `_WorkItem`. The callable with its arguments, functools.partial(fn, *args, **kwargs), is known by
-- its identity, and so is the future.
pub record WorkItem : Type 0 where
  pub work_id : ℕ
  pub call : ℕ
  pub result_future : ℕ
  pub submitted_at : ℕ
  pub owner : Option String

-- What __init__ fixes. Durations count ticks.
pub record GrinderConfig : Type 0 where
  pub max_wait_seconds : ℕ
  pub batch_size_threshold : ℕ
  pub lease_seconds : ℕ
  pub owner_prefix : String

-- The checks of __init__.
unfoldable pub init_grinder : PyObject → PyObject → PyObject → String → Result GrinderConfig
init_grinder max_wait_seconds batch_size_threshold lease_seconds owner_prefix =
    Results.◌>>=◌ (coerce_finite_duration false max_wait_seconds) λ max_wait.
      Results.◌>>=◌ (coerce_positive_int batch_size_threshold) λ threshold.
        Results.◌>>=◌ (coerce_finite_duration false lease_seconds) λ lease. ok (record {
          max_wait_seconds = max_wait;
          batch_size_threshold = threshold;
          lease_seconds = lease;
          owner_prefix = owner_prefix;
        })

-- Where the task of _grinder_loop is: no task, at the top of _wait_for_next_batch, in the await of
-- acquire or of gather within _process_batch with its live batch and the items that were submitted,
-- returned, ended by a CancelledError, or returned from the handler of a crash.
pub data Phase : Type 0 where
  absent waiting over killed crashed : Phase
  acquiring : List WorkItem → Phase
  gathering : List WorkItem → List WorkItem → Phase

-- From `futures` on the fields are the event loop's: the futures by identity, how many there are,
-- those whose done callback is scheduled, the removal tasks, and whether the loop is closed.
-- `cancel_asked` is set by task.cancel().
pub record GrinderState : Type 0 where
  pub pending : List WorkItem
  pub loop : Option ℕ
  pub started : Bool
  pub stopping : Bool
  pub batch_seq : ℕ
  pub phase : Phase
  pub cancel_asked : Bool
  pub futures : ℕ → FutureState
  pub future_count : ℕ
  pub done_callbacks : List ℕ
  pub removals : List ℕ
  pub loop_closed : Bool

abbrev pub GrinderAction : Type 0 → Type 0
GrinderAction = Exec GrinderState

abbrev pub new_grinder : GrinderState
new_grinder = record {
  pending = [];
  loop = none;
  started = false;
  stopping = false;
  batch_seq = 0;
  phase = absent;
  cancel_asked = false;
  futures = λ f. unsettled;
  future_count = 0;
  done_callbacks = [];
  removals = [];
  loop_closed = false;
}

abbrev pub assign : ℕ → FutureState → (ℕ → FutureState) → ℕ → FutureState
assign f v futures g = if g == f then v else futures g

-- `if not future.done(): future.cancel()`, or set_exception or set_result: the future is settled
-- and its done callback is scheduled.
unfoldable pub settle_if_open : ℕ → FutureState → GrinderState → GrinderState
settle_if_open f v s =
    if is_done (s.futures f)
    then s
    else record s { futures = assign f v s.futures; done_callbacks = s.done_callbacks ++ f ∷ [] }

-- The same for each item of a batch, in order.
unfoldable pub settle_batch : FutureState → List WorkItem → GrinderState → GrinderState
unfolding settle_if_open
settle_batch v [] s = s
settle_batch v (x ∷ xs) s = settle_batch v xs (settle_if_open x.result_future v s)
