-- ===== src/Manager/Pool.antt =====
-- The pool's executors (src/leasepool/manager.py): making one, taking one for a lease, growing to
-- the target and shrinking to it.
use leasepool.Base.{
  ℕ, suc, ◌+◌, ◌-◌, String, Bool, true, false, not, ◌&&◌, Option, none, some, List, [], ◌∷◌, ◌++◌,
  length, ltb, if◌then◌else◌, is_none,
}
use leasepool.Base.Exec.{
  runtime_error, type_error, Result, ok, raised, pure, modify, gets, lift, ◌>>=◌, ◌>>◌,
}
use leasepool.Kwargs.{
  Kwargs, Context, LogQueue, Arg, nothing, empty_tuple, worker_initializer, context, initargs, get,
  set, without, or_else,
}
use leasepool.Backends.{Executor, member, build_executor}
use leasepool.Manager.Config.{Config, is_process}
use leasepool.Manager.State.{Action, current_count, shutdown_executor}
use leasepool.Manager.Sizing.{desired_executor_count}

-- `tuple(x)`
abbrev to_tuple : Arg → Result Arg
to_tuple nothing = raised type_error
to_tuple (context x) = raised type_error
to_tuple x = ok x

abbrev default_context : Option Context → Kwargs → Kwargs
default_context none kwargs = kwargs
default_context (some x) kwargs =
    if is_none (get "mp_context" kwargs) then set "mp_context" (context x) kwargs else kwargs

abbrev with_logging : Config → Option LogQueue → Option Context → Kwargs → Result Kwargs
with_logging c none mp kwargs = raised runtime_error
with_logging c (some log_queue) mp kwargs =
    let user_initializer = or_else nothing (get "initializer" kwargs) in
    let kwargs' = without "initializer" kwargs in
    elim (to_tuple (or_else empty_tuple (get "initargs" kwargs'))) [
      | raised e ↦ raised e
      | ok user_initargs ↦ ok (
          default_context mp (
            set "initargs"
              (initargs log_queue c.process_log_level c.process_logging.clear_child_handlers
                user_initializer user_initargs)
              (set "initializer" worker_initializer (without "initargs" kwargs'))))
    ]

unfoldable pub executor_kwargs_for_new_executor : Config → Action Kwargs
executor_kwargs_for_new_executor c s = (
  if is_process c.backend && c.process_logging.enabled
      then with_logging c s.process_log_queue s.process_log_mp_context c.executor_kwargs
      else ok c.executor_kwargs,
  s,
)

unfoldable pub create_executor : Config → Action Executor
unfolding executor_kwargs_for_new_executor
create_executor c = do
  modify λ s. record s { executor_seq = s.executor_seq + 1 }
  seq ← gets λ s. s.executor_seq
  kwargs ← executor_kwargs_for_new_executor c
  executor ← lift (
      build_executor c.has_interpreter_pool (c.construct seq) (member c.backend) c.workers_per_pool
        c.name_prefix seq kwargs)
  modify λ s. record s { built = s.built ++ executor ∷ [] }
  pure executor

abbrev take_from : Config → List Executor → Action (Option Executor)
take_from c (e ∷ rest) = do modify λ s. record s { available = rest }; pure (some e)
take_from c [] = λ s.
    if ltb (current_count s) c.max_pools
    then (do e ← create_executor c; pure (some e)) s
    else (ok none, s)

unfoldable pub take_or_create_available : Config → Action (Option Executor)
take_or_create_available c s = take_from c s.available s

-- `while self._current_count_locked() < target`, at most `rounds` times.
unfoldable pub grow : Config → ℕ → ℕ → Action (Unit {0})
grow c ℕ.zero target s = (ok tt, s)
grow c (suc rounds) target s =
    let more =
      (do
        e ← create_executor c
        modify λ t. record t { available = t.available ++ e ∷ [] }
        grow c rounds target)
        s in
    if ltb (current_count s) target then more else (ok tt, s)

unfoldable pub ensure_minimum : Config → Action (Unit {0})
unfolding grow
ensure_minimum c = do
  target ← desired_executor_count c
  count ← gets current_count
  grow c (target - count) target

-- `self._available.pop()` of `x ∷ xs`: what is left, and the last one.
unfoldable pub pop_right : Executor → List Executor → List Executor × Executor
pop_right x [] = ([], x)
pop_right x (y ∷ ys) = let (left, last) = pop_right y ys in (x ∷ left, last)

abbrev drop_last : List Executor → Action (Unit {0})
drop_last [] = pure tt
drop_last (x ∷ xs) = do
  let popped = pop_right x xs
  modify λ s. record s { available = popped.0 }
  shutdown_executor popped.1

-- `while self._available and self._current_count_locked() > target`, at most `rounds` times.
unfoldable pub shrink : ℕ → ℕ → Action (Unit {0})
unfolding pop_right shutdown_executor
shrink ℕ.zero target s = (ok tt, s)
shrink (suc rounds) target s =
    let less = (do drop_last s.available; shrink rounds target) s in
    if not (leasepool.Base.is_empty s.available) && ltb target (current_count s)
    then less
    else (ok tt, s)

unfoldable pub shrink_idle_if_above_target : Config → Action (Unit {0})
unfolding shrink
shrink_idle_if_above_target c = do
  target ← desired_executor_count c
  idle ← gets λ s. length s.available
  shrink idle target
