-- ===== src/ProcessLogging/Workers.antt =====
-- What a worker process has set up when its initializer returns (process_worker_initializer of
-- src/leasepool/_process_logging.py).
use leasepool.Base.{
  ℕ, ◌≡◌, refl, ◌⊎◌, Bool, inl, inr, Option-cases, map, Option, none, some, [], ◌∷◌, ◌++◌, arith,
  if◌then◌else◌,
}
use leasepool.Base.Exec.{Exn, value_error, Result, ok, raised}
use leasepool.Backends.{codes}
use leasepool.Kwargs.{LogQueue}
use leasepool.ProcessLogging.{
  Level, number, level_name, coerce_log_level, level_number, level_table, upper, queue_handler,
  Worker, process_worker_initializer,
}

abbrev pub outcome_result : Option Exn → Result (Unit {0})
outcome_result none = ok tt
outcome_result (some e) = raised e

coerce_log_level_cases :
    (level : Level)
    → ((n : ℕ) × (coerce_log_level level ≡ ok n)) ⊎ (coerce_log_level level ≡ raised value_error)
unfolding coerce_log_level
coerce_log_level_cases (number n) = inl (n, refl)
coerce_log_level_cases (level_name t) =
    elim (Option-cases (level_number level_table (map upper (codes t)))) [
      | inl e ↦ rw e (inr refl)
      | inr (n, e) ↦ rw e (inl (n, refl))
    ]

-- The initializer puts the queue's handler last among the root logger's handlers, alone if the old
-- ones are to be cleared, sets the level, and then calls the user's initializer once with its
-- arguments, whose exception it passes on. A level that is no level name stops it with a
-- ValueError after the handler was added, before the user's initializer.
pub process_worker_initializer_lem :
    (q : LogQueue) (level : Level) (clear : Bool) (f args : ℕ) (outcome : Option Exn) (w : Worker)
    → let hs = (if clear then [] else w.handlers) ++ queue_handler q ∷ [] in
      ((n : ℕ) × (coerce_log_level level ≡ ok n)
        × (process_worker_initializer (some q) level clear (some (f, args, outcome)) w ≡ (
          outcome_result outcome,
          record { handlers = hs; level = n; initialized = w.initialized ++ (f, args) ∷ [] },
        )))
      ⊎ ((coerce_log_level level ≡ raised value_error)
          × (process_worker_initializer (some q) level clear (some (f, args, outcome)) w
              ≡ (raised value_error, record w { handlers = hs })))
unfolding process_worker_initializer
process_worker_initializer_lem q level clear f args outcome w =
    elim (coerce_log_level_cases level) [
      | inl (n, e) ↦ inl (n, e, ground arith)
      | inr e ↦ inr (e, ground arith)
    ]
