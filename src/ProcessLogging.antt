-- ===== src/ProcessLogging.antt =====
-- src/leasepool/_process_logging.py: the configuration of log forwarding, the initializer that a
-- worker process runs, and the handler that hands records to the parent's logger. Loggers and
-- queue handlers are Python's; of a root logger the model keeps the handlers and the level.
pub mod Workers
use leasepool.Base.{
  ℕ, ◌-◌, ◌+◌, ◌≤◌, String, Bool, true, false, ◌&&◌, Option, none, some, List, [], ◌∷◌, ◌++◌, map,
  leb, if◌then◌else◌, ap,
}
use leasepool.Base.Exec.{
  Exn, value_error, Result, ok, raised, Exec, ◌>>=◌, ◌>>◌, pure, modify, lift, raise_some,
}
use leasepool.Kwargs.{LogQueue}
use leasepool.Backends.{codes, same_codes}

-- The type `int | str` of a level.
pub data Level : Type 0 where
  number : ℕ → Level
  level_name : String → Level

pub record ProcessLoggingConfig : Type 0 where
  pub enabled : Bool
  pub level : Level
  pub target_logger : Option ℕ
  pub clear_child_handlers : Bool

-- logging.INFO
abbrev pub info : ℕ
info = 20

-- `str.upper` on ASCII letters.
abbrev upper : ℕ → ℕ
upper c = if leb 97 c && leb c 122 then c - 32 else c

abbrev level_table : List (String × ℕ)
level_table =
    ("CRITICAL", 50)
    ∷ ("FATAL", 50)
    ∷ ("ERROR", 40)
    ∷ ("WARN", 30)
    ∷ ("WARNING", 30)
    ∷ ("INFO", 20)
    ∷ ("DEBUG", 10)
    ∷ ("NOTSET", 0)
    ∷ []

-- logging.getLevelName(name): the number of a standard name; of any other name a text.
unfoldable pub level_number : List (String × ℕ) → List ℕ → Option ℕ
level_number [] cs = none
level_number ((name, n) ∷ rest) cs =
    if same_codes cs (codes name) then some n else level_number rest cs

abbrev known_level : Option ℕ → Result ℕ
known_level none = raised value_error
known_level (some n) = ok n

unfoldable pub coerce_log_level : Level → Result ℕ
unfolding level_number
coerce_log_level (number n) = ok n
coerce_log_level (level_name t) = known_level (level_number level_table (map upper (codes t)))

-- LoggerForwardingHandler.emit: the records that the target logger has handled, after one more
-- record of level `levelno`. `enabled` is the target's isEnabledFor.
unfoldable pub emit : (ℕ → Bool) → ℕ → List ℕ → List ℕ
emit enabled levelno handled = if enabled levelno then handled ++ levelno ∷ [] else handled

pub data Handler : Type 0 where
  queue_handler : LogQueue → Handler
  existing : ℕ → Handler

-- A worker process: its root logger, and the initializers of the user's that it has called.
pub record Worker : Type 0 where
  pub handlers : List Handler
  pub level : ℕ
  pub initialized : List (ℕ × ℕ)

abbrev Action : Type 0 → Type 0
Action = Exec Worker

abbrev clear_if : Bool → Action (Unit {0})
clear_if true = modify λ w. record w { handlers = [] }
clear_if false = pure tt

unfoldable pub configure_process_worker_logging : LogQueue → Level → Bool → Action (Unit {0})
configure_process_worker_logging log_queue level clear_existing_handlers = do
  clear_if clear_existing_handlers
  modify λ w. record w { handlers = w.handlers ++ queue_handler log_queue ∷ [] }
  n ← lift (coerce_log_level level)
  modify λ w. record w { level = n }

abbrev configure_if : Option LogQueue → Level → Bool → Action (Unit {0})
configure_if none level clear = pure tt
configure_if (some q) level clear = configure_process_worker_logging q level clear

-- The user's initializer is known by its identity and that of its arguments, and by what it does:
-- it returns, or raises an exception.
abbrev call_user : Option (ℕ × ℕ × Option Exn) → Action (Unit {0})
call_user none = pure tt
call_user (some (f, args, outcome)) = do
  modify λ w. record w { initialized = w.initialized ++ (f, args) ∷ [] }
  raise_some outcome

unfoldable pub process_worker_initializer :
    Option LogQueue → Level → Bool → Option (ℕ × ℕ × Option Exn) → Action (Unit {0})
unfolding configure_process_worker_logging
process_worker_initializer log_queue level clear_existing_handlers user_initializer = do
  configure_if log_queue level clear_existing_handlers
  call_user user_initializer

pub record QueueListener : Type 0 where
  pub queue : LogQueue
  pub target : ℕ
  pub respect_handler_level : Bool

unfoldable pub build_queue_listener : LogQueue → ℕ → QueueListener
build_queue_listener log_queue target_logger = record {
  queue = log_queue;
  target = target_logger;
  respect_handler_level = true;
}
