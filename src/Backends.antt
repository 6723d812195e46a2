-- ===== src/Backends.antt =====
-- src/leasepool/backends.py: which executor class a backend stands for, and how one is built. The
-- classes themselves are Python's; whether the interpreter pool can be imported and what a
-- constructor does are arguments.
pub mod Selection
use Prim.Native.Char.{code}
use leasepool.Base.{
  ℕ, ◌+◌, String, Bool, true, false, ◌&&◌, Option, none, some, List, [], ◌∷◌, map, ◌==◌, leb,
  if◌then◌else◌,
}
use leasepool.Base.Exec.{Exn, value_error, unsupported_backend, Result, ok, raised}
use leasepool.Kwargs.{Kwargs, Arg, name, set_default}

pub data ExecutorBackend : Type 0 where
  thread process interpreter : ExecutorBackend

-- The type `ExecutorBackend | str` of a `backend` argument.
pub data BackendArg : Type 0 where
  member : ExecutorBackend → BackendArg
  spelled : String → BackendArg

pub data ExecutorClass : Type 0 where
  thread_pool process_pool interpreter_pool : ExecutorClass

-- An executor that was built, by the number `executor_seq` under which the manager built it.
pub record Executor : Type 0 where
  pub seq : ℕ
  pub cls : ExecutorClass
  pub max_workers : ℕ
  pub kwargs : Kwargs

abbrev pub codes : String → List ℕ
codes Prim.Native.String.String.[] = []
codes (Prim.Native.String.String.◌∷◌ c s) = code c ∷ codes s

-- `str.lower`, on the letters that a backend's value can hold.
abbrev pub lower : ℕ → ℕ
lower c = if leb 65 c && leb c 90 then c + 32 else c

abbrev pub same_codes : List ℕ → List ℕ → Bool
same_codes [] [] = true
same_codes (a ∷ xs) (b ∷ ys) = (a == b) && same_codes xs ys
same_codes _ _ = false

-- `item.value`
abbrev pub value : ExecutorBackend → String
value thread = "thread"
value process = "process"
value interpreter = "interpreter"

-- `ExecutorBackend(text)`: the member with that value.
unfoldable pub of_value : List ℕ → Option ExecutorBackend
of_value cs =
    if same_codes cs (codes (value thread))
    then some thread
    else if same_codes cs (codes (value process))
    then some process
    else if same_codes cs (codes (value interpreter))
    then some interpreter
    else none

abbrev or_value_error : Option ExecutorBackend → Result ExecutorBackend
or_value_error none = raised value_error
or_value_error (some b) = ok b

unfoldable pub normalize_backend : BackendArg → Result ExecutorBackend
unfolding of_value
normalize_backend (member b) = ok b
normalize_backend (spelled t) = or_value_error (of_value (map lower (codes t)))

-- `has_interpreter`: whether concurrent.futures has an InterpreterPoolExecutor.
abbrev pub class_of : Bool → ExecutorBackend → Result ExecutorClass
class_of has_interpreter thread = ok thread_pool
class_of has_interpreter process = ok process_pool
class_of has_interpreter interpreter =
    if has_interpreter then ok interpreter_pool else raised unsupported_backend

unfoldable pub resolve_executor_cls : Bool → BackendArg → Result ExecutorClass
unfolding normalize_backend
resolve_executor_cls has_interpreter b = elim (normalize_backend b) [
  | ok n ↦ class_of has_interpreter n
  | raised e ↦ raised e
]

abbrev pub prefix_key : String
prefix_key = "thread_name_prefix"

abbrev with_prefix : ExecutorBackend → String → ℕ → Kwargs → Kwargs
with_prefix process prefix seq kwargs = kwargs
with_prefix _ prefix seq kwargs = set_default prefix_key (name prefix seq) kwargs

-- `executor_cls(max_workers=…, **kwargs)`; `failure` is what the constructor raises, if it does.
abbrev construct : Option Exn → ℕ → ExecutorClass → ℕ → Kwargs → Result Executor
construct none seq cls workers kwargs =
    ok (record { seq = seq; cls = cls; max_workers = workers; kwargs = kwargs })
construct (some e) seq cls workers kwargs = raised e

unfoldable pub build_executor :
    Bool → Option Exn → BackendArg → ℕ → String → ℕ → Kwargs → Result Executor
unfolding resolve_executor_cls
build_executor has_interpreter failure backend max_workers name_prefix executor_seq
      executor_kwargs =
    elim (resolve_executor_cls has_interpreter backend) [
      | raised e ↦ raised e
      | ok cls ↦ elim (normalize_backend backend) [
        | raised e ↦ raised e
        | ok normalized ↦
            construct failure executor_seq cls max_workers
              (with_prefix normalized name_prefix executor_seq executor_kwargs)
      ]
    ]
