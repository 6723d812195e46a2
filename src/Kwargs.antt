-- ===== src/Kwargs.antt =====
-- The dictionary `executor_kwargs` that a manager keeps, copies and completes for each executor
-- (src/leasepool/manager.py, backends.py): a Python dict with text keys, in insertion order.
use text.Mathlib.Text.{◌==◌ as str_eq}
use text.Mathlib.TextEquality.{eq_iff}
use leasepool.Base.{
  ℕ, String, ◌≡◌, refl, Bool, Option, none, some, List, [], ◌∷◌, arith, if◌then◌else◌, is_none,
}

-- A multiprocessing context: a named start method, the platform's default, or the user's own.
pub data Context : Type 0 where
  spawn forkserver default_context : Context
  user_context : ℕ → Context

-- A multiprocessing queue: the context that made it and its place among the queues made.
pub record LogQueue : Type 0 where
  pub context : Context
  pub number : ℕ

-- The values of the dictionary that the code reads or writes. `nothing` is None, `name p n` the
-- text f"{p}-{n}", `worker_initializer` the function process_worker_initializer, `initargs` the
-- tuple of its five arguments, and `other` any value of the user's, by its identity.
pub data Arg : Type 0 where
  nothing empty_tuple worker_initializer : Arg
  context : Context → Arg
  name : String → ℕ → Arg
  initargs : LogQueue → ℕ → Bool → Arg → Arg → Arg
  other : ℕ → Arg

abbrev pub Kwargs : Type 0
Kwargs = List (String × Arg)

-- `kwargs.get(key)`
unfoldable pub get : String → Kwargs → Option Arg
get k [] = none
get k ((j, v) ∷ d) = if str_eq j k then some v else get k d

-- `kwargs[key] = value`
unfoldable pub set : String → Arg → Kwargs → Kwargs
set k v [] = (k, v) ∷ []
set k v ((j, w) ∷ d) = if str_eq j k then (j, v) ∷ d else (j, w) ∷ set k v d

-- `kwargs.setdefault(key, value)`
unfoldable pub set_default : String → Arg → Kwargs → Kwargs
set_default k v d = if is_none (get k d) then set k v d else d

-- The dictionary that `kwargs.pop(key, …)` leaves.
unfoldable pub without : String → Kwargs → Kwargs
without k [] = []
without k ((j, v) ∷ d) = if str_eq j k then d else (j, v) ∷ without k d

abbrev pub or_else : Arg → Option Arg → Arg
or_else d none = d
or_else d (some v) = v

pub get-set :
    (k j : String) (v : Arg) (d : Kwargs)
    → get j (set k v d) ≡ (if str_eq k j then some v else get j d)
unfolding get set
get-set k j v [] = refl
get-set k j v ((i, w) ∷ d) = ground (arith, eq_iff k j, eq_iff i k, eq_iff i j, get-set k j v d)

pub get-set_default :
    (k j : String) (v : Arg) (d : Kwargs)
    → get j (set_default k v d) ≡ (if str_eq k j then some (or_else v (get k d)) else get j d)
unfolding set_default
get-set_default k j v d = ground (arith, eq_iff k j, get-set k j v d)

pub get-without_ne :
    (k j : String) (d : Kwargs)
    → str_eq k j ≡ mathlib.Core.Bool.false
    → get j (without k d) ≡ get j d
unfolding get without
get-without_ne k j [] h = refl
get-without_ne k j ((i, w) ∷ d) h =
    ground (arith, eq_iff k j, eq_iff i k, eq_iff i j, get-without_ne k j d h)
