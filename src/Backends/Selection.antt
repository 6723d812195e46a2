-- ===== src/Backends/Selection.antt =====
-- Backend names (normalize_backend) and built executors (build_executor) of src/leasepool/backends.py.
use text.Mathlib.Text.{◌==◌ as str_eq}
use leasepool.Base.{
  ℕ, String, ◌≡◌, refl, ◌↔◌, Bool, true, false, ◌&&◌, Option, some, List, [], ◌∷◌, map, arith,
  if◌then◌else◌,
}
use leasepool.Base.Exec.{Exn, ok}
use leasepool.Kwargs.{Kwargs, name, get, get-set_default, or_else}
use leasepool.Backends.{
  ExecutorBackend, thread, process, interpreter, member, spelled, Executor, codes, lower,
  same_codes, value, of_value, normalize_backend, class_of, prefix_key, build_executor,
}

same_codes_eq : (xs ys : List ℕ) → same_codes xs ys ≡ true → xs ≡ ys
same_codes_eq [] [] h = refl
same_codes_eq [] (b ∷ ys) h = cc
same_codes_eq (a ∷ xs) [] h = cc
same_codes_eq (a ∷ xs) (b ∷ ys) h = ground (arith, same_codes_eq xs ys)

named : (cs : List ℕ) (b : ExecutorBackend) → of_value cs ≡ some b → cs ≡ codes (value b)
unfolding of_value
named cs thread h = same_codes_eq cs (codes (value thread)) (ground arith)
named cs process h = same_codes_eq cs (codes (value process)) (ground arith)
named cs interpreter h = same_codes_eq cs (codes (value interpreter)) (ground arith)

normalize_value :
    (t : String) (b : ExecutorBackend)
    → map lower (codes t) ≡ codes (value b)
    → normalize_backend (spelled t) ≡ ok b
unfolding normalize_backend
normalize_value t thread h = rw h
normalize_value t process h = rw h
normalize_value t interpreter h = rw h

-- A text names a backend exactly when, lower-cased, it is that backend's value.
pub normalize_backend_iff :
    (t : String) (b : ExecutorBackend)
    → (normalize_backend (spelled t) ≡ ok b) ↔ (map lower (codes t) ≡ codes (value b))
unfolding normalize_backend
normalize_backend_iff t b = (λ h. named (map lower (codes t)) b (ground arith), normalize_value t b)

abbrev pub wants_prefix : ExecutorBackend → Bool
wants_prefix process = false
wants_prefix _ = true

-- An executor that is built has the class and the worker count that were asked for. Its
-- thread-name prefix is the user's, if the user gave one; else a thread or an interpreter pool
-- gets the manager's prefix with the executor's number and a process pool gets none. Every other
-- keyword argument is the user's.
pub build_executor_ok :
    (has_interpreter : Bool) (failure : Option Exn) (b : ExecutorBackend) (workers : ℕ)
    (prefix : String) (seq : ℕ) (kwargs : Kwargs) (key : String) {e : Executor}
    → build_executor has_interpreter failure (member b) workers prefix seq kwargs ≡ ok e
    → (e.seq ≡ seq)
      × (e.max_workers ≡ workers)
      × (ok e.cls ≡ class_of has_interpreter b)
      × (get key e.kwargs ≡ (
          if wants_prefix b && str_eq prefix_key key
          then some (or_else (name prefix seq) (get prefix_key kwargs))
          else get key kwargs))
unfolding build_executor
build_executor_ok i failure thread workers prefix seq kwargs key h =
    ground (arith, get-set_default prefix_key key (name prefix seq) kwargs)
build_executor_ok i failure process workers prefix seq kwargs key h = ground arith
build_executor_ok i failure interpreter workers prefix seq kwargs key h =
    ground (arith, get-set_default prefix_key key (name prefix seq) kwargs)
