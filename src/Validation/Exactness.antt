-- ===== src/Validation/Exactness.antt =====
-- What the checks of configuration values accept (_coerce_positive_int and
-- _coerce_finite_duration of src/leasepool/manager.py).
use leasepool.Base.{inl, inr, ℕ, zero, suc, ◌≢◌, ◌≡◌, ◌↔◌, ◌<◌, ◌≤◌, ◌⊎◌, Bool, true, false, arith}
use leasepool.Base.Ints.{pos}
use leasepool.Base.Exec.{
  Exn, Result, Result-cases, type_error, value_error, overflow_error, ok, raised,
}
use leasepool.Base.Results.{type_as_value_error}
use leasepool.Validation.{
  Float, finite, PyObject, int, is_bool, index, to_float, float_limit, coerce_positive_int,
  coerce_finite_duration,
}

-- `except TypeError` changes a TypeError, and nothing else.
type_as_value_error-cases :
    {A : Type 0} (r : Result A)
    → ((r ≡ raised type_error) × (type_as_value_error r ≡ raised value_error))
      ⊎ ((r ≢ raised type_error) × (type_as_value_error r ≡ r))
type_as_value_error-cases r = ground arith

-- A count is accepted exactly when the value is no bool and its integer index is above 0, and the
-- result is that index.
pub coerce_positive_int_iff :
    (v : PyObject) (n : ℕ)
    → (coerce_positive_int v ≡ ok n) ↔ ((is_bool v ≡ false) × (index v ≡ ok (pos n)) × (0 < n))
unfolding coerce_positive_int
coerce_positive_int_iff v n = (accepted v n, λ h. given v n h.0 h.1 h.2)
  where
    accepted :
        (v : PyObject) (n : ℕ)
        → coerce_positive_int v ≡ ok n
        → (is_bool v ≡ false) × (index v ≡ ok (pos n)) × (0 < n)
    accepted v n h = ground arith

    given :
        (v : PyObject) (n : ℕ)
        → is_bool v ≡ false
        → index v ≡ ok (pos n)
        → 0 < n
        → coerce_positive_int v ≡ ok n
    given v n b i h = ground arith

-- Every value that is refused as a count is refused with a ValueError, but for an exception of
-- its own __index__ that is no TypeError, which passes.
pub coerce_positive_int_error :
    (v : PyObject) {e : Exn}
    → coerce_positive_int v ≡ raised e
    → (e ≡ value_error) ⊎ ((index v ≡ raised e) × (e ≢ type_error))
unfolding coerce_positive_int
coerce_positive_int_error v h = elim (type_as_value_error-cases (index v)) [
  | inl (was, now_) ↦ ground (arith, h, now_)
  | inr (other, same) ↦ elim (Result-cases (index v)) [
    | inl (n, e) ↦ ground (arith, h, same, e)
    | inr (x, e) ↦ ground (arith, h, same, e, other)
  ]
]

-- A duration is accepted exactly when the value is no bool and float() makes it a finite number
-- of the wanted sign: above 0, or at least 0 where zero is allowed. The result is that number.
pub coerce_finite_duration_iff :
    (allow_zero : Bool) (v : PyObject) (n : ℕ)
    → (coerce_finite_duration allow_zero v ≡ ok n)
      ↔ ((is_bool v ≡ false) × (to_float v ≡ ok (finite (pos n))) × ((0 < n) ⊎ (allow_zero ≡ true)))
unfolding coerce_finite_duration
coerce_finite_duration_iff z v n = (accepted z v n, λ h. given z v n h.0 h.1 h.2)
  where
    accepted :
        (z : Bool) (v : PyObject) (n : ℕ)
        → coerce_finite_duration z v ≡ ok n
        → (is_bool v ≡ false) × (to_float v ≡ ok (finite (pos n))) × ((0 < n) ⊎ (z ≡ true))
    accepted z v n h = ground arith

    given :
        (z : Bool) (v : PyObject) (n : ℕ)
        → is_bool v ≡ false
        → to_float v ≡ ok (finite (pos n))
        → (0 < n) ⊎ (z ≡ true)
        → coerce_finite_duration z v ≡ ok n
    given z v n b f h = ground arith

-- Whether a float is finite and of the wanted sign.
abbrev pub fits : Bool → Float → Bool
fits allow_zero (finite (pos zero)) = allow_zero
fits allow_zero (finite (pos (suc n))) = true
fits allow_zero _ = false

-- What is wrong with a value that is refused with a ValueError.
abbrev pub Unfit : Bool → PyObject → Type 0
Unfit allow_zero v =
    (is_bool v ≡ true)
    ⊎ (to_float v ≡ raised type_error)
    ⊎ (to_float v ≡ raised value_error)
    ⊎ ((f : Float) × (to_float v ≡ ok f) × (fits allow_zero f ≡ false))

-- What float() raises for a value, where the except clause names neither of its classes.
abbrev pub Passing : PyObject → Exn → Type 0
Passing v e = (is_bool v ≡ false) × (to_float v ≡ raised e) × (e ≢ type_error) × (e ≢ value_error)

-- So an integer that is too large for a float is not reported as a ValueError.
pub coerce_finite_duration_too_large :
    (allow_zero : Bool) (n : ℕ)
    → float_limit ≤ n
    → coerce_finite_duration allow_zero (int (pos n)) ≡ raised overflow_error
unfolding coerce_finite_duration
coerce_finite_duration_too_large z n h = ground arith

pub coerce_positive_int_result :
    (v : PyObject)
    → ((n : ℕ) × (coerce_positive_int v ≡ ok n) × (0 < n))
      ⊎ ((e : Exn) × (coerce_positive_int v ≡ raised e))
coerce_positive_int_result v = elim (Result-cases (coerce_positive_int v)) [
  | inl (n, h) ↦ inl (n, h, ((coerce_positive_int_iff v n).0 h).2)
  | inr failed ↦ inr failed
]

pub coerce_finite_duration_result :
    (v : PyObject)
    → ((n : ℕ) × (coerce_finite_duration false v ≡ ok n) × (0 < n))
      ⊎ ((e : Exn) × (coerce_finite_duration false v ≡ raised e))
coerce_finite_duration_result v = elim (Result-cases (coerce_finite_duration false v)) [
  | inl (n, h) ↦ inl (n, h, ground (arith, (coerce_finite_duration_iff false v n).0 h))
  | inr failed ↦ inr failed
]
