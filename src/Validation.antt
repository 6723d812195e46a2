-- ===== src/Validation.antt =====
-- The checks on configuration values: _coerce_positive_int and _coerce_finite_duration of
-- src/leasepool/manager.py. A value is any Python object, seen through what the checks use of it:
-- isinstance(value, bool), operator.index(value) and float(value).
pub mod Exactness
use Prim.Native.Nat.{max}
use leasepool.Base.{
  ℕ, suc, ◌*◌, ◌-◌, ◌^◌, ◌+◌, Bool, true, false, ◌&&◌, ◌||◌, not, Option, none, some, if◌then◌else◌,
  leb,
}
use leasepool.Base.Ints.{ℤ, pos, negsuc, pos_part, neg_part, leb_ℤ, ltb_ℤ}
use leasepool.Base.Exec.{Exn, type_error, value_error, overflow_error, Result, ok, raised}
use leasepool.Base.Results.{type_as_value_error}

-- A float. A finite one is a whole number of ticks; every finite float is a multiple of 2 ^ -1074.
pub data Float : Type 0 where
  nan pos_inf neg_inf : Float
  finite : ℤ → Float

-- `str` carries what float() reads in the text, if it reads anything; `object` what a value's
-- __index__ and __float__ methods return or raise, where it has them.
pub data PyObject : Type 0 where
  none_object : PyObject
  bool : Bool → PyObject
  int : ℤ → PyObject
  float : Float → PyObject
  str : Option Float → PyObject
  object : Option (Result ℤ) → Option (Result Float) → PyObject

abbrev pub is_bool : PyObject → Bool
is_bool (bool b) = true
is_bool _ = false

abbrev bit : Bool → ℤ
bit true = pos 1
bit false = pos 0

-- operator.index(value)
abbrev pub index : PyObject → Result ℤ
index (bool b) = ok (bit b)
index (int n) = ok n
index (object (some n) f) = n
index _ = raised type_error

-- The ticks of a second.
unfoldable pub second : ℕ
second = 2 ^ 1074

-- The least integer that is too large for a float.
unfoldable pub float_limit : ℕ
float_limit = 2 ^ 1024 - 2 ^ 970

abbrev scale : ℤ → ℤ
scale (pos n) = pos (n * second)
scale (negsuc n) = negsuc (suc n * second - 1)

-- float(n) of an integer; that it rounds above 2 ^ 53 is left out.
abbrev pub int_to_float : ℤ → Result Float
int_to_float n =
    if leb float_limit (pos_part n + neg_part n)
    then raised overflow_error
    else ok (finite (scale n))

-- float(value)
abbrev pub to_float : PyObject → Result Float
to_float none_object = raised type_error
to_float (bool b) = ok (finite (scale (bit b)))
to_float (int n) = int_to_float n
to_float (float f) = ok f
to_float (str none) = raised value_error
to_float (str (some f)) = ok f
to_float (object i (some f)) = f
to_float (object (some (ok n)) none) = int_to_float n
to_float (object (some (raised e)) none) = raised e
to_float (object none none) = raised type_error

abbrev positive : ℤ → Result ℕ
positive n = if leb_ℤ n (pos 0) then raised value_error else ok (pos_part n)

abbrev positive_result : Result ℤ → Result ℕ
positive_result (ok n) = positive n
positive_result (raised e) = raised e

unfoldable pub coerce_positive_int : PyObject → Result ℕ
coerce_positive_int value =
    if is_bool value
    then raised value_error
    else positive_result (type_as_value_error (index value))

abbrev in_bounds : Bool → ℤ → Result ℕ
in_bounds true n = if ltb_ℤ n (pos 0) then raised value_error else ok (pos_part n)
in_bounds false n = if leb_ℤ n (pos 0) then raised value_error else ok (pos_part n)

-- `if not math.isfinite(coerced): raise`, and the bounds.
abbrev finite_in_bounds : Bool → Result Float → Result ℕ
finite_in_bounds allow_zero (ok (finite n)) = in_bounds allow_zero n
finite_in_bounds allow_zero (ok _) = raised value_error
finite_in_bounds allow_zero (raised e) = raised e

-- The result counts ticks.
unfoldable pub coerce_finite_duration : Bool → PyObject → Result ℕ
coerce_finite_duration allow_zero value =
    if is_bool value
    then raised value_error
    else finite_in_bounds allow_zero (type_as_value_error (to_float value))
