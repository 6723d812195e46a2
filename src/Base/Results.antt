-- ===== src/Base/Results.antt =====
-- Fallible code without state, and Python's `try … except` that turns one exception into another.
use leasepool.Base.Exec.{Exn, type_error, value_error, Result, ok, raised}
use leasepool.Base.Tests.{if◌then◌else◌}
use mathlib.Core.Bool.{Bool}

infixl 5 ◌>>=◌ ◌>>◌
abbrev pub ◌>>=◌ {ℓ κ} : {A : Type ℓ} {B : Type κ} → Result A → (A → Result B) → Result B
ok a >>= f = f a
raised e >>= f = raised e

abbrev pub ◌>>◌ {ℓ} : {B : Type ℓ} → Result (Unit {0}) → Result B → Result B
m >> k = m >>= λ _. k

abbrev pub raise_if : Bool → Exn → Result (Unit {0})
raise_if c e = if c then raised e else ok tt

-- `except TypeError as exc: raise ValueError(…) from exc`
abbrev pub type_as_value_error {ℓ} : {A : Type ℓ} → Result A → Result A
type_as_value_error (raised type_error) = raised value_error
type_as_value_error r = r
