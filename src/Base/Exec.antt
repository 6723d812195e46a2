-- ===== src/Base/Exec.antt =====
-- Methods with state and exceptions. What a method wrote before it raised stays written.
use Prim.Native.Nat.{ℕ}
use native.Mathlib.Omega.{arith}
use mathlib.Core.Path.{◌≡◌, refl}
use mathlib.Core.Logic.{◌⊎◌, inl, inr}
use mathlib.Core.Bool.{Bool}
use mathlib.Core.Option.{Option, none, some}
use leasepool.Base.Tests.{if◌then◌else◌}

-- The exceptions of src/leasepool/exceptions.py, and those of Python that the code raises or meets.
pub data Exn : Type 0 where
  not_started unavailable lease_expired unsupported_backend : Exn
  value_error type_error overflow_error runtime_error timeout_error broken_executor : Exn
  cancelled key_error attribute_error assertion_error : Exn
  other_error : ℕ → Exn

pub data Result {ℓ} (A : Type ℓ) : Type ℓ where
  ok : A → Result A
  raised : Exn → Result A

pub Result-cases {ℓ} :
    {A : Type ℓ} (r : Result A) → ((a : A) × (r ≡ ok a)) ⊎ ((e : Exn) × (r ≡ raised e))
Result-cases (ok a) = inl (a, refl)
Result-cases (raised e) = inr (e, refl)

abbrev pub Exec : Type 0 → Type 0 → Type 0
Exec S A = S → Result A × S

module _ {S A : Type 0} where
  abbrev pub pure : A → Exec S A
  pure a s = (ok a, s)

  abbrev pub raise : Exn → Exec S A
  raise e s = (raised e, s)

  abbrev pub lift : Result A → Exec S A
  lift r s = (r, s)

  abbrev pub gets : (S → A) → Exec S A
  gets f s = (ok (f s), s)

  -- `try: m  except Exception: handler; raise`
  abbrev pub on_error : Exec S A → Exec S (Unit {0}) → Exec S A
  on_error m handler s =
      let (r, t) = m s in
      elim r [
        | ok a ↦ (ok a, t)
        | raised e ↦
            let (r', u) = handler t in elim r' [ ok _ ↦ (raised e, u) | raised e' ↦ (raised e', u) ]
      ]

module _ {S : Type 0} where
  abbrev pub modify : (S → S) → Exec S (Unit {0})
  modify f s = (ok tt, f s)

  abbrev pub raise_if : Bool → Exn → Exec S (Unit {0})
  raise_if c e s = (if c then raised e else ok tt, s)

  -- An outcome that the environment decides: nothing, or an exception.
  abbrev pub raise_some : Option Exn → Exec S (Unit {0})
  raise_some none s = (ok tt, s)
  raise_some (some e) s = (raised e, s)

infixl 5 ◌>>=◌ ◌>>◌
abbrev pub ◌>>=◌ : {S A B : Type 0} → Exec S A → (A → Exec S B) → Exec S B
◌>>=◌ m f s = let (r, t) = m s in elim r [ ok a ↦ f a t | raised e ↦ (raised e, t) ]

abbrev pub ◌>>◌ : {S A B : Type 0} → Exec S A → Exec S B → Exec S B
m >> k = m >>= λ _. k

-- What holds after a bind: of the state in which `m` raised, or after the rest.
pub bind-keeps :
    {S A B : Type 0} (P : S → Type 0) (m : Exec S A) (f : A → Exec S B) (s : S)
    → ((e : Exn) → (m s).0 ≡ raised e → P (m s).1)
    → ((a : A) → (m s).0 ≡ ok a → P (f a (m s).1).1)
    → P ((m >>= f) s).1
bind-keeps P m f s failed next = elim (Result-cases (m s).0) [
  | inl (a, e) ↦ rw (e, ◌>>=◌) (next a e)
  | inr (x, e) ↦ rw (e, ◌>>=◌) (failed x e)
]

-- A bind that returns: both parts did.
pub bind-ok :
    {S A B : Type 0} (m : Exec S A) (f : A → Exec S B) {b : B} {s t : S}
    → (m >>= f) s ≡ (ok b, t)
    → (a : A) × (u : S) × (m s ≡ (ok a, u)) × (f a u ≡ (ok b, t))
bind-ok m f {b} {s} {t} h = elim (Result-cases (m s).0) [
  | inl (a, e) ↦ (a, (m s).1, ground (arith, e), ground (arith, e, h))
  | inr (x, e) ↦ ground (arith, e, h)
]

-- `m` keeps `P`, whether it returns or raises.
abbrev pub Keeps : {S A : Type 0} → (S → Type 0) → Exec S A → Type 0
Keeps {S = S} P m = (s : S) → P s → P (m s).1

pub Keeps-bind :
    {S A B : Type 0} (P : S → Type 0) (m : Exec S A) (f : A → Exec S B)
    → Keeps P m
    → ((a : A) → Keeps P (f a))
    → Keeps P (m >>= f)
Keeps-bind P m f km kf s h =
    bind-keeps P m f s (λ x failed. km s h) (λ a done. kf a (m s).1 (km s h))

pub Keeps-on_error :
    {S A : Type 0} (P : S → Type 0) (m : Exec S A) (handler : Exec S (Unit {0}))
    → Keeps P m
    → Keeps P handler
    → Keeps P (on_error m handler)
Keeps-on_error P m handler km kh s h = elim (Result-cases (m s).0) [
  | inl (a, e) ↦ rw (e, on_error) (km s h)
  | inr (x, e) ↦ elim (Result-cases (handler (m s).1).0) [
    | inl (u, e') ↦ rw (e, e', on_error) (kh (m s).1 (km s h))
    | inr (y, e') ↦ rw (e, e', on_error) (kh (m s).1 (km s h))
  ]
]
