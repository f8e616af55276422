-- ===== src/Prelude/Results.antt =====
-- Exceptions as values: the classes that the modelled code raises, and calls that may raise.
use mathlib.Core.Path.{◌≡◌, refl}
use mathlib.Core.Logic.{◌⊎◌, inl, inr}
use mathlib.Core.Bool.{Bool}
use mandare.Prelude.Tests.{if◌then◌else◌}

pub data Error : Type 0 where
  value_error type_error key_error attribute_error not_found policy_violation : Error
  runtime_error import_error config_error duplicate unknown_capability : Error

pub data Result {ℓ} (A : Type ℓ) : Type ℓ where
  -- an exception is raised
  err : Error → Result A
  -- the call returns
  ok : A → Result A

infixl 5 ◌>>=◌
abbrev pub ◌>>=◌ {ℓ κ} : {A : Type ℓ} → {B : Type κ} → (m : Result A) (k : A → Result B) → Result B
err raised >>= k = err raised
ok x >>= k = k x

infixl 5 ◌>>◌
abbrev pub ◌>>◌ {ℓ κ} : {A : Type ℓ} {B : Type κ} → Result A → Result B → Result B
m >> k = m >>= λ _. k

-- `if c: raise e`
abbrev pub raise_if : Bool → Error → Result (Unit {0})
raise_if c e = if c then err e else ok tt

-- What a call that returned went through.
pub >>=-eq-ok {ℓ κ} :
    {A : Type ℓ} {B : Type κ} (call : Result A) (k : A → Result B) {out : B}
    → (call >>= k) ≡ ok out
    → (x : A) × (call ≡ ok x) × (k x ≡ ok out)
>>=-eq-ok (err raised) k returned = cc
>>=-eq-ok (ok x) k returned = (x, refl, returned)

pub Result-cases {ℓ} :
    {A : Type ℓ} (r : Result A) → ((a : A) × (r ≡ ok a)) ⊎ ((e : Error) × (r ≡ err e))
Result-cases (ok a) = inl (a, refl)
Result-cases (err e) = inr (e, refl)

pub ok_injective {ℓ} : {A : Type ℓ} {a b : A} → ok a ≡ ok b → a ≡ b
ok_injective p = cc

-- Two results that raise the same raise the same exception.
pub err_injective {ℓ} : (A : Type ℓ) {x e : Error} → ◌≡◌ {A = Result A} (err x) (err e) → x ≡ e
err_injective A p = cc

-- The value of a result, where a call is known not to raise.
abbrev pub OkAnd {ℓ κ} : {A : Type ℓ} → (A → Type κ) → Result A → Type κ
OkAnd P (ok a) = P a
OkAnd P (err e) = Unit
