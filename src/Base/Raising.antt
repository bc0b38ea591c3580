-- ===== src/Base/Raising.antt =====
-- Results of code that may raise, with the sequencing of such code.
use Prim.Native.String.{String}
use mathlib.Core.Bool.{Bool, true, false}
use mathlib.Core.Path.{◌≡◌, refl}
use mathlib.Core.Logic.{◌⊎◌, inl, inr}
use mathlib.Core.Option.{Option, none, some}

-- The exception's class, with the fixed part of its message.
pub data Exception : Type 0 where
  value_error lookup_error key_error type_error : String → Exception
  attribute_error runtime_error os_error : String → Exception

pub data Result {ℓ} (A : Type ℓ) : Type ℓ where
  ok : A → Result A
  err : Exception → Result A

pub Result-cases {ℓ} :
    {A : Type ℓ} (r : Result A) → ((a : A) × (r ≡ ok a)) ⊎ ((e : Exception) × (r ≡ err e))
Result-cases (ok a) = inl (a, refl)
Result-cases (err e) = inr (e, refl)

abbrev pub is_ok {ℓ} : {A : Type ℓ} → Result A → Bool
is_ok (err _) = false
is_ok (ok _) = true

-- the statements that follow one that may raise
module _ {ℓ κ} {A : Type ℓ} {B : Type κ} where
  infixl 5 ◌>>=◌
  abbrev pub ◌>>=◌ : Result A → (A → Result B) → Result B
  err raised >>= rest = err raised
  ok value >>= rest = rest value

  -- Inversion of a sequence that returned.
  pub >>=-eq-ok :
      (first : Result A) (rest : A → Result B) {b : B}
      → (first >>= rest) ≡ ok b
      → (a : A) × (first ≡ ok a) × (rest a ≡ ok b)
  >>=-eq-ok (err raised) rest h = cc
  >>=-eq-ok (ok value) rest h = (value, refl, h)

infixl 5 ◌>>◌
abbrev pub ◌>>◌ {κ} : {B : Type κ} → Result (Unit {0}) → Result B → Result B
first >> rest = first >>= λ _. rest

-- `if test: raise e`
abbrev pub raise_if : Bool → Exception → Result (Unit {0})
raise_if true e = err e
raise_if false e = ok tt

abbrev pub or_raise {ℓ} : {A : Type ℓ} → Option A → Exception → Result A
or_raise none e = err e
or_raise (some a) _ = ok a

pub ok_inj {ℓ} : {A : Type ℓ} {a b : A} → ok a ≡ ok b → a ≡ b
ok_inj h = cc

pub is_ok→ok {ℓ} : {A : Type ℓ} (r : Result A) → is_ok r ≡ true → (a : A) × (r ≡ ok a)
is_ok→ok (ok a) h = (a, refl)
is_ok→ok (err e) h = cc
