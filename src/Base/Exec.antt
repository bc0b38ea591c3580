-- ===== src/Base/Exec.antt =====
-- Actions that mutate a state and may raise. What was written before a raise stays written, so the
-- state comes back beside the exception too.
use mathlib.Core.Path.{◌≡◌, refl}
use mathlib.Core.Bool.{Bool, true, false}
use mathlib.Core.Option.{Option, none, some}
use sciguard_autopilot.Base.Raising.{Exception, Result, ok, err}

abbrev pub Exec {ℓ} : Type ℓ → Type ℓ → Type ℓ
Exec S A = S → Result A × S

module _ {ℓ} {S A : Type ℓ} where
  abbrev pub pure : A → Exec S A
  pure a s = (ok a, s)

  abbrev pub raise : Exception → Exec S A
  raise e s = (err e, s)

  abbrev pub lift : Result A → Exec S A
  lift r s = (r, s)

  abbrev pub gets : (S → A) → Exec S A
  gets f s = (ok (f s), s)

  abbrev pub or_raise : Option A → Exception → Exec S A
  or_raise none e = raise e
  or_raise (some a) _ = pure a

module _ {ℓ} {S A B : Type ℓ} where
  infixl 5 ◌>>=◌ ◌>>◌
  abbrev pub continue : Result A × S → (A → Exec S B) → Result B × S
  continue (ok a, s) f = f a s
  continue (err e, s) f = (err e, s)

  abbrev pub ◌>>=◌ : Exec S A → (A → Exec S B) → Exec S B
  ◌>>=◌ m f s = continue (m s) f

  abbrev pub ◌>>◌ : Exec S A → Exec S B → Exec S B
  m >> n = m >>= λ _. n

abbrev pub raise_if {ℓ} : {S : Type ℓ} → Bool → Exception → Exec S (Unit {ℓ})
raise_if true e s = (err e, s)
raise_if false e s = (ok tt, s)

abbrev pub modify {ℓ} : {S : Type ℓ} → (S → S) → Exec S (Unit {ℓ})
modify f s = (ok tt, f s)

-- Inversion of a bind that returned.
pub continue-eq-ok {ℓ} :
    {S A B : Type ℓ} (x : Result A × S) (f : A → Exec S B) (b : B) (s' : S)
    → continue x f ≡ (ok b, s')
    → (a : A) × (s : S) × (x ≡ (ok a, s)) × (f a s ≡ (ok b, s'))
continue-eq-ok (ok a, s) f b s' h = (a, s, refl, h)
continue-eq-ok (err e, s) f b s' h = cc

pub or_raise-eq-ok {ℓ} :
    {S A : Type ℓ} (o : Option A) (e : Exception) (s : S) {a : A} {s' : S}
    → or_raise o e s ≡ (ok a, s')
    → o ≡ some a
or_raise-eq-ok none e s h = cc
or_raise-eq-ok (some b) e s h = cc

-- What an action and its continuation keep of the state, on whichever way they end.
pub continue-keeps {ℓ ℓ'} :
    {S A B : Type ℓ} (P : S → Type ℓ') (x : Result A × S) (f : A → Exec S B)
    → P x.1
    → ((a : A) (s : S) → P s → P (f a s).1)
    → P (continue x f).1
continue-keeps P (ok a, s) f h k = k a s h
continue-keeps P (err e, s) f h k = h
