-- ===== src/Base/Distinct.antt =====
-- `len(xs) != len(set(xs))` and `len(set(xs)) != 1`: what the two tests on a set's size decide.
use Prim.Native.Nat.{◌≤◌}
use Prim.Native.String.{String}
use mathlib.Core.Path.{◌≡◌, refl, sym}
use mathlib.Core.Logic.{inl, inr}
use mathlib.Core.Bool.{false}
use mathlib.Core.List.{List, [], ◌∷◌}
use native.Mathlib.Omega.{arith}
use text.Mathlib.Text.{◌==◌}
use text.Mathlib.TextEquality.{eq_iff}
use sciguard_autopilot.Base.Tests.{Bool-cases}
use sciguard_autopilot.Base.Lists.{length, All, contains, dedupe_from, NoDup}

-- None of the texts is among those seen.
abbrev pub Fresh : List String → List String → Type 0
Fresh seen = All (λ x. contains x seen ≡ false)

length-dedupe_from-le : (seen xs : List String) → length (dedupe_from seen xs) ≤ length xs
length-dedupe_from-le seen [] = omega arith
length-dedupe_from-le seen (x ∷ xs) =
    ground (arith, length-dedupe_from-le seen xs, length-dedupe_from-le (x ∷ seen) xs)

Fresh-tail : (x : String) (seen xs : List String) → Fresh (x ∷ seen) xs → Fresh seen xs
Fresh-tail x seen [] h = tt
Fresh-tail x seen (y ∷ xs) h = (ground arith, Fresh-tail x seen xs h.1)

Fresh-not_contains :
    (x : String) (seen xs : List String) → Fresh (x ∷ seen) xs → contains x xs ≡ false
Fresh-not_contains x seen [] h = refl
Fresh-not_contains x seen (y ∷ xs) h =
    ground (arith, Fresh-not_contains x seen xs h.1, eq_iff x y, eq_iff y x)

Fresh-cons :
    (x : String) (seen xs : List String)
    → contains x xs ≡ false
    → Fresh seen xs
    → Fresh (x ∷ seen) xs
Fresh-cons x seen [] e h = tt
Fresh-cons x seen (y ∷ xs) e h =
    (ground (arith, eq_iff x y, eq_iff y x), Fresh-cons x seen xs (ground arith) h.1)

pub full_dedupe_from :
    (seen xs : List String) → length (dedupe_from seen xs) ≡ length xs → Fresh seen xs × NoDup xs
full_dedupe_from seen [] h = (tt, tt)
full_dedupe_from seen (x ∷ xs) h = elim (Bool-cases (contains x seen)) [
  | inl old ↦ absurd (ground (arith, length-dedupe_from-le seen xs))
  | inr new ↦
      let (fresh, distinct) = full_dedupe_from (x ∷ seen) xs (ground arith) in
      ((new, Fresh-tail x seen xs fresh), (Fresh-not_contains x seen xs fresh, distinct))
]

pub dedupe_from_full :
    (seen xs : List String) → Fresh seen xs → NoDup xs → length (dedupe_from seen xs) ≡ length xs
dedupe_from_full seen [] f d = refl
dedupe_from_full seen (x ∷ xs) f d =
    ground (arith, dedupe_from_full (x ∷ seen) xs (Fresh-cons x seen xs d.0 f.1) d.1)

pub Fresh-nil : (xs : List String) → Fresh [] xs
Fresh-nil [] = tt
Fresh-nil (x ∷ xs) = (refl, Fresh-nil xs)

-- Every text of the list is `x`.
abbrev pub AllSame : String → List String → Type 0
AllSame x = All (λ y. y ≡ x)

pub one_dedupe_from :
    (x : String) (xs : List String) → length (dedupe_from (x ∷ []) xs) ≡ 0 → AllSame x xs
one_dedupe_from x [] h = tt
one_dedupe_from x (y ∷ xs) h = elim (Bool-cases (x == y)) [
  | inl e ↦ (sym ((eq_iff x y).0 e), one_dedupe_from x xs (ground arith))
  | inr e ↦ absurd (ground arith)
]

pub dedupe_from_one :
    (x : String) (xs : List String) → AllSame x xs → length (dedupe_from (x ∷ []) xs) ≡ 0
dedupe_from_one x [] h = refl
dedupe_from_one x (y ∷ xs) h = ground (arith, dedupe_from_one x xs h.1, eq_iff x y)
