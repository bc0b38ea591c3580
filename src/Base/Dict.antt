-- ===== src/Base/Dict.antt =====
-- A Python dict with text keys, in insertion order: an assignment to a key that is present keeps
-- its place.
use Prim.Native.String.{String}
use mathlib.Core.Path.{◌≡◌, refl}
use mathlib.Core.Bool.{false}
use mathlib.Core.Option.{Option, none, some}
use mathlib.Core.List.{List, [], ◌∷◌}
use native.Mathlib.Omega.{arith}
use text.Mathlib.Text.{◌==◌}
use text.Mathlib.TextEquality.{eq_iff}
use sciguard_autopilot.Base.Tests.{if◌then◌else◌}
use sciguard_autopilot.Base.Lists.{contains, NoDup}

abbrev pub Dict {ℓ} : Type ℓ → Type ℓ
Dict V = List (String × V)

module _ {ℓ} {V : Type ℓ} where
  -- d.get(k)
  abbrev pub lookup : String → Dict V → Option V
  lookup k [] = none
  lookup k ((j, v) ∷ d) = if j == k then some v else lookup k d

  -- d[k] = v
  abbrev pub insert : String → V → Dict V → Dict V
  insert k v [] = (k, v) ∷ []
  insert k v ((j, w) ∷ d) = if j == k then (j, v) ∷ d else (j, w) ∷ insert k v d

  -- {**d, **e}
  abbrev pub merge : Dict V → Dict V → Dict V
  merge d [] = d
  merge d ((k, v) ∷ e) = merge (insert k v d) e

  -- {k: v for k, v in d.items() if k not in ks}
  abbrev pub without : List String → Dict V → Dict V
  without ks [] = []
  without ks ((j, v) ∷ d) = let rest = without ks d in if contains j ks then rest else (j, v) ∷ rest

  abbrev pub keys : Dict V → List String
  keys [] = []
  keys ((k, _) ∷ d) = k ∷ keys d

  pub lookup-insert :
      (k j : String) (v : V) (d : Dict V)
      → lookup j (insert k v d) ≡ (if k == j then some v else lookup j d)
  lookup-insert k j v [] = refl
  lookup-insert k j v ((i, w) ∷ d) =
      ground (arith, eq_iff k j, eq_iff i k, eq_iff i j, lookup-insert k j v d)

  abbrev pub or_else : Option V → Option V → Option V
  or_else none o = o
  or_else (some v) _ = some v

  lookup_of_not_key : (k : String) (d : Dict V) → contains k (keys d) ≡ false → lookup k d ≡ none
  lookup_of_not_key k [] h = refl
  lookup_of_not_key k ((j, v) ∷ d) h = ground (arith, lookup_of_not_key k d)

  -- The second dict's entries win; a dict's keys are distinct.
  pub lookup-merge :
      (k : String) (d e : Dict V)
      → NoDup (keys e)
      → lookup k (merge d e) ≡ or_else (lookup k e) (lookup k d)
  lookup-merge k d [] h = refl
  lookup-merge k d ((j, v) ∷ e) h =
      rw (lookup-merge k (insert j v d) e h.1, lookup-insert j k v d)
        (ground (arith, eq_iff j k, lookup_of_not_key j e h.0))

  pub lookup-without :
      (k : String) (ks : List String) (d : Dict V)
      → lookup k (without ks d) ≡ (if contains k ks then none else lookup k d)
  lookup-without k ks [] = ground arith
  lookup-without k ks ((j, v) ∷ d) = ground (arith, eq_iff j k, lookup-without k ks d)
