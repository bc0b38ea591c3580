-- ===== src/Base/Json.antt =====
-- The values of Python's JSON: what an event payload and a serialised property hold. A number that is
-- not a natural is a fraction: whether it is negative, its digits, and how many of them stand behind
-- the point. Every finite float is one exactly.
use Prim.Native.Nat.{ℕ, zero, suc, ◌*◌}
use Prim.Native.String.{String}
use native.Mathlib.Decide.{ℕ_discrete}
use mathlib.Core.Path.{◌≡◌, refl}
use mathlib.Core.Bool.{Bool, true, false}
use text.Mathlib.Text.{◌==◌}
use text.Mathlib.TextEquality.{eq_iff}
use mathlib.Core.List.{List, [], ◌∷◌}

mutual
  pub data Json : Type 0 where
    null : Json
    bool : Bool → Json
    num : ℕ → Json
    frac : Bool → ℕ → ℕ → Json
    str : String → Json
    arr : Items → Json
    obj : Fields → Json

  pub data Items : Type 0 where
    nil : Items
    cons : Json → Items → Items

  pub data Fields : Type 0 where
    end : Fields
    field : String → Json → Fields → Fields

abbrev pub power_of_ten : ℕ → ℕ
power_of_ten zero = 1
power_of_ten (suc k) = 10 * power_of_ten k

-- a list of texts as a JSON array
abbrev pub str_items : List String → Items
str_items [] = nil
str_items (x ∷ xs) = cons (str x) (str_items xs)

abbrev pub str_array : List String → Json
str_array xs = arr (str_items xs)

decide_text : (s t : String) (b : Bool) → (s == t) ≡ b → Dec (s ≡ t)
decide_text s t true e = yes ((eq_iff s t).0 e)
decide_text s t false e = no (λ p. cc ((eq_iff s t).1 p))

unfoldable pub String_discrete : Discrete String
unfolding decide_text
String_discrete s t = decide_text s t (s == t) refl

unfoldable pub Json_discrete : Discrete Json
unfolding String_discrete ℕ_discrete
Json_discrete = hlevel (ℕ_discrete, String_discrete)

abbrev pub is_yes {ℓ} : {A : Type ℓ} → Dec A → Bool
is_yes (yes _) = true
is_yes (no _) = false
