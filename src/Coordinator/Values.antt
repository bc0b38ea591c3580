-- ===== src/Coordinator/Values.antt =====
-- How core/coordinator.py reads a value of an evidence payload: Python's `in`, `<`, `is` and
-- subscripts on a JSON value, and the field types of `RootCause`.
use Prim.Native.Nat.{Ordering, ◌*◌, ◌/◌, ◌%◌}
use Prim.Native.String.{[] as no_text, ◌∷◌ as put_before, compare}
use sciguard_autopilot.Base.{
  ℕ, String, Bool, true, false, not, nat_eq, ◌&&◌, ◌||◌, Option, none, some, List, [], ◌∷◌, ltb,
  if◌then◌else◌, value_error, key_error, lookup_error, type_error, Result, ok, err, ◌==◌,
}
use sciguard_autopilot.Base.Texts.{within}
use sciguard_autopilot.Base.Dict.{Dict, lookup}
use sciguard_autopilot.Base.Json.{
  Json, Items, nil, cons, Fields, end, field, null, bool, num, frac, power_of_ten, str, arr, obj,
  Json_discrete, is_yes,
}

-- `True` counts as 1
abbrev as_number : Bool → ℕ
as_number true = 1
as_number false = 0

-- `x == y` and `x < y` of two fractions
abbrev fraction_eq : Bool → ℕ → ℕ → Bool → ℕ → ℕ → Bool
fraction_eq a m k b n l =
    nat_eq (m * power_of_ten l) (n * power_of_ten k)
    && (nat_eq m 0 || nat_eq (as_number a) (as_number b))

abbrev fraction_lt : Bool → ℕ → ℕ → Bool → ℕ → ℕ → Bool
fraction_lt false m k false n l = ltb (m * power_of_ten l) (n * power_of_ten k)
fraction_lt true m k false n l = not (nat_eq m 0 && nat_eq n 0)
fraction_lt false m k true n l = false
fraction_lt true m k true n l = ltb (n * power_of_ten k) (m * power_of_ten l)

abbrev same_number : Json → Json → Bool
same_number (num m) (bool b) = nat_eq m (as_number b)
same_number (bool b) (num m) = nat_eq m (as_number b)
same_number (frac a m k) (frac b n l) = fraction_eq a m k b n l
same_number (frac a m k) (num n) = fraction_eq a m k false n 0
same_number (num n) (frac a m k) = fraction_eq a m k false n 0
same_number (frac a m k) (bool b) = fraction_eq a m k false (as_number b) 0
same_number (bool b) (frac a m k) = fraction_eq a m k false (as_number b) 0
same_number _ _ = false

unfoldable pub same_json : Json → Json → Bool
unfolding Json_discrete
same_json x y = is_yes (Json_discrete x y) || same_number x y

abbrev pub some_item : String → Items → Bool
some_item s nil = false
some_item s (cons (str t) js) = t == s || some_item s js
some_item s (cons _ js) = some_item s js

abbrev has_key : String → Fields → Bool
has_key s end = false
has_key s (field k _ fs) = k == s || has_key s fs

-- `text in value`
abbrev pub contained : String → Json → Result Bool
contained s (arr js) = ok (some_item s js)
contained s (obj fs) = ok (has_key s fs)
contained s (str t) = ok (within s t)
contained s null = err (type_error "argument is not iterable")
contained s (bool _) = err (type_error "argument is not iterable")
contained s (num _) = err (type_error "argument is not iterable")
contained s (frac _ _ _) = err (type_error "argument is not iterable")

abbrev text_lt : String → String → Bool
text_lt s t = elim (compare s t) [ Ordering.lt ↦ true | _ ↦ false ]

-- `x < y`; two lists are compared at the first place where they differ
abbrev mutual
  pub less_than : Json → Json → Result Bool
  less_than (num m) (num n) = ok (ltb m n)
  less_than (num m) (bool b) = ok (ltb m (as_number b))
  less_than (bool a) (num n) = ok (ltb (as_number a) n)
  less_than (bool a) (bool b) = ok (ltb (as_number a) (as_number b))
  less_than (frac a m k) (frac b n l) = ok (fraction_lt a m k b n l)
  less_than (frac a m k) (num n) = ok (fraction_lt a m k false n 0)
  less_than (num m) (frac b n l) = ok (fraction_lt false m 0 b n l)
  less_than (frac a m k) (bool b) = ok (fraction_lt a m k false (as_number b) 0)
  less_than (bool a) (frac b n l) = ok (fraction_lt false (as_number a) 0 b n l)
  less_than (str s) (str t) = ok (text_lt s t)
  less_than (arr xs) (arr ys) = less_items xs ys
  less_than _ _ = err (type_error "'<' not supported between instances")

  less_items : Items → Items → Result Bool
  less_items nil nil = ok false
  less_items nil (cons _ _) = ok true
  less_items (cons _ _) nil = ok false
  less_items (cons x xs) (cons y ys) =
      let deeper = less_items xs ys in
      let here = less_than x y in if same_json x y then deeper else here

-- `a and b`: the second is evaluated if the first holds
abbrev pub and_also : Result Bool → Result Bool → Result Bool
and_also (err e) b = err e
and_also (ok true) b = b
and_also (ok false) b = ok false

-- `value is False`, `value is True`
abbrev pub is_false : Option Json → Bool
is_false (some (bool false)) = true
is_false _ = false

abbrev pub is_true : Option Json → Bool
is_true (some (bool true)) = true
is_true _ = false

-- `abs(float(value)) < 1e-9`; what a text reads as is the argument
abbrev pub is_tiny : (String → Result Bool) → Json → Result Bool
is_tiny tiny_text (num n) = ok (nat_eq n 0)
is_tiny tiny_text (bool b) = ok (not b)
is_tiny tiny_text (frac _ m k) = ok (ltb (m * power_of_ten 9) (power_of_ten k))
is_tiny tiny_text (str s) = tiny_text s
is_tiny tiny_text _ = err (type_error "float() argument must be a string or a real number")

-- `value[0]`, of which a text field is made
abbrev first_of : Json → Result String
first_of (arr nil) = err (lookup_error "list index out of range")
first_of (arr (cons (str s) _)) = ok s
first_of (arr (cons _ _)) = err (value_error "Input should be a valid string")
first_of (str no_text) = err (lookup_error "string index out of range")
first_of (str (put_before c s)) = ok (put_before c no_text)
first_of (obj _) = err (key_error "0")
first_of _ = err (type_error "object is not subscriptable")

abbrev pub at_key : {A : Type 0} → String → (Json → Result A) → Dict Json → Result A
at_key key read d = elim (lookup key d) [ none ↦ err (key_error key) | some j ↦ read j ]

abbrev pub first_text : String → Dict Json → Result String
first_text key = at_key key first_of

abbrev as_text : Json → Result String
as_text (str s) = ok s
as_text _ = err (value_error "Input should be a valid string")

abbrev pub text_field : String → Dict Json → Result String
text_field key = at_key key as_text

abbrev with_item : String → Result (List String) → Result (List String)
with_item s (ok ss) = ok (s ∷ ss)
with_item s (err e) = err e

abbrev as_texts : Items → Result (List String)
as_texts nil = ok []
as_texts (cons (str s) js) = with_item s (as_texts js)
as_texts (cons _ js) = err (value_error "Input should be a valid string")

abbrev as_text_list : Json → Result (List String)
as_text_list (arr js) = as_texts js
as_text_list _ = err (value_error "Input should be a valid list")

abbrev pub texts_field : String → Dict Json → Result (List String)
texts_field key = at_key key as_text_list

-- After `affected_rows > 0` the value is a number or a truth value.
abbrev as_count : Json → Result ℕ
as_count (num n) = ok n
as_count (bool b) = ok (as_number b)
as_count (frac a m k) =
    if nat_eq (m % power_of_ten k) 0
    then ok (m / power_of_ten k)
    else err (value_error "Input should be a valid integer")
as_count _ = err (value_error "Input should be a valid integer")

abbrev pub number_field : String → Dict Json → Result ℕ
number_field key = at_key key as_count
