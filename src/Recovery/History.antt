-- ===== src/Recovery/History.antt =====
-- The persisted recovery history of core/recovery.py, and its trailing clean runs.
use sciguard_autopilot.DataHub.Values.{item_list, loads, value_at}
use sciguard_autopilot.Base.{
  ℕ, suc, String, Bool, true, false, not, Option, none, some, List, [], ◌∷◌, if◌then◌else◌,
  attribute_error, Result, ok, err, ◌==◌, nat_eq,
}
use sciguard_autopilot.Base.Texts.{is_empty}
use sciguard_autopilot.Base.Json.{
  Json, null, bool, num, frac, str, arr, obj, nil, cons, Fields, end, field,
}
use sciguard_autopilot.DataHub.{Properties}

-- `value.get("clean")` as a truth value
abbrev pub truthy : Json → Bool
truthy null = false
truthy (bool b) = b
truthy (num n) = not (nat_eq n 0)
truthy (frac _ n _) = not (nat_eq n 0)
truthy (str s) = not (is_empty s)
truthy (arr nil) = false
truthy (arr (cons _ _)) = true
truthy (obj end) = false
truthy (obj (field _ _ _)) = true

abbrev pub field_of : String → Fields → Option Json
field_of k end = none
field_of k (field j v fs) = if j == k then some v else field_of k fs

abbrev maybe_truthy : Option Json → Bool
maybe_truthy none = false
maybe_truthy (some j) = truthy j

-- `prior.get("clean")`, of a run that is no object an AttributeError
abbrev pub clean_run : Json → Result Bool
clean_run (obj fs) = ok (maybe_truthy (field_of "clean" fs))
clean_run _ = err (attribute_error "object has no attribute 'get'")

-- the loop over `reversed(history)`: the clean runs up to the first that is not clean
unfoldable pub consecutive_clean : List Json → Result ℕ
consecutive_clean [] = ok 0
consecutive_clean (prior ∷ priors) = elim (clean_run prior) [
  | ok true ↦ elim (consecutive_clean priors) [ ok n ↦ ok (suc n) | err e ↦ err e ]
  | ok false ↦ ok 0
  | err e ↦ err e
]

abbrev pub reversed_onto : List Json → List Json → List Json
reversed_onto [] acc = acc
reversed_onto (j ∷ js) acc = reversed_onto js (j ∷ acc)

abbrev pub reversed : List Json → List Json
reversed js = reversed_onto js []

-- The value that `history.append` is called on must be a list.
abbrev pub as_history : Result Json → Result (List Json)
as_history (ok (arr js)) = ok (item_list js)
as_history (ok _) = err (attribute_error "object has no attribute 'append'")
as_history (err e) = err e

abbrev pub persisted_history : Properties → Result (List Json)
persisted_history props = as_history (loads (value_at "sciguard:recovery_history" (arr nil) props))
