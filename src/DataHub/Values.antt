-- ===== src/DataHub/Values.antt =====
-- How the components read a custom property: `dict.get`, `json.loads`, and a loop over what it
-- returned.
use Prim.Native.String.{[] as no_text, ◌∷◌ as put_before}
use sciguard_autopilot.Base.{
  String, Option, none, some, List, [], ◌∷◌, value_error, type_error, Result, ok, err,
}
use sciguard_autopilot.Base.Dict.{lookup}
use sciguard_autopilot.Base.Json.{Json, Items, nil, cons, Fields, end, field, arr, obj, str}
use sciguard_autopilot.DataHub.{Value, text, dumped, Properties, Aspect}

-- The text of a property. The properties read as texts (IDs, URNs, states, class names) are not
-- JSON, so no `dumped` stands in their place.
abbrev pub text_of : Value → String
text_of (text s) = s
text_of (dumped _) = ""

-- `props.get(key, default)`
abbrev pub text_at : String → String → Properties → String
text_at key default props = elim (lookup key props) [ none ↦ default | some v ↦ text_of v ]

abbrev pub item_list : Items → List Json
item_list nil = []
item_list (cons j js) = j ∷ item_list js

abbrev pub items : List Json → Items
items [] = nil
items (j ∷ js) = cons j (items js)

-- `json.loads`
abbrev pub loads : Value → Result Json
loads (dumped j) = ok j
loads (text _) = err (value_error "no JSON")

abbrev pub value_at : String → Json → Properties → Value
value_at key default props = elim (lookup key props) [ none ↦ dumped default | some v ↦ v ]

-- The elements that a `for` loop finds in a value that `json.loads` returned.
abbrev pub field_names : Fields → List Json
field_names end = []
field_names (field k _ fs) = str k ∷ field_names fs

abbrev pub characters : String → List Json
characters no_text = []
characters (put_before c s) = str (put_before c no_text) ∷ characters s

abbrev pub iterated : Json → Result (List Json)
iterated (arr js) = ok (item_list js)
iterated (obj fs) = ok (field_names fs)
iterated (str s) = ok (characters s)
iterated _ = err (type_error "object is not iterable")

abbrev pub iterated_value : Result Json → Result (List Json)
iterated_value (ok j) = iterated j
iterated_value (err e) = err e

abbrev pub properties_of : Option Properties → Properties
properties_of none = []
properties_of (some d) = d

-- The custom properties of an aspect, none where the aspect is missing.
abbrev pub properties_in : Option Aspect → Properties
properties_in none = []
properties_in (some a) = properties_of a.custom_properties
