-- ===== src/Events/Storage.antt =====
-- The JSONL file of an event stream in core/events.py: what `save_jsonl` writes and what
-- `load_events` and `from_jsonl` read. A line is what the model's parser makes of it. `splitlines`
-- breaks a text at more characters than the line feed that `save_jsonl` writes: the JSON text of an
-- event escapes those below a space, and holds U+0085, U+2028 and U+2029 as they are.
use Prim.Native.Char.{code}
use Prim.Native.String.{[] as no_text, ◌∷◌ as put_before}
use sciguard_autopilot.Base.{
  ◌≡◌, refl, inl, inr, String, Bool, false, ◌||◌, List, [], ◌∷◌, arith, any, nat_eq, if◌then◌else◌,
  Bool-cases, Result, ok, err, value_error, none,
}
use sciguard_autopilot.Base.Raising.{◌>>=◌}
use sciguard_autopilot.Base.Dict.{Dict}
use sciguard_autopilot.Base.Json.{
  Json, null, bool, num, frac, str, arr, obj, Items, nil, cons, Fields, end, field,
}
use sciguard_autopilot.Events.{Event, EventRecorder, validate_event_stream, new_recorder}

-- A line of the file: blank, refused by the parser, an event, or the pieces of an event's text that a
-- character inside it breaks.
pub data Line : Type 0 where
  blank : Line
  invalid : Line
  holds : Event → Line
  broken : Event → Line

-- The line boundaries of `splitlines` that the JSON text does not escape.
abbrev pub breaks_text : String → Bool
breaks_text no_text = false
breaks_text (put_before c s) =
    nat_eq (code c) 133 || nat_eq (code c) 8232 || nat_eq (code c) 8233 || breaks_text s

abbrev mutual
  pub breaks_json : Json → Bool
  breaks_json null = false
  breaks_json (bool b) = false
  breaks_json (num n) = false
  breaks_json (frac b m k) = false
  breaks_json (str s) = breaks_text s
  breaks_json (arr js) = breaks_items js
  breaks_json (obj fs) = breaks_fields fs

  breaks_items : Items → Bool
  breaks_items nil = false
  breaks_items (cons j js) = breaks_json j || breaks_items js

  breaks_fields : Fields → Bool
  breaks_fields end = false
  breaks_fields (field k j fs) = breaks_text k || breaks_json j || breaks_fields fs

abbrev breaks_payload : Dict Json → Bool
breaks_payload [] = false
breaks_payload ((k, j) ∷ d) = breaks_text k || breaks_json j || breaks_payload d

-- Whether the text of an event holds a character that breaks its line.
unfoldable pub breaks_line : Event → Bool
breaks_line e =
    breaks_text e.event_id
    || breaks_text e.incident_id
    || breaks_text e.summary
    || any breaks_text e.evidence_ids
    || breaks_payload e.payload

abbrev with_event : Event → Result (List Event) → Result (List Event)
with_event e (err x) = err x
with_event e (ok es) = ok (e ∷ es)

-- The first piece of a broken text ends inside of a string, which the parser refuses.
unfoldable pub read_lines : List Line → Result (List Event)
read_lines [] = ok []
read_lines (blank ∷ ls) = read_lines ls
read_lines (invalid ∷ ls) = err (value_error "invalid event on JSONL line")
read_lines (broken e ∷ ls) = err (value_error "invalid event on JSONL line")
read_lines (holds e ∷ ls) = with_event e (read_lines ls)

unfoldable pub load_events : List Line → Result (List Event)
unfolding read_lines validate_event_stream
load_events ls = do es ← read_lines ls; validate_event_stream es

-- the text of an event, and a line feed
unfoldable pub line_of : Event → Line
unfolding breaks_line
line_of e = if breaks_line e then broken e else holds e

unfoldable pub lines_of : List Event → List Line
unfolding line_of
lines_of [] = []
lines_of (e ∷ es) = line_of e ∷ lines_of es

-- `save_jsonl`: the new content of the file
unfoldable pub save_jsonl : EventRecorder → Result (List Line)
unfolding validate_event_stream lines_of
save_jsonl r = do _ ← validate_event_stream r.events; ok (lines_of r.events)

-- `EventRecorder.from_jsonl`
unfoldable pub from_jsonl : List Line → Result EventRecorder
unfolding load_events new_recorder
from_jsonl ls = do
  events ← load_events ls
  elim events [
    | [] ↦ err (value_error "cannot create an incident recorder from an empty stream")
    | e ∷ es ↦ new_recorder e.incident_id (e ∷ es) none
  ]

-- A file is read as what was written, or it is refused: that is so if an event in it breaks its line.
pub read_lines-lines_of :
    (es : List Event)
    → read_lines (lines_of es)
      ≡ (if any breaks_line es then err (value_error "invalid event on JSONL line") else ok es)
unfolding read_lines lines_of line_of
read_lines-lines_of [] = refl
read_lines-lines_of (e ∷ es) = elim (Bool-cases (breaks_line e)) [
  | inl bad ↦ rw bad refl
  | inr good ↦ rw (good, read_lines-lines_of es) (ground arith)
]

pub load_events-lines_of :
    (es : List Event)
    → load_events (lines_of es) ≡ (
        if any breaks_line es
        then err (value_error "invalid event on JSONL line")
        else validate_event_stream es)
unfolding load_events
load_events-lines_of es = rw (read_lines-lines_of es) (ground arith)
