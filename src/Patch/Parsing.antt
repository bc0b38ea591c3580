-- ===== src/Patch/Parsing.antt =====
-- The lines, the file headers and the hunk headers that core/unified_patch.py reads.
use Prim.Native.String.{[] as no_text, ◌∷◌ as put_before}
use Prim.Native.Char.{Char, code}
use sciguard_autopilot.Base.{
  ◌≡◌, refl, ℕ, ◌+◌, ◌-◌, ◌*◌, String, Bool, true, false, not, ◌&&◌, ◌||◌, Option, none, some, List,
  [], ◌∷◌, if◌then◌else◌, nat_eq, is_nil, contains, keep_if, value_error, Result, ok, err, ◌==◌,
}
use sciguard_autopilot.Base.Texts.{is_empty, strip, between}

-- where `str.splitlines` ends a line
abbrev is_line_end : ℕ → Bool
is_line_end c = between 10 13 c || between 28 30 c || nat_eq c 133 || nat_eq c 8232 || nat_eq c 8233

abbrev pub starts_with_code : ℕ → String → Bool
starts_with_code n no_text = false
starts_with_code n (put_before c s) = nat_eq (code c) n

abbrev onto_first : Char → List String → List String
onto_first c [] = put_before c no_text ∷ []
onto_first c (l ∷ ls) = put_before c l ∷ ls

-- `text.splitlines(keepends=True)`; a carriage return before a line feed does not end the line.
unfoldable pub split_lines : String → List String
split_lines no_text = []
split_lines (put_before c s) =
    let rest = split_lines s in
    if is_line_end (code c) && not (nat_eq (code c) 13 && starts_with_code 10 s)
    then put_before c no_text ∷ rest
    else onto_first c rest

-- What follows a prefix, `none` where the text does not begin with it.
abbrev pub after_prefix : String → String → Option String
after_prefix no_text s = some s
after_prefix (put_before c p) no_text = none
after_prefix (put_before c p) (put_before d s) =
    let rest = after_prefix p s in if nat_eq (code c) (code d) then rest else none

-- `text.split("\t", 1)[0]`
abbrev before_tab : String → String
before_tab no_text = no_text
before_tab (put_before c s) =
    let rest = before_tab s in if nat_eq (code c) 9 then no_text else put_before c rest

-- `text.split("/")`
abbrev cut_slash : Char → List String → List String
cut_slash c [] = put_before c no_text ∷ []
cut_slash c (p ∷ ps) = if nat_eq (code c) 47 then no_text ∷ p ∷ ps else put_before c p ∷ ps

abbrev split_slash : String → List String
split_slash no_text = no_text ∷ []
split_slash (put_before c s) = cut_slash c (split_slash s)

-- `PurePosixPath(raw).parts` of a relative path, and `as_posix` of it
abbrev pub path_parts : String → List String
path_parts raw = keep_if (λ p. not (is_empty p || p == ".")) (split_slash raw)

abbrev pub joined : List String → String
joined [] = no_text
joined (p ∷ []) = p
joined (p ∷ q ∷ ps) = Prim.Native.String.◌++◌ p (put_before "/" (joined (q ∷ ps)))

abbrev without_side : Option String → Option String → String → String
without_side (some rest) _ raw = rest
without_side none (some rest) raw = rest
without_side none none raw = raw

abbrev safe_path : String → Result String
safe_path raw =
    if starts_with_code 47 raw || contains ".." (path_parts raw) || is_nil (path_parts raw)
    then err (value_error "unsafe patched path")
    else ok (joined (path_parts raw))

abbrev named_path : String → Result String
named_path raw =
    if raw == "/dev/null"
    then err (value_error "file creation/deletion patches are not supported")
    else safe_path (without_side (after_prefix "a/" raw) (after_prefix "b/" raw) raw)

-- `_header_path`
unfoldable pub header_path : String → String → Result String
unfolding strip
header_path line prefix = elim (after_prefix prefix line) [
  | none ↦ err (value_error "expected patch header")
  | some rest ↦ named_path (strip (before_tab rest))
]

-- `\d+`, with the number that it stands for
abbrev pub digits : ℕ → Bool → String → Option (ℕ × String)
digits value seen no_text = if seen then some (value, no_text) else none
digits value seen (put_before c s) =
    let more = digits (value * 10 + (code c - 48)) true s in
    if between 48 57 (code c) then more else if seen then some (value, put_before c s) else none

-- `(?:,(\d+))?`, 1 where it is missing
abbrev count_after : String → Option (ℕ × String)
count_after s = elim (after_prefix "," s) [ none ↦ some (1, s) | some rest ↦ digits 0 false rest ]

pub record Hunk : Type 0 where
  pub old_start : ℕ
  pub old_count : ℕ
  pub new_count : ℕ

abbrev range_after : String → String → Option (ℕ × ℕ × String)
range_after mark s = elim (after_prefix mark s) [
  | none ↦ none
  | some rest ↦ elim (digits 0 false rest) [
    | none ↦ none
    | some (start, rest) ↦ elim (count_after rest) [
      | none ↦ none
      | some (n, rest) ↦ some (start, n, rest)
    ]
  ]
]

abbrev ends_header : String → Bool
ends_header rest = is_empty rest || starts_with_code 32 rest

-- `line.rstrip("\n")`
abbrev without_newline : String → String
without_newline no_text = no_text
without_newline (put_before c s) =
    let rest = without_newline s in
    if is_empty rest && nat_eq (code c) 10 then no_text else put_before c rest

-- `_HUNK.match`
unfoldable pub match_hunk : String → Option Hunk
match_hunk line = elim (range_after "@@ -" (without_newline line)) [
  | none ↦ none
  | some (old_start, old_count, rest) ↦ elim (range_after " +" rest) [
    | none ↦ none
    | some (_, new_count, rest) ↦ elim (after_prefix " @@" rest) [
      | none ↦ none
      | some rest ↦
          if ends_header rest
          then some (record { old_start = old_start; old_count = old_count; new_count = new_count })
          else none
    ]
  ]
]

hunk_is_read :
    match_hunk "@@ -3,2 +4 @@ def f():\n"
    ≡ some (record { old_start = 3; old_count = 2; new_count = 1 })
unfolding match_hunk
hunk_is_read = refl

lines_are_kept : split_lines "a\r\nb\n\nc" ≡ "a\r\n" ∷ "b\n" ∷ "\n" ∷ "c" ∷ []
unfolding split_lines
lines_are_kept = refl
