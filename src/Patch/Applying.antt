-- ===== src/Patch/Applying.antt =====
-- apply_unified_patch of core/unified_patch.py. One recursion over the lines stands for its two nested
-- loops: a line that begins with "@@ " ends the inner one, which checks the counts of its hunk.
pub mod Edits
use sciguard_autopilot.Base.{
  ℕ, zero, suc, ◌+◌, ◌-◌, String, Bool, true, false, not, ◌&&◌, ◌||◌, Option, none, some, List, [],
  ◌∷◌, ◌++◌, if◌then◌else◌, nat_eq, ltb, length, is_some, value_error, Result, ok, err, ◌==◌,
}
use sciguard_autopilot.Patch.Parsing.{split_lines, after_prefix, header_path, Hunk, match_hunk}

pub record AppliedPatch : Type 0 where
  pub path : String
  pub content : String

-- The local variables of the loops: the lines put out, `source_cursor`, and the lines of the source
-- from there on.
pub record Progress : Type 0 where
  pub output : List String
  pub source_cursor : ℕ
  pub rest : List String

-- The hunk that is open, if there is one, with `consumed_old` and `emitted_new`.
pub record OpenHunk : Type 0 where
  pub hunk : Hunk
  pub consumed_old : ℕ
  pub emitted_new : ℕ

abbrev pub first_lines : ℕ → List String → List String
first_lines zero xs = []
first_lines (suc n) [] = []
first_lines (suc n) (x ∷ xs) = x ∷ first_lines n xs

abbrev pub later_lines : ℕ → List String → List String
later_lines zero xs = xs
later_lines (suc n) [] = []
later_lines (suc n) (x ∷ xs) = later_lines n xs

-- `if consumed_old != old_count or emitted_new != new_count: raise`, false where it raises
abbrev pub counts_match : Option OpenHunk → Bool
counts_match none = true
counts_match (some h) =
    nat_eq h.consumed_old h.hunk.old_count && nat_eq h.emitted_new h.hunk.new_count

-- the outer loop's body up to its inner loop
unfoldable pub open_hunk : Option Hunk → Progress → Result (OpenHunk × Progress)
open_hunk none p = err (value_error "unexpected patch content outside a hunk")
open_hunk (some h) p =
    let target = h.old_start - 1 in
    let skipped = target - p.source_cursor in
    if ltb target p.source_cursor || ltb (length p.rest) skipped
    then err (value_error "patch hunk is out of order or outside the source")
    else ok (
      record { hunk = h; consumed_old = 0; emitted_new = 0 },
      record {
        output = p.output ++ first_lines skipped p.rest;
        source_cursor = target;
        rest = later_lines skipped p.rest;
      },
    )

-- The first character of a line of a hunk's body.
pub data Marker : Type 0 where
  context added removed no_newline unsupported : Marker

-- the marker of a line, and what follows it
unfoldable pub read_line : String → Marker × String
read_line line =
    if is_some (after_prefix "\\ No newline at end of file" line)
    then (no_newline, "")
    else elim (after_prefix " " line) [
      | some content ↦ (context, content)
      | none ↦ elim (after_prefix "+" line) [
        | some content ↦ (added, content)
        | none ↦ elim (after_prefix "-" line) [
          | some content ↦ (removed, content)
          | none ↦ (unsupported, "")
        ]
      ]
    ]

abbrev drift : {A : Type 0} → Result A
drift = err (value_error "patch context drift")

abbrev taken : OpenHunk → Progress → List String → ℕ → List String → OpenHunk × Progress
taken h p rest emitted out = (
  record h { consumed_old = h.consumed_old + 1; emitted_new = h.emitted_new + emitted },
  record { output = p.output ++ out; source_cursor = p.source_cursor + 1; rest = rest },
)

-- A line of the source must be there and be the one that the patch shows.
unfoldable pub take_source :
    String → OpenHunk → Progress → ℕ → List String → List String → Result (OpenHunk × Progress)
take_source content h p emitted out [] = drift
take_source content h p emitted out (l ∷ ls) =
    if l == content then ok (taken h p ls emitted out) else drift

-- the inner loop's body
unfoldable pub apply_line : Marker × String → OpenHunk → Progress → Result (OpenHunk × Progress)
unfolding take_source
apply_line (no_newline, _) h p = ok (h, p)
apply_line (unsupported, _) h p = err (value_error "unsupported unified patch line")
apply_line (context, content) h p = take_source content h p 1 (content ∷ []) p.rest
apply_line (removed, content) h p = take_source content h p 0 [] p.rest
apply_line (added, content) h p =
    ok
      (record h { emitted_new = h.emitted_new + 1 }, record p { output = p.output ++ content ∷ [] })

-- whether a line goes to the outer loop
abbrev pub is_outer : Option OpenHunk → String → Bool
is_outer none line = true
is_outer (some h) line = is_some (after_prefix "@@ " line)

abbrev pub next_state : Option OpenHunk → String → Progress → Result (OpenHunk × Progress)
next_state none line p = open_hunk (match_hunk line) p
next_state (some h) line p =
    if is_some (after_prefix "@@ " line)
    then if counts_match (some h)
      then open_hunk (match_hunk line) p
      else err (value_error "patch hunk line counts do not match its unified-diff header")
    else apply_line (read_line line) h p

abbrev finished : Option OpenHunk → Progress → Result (List String)
finished none p = err (value_error "unified patch contains no hunks")
finished (some h) p =
    if counts_match (some h)
    then ok (p.output ++ p.rest)
    else err (value_error "patch hunk line counts do not match its unified-diff header")

unfoldable pub apply_lines : List String → Option OpenHunk → Progress → Result (List String)
apply_lines [] h p = finished h p
apply_lines (line ∷ lines) h p = elim (next_state h line p) [
  | ok (h', p') ↦ apply_lines lines (some h') p'
  | err e ↦ err e
]

-- `"".join(output)`
abbrev pub concatenated : List String → String
concatenated [] = ""
concatenated (l ∷ ls) = Prim.Native.String.◌++◌ l (concatenated ls)

abbrev start_of : List String → Progress
start_of source = record { output = []; source_cursor = 0; rest = source }

abbrev applied_to : String → Result (List String) → Result AppliedPatch
applied_to path (ok output) = ok (record { path = path; content = concatenated output })
applied_to path (err e) = err e

abbrev same_path : Result String → Result String → Result String
same_path (ok old) (ok new) =
    if old == new then ok new else err (value_error "patch path changes are not supported")
same_path (ok old) (err e) = err e
same_path (err e) _ = err e

abbrev apply_body : List String → List String → Result String → Result AppliedPatch
apply_body source body (ok path) = applied_to path (apply_lines body none (start_of source))
apply_body source body (err e) = err e

abbrev apply_to : List String → List String → Result AppliedPatch
apply_to source (old ∷ new ∷ first ∷ body) =
    apply_body source (first ∷ body) (same_path (header_path old "--- ") (header_path new "+++ "))
apply_to source _ = err (value_error "unified patch is incomplete")

unfoldable pub apply_unified_patch : String → String → Result AppliedPatch
apply_unified_patch original patch = apply_to (split_lines original) (split_lines patch)
