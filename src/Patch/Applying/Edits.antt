-- ===== src/Patch/Applying/Edits.antt =====
-- What apply_unified_patch of core/unified_patch.py makes of a text: the source with the patch's
-- removed and added lines, and nothing else, changed.
use mathlib.Core.List.{append_assoc, append-nil}
use sciguard_autopilot.Base.{
  ℕ, zero, suc, ◌-◌, ◌≡◌, refl, sym, ap, ap₂, ◌∙◌, String, Bool, true, false, Option, none, some,
  List, [], ◌∷◌, ◌++◌, arith, if◌then◌else◌, inl, inr, is_some, Bool-cases, Result-cases, ok, ◌==◌,
  eq_iff,
}
use sciguard_autopilot.Patch.Parsing.{split_lines, after_prefix, Hunk, match_hunk, header_path}
use sciguard_autopilot.Patch.Applying.{
  AppliedPatch, Progress, OpenHunk, first_lines, later_lines, counts_match, open_hunk, Marker,
  context, added, removed, no_newline, unsupported, read_line, take_source, apply_line, next_state,
  finished, apply_lines, concatenated, same_path, apply_to, start_of, apply_unified_patch,
}

-- One line of an edit.
pub data Edit : Type 0 where
  keep insert delete : String → Edit

abbrev pub old_side : List Edit → List String
old_side [] = []
old_side (keep l ∷ es) = l ∷ old_side es
old_side (insert l ∷ es) = old_side es
old_side (delete l ∷ es) = l ∷ old_side es

abbrev pub new_side : List Edit → List String
new_side [] = []
new_side (keep l ∷ es) = l ∷ new_side es
new_side (insert l ∷ es) = l ∷ new_side es
new_side (delete l ∷ es) = new_side es

abbrev pub changes : List Edit → List Edit
changes [] = []
changes (keep l ∷ es) = changes es
changes (insert l ∷ es) = insert l ∷ changes es
changes (delete l ∷ es) = delete l ∷ changes es

abbrev pub marked : Marker × String → List Edit
marked (added, content) = insert content ∷ []
marked (removed, content) = delete content ∷ []
marked _ = []

-- The change that one line of a patch asks for; a hunk header asks for none.
abbrev pub change_of : Bool → String → List Edit
change_of false line = []
change_of true line = if is_some (after_prefix "@@ " line) then [] else marked (read_line line)

-- The changes that the lines behind the file headers ask for, in their order; the first line is a
-- hunk header.
abbrev pub asked_for : Bool → List String → List Edit
asked_for inside [] = []
asked_for inside (line ∷ lines) = change_of inside line ++ asked_for true lines

old_side-append : (es fs : List Edit) → old_side (es ++ fs) ≡ old_side es ++ old_side fs
old_side-append [] fs = refl
old_side-append (keep l ∷ es) fs = ap (λ ls. l ∷ ls) (old_side-append es fs)
old_side-append (insert l ∷ es) fs = old_side-append es fs
old_side-append (delete l ∷ es) fs = ap (λ ls. l ∷ ls) (old_side-append es fs)

new_side-append : (es fs : List Edit) → new_side (es ++ fs) ≡ new_side es ++ new_side fs
new_side-append [] fs = refl
new_side-append (keep l ∷ es) fs = ap (λ ls. l ∷ ls) (new_side-append es fs)
new_side-append (insert l ∷ es) fs = ap (λ ls. l ∷ ls) (new_side-append es fs)
new_side-append (delete l ∷ es) fs = new_side-append es fs

changes-append : (es fs : List Edit) → changes (es ++ fs) ≡ changes es ++ changes fs
changes-append [] fs = refl
changes-append (keep l ∷ es) fs = changes-append es fs
changes-append (insert l ∷ es) fs = ap (λ ls. insert l ∷ ls) (changes-append es fs)
changes-append (delete l ∷ es) fs = ap (λ ls. delete l ∷ ls) (changes-append es fs)

abbrev kept : List String → List Edit
kept [] = []
kept (l ∷ ls) = keep l ∷ kept ls

old_side-kept : (ls : List String) → old_side (kept ls) ≡ ls
old_side-kept [] = refl
old_side-kept (l ∷ ls) = ap (λ xs. l ∷ xs) (old_side-kept ls)

new_side-kept : (ls : List String) → new_side (kept ls) ≡ ls
new_side-kept [] = refl
new_side-kept (l ∷ ls) = ap (λ xs. l ∷ xs) (new_side-kept ls)

changes-kept : (ls : List String) → changes (kept ls) ≡ []
changes-kept [] = refl
changes-kept (l ∷ ls) = changes-kept ls

lines_lem : (n : ℕ) (ls : List String) → ls ≡ first_lines n ls ++ later_lines n ls
lines_lem zero ls = refl
lines_lem (suc n) [] = refl
lines_lem (suc n) (l ∷ ls) = ap (λ xs. l ∷ xs) (lines_lem n ls)

-- The edits by which one progress leads to another.
abbrev Leads : Progress → Progress → List Edit → Type 0
Leads p q asked =
    (es : List Edit) × (p.rest ≡ old_side es ++ q.rest)
    × (q.output ≡ p.output ++ new_side es)
    × (changes es ≡ asked)

open_hunk-Leads :
    (o : Option Hunk) (p q : Progress) (h : OpenHunk) → open_hunk o p ≡ ok (h, q) → Leads p q []
unfolding open_hunk
open_hunk-Leads none p q h e = cc
open_hunk-Leads (some u) p q h e =
    let n = u.old_start - 1 - p.source_cursor in
    let ls = first_lines n p.rest in
    let rest : later_lines n p.rest ≡ q.rest = ground arith in
    let output : p.output ++ ls ≡ q.output = ground arith in
    (
      kept ls,
      lines_lem n p.rest ∙ ap₂ (λ xs ys. xs ++ ys) (sym (old_side-kept ls)) rest,
      sym output ∙ ap (λ xs. p.output ++ xs) (sym (new_side-kept ls)),
      changes-kept ls,
    )

take_source-takes :
    (content : String) (h h' : OpenHunk) (p q : Progress) (emitted : ℕ) (out ls : List String)
    → take_source content h p emitted out ls ≡ ok (h', q)
    → (ls ≡ content ∷ q.rest) × (q.output ≡ p.output ++ out)
unfolding take_source
take_source-takes content h h' p q emitted out [] e = cc
take_source-takes content h h' p q emitted out (l ∷ ls) e = elim (Bool-cases (l == content)) [
  | inr other ↦ absurd (ground arith)
  | inl same ↦
      let rest : ls ≡ q.rest = ground arith in
      let output : p.output ++ out ≡ q.output = ground arith in
      (ap₂ (λ x xs. x ∷ xs) ((eq_iff l content).0 same) rest, sym output)
]

apply_line-Leads :
    (m : Marker × String) (h h' : OpenHunk) (p q : Progress)
    → apply_line m h p ≡ ok (h', q)
    → Leads p q (marked m)
unfolding apply_line
apply_line-Leads (no_newline, content) h h' p q e =
    let rest : p.rest ≡ q.rest = ground arith in
    let output : p.output ≡ q.output = ground arith in
    ([], rest, sym output ∙ sym (append-nil p.output), refl)
apply_line-Leads (unsupported, content) h h' p q e = cc
apply_line-Leads (context, content) h h' p q e =
    let (rest, output) = take_source-takes content h h' p q 1 (content ∷ []) p.rest e in
    (keep content ∷ [], rest, output, refl)
apply_line-Leads (removed, content) h h' p q e =
    let (rest, output) = take_source-takes content h h' p q 0 [] p.rest e in
    (delete content ∷ [], rest, output, refl)
apply_line-Leads (added, content) h h' p q e =
    let rest : p.rest ≡ q.rest = ground arith in
    let output : p.output ++ content ∷ [] ≡ q.output = ground arith in
    (insert content ∷ [], rest, sym output, refl)

next_state-Leads :
    (o : Option OpenHunk) (line : String) (h : OpenHunk) (p q : Progress)
    → next_state o line p ≡ ok (h, q)
    → Leads p q (change_of (is_some o) line)
next_state-Leads none line h p q e = open_hunk-Leads (match_hunk line) p q h e
next_state-Leads (some u) line h p q e = elim (Bool-cases (is_some (after_prefix "@@ " line))) [
  | inl header ↦ elim (Bool-cases (counts_match (some u))) [
    | inl fine ↦ rw header (open_hunk-Leads (match_hunk line) p q h (ground arith))
    | inr bad ↦ absurd (ground arith)
  ]
  | inr body ↦ rw body (apply_line-Leads (read_line line) u h p q (ground arith))
]

-- The edits that the lines of a patch make of the rest of a source.
abbrev Makes : Progress → List String → List Edit → Type 0
Makes p out asked =
    (es : List Edit) × (p.rest ≡ old_side es)
    × (out ≡ p.output ++ new_side es)
    × (changes es ≡ asked)

finished-Makes :
    (o : Option OpenHunk) (p : Progress) (out : List String)
    → finished o p ≡ ok out
    → Makes p out []
finished-Makes none p out e = cc
finished-Makes (some h) p out e =
    let output : p.output ++ p.rest ≡ out = ground arith in
    (
      kept p.rest,
      sym (old_side-kept p.rest),
      sym output ∙ ap (λ xs. p.output ++ xs) (sym (new_side-kept p.rest)),
      changes-kept p.rest,
    )

Leads-Makes :
    (p q : Progress) (out : List String) (asked more : List Edit)
    → Leads p q asked
    → Makes q out more
    → Makes p out (asked ++ more)
Leads-Makes p q out asked more (es, rest, output, asks) (fs, rest', output', asks') = (
  es ++ fs,
  rest ∙ ap (λ xs. old_side es ++ xs) rest' ∙ sym (old_side-append es fs),
  output'
      ∙ ap (λ xs. xs ++ new_side fs) output
      ∙ append_assoc p.output (new_side es) (new_side fs)
      ∙ ap (λ xs. p.output ++ xs) (sym (new_side-append es fs)),
  changes-append es fs ∙ ap₂ (λ xs ys. xs ++ ys) asks asks',
)

apply_lines-Makes :
    (lines : List String) (o : Option OpenHunk) (p : Progress) (out : List String)
    → apply_lines lines o p ≡ ok out
    → Makes p out (asked_for (is_some o) lines)
apply_lines-Makes [] o p out e = finished-Makes o p out (unfold apply_lines in e)
apply_lines-Makes (line ∷ lines) o p out e = elim (Result-cases (next_state o line p)) [
  | inr (x, k) ↦ absurd (unfold apply_lines in ground arith)
  | inl ((h, q), k) ↦
      Leads-Makes p q out (change_of (is_some o) line) (asked_for true lines)
        (next_state-Leads o line h p q k)
        (apply_lines-Makes lines (some h) q out (unfold apply_lines in ground arith))
]

-- The lines of a text behind the first two.
abbrev pub body_of : List String → List String
body_of (_ ∷ _ ∷ lines) = lines
body_of _ = []

-- When `apply_unified_patch` returns, there is an edit of the whole original that leads from its lines to
-- the content, and whose insertions and deletions are exactly those that the patch's lines ask for,
-- in their order.
pub apply_unified_patch-edits :
    (original patch : String) (r : AppliedPatch)
    → apply_unified_patch original patch ≡ ok r
    → (es : List Edit) × (split_lines original ≡ old_side es)
      × (r.content ≡ concatenated (new_side es))
      × (changes es ≡ asked_for false (body_of (split_lines patch)))
unfolding apply_unified_patch
apply_unified_patch-edits original patch r h = go (split_lines original) (split_lines patch) h
  where
    go :
        (source lines : List String)
        → apply_to source lines ≡ ok r
        → (es : List Edit) × (source ≡ old_side es)
          × (r.content ≡ concatenated (new_side es))
          × (changes es ≡ asked_for false (body_of lines))
    go source [] e = cc
    go source (_ ∷ []) e = cc
    go source (_ ∷ _ ∷ []) e = cc
    go source (old ∷ new ∷ first ∷ body) e =
        elim (Result-cases (same_path (header_path old "--- ") (header_path new "+++ "))) [
          | inr (x, k) ↦ absurd (ground arith)
          | inl (path, k) ↦
              elim (Result-cases (apply_lines (first ∷ body) none (start_of source))) [
                | inr (x, l) ↦ absurd (ground arith)
                | inl (out, l) ↦
                    let (es, rest, output, asks) =
                      apply_lines-Makes (first ∷ body) none (start_of source) out l in
                    let content : concatenated out ≡ r.content = ground arith in
                    (es, rest, sym content ∙ ap concatenated output, asks)
              ]
        ]
