-- ===== src/Profiles/Tokens.antt =====
-- How a rule of core/profiles.py matches a changed field: the tokens of a field's name, and one
-- token sequence inside another.
use Prim.Native.String.{[] as no_text, ◌∷◌ as put_before}
use Prim.Native.Char.{Char, code}
use sciguard_autopilot.Base.{
  ℕ, zero, suc, ◌+◌, ◌-◌, ◌≡◌, refl, sym, ap, subst, ◌∙◌, ◌↔◌, inl, inr, String, Bool, true, false,
  ◌&&◌, ◌||◌, List, [], ◌∷◌, ◌++◌, arith, ◌<◌, if◌then◌else◌, nat_eq, nat_eq→eq, ltb, length,
  length-append, is_nil, Bool-cases, ◌==◌, eq_iff, eq_refl,
}
use sciguard_autopilot.Base.Texts.{is_empty, lower, between, begins_with}
use sciguard_autopilot.Profiles.{Rule}

abbrev is_upper : String → Bool
is_upper no_text = false
is_upper (put_before c s) = between 65 90 (code c)

abbrev is_low_or_digit : ℕ → Bool
is_low_or_digit c = between 97 122 c || between 48 57 c

abbrev is_alnum : ℕ → Bool
is_alnum c = is_low_or_digit c || between 65 90 c

-- `re.sub(r"([a-z0-9])([A-Z])", r"\1 \2", field)`; two matches never share a character.
unfoldable pub spaced : String → String
spaced no_text = no_text
spaced (put_before c s) =
    let rest = spaced s in
    if is_low_or_digit (code c) && is_upper s
    then put_before c (put_before " " rest)
    else put_before c rest

abbrev grow : Char → String × List String → String × List String
grow c (piece, pieces) =
    if is_alnum (code c) then (put_before c piece, pieces) else (no_text, piece ∷ pieces)

-- `re.split(r"[^a-zA-Z0-9]+", spaced)`, with an empty piece between two separators, which the
-- filter takes away like those at the ends
unfoldable pub split : String → String × List String
split no_text = (no_text, [])
split (put_before c s) = grow c (split s)

-- `[p.lower() for p in parts if p]`
unfoldable pub lowered : List String → List String
lowered [] = []
lowered (p ∷ ps) = let rest = lowered ps in if is_empty p then rest else lower p ∷ rest

abbrev pieces_of : String × List String → List String
pieces_of (piece, pieces) = piece ∷ pieces

unfoldable pub tokens : String → List String
tokens field = lowered (pieces_of (split (spaced field)))

abbrev pub same_texts : List String → List String → Bool
same_texts [] [] = true
same_texts [] (_ ∷ _) = false
same_texts (_ ∷ _) [] = false
same_texts (x ∷ xs) (y ∷ ys) = x == y && same_texts xs ys

-- `xs[:n]` and `xs[n:]`
abbrev pub take : ℕ → List String → List String
take zero xs = []
take (suc n) [] = []
take (suc n) (x ∷ xs) = x ∷ take n xs

abbrev pub drop : ℕ → List String → List String
drop zero xs = xs
drop (suc n) [] = []
drop (suc n) (x ∷ xs) = drop n xs

-- `any(haystack[i : i + n] == needle for i in range(k))`, from the last index down
abbrev pub some_slice : List String → List String → ℕ → Bool
some_slice needle haystack zero = false
some_slice needle haystack (suc k) =
    same_texts (take (length needle) (drop k haystack)) needle || some_slice needle haystack k

-- `range(len(haystack) - n + 1)` is empty where the difference is negative.
unfoldable pub is_contiguous_sublist : List String → List String → Bool
is_contiguous_sublist needle haystack =
    if is_nil needle
    then false
    else if ltb (length haystack) (length needle)
    then false
    else some_slice needle haystack (length haystack - length needle + 1)

-- the text without each `pattern`, of `skip + 1` characters, where `left` of one are still to go
abbrev remove_from : String → ℕ → ℕ → String → String
remove_from pattern skip left no_text = no_text
remove_from pattern skip zero (put_before c s) =
    let kept = remove_from pattern skip zero s in
    let gone = remove_from pattern skip skip s in
    if begins_with pattern (put_before c s) then gone else put_before c kept
remove_from pattern skip (suc left) (put_before c s) = remove_from pattern skip left s

-- `change_kind.replace("_change", "")`
unfoldable pub without_change : String → String
without_change kind = remove_from "_change" 6 0 kind

unfoldable pub rule_matches : Rule → String → String → Bool
rule_matches rule change_kind field =
    (change_kind == rule.change || without_change change_kind == rule.change)
    && is_contiguous_sublist (tokens rule.field) (tokens field)

tokens_camel : tokens "DSC_glassTransitionTg" ≡ "dsc" ∷ "glass" ∷ "transition" ∷ "tg" ∷ []
unfolding tokens spaced split lowered lower
tokens_camel = refl

without_change_unit : without_change "unit_change" ≡ "unit"
unfolding without_change
without_change_unit = refl

same_texts-eq : (xs ys : List String) → same_texts xs ys ≡ true → xs ≡ ys
same_texts-eq [] [] h = refl
same_texts-eq [] (y ∷ ys) h = cc
same_texts-eq (x ∷ xs) [] h = cc
same_texts-eq (x ∷ xs) (y ∷ ys) h = ground (arith, eq_iff x y, same_texts-eq xs ys)

same_texts_refl : (xs : List String) → same_texts xs xs ≡ true
same_texts_refl [] = refl
same_texts_refl (x ∷ xs) = ground (arith, eq_refl x, same_texts_refl xs)

take-append-drop : (n : ℕ) (xs : List String) → take n xs ++ drop n xs ≡ xs
take-append-drop zero xs = refl
take-append-drop (suc n) [] = refl
take-append-drop (suc n) (x ∷ xs) = ap (λ ys. x ∷ ys) (take-append-drop n xs)

drop-length-append : (xs ys : List String) → drop (length xs) (xs ++ ys) ≡ ys
drop-length-append [] ys = refl
drop-length-append (x ∷ xs) ys = drop-length-append xs ys

take-length-append : (xs ys : List String) → take (length xs) (xs ++ ys) ≡ xs
take-length-append [] ys = refl
take-length-append (x ∷ xs) ys = ap (λ zs. x ∷ zs) (take-length-append xs ys)

-- One list stands inside another without a gap.
abbrev pub IsInside : List String → List String → Type 0
IsInside needle haystack =
    (before : List String) × (after : List String) × (haystack ≡ before ++ (needle ++ after))

some_slice-IsInside :
    (needle haystack : List String) (k : ℕ)
    → some_slice needle haystack k ≡ true
    → IsInside needle haystack
some_slice-IsInside needle haystack zero h = cc
some_slice-IsInside needle haystack (suc k) h =
    let rest = drop k haystack in
    elim (Bool-cases (same_texts (take (length needle) rest) needle)) [
      | inr absent ↦ some_slice-IsInside needle haystack k (ground arith)
      | inl here ↦ (
        take k haystack,
        drop (length needle) rest,
        sym (take-append-drop k haystack)
            ∙ ap (λ xs. take k haystack ++ xs)
                (sym (take-append-drop (length needle) rest)
                  ∙ ap (λ xs. xs ++ drop (length needle) rest)
                      (same_texts-eq (take (length needle) rest) needle here)),
      )
    ]

some_slice_at :
    (needle haystack : List String) (i k : ℕ)
    → same_texts (take (length needle) (drop i haystack)) needle ≡ true
    → i < k
    → some_slice needle haystack k ≡ true
some_slice_at needle haystack i zero h lt = absurd (omega arith)
some_slice_at needle haystack i (suc k) h lt = elim (Bool-cases (nat_eq i k)) [
  | inl here ↦
      let e = nat_eq→eq i k here in
      ground
        (arith, subst (λ j. same_texts (take (length needle) (drop j haystack)) needle ≡ true) e h)
  | inr below ↦ ground (arith, some_slice_at needle haystack i k h)
]

IsInside-some_slice :
    (needle before after : List String)
    → some_slice needle
        (before ++ (needle ++ after))
        (length (before ++ (needle ++ after)) - length needle + 1)
      ≡ true
IsInside-some_slice needle before after =
    some_slice_at needle (before ++ (needle ++ after)) (length before) _
      (rw (drop-length-append before (needle ++ after), take-length-append needle after)
        (same_texts_refl needle))
      (omega (arith, length-append before (needle ++ after), length-append needle after))

-- `_is_contiguous_sublist` accepts exactly the needles that are not empty and stand somewhere in the
-- haystack without a gap.
pub is_contiguous_sublist_iff :
    (needle haystack : List String)
    → (is_contiguous_sublist needle haystack ≡ true)
      ↔ ((is_nil needle ≡ false) × IsInside needle haystack)
unfolding is_contiguous_sublist
is_contiguous_sublist_iff needle haystack = (only, if_inside)
  where
    only :
        is_contiguous_sublist needle haystack ≡ true
        → (is_nil needle ≡ false) × IsInside needle haystack
    only h = (
      ground arith,
      some_slice-IsInside needle haystack (length haystack - length needle + 1) (ground arith),
    )

    if_inside :
        (is_nil needle ≡ false) × IsInside needle haystack
        → is_contiguous_sublist needle haystack ≡ true
    if_inside (some_token, (before, after, e)) =
        let long : ltb (length haystack) (length needle) ≡ false = ground (
          arith,
          ap length e,
          length-append before (needle ++ after),
          length-append needle after,
        ) in
        let hit =
          subst (λ xs. some_slice needle xs (length xs - length needle + 1) ≡ true) (sym e)
            (IsInside-some_slice needle before after) in
        ground (arith, hit)
