-- ===== src/Base/Texts.antt =====
-- Python's `str.strip`, and the zero-padded decimal `{n:04d}` of an f-string.
use Prim.Native.Nat.{ℕ, zero, suc, ◌+◌, ◌-◌, ◌*◌, ◌/◌, ◌%◌, ◌<◌}
use Prim.Native.Char.{Char, code}
use Prim.Native.String.{String, [], ◌∷◌, ◌++◌, count}
use Prim.Native.String.append
use mathlib.Core.Path.{◌≡◌, refl, ap, ◌∙◌, sym, subst}
use mathlib.Core.Logic.{◌⊎◌, inl, inr}
use mathlib.Core.Bool.{Bool, true, false, not, ◌&&◌, ◌||◌}
use native.Mathlib.Omega.{arith}
use sciguard_autopilot.Base.Tests.{leb, ltb, nat_eq, if◌then◌else◌, Bool-cases}

-- The code points that `str.strip` removes.
abbrev pub between : ℕ → ℕ → ℕ → Bool
between lo hi c = leb lo c && leb c hi

pub is_space : ℕ → Bool
is_space c =
    between 9 13 c
    || between 28 32 c
    || nat_eq c 133
    || nat_eq c 160
    || nat_eq c 5760
    || between 8192 8202 c
    || between 8232 8233 c
    || nat_eq c 8239
    || nat_eq c 8287
    || nat_eq c 12288

abbrev pub is_empty : String → Bool
is_empty [] = true
is_empty (_ ∷ _) = false

-- Whether a text begins with another, and whether it stands somewhere in it.
abbrev pub begins_with : String → String → Bool
begins_with [] s = true
begins_with (c ∷ p) [] = false
begins_with (c ∷ p) (d ∷ s) = nat_eq (code c) (code d) && begins_with p s

-- `p in s`
abbrev pub within : String → String → Bool
within p [] = is_empty p
within p (c ∷ s) = begins_with p (c ∷ s) || within p s

unfoldable pub lstrip : String → String
unfolding is_space
lstrip [] = []
lstrip (c ∷ s) = let rest = lstrip s in if is_space (code c) then rest else c ∷ s

unfoldable pub rstrip : String → String
unfolding is_space
rstrip [] = []
rstrip (c ∷ s) = let rest = rstrip s in if is_empty rest && is_space (code c) then [] else c ∷ rest

unfoldable pub strip : String → String
unfolding lstrip rstrip
strip s = rstrip (lstrip s)

char_of : ℕ → String → Char → Char
char_of i [] default = default
char_of zero (c ∷ s) default = c
char_of (suc i) (c ∷ s) default = char_of i s default

-- `str.upper` and `str.lower` on ASCII; other letters stay.
upper_char : Char → Char
unfolding char_of
upper_char c =
    if between 97 122 (code c) then char_of (code c - 97) "ABCDEFGHIJKLMNOPQRSTUVWXYZ" c else c

lower_char : Char → Char
unfolding char_of
lower_char c =
    if between 65 90 (code c) then char_of (code c - 65) "abcdefghijklmnopqrstuvwxyz" c else c

unfoldable pub upper : String → String
unfolding upper_char
upper [] = []
upper (c ∷ s) = upper_char c ∷ upper s

unfoldable pub lower : String → String
unfolding lower_char
lower [] = []
lower (c ∷ s) = lower_char c ∷ lower s

upper_role : upper "decision_report" ≡ "DECISION_REPORT"
unfolding upper
upper_role = refl

-- Decimal digits, built from the last one; `fuel` above the number is enough.
digit_char : ℕ → Char
digit_char zero = "0"
digit_char (suc zero) = "1"
digit_char (suc (suc zero)) = "2"
digit_char (suc (suc (suc zero))) = "3"
digit_char (suc (suc (suc (suc zero)))) = "4"
digit_char (suc (suc (suc (suc (suc zero))))) = "5"
digit_char (suc (suc (suc (suc (suc (suc zero)))))) = "6"
digit_char (suc (suc (suc (suc (suc (suc (suc zero))))))) = "7"
digit_char (suc (suc (suc (suc (suc (suc (suc (suc zero)))))))) = "8"
digit_char _ = "9"

decimal_from : ℕ → ℕ → String → String
unfolding digit_char
decimal_from zero n t = t
decimal_from (suc fuel) n t =
    let rest = decimal_from fuel (n / 10) (digit_char (n % 10) ∷ t) in
    if ltb n 10 then digit_char (n % 10) ∷ t else rest

zeros : ℕ → String → String
zeros zero t = t
zeros (suc k) t = zeros k ("0" ∷ t)

-- `f"{n:04d}"` in front of the text `t`
unfoldable pub padded : ℕ → String → String
unfolding decimal_from zeros
padded n t = zeros (4 - count (decimal_from (suc n) n "")) (decimal_from (suc n) n t)

-- `{n}`, before the text `t`
unfoldable pub decimal : ℕ → String → String
unfolding decimal_from
decimal n t = decimal_from (suc n) n t

padded_7 : padded 7 ":x" ≡ "0007:x"
unfolding padded
padded_7 = refl

padded_12345 : padded 12345 ":x" ≡ "12345:x"
unfolding padded
padded_12345 = refl

strip_both : strip "  a b \n" ≡ "a b"
unfolding strip
strip_both = refl

-- The number that the leading digits of a text denote.
value : ℕ → String → ℕ
value n [] = n
value n (c ∷ s) =
    let rest = value (n * 10 + (code c - 48)) s in if between 48 57 (code c) then rest else n

code-digit_char : (d : ℕ) → d < 10 → code (digit_char d) ≡ 48 + d
unfolding digit_char
code-digit_char zero h = refl
code-digit_char (suc zero) h = refl
code-digit_char (suc (suc zero)) h = refl
code-digit_char (suc (suc (suc zero))) h = refl
code-digit_char (suc (suc (suc (suc zero)))) h = refl
code-digit_char (suc (suc (suc (suc (suc zero))))) h = refl
code-digit_char (suc (suc (suc (suc (suc (suc zero)))))) h = refl
code-digit_char (suc (suc (suc (suc (suc (suc (suc zero))))))) h = refl
code-digit_char (suc (suc (suc (suc (suc (suc (suc (suc zero)))))))) h = refl
code-digit_char (suc (suc (suc (suc (suc (suc (suc (suc (suc zero))))))))) h = refl
code-digit_char (suc (suc (suc (suc (suc (suc (suc (suc (suc (suc d)))))))))) h =
    absurd (omega arith)

digit_range : (d : ℕ) → d < 10 → between 48 57 (48 + d) ≡ true
digit_range d h = ground arith

value-digit_char :
    (n d : ℕ) (t : String) → d < 10 → value n (digit_char d ∷ t) ≡ value (n * 10 + d) t
unfolding value
value-digit_char n d t h =
    let e = code-digit_char d h in
    rw e (rw (digit_range d h) (ap (λ (k : ℕ). value k t) (omega arith)))

value-decimal_from :
    (fuel n : ℕ) (t : String) → n < fuel → value 0 (decimal_from fuel n t) ≡ value n t
unfolding decimal_from
value-decimal_from zero n t h = elim h [ ]
value-decimal_from (suc fuel) n t h = elim (Bool-cases (ltb n 10)) [
  | inl small ↦
      rw small
        (value-digit_char 0 (n % 10) t (omega arith) ∙ ap (λ (k : ℕ). value k t) (ground arith))
  | inr big ↦ rw big (
      value-decimal_from fuel (n / 10) _ (ground arith)
      ∙ value-digit_char (n / 10) (n % 10) t (omega arith)
      ∙ ap (λ (k : ℕ). value k t) (omega arith))
]

value-zeros : (k : ℕ) (t : String) → value 0 (zeros k t) ≡ value 0 t
unfolding zeros value
value-zeros zero t = refl
value-zeros (suc k) t = value-zeros k ("0" ∷ t)

decimal_from-append :
    (fuel n : ℕ) (t u : String) → decimal_from fuel n t ++ u ≡ decimal_from fuel n (t ++ u)
unfolding decimal_from
decimal_from-append zero n t u = refl
decimal_from-append (suc fuel) n t u = elim (Bool-cases (ltb n 10)) [
  | inl small ↦ rw small (append.cons _ t u)
  | inr big ↦ rw big (
      decimal_from-append fuel (n / 10) _ u
      ∙ ap (λ (s : String). decimal_from fuel (n / 10) s) (append.cons _ t u))
]

-- The number can be read back from its decimal, whatever text follows after a non-digit.
value-padded : (n : ℕ) (t : String) → value 0 (padded n (":" ++ t)) ≡ n
unfolding padded value
value-padded n t =
    value-zeros (4 - count (decimal_from (suc n) n "")) (decimal_from (suc n) n (":" ++ t))
    ∙ value-decimal_from (suc n) n (":" ++ t) (omega arith)
    ∙ rw append.cons

pub padded_inj : (m n : ℕ) (t u : String) → padded m (":" ++ t) ≡ padded n (":" ++ u) → m ≡ n
padded_inj m n t u e = sym (value-padded m t) ∙ ap (value 0) e ∙ value-padded n u

-- A text is stripped if its ends are no spaces.
abbrev pub starts_dark : String → Bool
starts_dark [] = false
starts_dark (c ∷ s) = not (is_space (code c))

pub lstrip-cases : (s : String) → (lstrip s ≡ "") ⊎ (starts_dark (lstrip s) ≡ true)
unfolding lstrip
lstrip-cases [] = inl refl
lstrip-cases (c ∷ s) = ground (arith, lstrip-cases s)

pub lstrip_of_starts_dark : (s : String) → starts_dark s ≡ true → lstrip s ≡ s
unfolding lstrip
lstrip_of_starts_dark [] h = refl
lstrip_of_starts_dark (c ∷ s) h = ground arith

starts_dark-rstrip : (s : String) → starts_dark s ≡ true → starts_dark (rstrip s) ≡ true
unfolding rstrip
starts_dark-rstrip [] h = cc
starts_dark-rstrip (c ∷ s) h = ground arith

-- A stripped text is empty or starts with a character that is no space.
pub strip-cases : (s : String) → (strip s ≡ "") ⊎ (starts_dark (strip s) ≡ true)
unfolding strip
strip-cases s = elim (lstrip-cases s) [
  | inl e ↦ inl (rw e)
  | inr h ↦ inr (starts_dark-rstrip (lstrip s) h)
]

pub starts_dark-append : (s t : String) → starts_dark s ≡ true → starts_dark (s ++ t) ≡ true
starts_dark-append [] t h = cc
starts_dark-append (c ∷ s) t h = rw (append.cons c s t) h

is_empty-append : (s t : String) → is_empty t ≡ false → is_empty (s ++ t) ≡ false
is_empty-append [] t h = rw append.nil h
is_empty-append (c ∷ s) t h = rw (append.cons c s t)

-- Only the end decides what `rstrip` removes.
pub rstrip-append : (s t : String) → is_empty t ≡ false → rstrip t ≡ t → rstrip (s ++ t) ≡ s ++ t
unfolding rstrip
rstrip-append [] t h e = rw append.nil e
rstrip-append (c ∷ s) t h e =
    rw (append.cons c s t) (rw (rstrip-append s t h e) (rw (is_empty-append s t h)))

zeros-append : (k : ℕ) (t u : String) → zeros k t ++ u ≡ zeros k (t ++ u)
unfolding zeros
zeros-append zero t u = refl
zeros-append (suc k) t u = zeros-append k ("0" ∷ t) u ∙ ap (zeros k) (append.cons "0" t u)

-- A text without trailing spaces stays without them behind any text.
abbrev pub IsTrimmed : String → Type 0
IsTrimmed t = (is_empty t ≡ false) × (rstrip t ≡ t)

pub append-IsTrimmed : (s t : String) → IsTrimmed t → IsTrimmed (s ++ t)
append-IsTrimmed s t h = (is_empty-append s t h.0, rstrip-append s t h.0 h.1)

pub padded-IsTrimmed : (n : ℕ) (t : String) → IsTrimmed t → IsTrimmed (padded n t)
unfolding padded
padded-IsTrimmed n t h =
    let k = 4 - count (decimal_from (suc n) n "") in
    let d = decimal_from (suc n) n "" in
    subst IsTrimmed
      (zeros-append k d t
        ∙ ap (zeros k)
            (decimal_from-append (suc n) n "" t ∙ ap (decimal_from (suc n) n) (append.nil t)))
      (append-IsTrimmed (zeros k d) t h)

pub starts_dark_colon : starts_dark ": " ≡ true
unfolding is_space
starts_dark_colon = refl

-- A text that holds a character that is no space is not empty when it is stripped.
lstrip-append_dark : (s t : String) → starts_dark t ≡ true → is_empty (lstrip (s ++ t)) ≡ false
unfolding lstrip
lstrip-append_dark [] [] h = cc
lstrip-append_dark [] (c ∷ t) h = rw append.nil (ground (arith, h))
lstrip-append_dark (c ∷ s) t h = rw (append.cons c s t) (ground (arith, lstrip-append_dark s t h))

pub not_empty_of_dark : (s : String) → starts_dark s ≡ true → is_empty s ≡ false
not_empty_of_dark [] h = cc
not_empty_of_dark (c ∷ s) h = refl

pub strip-append_dark : (s t : String) → starts_dark t ≡ true → is_empty (strip (s ++ t)) ≡ false
unfolding strip
strip-append_dark s t h = elim (lstrip-cases (s ++ t)) [
  | inl gone ↦ absurd (cc (lstrip-append_dark s t h, ap is_empty gone))
  | inr dark ↦ not_empty_of_dark _ (starts_dark-rstrip (lstrip (s ++ t)) dark)
]

rstrip_idem : (s : String) → rstrip (rstrip s) ≡ rstrip s
unfolding rstrip
rstrip_idem [] = refl
rstrip_idem (c ∷ s) = ground (arith, rstrip_idem s)

pub strip_idem : (s : String) → strip (strip s) ≡ strip s
unfolding strip
strip_idem s = elim (strip-cases s) [
  | inl e ↦ rw e
  | inr h ↦ rw (lstrip_of_starts_dark (strip s) h) (rstrip_idem (lstrip s))
]
