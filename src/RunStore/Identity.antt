-- ===== src/RunStore/Identity.antt =====
-- `validate_id` of api/run_store.py, which matches an incident's ID against
-- `^[A-Za-z0-9][A-Za-z0-9._-]{0,63}$`, and the cut of an error's text in `fail_run`.
use Prim.Native.Char.{code}
use Prim.Native.String.{[] as no_text, ◌∷◌ as put_before, count}
use Prim.Native.String.count
use sciguard_autopilot.Base.{
  ℕ, zero, suc, ◌≤◌, ◌≡◌, refl, sym, ap, ◌∙◌, inl, inr, String, Bool, true, false, ◌&&◌, ◌||◌,
  arith, leb, nat_eq, if◌then◌else◌, Bool-cases, eq_iff, ◌==◌, value_error, Result, ok, err,
}
use sciguard_autopilot.Base.Texts.{between}

abbrev is_alphanumeric : ℕ → Bool
is_alphanumeric c = between 65 90 c || between 97 122 c || between 48 57 c

-- a letter, a digit, a dash, a dot, or an underscore
abbrev is_safe : ℕ → Bool
is_safe c = is_alphanumeric c || between 45 46 c || nat_eq c 95

abbrev pub all_safe : String → Bool
all_safe no_text = true
all_safe (put_before c s) = is_safe (code c) && all_safe s

abbrev pub matches_safe_id : String → Bool
matches_safe_id no_text = false
matches_safe_id (put_before c s) = is_alphanumeric (code c) && all_safe s && leb (count s) 63

unfoldable pub validate_id : String → Result String
validate_id incident_id =
    if matches_safe_id incident_id
    then ok incident_id
    else err (value_error "incident_id must be 1-64 safe characters")

-- `text[:n]`
unfoldable pub take_text : ℕ → String → String
take_text zero s = no_text
take_text (suc n) no_text = no_text
take_text (suc n) (put_before c s) = put_before c (take_text n s)

pub validate_id_same : (id : String) {out : String} → validate_id id ≡ ok out → out ≡ id
unfolding validate_id
validate_id_same id h = ground arith

pub count-take_text : (n : ℕ) (s : String) → count (take_text n s) ≤ n
unfolding take_text
count-take_text zero s = rw count.nil (omega arith)
count-take_text (suc n) no_text = rw count.nil (omega arith)
count-take_text (suc n) (put_before c s) = rw count.cons (omega (arith, count-take_text n s))

-- The characters of a text.
abbrev pub has_code : ℕ → String → Bool
has_code k no_text = false
has_code k (put_before c s) = nat_eq (code c) k || has_code k s

all_safe_no_slash : (s : String) → all_safe s ≡ true → has_code 47 s ≡ false
all_safe_no_slash no_text h = refl
all_safe_no_slash (put_before c s) h = ground (arith, all_safe_no_slash s)

other_text :
    (s t : String) → matches_safe_id s ≡ true → matches_safe_id t ≡ false → (s == t) ≡ false
other_text s t h k = elim (Bool-cases (s == t)) [
  | inl same ↦ absurd (cc (sym h ∙ ap matches_safe_id ((eq_iff s t).0 same) ∙ k))
  | inr differ ↦ differ
]

-- The ID names a directory directly under the root: it is no path of several parts, and neither the
-- root itself nor the directory above it.
pub record IsDirectChild (id : String) : Type 0 where
  pub no_slash : has_code 47 id ≡ false
  pub not_here : (id == ".") ≡ false
  pub not_above : (id == "..") ≡ false

bounded_no_slash :
    (id : String)
    → matches_safe_id id ≡ true
    → (1 ≤ count id) × (count id ≤ 64) × (has_code 47 id ≡ false)
bounded_no_slash no_text h = cc
bounded_no_slash (put_before c s) h = rw count.cons (ground (arith, all_safe_no_slash s))

pub validate_id_bounds :
    (id : String) → validate_id id ≡ ok id → (1 ≤ count id) × (count id ≤ 64) × IsDirectChild id
unfolding validate_id
validate_id_bounds id h =
    let safe : matches_safe_id id ≡ true = ground arith in
    let (low, high, flat) = bounded_no_slash id safe in
    (
      low,
      high,
      record {
        no_slash = flat;
        not_here = other_text id "." safe refl;
        not_above = other_text id ".." safe refl;
      },
    )
