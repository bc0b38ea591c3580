-- ===== src/Verification/Commands.antt =====
-- `_trusted_pytest_command` of core/verification.py, with the part of `shlex.split` that it uses.
-- Whether a file exists in the checkout is the argument `is_file`, and the interpreter's path is
-- `executable`.
use Prim.Native.Char.{Char, code}
use Prim.Native.String.{[] as no_text, ◌∷◌ as put_before, ◌++◌ as concat}
use sciguard_autopilot.Base.{
  ℕ, String, Bool, false, not, ◌&&◌, ◌||◌, Option, none, some, List, [], ◌∷◌, nat_eq, contains,
  if◌then◌else◌, value_error, runtime_error, Result, ok, err, ◌==◌,
}
use sciguard_autopilot.Patch.Parsing.{path_parts, joined, starts_with_code}

-- Where the lexer stands: between words, in a word, in quotes (with the quote's code), or behind a
-- backslash in a word or in double quotes.
pub data LexerState : Type 0 where
  between_words in_word : LexerState
  in_quotes : ℕ → LexerState
  escaped_in_word escaped_in_quotes : LexerState

abbrev is_blank : ℕ → Bool
is_blank c = nat_eq c 32 || nat_eq c 9 || nat_eq c 10 || nat_eq c 13

abbrev is_quote : ℕ → Bool
is_quote c = nat_eq c 39 || nat_eq c 34

-- the next token is put in front
abbrev with_token : String → Result (List String) → Result (List String)
with_token token (ok tokens) = ok (token ∷ tokens)
with_token token (err e) = err e

abbrev pushed : String → Char → String
pushed token c = concat token (put_before c no_text)

-- `shlex.split` in POSIX mode, from a state on, with what the token holds so far. A word that was
-- opened by a quote counts even if it is empty.
unfoldable pub split_from : LexerState → String → String → Result (List String)
split_from between_words token no_text = ok []
split_from in_word token no_text = ok (token ∷ [])
split_from (in_quotes q) token no_text = err (value_error "No closing quotation")
split_from escaped_in_word token no_text = err (value_error "No escaped character")
split_from escaped_in_quotes token no_text = err (value_error "No escaped character")
split_from between_words token (put_before c s) =
    let quoted = split_from (in_quotes (code c)) "" s in
    let escaped = split_from escaped_in_word "" s in
    let more = split_from between_words "" s in
    let word = split_from in_word (put_before c no_text) s in
    if is_blank (code c)
    then more
    else if nat_eq (code c) 92
    then escaped
    else if is_quote (code c)
    then quoted
    else word
split_from in_word token (put_before c s) =
    let quoted = split_from (in_quotes (code c)) token s in
    let escaped = split_from escaped_in_word token s in
    let more = split_from between_words "" s in
    let word = split_from in_word (pushed token c) s in
    if is_blank (code c)
    then with_token token more
    else if is_quote (code c)
    then quoted
    else if nat_eq (code c) 92
    then escaped
    else word
split_from (in_quotes q) token (put_before c s) =
    let closed = split_from in_word token s in
    let escaped = split_from escaped_in_quotes token s in
    let inside = split_from (in_quotes q) (pushed token c) s in
    if nat_eq (code c) q
    then closed
    else if nat_eq (code c) 92 && nat_eq q 34
    then escaped
    else inside
split_from escaped_in_word token (put_before c s) = split_from in_word (pushed token c) s
split_from escaped_in_quotes token (put_before c s) =
    let kept = split_from (in_quotes 34) (pushed (pushed token "\\") c) s in
    let alone = split_from (in_quotes 34) (pushed token c) s in
    if nat_eq (code c) 92 || nat_eq (code c) 34 then alone else kept

unfoldable pub shell_split : String → Result (List String)
unfolding split_from
shell_split = split_from between_words ""

abbrev pub starts_in_tests : List String → Bool
starts_in_tests (p ∷ q ∷ ps) = p == "tests"
starts_in_tests _ = false

abbrev pub last_part : List String → String
last_part [] = ""
last_part (p ∷ []) = p
last_part (p ∷ q ∷ ps) = last_part (q ∷ ps)

-- `path.suffix`: what stands behind the last dot of the name, the dot included, if the dot is
-- neither its first nor its last character
abbrev suffix_from : String → String → String
suffix_from found no_text = found
suffix_from found (put_before c s) =
    let deeper = suffix_from (put_before c s) s in
    let rest = suffix_from found s in if nat_eq (code c) 46 then deeper else rest

abbrev pub path_suffix : String → String
path_suffix no_text = ""
path_suffix (put_before c s) = let found = suffix_from "" s in if found == "." then "" else found

abbrev pub is_unsafe_target : String → Bool
is_unsafe_target target =
    let parts = path_parts target in
    starts_with_code 47 target
    || contains ".." parts
    || not (starts_in_tests parts)
    || not (path_suffix (last_part parts) == ".py")

abbrev pub pytest_target : List String → Option String
pytest_target (a ∷ b ∷ target ∷ []) = if a == "pytest" && b == "-q" then some target else none
pytest_target _ = none

abbrev pub target_command : (String → Bool) → String → String → Result (List String)
target_command is_file executable target =
    if is_unsafe_target target
    then err (runtime_error "unsafe verification target")
    else if not (is_file (joined (path_parts target)))
    then err (runtime_error "verification target does not exist")
    else ok (executable ∷ "-m" ∷ "pytest" ∷ "-q" ∷ joined (path_parts target) ∷ [])

abbrev command_of : (String → Bool) → String → Option String → Result (List String)
command_of is_file executable none = err (runtime_error "unsupported verification command")
command_of is_file executable (some target) = target_command is_file executable target

abbrev command_of_tokens : (String → Bool) → String → Result (List String) → Result (List String)
command_of_tokens is_file executable (err e) = err e
command_of_tokens is_file executable (ok tokens) =
    command_of is_file executable (pytest_target tokens)

-- `_trusted_pytest_command`
unfoldable pub trusted_pytest_command : (String → Bool) → String → String → Result (List String)
unfolding shell_split
trusted_pytest_command is_file executable command =
    command_of_tokens is_file executable (shell_split command)
