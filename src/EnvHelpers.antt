-- ===== src/EnvHelpers.antt =====
-- env_helpers.go: the syntax of env files. A file is the lines that `bufio.Scanner` yields.
pub mod RoundTrip
pub mod Keys
pub mod Resolve
pub mod Within
use fluxplane_system.Prelude.{
  ℕ, zero, suc, ◌+◌, ◌%◌, ltb, ◌==◌, Bool, true, false, not, ◌&&◌, ◌||◌, List, [], ◌∷◌, ◌++◌,
  Option, none, some, map, if◌then◌else◌,
}
use fluxplane_system.GoText.{
  Text, codes, backslash, is_empty, has_prefix, trim_prefix, is_space, trim_space, CutResult, cut,
  Unicode, trim_suffix_char, sort_texts,
}
use fluxplane_system.GoMap.{GoMap, lookup, insert, keys}
use fluxplane_system.System.{
  Error, unterminated_single, unterminated_double, unterminated_escape, invalid_key, Result, ok,
  err, ◌>>=◌,
}

-- The bytes that an escape stands for.
unfoldable pub unescaped : ℕ → Text
unescaped r =
    if r == 110
    then 10 ∷ []
    else if r == 114
    then 13 ∷ []
    else if r == 116
    then 9 ∷ []
    else if r == 92 || r == 34
    then r ∷ []
    else backslash ∷ r ∷ []

pub record Unescape : Type 0 where
  pub out : Text
  pub escaped : Bool

-- One turn of the loop of `UnescapeDoubleQuotedEnv`.
unfoldable pub unescape_step : ℕ → Unescape → Unescape
unfolding unescaped
unescape_step r st =
    if st.escaped
    then record { out = st.out ++ unescaped r; escaped = false }
    else if r == backslash
    then record { out = st.out; escaped = true }
    else record { out = st.out ++ (r ∷ []); escaped = false }

unfoldable pub unescape_all : Text → Unescape → Unescape
unfolding unescape_step
unescape_all [] st = st
unescape_all (r ∷ s) st = unescape_all s (unescape_step r st)

unfoldable pub unescape_double_quoted_env : Text → Result Text
unfolding unescape_all
unescape_double_quoted_env value =
    let st = unescape_all value (record { out = []; escaped = false }) in
    if st.escaped then err unterminated_escape else ok st.out

-- The last byte of a code point in UTF-8.
unfoldable pub last_byte : ℕ → ℕ
last_byte c = if ltb c 128 then c else 128 + c % 64

-- What stands before a comment; `free` says whether one may start here, at the beginning or after
-- a byte that `unicode.IsSpace` takes for a space.
unfoldable pub find_comment : Bool → Text → Option Text
unfolding is_space last_byte
find_comment free [] = none
find_comment free (r ∷ s) =
    let rest = find_comment (is_space (last_byte r)) s in
    if r == 35 && free then some [] else elim rest [ none ↦ none | some before ↦ some (r ∷ before) ]

unfoldable pub strip_env_comment : Text → Text
unfolding find_comment trim_space
strip_env_comment value = elim (find_comment true value) [
  | some before ↦ trim_space before
  | none ↦ value
]

-- Whether the last code point is the quote, and all but the last.
unfoldable pub ends_with : ℕ → Text → Bool
ends_with c [] = false
ends_with c (x ∷ []) = x == c
ends_with c (x ∷ y ∷ s) = ends_with c (y ∷ s)

unfoldable pub all_but_last : Text → Text
all_but_last [] = []
all_but_last (x ∷ []) = []
all_but_last (x ∷ y ∷ s) = x ∷ all_but_last (y ∷ s)

unfoldable pub parse_env_value : Text → Result Text
unfolding ends_with all_but_last unescape_double_quoted_env strip_env_comment trim_space
parse_env_value [] = ok []
parse_env_value (c ∷ rest) =
    if c == 39
    then (if ends_with 39 rest then ok (all_but_last rest) else err unterminated_single)
    else if c == 34
    then (if ends_with 34 rest
        then unescape_double_quoted_env (all_but_last rest)
        else err unterminated_double)
    else ok (trim_space (strip_env_comment (c ∷ rest)))

unfoldable pub valid_tail : Unicode → Text → Bool
valid_tail uni [] = true
valid_tail uni (r ∷ s) = (r == 95 || uni.is_letter r || uni.is_digit r) && valid_tail uni s

unfoldable pub valid_env_key : Unicode → Text → Bool
unfolding valid_tail
valid_env_key uni [] = false
valid_env_key uni (r ∷ s) = (r == 95 || uni.is_letter r) && valid_tail uni s

-- A line without its spaces, and without `export `.
unfoldable pub env_line : Text → Text
unfolding trim_space trim_suffix_char
env_line raw = trim_space (trim_suffix_char 13 raw)

unfoldable pub env_key : CutResult → Text
unfolding trim_space
env_key parts = trim_space parts.before

-- The assignment of a line that is neither empty nor a comment.
unfoldable pub parse_assignment : Unicode → Text → GoMap Text → Result (GoMap Text)
unfolding trim_space trim_prefix cut env_key valid_env_key parse_env_value insert
parse_assignment uni line values =
    let parts = cut 61 (trim_space (trim_prefix (codes "export ") line)) in
    if not parts.found || not (valid_env_key uni (env_key parts))
    then err invalid_key
    else (parse_env_value (trim_space parts.after) >>= λ value.
        ok (insert (env_key parts) value values))

unfoldable pub parse_env_line : Unicode → Text → GoMap Text → Result (GoMap Text)
unfolding env_line parse_assignment has_prefix is_empty
parse_env_line uni raw values =
    if is_empty (env_line raw) || has_prefix (codes "#") (env_line raw)
    then ok values
    else parse_assignment uni (env_line raw) values

unfoldable pub parse_env_lines : Unicode → List Text → GoMap Text → Result (GoMap Text)
unfolding parse_env_line
parse_env_lines uni [] values = ok values
parse_env_lines uni (raw ∷ lines) values =
    parse_env_line uni raw values >>= parse_env_lines uni lines

-- What is read of a file: the lines of the scanner, and its error if it stops with one.
pub record Scan : Type 0 where
  pub lines : List Text
  pub failure : Option Error

unfoldable pub parse_env_file : Unicode → Result Scan → Result (GoMap Text)
unfolding parse_env_lines
parse_env_file uni opened = opened >>= λ scan. parse_env_lines uni scan.lines [] >>= λ values.
    elim scan.failure [ none ↦ ok values | some e ↦ err e ]

-- Later values over earlier ones.
unfoldable pub merge : GoMap Text → GoMap Text → GoMap Text
unfolding insert
merge [] values = values
merge ((key, value) ∷ loaded) values = merge loaded (insert key value values)

unfoldable pub load_each :
    Unicode → (Text → Result Scan) → List Text → GoMap Text → Result (GoMap Text)
unfolding parse_env_file merge
load_each uni open_scan [] values = ok values
load_each uni open_scan (file ∷ files) values = parse_env_file uni (open_scan file) >>= λ loaded.
    load_each uni open_scan files (merge loaded values)

unfoldable pub format_entries : GoMap Text → List Text → List Text
unfolding lookup
format_entries values [] = []
format_entries values (key ∷ rest) =
    (key ++ codes "=" ++ elim (lookup key values) [ none ↦ [] | some value ↦ value ])
    ∷ format_entries values rest

unfoldable pub format_env : GoMap Text → List Text
unfolding format_entries sort_texts
format_env values = format_entries values (sort_texts (keys values))

unfoldable pub trim_strings : List Text → List Text
unfolding trim_space is_empty
trim_strings [] = []
trim_strings (value ∷ rest) =
    let out = trim_strings rest in
    if is_empty (trim_space value) then out else trim_space value ∷ out
