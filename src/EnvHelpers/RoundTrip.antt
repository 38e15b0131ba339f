-- ===== src/EnvHelpers/RoundTrip.antt =====
-- env_helpers.go: values in double quotes.
use fluxplane_system.Prelude.{
  ℕ, ◌==◌, ◌≡◌, refl, sym, ap, ◌∙◌, true, false, ◌||◌, [], ◌∷◌, ◌++◌, if◌then◌else◌, arith,
  append-nil, append_assoc,
}
use fluxplane_system.GoText.{Text, backslash}
use fluxplane_system.System.{ok}
use fluxplane_system.EnvHelpers.{
  unescaped, Unescape, unescape_step, unescape_all, unescape_double_quoted_env, ends_with,
  all_but_last, parse_env_value,
}

-- How a writer of env files escapes a code point, and a value.
abbrev pub escape_char : ℕ → Text
escape_char c =
    if c == 10
    then backslash ∷ 110 ∷ []
    else if c == 13
    then backslash ∷ 114 ∷ []
    else if c == 9
    then backslash ∷ 116 ∷ []
    else if c == 92 || c == 34
    then backslash ∷ c ∷ []
    else c ∷ []

abbrev pub escape : Text → Text
escape [] = []
escape (c ∷ v) = escape_char c ++ escape v

abbrev plain : Text → Unescape
plain out = record { out = out; escaped = false }

unescape_all-escape_char :
    (c : ℕ) (rest out : Text)
    → unescape_all (escape_char c ++ rest) (plain out) ≡ unescape_all rest (plain (out ++ (c ∷ [])))
unfolding unescape_all unescape_step unescaped
unescape_all-escape_char c rest out = ground arith

unescape_all-escape : (v out : Text) → unescape_all (escape v) (plain out) ≡ plain (out ++ v)
unfolding unescape_all
unescape_all-escape [] out = ap plain (sym (append-nil out))
unescape_all-escape (c ∷ v) out =
    unescape_all-escape_char c (escape v) out
    ∙ unescape_all-escape v (out ++ (c ∷ []))
    ∙ ap plain (append_assoc out (c ∷ []) v)

ends_with_append : (c : ℕ) (s : Text) → ends_with c (s ++ (c ∷ [])) ≡ true
unfolding ends_with
ends_with_append c [] = ground arith
ends_with_append c (x ∷ []) = ground arith
ends_with_append c (x ∷ y ∷ s) = ends_with_append c (y ∷ s)

all_but_last_append : (c : ℕ) (s : Text) → all_but_last (s ++ (c ∷ [])) ≡ s
unfolding all_but_last
all_but_last_append c [] = refl
all_but_last_append c (x ∷ []) = refl
all_but_last_append c (x ∷ y ∷ s) = ap (λ t. x ∷ t) (all_but_last_append c (y ∷ s))

-- Any value is read back from its escaped form in double quotes: line feeds, carriage returns,
-- tabs, backslashes and quotes included.
pub parse_env_value-escape : (v : Text) → parse_env_value (34 ∷ escape v ++ (34 ∷ [])) ≡ ok v
unfolding parse_env_value unescape_double_quoted_env
parse_env_value-escape v =
    rw (ends_with_append 34 (escape v))
      (rw (all_but_last_append 34 (escape v)) (rw (unescape_all-escape v []) refl))
