-- ===== src/PathPattern.antt =====
-- internal/pathpattern/pathpattern.go: patterns of slash-style relative paths. `path.Match` is a
-- parameter: whether a pattern of one element matches it, or the error of a malformed pattern.
pub mod Meaning
pub mod Braces
pub mod Matching
mod Examples
use fluxplane_system.Prelude.{
  ℕ, Bool, true, false, not, ◌&&◌, ◌||◌, List, [], ◌∷◌, ◌++◌, any, if◌then◌else◌,
}
use fluxplane_system.GoText.{
  Text, codes, slash, backslash, text_eq, is_empty, contains_char, contains_any, replace_all,
  trim_space, split_on, cut,
}
use fluxplane_system.GoPath.{dot, dot_dot, is_abs, path_clean}
use fluxplane_system.System.{
  Result, ok, err, ◌>>=◌, ◌>>◌, guard, empty_pattern, absolute_pattern, pattern_escapes,
  unmatched_brace, malformed_brace, empty_alternative, multiple_braces,
}

-- `path.Match` with the pattern first.
abbrev pub ElementMatch : Type 0
ElementMatch = Text → Text → Result Bool

pub record Pattern : Type 0 where
  pub raw : Text
  pub patterns : List (List Text)

abbrev pub stars : Text
stars = codes "**"

abbrev pub left_brace : ℕ
left_brace = 123

abbrev pub right_brace : ℕ
right_brace = 125

abbrev pub comma : ℕ
comma = 44

-- The name that both `Compile` and `Match` start from.
unfoldable pub normalize : Text → Text
normalize name = trim_space (path_clean (replace_all backslash slash name))

-- The loop over the alternatives.
unfoldable pub alternatives : Text → Text → List Text → Result (List Text)
alternatives before after [] = ok []
alternatives before after (alt ∷ alts) =
    if is_empty alt
    then err empty_alternative
    else (alternatives before after alts >>= λ out. ok ((before ++ (alt ++ after)) ∷ out))

-- What follows the search for both braces.
unfoldable pub expand_body : Text → Text → Text → Result (List Text)
unfolding alternatives
expand_body before body after =
    if is_empty body || contains_any (left_brace ∷ right_brace ∷ []) body
    then err malformed_brace
    else (alternatives before after (split_on comma body) >>= λ out.
        if contains_any (left_brace ∷ right_brace ∷ []) after then err multiple_braces else ok out)

unfoldable pub expand_braces : Text → Result (List Text)
unfolding expand_body
expand_braces pattern =
    let opened = cut left_brace pattern in
    let closed = cut right_brace opened.after in
    if not opened.found
    then (if contains_char right_brace pattern then err unmatched_brace else ok (pattern ∷ []))
    else if not closed.found
    then err unmatched_brace
    else expand_body opened.before closed.before closed.after

-- Each element but `**` must be a pattern that `path.Match` accepts.
unfoldable pub check_segments : ElementMatch → List Text → Result (Unit {0})
check_segments element [] = ok tt
check_segments element (segment ∷ segments) =
    if text_eq segment stars
    then check_segments element segments
    else (element segment [] >>= λ _. check_segments element segments)

unfoldable pub compile_each : ElementMatch → List Text → Result (List (List Text))
compile_each element [] = ok []
compile_each element (candidate ∷ candidates) =
    check_segments element (split_on slash candidate)
    >> (compile_each element candidates >>= λ rest. ok (split_on slash candidate ∷ rest))

unfoldable pub compile : ElementMatch → Text → Result Pattern
compile element pattern =
    let p = normalize pattern in
    if text_eq p dot || is_empty p
    then err empty_pattern
    else if is_abs p
    then err absolute_pattern
    else if any (λ part. text_eq part dot_dot) (split_on slash p)
    then err pattern_escapes
    else (expand_braces p >>= λ expanded.
        compile_each element expanded >>= λ compiled. ok (record { raw = p; patterns = compiled }))

-- Whether a test holds of a list or of what is left of it after some of its elements.
unfoldable pub any_rest : (List Text → Bool) → List Text → Bool
any_rest test [] = test []
any_rest test (x ∷ xs) = let later = any_rest test xs in test (x ∷ xs) || later

abbrev pub accepts : Result Bool → Bool
accepts (ok b) = b
accepts (err e) = false

unfoldable pub match_segments : ElementMatch → List Text → List Text → Bool
match_segments element [] [] = true
match_segments element [] (_ ∷ _) = false
match_segments element (p ∷ ps) [] =
    if text_eq p stars then any_rest (match_segments element ps) [] else false
match_segments element (p ∷ ps) (x ∷ xs) =
    if text_eq p stars
    then any_rest (match_segments element ps) (x ∷ xs)
    else (accepts (element p x) && match_segments element ps xs)

unfoldable pub matches : ElementMatch → Pattern → Text → Bool
matches element p name =
    let rel = normalize name in
    if text_eq rel dot || is_empty rel || is_abs rel
    then false
    else any (λ pattern. match_segments element pattern (split_on slash rel)) p.patterns
