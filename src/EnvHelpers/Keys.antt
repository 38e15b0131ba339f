-- ===== src/EnvHelpers/Keys.antt =====
-- env_helpers.go: the keys of an env file.
use fluxplane_system.Prelude.{
  ℕ, ◌==◌, ◌≡◌, ◌⊎◌, inl, inr, Bool-cases, true, not, ◌||◌, List, [], ◌∷◌, Option, none, some,
  if_cases, All, arith,
}
use fluxplane_system.GoText.{
  Text, text_eq, CutResult, cut, Unicode, codes, trim_space, trim_prefix, has_prefix, is_empty,
}
use fluxplane_system.GoMap.{GoMap, insert, keys}
use fluxplane_system.System.{Error, Result, ok, err, ◌>>=◌}
use fluxplane_system.EnvHelpers.{
  valid_tail, valid_env_key, env_line, env_key, parse_assignment, parse_env_line, parse_env_lines,
  Scan, parse_env_file, parse_env_value,
}

-- A predicate on the value of a result that is no error.
abbrev pub OnOk : (GoMap Text → Type 0) → Result (GoMap Text) → Type 0
OnOk P (ok m) = P m
OnOk P (err e) = Unit

-- The characters of a name: an underscore, a letter or a digit.
abbrev pub IsWordChar : Unicode → ℕ → Type 0
IsWordChar uni r = (r ≡ 95) ⊎ ((uni.is_letter r ≡ true) ⊎ (uni.is_digit r ≡ true))

-- The name of an environment variable: not empty, an underscore or a letter first, and an underscore,
-- a letter or a digit at every other place.
abbrev pub IsVariableName : Unicode → Text → Type 0
IsVariableName uni [] = ⊥
IsVariableName uni (r ∷ s) = ((r ≡ 95) ⊎ (uni.is_letter r ≡ true)) × All (IsWordChar uni) s

word_char :
    (uni : Unicode) (r : ℕ)
    → (r == 95 || uni.is_letter r || uni.is_digit r) ≡ true
    → IsWordChar uni r
word_char uni r h = elim (Bool-cases (r == 95)) [
  | inl e ↦ inl (ground arith)
  | inr e ↦ elim (Bool-cases (uni.is_letter r)) [
    | inl letter ↦ inr (inl letter)
    | inr other ↦ inr (inr (ground arith))
  ]
]

first_char :
    (uni : Unicode) (r : ℕ)
    → (r == 95 || uni.is_letter r) ≡ true
    → (r ≡ 95) ⊎ (uni.is_letter r ≡ true)
first_char uni r h = elim (Bool-cases (r == 95)) [
  | inl e ↦ inl (ground arith)
  | inr e ↦ inr (ground arith)
]

valid_tail-All : (uni : Unicode) (s : Text) → valid_tail uni s ≡ true → All (IsWordChar uni) s
unfolding valid_tail
valid_tail-All uni [] h = tt
valid_tail-All uni (r ∷ s) h = (word_char uni r (ground arith), valid_tail-All uni s (ground arith))

valid_env_key-IsVariableName :
    (uni : Unicode) (key : Text) → valid_env_key uni key ≡ true → IsVariableName uni key
unfolding valid_env_key
valid_env_key-IsVariableName uni [] h = cc
valid_env_key-IsVariableName uni (r ∷ s) h =
    (first_char uni r (ground arith), valid_tail-All uni s (ground arith))

abbrev pub KeysValid : Unicode → GoMap Text → Type 0
KeysValid uni m = All (IsVariableName uni) (keys m)

insert-KeysValid :
    (uni : Unicode) (k v : Text) (m : GoMap Text)
    → IsVariableName uni k
    → KeysValid uni m
    → KeysValid uni (insert k v m)
unfolding insert
insert-KeysValid uni k v [] h p = (h, tt)
insert-KeysValid uni k v ((j, w) ∷ m) h (pj, p) =
    if_cases (KeysValid uni) (text_eq j k) _ _ (λ _. (h, p))
      (λ _. (pj, insert-KeysValid uni k v m h p))

then-KeysValid :
    (uni : Unicode) (r : Result (GoMap Text)) (f : GoMap Text → Result (GoMap Text))
    → OnOk (KeysValid uni) r
    → ((m : GoMap Text) → KeysValid uni m → OnOk (KeysValid uni) (f m))
    → OnOk (KeysValid uni) (r >>= f)
then-KeysValid uni (ok m) f p h = h m p
then-KeysValid uni (err e) f p h = tt

stored-KeysValid :
    (uni : Unicode) (k : Text) (r : Result Text) (m : GoMap Text)
    → IsVariableName uni k
    → KeysValid uni m
    → OnOk (KeysValid uni) (r >>= λ value. ok (insert k value m))
stored-KeysValid uni k (ok value) m h p = insert-KeysValid uni k value m h p
stored-KeysValid uni k (err e) m h p = tt

parse_assignment-KeysValid :
    (uni : Unicode) (line : Text) (m : GoMap Text)
    → KeysValid uni m
    → OnOk (KeysValid uni) (parse_assignment uni line m)
unfolding parse_assignment
parse_assignment-KeysValid uni line m p =
    let parts : CutResult = cut 61 (trim_space (trim_prefix (codes "export ") line)) in
    if_cases (OnOk (KeysValid uni)) (not parts.found || not (valid_env_key uni (env_key parts))) _ _
      (λ _. tt)
      (λ good.
        let valid : IsVariableName uni (env_key parts) =
          valid_env_key-IsVariableName uni (env_key parts) (ground arith) in
        stored-KeysValid uni (env_key parts) (parse_env_value (trim_space parts.after)) m valid p)

parse_env_line-KeysValid :
    (uni : Unicode) (raw : Text) (m : GoMap Text)
    → KeysValid uni m
    → OnOk (KeysValid uni) (parse_env_line uni raw m)
unfolding parse_env_line
parse_env_line-KeysValid uni raw m p =
    if_cases (OnOk (KeysValid uni))
      (is_empty (env_line raw) || has_prefix (codes "#") (env_line raw)) _ _ (λ _. p)
      (λ _. parse_assignment-KeysValid uni (env_line raw) m p)

parse_env_lines-KeysValid :
    (uni : Unicode) (lines : List Text) (m : GoMap Text)
    → KeysValid uni m
    → OnOk (KeysValid uni) (parse_env_lines uni lines m)
unfolding parse_env_lines
parse_env_lines-KeysValid uni [] m p = p
parse_env_lines-KeysValid uni (raw ∷ lines) m p =
    then-KeysValid uni (parse_env_line uni raw m) (parse_env_lines uni lines)
      (parse_env_line-KeysValid uni raw m p) (parse_env_lines-KeysValid uni lines)

scanned-KeysValid :
    (uni : Unicode) (scan : Scan) (r : Result (GoMap Text))
    → OnOk (KeysValid uni) r
    → OnOk (KeysValid uni) (r >>= λ values. elim scan.failure [ none ↦ ok values | some e ↦ err e ])
scanned-KeysValid uni scan (err e) p = tt
scanned-KeysValid uni scan (ok m) p = go scan.failure
  where
    go : (f : Option Error) → OnOk (KeysValid uni) (elim f [ none ↦ ok m | some e ↦ err e ])
    go none = p
    go (some e) = tt

-- Every key that an env file yields is not empty, begins with an underscore or a letter, and has only
-- underscores, letters and digits after that, whatever the file holds, and whichever characters count
-- as letters and digits.
pub parse_env_file-KeysValid :
    (uni : Unicode) (opened : Result Scan) → OnOk (KeysValid uni) (parse_env_file uni opened)
unfolding parse_env_file
parse_env_file-KeysValid uni (err e) = tt
parse_env_file-KeysValid uni (ok scan) =
    scanned-KeysValid uni scan (parse_env_lines uni scan.lines [])
      (parse_env_lines-KeysValid uni scan.lines [] tt)
