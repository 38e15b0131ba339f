-- ===== src/MemSystem/Temp.antt =====
-- memsystem/filesystem.go: the tree of nodes under `WriteTempFile`, whose names are made here.
use fluxplane_system.Prelude.{
  ℕ, sym, subst, ◌⊎◌, inl, inr, [], ◌∷◌, ◌++◌, arith, Bool-cases, if_cases, zero, suc, ltb, ◌≤◌,
  ◌/◌, ◌-◌, length, All,
}
use fluxplane_system.GoText.{Text, slash, is_empty, cut, contains_char}
use fluxplane_system.GoText.Laws.{Lacks, Lacks_iff, Lacks-append}
use fluxplane_system.GoPath.Laws.{IsName, IsElement, IsName-append, path_join_of_IsName}
use fluxplane_system.GoMap.{has_key}
use fluxplane_system.System.{ok, Context, Bytes, WriteTempFileOptions}
use fluxplane_system.MemSystem.Nodes.{Node, MemFs, join, is_file_at, file_node, or_default}
use fluxplane_system.MemSystem.Changes.{
  decimal, zeros, temp_file_name, temp_rounds, temp_pattern, try_temp, write_temp_at,
  write_temp_file,
}
use fluxplane_system.MemSystem.Names.{IsKey}
use fluxplane_system.MemSystem.Tree.{IsTree}
use fluxplane_system.GoPath.{is_valid_element}
use fluxplane_system.GoText.Splitting.{split_on_single}
use fluxplane_system.MemSystem.Invariant.{
  Kept, with_name-IsTree, put_file-IsTree, not-IsDirAt, IsName-of_key,
}

-- Some code point of the text is "0" or above, so the text is not made of dots.
abbrev pub HasDigit : Text → Type 0
HasDigit [] = ⊥
HasDigit (c ∷ s) = (48 ≤ c) ⊎ HasDigit s

HasDigit-append_left : (s t : Text) → HasDigit s → HasDigit (s ++ t)
HasDigit-append_left [] t h = absurd h
HasDigit-append_left (c ∷ s) t (inl h) = inl h
HasDigit-append_left (c ∷ s) t (inr h) = inr (HasDigit-append_left s t h)

HasDigit-append_right : (s t : Text) → HasDigit t → HasDigit (s ++ t)
HasDigit-append_right [] t h = h
HasDigit-append_right (c ∷ s) t h = inr (HasDigit-append_right s t h)

decimal-HasDigit : (fuel n : ℕ) → HasDigit (decimal (suc fuel) n)
unfolding decimal
decimal-HasDigit fuel n =
    if_cases HasDigit (ltb n 10) _ _ (λ _. inl (omega arith))
      (λ _. HasDigit-append_right (decimal fuel (n / 10)) _ (inl (omega arith)))

decimal-Lacks : (fuel n : ℕ) → Lacks slash (decimal fuel n)
unfolding decimal
decimal-Lacks zero n = tt
decimal-Lacks (suc fuel) n =
    if_cases (Lacks slash) (ltb n 10) _ _ (λ _. (omega arith, tt))
      (λ _.
        Lacks-append slash (decimal fuel (n / 10)) _ (decimal-Lacks fuel (n / 10))
          (omega arith, tt))

zeros-Lacks : (n : ℕ) → Lacks slash (zeros n)
unfolding zeros
zeros-Lacks zero = tt
zeros-Lacks (suc n) = (omega arith, zeros-Lacks n)

-- The number that makes a temporary name unique.
abbrev token : ℕ → Text
token sequence = zeros (6 - length (decimal 20 sequence)) ++ decimal 20 sequence

cut-Lacks : (c d : ℕ) (s : Text) → Lacks c s → Lacks c (cut d s).before × Lacks c (cut d s).after
unfolding cut
cut-Lacks c d [] h = (tt, tt)
cut-Lacks c d (x ∷ s) (ne, h) = ground (arith, cut-Lacks c d s h)

temp_file_name-HasDigit :
    (pattern : Text) (sequence : ℕ) → HasDigit (temp_file_name pattern sequence)
unfolding temp_file_name
temp_file_name-HasDigit pattern sequence =
    let some_digit : HasDigit (token sequence) =
      HasDigit-append_right (zeros (6 - length (decimal 20 sequence))) (decimal 20 sequence)
        (decimal-HasDigit 19 sequence) in
    if_cases HasDigit (cut b'*' pattern).found _ _
      (λ _.
        HasDigit-append_right (cut b'*' pattern).before _
          (HasDigit-append_left (token sequence) (cut b'*' pattern).after some_digit))
      (λ _. HasDigit-append_right pattern (token sequence) some_digit)

temp_file_name-Lacks :
    (pattern : Text) (sequence : ℕ)
    → Lacks slash pattern
    → Lacks slash (temp_file_name pattern sequence)
unfolding temp_file_name
temp_file_name-Lacks pattern sequence h =
    let plain : Lacks slash (token sequence) =
      Lacks-append slash (zeros (6 - length (decimal 20 sequence))) (decimal 20 sequence)
        (zeros-Lacks (6 - length (decimal 20 sequence))) (decimal-Lacks 20 sequence) in
    let (b, a) = cut-Lacks slash b'*' pattern h in
    if_cases (Lacks slash) (cut b'*' pattern).found _ _
      (λ _.
        Lacks-append slash (cut b'*' pattern).before _ b
          (Lacks-append slash (token sequence) (cut b'*' pattern).after plain a))
      (λ _. Lacks-append slash pattern (token sequence) h plain)

IsElement-of_HasDigit : (s : Text) → HasDigit s → IsElement s
unfolding is_valid_element
IsElement-of_HasDigit [] h = absurd h
IsElement-of_HasDigit (c ∷ []) h = ground arith
IsElement-of_HasDigit (c ∷ d ∷ []) h = ground arith
IsElement-of_HasDigit (c ∷ d ∷ e ∷ s) h = ground arith

single-IsName : (s : Text) → Lacks slash s → IsElement s → IsName s
single-IsName s plain h = subst (All IsElement) (sym (split_on_single slash s plain)) (h, tt)

-- A temporary name is a valid name below its directory.
temp-IsName :
    (dir pattern : Text) (i : ℕ)
    → IsKey dir
    → Lacks slash pattern
    → IsName (join dir (temp_file_name pattern i))
unfolding join
temp-IsName dir pattern i key plain =
    let name =
      single-IsName (temp_file_name pattern i) (temp_file_name-Lacks pattern i plain)
        (IsElement-of_HasDigit (temp_file_name pattern i) (temp_file_name-HasDigit pattern i)) in
    if_cases IsName (is_empty dir) _ _ (λ _. name)
      λ named.
        let below = IsName-of_key dir key named in
        subst IsName (sym (path_join_of_IsName dir (temp_file_name pattern i) below name))
          (IsName-append dir (temp_file_name pattern i) below name)

try_temp-IsTree :
    (rounds i : ℕ) (dir pattern : Text) (node : ℕ → Node) (f : MemFs)
    → IsTree f
    → IsKey dir
    → Lacks slash pattern
    → IsTree (try_temp rounds i dir pattern node f).1
unfolding try_temp
try_temp-IsTree zero i dir pattern node f t key plain = t
try_temp-IsTree (suc rounds) i dir pattern node f t key plain =
    elim (Bool-cases (has_key (join dir (temp_file_name pattern i)) f.nodes)) [
      | inl taken ↦
          rw (taken, try_temp) (try_temp-IsTree rounds (suc i) dir pattern node f t key plain)
      | inr free ↦
          rw (free, try_temp)
            (put_file-IsTree (ok (join dir (temp_file_name pattern i)))
              (join dir (temp_file_name pattern i)) node f t (temp-IsName dir pattern i key plain)
              (not-IsDirAt (join dir (temp_file_name pattern i)) f free))
    ]

-- `WriteTempFile` keeps the tree of nodes, whatever its outcome.
pub write_temp_file-IsTree :
    (ctx : Context) (dir pattern : Text) (content : Bytes) (opts : WriteTempFileOptions) (f : MemFs)
    → IsTree f
    → IsTree (write_temp_file ctx dir pattern content opts f).1
unfolding write_temp_file write_temp_at
write_temp_file-IsTree ctx dir pattern content opts f t =
    with_name-IsTree ctx dir (write_temp_at temp_rounds pattern content opts) f t λ rel e key.
      if_cases (Kept Text) (is_file_at rel f) _ _ (λ _. t)
        λ _.
          if_cases (Kept Text) (contains_char slash (temp_pattern pattern)) _ _ (λ _. t)
            λ plain.
              try_temp-IsTree temp_rounds 1 rel (temp_pattern pattern)
                (file_node content (or_default opts.perm 0o644)) f t key
                ((Lacks_iff slash (temp_pattern pattern)).0 plain)
