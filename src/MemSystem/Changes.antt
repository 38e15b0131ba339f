-- ===== src/MemSystem/Changes.antt =====
-- memsystem/filesystem.go: the methods that change the nodes. Each has a part over the cleaned path
-- (`write_at` and so on), behind the checks of the context and the name.
use fluxplane_system.Prelude.{
  ℕ, zero, suc, ◌+◌, ◌/◌, ◌%◌, ◌-◌, ltb, true, false, not, ◌&&◌, List, [], ◌∷◌, ◌++◌, none, some,
  if◌then◌else◌, length, any,
}
use fluxplane_system.GoText.{
  Text, codes, slash, is_empty, has_prefix, contains_char, trim_space, cut,
}
use fluxplane_system.GoMap.{lookup, insert, delete, has_key, keys}
use fluxplane_system.System.{
  not_exist, not_a_directory, is_a_directory, already_exists, cannot_remove_root, not_empty,
  separator_in_pattern, temp_exhausted, ok, err, Context, Bytes, WriteFileOptions,
  WriteTempFileOptions, MkdirOptions, RenameOptions, Outcome, on_ok,
}
use fluxplane_system.MemSystem.Nodes.{
  Node, MemFs, clean, prefixes, join, put_node, dir_node, file_node, or_default, is_file_at,
  ensure_parents, with_name,
}

unfoldable pub write_at : Bytes → WriteFileOptions → Text → MemFs → Outcome MemFs (Unit {0})
unfolding is_empty has_key ensure_parents put_node
write_at content opts rel f =
    if is_empty rel
    then (err is_a_directory, f)
    else if has_key rel f.nodes && not opts.overwrite
    then (err already_exists, f)
    else on_ok (ensure_parents rel f)
        λ _ g. (ok tt, put_node rel (file_node content (or_default opts.perm 0o644)) g)

unfoldable pub write_file :
    Context → Text → Bytes → WriteFileOptions → MemFs → Outcome MemFs (Unit {0})
unfolding clean write_at
write_file ctx name content opts = with_name ctx name (write_at content opts)

-- The decimal digits of a number below 10 ^ 20, which fuel 20 prints whole.
unfoldable pub decimal : ℕ → ℕ → Text
decimal zero n = []
decimal (suc fuel) n =
    let tens = decimal fuel (n / 10) in
    if ltb n 10 then (48 + n) ∷ [] else tens ++ ((48 + n % 10) ∷ [])

unfoldable pub zeros : ℕ → Text
zeros zero = []
zeros (suc n) = 48 ∷ zeros n

unfoldable pub temp_file_name : Text → ℕ → Text
unfolding decimal zeros cut
temp_file_name pattern sequence =
    let digits = decimal 20 sequence in
    let token = zeros (6 - length digits) ++ digits in
    let parts = cut b'*' pattern in
    if parts.found then parts.before ++ (token ++ parts.after) else pattern ++ token

-- The loop over `i`, with the rounds left first.
unfoldable pub try_temp : ℕ → ℕ → Text → Text → (ℕ → Node) → MemFs → Outcome MemFs Text
unfolding join temp_file_name has_key ensure_parents put_node
try_temp zero i dir pattern node f = (err temp_exhausted, f)
try_temp (suc left) i dir pattern node f =
    let rel = join dir (temp_file_name pattern i) in
    elim (has_key rel f.nodes) [
      | true ↦ try_temp left (suc i) dir pattern node f
      | false ↦ on_ok (ensure_parents rel f) (λ _ g. (ok rel, put_node rel node g))
    ]

abbrev pub temp_rounds : ℕ
temp_rounds = 1000000

-- A pattern, trimmed, with the default for an empty one.
unfoldable pub temp_pattern : Text → Text
unfolding is_empty trim_space
temp_pattern pattern = let p = trim_space pattern in if is_empty p then codes "tmp-*" else p

unfoldable pub write_temp_at :
    ℕ → Text → Bytes → WriteTempFileOptions → Text → MemFs → Outcome MemFs Text
unfolding is_file_at temp_pattern contains_char try_temp
write_temp_at rounds pattern content opts dir f =
    if is_file_at dir f
    then (err not_a_directory, f)
    else if contains_char slash (temp_pattern pattern)
    then (err separator_in_pattern, f)
    else try_temp rounds 1 dir (temp_pattern pattern)
        (file_node content (or_default opts.perm 0o644)) f

unfoldable pub write_temp_file :
    Context → Text → Text → Bytes → WriteTempFileOptions → MemFs → Outcome MemFs Text
unfolding clean write_temp_at
write_temp_file ctx dir pattern content opts =
    with_name ctx dir (write_temp_at temp_rounds pattern content opts)

unfoldable pub make_each : ℕ → List Text → MemFs → MemFs
unfolding put_node
make_each mode [] f = f
make_each mode (p ∷ ps) f = make_each mode ps (put_node p (dir_node mode) f)

unfoldable pub mkdir_at : MkdirOptions → Text → MemFs → Outcome MemFs (Unit {0})
unfolding make_each prefixes
mkdir_at opts rel f = (ok tt, make_each (or_default opts.perm 0o755) (prefixes rel) f)

unfoldable pub mkdir_all : Context → Text → MkdirOptions → MemFs → Outcome MemFs (Unit {0})
unfolding clean mkdir_at
mkdir_all ctx name opts = with_name ctx name (mkdir_at opts)

unfoldable pub remove_at : Text → MemFs → Outcome MemFs (Unit {0})
unfolding is_empty has_key has_prefix delete
remove_at rel f =
    if is_empty rel
    then (err cannot_remove_root, f)
    else if not (has_key rel f.nodes)
    then (err not_exist, f)
    else if any (has_prefix (rel ++ (slash ∷ []))) (keys f.nodes)
    then (err not_empty, f)
    else (ok tt, record f { nodes = delete rel f.nodes })

unfoldable pub remove : Context → Text → MemFs → Outcome MemFs (Unit {0})
unfolding clean remove_at
remove ctx name = with_name ctx name remove_at

unfoldable pub rename_at : RenameOptions → Text → Text → MemFs → Outcome MemFs (Unit {0})
unfolding lookup has_key ensure_parents insert delete
rename_at opts old new f = elim (lookup old f.nodes) [
  | none ↦ (err not_exist, f)
  | some n ↦
      if has_key new f.nodes && not opts.overwrite
      then (err already_exists, f)
      else on_ok (ensure_parents new f)
          λ _ g. (ok tt, record g { nodes = delete old (insert new n g.nodes) })
]

unfoldable pub rename : Context → Text → Text → RenameOptions → MemFs → Outcome MemFs (Unit {0})
unfolding clean rename_at
rename ctx old_name new_name opts =
    with_name ctx old_name λ old. with_name {A = Unit {0}} none new_name (rename_at opts old)
