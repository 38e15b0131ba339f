-- ===== src/MemSystem/Examples.antt =====
-- The theorems on the in-memory file system at concrete states and names.
use fluxplane_system.Prelude.{
  ℕ, ◌≡◌, refl, ◌≢◌, ◌↔◌, sym, ◌∙◌, subst, false≢true, true, false, List, [], ◌∷◌, none, some,
  if◌then◌else◌, In,
}
use fluxplane_system.GoText.{Text, codes, slash, text_eq, contains_char}
use fluxplane_system.GoText.Laws.{Lacks, text_eq_self}
use fluxplane_system.GoMap.{lookup}
use fluxplane_system.System.{
  ok, err, not_exist, Bytes, DirEntry, WriteFileOptions, WriteTempFileOptions, MkdirOptions,
  RenameOptions, ok-injective,
}
use fluxplane_system.MemSystem.Nodes.{Node, MemFs, new_file_system, clean, file_node, or_default}
use fluxplane_system.MemSystem.Changes.{write_file, write_temp_file, mkdir_all, remove, rename}
use fluxplane_system.MemSystem.Reads.{read_file, stat, read_dir}
use fluxplane_system.MemSystem.Tree.{IsDirAt, IsTree}
use fluxplane_system.MemSystem.Parents.{IsFileAt}
use fluxplane_system.MemSystem.Invariant.{
  new_file_system-IsTree, write_file-IsTree, mkdir_all-IsTree, mkdir_all-IsDirAt,
}
use fluxplane_system.MemSystem.Removal.{remove-IsTree, rename-IsTree}
use fluxplane_system.MemSystem.Temp.{write_temp_file-IsTree}
use fluxplane_system.MemSystem.Files.{read_file-write_file, write_file_other}
use fluxplane_system.MemSystem.Deletion.{remove-stat}
use fluxplane_system.MemSystem.TempNames.{write_temp_file_fresh}
use fluxplane_system.MemSystem.Listing.{read_dir_iff, child_path}
use fluxplane_system.MemSystem.Collecting.{names}
use fluxplane_system.MemSystem.Backslash.{with_backslash_kept}
use fluxplane_system.MemSystem.Parents.{IsFileAt}
use fluxplane_system.MemSystem.Renames.{rename_moves, rename_self-stat, rename_dir-breaks}

abbrev a_name : Text
a_name = codes "a"

abbrev b_name : Text
b_name = codes "b"

abbrev payload : Bytes
payload = 1 ∷ 2 ∷ []

abbrev new_only : WriteFileOptions
new_only = record { perm = 0; overwrite = false }

abbrev temp_options : WriteTempFileOptions
temp_options = record { perm = 0 }

abbrev mkdir_options : MkdirOptions
mkdir_options = record { perm = 0 }

abbrev keep_existing : RenameOptions
keep_existing = record { overwrite = false }

abbrev replace : RenameOptions
replace = record { overwrite = true }

abbrev a_node : Node
a_node = file_node payload 0o644 1700000000001

abbrev root_node : Node
root_node = record { dir = true; content = []; mode = 0x800001ed; mod_time = 1700000000000 }

-- A file `a` in the root.
abbrev with_a : MemFs
with_a = record { nodes = ([], root_node) ∷ (a_name, a_node) ∷ []; now = 1700000000001 }

-- A directory `d` with a file `d/x`.
abbrev with_dir : MemFs
with_dir = record {
  nodes = ([], root_node) ∷ (codes "d", root_node) ∷ (codes "d/x", a_node) ∷ [];
  now = 1700000000001;
}

apart : (s t : Text) → text_eq s t ≡ false → s ≢ t
apart s t h e = false≢true (sym h ∙ subst (λ u. text_eq s u ≡ true) e (text_eq_self s))

a_ne_b : a_name ≢ b_name
unfolding text_eq
a_ne_b = apart a_name b_name refl

read_file-write_file_example :
    read_file a_name (write_file none a_name payload new_only new_file_system).1 ≡ ok payload
unfolding write_file read_file
read_file-write_file_example =
    read_file-write_file none a_name payload new_only new_file_system refl

no_dir : (p rel : Text) (f : MemFs) → clean p ≡ ok rel → lookup rel f.nodes ≡ none → ¬ IsDirAt rel f
no_dir p rel f e free (n, found, d) = cc

a_is_free : (rel : Text) → clean a_name ≡ ok rel → ¬ IsDirAt rel new_file_system
unfolding clean lookup
a_is_free rel e =
    let same : a_name ≡ rel = ok-injective e in no_dir a_name rel new_file_system e (rw⁻¹ same refl)

write_file-IsTree_example : IsTree (write_file none a_name payload new_only new_file_system).1
write_file-IsTree_example =
    write_file-IsTree none a_name payload new_only new_file_system new_file_system-IsTree a_is_free

mkdir_all-IsTree_example : IsTree (mkdir_all none (codes "x/y") mkdir_options new_file_system).1
mkdir_all-IsTree_example =
    mkdir_all-IsTree none (codes "x/y") mkdir_options new_file_system new_file_system-IsTree

mkdir_all-IsDirAt_example :
    ((mkdir_all none (codes "x/y") mkdir_options new_file_system).0 ≡ ok tt)
    × IsDirAt (codes "x/y") (mkdir_all none (codes "x/y") mkdir_options new_file_system).1
unfolding clean
mkdir_all-IsDirAt_example =
    mkdir_all-IsDirAt (codes "x/y") (codes "x/y") mkdir_options new_file_system
      new_file_system-IsTree refl

remove-IsTree_example :
    IsTree (remove none a_name (write_file none a_name payload new_only new_file_system).1).1
remove-IsTree_example =
    remove-IsTree none a_name (write_file none a_name payload new_only new_file_system).1
      write_file-IsTree_example

file_is_no_dir :
    (n : Node)
    → lookup a_name (write_file none a_name payload new_only new_file_system).1.nodes ≡ some n
    → n.dir ≡ true
    → ⊥
unfolding lookup write_file
file_is_no_dir n found d = cc

-- `WriteFile` of `a`, then `Rename` to `b`.
abbrev written_a : MemFs
written_a = (write_file none a_name payload new_only new_file_system).1

a_moves :
    (old new : Text)
    → clean a_name ≡ ok old
    → clean b_name ≡ ok new
    → (old ≢ new) × (¬ IsDirAt old written_a) × (¬ IsDirAt new written_a)
unfolding clean lookup write_file
a_moves old new e h =
    let same : a_name ≡ old = ok-injective e in
    let other : b_name ≡ new = ok-injective h in
    (
      λ k. a_ne_b (same ∙ k ∙ sym other),
      subst (λ p. ¬ IsDirAt p written_a) same no_dir_at_a,
      subst (λ p. ¬ IsDirAt p written_a) other (λ (n, found, d). cc),
    )
  where
    no_dir_at_a : ¬ IsDirAt a_name written_a
    no_dir_at_a (n, found, d) = file_is_no_dir n found d

rename-IsTree_example : IsTree (rename none a_name b_name keep_existing written_a).1
rename-IsTree_example =
    rename-IsTree none a_name b_name keep_existing written_a write_file-IsTree_example a_moves

write_temp_file-IsTree_example :
    IsTree (write_temp_file none a_name (codes "t-*") payload temp_options new_file_system).1
write_temp_file-IsTree_example =
    write_temp_file-IsTree none a_name (codes "t-*") payload temp_options new_file_system
      new_file_system-IsTree

b_ne : clean b_name ≢ ok a_name
unfolding clean
b_ne e = a_ne_b (sym (ok-injective e))

write_file_other_example : IsFileAt a_name a_node (write_file none b_name payload new_only with_a).1
unfolding write_file clean lookup
write_file_other_example =
    write_file_other none b_name payload new_only with_a a_name a_node refl b_ne (refl, refl)

remove-stat_example :
    (rel : Text) × (clean a_name ≡ ok rel)
    × (stat a_name (remove none a_name with_a).1 ≡ err not_exist)
    × ((k : Text)
        → lookup k (remove none a_name with_a).1.nodes
          ≡ (if text_eq rel k then none else lookup k with_a.nodes))
unfolding remove
remove-stat_example = remove-stat none a_name with_a refl

write_temp_file_fresh_example :
    (lookup (codes "a/t-000001") new_file_system.nodes ≡ none)
    × ((time : ℕ) × (lookup
            (codes "a/t-000001")
            (write_temp_file none a_name (codes "t-*") payload temp_options new_file_system).1.nodes
          ≡ some (file_node payload (or_default temp_options.perm 0o644) time)))
unfolding write_temp_file
write_temp_file_fresh_example =
    write_temp_file_fresh none a_name (codes "t-*") payload temp_options new_file_system
      (codes "a/t-000001") refl

read_dir_iff_example :
    (es : List DirEntry) × (read_dir (codes ".") new_file_system ≡ ok es)
    × ((x : Text)
        → In x (names es) ↔ (
            (x ≢ [])
            × Lacks slash x
            × ((m : Node) × (lookup (child_path [] x) new_file_system.nodes ≡ some m))))
unfolding clean
read_dir_iff_example =
    read_dir_iff (codes ".") [] new_file_system new_file_system-IsTree refl
      new_file_system-IsTree.root

rename_moves_example :
    (lookup b_name (rename none a_name b_name keep_existing with_a).1.nodes
      ≡ lookup a_name with_a.nodes)
    × (lookup a_name (rename none a_name b_name keep_existing with_a).1.nodes ≡ none)
unfolding rename clean
rename_moves_example =
    rename_moves none a_name b_name keep_existing with_a a_name b_name refl refl refl a_ne_b

rename_self-stat_example : stat a_name (rename none a_name a_name replace with_a).1 ≡ err not_exist
unfolding rename clean
rename_self-stat_example = rename_self-stat none a_name a_name replace with_a a_name refl refl refl

rename_dir-breaks_example :
    (lookup (codes "d/x") (rename none (codes "d") (codes "e") keep_existing with_dir).1.nodes
      ≡ some a_node)
    × (lookup (codes "d") (rename none (codes "d") (codes "e") keep_existing with_dir).1.nodes
        ≡ none)
    × (¬ IsTree (rename none (codes "d") (codes "e") keep_existing with_dir).1)
unfolding rename clean lookup
rename_dir-breaks_example =
    rename_dir-breaks none (codes "d") (codes "e") keep_existing with_dir (codes "d") (codes "e")
      (codes "x") a_node refl refl refl (λ e. cc) (refl, refl)

-- A file whose key has a backslash.
abbrev odd_name : Text
odd_name = codes "x\\y"

abbrev with_odd : MemFs
with_odd = record { nodes = ([], root_node) ∷ (odd_name, a_node) ∷ []; now = 1700000000001 }

with_backslash_kept_example :
    IsFileAt odd_name a_node (remove none odd_name with_odd).1
    × IsFileAt odd_name a_node (rename none odd_name b_name keep_existing with_odd).1
unfolding contains_char lookup
with_backslash_kept_example =
    with_backslash_kept odd_name a_node none odd_name b_name keep_existing with_odd refl
      (refl, refl)
