-- ===== src/MountFs/Virtual.antt =====
-- mountfs/mountfs.go: the virtual root, which lists the primary root's entries and the mounts, and
-- the directory handle that lists it in parts.
use Prim.Native.Nat.{bit_or}
use fluxplane_system.Prelude.{
  ℕ, zero, suc, ◌+◌, ◌-◌, min, leb, true, List, [], ◌∷◌, Option, none, some, if◌then◌else◌, length,
  take, drop,
}
use fluxplane_system.GoText.{Text, is_empty, sort_texts}
use fluxplane_system.Integers.{pos, negsuc, int64}
use fluxplane_system.GoMap.{GoMap, lookup, insert, keys}
use fluxplane_system.System.{
  Result, ok, err, ◌>>=◌, mode_dir, FileInfo, DirEntry, Outcome, end_of_file,
}
use fluxplane_system.MountFs.Roots.{RootInfo, Mount}

abbrev pub virtual_info : Text → FileInfo
virtual_info name = record {
  name = name;
  size = 0;
  mode = bit_or mode_dir 0o555;
  mod_time = 0;
  is_dir = true;
}

abbrev pub virtual_entry : Text → DirEntry
virtual_entry name = record {
  name = name;
  is_dir = true;
  kind = mode_dir;
  info = virtual_info name;
}

unfoldable pub add_entries : List DirEntry → GoMap DirEntry → GoMap DirEntry
unfolding insert
add_entries [] entries = entries
add_entries (e ∷ es) entries = add_entries es (insert e.name e entries)

unfoldable pub add_mounts : List RootInfo → GoMap DirEntry → GoMap DirEntry
unfolding insert is_empty
add_mounts [] entries = entries
add_mounts (root ∷ rest) entries = add_mounts rest (
    if is_empty root.name
    then entries
    else insert (b'@' ∷ root.name) (virtual_entry (b'@' ∷ root.name)) entries)

unfoldable pub entries_at : List Text → GoMap DirEntry → List DirEntry
unfolding lookup
entries_at [] entries = []
entries_at (name ∷ names) entries = elim (lookup name entries) [
  | none ↦ entries_at names entries
  | some e ↦ e ∷ entries_at names entries
]

module _ {S : Type 0} where
  unfoldable pub primary_entries : Mount S → S → Result (List DirEntry)
  unfolding lookup
  primary_entries m s = elim (lookup [] m.roots) [
    | none ↦ ok []
    | some root ↦ m.base.read_dir root.path s
  ]

  unfoldable pub virtual_root_entries : Mount S → S → Result (List DirEntry)
  unfolding primary_entries add_entries add_mounts entries_at sort_texts
  virtual_root_entries m s = do
    base_entries ← primary_entries m s
    let entries = add_mounts m.order (add_entries base_entries [])
    ok (entries_at (sort_texts (keys entries)) entries)

-- The open virtual root, and how far it has been listed.
pub record VirtualDirFile : Type 0 where
  pub entries : List DirEntry
  pub offset : ℕ

-- `ReadDir(n)`; 0 stands for every `n ≤ 0`. The end of the part is an `int`: if it wraps around to a
-- negative number, the slice is out of range and the program panics, which is `none`.
unfoldable pub read_entries : ℕ → VirtualDirFile → Option (Outcome VirtualDirFile (List DirEntry))
unfolding int64
read_entries zero f = some (ok (drop f.offset f.entries), record f { offset = length f.entries })
read_entries (suc n) f =
    if leb (length f.entries) f.offset
    then some (err end_of_file, f)
    else elim (int64 (f.offset + suc n)) [
      | negsuc _ ↦ none
      | pos last ↦
          let end = min last (length f.entries) in
          some (ok (take (end - f.offset) (drop f.offset f.entries)), record f { offset = end })
    ]
