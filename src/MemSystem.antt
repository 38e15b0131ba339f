-- ===== src/MemSystem.antt =====
-- memsystem/filesystem.go: the in-memory file system as an implementation of the interface
-- `FileSystem`.
pub mod Nodes
pub mod Changes
pub mod Reads
pub mod Names
pub mod Tree
pub mod Parents
pub mod Invariant
pub mod Removal
pub mod Temp
pub mod Files
pub mod Deletion
pub mod TempNames
pub mod Collecting
pub mod Listing
pub mod Renames
pub mod Backslash
mod Examples
use Prim.Native.Nat.{bit_and, bit_or}
use fluxplane_system.Prelude.{
  ℕ, zero, suc, ◌+◌, ◌/◌, ◌%◌, ◌-◌, ltb, ◌==◌, Bool, true, false, not, ◌&&◌, ◌||◌, List, [], ◌∷◌,
  ◌++◌, none, some, if◌then◌else◌, length, any,
}
use fluxplane_system.GoText.{
  Text, codes, slash, backslash, text_eq, is_empty, has_prefix, trim_prefix, contains_char,
  replace_all, trim_space, split_on, join_with, cut,
}
use fluxplane_system.GoPath.{dot, is_valid_path, path_clean, path_dir, path_base, path_join}
use fluxplane_system.GoMap.{GoMap, lookup, insert, delete, has_key, keys}
use fluxplane_system.System.{
  not_exist, invalid_name, not_a_directory, is_a_directory, already_exists, parent_not_directory,
  cannot_remove_root, not_empty, separator_in_pattern, temp_exhausted, Result, ok, err, Context,
  Bytes, mode_dir, mode_type, FileInfo, DirEntry, File, WriteFileOptions, WriteTempFileOptions,
  MkdirOptions, RenameOptions, Outcome, on_ok, FileSystem,
}
use fluxplane_system.MemSystem.Nodes.{MemFs}
use fluxplane_system.MemSystem.Changes.{write_file, write_temp_file, mkdir_all, remove, rename}
use fluxplane_system.MemSystem.Reads.{open_file, stat, read_dir, read_file}

-- The implementation of the interface.
unfoldable pub mem_file_system : FileSystem MemFs
unfolding open_file stat read_dir read_file write_file write_temp_file mkdir_all remove rename
mem_file_system = record {
  open_file = open_file;
  stat = stat;
  read_dir = read_dir;
  read_file = read_file;
  write_file = write_file;
  write_temp_file = write_temp_file;
  mkdir_all = mkdir_all;
  remove = remove;
  rename = rename;
}
