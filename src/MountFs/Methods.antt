-- ===== src/MountFs/Methods.antt =====
-- mountfs/mountfs.go: the methods of the mounted file system.
use fluxplane_system.Prelude.{◌||◌, List, [], none, some, if◌then◌else◌}
use fluxplane_system.GoText.{Text}
use fluxplane_system.GoPath.{dot}
use fluxplane_system.System.{
  Error, Result, ok, err, ◌>>=◌, ◌>>◌, guard, Context, Bytes, FileInfo, DirEntry, File,
  WriteFileOptions, WriteTempFileOptions, MkdirOptions, RenameOptions, Outcome, on_ok, FileSystem,
  is_a_directory, virtual_root, read_only as denied,
}
use fluxplane_system.MountFs.Roots.{
  Resolved, Mount, is_virtual_root, can_write, clean_visible_name, relative_under,
}
use fluxplane_system.MountFs.Resolve.{resolve}
use fluxplane_system.MountFs.Virtual.{virtual_info, virtual_root_entries}

module _ {S : Type 0} where
  unfoldable pub open_file : Mount S → Text → S → Result File
  unfolding is_virtual_root virtual_root_entries resolve
  open_file m name s =
      if is_virtual_root name
      then (do
        entries ← virtual_root_entries m s
        ok (record {
          stat = virtual_info dot;
          content = [];
          failure = none;
          listing = some entries;
        }))
      else (do resolved ← resolve name m; m.base.open_file resolved.path s)

  unfoldable pub stat : Mount S → Text → S → Result FileInfo
  stat m name s =
      if is_virtual_root name
      then ok (virtual_info dot)
      else (do resolved ← resolve name m; m.base.stat resolved.path s)

  unfoldable pub read_dir : Mount S → Text → S → Result (List DirEntry)
  unfolding is_virtual_root virtual_root_entries resolve
  read_dir m name s =
      if is_virtual_root name
      then virtual_root_entries m s
      else (do resolved ← resolve name m; m.base.read_dir resolved.path s)

  unfoldable pub read_file : Mount S → Text → S → Result Bytes
  read_file m name s =
      if is_virtual_root name
      then err is_a_directory
      else (do resolved ← resolve name m; m.base.read_file resolved.path s)

  -- A name that must resolve to a root that allows writes.
  unfoldable pub writable : Text → Mount S → Result Resolved
  writable name m = do
    resolved ← resolve name m
    guard (can_write resolved.root.access) denied
    ok resolved

  -- A change at a name: refused at the virtual root and where writes are denied.
  abbrev pub change_at :
      {A : Type 0} → Error → Mount S → Text → (Resolved → S → Outcome S A) → S → Outcome S A
  change_at at_root m name k s =
      if is_virtual_root name
      then (err at_root, s)
      else on_ok (writable name m, s) (λ resolved. k resolved)

  unfoldable pub write_file :
      Mount S → Context → Text → Bytes → WriteFileOptions → S → Outcome S (Unit {0})
  write_file m ctx name content opts =
      change_at is_a_directory m name λ resolved. m.base.write_file ctx resolved.path content opts

  unfoldable pub visible_temp : Resolved → Text → S → Outcome S Text
  unfolding relative_under clean_visible_name
  visible_temp resolved created s = (
    (do
      rel ← relative_under resolved.root.path created
      ok (clean_visible_name resolved.root.name rel)),
    s,
  )

  unfoldable pub write_temp_file :
      Mount S → Context → Text → Text → Bytes → WriteTempFileOptions → S → Outcome S Text
  write_temp_file m ctx dir pattern content opts = change_at virtual_root m dir λ resolved s.
      on_ok (m.base.write_temp_file ctx resolved.path pattern content opts s)
        (visible_temp resolved)

  unfoldable pub mkdir_all : Mount S → Context → Text → MkdirOptions → S → Outcome S (Unit {0})
  mkdir_all m ctx name opts s =
      if is_virtual_root name
      then (ok tt, s)
      else on_ok (writable name m, s) (λ resolved. m.base.mkdir_all ctx resolved.path opts)

  unfoldable pub remove : Mount S → Context → Text → S → Outcome S (Unit {0})
  remove m ctx name = change_at virtual_root m name λ resolved. m.base.remove ctx resolved.path

  -- Both names resolve before the access of either is looked at.
  unfoldable pub rename_ends : Mount S → Text → Text → Result (Resolved × Resolved)
  rename_ends m old_name new_name = do
    old ← resolve old_name m
    new ← resolve new_name m
    guard (can_write old.root.access) denied
    guard (can_write new.root.access) denied
    ok (old, new)

  unfoldable pub rename : Mount S → Context → Text → Text → RenameOptions → S → Outcome S (Unit {0})
  rename m ctx old_name new_name opts s =
      if is_virtual_root old_name || is_virtual_root new_name
      then (err virtual_root, s)
      else on_ok (rename_ends m old_name new_name, s)
          (λ ends. m.base.rename ctx ends.0.path ends.1.path opts)

  -- The mounted file system as an implementation of the interface.
  unfoldable pub mounted : Mount S → FileSystem S
  unfolding open_file stat read_dir read_file write_file write_temp_file mkdir_all remove rename
  mounted m = record {
    open_file = open_file m;
    stat = stat m;
    read_dir = read_dir m;
    read_file = read_file m;
    write_file = write_file m;
    write_temp_file = write_temp_file m;
    mkdir_all = mkdir_all m;
    remove = remove m;
    rename = rename m;
  }
