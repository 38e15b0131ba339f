-- ===== src/HostFiles/Methods.antt =====
-- hostsystem/filesystem.go: the methods of the file system, for the root that it was made with. A nil
-- file system is left out.
use fluxplane_system.Prelude.{
  ℕ, ◌==◌, Bool, true, false, not, ◌&&◌, ◌||◌, List, length, none, some, if◌then◌else◌,
}
use fluxplane_system.GoText.{Text, codes, text_eq, is_empty, trim_space}
use fluxplane_system.GoPath.{dot, is_abs, is_valid_path, path_join, path_dir}
use fluxplane_system.System.{
  Error, already_exists, escapes_root, invalid_name, short_write, Result, ok, err, ◌>>=◌, Context,
  Bytes, FileInfo, DirEntry, File, Outcome, on_ok, WriteFileOptions, WriteTempFileOptions,
  MkdirOptions, RenameOptions, FileSystem,
}
use fluxplane_system.HostFiles.{
  Os, is_not_exist, path_within, real_root_or_self, rel_path_escapes, resolve_existing_under_root,
  resolve_create_under_root,
}

abbrev pub default_perm : ℕ → ℕ → ℕ
default_perm value fallback = if value == 0 then fallback else value

-- `path`: the path of a name below the root.
unfoldable pub path_of : Text → Text → Result Text
unfolding trim_space is_empty text_eq is_valid_path path_join
path_of root raw =
    let name = if is_empty (trim_space raw) then dot else trim_space raw in
    if is_abs name
    then err invalid_name
    else if not (text_eq name dot) && not (is_valid_path name)
    then err invalid_name
    else ok (path_join root name)

-- Continue with what does not change the state.
abbrev pub with_ok : {S A B : Type 0} → Result A → S → (A → Outcome S B) → Outcome S B
with_ok (ok a) s next = next a
with_ok (err e) s next = (err e, s)

abbrev pub live_context : Context → Result (Unit {0})
live_context none = ok tt
live_context (some e) = err e

abbrev pub temp_pattern : Text → Text
temp_pattern pattern = if is_empty (trim_space pattern) then codes "tmp-*" else trim_space pattern

abbrev pub complete : ℕ → Bytes → Result (Unit {0})
complete written content = if written == length content then ok tt else err short_write

module _ {S : Type 0} (os : Os S) where
  -- The check in front of a change that must not overwrite.
  unfoldable pub absent : Bool → Text → S → Result (Unit {0})
  absent true path s = ok tt
  absent false path s = elim (os.lstat path s) [
    | ok _ ↦ err already_exists
    | err e ↦ if is_not_exist e then ok tt else err e
  ]

  -- The file is closed also after a failed write, whose error comes first.
  unfoldable pub write_and_close : Text → Bytes → S → Outcome S ℕ
  write_and_close path content s =
      let written = os.write path content s in
      let closed = os.close path written.1 in (written.0 >>= λ n. closed.0 >>= λ _. ok n, closed.1)

module _ {S : Type 0} (os : Os S) (fuel : ℕ) (root : Text) where
  unfoldable pub resolve_existing : Text → S → Result Text
  unfolding path_of resolve_existing_under_root
  resolve_existing name s =
      path_of root name >>= λ candidate. resolve_existing_under_root os root candidate s

  unfoldable pub resolve_create : Text → S → Result Text
  unfolding path_of resolve_create_under_root
  resolve_create name s =
      path_of root name >>= λ candidate. resolve_create_under_root os fuel root candidate s

  abbrev pub open_file : Text → S → Result File
  open_file name s = resolve_existing name s >>= λ path. os.open_file path s

  abbrev pub stat : Text → S → Result FileInfo
  stat name s = resolve_existing name s >>= λ path. os.stat path s

  abbrev pub read_dir : Text → S → Result (List DirEntry)
  read_dir name s = resolve_existing name s >>= λ path. os.read_dir path s

  abbrev pub read_file : Text → S → Result Bytes
  read_file name s = resolve_existing name s >>= λ path. os.read_file path s

  unfoldable pub write_file : Context → Text → Bytes → WriteFileOptions → S → Outcome S (Unit {0})
  unfolding resolve_create absent write_and_close path_dir
  write_file ctx name content opts s = with_ok (live_context ctx) s (λ _.
      with_ok (resolve_create name s) s (λ path. with_ok (absent os opts.overwrite path s) s (λ _.
        on_ok (os.mkdir_all (path_dir path) 0o755 s) (λ _ s1.
          on_ok (os.open_write path (not opts.overwrite) (default_perm opts.perm 0o644) s1)
            (λ _ s2. on_ok (write_and_close os path content s2) (λ _ s3. (ok tt, s3)))))))

  -- What follows a failure: the file that was made is removed.
  abbrev pub discard : Text → Error → S → Outcome S Text
  discard created e s = (err e, (os.remove created s).1)

  abbrev pub or_discard :
      {A : Type 0} → Text → Outcome S A → (A → S → Outcome S Text) → Outcome S Text
  or_discard created (ok a, s) next = next a s
  or_discard created (err e, s) next = discard created e s

  -- The name below the root of the file that was made.
  unfoldable pub temp_name : Text → S → Result Text
  unfolding real_root_or_self path_within rel_path_escapes text_eq is_empty
  temp_name created s = os.eval_symlinks created s >>= λ real. elim (path_within os root real) [
    | err _ ↦ err escapes_root
    | ok _ ↦ os.rel (real_root_or_self os root s) real >>= λ rel.
        if text_eq rel dot || is_empty rel || rel_path_escapes rel then err escapes_root else ok rel
  ]

  abbrev pub set_mode : Text → ℕ → S → Outcome S (Unit {0})
  set_mode created perm s = if perm == 0 then (ok tt, s) else os.chmod created perm s

  -- `WriteTempFile` after the file was made.
  unfoldable pub finish_temp : Text → Bytes → WriteTempFileOptions → S → Outcome S Text
  unfolding write_and_close temp_name
  finish_temp created content opts s =
      or_discard created (write_and_close os created content s) (λ written s1.
        or_discard created (complete written content, s1)
          (λ _ s2.
            or_discard created (set_mode created opts.perm s2)
              (λ _ s3. or_discard created (temp_name created s3, s3) (λ rel s4. (ok rel, s4)))))

  unfoldable pub write_temp_file :
      Context → Text → Text → Bytes → WriteTempFileOptions → S → Outcome S Text
  unfolding resolve_create finish_temp
  write_temp_file ctx dir pattern content opts s = with_ok (live_context ctx) s (λ _.
      with_ok (resolve_create dir s) s (λ dir_path. on_ok (os.mkdir_all dir_path 0o755 s) (λ _ s1.
        on_ok (os.create_temp dir_path (temp_pattern pattern) s1)
          (λ created s2. finish_temp created content opts s2))))

  unfoldable pub mkdir_all : Context → Text → MkdirOptions → S → Outcome S (Unit {0})
  unfolding resolve_create
  mkdir_all ctx name opts s = with_ok (live_context ctx) s (λ _.
      with_ok (resolve_create name s) s
        (λ path. os.mkdir_all path (default_perm opts.perm 0o755) s))

  unfoldable pub remove : Context → Text → S → Outcome S (Unit {0})
  unfolding resolve_existing
  remove ctx name s =
      with_ok (live_context ctx) s
        (λ _. with_ok (resolve_existing name s) s (λ path. os.remove path s))

  unfoldable pub rename : Context → Text → Text → RenameOptions → S → Outcome S (Unit {0})
  unfolding resolve_existing resolve_create absent
  rename ctx old_name new_name opts s = with_ok (live_context ctx) s (λ _.
      with_ok (resolve_existing old_name s) s (λ old_path.
        with_ok (resolve_create new_name s) s (λ new_path.
          with_ok (absent os opts.overwrite new_path s) s (λ _. os.rename old_path new_path s))))

  -- The type `FileSystem`.
  unfoldable pub host_file_system : FileSystem S
  unfolding write_file write_temp_file mkdir_all remove rename
  host_file_system = record {
    open_file = open_file;
    stat = stat;
    read_dir = read_dir;
    read_file = read_file;
    write_file = write_file;
    write_temp_file = write_temp_file;
    mkdir_all = mkdir_all;
    remove = remove;
    rename = rename;
  }

-- `NewFileSystem`: the root that it is made with, from the current directory's absolute path.
abbrev pub new_root : {S : Type 0} → Os S → (Text → Result Text) → Text → S → Text
new_root os abs root s =
    let given = if is_empty (trim_space root) then dot else root in
    elim (abs given) [
      | err _ ↦ real_root_or_self os given s
      | ok absolute ↦ real_root_or_self os absolute s
    ]
