-- ===== src/HostFiles.antt =====
-- host_paths.go, host_file_ops.go and hostsystem/filesystem.go: files of the host below a root. The
-- calls of the operating system, `filepath.EvalSymlinks` and `filepath.Rel` are fields of `Os`, over
-- the state of the host's files; paths are those of Unix, where `filepath` is `path`.
pub mod Methods
pub mod Ancestor
pub mod Scratch
pub mod Confinement
pub mod Keeping
pub mod ScratchLaws
mod Examples
use fluxplane_system.Prelude.{
  ℕ, zero, suc, ◌==◌, Bool, true, false, not, ◌&&◌, ◌||◌, List, [], ◌∷◌, ◌++◌, Option, none, some,
  if◌then◌else◌,
}
use fluxplane_system.GoText.{Text, slash, text_eq, has_prefix, is_empty, trim_space}
use fluxplane_system.GoPath.{
  dot, dot_dot, is_abs, is_valid_path, path_clean, path_join, path_dir, path_base,
}
use fluxplane_system.System.{
  Error, not_exist, no_steps_left, escapes_root, invalid_name, Result, ok, err, ◌>>=◌, Bytes,
  FileInfo, DirEntry, File, Outcome,
}

pub record Os (S : Type 0) : Type 0 where
  pub eval_symlinks : Text → S → Result Text
  pub rel : Text → Text → Result Text
  pub lstat : Text → S → Result FileInfo
  pub stat : Text → S → Result FileInfo
  pub open_file : Text → S → Result File
  pub read_dir : Text → S → Result (List DirEntry)
  pub read_file : Text → S → Result Bytes
  pub mkdir_all : Text → ℕ → S → Outcome S (Unit {0})
  pub open_write : Text → Bool → ℕ → S → Outcome S (Unit {0})
  pub write : Text → Bytes → S → Outcome S ℕ
  pub close : Text → S → Outcome S (Unit {0})
  pub create_temp : Text → Text → S → Outcome S Text
  pub chmod : Text → ℕ → S → Outcome S (Unit {0})
  pub remove : Text → S → Outcome S (Unit {0})
  pub rename : Text → Text → S → Outcome S (Unit {0})
  pub mkdir_temp : Text → Text → S → Outcome S Text
  pub remove_all : Text → S → Outcome S (Unit {0})

-- `RelPathEscapes`
unfoldable pub rel_path_escapes : Text → Bool
unfolding text_eq has_prefix is_abs
rel_path_escapes rel = text_eq rel dot_dot || has_prefix (dot_dot ++ (slash ∷ [])) rel || is_abs rel

-- `errors.Is(err, os.ErrNotExist)`
abbrev pub is_not_exist : Error → Bool
is_not_exist not_exist = true
is_not_exist _ = false

module _ {S : Type 0} (os : Os S) where
  -- `PathWithin`
  unfoldable pub path_within : Text → Text → Result (Unit {0})
  unfolding rel_path_escapes
  path_within root candidate =
      os.rel root candidate >>= λ rel. if rel_path_escapes rel then err escapes_root else ok tt

  unfoldable pub real_root_or_self : Text → S → Text
  real_root_or_self root s = elim (os.eval_symlinks root s) [ err _ ↦ root | ok real ↦ real ]

  unfoldable pub resolve_existing_under_root : Text → Text → S → Result Text
  unfolding path_within real_root_or_self
  resolve_existing_under_root root candidate s = os.eval_symlinks candidate s >>= λ real.
      path_within (real_root_or_self root s) real >>= λ _. ok real

  -- The missing elements, the deepest first, are joined from the last one on.
  abbrev pub join_missing : Text → List Text → Text
  join_missing real_parent [] = real_parent
  join_missing real_parent (m ∷ missing) = path_join (join_missing real_parent missing) m

  -- The loop over the parents. The fuel bounds their number; the error that says
  -- that it is spent is none of the program's.
  unfoldable pub find_parent : ℕ → Text → List Text → Text → S → Result Text
  unfolding path_within path_join path_dir path_base
  find_parent zero root missing parent s = err no_steps_left
  find_parent (suc fuel) root missing parent s = elim (os.lstat parent s) [
    | ok _ ↦ os.eval_symlinks parent s >>= λ real_parent.
        path_within root (join_missing real_parent missing) >>= λ _.
        ok (join_missing real_parent missing)
    | err e ↦
        if not (is_not_exist e)
        then err e
        else if text_eq (path_dir parent) parent
        then err escapes_root
        else find_parent fuel root (missing ++ (path_base parent ∷ [])) (path_dir parent) s
  ]

  unfoldable pub resolve_create_under_root : ℕ → Text → Text → S → Result Text
  unfolding find_parent real_root_or_self
  resolve_create_under_root fuel root candidate s = elim (os.lstat candidate s) [
    | ok _ ↦ os.eval_symlinks candidate s >>= λ real.
        path_within (real_root_or_self root s) real >>= λ _. ok real
    | err e ↦
        if not (is_not_exist e)
        then err e
        else find_parent fuel (real_root_or_self root s) (path_base candidate ∷ [])
            (path_dir candidate) s
  ]
