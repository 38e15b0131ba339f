-- ===== src/EnvHelpers/Resolve.antt =====
-- env_helpers.go: which files the patterns of env files name. The host's file system and
-- `filepath.Rel` are parameters; paths are those of Unix, where `filepath` is `path`.
use fluxplane_system.Prelude.{
  Bool, true, false, not, ◌||◌, List, [], ◌∷◌, ◌++◌, Option, none, some, if◌then◌else◌,
}
use fluxplane_system.GoText.{
  Text, codes, slash, text_eq, is_empty, has_prefix, contains_char, contains_any, trim_space,
  sort_texts,
}
use fluxplane_system.GoPath.{dot, dot_dot, is_abs, path_clean, path_join, path_dir}
use fluxplane_system.System.{Error, not_exist, is_a_directory, escapes_root, Result, ok, err, ◌>>=◌}

-- `os.Stat`, whether it is a directory; `filepath.EvalSymlinks`; `filepath.Glob`; `filepath.Rel`.
pub record Host : Type 0 where
  pub stat : Text → Result Bool
  pub eval_symlinks : Text → Result Text
  pub glob : Text → Result (List Text)
  pub rel : Text → Text → Result Text

-- `".." + string(os.PathSeparator)`
abbrev pub up : Text
up = dot_dot ++ (slash ∷ [])

unfoldable pub path_within : Host → Text → Text → Result (Unit {0})
path_within host root candidate = host.rel root candidate >>= λ rel.
    if text_eq rel dot_dot || has_prefix up rel || is_abs rel then err escapes_root else ok tt

unfoldable pub has_glob_meta : Text → Bool
has_glob_meta pattern = contains_any (codes "*?[") pattern

-- What stands before the first such character.
unfoldable pub before_meta : Text → Text
before_meta [] = []
before_meta (c ∷ s) =
    let rest = before_meta s in if contains_char c (codes "*?[") then [] else c ∷ rest

unfoldable pub static_pattern_dir : Text → Text
static_pattern_dir pattern =
    if not (has_glob_meta pattern)
    then path_dir (path_clean pattern)
    else (let dir = path_dir (before_meta pattern) in
        path_clean (if text_eq dir dot || is_empty dir then slash ∷ [] else dir))

unfoldable pub env_file_pattern : Host → Text → Text → Result Text
env_file_pattern host root pattern =
    if is_abs pattern
    then elim (path_within host root (static_pattern_dir pattern)) [
      | err e ↦ err escapes_root
      | ok _ ↦ ok (path_clean pattern)
    ]
    else (let clean = path_clean pattern in
        if text_eq clean dot || text_eq clean dot_dot || has_prefix up clean
        then err escapes_root
        else ok (path_join root clean))

abbrev pub is_not_exist : Error → Bool
is_not_exist not_exist = true
is_not_exist _ = false

-- The file, if there is one.
unfoldable pub resolve_env_file : Host → Text → Text → Result (Option Text)
resolve_env_file host root path = elim (host.stat path) [
  | err e ↦ if is_not_exist e then ok none else err e
  | ok is_dir ↦
      if is_dir
      then err is_a_directory
      else (host.eval_symlinks path >>= λ real. elim (path_within host root real) [
        | err e ↦ err escapes_root
        | ok _ ↦ ok (some real)
      ])
]

abbrev pub found : Option Text → List Text
found none = []
found (some file) = file ∷ []

unfoldable pub resolve_matches : Host → Text → List Text → Result (List Text)
resolve_matches host root [] = ok []
resolve_matches host root (path ∷ paths) = resolve_env_file host root path >>= λ file.
    resolve_matches host root paths >>= λ files. ok (found file ++ files)

-- One pattern, without its spaces and not empty.
unfoldable pub resolve_pattern : Host → Text → Text → Result (List Text)
resolve_pattern host root pattern = env_file_pattern host root pattern >>= λ full.
    if not (has_glob_meta full)
    then resolve_matches host root (full ∷ [])
    else (host.glob full >>= λ matches. resolve_matches host root (sort_texts matches))

unfoldable pub resolve_env_files : Host → Text → List Text → Result (List Text)
resolve_env_files host root [] = ok []
resolve_env_files host root (raw ∷ patterns) =
    let rest = resolve_env_files host root patterns in
    if is_empty (trim_space raw)
    then rest
    else (resolve_pattern host root (trim_space raw) >>= λ files.
        rest >>= λ more. ok (files ++ more))
