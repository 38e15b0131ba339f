-- ===== src/MountFs/Roots.antt =====
-- mountfs/mountfs.go: names, access and the construction of a mounted file system from its roots.
use fluxplane_system.Prelude.{
  Bool, true, false, not, ◌||◌, List, [], ◌∷◌, ◌++◌, Option, none, some, ◌==◌, if◌then◌else◌, all,
}
use fluxplane_system.GoText.{
  Text, codes, slash, backslash, text_eq, is_empty, has_prefix, trim_prefix, contains_any,
  replace_all, trim_space, trim_suffix_char, Unicode,
}
use fluxplane_system.GoPath.{dot, dot_dot, is_abs, is_valid_path, path_clean, path_join}
use fluxplane_system.GoMap.{GoMap, insert, has_key}
use fluxplane_system.System.{
  Result, ok, err, ◌>>=◌, ◌>>◌, guard, invalid_name, invalid_root_name, invalid_access,
  duplicate_root, no_roots, nil_base, escapes_root, is_a_directory, FileSystem,
}

-- The string type `Access`: its two constants, the empty string, and any other.
pub data Access : Type 0 where
  unset read_only read_write : Access
  other_access : Text → Access

pub record Root : Type 0 where
  pub name : Text
  pub path : Text
  pub access : Access
  pub scratch : Bool

pub record RootInfo : Type 0 where
  pub name : Text
  pub path : Text
  pub access : Access
  pub scratch : Bool

pub record Resolved : Type 0 where
  pub root : RootInfo
  pub name : Text
  pub path : Text

-- The mounted file system over a base with state `S`.
pub record Mount (S : Type 0) : Type 0 where
  pub base : FileSystem S
  pub roots : GoMap RootInfo
  pub order : List RootInfo

unfoldable pub clean_input : Text → Text
unfolding trim_space replace_all
clean_input name = trim_space (replace_all backslash slash name)

unfoldable pub is_virtual_root : Text → Bool
unfolding clean_input is_empty text_eq
is_virtual_root name = let n = clean_input name in is_empty n || text_eq n dot

unfoldable pub clean_relative : Text → Result Text
unfolding clean_input is_empty text_eq is_abs is_valid_path path_clean
clean_relative name =
    let n = clean_input name in
    if is_empty n || text_eq n dot
    then ok []
    else if is_abs n || not (is_valid_path n)
    then err invalid_name
    else ok (path_clean n)

unfoldable pub valid_root_name : Unicode → Text → Bool
unfolding text_eq contains_any
valid_root_name u name =
    if text_eq name dot || text_eq name dot_dot || contains_any (codes "@/\\") name
    then false
    else all (λ r. u.is_letter r || u.is_digit r || r == b'-' || r == b'_' || r == b'.') name

unfoldable pub normalize_access : Access → Result Access
normalize_access unset = ok read_only
normalize_access read_only = ok read_only
normalize_access read_write = ok read_write
normalize_access (other_access a) = err invalid_access

unfoldable pub can_write : Access → Bool
can_write read_write = true
can_write _ = false

unfoldable pub normalize_root : Unicode → Root → Result RootInfo
unfolding trim_space is_empty valid_root_name clean_relative normalize_access
normalize_root u root = do
  let name = trim_space root.name
  guard (is_empty name || valid_root_name u name) invalid_root_name
  path ← clean_relative root.path
  access ← normalize_access root.access
  ok (record {
    name = name;
    path = if is_empty path then dot else path;
    access = access;
    scratch = root.scratch;
  })

module _ {S : Type 0} where
  unfoldable pub add_roots : Unicode → List Root → Mount S → Result (Mount S)
  unfolding normalize_root has_key insert
  add_roots u [] m = ok m
  add_roots u (root ∷ rest) m = do
    info ← normalize_root u root
    guard (not (has_key info.name m.roots)) duplicate_root
    add_roots u rest
        (record m { roots = insert info.name info m.roots; order = m.order ++ (info ∷ []) })

  -- `New`; `none` is a nil base.
  unfoldable pub new : Unicode → Option (FileSystem S) → List Root → Result (Mount S)
  unfolding add_roots
  new u none roots = err nil_base
  new u (some base) [] = err no_roots
  new u (some base) (root ∷ rest) =
      add_roots u (root ∷ rest) (record { base = base; roots = []; order = [] })

unfoldable pub clean_visible_name : Text → Text → Text
unfolding is_empty
clean_visible_name root_name rel =
    if is_empty root_name
    then (if is_empty rel then dot else rel)
    else if is_empty rel
    then b'@' ∷ root_name
    else b'@' ∷ (root_name ++ (slash ∷ rel))

unfoldable pub join : Text → Text → Text
unfolding is_empty text_eq path_join
join root_path rel =
    if is_empty rel
    then root_path
    else if text_eq root_path dot
    then rel
    else path_join root_path rel

unfoldable pub relative_under : Text → Text → Result Text
relative_under raw_root raw_name =
    let root_path = path_clean raw_root in
    let name = path_clean raw_name in
    let prefix = trim_suffix_char slash root_path ++ (slash ∷ []) in
    if text_eq root_path dot
    then ok name
    else if text_eq name root_path
    then err is_a_directory
    else if not (has_prefix prefix name)
    then err escapes_root
    else ok (trim_prefix prefix name)
