-- ===== src/FsHelpers/Walk.antt =====
-- fs_helpers.go: `Walk`. The mode as a text is left out: it is in `info`.
use fluxplane_system.Prelude.{
  ℕ, suc, leb, ltb, ◌==◌, Bool, true, false, not, ◌&&◌, ◌||◌, List, [], ◌∷◌, ◌++◌, any,
  if◌then◌else◌, length, Option, none, some,
}
use fluxplane_system.GoText.{
  Text, codes, slash, text_eq, is_empty, has_prefix, trim_prefix, trim_space, count_char,
}
use fluxplane_system.GoPath.{dot, path_base}
use fluxplane_system.System.{Result, ok, err, ◌>>=◌, FileInfo, DirEntry, FileSystem}
use fluxplane_system.PathPattern.{ElementMatch, accepts}
use fluxplane_system.FsHelpers.{Checks, clean_fs_name}
use Prim.Native.Nat.{bit_and}
use fluxplane_system.FsHelpers.WalkDir.{Signal, keep_going, skip_dir, skip_all, stop, walk_root}

pub record WalkOptions : Type 0 where
  pub depth : ℕ
  pub show_hidden : Bool
  pub max_entries : ℕ
  pub files_only : Bool
  pub skip_dirs : List Text
  pub filter_pattern : Text

pub record WalkEntry : Type 0 where
  pub path : Text
  pub name : Text
  pub kind : Text
  pub size : ℕ
  pub mod_time : ℕ
  pub level : ℕ
  pub info : FileInfo

-- What a file system answers beyond its interface: `Info` of an entry, which may look the file up
-- again and fail, and the entries that a failing `ReadDir` returns beside its error.
pub record EntryAnswers : Type 0 where
  pub info : DirEntry → Result FileInfo
  pub partial : Text → List DirEntry

-- The keys of the set.
unfoldable pub skip_dir_set : List Text → List Text
skip_dir_set [] = []
skip_dir_set (name ∷ names) =
    let rest = skip_dir_set names in
    if is_empty (trim_space name) then rest else trim_space name ∷ rest

unfoldable pub match_filter_pattern : ElementMatch → Text → Text → Bool → Bool
match_filter_pattern match pattern rel_path is_dir = elim (match pattern rel_path) [
  | err _ ↦ false
  | ok matched ↦
      matched
      || (not (text_eq (path_base rel_path) rel_path)
          && accepts (match pattern (path_base rel_path)))
      || (is_dir && accepts (match pattern (rel_path ++ codes "/*")))
]

-- The variables of `Walk` that the visits change, and how often the context was asked.
pub record Walked : Type 0 where
  pub entries : List WalkEntry
  pub truncated : Bool
  pub checks : ℕ

abbrev pub depth_of : WalkOptions → ℕ
depth_of o = if o.depth == 0 then 3 else if ltb 50 o.depth then 50 else o.depth

-- The bound on the number of results, with its largest value and its default.
abbrev pub limit_of : ℕ → ℕ → ℕ → ℕ
limit_of most default limit = if limit == 0 || ltb most limit then default else limit

abbrev pub rel_to_root : Text → Text → Text
rel_to_root root current =
    if text_eq root dot then current else trim_prefix (root ++ (slash ∷ [])) current

abbrev pub level_of : Text → Text → ℕ
level_of root current = suc (count_char slash (rel_to_root root current))

-- `d.Type()&fs.ModeSymlink != 0`
abbrev pub is_symlink : ℕ → Bool
is_symlink kind = not (bit_and kind 0x8000000 == 0)

abbrev pub walk_entry : Text → DirEntry → ℕ → FileInfo → WalkEntry
walk_entry current d level info = record {
  path = current;
  name = d.name;
  kind =
      if d.is_dir then codes "dir" else if is_symlink d.kind then codes "symlink" else codes "file";
  size = info.size;
  mod_time = info.mod_time;
  level = level;
  info = info;
}

-- An entry goes to the end of the result, unless the limit is reached or `Info` failed.
unfoldable pub add_entry : ℕ → (FileInfo → WalkEntry) → Result FileInfo → Walked → Signal × Walked
add_entry limit entry info v =
    if leb limit (length v.entries)
    then (skip_all, record { entries = v.entries; truncated = true; checks = suc v.checks })
    else elim info [
      | err _ ↦ (
        keep_going,
        record { entries = v.entries; truncated = v.truncated; checks = suc v.checks },
      )
      | ok i ↦ (
        keep_going,
        record {
          entries = v.entries ++ (entry i ∷ []);
          truncated = v.truncated;
          checks = suc v.checks;
        },
      )
    ]

module _ (match : ElementMatch) (o : WalkOptions) (root : Text) where
  -- The tests in front of the entry's place in the result: what the visit says instead.
  unfoldable pub refused : Text → DirEntry → Option Signal
  unfolding skip_dir_set match_filter_pattern count_char
  refused current d =
      if text_eq current root
      then some keep_going
      else if ltb (depth_of o) (level_of root current)
      then some (if d.is_dir then skip_dir else keep_going)
      else if not o.show_hidden && has_prefix dot d.name
      then some (if d.is_dir then skip_dir else keep_going)
      else if d.is_dir && any (text_eq d.name) (skip_dir_set o.skip_dirs)
      then some skip_dir
      else if o.files_only && d.is_dir
      then some keep_going
      else if not (is_empty o.filter_pattern)
          && not (match_filter_pattern match o.filter_pattern (rel_to_root root current) d.is_dir)
      then some keep_going
      else none

  unfoldable pub visit : Checks → EntryAnswers → Text → DirEntry → Walked → Signal × Walked
  unfolding refused add_entry
  visit ctx more current d v =
      let asked : Walked = record {
        entries = v.entries;
        truncated = v.truncated;
        checks = suc v.checks;
      } in
      elim (ctx v.checks) [
        | some e ↦ (stop e, asked)
        | none ↦ elim (refused current d) [
          | some signal ↦ (signal, asked)
          | none ↦
              add_entry (limit_of 10000 1000 o.max_entries)
                (walk_entry current d (level_of root current)) (more.info d) v
        ]
      ]

-- What `Walk` returns, with the last signal: its error is that of `stop`.
module _ {S : Type 0} where
  unfoldable pub walk :
      ElementMatch
      → Checks
      → EntryAnswers
      → FileSystem S
      → Text
      → WalkOptions
      → S
      → Result (Signal × Walked)
  unfolding visit walk_root clean_fs_name
  walk match ctx more fs name o s = clean_fs_name name >>= λ root. ok (
      walk_root fs s more.partial (visit match o root ctx more) (suc (suc (depth_of o))) root
        (record { entries = []; truncated = false; checks = 0 }))
