-- ===== src/FsHelpers/Glob.antt =====
-- fs_helpers.go: `Glob`.
use fluxplane_system.Prelude.{
  ℕ, ltb, Bool, true, false, ◌||◌, List, [], ◌∷◌, ◌++◌, if◌then◌else◌, length,
}
use fluxplane_system.GoText.{Text, slash, text_eq, trim_prefix}
use fluxplane_system.GoPath.{dot}
use fluxplane_system.System.{Result, ok, err, ◌>>=◌, FileSystem, no_steps_left}
use fluxplane_system.PathPattern.{ElementMatch, Pattern, compile, matches}
use fluxplane_system.FsHelpers.{Checks, clean_fs_name}
use fluxplane_system.FsHelpers.WalkDir.{Signal, keep_going, skip_dir, skip_all, stop, out_of_fuel}
use fluxplane_system.FsHelpers.Walk.{EntryAnswers, WalkOptions, WalkEntry, Walked, limit_of, walk}

pub record GlobOptions : Type 0 where
  pub base : Text
  pub max_results : ℕ
  pub max_scanned : ℕ
  pub skip_dirs : List Text

abbrev pub match_rel : Text → Text → Text
match_rel base name = if text_eq base dot then name else trim_prefix (base ++ (slash ∷ [])) name

abbrev pub is_match : ElementMatch → Pattern → Text → WalkEntry → Bool
is_match element compiled base e =
    matches element compiled (match_rel base e.path) || matches element compiled e.path

-- The loop over the entries of the walk, with its two variables.
unfoldable pub collect_matches :
    (WalkEntry → Bool) → ℕ → List WalkEntry → List Text × Bool → List Text × Bool
collect_matches test limit [] found = found
collect_matches test limit (e ∷ entries) found = collect_matches test limit entries (
    if test e
    then (if ltb (length found.0) limit
        then (found.0 ++ (e.path ∷ []), found.1)
        else (found.0, true))
    else found)

abbrev pub glob_walk_options : GlobOptions → WalkOptions
glob_walk_options o = record {
  depth = 50;
  show_hidden = true;
  max_entries = limit_of 100000 10000 o.max_scanned;
  files_only = false;
  skip_dirs = o.skip_dirs;
  filter_pattern = [];
}

-- The results of the walk, unless it ended in an error. The error of a walk whose fuel is spent is
-- none of the program's.
abbrev pub unless_stopped : Signal × Walked → Result Walked
unless_stopped (keep_going, v) = ok v
unless_stopped (skip_dir, v) = ok v
unless_stopped (skip_all, v) = ok v
unless_stopped (stop e, v) = err e
unless_stopped (out_of_fuel, v) = err no_steps_left

module _ {S : Type 0} where
  unfoldable pub glob :
      ElementMatch
      → Checks
      → EntryAnswers
      → FileSystem S
      → Text
      → GlobOptions
      → S
      → Result (List Text × Bool)
  unfolding walk collect_matches compile matches
  glob element ctx more fs pattern o s = compile element pattern >>= λ compiled.
      clean_fs_name o.base >>= λ base.
      walk element ctx more fs base (glob_walk_options o) s >>= λ walked.
      unless_stopped walked >>= λ v.
      (let found =
          collect_matches (is_match element compiled base) (limit_of 10000 1000 o.max_results)
            v.entries ([], false) in
        ok (found.0, v.truncated || found.1))
