-- ===== src/FsHelpers/Examples.antt =====
-- The theorems on reads, walks and globs at a concrete file system.
use fluxplane_system.Prelude.{
  ◌≡◌, ◌≢◌, refl, true, false, [], ◌∷◌, All, none, if◌then◌else◌, if_cases,
}
use fluxplane_system.GoText.{
  Text, codes, text_eq, split_on, is_empty, trim_space, replace_all, cut, contains_char,
}
use fluxplane_system.GoPath.{dot, is_valid_element, path_clean, is_abs, is_valid_path}
use fluxplane_system.GoPath.Laws.{IsName}
use fluxplane_system.System.{ok, err, not_exist, FileInfo, DirEntry, File, FileSystem}
use fluxplane_system.PathPattern.{
  ElementMatch, Pattern, normalize, expand_braces, check_segments, compile_each, compile,
  match_segments, matches,
}
use fluxplane_system.FsHelpers.{Checks, clean_fs_name, lines_of, read_file_lines}
use fluxplane_system.FsHelpers.Selected.{joined, wanted_lines}
use fluxplane_system.FsHelpers.Lines.{Reads, read_file_lines-IsWindow}
use fluxplane_system.FsHelpers.WalkDir.{keep_going, out_of_fuel, listed}
use fluxplane_system.FsHelpers.Walk.{EntryAnswers, Walked, walk_entry, walk}
use fluxplane_system.FsHelpers.Glob.{GlobOptions, glob, glob_walk_options}
use fluxplane_system.FsHelpers.Walks.{IsWalked, walk-IsWalked}
use fluxplane_system.FsHelpers.Below.{IsUnder, walk-IsUnder}
use fluxplane_system.FsHelpers.Ending.{walk-Ends}
use fluxplane_system.FsHelpers.Globs.{glob-matching}

abbrev live : Checks
live _ = none

abbrev info : FileInfo
info = record { name = codes "a"; size = 4; mode = 0o644; mod_time = 0; is_dir = false }

abbrev root_info : FileInfo
root_info = record { name = dot; size = 0; mode = 0o755; mod_time = 0; is_dir = true }

abbrev entry : DirEntry
entry = record { name = codes "a"; is_dir = false; kind = 0; info = info }

abbrev file : File
file = record { stat = info; content = 1 ∷ 10 ∷ 2 ∷ 10 ∷ []; failure = none; listing = none }

-- One file in the root, which cannot be changed.
abbrev one_file : FileSystem (Unit {0})
one_file = record {
  open_file = λ _ _. ok file;
  stat = λ _ _. ok root_info;
  read_dir = λ dir _. if text_eq dir dot then ok (entry ∷ []) else err not_exist;
  read_file = λ _ _. ok (file.content);
  write_file = λ _ _ _ _ s. (err not_exist, s);
  write_temp_file = λ _ _ _ _ _ s. (err not_exist, s);
  mkdir_all = λ _ _ _ s. (err not_exist, s);
  remove = λ _ _ s. (err not_exist, s);
  rename = λ _ _ _ _ s. (err not_exist, s);
}

-- The information on an entry is what it was listed with, and a failing listing is empty.
abbrev answering : EntryAnswers
answering = record { info = λ d. ok d.info; partial = λ _. [] }

a-clean_fs_name : clean_fs_name (codes "a") ≡ ok (codes "a")
unfolding clean_fs_name is_empty trim_space replace_all text_eq path_clean is_abs is_valid_path
a-clean_fs_name = refl

dot-clean_fs_name : clean_fs_name dot ≡ ok dot
unfolding clean_fs_name is_empty trim_space replace_all text_eq path_clean is_abs is_valid_path
dot-clean_fs_name = refl

read_file_lines-IsWindow_example :
    Reads 2 1
      (joined (wanted_lines 2 2 (lines_of (1 ∷ 10 ∷ 2 ∷ 10 ∷ []))))
      (read_file_lines live one_file (codes "a") 2 2 1 tt)
read_file_lines-IsWindow_example =
    read_file_lines-IsWindow one_file live tt (codes "a") (codes "a") file 2 2 1 (λ _. refl)
      a-clean_fs_name refl refl

abbrev exact : ElementMatch
exact pattern name = ok (text_eq pattern name)

abbrev glob_options : GlobOptions
glob_options = record { base = dot; max_results = 0; max_scanned = 0; skip_dirs = [] }

abbrev walked : Walked
walked = record {
  entries = walk_entry (codes "a") entry 1 info ∷ [];
  truncated = false;
  checks = 2;
}

one_file-walk :
    walk exact live answering one_file dot (glob_walk_options glob_options) tt
    ≡ ok (keep_going, walked)
unfolding walk trim_space replace_all
one_file-walk = refl

walk-IsWalked_example : IsWalked exact (glob_walk_options glob_options) dot walked
walk-IsWalked_example =
    walk-IsWalked exact live answering one_file dot dot (glob_walk_options glob_options) tt
      (keep_going, walked) dot-clean_fs_name one_file-walk

a-IsName : IsName (codes "a")
unfolding split_on is_valid_element
a-IsName = (refl, tt)

one_file-names : (dir : Text) → All (λ d. IsName d.name) (listed [] (one_file.read_dir dir tt))
one_file-names dir =
    if_cases (λ r. All (λ d. IsName d.name) (listed [] r)) (text_eq dir dot) (ok (entry ∷ []))
      (err not_exist) (λ _. (a-IsName, tt)) (λ _. tt)

walk-Ends_example : keep_going ≢ out_of_fuel
walk-Ends_example =
    walk-Ends exact live answering one_file dot (glob_walk_options glob_options) tt
      (keep_going, walked) one_file-names one_file-walk

walk-IsUnder_example : All (λ e. IsUnder dot e.path) walked.entries
walk-IsUnder_example =
    walk-IsUnder exact live answering one_file dot dot (glob_walk_options glob_options) tt
      (keep_going, walked) one_file-names dot-clean_fs_name one_file-walk

abbrev a_pattern : Pattern
a_pattern = record { raw = codes "a"; patterns = (codes "a" ∷ []) ∷ [] }

a-compile : compile exact (codes "a") ≡ ok a_pattern
unfolding compile text_eq normalize trim_space path_clean replace_all expand_braces cut
    contains_char compile_each check_segments
a-compile = refl

glob-matching_example :
    glob exact live answering one_file (codes "a") glob_options tt ≡ ok (codes "a" ∷ [], false)
unfolding matches text_eq normalize trim_space path_clean replace_all match_segments
glob-matching_example =
    glob-matching exact live answering one_file (codes "a") dot glob_options tt a_pattern
      (keep_going, walked) walked a-compile dot-clean_fs_name one_file-walk refl
