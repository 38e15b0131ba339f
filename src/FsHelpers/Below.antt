-- ===== src/FsHelpers/Below.antt =====
-- fs_helpers.go: where the entries that `Walk` returns lie.
use fluxplane_system.Prelude.{
  ℕ, zero, suc, ◌≡◌, refl, sym, subst, ◌∙◌, false, [], ◌∷◌, List, All, All-append, All-weaken,
  Bool-cases, Option-cases, inl, inr, false≢true, leb, length,
}
use fluxplane_system.GoText.{Text, text_eq}
use fluxplane_system.GoText.Laws.{text_eq_self}
use fluxplane_system.GoPath.{path_join}
use fluxplane_system.GoPath.Laws.{IsName}
use fluxplane_system.System.{Result, ok, ok-injective, Result-cases, FileInfo, DirEntry, FileSystem}
use fluxplane_system.PathPattern.{ElementMatch}
use fluxplane_system.FsHelpers.{Checks, clean_fs_name}
use fluxplane_system.FsHelpers.WalkDir.{Signal, walk_entries, walk_dir, walk_root, listed}
use fluxplane_system.FsHelpers.Walk.{
  EntryAnswers, WalkOptions, WalkEntry, Walked, depth_of, limit_of, level_of, walk_entry, add_entry,
  refused, visit, walk,
}
use fluxplane_system.FsHelpers.Walking.{next_entry-keeps, after_visit-keeps}
use fluxplane_system.FsHelpers.Walks.{refused-IsShown}
use fluxplane_system.FsHelpers.Ending.{
  under, Place, at_root, at_rel, Place-below, clean_fs_name-IsRootName,
}

-- What visits keep at the places where the walk comes, the walk keeps.
module _ {S : Type 0} {V : Type 0} (fs : FileSystem S) (s : S) (partial : Text → List DirEntry)
    (visit : Text → DirEntry → V → Signal × V) (Here : Text → Type 0) (P : V → Type 0)
    (keeps : (name : Text) (d : DirEntry) (v : V) → Here name → P v → P ((visit name d v).1))
    (deeper : (name : Text)
      → Here name
      → All (λ d. Here (path_join name d.name)) (listed (partial name) (fs.read_dir name s))) where
  entries-keep :
      (walk : Text → DirEntry → V → Signal × V) (name : Text) (dirs : List DirEntry)
      → All (λ d. (v : V) → P v → P ((walk (path_join name d.name) d v).1)) dirs
      → (v : V) → P v
      → P ((walk_entries walk name dirs v).1)
  unfolding walk_entries
  entries-keep walk name [] hs v h = h
  entries-keep walk name (d ∷ dirs) (k, ks) v h =
      next_entry-keeps P (walk (path_join name d.name) d v) (λ v1. walk_entries walk name dirs v1)
        (k v h) (λ v1 h1. entries-keep walk name dirs ks v1 h1)

  walk_dir-keep :
      (fuel : ℕ) (name : Text) (d : DirEntry) (v : V)
      → Here name
      → P v
      → P ((walk_dir fs s partial visit fuel name d v).1)
  unfolding walk_dir
  walk_dir-keep zero name d v here h = h
  walk_dir-keep (suc fuel) name d v here h =
      let dirs : List DirEntry = listed (partial name) (fs.read_dir name s) in
      after_visit-keeps P d.is_dir (visit name d v)
        (λ v1. walk_entries (walk_dir fs s partial visit fuel) name dirs v1) (keeps name d v here h)
        (entries-keep (walk_dir fs s partial visit fuel) name dirs (
          All-weaken (λ d1 below v2 h2. walk_dir-keep fuel (path_join name d1.name) d1 v2 below h2)
            dirs (deeper name here)))

  walk_root-keep :
      (fuel : ℕ) (root : Text) (v : V)
      → Here root
      → P v
      → P ((walk_root fs s partial visit fuel root v).1)
  unfolding walk_root
  walk_root-keep fuel root v here h = elim (Result-cases (fs.stat root s)) [
    | inr (_, e) ↦ rw (e, walk_root) h
    | inl (_, e) ↦ rw (e, walk_root) (walk_dir-keep fuel root _ v here h)
  ]

-- The path is that of a name below the root.
abbrev pub IsUnder : Text → Text → Type 0
IsUnder root path = (rel : Text) × IsName rel × (path ≡ under root rel)

abbrev AllUnder : Text → Walked → Type 0
AllUnder root v = All (λ e. IsUnder root e.path) v.entries

module _ (match : ElementMatch) (o : WalkOptions) (root : Text) (ctx : Checks)
    (more : EntryAnswers) where
  add_entry-AllUnder :
      (entry : FileInfo → WalkEntry) (r : Result FileInfo) (limit : ℕ) (v : Walked)
      → ((info : FileInfo) → IsUnder root ((entry info).path))
      → AllUnder root v
      → AllUnder root ((add_entry limit entry r v).1)
  unfolding add_entry
  add_entry-AllUnder entry r limit v below h = elim (Bool-cases (leb limit (length v.entries))) [
    | inl full ↦ rw (full, add_entry) h
    | inr room ↦ elim (Result-cases r) [
      | inr (_, failed) ↦ rw (room, add_entry) (rw failed h)
      | inl (info, given) ↦
          rw (room, add_entry)
            (rw given (
              All-append (λ e. IsUnder root e.path) v.entries (entry info ∷ []) h (below info, tt)))
    ]
  ]

  visited-IsUnder :
      (name : Text) (n : ℕ) → Place root name n → text_eq name root ≡ false → IsUnder root name
  visited-IsUnder _ _ at_root other = absurd (false≢true (sym other ∙ text_eq_self root))
  visited-IsUnder _ _ (at_rel rel h) other = (rel, h, refl)

  visit-AllUnder :
      (name : Text) (d : DirEntry) (v : Walked)
      → (n : ℕ) × Place root name n
      → AllUnder root v
      → AllUnder root ((visit match o root ctx more name d v).1)
  unfolding visit
  visit-AllUnder name d v (n, place) h = elim (Option-cases (ctx v.checks)) [
    | inr (e, asked) ↦ rw (asked, visit) h
    | inl live ↦ elim (Option-cases (refused match o root name d)) [
      | inr (signal, skipped) ↦ rw (live, visit) (rw skipped h)
      | inl taken ↦
          let other = (refused-IsShown match o root name d d.info taken).other in
          rw (live, visit)
            (rw taken (
              add_entry-AllUnder (walk_entry name d (level_of root name)) (more.info d)
                (limit_of 10000 1000 o.max_entries) v (λ _. visited-IsUnder name n place other) h))
    ]
  ]

module _ {S : Type 0} where
  -- Every entry that a walk returns lies below the root, at the root's path joined with a name of one
  -- or more elements, none of them empty, "." or "..", if the directories of the file system list
  -- only such names; also if the walk ends in an error.
  pub walk-IsUnder :
      (match : ElementMatch) (ctx : Checks) (more : EntryAnswers) (fs : FileSystem S)
      (name root : Text) (o : WalkOptions) (s : S) (r : Signal × Walked)
      → ((dir : Text) → All (λ d. IsName d.name) (listed (more.partial dir) (fs.read_dir dir s)))
      → clean_fs_name name ≡ ok root
      → walk match ctx more fs name o s ≡ ok r
      → All (λ e. IsUnder root e.path) r.1.entries
  unfolding walk
  walk-IsUnder match ctx more fs name root o s r names cleaned walked =
      let good = clean_fs_name-IsRootName name root cleaned in
      let start : Walked = record { entries = []; truncated = false; checks = 0 } in
      let returned = rw cleaned at walked in
      subst (λ w. AllUnder root w.1) (ok-injective returned)
        (walk_root-keep fs s more.partial (visit match o root ctx more)
          (λ p. (n : ℕ) × Place root p n) (AllUnder root) (visit-AllUnder match o root ctx more)
          (λ dir (n, place).
            All-weaken
              (λ d h. let (m, _, below) = Place-below root dir d.name n good h place in (m, below))
              (listed (more.partial dir) (fs.read_dir dir s)) (names dir))
          (suc (suc (depth_of o))) root start (0, at_root) tt)
