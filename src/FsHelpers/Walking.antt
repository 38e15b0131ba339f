-- ===== src/FsHelpers/Walking.antt =====
-- fs_helpers.go: inductions over the visits of a walk.
use fluxplane_system.Prelude.{
  ℕ, zero, suc, ◌+◌, ◌≤◌, ◌<◌, ◌≡◌, ◌≢◌, refl, Bool, true, false, List, [], ◌∷◌, arith, inl, inr,
  All, All-weaken,
}
use fluxplane_system.GoText.{Text}
use fluxplane_system.GoPath.{path_join}
use fluxplane_system.System.{Result-cases, DirEntry, FileSystem}
use fluxplane_system.FsHelpers.WalkDir.{
  Signal, keep_going, skip_dir, skip_all, stop, out_of_fuel, next_entry, after_visit, walk_entries,
  walk_dir, walk_root, listed,
}

module _ {V : Type 0} (P : V → Type 0) where
  pub next_entry-keeps :
      (r : Signal × V) (loop : V → Signal × V)
      → P r.1
      → ((v : V) → P v → P ((loop v).1))
      → P ((next_entry r loop).1)
  next_entry-keeps (keep_going, v) loop h keeps = keeps v h
  next_entry-keeps (skip_dir, v) loop h keeps = h
  next_entry-keeps (skip_all, v) loop h keeps = h
  next_entry-keeps (stop e, v) loop h keeps = h
  next_entry-keeps (out_of_fuel, v) loop h keeps = h

  pub after_visit-keeps :
      (dir : Bool) (r : Signal × V) (below : V → Signal × V)
      → P r.1
      → ((v : V) → P v → P ((below v).1))
      → P ((after_visit dir r below).1)
  after_visit-keeps true (keep_going, v) below h keeps = keeps v h
  after_visit-keeps true (skip_dir, v) below h keeps = h
  after_visit-keeps true (skip_all, v) below h keeps = h
  after_visit-keeps true (stop e, v) below h keeps = h
  after_visit-keeps true (out_of_fuel, v) below h keeps = h
  after_visit-keeps false r below h keeps = h

  walk_entries-keeps :
      (walk : Text → DirEntry → V → Signal × V)
      → ((name : Text) (d : DirEntry) (v : V) → P v → P ((walk name d v).1))
      → (name : Text) (dirs : List DirEntry) (v : V) → P v
      → P ((walk_entries walk name dirs v).1)
  unfolding walk_entries
  walk_entries-keeps walk keeps name [] v h = h
  walk_entries-keeps walk keeps name (d ∷ dirs) v h =
      next_entry-keeps (walk (path_join name d.name) d v) (λ v1. walk_entries walk name dirs v1)
        (keeps (path_join name d.name) d v h)
        (λ v1 h1. walk_entries-keeps walk keeps name dirs v1 h1)

module _ {S : Type 0} {V : Type 0} (fs : FileSystem S) (s : S) (partial : Text → List DirEntry)
    (visit : Text → DirEntry → V → Signal × V) where
  module _ (P : V → Type 0)
      (keeps : (name : Text) (d : DirEntry) (v : V) → P v → P ((visit name d v).1)) where
    walk_dir-keeps :
        (fuel : ℕ) (name : Text) (d : DirEntry) (v : V)
        → P v
        → P ((walk_dir fs s partial visit fuel name d v).1)
    unfolding walk_dir
    walk_dir-keeps zero name d v h = h
    walk_dir-keeps (suc fuel) name d v h =
        after_visit-keeps P d.is_dir (visit name d v)
          (λ v1.
            walk_entries (walk_dir fs s partial visit fuel) name
              (listed (partial name) (fs.read_dir name s)) v1)
          (keeps name d v h)
          (walk_entries-keeps P (walk_dir fs s partial visit fuel) (walk_dir-keeps fuel) name
            (listed (partial name) (fs.read_dir name s)))

    pub walk_root-keeps :
        (fuel : ℕ) (root : Text) (v : V) → P v → P ((walk_root fs s partial visit fuel root v).1)
    unfolding walk_root
    walk_root-keeps fuel root v h = elim (Result-cases (fs.stat root s)) [
      | inr (_, e) ↦ rw (e, walk_root) h
      | inl (_, e) ↦ rw (e, walk_root) (walk_dir-keeps fuel root _ v h)
    ]

abbrev pub Ends : {V : Type 0} → Signal × V → Type 0
Ends r = r.0 ≢ out_of_fuel

next_entry-Ends :
    {V : Type 0} (r : Signal × V) (loop : V → Signal × V)
    → Ends r
    → ((v : V) → Ends (loop v))
    → Ends (next_entry r loop)
next_entry-Ends (keep_going, v) loop ends more = more v
next_entry-Ends (skip_dir, v) loop ends more = λ bad. cc
next_entry-Ends (skip_all, v) loop ends more = λ bad. cc
next_entry-Ends (stop e, v) loop ends more = λ bad. cc
next_entry-Ends (out_of_fuel, v) loop ends more = ends

after_visit-Ends :
    {V : Type 0} (dir : Bool) (r : Signal × V) (below : V → Signal × V)
    → Ends r
    → (r.0 ≡ keep_going → dir ≡ true → (v : V) → Ends (below v))
    → Ends (after_visit dir r below)
after_visit-Ends true (keep_going, v) below ends more = more refl refl v
after_visit-Ends true (skip_dir, v) below ends more = λ bad. cc
after_visit-Ends true (skip_all, v) below ends more = λ bad. cc
after_visit-Ends true (stop e, v) below ends more = λ bad. cc
after_visit-Ends true (out_of_fuel, v) below ends more = ends
after_visit-Ends false r below ends more = ends

walk_entries-Ends :
    {V : Type 0} (walk : Text → DirEntry → V → Signal × V) (name : Text) (dirs : List DirEntry)
    → All (λ d. (v : V) → Ends (walk (path_join name d.name) d v)) dirs
    → (v : V) → Ends (walk_entries walk name dirs v)
unfolding walk_entries
walk_entries-Ends walk name [] h v = λ bad. cc
walk_entries-Ends walk name (d ∷ dirs) (h, hs) v =
    next_entry-Ends (walk (path_join name d.name) d v) (λ v1. walk_entries walk name dirs v1) (h v)
      (λ v1. walk_entries-Ends walk name dirs hs v1)

-- The walk visits the entries of a directory only up to a level, and the level grows with each step:
-- the fuel lasts.
module _ {S : Type 0} {V : Type 0} (fs : FileSystem S) (s : S) (partial : Text → List DirEntry)
    (visit : Text → DirEntry → V → Signal × V) (Place : Text → ℕ → Type 0) (most : ℕ)
    (answers : (name : Text) (d : DirEntry) (v : V) → Ends (visit name d v))
    (bounded : (name : Text) (n : ℕ) (d : DirEntry) (v : V)
      → Place name n
      → (visit name d v).0 ≡ keep_going
      → d.is_dir ≡ true
      → n ≤ most)
    (deeper : (name : Text) (n : ℕ)
      → Place name n
      → All
          (λ d. (m : ℕ) × (n < m) × Place (path_join name d.name) m)
          (listed (partial name) (fs.read_dir name s))) where
  walk_dir-Ends :
      (fuel : ℕ) (name : Text) (n : ℕ) (d : DirEntry) (v : V)
      → Place name n
      → most + 1 < n + suc fuel
      → Ends (walk_dir fs s partial visit (suc fuel) name d v)
  unfolding walk_dir
  walk_dir-Ends zero name n d v place enough =
      after_visit-Ends d.is_dir (visit name d v)
        (λ v1.
          walk_entries (walk_dir fs s partial visit zero) name
            (listed (partial name) (fs.read_dir name s)) v1)
        (answers name d v)
        (λ going dir v1.
          absurd (let low : n ≤ most = bounded name n d v place going dir in omega arith))
  walk_dir-Ends (suc fuel) name n d v place enough =
      after_visit-Ends d.is_dir (visit name d v)
        (λ v1.
          walk_entries (walk_dir fs s partial visit (suc fuel)) name
            (listed (partial name) (fs.read_dir name s)) v1)
        (answers name d v)
        (λ _ _ v1.
          walk_entries-Ends (walk_dir fs s partial visit (suc fuel)) name
            (listed (partial name) (fs.read_dir name s))
            (All-weaken
              (λ d1 (m, more, below) v2.
                walk_dir-Ends fuel (path_join name d1.name) m d1 v2 below (omega arith))
              (listed (partial name) (fs.read_dir name s)) (deeper name n place))
            v1)

  pub walk_root-Ends :
      (root : Text) (v : V)
      → Place root 0
      → Ends (walk_root fs s partial visit (suc (suc most)) root v)
  unfolding walk_root
  walk_root-Ends root v place = elim (Result-cases (fs.stat root s)) [
    | inr (_, e) ↦ rw (e, walk_root) (λ bad. cc)
    | inl (_, e) ↦ rw (e, walk_root) (walk_dir-Ends (suc most) root 0 _ v place (omega arith))
  ]
