-- ===== src/FsHelpers/WalkDir.antt =====
-- `fs.WalkDir` of the standard library, for visits that change a state. A listing that fails may have
-- some entries nevertheless: the visits of the source do nothing when they are told of a failure, and
-- the walk goes on with those entries.
use fluxplane_system.Prelude.{ℕ, zero, suc, Bool, true, List, [], ◌∷◌}
use fluxplane_system.GoText.{Text}
use fluxplane_system.GoPath.{path_join}
use fluxplane_system.System.{Error, Result, ok, err, DirEntry, FileSystem, mode_type}
use Prim.Native.Nat.{bit_and}

-- What a visit says to `fs.WalkDir`. The last one is no answer of the program: the fuel of the model
-- is spent.
pub data Signal : Type 0 where
  keep_going skip_dir skip_all : Signal
  stop : Error → Signal
  out_of_fuel : Signal

-- `fs.ReadDir`, with the entries that it returns beside an error.
abbrev pub listed : List DirEntry → Result (List DirEntry) → List DirEntry
listed partial (ok dirs) = dirs
listed partial (err _) = partial

-- What the loop does after an entry.
abbrev pub next_entry : {V : Type 0} → Signal × V → (V → Signal × V) → Signal × V
next_entry (keep_going, v) loop = loop v
next_entry (skip_dir, v) loop = (keep_going, v)
next_entry (skip_all, v) loop = (skip_all, v)
next_entry (stop e, v) loop = (stop e, v)
next_entry (out_of_fuel, v) loop = (out_of_fuel, v)

-- The loop over the entries of a directory, with the walk of one of them.
unfoldable pub walk_entries :
    {V : Type 0} → (Text → DirEntry → V → Signal × V) → Text → List DirEntry → V → Signal × V
unfolding path_join
walk_entries walk name [] v = (keep_going, v)
walk_entries walk name (d ∷ dirs) v =
    next_entry (walk (path_join name d.name) d v) (λ v1. walk_entries walk name dirs v1)

-- What follows a visit: of what is no directory nothing, of a directory the entries.
abbrev pub after_visit : {V : Type 0} → Bool → Signal × V → (V → Signal × V) → Signal × V
after_visit true (keep_going, v) below = below v
after_visit true (skip_dir, v) below = (keep_going, v)
after_visit _ answer below = answer

module _ {S : Type 0} {V : Type 0} (fs : FileSystem S) (s : S)
    (partial : Text → List DirEntry) where
  -- `walkDir` of io/fs; the visit comes first.
  unfoldable pub walk_dir :
      (Text → DirEntry → V → Signal × V) → ℕ → Text → DirEntry → V → Signal × V
  unfolding walk_entries
  walk_dir visit zero name d v = (out_of_fuel, v)
  walk_dir visit (suc fuel) name d v = after_visit d.is_dir (visit name d v) (λ v1.
      walk_entries (walk_dir visit fuel) name (listed (partial name) (fs.read_dir name s)) v1)

  -- `fs.WalkDir`, with `fs.FileInfoToDirEntry`.
  unfoldable pub walk_root : (Text → DirEntry → V → Signal × V) → ℕ → Text → V → Signal × V
  unfolding walk_dir
  walk_root visit fuel root v = elim (fs.stat root s) [
    | err e ↦ (keep_going, v)
    | ok info ↦
        walk_dir visit fuel root
          (record {
            name = info.name;
            is_dir = info.is_dir;
            kind = bit_and info.mode mode_type;
            info = info;
          })
          v
  ]
