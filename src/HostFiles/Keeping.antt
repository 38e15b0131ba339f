-- ===== src/HostFiles/Keeping.antt =====
-- hostsystem/filesystem.go: the methods that change files, and the paths at which they call the
-- operating system.
use fluxplane_system.Prelude.{ℕ, ◌≡◌, Bool}
use fluxplane_system.GoText.{Text}
use fluxplane_system.GoPath.{path_dir}
use fluxplane_system.System.{ok, Bytes}
use fluxplane_system.HostFiles.{Os, real_root_or_self}
use fluxplane_system.HostFiles.Methods.{mkdir_all, remove, rename}
use fluxplane_system.HostFiles.Confinement.{IsResolved}

-- The path was resolved, in a state in which `P` held, to one that has no links and stays below the
-- real root.
pub record IsPlaced {S : Type 0} (os : Os S) (real : Text) (P : S → Type 0) (path : Text)
    : Type 0 where
  pub before : S
  pub held : P before
  pub resolved : IsResolved os real path before

-- `P` holds on whatever the operating system does at resolved paths below the real root: to them, to
-- the directories above them when they are made, and to temporary files made in them, whose paths
-- have no links either. The real root stays what it is.
pub record IsKeptBelow {S : Type 0} (os : Os S) (root real : Text) (P : S → Type 0) : Type 0 where
  pub stable : (s : S) → P s → real_root_or_self os root s ≡ real
  pub makes :
      (path : Text) (perm : ℕ) (s : S)
      → IsPlaced os real P path
      → P s
      → P (os.mkdir_all path perm s).1
  pub makes_parent :
      (path : Text) (perm : ℕ) (s : S)
      → IsPlaced os real P path
      → P s
      → P (os.mkdir_all (path_dir path) perm s).1
  pub opens :
      (path : Text) (new : Bool) (perm : ℕ) (s : S)
      → IsPlaced os real P path
      → P s
      → P (os.open_write path new perm s).1
  pub writes :
      (path : Text) (content : Bytes) (s : S)
      → IsPlaced os real P path
      → P s
      → P (os.write path content s).1
  pub closes : (path : Text) (s : S) → IsPlaced os real P path → P s → P (os.close path s).1
  pub changes_mode :
      (path : Text) (perm : ℕ) (s : S) → IsPlaced os real P path → P s → P (os.chmod path perm s).1
  pub removes : (path : Text) (s : S) → IsPlaced os real P path → P s → P (os.remove path s).1
  pub renames :
      (a b : Text) (s : S)
      → IsPlaced os real P a
      → IsPlaced os real P b
      → P s
      → P (os.rename a b s).1
  pub makes_temp :
      (dir pattern : Text) (s : S)
      → IsPlaced os real P dir
      → P s
      → P (os.create_temp dir pattern s).1
  pub temp_inside :
      (dir pattern created : Text) (s : S)
      → IsPlaced os real P dir
      → (os.create_temp dir pattern s).0 ≡ ok created
      → IsPlaced os real P created
