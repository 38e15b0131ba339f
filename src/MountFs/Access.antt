-- ===== src/MountFs/Access.antt =====
-- mountfs/mountfs.go: the methods that change files, through names of roots without write access and
-- of the virtual root.
use fluxplane_system.Prelude.{◌≡◌, refl, false, Bool-cases, inl, inr}
use fluxplane_system.GoText.{Text}
use fluxplane_system.System.{
  ok, err, Context, Bytes, WriteFileOptions, WriteTempFileOptions, MkdirOptions, RenameOptions,
  read_only as denied,
}
use fluxplane_system.MountFs.Roots.{Resolved, Mount, is_virtual_root, can_write}
use fluxplane_system.MountFs.Resolve.{resolve}
use fluxplane_system.MountFs.Methods.{
  writable, write_file, write_temp_file, mkdir_all, remove, rename_ends, rename,
}

module _ {S : Type 0} (m : Mount S) (name : Text) where
  writable-denied :
      (r : Resolved)
      → resolve name m ≡ ok r
      → can_write r.root.access ≡ false
      → writable name m ≡ err denied
  unfolding writable
  writable-denied r e no_write = rw e (rw no_write refl)

  rename_denied_from :
      (r : Resolved) (other : Text) (o : Resolved)
      → resolve name m ≡ ok r
      → can_write r.root.access ≡ false
      → resolve other m ≡ ok o
      → rename_ends m name other ≡ err denied
  unfolding rename_ends
  rename_denied_from r other o e no_write e' = rw e (rw e' (rw no_write refl))

  rename_denied_to :
      (r : Resolved) (other : Text) (o : Resolved)
      → resolve name m ≡ ok r
      → can_write r.root.access ≡ false
      → resolve other m ≡ ok o
      → rename_ends m other name ≡ err denied
  unfolding rename_ends
  rename_denied_to r other o e no_write e' = rw e' (
      rw e (
        rw no_write (elim (Bool-cases (can_write o.root.access)) [
          | inl yes_write ↦ rw yes_write refl
          | inr no_other ↦ rw no_other refl
        ])))

-- Through a name that resolves to a root without write access, `WriteFile`, `WriteTempFile`,
-- `MkdirAll` and `Remove` are refused, and so is `Rename` from it or to it where the other name
-- resolves too; the base file system keeps its state.
pub read_only_unchanged :
    {S : Type 0} (m : Mount S) (name : Text) (r : Resolved) (other : Text) (o : Resolved)
    (ctx : Context) (pattern : Text) (content : Bytes) (wo : WriteFileOptions)
    (to : WriteTempFileOptions) (mo : MkdirOptions) (ro : RenameOptions) (s : S)
    → is_virtual_root name ≡ false
    → is_virtual_root other ≡ false
    → resolve name m ≡ ok r
    → resolve other m ≡ ok o
    → can_write r.root.access ≡ false
    → (write_file m ctx name content wo s ≡ (err denied, s))
      × (write_temp_file m ctx name pattern content to s ≡ (err denied, s))
      × (mkdir_all m ctx name mo s ≡ (err denied, s))
      × (remove m ctx name s ≡ (err denied, s))
      × (rename m ctx name other ro s ≡ (err denied, s))
      × (rename m ctx other name ro s ≡ (err denied, s))
unfolding write_file write_temp_file mkdir_all remove rename
read_only_unchanged m name r other o ctx pattern content wo to mo ro s real real' e e' no_write =
    let denied_here = writable-denied m name r e no_write in
    (
      rw real (rw denied_here refl),
      rw real (rw denied_here refl),
      rw real (rw denied_here refl),
      rw real (rw denied_here refl),
      rw real (rw real' (rw (rename_denied_from m name r other o e no_write e') refl)),
      rw real' (rw real (rw (rename_denied_to m name r other o e no_write e') refl)),
    )
