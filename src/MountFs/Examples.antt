-- ===== src/MountFs/Examples.antt =====
-- The theorems on the mounted file system at a concrete mount of the in-memory file system.
use fluxplane_system.Prelude.{◌≡◌, refl, true, false, ◌&&◌, List, [], ◌∷◌, none, some, leb}
use fluxplane_system.GoText.{Text, codes, slash, Unicode, text_eq, is_space}
use fluxplane_system.GoPath.{dot}
use fluxplane_system.GoPath.Laws.{IsName}
use fluxplane_system.GoMap.{lookup}
use fluxplane_system.System.{
  ok, err, Bytes, WriteFileOptions, WriteTempFileOptions, MkdirOptions, RenameOptions,
  read_only as denied,
}
use fluxplane_system.MemSystem.{mem_file_system}
use fluxplane_system.MemSystem.Nodes.{MemFs, new_file_system}
use fluxplane_system.MountFs.Roots.{
  read_only, read_write, Root, RootInfo, Resolved, Mount, new, is_virtual_root, clean_input,
  can_write, clean_relative,
}
use fluxplane_system.MountFs.Resolve.{resolve, resolve_name, resolved_at, primary, named_root}
use fluxplane_system.MountFs.Methods.{
  write_file, write_temp_file, mkdir_all, remove, rename, mounted,
}
use fluxplane_system.MountFs.Accepted.{AreTaken, AllDistinct}
use fluxplane_system.MountFs.Construction.{IsMounted, new-IsMounted}
use fluxplane_system.MountFs.Confinement.{IsWithin, resolve-IsWithin}
use fluxplane_system.MountFs.Visible.{resolve-visible}
use fluxplane_system.MountFs.Access.{read_only_unchanged}
use fluxplane_system.MountFs.Interface.{ReadsBack, mem_file_system-ReadsBack, mounted-ReadsBack}

abbrev ascii : Unicode
ascii = record { is_letter = λ c. leb 97 c && leb c 122; is_digit = λ c. leb 48 c && leb c 57 }

-- The primary root `srv`, open for writing, and a root `docs` for reading.
abbrev configured : List Root
configured =
    record { name = []; path = codes "srv"; access = read_write; scratch = false }
    ∷ record { name = codes "docs"; path = codes "share/docs"; access = read_only; scratch = false }
    ∷ []

abbrev srv : RootInfo
srv = record { name = []; path = codes "srv"; access = read_write; scratch = false }

abbrev docs : RootInfo
docs = record {
  name = codes "docs";
  path = codes "share/docs";
  access = read_only;
  scratch = false;
}

abbrev example_mount : Mount MemFs
example_mount = record {
  base = mem_file_system;
  roots = ([], srv) ∷ (codes "docs", docs) ∷ [];
  order = srv ∷ docs ∷ [];
}

abbrev guide : Resolved
guide = record { root = docs; name = codes "@docs/guide"; path = codes "share/docs/guide" }

abbrev main_file : Resolved
main_file = record { root = srv; name = codes "main"; path = codes "srv/main" }

abbrev guide_name : Text
guide_name = codes "@docs/guide"

abbrev main_name : Text
main_name = codes "main"

new-IsMounted_example :
    IsMounted example_mount
    × AreTaken configured example_mount.order
    × AllDistinct example_mount.order
    × (some mem_file_system ≡ some example_mount.base)
unfolding new
new-IsMounted_example = new-IsMounted ascii (some mem_file_system) configured example_mount refl

guide_resolves : resolve guide_name example_mount ≡ ok guide
unfolding resolve is_virtual_root resolve_name resolved_at primary named_root clean_relative
    clean_input fluxplane_system.GoText.cut fluxplane_system.GoText.has_prefix
    fluxplane_system.GoText.trim_prefix fluxplane_system.GoText.is_empty
    fluxplane_system.GoText.text_eq
guide_resolves = refl

main_resolves : resolve main_name example_mount ≡ ok main_file
unfolding resolve is_virtual_root resolve_name resolved_at primary named_root clean_relative
    clean_input fluxplane_system.GoText.cut fluxplane_system.GoText.has_prefix
    fluxplane_system.GoText.trim_prefix fluxplane_system.GoText.is_empty
    fluxplane_system.GoText.text_eq
main_resolves = refl

guide_real : is_virtual_root guide_name ≡ false
unfolding is_virtual_root
guide_real = refl

main_real : is_virtual_root main_name ≡ false
unfolding is_virtual_root
main_real = refl

docs_closed : can_write docs.access ≡ false
unfolding can_write
docs_closed = refl

example-IsMounted : IsMounted example_mount
unfolding new
example-IsMounted = (new-IsMounted ascii (some mem_file_system) configured example_mount refl).0

resolve-IsWithin_example :
    (lookup (codes "docs") example_mount.roots ≡ some docs)
    × IsWithin (codes "share/docs") (codes "share/docs/guide")
resolve-IsWithin_example =
    resolve-IsWithin example_mount guide_name guide example-IsMounted guide_real guide_resolves

resolve-visible_example :
    (is_virtual_root guide_name ≡ false) × (resolve guide_name example_mount ≡ ok guide)
resolve-visible_example =
    resolve-visible example_mount guide_name guide example-IsMounted guide_real guide_resolves

srv-IsName : IsName (codes "srv")
unfolding fluxplane_system.GoText.split_on fluxplane_system.GoPath.is_valid_element
srv-IsName = (refl, tt)

main-IsName : IsName main_name
unfolding fluxplane_system.GoText.split_on fluxplane_system.GoPath.is_valid_element
main-IsName = (refl, tt)

abbrev payload : Bytes
payload = 1 ∷ []

abbrev write_options : WriteFileOptions
write_options = record { perm = 0; overwrite = true }

abbrev temp_options : WriteTempFileOptions
temp_options = record { perm = 0 }

abbrev mkdir_options : MkdirOptions
mkdir_options = record { perm = 0 }

abbrev rename_options : RenameOptions
rename_options = record { overwrite = true }

read_only_unchanged_example :
    (write_file example_mount none guide_name payload write_options new_file_system
      ≡ (err denied, new_file_system))
    × (write_temp_file example_mount none guide_name
          (codes "t")
          payload
          temp_options
          new_file_system
        ≡ (err denied, new_file_system))
    × (mkdir_all example_mount none guide_name mkdir_options new_file_system
        ≡ (err denied, new_file_system))
    × (remove example_mount none guide_name new_file_system ≡ (err denied, new_file_system))
    × (rename example_mount none guide_name main_name rename_options new_file_system
        ≡ (err denied, new_file_system))
    × (rename example_mount none main_name guide_name rename_options new_file_system
        ≡ (err denied, new_file_system))
read_only_unchanged_example =
    read_only_unchanged example_mount guide_name guide main_name main_file none (codes "t") payload
      write_options temp_options mkdir_options rename_options new_file_system guide_real main_real
      guide_resolves main_resolves docs_closed

mounted-ReadsBack_example : ReadsBack (mounted example_mount)
mounted-ReadsBack_example = mounted-ReadsBack example_mount mem_file_system-ReadsBack
