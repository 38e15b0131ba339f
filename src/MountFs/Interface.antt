-- ===== src/MountFs/Interface.antt =====
-- memsystem/filesystem.go and mountfs/mountfs.go: a law of the interface `FileSystem`.
use fluxplane_system.Prelude.{◌≡◌, ◌∙◌, false, Bool-cases, inl, inr}
use fluxplane_system.GoText.{Text}
use fluxplane_system.System.{
  ok, Context, Bytes, WriteFileOptions, FileSystem, Result-cases, >>=-eq-ok, guard-eq-ok,
  read_only as denied,
}
use fluxplane_system.MemSystem.{mem_file_system}
use fluxplane_system.MemSystem.Files.{read_file-write_file}
use fluxplane_system.MountFs.Roots.{Resolved, Mount, is_virtual_root, can_write}
use fluxplane_system.MountFs.Resolve.{resolve}
use fluxplane_system.MountFs.Methods.{writable, write_file, read_file, mounted}

-- What `WriteFile` stored, `ReadFile` of the same name returns.
pub record ReadsBack {S : Type 0} (fs : FileSystem S) : Type 0 where
  pub reads_back :
      (ctx : Context) (name : Text) (content : Bytes) (opts : WriteFileOptions) (s : S)
      → (fs.write_file ctx name content opts s).0 ≡ ok tt
      → fs.read_file name (fs.write_file ctx name content opts s).1 ≡ ok content

pub mem_file_system-ReadsBack : ReadsBack mem_file_system
unfolding mem_file_system
mem_file_system-ReadsBack = record { reads_back = read_file-write_file }

module _ {S : Type 0} (m : Mount S) (law : ReadsBack m.base) where
  through :
      (ctx : Context) (name : Text) (content : Bytes) (opts : WriteFileOptions) (s : S)
      (r : Resolved)
      → is_virtual_root name ≡ false
      → resolve name m ≡ ok r
      → (m.base.write_file ctx r.path content opts s).0 ≡ ok tt
      → read_file m name (m.base.write_file ctx r.path content opts s).1 ≡ ok content
  unfolding read_file
  through ctx name content opts s r real e h =
      rw real (rw e (law.reads_back ctx r.path content opts s h))

  writable_ok : (name : Text) (r : Resolved) → writable name m ≡ ok r → resolve name m ≡ ok r
  unfolding writable
  writable_ok name r h =
      let (r', e, h₁) = >>=-eq-ok (resolve name m) _ h in
      let (_, same) = guard-eq-ok (can_write r'.root.access) denied (ok r') h₁ in e ∙ same

  mounted_reads_back :
      (ctx : Context) (name : Text) (content : Bytes) (opts : WriteFileOptions) (s : S)
      → (write_file m ctx name content opts s).0 ≡ ok tt
      → read_file m name (write_file m ctx name content opts s).1 ≡ ok content
  unfolding write_file
  mounted_reads_back ctx name content opts s h = elim (Bool-cases (is_virtual_root name)) [
    | inl top ↦ absurd (let h' = rw top at h in cc)
    | inr real ↦ elim (Result-cases (writable name m)) [
      | inr (x, e) ↦ absurd (let h' = rw (real, e) at h in cc)
      | inl (r, e) ↦
          rw (real, e)
            (through ctx name content opts s r real (writable_ok name r e) (rw (real, e) at h))
    ]
  ]

-- A file system that mounts roots over a base where a written file reads back meets the same law:
-- for every name, the virtual root and every error included.
pub mounted-ReadsBack : {S : Type 0} (m : Mount S) → ReadsBack m.base → ReadsBack (mounted m)
unfolding mounted
mounted-ReadsBack m law = record { reads_back = mounted_reads_back m law }
