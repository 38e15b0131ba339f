-- ===== src/HostFiles/Scratch.antt =====
-- host_file_ops.go: copies of regular files, and the scratch directories. A scratch directory is its
-- root; a nil one is left out.
use fluxplane_system.Prelude.{
  ℕ, ◌%◌, Bool, false, not, ◌||◌, [], ◌∷◌, ◌++◌, none, some, if◌then◌else◌, Option,
}
use fluxplane_system.GoText.{Text, codes, slash, text_eq, has_prefix, is_empty, trim_space}
use fluxplane_system.GoPath.{dot_dot, is_abs, path_clean, path_join, path_dir, path_base}
use fluxplane_system.System.{
  Error, is_a_directory, escapes_root, invalid_name, Result, ok, err, ◌>>=◌, Context, Bytes,
  Outcome, on_ok,
}
use fluxplane_system.HostFiles.{Os, path_within}
use fluxplane_system.HostFiles.Methods.{with_ok, live_context, absent, write_and_close}

pub record ScratchPath : Type 0 where
  pub input : Text
  pub abs : Text
  pub rel : Text

module _ {S : Type 0} (os : Os S) (root : Text) where
  -- `ResolveCreate` from the joined path on, with the trimmed input.
  unfoldable pub scratch_place : Text → Text → S → Result ScratchPath
  unfolding path_within
  scratch_place abs raw s = os.eval_symlinks (path_dir abs) s >>= λ parent.
      elim (path_within os root (path_join parent (path_base abs))) [
        | err _ ↦ err escapes_root
        | ok _ ↦ os.rel root (path_join parent (path_base abs)) >>= λ rel.
            ok (record { input = raw; abs = path_join parent (path_base abs); rel = rel })
      ]

  abbrev pub leads_out : Text → Bool
  leads_out clean =
      is_abs clean || text_eq clean dot_dot || has_prefix (dot_dot ++ (slash ∷ [])) clean

  -- `ResolveCreate`
  unfoldable pub scratch_resolve : Text → S → Result ScratchPath
  unfolding scratch_place
  scratch_resolve raw s =
      if is_empty (trim_space root)
      then err invalid_name
      else if is_empty (trim_space raw)
      then err invalid_name
      else if leads_out (path_clean (trim_space raw))
      then err escapes_root
      else scratch_place (path_join root (path_clean (trim_space raw))) (trim_space raw) s

  -- `os.WriteFile`, in the order of its calls.
  unfoldable pub write_path : Text → Bytes → ℕ → S → Outcome S (Unit {0})
  unfolding write_and_close
  write_path path content mode s =
      on_ok (os.open_write path false mode s)
        (λ _ s1. on_ok (write_and_close os path content s1) (λ _ s2. (ok tt, s2)))

  -- `HostScratchDir.WriteFile`, whose path is also returned with an error of the write.
  unfoldable pub scratch_write : Context → Text → Bytes → ℕ → S → Outcome S ScratchPath
  unfolding scratch_resolve write_path
  scratch_write ctx raw content mode s = with_ok (live_context ctx) s (λ _.
      with_ok (scratch_resolve raw s) s (λ resolved.
        on_ok (os.mkdir_all (path_dir resolved.abs) 0o755 s)
          (λ _ s1. on_ok (write_path resolved.abs content mode s1) (λ _ s2. (ok resolved, s2)))))

  -- `RemoveAll`
  unfoldable pub scratch_remove_all : S → Outcome S (Unit {0})
  unfolding is_empty
  scratch_remove_all s = if is_empty root then (ok tt, s) else os.remove_all root s

module _ {S : Type 0} (os : Os S) where
  -- `NewHostScratchDir`, which gives its root.
  unfoldable pub new_scratch : Text → Text → S → Outcome S Text
  unfolding is_empty trim_space
  new_scratch base prefix s =
      on_ok
        (os.mkdir_temp base (if is_empty (trim_space prefix) then codes "fluxplane-*" else prefix)
          s)
        (λ dir s1. elim (os.eval_symlinks dir s1) [
          | err e ↦ (err e, (os.remove_all dir s1).1)
          | ok real ↦ (ok real, s1)
        ])

  -- `CopyRegularFile`: what is copied is read when the destination is open. A failed read shows after
  -- what was read is written; the number of bytes that comes with an error is left out.
  unfoldable pub copy_regular_file : Text → Text → Bool → S → Outcome S ℕ
  unfolding absent path_clean path_dir write_and_close text_eq
  copy_regular_file src dst overwrite s = with_ok (os.stat src s) s (λ info.
      if info.is_dir
      then (err is_a_directory, s)
      else if text_eq (path_clean src) (path_clean dst)
      then (ok info.size, s)
      else with_ok (absent os overwrite dst s) s (λ _.
        on_ok (os.mkdir_all (path_dir dst) 0o755 s) (λ _ s1.
          with_ok (os.open_file src s1) s1 (λ file.
            on_ok (os.open_write dst (not overwrite) (info.mode % 0o1000) s1)
              (λ _ s2. copied file.failure (write_and_close os dst file.content s2))))))
    where
      copied : Option Error → Outcome S ℕ → Outcome S ℕ
      copied none r = r
      copied (some e) (ok _, s3) = (err e, s3)
      copied (some e) (err f, s3) = (err f, s3)
