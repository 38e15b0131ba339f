-- ===== src/HostFiles/ScratchLaws.antt =====
-- host_file_ops.go: the paths of a scratch directory.
use fluxplane_system.Prelude.{
  ◌≡◌, refl, ◌∙◌, ap, subst, Bool, true, false, inl, inr, ℕ, none, some, sym, if◌then◌else◌,
}
use fluxplane_system.GoText.{Text, is_empty, trim_space}
use fluxplane_system.GoPath.{path_clean, path_join, path_dir, path_base}
use fluxplane_system.System.{
  Error, not_exist, escapes_root, invalid_name, Result, ok, err, >>=-eq-ok, ok-injective,
  Result-cases, Unit-eq, Context, Bytes,
}
use fluxplane_system.HostFiles.{Os, path_within}
use fluxplane_system.HostFiles.Scratch.{
  ScratchPath, scratch_place, leads_out, scratch_resolve, scratch_write,
}
use fluxplane_system.HostFiles.Confinement.{IsInside}

let_through :
    {A : Type 0} (test : Bool) (e : Error) (r : Result A) {a : A}
    → (if test then err e else r) ≡ ok a
    → r ≡ ok a
let_through true e r h = cc
let_through false e r h = h

-- Either way it is an error.
error_anyway :
    {A : Type 0} (test : Bool) (e : Error) (r : Result A)
    → ((f : Error) × (r ≡ err f))
    → (f : Error) × ((if test then err e else r) ≡ err f)
error_anyway true e r h = (e, refl)
error_anyway false e r h = h

module _ {S : Type 0} (os : Os S) (root : Text) where
  abbrev joined : Text → Text
  joined raw = path_join root (path_clean (trim_space raw))

  place-IsInside :
      (abs raw : Text) (s : S) (r : ScratchPath)
      → scratch_place os root abs raw s ≡ ok r
      → (parent : Text) × (os.eval_symlinks (path_dir abs) s ≡ ok parent)
        × (r.abs ≡ path_join parent (path_base abs))
        × IsInside os root r.abs
  unfolding scratch_place
  place-IsInside abs raw s r h =
      let (parent, real, h1) = >>=-eq-ok (os.eval_symlinks (path_dir abs) s) _ h in
      elim (Result-cases (path_within os root (path_join parent (path_base abs)))) [
        | inr (_, out) ↦ absurd (let h2 = rw out at h1 in cc)
        | inl (unit, within) ↦
            let h2 = rw within at h1 in
            let (rel, _, made) = >>=-eq-ok (os.rel root (path_join parent (path_base abs))) _ h2 in
            let same : path_join parent (path_base abs) ≡ r.abs =
              ap (λ p. p.abs) (ok-injective made) in
            (parent, real, sym same, subst (IsInside os root) same (within ∙ ap ok (Unit-eq unit)))
      ]

  -- A path that `ResolveCreate` of a scratch directory returns lies below its root: its directory is
  -- free of links, and no text with "..", no absolute path and no link of a directory leads out.
  pub scratch_resolve-IsInside :
      (raw : Text) (s : S) (r : ScratchPath)
      → scratch_resolve os root raw s ≡ ok r
      → (parent : Text) × (os.eval_symlinks
            (path_dir (path_join root (path_clean (trim_space raw))))
            s
          ≡ ok parent)
        × (r.abs ≡ path_join parent (path_base (path_join root (path_clean (trim_space raw)))))
        × IsInside os root r.abs
  unfolding scratch_resolve
  scratch_resolve-IsInside raw s r h =
      let placed = scratch_place os root (joined raw) (trim_space raw) s in
      let clean = path_clean (trim_space raw) in
      let inner = if leads_out os root clean then err escapes_root else placed in
      let h1 =
        let_through (is_empty (trim_space root)) invalid_name
          (if is_empty (trim_space raw) then err invalid_name else inner) h in
      let h2 = let_through (is_empty (trim_space raw)) invalid_name inner h1 in
      let h3 = let_through (leads_out os root clean) escapes_root placed h2 in
      place-IsInside (joined raw) (trim_space raw) s r h3

  resolve_missing :
      (raw : Text) (s : S)
      → os.eval_symlinks (path_dir (joined raw)) s ≡ err not_exist
      → (e : Error) × (scratch_resolve os root raw s ≡ err e)
  unfolding scratch_resolve
  resolve_missing raw s h =
      let placed = scratch_place os root (joined raw) (trim_space raw) s in
      let clean = path_clean (trim_space raw) in
      let inner = if leads_out os root clean then err escapes_root else placed in
      error_anyway (is_empty (trim_space root)) invalid_name
        (if is_empty (trim_space raw) then err invalid_name else inner)
        (error_anyway (is_empty (trim_space raw)) invalid_name inner (
          error_anyway (leads_out os root clean) escapes_root placed
            (not_exist, rw (h, scratch_place) refl)))

  -- A file whose directory does not exist is not written: the call ends in an error before any
  -- directory is made, and leaves the files as they were.
  pub scratch_write-missing :
      (ctx : Context) (raw : Text) (content : Bytes) (mode : ℕ) (s : S)
      → os.eval_symlinks (path_dir (path_join root (path_clean (trim_space raw)))) s ≡ err not_exist
      → (e : Error) × (scratch_write os root ctx raw content mode s ≡ (err e, s))
  unfolding scratch_write
  scratch_write-missing (some e) raw content mode s h = (e, refl)
  scratch_write-missing none raw content mode s h =
      let (e, failed) = resolve_missing raw s h in (e, rw failed refl)
