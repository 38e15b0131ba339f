-- ===== src/HostFiles/Ancestor.antt =====
-- host_paths.go: the deepest common ancestor of two paths. Volumes are empty on Unix. The fuel bounds
-- the number of parents; the error that says that it is spent is none of the program's.
use fluxplane_system.Prelude.{
  ℕ, zero, suc, ◌≡◌, ◌⊎◌, inl, inr, subst, Bool, true, false, if◌then◌else◌, Bool-cases,
}
use fluxplane_system.GoText.{Text, text_eq}
use fluxplane_system.GoText.Laws.{text_eq_iff}
use fluxplane_system.GoPath.{path_clean, path_dir}
use fluxplane_system.System.{Result, ok, err, ok-injective, no_steps_left}
use fluxplane_system.HostFiles.{Os, rel_path_escapes}

module _ {S : Type 0} (os : Os S) where
  -- `filepath.Rel(a, b)` is there and does not lead out of `a`.
  abbrev pub reaches : Text → Text → Bool
  reaches a b = elim (os.rel a b) [
    | err _ ↦ false
    | ok rel ↦ if rel_path_escapes rel then false else true
  ]

  -- The loop over the parents, whose test comes first here as it does before the loop.
  unfoldable pub climb : ℕ → Text → Text → Result Text
  unfolding path_dir text_eq
  climb zero a b = err no_steps_left
  climb (suc fuel) a b =
      let above = climb fuel (path_dir a) b in
      if reaches a b then ok a else if text_eq (path_dir a) a then ok (path_dir a) else above

  -- `CommonPathAncestor`
  unfoldable pub common_path_ancestor : ℕ → Text → Text → Result Text
  unfolding climb path_clean
  common_path_ancestor fuel a b = climb fuel (path_clean a) (path_clean b)

  climb-reaches :
      (fuel : ℕ) (a b c : Text) → climb fuel a b ≡ ok c → (reaches c b ≡ true) ⊎ (path_dir c ≡ c)
  unfolding climb
  climb-reaches zero a b c h = cc
  climb-reaches (suc fuel) a b c h = elim (Bool-cases (reaches a b)) [
    | inl found ↦ inl (subst (λ x. reaches x b ≡ true) (ok-injective (rw found at h)) found)
    | inr out ↦
        let h1 = rw out at h in
        elim (Bool-cases (text_eq (path_dir a) a)) [
          | inl top ↦
              let same = ok-injective (rw top at h1) in
              let fixed : path_dir a ≡ a = (text_eq_iff (path_dir a) a).0 top in
              inr (subst (λ x. path_dir x ≡ x) same (rw fixed fixed))
          | inr more ↦ climb-reaches fuel (path_dir a) b c (rw more at h1)
        ]
  ]

  -- From the path that is returned the other one, cleaned, is reached without leaving it, or it is a
  -- topmost directory.
  pub common_path_ancestor-reaches :
      (fuel : ℕ) (a b c : Text)
      → common_path_ancestor fuel a b ≡ ok c
      → (reaches c (path_clean b) ≡ true) ⊎ (path_dir c ≡ c)
  unfolding common_path_ancestor
  common_path_ancestor-reaches fuel a b c h = climb-reaches fuel (path_clean a) (path_clean b) c h
