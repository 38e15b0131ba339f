-- ===== src/EnvHelpers/Within.antt =====
-- env_helpers.go: the files that the patterns of env files resolve to.
use fluxplane_system.Prelude.{
  ◌≡◌, refl, true, false, not, List, [], ◌∷◌, Option, some, if_cases, All, All-append, ◌∙◌, ap,
  Bool-cases, inl, inr, ◌||◌,
}
use fluxplane_system.GoText.{text_eq, has_prefix}
use fluxplane_system.GoPath.{dot_dot, is_abs}
use fluxplane_system.GoPath.Below.{StaysBelow, tests-StaysBelow}
use fluxplane_system.GoText.{Text, is_empty, trim_space, sort_texts}
use fluxplane_system.System.{Error, Result, ok, err, ◌>>=◌, Result-cases, Unit-eq}
use fluxplane_system.EnvHelpers.Resolve.{
  Host, up, path_within, has_glob_meta, env_file_pattern, resolve_env_file, found, resolve_matches,
  resolve_pattern, resolve_env_files, is_not_exist,
}

-- A predicate on the value of a result that is no error.
abbrev pub Within : {A : Type 0} → (A → Type 0) → Result A → Type 0
Within P (ok a) = P a
Within P (err e) = Unit

Within-then :
    {A B : Type 0} (P : A → Type 0) (Q : B → Type 0) (r : Result A) (f : A → Result B)
    → Within P r
    → ((a : A) → P a → Within Q (f a))
    → Within Q (r >>= f)
Within-then P Q (ok a) f p h = h a p
Within-then P Q (err e) f p h = tt

module _ (host : Host) (root : Text) where
  -- The file is what the links of a path that is no directory lead to, and its path relative to the
  -- root stays below it.
  abbrev pub InRoot : Text → Type 0
  InRoot file =
      ((path : Text) × (host.stat path ≡ ok false) × (host.eval_symlinks path ≡ ok file))
      × ((rel : Text) × (host.rel root file ≡ ok rel) × StaysBelow rel)

  abbrev pub AllInRoot : List Text → Type 0
  AllInRoot files = All InRoot files

  abbrev FileInRoot : Option Text → Type 0
  FileInRoot file = AllInRoot (found file)

  path_within-StaysBelow :
      (file : Text)
      → path_within host root file ≡ ok tt
      → (rel : Text) × (host.rel root file ≡ ok rel) × StaysBelow rel
  unfolding path_within
  path_within-StaysBelow file h = elim (Result-cases (host.rel root file)) [
    | inr (_, e) ↦ absurd (let h1 = rw (e, path_within) at h in cc)
    | inl (rel, e) ↦
        let h1 = rw (e, path_within) at h in
        elim (Bool-cases (text_eq rel dot_dot || has_prefix up rel || is_abs rel)) [
          | inl bad ↦ absurd (let h2 = rw bad at h1 in cc)
          | inr good ↦ (rel, e, tests-StaysBelow rel good)
        ]
  ]

  checked-InRoot :
      (path real : Text) (r : Result (Unit {0}))
      → host.stat path ≡ ok false
      → host.eval_symlinks path ≡ ok real
      → path_within host root real ≡ r
      → Within FileInRoot (elim r [ err e ↦ err Error.escapes_root | ok _ ↦ ok (some real) ])
  checked-InRoot path real (err e) there links h = tt
  checked-InRoot path real (ok u) there links h =
      (((path, there, links), path_within-StaysBelow real (h ∙ ap ok (Unit-eq u))), tt)

  resolve_env_file-InRoot : (path : Text) → Within FileInRoot (resolve_env_file host root path)
  unfolding resolve_env_file
  resolve_env_file-InRoot path = elim (Result-cases (host.stat path)) [
    | inr (e, failed) ↦
        rw (failed, resolve_env_file)
          (if_cases (Within FileInRoot) (is_not_exist e) _ _ (λ _. tt) (λ _. tt))
    | inl (true, dir) ↦ rw (dir, resolve_env_file) tt
    | inl (false, there) ↦ elim (Result-cases (host.eval_symlinks path)) [
      | inr (_, failed) ↦ rw (there, resolve_env_file) (rw failed tt)
      | inl (real, links) ↦
          rw (there, resolve_env_file)
            (rw links (checked-InRoot path real (path_within host root real) there links refl))
    ]
  ]

  resolve_matches-InRoot : (paths : List Text) → Within AllInRoot (resolve_matches host root paths)
  unfolding resolve_matches
  resolve_matches-InRoot [] = tt
  resolve_matches-InRoot (path ∷ paths) =
      Within-then FileInRoot AllInRoot (resolve_env_file host root path) _
        (resolve_env_file-InRoot path)
        (λ file p.
          Within-then AllInRoot AllInRoot (resolve_matches host root paths) _
            (resolve_matches-InRoot paths) (λ files q. All-append InRoot (found file) files p q))

  resolve_pattern-InRoot : (pattern : Text) → Within AllInRoot (resolve_pattern host root pattern)
  unfolding resolve_pattern
  resolve_pattern-InRoot pattern =
      Within-then (λ _. Unit {0}) AllInRoot (env_file_pattern host root pattern) _
        (anything (env_file_pattern host root pattern))
        (λ full _.
          if_cases (Within AllInRoot) (not (has_glob_meta full)) _ _
            (λ _. resolve_matches-InRoot (full ∷ []))
            (λ _.
              Within-then (λ _. Unit {0}) AllInRoot (host.glob full) _ (anything (host.glob full))
                (λ matches _. resolve_matches-InRoot (sort_texts matches))))
    where
      anything : {A : Type 0} (r : Result A) → Within (λ _. Unit {0}) r
      anything (ok a) = tt
      anything (err e) = tt

  -- Every file that the patterns of env files resolve to is what the symbolic links of some path that
  -- is no directory lead to, and its path relative to the root is not `..`, does not begin with `../`
  -- and is not absolute, whatever the patterns say and the file system holds.
  pub resolve_env_files-InRoot :
      (patterns : List Text) → Within AllInRoot (resolve_env_files host root patterns)
  unfolding resolve_env_files
  resolve_env_files-InRoot [] = tt
  resolve_env_files-InRoot (raw ∷ patterns) =
      if_cases (Within AllInRoot) (is_empty (trim_space raw)) _ _
        (λ _. resolve_env_files-InRoot patterns)
        (λ _.
          Within-then AllInRoot AllInRoot (resolve_pattern host root (trim_space raw)) _
            (resolve_pattern-InRoot (trim_space raw))
            (λ files p.
              Within-then AllInRoot AllInRoot (resolve_env_files host root patterns) _
                (resolve_env_files-InRoot patterns) (λ more q. All-append InRoot files more p q)))
