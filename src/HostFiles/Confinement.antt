-- ===== src/HostFiles/Confinement.antt =====
-- host_paths.go: the paths that names are resolved to.
use fluxplane_system.Prelude.{
  ℕ, zero, suc, ◌+◌, ◌<◌, ◌||◌, arith, ◌≡◌, refl, ◌∙◌, ap, subst, Bool, true, false, not, List, [],
  ◌∷◌, ◌++◌, if◌then◌else◌, Bool-cases, inl, inr,
}
use fluxplane_system.GoText.{Text, text_eq}
use fluxplane_system.GoPath.{path_dir, path_base}
use fluxplane_system.GoPath.Below.{StaysBelow, tests-StaysBelow}
use fluxplane_system.System.{
  Error, escapes_root, ok, err, ◌>>=◌, >>=-eq-ok, ok-injective, Result-cases, Unit-eq,
}
use fluxplane_system.HostFiles.{
  Os, is_not_exist, rel_path_escapes, path_within, real_root_or_self, join_missing, find_parent,
  resolve_existing_under_root, resolve_create_under_root,
}

if_same :
    {A : Type 0} (test : Bool) (x : A) {a b : A}
    → a ≡ b
    → (if test then x else a) ≡ (if test then x else b)
if_same true x e = refl
if_same false x e = e

module _ {S : Type 0} (os : Os S) where
  abbrev pub IsInside : Text → Text → Type 0
  IsInside root path = path_within os root path ≡ ok tt

  -- The search for an ancestor that exists comes to this path, past names that are missing, the
  -- deepest first.
  pub data Ascends (s : S) (candidate : Text) : Text → List Text → Type 0 where
    start : Ascends s candidate candidate []
    up :
        {parent : Text} {missing : List Text} (failure : Error)
        → Ascends s candidate parent missing
        → os.lstat parent s ≡ err failure
        → is_not_exist failure ≡ true
        → Ascends s candidate (path_dir parent) (missing ++ (path_base parent ∷ []))

  -- The path has no links: it is what the links of an ancestor of some path lead to, with the names
  -- joined to it that are missing below that ancestor. Relative to the root it stays below it.
  pub record IsResolved (root path : Text) (s : S) : Type 0 where
    pub candidate : Text
    pub existing : Text
    pub missing : List Text
    pub real : Text
    pub ascends : Ascends s candidate existing missing
    pub links : os.eval_symlinks existing s ≡ ok real
    pub joined : path ≡ join_missing os real missing
    pub rel : Text
    pub relative : os.rel root path ≡ ok rel
    pub below : StaysBelow rel

  path_within-StaysBelow :
      (root path : Text)
      → IsInside root path
      → (rel : Text) × (os.rel root path ≡ ok rel) × StaysBelow rel
  unfolding path_within rel_path_escapes
  path_within-StaysBelow root path h = elim (Result-cases (os.rel root path)) [
    | inr (_, e) ↦ absurd (let h1 = rw (e, path_within) at h in cc)
    | inl (rel, e) ↦
        let h1 = rw (e, path_within) at h in
        elim (Bool-cases (rel_path_escapes rel)) [
          | inl bad ↦ absurd (let h2 = rw bad at h1 in cc)
          | inr good ↦ (rel, e, tests-StaysBelow rel good)
        ]
  ]

  checked-IsResolved :
      (root candidate existing real p : Text) (missing : List Text) (s : S)
      → Ascends s candidate existing missing
      → os.eval_symlinks existing s ≡ ok real
      → (path_within os root (join_missing os real missing) >>= λ _.
          ok (join_missing os real missing))
        ≡ ok p
      → IsResolved root p s
  checked-IsResolved root candidate existing real p missing s ascends links h =
      let path : Text = join_missing os real missing in
      let (unit, within, same) = >>=-eq-ok (path_within os root path) _ h in
      let (rel, relative, below) =
        path_within-StaysBelow root path (within ∙ ap ok (Unit-eq unit)) in
      subst (λ q. IsResolved root q s) (ok-injective same)
        (record {
          candidate = candidate;
          existing = existing;
          missing = missing;
          real = real;
          ascends = ascends;
          links = links;
          joined = refl;
          rel = rel;
          relative = relative;
          below = below;
        })

  pub resolve_existing_under_root-IsResolved :
      (root candidate p : Text) (s : S)
      → resolve_existing_under_root os root candidate s ≡ ok p
      → IsResolved (real_root_or_self os root s) p s
  unfolding resolve_existing_under_root
  resolve_existing_under_root-IsResolved root candidate p s h =
      let (real, links, h1) = >>=-eq-ok (os.eval_symlinks candidate s) _ h in
      checked-IsResolved (real_root_or_self os root s) candidate candidate real p [] s start links
        h1

  find_parent-IsResolved :
      (fuel : ℕ) (root candidate : Text) (missing : List Text) (parent p : Text) (s : S)
      → Ascends s candidate parent missing
      → find_parent os fuel root missing parent s ≡ ok p
      → IsResolved root p s
  unfolding find_parent
  find_parent-IsResolved zero root candidate missing parent p s way h = cc
  find_parent-IsResolved (suc fuel) root candidate missing parent p s way h =
      elim (Result-cases (os.lstat parent s)) [
        | inl (_, e) ↦
            let h1 = rw (e, find_parent) at h in
            let (real, links, h2) = >>=-eq-ok (os.eval_symlinks parent s) _ h1 in
            checked-IsResolved root candidate parent real p missing s way links h2
        | inr (failure, e) ↦
            let h1 = rw (e, find_parent) at h in
            elim (Bool-cases (not (is_not_exist failure))) [
              | inl other ↦ absurd (let h2 = rw other at h1 in cc)
              | inr missing_parent ↦
                  let h2 = rw missing_parent at h1 in
                  elim (Bool-cases (text_eq (path_dir parent) parent)) [
                    | inl top ↦ absurd (let h3 = rw top at h2 in cc)
                    | inr more ↦
                        find_parent-IsResolved fuel root candidate
                          (missing ++ (path_base parent ∷ [])) (path_dir parent) p s
                          (up failure way e (ground (arith, missing_parent))) (rw more at h2)
                  ]
            ]
      ]

  pub resolve_create_under_root-IsResolved :
      (fuel : ℕ) (root candidate p : Text) (s : S)
      → resolve_create_under_root os fuel root candidate s ≡ ok p
      → IsResolved (real_root_or_self os root s) p s
  unfolding resolve_create_under_root
  resolve_create_under_root-IsResolved fuel root candidate p s h =
      elim (Result-cases (os.lstat candidate s)) [
        | inl (_, e) ↦
            let h1 = rw (e, resolve_create_under_root) at h in
            let (real, links, h2) = >>=-eq-ok (os.eval_symlinks candidate s) _ h1 in
            checked-IsResolved (real_root_or_self os root s) candidate candidate real p [] s start
              links h2
        | inr (failure, e) ↦
            let h1 = rw (e, resolve_create_under_root) at h in
            elim (Bool-cases (not (is_not_exist failure))) [
              | inl other ↦ absurd (let h2 = rw other at h1 in cc)
              | inr absent_path ↦
                  find_parent-IsResolved fuel (real_root_or_self os root s) candidate
                    (path_base candidate ∷ []) (path_dir candidate) p s
                    (up failure start e (ground (arith, absent_path))) (rw absent_path at h1)
            ]
      ]

  -- The search ends at this parent: it exists, it cannot be looked at, or it is the topmost one.
  abbrev pub ends_at : Text → S → Bool
  ends_at parent s = elim (os.lstat parent s) [
    | ok _ ↦ true
    | err e ↦ not (is_not_exist e) || text_eq (path_dir parent) parent
  ]

  abbrev pub ancestor : ℕ → Text → Text
  ancestor zero path = path
  ancestor (suc k) path = ancestor k (path_dir path)

  find_parent-enough :
      (k a b : ℕ) (root : Text) (missing : List Text) (parent : Text) (s : S)
      → k < a
      → k < b
      → ends_at (ancestor k parent) s ≡ true
      → find_parent os a root missing parent s ≡ find_parent os b root missing parent s
  unfolding find_parent
  find_parent-enough k zero b root missing parent s la lb h = absurd (omega arith)
  find_parent-enough k (suc a) zero root missing parent s la lb h = absurd (omega arith)
  find_parent-enough zero (suc a) (suc b) root missing parent s la lb h =
      elim (Result-cases (os.lstat parent s)) [
        | inl (_, e) ↦ rw (e, find_parent) refl
        | inr (failure, e) ↦
            let h1 = rw (e, ends_at) at h in
            elim (Bool-cases (not (is_not_exist failure))) [
              | inl other ↦ rw (e, find_parent) (rw other refl)
              | inr missing_parent ↦
                  let top = rw missing_parent at h1 in
                  rw (e, find_parent) (rw missing_parent (rw top refl))
            ]
      ]
  find_parent-enough (suc k) (suc a) (suc b) root missing parent s la lb h =
      elim (Result-cases (os.lstat parent s)) [
        | inl (_, e) ↦ rw (e, find_parent) refl
        | inr (failure, e) ↦
            rw (e, find_parent)
              (if_same (not (is_not_exist failure)) (err failure) (
                if_same (text_eq (path_dir parent) parent) (err escapes_root) (
                  find_parent-enough k a b root (missing ++ (path_base parent ∷ []))
                    (path_dir parent) s (omega arith) (omega arith) h)))
      ]

  -- The search for the deepest directory that exists takes one step for each parent it looks at: if
  -- the k-th parent of a candidate exists, cannot be looked at, or is the topmost one, then any fuel
  -- above k gives the result that k + 1 gives.
  pub resolve_create_under_root-enough :
      (k fuel : ℕ) (root candidate : Text) (s : S)
      → k < fuel
      → ends_at (ancestor k (path_dir candidate)) s ≡ true
      → resolve_create_under_root os fuel root candidate s
        ≡ resolve_create_under_root os (k + 1) root candidate s
  unfolding resolve_create_under_root
  resolve_create_under_root-enough k fuel root candidate s less h =
      elim (Result-cases (os.lstat candidate s)) [
        | inl (_, e) ↦ rw (e, resolve_create_under_root) refl
        | inr (failure, e) ↦
            rw (e, resolve_create_under_root)
              (if_same (not (is_not_exist failure)) (err failure) (
                find_parent-enough k fuel (k + 1) (real_root_or_self os root s)
                  (path_base candidate ∷ []) (path_dir candidate) s less (omega arith) h))
      ]
