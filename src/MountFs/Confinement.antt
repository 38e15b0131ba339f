-- ===== src/MountFs/Confinement.antt =====
-- mountfs/mountfs.go: the paths that `resolve` gives.
use fluxplane_system.Prelude.{
  ◌≡◌, ◌≢◌, sym, ap, subst, ◌∙◌, ◌⊎◌, inl, inr, Bool, true, false, ◌||◌, false≢true, [], ◌∷◌, ◌++◌,
  arith, some, Bool-cases, Option-cases, if◌then◌else◌,
}
use fluxplane_system.GoText.{Text, codes, slash, text_eq, is_empty, has_prefix, trim_prefix, cut}
use fluxplane_system.GoText.Laws.{text_eq_iff, is_empty_iff}
use fluxplane_system.GoPath.{dot}
use fluxplane_system.GoPath.Laws.{IsName, IsName-ne-nil, path_join_of_IsName}
use fluxplane_system.GoMap.{lookup}
use fluxplane_system.System.{Result, ok, ◌>>=◌, >>=-eq-ok, ok-injective}
use fluxplane_system.MountFs.Roots.{
  RootInfo, Resolved, Mount, clean_input, is_virtual_root, clean_relative, join,
}
use fluxplane_system.MountFs.Resolve.{primary, named_root, resolve_name, resolved_at, resolve}
use fluxplane_system.MountFs.CleanNames.{clean_relative_cases, clean_input_idem}
use fluxplane_system.MountFs.Construction.{IsRootPath, IsRoot, IsMounted}

-- Nothing, or a valid name in the form that cleaning leaves.
abbrev pub IsRel : Text → Type 0
IsRel rel = (rel ≡ []) ⊎ (IsName rel × (clean_input rel ≡ rel))

-- The path is the root's, or the root's joined with a valid name.
abbrev pub IsWithin : Text → Text → Type 0
IsWithin root_path path =
    (path ≡ root_path)
    ⊎ ((rel : Text) × IsName rel
        × (((root_path ≡ dot) × (path ≡ rel))
            ⊎ ((root_path ≢ dot) × (path ≡ root_path ++ (slash ∷ rel)))))

-- How a name that is not the virtual root resolves: below the primary root, or behind @name.
abbrev pub IsFound : {S : Type 0} → Text → Mount S → RootInfo → Text → Type 0
IsFound raw m root rel =
    ((has_prefix (codes "@") (clean_input raw) ≡ false)
      × (lookup [] m.roots ≡ some root)
      × IsName rel
      × (rel ≡ clean_input raw)
      × (clean_input rel ≡ rel))
    ⊎ ((k : Text) × (k ≢ []) × (lookup k m.roots ≡ some root) × IsRel rel)

module _ {S : Type 0} (m : Mount S) where
  primary_ok : (root : RootInfo) → primary m ≡ ok root → lookup [] m.roots ≡ some root
  unfolding primary
  primary_ok root h = elim (Option-cases (lookup [] m.roots)) [
    | inl e ↦ absurd (let h' = rw (e, primary) at h in cc)
    | inr (r, e) ↦ e ∙ ap some (let h' = rw (e, primary) at h in cc)
  ]

  named_root_ok :
      (k : Text) (root : RootInfo)
      → named_root k m ≡ ok root
      → (k ≢ []) × (lookup k m.roots ≡ some root)
  unfolding named_root
  named_root_ok k root h = elim (Bool-cases (is_empty k)) [
    | inl empty ↦ absurd (let h' = rw empty at h in cc)
    | inr ne ↦ (
      λ e. false≢true (sym ne ∙ (is_empty_iff k).1 e),
      elim (Option-cases (lookup k m.roots)) [
        | inl e ↦ absurd (let h' = rw ne at h in let h'' = rw (e, named_root) at h' in cc)
        | inr (r, e) ↦ e ∙ ap some (let h' = rw ne at h in let h'' = rw (e, named_root) at h' in cc)
      ],
    )
  ]

  -- The two branches of `resolve` that look at a name.
  abbrev behind : Text → Text → Bool → Result (RootInfo × Text)
  behind k tail found = do
    r ← named_root k m
    if found then (do p ← clean_relative tail; ok (r, p)) else ok (r, [])

  abbrev in_primary : Text → Result (RootInfo × Text)
  in_primary name = do r ← primary m; p ← clean_relative name; ok (r, p)

  below_at :
      (raw : Text) (root : RootInfo) (rel k tail : Text) (found : Bool)
      → behind k tail found ≡ ok (root, rel)
      → IsFound raw m root rel
  below_at raw root rel k tail false h =
      let (r, named, h₁) = >>=-eq-ok (named_root k m) _ h in
      let same = ok-injective h₁ in
      let (ne, e) = named_root_ok k r named in
      inr (
        k,
        ne,
        e ∙ ap (λ (x : RootInfo × Text). some x.0) same,
        inl (sym (ap (λ (x : RootInfo × Text). x.1) same)),
      )
  below_at raw root rel k tail true h =
      let (r, named, h₁) = >>=-eq-ok (named_root k m) _ h in
      let (p, cleaned, h₂) = >>=-eq-ok (clean_relative tail) _ h₁ in
      let same = ok-injective h₂ in
      let (ne, e) = named_root_ok k r named in
      let is_rel : IsRel p = elim (clean_relative_cases tail p cleaned) [
        | inl (top, _) ↦ inl top
        | inr (name, _, fixed) ↦ inr (name, fixed)
      ] in
      inr (
        k,
        ne,
        e ∙ ap (λ (x : RootInfo × Text). some x.0) same,
        subst IsRel (ap (λ (x : RootInfo × Text). x.1) same) is_rel,
      )

  primary_at :
      (raw : Text) (root : RootInfo) (rel : Text)
      → (is_empty (clean_input raw) || text_eq (clean_input raw) dot) ≡ false
      → has_prefix (codes "@") (clean_input raw) ≡ false
      → in_primary (clean_input raw) ≡ ok (root, rel)
      → IsFound raw m root rel
  primary_at raw root rel real plain h =
      let (r, first, h₁) = >>=-eq-ok (primary m) _ h in
      let (p, cleaned, h₂) = >>=-eq-ok (clean_relative (clean_input raw)) _ h₁ in
      let same = ok-injective h₂ in
      let here = primary_ok r first ∙ ap (λ (x : RootInfo × Text). some x.0) same in
      elim (clean_relative_cases (clean_input raw) p cleaned) [
        | inl (top, bad) ↦ absurd (false≢true (sym real ∙ rw (clean_input_idem raw) at bad))
        | inr (name, trimmed, fixed) ↦
            let p_rel : p ≡ rel = ap (λ (x : RootInfo × Text). x.1) same in
            inl (
              plain,
              here,
              subst IsName p_rel name,
              sym p_rel ∙ trimmed ∙ clean_input_idem raw,
              subst (λ x. clean_input x ≡ x) p_rel fixed,
            )
      ]

  pub resolve_name_cases :
      (raw : Text) (root : RootInfo) (rel : Text)
      → is_virtual_root raw ≡ false
      → resolve_name raw m ≡ ok (root, rel)
      → IsFound raw m root rel
  unfolding resolve_name is_virtual_root
  resolve_name_cases raw root rel real h =
      let n = clean_input raw in
      let h₁ = rw real at h in
      elim (Bool-cases (has_prefix (codes "@") n)) [
        | inl at_sign ↦
            below_at raw root rel (trim_prefix (codes "@") (cut slash n).before) (cut slash n).after
              (cut slash n).found (rw at_sign at h₁)
        | inr plain ↦ primary_at raw root rel real plain (rw plain at h₁)
      ]

  -- The map of roots holds the root that was found, and the name below it is in cleaned form.
  pub found-IsRoot :
      (raw : Text) (root : RootInfo) (rel : Text)
      → IsMounted m
      → IsFound raw m root rel
      → (lookup root.name m.roots ≡ some root) × IsRoot root × IsRel rel
  found-IsRoot raw root rel inv (inl (_, e, name, _, fixed)) =
      let (named, ir, _) = inv.sound [] root e in
      (subst (λ k. lookup k m.roots ≡ some root) (sym named) e, ir, inr (name, fixed))
  found-IsRoot raw root rel inv (inr (k, ne, e, is_rel)) =
      let (named, ir, _) = inv.sound k root e in
      (subst (λ j. lookup j m.roots ≡ some root) (sym named) e, ir, is_rel)

  pub resolve_ok :
      (raw : Text) (r : Resolved)
      → is_virtual_root raw ≡ false
      → resolve raw m ≡ ok r
      → (root : RootInfo) × (rel : Text) × (resolve_name raw m ≡ ok (root, rel))
        × (resolved_at (root, rel) ≡ r)
  unfolding resolve
  resolve_ok raw r real h =
      let (found, e, same) = >>=-eq-ok (resolve_name raw m) _ (rw real at h) in
      (found.0, found.1, e, ok-injective same)

join-IsWithin :
    (root_path rel : Text)
    → IsRootPath root_path
    → IsRel rel
    → IsWithin root_path (join root_path rel)
unfolding join
join-IsWithin root_path rel p (inl top) = inl (ground (arith, is_empty_iff rel))
join-IsWithin root_path rel (inl at_dot) (inr (name, _)) = inr (
  rel,
  name,
  inl (at_dot, ground (arith, is_empty_iff rel, IsName-ne-nil rel name, text_eq_iff root_path dot)),
)
join-IsWithin root_path rel (inr below) (inr (name, _)) =
    elim (Bool-cases (text_eq root_path dot)) [
      | inl same ↦ inr (
        rel,
        name,
        inl (
          (text_eq_iff root_path dot).0 same,
          ground (arith, is_empty_iff rel, IsName-ne-nil rel name),
        ),
      )
      | inr other ↦ inr (
        rel,
        name,
        inr (
          (λ e. false≢true (sym other ∙ (text_eq_iff root_path dot).1 e)),
          ground (
            arith,
            is_empty_iff rel,
            IsName-ne-nil rel name,
            path_join_of_IsName root_path rel below name,
          ),
        ),
      )
    ]

-- Every visible name other than the virtual root's that resolves does so through a configured root,
-- to that root's path or to a valid name below it: no name escapes the roots.
pub resolve-IsWithin :
    {S : Type 0} (m : Mount S) (raw : Text) (r : Resolved)
    → IsMounted m
    → is_virtual_root raw ≡ false
    → resolve raw m ≡ ok r
    → (lookup r.root.name m.roots ≡ some r.root) × IsWithin r.root.path r.path
unfolding resolved_at
resolve-IsWithin m raw r inv real h =
    let (root, rel, e, same) = resolve_ok m raw r real h in
    let (found, ir, is_rel) =
      found-IsRoot m raw root rel inv (resolve_name_cases m raw root rel real e) in
    subst
      (λ (x : Resolved). (lookup x.root.name m.roots ≡ some x.root) × IsWithin x.root.path x.path)
      same (found, join-IsWithin root.path rel ir.path is_rel)
