-- ===== src/MountFs/Visible.antt =====
-- mountfs/mountfs.go: `visibleName` and `resolve`.
use fluxplane_system.Prelude.{
  ◌≡◌, refl, ◌≢◌, sym, ap, subst, ◌∙◌, inl, inr, false, [], ◌∷◌, ◌++◌, arith, some, Bool-cases,
  append_assoc,
}
use fluxplane_system.GoText.{
  Text, codes, slash, backslash, text_eq, is_empty, is_space, has_prefix, trim_prefix, trim_space,
}
use fluxplane_system.GoText.Laws.{Lacks, Lacks-append, text_eq_iff, is_empty_iff}
use fluxplane_system.GoText.Trimming.{trim_space-append, trim-replace-Lacks, replace_all_of_Lacks}
use fluxplane_system.GoText.Splitting.{cut-append, cut_none}
use fluxplane_system.GoPath.{dot}
use fluxplane_system.GoPath.Laws.{
  IsName, IsName-ne-nil, IsName-ne-dot, IsName-is_abs, IsName-valid, path_clean_of_IsName,
}
use fluxplane_system.GoMap.{lookup}
use fluxplane_system.System.{ok}
use fluxplane_system.MountFs.Roots.{
  RootInfo, Resolved, Mount, clean_input, is_virtual_root, clean_relative, clean_visible_name,
}
use fluxplane_system.MountFs.Resolve.{primary, named_root, resolve_name, resolved_at, resolve}
use fluxplane_system.MountFs.Construction.{IsMounted}
use fluxplane_system.MountFs.Confinement.{IsFound, resolve_name_cases, resolve_ok}

clean_relative_self :
    (rel : Text) → IsName rel → clean_input rel ≡ rel → clean_relative rel ≡ ok rel
unfolding clean_relative
clean_relative_self rel name fixed = rw fixed (
    ground (
      arith,
      is_empty_iff rel,
      text_eq_iff rel dot,
      IsName-ne-nil rel name,
      IsName-ne-dot rel name,
      IsName-is_abs rel name,
      IsName-valid rel name,
      path_clean_of_IsName rel name,
    ))

not_virtual : (s : Text) → clean_input s ≡ s → s ≢ [] → s ≢ dot → is_virtual_root s ≡ false
unfolding is_virtual_root
not_virtual s fixed ne nd = rw fixed (ground (arith, is_empty_iff s, text_eq_iff s dot))

-- The two halves of `clean_input`, for a text that it leaves alone.
fixed_Lacks : (s : Text) → clean_input s ≡ s → Lacks backslash s
unfolding clean_input
fixed_Lacks s h = subst (Lacks backslash) h (trim-replace-Lacks backslash slash s (omega arith))

fixed_trim : (s : Text) → clean_input s ≡ s → trim_space s ≡ s
unfolding clean_input
fixed_trim s h = ap trim_space (sym (replace_all_of_Lacks backslash slash s (fixed_Lacks s h))) ∙ h

fixed_of : (s : Text) → Lacks backslash s → trim_space s ≡ s → clean_input s ≡ s
unfolding clean_input
fixed_of s plain h = ap trim_space (replace_all_of_Lacks backslash slash s plain) ∙ h

at_sign_trim :
    (s t : Text) → t ≢ [] → trim_space t ≡ t → trim_space (b'@' ∷ (s ++ t)) ≡ b'@' ∷ (s ++ t)
at_sign_trim s [] ne h = absurd (ne refl)
at_sign_trim s (c ∷ t) ne h = trim_space-append b'@' s c t (unfold is_space in refl) h

at_sign_fixed :
    (s t : Text)
    → Lacks backslash s
    → t ≢ []
    → clean_input t ≡ t
    → clean_input (b'@' ∷ (s ++ t)) ≡ b'@' ∷ (s ++ t)
at_sign_fixed s t plain ne h =
    fixed_of (b'@' ∷ (s ++ t))
      ((λ e. absurd (omega arith)), Lacks-append backslash s t plain (fixed_Lacks t h))
      (at_sign_trim s t ne (fixed_trim t h))

at_slash_fixed :
    (k rel : Text)
    → clean_input k ≡ k
    → rel ≢ []
    → clean_input rel ≡ rel
    → clean_input (b'@' ∷ (k ++ (slash ∷ rel))) ≡ b'@' ∷ (k ++ (slash ∷ rel))
at_slash_fixed k rel fixed ne fixed_rel =
    subst (λ s. clean_input (b'@' ∷ s) ≡ b'@' ∷ s) (append_assoc k (slash ∷ []) rel)
      (at_sign_fixed (k ++ (slash ∷ [])) rel
        (Lacks-append backslash k (slash ∷ []) (fixed_Lacks k fixed)
          ((λ e. absurd (omega arith)), tt))
        ne fixed_rel)

module _ {S : Type 0} (m : Mount S) where
  primary_again :
      (root : RootInfo) (rel : Text)
      → lookup [] m.roots ≡ some root
      → IsName rel
      → clean_input rel ≡ rel
      → has_prefix (codes "@") rel ≡ false
      → resolve_name rel m ≡ ok (root, rel)
  unfolding resolve_name primary
  primary_again root rel found name fixed plain = rw fixed (
      ground (
        arith,
        is_empty_iff rel,
        text_eq_iff rel dot,
        IsName-ne-nil rel name,
        IsName-ne-dot rel name,
        clean_relative_self rel name fixed,
      ))

  named_root_at :
      (k : Text) (root : RootInfo)
      → k ≢ []
      → lookup k m.roots ≡ some root
      → named_root k m ≡ ok root
  unfolding named_root
  named_root_at k root ne found = elim (Bool-cases (is_empty k)) [
    | inl empty ↦ absurd (ne ((is_empty_iff k).0 empty))
    | inr full ↦ rw full (rw (found, named_root) refl)
  ]

  mount_again :
      (k : Text) (root : RootInfo)
      → k ≢ []
      → Lacks slash k
      → clean_input k ≡ k
      → lookup k m.roots ≡ some root
      → resolve_name (b'@' ∷ k) m ≡ ok (root, [])
  unfolding resolve_name text_eq has_prefix trim_prefix is_empty
  mount_again k root ne plain fixed found =
      let mount_fixed : clean_input (b'@' ∷ k) ≡ b'@' ∷ k = at_sign_fixed [] k tt ne fixed in
      rw mount_fixed (
        rw (cut_none slash (b'@' ∷ k) ((λ e. absurd (omega arith)), plain))
          (rw (named_root_at k root ne found) refl))

  below_again :
      (k rel : Text) (root : RootInfo)
      → k ≢ []
      → Lacks slash k
      → clean_input k ≡ k
      → lookup k m.roots ≡ some root
      → IsName rel
      → clean_input rel ≡ rel
      → resolve_name (b'@' ∷ (k ++ (slash ∷ rel))) m ≡ ok (root, rel)
  unfolding resolve_name text_eq has_prefix trim_prefix is_empty
  below_again k rel root ne plain fixed found name fixed_rel =
      rw (at_slash_fixed k rel fixed (IsName-ne-nil rel name) fixed_rel) (
        rw (cut-append slash (b'@' ∷ k) rel ((λ e. absurd (omega arith)), plain))
          (rw (named_root_at k root ne found) (rw (clean_relative_self rel name fixed_rel) refl)))

  resolve_of_name :
      (name : Text) (root : RootInfo) (rel : Text)
      → is_virtual_root name ≡ false
      → resolve_name name m ≡ ok (root, rel)
      → resolve name m ≡ ok (resolved_at (root, rel))
  unfolding resolve
  resolve_of_name name root rel real e = rw real (rw e refl)

  visible_again :
      (raw : Text) (root : RootInfo) (rel : Text)
      → IsMounted m
      → IsFound raw m root rel
      → resolve_name (clean_visible_name root.name rel) m ≡ ok (root, rel)
  unfolding clean_visible_name
  visible_again raw root rel inv (inl (plain, found, name, same, fixed)) =
      let (named, _, _) = inv.sound [] root found in
      let shown : clean_visible_name root.name rel ≡ rel =
        ground (arith, is_empty_iff root.name, is_empty_iff rel, IsName-ne-nil rel name) in
      rw shown (
        primary_again root rel found name fixed
          (subst (λ x. has_prefix (codes "@") x ≡ false) (sym same) plain))
  visible_again raw root rel inv (inr (k, ne, found, is_rel)) =
      let (named, ir, _) = inv.sound k root found in
      elim ir.name [
        | inl empty ↦ absurd (ne (sym named ∙ empty))
        | inr (_, plain, fixed) ↦
            let here : lookup root.name m.roots ≡ some root =
              subst (λ j. lookup j m.roots ≡ some root) (sym named) found in
            let ne' : root.name ≢ [] = λ e. ne (sym named ∙ e) in
            elim is_rel [
              | inl top ↦
                  let shown : clean_visible_name root.name rel ≡ b'@' ∷ root.name =
                    ground (arith, is_empty_iff root.name, is_empty_iff rel) in
                  rw (shown, top) (mount_again root.name root ne' plain fixed here)
              | inr (name, fixed_rel) ↦
                  let shown : clean_visible_name root.name rel
                      ≡ b'@' ∷ (root.name ++ (slash ∷ rel)) =
                    ground
                      (arith, is_empty_iff root.name, is_empty_iff rel, IsName-ne-nil rel name) in
                  rw shown (below_again root.name rel root ne' plain fixed here name fixed_rel)
            ]
      ]

  at_sign_real : (s : Text) → clean_input (b'@' ∷ s) ≡ b'@' ∷ s → is_virtual_root (b'@' ∷ s) ≡ false
  at_sign_real s fixed = not_virtual (b'@' ∷ s) fixed (λ e. cc) (λ e. ground arith)

  visible_real :
      (raw : Text) (root : RootInfo) (rel : Text)
      → IsMounted m
      → IsFound raw m root rel
      → is_virtual_root (clean_visible_name root.name rel) ≡ false
  unfolding clean_visible_name
  visible_real raw root rel inv (inl (plain, found, name, same, fixed)) =
      let (named, _, _) = inv.sound [] root found in
      let shown : clean_visible_name root.name rel ≡ rel =
        ground (arith, is_empty_iff root.name, is_empty_iff rel, IsName-ne-nil rel name) in
      rw shown (not_virtual rel fixed (IsName-ne-nil rel name) (IsName-ne-dot rel name))
  visible_real raw root rel inv (inr (k, ne, found, is_rel)) =
      let (named, ir, _) = inv.sound k root found in
      elim ir.name [
        | inl empty ↦ absurd (ne (sym named ∙ empty))
        | inr (ne', plain, fixed) ↦ elim is_rel [
          | inl top ↦
              let shown : clean_visible_name root.name rel ≡ b'@' ∷ root.name =
                ground (arith, is_empty_iff root.name, is_empty_iff rel) in
              rw shown (at_sign_real root.name (at_sign_fixed [] root.name tt ne' fixed))
          | inr (name, fixed_rel) ↦
              let shown : clean_visible_name root.name rel ≡ b'@' ∷ (root.name ++ (slash ∷ rel)) =
                ground (arith, is_empty_iff root.name, is_empty_iff rel, IsName-ne-nil rel name) in
              rw shown (
                at_sign_real (root.name ++ (slash ∷ rel))
                  (at_slash_fixed root.name rel fixed (IsName-ne-nil rel name) fixed_rel))
        ]
      ]

-- A name that resolves gives a visible name that is not the virtual root's and resolves to the same
-- root, the same visible name and the same path.
pub resolve-visible :
    {S : Type 0} (m : Mount S) (raw : Text) (r : Resolved)
    → IsMounted m
    → is_virtual_root raw ≡ false
    → resolve raw m ≡ ok r
    → (is_virtual_root r.name ≡ false) × (resolve r.name m ≡ ok r)
unfolding resolved_at
resolve-visible m raw r inv real h =
    let (root, rel, e, same) = resolve_ok m raw r real h in
    let f = resolve_name_cases m raw root rel real e in
    subst (λ (x : Resolved). (is_virtual_root x.name ≡ false) × (resolve x.name m ≡ ok x)) same
      (
        visible_real m raw root rel inv f,
        resolve_of_name m (clean_visible_name root.name rel) root rel
            (visible_real m raw root rel inv f) (visible_again m raw root rel inv f),
      )
