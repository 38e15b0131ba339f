-- ===== src/MountFs/Relative.antt =====
-- mountfs/mountfs.go: `relativeUnder` and `join`, which `WriteTempFile` uses to name what the base
-- file system created.
use fluxplane_system.Prelude.{
  ℕ, ◌≡◌, refl, ◌≢◌, ap, subst, ◌⊎◌, inl, inr, [], ◌∷◌, ◌++◌, arith, Bool-cases, append_assoc,
  length, length-append, ◌==◌, ==_iff,
}
use fluxplane_system.GoText.{Text, slash, text_eq, trim_suffix_char}
use fluxplane_system.GoText.Laws.{
  text_eq_iff, text_eq_ne, text_eq_self, is_empty_iff, has_prefix-append, trim_prefix-append,
}
use fluxplane_system.GoPath.{dot, path_clean}
use fluxplane_system.GoPath.Laws.{
  IsName, IsName-ne-nil, IsName-ne-dot, IsName-append, IsName-append_right, path_clean_of_IsName,
  path_join_of_IsName,
}
use fluxplane_system.System.{ok}
use fluxplane_system.MountFs.Roots.{join, relative_under}
use fluxplane_system.MountFs.Construction.{IsRootPath}

trim_suffix_cases :
    (c : ℕ) (s : Text) → (trim_suffix_char c s ≡ s) ⊎ ((b : Text) × (s ≡ b ++ (c ∷ [])))
unfolding trim_suffix_char
trim_suffix_cases c [] = inl refl
trim_suffix_cases c (x ∷ []) = elim (Bool-cases (x == c)) [
  | inl e ↦ inr ([], ap (λ t. t ∷ []) ((==_iff x c).0 e))
  | inr e ↦ inl (rw e refl)
]
trim_suffix_cases c (x ∷ y ∷ s) = elim (trim_suffix_cases c (y ∷ s)) [
  | inl e ↦ inl (ap (λ t. x ∷ t) e)
  | inr (b, e) ↦ inr (x ∷ b, ap (λ t. x ∷ t) e)
]

trim_suffix_of_IsName : (a : Text) → IsName a → trim_suffix_char slash a ≡ a
trim_suffix_of_IsName a name = elim (trim_suffix_cases slash a) [
  | inl e ↦ e
  | inr (b, e) ↦ absurd (IsName-ne-nil [] (IsName-append_right b [] (subst IsName e name)) refl)
]

join_below :
    (root_path rel : Text)
    → IsName root_path
    → IsName rel
    → join root_path rel ≡ root_path ++ (slash ∷ rel)
unfolding join
join_below root_path rel below name = ground (
  arith,
  is_empty_iff rel,
  IsName-ne-nil rel name,
  text_eq_iff root_path dot,
  IsName-ne-dot root_path below,
  path_join_of_IsName root_path rel below name,
)

join_at_dot : (rel : Text) → IsName rel → join dot rel ≡ rel
unfolding join
join_at_dot rel name = ground (arith, is_empty_iff rel, IsName-ne-nil rel name, text_eq_self dot)

longer_ne : (a b : Text) → a ++ (slash ∷ b) ≢ a
longer_ne a b e = absurd (omega (arith, ap length e, length-append a (slash ∷ b)))

relative_under_below :
    (root_path rel : Text)
    → IsName root_path
    → IsName rel
    → relative_under root_path (root_path ++ (slash ∷ rel)) ≡ ok rel
unfolding relative_under
relative_under_below root_path rel below name = rw (path_clean_of_IsName root_path below) (
    rw (path_clean_of_IsName (root_path ++ (slash ∷ rel)) (IsName-append root_path rel below name))
      (rw (trim_suffix_of_IsName root_path below) (
        rw (text_eq_ne root_path dot (IsName-ne-dot root_path below)) (
          rw (text_eq_ne (root_path ++ (slash ∷ rel)) root_path (longer_ne root_path rel)) (
            rw (← append_assoc root_path (slash ∷ []) rel) (
              rw (has_prefix-append (root_path ++ (slash ∷ [])) rel)
                (rw (trim_prefix-append (root_path ++ (slash ∷ [])) rel) refl)))))))

relative_under-dot : (rel : Text) → IsName rel → relative_under dot rel ≡ ok rel
unfolding relative_under
relative_under-dot rel name = rw (path_clean_of_IsName rel name) (unfold path_clean text_eq in refl)

-- A valid name joined to a root's path is what `relativeUnder` gives back of that path.
relative_under-join :
    (root_path rel : Text)
    → IsRootPath root_path
    → IsName rel
    → relative_under root_path (join root_path rel) ≡ ok rel
relative_under-join root_path rel (inl at_dot) name =
    rw (at_dot, join_at_dot rel name) (relative_under-dot rel name)
relative_under-join root_path rel (inr below) name =
    rw (join_below root_path rel below name) (relative_under_below root_path rel below name)
