-- ===== src/GoPath/Below.antt =====
-- Relative paths, as `filepath.Rel` returns them, that stay below where they start.
use fluxplane_system.Prelude.{
  ◌≡◌, ◌≢◌, refl, sym, subst, ◌∙◌, false, ◌||◌, false≢true, [], ◌∷◌, ◌++◌, arith,
}
use fluxplane_system.GoText.{Text, slash, text_eq, has_prefix}
use fluxplane_system.GoText.Laws.{text_eq_iff}
use fluxplane_system.GoPath.{dot_dot, is_abs}

-- The path is not `..`, does not begin with `../`, and is not absolute.
pub record StaysBelow (rel : Text) : Type 0 where
  pub not_parent : rel ≢ dot_dot
  pub not_above : (rest : Text) → rel ≢ dot_dot ++ (slash ∷ rest)
  pub not_absolute : (rest : Text) → rel ≢ slash ∷ rest

pub tests-StaysBelow :
    (rel : Text)
    → (text_eq rel dot_dot || has_prefix (dot_dot ++ (slash ∷ [])) rel || is_abs rel) ≡ false
    → StaysBelow rel
unfolding has_prefix is_abs
tests-StaysBelow rel good = record {
  not_parent = λ same. false≢true (sym (ground (arith, good)) ∙ (text_eq_iff rel dot_dot).1 same);
  not_above = λ rest same. false≢true (
      sym (subst (λ r. has_prefix (dot_dot ++ (slash ∷ [])) r ≡ false) same (ground (arith, good)))
      ∙ refl);
  not_absolute = λ rest same.
      false≢true (sym (subst (λ r. is_abs r ≡ false) same (ground (arith, good))) ∙ refl);
}
