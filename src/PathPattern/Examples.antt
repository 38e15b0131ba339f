-- ===== src/PathPattern/Examples.antt =====
-- The theorem on patterns at a concrete pattern.
use fluxplane_system.Prelude.{◌≡◌, refl, ◌↔◌, true, false, List, [], ◌∷◌}
use fluxplane_system.GoText.{Text, codes, text_eq, replace_all, trim_space, contains_any, cut}
use fluxplane_system.GoPath.{path_clean}
use fluxplane_system.System.{ok}
use fluxplane_system.PathPattern.{
  ElementMatch, Pattern, normalize, compile, matches, expand_braces, compile_each, check_segments,
}
use fluxplane_system.PathPattern.Matching.{Means}
use fluxplane_system.PathPattern.Braces.{IsExpansion}
use fluxplane_system.PathPattern.Matching.{is_no_path, compile-matches}

-- A matcher of literal elements.
abbrev literal : ElementMatch
literal pattern name = ok (text_eq pattern name)

abbrev raw : Text
raw = codes "a/{b,c}"

abbrev compiled : Pattern
compiled = record {
  raw = raw;
  patterns = (codes "a" ∷ codes "b" ∷ []) ∷ (codes "a" ∷ codes "c" ∷ []) ∷ [];
}

raw-compile : compile literal raw ≡ ok compiled
unfolding compile text_eq normalize trim_space path_clean replace_all expand_braces cut contains_any
    compile_each check_segments
raw-compile = refl

compile-matches_example :
    (cs : List Text) × IsExpansion (normalize raw) cs
    × ((name : Text)
        → (matches literal compiled name ≡ true)
          ↔ ((is_no_path (normalize name) ≡ false) × Means literal cs (normalize name)))
compile-matches_example = compile-matches literal raw compiled raw-compile
