-- ===== src/PathPattern/Matching.antt =====
-- internal/pathpattern/pathpattern.go: a compiled pattern and the meaning of its alternatives.
use fluxplane_system.Prelude.{
  ◌≡◌, refl, sym, ap, ◌∙◌, subst, ◌↔◌, Bool, true, false, ◌||◌, List, [], ◌∷◌, any, map, Bool-cases,
  inl, inr, In, false≢true, arith,
}
use fluxplane_system.GoText.{Text, slash, text_eq, is_empty, split_on}
use fluxplane_system.GoPath.{dot, dot_dot, is_abs}
use fluxplane_system.System.{ok, >>=-eq-ok, ok-injective}
use fluxplane_system.PathPattern.{
  ElementMatch, Pattern, normalize, expand_braces, check_segments, compile_each, compile,
  match_segments, matches,
}
use fluxplane_system.PathPattern.Meaning.{Matches, match_segments_iff}
use fluxplane_system.PathPattern.Braces.{IsExpansion, expand_braces-IsExpansion}

-- The test by which `Match` refuses a name at once.
abbrev pub is_no_path : Text → Bool
is_no_path rel = text_eq rel dot || is_empty rel || is_abs rel

-- One of the alternatives means the path.
abbrev pub Means : ElementMatch → List Text → Text → Type 0
Means element candidates rel =
    (c : Text) × In c candidates × Matches element (split_on slash c) (split_on slash rel)

-- Whether one of the compiled patterns matches the path.
abbrev matches_any : ElementMatch → Text → List (List Text) → Bool
matches_any element rel patterns =
    any (λ pattern. match_segments element pattern (split_on slash rel)) patterns

compile_each-map :
    (element : ElementMatch) (candidates : List Text) (out : List (List Text))
    → compile_each element candidates ≡ ok out
    → out ≡ map (split_on slash) candidates
unfolding compile_each
compile_each-map element [] out h = sym (ok-injective h)
compile_each-map element (c ∷ cs) out h =
    let (checked, e, h') = >>=-eq-ok (check_segments element (split_on slash c)) _ h in
    let (rest, e', last) = >>=-eq-ok (compile_each element cs) _ h' in
    sym (ok-injective last) ∙ ap (λ l. split_on slash c ∷ l) (compile_each-map element cs rest e')

any-Means :
    (element : ElementMatch) (cs : List Text) (rel : Text)
    → matches_any element rel (map (split_on slash) cs) ≡ true
    → Means element cs rel
any-Means element [] rel h = absurd (false≢true h)
any-Means element (c ∷ cs) rel h =
    elim (Bool-cases (match_segments element (split_on slash c) (split_on slash rel))) [
      | inl e ↦
          (c, inl refl, (match_segments_iff element (split_on slash c) (split_on slash rel)).0 e)
      | inr e ↦
          let (d, member, m) = any-Means element cs rel (ground (arith, h, e)) in (d, inr member, m)
    ]

Means-any :
    (element : ElementMatch) (cs : List Text) (rel c : Text)
    → In c cs
    → Matches element (split_on slash c) (split_on slash rel)
    → matches_any element rel (map (split_on slash) cs) ≡ true
Means-any element [] rel c member m = absurd member
Means-any element (d ∷ cs) rel c (inl same) m =
    let first : match_segments element (split_on slash d) (split_on slash rel) ≡ true =
      (match_segments_iff element (split_on slash d) (split_on slash rel)).1
        (subst (λ t. Matches element (split_on slash t) (split_on slash rel)) same m) in
    ground (arith, first)
Means-any element (d ∷ cs) rel c (inr member) m =
    ground (arith, Means-any element cs rel c member m)

-- What `Compile` stores if it accepts a pattern.
compile_parts :
    (element : ElementMatch) (raw : Text) (p : Pattern)
    → compile element raw ≡ ok p
    → (cs : List Text) × (expand_braces (normalize raw) ≡ ok cs)
      × (p.patterns ≡ map (split_on slash) cs)
unfolding compile
compile_parts element raw p h =
    elim (Bool-cases (text_eq (normalize raw) dot || is_empty (normalize raw))) [
      | inl bad ↦ absurd (let h' = rw bad at h in cc)
      | inr e₁ ↦ elim (Bool-cases (is_abs (normalize raw))) [
        | inl bad ↦ absurd (let h' = rw (e₁, bad) at h in cc)
        | inr e₂ ↦
            elim (Bool-cases
              (any (λ part. text_eq part dot_dot) (split_on slash (normalize raw)))) [
                | inl bad ↦ absurd (let h' = rw (e₁, e₂, bad) at h in cc)
                | inr e₃ ↦
                    let h' = rw (e₁, e₂, e₃) at h in
                    let (cs, expanded, h₁) = >>=-eq-ok (expand_braces (normalize raw)) _ h' in
                    let (out, compiled, h₂) = >>=-eq-ok (compile_each element cs) _ h₁ in
                    (
                      cs,
                      expanded,
                      sym (ap (λ (q : Pattern). q.patterns) (ok-injective h₂))
                          ∙ compile_each-map element cs out compiled,
                    )
              ]
      ]
    ]

matches_iff :
    (element : ElementMatch) (p : Pattern) (cs : List Text) (name : Text)
    → p.patterns ≡ map (split_on slash) cs
    → (matches element p name ≡ true)
      ↔ ((is_no_path (normalize name) ≡ false) × Means element cs (normalize name))
unfolding matches
matches_iff element p cs name same = elim (Bool-cases (is_no_path (normalize name))) [
  | inl bad ↦
      (λ h. absurd (false≢true (rw bad at h)), λ (good, _). absurd (false≢true (sym good ∙ bad)))
  | inr good ↦ (
    λ h. (
      good,
      any-Means element cs (normalize name)
          (subst (λ l. matches_any element (normalize name) l ≡ true) same (rw good at h)),
    ),
    λ (_, there).
        let (c, member, m) = there in
        rw good (
          subst (λ l. matches_any element (normalize name) l ≡ true) (sym same)
            (Means-any element cs (normalize name) c member m)),
  )
]

-- A pattern that `Compile` accepts has alternatives, which are what its braces stand for. `Match`
-- accepts a name exactly if the name, cleaned, is a relative path other than "." and one of the
-- alternatives means it: `**` any number of path elements, and each other element one that
-- `path.Match` accepts.
pub compile-matches :
    (element : ElementMatch) (raw : Text) (p : Pattern)
    → compile element raw ≡ ok p
    → (cs : List Text) × IsExpansion (normalize raw) cs
      × ((name : Text)
          → (matches element p name ≡ true)
            ↔ ((is_no_path (normalize name) ≡ false) × Means element cs (normalize name)))
compile-matches element raw p h =
    let (cs, expanded, same) = compile_parts element raw p h in
    (
      cs,
      expand_braces-IsExpansion (normalize raw) cs expanded,
      λ name. matches_iff element p cs name same,
    )
