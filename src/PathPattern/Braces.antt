-- ===== src/PathPattern/Braces.antt =====
-- internal/pathpattern/pathpattern.go: the expansion of braces.
use fluxplane_system.Prelude.{
  ◌≡◌, sym, ap, ◌∙◌, ◌⊎◌, Bool, true, false, ◌||◌, List, [], ◌∷◌, ◌++◌, map, Bool-cases, inl, inr,
  arith, All, ◌≢◌,
}
use fluxplane_system.GoText.{Text, is_empty, contains_char, contains_any, split_on, cut}
use fluxplane_system.GoText.Laws.{Lacks, Lacks_iff}
use fluxplane_system.GoText.Splitting.{cut_none, cut-append, first_separator}
use fluxplane_system.System.{ok, >>=-eq-ok, ok-injective}
use fluxplane_system.PathPattern.{
  left_brace, right_brace, comma, alternatives, expand_body, expand_braces,
}

abbrev pub has_brace : Text → Bool
has_brace s = contains_any (left_brace ∷ right_brace ∷ []) s

-- The pattern has no braces and stands for itself, or it has one pair of them, with a list of
-- alternatives inside, none of them empty, and no brace behind; then it stands for what the
-- alternatives give in place of the braces, in their order.
abbrev pub IsExpansion : Text → List Text → Type 0
IsExpansion pattern candidates =
    (Lacks left_brace pattern × Lacks right_brace pattern × (candidates ≡ pattern ∷ []))
    ⊎ ((before : Text) × (body : Text) × (after : Text) × (pattern
          ≡ before ++ (left_brace ∷ (body ++ (right_brace ∷ after))))
        × Lacks left_brace before
        × (has_brace body ≡ false)
        × (has_brace after ≡ false)
        × All (λ alt. alt ≢ []) (split_on comma body)
        × (candidates ≡ map (λ alt. before ++ (alt ++ after)) (split_on comma body)))

alternatives-map :
    (before after : Text) (alts out : List Text)
    → alternatives before after alts ≡ ok out
    → All (λ alt. alt ≢ []) alts × (out ≡ map (λ alt. before ++ (alt ++ after)) alts)
unfolding alternatives is_empty
alternatives-map before after [] out h = (tt, sym (ok-injective h))
alternatives-map before after ([] ∷ alts) out h = cc
alternatives-map before after ((c ∷ alt) ∷ alts) out h =
    let (rest, e, same) = >>=-eq-ok (alternatives before after alts) _ h in
    let (nonempty, mapped) = alternatives-map before after alts rest e in
    (
      (λ bad. cc, nonempty),
      sym (ok-injective same) ∙ ap (λ l. (before ++ ((c ∷ alt) ++ after)) ∷ l) mapped,
    )

expand_body_sound :
    (before body after : Text) (out : List Text)
    → expand_body before body after ≡ ok out
    → (has_brace body ≡ false)
      × (has_brace after ≡ false)
      × All (λ alt. alt ≢ []) (split_on comma body)
      × (out ≡ map (λ alt. before ++ (alt ++ after)) (split_on comma body))
unfolding expand_body
expand_body_sound before body after out h = elim (Bool-cases (is_empty body || has_brace body)) [
  | inl bad ↦ absurd (let h' = rw bad at h in cc)
  | inr good ↦
      let (found, e, last) =
        >>=-eq-ok (alternatives before after (split_on comma body)) _ (rw good at h) in
      let (nonempty, mapped) = alternatives-map before after (split_on comma body) found e in
      elim (Bool-cases (has_brace after)) [
        | inl bad ↦ absurd (let h' = rw bad at last in cc)
        | inr clean ↦
            (ground arith, clean, nonempty, sym (ok-injective (rw clean at last)) ∙ mapped)
      ]
]

-- The expansion of a pattern is what its braces stand for.
pub expand_braces-IsExpansion :
    (pattern : Text) (out : List Text) → expand_braces pattern ≡ ok out → IsExpansion pattern out
unfolding expand_braces
expand_braces-IsExpansion pattern out h = elim (first_separator left_brace pattern) [
  | inl plain ↦
      let h' = rw (cut_none left_brace pattern plain) at h in
      elim (Bool-cases (contains_char right_brace pattern)) [
        | inl bad ↦ absurd (let h'' = rw bad at h' in cc)
        | inr clean ↦
            inl
              (plain, (Lacks_iff right_brace pattern).0 clean, sym (ok-injective (rw clean at h')))
      ]
  | inr (before, rest, e, lacks) ↦
      let opened : cut left_brace pattern ≡ record { before = before; after = rest; found = true } =
        ap (cut left_brace) e ∙ cut-append left_brace before rest lacks in
      let h' = rw opened at h in
      elim (first_separator right_brace rest) [
        | inl unclosed ↦ absurd (let h'' = rw (cut_none right_brace rest unclosed) at h' in cc)
        | inr (body, after, e', lacks') ↦
            let closed : cut right_brace rest
                ≡ record { before = body; after = after; found = true } =
              ap (cut right_brace) e' ∙ cut-append right_brace body after lacks' in
            let (bare, clean, nonempty, mapped) =
              expand_body_sound before body after out (rw closed at h') in
            inr (
              before,
              body,
              after,
              e ∙ ap (λ t. before ++ (left_brace ∷ t)) e',
              lacks,
              bare,
              clean,
              nonempty,
              mapped,
            )
      ]
]
