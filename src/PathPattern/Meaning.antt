-- ===== src/PathPattern/Meaning.antt =====
-- What a pattern of path elements means, without reference to how it is matched: `**` stands for any
-- number of elements, and every other element of the pattern for one that it matches.
use fluxplane_system.Prelude.{
  ◌≡◌, refl, sym, subst, ◌↔◌, Bool, true, false, List, [], ◌∷◌, ◌++◌, Bool-cases, inl, inr, arith,
  false≢true, ap,
}
use fluxplane_system.GoText.{Text, text_eq}
use fluxplane_system.GoText.Laws.{text_eq→eq, text_eq_self}
use fluxplane_system.PathPattern.{ElementMatch, stars, any_rest, accepts, match_segments}

pub data Matches (element : ElementMatch) : List Text → List Text → Type 0 where
  done : Matches element [] []
  skipping :
      {p : Text} {ps rel : List Text} (skipped rest : List Text)
      → p ≡ stars
      → rel ≡ skipped ++ rest
      → Matches element ps rest
      → Matches element (p ∷ ps) rel
  one :
      {p x : Text} {ps xs : List Text}
      → text_eq p stars ≡ false
      → accepts (element p x) ≡ true
      → Matches element ps xs
      → Matches element (p ∷ ps) (x ∷ xs)

any_rest-split :
    (test : List Text → Bool) (rel : List Text)
    → any_rest test rel ≡ true
    → (skipped : List Text) × (rest : List Text) × (rel ≡ skipped ++ rest) × (test rest ≡ true)
unfolding any_rest
any_rest-split test [] h = ([], [], refl, h)
any_rest-split test (x ∷ xs) h = elim (Bool-cases (test (x ∷ xs))) [
  | inl e ↦ ([], x ∷ xs, refl, e)
  | inr e ↦
      let later : any_rest test xs ≡ true = ground (arith, h, e) in
      let (skipped, rest, same, t) = any_rest-split test xs later in
      (x ∷ skipped, rest, ap (λ l. x ∷ l) same, t)
]

any_rest-append :
    (test : List Text → Bool) (skipped rest : List Text)
    → test rest ≡ true
    → any_rest test (skipped ++ rest) ≡ true
unfolding any_rest
any_rest-append test [] [] h = h
any_rest-append test [] (x ∷ xs) h = ground (arith, h)
any_rest-append test (x ∷ skipped) rest h = ground (arith, any_rest-append test skipped rest h)

Matches-match_segments :
    (element : ElementMatch) (ps rel : List Text)
    → match_segments element ps rel ≡ true
    → Matches element ps rel
unfolding match_segments
Matches-match_segments element [] [] h = done
Matches-match_segments element [] (x ∷ xs) h = elim (false≢true h) [ ]
Matches-match_segments element (p ∷ ps) [] h = elim (Bool-cases (text_eq p stars)) [
  | inl e ↦
      let (skipped, rest, same, t) =
        any_rest-split (match_segments element ps) [] (ground (arith, h, e)) in
      skipping skipped rest (text_eq→eq p stars e) same (Matches-match_segments element ps rest t)
  | inr e ↦ let bad : false ≡ true = ground (arith, h, e) in elim (false≢true bad) [ ]
]
Matches-match_segments element (p ∷ ps) (x ∷ xs) h = elim (Bool-cases (text_eq p stars)) [
  | inl e ↦
      let (skipped, rest, same, t) =
        any_rest-split (match_segments element ps) (x ∷ xs) (ground (arith, h, e)) in
      skipping skipped rest (text_eq→eq p stars e) same (Matches-match_segments element ps rest t)
  | inr e ↦
      let first : accepts (element p x) ≡ true = ground (arith, h, e) in
      let others : match_segments element ps xs ≡ true = ground (arith, h, e) in
      one e first (Matches-match_segments element ps xs others)
]

stars_eq : (p : Text) → p ≡ stars → text_eq p stars ≡ true
stars_eq p e = subst (λ t. text_eq t stars ≡ true) (sym e) (text_eq_self stars)

starred :
    (element : ElementMatch) (p : Text) (ps rel : List Text)
    → p ≡ stars
    → any_rest (match_segments element ps) rel ≡ true
    → match_segments element (p ∷ ps) rel ≡ true
unfolding match_segments
starred element p ps [] e h = rw (stars_eq p e) h
starred element p ps (x ∷ xs) e h = rw (stars_eq p e) h

match_segments-Matches :
    (element : ElementMatch) {ps rel : List Text}
    → Matches element ps rel
    → match_segments element ps rel ≡ true
unfolding match_segments
match_segments-Matches element done = refl
match_segments-Matches element (skipping {p} {ps} {rel} skipped rest e same m) =
    starred element p ps rel e (
      subst (λ l. any_rest (match_segments element ps) l ≡ true) (sym same)
        (any_rest-append (match_segments element ps) skipped rest
          (match_segments-Matches element m)))
match_segments-Matches element (one {p} {x} e first m) =
    rw (e, first) (match_segments-Matches element m)

-- `matchSegments` decides the meaning of a pattern.
pub match_segments_iff :
    (element : ElementMatch) (ps rel : List Text)
    → (match_segments element ps rel ≡ true) ↔ Matches element ps rel
match_segments_iff element ps rel =
    (Matches-match_segments element ps rel, λ m. match_segments-Matches element m)
