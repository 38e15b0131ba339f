-- ===== src/GoText/Splitting.antt =====
-- Splitting a text at a separator and joining the parts again.
use fluxplane_system.Prelude.{
  ℕ, ◌≡◌, refl, sym, ◌∙◌, ap, ◌≢◌, true, false, List, [], ◌∷◌, ◌++◌, arith, ◌==◌, All, Bool-cases,
  ◌⊎◌, ==_iff, inl, inr, append_assoc,
}
use fluxplane_system.GoText.{Text, push_front, split_on, join_with, cut}
use fluxplane_system.GoText.Laws.{Lacks}

join_with-push_front :
    (c x : ℕ) (ps : List Text) → join_with c (push_front x ps) ≡ x ∷ join_with c ps
unfolding join_with push_front
join_with-push_front c x [] = refl
join_with-push_front c x (p ∷ []) = refl
join_with-push_front c x (p ∷ q ∷ ps) = refl

split_on_cons : (c : ℕ) (s : Text) → (p : Text) × (ps : List Text) × (split_on c s ≡ p ∷ ps)
unfolding split_on push_front
split_on_cons c [] = ([], [], refl)
split_on_cons c (x ∷ s) = elim (Bool-cases (x == c)) [
  | inl e ↦ ([], split_on c s, rw e)
  | inr e ↦ let (p, ps, h) = split_on_cons c s in (x ∷ p, ps, rw (e, h))
]

pub split_on-ne-nil : (c : ℕ) (s : Text) → split_on c s ≢ []
split_on-ne-nil c s h = let (p, ps, e) = split_on_cons c s in cc

-- Joining what was split gives the text back.
pub join_with-split_on : (c : ℕ) (s : Text) → join_with c (split_on c s) ≡ s
unfolding split_on join_with
join_with-split_on c [] = refl
join_with-split_on c (x ∷ s) = elim (Bool-cases (x == c)) [
  | inl e ↦
      let (p, ps, h) = split_on_cons c s in
      let same = join_with-split_on c s in rw (e, h) (ground (arith, h, same))
  | inr e ↦
      rw e (join_with-push_front c x (split_on c s) ∙ ap (λ t. x ∷ t) (join_with-split_on c s))
]

push_front-append :
    (x : ℕ) (p : Text) (ps qs : List Text)
    → push_front x ((p ∷ ps) ++ qs) ≡ push_front x (p ∷ ps) ++ qs
unfolding push_front
push_front-append x p ps qs = refl

-- A separator splits a text into the parts of both sides.
pub split_on-append :
    (c : ℕ) (s t : Text) → split_on c (s ++ (c ∷ t)) ≡ split_on c s ++ split_on c t
unfolding split_on
split_on-append c [] t = ground arith
split_on-append c (x ∷ s) t = elim (Bool-cases (x == c)) [
  | inl e ↦ rw (e, split_on-append c s t)
  | inr e ↦
      let (p, ps, h) = split_on_cons c s in
      rw (e, split_on-append c s t, h) (push_front-append x p ps (split_on c t))
]

-- A text with no separator is one part.
pub split_on_single : (c : ℕ) (p : Text) → Lacks c p → split_on c p ≡ p ∷ []
unfolding split_on push_front
split_on_single c [] h = refl
split_on_single c (x ∷ p) (ne, h) = ground (arith, split_on_single c p h)

-- Parts with no separator in them come back when the text that joins them is split.
pub split_on-join_with :
    (c : ℕ) (p : Text) (ps : List Text)
    → All (Lacks c) (p ∷ ps)
    → split_on c (join_with c (p ∷ ps)) ≡ p ∷ ps
unfolding join_with
split_on-join_with c p [] (h, _) = split_on_single c p h
split_on-join_with c p (q ∷ ps) (h, hs) =
    split_on-append c p (join_with c (q ∷ ps))
    ∙ rw (split_on_single c p h, split_on-join_with c q ps hs)

Lacks-push_front :
    (c x : ℕ) (ps : List Text) → x ≢ c → All (Lacks c) ps → All (Lacks c) (push_front x ps)
unfolding push_front
Lacks-push_front c x [] ne h = ((ne, tt), tt)
Lacks-push_front c x (p ∷ ps) ne (k, h) = ((ne, k), h)

-- No part holds the separator.
pub split_on-Lacks : (c : ℕ) (s : Text) → All (Lacks c) (split_on c s)
unfolding split_on
split_on-Lacks c [] = (tt, tt)
split_on-Lacks c (x ∷ s) = elim (Bool-cases (x == c)) [
  | inl e ↦ rw e (tt, split_on-Lacks c s)
  | inr e ↦ rw e (Lacks-push_front c x _ (ground arith) (split_on-Lacks c s))
]

-- Joining a list of parts to another, neither of them empty.
pub join_with-append :
    (c : ℕ) (p : Text) (ps : List Text) (q : Text) (qs : List Text)
    → join_with c ((p ∷ ps) ++ (q ∷ qs)) ≡ join_with c (p ∷ ps) ++ (c ∷ join_with c (q ∷ qs))
unfolding join_with
join_with-append c p [] q qs = refl
join_with-append c p (r ∷ ps) q qs =
    ap (λ t. p ++ (c ∷ t)) (join_with-append c r ps q qs) ∙ sym (append_assoc p _ _)

-- Cutting at the first separator.
pub cut-append :
    (c : ℕ) (s t : Text)
    → Lacks c s
    → cut c (s ++ (c ∷ t)) ≡ record { before = s; after = t; found = true }
unfolding cut
cut-append c [] t h = ground arith
cut-append c (x ∷ s) t (ne, h) = ground (arith, cut-append c s t h)

pub cut_none :
    (c : ℕ) (s : Text) → Lacks c s → cut c s ≡ record { before = s; after = []; found = false }
unfolding cut
cut_none c [] h = refl
cut_none c (x ∷ s) (ne, h) = ground (arith, cut_none c s h)

-- A text lacks the separator, or has a first one.
pub first_separator :
    (c : ℕ) (s : Text) → Lacks c s ⊎ ((b : Text) × (a : Text) × (s ≡ b ++ (c ∷ a)) × Lacks c b)
first_separator c [] = inl tt
first_separator c (x ∷ s) = elim (Bool-cases (x == c)) [
  | inl e ↦ inr ([], s, ap (λ t. t ∷ s) ((==_iff x c).0 e), tt)
  | inr ne ↦ elim (first_separator c s) [
    | inl h ↦ inl (ground arith, h)
    | inr (b, a, e, h) ↦ inr (x ∷ b, a, ap (λ t. x ∷ t) e, (ground arith, h))
  ]
]
