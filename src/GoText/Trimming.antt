-- ===== src/GoText/Trimming.antt =====
-- Lemmas on trimming and replacing.
use fluxplane_system.Prelude.{
  ℕ, ◌≡◌, refl, ◌≢◌, false, ◌&&◌, [], ◌∷◌, ◌++◌, arith, Bool-cases, inl, inr,
}
use fluxplane_system.GoText.{
  Text, is_space, is_empty, trim_left, trim_right, trim_space, replace_all,
}
use fluxplane_system.GoText.Laws.{Lacks}

-- The text is empty or begins with no space.
abbrev pub StartsSolid : Text → Type 0
StartsSolid [] = Unit
StartsSolid (c ∷ s) = is_space c ≡ false

trim_left-StartsSolid : (s : Text) → StartsSolid (trim_left s)
unfolding trim_left
trim_left-StartsSolid [] = tt
trim_left-StartsSolid (c ∷ s) = elim (Bool-cases (is_space c)) [
  | inl e ↦ rw e (trim_left-StartsSolid s)
  | inr e ↦ rw e e
]

trim_left_of_StartsSolid : (s : Text) → StartsSolid s → trim_left s ≡ s
unfolding trim_left
trim_left_of_StartsSolid [] h = refl
trim_left_of_StartsSolid (c ∷ s) h = rw h

trim_right-StartsSolid : (s : Text) → StartsSolid s → StartsSolid (trim_right s)
unfolding trim_right
trim_right-StartsSolid [] h = tt
trim_right-StartsSolid (c ∷ s) h = rw h h

trim_right_idem : (s : Text) → trim_right (trim_right s) ≡ trim_right s
unfolding trim_right
trim_right_idem [] = refl
trim_right_idem (c ∷ s) = elim (Bool-cases (is_space c && is_empty (trim_right s))) [
  | inl e ↦ rw e
  | inr e ↦ rw (e, trim_right_idem s, e)
]

pub trim_space_idem : (s : Text) → trim_space (trim_space s) ≡ trim_space s
unfolding trim_space
trim_space_idem s =
    rw (trim_left_of_StartsSolid _ (trim_right-StartsSolid _ (trim_left-StartsSolid s)))
      (trim_right_idem (trim_left s))

-- What `trim_space` leaves begins with no space.
trim_space-StartsSolid : (s : Text) → StartsSolid (trim_space s)
unfolding trim_space
trim_space-StartsSolid s = trim_right-StartsSolid _ (trim_left-StartsSolid s)

trim_right_of_trim_space : (s : Text) → trim_space s ≡ s → trim_right s ≡ s
unfolding trim_space
trim_right_of_trim_space s h =
    let solid : StartsSolid s = rw h at (trim_space-StartsSolid s) in
    rw (trim_left_of_StartsSolid s solid) at h

is_empty-append_cons : (s : Text) (c : ℕ) (t : Text) → is_empty (s ++ (c ∷ t)) ≡ false
unfolding is_empty
is_empty-append_cons [] c t = refl
is_empty-append_cons (x ∷ s) c t = refl

trim_right-append :
    (s : Text) (c : ℕ) (t : Text)
    → trim_right (c ∷ t) ≡ c ∷ t
    → trim_right (s ++ (c ∷ t)) ≡ s ++ (c ∷ t)
unfolding trim_right
trim_right-append [] c t h = h
trim_right-append (x ∷ s) c t h =
    ground (arith, trim_right-append s c t h, is_empty-append_cons s c t)

-- A text that begins with no space and ends in a trimmed part is trimmed.
pub trim_space-append :
    (x : ℕ) (s : Text) (c : ℕ) (t : Text)
    → is_space x ≡ false
    → trim_space (c ∷ t) ≡ c ∷ t
    → trim_space (x ∷ (s ++ (c ∷ t))) ≡ x ∷ (s ++ (c ∷ t))
unfolding trim_space
trim_space-append x s c t solid h =
    rw (trim_left_of_StartsSolid (x ∷ (s ++ (c ∷ t))) solid)
      (trim_right-append (x ∷ s) c t (trim_right_of_trim_space _ h))

replace_all-Lacks : (a b : ℕ) (s : Text) → b ≢ a → Lacks a (replace_all a b s)
unfolding replace_all
replace_all-Lacks a b [] ne = tt
replace_all-Lacks a b (x ∷ s) ne = (ground arith, replace_all-Lacks a b s ne)

pub replace_all_of_Lacks : (a b : ℕ) (s : Text) → Lacks a s → replace_all a b s ≡ s
unfolding replace_all
replace_all_of_Lacks a b [] h = refl
replace_all_of_Lacks a b (x ∷ s) (ne, h) = ground (arith, replace_all_of_Lacks a b s h)

trim_left-Lacks : (a : ℕ) (s : Text) → Lacks a s → Lacks a (trim_left s)
unfolding trim_left
trim_left-Lacks a [] h = tt
trim_left-Lacks a (c ∷ s) (ne, h) = elim (Bool-cases (is_space c)) [
  | inl e ↦ rw e (trim_left-Lacks a s h)
  | inr e ↦ rw e (ne, h)
]

trim_right-Lacks : (a : ℕ) (s : Text) → Lacks a s → Lacks a (trim_right s)
unfolding trim_right
trim_right-Lacks a [] h = tt
trim_right-Lacks a (c ∷ s) (ne, h) = elim (Bool-cases (is_space c && is_empty (trim_right s))) [
  | inl e ↦ rw e tt
  | inr e ↦ rw e (ne, trim_right-Lacks a s h)
]

trim_space-Lacks : (a : ℕ) (s : Text) → Lacks a s → Lacks a (trim_space s)
unfolding trim_space
trim_space-Lacks a s h = trim_right-Lacks a _ (trim_left-Lacks a s h)

-- The first two steps of every function that cleans a name.
pub trim-replace-Lacks : (a b : ℕ) (s : Text) → b ≢ a → Lacks a (trim_space (replace_all a b s))
trim-replace-Lacks a b s ne = trim_space-Lacks a _ (replace_all-Lacks a b s ne)
