-- ===== src/GoText/Laws.antt =====
-- Equality and prefixes of texts.
use fluxplane_system.Prelude.{
  ℕ, ◌≡◌, refl, ◌≢◌, ◌↔◌, subst, true, false, List, [], ◌∷◌, ◌++◌, arith, drop, length,
}
use fluxplane_system.GoText.{Text, text_eq, is_empty, has_prefix, trim_prefix, contains_char}

pub text_eq_self : (s : Text) → text_eq s s ≡ true
unfolding text_eq
text_eq_self [] = refl
text_eq_self (a ∷ s) = ground (arith, text_eq_self s)

pub text_eq→eq : (s t : Text) → text_eq s t ≡ true → s ≡ t
unfolding text_eq
text_eq→eq [] [] h = refl
text_eq→eq [] (_ ∷ _) h = cc
text_eq→eq (_ ∷ _) [] h = cc
text_eq→eq (a ∷ s) (b ∷ t) h = ground (arith, text_eq→eq s t)

pub text_eq_iff : (s t : Text) → (text_eq s t ≡ true) ↔ (s ≡ t)
text_eq_iff s t = (text_eq→eq s t, λ e. subst (λ u. text_eq s u ≡ true) e (text_eq_self s))

pub text_eq_ne : (s t : Text) → s ≢ t → text_eq s t ≡ false
text_eq_ne s t ne = ground (arith, text_eq_iff s t)

text_eq_sym : (s t : Text) → text_eq s t ≡ text_eq t s
text_eq_sym s t = ground (arith, text_eq_iff s t, text_eq_iff t s)

pub is_empty_iff : (s : Text) → (is_empty s ≡ true) ↔ (s ≡ [])
unfolding is_empty
is_empty_iff [] = (λ _. refl, λ _. refl)
is_empty_iff (c ∷ s) = (λ h. cc, λ h. cc)

pub has_prefix-append : (p s : Text) → has_prefix p (p ++ s) ≡ true
unfolding has_prefix
has_prefix-append [] s = refl
has_prefix-append (a ∷ p) s = ground (arith, has_prefix-append p s)

drop-append {ℓ} : {A : Type ℓ} (xs ys : List A) → drop (length xs) (xs ++ ys) ≡ ys
drop-append [] ys = refl
drop-append (x ∷ xs) ys = drop-append xs ys

-- A text with a prefix is that prefix and what follows it.
pub has_prefix_split : (p s : Text) → has_prefix p s ≡ true → s ≡ p ++ drop (length p) s
unfolding has_prefix
has_prefix_split [] s h = refl
has_prefix_split (a ∷ p) [] h = cc
has_prefix_split (a ∷ p) (b ∷ s) h = ground (arith, has_prefix_split p s)

pub trim_prefix-append : (p s : Text) → trim_prefix p (p ++ s) ≡ s
unfolding trim_prefix
trim_prefix-append p s = rw (has_prefix-append p s) (drop-append p s)

-- No code point of the text is `c`.
abbrev pub Lacks : ℕ → Text → Type 0
Lacks c [] = Unit
Lacks c (x ∷ s) = (x ≢ c) × Lacks c s

pub Lacks_iff : (c : ℕ) (s : Text) → (contains_char c s ≡ false) ↔ Lacks c s
unfolding contains_char
Lacks_iff c [] = (λ _. tt, λ _. refl)
Lacks_iff c (x ∷ s) = (λ h. ground (arith, Lacks_iff c s), λ h. ground (arith, Lacks_iff c s))

pub Lacks-append : (c : ℕ) (s t : Text) → Lacks c s → Lacks c t → Lacks c (s ++ t)
Lacks-append c [] t h k = k
Lacks-append c (x ∷ s) t (p, h) k = (p, Lacks-append c s t h k)
