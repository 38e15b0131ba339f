-- ===== src/GoPath/Laws.antt =====
-- Lemmas on the names that `fs.ValidPath` accepts, under cleaning, joining and taking apart.
use fluxplane_system.Prelude.{
  ◌≡◌, refl, ◌≢◌, sym, ap, ◌∙◌, subst, Bool, true, false, List, [], ◌∷◌, ◌++◌, reverse, arith, All,
  all, All-append, All-append_left, All-append_right, append-nil, append_assoc, Bool-cases, inl,
  inr, ◌⊎◌, ◌==◌, ==_iff,
}
use mathlib.Core.List.{reverse-cons}
use fluxplane_system.GoText.{Text, slash, split_on, join_with}
use fluxplane_system.GoText.Laws.{text_eq_iff, is_empty_iff, Lacks}
use fluxplane_system.GoText.Splitting.{
  join_with-split_on, split_on-append, split_on-ne-nil, split_on_single,
}
use fluxplane_system.GoPath.{
  dot, is_valid_element, is_valid_path, is_abs, push_element, clean_elements, path_clean, path_join,
  without_last, dir_part, path_dir,
}

abbrev pub IsElement : Text → Type 0
IsElement part = is_valid_element part ≡ true

-- A valid name other than ".": no element of it is empty, "." or "..".
abbrev pub IsName : Text → Type 0
IsName name = All IsElement (split_on slash name)

all→All : (parts : List Text) → all is_valid_element parts ≡ true → All IsElement parts
all→All [] h = tt
all→All (p ∷ parts) h = ground (arith, all→All parts)

All→all : (parts : List Text) → All IsElement parts → all is_valid_element parts ≡ true
All→all [] h = refl
All→all (p ∷ parts) (h, hs) = ground (arith, All→all parts hs)

pub valid-IsName : (name : Text) → is_valid_path name ≡ true → name ≢ dot → IsName name
unfolding is_valid_path
valid-IsName name h ne = all→All (split_on slash name) (ground (arith, text_eq_iff name dot))

pub IsName-valid : (name : Text) → IsName name → is_valid_path name ≡ true
unfolding is_valid_path
IsName-valid name h = ground (arith, All→all (split_on slash name) h)

pub IsName-ne-nil : (name : Text) → IsName name → name ≢ []
unfolding split_on is_valid_element
IsName-ne-nil [] h e = ground arith
IsName-ne-nil (c ∷ name) h e = cc

pub IsName-ne-dot : (name : Text) → IsName name → name ≢ dot
unfolding split_on is_valid_element
IsName-ne-dot name h e = let bad : IsName dot = subst IsName e h in ground arith

pub IsName-is_abs : (name : Text) → IsName name → is_abs name ≡ false
unfolding is_abs split_on is_valid_element
IsName-is_abs [] h = refl
IsName-is_abs (c ∷ name) h = ground arith

push_element_of_IsElement :
    (rooted : Bool) (stack : List Text) (p : Text)
    → IsElement p
    → push_element rooted stack p ≡ p ∷ stack
unfolding push_element is_valid_element
push_element_of_IsElement rooted stack p h = ground arith

clean_elements_of_IsElement :
    (rooted : Bool) (stack parts : List Text)
    → All IsElement parts
    → clean_elements rooted stack parts ≡ reverse stack ++ parts
unfolding clean_elements
clean_elements_of_IsElement rooted stack [] h = sym (append-nil _)
clean_elements_of_IsElement rooted stack (p ∷ parts) (h, hs) =
    rw (push_element_of_IsElement rooted stack p h)
      (clean_elements_of_IsElement rooted (p ∷ stack) parts hs ∙ simp (reverse-cons, append_assoc))

-- Cleaning changes no valid name.
pub path_clean_of_IsName : (name : Text) → IsName name → path_clean name ≡ name
unfolding path_clean
path_clean_of_IsName name h = rw (IsName-is_abs name h) (
    rw (clean_elements_of_IsElement false [] (split_on slash name) h) (
      rw (join_with-split_on slash name) (ground (arith, is_empty_iff name, IsName-ne-nil name h))))

pub IsName-append : (a b : Text) → IsName a → IsName b → IsName (a ++ (slash ∷ b))
IsName-append a b ha hb =
    subst (All IsElement) (sym (split_on-append slash a b))
      (All-append IsElement (split_on slash a) (split_on slash b) ha hb)

pub IsName-append_left : (a b : Text) → IsName (a ++ (slash ∷ b)) → IsName a
IsName-append_left a b h =
    All-append_left IsElement (split_on slash a) (split_on slash b)
      (subst (All IsElement) (split_on-append slash a b) h)

pub IsName-append_right : (a b : Text) → IsName (a ++ (slash ∷ b)) → IsName b
IsName-append_right a b h =
    All-append_right IsElement (split_on slash a) (split_on slash b)
      (subst (All IsElement) (split_on-append slash a b) h)

-- Two valid names are joined by a slash and nothing else.
pub path_join_of_IsName : (a b : Text) → IsName a → IsName b → path_join a b ≡ a ++ (slash ∷ b)
unfolding path_join
path_join_of_IsName a b ha hb = ground (
  arith,
  is_empty_iff a,
  is_empty_iff b,
  IsName-ne-nil a ha,
  IsName-ne-nil b hb,
  path_clean_of_IsName (a ++ (slash ∷ b)) (IsName-append a b ha hb),
)

without_last-append : (ps : List Text) (q : Text) → without_last (ps ++ (q ∷ [])) ≡ ps
unfolding without_last
without_last-append [] q = refl
without_last-append (p ∷ []) q = refl
without_last-append (p ∷ r ∷ ps) q = ap (λ t. p ∷ t) (without_last-append (r ∷ ps) q)

clean_elements-trailing :
    (rooted : Bool) (stack parts : List Text)
    → clean_elements rooted stack (parts ++ ([] ∷ [])) ≡ clean_elements rooted stack parts
unfolding clean_elements
clean_elements-trailing rooted stack [] = refl
clean_elements-trailing rooted stack (p ∷ parts) =
    clean_elements-trailing rooted (push_element rooted stack p) parts

is_abs-append : (a b : Text) → a ≢ [] → is_abs (a ++ b) ≡ is_abs a
unfolding is_abs
is_abs-append [] b ne = absurd (ne refl)
is_abs-append (c ∷ a) b ne = refl

split_on_trailing : (a : Text) → split_on slash (a ++ (slash ∷ [])) ≡ split_on slash a ++ ([] ∷ [])
unfolding split_on
split_on_trailing a = split_on-append slash a []

path_clean_trailing : (a : Text) → a ≢ [] → path_clean (a ++ (slash ∷ [])) ≡ path_clean a
unfolding path_clean
path_clean_trailing a ne =
    rw (is_abs-append a (slash ∷ []) ne) (
      rw (split_on_trailing a) (rw (clean_elements-trailing (is_abs a) [] (split_on slash a)) refl))

without_last-split_on :
    (a l : Text)
    → Lacks slash l
    → without_last (split_on slash (a ++ (slash ∷ l))) ≡ split_on slash a
without_last-split_on a l h =
    ap without_last
      (split_on-append slash a l ∙ ap (λ t. split_on slash a ++ t) (split_on_single slash l h))
    ∙ without_last-append (split_on slash a) l

dir_part_cons :
    (name : Text) (parents : List Text)
    → without_last (split_on slash name) ≡ parents
    → parents ≢ []
    → dir_part name ≡ join_with slash parents ++ (slash ∷ [])
unfolding dir_part
dir_part_cons name [] h ne = absurd (ne refl)
dir_part_cons name (p ∷ ps) h ne = rw (h, dir_part)

dir_part_nil : (name : Text) → without_last (split_on slash name) ≡ [] → dir_part name ≡ []
unfolding dir_part
dir_part_nil name h = rw (h, dir_part)

-- The parent of a valid name is what stands before its last slash.
pub path_dir-slash : (a l : Text) → IsName a → Lacks slash l → path_dir (a ++ (slash ∷ l)) ≡ a
unfolding path_dir
path_dir-slash a l ha h =
    rw
      (dir_part_cons (a ++ (slash ∷ l)) (split_on slash a) (without_last-split_on a l h)
        (split_on-ne-nil slash a))
      (rw (join_with-split_on slash a)
        (path_clean_trailing a (IsName-ne-nil a ha) ∙ path_clean_of_IsName a ha))

-- The parent of a name with no slash is ".".
pub path_dir_top : (l : Text) → Lacks slash l → path_dir l ≡ dot
unfolding path_dir path_clean
path_dir_top l h = rw (dir_part_nil l (ap without_last (split_on_single slash l h))) refl

-- A text has no slash, or a last one.
pub last_slash :
    (s : Text) → Lacks slash s ⊎ ((d : Text) × (l : Text) × (s ≡ d ++ (slash ∷ l)) × Lacks slash l)
last_slash [] = inl tt
last_slash (c ∷ s) = elim (last_slash s) [
  | inr (d, l, e, h) ↦ inr (c ∷ d, l, ap (λ t. c ∷ t) e, h)
  | inl h ↦ elim (Bool-cases (c == slash)) [
    | inl e ↦ inr ([], s, ap (λ t. t ∷ s) ((==_iff c slash).0 e), h)
    | inr e ↦ inl (ground arith, h)
  ]
]
