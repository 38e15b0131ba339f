-- ===== src/MemSystem/Names.antt =====
-- The keys of the map of nodes: cleaned names, their ancestors, and the chain of prefixes that the
-- creation of parents goes through.
use fluxplane_system.Prelude.{
  ℕ, ◌≡◌, refl, sym, ap, subst, ◌∙◌, ◌⊎◌, inl, inr, List, [], ◌∷◌, ◌++◌, arith, All,
  All-append_left, All-append_right, Bool-cases, append_assoc, append-nil, ◌||◌,
}
use fluxplane_system.GoText.{
  Text, slash, backslash, text_eq, is_empty, replace_all, trim_space, split_on, join_with,
}
use fluxplane_system.GoText.Laws.{Lacks, text_eq_iff, is_empty_iff}
use fluxplane_system.GoText.Trimming.{trim_space_idem, trim-replace-Lacks, replace_all_of_Lacks}
use fluxplane_system.GoText.Splitting.{
  join_with-append, split_on-Lacks, split_on-join_with, join_with-split_on, split_on-ne-nil,
}
use fluxplane_system.GoPath.{dot, is_valid_path, path_dir}
use fluxplane_system.GoPath.Laws.{
  IsElement, IsName, valid-IsName, IsName-valid, IsName-ne-nil, IsName-ne-dot, path_clean_of_IsName,
  IsName-append_left, path_dir-slash, path_dir_top, last_slash,
}
use fluxplane_system.System.{ok}
use fluxplane_system.MemSystem.Nodes.{clean, prefix_joins, prefixes}

-- The root, or a valid name.
abbrev pub IsKey : Text → Type 0
IsKey rel = (rel ≡ []) ⊎ IsName rel

-- The text of a name before it is looked at: trimmed, with slashes for backslashes.
abbrev input : Text → Text
input raw = trim_space (replace_all backslash slash raw)

input_idem : (raw : Text) → input (input raw) ≡ input raw
input_idem raw =
    ap trim_space (
      replace_all_of_Lacks backslash slash (input raw)
        (trim-replace-Lacks backslash slash raw (omega arith)))
    ∙ trim_space_idem (replace_all backslash slash raw)

-- What a cleaned name is: the root for an empty name or ".", and otherwise the valid name itself.
pub clean_cases :
    (raw rel : Text)
    → clean raw ≡ ok rel
    → (rel ≡ []) ⊎ (IsName rel × (rel ≡ trim_space (replace_all backslash slash raw)))
unfolding clean
clean_cases raw rel h = elim (Bool-cases (is_empty (input raw) || text_eq (input raw) dot)) [
  | inl e ↦ inl (ground arith)
  | inr e ↦ elim (Bool-cases (is_valid_path (input raw))) [
    | inr bad ↦ ground arith
    | inl valid ↦
        let name : IsName (input raw) =
          valid-IsName (input raw) valid (ground (arith, text_eq_iff (input raw) dot)) in
        let same : rel ≡ input raw = ground (arith, path_clean_of_IsName (input raw) name) in
        inr (subst IsName (sym same) name, same)
  ]
]

pub clean-IsKey : (raw rel : Text) → clean raw ≡ ok rel → IsKey rel
clean-IsKey raw rel h = elim (clean_cases raw rel h) [ inl e ↦ inl e | inr p ↦ inr p.0 ]

clean_of_input : (raw : Text) → input raw ≡ raw → IsName raw → clean raw ≡ ok raw
unfolding clean
clean_of_input raw same name = rw same (
    ground (
      arith,
      is_empty_iff raw,
      text_eq_iff raw dot,
      IsName-ne-nil raw name,
      IsName-ne-dot raw name,
      IsName-valid raw name,
      path_clean_of_IsName raw name,
    ))

-- A cleaned name cleans to itself: the keys of the map are names for their nodes.
clean_idempotent : (raw rel : Text) → clean raw ≡ ok rel → clean rel ≡ ok rel
unfolding clean
clean_idempotent raw rel h = elim (clean_cases raw rel h) [
  | inl e ↦ rw e refl
  | inr (name, same) ↦ clean_of_input rel (ap input same ∙ input_idem raw ∙ sym same) name
]

not-Lacks-append : (c : ℕ) (a r : Text) → ¬ Lacks c (a ++ (c ∷ r))
not-Lacks-append c [] r (ne, h) = ne refl
not-Lacks-append c (x ∷ a) r (ne, h) = not-Lacks-append c a r h

-- Taking the last element off a name, and any other ancestor.
pub slash_cases :
    (q l a r : Text)
    → q ++ (slash ∷ l) ≡ a ++ (slash ∷ r)
    → Lacks slash l
    → (a ≡ q) ⊎ ((r' : Text) × (q ≡ a ++ (slash ∷ r')))
slash_cases [] l [] r e h = inl refl
slash_cases [] l (x ∷ a) r e h = absurd (not-Lacks-append slash a r (subst (Lacks slash) (cc) h))
slash_cases (c ∷ q) l [] r e h = inr (q, cc)
slash_cases (c ∷ q) l (x ∷ a) r e h = elim (slash_cases q l a r (cc) h) [
  | inl same ↦ inl (cc)
  | inr (r', same) ↦ inr (r', cc)
]

-- Each name of the list is the one before it, or `q`, with one more element.
abbrev pub Chain : Text → List Text → Type 0
Chain q [] = Unit
Chain q (p ∷ ps) = ((l : Text) × (p ≡ q ++ (slash ∷ l)) × Lacks slash l) × IsName p × Chain p ps

-- The last name of a chain.
abbrev pub last_name : Text → List Text → Text
last_name q [] = q
last_name q (p ∷ ps) = last_name p ps

-- A list of path elements, at least one, that a slash can join.
record AreElements (parts : List Text) : Type 0 where
  valid : All IsElement parts
  plain : All (Lacks slash) parts

AreElements-left : (xs ys : List Text) → AreElements (xs ++ ys) → AreElements xs
AreElements-left xs ys h = record {
  valid = All-append_left IsElement xs ys h.valid;
  plain = All-append_left (Lacks slash) xs ys h.plain;
}

join-IsName : (p : Text) (ps : List Text) → AreElements (p ∷ ps) → IsName (join_with slash (p ∷ ps))
join-IsName p ps h = subst (All IsElement) (sym (split_on-join_with slash p ps h.plain)) h.valid

prefix_joins-Chain :
    (s : Text) (seen parts : List Text)
    → AreElements ((s ∷ seen) ++ parts)
    → Chain (join_with slash (s ∷ seen)) (prefix_joins (s ∷ seen) parts)
unfolding prefix_joins
prefix_joins-Chain s seen [] h = tt
prefix_joins-Chain s seen (p ∷ parts) h =
    let h' : AreElements ((s ∷ (seen ++ (p ∷ []))) ++ parts) =
      subst AreElements (ap (λ t. s ∷ t) (sym (append_assoc seen (p ∷ []) parts))) h in
    let one = All-append_right (Lacks slash) (s ∷ seen) (p ∷ parts) h.plain in
    (
      (p, join_with-append slash s seen p [], one.0),
      join-IsName s (seen ++ (p ∷ [])) (AreElements-left (s ∷ (seen ++ (p ∷ []))) parts h'),
      prefix_joins-Chain s (seen ++ (p ∷ [])) parts h',
    )

prefix_joins-last :
    (s : Text) (seen parts : List Text)
    → last_name (join_with slash (s ∷ seen)) (prefix_joins (s ∷ seen) parts)
      ≡ join_with slash ((s ∷ seen) ++ parts)
unfolding prefix_joins
prefix_joins-last s seen [] = ap (λ t. join_with slash (s ∷ t)) (sym (append-nil seen))
prefix_joins-last s seen (p ∷ parts) =
    prefix_joins-last s (seen ++ (p ∷ [])) parts
    ∙ ap (λ t. join_with slash (s ∷ t)) (append_assoc seen (p ∷ []) parts)

-- The prefixes of a name: a first one with no slash, and a chain that ends in the name.
pub record IsLadder (name : Text) (ps : List Text) : Type 0 where
  pub first : Text
  pub later : List Text
  pub shape : ps ≡ first ∷ later
  pub top : Lacks slash first
  pub first_name : IsName first
  pub chain : Chain first later
  pub ends : last_name first later ≡ name

IsLadder-of_parts :
    (name p : Text) (parts : List Text)
    → AreElements (p ∷ parts)
    → join_with slash (p ∷ parts) ≡ name
    → IsLadder name (prefix_joins [] (p ∷ parts))
unfolding prefix_joins join_with
IsLadder-of_parts name p parts h e = record {
  first = p;
  later = prefix_joins (p ∷ []) parts;
  shape = refl;
  top = h.plain.0;
  first_name = join-IsName p [] (AreElements-left (p ∷ []) parts h);
  chain = prefix_joins-Chain p [] parts h;
  ends = prefix_joins-last p [] parts ∙ e;
}

IsLadder-of_split :
    (name : Text) (parts : List Text)
    → split_on slash name ≡ parts
    → IsName name
    → IsLadder name (prefix_joins [] parts)
IsLadder-of_split name [] e h = absurd (split_on-ne-nil slash name e)
IsLadder-of_split name (p ∷ parts) e h =
    IsLadder-of_parts name p parts
      (record {
        valid = subst (All IsElement) e h;
        plain = subst (All (Lacks slash)) e (split_on-Lacks slash name);
      })
      (ap (join_with slash) (sym e) ∙ join_with-split_on slash name)

prefixes_of_IsName :
    (name : Text) → IsName name → prefixes name ≡ prefix_joins [] (split_on slash name)
unfolding prefixes
prefixes_of_IsName name h =
    ground
      (arith, is_empty_iff name, text_eq_iff name dot, IsName-ne-nil name h, IsName-ne-dot name h)

pub prefixes-IsLadder : (name : Text) → IsName name → IsLadder name (prefixes name)
prefixes-IsLadder name h =
    subst (IsLadder name) (sym (prefixes_of_IsName name h)) (IsLadder-of_split name _ refl h)

-- A valid name is at the top, with parent ".", or stands below a parent that is a valid name.
pub parent_cases :
    (name : Text)
    → IsName name
    → ((path_dir name ≡ dot) × Lacks slash name)
      ⊎ ((d : Text) × (l : Text) × (name ≡ d ++ (slash ∷ l))
          × Lacks slash l
          × IsName d
          × (path_dir name ≡ d))
parent_cases name h = elim (last_slash name) [
  | inl top ↦ inl (path_dir_top name top, top)
  | inr (d, l, e, plain) ↦
      let below = IsName-append_left d l (subst IsName e h) in
      inr (d, l, e, plain, below, ap path_dir e ∙ path_dir-slash d l below plain)
]
