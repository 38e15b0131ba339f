-- ===== src/FsHelpers/Ending.antt =====
-- fs_helpers.go: the fuel of a walk.
use fluxplane_system.Prelude.{
  ℕ, suc, ◌+◌, ◌≤◌, ◌<◌, ◌≡◌, ◌≢◌, refl, sym, ap, ◌∙◌, subst, true, false, not, ◌||◌, [], ◌∷◌, ◌++◌,
  some, arith, if◌then◌else◌, Bool-cases, Option-cases, ◌⊎◌, inl, inr, All, All-weaken, ltb, ◌==◌,
  length, length-append, append_assoc,
}
use fluxplane_system.GoText.{
  Text, slash, backslash, replace_all, trim_space, text_eq, is_empty, trim_prefix, count_char,
}
use fluxplane_system.GoText.Laws.{text_eq_iff, is_empty_iff, trim_prefix-append}
use fluxplane_system.GoPath.{dot, is_valid_path, path_join, path_clean, is_abs}
use fluxplane_system.GoPath.Laws.{
  IsName, IsName-ne-nil, IsName-ne-dot, IsName-is_abs, IsName-append, path_join_of_IsName,
  path_clean_of_IsName, valid-IsName,
}
use fluxplane_system.System.{
  Result, ok, err, >>=-eq-ok, ok-injective, FileInfo, DirEntry, FileSystem,
}
use fluxplane_system.PathPattern.{ElementMatch}
use fluxplane_system.FsHelpers.{Checks, clean_fs_name}
use fluxplane_system.FsHelpers.WalkDir.{Signal, keep_going, skip_dir, out_of_fuel, listed}
use fluxplane_system.FsHelpers.Walk.{
  EntryAnswers, WalkOptions, WalkEntry, Walked, depth_of, limit_of, rel_to_root, level_of,
  walk_entry, add_entry, refused, visit, walk,
}
use fluxplane_system.FsHelpers.Walking.{Ends, walk_root-Ends}

-- The name of what lies under the root at a relative name.
pub under : Text → Text → Text
under root rel = if text_eq root dot then rel else root ++ (slash ∷ rel)

path_join-dot : (x : Text) → IsName x → path_join dot x ≡ x
unfolding path_join path_clean
path_join-dot x h =
    let some_text : is_empty x ≡ false = ground (arith, is_empty_iff x, IsName-ne-nil x h) in
    let cleaned = path_clean_of_IsName x h in
    let shown = rw (IsName-is_abs x h, path_clean) at cleaned in rw some_text shown

rel_to_root-under : (root rel : Text) → rel_to_root root (under root rel) ≡ rel
unfolding under
rel_to_root-under root rel = elim (Bool-cases (text_eq root dot)) [
  | inl e ↦ rw e refl
  | inr e ↦ rw e (
      subst (λ t. trim_prefix (root ++ (slash ∷ [])) t ≡ rel) (append_assoc root (slash ∷ []) rel)
        (trim_prefix-append (root ++ (slash ∷ [])) rel))
]

count_char-append : (c : ℕ) (s t : Text) → count_char c (s ++ t) ≡ count_char c s + count_char c t
unfolding count_char
count_char-append c [] t = omega arith
count_char-append c (x ∷ s) t = elim (Bool-cases (x == c)) [
  | inl e ↦ let same = count_char-append c s t in rw e (omega arith)
  | inr e ↦ rw e (count_char-append c s t)
]

-- Where a walk from the root is, with its level.
pub data Place (root : Text) : Text → ℕ → Type 0 where
  at_root : Place root root 0
  at_rel : (rel : Text) → IsName rel → Place root (under root rel) (suc (count_char slash rel))

abbrev pub IsRootName : Text → Type 0
IsRootName root = (root ≡ dot) ⊎ ((text_eq root dot ≡ false) × IsName root)

IsName-under : (root rel : Text) → IsRootName root → IsName rel → IsName (under root rel)
unfolding under text_eq
IsName-under root rel (inl e) h = rw e h
IsName-under root rel (inr (other, name)) h = rw other (IsName-append root rel name h)

path_join-root : (root x : Text) → IsRootName root → IsName x → path_join root x ≡ under root x
unfolding under text_eq
path_join-root root x (inl e) h = rw e (path_join-dot x h)
path_join-root root x (inr (other, name)) h = rw other (path_join_of_IsName root x name h)

under-append : (root rel x : Text) → under root rel ++ (slash ∷ x) ≡ under root (rel ++ (slash ∷ x))
unfolding under
under-append root rel x = elim (Bool-cases (text_eq root dot)) [
  | inl e ↦ rw e refl
  | inr e ↦ rw e (append_assoc root (slash ∷ rel) (slash ∷ x))
]

count_slash : (x : Text) → count_char slash (slash ∷ x) ≡ suc (count_char slash x)
unfolding count_char
count_slash x = refl

-- One step down is one level down, at least.
pub Place-below :
    (root name x : Text) (n : ℕ)
    → IsRootName root
    → IsName x
    → Place root name n
    → (m : ℕ) × (n < m) × Place root (path_join name x) m
Place-below root _ x _ good h at_root = (
  suc (count_char slash x),
  omega arith,
  subst (λ p. Place root p (suc (count_char slash x))) (sym (path_join-root root x good h))
      (at_rel x h),
)
Place-below root _ x _ good h (at_rel rel name) =
    let more = count_char-append slash rel (slash ∷ x) in
    (
      suc (count_char slash (rel ++ (slash ∷ x))),
      omega (arith, more, count_slash x),
      subst (λ p. Place root p (suc (count_char slash (rel ++ (slash ∷ x)))))
          (sym (
            path_join_of_IsName (under root rel) x (IsName-under root rel good name) h
            ∙ under-append root rel x))
          (at_rel (rel ++ (slash ∷ x)) (IsName-append rel x name h)),
    )

under-ne-root :
    (root rel : Text) → IsRootName root → IsName rel → text_eq (under root rel) root ≡ false
unfolding under
under-ne-root root rel good h = elim (Bool-cases (text_eq root dot)) [
  | inl e ↦
      let same : root ≡ dot = (text_eq_iff root dot).0 e in
      rw same (ground (arith, text_eq_iff rel dot, IsName-ne-dot rel h))
  | inr e ↦
      let longer : length (root ++ (slash ∷ rel)) ≡ length root + suc (length rel) =
        length-append root (slash ∷ rel) in
      rw e (elim (Bool-cases (text_eq (root ++ (slash ∷ rel)) root)) [
        | inr differs ↦ differs
        | inl eq ↦ absurd (
            let lengths : length (root ++ (slash ∷ rel)) ≡ length root =
              ap (λ t. length t) ((text_eq_iff (root ++ (slash ∷ rel)) root).0 eq) in
            omega arith)
      ])
]

module _ (match : ElementMatch) (o : WalkOptions) (root : Text) (ctx : Checks) (more : EntryAnswers)
    (good : IsRootName root) where
  refused-Ends : (name : Text) (d : DirEntry) → refused match o root name d ≢ some out_of_fuel
  unfolding refused
  refused-Ends name d = λ bad. ground (arith, bad)

  add_entry-Ends :
      (entry : FileInfo → WalkEntry) (r : Result FileInfo) (v : Walked)
      → Ends (add_entry (limit_of 10000 1000 o.max_entries) entry r v)
  unfolding add_entry
  add_entry-Ends entry (err _) v = λ bad. ground (arith, bad)
  add_entry-Ends entry (ok info) v = λ bad. ground (arith, bad)

  visit-Ends :
      (name : Text) (d : DirEntry) (v : Walked) → Ends (visit match o root ctx more name d v)
  unfolding visit
  visit-Ends name d v = elim (Option-cases (ctx v.checks)) [
    | inr (e, asked) ↦ rw (asked, visit) (λ bad. cc)
    | inl live ↦ elim (Option-cases (refused match o root name d)) [
      | inr (signal, answered) ↦
          rw (live, visit) (rw answered (λ bad. refused-Ends name d (answered ∙ ap some bad)))
      | inl taken ↦
          rw (live, visit)
            (rw taken (add_entry-Ends (walk_entry name d (level_of root name)) (more.info d) v))
    ]
  ]

  refused-deep :
      (rel : Text) (d : DirEntry)
      → IsName rel
      → d.is_dir ≡ true
      → ltb (depth_of o) (level_of root (under root rel)) ≡ true
      → refused match o root (under root rel) d ≡ some skip_dir
  unfolding refused
  refused-deep rel d h dir deep = rw (under-ne-root root rel good h) (rw deep (rw dir refl))

  visit-near :
      (name : Text) (n : ℕ) (d : DirEntry) (v : Walked)
      → Place root name n
      → (visit match o root ctx more name d v).0 ≡ keep_going
      → d.is_dir ≡ true
      → n ≤ depth_of o
  unfolding visit
  visit-near _ _ d v at_root going dir = omega arith
  visit-near _ _ d v (at_rel rel h) going dir =
      elim (Bool-cases (ltb (depth_of o) (level_of root (under root rel)))) [
        | inr near ↦
            let level = ap (λ r. suc (count_char slash r)) (rel_to_root-under root rel) in
            ground (arith, near, level)
        | inl deep ↦ absurd (elim (Option-cases (ctx v.checks)) [
          | inr (e, asked) ↦ let bad = rw (asked, visit) at going in cc
          | inl live ↦
              let bad = rw (live, visit) at going in
              let bad1 = rw (refused-deep rel d h dir deep) at bad in cc
        ])
      ]

pub clean_fs_name-IsRootName : (name root : Text) → clean_fs_name name ≡ ok root → IsRootName root
unfolding clean_fs_name
clean_fs_name-IsRootName name root h =
    let cleaned : Text = path_clean (trim_space (replace_all backslash slash name)) in
    let same = text_eq_iff cleaned dot in
    elim (Bool-cases
      (is_empty (trim_space (replace_all backslash slash name)) || text_eq cleaned dot)) [
        | inl dotted ↦ inl (sym (ok-injective (rw (dotted) at h)))
        | inr named ↦ elim (Bool-cases (is_abs cleaned || not (is_valid_path cleaned))) [
          | inl bad ↦ absurd (let h1 = rw named at h in let h2 = rw bad at h1 in cc)
          | inr good ↦
              let h1 = rw named at h in
              let h2 = rw good at h1 in
              let other : text_eq cleaned dot ≡ false = ground (arith, named) in
              let valid : is_valid_path cleaned ≡ true = ground (arith, good) in
              inr (
                subst (λ r. (text_eq r dot ≡ false) × IsName r) (ok-injective h2)
                  (other, valid-IsName cleaned valid (λ e. ground (arith, other, same, e))))
        ]
      ]

module _ {S : Type 0} where
  -- A walk of a file system whose directories list only names of one or more elements, none of them
  -- empty, "." or "..", ends before its fuel of two levels more than the depth is spent, for any
  -- context and whatever failures the file system reports.
  pub walk-Ends :
      (match : ElementMatch) (ctx : Checks) (more : EntryAnswers) (fs : FileSystem S) (name : Text)
      (o : WalkOptions) (s : S) (r : Signal × Walked)
      → ((dir : Text) → All (λ d. IsName d.name) (listed (more.partial dir) (fs.read_dir dir s)))
      → walk match ctx more fs name o s ≡ ok r
      → r.0 ≢ out_of_fuel
  unfolding walk
  walk-Ends match ctx more fs name o s r names walked =
      let (root, cleaned, returned) = >>=-eq-ok (clean_fs_name name) _ walked in
      let good = clean_fs_name-IsRootName name root cleaned in
      let start : Walked = record { entries = []; truncated = false; checks = 0 } in
      subst Ends (ok-injective returned) (
        walk_root-Ends fs s more.partial (visit match o root ctx more) (Place root) (depth_of o)
          (visit-Ends match o root ctx more good) (visit-near match o root ctx more good)
          (λ dir n place.
            All-weaken (λ d h. Place-below root dir d.name n good h place)
              (listed (more.partial dir) (fs.read_dir dir s)) (names dir))
          root start at_root)
