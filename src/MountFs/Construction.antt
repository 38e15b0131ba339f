-- ===== src/MountFs/Construction.antt =====
-- mountfs/mountfs.go: `New`, its checks of the roots and the tables that it makes of them.
use fluxplane_system.Prelude.{
  All, append-nil, append_assoc, ℕ, ◌≡◌, refl, ◌≢◌, sym, ap, subst, ◌∙◌, ◌⊎◌, inl, inr, true, false,
  not, ◌||◌, false≢true, List, [], ◌∷◌, ◌++◌, arith, Option, none, some, Bool-cases, if_cases,
  if◌then◌else◌, In, In-append_left, In-append_right, In-append_cases,
}
use fluxplane_system.GoText.{
  Text, codes, slash, backslash, text_eq, is_empty, trim_space, contains_char, contains_any,
  Unicode,
}
use fluxplane_system.GoText.Laws.{Lacks, text_eq_iff, is_empty_iff}
use fluxplane_system.GoText.Trimming.{trim_space_idem, replace_all_of_Lacks}
use fluxplane_system.GoPath.{dot}
use fluxplane_system.GoPath.Laws.{IsName}
use fluxplane_system.GoMap.{
  lookup, insert, has_key, lookup-insert, lookup-insert_self, lookup-insert_ne, lookup-none,
}
use fluxplane_system.System.{
  ok, FileSystem, >>=-eq-ok, guard-eq-ok, ok-injective, duplicate_root, invalid_root_name,
}
use fluxplane_system.MountFs.CleanNames.{clean_relative_cases}
use fluxplane_system.MountFs.Accepted.{
  AreTaken, AllDistinct, normalize_root-IsTaken, AllDistinct-append_one,
}
use fluxplane_system.MountFs.Roots.{
  Access, unset, read_only, read_write, other_access, Root, RootInfo, Mount, clean_input,
  clean_relative, valid_root_name, normalize_access, normalize_root, add_roots, new,
}

-- The root of the base, or a valid name.
abbrev pub IsRootPath : Text → Type 0
IsRootPath p = (p ≡ dot) ⊎ IsName p

-- The primary root's name, or one that the syntax @name can hold.
abbrev pub IsRootName : Text → Type 0
IsRootName k = (k ≡ []) ⊎ ((k ≢ []) × Lacks slash k × (clean_input k ≡ k))

abbrev pub IsGranted : Access → Type 0
IsGranted a = (a ≡ read_only) ⊎ (a ≡ read_write)

pub record IsRoot (r : RootInfo) : Type 0 where
  pub path : IsRootPath r.path
  pub name : IsRootName r.name
  pub access : IsGranted r.access

-- The map of roots and their order hold the same roots, each under its own name.
pub record IsMounted {S : Type 0} (m : Mount S) : Type 0 where
  pub sound :
      (k : Text) (r : RootInfo) → lookup k m.roots ≡ some r → (r.name ≡ k) × IsRoot r × In r m.order
  pub complete : (r : RootInfo) → In r m.order → lookup r.name m.roots ≡ some r

normalize_access-IsGranted : (a b : Access) → normalize_access a ≡ ok b → IsGranted b
unfolding normalize_access
normalize_access-IsGranted unset b h = inl (cc)
normalize_access-IsGranted read_only b h = inl (cc)
normalize_access-IsGranted read_write b h = inr (cc)
normalize_access-IsGranted (other_access t) b h = cc

contains_any-Lacks :
    (c : ℕ) (chars s : Text)
    → contains_char c chars ≡ true
    → contains_any chars s ≡ false
    → Lacks c s
unfolding contains_any
contains_any-Lacks c chars [] h k = tt
contains_any-Lacks c chars (x ∷ s) h k = (
  λ e.
      absurd
        (false≢true (sym (ground arith) ∙ subst (λ y. contains_char y chars ≡ true) (sym e) h)),
  contains_any-Lacks c chars s h (ground arith),
)

valid_root_name-chars :
    (u : Unicode) (name : Text)
    → valid_root_name u name ≡ true
    → contains_any (codes "@/\\") name ≡ false
unfolding valid_root_name
valid_root_name-chars u name h = ground arith

IsRootName-of :
    (u : Unicode) (raw : Text)
    → (is_empty (trim_space raw) || valid_root_name u (trim_space raw)) ≡ true
    → IsRootName (trim_space raw)
unfolding clean_input
IsRootName-of u raw h = elim (Bool-cases (is_empty (trim_space raw))) [
  | inl e ↦ inl ((is_empty_iff (trim_space raw)).0 e)
  | inr e ↦
      let name = trim_space raw in
      let chars = valid_root_name-chars u name (ground arith) in
      inr (
        (λ none. absurd (false≢true (sym e ∙ (is_empty_iff name).1 none))),
        contains_any-Lacks slash (codes "@/\\") name (unfold contains_char in refl) chars,
        ap trim_space (
              replace_all_of_Lacks backslash slash name (
                contains_any-Lacks backslash (codes "@/\\") name (unfold contains_char in refl)
                  chars))
            ∙ trim_space_idem raw,
      )
]

path_of :
    (raw rel : Text) → clean_relative raw ≡ ok rel → IsRootPath (if is_empty rel then dot else rel)
path_of raw rel h = elim (clean_relative_cases raw rel h) [
  | inl (e, _) ↦
      if_cases IsRootPath (is_empty rel) _ _ (λ _. inl refl)
        (λ ne. absurd (false≢true (sym ne ∙ (is_empty_iff rel).1 e)))
  | inr (name, _, _) ↦ if_cases IsRootPath (is_empty rel) _ _ (λ _. inl refl) (λ _. inr name)
]

normalize_root-IsRoot :
    (u : Unicode) (root : Root) (r : RootInfo) → normalize_root u root ≡ ok r → IsRoot r
unfolding normalize_root
normalize_root-IsRoot u root r h =
    let name = trim_space root.name in
    let (valid, h₁) = guard-eq-ok (is_empty name || valid_root_name u name) invalid_root_name _ h in
    let (path, at_path, h₂) = >>=-eq-ok (clean_relative root.path) _ h₁ in
    let (access, granted, h₃) = >>=-eq-ok (normalize_access root.access) _ h₂ in
    subst IsRoot (ok-injective h₃) (record {
      path = path_of root.path path at_path;
      name = IsRootName-of u root.name valid;
      access = normalize_access-IsGranted root.access access granted;
    })

lookup-nil : (k : Text) {r : RootInfo} → lookup {V = RootInfo} k [] ≢ some r
unfolding lookup
lookup-nil k h = cc

module _ {S : Type 0} where
  add_root-IsMounted :
      (m : Mount S) (r : RootInfo)
      → IsMounted m
      → IsRoot r
      → has_key r.name m.roots ≡ false
      → IsMounted (record m { roots = insert r.name r m.roots; order = m.order ++ (r ∷ []) })
  add_root-IsMounted m r inv root fresh = record {
    sound = λ k q found. elim (Bool-cases (text_eq r.name k)) [
      | inl same ↦
          let is_r : q ≡ r = ground (arith, lookup-insert r.name k r m.roots) in
          (
            ap (λ (x : RootInfo). x.name) is_r ∙ (text_eq_iff r.name k).0 same,
            subst IsRoot (sym is_r) root,
            subst (λ x. In x (m.order ++ (r ∷ []))) (sym is_r)
                (In-append_right r m.order (r ∷ []) (inl refl)),
          )
      | inr other ↦
          let (named, ir, i) = inv.sound k q (ground (arith, lookup-insert r.name k r m.roots)) in
          (named, ir, In-append_left q m.order (r ∷ []) i)
    ];
    complete = λ q i. elim (In-append_cases q m.order (r ∷ []) i) [
      | inl old ↦
          let found = inv.complete q old in
          lookup-insert_ne r.name q.name r m.roots (λ same.
            cc
              (found, subst (λ k. lookup k m.roots ≡ none) same (lookup-none r.name m.roots fresh)))
          ∙ found
      | inr (inl e) ↦
          subst (λ x. lookup x.name (insert r.name r m.roots) ≡ some x) (sym e)
            (lookup-insert_self r.name r m.roots)
      | inr (inr bad) ↦ absurd bad
    ];
  }

  -- A name that is no key of the map is no name of the roots in order.
  fresh_name :
      (m : Mount S) (name : Text) (order : List RootInfo)
      → ((q : RootInfo) → In q order → lookup q.name m.roots ≡ some q)
      → has_key name m.roots ≡ false
      → All (λ q. name ≢ q.name) order
  fresh_name m name [] listed fresh = tt
  fresh_name m name (q ∷ order) listed fresh = (
    λ same. absurd (
        let found = listed q (inl refl) in
        let missing : lookup q.name m.roots ≡ none =
          subst (λ k. lookup k m.roots ≡ none) same (lookup-none name m.roots fresh) in
        cc),
    fresh_name m name order (λ r i. listed r (inr i)) fresh,
  )

  -- What the loop makes of a table that meets the invariant, and of the roots that are left.
  record IsExtended (m m' : Mount S) (roots : List Root) : Type 0 where
    infos : List RootInfo
    appended : m'.order ≡ m.order ++ infos
    taken : AreTaken roots infos
    distinct : AllDistinct m'.order
    mounted : IsMounted m'
    based : m'.base ≡ m.base

  add_roots-IsExtended :
      (u : Unicode) (roots : List Root) (m m' : Mount S)
      → IsMounted m
      → AllDistinct m.order
      → add_roots u roots m ≡ ok m'
      → IsExtended m m' roots
  unfolding add_roots
  add_roots-IsExtended u [] m m' inv distinct h =
      subst (λ x. IsExtended m x []) (ok-injective h)
        (record {
          infos = [];
          appended = sym (append-nil m.order);
          taken = tt;
          distinct = distinct;
          mounted = inv;
          based = refl;
        })
  add_roots-IsExtended u (root ∷ rest) m m' inv distinct h =
      let (info, normal, h₁) = >>=-eq-ok (normalize_root u root) _ h in
      let (fresh, h₂) = guard-eq-ok (not (has_key info.name m.roots)) duplicate_root _ h₁ in
      let unused : has_key info.name m.roots ≡ false = ground arith in
      let later =
        add_roots-IsExtended u rest
          (record m { roots = insert info.name info m.roots; order = m.order ++ (info ∷ []) }) m'
          (add_root-IsMounted m info inv (normalize_root-IsRoot u root info normal) unused)
          (AllDistinct-append_one m.order info distinct
            (fresh_name m info.name m.order inv.complete unused))
          h₂ in
      record {
        infos = info ∷ later.infos;
        appended = later.appended ∙ append_assoc m.order (info ∷ []) later.infos;
        taken = (normalize_root-IsTaken u root info normal, later.taken);
        distinct = later.distinct;
        mounted = later.mounted;
        based = later.based;
      }

  -- If `New` succeeds, each root that it was given, in their order, is taken over with its trimmed
  -- name, its cleaned path and its access, where no access means read-only; every one has a clean
  -- path, a usable name and a known access, and no two of them have one name. The map of roots and
  -- their order hold the same roots, each under its own name, over the base that was given.
  pub new-IsMounted :
      (u : Unicode) (base : Option (FileSystem S)) (roots : List Root) (m : Mount S)
      → new u base roots ≡ ok m
      → IsMounted m × AreTaken roots m.order × AllDistinct m.order × (base ≡ some m.base)
  unfolding new
  new-IsMounted u none roots m h = cc
  new-IsMounted u (some base) [] m h = cc
  new-IsMounted u (some base) (root ∷ rest) m h =
      let made =
        add_roots-IsExtended u (root ∷ rest) (record { base = base; roots = []; order = [] }) m
          (record { sound = λ k r found. absurd (lookup-nil k found); complete = λ r i. absurd i })
          tt h in
      (
        made.mounted,
        subst (AreTaken (root ∷ rest)) (sym made.appended) made.taken,
        made.distinct,
        ap some (sym made.based),
      )
