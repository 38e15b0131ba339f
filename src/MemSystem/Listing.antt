-- ===== src/MemSystem/Listing.antt =====
-- memsystem/filesystem.go: the listing of a directory.
use fluxplane_system.Prelude.{
  ◌≡◌, refl, ◌≢◌, sym, ap, subst, ◌∙◌, inl, inr, ◌↔◌, false≢true, List, [], ◌∷◌, ◌++◌, arith, some,
  append_assoc, In, length, length-append, drop,
}
use fluxplane_system.GoText.{Text, slash, is_empty, trim_prefix, cut, CutResult}
use fluxplane_system.GoText.Laws.{Lacks, has_prefix-append, has_prefix_split, trim_prefix-append}
use fluxplane_system.GoPath.Laws.{IsName, IsName-ne-nil}
use fluxplane_system.GoMap.{lookup, has_key, keys, has_key_iff, lookup_of_In, In-of_lookup}
use fluxplane_system.System.{ok, DirEntry}
use fluxplane_system.MemSystem.Nodes.{Node, MemFs, clean}
use fluxplane_system.MemSystem.Reads.{read_dir, dir_prefix, collect_children, values}
use fluxplane_system.MemSystem.Names.{IsKey}
use fluxplane_system.MemSystem.Tree.{IsDirAt, IsTree}
use fluxplane_system.GoText.Splitting.{cut_none}
use fluxplane_system.GoPath.Laws.{IsName-append_left, IsName-append_right}
use fluxplane_system.MemSystem.Files.{find_node_at}
use fluxplane_system.MemSystem.Collecting.{
  cut_cases, IsStep, names, names-values, collect-AreNamed, collect_sound, collect_adds,
}

-- The path of a child.
abbrev pub child_path : Text → Text → Text
child_path rel x = dir_prefix rel ++ x

below_IsName :
    (rel rest : Text) → IsKey (dir_prefix rel ++ rest) → dir_prefix rel ++ rest ≢ rel → IsName rest
unfolding is_empty
below_IsName [] rest (inl e) ne = absurd (ne e)
below_IsName [] rest (inr name) ne = name
below_IsName (c ∷ rel) rest (inl e) ne = absurd (cc)
below_IsName (c ∷ rel) rest (inr name) ne =
    IsName-append_right (c ∷ rel) rest
      (subst IsName (append_assoc (c ∷ rel) (slash ∷ []) rest) name)

child_path-slash :
    (rel b a : Text) → dir_prefix rel ++ (b ++ (slash ∷ a)) ≡ child_path rel b ++ (slash ∷ a)
child_path-slash rel b a = sym (append_assoc (dir_prefix rel) b (slash ∷ a))

-- A child: a path element with a node of its own.
abbrev IsChild : Text → MemFs → Text → Type 0
IsChild rel f x =
    (x ≢ []) × Lacks slash x × ((m : Node) × (lookup (child_path rel x) f.nodes ≡ some m))

step_rest :
    (rel x rest : Text) (n : Node) (f : MemFs)
    → IsTree f
    → lookup (dir_prefix rel ++ rest) f.nodes ≡ some n
    → dir_prefix rel ++ rest ≢ rel
    → x ≡ (cut slash rest).before
    → IsChild rel f x
step_rest rel x rest n f t found ne e =
    let name = below_IsName rel rest (t.names (dir_prefix rel ++ rest) n found) ne in
    elim (cut_cases slash rest) [
      | inl (plain, whole) ↦
          subst (IsChild rel f) (sym (e ∙ whole)) (IsName-ne-nil rest name, plain, (n, found))
      | inr (b, a, split, plain, first) ↦
          let first_name = IsName-append_left b a (subst IsName split name) in
          let (m, at_child, d) =
            t.parents (dir_prefix rel ++ rest) n found (child_path rel b) a
              (ap (λ r. dir_prefix rel ++ r) split ∙ child_path-slash rel b a) in
          subst (IsChild rel f) (sym (e ∙ first)) (IsName-ne-nil b first_name, plain, (m, at_child))
    ]

step-IsChild :
    (rel x k : Text) (n : Node) (f : MemFs)
    → IsTree f
    → lookup k f.nodes ≡ some n
    → IsStep rel k x
    → IsChild rel f x
step-IsChild rel x k n f t found (ne, below, e) =
    let p = dir_prefix rel in
    let rest = drop (length p) k in
    let same : k ≡ p ++ rest = has_prefix_split p k below in
    step_rest rel x rest n f t (subst (λ y. lookup y f.nodes ≡ some n) same found)
      (λ s. ne (same ∙ s))
      (e
        ∙ ap (λ y. (cut slash (trim_prefix p y)).before) same
        ∙ ap (λ y. (cut slash y).before) (trim_prefix-append p rest))

child_ne : (rel x : Text) → x ≢ [] → child_path rel x ≢ rel
unfolding is_empty
child_ne [] x ne e = ne e
child_ne (c ∷ rel) x ne e = absurd (
    omega (
      arith,
      ap length e,
      length-append ((c ∷ rel) ++ (slash ∷ [])) x,
      length-append (c ∷ rel) (slash ∷ []),
    ))

child-IsStep : (rel x : Text) → x ≢ [] → Lacks slash x → IsStep rel (child_path rel x) x
child-IsStep rel x ne plain = (
  child_ne rel x ne,
  has_prefix-append (dir_prefix rel) x,
  sym (
      ap (λ y. (cut slash y).before) (trim_prefix-append (dir_prefix rel) x)
      ∙ ap (λ (r : CutResult). r.before) (cut_none slash x plain)),
)

listed_iff :
    (rel : Text) (f : MemFs) (x : Text)
    → IsTree f
    → In x (names (values (collect_children rel f f.nodes []))) ↔ IsChild rel f x
unfolding has_key
listed_iff rel f x t =
    let found = collect_children rel f f.nodes [] in
    let same : names (values found) ≡ keys found =
      names-values found (collect-AreNamed rel f f.nodes [] tt) in
    (
      λ i. elim (collect_sound rel f f.nodes [] x ((has_key_iff x found).1 (subst (In x) same i))) [
        | inl h ↦ absurd (false≢true h)
        | inr (k, n, i, step) ↦
            let (w, e) = lookup_of_In k n f.nodes i in step-IsChild rel x k w f t e step
      ],
      λ (ne, plain, (m, e)). subst (In x) (sym same) (
          (has_key_iff x found).0 (
            collect_adds rel f f.nodes [] x (child_path rel x) m
              (In-of_lookup (child_path rel x) m f.nodes e) (child-IsStep rel x ne plain))),
    )

-- In a tree, `ReadDir` of a directory succeeds, and lists a name exactly if it is a path element
-- and there is a node at the directory's path joined with it.
pub read_dir_iff :
    (name rel : Text) (f : MemFs)
    → IsTree f
    → clean name ≡ ok rel
    → IsDirAt rel f
    → (es : List DirEntry) × (read_dir name f ≡ ok es)
      × ((x : Text)
          → In x (names es) ↔ (
              (x ≢ [])
              × Lacks slash x
              × ((m : Node) × (lookup (child_path rel x) f.nodes ≡ some m))))
unfolding read_dir
read_dir_iff name rel f t e (n, found, d) = (
  values (collect_children rel f f.nodes []),
  rw (find_node_at name rel n f e found, read_dir) (rw d refl),
  λ x. listed_iff rel f x t,
)
