-- ===== src/MemSystem/Tree.antt =====
-- memsystem/filesystem.go: the tree of nodes. The root is a directory, every key a cleaned name, and
-- every ancestor of a node a directory; the methods that change nodes are made of the steps below.
use fluxplane_system.Prelude.{
  ℕ, ◌+◌, ◌≡◌, refl, sym, ap, subst, ◌∙◌, ◌⊎◌, inl, inr, true, List, [], ◌∷◌, ◌++◌, arith, some,
  Bool-cases,
}
use fluxplane_system.GoText.{Text, slash, text_eq}
use fluxplane_system.GoText.Laws.{Lacks, text_eq_iff}
use fluxplane_system.GoPath.Laws.{IsName}
use fluxplane_system.GoMap.{GoMap, lookup, insert, lookup-insert, lookup-insert_self}
use fluxplane_system.System.{ok}
use fluxplane_system.MemSystem.Nodes.{Node, MemFs, put_node, dir_node, is_file_at, ensure_each}
use fluxplane_system.MemSystem.Names.{IsKey, Chain, last_name, slash_cases}

-- A directory stands at the path.
abbrev pub IsDirAt : Text → MemFs → Type 0
IsDirAt p f = (n : Node) × (lookup p f.nodes ≡ some n) × (n.dir ≡ true)

abbrev pub HasParents : Text → MemFs → Type 0
HasParents p f = (a r : Text) → p ≡ a ++ (slash ∷ r) → IsDirAt a f

pub record IsTree (f : MemFs) : Type 0 where
  pub root : IsDirAt [] f
  pub names : (k : Text) (n : Node) → lookup k f.nodes ≡ some n → IsKey k
  pub parents : (k : Text) (n : Node) → lookup k f.nodes ≡ some n → HasParents k f

-- What is written at `p` may replace no directory by a file.
abbrev pub MayPut : Text → Node → MemFs → Type 0
MayPut p n f = (n.dir ≡ true) ⊎ (¬ IsDirAt p f)

abbrev pub stored : Text → Node → MemFs → GoMap Node
stored p n f = insert p n f.nodes

IsDirAt-insert :
    (p : Text) (n : Node) (f g : MemFs) (a : Text)
    → g.nodes ≡ stored p n f
    → MayPut p n f
    → IsDirAt a f
    → IsDirAt a g
IsDirAt-insert p n f g a e (inl isdir) (m, found, d) = elim (Bool-cases (text_eq p a)) [
  | inl same ↦ (n, ap (lookup a) e ∙ ground (arith, lookup-insert p a n f.nodes), isdir)
  | inr other ↦ (m, ap (lookup a) e ∙ ground (arith, lookup-insert p a n f.nodes), d)
]
IsDirAt-insert p n f g a e (inr free) (m, found, d) = elim (Bool-cases (text_eq p a)) [
  | inl same ↦
      absurd (free (subst (λ k. IsDirAt k f) (sym ((text_eq_iff p a).0 same)) (m, found, d)))
  | inr other ↦ (m, ap (lookup a) e ∙ ground (arith, lookup-insert p a n f.nodes), d)
]

-- What is found after a write is the node written, or was there before.
insert_cases :
    (p k : Text) (n m : Node) (ns : GoMap Node)
    → lookup k (insert p n ns) ≡ some m
    → ((k ≡ p) × (m ≡ n)) ⊎ (lookup k ns ≡ some m)
insert_cases p k n m ns h = elim (Bool-cases (text_eq p k)) [
  | inl same ↦ inl (sym ((text_eq_iff p k).0 same), ground (arith, lookup-insert p k n ns))
  | inr other ↦ inr (ground (arith, lookup-insert p k n ns))
]

-- A write at a valid name whose ancestors are directories keeps the tree.
pub insert-IsTree :
    (p : Text) (n : Node) (f g : MemFs)
    → g.nodes ≡ stored p n f
    → IsTree f
    → IsName p
    → HasParents p f
    → MayPut p n f
    → IsTree g
insert-IsTree p n f g e t name above may = record {
  root = IsDirAt-insert p n f g [] e may t.root;
  names = λ k m h. elim (insert_cases p k n m f.nodes (ap (lookup k) (sym e) ∙ h)) [
    | inl (same, _) ↦ inr (subst IsName (sym same) name)
    | inr old ↦ t.names k m old
  ];
  parents = λ k m h a r cut. elim (insert_cases p k n m f.nodes (ap (lookup k) (sym e) ∙ h)) [
    | inl (same, _) ↦ IsDirAt-insert p n f g a e may (above a r (sym same ∙ cut))
    | inr old ↦ IsDirAt-insert p n f g a e may (t.parents k m old a r cut)
  ];
}

-- The ancestors of a name whose parent is a directory of the tree.
pub HasParents-below :
    (q l : Text) (f : MemFs)
    → IsTree f
    → IsDirAt q f
    → Lacks slash l
    → HasParents (q ++ (slash ∷ l)) f
HasParents-below q l f t (n, found, d) plain a r e = elim (slash_cases q l a r e plain) [
  | inl same ↦ subst (λ k. IsDirAt k f) (sym same) (n, found, d)
  | inr (r', below) ↦ t.parents q n found a r' below
]

not-Lacks-slash : (a r : Text) → ¬ Lacks slash (a ++ (slash ∷ r))
not-Lacks-slash [] r (ne, h) = ne refl
not-Lacks-slash (x ∷ a) r (ne, h) = not-Lacks-slash a r h

pub HasParents-top : (l : Text) (f : MemFs) → Lacks slash l → HasParents l f
HasParents-top l f plain a r e = absurd (not-Lacks-slash a r (subst (Lacks slash) e plain))

pub put_dir-IsTree :
    (p : Text) (mode : ℕ) (f : MemFs)
    → IsTree f
    → IsName p
    → HasParents p f
    → IsTree (put_node p (dir_node mode) f) × IsDirAt p (put_node p (dir_node mode) f)
unfolding put_node
put_dir-IsTree p mode f t name above =
    let node = dir_node mode (f.now + 1) in
    (
      insert-IsTree p node f (put_node p (dir_node mode) f) refl t name above (inl refl),
      (node, lookup-insert_self p node f.nodes, refl),
    )

-- A loop that creates the directories of a chain.
pub ensure_each-IsTree :
    (q : Text) (ps : List Text) (f : MemFs)
    → IsTree f
    → IsDirAt q f
    → Chain q ps
    → IsTree (ensure_each ps f).1
      × ((ensure_each ps f).0 ≡ ok tt → IsDirAt (last_name q ps) (ensure_each ps f).1)
unfolding ensure_each
ensure_each-IsTree q [] f t d c = (t, λ _. d)
ensure_each-IsTree q (p ∷ ps) f t d ((l, e, plain), name, c) = elim (Bool-cases (is_file_at p f)) [
  | inl blocked ↦ rw blocked (t, λ h. cc)
  | inr free ↦
      let above = subst (λ k. HasParents k f) (sym e) (HasParents-below q l f t d plain) in
      let (t', d') = put_dir-IsTree p 0o755 f t name above in
      rw free (ensure_each-IsTree p ps (put_node p (dir_node 0o755) f) t' d' c)
]
