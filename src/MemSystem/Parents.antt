-- ===== src/MemSystem/Parents.antt =====
-- memsystem/filesystem.go: `ensureParents`, with the nodes it creates and those it leaves.
use fluxplane_system.Prelude.{
  ℕ, ◌+◌, ◌≤◌, ◌<◌, ◌≡◌, refl, ◌≢◌, sym, ap, subst, ◌∙◌, inl, inr, true, false, List, [], ◌∷◌,
  arith, some, Bool-cases, if_cases, All, length, length-append,
}
use fluxplane_system.GoText.{Text, slash, text_eq}
use fluxplane_system.GoText.Laws.{Lacks, text_eq_iff}
use fluxplane_system.GoPath.{dot, path_dir}
use fluxplane_system.GoPath.Laws.{IsName, IsName-ne-dot}
use fluxplane_system.GoMap.{lookup, lookup-insert_ne}
use fluxplane_system.System.{ok, Outcome}
use fluxplane_system.MemSystem.Nodes.{
  Node, MemFs, prefixes, put_node, dir_node, is_file_at, ensure_each, ensure_parents,
}
use fluxplane_system.MemSystem.Names.{Chain, last_name, IsLadder, prefixes-IsLadder, parent_cases}
use fluxplane_system.MemSystem.Tree.{
  IsDirAt, HasParents, IsTree, put_dir-IsTree, ensure_each-IsTree, HasParents-below, HasParents-top,
}

-- Whatever the outcome the nodes form a tree, and on success a directory stands at `d`.
abbrev Climbed : Text → Outcome MemFs (Unit {0}) → Type 0
Climbed d r = IsTree r.1 × (r.0 ≡ ok tt → IsDirAt d r.1)

ensure_first :
    (p : Text) (later : List Text) (f : MemFs)
    → IsTree f
    → Lacks slash p
    → IsName p
    → Chain p later
    → Climbed (last_name p later) (ensure_each (p ∷ later) f)
unfolding ensure_each
ensure_first p later f t top name chain = elim (Bool-cases (is_file_at p f)) [
  | inl blocked ↦ rw blocked (t, λ h. cc)
  | inr free ↦
      let (t', d') = put_dir-IsTree p 0o755 f t name (HasParents-top p f top) in
      rw free (ensure_each-IsTree p later (put_node p (dir_node 0o755) f) t' d' chain)
]

ensure_ladder :
    (d : Text) (ps : List Text) (f : MemFs)
    → IsTree f
    → IsLadder d ps
    → Climbed d (ensure_each ps f)
ensure_ladder d ps f t s =
    subst (λ qs. Climbed d (ensure_each qs f)) (sym s.shape)
      (subst (λ k. Climbed k (ensure_each (s.first ∷ s.later) f)) s.ends
        (ensure_first s.first s.later f t s.top s.first_name s.chain))

ensure_parents_top :
    (name : Text) (f : MemFs) → path_dir name ≡ dot → ensure_parents name f ≡ (ok tt, f)
unfolding ensure_parents text_eq
ensure_parents_top name f e = rw e refl

ensure_parents_below :
    (name d : Text) (f : MemFs)
    → path_dir name ≡ d
    → IsName d
    → ensure_parents name f ≡ ensure_each (prefixes d) f
unfolding ensure_parents
ensure_parents_below name d f e h = rw e (ground (arith, text_eq_iff d dot, IsName-ne-dot d h))

-- Creating the parents of a name keeps the tree, and on success every ancestor is a directory.
pub ensure_parents-IsTree :
    (name : Text) (f : MemFs)
    → IsTree f
    → IsName name
    → IsTree (ensure_parents name f).1
      × ((ensure_parents name f).0 ≡ ok tt → HasParents name (ensure_parents name f).1)
ensure_parents-IsTree name f t h = elim (parent_cases name h) [
  | inl (e, top) ↦ rw (ensure_parents_top name f e) (t, λ _. HasParents-top name f top)
  | inr (d, l, e, plain, below, parent) ↦
      let (t', d') = ensure_ladder d (prefixes d) f t (prefixes-IsLadder d below) in
      rw (ensure_parents_below name d f parent below) (
        t',
        λ done.
            subst (λ k. HasParents k (ensure_each (prefixes d) f).1) (sym e)
              (HasParents-below d l (ensure_each (prefixes d) f).1 t' (d' done) plain),
      )
]

-- A file at the path, with this content and mode.
abbrev pub IsFileAt : Text → Node → MemFs → Type 0
IsFileAt k n f = (lookup k f.nodes ≡ some n) × (n.dir ≡ false)

is_file_at-IsFileAt : (k : Text) (n : Node) (f : MemFs) → IsFileAt k n f → is_file_at k f ≡ true
unfolding is_file_at
is_file_at-IsFileAt k n f (e, d) = rw (e, is_file_at) (rw d refl)

ensure_each-IsFileAt :
    (k : Text) (n : Node) (ps : List Text) (f : MemFs)
    → IsFileAt k n f
    → IsFileAt k n (ensure_each ps f).1
unfolding ensure_each put_node
ensure_each-IsFileAt k n [] f h = h
ensure_each-IsFileAt k n (p ∷ ps) f (e, d) = elim (Bool-cases (is_file_at p f)) [
  | inl blocked ↦ rw blocked (e, d)
  | inr free ↦
      let other : p ≢ k = λ same.
        cc (subst (λ q. is_file_at q f ≡ false) same free, is_file_at-IsFileAt k n f (e, d)) in
      rw free (
        ensure_each-IsFileAt k n ps (put_node p (dir_node 0o755) f)
          (lookup-insert_ne p k (dir_node 0o755 (f.now + 1)) f.nodes other ∙ e, d))
]

-- Creating parents leaves every file as it is.
pub ensure_parents-IsFileAt :
    (k : Text) (n : Node) (name : Text) (f : MemFs)
    → IsFileAt k n f
    → IsFileAt k n (ensure_parents name f).1
unfolding ensure_parents
ensure_parents-IsFileAt k n name f h =
    if_cases (λ (r : Outcome MemFs (Unit {0})). IsFileAt k n r.1) (text_eq (path_dir name) dot) _ _
      (λ _. h) (λ _. ensure_each-IsFileAt k n (prefixes (path_dir name)) f h)

-- The names of a chain are no longer than its last one.
Chain-length :
    (q : Text) (ps : List Text)
    → Chain q ps
    → (length q ≤ length (last_name q ps)) × All (λ p. length p ≤ length (last_name q ps)) ps
Chain-length q [] c = (omega arith, tt)
Chain-length q (p ∷ ps) ((l, e, plain), name, c) =
    let (first, rest) = Chain-length p ps c in
    let longer : length q ≤ length p = omega (arith, ap length e, length-append q (slash ∷ l)) in
    (omega arith, (first, rest))

ensure_each_other :
    (k : Text) (ps : List Text) (f : MemFs)
    → All (λ p. p ≢ k) ps
    → lookup k (ensure_each ps f).1.nodes ≡ lookup k f.nodes
unfolding ensure_each put_node
ensure_each_other k [] f h = refl
ensure_each_other k (p ∷ ps) f (ne, h) = elim (Bool-cases (is_file_at p f)) [
  | inl blocked ↦ rw blocked refl
  | inr free ↦ rw free (
      ensure_each_other k ps (put_node p (dir_node 0o755) f) h
      ∙ lookup-insert_ne p k (dir_node 0o755 (f.now + 1)) f.nodes ne)
]

shorter_ne :
    (n : ℕ) (k : Text) (ps : List Text)
    → n < length k
    → All (λ p. length p ≤ n) ps
    → All (λ p. p ≢ k) ps
shorter_ne n k [] lt h = tt
shorter_ne n k (p ∷ ps) lt (le, h) =
    (λ e. absurd (omega (arith, ap length e)), shorter_ne n k ps lt h)

ladder_other :
    (d k : Text) (ps : List Text) (f : MemFs)
    → IsLadder d ps
    → length d < length k
    → lookup k (ensure_each ps f).1.nodes ≡ lookup k f.nodes
ladder_other d k ps f s lt =
    let (first, rest) = Chain-length s.first s.later s.chain in
    let bound : length (last_name s.first s.later) < length k = omega (arith, ap length s.ends) in
    subst (λ qs. lookup k (ensure_each qs f).1.nodes ≡ lookup k f.nodes) (sym s.shape)
      (ensure_each_other k (s.first ∷ s.later) f
        (shorter_ne (length (last_name s.first s.later)) k (s.first ∷ s.later) bound (first, rest)))

-- Creating the parents of a name does not touch the name itself.
pub ensure_parents_self :
    (name : Text) (f : MemFs)
    → IsName name
    → lookup name (ensure_parents name f).1.nodes ≡ lookup name f.nodes
ensure_parents_self name f h = elim (parent_cases name h) [
  | inl (e, top) ↦ rw (ensure_parents_top name f e) refl
  | inr (d, l, e, plain, below, parent) ↦ rw (ensure_parents_below name d f parent below) (
      ladder_other d name (prefixes d) f (prefixes-IsLadder d below)
        (omega (arith, ap length e, length-append d (slash ∷ l))))
]
