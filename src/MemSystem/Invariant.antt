-- ===== src/MemSystem/Invariant.antt =====
-- memsystem/filesystem.go: the tree of nodes under `WriteFile` and `MkdirAll`.
use fluxplane_system.Prelude.{
  ℕ, ◌+◌, ◌≡◌, refl, sym, ap, subst, ◌∙◌, inl, inr, false, not, ◌&&◌, false≢true, List, [], ◌∷◌,
  arith, none, some, if_cases,
}
use fluxplane_system.GoText.{Text, slash, text_eq, is_empty}
use fluxplane_system.GoText.Laws.{Lacks, text_eq_iff, is_empty_iff}
use fluxplane_system.GoPath.Laws.{IsName}
use fluxplane_system.GoMap.{lookup, has_key, has_key_of_lookup}
use fluxplane_system.System.{
  Result, ok, Outcome, on_ok, Context, Bytes, WriteFileOptions, MkdirOptions, Result-cases,
  on_ok_cases, Unit-eq,
}
use fluxplane_system.MemSystem.Nodes.{
  Node, MemFs, new_file_system, clean, prefixes, put_node, dir_node, file_node, or_default,
  ensure_parents, with_name,
}
use fluxplane_system.MemSystem.Changes.{write_at, write_file, make_each, mkdir_at, mkdir_all}
use fluxplane_system.MemSystem.Names.{
  IsKey, Chain, last_name, IsLadder, prefixes-IsLadder, clean-IsKey,
}
use fluxplane_system.MemSystem.Tree.{
  IsDirAt, HasParents, IsTree, insert-IsTree, put_dir-IsTree, HasParents-below, HasParents-top,
}
use fluxplane_system.MemSystem.Parents.{ensure_parents-IsTree, ensure_parents_self}

root_only : (k : Text) (n : Node) → lookup k new_file_system.nodes ≡ some n → k ≡ []
unfolding lookup
root_only k n h = ground (arith, text_eq_iff [] k)

-- The new file system is a tree.
pub new_file_system-IsTree : IsTree new_file_system
unfolding lookup text_eq
new_file_system-IsTree = record {
  root = (_, refl, refl);
  names = λ k n h. inl (root_only k n h);
  parents =
      λ k n h. HasParents-top k new_file_system (subst (Lacks slash) (sym (root_only k n h)) tt);
}

-- An operation keeps the tree if its part over the cleaned name does.
pub with_name-IsTree :
    {A : Type 0} (ctx : Context) (name : Text) (k : Text → MemFs → Outcome MemFs A) (f : MemFs)
    → IsTree f
    → ((rel : Text) → clean name ≡ ok rel → IsKey rel → IsTree (k rel f).1)
    → IsTree (with_name ctx name k f).1
with_name-IsTree (some e) name k f t h = t
with_name-IsTree none name k f t h = elim (Result-cases (clean name)) [
  | inl (rel, e) ↦ rw (e, with_name) (h rel e (clean-IsKey name rel e))
  | inr (x, e) ↦ rw (e, with_name) t
]

pub IsDirAt-of_lookup :
    (p : Text) (f g : MemFs) → lookup p g.nodes ≡ lookup p f.nodes → IsDirAt p g → IsDirAt p f
IsDirAt-of_lookup p f g e (n, found, d) = (n, sym e ∙ found, d)

abbrev pub Kept : (A : Type 0) → Outcome MemFs A → Type 0
Kept A r = IsTree r.1

-- The parents of a name are created, and a file is put there.
pub put_file-IsTree :
    {A : Type 0} (done : Result A) (rel : Text) (node : ℕ → Node) (f : MemFs)
    → IsTree f
    → IsName rel
    → ¬ IsDirAt rel f
    → Kept A (on_ok (ensure_parents rel f) (λ _ g. (done, put_node rel node g)))
unfolding put_node
put_file-IsTree {A} done rel node f t name free =
    let (t', above) = ensure_parents-IsTree rel f t name in
    on_ok_cases {A = Unit {0}} (Kept A) (ensure_parents rel f) (λ _ g. (done, put_node rel node g))
      (λ u e.
        insert-IsTree rel (node ((ensure_parents rel f).1.now + 1)) (ensure_parents rel f).1
          (put_node rel node (ensure_parents rel f).1) refl t' name (above (e ∙ ap ok (Unit-eq u)))
          (inr λ d.
            free (
              IsDirAt-of_lookup rel f (ensure_parents rel f).1 (ensure_parents_self rel f name) d)))
      (λ x e. t')

pub IsName-of_key : (rel : Text) → IsKey rel → is_empty rel ≡ false → IsName rel
IsName-of_key rel (inl e) h = absurd (false≢true (sym h ∙ (is_empty_iff rel).1 e))
IsName-of_key rel (inr name) h = name

-- `WriteFile` keeps the tree of nodes, whatever its outcome, if the name is not that of a directory.
pub write_file-IsTree :
    (ctx : Context) (name : Text) (content : Bytes) (opts : WriteFileOptions) (f : MemFs)
    → IsTree f
    → ((rel : Text) → clean name ≡ ok rel → ¬ IsDirAt rel f)
    → IsTree (write_file ctx name content opts f).1
unfolding write_file write_at
write_file-IsTree ctx name content opts f t free =
    with_name-IsTree ctx name (write_at content opts) f t λ rel e key.
      if_cases (Kept (Unit {0})) (is_empty rel) _ _ (λ _. t)
        λ named.
          if_cases (Kept (Unit {0})) (has_key rel f.nodes && not opts.overwrite) _ _ (λ _. t)
            λ _.
              put_file-IsTree (ok tt) rel (file_node content (or_default opts.perm 0o644)) f t
                (IsName-of_key rel key named) (free rel e)

pub not-IsDirAt : (p : Text) (f : MemFs) → has_key p f.nodes ≡ false → ¬ IsDirAt p f
not-IsDirAt p f h (n, e, d) = false≢true (sym h ∙ has_key_of_lookup p n f.nodes e)

make_each-IsTree :
    (mode : ℕ) (q : Text) (ps : List Text) (f : MemFs)
    → IsTree f
    → IsDirAt q f
    → Chain q ps
    → IsTree (make_each mode ps f) × IsDirAt (last_name q ps) (make_each mode ps f)
unfolding make_each
make_each-IsTree mode q [] f t d c = (t, d)
make_each-IsTree mode q (p ∷ ps) f t d ((l, e, plain), name, c) =
    let above = subst (λ k. HasParents k f) (sym e) (HasParents-below q l f t d plain) in
    let (t', d') = put_dir-IsTree p mode f t name above in
    make_each-IsTree mode p ps (put_node p (dir_node mode) f) t' d' c

make_first :
    (mode : ℕ) (p : Text) (later : List Text) (f : MemFs)
    → IsTree f
    → Lacks slash p
    → IsName p
    → Chain p later
    → IsTree (make_each mode (p ∷ later) f)
      × IsDirAt (last_name p later) (make_each mode (p ∷ later) f)
unfolding make_each
make_first mode p later f t top name chain =
    let (t', d') = put_dir-IsTree p mode f t name (HasParents-top p f top) in
    make_each-IsTree mode p later (put_node p (dir_node mode) f) t' d' chain

make_ladder :
    (mode : ℕ) (rel : Text) (ps : List Text) (f : MemFs)
    → IsTree f
    → IsLadder rel ps
    → IsTree (make_each mode ps f) × IsDirAt rel (make_each mode ps f)
make_ladder mode rel ps f t s =
    subst (λ qs. IsTree (make_each mode qs f) × IsDirAt rel (make_each mode qs f)) (sym s.shape)
      (subst
        (λ k.
          IsTree (make_each mode (s.first ∷ s.later) f)
          × IsDirAt k (make_each mode (s.first ∷ s.later) f))
        s.ends (make_first mode s.first s.later f t s.top s.first_name s.chain))

mkdir_at-IsTree :
    (opts : MkdirOptions) (rel : Text) (f : MemFs)
    → IsTree f
    → IsKey rel
    → IsTree (mkdir_at opts rel f).1 × IsDirAt rel (mkdir_at opts rel f).1
unfolding mkdir_at make_each prefixes
mkdir_at-IsTree opts rel f t (inl e) = rw e (t, t.root)
mkdir_at-IsTree opts rel f t (inr name) =
    make_ladder (or_default opts.perm 0o755) rel (prefixes rel) f t (prefixes-IsLadder rel name)

-- `MkdirAll` keeps the tree of nodes, whatever its outcome.
pub mkdir_all-IsTree :
    (ctx : Context) (name : Text) (opts : MkdirOptions) (f : MemFs)
    → IsTree f
    → IsTree (mkdir_all ctx name opts f).1
unfolding mkdir_all
mkdir_all-IsTree ctx name opts f t =
    with_name-IsTree ctx name (mkdir_at opts) f t λ rel e key. (mkdir_at-IsTree opts rel f t key).0

-- If the nodes form a tree, then with a live context and a name that cleans to `rel`, `MkdirAll`
-- succeeds, and a directory stands there.
pub mkdir_all-IsDirAt :
    (name rel : Text) (opts : MkdirOptions) (f : MemFs)
    → IsTree f
    → clean name ≡ ok rel
    → ((mkdir_all none name opts f).0 ≡ ok tt) × IsDirAt rel (mkdir_all none name opts f).1
unfolding mkdir_all
mkdir_all-IsDirAt name rel opts f t e =
    rw (e, with_name)
      (unfold mkdir_at in refl, (mkdir_at-IsTree opts rel f t (clean-IsKey name rel e)).1)
