-- ===== src/MemSystem/Files.antt =====
-- memsystem/filesystem.go: reads after writes.
use fluxplane_system.Prelude.{
  ℕ, ◌+◌, ◌≡◌, refl, ◌≢◌, sym, ap, subst, ◌∙◌, inl, inr, not, ◌&&◌, none, some, if_cases,
}
use fluxplane_system.GoText.{Text, is_empty}
use fluxplane_system.GoMap.{lookup, has_key, lookup-insert_self, lookup-insert_ne}
use fluxplane_system.System.{
  Error, ok, err, Outcome, Context, Bytes, WriteFileOptions, Result-cases, on_ok_cases, not_exist,
}
use fluxplane_system.MemSystem.Nodes.{
  Node, MemFs, clean, put_node, file_node, or_default, ensure_parents, with_name,
}
use fluxplane_system.MemSystem.Changes.{write_at, write_file}
use fluxplane_system.MemSystem.Reads.{find_node, stat, read_file}
use fluxplane_system.MemSystem.Parents.{IsFileAt, ensure_parents-IsFileAt}

-- An operation over a cleaned name that ended well had a live context and a good name.
pub with_name_ok :
    {A : Type 0} (ctx : Context) (name : Text) (k : Text → MemFs → Outcome MemFs A) (f : MemFs)
    {a : A}
    → (with_name ctx name k f).0 ≡ ok a
    → (rel : Text) × (clean name ≡ ok rel) × (with_name ctx name k f ≡ k rel f)
with_name_ok (some e) name k f h = cc
with_name_ok none name k f h = elim (Result-cases (clean name)) [
  | inl (rel, e) ↦ (rel, e, rw (e, with_name) refl)
  | inr (x, e) ↦ absurd (failed x e)
]
  where
    failed : (x : Error) → clean name ≡ err x → ⊥
    failed x e = let h' = rw (e, with_name) at h in cc

-- What a successful write leaves: the parents created, and then the file.
abbrev pub Wrote : Text → (ℕ → Node) → MemFs → MemFs → Type 0
Wrote rel node f g = g ≡ put_node rel node (ensure_parents rel f).1

pub write_at_ok :
    (content : Bytes) (opts : WriteFileOptions) (rel : Text) (f : MemFs)
    → (write_at content opts rel f).0 ≡ ok tt
    → Wrote rel (file_node content (or_default opts.perm 0o644)) f (write_at content opts rel f).1
unfolding write_at
write_at_ok content opts rel f =
    if_cases Fine (is_empty rel) _ _ (λ _ h. cc)
      λ _.
        if_cases Fine (has_key rel f.nodes && not opts.overwrite) _ _ (λ _ h. cc)
          λ _.
            on_ok_cases {A = Unit {0}} Fine (ensure_parents rel f)
              (λ _ g. (ok tt, put_node rel (file_node content (or_default opts.perm 0o644)) g))
              (λ u e h. refl) (λ x e h. cc)
  where
    Fine : Outcome MemFs (Unit {0}) → Type 0
    Fine r = r.0 ≡ ok tt → Wrote rel (file_node content (or_default opts.perm 0o644)) f r.1

pub find_node_at :
    (name rel : Text) (n : Node) (f : MemFs)
    → clean name ≡ ok rel
    → lookup rel f.nodes ≡ some n
    → find_node name f ≡ ok (rel, n)
unfolding find_node
find_node_at name rel n f e found = rw (e, find_node) (rw (found, find_node) refl)

pub find_node_missing :
    (name rel : Text) (f : MemFs)
    → clean name ≡ ok rel
    → lookup rel f.nodes ≡ none
    → find_node name f ≡ err not_exist
unfolding find_node
find_node_missing name rel f e gone = rw (e, find_node) (rw (gone, find_node) refl)

pub read_file_at :
    (name rel : Text) (n : Node) (f : MemFs)
    → clean name ≡ ok rel
    → IsFileAt rel n f
    → read_file name f ≡ ok n.content
unfolding read_file
read_file_at name rel n f e (found, file) =
    rw (find_node_at name rel n f e found, read_file) (rw file refl)

pub stat_missing :
    (name rel : Text) (f : MemFs)
    → clean name ≡ ok rel
    → lookup rel f.nodes ≡ none
    → stat name f ≡ err not_exist
unfolding stat
stat_missing name rel f e gone = rw (find_node_missing name rel f e gone, stat) refl

pub write_file_ok :
    (ctx : Context) (name : Text) (content : Bytes) (opts : WriteFileOptions) (f : MemFs)
    → (write_file ctx name content opts f).0 ≡ ok tt
    → (rel : Text) × (clean name ≡ ok rel)
      × Wrote rel
          (file_node content (or_default opts.perm 0o644))
          f
          (write_file ctx name content opts f).1
unfolding write_file
write_file_ok ctx name content opts f h =
    let (rel, e, same) = with_name_ok ctx name (write_at content opts) f h in
    (
      rel,
      e,
      subst (λ r. Wrote rel (file_node content (or_default opts.perm 0o644)) f r.1) (sym same)
          (write_at_ok content opts rel f
            (ap (λ (r : Outcome MemFs (Unit {0})). r.0) (sym same) ∙ h)),
    )

pub put_node-IsFileAt :
    (rel k : Text) (node : ℕ → Node) (n : Node) (f : MemFs)
    → rel ≢ k
    → IsFileAt k n f
    → IsFileAt k n (put_node rel node f)
unfolding put_node
put_node-IsFileAt rel k node n f ne (e, d) =
    (lookup-insert_ne rel k (node (f.now + 1)) f.nodes ne ∙ e, d)

pub put_node_self :
    (rel : Text) (node : ℕ → Node) (f : MemFs)
    → lookup rel (put_node rel node f).nodes ≡ some (node (f.now + 1))
unfolding put_node
put_node_self rel node f = lookup-insert_self rel (node (f.now + 1)) f.nodes

-- After a successful `WriteFile`, `ReadFile` of the same name returns the bytes that were written.
pub read_file-write_file :
    (ctx : Context) (name : Text) (content : Bytes) (opts : WriteFileOptions) (f : MemFs)
    → (write_file ctx name content opts f).0 ≡ ok tt
    → read_file name (write_file ctx name content opts f).1 ≡ ok content
read_file-write_file ctx name content opts f h =
    let (rel, e, wrote) = write_file_ok ctx name content opts f h in
    subst (λ g. read_file name g ≡ ok content) (sym wrote)
      (read_file_at name rel _ _ e (
        put_node_self rel (file_node content (or_default opts.perm 0o644)) (ensure_parents rel f).1,
        refl,
      ))

-- A successful `WriteFile` leaves every file at another path as it was: its bytes, mode and time.
pub write_file_other :
    (ctx : Context) (name : Text) (content : Bytes) (opts : WriteFileOptions) (f : MemFs) (k : Text)
    (n : Node)
    → (write_file ctx name content opts f).0 ≡ ok tt
    → clean name ≢ ok k
    → IsFileAt k n f
    → IsFileAt k n (write_file ctx name content opts f).1
write_file_other ctx name content opts f k n h ne file =
    let (rel, e, wrote) = write_file_ok ctx name content opts f h in
    subst (IsFileAt k n) (sym wrote) (
      put_node-IsFileAt rel k (file_node content (or_default opts.perm 0o644)) n
        (ensure_parents rel f).1 (λ s. ne (e ∙ ap ok s)) (ensure_parents-IsFileAt k n rel f file))
