-- ===== src/MemSystem/Removal.antt =====
-- memsystem/filesystem.go: the tree of nodes under `Remove` and `Rename`.
use fluxplane_system.Prelude.{
  ◌≡◌, refl, ◌≢◌, sym, ap, subst, ◌∙◌, inl, inr, true, false, not, ◌&&◌, false≢true, [], ◌∷◌, ◌++◌,
  arith, none, some, Bool-cases, if_cases, Option-cases, any, append_assoc,
}
use fluxplane_system.GoText.{Text, slash, is_empty, has_prefix}
use fluxplane_system.GoText.Laws.{is_empty_iff, has_prefix-append}
use fluxplane_system.GoPath.Laws.{IsName}
use fluxplane_system.GoMap.{
  lookup, insert, delete, has_key, keys, lookup-delete, lookup-insert_ne, lookup-delete_ne,
  any-keys-false,
}
use fluxplane_system.System.{ok, Context, RenameOptions, on_ok_cases, Unit-eq}
use fluxplane_system.MemSystem.Nodes.{Node, MemFs, clean, ensure_parents, with_name}
use fluxplane_system.MemSystem.Changes.{remove_at, remove, rename_at, rename}
use fluxplane_system.MemSystem.Names.{IsKey}
use fluxplane_system.MemSystem.Tree.{IsDirAt, HasParents, IsTree, insert-IsTree}
use fluxplane_system.MemSystem.Parents.{
  ensure_parents-IsTree, ensure_parents_self, IsFileAt, ensure_parents-IsFileAt,
}
use fluxplane_system.MemSystem.Invariant.{Kept, with_name-IsTree, IsDirAt-of_lookup}

-- A node with nothing below it may go.
delete-IsTree :
    (rel : Text) (f g : MemFs)
    → g.nodes ≡ delete rel f.nodes
    → IsTree f
    → rel ≢ []
    → ((r : Text) (n : Node) → lookup (rel ++ (slash ∷ r)) f.nodes ≢ some n)
    → IsTree g
delete-IsTree rel f g same t named bare = record {
  root = stays [] t.root (named);
  names = λ k n h. t.names k n (was k n h);
  parents = λ k n h a r cut. stays a (t.parents k n (was k n h) a r cut) λ e. bare r n (
      subst (λ x. lookup x f.nodes ≡ some n) (cut ∙ ap (λ x. x ++ (slash ∷ r)) (sym e))
        (was k n h));
}
  where
    was : (k : Text) (n : Node) → lookup k g.nodes ≡ some n → lookup k f.nodes ≡ some n
    was k n h = ground (arith, lookup-delete rel k f.nodes, ap (lookup k) same)

    stays : (a : Text) → IsDirAt a f → rel ≢ a → IsDirAt a g
    stays a (n, e, d) ne = (n, ap (lookup a) same ∙ lookup-delete_ne rel a f.nodes ne ∙ e, d)

not-below :
    (rel : Text) (f : MemFs)
    → any (has_prefix (rel ++ (slash ∷ []))) (keys f.nodes) ≡ false
    → (r : Text) (n : Node) → lookup (rel ++ (slash ∷ r)) f.nodes ≢ some n
not-below rel f h r n e =
    let bad =
      any-keys-false (has_prefix (rel ++ (slash ∷ []))) (rel ++ (slash ∷ r)) n f.nodes h e in
    false≢true (
      sym bad
      ∙ subst (λ x. has_prefix (rel ++ (slash ∷ [])) x ≡ true) (append_assoc rel (slash ∷ []) r)
          (has_prefix-append (rel ++ (slash ∷ [])) r))

-- `Remove` keeps the tree of nodes, whatever its outcome.
pub remove-IsTree :
    (ctx : Context) (name : Text) (f : MemFs) → IsTree f → IsTree (remove ctx name f).1
unfolding remove remove_at
remove-IsTree ctx name f t = with_name-IsTree ctx name remove_at f t λ rel e key.
    if_cases (Kept (Unit {0})) (is_empty rel) _ _ (λ _. t)
      λ named.
        if_cases (Kept (Unit {0})) (not (has_key rel f.nodes)) _ _ (λ _. t)
          λ _.
            if_cases (Kept (Unit {0})) (any (has_prefix (rel ++ (slash ∷ []))) (keys f.nodes)) _ _
              (λ _. t)
              λ bare.
                delete-IsTree rel f (record f { nodes = delete rel f.nodes }) refl t
                  (λ e. false≢true (sym named ∙ (is_empty_iff rel).1 e)) (not-below rel f bare)

file_of_not_dir :
    (p : Text) (n : Node) (f : MemFs) → lookup p f.nodes ≡ some n → ¬ IsDirAt p f → n.dir ≡ false
file_of_not_dir p n f e h = elim (Bool-cases n.dir) [ inl d ↦ absurd (h (n, e, d)) | inr d ↦ d ]

-- A file moved from `old` to `new` in a tree where the parents of `new` are directories.
move-IsTree :
    (old new : Text) (n : Node) (g : MemFs)
    → IsTree g
    → IsFileAt old n g
    → old ≢ new
    → IsName new
    → HasParents new g
    → ¬ IsDirAt new g
    → IsTree (record g { nodes = delete old (insert new n g.nodes) })
move-IsTree old new n g t (e, file) ne name above free =
    let h : MemFs = record g { nodes = insert new n g.nodes } in
    let t' : IsTree h = insert-IsTree new n g h refl t name above (inr free) in
    let found : lookup old h.nodes ≡ some n =
      lookup-insert_ne new old n g.nodes (λ s. ne (sym s)) ∙ e in
    let no_dir : ¬ IsDirAt old h = λ d. ground (arith, d.1, found) in
    delete-IsTree old h (record g { nodes = delete old (insert new n g.nodes) }) refl t'
      (λ at_root. no_dir (subst (λ k. IsDirAt k h) (sym at_root) t'.root))
      (λ r m below. no_dir (t'.parents (old ++ (slash ∷ r)) m below old r refl))

rename_at-IsTree :
    (opts : RenameOptions) (old new : Text) (f : MemFs)
    → IsTree f
    → IsKey new
    → old ≢ new
    → ¬ IsDirAt old f
    → ¬ IsDirAt new f
    → IsTree (rename_at opts old new f).1
unfolding rename_at
rename_at-IsTree opts old new f t (inl top) ne no_old no_new =
    absurd (no_new (subst (λ k. IsDirAt k f) (sym top) t.root))
rename_at-IsTree opts old new f t (inr name) ne no_old no_new =
    elim (Option-cases (lookup old f.nodes)) [
      | inl e ↦ rw (e, rename_at) t
      | inr (n, e) ↦
          let g = (ensure_parents new f).1 in
          let (t', above) = ensure_parents-IsTree new f t name in
          rw (e, rename_at)
            (if_cases (Kept (Unit {0})) (has_key new f.nodes && not opts.overwrite) _ _ (λ _. t)
              λ _.
                on_ok_cases {A = Unit {0}} (Kept (Unit {0})) (ensure_parents new f)
                  (λ _ g. (ok tt, record g { nodes = delete old (insert new n g.nodes) }))
                  (λ u done.
                    move-IsTree old new n (ensure_parents new f).1 t'
                      (ensure_parents-IsFileAt old n new f (e, file_of_not_dir old n f e no_old)) ne
                      name (above (done ∙ ap ok (Unit-eq u)))
                      (λ d. no_new (
                        IsDirAt-of_lookup new f (ensure_parents new f).1
                          (ensure_parents_self new f name) d)))
                  (λ x e. t'))
    ]

-- `Rename` of a file keeps the tree of nodes, whatever its outcome, if the new name is neither the
-- old one nor that of a directory.
pub rename-IsTree :
    (ctx : Context) (old_name new_name : Text) (opts : RenameOptions) (f : MemFs)
    → IsTree f
    → ((old new : Text)
        → clean old_name ≡ ok old
        → clean new_name ≡ ok new
        → (old ≢ new) × (¬ IsDirAt old f) × (¬ IsDirAt new f))
    → IsTree (rename ctx old_name new_name opts f).1
unfolding rename
rename-IsTree ctx old_name new_name opts f t free =
    with_name-IsTree ctx old_name (λ old. with_name none new_name (rename_at opts old)) f t
      λ old eo _. with_name-IsTree none new_name (rename_at opts old) f t λ new en key.
        let (ne, no_old, no_new) = free old new eo en in
        rename_at-IsTree opts old new f t key ne no_old no_new
