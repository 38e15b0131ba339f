-- ===== src/MemSystem/Renames.antt =====
-- memsystem/filesystem.go: `Rename`.
use fluxplane_system.Prelude.{
  ◌≡◌, refl, ◌≢◌, sym, ap, subst, ◌∙◌, inl, inr, not, ◌&&◌, ◌∷◌, ◌++◌, arith, none, some, if_cases,
  if◌then◌else◌, Option-cases, length, length-append,
}
use fluxplane_system.GoText.{Text, slash}
use fluxplane_system.GoMap.{
  lookup, insert, delete, has_key, lookup-insert_self, lookup-insert_ne, lookup-delete_ne,
  lookup-delete_self,
}
use fluxplane_system.System.{
  ok, err, Outcome, on_ok, Context, RenameOptions, on_ok_cases, not_exist, already_exists,
}
use fluxplane_system.MemSystem.Nodes.{Node, MemFs, clean, ensure_parents, with_name}
use fluxplane_system.MemSystem.Changes.{rename_at, rename}
use fluxplane_system.MemSystem.Reads.{stat}
use fluxplane_system.MemSystem.Tree.{IsTree}
use fluxplane_system.MemSystem.Parents.{IsFileAt, ensure_parents-IsFileAt}
use fluxplane_system.MemSystem.Files.{with_name_ok, stat_missing}

-- What a successful rename leaves: the parents created, the node stored anew, the old key deleted.
abbrev Moved : Text → Text → Node → MemFs → MemFs → Type 0
Moved old new n f g = g ≡ (
    let h : MemFs = (ensure_parents new f).1 in
    record h { nodes = delete old (insert new n h.nodes) })

rename_at_ok :
    (opts : RenameOptions) (old new : Text) (f : MemFs)
    → (rename_at opts old new f).0 ≡ ok tt
    → (n : Node) × (lookup old f.nodes ≡ some n) × Moved old new n f (rename_at opts old new f).1
unfolding rename_at
rename_at_ok opts old new f h = elim (Option-cases (lookup old f.nodes)) [
  | inl e ↦ absurd (missing e)
  | inr (n, e) ↦ (n, e, rw (e, rename_at) (moved n (rw (e, rename_at) at h)))
]
  where
    missing : lookup old f.nodes ≡ none → ⊥
    missing e = let h' = rw (e, rename_at) at h in cc

    after : Node → MemFs → MemFs
    after n g = record g { nodes = delete old (insert new n g.nodes) }

    Fine : Node → Outcome MemFs (Unit {0}) → Type 0
    Fine n r = r.0 ≡ ok tt → Moved old new n f r.1

    moved :
        (n : Node)
        → Fine n (
            if has_key new f.nodes && not opts.overwrite
            then (err already_exists, f)
            else on_ok (ensure_parents new f) (λ _ g. (ok tt, after n g)))
    moved n =
        if_cases (Fine n) (has_key new f.nodes && not opts.overwrite) _ _ (λ _ h. cc)
          λ _.
            on_ok_cases {A = Unit {0}} (Fine n) (ensure_parents new f) (λ _ g. (ok tt, after n g))
              (λ u e h. refl) (λ x e h. cc)

rename_ok :
    (ctx : Context) (old_name new_name : Text) (opts : RenameOptions) (f : MemFs) (old new : Text)
    → (rename ctx old_name new_name opts f).0 ≡ ok tt
    → clean old_name ≡ ok old
    → clean new_name ≡ ok new
    → (n : Node) × (lookup old f.nodes ≡ some n)
      × Moved old new n f (rename ctx old_name new_name opts f).1
unfolding rename
rename_ok ctx old_name new_name opts f old new h eo en =
    let (o, co, so) =
      with_name_ok ctx old_name (λ o. with_name none new_name (rename_at opts o)) f h in
    let (w, cw, sw) =
      with_name_ok none new_name (rename_at opts o) f
        (ap (λ (r : Outcome MemFs (Unit {0})). r.0) (sym so) ∙ h) in
    let same_old : o ≡ old = cc in
    let same_new : w ≡ new = cc in
    let all_same = so ∙ sw in
    let done : (rename_at opts o w f).0 ≡ ok tt =
      ap (λ (r : Outcome MemFs (Unit {0})). r.0) (sym all_same) ∙ h in
    let (n, e, m) = rename_at_ok opts old new f (
      subst (λ x. (rename_at opts x new f).0 ≡ ok tt) same_old
        (subst (λ x. (rename_at opts o x f).0 ≡ ok tt) same_new done)) in
    (
      n,
      e,
      ap (λ (r : Outcome MemFs (Unit {0})). r.1)
            (all_same
              ∙ ap (λ x. rename_at opts x w f) same_old
              ∙ ap (λ x. rename_at opts old x f) same_new)
          ∙ m,
    )

-- A successful `Rename` between two different paths puts the node of the old path at the new one,
-- and leaves none at the old.
pub rename_moves :
    (ctx : Context) (old_name new_name : Text) (opts : RenameOptions) (f : MemFs) (old new : Text)
    → (rename ctx old_name new_name opts f).0 ≡ ok tt
    → clean old_name ≡ ok old
    → clean new_name ≡ ok new
    → old ≢ new
    → (lookup new (rename ctx old_name new_name opts f).1.nodes ≡ lookup old f.nodes)
      × (lookup old (rename ctx old_name new_name opts f).1.nodes ≡ none)
rename_moves ctx old_name new_name opts f old new h eo en ne =
    let (n, e, moved) = rename_ok ctx old_name new_name opts f old new h eo en in
    let g = (ensure_parents new f).1 in
    (
      ap (λ (m : MemFs). lookup new m.nodes) moved
          ∙ lookup-delete_ne old new (insert new n g.nodes) ne
          ∙ lookup-insert_self new n g.nodes
          ∙ sym e,
      ap (λ (m : MemFs). lookup old m.nodes) moved ∙ lookup-delete_self old (insert new n g.nodes),
    )

-- A `Rename` of a path to itself that reports success loses the node.
pub rename_self-stat :
    (ctx : Context) (old_name new_name : Text) (opts : RenameOptions) (f : MemFs) (rel : Text)
    → (rename ctx old_name new_name opts f).0 ≡ ok tt
    → clean old_name ≡ ok rel
    → clean new_name ≡ ok rel
    → stat old_name (rename ctx old_name new_name opts f).1 ≡ err not_exist
rename_self-stat ctx old_name new_name opts f rel h eo en =
    let (n, e, moved) = rename_ok ctx old_name new_name opts f rel rel h eo en in
    stat_missing old_name rel (rename ctx old_name new_name opts f).1 eo (
      ap (λ (m : MemFs). lookup rel m.nodes) moved
      ∙ lookup-delete_self rel (insert rel n (ensure_parents rel f).1.nodes))

-- A successful `Rename` of a path with a file below it, to another path than that file's, leaves the
-- file's node where it was, below the old path, which has no node any more: the nodes form no tree,
-- also if they formed one before.
pub rename_dir-breaks :
    (ctx : Context) (old_name new_name : Text) (opts : RenameOptions) (f : MemFs) (old new r : Text)
    (m : Node)
    → (rename ctx old_name new_name opts f).0 ≡ ok tt
    → clean old_name ≡ ok old
    → clean new_name ≡ ok new
    → new ≢ old ++ (slash ∷ r)
    → IsFileAt (old ++ (slash ∷ r)) m f
    → (lookup (old ++ (slash ∷ r)) (rename ctx old_name new_name opts f).1.nodes ≡ some m)
      × (lookup old (rename ctx old_name new_name opts f).1.nodes ≡ none)
      × (¬ IsTree (rename ctx old_name new_name opts f).1)
rename_dir-breaks ctx old_name new_name opts f old new r m h eo en ne file =
    let (n, e, moved) = rename_ok ctx old_name new_name opts f old new h eo en in
    let below = old ++ (slash ∷ r) in
    let g = (ensure_parents new f).1 in
    let stays = ensure_parents-IsFileAt below m new f file in
    let found : lookup below (rename ctx old_name new_name opts f).1.nodes ≡ some m =
      ap (λ (x : MemFs). lookup below x.nodes) moved
      ∙ lookup-delete_ne old below (insert new n g.nodes)
          (λ s. absurd (omega (arith, ap length s, length-append old (slash ∷ r))))
      ∙ lookup-insert_ne new below n g.nodes ne
      ∙ stays.0 in
    let gone : lookup old (rename ctx old_name new_name opts f).1.nodes ≡ none =
      ap (λ (x : MemFs). lookup old x.nodes) moved
      ∙ lookup-delete_self old (insert new n g.nodes) in
    (found, gone, λ t. let (p, parent, d) = t.parents below m found old r refl in cc)
