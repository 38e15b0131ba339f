-- ===== src/MemSystem/Backslash.antt =====
-- memsystem/filesystem.go: `Remove` and `Rename`, and files at paths with a backslash, as
-- `WriteTempFile` makes them.
use fluxplane_system.Prelude.{
  ◌≡◌, ◌≢◌, sym, ap, subst, ◌∙◌, inl, inr, true, not, ◌&&◌, false≢true, [], ◌∷◌, ◌++◌, arith, none,
  some, any, if_cases, Option-cases,
}
use fluxplane_system.GoText.{Text, slash, backslash, contains_char, has_prefix, is_empty}
use fluxplane_system.GoText.Laws.{Lacks, Lacks_iff}
use fluxplane_system.GoText.Trimming.{trim-replace-Lacks}
use fluxplane_system.GoMap.{
  lookup, insert, delete, has_key, keys, lookup-insert_ne, lookup-delete_ne,
}
use fluxplane_system.System.{
  ok, err, Outcome, on_ok_cases, Context, RenameOptions, Result-cases, not_empty,
}
use fluxplane_system.MemSystem.Nodes.{Node, MemFs, clean, ensure_parents, with_name}
use fluxplane_system.MemSystem.Changes.{remove_at, remove, rename_at, rename}
use fluxplane_system.MemSystem.Names.{clean_cases}
use fluxplane_system.MemSystem.Parents.{IsFileAt, ensure_parents-IsFileAt}

-- No name cleans to a path with a backslash.
clean-ne-backslash : (name rel : Text) → contains_char backslash rel ≡ true → clean name ≢ ok rel
clean-ne-backslash name rel h e = elim (clean_cases name rel e) [
  | inl top ↦ absurd (empty_has_none (subst (λ t. contains_char backslash t ≡ true) top h))
  | inr (_, same) ↦
      let plain =
        subst (Lacks backslash) (sym same)
          (trim-replace-Lacks backslash slash name (omega arith)) in
      false≢true (sym ((Lacks_iff backslash rel).1 plain) ∙ h)
]
  where
    empty_has_none : contains_char backslash [] ≡ true → ⊥
    empty_has_none e = false≢true (sym ((Lacks_iff backslash []).1 tt) ∙ e)

module _ (path : Text) (n : Node) where
  -- What an operation keeps at every cleaned name, it keeps.
  with_name-keeps :
      {A : Type 0} (ctx : Context) (name : Text) (k : Text → MemFs → Outcome MemFs A) (f : MemFs)
      → ((rel : Text) → clean name ≡ ok rel → IsFileAt path n (k rel f).1)
      → IsFileAt path n f
      → IsFileAt path n (with_name ctx name k f).1
  with_name-keeps (some e) name k f keeps file = file
  with_name-keeps none name k f keeps file = elim (Result-cases (clean name)) [
    | inl (rel, e) ↦ rw (e, with_name) (keeps rel e)
    | inr (x, e) ↦ rw (e, with_name) file
  ]

  remove_at-keeps :
      (rel : Text) (f : MemFs)
      → rel ≢ path
      → IsFileAt path n f
      → IsFileAt path n (remove_at rel f).1
  unfolding remove_at
  remove_at-keeps rel f ne file =
      if_cases (λ (r : Outcome MemFs (Unit {0})). IsFileAt path n r.1) (is_empty rel) _ _
        (λ _. file)
        (λ _.
          if_cases (λ (r : Outcome MemFs (Unit {0})). IsFileAt path n r.1)
            (not (has_key rel f.nodes)) _ _ (λ _. file)
            (λ _.
              if_cases (λ (r : Outcome MemFs (Unit {0})). IsFileAt path n r.1)
                (any (has_prefix (rel ++ (slash ∷ []))) (keys f.nodes)) (err not_empty, f)
                (ok tt, record f { nodes = delete rel f.nodes }) (λ _. file)
                (λ _. (lookup-delete_ne rel path f.nodes ne ∙ file.0, file.1))))

  rename_at-keeps :
      (opts : RenameOptions) (old new : Text) (f : MemFs)
      → old ≢ path
      → new ≢ path
      → IsFileAt path n f
      → IsFileAt path n (rename_at opts old new f).1
  unfolding rename_at
  rename_at-keeps opts old new f ne_old ne_new file = elim (Option-cases (lookup old f.nodes)) [
    | inl missing ↦ rw (missing, rename_at) file
    | inr (m, there) ↦
        rw (there, rename_at)
          (if_cases (λ (r : Outcome MemFs (Unit {0})). IsFileAt path n r.1)
            (has_key new f.nodes && not opts.overwrite) _ _ (λ _. file)
            (λ _.
              on_ok_cases {A = Unit {0}} (λ (r : Outcome MemFs (Unit {0})). IsFileAt path n r.1)
                (ensure_parents new f)
                (λ _ g. (ok tt, record g { nodes = delete old (insert new m g.nodes) }))
                (λ u e.
                  let stays = ensure_parents-IsFileAt path n new f file in
                  (
                    lookup-delete_ne old path (insert new m (ensure_parents new f).1.nodes) ne_old
                        ∙ lookup-insert_ne new path m (ensure_parents new f).1.nodes ne_new
                        ∙ stays.0,
                    stays.1,
                  ))
                (λ x e. ensure_parents-IsFileAt path n new f file)))
  ]

  -- A file at a path with a backslash is kept as it is by every `Remove` and every `Rename`, of
  -- whatever names, with any context and options, and whether they succeed or fail.
  pub with_backslash_kept :
      (ctx : Context) (name other : Text) (opts : RenameOptions) (f : MemFs)
      → contains_char backslash path ≡ true
      → IsFileAt path n f
      → IsFileAt path n (remove ctx name f).1 × IsFileAt path n (rename ctx name other opts f).1
  unfolding remove rename
  with_backslash_kept ctx name other opts f has file =
      let differs : (raw rel : Text) → clean raw ≡ ok rel → rel ≢ path =
        λ raw rel e same. clean-ne-backslash raw path has (e ∙ ap ok same) in
      (
        with_name-keeps ctx name remove_at f
            (λ rel e. remove_at-keeps rel f (differs name rel e) file) file,
        with_name-keeps ctx name (λ old. with_name none other (rename_at opts old)) f
            (λ old e.
              with_name-keeps none other (rename_at opts old) f
                (λ new k.
                  rename_at-keeps opts old new f (differs name old e) (differs other new k) file)
                file)
            file,
      )
