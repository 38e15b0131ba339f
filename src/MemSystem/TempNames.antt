-- ===== src/MemSystem/TempNames.antt =====
-- memsystem/filesystem.go: the names that `WriteTempFile` makes.
use fluxplane_system.Prelude.{
  ℕ, ◌+◌, ◌≡◌, refl, sym, ap, subst, ◌∙◌, inl, inr, none, some, Bool-cases, if_cases, zero, suc,
}
use fluxplane_system.GoText.{Text, slash, contains_char}
use fluxplane_system.GoMap.{lookup, has_key, lookup-none}
use fluxplane_system.System.{ok, Outcome, Context, Bytes, WriteTempFileOptions, on_ok_cases}
use fluxplane_system.MemSystem.Nodes.{
  Node, MemFs, join, put_node, file_node, or_default, ensure_parents, is_file_at,
}
use fluxplane_system.MemSystem.Changes.{temp_file_name, try_temp, write_temp_at, write_temp_file}
use fluxplane_system.MemSystem.Changes.{temp_rounds, temp_pattern}
use fluxplane_system.MemSystem.Files.{with_name_ok, Wrote, put_node_self}

try_temp_fresh :
    (rounds i : ℕ) (dir pattern : Text) (node : ℕ → Node) (f : MemFs) (rel : Text)
    → (try_temp rounds i dir pattern node f).0 ≡ ok rel
    → (lookup rel f.nodes ≡ none) × Wrote rel node f (try_temp rounds i dir pattern node f).1
unfolding try_temp
try_temp_fresh zero i dir pattern node f rel h = cc
try_temp_fresh (suc rounds) i dir pattern node f rel h =
    let at_name : Text = join dir (temp_file_name pattern i) in
    elim (Bool-cases (has_key at_name f.nodes)) [
      | inl taken ↦
          rw (taken, try_temp)
            (try_temp_fresh rounds (suc i) dir pattern node f rel (rw (taken, try_temp) at h))
      | inr free ↦
          rw (free, try_temp)
            (on_ok_cases {A = Unit {0}}
              (λ (r : Outcome MemFs Text).
                r.0 ≡ ok rel → (lookup rel f.nodes ≡ none) × Wrote rel node f r.1)
              (ensure_parents at_name f) (λ _ g. (ok at_name, put_node at_name node g))
              (λ u e done.
                let same : at_name ≡ rel = cc in
                subst
                  (λ k.
                    (lookup k f.nodes ≡ none)
                    × Wrote k node f (put_node at_name node (ensure_parents at_name f).1))
                  same (lookup-none at_name f.nodes free, refl))
              (λ x e done. cc) (rw (free, try_temp) at h))
    ]

-- A path that had no node, and has this one now.
abbrev Fresh : Text → (ℕ → Node) → MemFs → MemFs → Type 0
Fresh rel node f g =
    (lookup rel f.nodes ≡ none) × ((time : ℕ) × (lookup rel g.nodes ≡ some (node time)))

write_temp_at-Fresh :
    (rounds : ℕ) (pattern : Text) (content : Bytes) (opts : WriteTempFileOptions) (dir : Text)
    (f : MemFs) (rel : Text)
    → (write_temp_at rounds pattern content opts dir f).0 ≡ ok rel
    → Fresh rel
        (file_node content (or_default opts.perm 0o644))
        f
        (write_temp_at rounds pattern content opts dir f).1
unfolding write_temp_at
write_temp_at-Fresh rounds pattern content opts dir f rel =
    if_cases Fine (is_file_at dir f) _ _ (λ _ h. cc)
      λ _.
        if_cases Fine (contains_char slash (temp_pattern pattern)) _ _ (λ _ h. cc)
          λ _ h.
            let (free, wrote) = try_temp_fresh rounds 1 dir (temp_pattern pattern) node f rel h in
            (
              free,
              (
                (ensure_parents rel f).1.now + 1,
                ap (λ (g : MemFs). lookup rel g.nodes) wrote
                    ∙ put_node_self rel node (ensure_parents rel f).1,
              ),
            )
  where
    node : ℕ → Node
    node = file_node content (or_default opts.perm 0o644)

    Fine : Outcome MemFs Text → Type 0
    Fine r = r.0 ≡ ok rel → Fresh rel node f r.1

-- A successful `WriteTempFile` returns a path that had no node, and the node there is now a file of
-- these bytes, with the mode asked for or else 0644.
pub write_temp_file_fresh :
    (ctx : Context) (dir pattern : Text) (content : Bytes) (opts : WriteTempFileOptions) (f : MemFs)
    (rel : Text)
    → (write_temp_file ctx dir pattern content opts f).0 ≡ ok rel
    → (lookup rel f.nodes ≡ none)
      × ((time : ℕ) × (lookup rel (write_temp_file ctx dir pattern content opts f).1.nodes
            ≡ some (file_node content (or_default opts.perm 0o644) time)))
unfolding write_temp_file
write_temp_file_fresh ctx dir pattern content opts f rel h =
    let k = write_temp_at temp_rounds pattern content opts in
    let (at_dir, e, same) = with_name_ok ctx dir k f h in
    subst
      (λ (r : Outcome MemFs Text). Fresh rel (file_node content (or_default opts.perm 0o644)) f r.1)
      (sym same)
      (write_temp_at-Fresh temp_rounds pattern content opts at_dir f rel
        (ap (λ (r : Outcome MemFs Text). r.0) (sym same) ∙ h))
