-- ===== src/FsHelpers/Walks.antt =====
-- fs_helpers.go: the entries that `Walk` returns.
use fluxplane_system.Prelude.{
  ℕ, suc, ◌+◌, ◌≤◌, ◌<◌, ◌≡◌, refl, subst, Bool, true, false, not, ◌&&◌, ◌||◌, [], ◌∷◌, ◌++◌,
  Option, none, some, arith, if◌then◌else◌, Bool-cases, Option-cases, inl, inr, All, All-append,
  ltb, leb, leb→le, leb_false→lt, length, length-append, any,
}
use fluxplane_system.GoText.{Text, codes, text_eq, is_empty, has_prefix}
use fluxplane_system.GoPath.{dot}
use fluxplane_system.System.{Result, ok, ok-injective, Result-cases, FileInfo, DirEntry, FileSystem}
use fluxplane_system.PathPattern.{ElementMatch}
use fluxplane_system.FsHelpers.{Checks, clean_fs_name}
use fluxplane_system.FsHelpers.WalkDir.{Signal, keep_going, skip_dir}
use fluxplane_system.FsHelpers.Walk.{
  EntryAnswers, WalkOptions, WalkEntry, Walked, depth_of, limit_of, rel_to_root, level_of,
  is_symlink, walk_entry, add_entry, skip_dir_set, match_filter_pattern, refused, visit, walk,
}
use fluxplane_system.FsHelpers.Walking.{walk_root-keeps}

-- A test that did not apply, before the tests behind it.
passed_by :
    (test : Bool) (signal : Signal) (rest : Option Signal)
    → (if test then some signal else rest) ≡ none
    → (test ≡ false) × (rest ≡ none)
passed_by true signal rest h = cc
passed_by false signal rest h = (refl, h)

kind_dir :
    (current : Text) (d : DirEntry) (level : ℕ) (info : FileInfo)
    → text_eq (walk_entry current d level info).kind (codes "dir") ≡ d.is_dir
unfolding text_eq
kind_dir current d level info = elim (Bool-cases d.is_dir) [
  | inl e ↦ rw e refl
  | inr e ↦ elim (Bool-cases (is_symlink d.kind)) [
    | inl k ↦ rw e (rw k refl)
    | inr k ↦ rw e (rw k refl)
  ]
]

module _ (match : ElementMatch) (o : WalkOptions) (root : Text) where
  -- The entry is not the root, lies within the depth, and passes the tests of the options.
  pub record IsShown (e : WalkEntry) : Type 0 where
    pub other : text_eq e.path root ≡ false
    pub level : e.level ≡ level_of root e.path
    pub near : e.level ≤ depth_of o
    pub visible : (o.show_hidden || not (has_prefix dot e.name)) ≡ true
    pub of_kind : (o.files_only && text_eq e.kind (codes "dir")) ≡ false
    pub entered :
        (text_eq e.kind (codes "dir") && any (text_eq e.name) (skip_dir_set o.skip_dirs)) ≡ false
    pub filtered :
        (is_empty o.filter_pattern
          || match_filter_pattern match o.filter_pattern
              (rel_to_root root e.path)
              (text_eq e.kind (codes "dir")))
        ≡ true

  pub record IsWalked (v : Walked) : Type 0 where
    pub few : length v.entries ≤ limit_of 10000 1000 o.max_entries
    pub shown : All IsShown v.entries
    pub full : v.truncated ≡ true → length v.entries ≡ limit_of 10000 1000 o.max_entries

  pub refused-IsShown :
      (current : Text) (d : DirEntry) (info : FileInfo)
      → refused match o root current d ≡ none
      → IsShown (walk_entry current d (level_of root current) info)
  unfolding refused
  refused-IsShown current d info h =
      let (other, h1) = passed_by (text_eq current root) keep_going _ h in
      let pruned : Signal = if d.is_dir then skip_dir else keep_going in
      let (near, h2) = passed_by (ltb (depth_of o) (level_of root current)) pruned _ h1 in
      let (visible, h3) = passed_by (not o.show_hidden && has_prefix dot d.name) pruned _ h2 in
      let (entered, h4) =
        passed_by (d.is_dir && any (text_eq d.name) (skip_dir_set o.skip_dirs)) skip_dir _ h3 in
      let (of_kind, h5) = passed_by (o.files_only && d.is_dir) keep_going _ h4 in
      let (filtered, _) =
        passed_by
          (not (is_empty o.filter_pattern)
            && not
                (match_filter_pattern match o.filter_pattern (rel_to_root root current) d.is_dir))
          keep_going none h5 in
      let dir = kind_dir current d (level_of root current) info in
      record {
        other = other;
        level = refl;
        near = ground (arith, near);
        visible = ground (arith, visible);
        of_kind = rw dir of_kind;
        entered = rw dir entered;
        filtered = rw dir (ground (arith, filtered));
      }

  add_entry-IsWalked :
      (entry : FileInfo → WalkEntry) (r : Result FileInfo) (v : Walked)
      → ((info : FileInfo) → IsShown (entry info))
      → IsWalked v
      → IsWalked ((add_entry (limit_of 10000 1000 o.max_entries) entry r v).1)
  unfolding add_entry
  add_entry-IsWalked entry r v shown h =
      elim (Bool-cases (leb (limit_of 10000 1000 o.max_entries) (length v.entries))) [
        | inl no_room ↦
            let few = h.few in
            let reached : limit_of 10000 1000 o.max_entries ≤ length v.entries =
              leb→le _ _ no_room in
            rw (no_room, add_entry)
              (record { few = h.few; shown = h.shown; full = λ _. omega arith })
        | inr room ↦
            let below : length v.entries < limit_of 10000 1000 o.max_entries =
              leb_false→lt _ _ room in
            elim (Result-cases r) [
              | inr (_, failed) ↦
                  rw (room, add_entry)
                    (rw failed (record { few = h.few; shown = h.shown; full = h.full }))
              | inl (info, given) ↦
                  let longer : length (v.entries ++ (entry info ∷ [])) ≡ length v.entries + 1 =
                    length-append v.entries (entry info ∷ []) in
                  rw (room, add_entry)
                    (rw given (record {
                      few = rw longer (omega arith);
                      shown =
                          All-append IsShown v.entries (entry info ∷ []) h.shown (shown info, tt);
                      full = λ marked. absurd (let same = h.full marked in omega arith);
                    }))
            ]
      ]

  visit-IsWalked :
      (ctx : Checks) (more : EntryAnswers) (current : Text) (d : DirEntry) (v : Walked)
      → IsWalked v
      → IsWalked ((visit match o root ctx more current d v).1)
  unfolding visit
  visit-IsWalked ctx more current d v h = elim (Option-cases (ctx v.checks)) [
    | inr (e, asked) ↦ rw (asked, visit) (record { few = h.few; shown = h.shown; full = h.full })
    | inl live ↦ elim (Option-cases (refused match o root current d)) [
      | inr (signal, skipped) ↦
          rw (live, visit) (rw skipped (record { few = h.few; shown = h.shown; full = h.full }))
      | inl taken ↦
          rw (live, visit)
            (rw taken (
              add_entry-IsWalked (walk_entry current d (level_of root current)) (more.info d) v
                (λ info. refused-IsShown current d info taken) h))
    ]
  ]

module _ {S : Type 0} where
  -- Whatever signal the walk ends with, also the error of a context: it returns at most as many
  -- entries as its limit, each with another path than the root's, not deeper than the depth, and passed by the filters;
  -- and a result that is marked as truncated has as many entries as the limit.
  pub walk-IsWalked :
      (match : ElementMatch) (ctx : Checks) (more : EntryAnswers) (fs : FileSystem S)
      (name root : Text) (o : WalkOptions) (s : S) (r : Signal × Walked)
      → clean_fs_name name ≡ ok root
      → walk match ctx more fs name o s ≡ ok r
      → IsWalked match o root r.1
  unfolding walk
  walk-IsWalked match ctx more fs name root o s r cleaned walked =
      let start : Walked = record { entries = []; truncated = false; checks = 0 } in
      let returned = rw cleaned at walked in
      subst (λ w. IsWalked match o root w.1) (ok-injective returned)
        (walk_root-keeps fs s more.partial (visit match o root ctx more) (IsWalked match o root)
          (visit-IsWalked match o root ctx more) (suc (suc (depth_of o))) root start
          (record { few = omega arith; shown = tt; full = λ bad. cc }))
