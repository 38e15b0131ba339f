-- ===== src/FsHelpers/Globs.antt =====
-- fs_helpers.go: the results of `Glob`.
use fluxplane_system.Prelude.{
  ℕ, suc, ◌+◌, ◌-◌, ◌≤◌, ◌<◌, ◌≡◌, refl, sym, ap, ap₂, ◌∙◌, subst, Bool, true, false, ◌||◌, List,
  [], ◌∷◌, ◌++◌, arith, if◌then◌else◌, Bool-cases, inl, inr, ltb, ltb→lt, take, take_all,
  take-append, length, length-append, append_assoc, append-nil,
}
use fluxplane_system.GoText.{Text}
use fluxplane_system.System.{ok, FileSystem}
use fluxplane_system.PathPattern.{ElementMatch, Pattern, compile}
use fluxplane_system.FsHelpers.{Checks, clean_fs_name}
use fluxplane_system.FsHelpers.WalkDir.{Signal}
use fluxplane_system.FsHelpers.Walk.{EntryAnswers, WalkEntry, Walked, limit_of, walk}
use fluxplane_system.FsHelpers.Glob.{
  GlobOptions, is_match, collect_matches, glob_walk_options, unless_stopped, glob,
}

-- The paths of all entries that pass the test, in their order.
abbrev pub matching : (WalkEntry → Bool) → List WalkEntry → List Text
matching test [] = []
matching test (e ∷ entries) =
    if test e then e.path ∷ matching test entries else matching test entries

-- Behind a full result nothing is taken.
take_full : (limit : ℕ) (out more : List Text) → length out ≡ limit → take limit (out ++ more) ≡ out
take_full limit out more full =
    let spent : limit - length out ≡ 0 = omega arith in
    take-append limit out more
    ∙ ap₂ (λ a b. a ++ b) (take_all limit out (omega arith)) (ap (λ k. take k more) spent)
    ∙ append-nil out

module _ (test : WalkEntry → Bool) (limit : ℕ) where
  -- What the loop makes of what it found and of what is still to be found.
  abbrev gathered : List Text → Bool → List Text × Bool
  gathered all flag = (take limit all, flag || ltb limit (length all))

  collect_matches-gathered :
      (entries : List WalkEntry) (out : List Text) (flag : Bool)
      → length out ≤ limit
      → (flag ≡ true → length out ≡ limit)
      → collect_matches test limit entries (out, flag)
        ≡ gathered (out ++ matching test entries) flag
  unfolding collect_matches
  collect_matches-gathered [] out flag fits full =
      let same = append-nil out in
      let within : ltb limit (length out) ≡ false = ground arith in
      rw same (rw within (rw (take_all limit out fits) (ap (λ b. (out, b)) (or_false flag))))
    where
      or_false : (b : Bool) → b ≡ (b || false)
      or_false true = refl
      or_false false = refl
  collect_matches-gathered (e ∷ entries) out flag fits full = elim (Bool-cases (test e)) [
    | inr other ↦ rw other (collect_matches-gathered entries out flag fits full)
    | inl found ↦ elim (Bool-cases (ltb (length out) limit)) [
      | inl room ↦
          let longer : length (out ++ (e.path ∷ [])) ≡ length out + 1 =
            length-append out (e.path ∷ []) in
          let below : length out < limit = ltb→lt (length out) limit room in
          rw found (
            rw room (
              subst
                (λ all.
                  collect_matches test limit entries (out ++ (e.path ∷ []), flag)
                  ≡ gathered all flag)
                (append_assoc out (e.path ∷ []) (matching test entries))
                (collect_matches-gathered entries (out ++ (e.path ∷ [])) flag
                  (rw longer (omega arith))
                  (λ marked. absurd (let same = full marked in omega arith)))))
      | inr no_room ↦
          let reached : length out ≡ limit = ground (arith, no_room, fits) in
          let rest = matching test entries in
          let count : length (out ++ (e.path ∷ rest)) ≡ length out + suc (length rest) =
            length-append out (e.path ∷ rest) in
          let more : (flag || ltb limit (length (out ++ (e.path ∷ rest)))) ≡ true =
            ground (arith, count, reached) in
          rw found (
            rw no_room (
              collect_matches-gathered entries out true fits (λ _. reached)
              ∙ ap₂ (λ a b. (a, b))
                  (take_full limit out rest reached
                    ∙ sym (take_full limit out (e.path ∷ rest) reached))
                  (sym more)))
    ]
  ]

module _ {S : Type 0} where
  -- If the pattern compiles, the base is a name and the walk below it did not end in an error, the
  -- result of a glob is the paths of the walk's entries that match, in the order of the walk, cut at
  -- the limit; it is marked as truncated if the walk was, or if there are more matches than the limit.
  pub glob-matching :
      (element : ElementMatch) (ctx : Checks) (more : EntryAnswers) (fs : FileSystem S)
      (pattern base : Text) (o : GlobOptions) (s : S) (compiled : Pattern)
      (walked : Signal × Walked) (v : Walked)
      → compile element pattern ≡ ok compiled
      → clean_fs_name o.base ≡ ok base
      → walk element ctx more fs base (glob_walk_options o) s ≡ ok walked
      → unless_stopped walked ≡ ok v
      → let all : List Text = matching (is_match element compiled base) v.entries in
        let limit : ℕ = limit_of 10000 1000 o.max_results in
        glob element ctx more fs pattern o s
        ≡ ok (take limit all, v.truncated || ltb limit (length all))
  unfolding glob
  glob-matching element ctx more fs pattern base o s compiled walked v compiles cleaned walks ends =
      let limit : ℕ = limit_of 10000 1000 o.max_results in
      rw compiles (
        rw cleaned (
          rw walks (
            rw ends (
              ap (λ found. ok (found.0, v.truncated || found.1))
                (collect_matches-gathered (is_match element compiled base) limit v.entries [] false
                  (omega arith) (λ bad. cc))))))
