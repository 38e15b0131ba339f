-- ===== src/FsHelpers/Lines.antt =====
-- fs_helpers.go: the lines that `ReadFileLines` returns.
use fluxplane_system.Prelude.{
  ℕ, suc, ◌+◌, ◌-◌, ◌≤◌, leb, ltb, ◌==◌, ◌≡◌, refl, sym, ap, ◌∙◌, subst, Bool, true, false, ◌&&◌,
  List, [], ◌∷◌, ◌++◌, none, arith, length, length-append, take, take_all, take-append, append-nil,
  append_assoc, if◌then◌else◌, if_cases, Bool-cases, inl, inr,
}
use fluxplane_system.GoText.{Text, newline}
use fluxplane_system.System.{Result, ok, Bytes, File, FileSystem}
use fluxplane_system.FsHelpers.Selected.{
  first_line, wanted_lines, joined, selected, selected_past, window_start, selected-window,
}
use fluxplane_system.FsHelpers.{
  Checks, clean_fs_name, lines_of, Window, in_window, LinesRead, overflows, read_lines, window,
  read_file_lines,
}

-- What a limit leaves of a text of which the first part is written; 0 is no limit.
abbrev pub within_limit : ℕ → Bytes → Bytes
within_limit limit content = if limit == 0 then content else take limit content

-- The result holds the selected lines up to the limit, all of them if it is not marked as truncated,
-- and is marked if some do not fit.
pub record IsWindow (first limit : ℕ) (all : Bytes) (r : LinesRead) : Type 0 where
  pub content : r.content ≡ within_limit limit all
  pub start : r.start ≡ first
  pub whole : r.truncated ≡ false → r.content ≡ all
  pub cut : (ltb 0 limit && ltb limit (length all)) ≡ true → r.truncated ≡ true

abbrev pub Reads : ℕ → ℕ → Bytes → Result LinesRead → Type 0
Reads first limit all r = (x : LinesRead) × (r ≡ ok x) × IsWindow first limit all x

-- All that there was to write fits.
fitting :
    (w : Window) (all : Bytes)
    → (ltb 0 w.max_bytes ≡ true → length all ≤ w.max_bytes)
    → IsWindow w.start w.max_bytes all
        (record { content = all; start = w.start; truncated = false })
fitting w all fits = elim (Bool-cases (ltb 0 w.max_bytes)) [
  | inl limited ↦
      let enough : length all ≤ w.max_bytes = fits limited in
      let some_limit : (w.max_bytes == 0) ≡ false = ground arith in
      record {
        content = rw some_limit (sym (take_all w.max_bytes all enough));
        start = refl;
        whole = λ _. refl;
        cut = λ long. absurd (ground (arith, long, enough));
      }
  | inr unlimited ↦
      let no_limit : (w.max_bytes == 0) ≡ true = ground arith in
      record {
        content = rw no_limit refl;
        start = refl;
        whole = λ _. refl;
        cut = λ long. absurd (ground (arith, long, unlimited));
      }
]

-- A line that does not fit is cut where the limit is.
cut_line :
    (w : Window) (out line rest : Bytes)
    → (ltb 0 w.max_bytes ≡ true → length out ≤ w.max_bytes)
    → overflows w (length out) line ≡ true
    → IsWindow w.start w.max_bytes (out ++ (line ++ rest)) (record {
      content = out ++ take (w.max_bytes - length out) line;
      start = w.start;
      truncated = true;
    })
cut_line w out line rest fits over =
    let limited : ltb 0 w.max_bytes ≡ true = ground arith in
    let below : length out ≤ w.max_bytes = fits limited in
    let some_limit : (w.max_bytes == 0) ≡ false = ground arith in
    let full : w.max_bytes - length out ≤ length line = ground arith in
    let nothing_more : (w.max_bytes - length out) - length line ≡ 0 = omega arith in
    record {
      content = rw some_limit (
          sym (
            take-append w.max_bytes out (line ++ rest)
            ∙ ap (λ t. t ++ take (w.max_bytes - length out) (line ++ rest))
                (take_all w.max_bytes out below)
            ∙ ap (λ t. out ++ t)
                (take-append (w.max_bytes - length out) line rest
                  ∙ ap (λ k. take (w.max_bytes - length out) line ++ take k rest) nothing_more
                  ∙ append-nil (take (w.max_bytes - length out) line))));
      start = refl;
      whole = λ bad. cc;
      cut = λ _. refl;
    }

-- What is written after a line that fits.
written_next :
    (w : Window) (n : ℕ) (out line : Bytes)
    → (ltb 0 w.max_bytes ≡ true → length out ≤ w.max_bytes)
    → (in_window w n && overflows w (length out) line) ≡ false
    → ltb 0 w.max_bytes ≡ true
    → length (if in_window w n then out ++ line else out) ≤ w.max_bytes
written_next w n out line fits small limited = elim (Bool-cases (in_window w n)) [
  | inl e ↦
      let below : length out ≤ w.max_bytes = fits limited in
      let both : length (out ++ line) ≡ length out + length line = length-append out line in
      let room : overflows w (length out) line ≡ false = ground (arith, small, e) in
      rw e (ground (arith, room, both))
  | inr e ↦ rw e (fits limited)
]

regroup :
    (wanted : Bool) (out line rest : Bytes)
    → (if wanted then out ++ line else out) ++ rest ≡ out ++ ((if wanted then line else []) ++ rest)
regroup true out line rest = append_assoc out line rest
regroup false out line rest = refl

-- The loop ends after a line that fits, and nothing of the window is left.
ended :
    (w : Window) (n : ℕ) (out line rest : Bytes)
    → (ltb 0 w.max_bytes ≡ true → length out ≤ w.max_bytes)
    → (in_window w n && overflows w (length out) line) ≡ false
    → rest ≡ []
    → Reads w.start w.max_bytes (out ++ ((if in_window w n then line else []) ++ rest)) (
        ok (record {
          content = if in_window w n then out ++ line else out;
          start = w.start;
          truncated = false;
        }))
ended w n out line rest fits small nothing =
    let next : Bytes = if in_window w n then out ++ line else out in
    let same : next ≡ out ++ ((if in_window w n then line else []) ++ rest) =
      sym (ap (λ r. next ++ r) nothing ∙ append-nil next) ∙ regroup (in_window w n) out line rest in
    let read : LinesRead = record { content = next; start = w.start; truncated = false } in
    let held : IsWindow w.start w.max_bytes next read =
      fitting w next (written_next w n out line fits small) in
    (read, refl, subst (λ all. IsWindow w.start w.max_bytes all read) same held)

module _ (ctx : Checks) (live : (k : ℕ) → ctx k ≡ none) (w : Window) where
  read_lines-IsWindow :
      (k n : ℕ) (out line : Bytes) (lines : List Bytes)
      → (ltb 0 w.max_bytes ≡ true → length out ≤ w.max_bytes)
      → Reads w.start w.max_bytes
          (out ++ selected w n (line ∷ lines))
          (read_lines ctx w none k n out (line ∷ lines))
  unfolding read_lines
  read_lines-IsWindow k n out line [] fits =
      elim (Bool-cases (in_window w n && overflows w (length out) line)) [
        | inl over ↦
            let wanted : in_window w n ≡ true = ground (arith, over) in
            let too_long : overflows w (length out) line ≡ true = ground (arith, over) in
            rw (live k) (rw wanted (rw too_long (_, refl, cut_line w out line [] fits too_long)))
        | inr small ↦ rw (live k) (rw small (ended w n out line [] fits small refl))
      ]
  read_lines-IsWindow k n out line (after ∷ lines) fits =
      elim (Bool-cases (in_window w n && overflows w (length out) line)) [
        | inl over ↦
            let wanted : in_window w n ≡ true = ground (arith, over) in
            let too_long : overflows w (length out) line ≡ true = ground (arith, over) in
            rw (live k) (
              rw wanted (
                rw too_long (
                  _,
                  refl,
                  cut_line w out line (selected w (suc n) (after ∷ lines)) fits too_long,
                )))
        | inr small ↦ rw (live k) (
            rw small (
              if_cases (Reads w.start w.max_bytes _) (ltb 0 w.end && leb w.end n) _
                (read_lines ctx w none (suc k) (suc n) (if in_window w n then out ++ line else out)
                  (after ∷ lines))
                (λ stop. ended w n out line _ fits small (
                  selected_past w (suc n) (after ∷ lines) (ground (arith, stop))
                    (ground (arith, stop))))
                (λ _.
                  subst
                    (λ all. Reads w.start w.max_bytes all (
                      read_lines ctx w none (suc k) (suc n)
                        (if in_window w n then out ++ line else out) (after ∷ lines)))
                    (regroup (in_window w n) out line _)
                    (read_lines-IsWindow (suc k) (suc n)
                      (if in_window w n then out ++ line else out) after lines
                      (written_next w n out line fits small)))))
      ]

-- Lines are never an empty list.
lines_of_some :
    (content : Bytes) → (line : Bytes) × (lines : List Bytes) × (lines_of content ≡ line ∷ lines)
unfolding lines_of
lines_of_some [] = ([], [], refl)
lines_of_some (c ∷ s) =
    let (line, lines, e) = lines_of_some s in
    rw e (
      if_cases (λ r. (line : Bytes) × (lines : List Bytes) × (r ≡ line ∷ lines)) (c == newline)
        ((c ∷ []) ∷ (line ∷ lines)) ((c ∷ line) ∷ lines) (λ _. (_, _, refl)) (λ _. (_, _, refl)))

module _ {S : Type 0} (fs : FileSystem S) (ctx : Checks) where
  -- With a context that is not done, a read of lines of a file that opens and does not fail returns
  -- the number of the first wanted line, which is at least 1, and from that line on all lines, or
  -- those up to the line `end` if that is not 0, with one line at least; they are put together and
  -- cut at the byte limit if there is one. The result is marked as truncated if they are longer than
  -- the limit, and if it is not marked then nothing was cut.
  pub read_file_lines-IsWindow :
      (s : S) (name clean_name : Text) (file : File) (start end max_bytes : ℕ)
      → ((k : ℕ) → ctx k ≡ none)
      → clean_fs_name name ≡ ok clean_name
      → fs.open_file clean_name s ≡ ok file
      → file.failure ≡ none
      → Reads
          (first_line start)
          max_bytes
          (joined (wanted_lines start end (lines_of file.content)))
          (read_file_lines ctx fs name start end max_bytes s)
  unfolding read_file_lines
  read_file_lines-IsWindow s name clean_name file start end max_bytes live cleaned opened sound =
      let w : Window = window start end max_bytes in
      let (line, lines, e) = lines_of_some file.content in
      subst
        (λ all.
          Reads (first_line start) max_bytes all
            (read_file_lines ctx fs name start end max_bytes s))
        (selected-window start end max_bytes (lines_of file.content))
        (subst
          (λ first.
            Reads first max_bytes (selected w 1 (lines_of file.content))
              (read_file_lines ctx fs name start end max_bytes s))
          (window_start start end max_bytes)
          (rw (live 0) (
            rw cleaned (
              rw opened (
                rw sound (
                  rw e (
                    read_lines-IsWindow ctx live w 1 1 [] line lines (λ limited. omega arith))))))))
