-- ===== src/FsHelpers/Selected.antt =====
-- fs_helpers.go: the window of lines of `ReadFileLines`, and the lines that its loop selects.
use fluxplane_system.Prelude.{
  drop, zero, ℕ, suc, ◌+◌, ◌-◌, ◌≤◌, ◌<◌, leb, ltb, ◌==◌, ◌≡◌, refl, sym, ap, ◌∙◌, true, false,
  List, [], ◌∷◌, ◌++◌, arith, take, if◌then◌else◌, Bool-cases, inl, inr,
}
use fluxplane_system.System.{Bytes}
use fluxplane_system.FsHelpers.{Window, in_window, window}

-- The number of the first wanted line; lines are counted from 1.
abbrev pub first_line : ℕ → ℕ
first_line zero = 1
first_line (suc n) = suc n

-- The lines that are wanted: those behind the first `first_line start - 1` lines; all of them if no
-- end is given, and otherwise those up to number `end`, but at least one.
abbrev pub wanted_lines : ℕ → ℕ → List Bytes → List Bytes
wanted_lines start end lines =
    let from : List Bytes = drop (first_line start - 1) lines in
    if end == 0 then from else take (suc (end - first_line start)) from

abbrev pub joined : List Bytes → Bytes
joined [] = []
joined (line ∷ lines) = line ++ joined lines

-- The lines of the window as the loop selects them; the list begins with the line of that number.
abbrev pub selected : Window → ℕ → List Bytes → Bytes
selected w n [] = []
selected w n (line ∷ lines) = (if in_window w n then line else []) ++ selected w (suc n) lines

-- Behind the end of the window nothing is selected.
pub selected_past :
    (w : Window) (n : ℕ) (lines : List Bytes)
    → ltb 0 w.end ≡ true
    → w.end < n
    → selected w n lines ≡ []
selected_past w n [] h past = refl
selected_past w n (line ∷ lines) h past =
    let outside : in_window w n ≡ false = ground arith in
    rw outside (selected_past w (suc n) lines h (omega arith))

abbrev no_lines : List Bytes
no_lines = []

take_none : (n : ℕ) → take n no_lines ≡ no_lines
take_none zero = refl
take_none (suc n) = refl

-- From the first line on, lines are selected up to the last one.
selected_from :
    (w : Window) (n : ℕ) (lines : List Bytes)
    → w.start ≤ n
    → selected w n lines ≡ joined (if w.end == 0 then lines else take (suc w.end - n) lines)
selected_from w n [] h = elim (Bool-cases (w.end == 0)) [
  | inl e ↦ rw e refl
  | inr e ↦ rw e (ap joined (sym (take_none (suc w.end - n))))
]
selected_from w n (line ∷ lines) h =
    let rest = selected_from w (suc n) lines (omega arith) in
    elim (Bool-cases (w.end == 0)) [
      | inl e ↦
          let wanted : in_window w n ≡ true = ground (arith, e, h) in
          rw (wanted, in_window) (rw e (ap (λ t. line ++ t) (rw e at rest)))
      | inr e ↦ elim (Bool-cases (leb n w.end)) [
        | inl near ↦
            let wanted : in_window w n ≡ true = ground (arith, e, h, near) in
            let more : suc w.end - n ≡ suc (suc w.end - suc n) = ground (arith, near) in
            rw (wanted, in_window) (rw e (rw more (ap (λ t. line ++ t) (rw e at rest))))
        | inr past ↦
            let no_more : suc w.end - n ≡ 0 = ground (arith, past) in
            selected_past w n (line ∷ lines) (ground (arith, e)) (ground (arith, past))
            ∙ rw e (rw no_more refl)
      ]
    ]

-- In front of the first line nothing is selected.
selected_before :
    (w : Window) (k n : ℕ) (lines : List Bytes)
    → n + k ≡ w.start
    → selected w n lines ≡ selected w w.start (drop k lines)
selected_before w zero n lines h = ap (λ i. selected w i lines) (omega arith)
selected_before w (suc k) n [] h = refl
selected_before w (suc k) n (line ∷ lines) h =
    let outside : in_window w n ≡ false = ground (arith, h) in
    rw (outside, in_window) (selected_before w k (suc n) lines (omega arith))

pub window_start : (start end max_bytes : ℕ) → (window start end max_bytes).start ≡ first_line start
window_start zero end max_bytes = refl
window_start (suc n) end max_bytes = ground arith

-- What the loop selects in the window that the function makes of its arguments.
pub selected-window :
    (start end max_bytes : ℕ) (lines : List Bytes)
    → selected (window start end max_bytes) 1 lines ≡ joined (wanted_lines start end lines)
selected-window start end max_bytes lines =
    let w : Window = window start end max_bytes in
    let first = window_start start end max_bytes in
    let counted : 1 ≤ first_line start = first_line_pos start in
    let from : List Bytes = drop (first_line start - 1) lines in
    selected_before w (first_line start - 1) 1 lines (omega arith)
    ∙ selected_from w w.start from (omega arith)
    ∙ elim (Bool-cases (end == 0)) [
      | inl e ↦
          let unbounded : (w.end == 0) ≡ true = ground (arith, e, first, counted) in
          rw e (rw unbounded refl)
      | inr e ↦
          let bounded : (w.end == 0) ≡ false = ground (arith, e, first, counted) in
          let count : suc w.end - w.start ≡ suc (end - first_line start) =
            ground (arith, e, first, counted) in
          rw e (rw bounded (rw count refl))
    ]
  where
    first_line_pos : (n : ℕ) → 1 ≤ first_line n
    first_line_pos zero = omega arith
    first_line_pos (suc n) = omega arith
