-- ===== src/ProcessCapture/Laws.antt =====
-- process_capture.go: what is captured of the events of one process that were received.
use fluxplane_system.Prelude.{
  ℕ, ◌+◌, ◌-◌, ◌≤◌, leb, ltb, ◌≡◌, refl, sym, ap, subst, ◌∙◌, true, false, ◌&&◌, ◌||◌, List, [],
  ◌∷◌, ◌++◌, arith, if◌then◌else◌, if_cases, length, take, length-append, take-append, take_all,
  append-nil, append_assoc, Bool-cases, inl, inr, ◌<◌, min, length-take, ltb→lt, false≢true,
}
use fluxplane_system.GoText.{Text, codes, text_eq}
use fluxplane_system.GoText.Laws.{text_eq→eq}
use fluxplane_system.System.{Bytes}
use fluxplane_system.ProcessTypes.{ProcessEvent}
use fluxplane_system.ProcessCapture.{
  Captured, nothing_captured, append_captured, Capture, is_wanted, collect_event, collect_events,
}

-- What an event adds to a stream of the process, and the data of all the events that were received
-- for that stream, in order.
abbrev pub piece : ℕ → Text → ProcessEvent → Bytes
piece id stream e = if is_wanted id e && text_eq e.stream stream then e.content else []

abbrev pub received : ℕ → Text → List ProcessEvent → Bytes
received id stream [] = []
received id stream (e ∷ es) = piece id stream e ++ received id stream es

-- The state after all of `all` was seen.
pub record IsCaptured (max_bytes : ℕ) (all : Bytes) (c : Captured) : Type 0 where
  pub builder : c.builder ≡ take max_bytes all
  pub size : c.size ≡ length c.builder
  pub truncated : c.truncated ≡ ltb max_bytes (length all)

take_more : (n : ℕ) (xs ys : Bytes) → n ≤ length xs → take n (xs ++ ys) ≡ take n xs
take_more n xs ys h =
    let none_left : n - length xs ≡ 0 = omega arith in
    take-append n xs ys ∙ ap (λ k. take n xs ++ take k ys) none_left ∙ append-nil (take n xs)

take_on :
    (n : ℕ) (xs ys : Bytes) → length xs ≤ n → take n (xs ++ ys) ≡ xs ++ take (n - length xs) ys
take_on n xs ys h = take-append n xs ys ∙ ap (λ t. t ++ take (n - length xs) ys) (take_all n xs h)

append-IsCut :
    (max_bytes : ℕ) (all content : Bytes) (c : Captured)
    → IsCaptured max_bytes all c
    → c.truncated ≡ true
    → IsCaptured max_bytes (all ++ content) c
append-IsCut max_bytes all content c inv cut =
    let long : ltb max_bytes (length all) ≡ true = sym inv.truncated ∙ cut in
    let more : length (all ++ content) ≡ length all + length content = length-append all content in
    let still : ltb max_bytes (length (all ++ content)) ≡ true = ground arith in
    record {
      builder = inv.builder ∙ sym (take_more max_bytes all content (ground arith));
      size = inv.size;
      truncated = cut ∙ sym still;
    }

-- A stream that is not cut off is captured whole.
captured_whole :
    (max_bytes : ℕ) (all : Bytes) (c : Captured)
    → IsCaptured max_bytes all c
    → c.truncated ≡ false
    → (c.builder ≡ all) × (c.size ≡ length all) × (length all ≤ max_bytes)
captured_whole max_bytes all c inv whole =
    let short : ltb max_bytes (length all) ≡ false = sym inv.truncated ∙ whole in
    let fits : length all ≤ max_bytes = ground arith in
    let same : c.builder ≡ all = inv.builder ∙ take_all max_bytes all fits in
    (same, inv.size ∙ ap length same, fits)

append-IsFull :
    (max_bytes : ℕ) (all content : Bytes) (c : Captured)
    → (c.builder ≡ all) × (c.size ≡ length all) × (length all ≤ max_bytes)
    → leb max_bytes c.size ≡ true
    → 1 ≤ length content
    → IsCaptured max_bytes (all ++ content) (record c { truncated = true })
append-IsFull max_bytes all content c (same, size, fits) full some_left =
    let more : length (all ++ content) ≡ length all + length content = length-append all content in
    let reached : max_bytes ≡ length all = ground arith in
    let cut : ltb max_bytes (length (all ++ content)) ≡ true = ground arith in
    record {
      builder =
          same
          ∙ sym (
              take_more max_bytes all content (omega arith) ∙ take_all max_bytes all (omega arith));
      size = size ∙ sym (ap length same);
      truncated = sym cut;
    }

append-IsPart :
    (max_bytes : ℕ) (all content : Bytes) (c : Captured)
    → (c.builder ≡ all) × (c.size ≡ length all) × (length all ≤ max_bytes)
    → ltb (max_bytes - c.size) (length content) ≡ true
    → IsCaptured max_bytes (all ++ content) (record {
      builder = c.builder ++ take (max_bytes - c.size) content;
      size = max_bytes;
      truncated = true;
    })
append-IsPart max_bytes all content c (same, size, fits) part =
    let more : length (all ++ content) ≡ length all + length content = length-append all content in
    let longer : max_bytes - length all < length content =
      ltb→lt (max_bytes - length all) (length content)
        (subst (λ k. ltb (max_bytes - k) (length content) ≡ true) size part) in
    let cut : ltb max_bytes (length (all ++ content)) ≡ true = ground arith in
    let both : c.builder ++ take (max_bytes - c.size) content ≡ take max_bytes (all ++ content) =
      rw same (rw size (sym (take_on max_bytes all content fits))) in
    let long : length (take max_bytes (all ++ content)) ≡ min max_bytes (length (all ++ content)) =
      length-take max_bytes (all ++ content) in
    let size_max : max_bytes ≡ length (take max_bytes (all ++ content)) = omega arith in
    record { builder = both; size = size_max ∙ ap length (sym both); truncated = sym cut }

append-IsWhole :
    (max_bytes : ℕ) (all content : Bytes) (c : Captured)
    → (c.builder ≡ all) × (c.size ≡ length all) × (length all ≤ max_bytes)
    → leb max_bytes c.size ≡ false
    → ltb (max_bytes - c.size) (length content) ≡ false
    → IsCaptured max_bytes (all ++ content) (record {
      builder = c.builder ++ content;
      size = c.size + length content;
      truncated = false;
    })
append-IsWhole max_bytes all content c (same, size, fits) room part =
    let more : length (all ++ content) ≡ length all + length content = length-append all content in
    let below : c.size < max_bytes = ground arith in
    let rest : length content ≤ max_bytes - c.size = ground arith in
    let enough : length (all ++ content) ≤ max_bytes = omega arith in
    let cut : ltb max_bytes (length (all ++ content)) ≡ false = ground arith in
    let both : c.builder ++ content ≡ all ++ content = ap (λ b. b ++ content) same in
    record {
      builder = both ∙ sym (take_all max_bytes (all ++ content) enough);
      size = ap (λ n. n + length content) size ∙ sym more ∙ ap length (sym both);
      truncated = sym cut;
    }

abbrev no_bytes : Bytes
no_bytes = []

take-nil : (n : ℕ) → take n [] ≡ no_bytes
take-nil n = take_all n [] (omega arith)

nothing_long : (n : ℕ) → false ≡ ltb n 0
nothing_long n = ground arith

append_captured-IsCaptured :
    (max_bytes : ℕ) (all content : Bytes) (c : Captured)
    → IsCaptured max_bytes all c
    → IsCaptured max_bytes (all ++ content) (append_captured max_bytes content c)
unfolding append_captured
append_captured-IsCaptured max_bytes all [] c inv = rw (append-nil all) (
    if_cases (IsCaptured max_bytes all) (c.truncated || true) _ _ (λ _. inv)
      (λ no. let absurd : false ≡ true = ground arith in elim (false≢true absurd) [ ]))
append_captured-IsCaptured max_bytes all (b ∷ bs) c inv =
    if_cases (IsCaptured max_bytes (all ++ b ∷ bs)) (c.truncated || false) _ _
      (λ cut. append-IsCut max_bytes all (b ∷ bs) c inv (ground arith))
      (λ whole.
        let not_cut : c.truncated ≡ false = ground arith in
        let seen = captured_whole max_bytes all c inv not_cut in
        if_cases (IsCaptured max_bytes (all ++ b ∷ bs)) (leb max_bytes c.size) _ _
          (λ full. append-IsFull max_bytes all (b ∷ bs) c seen full (omega arith))
          (λ room.
            if_cases (IsCaptured max_bytes (all ++ b ∷ bs))
              (ltb (max_bytes - c.size) (length (b ∷ bs))) _ _
              (append-IsPart max_bytes all (b ∷ bs) c seen)
              (append-IsWhole max_bytes all (b ∷ bs) c seen room)))

abbrev pub out_name : Text
out_name = codes "stdout"

abbrev pub err_name : Text
err_name = codes "stderr"

abbrev pub StreamsCaptured : ℕ → Bytes → Bytes → Capture → Type 0
StreamsCaptured max_bytes out errors c =
    IsCaptured max_bytes out c.stdout × IsCaptured max_bytes errors c.stderr

one_stream : (t : Text) → text_eq t out_name ≡ true → text_eq t err_name ≡ false
unfolding text_eq
one_stream t h = rw (text_eq→eq t out_name h) refl

collect_event-IsCaptured :
    (id max_bytes : ℕ) (e : ProcessEvent) (out errors : Bytes) (c : Capture)
    → StreamsCaptured max_bytes out errors c
    → StreamsCaptured max_bytes
        (out ++ piece id out_name e)
        (errors ++ piece id err_name e)
        (collect_event id max_bytes e c)
unfolding collect_event
collect_event-IsCaptured id max_bytes e out errors c (h, k) =
    let out_same : IsCaptured max_bytes (out ++ []) c.stdout = rw (append-nil out) h in
    let err_same : IsCaptured max_bytes (errors ++ []) c.stderr = rw (append-nil errors) k in
    elim (Bool-cases (is_wanted id e)) [
      | inr other ↦ rw other (out_same, err_same)
      | inl mine ↦ elim (Bool-cases (text_eq e.stream out_name)) [
        | inl is_out ↦ rw mine (
            rw is_out (
              rw (one_stream e.stream is_out)
                (append_captured-IsCaptured max_bytes out e.content c.stdout h, err_same)))
        | inr not_out ↦ elim (Bool-cases (text_eq e.stream err_name)) [
          | inl is_err ↦ rw mine (
              rw not_out (
                rw is_err
                  (out_same, append_captured-IsCaptured max_bytes errors e.content c.stderr k)))
          | inr not_err ↦ rw mine (rw not_out (rw not_err (out_same, err_same)))
        ]
      ]
    ]

collect_events-from :
    (id max_bytes : ℕ) (es : List ProcessEvent) (out errors : Bytes) (c : Capture)
    → StreamsCaptured max_bytes out errors c
    → StreamsCaptured max_bytes
        (out ++ received id out_name es)
        (errors ++ received id err_name es)
        (collect_events id max_bytes es c)
unfolding collect_events
collect_events-from id max_bytes [] out errors c h = rw (append-nil out) (rw (append-nil errors) h)
collect_events-from id max_bytes (e ∷ es) out errors c h =
    rw (sym (append_assoc out (piece id out_name e) (received id out_name es))) (
      rw (sym (append_assoc errors (piece id err_name e) (received id err_name es))) (
        collect_events-from id max_bytes es (out ++ piece id out_name e)
          (errors ++ piece id err_name e) (collect_event id max_bytes e c)
          (collect_event-IsCaptured id max_bytes e out errors c h)))

-- The capture of a process holds, for each of its two streams, the first `max_bytes` bytes of the
-- data of the output events that were received of that process for that stream, in order, with the
-- number of bytes kept; the stream is marked as truncated exactly if those events hold more data than
-- that. Events of other processes, of other kinds and of other streams add nothing.
pub collect_events-IsCaptured :
    (id max_bytes : ℕ) (es : List ProcessEvent)
    → StreamsCaptured max_bytes (received id out_name es) (received id err_name es) (
        collect_events id max_bytes es
          (record { stdout = nothing_captured; stderr = nothing_captured }))
collect_events-IsCaptured id max_bytes es =
    let nothing : IsCaptured max_bytes [] nothing_captured = record {
      builder = sym (take-nil max_bytes);
      size = refl;
      truncated = nothing_long max_bytes;
    } in
    collect_events-from id max_bytes es [] []
      (record { stdout = nothing_captured; stderr = nothing_captured }) (nothing, nothing)
