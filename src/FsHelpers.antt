-- ===== src/FsHelpers.antt =====
-- fs_helpers.go: bounded reads of files, the bounded walk of a tree, and globs over it, for any file
-- system. What a context says is asked for many times in one call: it is a function of how often it
-- was asked. Limits and line numbers that are not positive count as 0.
pub mod Limits
pub mod Selected
pub mod Lines
pub mod WalkDir
pub mod Walk
pub mod Glob
pub mod Walking
pub mod Walks
pub mod Ending
pub mod Below
pub mod Globs
mod Examples
use fluxplane_system.Prelude.{
  ℕ, suc, ◌+◌, ◌-◌, leb, ltb, ◌==◌, Bool, true, false, not, ◌&&◌, ◌||◌, List, [], ◌∷◌, ◌++◌, Option,
  none, some, if◌then◌else◌, length, take,
}
use fluxplane_system.Integers.{ℤ, pos, negsuc, ltbℤ, int64, is_unset}
use fluxplane_system.GoText.{
  Text, slash, backslash, newline, text_eq, is_empty, replace_all, trim_space,
}
use fluxplane_system.GoPath.{dot, is_abs, is_valid_path, path_clean}
use fluxplane_system.System.{
  Error, invalid_name, Result, ok, err, ◌>>=◌, Context, Bytes, File, FileSystem,
}

abbrev pub Checks : Type 0
Checks = ℕ → Context

-- An early return with the error of the context, if it is done.
abbrev pub live : Context → Result (Unit {0})
live none = ok tt
live (some e) = err e

unfoldable pub clean_fs_name : Text → Result Text
clean_fs_name raw =
    let name = trim_space (replace_all backslash slash raw) in
    if is_empty name || text_eq (path_clean name) dot
    then ok dot
    else if is_abs (path_clean name) || not (is_valid_path (path_clean name))
    then err invalid_name
    else ok (path_clean name)

-- `io.ReadAll`
abbrev pub read_all : File → Result Bytes
read_all file = elim file.failure [ none ↦ ok file.content | some e ↦ err e ]

-- `io.ReadAll` of `io.LimitReader(file, n)`, which never sees a failure behind the limit.
unfoldable pub read_limited : ℤ → File → Result Bytes
read_limited (negsuc _) file = ok []
read_limited (pos n) file =
    if leb n (length file.content) then ok (take n file.content) else read_all file

-- `int64(len(data)) > maxBytes`, with the cut.
abbrev pub cut_off : ℤ → Bytes → Bytes × Bool
cut_off (pos n) content = (take n content, ltb n (length content))
cut_off (negsuc _) content = (content, false)

-- `maxBytes+1` of an `int64`.
abbrev pub one_more : ℤ → ℤ
one_more (pos n) = int64 (n + 1)
one_more (negsuc n) = negsuc n

module _ {S : Type 0} where
  unfoldable pub read_file_limit : Checks → FileSystem S → Text → ℤ → S → Result (Bytes × Bool)
  unfolding clean_fs_name read_limited int64
  read_file_limit ctx fs name max_bytes s = live (ctx 0) >>= λ _.
      clean_fs_name name >>= λ clean_name. fs.open_file clean_name s >>= λ file.
      if is_unset max_bytes
      then (read_all file >>= λ content. ok (content, false))
      else (read_limited (one_more max_bytes) file >>= λ content.
          live (ctx 1) >>= λ _. ok (cut_off max_bytes content))

-- What `ReadString('\n')` returns call by call: each line with its end, and last what is left, which
-- comes with the error that ends the reads.
unfoldable pub lines_of : Bytes → List Bytes
lines_of [] = [] ∷ []
lines_of (c ∷ s) =
    let rest = lines_of s in
    if c == newline
    then (c ∷ []) ∷ rest
    else elim rest [ [] ↦ (c ∷ []) ∷ [] | line ∷ lines ↦ (c ∷ line) ∷ lines ]

-- The arguments that stay the same in the loop.
pub record Window : Type 0 where
  pub start : ℕ
  pub end : ℕ
  pub max_bytes : ℕ

abbrev pub in_window : Window → ℕ → Bool
in_window w line_no = leb w.start line_no && (w.end == 0 || leb line_no w.end)

pub record LinesRead : Type 0 where
  pub content : Bytes
  pub start : ℕ
  pub truncated : Bool

-- A line of the window does not fit: none is left, or it is longer than what is left.
abbrev pub overflows : Window → ℕ → Bytes → Bool
overflows w written line =
    ltb 0 w.max_bytes && (leb w.max_bytes written || ltb (w.max_bytes - written) (length line))

-- The loop over the lines, with the number of checks of the context, the line number, and what was
-- written.
unfoldable pub read_lines :
    Checks → Window → Option Error → ℕ → ℕ → Bytes → List Bytes → Result LinesRead
read_lines ctx w failure k line_no out [] =
    ok (record { content = out; start = w.start; truncated = false })
read_lines ctx w failure k line_no out (line ∷ lines) =
    let wanted = in_window w line_no in
    let next =
      read_lines ctx w failure (suc k) (suc line_no) (if wanted then out ++ line else out) lines in
    live (ctx k) >>= λ _.
    if wanted && overflows w (length out) line
    then ok (record {
      content = out ++ take (w.max_bytes - length out) line;
      start = w.start;
      truncated = true;
    })
    else elim lines [
      | [] ↦ elim failure [
        | some e ↦ err e
        | none ↦ ok (record {
          content = if wanted then out ++ line else out;
          start = w.start;
          truncated = false;
        })
      ]
      | _ ∷ _ ↦
          if ltb 0 w.end && leb w.end line_no
          then ok (record {
            content = if wanted then out ++ line else out;
            start = w.start;
            truncated = false;
          })
          else next
    ]

abbrev pub window : ℕ → ℕ → ℕ → Window
window start end max_bytes =
    let first = if start == 0 then 1 else start in
    record {
      start = first;
      end = if ltb 0 end && ltb end first then first else end;
      max_bytes = max_bytes;
    }

module _ {S : Type 0} where
  unfoldable pub read_file_lines : Checks → FileSystem S → Text → ℕ → ℕ → ℕ → S → Result LinesRead
  unfolding clean_fs_name read_lines lines_of
  read_file_lines ctx fs name start end max_bytes s = live (ctx 0) >>= λ _.
      clean_fs_name name >>= λ clean_name. fs.open_file clean_name s >>= λ file.
      read_lines ctx (window start end max_bytes) file.failure 1 1 [] (lines_of file.content)
