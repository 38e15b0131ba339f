-- ===== src/FsHelpers/Limits.antt =====
-- fs_helpers.go: bounded reads.
use fluxplane_system.Prelude.{
  ℕ, zero, suc, ◌+◌, ◌≤◌, ◌<◌, leb, ltb, ◌≡◌, refl, ap, ◌∙◌, false, [], ◌∷◌, none, arith, length,
  take, length-take, if◌then◌else◌, Bool-cases, inl, inr,
}
use fluxplane_system.Integers.{pos, int64, is_unset}
use fluxplane_system.GoText.{Text}
use fluxplane_system.GoPath.{path_base}
use fluxplane_system.System.{
  Result, ok, err, ◌>>=◌, Context, Bytes, File, FileSystem, WriteFileOptions, ok-injective,
  Result-cases,
}
use fluxplane_system.MemSystem.{mem_file_system}
use fluxplane_system.MemSystem.Nodes.{MemFs, Node}
use fluxplane_system.MemSystem.Changes.{write_file}
use fluxplane_system.MemSystem.Reads.{file_info, find_node, open_file, read_file}
use fluxplane_system.MemSystem.Files.{read_file-write_file}
use fluxplane_system.FsHelpers
use fluxplane_system.FsHelpers.{Checks, clean_fs_name, read_limited, cut_off, read_file_limit}

abbrev pub max_int64 : ℕ
max_int64 = 0x7fffffffffffffff

pub int64_small : (n : ℕ) → n ≤ max_int64 → int64 n ≡ pos n
unfolding int64
int64_small n h = ground arith

take_twice : (n : ℕ) (xs : Bytes) → take n (take (n + 1) xs) ≡ take n xs
take_twice n xs = go n (n + 1) xs (omega arith)
  where
    go : (m k : ℕ) (ys : Bytes) → m ≤ k → take m (take k ys) ≡ take m ys
    go zero k ys h = refl
    go (suc m) zero ys h = absurd (omega arith)
    go (suc m) (suc k) [] h = refl
    go (suc m) (suc k) (y ∷ ys) h = ap (λ t. y ∷ t) (go m k ys (omega arith))

-- One byte more than the limit tells whether the content is longer.
pub limited_read :
    (n : ℕ) (file : File)
    → file.failure ≡ none
    → (read_limited (pos (n + 1)) file >>= λ content. ok (cut_off (pos n) content))
      ≡ ok (take n file.content, ltb n (length file.content))
unfolding read_limited
limited_read n file whole = elim (Bool-cases (leb (n + 1) (length file.content))) [
  | inl long ↦
      let more : ltb n (length (take (n + 1) file.content)) ≡ ltb n (length file.content) =
        ground (arith, length-take (n + 1) file.content) in
      rw long (rw (take_twice n file.content) (rw more refl))
  | inr short ↦ rw short (rw (whole) refl)
]

module _ {S : Type 0} (fs : FileSystem S) (ctx : Checks) (name clean_name : Text) (s : S)
    (file : File) (live_before : ctx 0 ≡ none) (cleaned : clean_fs_name name ≡ ok clean_name)
    (opened : fs.open_file clean_name s ≡ ok file) where
  -- With a context that stays live and a file that can be read to its end, `ReadFileLimit` with a
  -- limit from 1 to the largest integer but one returns the first bytes of the file up to the limit,
  -- and tells exactly whether there are more.
  pub read_file_limit-eq-take :
      (n : ℕ)
      → 1 ≤ n
      → n < max_int64
      → ctx 1 ≡ none
      → file.failure ≡ none
      → read_file_limit ctx fs name (pos n) s
        ≡ ok (take n file.content, ltb n (length file.content))
  unfolding read_file_limit
  read_file_limit-eq-take n some_left small live_after whole =
      let bounded : is_unset (pos n) ≡ false = ground arith in
      rw (live_before, cleaned, opened)
        (rw bounded (
          rw (int64_small (n + 1) (omega arith)) (
            after_read (read_limited (pos (n + 1)) file) n live_after ∙ limited_read n file whole)))
    where
      after_read :
          (r : Result Bytes) (m : ℕ)
          → ctx 1 ≡ none
          → (r >>= λ content. FsHelpers.live (ctx 1) >>= λ _. ok (cut_off (pos m) content))
            ≡ (r >>= λ content. ok (cut_off (pos m) content))
      after_read (err e) m h = refl
      after_read (ok content) m h = rw h refl

  -- With the largest integer as the limit, the limit plus one is negative: the call reports an empty
  -- file, not truncated, whatever the file holds.
  pub read_file_limit_max :
      ctx 1 ≡ none → read_file_limit ctx fs name (pos max_int64) s ≡ ok ([], false)
  unfolding read_file_limit read_limited int64
  read_file_limit_max live_after = rw (live_before, cleaned, opened, live_after) refl

-- The handle that the in-memory file system gives for a node.
abbrev opened_file : Text → Node → File
opened_file rel n = record {
  stat = file_info (path_base rel) n;
  content = if n.dir then [] else n.content;
  failure = none;
  listing = none;
}

read_file-open_file :
    (name : Text) (f : MemFs) (content : Bytes)
    → read_file name f ≡ ok content
    → (file : File) × (open_file name f ≡ ok file)
      × (file.content ≡ content)
      × (file.failure ≡ none)
unfolding read_file open_file
read_file-open_file name f content h = elim (Result-cases (find_node name f)) [
  | inr (e, missing) ↦ absurd (let h' = rw (missing, read_file) at h in cc)
  | inl ((rel, n), there) ↦
      let h' = rw (there, read_file) at h in
      let plain : n.dir ≡ false = ground (arith, h') in
      let same : n.content ≡ content = ok-injective (rw plain at h') in
      (opened_file rel n, rw (there, open_file) refl, rw plain same, refl)
]

-- After a successful `WriteFile` of the in-memory file system, under a clean name, `ReadFileLimit`
-- returns the first bytes of what was written, up to the limit, and tells exactly whether there are
-- more.
pub read_file_limit-write_file :
    (ctx : Checks) (c : Context) (name : Text) (content : Bytes) (opts : WriteFileOptions)
    (f : MemFs) (n : ℕ)
    → ctx 0 ≡ none
    → ctx 1 ≡ none
    → clean_fs_name name ≡ ok name
    → (write_file c name content opts f).0 ≡ ok tt
    → 1 ≤ n
    → n < max_int64
    → read_file_limit ctx mem_file_system name (pos n) (write_file c name content opts f).1
      ≡ ok (take n content, ltb n (length content))
unfolding mem_file_system
read_file_limit-write_file ctx c name content opts f n l₀ l₁ cleaned written some_left small =
    let g : MemFs = (write_file c name content opts f).1 in
    let (file, opened, same, whole) =
      read_file-open_file name g content (read_file-write_file c name content opts f written) in
    read_file_limit-eq-take mem_file_system ctx name name g file l₀ cleaned opened n some_left small
      l₁ whole
    ∙ ap (λ (b : Bytes). ok (take n b, ltb n (length b))) same
