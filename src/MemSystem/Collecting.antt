-- ===== src/MemSystem/Collecting.antt =====
-- How the listing of a directory is collected from the map of nodes.
use fluxplane_system.Prelude.{
  ℕ, ◌≡◌, refl, ◌≢◌, sym, ap, ap₂, subst, ◌∙◌, ◌⊎◌, inl, inr, true, not, ◌||◌, List, [], ◌∷◌, ◌++◌,
  arith, Bool-cases, if_cases, if◌then◌else◌, In,
}
use fluxplane_system.GoText.{Text, slash, text_eq, has_prefix, trim_prefix, cut, CutResult}
use fluxplane_system.GoText.Laws.{Lacks, text_eq_iff}
use fluxplane_system.GoMap.{GoMap, insert, has_key, keys, has_key-insert}
use fluxplane_system.System.{DirEntry}
use fluxplane_system.MemSystem.Nodes.{Node, MemFs}
use fluxplane_system.MemSystem.Reads.{dir_prefix, child_node, collect_children, values, dir_entry}
use fluxplane_system.GoText.Splitting.{cut_none, cut-append, first_separator}

-- Where a text has a separator, `cut` stops at the first.
pub cut_cases :
    (c : ℕ) (s : Text)
    → (Lacks c s × ((cut c s).before ≡ s))
      ⊎ ((b : Text) × (a : Text) × (s ≡ b ++ (c ∷ a)) × Lacks c b × ((cut c s).before ≡ b))
cut_cases c s = elim (first_separator c s) [
  | inl h ↦ inl (h, ap (λ (r : CutResult). r.before) (cut_none c s h))
  | inr (b, a, e, h) ↦ inr (
    b,
    a,
    e,
    h,
    ap (λ t. (cut c t).before) e ∙ ap (λ (r : CutResult). r.before) (cut-append c b a h),
  )
]

-- `candidate` stands below the directory `rel`, at any depth, and `x` is the first step to it.
abbrev pub IsStep : Text → Text → Text → Type 0
IsStep rel candidate x =
    (candidate ≢ rel)
    × (has_prefix (dir_prefix rel) candidate ≡ true)
    × (x ≡ (cut slash (trim_prefix (dir_prefix rel) candidate)).before)

abbrev pub names : List DirEntry → List Text
names [] = []
names (e ∷ es) = e.name ∷ names es

-- Each entry is stored under its own name.
abbrev pub AreNamed : GoMap DirEntry → Type 0
AreNamed [] = Unit
AreNamed ((k, e) ∷ m) = (e.name ≡ k) × AreNamed m

pub insert-AreNamed :
    (k : Text) (e : DirEntry) (m : GoMap DirEntry)
    → e.name ≡ k
    → AreNamed m
    → AreNamed (insert k e m)
unfolding insert
insert-AreNamed k e [] h t = (h, tt)
insert-AreNamed k e ((j, d) ∷ m) h (n, t) = ground (arith, insert-AreNamed k e m h t)

pub names-values : (m : GoMap DirEntry) → AreNamed m → names (values m) ≡ keys m
names-values [] h = refl
names-values ((k, e) ∷ m) (n, h) = ap₂ ◌∷◌ n (names-values m h)

pub collect-AreNamed :
    (rel : Text) (f : MemFs) (m : GoMap Node) (seen : GoMap DirEntry)
    → AreNamed seen
    → AreNamed (collect_children rel f m seen)
unfolding collect_children
collect-AreNamed rel f [] seen h = h
collect-AreNamed rel f ((k, n) ∷ m) seen h = collect-AreNamed rel f m _ (
    if_cases AreNamed (text_eq k rel || not (has_prefix (dir_prefix rel) k)) _ _ (λ _. h)
      (λ _. insert-AreNamed _ _ seen refl h))

-- What one round adds.
abbrev pub round : Text → MemFs → Text → Node → GoMap DirEntry → GoMap DirEntry
round rel f k n seen =
    let first = (cut slash (trim_prefix (dir_prefix rel) k)).before in
    if text_eq k rel || not (has_prefix (dir_prefix rel) k)
    then seen
    else insert first (dir_entry first (child_node (dir_prefix rel ++ first) n f)) seen

pub round_sound :
    (rel : Text) (f : MemFs) (k : Text) (n : Node) (seen : GoMap DirEntry) (x : Text)
    → has_key x (round rel f k n seen) ≡ true
    → (has_key x seen ≡ true) ⊎ IsStep rel k x
round_sound rel f k n seen x h =
    let first = (cut slash (trim_prefix (dir_prefix rel) k)).before in
    elim (Bool-cases (text_eq k rel || not (has_prefix (dir_prefix rel) k))) [
      | inl skip ↦ inl (rw skip at h)
      | inr keep ↦
          let h' = rw keep at h in
          elim (Bool-cases (text_eq first x)) [
            | inl same ↦ inr (
              ground (arith, text_eq_iff k rel),
              ground arith,
              sym ((text_eq_iff first x).0 same),
            )
            | inr other ↦ inl (
                ground (
                  arith,
                  has_key-insert first x
                      (dir_entry first (child_node (dir_prefix rel ++ first) n f)) seen,
                  h',
                ))
          ]
    ]

pub round_keeps :
    (rel : Text) (f : MemFs) (k : Text) (n : Node) (seen : GoMap DirEntry) (x : Text)
    → has_key x seen ≡ true
    → has_key x (round rel f k n seen) ≡ true
round_keeps rel f k n seen x h =
    let first = (cut slash (trim_prefix (dir_prefix rel) k)).before in
    let entry = dir_entry first (child_node (dir_prefix rel ++ first) n f) in
    if_cases (λ m. has_key x m ≡ true) (text_eq k rel || not (has_prefix (dir_prefix rel) k)) _ _
      (λ _. h) (λ _. ground (arith, has_key-insert first x entry seen))

pub round_adds :
    (rel : Text) (f : MemFs) (k : Text) (n : Node) (seen : GoMap DirEntry) (x : Text)
    → IsStep rel k x
    → has_key x (round rel f k n seen) ≡ true
round_adds rel f k n seen x (ne, below, e) =
    let first = (cut slash (trim_prefix (dir_prefix rel) k)).before in
    let entry = dir_entry first (child_node (dir_prefix rel ++ first) n f) in
    if_cases (λ m. has_key x m ≡ true) (text_eq k rel || not (has_prefix (dir_prefix rel) k)) _ _
      (λ skip. absurd (ground (arith, text_eq_iff k rel)))
      (λ _. ground (arith, has_key-insert first x entry seen, text_eq_iff first x))

pub collect_sound :
    (rel : Text) (f : MemFs) (m : GoMap Node) (seen : GoMap DirEntry) (x : Text)
    → has_key x (collect_children rel f m seen) ≡ true
    → (has_key x seen ≡ true) ⊎ ((k : Text) × (n : Node) × In (k, n) m × IsStep rel k x)
unfolding collect_children
collect_sound rel f [] seen x h = inl h
collect_sound rel f ((k, n) ∷ m) seen x h =
    elim (collect_sound rel f m (round rel f k n seen) x h) [
      | inr (j, p, i, step) ↦ inr (j, p, inr i, step)
      | inl here ↦ elim (round_sound rel f k n seen x here) [
        | inl old ↦ inl old
        | inr step ↦ inr (k, n, inl refl, step)
      ]
    ]

pub collect_keeps :
    (rel : Text) (f : MemFs) (m : GoMap Node) (seen : GoMap DirEntry) (x : Text)
    → has_key x seen ≡ true
    → has_key x (collect_children rel f m seen) ≡ true
unfolding collect_children
collect_keeps rel f [] seen x h = h
collect_keeps rel f ((k, n) ∷ m) seen x h =
    collect_keeps rel f m (round rel f k n seen) x (round_keeps rel f k n seen x h)

pub collect_adds :
    (rel : Text) (f : MemFs) (m : GoMap Node) (seen : GoMap DirEntry) (x k : Text) (n : Node)
    → In (k, n) m
    → IsStep rel k x
    → has_key x (collect_children rel f m seen) ≡ true
unfolding collect_children
collect_adds rel f [] seen x k n i step = absurd i
collect_adds rel f ((j, p) ∷ m) seen x k n (inl e) step =
    let same : k ≡ j = ap (λ (q : Text × Node). q.0) e in
    collect_keeps rel f m (round rel f j p seen) x
      (round_adds rel f j p seen x (subst (λ y. IsStep rel y x) same step))
collect_adds rel f ((j, p) ∷ m) seen x k n (inr i) step =
    collect_adds rel f m (round rel f j p seen) x k n i step
