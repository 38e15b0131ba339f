-- ===== src/MountFs/Accepted.antt =====
-- mountfs/mountfs.go: what `New` makes of each root that it is given.
use fluxplane_system.Prelude.{
  All, All-append, ◌≡◌, refl, ◌≢◌, subst, ◌⊎◌, inl, inr, true, false, ◌||◌, List, [], ◌∷◌, ◌++◌,
  arith, Bool-cases, if◌then◌else◌,
}
use fluxplane_system.GoText.{Text, is_empty, trim_space, Unicode}
use fluxplane_system.GoText.Laws.{text_eq_iff, is_empty_iff}
use fluxplane_system.GoPath.{dot}
use fluxplane_system.GoPath.Laws.{IsName, IsName-ne-nil}
use fluxplane_system.System.{ok, >>=-eq-ok, guard-eq-ok, ok-injective, invalid_root_name}
use fluxplane_system.MountFs.Roots.{
  Access, unset, read_only, read_write, other_access, Root, RootInfo, clean_input, clean_relative,
  valid_root_name, normalize_access, normalize_root,
}
use fluxplane_system.MountFs.CleanNames.{clean_relative_cases}

-- Access that is not given means that the root is for reading.
abbrev pub granted : Access → Access
granted unset = read_only
granted a = a

-- The root that is mounted for a root that was given. Its path is the base's root, if the given one
-- is empty or `.`, and otherwise the given one, which is a valid name.
pub record IsTaken (root : Root) (r : RootInfo) : Type 0 where
  pub name : r.name ≡ trim_space root.name
  pub path :
      ((r.path ≡ dot) × ((clean_input root.path ≡ []) ⊎ (clean_input root.path ≡ dot)))
      ⊎ ((r.path ≡ clean_input root.path) × IsName (clean_input root.path))
  pub access : r.access ≡ granted root.access
  pub scratch : r.scratch ≡ root.scratch

abbrev pub AreTaken : List Root → List RootInfo → Type 0
AreTaken [] [] = Unit
AreTaken (root ∷ roots) (r ∷ rs) = IsTaken root r × AreTaken roots rs
AreTaken _ _ = ⊥

abbrev pub AllDistinct : List RootInfo → Type 0
AllDistinct [] = Unit
AllDistinct (r ∷ rs) = All (λ q. q.name ≢ r.name) rs × AllDistinct rs

pub AllDistinct-append_one :
    (rs : List RootInfo) (r : RootInfo)
    → AllDistinct rs
    → All (λ q. r.name ≢ q.name) rs
    → AllDistinct (rs ++ (r ∷ []))
AllDistinct-append_one [] r h ne = (tt, tt)
AllDistinct-append_one (q ∷ rs) r (h, d) (ne, nes) =
    (All-append (λ p. p.name ≢ q.name) rs (r ∷ []) h (ne, tt), AllDistinct-append_one rs r d nes)

normalize_access-granted : (a b : Access) → normalize_access a ≡ ok b → b ≡ granted a
unfolding normalize_access
normalize_access-granted unset b h = cc
normalize_access-granted read_only b h = cc
normalize_access-granted read_write b h = cc
normalize_access-granted (other_access t) b h = cc

taken_path :
    (raw rel : Text)
    → clean_relative raw ≡ ok rel
    → (((if is_empty rel then dot else rel) ≡ dot)
        × ((clean_input raw ≡ []) ⊎ (clean_input raw ≡ dot)))
      ⊎ (((if is_empty rel then dot else rel) ≡ clean_input raw) × IsName (clean_input raw))
taken_path raw rel h = elim (clean_relative_cases raw rel h) [
  | inl (nothing, top) ↦
      let empty : is_empty rel ≡ true = (is_empty_iff rel).1 nothing in
      inl (
        rw empty refl,
        elim (Bool-cases (is_empty (clean_input raw))) [
          | inl e ↦ inl ((is_empty_iff (clean_input raw)).0 e)
          | inr e ↦ inr ((text_eq_iff (clean_input raw) dot).0 (ground (arith, top, e)))
        ],
      )
  | inr (name, same, _) ↦
      let full : is_empty rel ≡ false = elim (Bool-cases (is_empty rel)) [
        | inl e ↦ absurd (IsName-ne-nil rel name ((is_empty_iff rel).0 e))
        | inr e ↦ e
      ] in
      inr (rw full same, subst IsName same name)
]

pub normalize_root-IsTaken :
    (u : Unicode) (root : Root) (r : RootInfo) → normalize_root u root ≡ ok r → IsTaken root r
unfolding normalize_root
normalize_root-IsTaken u root r h =
    let name = trim_space root.name in
    let (valid, h₁) = guard-eq-ok (is_empty name || valid_root_name u name) invalid_root_name _ h in
    let (path, at_path, h₂) = >>=-eq-ok (clean_relative root.path) _ h₁ in
    let (access, given, h₃) = >>=-eq-ok (normalize_access root.access) _ h₂ in
    subst (IsTaken root) (ok-injective h₃) (record {
      name = refl;
      path = taken_path root.path path at_path;
      access = normalize_access-granted root.access access given;
      scratch = refl;
    })
