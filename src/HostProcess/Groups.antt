-- ===== src/HostProcess/Groups.antt =====
-- hostsystem/process.go: the members of a group.
use fluxplane_system.Prelude.{
  ℕ, ◌≡◌, refl, ◌==◌, Bool, true, false, not, ◌&&◌, List, [], ◌∷◌, Option, none, some,
  if◌then◌else◌, any, arith, Bool-cases, Option-cases, inl, inr, ap, ◌∙◌, sym, subst,
}
use fluxplane_system.GoText.{Text, is_empty, trim_space, text_eq}
use fluxplane_system.GoText.Laws.{text_eq→eq}
use fluxplane_system.GoMap.{GoMap, lookup, lookup-insert, lookup-delete}
use fluxplane_system.HostProcess.{Process, without_id, store_members, remove_from_group}

-- Whether the group has a process with the id among its members.
abbrev pub holds : ℕ → Option (List ℕ) → Bool
holds id none = false
holds id (some members) = any (λ n. n == id) members

abbrev pub in_group : Text → ℕ → Process → Bool
in_group name id m = holds id (lookup name m.groups)

any-without_id :
    (id other : ℕ) (ns : List ℕ)
    → any (λ n. n == other) (without_id id ns) ≡ (any (λ n. n == other) ns && not (other == id))
unfolding without_id
any-without_id id other [] = refl
any-without_id id other (n ∷ ns) = ground (arith, any-without_id id other ns)

holds-if :
    (id : ℕ) (b : Bool) (x y : Option (List ℕ))
    → holds id (if b then x else y) ≡ (if b then holds id x else holds id y)
holds-if id true x y = refl
holds-if id false x y = refl

and_true : (b : Bool) → b ≡ (b && true)
and_true true = refl
and_true false = refl

-- A group that is not there has no members to lose.
absent :
    (name k : Text) (id other : ℕ) (groups : GoMap (List ℕ))
    → lookup name groups ≡ none
    → holds other (lookup k groups)
      ≡ (holds other (lookup k groups) && not (text_eq name k && other == id))
absent name k id other groups h = elim (Bool-cases (text_eq name k)) [
  | inr e ↦ rw e (and_true (holds other (lookup k groups)))
  | inl e ↦
      let same : name ≡ k = text_eq→eq name k e in
      let gone : lookup k groups ≡ none = subst (λ t. lookup t groups ≡ none) same h in rw gone refl
]

holds-store_members :
    (name k : Text) (id : ℕ) (ns : List ℕ) (groups : GoMap (List ℕ))
    → holds id (lookup k (store_members name ns groups))
      ≡ (if text_eq name k then holds id (some ns) else holds id (lookup k groups))
holds-store_members name k id [] groups =
    ap (holds id) (lookup-delete name k groups)
    ∙ holds-if id (text_eq name k) none (lookup k groups)
holds-store_members name k id (n ∷ ns) groups =
    ap (holds id) (lookup-insert name k (n ∷ ns) groups)
    ∙ holds-if id (text_eq name k) (some (n ∷ ns)) (lookup k groups)

-- Removal where the group is known.
removed_members :
    (name k : Text) (id other : ℕ) (groups : GoMap (List ℕ)) (members : List ℕ)
    → lookup name groups ≡ some members
    → holds other (lookup k (store_members name (without_id id members) groups))
      ≡ (holds other (lookup k groups) && not (text_eq name k && other == id))
removed_members name k id other groups members h =
    holds-store_members name k other (without_id id members) groups
    ∙ (elim (Bool-cases (text_eq name k)) [
      | inl e ↦
          let same : name ≡ k = text_eq→eq name k e in
          let there : holds other (lookup k groups) ≡ any (λ n. n == other) members =
            subst (λ t. holds other (lookup t groups) ≡ any (λ n. n == other) members) same
              (ap (holds other) h) in
          rw e (any-without_id id other members ∙ ap (λ b. b && not (other == id)) (sym there))
      | inr e ↦ rw e (and_true (holds other (lookup k groups)))
    ])

-- Taking a process out of a group: it is in that group no longer, and nothing else changes in who
-- is in which group. A group name of nothing but spaces changes nothing.
pub in_group-remove_from_group :
    (raw k : Text) (id other : ℕ) (m : Process)
    → in_group k other (remove_from_group raw id m) ≡ (
        in_group k other m
        && not (not (is_empty (trim_space raw)) && (text_eq (trim_space raw) k && other == id)))
unfolding remove_from_group
in_group-remove_from_group raw k id other m = elim (Bool-cases (is_empty (trim_space raw))) [
  | inl blank ↦ rw blank (and_true (in_group k other m))
  | inr named ↦ rw named (elim (Option-cases (lookup (trim_space raw) m.groups)) [
    | inl none_there ↦ rw none_there (absent (trim_space raw) k id other m.groups none_there)
    | inr (members, h) ↦ rw h (removed_members (trim_space raw) k id other m.groups members h)
  ])
]
