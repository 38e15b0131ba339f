-- ===== src/GoMap.antt =====
-- A Go map with text keys, as an association list. The order of the list stands for the order in
-- which a `range` over the map visits its entries.
use fluxplane_system.Prelude.{
  ◌≡◌, refl, ◌≢◌, ◌↔◌, sym, ◌∙◌, false≢true, ap, subst, Bool, true, false, List, [], ◌∷◌, Option,
  none, some, arith, In, inl, inr, if◌then◌else◌, Bool-cases, any,
}
use fluxplane_system.GoText.{Text, text_eq}
use fluxplane_system.GoText.Laws.{text_eq_iff, text_eq_self}

abbrev pub GoMap : Type 0 → Type 0
GoMap V = List (Text × V)

module _ {V : Type 0} where
  -- `m[k]`
  unfoldable pub lookup : Text → GoMap V → Option V
  unfolding text_eq
  lookup k [] = none
  lookup k ((j, v) ∷ m) = if text_eq j k then some v else lookup k m

  -- `m[k] = v`
  unfoldable pub insert : Text → V → GoMap V → GoMap V
  unfolding text_eq
  insert k v [] = (k, v) ∷ []
  insert k v ((j, w) ∷ m) = if text_eq j k then (k, v) ∷ m else (j, w) ∷ insert k v m

  -- `delete(m, k)`
  unfoldable pub delete : Text → GoMap V → GoMap V
  unfolding text_eq
  delete k [] = []
  delete k ((j, w) ∷ m) = let rest = delete k m in if text_eq j k then rest else (j, w) ∷ rest

  unfoldable pub has_key : Text → GoMap V → Bool
  unfolding text_eq
  has_key k [] = false
  has_key k ((j, v) ∷ m) = if text_eq j k then true else has_key k m

  abbrev pub keys : GoMap V → List Text
  keys [] = []
  keys ((k, v) ∷ m) = k ∷ keys m

  pub lookup-insert :
      (k j : Text) (v : V) (m : GoMap V)
      → lookup j (insert k v m) ≡ (if text_eq k j then some v else lookup j m)
  unfolding lookup insert
  lookup-insert k j v [] = refl
  lookup-insert k j v ((i, w) ∷ m) =
      ground (arith, text_eq_iff k j, text_eq_iff i k, text_eq_iff i j, lookup-insert k j v m)

  pub lookup-insert_self : (k : Text) (v : V) (m : GoMap V) → lookup k (insert k v m) ≡ some v
  lookup-insert_self k v m = ground (arith, lookup-insert k k v m, text_eq_self k)

  pub lookup-insert_ne :
      (k j : Text) (v : V) (m : GoMap V) → k ≢ j → lookup j (insert k v m) ≡ lookup j m
  lookup-insert_ne k j v m ne = ground (arith, lookup-insert k j v m, text_eq_iff k j)

  pub lookup-delete :
      (k j : Text) (m : GoMap V)
      → lookup j (delete k m) ≡ (if text_eq k j then none else lookup j m)
  unfolding lookup delete
  lookup-delete k j [] = ground arith
  lookup-delete k j ((i, w) ∷ m) =
      ground (arith, text_eq_iff k j, text_eq_iff i k, text_eq_iff i j, lookup-delete k j m)

  pub lookup-delete_ne : (k j : Text) (m : GoMap V) → k ≢ j → lookup j (delete k m) ≡ lookup j m
  lookup-delete_ne k j m ne = ground (arith, lookup-delete k j m, text_eq_iff k j)

  pub lookup-delete_self : (k : Text) (m : GoMap V) → lookup k (delete k m) ≡ none
  lookup-delete_self k m = ground (arith, lookup-delete k k m, text_eq_self k)

  -- What an entry's key looks up, and where what is looked up stands.
  pub lookup_of_In :
      (k : Text) (v : V) (m : GoMap V) → In (k, v) m → (w : V) × (lookup k m ≡ some w)
  unfolding lookup
  lookup_of_In k v [] h = absurd h
  lookup_of_In k v ((j, w) ∷ m) (inl e) =
      (w, ground (arith, text_eq_iff j k, ap (λ (p : Text × V). p.0) e))
  lookup_of_In k v ((j, w) ∷ m) (inr h) =
      let (u, e) = lookup_of_In k v m h in
      elim (Bool-cases (text_eq j k)) [ inl same ↦ (w, rw same) | inr other ↦ (u, rw other e) ]

  pub In-of_lookup : (k : Text) (v : V) (m : GoMap V) → lookup k m ≡ some v → In (k, v) m
  unfolding lookup
  In-of_lookup k v [] h = cc
  In-of_lookup k v ((j, w) ∷ m) h = elim (Bool-cases (text_eq j k)) [
    | inl same ↦ inl (ground (arith, text_eq_iff j k))
    | inr other ↦ inr (In-of_lookup k v m (ground arith))
  ]

  pub has_key_of_lookup :
      (k : Text) (v : V) (m : GoMap V) → lookup k m ≡ some v → has_key k m ≡ true
  unfolding lookup has_key
  has_key_of_lookup k v [] h = cc
  has_key_of_lookup k v ((j, w) ∷ m) h = ground (arith, has_key_of_lookup k v m)

  pub lookup_of_has_key :
      (k : Text) (m : GoMap V) → has_key k m ≡ true → (v : V) × (lookup k m ≡ some v)
  unfolding lookup has_key
  lookup_of_has_key k [] h = cc
  lookup_of_has_key k ((j, w) ∷ m) h = elim (Bool-cases (text_eq j k)) [
    | inl same ↦ (w, rw same)
    | inr other ↦ let (v, e) = lookup_of_has_key k m (ground arith) in (v, rw other e)
  ]

  pub lookup-none : (k : Text) (m : GoMap V) → has_key k m ≡ false → lookup k m ≡ none
  unfolding lookup has_key
  lookup-none k [] h = refl
  lookup-none k ((j, w) ∷ m) h = ground (arith, lookup-none k m)

  -- A test that no key passes.
  pub any-keys-false :
      (p : Text → Bool) (k : Text) (v : V) (m : GoMap V)
      → any p (keys m) ≡ false
      → lookup k m ≡ some v
      → p k ≡ false
  unfolding lookup
  any-keys-false p k v [] h e = cc
  any-keys-false p k v ((j, w) ∷ m) h e = elim (Bool-cases (text_eq j k)) [
    | inl same ↦ subst (λ x. p x ≡ false) ((text_eq_iff j k).0 same) (ground arith)
    | inr other ↦ any-keys-false p k v m (ground arith) (ground arith)
  ]

  pub has_key-insert :
      (k j : Text) (v : V) (m : GoMap V)
      → has_key j (insert k v m) ≡ (if text_eq k j then true else has_key j m)
  unfolding has_key insert
  has_key-insert k j v [] = refl
  has_key-insert k j v ((i, w) ∷ m) =
      ground (arith, text_eq_iff k j, text_eq_iff i k, text_eq_iff i j, has_key-insert k j v m)

  pub has_key_iff : (k : Text) (m : GoMap V) → (has_key k m ≡ true) ↔ In k (keys m)
  unfolding has_key
  has_key_iff k [] = (λ h. absurd (false≢true h), λ h. absurd h)
  has_key_iff k ((j, w) ∷ m) = elim (Bool-cases (text_eq j k)) [
    | inl same ↦ (λ h. inl (sym ((text_eq_iff j k).0 same)), λ h. rw same refl)
    | inr other ↦ (
      λ h. inr ((has_key_iff k m).0 (ground arith)),
      elim [
        | inl e ↦ absurd (false≢true (sym other ∙ (text_eq_iff j k).1 (sym e)))
        | inr h ↦ rw other ((has_key_iff k m).1 h)
      ],
    )
  ]
