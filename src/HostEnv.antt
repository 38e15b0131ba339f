-- ===== src/HostEnv.antt =====
-- hostsystem/env.go: the environment of the host and that of its processes. The variables of this
-- process are given as a list of entries `KEY=value`, and `exec.LookPath` is an argument.
use fluxplane_system.Prelude.{
  ◌≡◌, sym, subst, true, false, not, ◌&&◌, ◌||◌, List, [], ◌∷◌, ◌++◌, Option, none, some,
  if◌then◌else◌, if_cases, Bool-cases, inl, inr, All, arith,
}
use fluxplane_system.GoText.{
  Text, slash, is_empty, contains_char, contains_any, trim_space, cut, text_eq,
}
use fluxplane_system.GoMap.{GoMap, lookup, insert}
use fluxplane_system.System.{
  Result, ok, err, ◌>>=◌, >>=-eq-ok, ok-injective, invalid_entry, control_character,
}

abbrev pub equals : Text
equals = 61 ∷ []

-- The loop over the host's entries.
unfoldable pub host_values : List Text → GoMap Text → GoMap Text
unfolding cut is_empty insert
host_values [] values = values
host_values (entry ∷ entries) values =
    let parts = cut 61 entry in
    host_values entries (
      if parts.found && not (is_empty parts.before)
      then insert parts.before parts.after values
      else values)

-- The loop over the overrides.
unfoldable pub override_values : List Text → GoMap Text → Result (GoMap Text)
unfolding cut is_empty insert trim_space contains_any
override_values [] values = ok values
override_values (entry ∷ overrides) values =
    let parts = cut 61 entry in
    let key = trim_space parts.before in
    if not parts.found || is_empty key
    then err invalid_entry
    else if contains_any (0 ∷ 10 ∷ 13 ∷ []) parts.after
    then err control_character
    else override_values overrides (insert key parts.after values)

abbrev pub entries_of : GoMap Text → List Text
entries_of [] = []
entries_of ((key, value) ∷ values) = (key ++ (equals ++ value)) ∷ entries_of values

-- `processEnv`
unfoldable pub process_env : List Text → List Text → Result (List Text)
unfolding host_values override_values
process_env environ overrides =
    override_values overrides (host_values environ []) >>= λ values. ok (entries_of values)

-- `Lookup`
unfoldable pub env_lookup : GoMap Text → Text → Option Text
unfolding trim_space lookup
env_lookup variables key = lookup (trim_space key) variables

-- `ResolveExecutable`
unfoldable pub resolve_executable : (Text → Result Text) → Text → Option Text
unfolding trim_space is_empty contains_char
resolve_executable look_path raw =
    if is_empty (trim_space raw) || contains_char slash (trim_space raw)
    then none
    else elim (look_path (trim_space raw)) [ err _ ↦ none | ok path ↦ some path ]

abbrev pub HasKey : Text × Text → Type 0
HasKey entry = is_empty entry.0 ≡ false

insert-HasKey :
    (key value : Text) (values : GoMap Text)
    → is_empty key ≡ false
    → All HasKey values
    → All HasKey (insert key value values)
unfolding insert
insert-HasKey key value [] h hs = (h, tt)
insert-HasKey key value ((j, w) ∷ values) h (p, hs) =
    if_cases (λ m. All HasKey m) (text_eq j key) ((key, value) ∷ values)
      ((j, w) ∷ insert key value values) (λ _. (h, hs))
      (λ _. (p, insert-HasKey key value values h hs))

host_values-HasKey :
    (entries : List Text) (values : GoMap Text)
    → All HasKey values
    → All HasKey (host_values entries values)
unfolding host_values
host_values-HasKey [] values hs = hs
host_values-HasKey (entry ∷ entries) values hs = host_values-HasKey entries _ (
    if_cases (λ m. All HasKey m) ((cut 61 entry).found && not (is_empty (cut 61 entry).before))
      (insert (cut 61 entry).before (cut 61 entry).after values) values
      (λ taken.
        insert-HasKey (cut 61 entry).before (cut 61 entry).after values (ground (arith, taken)) hs)
      (λ _. hs))

-- An override that is accepted: it has a key, and its value has no line break and no zero.
pub record IsOverride (entry : Text) : Type 0 where
  pub has_value : (cut 61 entry).found ≡ true
  pub has_key : is_empty (trim_space (cut 61 entry).before) ≡ false
  pub printable : contains_any (0 ∷ 10 ∷ 13 ∷ []) (cut 61 entry).after ≡ false

override_values-IsOverride :
    (overrides : List Text) (values out : GoMap Text)
    → All HasKey values
    → override_values overrides values ≡ ok out
    → All IsOverride overrides × All HasKey out
unfolding override_values
override_values-IsOverride [] values out hs h = (tt, subst (All HasKey) (ok-injective h) hs)
override_values-IsOverride (entry ∷ overrides) values out hs h =
    elim (Bool-cases (not (cut 61 entry).found || is_empty (trim_space (cut 61 entry).before))) [
      | inl bad ↦ absurd (let h1 = rw bad at h in cc)
      | inr good ↦
          let h1 = rw good at h in
          elim (Bool-cases (contains_any (0 ∷ 10 ∷ 13 ∷ []) (cut 61 entry).after)) [
            | inl broken ↦ absurd (let h2 = rw broken at h1 in cc)
            | inr clean ↦
                let has_key : is_empty (trim_space (cut 61 entry).before) ≡ false =
                  ground (arith, good) in
                let (all, kept) =
                  override_values-IsOverride overrides
                    (insert (trim_space (cut 61 entry).before) (cut 61 entry).after values) out
                    (insert-HasKey (trim_space (cut 61 entry).before) (cut 61 entry).after values
                      has_key hs)
                    (rw clean at h1) in
                (
                  (
                    record {
                      has_value = ground (arith, good);
                      has_key = has_key;
                      printable = clean;
                    },
                    all,
                  ),
                  kept,
                )
          ]
    ]

-- The environment of a process, if there is one, is a list of entries whose keys are not empty, and
-- then every override had a key, and a value without line breaks and zeros.
pub process_env-IsOverride :
    (environ overrides out : List Text)
    → process_env environ overrides ≡ ok out
    → (values : GoMap Text) × (out ≡ entries_of values)
      × All HasKey values
      × All IsOverride overrides
unfolding process_env
process_env-IsOverride environ overrides out h =
    let (values, made, same) = >>=-eq-ok (override_values overrides (host_values environ [])) _ h in
    let (accepted, keyed) =
      override_values-IsOverride overrides (host_values environ []) values
        (host_values-HasKey environ [] tt) made in
    (values, sym (ok-injective same), keyed, accepted)
