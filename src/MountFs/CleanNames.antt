-- ===== src/MountFs/CleanNames.antt =====
-- mountfs/mountfs.go: `cleanRelative`, by cases.
use fluxplane_system.Prelude.{
  ◌≡◌, sym, ap, subst, ◌∙◌, ◌⊎◌, inl, inr, true, not, ◌||◌, [], arith, Bool-cases,
}
use fluxplane_system.GoText.{Text, slash, backslash, text_eq, is_empty, replace_all, trim_space}
use fluxplane_system.GoText.Laws.{text_eq_iff}
use fluxplane_system.GoText.Trimming.{trim_space_idem, trim-replace-Lacks, replace_all_of_Lacks}
use fluxplane_system.GoPath.{dot, is_abs, is_valid_path}
use fluxplane_system.GoPath.Laws.{IsName, valid-IsName, path_clean_of_IsName}
use fluxplane_system.System.{ok}
use fluxplane_system.MountFs.Roots.{clean_input, clean_relative}

pub clean_input_idem : (raw : Text) → clean_input (clean_input raw) ≡ clean_input raw
unfolding clean_input
clean_input_idem raw =
    ap trim_space (
      replace_all_of_Lacks backslash slash (clean_input raw)
        (trim-replace-Lacks backslash slash raw (omega arith)))
    ∙ trim_space_idem (replace_all backslash slash raw)

-- What a relative name is cleaned to: nothing, or the valid name that it is when trimmed.
pub clean_relative_cases :
    (raw rel : Text)
    → clean_relative raw ≡ ok rel
    → ((rel ≡ []) × ((is_empty (clean_input raw) || text_eq (clean_input raw) dot) ≡ true))
      ⊎ (IsName rel × (rel ≡ clean_input raw) × (clean_input rel ≡ rel))
unfolding clean_relative
clean_relative_cases raw rel h =
    let n = clean_input raw in
    elim (Bool-cases (is_empty n || text_eq n dot)) [
      | inl e ↦ inl (ground arith, e)
      | inr e ↦ elim (Bool-cases (is_abs n || not (is_valid_path n))) [
        | inl bad ↦ ground arith
        | inr good ↦
            let name : IsName n =
              valid-IsName n (ground arith) (ground (arith, text_eq_iff n dot)) in
            let same : rel ≡ n = ground (arith, path_clean_of_IsName n name) in
            inr (
              subst IsName (sym same) name,
              same,
              ap clean_input same ∙ clean_input_idem raw ∙ sym same,
            )
      ]
    ]
