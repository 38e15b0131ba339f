-- ===== src/MemSystem/Deletion.antt =====
-- memsystem/filesystem.go: lookups after a removal.
use fluxplane_system.Prelude.{◌≡◌, sym, ap, subst, ◌∙◌, arith, none, if◌then◌else◌}
use fluxplane_system.GoText.{Text, text_eq}
use fluxplane_system.GoMap.{lookup, delete, lookup-delete, lookup-delete_self}
use fluxplane_system.System.{ok, err, Outcome, Context, not_exist}
use fluxplane_system.MemSystem.Nodes.{MemFs, clean}
use fluxplane_system.MemSystem.Changes.{remove_at, remove}
use fluxplane_system.MemSystem.Reads.{stat}
use fluxplane_system.MemSystem.Files.{with_name_ok, stat_missing}

pub remove_at_ok :
    (rel : Text) (f : MemFs)
    → (remove_at rel f).0 ≡ ok tt
    → (remove_at rel f).1 ≡ record f { nodes = delete rel f.nodes }
unfolding remove_at
remove_at_ok rel f h = ground arith

pub remove_ok :
    (ctx : Context) (name : Text) (f : MemFs)
    → (remove ctx name f).0 ≡ ok tt
    → (rel : Text) × (clean name ≡ ok rel)
      × ((remove ctx name f).1 ≡ record f { nodes = delete rel f.nodes })
unfolding remove
remove_ok ctx name f h =
    let (rel, e, same) = with_name_ok ctx name remove_at f h in
    (
      rel,
      e,
      ap (λ (r : Outcome MemFs (Unit {0})). r.1) same
          ∙ remove_at_ok rel f (ap (λ (r : Outcome MemFs (Unit {0})). r.0) (sym same) ∙ h),
    )

-- After a successful `Remove` the name is gone, and every other path has the node that it had.
pub remove-stat :
    (ctx : Context) (name : Text) (f : MemFs)
    → (remove ctx name f).0 ≡ ok tt
    → (rel : Text) × (clean name ≡ ok rel)
      × (stat name (remove ctx name f).1 ≡ err not_exist)
      × ((k : Text)
          → lookup k (remove ctx name f).1.nodes
            ≡ (if text_eq rel k then none else lookup k f.nodes))
remove-stat ctx name f h =
    let (rel, e, same) = remove_ok ctx name f h in
    (
      rel,
      e,
      subst (λ g. stat name g ≡ err not_exist) (sym same)
          (stat_missing name rel (record f { nodes = delete rel f.nodes }) e
            (lookup-delete_self rel f.nodes)),
      λ k. ap (λ (g : MemFs). lookup k g.nodes) same ∙ lookup-delete rel k f.nodes,
    )
