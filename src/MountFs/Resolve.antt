-- ===== src/MountFs/Resolve.antt =====
-- mountfs/mountfs.go: how a visible name maps to a root and to a path of the base file system.
use fluxplane_system.Prelude.{false, ◌||◌, [], none, some, if◌then◌else◌}
use fluxplane_system.GoText.{Text, codes, slash, text_eq, is_empty, has_prefix, trim_prefix, cut}
use fluxplane_system.GoPath.{dot}
use fluxplane_system.GoMap.{lookup}
use fluxplane_system.System.{
  Result, ok, err, ◌>>=◌, primary_not_configured, missing_root_name, no_such_root,
}
use fluxplane_system.MountFs.Roots.{
  unset, RootInfo, Resolved, Mount, clean_input, is_virtual_root, clean_relative,
  clean_visible_name, join,
}

unfoldable pub resolved_at : RootInfo × Text → Resolved
unfolding clean_visible_name join
resolved_at (root, rel) = record {
  root = root;
  name = clean_visible_name root.name rel;
  path = join root.path rel;
}

abbrev pub no_root : RootInfo
no_root = record { name = []; path = []; access = unset; scratch = false }

module _ {S : Type 0} where
  unfoldable pub primary : Mount S → Result RootInfo
  unfolding lookup
  primary m = elim (lookup [] m.roots) [ none ↦ err primary_not_configured | some root ↦ ok root ]

  unfoldable pub named_root : Text → Mount S → Result RootInfo
  unfolding lookup is_empty
  named_root name m =
      if is_empty name
      then err missing_root_name
      else elim (lookup name m.roots) [ none ↦ err no_such_root | some root ↦ ok root ]

  -- The method `resolve`: the root and the name below it.
  unfoldable pub resolve_name : Text → Mount S → Result (RootInfo × Text)
  resolve_name raw m =
      let name = clean_input raw in
      let parts = cut slash name in
      if is_empty name || text_eq name dot
      then (do root ← primary m; ok (root, []))
      else if has_prefix (codes "@") name
      then (do
        root ← named_root (trim_prefix (codes "@") parts.before) m
        if parts.found
            then (do rel ← clean_relative parts.after; ok (root, rel))
            else ok (root, []))
      else (do root ← primary m; rel ← clean_relative name; ok (root, rel))

  -- The method `Resolve`.
  unfoldable pub resolve : Text → Mount S → Result Resolved
  resolve name m =
      if is_virtual_root name
      then ok (record { root = no_root; name = dot; path = dot })
      else (do found ← resolve_name name m; ok (resolved_at found))
