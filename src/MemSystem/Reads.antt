-- ===== src/MemSystem/Reads.antt =====
-- memsystem/filesystem.go: the methods that read. They return copies, so later writes do not show
-- in what was returned: the model's values do not change.
use Prim.Native.Nat.{bit_and}
use fluxplane_system.Prelude.{not, ◌||◌, List, [], ◌∷◌, ◌++◌, none, some, if◌then◌else◌, length}
use fluxplane_system.GoText.{Text, slash, text_eq, is_empty, has_prefix, trim_prefix, cut}
use fluxplane_system.GoPath.{path_base}
use fluxplane_system.GoMap.{GoMap, lookup, insert}
use fluxplane_system.System.{
  not_exist, not_a_directory, is_a_directory, Result, ok, err, Bytes, mode_type, FileInfo, DirEntry,
  File,
}
use fluxplane_system.MemSystem.Nodes.{Node, MemFs, clean, base_name}

abbrev pub file_info : Text → Node → FileInfo
file_info name n = record {
  name = name;
  size = length n.content;
  mode = n.mode;
  mod_time = n.mod_time;
  is_dir = n.dir;
}

abbrev pub dir_entry : Text → Node → DirEntry
dir_entry name n = record {
  name = name;
  is_dir = n.dir;
  kind = bit_and n.mode mode_type;
  info = file_info name n;
}

-- The node at a name, with its cleaned path.
unfoldable pub find_node : Text → MemFs → Result (Text × Node)
unfolding clean lookup
find_node name f = elim (clean name) [
  | err e ↦ err e
  | ok rel ↦ elim (lookup rel f.nodes) [ none ↦ err not_exist | some n ↦ ok (rel, n) ]
]

-- A directory's reads end at once.
unfoldable pub open_file : Text → MemFs → Result File
unfolding find_node path_base
open_file name f = elim (find_node name f) [
  | err e ↦ err e
  | ok (rel, n) ↦ ok (record {
    stat = file_info (path_base rel) n;
    content = if n.dir then [] else n.content;
    failure = none;
    listing = none;
  })
]

unfoldable pub stat : Text → MemFs → Result FileInfo
unfolding find_node base_name
stat name f = elim (find_node name f) [
  | err e ↦ err e
  | ok (rel, n) ↦ ok (file_info (base_name rel) n)
]

unfoldable pub read_file : Text → MemFs → Result Bytes
unfolding find_node
read_file name f = elim (find_node name f) [
  | err e ↦ err e
  | ok (rel, n) ↦ if n.dir then err is_a_directory else ok n.content
]

abbrev pub dir_prefix : Text → Text
dir_prefix rel = if is_empty rel then rel else rel ++ (slash ∷ [])

-- The node at the child's path, or the node below it by which the child was found.
unfoldable pub child_node : Text → Node → MemFs → Node
unfolding lookup
child_node path child f = elim (lookup path f.nodes) [ none ↦ child | some n ↦ n ]

-- The loop over the nodes, with the entries seen so far.
unfoldable pub collect_children : Text → MemFs → GoMap Node → GoMap DirEntry → GoMap DirEntry
unfolding text_eq has_prefix trim_prefix cut child_node insert
collect_children rel f [] seen = seen
collect_children rel f ((candidate, child) ∷ rest) seen =
    let first = (cut slash (trim_prefix (dir_prefix rel) candidate)).before in
    collect_children rel f rest (
      if text_eq candidate rel || not (has_prefix (dir_prefix rel) candidate)
      then seen
      else insert first (dir_entry first (child_node (dir_prefix rel ++ first) child f)) seen)

abbrev pub values : {V : Type 0} → GoMap V → List V
values [] = []
values ((k, v) ∷ m) = v ∷ values m

unfoldable pub read_dir : Text → MemFs → Result (List DirEntry)
unfolding find_node collect_children
read_dir name f = elim (find_node name f) [
  | err e ↦ err e
  | ok (rel, n) ↦
      if n.dir then ok (values (collect_children rel f f.nodes [])) else err not_a_directory
]
