-- ===== src/MemSystem/Nodes.antt =====
-- memsystem/filesystem.go: the nodes of the in-memory file system, its names and its clock, and the
-- creation of parent directories. The map of nodes is a `GoMap` with the cleaned path as key, and
-- "" for the root. Every method holds the mutex from its start to its return, so one method is one
-- step. Times are milliseconds since the Unix epoch.
use Prim.Native.Nat.{bit_or}
use fluxplane_system.Prelude.{
  ℕ, ◌+◌, ◌==◌, Bool, true, false, not, ◌||◌, List, [], ◌∷◌, ◌++◌, none, some, if◌then◌else◌,
}
use fluxplane_system.GoText.{
  Text, slash, backslash, text_eq, is_empty, replace_all, trim_space, split_on, join_with,
}
use fluxplane_system.GoPath.{dot, is_valid_path, path_clean, path_dir, path_base, path_join}
use fluxplane_system.GoMap.{GoMap, lookup, insert}
use fluxplane_system.System.{
  invalid_name, parent_not_directory, Result, ok, err, Context, Bytes, mode_dir, Outcome,
}

pub record Node : Type 0 where
  pub dir : Bool
  pub content : Bytes
  pub mode : ℕ
  pub mod_time : ℕ

pub record MemFs : Type 0 where
  pub nodes : GoMap Node
  pub now : ℕ

abbrev pub start_time : ℕ
start_time = 1700000000000

abbrev pub new_file_system : MemFs
new_file_system = record {
  nodes =
      ([], record { dir = true; content = []; mode = bit_or 0o755 mode_dir; mod_time = start_time })
      ∷ [];
  now = start_time;
}

unfoldable pub clean : Text → Result Text
unfolding text_eq is_empty replace_all trim_space is_valid_path path_clean
clean raw =
    let name = trim_space (replace_all backslash slash raw) in
    if is_empty name || text_eq name dot
    then ok []
    else if is_valid_path name
    then ok (path_clean name)
    else err invalid_name

-- `strings.Join(parts[:i+1], "/")` for each `i`; `seen` is `parts[:i]`.
unfoldable pub prefix_joins : List Text → List Text → List Text
unfolding join_with
prefix_joins seen [] = []
prefix_joins seen (p ∷ ps) = join_with slash (seen ++ (p ∷ [])) ∷ prefix_joins (seen ++ (p ∷ [])) ps

unfoldable pub prefixes : Text → List Text
unfolding prefix_joins text_eq is_empty split_on
prefixes rel = if is_empty rel || text_eq rel dot then [] else prefix_joins [] (split_on slash rel)

unfoldable pub base_name : Text → Text
unfolding is_empty path_base
base_name rel = if is_empty rel then dot else path_base rel

unfoldable pub join : Text → Text → Text
unfolding is_empty path_join
join dir name = if is_empty dir then name else path_join dir name

-- The clock ticks, and the node is stored with the new time.
unfoldable pub put_node : Text → (ℕ → Node) → MemFs → MemFs
unfolding insert
put_node rel node f =
    let now = f.now + 1 in record { nodes = insert rel (node now) f.nodes; now = now }

abbrev pub dir_node : ℕ → ℕ → Node
dir_node mode time = record {
  dir = true;
  content = [];
  mode = bit_or mode mode_dir;
  mod_time = time;
}

abbrev pub file_node : Bytes → ℕ → ℕ → Node
file_node content mode time = record {
  dir = false;
  content = content;
  mode = mode;
  mod_time = time;
}

abbrev pub or_default : ℕ → ℕ → ℕ
or_default perm fallback = if perm == 0 then fallback else perm

-- `existing, ok := f.nodes[p]; ok && !existing.dir`
unfoldable pub is_file_at : Text → MemFs → Bool
unfolding lookup
is_file_at p f = elim (lookup p f.nodes) [ none ↦ false | some n ↦ not n.dir ]

unfoldable pub ensure_each : List Text → MemFs → Outcome MemFs (Unit {0})
unfolding is_file_at put_node
ensure_each [] f = (ok tt, f)
ensure_each (p ∷ ps) f =
    let rest = ensure_each ps (put_node p (dir_node 0o755) f) in
    if is_file_at p f then (err parent_not_directory, f) else rest

unfoldable pub ensure_parents : Text → MemFs → Outcome MemFs (Unit {0})
unfolding ensure_each path_dir prefixes
ensure_parents rel f =
    let dir = path_dir rel in if text_eq dir dot then (ok tt, f) else ensure_each (prefixes dir) f

-- What every method that changes the state does first: the context, then the name.
abbrev pub with_name :
    {A : Type 0} → Context → Text → (Text → MemFs → Outcome MemFs A) → MemFs → Outcome MemFs A
with_name ctx name k f = elim ctx [
  | some e ↦ (err e, f)
  | none ↦ elim (clean name) [ err e ↦ (err e, f) | ok rel ↦ k rel f ]
]
