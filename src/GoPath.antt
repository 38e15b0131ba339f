-- ===== src/GoPath.antt =====
-- The functions of the standard packages `path` and `io/fs` that the source calls, over slash-style
-- names: `path.Clean`, `Join`, `Dir`, `Base`, `IsAbs` and `fs.ValidPath`.
pub mod Laws
pub mod Below
use fluxplane_system.Prelude.{
  ℕ, Bool, true, false, not, ◌&&◌, ◌||◌, List, [], ◌∷◌, ◌++◌, reverse, if◌then◌else◌, all,
}
use fluxplane_system.GoText.{Text, codes, slash, text_eq, is_empty, has_prefix, split_on, join_with}

abbrev pub dot : Text
dot = codes "."

abbrev pub dot_dot : Text
dot_dot = codes ".."

unfoldable pub is_valid_element : Text → Bool
unfolding text_eq is_empty
is_valid_element part = not (is_empty part) && not (text_eq part dot) && not (text_eq part dot_dot)

-- `fs.ValidPath`
unfoldable pub is_valid_path : Text → Bool
unfolding is_valid_element split_on
is_valid_path name = text_eq name dot || all is_valid_element (split_on slash name)

-- `path.IsAbs`
unfoldable pub is_abs : Text → Bool
unfolding has_prefix
is_abs name = has_prefix (slash ∷ []) name

unfoldable pub pop : Bool → List Text → List Text
unfolding text_eq
pop rooted [] = if rooted then [] else dot_dot ∷ []
pop rooted (top ∷ stack) = if text_eq top dot_dot then dot_dot ∷ top ∷ stack else stack

-- One path element; the stack of elements kept has the last of them at its head.
unfoldable pub push_element : Bool → List Text → Text → List Text
unfolding pop is_empty
push_element rooted stack part =
    if is_empty part || text_eq part dot
    then stack
    else if text_eq part dot_dot
    then pop rooted stack
    else part ∷ stack

unfoldable pub clean_elements : Bool → List Text → List Text → List Text
unfolding push_element
clean_elements rooted stack [] = reverse stack
clean_elements rooted stack (part ∷ parts) =
    clean_elements rooted (push_element rooted stack part) parts

-- `path.Clean`
unfoldable pub path_clean : Text → Text
unfolding clean_elements split_on join_with is_abs
path_clean name =
    let out = join_with slash (clean_elements (is_abs name) [] (split_on slash name)) in
    if is_abs name then slash ∷ out else if is_empty out then dot else out

-- `path.Join` of two elements; empty elements are left out.
unfoldable pub path_join : Text → Text → Text
unfolding path_clean
path_join a b =
    if is_empty a
    then (if is_empty b then [] else path_clean b)
    else if is_empty b
    then path_clean a
    else path_clean (a ++ (slash ∷ b))

-- All but the last of a list of path elements.
unfoldable pub without_last : List Text → List Text
without_last [] = []
without_last (_ ∷ []) = []
without_last (p ∷ q ∷ ps) = p ∷ without_last (q ∷ ps)

unfoldable pub last_of : List Text → Text
last_of [] = []
last_of (p ∷ []) = p
last_of (_ ∷ q ∷ ps) = last_of (q ∷ ps)

-- What stands before the last slash, with that slash.
unfoldable pub dir_part : Text → Text
unfolding without_last split_on join_with
dir_part name =
    let parents = without_last (split_on slash name) in
    elim parents [ [] ↦ [] | p ∷ ps ↦ join_with slash (p ∷ ps) ++ (slash ∷ []) ]

-- `path.Dir`
unfoldable pub path_dir : Text → Text
unfolding dir_part path_clean
path_dir name = path_clean (dir_part name)

-- The last path element that is not empty.
unfoldable pub last_element : List Text → Text
unfolding is_empty
last_element [] = []
last_element (p ∷ ps) = let later = last_element ps in if is_empty later then p else later

-- `path.Base`
unfoldable pub path_base : Text → Text
unfolding last_element split_on
path_base name =
    let base = last_element (split_on slash name) in
    if is_empty name then dot else if is_empty base then slash ∷ [] else base
