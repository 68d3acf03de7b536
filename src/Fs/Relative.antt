-- ===== src/Fs/Relative.antt =====
-- Node/FS.py, `Dir.rel_path`: the path from a directory to an entry. What the method has
-- computed before it keeps; here it is computed each time.
pub mod Leads
pub mod Looks
use cross_chain.Prelude.{
  ℕ, Bool, true, false, ◌||◌, List, [], ◌∷◌, ◌++◌, ◌+◌, ◌-◌, zero, suc, length, map, drop,
  if◌then◌else◌,
}
use cross_chain.Util.Paths.{PathText, join}
use cross_chain.Fs.Paths.{Stack, is_dot}
use cross_chain.Fs.Lookup.{same_stack}

-- `self.path_elements`, from the root to the entry. Two nodes are the same when their stacks are.
abbrev pub path_elements : Stack → List Stack
path_elements [] = [] ∷ []
path_elements (name ∷ up) = path_elements up ++ (name ∷ up) ∷ []

-- `other in self.path_elements`
abbrev pub is_element : Stack → List Stack → Bool
is_element other [] = false
is_element other (s ∷ elements) = same_stack other s || is_element other elements

-- `self.path_elements.index(other)`, where it is one.
abbrev pub index : Stack → List Stack → ℕ
index other [] = 0
index other (s ∷ elements) =
    let rest = index other elements in if same_stack other s then 0 else suc rest

-- `n.name` of an entry below the root; the root's own is '/'.
abbrev pub name_of : Stack → PathText
name_of [] = 47 ∷ []
name_of (name ∷ up) = name

-- `['..'] * n`
abbrev pub dot_dots : ℕ → List PathText
dot_dots zero = []
dot_dots (suc n) = (46 ∷ 46 ∷ []) ∷ dot_dots n

unfoldable pub path_up : Stack → Stack → PathText
unfolding join
path_up dir other =
    let i = index other (path_elements dir) + 1 in
    join 47
      (dot_dots (length (path_elements dir) - i) ++ map name_of (drop i (path_elements other)))

abbrev pub path_down : PathText → PathText → PathText
path_down dir_rel_path name = if is_dot dir_rel_path then name else dir_rel_path ++ 47 ∷ name

-- The root is an element of each path, so that its own directory is not asked for.
unfoldable pub rel_path : Stack → Stack → PathText
unfolding path_up
rel_path dir [] = if same_stack dir [] then 46 ∷ [] else path_up dir []
rel_path dir (name ∷ up) =
    let dir_rel_path = rel_path dir up in
    if same_stack dir (name ∷ up)
    then 46 ∷ []
    else if is_element (name ∷ up) (path_elements dir)
    then path_up dir (name ∷ up)
    else path_down dir_rel_path name
