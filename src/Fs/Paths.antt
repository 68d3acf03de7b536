-- ===== src/Fs/Paths.antt =====
-- Node/FS.py, `FS._lookup`: which directory entry a path names. An absolute path that is looked up is a
-- stack of names, the last one first. The system has no drives, its separator is the slash, and texts
-- hold no line breaks, at which the regular expression `needs_normpath_check` would end a match.
pub mod Names
pub mod Resolved
pub mod Shortcut
pub mod Split
use cross_chain.Prelude.{
  ℕ, Bool, true, false, ◌&&◌, ◌||◌, List, [], ◌∷◌, ◌++◌, reverse, if◌then◌else◌, ◌==◌,
}
use cross_chain.Util.Paths.{PathText, split, same_path}

abbrev pub Stack : Type 0
Stack = List PathText

abbrev pub is_empty_name : PathText → Bool
is_empty_name [] = true
is_empty_name (c ∷ s) = false

-- `d == '.'` and `d == '..'`
abbrev pub is_dot : PathText → Bool
is_dot d = same_path d (46 ∷ [])

abbrev pub is_dot_dot : PathText → Bool
is_dot_dot d = same_path d (46 ∷ 46 ∷ [])

abbrev pub strip_last : ℕ → PathText → PathText
strip_last c [] = if c == 47 then [] else c ∷ []
strip_last c (d ∷ s) = c ∷ d ∷ s

-- `p.rstrip('/')` and `p.strip('/')`
unfoldable pub rstrip : PathText → PathText
rstrip [] = []
rstrip (c ∷ s) = strip_last c (rstrip s)

unfoldable pub lstrip : PathText → PathText
lstrip [] = []
lstrip (c ∷ s) = if c == 47 then lstrip s else c ∷ s

unfoldable pub strip : PathText → PathText
unfolding lstrip rstrip
strip p = rstrip (lstrip p)

-- `needs_normpath_match`, on the names between the slashes: one that is empty between two slashes, a
-- '..', or a '.' that does not stand alone.
unfoldable pub rest_needs : List PathText → Bool
rest_needs [] = false
rest_needs (d ∷ []) = is_dot d || is_dot_dot d
rest_needs (d ∷ e ∷ ds) = is_empty_name d || is_dot d || is_dot_dot d || rest_needs (e ∷ ds)

abbrev pub names_need : List PathText → Bool
names_need [] = false
names_need (d ∷ []) = is_dot_dot d
names_need (d ∷ e ∷ ds) = is_dot_dot d || is_dot d || rest_needs (e ∷ ds)

unfoldable pub needs_normpath : PathText → Bool
unfolding rest_needs
needs_normpath p = names_need (split 47 p)

-- The loop over `ins`; `outs.pop()` of an empty list is passed over.
abbrev pub pop : Stack → Stack
pop [] = []
pop (n ∷ outs) = outs

abbrev pub normal_step : Stack → PathText → Stack
normal_step outs d =
    if is_dot_dot d then pop outs else if is_empty_name d || is_dot d then outs else d ∷ outs

unfoldable pub normalized : Stack → List PathText → Stack
normalized outs [] = outs
normalized outs (d ∷ ins) = normalized (normal_step outs d) ins

-- `p.split('/')[1:]`
abbrev pub behind_first : List PathText → List PathText
behind_first [] = []
behind_first (d ∷ ds) = ds

-- The attribute `labspath` of the directory that a stack names.
unfoldable pub labspath : Stack → PathText
labspath [] = []
labspath (n ∷ up) = labspath up ++ 47 ∷ n

-- The stack of a text that is looked up as it is; `''` and `'/'` are both keys of the root.
abbrev pub names_of : List PathText → Stack
names_of [] = []
names_of (d ∷ []) = if is_empty_name d then [] else d ∷ []
names_of (d ∷ e ∷ ds) = reverse (d ∷ e ∷ ds)

-- What `root._lookup_abs` is called with.
unfoldable pub looked_up : Bool → PathText → Stack
unfolding normalized
looked_up needs p =
    let names = behind_first (split 47 p) in if needs then normalized [] names else names_of names

-- `if p in ('', '.')`
abbrev pub joined_path : Stack → PathText → PathText
joined_path dir p = if is_empty_name p || is_dot p then labspath dir else labspath dir ++ 47 ∷ p

abbrev pub lookup_below : Stack → PathText → Stack
lookup_below dir p = looked_up (needs_normpath p) (joined_path dir p)

abbrev pub lookup_stripped : Stack → PathText → Stack
lookup_stripped dir [] = lookup_below dir []
lookup_stripped dir (c ∷ p) =
    if c == 47 then looked_up (needs_normpath (c ∷ p)) (c ∷ p) else lookup_below dir (c ∷ p)

-- `if p != '/': p = p.rstrip('/')`
abbrev pub stripped : PathText → PathText
stripped p = if same_path p (47 ∷ []) then p else rstrip p

-- `_lookup`, up to the call of `_lookup_abs`: `top` is the top-level directory, and `dir` the one that
-- the path is relative to.
unfoldable pub lookup_path : Stack → Stack → PathText → Stack
unfolding strip labspath needs_normpath looked_up
lookup_path top dir [] = lookup_stripped dir []
lookup_path top dir (c ∷ p) =
    if c == 35 then lookup_below top (strip p) else lookup_stripped dir (stripped (c ∷ p))
