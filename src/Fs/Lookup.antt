-- ===== src/Fs/Lookup.antt =====
-- Node/FS.py, `RootDir._lookup_abs`: the table of the nodes that paths name. A key is the stack of names
-- of its text, and a node is the number it was made with. Of a node only its class, name, directory,
-- entries and `implicit` are kept here.
pub mod Keys
pub mod Holds
pub mod One
pub mod Same
pub mod Succeeds
use cross_chain.Prelude.{
  ℕ, Bool, true, false, not, ◌&&◌, ◌||◌, Option, none, some, List, [], ◌∷◌, ◌+◌, if◌then◌else◌,
  ◌==◌,
}
use cross_chain.Util.Paths.{PathText, same_path}
use cross_chain.Fs.Paths.{Stack, lookup_path}

-- The classes `RootDir`, `Dir`, `File` and `Entry`.
pub data NodeClass : Type 0 where
  root_class : NodeClass
  dir_class : NodeClass
  file_class : NodeClass
  entry_class : NodeClass

pub record FsNode : Type 0 where
  pub klass : NodeClass
  pub name : PathText
  pub up : ℕ

-- `keys` is `_lookupDict`.
pub record NodeTable : Type 0 where
  pub node : ℕ → FsNode
  pub next : ℕ
  pub keys : Stack → Option ℕ
  pub entries : ℕ → PathText → Option ℕ
  pub implicit : ℕ → Option (List ℕ)

-- What stands at a path on disk: a file, a directory, neither.
pub data Standing : Type 0 where
  no_standing : Standing
  a_file : Standing
  a_directory : Standing

pub record Disk : Type 0 where
  pub checks : Bool
  pub standing : Stack → Standing

-- A node, or an exception: a UserError, a TypeError, or the ValueError of `rindex`.
pub data Looked : Type 0 where
  found : ℕ → Looked
  user_error : Looked
  type_error : Looked
  value_error : Looked

abbrev pub same_stack : Stack → Stack → Bool
same_stack [] [] = true
same_stack (n ∷ up) (m ∷ above) = same_path n m && same_stack up above
same_stack _ _ = false

-- `isinstance(self, klass)`
abbrev pub is_instance : NodeClass → NodeClass → Bool
is_instance root_class root_class = true
is_instance root_class dir_class = true
is_instance dir_class dir_class = true
is_instance file_class file_class = true
is_instance entry_class entry_class = true
is_instance _ _ = false

abbrev pub is_entry : NodeClass → Bool
is_entry entry_class = true
is_entry _ = false

-- `Dir._morph` on the entries.
abbrev pub dir_entries : ℕ → ℕ → PathText → Option ℕ
dir_entries n up s =
    if same_path s (46 ∷ []) then some n else if same_path s (46 ∷ 46 ∷ []) then some up else none

abbrev pub morphed_entries : NodeClass → ℕ → ℕ → (PathText → Option ℕ) → PathText → Option ℕ
morphed_entries dir_class n up old = dir_entries n up
morphed_entries _ n up old = old

abbrev pub morph_entries : NodeClass → ℕ → ℕ → (ℕ → PathText → Option ℕ) → ℕ → PathText → Option ℕ
morph_entries klass n up es m = if m == n then morphed_entries klass n up (es n) else es m

-- `self.__class__ = klass` and `self._morph()`
unfoldable pub morph : ℕ → NodeClass → NodeTable → NodeTable
morph n klass t = record t {
  node = λ m. if m == n then record (t.node n) { klass = klass } else t.node m;
  entries = morph_entries klass n ((t.node n).up) t.entries;
}

-- `Entry.must_be_same`, and the methods of `RootDir` and `Base`.
abbrev pub fits : NodeClass → NodeClass → Bool
fits klass wanted = is_instance klass wanted || is_entry wanted

abbrev pub same_class : NodeClass → ℕ → NodeClass → NodeTable → Looked × NodeTable
same_class entry_class n entry_class t = (found n, t)
same_class entry_class n wanted t = (found n, morph n wanted t)
same_class klass n wanted t = ((if fits klass wanted then found n else type_error), t)

unfoldable pub must_be_same : ℕ → NodeClass → NodeTable → Looked × NodeTable
unfolding morph
must_be_same n wanted t = same_class (t.node n).klass n wanted t

-- `diskcheck_match`, whether it raises no exception.
abbrev pub standing_fits : NodeClass → Standing → Bool
standing_fits dir_class a_file = false
standing_fits file_class a_directory = false
standing_fits _ _ = true

abbrev pub disk_fits : Disk → Stack → NodeClass → Bool
disk_fits disk key klass = not disk.checks || standing_fits klass (disk.standing key)

-- The constructor, and what the table and the directory hold behind it.
unfoldable pub add_node : PathText → Stack → NodeClass → ℕ → NodeTable → NodeTable
add_node name up klass d t = record {
  node = λ m. if m == t.next then record { klass = klass; name = name; up = d } else t.node m;
  next = t.next + 1;
  keys = λ k. if same_stack k (name ∷ up) then some t.next else t.keys k;
  entries = λ m s.
      if m == d && same_path s name
      then some t.next
      else morph_entries klass t.next d t.entries m s;
  implicit = λ m. if m == d || m == t.next then none else t.implicit m;
}

abbrev pub make_node : Disk → PathText → Stack → NodeClass → Looked × NodeTable → Looked × NodeTable
make_node disk name up klass (found d, t) =
    if disk_fits disk (name ∷ up) klass
    then (found t.next, add_node name up klass d t)
    else (type_error, t)
make_node disk name up klass (stopped, t) = (stopped, t)

abbrev pub known_or : Option ℕ → NodeClass → NodeTable → Looked × NodeTable → Looked × NodeTable
known_or (some n) klass t missing = must_be_same n klass t
known_or none klass t missing = missing

unfoldable pub lookup_abs : Disk → Stack → NodeClass → Bool → NodeTable → Looked × NodeTable
unfolding must_be_same add_node
lookup_abs disk [] klass create t =
    known_or (t.keys []) klass t (if create then (value_error, t) else (user_error, t))
lookup_abs disk (name ∷ up) klass create t =
    let parent = lookup_abs disk up dir_class true t in
    known_or (t.keys (name ∷ up)) klass t
      (if create then make_node disk name up klass parent else (user_error, t))

-- `_lookup` of a text.
unfoldable pub lookup_node :
    Disk → Stack → Stack → PathText → NodeClass → Bool → NodeTable → Looked × NodeTable
unfolding lookup_path lookup_abs
lookup_node disk top dir p klass create t = lookup_abs disk (lookup_path top dir p) klass create t
