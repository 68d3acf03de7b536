-- ===== src/Build/Deps.antt =====
-- Node/__init__.py: the lists of dependencies of a node, each with the set by which repetitions are
-- found, and the cached list of its children. `_memo` holds other values too; here it is the entry
-- `children_get`. The scan that fills `implicit` is left to the subclasses,
-- and so is what the executor drops from its own cache at `_children_reset`.
pub mod Cache
use cross_chain.Prelude.{
  ℕ, Bool, true, false, Option, none, some, List, [], ◌∷◌, ◌++◌, ◌||◌, if◌then◌else◌, elem,
}
use cross_chain.Util.UniqueList.{UniqueList, new_list, extended}

-- A list and its set.
pub record Collection : Type 0 where
  pub items : List ℕ
  pub members : List ℕ

pub record Deps : Type 0 where
  pub sources : Collection
  pub depends : Collection
  pub ignore : Collection
  pub prerequisites : Option (UniqueList ℕ)
  pub implicit : Option Collection
  pub specific_sources : Bool
  pub wkids : Option (List ℕ)
  pub memo : Option (List ℕ)

abbrev pub empty : Collection
empty = record { items = []; members = [] }

-- `Node()`
abbrev pub new_deps : Deps
new_deps = record {
  sources = empty;
  depends = empty;
  ignore = empty;
  prerequisites = none;
  implicit = none;
  specific_sources = false;
  wkids = none;
  memo = none;
}

-- `_add_child`, and whether anything was added.
unfoldable pub add_child : List ℕ → Collection → Bool × Collection
add_child [] c = (false, c)
add_child (n ∷ ns) c =
    let grown : Collection = record { items = c.items ++ n ∷ []; members = n ∷ c.members } in
    let (added, c') = add_child ns (if elem n c.members then c else grown) in
    (if elem n c.members then added else true, c')

unfoldable pub children_reset : Deps → Deps
children_reset d = record d { memo = none }

abbrev pub reset_if : Bool → Deps → Deps
reset_if added d = let reset = children_reset d in if added then reset else d

unfoldable pub add_dependency : List ℕ → Deps → Deps
unfolding children_reset
add_dependency ns d =
    let (added, c) = add_child ns d.depends in reset_if added (record d { depends = c })

unfoldable pub add_ignore : List ℕ → Deps → Deps
unfolding children_reset
add_ignore ns d = let (added, c) = add_child ns d.ignore in reset_if added (record d { ignore = c })

unfoldable pub add_source : List ℕ → Deps → Deps
unfolding children_reset
add_source ns d =
    let (added, c) = add_child ns d.sources in
    if d.specific_sources then d else reset_if added (record d { sources = c })

unfoldable pub set_specific_source : List ℕ → Deps → Deps
unfolding add_source
set_specific_source ns d = record (add_source ns d) { specific_sources = true }

abbrev pub found_prerequisites : Option (UniqueList ℕ) → UniqueList ℕ
found_prerequisites none = new_list []
found_prerequisites (some l) = l

unfoldable pub add_prerequisite : List ℕ → Deps → Deps
unfolding children_reset
add_prerequisite ns d =
    children_reset
      (record d { prerequisites = some (extended ns (found_prerequisites d.prerequisites)) })

-- Without a list of kids nothing is kept.
abbrev pub append_wkid : Option (List ℕ) → ℕ → Option (List ℕ)
append_wkid none n = none
append_wkid (some ws) n = some (ws ++ n ∷ [])

unfoldable pub add_wkid : ℕ → Deps → Deps
add_wkid n d = record d { wkids = append_wkid d.wkids n }

abbrev pub found_implicit : Option Collection → Collection
found_implicit none = empty
found_implicit (some c) = c

abbrev pub no_implicit : Option Collection → Bool
no_implicit none = true
no_implicit (some c) = false

unfoldable pub add_to_implicit : List ℕ → Deps → Deps
unfolding children_reset
add_to_implicit ns d =
    let (added, c) = add_child ns (found_implicit d.implicit) in
    reset_if (no_implicit d.implicit || added) (record d { implicit = some c })

abbrev pub implicit_of : Option Collection → List ℕ
implicit_of none = []
implicit_of (some c) = c.items

-- `all_children(scan=0)`
unfoldable pub all_children : Deps → List ℕ
all_children d = d.sources.items ++ d.depends.items ++ implicit_of d.implicit

unfoldable pub not_ignored : List ℕ → List ℕ → List ℕ
not_ignored set [] = []
not_ignored set (n ∷ ns) = let rest = not_ignored set ns in if elem n set then rest else n ∷ rest

unfoldable pub compute_children : Deps → List ℕ → List ℕ
unfolding all_children not_ignored
compute_children d [] = all_children d
compute_children d (x ∷ set) = not_ignored (x ∷ set) (all_children d)

-- `_children_get`, which keeps the list that it computes.
unfoldable pub children_get : Deps → List ℕ × Deps
unfolding compute_children
children_get d = elim d.memo [
  | some children ↦ (children, d)
  | none ↦
      let children = compute_children d d.ignore.members in
      (children, record d { memo = some children })
]

-- The calls that change the dependencies of a node, or ask for its children.
pub data Call : Type 0 where
  dependency ignore source specific_source prerequisite to_implicit : List ℕ → Call
  wkid : ℕ → Call
  get : Call

unfoldable pub call : Call → Deps → Deps
unfolding add_dependency add_ignore add_source set_specific_source add_prerequisite add_to_implicit
    add_wkid children_get
call (dependency ns) d = add_dependency ns d
call (ignore ns) d = add_ignore ns d
call (source ns) d = add_source ns d
call (specific_source ns) d = set_specific_source ns d
call (prerequisite ns) d = add_prerequisite ns d
call (to_implicit ns) d = add_to_implicit ns d
call (wkid n) d = add_wkid n d
call get d = (children_get d).1

unfoldable pub calls : List Call → Deps → Deps
unfolding call
calls [] d = d
calls (c ∷ cs) d = calls cs (call c d)
