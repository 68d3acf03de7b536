-- ===== src/Fs/Lookup/Succeeds.antt =====
-- Node/FS.py, `RootDir._lookup_abs`: when a node is found or made.
use cross_chain.Prelude.{
  ℕ, ◌≡◌, ◌↔◌, refl, sym, ap, ◌∙◌, not, Option-cases, Bool, true, false, ◌&&◌, ◌||◌, Option, none,
  some, List, [], ◌∷◌, if◌then◌else◌, Bool-cases, inl, inr,
}
use mathlib.Core.Bool.{false≢true}
use cross_chain.Util.Paths.{PathText}
use cross_chain.Fs.Paths.{Stack}
use cross_chain.Fs.Lookup.{
  NodeClass, root_class, dir_class, file_class, entry_class, NodeTable, Disk, Standing, no_standing,
  a_file, a_directory, standing_fits, Looked, found, user_error, type_error, value_error, is_entry,
  fits, same_class, must_be_same, disk_fits, make_node, known_or, lookup_abs,
}

abbrev pub is_found : Looked → Bool
is_found (found n) = true
is_found _ = false

-- A node takes its own class, an `Entry` takes each, an `Entry` that is wanted is each, and the root is a
-- directory.
pub data Fits : NodeClass → NodeClass → Type 0 where
  entry_takes : (wanted : NodeClass) → Fits entry_class wanted
  entry_wanted : (klass : NodeClass) → Fits klass entry_class
  itself : (klass : NodeClass) → Fits klass klass
  root_directory : Fits root_class dir_class

-- What is on disk in the way of a node.
pub data InWay : NodeClass → Standing → Type 0 where
  file_there : InWay dir_class a_file
  directory_there : InWay file_class a_directory

abbrev pub IsClear : Disk → Stack → NodeClass → Type 0
IsClear disk key klass = disk.checks ≡ true → ¬ InWay klass (disk.standing key)

-- The lowest node that there is on the way to the path can be what is needed, a directory if it is not the
-- path itself, and nothing on disk is in the way of the nodes below it, which are directories but the last.
pub data CanBe (disk : Disk) (t : NodeTable) : Stack → NodeClass → Type 0 where
  there :
      {key : Stack} {klass : NodeClass} (n : ℕ)
      → t.keys key ≡ some n
      → Fits (t.node n).klass klass
      → CanBe disk t key klass
  to_make :
      {name : PathText} {up : Stack} {klass : NodeClass}
      → t.keys (name ∷ up) ≡ none
      → CanBe disk t up dir_class
      → IsClear disk (name ∷ up) klass
      → CanBe disk t (name ∷ up) klass

-- Whether a node can take a class: an `Entry` takes each.
abbrev can_take : NodeClass → NodeClass → Bool
can_take klass wanted = is_entry klass || fits klass wanted

abbrev can_take_or : NodeTable → Option ℕ → NodeClass → Bool → Bool
can_take_or t (some n) klass missing = can_take (t.node n).klass klass
can_take_or t none klass missing = missing

-- The same as a test.
unfoldable can_be : Disk → NodeTable → Stack → NodeClass → Bool
can_be disk t [] klass = can_take_or t (t.keys []) klass false
can_be disk t (name ∷ up) klass =
    let above = can_be disk t up dir_class in
    can_take_or t (t.keys (name ∷ up)) klass (above && disk_fits disk (name ∷ up) klass)

is_found-if : (b : Bool) (n : ℕ) → is_found (if b then found n else type_error) ≡ b
is_found-if true n = refl
is_found-if false n = refl

is_found-same_class :
    (c wanted : NodeClass) (n : ℕ) (t : NodeTable)
    → is_found (same_class c n wanted t).0 ≡ can_take c wanted
is_found-same_class entry_class entry_class n t = refl
is_found-same_class entry_class root_class n t = refl
is_found-same_class entry_class dir_class n t = refl
is_found-same_class entry_class file_class n t = refl
is_found-same_class root_class wanted n t = is_found-if (fits root_class wanted) n
is_found-same_class dir_class wanted n t = is_found-if (fits dir_class wanted) n
is_found-same_class file_class wanted n t = is_found-if (fits file_class wanted) n

is_found-known_or :
    (o : Option ℕ) (klass : NodeClass) (t : NodeTable) (x : Looked × NodeTable)
    → is_found (known_or o klass t x).0 ≡ can_take_or t o klass (is_found x.0)
unfolding must_be_same
is_found-known_or (some n) klass t x = is_found-same_class (t.node n).klass klass n t
is_found-known_or none klass t x = refl

is_found-make_node :
    (disk : Disk) (name : List ℕ) (up : Stack) (klass : NodeClass) (r : Looked) (u : NodeTable)
    → is_found (make_node disk name up klass (r, u)).0
      ≡ is_found r && disk_fits disk (name ∷ up) klass
is_found-make_node disk name up klass (found d) u =
    elim (Bool-cases (disk_fits disk (name ∷ up) klass)) [ inl b ↦ rw b refl | inr b ↦ rw b refl ]
is_found-make_node disk name up klass user_error u = refl
is_found-make_node disk name up klass type_error u = refl
is_found-make_node disk name up klass value_error u = refl

lookup_abs-can_be :
    (disk : Disk) (key : Stack) (klass : NodeClass) (t : NodeTable)
    → is_found (lookup_abs disk key klass true t).0 ≡ can_be disk t key klass
unfolding lookup_abs can_be
lookup_abs-can_be disk [] klass t = is_found-known_or (t.keys []) klass t (value_error, t)
lookup_abs-can_be disk (name ∷ up) klass t =
    let parent = lookup_abs disk up dir_class true t in
    is_found-known_or (t.keys (name ∷ up)) klass t (make_node disk name up klass parent)
    ∙ ap (can_take_or t (t.keys (name ∷ up)) klass) (
        is_found-make_node disk name up klass parent.0 parent.1
        ∙ ap (λ b. b && disk_fits disk (name ∷ up) klass) (lookup_abs-can_be disk up dir_class t))

can_take-Fits : (c w : NodeClass) → can_take c w ≡ true → Fits c w
can_take-Fits entry_class w h = entry_takes w
can_take-Fits c entry_class h = entry_wanted c
can_take-Fits root_class root_class h = itself root_class
can_take-Fits root_class dir_class h = root_directory
can_take-Fits root_class file_class h = absurd (false≢true h)
can_take-Fits dir_class root_class h = absurd (false≢true h)
can_take-Fits dir_class dir_class h = itself dir_class
can_take-Fits dir_class file_class h = absurd (false≢true h)
can_take-Fits file_class root_class h = absurd (false≢true h)
can_take-Fits file_class dir_class h = absurd (false≢true h)
can_take-Fits file_class file_class h = itself file_class

Fits-can_take : {c w : NodeClass} → Fits c w → can_take c w ≡ true
Fits-can_take (entry_takes w) = refl
Fits-can_take (entry_wanted root_class) = refl
Fits-can_take (entry_wanted dir_class) = refl
Fits-can_take (entry_wanted file_class) = refl
Fits-can_take (entry_wanted entry_class) = refl
Fits-can_take (itself root_class) = refl
Fits-can_take (itself dir_class) = refl
Fits-can_take (itself file_class) = refl
Fits-can_take (itself entry_class) = refl
Fits-can_take root_directory = refl

InWay-misfit : {klass : NodeClass} {s : Standing} → InWay klass s → standing_fits klass s ≡ false
InWay-misfit file_there = refl
InWay-misfit directory_there = refl

InWay-standing_fits :
    (klass : NodeClass) (s : Standing) → ¬ InWay klass s → standing_fits klass s ≡ true
InWay-standing_fits dir_class a_file h = absurd (h file_there)
InWay-standing_fits dir_class no_standing h = refl
InWay-standing_fits dir_class a_directory h = refl
InWay-standing_fits file_class a_directory h = absurd (h directory_there)
InWay-standing_fits file_class no_standing h = refl
InWay-standing_fits file_class a_file h = refl
InWay-standing_fits root_class s h = refl
InWay-standing_fits entry_class s h = refl

disk_fits-IsClear :
    (disk : Disk) (key : Stack) (klass : NodeClass)
    → (disk_fits disk key klass ≡ true) ↔ IsClear disk key klass
disk_fits-IsClear disk key klass = elim (Bool-cases disk.checks) [
  | inl on ↦ (
    (λ h e i. false≢true (sym (InWay-misfit i) ∙ (rw (on, not) at h))),
    (λ h. rw on (InWay-standing_fits klass (disk.standing key) (h on))),
  )
  | inr off ↦ ((λ h e. absurd (false≢true (sym off ∙ e))), (λ h. rw off refl))
]

both_true : (a b : Bool) → (a && b) ≡ true → (a ≡ true) × (b ≡ true)
both_true true b h = (refl, h)
both_true false b h = absurd (false≢true h)

can_be-CanBe :
    (disk : Disk) (t : NodeTable) (key : Stack) (klass : NodeClass)
    → can_be disk t key klass ≡ true
    → CanBe disk t key klass
unfolding can_be
can_be-CanBe disk t [] klass h = elim (Option-cases (t.keys [])) [
  | inl e ↦ absurd (false≢true (rw e at h))
  | inr (n, e) ↦ there n e (can_take-Fits (t.node n).klass klass (rw e at h))
]
can_be-CanBe disk t (name ∷ up) klass h = elim (Option-cases (t.keys (name ∷ up))) [
  | inl e ↦
      let both : (can_be disk t up dir_class && disk_fits disk (name ∷ up) klass) ≡ true =
        rw e at h in
      let above = can_be-CanBe disk t up dir_class in
      to_make e
        (above (both_true (can_be disk t up dir_class) (disk_fits disk (name ∷ up) klass) both).0)
        ((disk_fits-IsClear disk (name ∷ up) klass).0
          (both_true (can_be disk t up dir_class) (disk_fits disk (name ∷ up) klass) both).1)
  | inr (n, e) ↦ there n e (can_take-Fits (t.node n).klass klass (rw e at h))
]

CanBe-can_be :
    (disk : Disk) (t : NodeTable) (key : Stack) (klass : NodeClass)
    → CanBe disk t key klass
    → can_be disk t key klass ≡ true
unfolding can_be
CanBe-can_be disk t [] klass (there n e f) = rw e (Fits-can_take f)
CanBe-can_be disk t (name ∷ up) klass (there n e f) = rw e (Fits-can_take f)
CanBe-can_be disk t (name ∷ up) klass (to_make e c clear) =
    rw (e, CanBe-can_be disk t up dir_class c, (disk_fits-IsClear disk (name ∷ up) klass).1 clear)
      refl

-- With create, `_lookup_abs` finds or makes a node exactly if the lowest node that there is on the way
-- to the path can be what is needed, a directory if it is not the path itself, and nothing on disk is
-- in the way of the nodes that are made: a file of a directory, or a directory of a file, where the
-- disk is checked.
pub lookup_abs-is_found :
    (disk : Disk) (key : Stack) (klass : NodeClass) (t : NodeTable)
    → (is_found (lookup_abs disk key klass true t).0 ≡ true) ↔ CanBe disk t key klass
lookup_abs-is_found disk key klass t =
    let e = lookup_abs-can_be disk key klass t in
    ((λ h. can_be-CanBe disk t key klass (sym e ∙ h)), (λ c. e ∙ CanBe-can_be disk t key klass c))
