-- ===== src/Fs/Lookup/One.antt =====
-- Node/FS.py, `RootDir._lookup_abs`: one node for each path.
use cross_chain.Prelude.{
  ℕ, ◌≡◌, refl, ap, ◌∙◌, Bool, true, false, Option, none, some, [], ◌∷◌, ◌<◌, arith, if◌then◌else◌,
  Bool-cases, inl, inr, length,
}
use cross_chain.Util.Paths.{PathText}
use cross_chain.Fs.Paths.{Stack}
use cross_chain.Fs.Lookup.{
  NodeClass, root_class, dir_class, file_class, entry_class, NodeTable, Disk, Looked, found,
  user_error, type_error, value_error, same_stack, fits, same_class, must_be_same, disk_fits,
  make_node, known_or, lookup_abs, morph, add_node,
}
use cross_chain.Fs.Lookup.Keys.{same_stack_sound, same_stack_refl, add_node-keys_kept}
use cross_chain.Fs.Lookup.Holds.{is_directory, IsTable, self_equal, morph-IsTable, add_node-IsTable}

-- Every key keeps its node.
abbrev pub IsKept : NodeTable → NodeTable → Type 0
IsKept t u = (key : Stack) (n : ℕ) → t.keys key ≡ some n → u.keys key ≡ some n

-- A node that is found has the key that was looked up, and a class that was asked for.
abbrev pub IsFound : Stack → NodeClass → Looked → NodeTable → Type 0
IsFound key klass (found n) u = (u.keys key ≡ some n) × (fits (u.node n).klass klass ≡ true)
IsFound key klass other u = Unit

-- No longer key is added.
abbrev IsBounded : ℕ → NodeTable → NodeTable → Type 0
IsBounded l t u = (key : Stack) → l < length key → u.keys key ≡ t.keys key

abbrev IsOutcome : NodeTable → Stack → NodeClass → Looked × NodeTable → Type 0
IsOutcome t key klass x =
    IsTable x.1 × IsKept t x.1 × IsBounded (length key) t x.1 × IsFound key klass x.0 x.1

module _ (t : NodeTable) (key : Stack) (h : IsTable t) where
  fits_or :
      (c wanted : NodeClass) (n : ℕ)
      → (t.node n).klass ≡ c
      → t.keys key ≡ some n
      → IsFound key wanted (if fits c wanted then found n else type_error) t
  fits_or c wanted n e k = elim (Bool-cases (fits c wanted)) [
    | inl b ↦ rw b (k, rw e b)
    | inr b ↦ rw b tt
  ]

  unchanged :
      (klass : NodeClass) (r : Looked) → IsFound key klass r t → IsOutcome t key klass (r, t)
  unchanged klass r f = (h, (λ k n e. e), (λ k l. refl), f)

  module _ (n : ℕ) (k : t.keys key ≡ some n) where
    morph-outcome :
        (wanted : NodeClass)
        → (t.node n).klass ≡ entry_class
        → fits wanted wanted ≡ true
        → IsOutcome t key wanted (found n, morph n wanted t)
    unfolding morph
    morph-outcome wanted e f = (
      morph-IsTable n wanted t (rw e refl) h,
      (λ j m g. g),
      (λ j l. refl),
      (k, rw (self_equal n) f),
    )

    same_class-outcome :
        (c wanted : NodeClass)
        → (t.node n).klass ≡ c
        → IsOutcome t key wanted (same_class c n wanted t)
    same_class-outcome entry_class entry_class e = unchanged entry_class (found n) (k, rw e refl)
    same_class-outcome entry_class root_class e = morph-outcome root_class e refl
    same_class-outcome entry_class dir_class e = morph-outcome dir_class e refl
    same_class-outcome entry_class file_class e = morph-outcome file_class e refl
    same_class-outcome root_class wanted e =
        unchanged wanted (if fits root_class wanted then found n else type_error)
          (fits_or root_class wanted n e k)
    same_class-outcome dir_class wanted e =
        unchanged wanted (if fits dir_class wanted then found n else type_error)
          (fits_or dir_class wanted n e k)
    same_class-outcome file_class wanted e =
        unchanged wanted (if fits file_class wanted then found n else type_error)
          (fits_or file_class wanted n e k)

    must_be_same-outcome : (wanted : NodeClass) → IsOutcome t key wanted (must_be_same n wanted t)
    unfolding must_be_same
    must_be_same-outcome wanted = same_class-outcome (t.node n).klass wanted refl

fits_directory : (c : NodeClass) → fits c dir_class ≡ true → is_directory c ≡ true
fits_directory root_class h = refl
fits_directory dir_class h = refl
fits_directory file_class h = cc
fits_directory entry_class h = cc

fits_self : (c : NodeClass) → fits c c ≡ true
fits_self root_class = refl
fits_self dir_class = refl
fits_self file_class = refl
fits_self entry_class = refl

module _ (disk : Disk) (name : PathText) (up : Stack) (klass : NodeClass) (t : NodeTable) where
  longer :
      (d : ℕ) (u : NodeTable) (j : Stack)
      → length (name ∷ up) < length j
      → (add_node name up klass d u).keys j ≡ u.keys j
  unfolding add_node
  longer d u j l = elim (Bool-cases (same_stack j (name ∷ up))) [
    | inl b ↦ let e = ap length (same_stack_sound j (name ∷ up) b) in absurd (omega arith)
    | inr b ↦ rw b refl
  ]

  new_found :
      (d : ℕ) (u : NodeTable)
      → IsFound (name ∷ up) klass (found u.next) (add_node name up klass d u)
  unfolding add_node
  new_found d u = (rw (same_stack_refl (name ∷ up)) refl, rw (self_equal u.next) (fits_self klass))

  make_node-outcome :
      (r : Looked) (u : NodeTable)
      → t.keys (name ∷ up) ≡ none
      → IsOutcome t up dir_class (r, u)
      → IsOutcome t (name ∷ up) klass (make_node disk name up klass (r, u))
  make_node-outcome (found d) u fresh (h, kept, bounded, (k, f)) =
      let fresh_there = bounded (name ∷ up) (omega arith) ∙ fresh in
      elim (Bool-cases (disk_fits disk (name ∷ up) klass)) [
        | inl b ↦ rw b (
          add_node-IsTable name up klass d u h fresh_there k (fits_directory (u.node d).klass f),
          (λ j n e. add_node-keys_kept name up klass d u j n fresh_there (kept j n e)),
          (λ j l. longer d u j l ∙ bounded j (omega arith)),
          new_found d u,
        )
        | inr b ↦ rw b (h, kept, (λ j l. bounded j (omega arith)), tt)
      ]
  make_node-outcome user_error u fresh (h, kept, bounded, f) =
      (h, kept, (λ k l. bounded k (omega arith)), tt)
  make_node-outcome type_error u fresh (h, kept, bounded, f) =
      (h, kept, (λ k l. bounded k (omega arith)), tt)
  make_node-outcome value_error u fresh (h, kept, bounded, f) =
      (h, kept, (λ k l. bounded k (omega arith)), tt)

lookup_abs-outcome :
    (disk : Disk) (key : Stack) (klass : NodeClass) (create : Bool) (t : NodeTable)
    → IsTable t
    → IsOutcome t key klass (lookup_abs disk key klass create t)
unfolding lookup_abs
lookup_abs-outcome disk [] klass create t h = rw (h.0) (must_be_same-outcome t [] h 0 h.0 klass)
lookup_abs-outcome disk (name ∷ up) klass create t h =
    step (t.keys (name ∷ up)) refl create (lookup_abs-outcome disk up dir_class true t h)
  where
    parent : Looked × NodeTable
    parent = lookup_abs disk up dir_class true t

    step :
        (o : Option ℕ)
        → t.keys (name ∷ up) ≡ o
        → (create : Bool) → IsOutcome t up dir_class parent
        → IsOutcome t (name ∷ up) klass (
            known_or o klass t
              (if create then make_node disk name up klass parent else (user_error, t)))
    step (some n) e create above = must_be_same-outcome t (name ∷ up) h n e klass
    step none e false above = unchanged t (name ∷ up) h klass user_error tt
    step none e true above = make_node-outcome disk name up klass t parent.0 parent.1 e above

-- `_lookup_abs` keeps a right table right and every key its node, and a node that it finds has the key
-- that was looked up and fits the class that was asked for.
pub lookup_abs-IsTable :
    (disk : Disk) (key : Stack) (klass : NodeClass) (create : Bool) (t : NodeTable)
    → IsTable t
    → IsTable (lookup_abs disk key klass create t).1
      × IsKept t (lookup_abs disk key klass create t).1
      × IsFound key klass
          (lookup_abs disk key klass create t).0
          (lookup_abs disk key klass create t).1
lookup_abs-IsTable disk key klass create t h =
    let (table, kept, bounded, f) = lookup_abs-outcome disk key klass create t h in (table, kept, f)
