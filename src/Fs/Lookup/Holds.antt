-- ===== src/Fs/Lookup/Holds.antt =====
-- Node/FS.py, `RootDir._lookup_abs`: what holds of the table of nodes.
use cross_chain.Prelude.{
  ℕ, ◌≡◌, refl, sym, ap, ◌∙◌, Bool, true, false, none, some, [], ◌∷◌, ◌+◌, ◌<◌, arith, ◌==◌,
  Bool-cases, inl, inr,
}
use cross_chain.Util.Paths.{PathText}
use cross_chain.Fs.Paths.{Stack}
use cross_chain.Fs.Lookup.{
  NodeClass, root_class, dir_class, file_class, entry_class, NodeTable, same_stack, is_entry, morph,
  add_node,
}
use cross_chain.Fs.Lookup.Keys.{same_stack_sound, add_node-keys_kept}

abbrev pub is_directory : NodeClass → Bool
is_directory root_class = true
is_directory dir_class = true
is_directory _ = false

-- The node of a key has the first name of the key, and its directory is the node of the others.
abbrev pub IsAt : NodeTable → Stack → ℕ → Type 0
IsAt t [] n = n ≡ 0
IsAt t (name ∷ up) n =
    (0 < n)
    × ((t.node n).name ≡ name)
    × (t.keys up ≡ some (t.node n).up)
    × (is_directory (t.node ((t.node n).up)).klass ≡ true)

abbrev pub IsTable : NodeTable → Type 0
IsTable t =
    (t.keys [] ≡ some 0)
    × (0 < t.next)
    × ((key : Stack) (n : ℕ) → t.keys key ≡ some n → (n < t.next) × IsAt t key n)

-- Two keys of one node are the same.
pub key_unique :
    (t : NodeTable)
    → IsTable t
    → (k j : Stack) (n : ℕ) → t.keys k ≡ some n
    → t.keys j ≡ some n
    → k ≡ j
key_unique t h [] [] n e f = refl
key_unique t h [] (name ∷ j) n e f =
    let z = (h.2 [] n e).1 in let p = (h.2 (name ∷ j) n f).1.0 in absurd (omega arith)
key_unique t h (name ∷ k) [] n e f =
    let z = (h.2 [] n f).1 in let p = (h.2 (name ∷ k) n e).1.0 in absurd (omega arith)
key_unique t h (name ∷ k) (other ∷ j) n e f =
    let (p, c, u, q) = (h.2 (name ∷ k) n e).1 in
    let (r, d, v, s) = (h.2 (other ∷ j) n f).1 in
    rw (sym c ∙ d, key_unique t h k j ((t.node n).up) u v) refl

pub self_equal : (n : ℕ) → n == n ≡ true
self_equal n = ground arith

entry_directory : (c : NodeClass) → is_entry c ≡ true → is_directory c ≡ true → ⊥
entry_directory root_class h e = cc
entry_directory dir_class h e = cc
entry_directory file_class h e = cc
entry_directory entry_class h e = cc

module _ (n : ℕ) (klass : NodeClass) (t : NodeTable) (h : is_entry (t.node n).klass ≡ true) where
  morph-name : (m : ℕ) → ((morph n klass t).node m).name ≡ (t.node m).name
  unfolding morph
  morph-name m = elim (Bool-cases (m == n)) [
    | inl b ↦ let e : m ≡ n = ground arith in rw e (rw (self_equal n) refl)
    | inr b ↦ rw b refl
  ]

  morph-up : (m : ℕ) → ((morph n klass t).node m).up ≡ (t.node m).up
  unfolding morph
  morph-up m = elim (Bool-cases (m == n)) [
    | inl b ↦ let e : m ≡ n = ground arith in rw e (rw (self_equal n) refl)
    | inr b ↦ rw b refl
  ]

  pub morph-directory :
      (m : ℕ)
      → is_directory (t.node m).klass ≡ true
      → is_directory ((morph n klass t).node m).klass ≡ true
  unfolding morph
  morph-directory m e = elim (Bool-cases (m == n)) [
    | inl b ↦
        let g : m ≡ n = ground arith in
        absurd (
          entry_directory ((t.node n).klass) h
            (ap (λ i. is_directory (t.node i).klass) (sym g) ∙ e))
    | inr b ↦ rw b e
  ]

  morph-IsAt : (key : Stack) (m : ℕ) → IsAt t key m → IsAt (morph n klass t) key m
  unfolding morph
  morph-IsAt [] m e = e
  morph-IsAt (name ∷ up) m (p, c, u, q) = (
    p,
    morph-name m ∙ c,
    u ∙ ap some (sym (morph-up m)),
    ap (λ i. is_directory ((morph n klass t).node i).klass) (morph-up m)
        ∙ morph-directory ((t.node m).up) q,
  )

  pub morph-IsTable : IsTable t → IsTable (morph n klass t)
  unfolding morph
  morph-IsTable (root, first, all) =
      (root, first, λ key m e. ((all key m e).0, morph-IsAt key m (all key m e).1))

module _ (name : PathText) (up : Stack) (klass : NodeClass) (d : ℕ) (t : NodeTable) (h : IsTable t)
    (fresh : t.keys (name ∷ up) ≡ none) (parent : t.keys up ≡ some d)
    (directory : is_directory (t.node d).klass ≡ true) where
  old_node : (m : ℕ) → m < t.next → (add_node name up klass d t).node m ≡ t.node m
  unfolding add_node
  old_node m l = let b : (m == t.next) ≡ false = ground arith in rw b refl

  directory_kept :
      (key : Stack) (m : ℕ)
      → t.keys key ≡ some m
      → is_directory (t.node m).klass ≡ true
      → is_directory ((add_node name up klass d t).node m).klass ≡ true
  directory_kept key m e q = ap (λ v. is_directory v.klass) (old_node m (h.2 key m e).0) ∙ q

  old-IsAt :
      (key : Stack) (n : ℕ) → n < t.next → IsAt t key n → IsAt (add_node name up klass d t) key n
  old-IsAt [] n l e = e
  old-IsAt (s ∷ above) n l (p, c, u, q) =
      let e = old_node n l in
      rw e (
        p,
        c,
        add_node-keys_kept name up klass d t above ((t.node n).up) fresh u,
        directory_kept above ((t.node n).up) u q,
      )

  new-IsAt : IsAt (add_node name up klass d t) (name ∷ up) t.next
  unfolding add_node
  new-IsAt =
      let b = self_equal t.next in
      let first = h.1 in
      rw b (
        first,
        refl,
        add_node-keys_kept name up klass d t up d fresh parent,
        directory_kept up d parent directory,
      )

  pub add_node-IsTable : IsTable (add_node name up klass d t)
  unfolding add_node
  add_node-IsTable = (h.0, omega arith, λ key n e. each key n e)
    where
      each :
          (key : Stack) (n : ℕ)
          → (add_node name up klass d t).keys key ≡ some n
          → (n < t.next + 1) × IsAt (add_node name up klass d t) key n
      each key n e = elim (Bool-cases (same_stack key (name ∷ up))) [
        | inl b ↦
            let k = same_stack_sound key (name ∷ up) b in
            let m : t.next ≡ n = cc (rw b at e) in (omega arith, rw (k, sym m) new-IsAt)
        | inr b ↦ let (l, at) = h.2 key n (rw b at e) in (omega arith, old-IsAt key n l at)
      ]
