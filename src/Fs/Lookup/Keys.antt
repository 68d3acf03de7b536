-- ===== src/Fs/Lookup/Keys.antt =====
-- Node/FS.py, `RootDir._lookup_abs`: keys of the table of nodes.
use cross_chain.Prelude.{
  ℕ, ◌≡◌, refl, sym, ap, ◌∙◌, true, none, some, [], ◌∷◌, Bool-cases, inl, inr,
}
use cross_chain.Util.Paths.Same.{and_parts, same_path_sound, same_path_refl}
use cross_chain.Util.Paths.{PathText, same_path}
use cross_chain.Fs.Paths.{Stack}
use cross_chain.Fs.Lookup.{NodeClass, NodeTable, same_stack, add_node}

pub same_stack_sound : (k j : Stack) → same_stack k j ≡ true → k ≡ j
same_stack_sound [] [] h = refl
same_stack_sound [] (m ∷ j) h = cc
same_stack_sound (n ∷ k) [] h = cc
same_stack_sound (n ∷ k) (m ∷ j) h =
    let (e, g) = and_parts (same_path n m) (same_stack k j) h in
    rw (same_path_sound n m e, same_stack_sound k j g) refl

pub same_stack_refl : (k : Stack) → same_stack k k ≡ true
same_stack_refl [] = refl
same_stack_refl (n ∷ k) = rw (same_path_refl n, same_stack_refl k) refl

-- The keys that there were are kept.
pub add_node-keys_kept :
    (name : PathText) (up : Stack) (klass : NodeClass) (d : ℕ) (t : NodeTable) (key : Stack) (n : ℕ)
    → t.keys (name ∷ up) ≡ none
    → t.keys key ≡ some n
    → (add_node name up klass d t).keys key ≡ some n
unfolding add_node
add_node-keys_kept name up klass d t key n fresh h =
    elim (Bool-cases (same_stack key (name ∷ up))) [
      | inl b ↦
          absurd (clash (sym fresh ∙ ap t.keys (sym (same_stack_sound key (name ∷ up) b)) ∙ h))
      | inr b ↦ rw b h
    ]
  where
    clash : none ≡ some n → ⊥
    clash e = cc
