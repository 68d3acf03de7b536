-- ===== src/Build/Taskmaster/Walks.antt =====
-- What the loop of `_find_next_ready_node` (Taskmaster.py) keeps, and the bounds on what a scan adds.
use cross_chain.Prelude.{
  ℕ, ◌+◌, ◌≡◌, ◌<◌, ◌≤◌, refl, ◌∙◌, inl, inr, true, false, List, [], ◌∷◌, ◌++◌, arith, All,
  All-elem, All-of_elem, All-reverse, length, length-append, length-reverse, Bool-cases, reverse,
}
use cross_chain.Build.Node.{
  no_state, failed, same, Executor, Heap, set_state, add_to_waiting_s_e, add_to_waiting_parents,
  add_ref_count,
}
use cross_chain.Build.Node.Waits.{Bounded}
use cross_chain.Build.Executor.{
  World, returned, >>=-eq-returned, unique, all_prerequisites, get_all_targets, children_of,
  null_children, get_all_children, get_all_prerequisites, get_action_targets,
  get_action_side_effects,
}
use cross_chain.Build.Taskmaster.{Taskmaster}
use cross_chain.Build.Taskmaster.Visit.{
  Children, wait_for, wait_for_side_effects, set_states, all_children_of, judge,
}
use cross_chain.Build.Taskmaster.WillNotBuild.{Exact}
use cross_chain.Build.Taskmaster.Ready.{unvisited}
use cross_chain.Build.Taskmaster.Counts.{
  Within, judge_heap, prerequisites-below, unique-below, children_of-below,
}
use cross_chain.Build.Taskmaster.Measure.{Shrinks, length-unique-le}

-- How many children a node has at most.
abbrev pub cap : ℕ → ℕ → ℕ
cap size width = size + size + width

-- The lists that the graph and the embedding interface give have at most `width` entries, and `order`
-- adds none.
pub record Finite (size width : ℕ) (w : World) : Type 0 where
  pub within : Within size w
  pub children_few :
      (h : Heap) (n : ℕ) (cs : List ℕ) → w.children h n ≡ returned cs → length cs ≤ width
  pub order_few : (l : List ℕ) → length (w.order l) ≤ length l
  pub alter_few : (n : ℕ) → length (w.alter_targets n) ≤ width

-- The invariant of a walk that was not stopped.
pub record Walks (size : ℕ) (tm : Taskmaster) : Type 0 where
  pub exact : Exact size tm.heap
  pub candidates_below : All (λ c. c < size) tm.candidates
  pub tops_below : All (λ c. c < size) tm.top_targets_left
  pub going : tm.stopped ≡ false

pub set_states-Shrinks : (ns : List ℕ) (h : Heap) → Shrinks h (set_states failed ns h)
unfolding set_states set_state
set_states-Shrinks [] h n = omega arith
set_states-Shrinks (x ∷ ns) h n = ground (arith, set_states-Shrinks ns (set_state failed x h) n)

wait_for-state :
    (node : ℕ) (cs : List ℕ) (h : Heap) (n : ℕ) → (wait_for node cs h n).state ≡ (h n).state
unfolding wait_for add_to_waiting_parents add_ref_count
wait_for-state node [] h n = refl
wait_for-state node (c ∷ cs) h n = wait_for-state node cs _ n ∙ ground arith

wait_for_side_effects-state :
    (node : ℕ) (ss : List ℕ) (h : Heap) (n : ℕ)
    → ((wait_for_side_effects node ss h).1 n).state ≡ (h n).state
unfolding wait_for_side_effects add_to_waiting_s_e
wait_for_side_effects-state node [] h n = refl
wait_for_side_effects-state node (s ∷ ss) h n =
    wait_for_side_effects-state node ss _ n ∙ ground arith

pub judge-Shrinks :
    (w : World) (e : Executor) (k : Children) (node : ℕ) (tm : Taskmaster)
    → Shrinks tm.heap (judge w e k node tm).0.heap
judge-Shrinks w e k node tm n = elim (judge_heap w e k node tm) [
  | inl failing ↦ rw failing (set_states-Shrinks (get_action_targets e) tm.heap n)
  | inr (inl waiting) ↦ rw (waiting, wait_for-state node k.not_ready tm.heap n) (omega arith)
  | inr (inr ready) ↦
      rw (ready, wait_for_side_effects-state node (get_action_side_effects tm.heap e) tm.heap n)
        (omega arith)
]

pub judge_rest :
    (w : World) (e : Executor) (k : Children) (node : ℕ) (tm : Taskmaster)
    → ((judge w e k node tm).0.candidates
        ≡ reverse (w.order (reverse k.not_visited)) ++ tm.candidates)
      × ((judge w e k node tm).0.top_targets_left ≡ tm.top_targets_left)
      × ((judge w e k node tm).0.stopped ≡ tm.stopped)
unfolding judge
judge_rest w e k node tm = ground arith

pub unvisited-fresh :
    (h : Heap) (cs : List ℕ) → All (λ c. same (h c).state no_state ≡ true) (unvisited h cs)
unfolding unvisited
unvisited-fresh h [] = tt
unvisited-fresh h (c ∷ cs) = ground (arith, unvisited-fresh h cs)

pub length-unvisited-le : (h : Heap) (cs : List ℕ) → length (unvisited h cs) ≤ length cs
unfolding unvisited
length-unvisited-le h [] = omega arith
length-unvisited-le h (c ∷ cs) = ground (arith, length-unvisited-le h cs)

module _ (size width : ℕ) (w : World) (finite : Finite size width w) where
  pub All-order : (P : ℕ → Type 0) (l : List ℕ) → All P l → All P (w.order l)
  All-order P l h =
      All-of_elem P (w.order l) (λ x m. All-elem P x l h (finite.within.order_elem x l m))

  abbrev pub pushed : List ℕ → List ℕ
  pushed l = reverse (w.order (reverse l))

  pub All-pushed : (P : ℕ → Type 0) (l : List ℕ) → All P l → All P (pushed l)
  All-pushed P l h = All-reverse P _ (All-order P _ (All-reverse P l h))

  pub length-pushed-le : (l : List ℕ) → length (pushed l) ≤ length l
  length-pushed-le l =
      omega (
        arith,
        length-reverse (w.order (reverse l)),
        finite.order_few (reverse l),
        length-reverse l,
      )

  length-prerequisites-le :
      (h : Heap) (e : Executor) → Bounded size h → length (get_all_prerequisites h e) ≤ size
  unfolding get_all_prerequisites
  length-prerequisites-le h e b = elim (Bool-cases e.is_null) [
    | inl null ↦ simp null (omega arith)
    | inr real ↦
        let ps = all_prerequisites h (get_all_targets e) in
        simp real (
          length-unique-le size ps
            (unique-below size [] ps (prerequisites-below size h (get_all_targets e) b)))
  ]

  length-null_children-le :
      (h : Heap) (ts cs : List ℕ) → null_children w h ts ≡ returned cs → length cs ≤ width
  unfolding null_children
  length-null_children-le h [] cs r = cc
  length-null_children-le h (t ∷ ts) cs r = finite.children_few h t cs r

  length-get_all_children-le :
      (h : Heap) (e : Executor) (cs : List ℕ)
      → get_all_children w h e ≡ returned cs
      → length cs ≤ size + width
  unfolding get_all_children
  length-get_all_children-le h e cs r = elim (Bool-cases e.is_null) [
    | inl null ↦ omega (arith, length-null_children-le h (get_all_targets e) cs (simp null at r))
    | inr real ↦
        let r' = simp real at r in
        let (all, found, r'') = >>=-eq-returned (children_of w h (get_all_targets e)) _ r' in
        let same_list : unique all ≡ cs = cc in
        let below = children_of-below size w finite.within h (get_all_targets e) all found in
        let few = length-unique-le size all (unique-below size [] all below) in
        rw (← same_list) (omega (arith, few))
  ]

  pub length-all_children-le :
      (h : Heap) (e : Executor) (cs : List ℕ)
      → Bounded size h
      → get_all_children w h e ≡ returned cs
      → length (all_children_of h e cs) ≤ (cap size width)
  length-all_children-le h e cs b r = omega (
    arith,
    length-append (get_all_prerequisites h e) cs,
    length-prerequisites-le h e b,
    length-get_all_children-le h e cs r,
  )
