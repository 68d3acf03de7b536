-- ===== src/Build/Taskmaster/Counts.antt =====
-- Taskmaster.py, `_find_next_ready_node`: the reference counts after one round of the walk.
use cross_chain.Prelude.{
  ℕ, ◌≡◌, ◌<◌, ◌⊎◌, inl, inr, Bool, true, false, List, [], ◌∷◌, ◌++◌, arith, if◌then◌else◌, All,
  All-append, elem, Bool-cases, Option-cases,
}
use cross_chain.Build.Node.{
  State, no_state, pending, executing, failed, same, Executor, Heap, set_state, add_to_waiting_s_e,
}
use cross_chain.Build.Node.Waits.{
  Bounded, SameWaits, SameWaits-Counted, SameWaits-Bounded, SameWaits-refl, SameWaits-trans,
  set_state-SameWaits, add_to_waiting_s_e-SameWaits, waiting-Counted, waiting-Bounded,
}
use cross_chain.Build.Executor.{
  World, returned, Outcome-cases, >>=-eq-returned, unique, unique_after, all_prerequisites,
  get_all_targets, children_of, null_children, get_all_children, get_all_prerequisites,
  get_action_side_effects, get_action_targets,
}
use cross_chain.Build.Taskmaster.{Taskmaster}
use cross_chain.Build.Taskmaster.Visit.{
  Children, no_children, sort_children, wait_for, wait_for_side_effects, set_states,
  all_children_of, judge, scan, visit_in, visit,
}
use cross_chain.Build.Taskmaster.WillNotBuild.{Exact}
use cross_chain.Build.Taskmaster.Ready.{unfinished, unvisited, sort_children_lem}

-- The nodes of the graph are those below `size`, and no scanner or function of the embedding interface
-- names another one.
pub record Within (size : ℕ) (w : World) : Type 0 where
  pub children_below :
      (h : Heap) (n : ℕ) (cs : List ℕ) → w.children h n ≡ returned cs → All (λ c. c < size) cs
  pub order_elem : (x : ℕ) (l : List ℕ) → elem x (w.order l) ≡ true → elem x l ≡ true
  pub alter_below : (n : ℕ) → All (λ c. c < size) (w.alter_targets n)

pub SameWaits-Exact : (size : ℕ) {h h' : Heap} → SameWaits h h' → Exact size h → Exact size h'
SameWaits-Exact size s e = (SameWaits-Counted size s e.0, SameWaits-Bounded size s e.1)

pub set_states-SameWaits : (s : State) (ns : List ℕ) (h : Heap) → SameWaits h (set_states s ns h)
unfolding set_states
set_states-SameWaits s [] h = SameWaits-refl h
set_states-SameWaits s (n ∷ ns) h =
    SameWaits-trans (set_state-SameWaits s n h) (set_states-SameWaits s ns (set_state s n h))

waiter-SameWaits :
    (busy : Bool) (s node : ℕ) (h : Heap)
    → SameWaits h (if busy then add_to_waiting_s_e s node h else h)
waiter-SameWaits true s node h = add_to_waiting_s_e-SameWaits s node h
waiter-SameWaits false s node h = SameWaits-refl h

wait_for_side_effects-SameWaits :
    (node : ℕ) (ss : List ℕ) (h : Heap) → SameWaits h (wait_for_side_effects node ss h).1
unfolding wait_for_side_effects
wait_for_side_effects-SameWaits node [] h = SameWaits-refl h
wait_for_side_effects-SameWaits node (s ∷ ss) h =
    SameWaits-trans (waiter-SameWaits (same (h s).state executing) s node h)
      (wait_for_side_effects-SameWaits node ss _)

-- What the heap is after `judge`, by its three ways out.
pub judge_heap :
    (w : World) (e : Executor) (k : Children) (node : ℕ) (tm : Taskmaster)
    → ((judge w e k node tm).0.heap ≡ set_states failed (get_action_targets e) tm.heap)
      ⊎ ((judge w e k node tm).0.heap ≡ wait_for node k.not_ready tm.heap)
      ⊎ ((judge w e k node tm).0.heap
          ≡ (wait_for_side_effects node (get_action_side_effects tm.heap e) tm.heap).1)
unfolding judge
judge_heap w e k node tm = ground arith

module _ (size : ℕ) where
  wait_for-Exact :
      (node : ℕ) (cs : List ℕ) (h : Heap)
      → node < size
      → All (λ c. c < size) cs
      → Exact size h
      → Exact size (wait_for node cs h)
  unfolding wait_for
  wait_for-Exact node [] h l below e = e
  wait_for-Exact node (c ∷ cs) h l below e =
      wait_for-Exact node cs _ l below.1
        (waiting-Counted size c node h below.0 e.0, waiting-Bounded size c node h below.0 l e.1)

  unfinished-below :
      (h : Heap) (cs : List ℕ) → All (λ c. c < size) cs → All (λ c. c < size) (unfinished h cs)
  unfolding unfinished
  unfinished-below h [] b = tt
  unfinished-below h (c ∷ cs) b = ground (arith, unfinished-below h cs b.1)

  pub unvisited-below :
      (h : Heap) (cs : List ℕ) → All (λ c. c < size) cs → All (λ c. c < size) (unvisited h cs)
  unfolding unvisited
  unvisited-below h [] b = tt
  unvisited-below h (c ∷ cs) b = ground (arith, unvisited-below h cs b.1)

  pub unique-below :
      (seen l : List ℕ) → All (λ c. c < size) l → All (λ c. c < size) (unique_after seen l)
  unique-below seen [] b = tt
  unique-below seen (x ∷ xs) b =
      ground (arith, unique-below seen xs b.1, unique-below (x ∷ seen) xs b.1)

  pub prerequisites-below :
      (h : Heap) (ts : List ℕ) → Bounded size h → All (λ c. c < size) (all_prerequisites h ts)
  unfolding all_prerequisites
  prerequisites-below h [] b = tt
  prerequisites-below h (t ∷ ts) b =
      All-append (λ c. c < size) _ _ (b.prerequisites_below t) (prerequisites-below h ts b)

  All-prerequisites :
      (h : Heap) (e : Executor) → Bounded size h → All (λ c. c < size) (get_all_prerequisites h e)
  unfolding get_all_prerequisites
  All-prerequisites h e b = elim (Bool-cases e.is_null) [
    | inl null ↦ simp null tt
    | inr real ↦ simp real (unique-below [] _ (prerequisites-below h (get_all_targets e) b))
  ]

  module _ (w : World) (within : Within size w) where
    pub children_of-below :
        (h : Heap) (ts cs : List ℕ) → children_of w h ts ≡ returned cs → All (λ c. c < size) cs
    unfolding children_of
    children_of-below h [] cs r = let same : [] ≡ cs = cc in rw (← same) tt
    children_of-below h (t ∷ ts) cs r =
        let (first, found, r') = >>=-eq-returned (w.children h t) _ r in
        let (rest, found', r'') = >>=-eq-returned (children_of w h ts) _ r' in
        let same : first ++ rest ≡ cs = cc in
        rw (← same) (
          All-append (λ c. c < size) first rest (within.children_below h t first found)
            (children_of-below h ts rest found'))

    null_children-below :
        (h : Heap) (ts cs : List ℕ) → null_children w h ts ≡ returned cs → All (λ c. c < size) cs
    unfolding null_children
    null_children-below h [] cs r = cc
    null_children-below h (t ∷ ts) cs r = within.children_below h t cs r

    get_all_children-below :
        (h : Heap) (e : Executor) (cs : List ℕ)
        → get_all_children w h e ≡ returned cs
        → All (λ c. c < size) cs
    unfolding get_all_children
    get_all_children-below h e cs r = elim (Bool-cases e.is_null) [
      | inl null ↦ null_children-below h (get_all_targets e) cs (simp null at r)
      | inr real ↦
          let r' = simp real at r in
          let (all, found, r'') = >>=-eq-returned (children_of w h (get_all_targets e)) _ r' in
          let same : unique all ≡ cs = cc in
          rw (← same) (unique-below [] all (children_of-below h (get_all_targets e) all found))
    ]

    pub All-all_children_of :
        (h : Heap) (e : Executor) (cs : List ℕ)
        → Bounded size h
        → get_all_children w h e ≡ returned cs
        → All (λ c. c < size) (all_children_of h e cs)
    All-all_children_of h e cs b r =
        All-append (λ c. c < size) _ _ (All-prerequisites h e b) (get_all_children-below h e cs r)

    judge-Exact :
        (e : Executor) (cs : List ℕ) (node : ℕ) (tm : Taskmaster)
        → node < size
        → All (λ c. c < size) cs
        → Exact size tm.heap
        → Exact size (judge w e (sort_children tm.heap cs no_children) node tm).0.heap
    judge-Exact e cs node tm l below exact =
        let k = sort_children tm.heap cs no_children in
        let gathered = (sort_children_lem tm.heap cs no_children).1 in
        elim (judge_heap w e k node tm) [
          | inl failing ↦ rw failing (
              SameWaits-Exact size (set_states-SameWaits failed (get_action_targets e) tm.heap)
                exact)
          | inr (inl waiting) ↦ rw waiting (
              wait_for-Exact node k.not_ready tm.heap l
                (rw gathered (unfinished-below tm.heap cs below)) exact)
          | inr (inr ready) ↦ rw ready (
              SameWaits-Exact size
                (wait_for_side_effects-SameWaits node (get_action_side_effects tm.heap e) tm.heap)
                exact)
        ]

    pub scan-Exact :
        (node : ℕ) (tm : Taskmaster)
        → node < size
        → Exact size tm.heap
        → Exact size (scan w node tm).0.heap
    unfolding scan
    scan-Exact node tm l exact = elim (Option-cases (tm.heap node).executor) [
      | inl absent ↦ rw (absent, scan) exact
      | inr (e, has) ↦ elim (Outcome-cases (get_all_children w tm.heap e)) [
        | inl (x, threw) ↦ rw (has, scan, threw) exact
        | inr (children, found) ↦
            rw (has, scan, found)
              (judge-Exact e (all_children_of tm.heap e children) node tm l
                (All-all_children_of tm.heap e children exact.1 found) exact)
      ]
    ]

    visit_in-Exact :
        (s : State) (node : ℕ) (tm : Taskmaster)
        → node < size
        → Exact size tm.heap
        → Exact size (visit_in s w node tm).0.heap
    unfolding visit_in
    visit_in-Exact no_state node tm l exact =
        scan-Exact node (record tm { heap = set_state pending node tm.heap }) l
          (SameWaits-Exact size (set_state-SameWaits pending node tm.heap) exact)
    visit_in-Exact pending node tm l exact = scan-Exact node tm l exact
    visit_in-Exact _ node tm l exact = exact

    -- One round of the walk, at a node below `size`, keeps the reference counts exact, that of
    -- each node being the number of waiting lists that it stands on, where the methods of nodes
    -- name nodes below `size` alone.
    pub visit-Exact :
        (node : ℕ) (tm : Taskmaster)
        → node < size
        → Exact size tm.heap
        → Exact size (visit w node tm).0.heap
    unfolding visit
    visit-Exact node tm = visit_in-Exact (tm.heap node).state node tm
