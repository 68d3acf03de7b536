-- ===== src/Build/Node/Waits.antt =====
-- The reference counts of nodes (Node/__init__.py): how often a node stands on waiting lists, and what
-- the methods of `Node` do to that.
use cross_chain.Prelude.{
  ℕ, suc, ◌+◌, ◌<◌, ◌≡◌, ◌≢◌, refl, ap, ◌∙◌, inl, inr, Option, none, some, List, [], ◌∷◌, arith,
  ◌==◌, if◌then◌else◌, Bool-cases, All,
}
use cross_chain.Prelude.Int.{pos, ◌+ℤ◌, pos-add}
use cross_chain.Prelude.Sum.{sum, sum_congr, sum-update}
use cross_chain.Build.Executor.{get_all_targets, prerequisites_of}
use cross_chain.Build.Node.{
  Executor, Heap, set_state, State, add_to_waiting_s_e, add_to_waiting_parents, add_ref_count,
}

abbrev pub targets_of : Option Executor → List ℕ
targets_of none = []
targets_of (some e) = get_all_targets e

-- How often `x` stands in a list.
unfoldable pub count : ℕ → List ℕ → ℕ
count x [] = 0
count x (y ∷ ys) = if x == y then suc (count x ys) else count x ys

-- How often `p` stands on the waiting lists of the nodes below `size`.
abbrev pub waits : ℕ → Heap → ℕ → ℕ
waits size h p = sum size (λ n. count p (h n).waiting_parents)

-- The reference count of each node is the number of waiting lists that it stands on.
abbrev pub Counted : ℕ → Heap → Type 0
Counted size h = (p : ℕ) → (h p).ref_count ≡ pos (waits size h p)

-- Only nodes below `size` wait, are order-only prerequisites, or are targets.
pub record Bounded (size : ℕ) (h : Heap) : Type 0 where
  pub parents_below : (n : ℕ) → All (λ p. p < size) (h n).waiting_parents
  pub prerequisites_below : (n : ℕ) → All (λ p. p < size) (prerequisites_of (h n).prerequisites)
  pub targets_below : (n : ℕ) → All (λ p. p < size) (targets_of (h n).executor)

-- The heaps agree on who waits for whom, on the reference counts and on what never changes.
pub record SameWaits (h h' : Heap) : Type 0 where
  pub same_parents : (n : ℕ) → (h' n).waiting_parents ≡ (h n).waiting_parents
  pub same_count : (n : ℕ) → (h' n).ref_count ≡ (h n).ref_count
  pub same_prerequisites : (n : ℕ) → (h' n).prerequisites ≡ (h n).prerequisites
  pub same_executor : (n : ℕ) → (h' n).executor ≡ (h n).executor

pub SameWaits-Counted : (size : ℕ) {h h' : Heap} → SameWaits h h' → Counted size h → Counted size h'
SameWaits-Counted size {h} {h'} s c p =
    s.same_count p
    ∙ c p
    ∙ (let e : waits size h p ≡ waits size h' p =
          sum_congr size _ _ (λ i _. rw (s.same_parents i)) in
        rw e)

pub SameWaits-Bounded : (size : ℕ) {h h' : Heap} → SameWaits h h' → Bounded size h → Bounded size h'
SameWaits-Bounded size s b = record {
  parents_below = λ n. rw (s.same_parents n) (b.parents_below n);
  prerequisites_below = λ n. rw (s.same_prerequisites n) (b.prerequisites_below n);
  targets_below = λ n. rw (s.same_executor n) (b.targets_below n);
}

pub SameWaits-refl : (h : Heap) → SameWaits h h
SameWaits-refl h = record {
  same_parents = λ n. refl;
  same_count = λ n. refl;
  same_prerequisites = λ n. refl;
  same_executor = λ n. refl;
}

pub SameWaits-trans : {a b c : Heap} → SameWaits a b → SameWaits b c → SameWaits a c
SameWaits-trans s t = record {
  same_parents = λ n. t.same_parents n ∙ s.same_parents n;
  same_count = λ n. t.same_count n ∙ s.same_count n;
  same_prerequisites = λ n. t.same_prerequisites n ∙ s.same_prerequisites n;
  same_executor = λ n. t.same_executor n ∙ s.same_executor n;
}

pub set_state-SameWaits : (s : State) (n : ℕ) (h : Heap) → SameWaits h (set_state s n h)
unfolding set_state
set_state-SameWaits s n h = record {
  same_parents = λ m. ground arith;
  same_count = λ m. ground arith;
  same_prerequisites = λ m. ground arith;
  same_executor = λ m. ground arith;
}

pub add_to_waiting_s_e-SameWaits :
    (n node : ℕ) (h : Heap) → SameWaits h (add_to_waiting_s_e n node h)
unfolding add_to_waiting_s_e
add_to_waiting_s_e-SameWaits n node h = record {
  same_parents = λ m. ground arith;
  same_count = λ m. ground arith;
  same_prerequisites = λ m. ground arith;
  same_executor = λ m. ground arith;
}

-- Waiting lists that differ at `c` alone.
pub waits-update :
    (size c p : ℕ) (h h' : Heap)
    → c < size
    → ((n : ℕ) → n ≢ c → (h n).waiting_parents ≡ (h' n).waiting_parents)
    → waits size h p + count p (h' c).waiting_parents
      ≡ waits size h' p + count p (h c).waiting_parents
waits-update size c p h h' l same = sum-update size c _ _ l (λ i ne. rw (same i ne))

module _ (size c node : ℕ) (h : Heap) (below : c < size) where
  -- A child's new waiting parent, and the parent's count, in one step.
  abbrev pub waiting : Heap
  waiting =
      add_ref_count (pos (add_to_waiting_parents c node h).0) node
        (add_to_waiting_parents c node h).1

  abbrev added : ℕ
  added = (add_to_waiting_parents c node h).0

  waiting_lists : (n : ℕ) → n ≢ c → (h n).waiting_parents ≡ (waiting n).waiting_parents
  unfolding add_to_waiting_parents add_ref_count
  waiting_lists n ne = ground arith

  waiting_count :
      (p : ℕ)
      → count p (waiting c).waiting_parents
        ≡ count p (h c).waiting_parents + (if p == node then added else 0)
  unfolding add_to_waiting_parents add_ref_count count
  waiting_count p = ground arith

  waiting_ref :
      (p : ℕ)
      → (waiting p).ref_count
        ≡ (if p == node then (h p).ref_count +ℤ pos added else (h p).ref_count)
  unfolding add_to_waiting_parents add_ref_count
  waiting_ref p = ground arith

  waits-waiting : (p : ℕ) → waits size waiting p ≡ waits size h p + (if p == node then added else 0)
  waits-waiting p =
      omega (arith, waits-update size c p h waiting below waiting_lists, waiting_count p)

  pub waiting-Counted : Counted size h → Counted size waiting
  waiting-Counted counted p = elim (Bool-cases (p == node)) [
    | inl e ↦
        rw (waiting_ref p)
          (rw (waits-waiting p) (rw e (pos-add (waits size h p) added _ _ (counted p) refl)))
    | inr e ↦ rw (waiting_ref p) (rw (waits-waiting p) (rw e (counted p ∙ ap pos (omega arith))))
  ]

  pub waiting-Bounded : node < size → Bounded size h → Bounded size waiting
  unfolding add_to_waiting_parents add_ref_count
  waiting-Bounded l b = record {
    parents_below = λ n. ground (arith, b.parents_below n);
    prerequisites_below = λ n.
        let e : (waiting n).prerequisites ≡ (h n).prerequisites = ground arith in
        rw e (b.prerequisites_below n);
    targets_below = λ n.
        let e : (waiting n).executor ≡ (h n).executor = ground arith in rw e (b.targets_below n);
  }
