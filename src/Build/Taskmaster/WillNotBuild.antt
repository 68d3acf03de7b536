-- ===== src/Build/Taskmaster/WillNotBuild.antt =====
-- `Taskmaster.will_not_build` (Taskmaster.py): the fuel for its loop, and the reference counts after it.
use cross_chain.Prelude.{
  ℕ, zero, suc, ◌+◌, ◌≤◌, ◌<◌, ◌≡◌, ◌≢◌, refl, sym, ap, ◌∙◌, some, List, [], ◌∷◌, arith, ◌==◌,
  if◌then◌else◌, All, union, difference, length, length-union-le, All-union,
}
use cross_chain.Prelude.Int.{ℤ, pos, negsuc, ◌+ℤ◌}
use cross_chain.Prelude.Sum.{sum, sum_congr, sum-update}
use cross_chain.Build.Node.{Heap, add_ref_count, clear_waiting_parents}
use cross_chain.Build.Node.Waits.{
  count, waits, Counted, Bounded, SameWaits, SameWaits-Counted, SameWaits-Bounded, waits-update,
}
use cross_chain.Build.Taskmaster.{Taskmaster, release_parents, will_not_build_loop, will_not_build}

pos-pred : (a : ℕ) (z : ℤ) → z ≡ pos (suc a) → z +ℤ negsuc 0 ≡ pos a
unfolding ◌+ℤ◌
pos-pred a z h = ground arith

pub release_lists :
    (ps : List ℕ) (h : Heap) (n : ℕ)
    → (release_parents ps h n).waiting_parents ≡ (h n).waiting_parents
unfolding release_parents add_ref_count
release_lists [] h n = refl
release_lists (p ∷ ps) h n = release_lists ps (add_ref_count (negsuc 0) p h) n ∙ ground arith

pub release_state : (ps : List ℕ) (h : Heap) (n : ℕ) → (release_parents ps h n).state ≡ (h n).state
unfolding release_parents add_ref_count
release_state [] h n = refl
release_state (p ∷ ps) h n = release_state ps (add_ref_count (negsuc 0) p h) n ∙ ground arith

release_prerequisites :
    (ps : List ℕ) (h : Heap) (n : ℕ) → (release_parents ps h n).prerequisites ≡ (h n).prerequisites
unfolding release_parents add_ref_count
release_prerequisites [] h n = refl
release_prerequisites (p ∷ ps) h n =
    release_prerequisites ps (add_ref_count (negsuc 0) p h) n ∙ ground arith

release_executor :
    (ps : List ℕ) (h : Heap) (n : ℕ) → (release_parents ps h n).executor ≡ (h n).executor
unfolding release_parents add_ref_count
release_executor [] h n = refl
release_executor (p ∷ ps) h n = release_executor ps (add_ref_count (negsuc 0) p h) n ∙ ground arith

release_ref :
    (ps : List ℕ) (h : Heap) (p a : ℕ)
    → (h p).ref_count ≡ pos (a + count p ps)
    → (release_parents ps h p).ref_count ≡ pos a
unfolding release_parents add_ref_count count
release_ref [] h p a e = e ∙ ap pos (omega arith)
release_ref (q ∷ qs) h p a e =
    release_ref qs (add_ref_count (negsuc 0) q h) p a
      (ground (arith, pos-pred (a + count p qs) (h p).ref_count))

-- How many entries the waiting lists of the nodes below `size` have.
abbrev pub entries : ℕ → Heap → ℕ
entries size h = sum size (λ n. length (h n).waiting_parents)

-- One round of the loop, after `node_func`.
abbrev round : ℕ → Heap → Heap
round node h = release_parents (h node).waiting_parents (clear_waiting_parents node h)

module _ (size node : ℕ) (h : Heap) (below : node < size) where
  cleared :
      (n : ℕ)
      → (clear_waiting_parents node h n).waiting_parents
        ≡ (if n == node then [] else (h n).waiting_parents)
  unfolding clear_waiting_parents
  cleared n = ground arith

  round_lists :
      (n : ℕ) → (round node h n).waiting_parents ≡ (if n == node then [] else (h n).waiting_parents)
  round_lists n =
      release_lists (h node).waiting_parents (clear_waiting_parents node h) n ∙ cleared n

  round_self : (round node h node).waiting_parents ≡ []
  round_self = round_lists node ∙ ground arith

  round_other : (n : ℕ) → n ≢ node → (h n).waiting_parents ≡ (round node h n).waiting_parents
  round_other n ne = sym (round_lists n ∙ ground arith)

  waits-round :
      (p : ℕ) → waits size h p ≡ waits size (round node h) p + count p (h node).waiting_parents
  unfolding count
  waits-round p =
      let gone : count p (round node h node).waiting_parents ≡ 0 = rw round_self in
      omega (arith, gone, waits-update size node p h (round node h) below round_other)

  entries-round : entries size h ≡ entries size (round node h) + length (h node).waiting_parents
  entries-round =
      let gone : length (round node h node).waiting_parents ≡ 0 = rw round_self in
      omega (
        arith,
        gone,
        sum-update size node (λ n. length (h n).waiting_parents)
            (λ n. length (round node h n).waiting_parents) below
            (λ n ne. ap length (round_other n ne)),
      )

  round-Counted : Counted size h → Counted size (round node h)
  unfolding clear_waiting_parents
  round-Counted counted p =
      release_ref (h node).waiting_parents (clear_waiting_parents node h) p
        (waits size (round node h) p)
        (let e : (clear_waiting_parents node h p).ref_count ≡ (h p).ref_count = ground arith in
          e ∙ counted p ∙ ap pos (waits-round p))

  round_prerequisites : (n : ℕ) → (round node h n).prerequisites ≡ (h n).prerequisites
  unfolding clear_waiting_parents
  round_prerequisites n =
      release_prerequisites (h node).waiting_parents (clear_waiting_parents node h) n ∙ ground arith

  round_executor : (n : ℕ) → (round node h n).executor ≡ (h n).executor
  unfolding clear_waiting_parents
  round_executor n =
      release_executor (h node).waiting_parents (clear_waiting_parents node h) n ∙ ground arith

  round-Bounded : Bounded size h → Bounded size (round node h)
  round-Bounded b = record {
    parents_below = λ n. rw (round_lists n) (ground (arith, b.parents_below n));
    prerequisites_below = λ n. rw (round_prerequisites n) (b.prerequisites_below n);
    targets_below = λ n. rw (round_executor n) (b.targets_below n);
  }

-- What the walk needs of `node_func`: it does not touch the waiting lists.
abbrev pub KeepsWaits : (ℕ → Heap → Heap) → Type 0
KeepsWaits f = (n : ℕ) (h : Heap) → SameWaits h (f n h)

-- A heap whose reference counts are exact.
abbrev pub Exact : ℕ → Heap → Type 0
Exact size h = Counted size h × Bounded size h

module _ (size : ℕ) (f : ℕ → Heap → Heap) (keeps : KeepsWaits f) where
  step-Exact :
      (node : ℕ) (h : Heap) → node < size → Exact size h → Exact size (round node (f node h))
  step-Exact node h l e = (
    round-Counted size node (f node h) l (SameWaits-Counted size (keeps node h) e.0),
    round-Bounded size node (f node h) l (SameWaits-Bounded size (keeps node h) e.1),
  )

  step-entries :
      (node : ℕ) (h : Heap)
      → node < size
      → entries size h
        ≡ entries size (round node (f node h)) + length (f node h node).waiting_parents
  step-entries node h l =
      sum_congr size _ _ (λ i _. ap length (sym ((keeps node h).same_parents i)))
      ∙ entries-round size node (f node h) l

  pub loop_total :
      (fuel : ℕ) (to_visit pc : List ℕ) (h : Heap)
      → All (λ n. n < size) to_visit
      → Exact size h
      → length to_visit + entries size h < fuel
      → (pc' : List ℕ) × (h' : Heap) × (will_not_build_loop f fuel to_visit pc h ≡ some (pc', h'))
        × Exact size h'
  unfolding will_not_build_loop
  loop_total zero to_visit pc h below e enough = absurd (omega arith)
  loop_total (suc fuel) [] pc h below e enough = (pc, h, refl, e)
  loop_total (suc fuel) (node ∷ rest) pc h below e enough =
      let parents = (f node h node).waiting_parents in
      loop_total fuel (union rest parents) (difference pc parents) (round node (f node h))
        (All-union (λ n. n < size) rest parents below.1
          ((SameWaits-Bounded size (keeps node h) e.1).parents_below node))
        (step-Exact node h below.0 e)
        (omega (arith, length-union-le rest parents, step-entries node h below.0))

length-nodes-le : (nodes : List ℕ) → length (union nodes []) ≤ length nodes
length-nodes-le nodes = omega (arith, length-union-le nodes [])

-- What `will_not_build` needs: nodes below `size`, and fuel for each of them and for each entry of a
-- waiting list.
pub record Ready (size fuel : ℕ) (nodes : List ℕ) (tm : Taskmaster) : Type 0 where
  pub below : All (λ n. n < size) nodes
  pub exact : Exact size tm.heap
  pub enough : length nodes + entries size tm.heap < fuel

pub will_not_build_total :
    (size fuel : ℕ) (f : ℕ → Heap → Heap) (nodes : List ℕ) (tm : Taskmaster)
    → KeepsWaits f
    → Ready size fuel nodes tm
    → (tm' : Taskmaster) × (will_not_build fuel f nodes tm ≡ some tm') × Exact size tm'.heap
unfolding will_not_build
will_not_build_total size fuel f nodes tm keeps r =
    let start = union nodes [] in
    let (pc, h, e, exact) =
      loop_total size f keeps fuel start (difference tm.pending_children start) tm.heap
        (All-union (λ n. n < size) nodes [] r.below tt) r.exact
        (omega (arith, r.enough, length-nodes-le nodes)) in
    (record tm { pending_children = pc; heap = h }, rw e, exact)
