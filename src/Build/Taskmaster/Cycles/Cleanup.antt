-- ===== src/Build/Taskmaster/Cycles/Cleanup.antt =====
-- Taskmaster.py: `cleanup`, at the end of a build, and `_validate_pending_children`.
use cross_chain.Prelude.{
  ℕ, zero, suc, ◌≡◌, ◌<◌, ◌≤◌, inl, inr, refl, Bool, true, false, not, ◌&&◌, ◌||◌, Option, none,
  some, List, [], ◌∷◌, arith, if◌then◌else◌, Bool-cases, elem, All,
}
use cross_chain.Prelude.Int.{pos}
use cross_chain.Prelude.Sum.{sum-le, sum-lt}
use cross_chain.Build.Node.{pending, executing, executed, same, Heap}
use cross_chain.Build.Node.Waits.{count, waits}
use cross_chain.Build.Executor.{user_error, Outcome, returned, raised}
use cross_chain.Build.Taskmaster.WillNotBuild.{Exact}
use cross_chain.Build.Taskmaster.Cycles.{
  find_cycle, any_genuine, cleanup, is_positive, all_counted, is_empty, validate_pending_children,
}
use cross_chain.Build.Taskmaster.Cycles.Search.{left_in, find_cycle-Searched}

-- The pending children that were executed after all.
abbrev pub all_executed : Heap → List ℕ → Bool
all_executed h [] = true
all_executed h (n ∷ ns) = same (h n).state executed && all_executed h ns

-- The pending children are in work, and a node waits for each.
abbrev pub all_waited : Heap → List ℕ → Bool
all_waited h [] = true
all_waited h (n ∷ ns) =
    (same (h n).state pending || same (h n).state executing)
    && not (is_empty (h n).waiting_parents)
    && all_waited h ns

module _ (size fuel : ℕ) (h : Heap) (below : (n : ℕ) → All (λ p. p < size) (h n).waiting_parents)
    (enough : size < fuel) where
  left_at_start : left_in size [] ≤ size
  left_at_start = sum-le size _ (λ i. omega arith)

  any_genuine_total :
      (ns : List ℕ)
      → All (λ n. n < size) ns
      → (genuine : Bool) × (any_genuine fuel h ns ≡ some genuine)
        × (all_executed h ns ≡ false → genuine ≡ true)
  unfolding any_genuine
  any_genuine_total [] small = (false, refl, λ e. cc)
  any_genuine_total (n ∷ ns) small =
      let (found, visited, e, _, _) =
        find_cycle-Searched size h below fuel n n [] [] small.0 tt
          (omega (arith, enough, left_at_start)) in
      let (genuine, e', late) = any_genuine_total ns small.1 in go found visited e genuine e' late
    where
      go :
          (found : Option (List ℕ)) (visited : List ℕ)
          → find_cycle fuel h n n [] [] ≡ some (found, visited)
          → (genuine : Bool) → any_genuine fuel h ns ≡ some genuine
          → (all_executed h ns ≡ false → genuine ≡ true)
          → (g : Bool) × (any_genuine fuel h (n ∷ ns) ≡ some g)
            × (all_executed h (n ∷ ns) ≡ false → g ≡ true)
      go (some cycle) visited e genuine e' late = (true, rw (e, e', any_genuine) refl, λ _. refl)
      go none visited e genuine e' late = (
        not (same (h n).state executed) || genuine,
        rw (e, e', any_genuine) refl,
        λ unfinished. elim (Bool-cases (same (h n).state executed)) [
          | inl ex ↦ rw ex (late (rw ex at unfinished))
          | inr ne ↦ rw ne refl
        ],
      )

  -- Where the waiting lists and the pending children name nodes below `size`, and the fuel is
  -- above `size`, `cleanup` returns or raises a `UserError`, and raises it where
  -- a pending child was not executed.
  cleanup_total :
      (pc : List ℕ)
      → All (λ n. n < size) pc
      → (outcome : Outcome (Unit {0})) × (cleanup fuel h pc ≡ some outcome)
        × (all_executed h pc ≡ false → outcome ≡ raised user_error)
  unfolding cleanup
  cleanup_total [] small = (returned tt, refl, λ e. cc)
  cleanup_total (n ∷ ns) small =
      let (genuine, e, late) = any_genuine_total (n ∷ ns) small in
      (
        if genuine then raised user_error else returned tt,
        rw (e, cleanup) refl,
        λ unfinished. rw (late unfinished) refl,
      )

count-elem : (p : ℕ) (l : List ℕ) → elem p l ≡ true → 0 < count p l
unfolding count
count-elem p [] m = cc
count-elem p (q ∷ l) m = ground (arith, count-elem p l)

module _ (size : ℕ) (h : Heap) (exact : Exact size h) where
  waited_for : (n p : ℕ) → n < size → elem p (h n).waiting_parents ≡ true → 0 < waits size h p
  waited_for n p l m =
      let here = count-elem p (h n).waiting_parents m in
      omega (
        arith,
        sum-lt size n (λ _. 0) (λ i. count p (h i).waiting_parents) l (λ i. omega arith)
            (omega (arith, here)),
      )

  counted_positive :
      (p a : ℕ) → (h p).ref_count ≡ pos a → 0 < a → is_positive (h p).ref_count ≡ true
  counted_positive p zero e l = absurd (omega (arith, l))
  counted_positive p (suc a) e l = rw e refl

  parents_counted :
      (n : ℕ) (ps : List ℕ)
      → n < size
      → ((p : ℕ) → elem p ps ≡ true → elem p (h n).waiting_parents ≡ true)
      → all_counted h ps ≡ true
  unfolding all_counted
  parents_counted n [] l among = refl
  parents_counted n (p ∷ ps) l among =
      let here = waited_for n p l (among p (ground arith)) in
      rw (counted_positive p _ (exact.0 p) here)
        (parents_counted n ps l (λ q m. among q (ground arith)))

  -- Where the counts are exact and the pending children are below `size`,
  -- `_validate_pending_children` checks the states and the waiting lists of
  -- the pending children alone: the assertion on the reference counts of their parents holds.
  validate-Exact :
      (pc : List ℕ) → All (λ n. n < size) pc → validate_pending_children h pc ≡ all_waited h pc
  unfolding validate_pending_children
  validate-Exact [] small = refl
  validate-Exact (n ∷ ns) small =
      ground (
        arith,
        parents_counted n (h n).waiting_parents small.0 (λ p m. m),
        validate-Exact ns small.1,
      )
