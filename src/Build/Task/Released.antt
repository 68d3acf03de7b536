-- ===== src/Build/Task/Released.antt =====
-- Taskmaster.py, `Task.postprocess`: the reference counts and the candidates after it.
use cross_chain.Prelude.{
  ℕ, ◌+◌, ◌<◌, ◌≡◌, refl, sym, ap, ◌∙◌, inl, inr, true, List, [], arith, if◌then◌else◌, Bool-cases,
  All, elem,
}
use cross_chain.Prelude.Int.{pos}
use cross_chain.Prelude.Sum.{sum_congr}
use cross_chain.Build.Node.{Heap}
use cross_chain.Build.Node.Waits.{count, waits, Counted, Bounded}
use cross_chain.Build.Executor.{unique}
use cross_chain.Build.Taskmaster.{Taskmaster}
use cross_chain.Build.Taskmaster.WillNotBuild.{Exact}
use cross_chain.Build.Task.{Task}
use cross_chain.Build.Task.Postprocess.{
  gather, Release, release_targets, wake_parents, clear_targets, postprocess,
}
use cross_chain.Build.Task.Wakes.{
  amount, gathered, amount-gather, Idle, Idles, targets-Idles, wake-ref, wake-frame, wake-more,
  wake-wakes,
}
use cross_chain.Build.Task.Clears.{
  unique-Distinct, waits-clear, clear-frame, clear-parents, gathered-elem, below-unique,
  elem-unique_after,
}

module _ (size : ℕ) (task : Task) (tm : Taskmaster) where
  abbrev targets : List ℕ
  targets = unique task.targets

  abbrev start : Release
  start =
      let gone = gather targets tm.heap tm.pending_children [] in
      record { heap = tm.heap; parents = gone.1; candidates = tm.candidates }

  abbrev released : Release
  released = release_targets targets start

  abbrev woken : Heap × List ℕ
  woken = wake_parents released.parents released.heap released.candidates

  postprocess_heap : (postprocess task tm).heap ≡ clear_targets targets woken.0
  unfolding postprocess
  postprocess_heap = refl

  postprocess_candidates : (postprocess task tm).candidates ≡ woken.1
  unfolding postprocess
  postprocess_candidates = refl

  module _ (idle : Idle tm.heap targets) where
    released-Idles : Idles start released
    released-Idles = targets-Idles targets start idle

    amount-released : (p : ℕ) → amount p released.parents ≡ gathered p targets tm.heap
    unfolding amount
    amount-released p =
        ap (amount p) released-Idles.same_parents
        ∙ omega (arith, amount-gather p targets tm.heap tm.pending_children [])

    woken_same : (n : ℕ) → (woken.0 n).waiting_parents ≡ (tm.heap n).waiting_parents
    woken_same n =
        (wake-frame released.parents released.heap released.candidates n).0
        ∙ ap (λ (h : Heap). (h n).waiting_parents) released-Idles.same_heap

    after_same :
        (n : ℕ)
        → (clear_targets targets woken.0 n).waiting_parents
          ≡ (clear_targets targets tm.heap n).waiting_parents
    after_same n =
        clear-parents targets woken.0 n
        ∙ ap (λ (l : List ℕ). if elem n targets then [] else l) (woken_same n)
        ∙ sym (clear-parents targets tm.heap n)

    waits_after :
        (p : ℕ)
        → waits size (clear_targets targets woken.0) p
          ≡ waits size (clear_targets targets tm.heap) p
    waits_after p =
        sum_congr size (λ n. count p (clear_targets targets woken.0 n).waiting_parents)
          (λ n. count p (clear_targets targets tm.heap n).waiting_parents)
          (λ n _. ap (count p) (after_same n))

    module _ (exact : Exact size tm.heap) (below : All (λ t. t < size) task.targets) where
      released_ref :
          (p : ℕ)
          → (released.heap p).ref_count
            ≡ pos (waits size (clear_targets targets woken.0) p + amount p released.parents)
      released_ref p =
          let cleared =
            waits-clear size targets tm.heap p (below-unique size task.targets below)
              (unique-Distinct [] task.targets) in
          ap (λ (h : Heap). (h p).ref_count) released-Idles.same_heap
          ∙ exact.0 p
          ∙ ap pos (omega (arith, cleared, waits_after p, amount-released p))

      woken_ref :
          (p : ℕ) → (woken.0 p).ref_count ≡ pos (waits size (clear_targets targets woken.0) p)
      woken_ref p = wake-ref released.parents released.heap released.candidates p _ (released_ref p)

      postprocess_ref : Counted size (postprocess task tm).heap
      postprocess_ref = rw postprocess_heap (λ p. (clear-frame targets woken.0 p).0 ∙ woken_ref p)

      after_Bounded : Bounded size (clear_targets targets woken.0)
      after_Bounded =
          let frame = wake-frame released.parents released.heap released.candidates in
          record {
            parents_below = λ n.
                let lists =
                  clear-parents targets woken.0 n
                  ∙ ap (λ (l : List ℕ). if elem n targets then [] else l) (woken_same n) in
                rw lists (cleared_below n);
            prerequisites_below = λ n.
                rw
                  ((clear-frame targets woken.0 n).1
                    ∙ (frame n).1
                    ∙ ap (λ (h : Heap). (h n).prerequisites) released-Idles.same_heap)
                  (exact.1.prerequisites_below n);
            targets_below = λ n.
                rw
                  ((clear-frame targets woken.0 n).2
                    ∙ (frame n).2
                    ∙ ap (λ (h : Heap). (h n).executor) released-Idles.same_heap)
                  (exact.1.targets_below n);
          }
        where
          cleared_below :
              (n : ℕ)
              → All (λ p. p < size) (if elem n targets then [] else (tm.heap n).waiting_parents)
          cleared_below n = elim (Bool-cases (elem n targets)) [
            | inl e ↦ rw e tt
            | inr e ↦ rw e (exact.1.parents_below n)
          ]

      -- `postprocess` keeps the reference count of every node equal to the number of waiting lists that
      -- the node stands on, and all nodes below `size`, where the targets are below `size` and no side
      -- effect of a target is being built.
      pub postprocess-Exact : Exact size (postprocess task tm).heap
      postprocess-Exact = (postprocess_ref, rw postprocess_heap after_Bounded)

      -- A node that waited for a target, and whose reference count is 0 after `postprocess`, is a
      -- candidate then. The counts were exact before, the targets are below `size`, and no side effect
      -- of a target is being built.
      pub postprocess-wakes :
          (t p : ℕ)
          → elem t task.targets ≡ true
          → elem p (tm.heap t).waiting_parents ≡ true
          → ((postprocess task tm).heap p).ref_count ≡ pos 0
          → elem p (postprocess task tm).candidates ≡ true
      postprocess-wakes t p target waits_here free =
          let now = postprocess_ref p in
          let none_left : waits size (postprocess task tm).heap p ≡ 0 = cc in
          let is_target : elem t targets ≡ true = elem-unique_after t [] task.targets ∙ target in
          let some_left = gathered-elem p t targets tm.heap is_target waits_here in
          let none_left' = rw postprocess_heap at none_left in
          rw postprocess_candidates (
            wake-wakes released.parents released.heap released.candidates p
              (released_ref p ∙ ap pos (omega (arith, none_left')))
              (omega (arith, some_left, amount-released p)))

      -- A candidate stays one.
      pub postprocess_keeps :
          (p : ℕ) → elem p tm.candidates ≡ true → elem p (postprocess task tm).candidates ≡ true
      postprocess_keeps p m =
          rw postprocess_candidates (
            wake-more released.parents released.heap released.candidates p
              (released-Idles.more p m))

      -- Where the reference counts are exact, the targets are known nodes and no side effect of a
      -- target is being built, a node that waits for no target keeps its reference count through
      -- postprocess, also one that waits for a side effect of a target.
      pub postprocess-others :
          (p : ℕ)
          → gathered p targets tm.heap ≡ 0
          → ((postprocess task tm).heap p).ref_count ≡ (tm.heap p).ref_count
      postprocess-others p apart =
          let cleared =
            waits-clear size targets tm.heap p (below-unique size task.targets below)
              (unique-Distinct [] task.targets) in
          postprocess_ref p
          ∙ rw postprocess_heap
              (ap pos (omega (arith, cleared, apart, waits_after p)) ∙ sym (exact.0 p))
