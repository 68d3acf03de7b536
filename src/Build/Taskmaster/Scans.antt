-- ===== src/Build/Taskmaster/Scans.antt =====
-- A round of the loop of `_find_next_ready_node` (Taskmaster.py): its invariant and its measure.
use cross_chain.Prelude.{
  ℕ, ◌+◌, ◌*◌, ◌≡◌, ◌<◌, ◌≤◌, refl, ap, ◌∙◌, inl, inr, List, [], ◌∷◌, ◌++◌, arith, All-append,
  length, Option-cases,
}
use native.Mathlib.Nat.{le_trans}
use cross_chain.Build.Node.{State, no_state, pending, Executor, Heap, set_state}
use cross_chain.Prelude.Sum.{sum-lt}
use cross_chain.Build.Node.Waits.{set_state-SameWaits}
use cross_chain.Build.Executor.{World, returned, Outcome-cases, get_all_children}
use cross_chain.Build.Taskmaster.{Taskmaster}
use cross_chain.Build.Taskmaster.Visit.{
  no_children, sort_children, all_children_of, judge, scan, visit_in, visit,
}
use cross_chain.Build.Taskmaster.WillNotBuild.{Exact}
use cross_chain.Build.Taskmaster.Ready.{unvisited, sort_children_lem}
use cross_chain.Build.Taskmaster.Counts.{
  unvisited-below, All-all_children_of, scan-Exact, SameWaits-Exact,
}
use cross_chain.Build.Taskmaster.Measure.{
  mul_mono, fresh, unseen, bonus, work, work-Shrinks, work-push,
}
use cross_chain.Build.Taskmaster.Walks.{
  cap, Finite, Walks, judge-Shrinks, judge_rest, unvisited-fresh, length-unvisited-le, pushed,
  All-pushed, length-pushed-le, length-all_children-le,
}

module _ (size width : ℕ) (w : World) (finite : Finite size width w) where
  -- After a scan: the walk's invariant, and the work that is left at most.
  record Scanned (tm tm' : Taskmaster) : Type 0 where
    walks : Walks size tm'
    left :
        work size (cap size width) tm'.heap tm'.candidates
        ≤ length tm.candidates
          + (cap size width)
          + (cap size width) * (unseen size tm.heap + unseen size tm.heap)

  unchanged-Scanned :
      (tm tm' : Taskmaster)
      → Walks size tm'
      → tm'.heap ≡ tm.heap
      → tm'.candidates ≡ tm.candidates
      → Scanned tm tm'
  unchanged-Scanned tm tm' walks same_heap same_candidates = record {
    walks = walks;
    left =
        rw (same_heap, same_candidates)
          (work-push size (cap size width) tm.heap [] tm.candidates tt (omega arith));
  }

  judge-Scanned :
      (e : Executor) (children : List ℕ) (node : ℕ) (tm : Taskmaster)
      → Walks size tm
      → get_all_children w tm.heap e ≡ returned children
      → let tm' =
          (judge w e
            (sort_children tm.heap (all_children_of tm.heap e children) no_children)
            node
            tm).0 in
        Exact size tm'.heap → Scanned tm tm'
  judge-Scanned e children node tm walks found exact =
      let cs = all_children_of tm.heap e children in
      let k = sort_children tm.heap cs no_children in
      let visited = (sort_children_lem tm.heap cs no_children).0 in
      let (stack, tops, going) = judge_rest w e k node tm in
      let new = (pushed size width w finite) (unvisited tm.heap cs) in
      let tm' = (judge w e k node tm).0 in
      let stack' : tm'.candidates ≡ new ++ tm.candidates =
        stack ∙ ap (λ v. (pushed size width w finite) v ++ tm.candidates) visited in
      let below =
        (All-pushed size width w finite) (λ c. c < size) _
          (unvisited-below size tm.heap cs
            (All-all_children_of size w finite.within tm.heap e children walks.exact.1 found)) in
      let all_below = All-append (λ c. c < size) new tm.candidates below walks.candidates_below in
      let few : length new ≤ (cap size width) = omega (
        arith,
        (length-pushed-le size width w finite) (unvisited tm.heap cs),
        length-unvisited-le tm.heap cs,
        (length-all_children-le size width w finite) tm.heap e children walks.exact.1 found,
      ) in
      record {
        walks = record {
          exact = exact;
          candidates_below = rw stack' all_below;
          tops_below = rw tops walks.tops_below;
          going = going ∙ walks.going;
        };
        left = rw stack' (
            le_trans
              (work-Shrinks size (cap size width) tm.heap tm'.heap (new ++ tm.candidates)
                (judge-Shrinks w e k node tm) all_below)
              (work-push size (cap size width) tm.heap new tm.candidates
                ((All-pushed size width w finite) _ _ (unvisited-fresh tm.heap cs)) few));
      }

  scan-Scanned :
      (node : ℕ) (tm : Taskmaster) → node < size → Walks size tm → Scanned tm (scan w node tm).0
  unfolding scan
  scan-Scanned node tm l walks = elim (Option-cases (tm.heap node).executor) [
    | inl absent ↦
        rw (absent, scan)
          (unchanged-Scanned tm _
            (record {
              exact = walks.exact;
              candidates_below = walks.candidates_below;
              tops_below = walks.tops_below;
              going = walks.going;
            })
            refl refl)
    | inr (e, has) ↦ elim (Outcome-cases (get_all_children w tm.heap e)) [
      | inl (x, threw) ↦
          rw (has, scan, threw)
            (unchanged-Scanned tm _
              (record {
                exact = walks.exact;
                candidates_below = walks.candidates_below;
                tops_below = walks.tops_below;
                going = walks.going;
              })
              refl refl)
      | inr (children, found) ↦
          let exact = scan-Exact size w finite.within node tm l walks.exact in
          rw (has, scan, found)
            (judge-Scanned e children node tm walks found (rw (has, scan, found) at exact))
    ]
  ]

  visited_now :
      (node : ℕ) (h : Heap)
      → (h node).state ≡ no_state
      → node < size
      → unseen size (set_state pending node h) < unseen size h
  unfolding set_state
  visited_now node h e l =
      sum-lt size node (fresh (set_state pending node h)) (fresh h) l (λ i. ground arith)
        (ground arith)

  -- The work falls with each round of the loop.
  visit_in-Walks :
      (s : State) (node : ℕ) (tm : Taskmaster)
      → (tm.heap node).state ≡ s
      → node < size
      → Walks size tm
      → Walks size (visit_in s w node tm).0
        × (work size
              (cap size width)
              (visit_in s w node tm).0.heap
              (visit_in s w node tm).0.candidates
            < work size (cap size width) tm.heap (node ∷ tm.candidates))
  unfolding visit_in
  visit_in-Walks no_state node tm e l walks =
      let h = set_state pending node tm.heap in
      let tm' = record tm { heap = h } in
      let walks' : Walks size tm' = record {
        exact = SameWaits-Exact size (set_state-SameWaits pending node tm.heap) walks.exact;
        candidates_below = walks.candidates_below;
        tops_below = walks.tops_below;
        going = walks.going;
      } in
      let scanned = scan-Scanned node tm' l walks' in
      let u = unseen size tm.heap in
      let u' = unseen size h in
      let empty : bonus (cap size width) tm.heap (node ∷ tm.candidates) ≡ 0 = rw e in
      let twice =
        mul_mono (cap size width) (u' + u' + 2) (u + u)
          (omega (arith, visited_now node tm.heap e l)) in
      (scanned.walks, omega (arith, scanned.left, empty, twice))
  visit_in-Walks pending node tm e l walks =
      let scanned = scan-Scanned node tm l walks in
      let full : bonus (cap size width) tm.heap (node ∷ tm.candidates) ≡ (cap size width) = rw e in
      (scanned.walks, omega (arith, scanned.left, full))
  visit_in-Walks _ node tm e l walks =
      let full : bonus (cap size width) tm.heap (node ∷ tm.candidates) ≡ (cap size width) = rw e in
      (
        walks,
        omega (
          arith,
          full,
          work-push size (cap size width) tm.heap [] tm.candidates tt (omega arith),
        ),
      )

  pub visit-Walks :
      (node : ℕ) (tm : Taskmaster)
      → node < size
      → Walks size tm
      → Walks size (visit w node tm).0
        × (work size (cap size width) (visit w node tm).0.heap (visit w node tm).0.candidates
            < work size (cap size width) tm.heap (node ∷ tm.candidates))
  unfolding visit
  visit-Walks node tm = visit_in-Walks (tm.heap node).state node tm refl
