-- ===== src/Build/Taskmaster/Ends.antt =====
-- The fuel for the loop of `_find_next_ready_node` (Taskmaster.py), whatever the graph.
use cross_chain.Prelude.{
  ℕ, zero, suc, ◌+◌, ◌*◌, ◌≡◌, ◌<◌, ◌≤◌, refl, inl, inr, false, Option, none, some, List, [], ◌∷◌,
  ◌++◌, arith, All, All-append, All-reverse, length, length-append, length-reverse, Bool-cases,
  reverse,
}
use mathlib.Core.Path.{subst}
use cross_chain.Build.Node.{State, no_state, pending, set_state}
use cross_chain.Build.Executor.{World}
use cross_chain.Build.Taskmaster.{
  Taskmaster, pop_candidate, alter, next_top, next_from, find_next_candidate,
}
use cross_chain.Build.Taskmaster.Visit.{
  judge, scan, visit_in, visit, next_candidate, find_ready_loop, find_next_ready_node,
}
use cross_chain.Build.Taskmaster.WillNotBuild.{Exact}
use cross_chain.Build.Taskmaster.Measure.{bonus-le, unseen, work}
use cross_chain.Build.Taskmaster.Walks.{cap, Finite, Walks, All-order}
use cross_chain.Build.Taskmaster.Scans.{visit-Walks}

module _ (size width : ℕ) (w : World) (finite : Finite size width w) where
  -- With the top-level targets that are left, each of which brings its alternatives.
  abbrev total : Taskmaster → ℕ
  total tm =
      work size (cap size width) tm.heap tm.candidates + length tm.top_targets_left * suc width

  -- A visit leaves the top-level targets alone.
  scan_tops :
      (node : ℕ) (tm : Taskmaster) → (scan w node tm).0.top_targets_left ≡ tm.top_targets_left
  unfolding scan judge
  scan_tops node tm = ground arith

  visit_in_tops :
      (s : State) (node : ℕ) (tm : Taskmaster)
      → (visit_in s w node tm).0.top_targets_left ≡ tm.top_targets_left
  unfolding visit_in
  visit_in_tops no_state node tm =
      scan_tops node (record tm { heap = set_state pending node tm.heap })
  visit_in_tops pending node tm = scan_tops node tm
  visit_in_tops _ node tm = refl

  row_suc : (a : ℕ) → suc a * suc width ≡ suc width + a * suc width
  row_suc a = grind arith

  visit_tops :
      (node : ℕ) (tm : Taskmaster) → (visit w node tm).0.top_targets_left ≡ tm.top_targets_left
  unfolding visit
  visit_tops node tm = visit_in_tops (tm.heap node).state node tm

  -- The candidate that the walk goes on with.
  record Next (tm : Taskmaster) (found : Option ℕ × Taskmaster) : Type 0 where
    walks : Walks size found.1
    below : (n : ℕ) → found.0 ≡ some n → n < size
    left :
        (n : ℕ)
        → found.0 ≡ some n
        → work size (cap size width) found.1.heap (n ∷ found.1.candidates)
            + length found.1.top_targets_left * suc width
          ≤ total tm

  -- Popping a stack, where the work that the stack holds is within a bound.
  pop-Next :
      (base tm : Taskmaster) (s : List ℕ)
      → Exact size tm.heap
      → All (λ c. c < size) tm.top_targets_left
      → tm.stopped ≡ false
      → All (λ c. c < size) s
      → work size (cap size width) tm.heap s + length tm.top_targets_left * suc width ≤ total base
      → Next base (pop_candidate s tm)
  unfolding pop_candidate
  pop-Next base tm [] exact tops going below bound = record {
    walks = record { exact = exact; candidates_below = tt; tops_below = tops; going = going };
    below = λ n e. cc;
    left = λ n e. cc;
  }
  pop-Next base tm (c ∷ cs) exact tops going below bound = record {
    walks = record { exact = exact; candidates_below = below.1; tops_below = tops; going = going };
    below = λ n e. let same_node : c ≡ n = cc in rw (← same_node) below.0;
    left = λ n e. let same_node : c ≡ n = cc in rw (← same_node) bound;
  }

  alter-Next :
      (base tm : Taskmaster) (alt : List ℕ) (node : ℕ)
      → Exact size tm.heap
      → All (λ c. c < size) tm.top_targets_left
      → tm.stopped ≡ false
      → tm.candidates ≡ []
      → node < size
      → All (λ c. c < size) alt
      → length alt ≤ width
      → cap size width
          + cap size width * (unseen size tm.heap + unseen size tm.heap)
          + suc (length tm.top_targets_left) * suc width
        ≤ total base
      → Next base (alter alt w node tm)
  unfolding alter
  alter-Next base tm [] node exact tops going none_left l below few bound =
      let h = tm.heap in
      record {
        walks = record {
          exact = exact;
          candidates_below = rw none_left tt;
          tops_below = tops;
          going = going;
        };
        below = λ n e. let same_node : node ≡ n = cc in rw (← same_node) l;
        left = λ n e. rw none_left (
            omega (
              arith,
              bonus-le (cap size width) h (n ∷ []),
              row_suc (length tm.top_targets_left),
              bound,
            ));
      }
  alter-Next base tm (a ∷ alt) node exact tops going none_left l below few bound =
      let s = reverse (w.order (a ∷ alt)) ++ node ∷ [] in
      let h = tm.heap in
      let all_below =
        All-append (λ c. c < size) (reverse (w.order (a ∷ alt))) (node ∷ [])
          (All-reverse (λ c. c < size) (w.order (a ∷ alt))
            (All-order size width w finite (λ c. c < size) (a ∷ alt) below))
          (l, tt) in
      let short : length s ≤ suc width = omega (
        arith,
        length-append (reverse (w.order (a ∷ alt))) (node ∷ []),
        length-reverse (w.order (a ∷ alt)),
        finite.order_few (a ∷ alt),
        few,
      ) in
      pop-Next base tm s exact tops going all_below (
        omega (
          arith,
          short,
          bonus-le (cap size width) h s,
          row_suc (length tm.top_targets_left),
          bound,
        ))

  next_top-Next :
      (tm : Taskmaster) (left : List ℕ)
      → Walks size tm
      → tm.candidates ≡ []
      → tm.top_targets_left ≡ left
      → Next tm (next_top left w tm)
  unfolding next_top
  next_top-Next tm [] walks none_left same_left = record {
    walks = walks;
    below = λ n e. cc;
    left = λ n e. cc;
  }
  next_top-Next tm (node ∷ left) walks none_left same_left =
      let tops : All (λ c. c < size) (node ∷ left) =
        subst (λ l. All (λ c. c < size) l) same_left walks.tops_below in
      alter-Next tm (record tm { top_targets_left = left; current_top = some node })
        (w.alter_targets node) node walks.exact tops.1 walks.going none_left tops.0
        (finite.within.alter_below node) (finite.alter_few node)
        (rw (none_left, same_left) (omega arith))

  next_from-Next :
      (tm : Taskmaster) (s : List ℕ)
      → Walks size tm
      → tm.candidates ≡ s
      → Next tm (next_from s w tm)
  unfolding next_from
  next_from-Next tm [] walks same_stack = next_top-Next tm tm.top_targets_left walks same_stack refl
  next_from-Next tm (c ∷ cs) walks same_stack =
      pop-Next tm tm (c ∷ cs) walks.exact walks.tops_below walks.going
        (subst (λ l. All (λ c. c < size) l) same_stack walks.candidates_below)
        (subst
          (λ l.
            work size (cap size width) tm.heap l + length tm.top_targets_left * suc width
            ≤ total tm)
          same_stack (omega arith))

  find_next_candidate-Next : (tm : Taskmaster) → Walks size tm → Next tm (find_next_candidate w tm)
  unfolding find_next_candidate
  find_next_candidate-Next tm walks = next_from-Next tm tm.candidates walks refl

  abbrev Found : ℕ → Taskmaster → Type 0
  Found fuel tm =
      (found : Option ℕ × Taskmaster) × (find_ready_loop fuel w tm ≡ some found)
      × Walks size found.1

  loop_round :
      (fuel : ℕ) (tm : Taskmaster) (found : Option ℕ × Taskmaster)
      → ((tm'' : Taskmaster) → Walks size tm'' → total tm'' < fuel → Found fuel tm'')
      → find_next_candidate w tm ≡ found
      → Walks size tm
      → Next tm found
      → total tm ≤ fuel
      → Found (suc fuel) tm
  unfolding find_ready_loop next_candidate
  loop_round fuel tm (none, tm') again e walks next enough =
      ((none, tm'), simp (find_ready_loop, walks.going, e) refl, next.walks)
  loop_round fuel tm (some node, tm') again e walks next enough =
      let visited = visit-Walks size width w finite node tm' (next.below node refl) next.walks in
      let tm'' = (visit w node tm').0 in
      elim (Bool-cases (visit w node tm').1) [
        | inl ready ↦
            ((some node, tm''), simp (find_ready_loop, walks.going, e, ready) refl, visited.0)
        | inr blocked ↦
            let (found, result, walks') = again tm'' visited.0 (
              let tops = visit_tops node tm' in
              let fewer = next.left node refl in
              rw tops (omega (arith, visited.1, fewer, enough))) in
            (found, simp (find_ready_loop, walks.going, e, blocked) result, walks')
      ]

  loop_ends : (fuel : ℕ) (tm : Taskmaster) → Walks size tm → total tm < fuel → Found fuel tm
  loop_ends zero tm walks enough = absurd (omega arith)
  loop_ends (suc fuel) tm walks enough =
      loop_round fuel tm (find_next_candidate w tm) (loop_ends fuel) refl walks
        (find_next_candidate-Next tm walks) (omega arith)

  -- With fuel above the measure of the work left, the search for a node that is ready returns,
  -- cyclic graphs included, and the reference counts are exact after it. Before it they are exact,
  -- the nodes are those below `size`, and the taskmaster was not stopped; the lists that the
  -- methods of nodes give have at most `width` entries, all below `size`.
  pub find_next_ready_node_total :
      (fuel : ℕ) (tm : Taskmaster)
      → Walks size tm
      → work size (cap size width) tm.heap tm.candidates + length tm.top_targets_left * suc width
        < fuel
      → (found : Option ℕ × Taskmaster) × (find_next_ready_node fuel w tm ≡ some found)
        × Walks size found.1
  unfolding find_next_ready_node
  find_next_ready_node_total fuel tm walks enough =
      loop_ends fuel (record tm { ready_exc = none })
        (record {
          exact = walks.exact;
          candidates_below = walks.candidates_below;
          tops_below = walks.tops_below;
          going = walks.going;
        })
        enough
