-- ===== src/MoreSamples.antt =====
-- Small inputs for the theorems about cycles, parallel jobs, the lists of dependencies and errors.
use cross_chain.Prelude.{
  ℕ, zero, suc, ◌+◌, ◌≡◌, ◌<◌, ◌⊎◌, refl, inl, true, false, none, some, List, [], ◌∷◌, arith, All,
}
use cross_chain.Prelude.Int.{pos}
use cross_chain.Prelude.Sum.{sum}
use cross_chain.Build.Node.{pending, Heap}
use cross_chain.Build.Node.Waits.{count}
use cross_chain.Build.Taskmaster.Cycles.{find_cycle}
use cross_chain.Build.Taskmaster.Cycles.Search.{Searched, find_cycle-Searched}
use cross_chain.Build.Jobs.{
  finish, done, Pool, start, Step, next_none, dispatch, full, leave, go_on, get, no_more,
  take_request, put_result, Reachable, begins, steps,
}
use cross_chain.Build.Jobs.Outstanding.{Sound, Reachable-Sound}
use cross_chain.Build.Jobs.Progress.{Reachable-done, Reachable-progress}
use cross_chain.Build.Deps.{
  dependency, ignore, source, get, calls, new_deps, children_get, not_ignored, all_children,
}
use cross_chain.Build.Deps.{Call}
use cross_chain.Build.Deps.Cache.{Distinct, children_get-calls}
use cross_chain.Build.Actions.{Actions, ActionResult, status, run_actions, do_execute}
use cross_chain.Samples.{node_in}

-- Two nodes that wait for one another.
abbrev cyclic_heap : Heap
cyclic_heap zero = node_in pending 1 (1 ∷ []) none
cyclic_heap (suc zero) = node_in pending 1 (0 ∷ []) none
cyclic_heap (suc (suc n)) = node_in pending 0 [] none

cyclic_below : (n : ℕ) → All (λ p. p < 2) (cyclic_heap n).waiting_parents
cyclic_below zero = (omega arith, tt)
cyclic_below (suc zero) = (omega arith, tt)
cyclic_below (suc (suc n)) = tt

find_cycle-Searched_example :
    Searched cyclic_heap 0 (0 ∷ []) [] (find_cycle 3 cyclic_heap 0 0 [] [])
unfolding sum
find_cycle-Searched_example =
    find_cycle-Searched 2 cyclic_heap cyclic_below 3 0 0 [] [] (omega arith) tt (omega arith)

cycle_found : find_cycle 3 cyclic_heap 0 0 [] [] ≡ some (some (0 ∷ 1 ∷ 0 ∷ []), 1 ∷ 0 ∷ [])
unfolding find_cycle
cycle_found = refl

-- One job, which fails; then nothing is left.
abbrev dispatched : Pool
dispatched = record start { handed = 7 ∷ []; requests = 7 ∷ []; jobs = 1 }

dispatched-Reachable : Reachable 1 dispatched
dispatched-Reachable = steps begins (dispatch start 7 refl (omega arith))

Reachable-Sound_example : Sound 1 dispatched
Reachable-Sound_example = Reachable-Sound 1 (omega arith) dispatched dispatched-Reachable

Reachable-progress_example : (dispatched.phase ≡ done) ⊎ ((s : Pool) × Step 1 dispatched s)
Reachable-progress_example = Reachable-progress 1 (omega arith) dispatched dispatched-Reachable

abbrev finished : Pool
finished = record start { phase = done; handed = 7 ∷ []; failed = 7 ∷ [] }

finished-Reachable : Reachable 1 finished
unfolding finish
finished-Reachable =
    let r1 = steps dispatched-Reachable (full _ refl (omega arith)) in
    let r2 = steps r1 (take_request _ 7 [] refl (omega arith)) in
    let r3 = steps r2 (put_result _ [] [] 7 false refl) in
    let r4 = steps r3 (go_on _ true refl (inl refl)) in
    let r5 = steps r4 (get _ (record { task = 7; ok = false }) [] refl refl) in
    let r6 = steps r5 (no_more _ refl refl) in
    let r7 = steps r6 (next_none _ refl (omega arith)) in steps r7 (leave _ refl refl)

Reachable-done_example :
    (finished.requests ≡ [])
    × (finished.running ≡ [])
    × (finished.results ≡ [])
    × ((x : ℕ) → count x finished.handed ≡ count x finished.executed + count x finished.failed)
Reachable-done_example = Reachable-done 1 (omega arith) finished finished-Reachable refl

abbrev sample_calls : List Call
sample_calls = source (1 ∷ 2 ∷ 1 ∷ []) ∷ get ∷ dependency (3 ∷ []) ∷ ignore (2 ∷ []) ∷ []

children_get-calls_example :
    ((children_get (calls sample_calls new_deps)).0
      ≡ not_ignored
          (calls sample_calls new_deps).ignore.items
          (all_children (calls sample_calls new_deps)))
    × Distinct (calls sample_calls new_deps).sources.items
    × Distinct (calls sample_calls new_deps).depends.items
    × Distinct (calls sample_calls new_deps).ignore.items
children_get-calls_example = children_get-calls sample_calls

-- Two actions, of which the second fails.
abbrev sample_actions : Actions
sample_actions = record {
  pre_actions = 1 ∷ [];
  action_list = some (2 ∷ []);
  post_actions = 3 ∷ [];
  batches = [];
}

abbrev acts : ℕ → ActionResult
acts zero = status (pos 0)
acts (suc zero) = status (pos 0)
acts (suc (suc n)) = status (pos 1)

called_in_order : (do_execute acts 5 sample_actions).1 ≡ 1 ∷ 2 ∷ []
unfolding do_execute run_actions
called_in_order = refl
