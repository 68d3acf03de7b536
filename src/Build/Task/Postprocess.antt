-- ===== src/Build/Task/Postprocess.antt =====
-- Taskmaster.py, `Task.postprocess`: the nodes that waited for the targets go back to the candidates.
use cross_chain.Prelude.{ℕ, ◌+◌, List, [], ◌∷◌, if◌then◌else◌, ◌==◌, discard}
use cross_chain.Prelude.Int.{pos, ◌-ℤ◌, is_zero}
use cross_chain.Build.Node.{
  no_state, executing, same, Heap, update, set_state, clear_waiting_parents,
}
use cross_chain.Build.Executor.{unique}
use cross_chain.Build.Taskmaster.{Taskmaster}
use cross_chain.Build.Task.{Task}

-- The dictionary `parents`: by how much the count of each parent falls.
abbrev pub Parents : Type 0
Parents = List (ℕ × ℕ)

-- `parents[p] = parents.get(p, 0) + 1`
unfoldable pub bump : ℕ → Parents → Parents
bump p [] = (p, 1) ∷ []
bump p ((q, k) ∷ rest) =
    let bumped = bump p rest in if p == q then (q, k + 1) ∷ rest else (q, k) ∷ bumped

unfoldable pub bump_all : List ℕ → Parents → Parents
bump_all [] parents = parents
bump_all (p ∷ ps) parents = bump_all ps (bump p parents)

-- `if t.waiting_parents: pending_children.discard(t)`
abbrev discard_waited : List ℕ → ℕ → List ℕ → List ℕ
discard_waited [] t pc = pc
discard_waited (_ ∷ _) t pc = discard t pc

-- The loop over the targets.
unfoldable pub gather : List ℕ → Heap → List ℕ → Parents → List ℕ × Parents
gather [] h pc parents = (pc, parents)
gather (t ∷ ts) h pc parents =
    let wp = (h t).waiting_parents in gather ts h (discard_waited wp t pc) (bump_all wp parents)

-- The nodes that waited for a side effect, and wait for nothing else.
unfoldable pub free_waiters : Heap → List ℕ → List ℕ → List ℕ
free_waiters h [] candidates = candidates
free_waiters h (p ∷ ps) candidates =
    free_waiters h ps (if is_zero (h p).ref_count then p ∷ candidates else candidates)

pub record Release : Type 0 where
  pub heap : Heap
  pub parents : Parents
  pub candidates : List ℕ

unfoldable pub release_side_effect : ℕ → Release → Release
release_side_effect s r =
    let n = r.heap s in
    let candidates = free_waiters r.heap n.waiting_s_e r.candidates in
    if same n.state executing
    then record {
      heap = set_state no_state s r.heap;
      parents = bump_all n.waiting_parents r.parents;
      candidates = candidates;
    }
    else record r { candidates = candidates }

unfoldable pub release_side_effects : List ℕ → Release → Release
release_side_effects [] r = r
release_side_effects (s ∷ ss) r = release_side_effects ss (release_side_effect s r)

-- The loop over the side effects of the targets.
unfoldable pub release_targets : List ℕ → Release → Release
release_targets [] r = r
release_targets (t ∷ ts) r = release_targets ts (release_side_effects (r.heap t).side_effects r)

unfoldable pub lower_ref_count : ℕ → ℕ → Heap → Heap
lower_ref_count p k h = update h p (record (h p) { ref_count = (h p).ref_count -ℤ pos k })

-- The loop over `parents.items()`.
unfoldable pub wake_parents : Parents → Heap → List ℕ → Heap × List ℕ
wake_parents [] h candidates = (h, candidates)
wake_parents ((p, k) ∷ rest) h candidates =
    let h' = lower_ref_count p k h in
    wake_parents rest h' (if is_zero (h' p).ref_count then p ∷ candidates else candidates)

-- `t.postprocess()` of each target.
unfoldable pub clear_targets : List ℕ → Heap → Heap
clear_targets [] h = h
clear_targets (t ∷ ts) h = clear_targets ts (clear_waiting_parents t h)

unfoldable pub postprocess : Task → Taskmaster → Taskmaster
postprocess task tm =
    let targets = unique task.targets in
    let (pc, parents) = gather targets tm.heap tm.pending_children [] in
    let r =
      release_targets targets
        (record { heap = tm.heap; parents = parents; candidates = tm.candidates }) in
    let (h, candidates) = wake_parents r.parents r.heap r.candidates in
    record tm { heap = clear_targets targets h; candidates = candidates; pending_children = pc }
