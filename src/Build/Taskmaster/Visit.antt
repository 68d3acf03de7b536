-- ===== src/Build/Taskmaster/Visit.antt =====
-- Taskmaster.py, `_find_next_ready_node`: the walk that looks for a node to build.
use cross_chain.Prelude.{
  ℕ, zero, suc, Bool, true, false, not, Option, none, some, List, [], ◌∷◌, ◌++◌, reverse,
  if◌then◌else◌, insert, union,
}
use cross_chain.Prelude.Int.{pos}
use cross_chain.Build.Node.{
  State, no_state, pending, executing, failed, same, Executor, Heap, set_state, add_to_waiting_s_e,
  add_to_waiting_parents, add_ref_count,
}
use cross_chain.Build.Executor.{
  Exception, system_exit, explicit_exit, attribute_error, returned, raised, World,
  get_action_targets, get_all_children, get_all_prerequisites, get_action_side_effects,
}
use cross_chain.Build.Taskmaster.{Taskmaster, find_next_candidate, no_next_candidate}

-- What the loop over the children gathers.
pub record Children : Type 0 where
  pub not_visited : List ℕ
  pub waiting : List ℕ
  pub not_ready : List ℕ
  pub has_failed : Bool

abbrev pub no_children : Children
no_children = record { not_visited = []; waiting = []; not_ready = []; has_failed = false }

unfoldable pub sort_child : State → ℕ → Children → Children
sort_child no_state c k = record k {
  not_visited = k.not_visited ++ c ∷ [];
  not_ready = k.not_ready ++ c ∷ [];
}
sort_child pending c k = record k {
  waiting = insert c k.waiting;
  not_ready = k.not_ready ++ c ∷ [];
}
sort_child executing c k = record k { not_ready = k.not_ready ++ c ∷ [] }
sort_child failed c k = record k { has_failed = true }
sort_child _ c k = k

unfoldable pub sort_children : Heap → List ℕ → Children → Children
sort_children h [] k = k
sort_children h (c ∷ cs) k = sort_children h cs (sort_child (h c).state c k)

-- Puts `node` on the waiting lists of its unfinished children, and counts them.
unfoldable pub wait_for : ℕ → List ℕ → Heap → Heap
wait_for node [] h = h
wait_for node (c ∷ cs) h =
    let (added, h') = add_to_waiting_parents c node h in
    wait_for node cs (add_ref_count (pos added) node h')

unfoldable pub wait_for_side_effects : ℕ → List ℕ → Heap → Bool × Heap
wait_for_side_effects node [] h = (false, h)
wait_for_side_effects node (s ∷ ss) h =
    let busy = same (h s).state executing in
    let (more, h') =
      wait_for_side_effects node ss (if busy then add_to_waiting_s_e s node h else h) in
    (if busy then true else more, h')

unfoldable pub set_states : State → List ℕ → Heap → Heap
set_states s [] h = h
set_states s (n ∷ ns) h = set_states s ns (set_state s n h)

abbrev pub caught : ℕ → Exception → Exception
caught node (system_exit code) = explicit_exit node code
caught node e = e

-- The part of the loop's body behind the loop over the children: the new state, and whether `node` is
-- returned (`false` for `continue`).
unfoldable pub judge : World → Executor → Children → ℕ → Taskmaster → Taskmaster × Bool
unfolding set_states wait_for wait_for_side_effects
judge w e k node tm =
    let tm' = record tm {
      candidates = reverse (w.order (reverse k.not_visited)) ++ tm.candidates;
    } in
    if k.has_failed
    then (record tm' { heap = set_states failed (get_action_targets e) tm.heap }, false)
    else (elim k.not_ready [
      | c ∷ cs ↦ (
        record tm' {
          heap = wait_for node (c ∷ cs) tm.heap;
          pending_children = union tm.pending_children k.waiting;
        },
        false,
      )
      | [] ↦
          let (waits, h) = wait_for_side_effects node (get_action_side_effects tm.heap e) tm.heap in
          (record tm' { heap = h }, not waits)
    ])

abbrev pub all_children_of : Heap → Executor → List ℕ → List ℕ
all_children_of h e children = get_all_prerequisites h e ++ children

unfoldable pub scan : World → ℕ → Taskmaster → Taskmaster × Bool
unfolding judge sort_children
scan w node tm = elim (tm.heap node).executor [
  | none ↦ (record tm { ready_exc = some attribute_error }, true)
  | some e ↦ elim (get_all_children w tm.heap e) [
    | raised x ↦ (record tm { ready_exc = some (caught node x) }, true)
    | returned children ↦
        judge w e (sort_children tm.heap (all_children_of tm.heap e children) no_children) node tm
  ]
]

unfoldable pub visit_in : State → World → ℕ → Taskmaster → Taskmaster × Bool
unfolding scan
visit_in no_state w node tm = scan w node (record tm { heap = set_state pending node tm.heap })
visit_in pending w node tm = scan w node tm
visit_in _ w node tm = (tm, false)

-- The loop's body for the candidate `node`.
unfoldable pub visit : World → ℕ → Taskmaster → Taskmaster × Bool
unfolding visit_in
visit w node tm = visit_in (tm.heap node).state w node tm

-- `self.next_candidate()`; the outer `none` means that the fuel ran out.
unfoldable pub next_candidate : ℕ → World → Taskmaster → Option (Option ℕ × Taskmaster)
next_candidate fuel w tm =
    if tm.stopped
    then (elim (no_next_candidate fuel tm) [ none ↦ none | some tm' ↦ some (none, tm') ])
    else some (find_next_candidate w tm)

-- The `while True` loop. The state that it returns holds the node to build, if there is one.
unfoldable pub find_ready_loop : ℕ → World → Taskmaster → Option (Option ℕ × Taskmaster)
unfolding next_candidate
find_ready_loop zero w tm = none
find_ready_loop (suc fuel) w tm = elim (next_candidate fuel w tm) [
  | none ↦ none
  | some (none, tm') ↦ some (none, tm')
  | some (some node, tm') ↦
      let (tm'', ready) = visit w node tm' in
      let rest = find_ready_loop fuel w tm'' in if ready then some (some node, tm'') else rest
]

unfoldable pub find_next_ready_node : ℕ → World → Taskmaster → Option (Option ℕ × Taskmaster)
find_next_ready_node fuel w tm = find_ready_loop fuel w (record tm { ready_exc = none })
