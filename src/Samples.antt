-- ===== src/Samples.antt =====
-- Small graphs on which the theorems about SCons apply: a program that depends on one object file.
use cross_chain.Prelude.{
  ℕ, zero, suc, ◌+◌, ◌*◌, ◌≡◌, ◌<◌, ◌≤◌, refl, ap, true, false, Option, none, some, List, [], ◌∷◌,
  arith, All, length,
}
use cross_chain.Prelude.Int.{pos, ◌-ℤ◌}
use cross_chain.Build.Node.{
  State, no_state, pending, executing, Executor, Node, Heap, set_state, add_ref_count,
  add_to_waiting_parents, clear_waiting_parents,
}
use cross_chain.Build.Node.Waits.{count, Counted, targets_of}
use cross_chain.Build.Executor.{
  get_all_children, get_all_prerequisites, get_action_side_effects, get_action_targets, World,
  returned, get_all_targets, prerequisites_of,
}
use cross_chain.Build.Taskmaster.{Taskmaster, init, find_next_candidate}
use cross_chain.Prelude.Sum.{sum}
use cross_chain.Build.Taskmaster.Visit.{
  find_ready_loop, wait_for, sort_child, find_next_ready_node, visit, sort_children,
}
use cross_chain.Build.Taskmaster.WillNotBuild.{Exact}
use cross_chain.Build.Taskmaster.Ready.{IsBuildable, find_next_ready_node-IsBuildable}
use cross_chain.Build.Taskmaster.Counts.{visit-Exact}
use cross_chain.Build.Taskmaster.Measure.{work}
use cross_chain.Build.Taskmaster.Walks.{cap, Finite, Walks}
use cross_chain.Build.Taskmaster.Ends.{find_next_ready_node_total}
use cross_chain.Build.Task.Postprocess.{
  postprocess, gather, bump, bump_all, release_targets, release_side_effects, wake_parents,
  lower_ref_count, clear_targets,
}
use cross_chain.Build.Task.Wakes.{gathered}

-- What the runs below compute with.
unfoldable pub sample_program : Unit {0}
unfolding find_next_ready_node find_ready_loop find_next_candidate visit set_state get_all_children
    get_all_targets get_all_prerequisites sort_children sort_child add_ref_count
    add_to_waiting_parents wait_for get_action_side_effects get_action_targets sum count init
    gathered postprocess gather bump bump_all release_targets release_side_effects wake_parents
    lower_ref_count clear_targets clear_waiting_parents ◌-ℤ◌
sample_program = tt

abbrev executor_of : ℕ → List ℕ → Executor
executor_of t sources = record {
  is_null = false;
  has_actions = true;
  batches = record { targets = t ∷ []; sources = sources } ∷ [];
}

abbrev pub node_in : State → ℕ → List ℕ → Option Executor → Node
node_in s count parents executor = record {
  state = s;
  ref_count = pos count;
  waiting_parents = parents;
  waiting_s_e = [];
  side_effects = [];
  sources = [];
  prerequisites = none;
  executor = executor;
  has_builder = true;
  always_build = false;
  cached = false;
}

-- Nothing was visited: the program is node 0, the object file node 1.
abbrev pub fresh_heap : Heap
fresh_heap zero = node_in no_state 0 [] (some (executor_of 0 (1 ∷ [])))
fresh_heap (suc zero) = node_in no_state 0 [] (some (executor_of 1 []))
fresh_heap (suc (suc n)) = node_in no_state 0 [] none

-- The program waits for the object file, which is being built.
abbrev pub busy_heap : Heap
busy_heap zero = node_in pending 1 [] (some (executor_of 0 (1 ∷ [])))
busy_heap (suc zero) = node_in executing 0 (0 ∷ []) (some (executor_of 1 []))
busy_heap (suc (suc n)) = node_in no_state 0 [] none

abbrev pub sample_children : ℕ → List ℕ
sample_children zero = 1 ∷ []
sample_children (suc n) = []

abbrev pub sample_world : World
sample_world = record {
  children = λ h n. returned (sample_children n);
  make_ready = λ h n. returned tt;
  is_up_to_date = λ h n. returned false;
  missing = λ h n. false;
  prepare = λ h n. returned tt;
  retrieve_from_cache = λ h n. returned false;
  build = λ h n. returned tt;
  alter_targets = λ n. [];
  order = λ l. l;
}

abbrev start : Taskmaster
start = init fresh_heap (0 ∷ [])

abbrev state_of : Option (Option ℕ × Taskmaster) → Taskmaster
state_of none = start
state_of (some (found, tm)) = tm

abbrev found_tm : Taskmaster
found_tm = state_of (find_next_ready_node 20 sample_world start)

found-start : find_next_ready_node 20 sample_world start ≡ some (some 1, found_tm)
unfolding sample_program
found-start = refl

found-exception : found_tm.ready_exc ≡ none
unfolding sample_program
found-exception = refl

find_next_ready_node-IsBuildable_example :
    IsBuildable sample_world found_tm.heap 1 × ((found_tm.heap 1).state ≡ pending)
find_next_ready_node-IsBuildable_example =
    find_next_ready_node-IsBuildable 20 sample_world start found-start found-exception

fresh_heap-Counted : Counted 2 fresh_heap
unfolding sample_program
fresh_heap-Counted zero = refl
fresh_heap-Counted (suc zero) = refl
fresh_heap-Counted (suc (suc n)) = refl

pub fresh_heap-Exact : Exact 2 fresh_heap
unfolding sample_program
fresh_heap-Exact = (
  fresh_heap-Counted,
  record { parents_below = lists; prerequisites_below = needs; targets_below = made },
)
  where
    lists : (n : ℕ) → All (λ p. p < 2) (fresh_heap n).waiting_parents
    lists zero = tt
    lists (suc zero) = tt
    lists (suc (suc n)) = tt

    needs : (n : ℕ) → All (λ p. p < 2) (prerequisites_of (fresh_heap n).prerequisites)
    needs zero = tt
    needs (suc zero) = tt
    needs (suc (suc n)) = tt

    made : (n : ℕ) → All (λ p. p < 2) (targets_of (fresh_heap n).executor)
    made zero = (omega arith, tt)
    made (suc zero) = (omega arith, tt)
    made (suc (suc n)) = tt

busy_heap-Counted : Counted 2 busy_heap
unfolding sample_program
busy_heap-Counted zero = refl
busy_heap-Counted (suc zero) = refl
busy_heap-Counted (suc (suc n)) = ap pos (ground arith)

pub busy_heap-Exact : Exact 2 busy_heap
unfolding sample_program
busy_heap-Exact = (
  busy_heap-Counted,
  record { parents_below = lists; prerequisites_below = needs; targets_below = made },
)
  where
    lists : (n : ℕ) → All (λ p. p < 2) (busy_heap n).waiting_parents
    lists zero = tt
    lists (suc zero) = (omega arith, tt)
    lists (suc (suc n)) = tt

    needs : (n : ℕ) → All (λ p. p < 2) (prerequisites_of (busy_heap n).prerequisites)
    needs zero = tt
    needs (suc zero) = tt
    needs (suc (suc n)) = tt

    made : (n : ℕ) → All (λ p. p < 2) (targets_of (busy_heap n).executor)
    made zero = (omega arith, tt)
    made (suc zero) = (omega arith, tt)
    made (suc (suc n)) = tt

pub sample_world-Finite : Finite 2 1 sample_world
sample_world-Finite = record {
  within = record { children_below = below; order_elem = λ x l m. m; alter_below = λ n. tt };
  children_few = few;
  order_few = λ l. omega arith;
  alter_few = λ n. omega arith;
}
  where
    below :
        (h : Heap) (n : ℕ) (cs : List ℕ)
        → sample_world.children h n ≡ returned cs
        → All (λ c. c < 2) cs
    below h zero cs e = let same_list : 1 ∷ [] ≡ cs = cc in rw (← same_list) (omega arith, tt)
    below h (suc n) cs e = let same_list : [] ≡ cs = cc in rw (← same_list) tt

    few : (h : Heap) (n : ℕ) (cs : List ℕ) → sample_world.children h n ≡ returned cs → length cs ≤ 1
    few h zero cs e = let same_list : 1 ∷ [] ≡ cs = cc in rw (← same_list) (omega arith)
    few h (suc n) cs e = let same_list : [] ≡ cs = cc in rw (← same_list) (omega arith)

start-Walks : Walks 2 start
unfolding sample_program
start-Walks = record {
  exact = fresh_heap-Exact;
  candidates_below = tt;
  tops_below = (omega arith, tt);
  going = refl;
}

start_enough :
    work 2 (cap 2 1) start.heap start.candidates + length start.top_targets_left * suc 1 < 100
unfolding sample_program
start_enough = omega arith

find_next_ready_node_total_example :
    (found : Option ℕ × Taskmaster) × (find_next_ready_node 100 sample_world start ≡ some found)
    × Walks 2 found.1
find_next_ready_node_total_example =
    find_next_ready_node_total 2 1 sample_world sample_world-Finite 100 start start-Walks
      start_enough

abbrev pub busy : Taskmaster
busy = init busy_heap (0 ∷ [])

visit-Exact_example : Exact 2 (visit sample_world 0 busy).0.heap
unfolding init
visit-Exact_example =
    visit-Exact 2 sample_world sample_world-Finite.within 0 busy (omega arith) busy_heap-Exact
