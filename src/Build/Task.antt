-- ===== src/Build/Task.antt =====
-- Taskmaster.py: the class `Task`, by which the taskmaster hands out the targets of one executor.
pub mod Postprocess
pub mod Wakes
pub mod Clears
pub mod Released
pub mod Executed
pub mod Fail
pub mod Exceptions
use cross_chain.Prelude.{
  ℕ, zero, suc, Bool, true, false, not, ◌&&◌, ◌||◌, Option, none, some, List, [], ◌∷◌, ◌++◌,
  if◌then◌else◌, ◌==◌, elem,
}
use cross_chain.Build.Node.{
  no_state, executing, up_to_date, executed, same, Executor, Node, Heap, update, set_state,
}
use cross_chain.Build.Executor.{
  Exception, system_exit, explicit_exit, user_error, build_error, environment_error, index_error,
  Outcome, returned, raised, ◌>>=◌, World, get_all_targets, get_action_targets,
}
use cross_chain.Build.Executor
use cross_chain.Build.Taskmaster.{Taskmaster, will_not_build, mark_failed, stop}
use cross_chain.Build.Taskmaster.Visit.{set_states, find_next_ready_node}

pub record Task : Type 0 where
  pub targets : List ℕ
  pub top : Bool
  pub node : ℕ
  pub out_of_date : List ℕ
  pub exception : Option Exception

-- The states of the targets and of their side effects.
unfoldable pub mark_executing : List ℕ → Heap → Heap
mark_executing [] h = h
mark_executing (t ∷ ts) h =
    mark_executing ts (set_states executing (h t).side_effects (set_state executing t h))

unfoldable pub make_ready_all : World → Task → Heap → Outcome (Unit {0}) × (Task × Heap)
make_ready_all w task h =
    (returned tt, (record task { out_of_date = task.targets }, mark_executing task.targets h))

-- `except EnvironmentError`, around the check of one target.
abbrev as_build_error : Exception → Exception
as_build_error environment_error = build_error
as_build_error e = e

check_target : World → Heap → ℕ → Outcome Bool
check_target w h t = w.make_ready h t >>= λ _.
    if (h t).has_builder
    then if (h t).always_build then returned false else w.is_up_to_date h t
    else returned true

-- The targets that are out of date, up to the one whose check raises an exception.
check_targets : World → Heap → List ℕ → List ℕ → Outcome (Unit {0}) × List ℕ
unfolding check_target
check_targets w h [] stale = (returned tt, stale)
check_targets w h (t ∷ ts) stale = elim (check_target w h t) [
  | raised e ↦ (raised (as_build_error e), stale)
  | returned current ↦ check_targets w h ts (if current then stale else stale ++ t ∷ [])
]

abbrev ready_states : List ℕ → List ℕ → Heap → Heap
ready_states targets [] h = set_states up_to_date targets h
ready_states targets (_ ∷ _) h = mark_executing targets h

abbrev ready_after : Task → Heap → Outcome (Unit {0}) × List ℕ → Outcome (Unit {0}) × (Task × Heap)
ready_after task h (raised e, stale) = (raised e, (record task { out_of_date = stale }, h))
ready_after task h (returned _, stale) =
    (returned tt, (record task { out_of_date = stale }, ready_states task.targets stale h))

unfoldable pub make_ready_current : World → Task → Heap → Outcome (Unit {0}) × (Task × Heap)
unfolding check_targets set_states mark_executing
make_ready_current w task h = ready_after task h (check_targets w h task.targets [])

-- The class that the taskmaster is given, by its method `make_ready`.
abbrev pub Tasker : Type 0
Tasker = World → Task → Heap → Outcome (Unit {0}) × (Task × Heap)

-- `ready_exc` after `make_ready`: a failure there replaces one that the scan recorded.
abbrev ready_exception : Outcome (Unit {0}) → Option Exception → Option Exception
ready_exception (raised e) _ = some e
ready_exception (returned _) recorded = recorded

make_task : Tasker → World → ℕ → Executor → Taskmaster → Option Task × Taskmaster
make_task tasker w node e tm =
    let (outcome, (task, h)) =
      tasker w
        (record {
          targets = get_all_targets e;
          top = elem node tm.original_top;
          node = node;
          out_of_date = [];
          exception = none;
        })
        tm.heap in
    (
      some (record task { exception = ready_exception outcome tm.ready_exc }),
      record tm { heap = h; ready_exc = none },
    )

task_for : Tasker → World → Option ℕ × Taskmaster → Option Task × Taskmaster
unfolding make_task
task_for tasker w (none, tm) = (none, tm)
task_for tasker w (some node, tm) = elim (tm.heap node).executor [
  | none ↦ (none, tm)
  | some e ↦ make_task tasker w node e tm
]

-- The outer `none` means that the fuel ran out.
unfoldable pub next_task : Tasker → ℕ → World → Taskmaster → Option (Option Task × Taskmaster)
unfolding task_for
next_task tasker fuel w tm = elim (find_next_ready_node fuel w tm) [
  | none ↦ none
  | some found ↦ some (task_for tasker w found)
]

prepare_targets : World → Heap → List ℕ → Outcome (Unit {0})
prepare_targets w h [] = returned tt
prepare_targets w h (t ∷ ts) = w.prepare h t >>= λ _. prepare_targets w h ts

with_side_effects : Heap → List ℕ → List ℕ
with_side_effects h [] = []
with_side_effects h (t ∷ ts) = t ∷ (h t).side_effects ++ with_side_effects h ts

prepare_executor : World → Heap → Option Executor → Outcome (Unit {0})
unfolding prepare_targets with_side_effects
prepare_executor w h none = returned tt
prepare_executor w h (some e) =
    Executor.prepare w h e >>= λ _. prepare_targets w h (with_side_effects h (get_action_targets e))

executor_of_first : Heap → List ℕ → Outcome (Option Executor)
executor_of_first h [] = raised index_error
executor_of_first h (t ∷ _) = returned (h t).executor

-- An exception that was recorded while the task was made ready is raised here.
unfoldable pub prepare : World → Heap → Task → Outcome (Unit {0})
unfolding prepare_executor executor_of_first
prepare w h task = elim task.exception [
  | some e ↦ raised e
  | none ↦ executor_of_first h task.targets >>= prepare_executor w h
]

-- `OutOfDateTask.needs_execute`
unfoldable pub needs_execute : Heap → Task → Bool
needs_execute h task = elim task.targets [ [] ↦ false | t ∷ _ ↦ same (h t).state executing ]

-- The loop stops at the first target that is not retrieved, or that raises an exception.
all_cached : World → Heap → List ℕ → Outcome Bool
all_cached w h [] = returned true
all_cached w h (t ∷ ts) =
    let rest = all_cached w h ts in
    elim (w.retrieve_from_cache h t) [
      | raised e ↦ raised e
      | returned b ↦ if b then rest else returned false
    ]

mark_cached : List ℕ → Heap → Heap
mark_cached [] h = h
mark_cached (t ∷ ts) h = mark_cached ts (update h t (record (h t) { cached = true }))

-- The `except` clauses of `execute`, for an exception in the build of the target `t`.
unfoldable pub converted : ℕ → Exception → Exception
converted t (system_exit code) = explicit_exit t code
converted t user_error = user_error
converted t e = build_error

build_first : World → Heap → List ℕ → Outcome (Unit {0})
unfolding converted
build_first w h [] = raised index_error
build_first w h (t ∷ _) = elim (w.build h t) [
  | returned u ↦ returned u
  | raised e ↦ raised (converted t e)
]

abbrev converted_first : List ℕ → Exception → Exception
converted_first [] e = index_error
converted_first (t ∷ _) e = converted t e

-- If each target comes from the cache nothing is built. The unlinking of the targets that did, where
-- one of them did not, is left out: it goes to the file system alone.
unfoldable pub execute : World → Task → Heap → Outcome (Unit {0}) × Heap
unfolding all_cached mark_cached converted build_first
execute w task h = elim (all_cached w h task.targets) [
  | raised e ↦ (raised (converted_first task.targets e), h)
  | returned cached ↦
      if cached
      then (returned tt, mark_cached task.targets h)
      else (build_first w h task.targets, h)
]

-- The calls that `executed_with_callbacks` makes of its targets' methods.
pub data Callback : Type 0 where
  push_to_cache built visited : ℕ → Callback

-- One target of a task that was executed.
unfoldable pub executed_target : ℕ → Heap → Heap
executed_target t h =
    if same (h t).state executing
    then set_state executed t (set_states no_state (h t).side_effects h)
    else h

unfoldable pub executed_without_callbacks : List ℕ → Heap → Heap
unfolding executed_target
executed_without_callbacks [] h = h
executed_without_callbacks (t ∷ ts) h = executed_without_callbacks ts (executed_target t h)

callbacks : ℕ → Node → List Callback
callbacks t n =
    if same n.state executing
    then (if n.cached then [] else push_to_cache t ∷ []) ++ built t ∷ visited t ∷ []
    else visited t ∷ []

unfoldable pub executed_with_callbacks : List ℕ → Heap → List Callback × Heap
unfolding executed_target callbacks
executed_with_callbacks [] h = ([], h)
executed_with_callbacks (t ∷ ts) h =
    let (calls, h') = executed_with_callbacks ts (executed_target t h) in
    (callbacks t (h t) ++ calls, h')

-- `[self.tm.current_top]`: a task exists only after a top-level target was taken.
abbrev pub top_targets : Option ℕ → List ℕ
top_targets none = []
top_targets (some t) = t ∷ []

unfoldable pub fail_continue : ℕ → Task → Taskmaster → Option Taskmaster
fail_continue fuel task tm = will_not_build fuel mark_failed task.targets tm

unfoldable pub fail_stop : ℕ → Task → Taskmaster → Option (Task × Taskmaster)
fail_stop fuel task tm = elim (will_not_build fuel mark_failed task.targets tm) [
  | none ↦ none
  | some tm' ↦ some (record task { targets = top_targets tm'.current_top; top = true }, stop tm')
]
