-- ===== src/PostSamples.antt =====
-- What happens to the program of Samples.antt when the object file was built, or failed.
use cross_chain.Prelude.{
  ℕ, zero, suc, List, ◌≡◌, ◌<◌, refl, true, false, none, some, [], ◌∷◌, arith, elem, All,
}
use cross_chain.Prelude.Int.{pos}
use cross_chain.Build.Node.{State, Heap}
use cross_chain.Build.Executor.{unique}
use cross_chain.Build.Errors.{Status, explicit_exit, convert_to_build_error}
use cross_chain.Build.Taskmaster.{Taskmaster, init}
use cross_chain.Build.Taskmaster.Counts.{SameWaits-Exact}
use cross_chain.Build.Taskmaster.WillNotBuild.{Exact, Ready}
use cross_chain.Build.Taskmaster.Failure.{WaitsFor, here, up}
use cross_chain.Build.Task.{Task, fail_continue}
use cross_chain.Build.Task.Postprocess.{release_side_effect, free_waiters, postprocess}
use cross_chain.Build.Task.Wakes.{gathered, Idle}
use cross_chain.Build.Task.Released.{postprocess-Exact, postprocess-wakes, postprocess-others}
use cross_chain.Build.Task.Fail.{fail_continue-WaitsFor}
use cross_chain.Main.{Options, Files, Session, Done, with_node, failed}
use cross_chain.Main.Failed.{Handled, failed-Handled}
use cross_chain.Samples.{sample_program, busy_heap, busy_heap-Exact, busy}

-- The task that builds the object file.
abbrev obj_task : Task
obj_task = record { targets = 1 ∷ []; top = false; node = 1; out_of_date = []; exception = none }

obj_task-Idle : Idle busy.heap (unique obj_task.targets)
unfolding sample_program
obj_task-Idle = (tt, tt)

targets_below : All (λ t. t < 2) obj_task.targets
targets_below = (omega arith, tt)

postprocess-Exact_example : Exact 2 (postprocess obj_task busy).heap
unfolding init
postprocess-Exact_example =
    postprocess-Exact 2 obj_task busy obj_task-Idle busy_heap-Exact targets_below

freed : ((postprocess obj_task busy).heap 0).ref_count ≡ pos 0
unfolding sample_program
freed = refl

postprocess-wakes_example : elem 0 (postprocess obj_task busy).candidates ≡ true
unfolding init
postprocess-wakes_example =
    postprocess-wakes 2 obj_task busy obj_task-Idle busy_heap-Exact targets_below 1 0 refl refl
      freed

-- The object file has a side effect, node 2, for which node 3 waits.
abbrev beside : ℕ → List ℕ
beside (suc zero) = 2 ∷ []
beside n = []

abbrev waiting_beside : ℕ → List ℕ
waiting_beside (suc (suc zero)) = 3 ∷ []
waiting_beside n = []

abbrev side_heap : Heap
side_heap n = record (busy_heap n) { side_effects = beside n; waiting_s_e = waiting_beside n }

abbrev side : Taskmaster
side = record busy { heap = side_heap }

side-Exact : Exact 2 side.heap
unfolding init
side-Exact =
    SameWaits-Exact 2
      (record {
        same_parents = λ n. refl;
        same_count = λ n. refl;
        same_prerequisites = λ n. refl;
        same_executor = λ n. refl;
      })
      busy_heap-Exact

side-Idle : Idle side.heap (unique obj_task.targets)
unfolding sample_program
side-Idle = ((refl, tt), tt)

apart : gathered 3 (unique obj_task.targets) side.heap ≡ 0
unfolding sample_program
apart = refl

-- Node 3 is a candidate then.
woken_beside : elem 3 (postprocess obj_task side).candidates ≡ true
unfolding sample_program release_side_effect free_waiters
woken_beside = refl

postprocess-others_example :
    ((postprocess obj_task side).heap 3).ref_count ≡ (side.heap 3).ref_count
postprocess-others_example =
    postprocess-others 2 obj_task side side-Idle side-Exact targets_below 3 apart

busy-Ready : Ready 2 10 obj_task.targets busy
unfolding sample_program
busy-Ready = record { below = targets_below; exact = busy_heap-Exact; enough = omega arith }

program_waits : WaitsFor busy.heap 1 0
unfolding sample_program
program_waits = up refl here

fail_continue-WaitsFor_example :
    (tm' : Taskmaster) × (fail_continue 10 obj_task busy ≡ some tm')
    × Exact 2 tm'.heap
    × ((tm'.heap 0).state ≡ State.failed)
fail_continue-WaitsFor_example =
    fail_continue-WaitsFor 2 10 obj_task busy 1 0 busy-Ready refl program_waits

abbrev new_session : Session
new_session = record {
  exit_status = some (pos 0);
  this_build_status = some (pos 0);
  build_failures = [];
}

abbrev keep_going : Options
keep_going = record { ignore_errors = false; keep_going = true }

abbrev no_files : Files
no_files = record { exists = λ n. false; side_effect = λ n. false; do_not_know = λ n. [] }

-- An action that ends the program with the status 0.
abbrev exits : Status
exits = explicit_exit 7 (some (pos 0))

failed-Handled_example :
    (d : Done) × (failed 10 keep_going exits obj_task busy new_session ≡ some d)
    × Handled 2 keep_going
        (with_node 1 (convert_to_build_error exits none))
        (with_node 1 (convert_to_build_error exits none)).exitstatus
        obj_task
        busy
        new_session
        0
        d
    × (d.task.exception ≡ none)
failed-Handled_example =
    failed-Handled 2 10 keep_going obj_task busy new_session 1 0 exits busy-Ready refl program_waits

-- The object file as a target that was asked for.
abbrev top_task : Task
top_task = record obj_task { top = true }
