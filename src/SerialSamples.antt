-- ===== src/SerialSamples.antt =====
-- A serial build of the object file, which a signal or a failure ends.
use cross_chain.Prelude.{ℕ, ◌≡◌, refl, true, false, Option, none, some, List, [], ◌∷◌, arith}
use cross_chain.Prelude.Int.{◌+ℤ◌}
use cross_chain.Build.Node.{
  Heap, set_state, pending, executing, executed, failed, clear_waiting_parents,
}
use cross_chain.Build.Node.Waits.{SameWaits, SameWaits-trans, set_state-SameWaits}
use cross_chain.Build.Taskmaster.Counts.{SameWaits-Exact}
use cross_chain.Build.Executor.{
  World, environment_error, build_error, Outcome, returned, raised, get_all_targets,
  get_all_sources, prerequisites_of,
}
use cross_chain.Build.Executor
use cross_chain.Build.Taskmaster.{
  Taskmaster, init, stop, will_not_build, will_not_build_loop, release_parents,
}
use cross_chain.Build.Taskmaster.Visit.{set_states}
use cross_chain.Build.Taskmaster.WillNotBuild.{Exact, Ready}
use cross_chain.Build.Task.{
  Task, mark_executing, make_ready_all, next_task, prepare, needs_execute, execute, executed_target,
  executed_with_callbacks, fail_stop,
}
use cross_chain.Build.Task.Exceptions.{exception_set}
use cross_chain.Build.Task.Postprocess.{postprocess}
use cross_chain.Build.Serial.{
  Entry, attempt, recorded, serial_loop, serial_task, serial_start, handle_signal,
}
use cross_chain.Build.Taskmaster.Cycles.{cleanup}
use cross_chain.Build.Serial.Stops.{serial_loop-signal, serial_loop-fail_stop}
use cross_chain.Samples.{sample_program, sample_world, fresh_heap, fresh_heap-Exact}

abbrev lone : Taskmaster
lone = init fresh_heap (1 ∷ [])

abbrev handed_task : Option (Option Task × Taskmaster) → Task
handed_task (some (some task, tm)) = task
handed_task _ = record { targets = []; top = false; node = 0; out_of_date = []; exception = none }

abbrev handed_tm : Option (Option Task × Taskmaster) → Taskmaster
handed_tm (some (found, tm)) = tm
handed_tm none = lone

abbrev lone_handed : Option (Option Task × Taskmaster)
lone_handed = next_task make_ready_all 12 sample_world lone

abbrev lone_task : Task
lone_task = handed_task lone_handed

abbrev lone_tm : Taskmaster
lone_tm = handed_tm lone_handed

serial_program : Unit {0}
unfolding sample_program next_task make_ready_all mark_executing set_states attempt prepare
    needs_execute execute executed_target executed_with_callbacks get_all_sources Executor.prepare
serial_program = tt

lone-handed : next_task make_ready_all 12 sample_world lone ≡ some (some lone_task, lone_tm)
unfolding serial_program
lone-handed = refl

lone-worked : attempt sample_world lone_task lone_tm.heap ≡ (returned tt, lone_tm.heap)
unfolding serial_program
lone-worked = refl

abbrev lone_after : Taskmaster
lone_after =
    postprocess lone_task
      (record lone_tm { heap = (executed_with_callbacks lone_task.targets lone_tm.heap).1 })

clear-SameWaits :
    (n : ℕ) (h : Heap) → (h n).waiting_parents ≡ [] → SameWaits h (clear_waiting_parents n h)
unfolding clear_waiting_parents
clear-SameWaits n h e = record {
  same_parents = λ m. ground arith;
  same_count = λ m. ground arith;
  same_prerequisites = λ m. ground arith;
  same_executor = λ m. ground arith;
}

lone-SameWaits : SameWaits fresh_heap lone_after.heap
unfolding serial_program
lone-SameWaits =
    let h1 = set_state pending 1 fresh_heap in
    let h2 = set_state executing 1 h1 in
    let h3 = set_state executed 1 h2 in
    SameWaits-trans (set_state-SameWaits pending 1 fresh_heap) (
      SameWaits-trans (set_state-SameWaits executing 1 h1)
        (SameWaits-trans (set_state-SameWaits executed 1 h2) (clear-SameWaits 1 h3 refl)))

lone-Ready : Ready 2 10 lone_after.candidates lone_after
unfolding serial_program
lone-Ready = record {
  below = tt;
  exact = SameWaits-Exact 2 lone-SameWaits fresh_heap-Exact;
  enough = omega arith;
}

serial_loop-signal_example :
    (tm'' : Taskmaster) × (serial_loop fail_stop make_ready_all
        (λ n. true)
        13
        sample_world
        false
        lone
      ≡ some (record { targets = lone_task.targets; ok = true } ∷ [], tm''))
    × Exact 2 tm''.heap
    × (tm''.candidates ≡ [])
serial_loop-signal_example =
    serial_loop-signal 2 10 fail_stop make_ready_all (λ n. true) sample_world false lone lone_tm
      lone_task lone_tm.heap lone-handed refl lone-worked lone-Ready

-- The compiler fails.
abbrev broken_world : World
broken_world = record sample_world { build = λ h n. raised environment_error }

abbrev broken_task : Task
broken_task = handed_task (next_task make_ready_all 12 broken_world lone)

abbrev broken_tm : Taskmaster
broken_tm = handed_tm (next_task make_ready_all 12 broken_world lone)

broken-handed : next_task make_ready_all 12 broken_world lone ≡ some (some broken_task, broken_tm)
unfolding serial_program
broken-handed = refl

broken-attempt :
    attempt broken_world broken_task broken_tm.heap ≡ (raised build_error, broken_tm.heap)
unfolding serial_program
broken-attempt = refl

abbrev failed_pair : Option (Task × Taskmaster) → Task × Taskmaster
failed_pair none = (broken_task, broken_tm)
failed_pair (some p) = p

abbrev failed_result : Task × Taskmaster
failed_result = failed_pair (
    fail_stop 12 (exception_set none (recorded false build_error) broken_task)
      (record broken_tm { heap = broken_tm.heap }))

broken-failed :
    fail_stop 12
      (exception_set none (recorded false build_error) broken_task)
      (record broken_tm { heap = broken_tm.heap })
    ≡ some (failed_result.0, failed_result.1)
unfolding serial_program fail_stop will_not_build will_not_build_loop exception_set stop
    release_parents
broken-failed = refl

abbrev failed_after : Taskmaster
failed_after = postprocess failed_result.0 failed_result.1

failed-SameWaits : SameWaits fresh_heap failed_after.heap
unfolding serial_program fail_stop will_not_build will_not_build_loop exception_set stop
    release_parents
failed-SameWaits =
    let h1 = set_state pending 1 fresh_heap in
    let h2 = set_state executing 1 h1 in
    let h3 = set_state failed 1 h2 in
    let h4 = clear_waiting_parents 1 h3 in
    SameWaits-trans (set_state-SameWaits pending 1 fresh_heap) (
      SameWaits-trans (set_state-SameWaits executing 1 h1) (
        SameWaits-trans (set_state-SameWaits failed 1 h2)
          (SameWaits-trans (clear-SameWaits 1 h3 refl) (clear-SameWaits 1 h4 refl))))

failed-Ready : Ready 2 10 failed_after.candidates failed_after
unfolding serial_program fail_stop will_not_build will_not_build_loop exception_set stop
    release_parents
failed-Ready = record {
  below = tt;
  exact = SameWaits-Exact 2 failed-SameWaits fresh_heap-Exact;
  enough = omega arith;
}

serial_loop-fail_stop_example :
    (tm3 : Taskmaster) × (serial_loop fail_stop make_ready_all
        (λ n. false)
        13
        broken_world
        false
        lone
      ≡ some (record { targets = broken_task.targets; ok = false } ∷ [], tm3))
    × Exact 2 tm3.heap
    × (tm3.candidates ≡ [])
serial_loop-fail_stop_example =
    serial_loop-fail_stop 2 10 make_ready_all (λ n. false) broken_world false lone broken_tm
      failed_result.1 broken_task failed_result.0 build_error broken_tm.heap broken-handed refl
      broken-attempt broken-failed failed-Ready

abbrev entries_of : Option (Outcome (Unit {0}) × (List Entry × Taskmaster)) → Option (List Entry)
entries_of none = none
entries_of (some (outcome, (entries, tm))) = some entries

-- A whole build: the object file, then the program that waits for it.
whole_build :
    entries_of (
      serial_start fail_stop make_ready_all (λ n. false) 30 sample_world (init fresh_heap (0 ∷ [])))
    ≡ some (record { targets = 1 ∷ []; ok = true } ∷ record { targets = 0 ∷ []; ok = true } ∷ [])
unfolding serial_program serial_start serial_loop serial_task handle_signal cleanup ◌+ℤ◌
whole_build = refl
