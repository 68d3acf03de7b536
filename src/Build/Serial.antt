-- ===== src/Build/Serial.antt =====
-- Job.py: `Serial.start`, the signal handler of `Jobs`, and how `Jobs` chooses between the two kinds of
-- jobs. A signal may come while a task is in work: `signals` says for each round whether one does.
pub mod Stops
use cross_chain.Prelude.{
  ℕ, zero, suc, ltb, Bool, true, false, ◌||◌, Option, none, some, List, [], ◌∷◌, if◌then◌else◌,
}
use cross_chain.Build.Node.{Heap}
use cross_chain.Build.Executor.{Exception, build_error, Outcome, returned, raised, World}
use cross_chain.Build.Taskmaster.{Taskmaster, stop}
use cross_chain.Build.Taskmaster.Cycles.{cleanup}
use cross_chain.Build.Task.{
  Task, Tasker, next_task, prepare, needs_execute, execute, executed_with_callbacks,
}
use cross_chain.Build.Task.Exceptions.{exception_set}
use cross_chain.Build.Task.Postprocess.{postprocess}

-- The number of jobs that `Jobs(num, taskmaster)` allocates: `Parallel` runs more than one, where the
-- interpreter has threads, and `Serial` one.
unfoldable pub num_jobs : Bool → ℕ → ℕ
num_jobs threads num = if ltb 1 num then (if threads then num else 1) else 1

-- The signal handler, in the process that started the build, and whether the build was interrupted.
unfoldable pub handle_signal : Bool → Bool → Taskmaster → Bool × Taskmaster
handle_signal false interrupted tm = (interrupted, tm)
handle_signal true interrupted tm = (true, stop tm)

-- `task.failed()`: a class of tasks takes `fail_stop` or `fail_continue`.
abbrev pub Failing : Type 0
Failing = ℕ → Task → Taskmaster → Option (Task × Taskmaster)

-- `prepare`, and `execute` if it is needed.
unfoldable pub attempt : World → Task → Heap → Outcome (Unit {0}) × Heap
attempt w task h = elim (prepare w h task) [
  | raised e ↦ (raised e, h)
  | returned _ ↦ if needs_execute h task then execute w task h else (returned tt, h)
]

-- The exception that is recorded: a `BuildError` that says so if the build was interrupted.
abbrev pub recorded : Bool → Exception → Exception
recorded interrupted e = if interrupted then build_error else e

abbrev pub after_failure : Option (Task × Taskmaster) → Option (Bool × Taskmaster)
after_failure none = none
after_failure (some (task, tm)) = some (false, postprocess task tm)

-- One task, and whether it was executed without an exception.
unfoldable pub serial_task :
    Failing → ℕ → Bool → Task → Outcome (Unit {0}) × Heap → Taskmaster → Option (Bool × Taskmaster)
serial_task failing fuel interrupted task (returned _, h) tm =
    some (true, postprocess task (record tm { heap = (executed_with_callbacks task.targets h).1 }))
serial_task failing fuel interrupted task (raised e, h) tm =
    after_failure
      (failing fuel (exception_set none (recorded interrupted e) task) (record tm { heap = h }))

-- The targets of a task, and whether it was executed.
pub record Entry : Type 0 where
  pub targets : List ℕ
  pub ok : Bool

-- The `while` loop of `Serial.start`, with the tasks in the order in which they were in work; `none`
-- means that the fuel ran out.
unfoldable pub serial_loop :
    Failing → Tasker → (ℕ → Bool) → ℕ → World → Bool → Taskmaster → Option (List Entry × Taskmaster)
serial_loop failing tasker signals zero w interrupted tm = none
serial_loop failing tasker signals (suc fuel) w interrupted tm =
    let go_on = serial_loop failing tasker signals fuel w in
    elim (next_task tasker fuel w tm) [
      | none ↦ none
      | some (none, tm') ↦ some ([], tm')
      | some (some task, tm') ↦
          let (interrupted', tm2) = handle_signal (signals fuel) interrupted tm' in
          elim (serial_task failing fuel interrupted' task (attempt w task tm2.heap) tm2) [
            | none ↦ none
            | some (ok, tm3) ↦ elim (go_on interrupted' tm3) [
              | none ↦ none
              | some (entries, tm4) ↦
                  some (record { targets = task.targets; ok = ok } ∷ entries, tm4)
            ]
          ]
    ]

-- `Serial.start`: the loop, then the taskmaster's `cleanup`, which may raise.
unfoldable pub serial_start :
    Failing
    → Tasker
    → (ℕ → Bool)
    → ℕ
    → World
    → Taskmaster
    → Option (Outcome (Unit {0}) × (List Entry × Taskmaster))
serial_start failing tasker signals fuel w tm =
    elim (serial_loop failing tasker signals fuel w false tm) [
      | none ↦ none
      | some (entries, tm') ↦ elim (cleanup fuel tm'.heap tm'.pending_children) [
        | none ↦ none
        | some outcome ↦ some (outcome, (entries, tm'))
      ]
    ]
