-- ===== src/Main.antt =====
-- Script/Main.py: the tasks of a build and of the option -q, and the exit status of the program. What
-- they print is left out.
pub mod Clean
pub mod Failed
use cross_chain.Prelude.{
  ℕ, Bool, true, false, not, ◌&&◌, ◌||◌, Option, none, some, List, [], ◌∷◌, ◌++◌, if◌then◌else◌,
}
use cross_chain.Prelude.Int.{ℤ, pos}
use cross_chain.Build.Node.{up_to_date, same}
use cross_chain.Build.Executor.{Exception, index_error, Outcome, returned, raised}
use cross_chain.Build.Errors.{
  Text, given, BuildError, nowhere, default_error, Status, convert_to_build_error,
}
use cross_chain.Build.Taskmaster.{Taskmaster, stop}
use cross_chain.Build.Task.{Task, Callback, executed_with_callbacks, fail_continue, fail_stop}
use cross_chain.Build.Task.Exceptions.{exception_set, exc_clear}

-- The options that decide what a failure does.
pub record Options : Type 0 where
  pub ignore_errors : Bool
  pub keep_going : Bool

-- What a target answers besides the fields of `Node`: `exists()`, `side_effect`, and the message that
-- says that it cannot be made.
pub record Files : Type 0 where
  pub exists : ℕ → Bool
  pub side_effect : ℕ → Bool
  pub do_not_know : ℕ → Text

-- The global variables; `sys.exit` takes `exit_status`.
pub record Session : Type 0 where
  pub exit_status : Option ℤ
  pub this_build_status : Option ℤ
  pub build_failures : List BuildError

-- What a method of a task leaves, and the calls that it made of its targets.
pub record Done : Type 0 where
  pub calls : List Callback
  pub task : Task
  pub taskmaster : Taskmaster
  pub session : Session

-- `OutOfDateTask.executed`
abbrev pub executed_by_taskmaster : Task → Taskmaster → Session → Done
executed_by_taskmaster task tm session = record {
  calls = (executed_with_callbacks task.targets tm.heap).0;
  task = task;
  taskmaster = record tm { heap = (executed_with_callbacks task.targets tm.heap).1 };
  session = session;
}

abbrev pub set_status : Option ℤ → Session → Session
set_status status session = record session { exit_status = status; this_build_status = status }

abbrev pub after_continue : Task → Session → Option Taskmaster → Option Done
after_continue task session none = none
after_continue task session (some tm) =
    some (record { calls = []; task = task; taskmaster = tm; session = session })

abbrev pub after_stop : Session → Option (Task × Taskmaster) → Option Done
after_stop session none = none
after_stop session (some (task, tm)) =
    some (record { calls = []; task = task; taskmaster = tm; session = session })

-- `error` is `self.exception[1]`; `none` means that the fuel ran out.
unfoldable pub do_failed :
    ℕ → Options → BuildError → Option ℤ → Task → Taskmaster → Session → Option Done
do_failed fuel options error status task tm session =
    let noted = record session { build_failures = session.build_failures ++ error ∷ [] } in
    if options.ignore_errors
    then some (executed_by_taskmaster task tm noted)
    else if options.keep_going
    then after_continue task (set_status status noted) (fail_continue fuel task tm)
    else after_stop (set_status status noted) (fail_stop fuel task tm)

-- `BuildError(t, errstr)`
abbrev pub cannot_make : Files → ℕ → BuildError
cannot_make files t = record default_error {
  errstr = given (files.do_not_know t);
  location = record nowhere { node = t ∷ [] };
}

-- A target on the command line that nothing builds.
abbrev pub is_source : Files → Task → Taskmaster → ℕ → Bool
is_source files task tm t = task.top && not (tm.heap t).has_builder && not (files.side_effect t)

abbrev pub returned_done : Option Done → Option (Outcome (Unit {0}) × Done)
returned_done none = none
returned_done (some d) = some (returned tt, d)

unfoldable pub executed :
    ℕ → Options → Files → Task → Taskmaster → Session → Option (Outcome (Unit {0}) × Done)
unfolding do_failed
executed fuel options files task tm session = elim task.targets [
  | [] ↦
      some
        (raised index_error, record { calls = []; task = task; taskmaster = tm; session = session })
  | t ∷ _ ↦ returned_done (
      if is_source files task tm t
      then if not (files.exists t)
        then do_failed fuel options (cannot_make files t) (some (pos 2))
            (exception_set none Exception.build_error task) tm session
        else some (executed_by_taskmaster task tm session)
      else some (executed_by_taskmaster task tm session))
]

-- `if not buildError.node`
abbrev pub with_node : ℕ → BuildError → BuildError
with_node node b = elim b.location.node [
  | [] ↦ record b { location = record b.location { node = node ∷ [] } }
  | _ ∷ _ ↦ b
]

abbrev pub cleared : Option Done → Option Done
cleared none = none
cleared (some d) = some (record d { task = exc_clear d.task })

-- `e` is the exception that the task recorded, or else the one that is being handled.
unfoldable pub failed : ℕ → Options → Status → Task → Taskmaster → Session → Option Done
unfolding do_failed
failed fuel options e task tm session =
    let error = with_node task.node (convert_to_build_error e none) in
    cleared (
      do_failed fuel options error error.exitstatus
        (record task { exception = some Exception.build_error }) tm session)

-- `QuestionTask.execute`: whether a target is up to date.
unfoldable pub question :
    Files → Task → Taskmaster → Session → Outcome (Unit {0}) × (Taskmaster × Session)
question files task tm session = elim task.targets [
  | [] ↦ (raised index_error, (tm, session))
  | t ∷ _ ↦
      if not (same (tm.heap t).state up_to_date) || (task.top && not (files.exists t))
      then (returned tt, (stop tm, set_status (some (pos 1)) session))
      else (returned tt, (tm, session))
]
