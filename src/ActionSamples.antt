-- ===== src/ActionSamples.antt =====
-- Small inputs for the theorems about actions.
use cross_chain.Prelude.{
  ℕ, ◌+◌, ◌≡◌, refl, Bool, true, false, Option, none, some, [], ◌∷◌, if◌then◌else◌, ◌==◌,
}
use cross_chain.Build.Executor.{Outcome, returned, user_error}
use cross_chain.Build.Errors.{Text}
use cross_chain.Util.Paths.{split}
use cross_chain.Action.{
  Primitive, command, function, generator, Action, primitive, list, Spec, callable, text, Given,
  one, several, create, action_append, create_text, create_all, wrap, call_action, unless_failed,
}
use cross_chain.Action
use cross_chain.Action.Parts.{normal, call-action_append}
use cross_chain.Action.Perform.{
  directory, exception, Arguments, Defaults, Process, Performed, perform,
}
use cross_chain.Action.Perform.Restores.{perform-cwd}

abbrev no_variable : Text → Option Text
no_variable t = none

-- A command that fails with 3, and a function that gives 0; the state counts the calls.
abbrev runs : Primitive → ℕ → Outcome ℕ × ℕ
runs (command t) n = (returned 3, n + 1)
runs p n = (returned 0, n + 1)

abbrev is_true : ℕ → Bool
is_true n = if n == 0 then false else true

abbrev commands : Given
commands = one (text (97 ∷ 10 ∷ 98 ∷ []))

abbrev functions : Given
functions = several (callable 5 ∷ callable 6 ∷ [])

abbrev made_commands : Action
made_commands = list (
    Action.action (primitive (command (97 ∷ [])))
      (Action.action (primitive (command (98 ∷ []))) Action.no_actions))

abbrev made_functions : Action
made_functions = list (
    Action.action (primitive (function 5))
      (Action.action (primitive (function 6)) Action.no_actions))

commands-made : create no_variable commands none ≡ some (some made_commands)
unfolding create create_text split Action.to_actions
commands-made = refl

functions-made : create no_variable functions none ≡ some (some made_functions)
unfolding create create_all Action.to_actions
functions-made = refl

call-action_append_example :
    (c : Action) × (action_append no_variable functions commands ≡ some (some c))
    × (normal is_true 0 runs (call_action is_true 0 runs c 0)
        ≡ unless_failed is_true 0 runs
            (call_action is_true 0 runs made_functions 0)
            (λ s'. normal is_true 0 runs (call_action is_true 0 runs made_commands s')))
call-action_append_example =
    call-action_append is_true 0 runs refl no_variable functions commands made_functions
      made_commands 0 functions-made commands-made

-- The second command is not reached.
three_calls :
    unless_failed is_true 0 runs
      (call_action is_true 0 runs made_functions 0)
      (λ s'. normal is_true 0 runs (call_action is_true 0 runs made_commands s'))
    ≡ (returned 3, 3)
unfolding call_action
three_calls = refl

-- An action in the directory "b" that changes its directory and raises an exception.
abbrev wandering : Performed ℕ
wandering = record {
  own_presub = none;
  own_chdir = directory (98 ∷ []);
  own_exitstatfunc = λ c. c;
  strfunction = some (λ s. some (99 ∷ []));
  run = λ s. (exception user_error, record s { cwd = 100 ∷ []; rest = 7 });
  target_dir = [];
  enter = λ s t. true;
}

abbrev defaults : Defaults
defaults = record { print_actions_presub = false; print_actions = true; execute_actions = true }

abbrev no_arguments : Arguments
no_arguments = record {
  exitstatfunc = none;
  presub = none;
  show = none;
  execute = none;
  chdir = none;
}

abbrev at_top : Process ℕ
at_top = record { cwd = 97 ∷ []; lines = []; rest = 0 }

perform-cwd_example : (perform wandering defaults no_arguments at_top).1.cwd ≡ 97 ∷ []
perform-cwd_example = perform-cwd wandering defaults no_arguments at_top (98 ∷ []) refl (λ t. refl)
