-- ===== src/Action/Perform.antt =====
-- Action.py, `_ActionAction.__call__`: what is printed, the directory in which an action is executed,
-- and the status that comes of it.
pub mod Restores
use cross_chain.Prelude.{Bool, true, false, Option, none, some, List, [], ◌∷◌, ◌++◌, if◌then◌else◌}
use cross_chain.Prelude.Int.{ℤ, pos, is_zero}
use cross_chain.Build.Executor.{Exception, environment_error}
use cross_chain.Build.Errors.{Text, BuildError}

-- `chdir`: nothing, a directory or its name, or a value such as 1, for the directory of the first
-- target.
pub data Chdir : Type 0 where
  stay : Chdir
  directory : Text → Chdir
  of_target : Chdir

-- A status; `none` is `None`.
abbrev pub Code : Type 0
Code = Option ℤ

abbrev pub truthy : Code → Bool
truthy none = false
truthy (some z) = if is_zero z then false else true

-- What comes of an action: a status, an error that is returned, or an exception.
pub data Stat : Type 0 where
  status : Code → Stat
  error : BuildError → Stat
  exception : Exception → Stat

-- What is printed: the lines of `presub`, a command with the directory it is executed in, and the
-- directory that is gone back to.
pub data Printed : Type 0 where
  building : Printed
  shown : Option Text → Text → Printed
  back : Text → Printed

-- The keyword arguments of the call; `none` is `_null`.
pub record Arguments : Type 0 where
  pub exitstatfunc : Option (Code → Code)
  pub presub : Option Bool
  pub show : Option Bool
  pub execute : Option Bool
  pub chdir : Option Chdir

-- The global variables that stand in for arguments.
pub record Defaults : Type 0 where
  pub print_actions_presub : Bool
  pub print_actions : Bool
  pub execute_actions : Bool

pub record Process (S : Type 0) : Type 0 where
  pub cwd : Text
  pub lines : List Printed
  pub rest : S

-- An action: its attributes, its methods `strfunction` and `execute`, and the directory of its first
-- target. `enter` says whether `os.chdir` succeeds.
pub record Performed (S : Type 0) : Type 0 where
  pub own_presub : Option Bool
  pub own_chdir : Chdir
  pub own_exitstatfunc : Code → Code
  pub strfunction : Option (Process S → Option Text)
  pub run : Process S → Stat × Process S
  pub target_dir : Text
  pub enter : Process S → Text → Bool

abbrev pub argument_or {ℓ} : {A : Type ℓ} → Option A → A → A
argument_or none a = a
argument_or (some b) a = b

-- `if chdir`: an empty name counts as nothing.
abbrev pub chosen_dir : Text → Chdir → Option Text
chosen_dir target_dir stay = none
chosen_dir target_dir (directory []) = none
chosen_dir target_dir (directory (c ∷ d)) = some (c ∷ d)
chosen_dir target_dir of_target = some target_dir

-- `if cmd`
abbrev pub nonempty : Option Text → Option Text
nonempty none = none
nonempty (some []) = none
nonempty (some (c ∷ cs)) = some (c ∷ cs)

abbrev pub converted_stat : (Code → Code) → Stat → Stat
converted_stat f (status c) = status (f c)
converted_stat f (error b) =
    if truthy (f b.status) then error (record b { status = f b.status }) else status (f b.status)
converted_stat f (exception e) = exception e

module _ {S : Type 0} where
  abbrev pub say : Printed → Process S → Process S
  say l s = record s { lines = s.lines ++ l ∷ [] }

  abbrev pub command_of : Bool → Option (Process S → Option Text) → Process S → Option Text
  command_of false strfunction s = none
  command_of true none s = none
  command_of true (some f) s = nonempty (f s)

  abbrev pub show_command : Option Text → Option Text → Process S → Process S
  show_command dir none s = s
  show_command dir (some cmd) s = say (shown dir cmd) s

  -- `finally: os.chdir(save_cwd)`
  abbrev pub go_back : Performed S → Text → Stat × Process S → Stat × Process S
  go_back p save (stat, s) =
      if p.enter s save then (stat, record s { cwd = save }) else (exception environment_error, s)

  abbrev pub convert_stat : (Code → Code) → Stat × Process S → Stat × Process S
  convert_stat f (stat, s) = (converted_stat f stat, s)

  unfoldable pub executed_in :
      Performed S → (Code → Code) → Option Text → Process S → Stat × Process S
  executed_in p f none s = convert_stat f (p.run s)
  executed_in p f (some d) s =
      if p.enter s d
      then go_back p s.cwd (convert_stat f (p.run (record s { cwd = d })))
      else (exception environment_error, s)

  -- `if cmd and save_cwd`, where no exception was raised.
  abbrev pub show_back : Option Text → Option Text → Text → Stat × Process S → Stat × Process S
  show_back (some cmd) (some d) save (status c, s) = (status c, say (back save) s)
  show_back (some cmd) (some d) save (error b, s) = (error b, say (back save) s)
  show_back (some cmd) (some d) save (exception e, s) = (exception e, s)
  show_back (some cmd) none save result = result
  show_back none dir save result = result

  -- The call, after its keyword arguments were settled.
  unfoldable pub settled :
      Performed S → (Code → Code) → Bool → Bool → Bool → Option Text → Process S → Stat × Process S
  unfolding executed_in
  settled p f presub show execute dir s =
      let s1 = if presub then say building s else s in
      let cmd = command_of show p.strfunction s1 in
      let s2 = show_command dir cmd s1 in
      show_back cmd dir s.cwd
        (if execute then executed_in p f dir s2 else (status (some (pos 0)), s2))

  -- `__call__`
  unfoldable pub perform : Performed S → Defaults → Arguments → Process S → Stat × Process S
  unfolding settled
  perform p d a s =
      settled p (argument_or a.exitstatfunc p.own_exitstatfunc)
        (argument_or a.presub (argument_or p.own_presub d.print_actions_presub))
        (argument_or a.show d.print_actions) (argument_or a.execute d.execute_actions)
        (chosen_dir p.target_dir (argument_or a.chdir p.own_chdir)) s
