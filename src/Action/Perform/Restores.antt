-- ===== src/Action/Perform/Restores.antt =====
-- Action.py, `_ActionAction.__call__`: the directory after the call.
use cross_chain.Prelude.{
  ◌≡◌, inl, inr, refl, ◌∙◌, Bool, true, false, Option, none, some, if◌then◌else◌, Bool-cases,
}
use cross_chain.Prelude.Int.{pos}
use cross_chain.Build.Errors.{Text}
use cross_chain.Action.Perform.{
  Code, Stat, status, error, exception, building, Arguments, Defaults, Process, Performed,
  argument_or, say, chosen_dir, command_of, show_command, executed_in, show_back, settled, perform,
}

module _ {S : Type 0} (p : Performed S) where
  cwd-show_command : (dir cmd : Option Text) (s : Process S) → (show_command dir cmd s).cwd ≡ s.cwd
  cwd-show_command dir none s = refl
  cwd-show_command dir (some cmd) s = refl

  cwd-show_back :
      (cmd dir : Option Text) (save : Text) (r : Stat × Process S)
      → (show_back cmd dir save r).1.cwd ≡ r.1.cwd
  cwd-show_back (some cmd) (some d) save (status c, s) = refl
  cwd-show_back (some cmd) (some d) save (error b, s) = refl
  cwd-show_back (some cmd) (some d) save (exception e, s) = refl
  cwd-show_back (some cmd) none save r = refl
  cwd-show_back none dir save r = refl

  cwd-executed :
      (f : Code → Code) (d : Text) (s : Process S)
      → ((t : Process S) → p.enter t s.cwd ≡ true)
      → (executed_in p f (some d) s).1.cwd ≡ s.cwd
  unfolding executed_in
  cwd-executed f d s stays = elim (Bool-cases (p.enter s d)) [
    | inl e ↦ rw (e, executed_in, stays (p.run (record s { cwd = d })).1) refl
    | inr e ↦ rw (e, executed_in) refl
  ]

  -- Where a directory is given, and the directory before the call can be entered whatever the action
  -- does, the call leaves the process in that directory, on every branch: also where the action
  -- raises an exception or the directory that is given cannot be entered.
  pub perform-cwd :
      (d : Defaults) (a : Arguments) (s : Process S) (dir : Text)
      → chosen_dir p.target_dir (argument_or a.chdir p.own_chdir) ≡ some dir
      → ((t : Process S) → p.enter t s.cwd ≡ true)
      → (perform p d a s).1.cwd ≡ s.cwd
  unfolding perform settled
  perform-cwd d a s dir given stays =
      let f = argument_or a.exitstatfunc p.own_exitstatfunc in
      let presub = argument_or a.presub (argument_or p.own_presub d.print_actions_presub) in
      let show = argument_or a.show d.print_actions in
      let execute = argument_or a.execute d.execute_actions in
      rw (perform, given) (cwd-settled f presub show execute)
    where
      cwd-building : (presub : Bool) → (if presub then say building s else s).cwd ≡ s.cwd
      cwd-building true = refl
      cwd-building false = refl

      cwd-settled :
          (f : Code → Code) (presub show execute : Bool)
          → (settled p f presub show execute (some dir) s).1.cwd ≡ s.cwd
      cwd-settled f presub show true =
          let s1 = if presub then say building s else s in
          let cmd = command_of show p.strfunction s1 in
          let s2 = show_command (some dir) cmd s1 in
          let same : s2.cwd ≡ s.cwd = cwd-show_command (some dir) cmd s1 ∙ cwd-building presub in
          cwd-show_back cmd (some dir) s.cwd (executed_in p f (some dir) s2)
          ∙ cwd-executed f dir s2 (λ t. rw same (stays t))
          ∙ same
      cwd-settled f presub show false =
          let s1 = if presub then say building s else s in
          let cmd = command_of show p.strfunction s1 in
          cwd-show_back cmd (some dir) s.cwd (status (some (pos 0)), show_command (some dir) cmd s1)
          ∙ cwd-show_command (some dir) cmd s1
          ∙ cwd-building presub

  -- With `execute` false the status is 0, the directory and the rest of the state stay, and neither
  -- how the action is executed nor which directories can be entered makes a difference.
  pub perform-dry :
      (d : Defaults) (a : Arguments) (s : Process S) (run : Process S → Stat × Process S)
      (enter : Process S → Text → Bool)
      → argument_or a.execute d.execute_actions ≡ false
      → ((perform p d a s).0 ≡ status (some (pos 0)))
        × ((perform p d a s).1.cwd ≡ s.cwd)
        × ((perform p d a s).1.rest ≡ s.rest)
        × (perform (record p { run = run; enter = enter }) d a s ≡ perform p d a s)
  unfolding perform settled
  perform-dry d a s run enter off =
      let f = argument_or a.exitstatfunc p.own_exitstatfunc in
      let presub = argument_or a.presub (argument_or p.own_presub d.print_actions_presub) in
      let dir = chosen_dir p.target_dir (argument_or a.chdir p.own_chdir) in
      let (x, y, z) = dry (argument_or a.show d.print_actions) presub dir p.strfunction in
      (rw (perform, off) x, rw (perform, off) y, rw (perform, off) z, rw (perform, off) refl)
    where
      after : Bool → Bool → Option Text → Option (Process S → Option Text) → Stat × Process S
      after show presub dir strfunction =
          let s1 = if presub then say building s else s in
          let cmd = command_of show strfunction s1 in
          show_back cmd dir s.cwd (status (some (pos 0)), show_command dir cmd s1)

      printed :
          (cmd dir : Option Text) (t : Process S)
          → (t.cwd ≡ s.cwd)
          → (t.rest ≡ s.rest)
          → ((show_back cmd dir s.cwd (status (some (pos 0)), show_command dir cmd t)).0
              ≡ status (some (pos 0)))
            × ((show_back cmd dir s.cwd (status (some (pos 0)), show_command dir cmd t)).1.cwd
                ≡ s.cwd)
            × ((show_back cmd dir s.cwd (status (some (pos 0)), show_command dir cmd t)).1.rest
                ≡ s.rest)
      printed none dir t e r = (refl, e, r)
      printed (some cmd) none t e r = (refl, e, r)
      printed (some cmd) (some d) t e r = (refl, e, r)

      dry :
          (show presub : Bool) (dir : Option Text) (strfunction : Option (Process S → Option Text))
          → ((after show presub dir strfunction).0 ≡ status (some (pos 0)))
            × ((after show presub dir strfunction).1.cwd ≡ s.cwd)
            × ((after show presub dir strfunction).1.rest ≡ s.rest)
      dry show true dir strfunction =
          printed (command_of show strfunction (say building s)) dir (say building s) refl refl
      dry show false dir strfunction = printed (command_of show strfunction s) dir s refl refl
