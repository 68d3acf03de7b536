-- ===== src/Build/Errors.antt =====
-- Errors.py: what a failed build is reported as. Texts are lists of character codes; a message that
-- Python formats is kept as the parts it is made of. `exc_info` is the exception that it stands for.
pub mod Exits
use cross_chain.Prelude.{ℕ, ◌≡◌, Bool, true, false, Option, none, some, List, [], ◌∷◌}
use cross_chain.Prelude.Int.{ℤ, pos, negsuc}

abbrev pub Text : Type 0
Text = List ℕ

-- `errstr`
pub data Message : Type 0 where
  unknown_error : Message
  given : Text → Message
  -- 'Explicit exit, status %s'
  explicit_exit_status : Option ℤ → Message
  -- '%s : %s', of an exception's class and text
  class_and_text : Text → Text → Message
  -- 'Error %s'
  error_status : ℤ → Message

-- The attributes by which a build error says where it occurred: the node, the executor, the action and
-- the command line.
pub record Location : Type 0 where
  pub node : List ℕ
  pub executor : Option ℕ
  pub action : Option ℕ
  pub command : Option Text

abbrev pub nowhere : Location
nowhere = record { node = []; executor = none; action = none; command = none }

-- A recorded exception: a number that stands for the object.
pub record BuildError : Type 0 where
  pub errstr : Message
  pub status : Option ℤ
  pub exitstatus : Option ℤ
  pub filename : Option Text
  pub exc_info : Option ℕ
  pub location : Location

-- `BuildError()`, with the defaults of its parameters.
abbrev pub default_error : BuildError
default_error = record {
  errstr = unknown_error;
  status = some (pos 2);
  exitstatus = some (pos 2);
  filename = none;
  exc_info = none;
  location = nowhere;
}

-- What `convert_to_BuildError` is given. Each exception comes with the number of its object; `stop` is
-- a `StopError` or a `UserError`, `other` any exception of no class before it.
pub data Status : Type 0 where
  build_error : ℕ → BuildError → Status
  explicit_exit : ℕ → Option ℤ → Status
  stop : ℕ → Text → Status
  environment_error : ℕ → Text → Option ℤ → Option Text → Status
  other : ℕ → Text → Text → Status
  text : Text → Status
  code : ℤ → Status

-- `if not exc_info and isinstance(status, Exception)`
abbrev pub exc_info_of : Option ℕ → ℕ → Option ℕ
exc_info_of none e = some e
exc_info_of (some e') e = some e'

unfoldable pub convert_to_build_error : Status → Option ℕ → BuildError
convert_to_build_error (build_error e b) exc = record b { exitstatus = some (pos 2) }
convert_to_build_error (explicit_exit e status) exc = record default_error {
  errstr = explicit_exit_status status;
  status = status;
  exitstatus = status;
  exc_info = exc_info_of exc e;
}
convert_to_build_error (stop e message) exc = record default_error {
  errstr = given message;
  exc_info = exc_info_of exc e;
}
convert_to_build_error (environment_error e strerror errno filename) exc = record default_error {
  errstr = given strerror;
  status = errno;
  filename = filename;
  exc_info = exc_info_of exc e;
}
convert_to_build_error (other e class message) exc = record default_error {
  errstr = class_and_text class message;
  exc_info = exc_info_of exc e;
}
convert_to_build_error (text message) exc = record default_error { errstr = given message }
convert_to_build_error (code status) exc = record default_error {
  errstr = error_status status;
  status = some status;
}

-- `BuildError.__str__`: the file's name, if there is one that is not empty, and the message.
unfoldable pub to_string : BuildError → Option Text × Message
to_string b = elim b.filename [
  | none ↦ (none, b.errstr)
  | some [] ↦ (none, b.errstr)
  | some (c ∷ cs) ↦ (some (c ∷ cs), b.errstr)
]
