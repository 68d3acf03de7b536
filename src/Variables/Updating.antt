-- ===== src/Variables/Updating.antt =====
-- Variables/__init__.py, `Variables._do_add` and `Variables.Update`: how the variables of a build come into
-- an environment. Keys and arguments are numbers that stand for names. The files are programs that change
-- the values; `subst` of the environment is a parameter.
pub mod Given
pub mod Sources
use cross_chain.Prelude.{
  ℕ, Bool, true, false, ◌&&◌, ◌||◌, Option, none, some, List, [], ◌∷◌, ◌++◌, elem, if◌then◌else◌,
  ◌==◌,
}
use cross_chain.Prelude.Dict.{Dict, lookup, insert, erase}

-- What a converter does: a value, a TypeError or a ValueError.
pub data Conversion (V : Type 0) : Type 0 where
  converted : V → Conversion V
  wrong_type : Conversion V
  wrong_value : Conversion V

-- A converter is called with the value, and after a TypeError with the environment too.
pub record Converter (V : Type 0) : Type 0 where
  pub plain : V → Conversion V
  pub with_env : V → Dict V → Conversion V

-- A validator returns (true) or raises an exception.
pub record Variable (V : Type 0) : Type 0 where
  pub key : ℕ
  pub aliases : List ℕ
  pub default : Option V
  pub converter : Option (Converter V)
  pub validator : Option (ℕ → V → Dict V → Bool)

-- A configuration file; `exec` of it gives the values or raises an exception.
pub record ConfigFile (V : Type 0) : Type 0 where
  pub exists : Bool
  pub file_name : V
  pub exec : Dict V → Option (Dict V)

-- `Variables.options` and `Variables.unknown`.
pub record Variables (V : Type 0) : Type 0 where
  pub options : List (Variable V)
  pub unknown : Dict V

-- How an update ends: as it should, with an exception of a file, with the UserError or the TypeError of a
-- converter, or with the exception of a validator.
pub data Ended : Type 0 where
  done : Ended
  file_error : Ended
  user_error : ℕ → Ended
  type_error : Ended
  not_valid : ℕ → Ended

module _ {V : Type 0} where
  -- `alias in list(option.aliases) + [ option.key ]`
  abbrev pub is_named : ℕ → Variable V → Bool
  is_named arg v = elem arg v.aliases || arg == v.key

  abbrev pub erase_all : List ℕ → Dict V → Dict V
  erase_all [] d = d
  erase_all (a ∷ names) d = erase_all names (erase a d)

  -- The key is the first of the names that are given; a single one is its own alias.
  unfoldable pub do_add : Variable V → Variables V → Variables V
  unfolding erase
  do_add v vs = record {
    options = vs.options ++ v ∷ [];
    unknown = erase_all (v.aliases ++ v.key ∷ []) vs.unknown;
  }

  abbrev pub insert_default : ℕ → Option V → Dict V → Dict V
  insert_default k none values = values
  insert_default k (some v) values = insert k v values

  abbrev pub set_defaults : List (Variable V) → Dict V → Dict V
  set_defaults [] values = values
  set_defaults (v ∷ vs) values = set_defaults vs (insert_default v.key v.default values)

  abbrev pub without_name : ℕ → Option (Dict V) → Option (Dict V)
  without_name name_key none = none
  without_name name_key (some values) = some (erase name_key values)

  -- `name_key` stands for '__name__'.
  abbrev pub read_file : ℕ → ConfigFile V → Dict V → Option (Dict V)
  read_file name_key f values =
      if f.exists
      then without_name name_key (f.exec (insert name_key f.file_name values))
      else some values

  abbrev pub then_files : (Dict V → Option (Dict V)) → Option (Dict V) → Option (Dict V)
  then_files rest none = none
  then_files rest (some values) = rest values

  abbrev pub read_files : ℕ → List (ConfigFile V) → Dict V → Option (Dict V)
  read_files name_key [] values = some values
  read_files name_key (f ∷ fs) values =
      then_files (read_files name_key fs) (read_file name_key f values)

  -- The inner loop: the values, and `added`.
  abbrev pub set_if : Bool → ℕ → V → Dict V × Bool → Dict V × Bool
  set_if true k value (values, added) = (insert k value values, true)
  set_if false k value x = x

  abbrev pub set_named : ℕ → V → List (Variable V) → Dict V × Bool → Dict V × Bool
  set_named arg value [] x = x
  set_named arg value (v ∷ vs) x = set_named arg value vs (set_if (is_named arg v) v.key value x)

  abbrev pub note_unknown : ℕ → V → Dict V × Bool → Dict V → Dict V × Dict V
  note_unknown arg value x unknown = (x.0, (if x.1 then unknown else insert arg value unknown))

  abbrev pub set_args : List (Variable V) → Dict V → Dict V × Dict V → Dict V × Dict V
  set_args vs [] x = x
  set_args vs ((arg, value) ∷ args) x =
      set_args vs args (note_unknown arg value (set_named arg value vs (x.0, false)) x.1)

  abbrev pub put_value : ℕ → Option V → Dict V → Dict V
  put_value k none env = env
  put_value k (some v) env = insert k v env

  abbrev pub put_all : List (Variable V) → Dict V → Dict V → Dict V
  put_all [] values env = env
  put_all (v ∷ vs) values env = put_all vs values (put_value v.key (lookup v.key values) env)

  module _ (subst : Dict V → ℕ → V) where
    abbrev pub second_try : Converter V → V → Dict V → Conversion V → Conversion V
    second_try c value env wrong_type = c.with_env value env
    second_try c value env result = result

    abbrev pub store : ℕ → Dict V → Conversion V → Ended × Dict V
    store k env (converted v) = (done, insert k v env)
    store k env wrong_type = (type_error, env)
    store k env wrong_value = (user_error k, env)

    abbrev pub convert_one : ℕ → Option (Converter V) → Option V → Dict V → Ended × Dict V
    convert_one k (some c) (some v) env =
        let value = subst env k in store k env (second_try c value env (c.plain value))
    convert_one k _ _ env = (done, env)

    abbrev pub then_update : (Dict V → Ended × Dict V) → Ended × Dict V → Ended × Dict V
    then_update next (done, env) = next env
    then_update next (stopped, env) = (stopped, env)

    abbrev pub convert_all : List (Variable V) → Dict V → Dict V → Ended × Dict V
    convert_all [] values env = (done, env)
    convert_all (v ∷ vs) values env =
        then_update (convert_all vs values)
          (convert_one v.key v.converter (lookup v.key values) env)

    abbrev pub validate_one :
        ℕ → Option (ℕ → V → Dict V → Bool) → Option V → Dict V → Ended × Dict V
    validate_one k (some is_valid) (some v) env =
        ((if is_valid k (subst env k) env then done else not_valid k), env)
    validate_one k _ _ env = (done, env)

    abbrev pub validate_all : List (Variable V) → Dict V → Dict V → Ended × Dict V
    validate_all [] values env = (done, env)
    validate_all (v ∷ vs) values env =
        then_update (validate_all vs values)
          (validate_one v.key v.validator (lookup v.key values) env)

    abbrev pub apply_values : List (Variable V) → Dict V → Dict V → Ended × Dict V
    apply_values vs values env =
        then_update (validate_all vs values) (convert_all vs values (put_all vs values env))

    abbrev pub finish_update :
        Variables V → Dict V → Dict V → Option (Dict V) → Ended × Dict V × Variables V
    finish_update vs args env none = (file_error, env, vs)
    finish_update vs args env (some values) =
        let (given, unknown) = set_args vs.options args (values, vs.unknown) in
        let (ended, env_after) = apply_values vs.options given env in
        (ended, env_after, record vs { unknown = unknown })

    unfoldable pub update_variables :
        ℕ → List (ConfigFile V) → Dict V → Dict V → Variables V → Ended × Dict V × Variables V
    unfolding lookup insert erase
    update_variables name_key files args env vs =
        finish_update vs args env (read_files name_key files (set_defaults vs.options []))
