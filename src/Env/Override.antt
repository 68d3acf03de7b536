-- ===== src/Env/Override.antt =====
-- Environment.py: `OverrideEnvironment`, a dictionary laid over another environment, and the methods by
-- which `SubstitutionEnvironment`, at the bottom, is read and written. VariableNames of variables are numbers;
-- the variables BUILDERS and SCANNERS, whose assignment does more, are left out.
pub mod Views
pub mod Calls
use cross_chain.Prelude.{
  ℕ, Bool, true, false, not, ◌&&◌, Option, none, some, List, [], ◌∷◌, if◌then◌else◌,
}
use cross_chain.Prelude.Dict.{Dict, lookup, insert, erase, update}

-- What is asked of a name: whether it is one of those that cannot be set, or will not be in a future
-- release, and whether it is spelled as a variable.
pub record VariableNames : Type 0 where
  pub reserved : ℕ → Bool
  pub future_reserved : ℕ → Bool
  pub valid : ℕ → Bool

-- An environment: a base, or a dictionary over its subject.
pub data Env (V : Type 0) : Type 0 where
  base : Dict V → Env V
  override : Env V → Dict V → Env V

pub data Answer (V : Type 0) : Type 0 where
  done : Answer V
  value : V → Answer V
  key_error : Answer V
  user_error : Answer V

module _ {V : Type 0} where
  abbrev pub is_some : Option V → Bool
  is_some none = false
  is_some (some v) = true

  -- `__getitem__`; `none` is a KeyError.
  unfoldable pub get_item : ℕ → Env V → Option V
  get_item k (base d) = lookup k d
  get_item k (override e d) = elim (lookup k d) [ some v ↦ some v | none ↦ get_item k e ]

  -- `get`, with its default
  unfoldable pub get_or_default : ℕ → V → Env V → V
  get_or_default k default (base d) = elim (lookup k d) [ some v ↦ v | none ↦ default ]
  get_or_default k default (override e d) = elim (lookup k d) [
    | some v ↦ v
    | none ↦ get_or_default k default e
  ]

  -- `__contains__`, and `has_key`
  unfoldable pub contains : ℕ → Env V → Bool
  contains k (base d) = is_some (lookup k d)
  contains k (override e d) = if is_some (lookup k d) then true else contains k e

  -- `Dictionary`
  unfoldable pub dictionary : Env V → Dict V
  dictionary (base d) = d
  dictionary (override e d) = update d (dictionary e)

  unfoldable pub gvars : Env V → Dict V
  gvars (base d) = d
  gvars (override e d) = gvars e

  unfoldable pub lvars : Env V → Dict V
  lvars (base d) = []
  lvars (override e d) = update d (lvars e)

  abbrev pub set_base : VariableNames → ℕ → V → Dict V → Answer V × Env V
  set_base names k v d =
      if names.reserved k
      then (done, base d)
      else if names.future_reserved k
      then (done, base (insert k v d))
      else if not (is_some (lookup k d)) && not (names.valid k)
      then (user_error, base d)
      else (done, base (insert k v d))

  -- `__setitem__`
  unfoldable pub set_variable : VariableNames → ℕ → V → Env V → Answer V × Env V
  set_variable names k v (base d) = set_base names k v d
  set_variable names k v (override e d) =
      if names.valid k then (done, override e (insert k v d)) else (user_error, override e d)

  abbrev pub deleted_below : Bool → Dict V → Answer V × Env V → Answer V × Env V
  deleted_below true d (answer, e) = (done, override e d)
  deleted_below false d (answer, e) = (answer, override e d)

  -- `__delitem__`, which deletes the variable from the subject as well.
  unfoldable pub delete_item : ℕ → Env V → Answer V × Env V
  delete_item k (base d) =
      if is_some (lookup k d) then (done, base (erase k d)) else (key_error, base d)
  delete_item k (override e d) =
      deleted_below (is_some (lookup k d)) (if is_some (lookup k d) then erase k d else d)
        (delete_item k e)

  -- `copy_non_reserved_keywords`
  unfoldable pub non_reserved : VariableNames → Dict V → Dict V
  non_reserved names [] = []
  non_reserved names ((k, v) ∷ kw) =
      let rest = non_reserved names kw in if names.reserved k then rest else (k, v) ∷ rest

  -- `_update`
  unfoldable pub update_env : Dict V → Env V → Env V
  update_env new (base d) = base (update new d)
  update_env new (override e d) = override e (update new d)

  -- `Replace`
  unfoldable pub replace : VariableNames → Dict V → Env V → Env V
  unfolding update_env non_reserved
  replace names kw e = update_env (non_reserved names kw) e

  abbrev pub over : Env V → Dict V → Env V
  over e [] = e
  over e (kv ∷ kw) = override e (kv ∷ kw)

  unfoldable pub subst_values : (ℕ → V → V) → Dict V → Dict V
  subst_values once [] = []
  subst_values once ((k, v) ∷ kw) = (k, once k v) ∷ subst_values once kw

  -- `Override`, without an entry `parse_flags`; `once` is `scons_subst_once` with the environment.
  unfoldable pub make_override : VariableNames → (ℕ → V → V) → Dict V → Env V → Env V
  unfolding subst_values non_reserved
  make_override names once overrides e = over e (subst_values once (non_reserved names overrides))
