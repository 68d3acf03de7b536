-- ===== src/Build/Actions.antt =====
-- Executor.py: the actions of an executor, and how they are run. An action is a number; what it gives
-- when it is called is a parameter, as is the number of the executor in an error.
pub mod Order
use cross_chain.Prelude.{
  ℕ, Bool, true, false, not, Option, none, some, List, [], ◌∷◌, ◌++◌, if◌then◌else◌, ◌==◌, elem,
}
use cross_chain.Prelude.Int.{ℤ, pos, is_zero}
use cross_chain.Build.Node.{Batch}
use cross_chain.Build.Errors.{BuildError, default_error, nowhere, error_status}

pub record Actions : Type 0 where
  pub pre_actions : List ℕ
  pub action_list : Option (List ℕ)
  pub post_actions : List ℕ
  pub batches : List Batch

unfoldable pub get_action_list : Actions → List ℕ
get_action_list a = elim a.action_list [
  | none ↦ []
  | some actions ↦ a.pre_actions ++ actions ++ a.post_actions
]

unfoldable pub add_pre_action : ℕ → Actions → Actions
add_pre_action action a = record a { pre_actions = a.pre_actions ++ action ∷ [] }

unfoldable pub add_post_action : ℕ → Actions → Actions
add_post_action action a = record a { post_actions = a.post_actions ++ action ∷ [] }

unfoldable pub add_batch : List ℕ → List ℕ → Actions → Actions
add_batch targets sources a = record a {
  batches = a.batches ++ record { targets = targets; sources = sources } ∷ [];
}

abbrev pub not_among : List ℕ → List ℕ → List ℕ
not_among present [] = []
not_among present (s ∷ ss) =
    let rest = not_among present ss in if elem s present then rest else s ∷ rest

abbrev pub extend_batch : List ℕ → List Batch → Option (List Batch)
extend_batch sources (b ∷ []) =
    some (record b { sources = b.sources ++ not_among b.sources sources } ∷ [])
extend_batch sources _ = none

-- `none` where the assertion that there is one batch fails.
unfoldable pub add_sources : List ℕ → Actions → Option Actions
add_sources sources a = elim (extend_batch sources a.batches) [
  | none ↦ none
  | some batches ↦ some (record a { batches = batches })
]

-- What the call of an action gives: a status, a `BuildError` that it returns, or one that it raises.
pub data ActionResult : Type 0 where
  status : ℤ → ActionResult
  failure : BuildError → ActionResult

abbrev pub first_targets : List Batch → List ℕ
first_targets [] = []
first_targets (b ∷ _) = b.targets

-- The error for an action that gave a status other than 0.
abbrev pub status_error : ℕ → ℕ → List Batch → ℤ → BuildError
status_error executor action batches code = record default_error {
  errstr = error_status code;
  location = record nowhere {
    node = first_targets batches;
    executor = some executor;
    action = some action;
  };
}

abbrev pub with_executor : ℕ → BuildError → BuildError
with_executor executor b = record b { location = record b.location { executor = some executor } }

-- The error that is raised, if one is, and the actions that were called.
unfoldable pub run_actions :
    (ℕ → ActionResult) → ℕ → List Batch → List ℕ → Option BuildError × List ℕ
run_actions act executor batches [] = (none, [])
run_actions act executor batches (a ∷ rest) =
    let (error, called) = run_actions act executor batches rest in
    elim (act a) [
      | failure b ↦ (some (with_executor executor b), a ∷ [])
      | status code ↦
          if is_zero code
          then (error, a ∷ called)
          else (some (status_error executor a batches code), a ∷ [])
    ]

-- `do_execute`. The status that it returns is that of the last action, which is 0.
unfoldable pub do_execute : (ℕ → ActionResult) → ℕ → Actions → Option BuildError × List ℕ
unfolding get_action_list
do_execute act executor a = run_actions act executor a.batches (get_action_list a)
