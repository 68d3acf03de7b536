-- ===== src/Build/Actions/Order.antt =====
-- Executor.py, `do_execute`: which actions are called.
use cross_chain.Prelude.{
  ℕ, ◌≡◌, ◌⊎◌, inl, inr, refl, sym, ap, Bool, true, false, Option, none, some, List, [], ◌∷◌, ◌++◌,
  All, Bool-cases,
}
use mathlib.Core.Path.{subst}
use cross_chain.Prelude.Int.{is_zero}
use cross_chain.Build.Node.{Batch}
use cross_chain.Build.Errors.{BuildError}
use cross_chain.Build.Actions.{
  Actions, ActionResult, status, failure, get_action_list, status_error, with_executor, run_actions,
  do_execute,
}

abbrev pub succeeds : ActionResult → Bool
succeeds (status code) = is_zero code
succeeds (failure b) = false

-- The list is split where the first action fails, and that one is the last that was called.
pub record FailsAt (act : ℕ → ActionResult) (actions : List ℕ) (called : List ℕ) : Type 0 where
  pub before : List ℕ
  pub action : ℕ
  pub after : List ℕ
  pub split : actions ≡ before ++ action ∷ after
  pub ran : called ≡ before ++ action ∷ []
  pub fails : succeeds (act action) ≡ false
  pub succeed : All (λ a. succeeds (act a) ≡ true) before

abbrev pub Ran : (ℕ → ActionResult) → List ℕ → Option BuildError × List ℕ → Type 0
Ran act actions (error, called) =
    ((error ≡ none) × (called ≡ actions) × All (λ a. succeeds (act a) ≡ true) actions)
    ⊎ ((b : BuildError) × (error ≡ some b) × FailsAt act actions called)

module _ (act : ℕ → ActionResult) (executor : ℕ) (batches : List Batch) where
  one_more :
      (a : ℕ) (rest : List ℕ) (result : Option BuildError × List ℕ)
      → succeeds (act a) ≡ true
      → Ran act rest result
      → Ran act (a ∷ rest) (result.0, a ∷ result.1)
  one_more a rest (error, called) good (inl (e, all, ok)) =
      inl (e, ap (λ (l : List ℕ). a ∷ l) all, (good, ok))
  one_more a rest (error, called) good (inr (b, e, f)) = inr (
    b,
    e,
    record {
      before = a ∷ f.before;
      action = f.action;
      after = f.after;
      split = ap (λ (l : List ℕ). a ∷ l) f.split;
      ran = ap (λ (l : List ℕ). a ∷ l) f.ran;
      fails = f.fails;
      succeed = (good, f.succeed);
    },
  )

  failed_first :
      (a : ℕ) (rest : List ℕ) → succeeds (act a) ≡ false → FailsAt act (a ∷ rest) (a ∷ [])
  failed_first a rest bad = record {
    before = [];
    action = a;
    after = rest;
    split = refl;
    ran = refl;
    fails = bad;
    succeed = tt;
  }

  run_actions-Ran : (actions : List ℕ) → Ran act actions (run_actions act executor batches actions)
  unfolding run_actions
  run_actions-Ran [] = inl (refl, refl, tt)
  run_actions-Ran (a ∷ rest) = go (act a) refl (run_actions-Ran rest)
    where
      go :
          (result : ActionResult)
          → act a ≡ result
          → Ran act rest (run_actions act executor batches rest)
          → Ran act (a ∷ rest) (run_actions act executor batches (a ∷ rest))
      go (failure b) e ran =
          rw (run_actions, e)
            (inr (with_executor executor b, refl, failed_first a rest (rw e refl)))
      go (status code) e ran = elim (Bool-cases (is_zero code)) [
        | inl good ↦
            let result = run_actions act executor batches rest in
            let called : run_actions act executor batches (a ∷ rest) ≡ (result.0, a ∷ result.1) =
              rw (run_actions, e, good) refl in
            subst (λ r. Ran act (a ∷ rest) r) (sym called) (one_more a rest result (rw e good) ran)
        | inr bad ↦
            rw (run_actions, e, bad)
              (inr (status_error executor a batches code, refl, failed_first a rest (rw e bad)))
      ]

-- `do_execute` calls the actions in their order: the pre-actions, the actions and the post-actions. It
-- returns where all succeed, and all were called then; otherwise it raises an error, and the last
-- action that it called is the first that fails.
do_execute-Ran :
    (act : ℕ → ActionResult) (executor : ℕ) (a : Actions)
    → Ran act (get_action_list a) (do_execute act executor a)
unfolding do_execute
do_execute-Ran act executor a = run_actions-Ran act executor a.batches (get_action_list a)
