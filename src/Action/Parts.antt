-- ===== src/Action/Parts.antt =====
-- Action.py: the parts of an action that are no lists, in the order in which they are called.
use cross_chain.Prelude.{
  ℕ, ◌≡◌, refl, sym, ap, ◌∙◌, true, false, Option, none, some, List, [], ◌∷◌, ◌++◌, map, arith,
  if◌then◌else◌, Bool,
}
use mathlib.Core.Path.{fun_ext}
use mathlib.Core.List.{append_assoc, append-nil}
use cross_chain.Build.Executor.{Outcome, returned, raised}
use cross_chain.Build.Errors.{Text}
use cross_chain.Action.{
  Primitive, generator, Action, primitive, list, ActionList, no_actions, action, callable, Given,
  several, wrap, create_all, create, append_actions, join_actions, action_append, unless_failed,
  call_action, call_list,
}

unfoldable mutual
  pub primitives : Action → List Primitive
  primitives (primitive p) = p ∷ []
  primitives (list acts) = all_primitives acts

  pub all_primitives : ActionList → List Primitive
  all_primitives no_actions = []
  all_primitives (action a acts) = primitives a ++ all_primitives acts

all_primitives-append :
    (acts bs : ActionList)
    → all_primitives (append_actions acts bs) ≡ all_primitives acts ++ all_primitives bs
unfolding append_actions primitives all_primitives
all_primitives-append no_actions bs = refl
all_primitives-append (action a acts) bs =
    rw (all_primitives-append acts bs)
      (sym (append_assoc (primitives a) (all_primitives acts) (all_primitives bs)))

primitives-join : (a b : Action) → primitives (join_actions a b) ≡ primitives a ++ primitives b
unfolding join_actions primitives all_primitives
primitives-join (list acts) (list bs) = all_primitives-append acts bs
primitives-join (list acts) (primitive q) =
    all_primitives-append acts (action (primitive q) no_actions)
primitives-join (primitive p) (list bs) = refl
primitives-join (primitive p) (primitive q) = refl

module _ {S R : Type 0} (truthy : R → Bool) (zero : R) (run : Primitive → S → Outcome R × S) where
  -- A status that counts as 0 is taken for 0.
  abbrev pub normal : Outcome R × S → Outcome R × S
  normal (raised e, s) = (raised e, s)
  normal (returned r, s) = (returned (if truthy r then r else zero), s)

  -- One call after the other, up to the first that fails.
  unfoldable pub run_all : List Primitive → S → Outcome R × S
  run_all [] s = (returned zero, s)
  run_all (p ∷ ps) s = unless_failed truthy zero run (run p s) (λ s'. run_all ps s')

  go_on-go_on :
      (x : Outcome R × S) (f g : S → Outcome R × S)
      → unless_failed truthy zero run (unless_failed truthy zero run x f) g
        ≡ unless_failed truthy zero run x (λ s. unless_failed truthy zero run (f s) g)
  go_on-go_on (raised e, s) f g = refl
  go_on-go_on (returned r, s) f g = ground arith

  module _ (falsy : truthy zero ≡ false) where
    go_on-last :
        (x : Outcome R × S) (f : S → Outcome R × S)
        → unless_failed truthy zero run x f
          ≡ unless_failed truthy zero run
              (unless_failed truthy zero run x (λ s. (returned zero, s)))
              f
    go_on-last (raised e, s) f = refl
    go_on-last (returned r, s) f = ground arith

    normal-go_on :
        (x : Outcome R × S) → normal x ≡ unless_failed truthy zero run x (λ s. (returned zero, s))
    normal-go_on (raised e, s) = refl
    normal-go_on (returned r, s) = ground arith

    run_all-append :
        (ps qs : List Primitive) (s : S)
        → run_all (ps ++ qs) s ≡ unless_failed truthy zero run (run_all ps s) (run_all qs)
    unfolding run_all
    run_all-append [] qs s = rw falsy refl
    run_all-append (p ∷ ps) qs s =
        ap (unless_failed truthy zero run (run p s)) (fun_ext (λ s'. run_all-append ps qs s'))
        ∙ sym (go_on-go_on (run p s) (run_all ps) (run_all qs))

    mutual
      unfolding call_action call_list primitives all_primitives run_all

      go_on-call :
          (a : Action) (s : S) (f : S → Outcome R × S)
          → unless_failed truthy zero run (call_action truthy zero run a s) f
            ≡ unless_failed truthy zero run (run_all (primitives a) s) f
      go_on-call (primitive p) s f = go_on-last (run p s) f
      go_on-call (list acts) s f =
          ap (λ x. unless_failed truthy zero run x f) (call_list-run_all acts s)

      call_list-run_all :
          (acts : ActionList) (s : S)
          → call_list truthy zero run acts s ≡ run_all (all_primitives acts) s
      call_list-run_all no_actions s = refl
      call_list-run_all (action a acts) s =
          go_on-call a s (λ s'. call_list truthy zero run acts s')
          ∙ ap (unless_failed truthy zero run (run_all (primitives a) s))
              (fun_ext (λ s'. call_list-run_all acts s'))
          ∙ sym (run_all-append (primitives a) (all_primitives acts) s)

    -- Called one after the other, the parts of an action do what the action does.
    normal-call :
        (a : Action) (s : S) → normal (call_action truthy zero run a s) ≡ run_all (primitives a) s
    unfolding run_all
    normal-call a s =
        normal-go_on (call_action truthy zero run a s)
        ∙ go_on-call a s (λ s'. (returned zero, s'))
        ∙ sym (run_all-append (primitives a) [] s)
        ∙ ap (λ ps. run_all ps s) (append-nil (primitives a))

    normal-join :
        (a b : Action) (s : S)
        → normal (call_action truthy zero run (join_actions a b) s)
          ≡ unless_failed truthy zero run
              (call_action truthy zero run a s)
              (λ s'. normal (call_action truthy zero run b s'))
    normal-join a b s =
        normal-call (join_actions a b) s
        ∙ ap (λ ps. run_all ps s) (primitives-join a b)
        ∙ run_all-append (primitives a) (primitives b) s
        ∙ sym (go_on-call a s (run_all (primitives b)))
        ∙ ap (unless_failed truthy zero run (call_action truthy zero run a s))
            (fun_ext (λ s'. sym (normal-call b s')))

    -- Where two arguments are made into actions, whether lists or not, `_actionAppend` puts them
    -- together, and the call of the result is the call of the first, and of the second unless the
    -- first raises an exception or gives a status other than 0. A status that counts as 0 is taken
    -- for 0.
    pub call-action_append :
        (environment_var : Text → Option Text) (x y : Given) (a b : Action) (s : S)
        → create environment_var x none ≡ some (some a)
        → create environment_var y none ≡ some (some b)
        → (c : Action) × (action_append environment_var x y ≡ some (some c))
          × (normal (call_action truthy zero run c s)
              ≡ unless_failed truthy zero run
                  (call_action truthy zero run a s)
                  (λ s'. normal (call_action truthy zero run b s')))
    unfolding action_append
    call-action_append environment_var x y a b s e f =
        (join_actions a b, rw (e, f, action_append) refl, normal-join a b s)

create_all-functions :
    (environment_var : Text → Option Text) (cs : List ℕ)
    → create_all environment_var (map callable cs) none
      ≡ some (map (λ (c : ℕ). primitive (Primitive.function c)) cs, none)
unfolding create_all
create_all-functions environment_var [] = refl
create_all-functions environment_var (c ∷ cs) = rw (create_all-functions environment_var cs) refl

-- Of several callable objects that are given with `generator`, only the first is made a generator of
-- commands, the others are functions.
create-generator :
    (environment_var : Text → Option Text) (c : ℕ) (cs : List ℕ)
    → create environment_var (several (callable c ∷ map callable cs)) (some true)
      ≡ some (
          some
            (wrap (primitive (generator c) ∷ map (λ (d : ℕ). primitive (Primitive.function d)) cs)))
unfolding create
create-generator environment_var c cs = rw (create_all-functions environment_var cs) refl
