-- ===== src/Action.antt =====
-- Action.py: how actions are created from what a user passes, put together, and called one after the
-- other. The keyword arguments are left out, but for `generator`.
pub mod Parts
pub mod Perform
use cross_chain.Prelude.{
  ℕ, Bool, true, false, Option, none, some, List, [], ◌∷◌, ◌++◌, map, if◌then◌else◌, ◌>>=◌,
}
use cross_chain.Build.Executor.{Outcome, returned, raised}
use cross_chain.Build.Errors.{Text}
use cross_chain.Util.Paths.{split}

-- The classes but `ListAction`. Callable objects are numbers.
pub data Primitive : Type 0 where
  command : Text → Primitive
  command_words : List Text → Primitive
  generator : ℕ → Primitive
  function : ℕ → Primitive
  lazy : Text → Primitive

mutual
  pub data Action : Type 0 where
    primitive : Primitive → Action
    list : ActionList → Action

  pub data ActionList : Type 0 where
    no_actions : ActionList
    action : Action → ActionList → ActionList

-- An argument that is no list, or an element of a list. A list in a list is the words of one command.
pub data Spec : Type 0 where
  made : Action → Spec
  words : List Text → Spec
  callable : ℕ → Spec
  text : Text → Spec
  number : ℕ → Spec
  other : Spec

pub data Given : Type 0 where
  one : Spec → Given
  several : List Spec → Given

-- The entry `generator` of the keywords, if there is one.
abbrev pub Keywords : Type 0
Keywords = Option Bool

-- What an action is made into, if it is, and the keywords after it; the outer `none` is a TypeError.
abbrev pub Created : Type 0
Created = Option (Option Action × Keywords)

-- The entry is deleted when it is read.
abbrev pub create_callable : ℕ → Keywords → Action × Keywords
create_callable c (some true) = (primitive (generator c), none)
create_callable c (some false) = (primitive (function c), none)
create_callable c none = (primitive (function c), none)

unfoldable pub to_actions : List Action → ActionList
to_actions [] = no_actions
to_actions (a ∷ acts) = action a (to_actions acts)

-- No list is made for one action alone.
abbrev pub wrap : List Action → Action
wrap [] = list no_actions
wrap (a ∷ []) = a
wrap (a ∷ b ∷ acts) = list (to_actions (a ∷ b ∷ acts))

-- `get_environment_var`, whose regular expression finds the name in a text such as "$CC".
module _ (environment_var : Text → Option Text) where
  -- A text of one line.
  abbrev pub create_line : Text → Action
  create_line t = elim (environment_var t) [
    | some var ↦ primitive (lazy var)
    | none ↦ primitive (command t)
  ]

  abbrev pub create_lines : List Text → Action
  create_lines [] = list no_actions
  create_lines (l ∷ []) = primitive (command l)
  create_lines (l ∷ m ∷ ls) = wrap (map create_line (l ∷ m ∷ ls))

  unfoldable pub create_text : Text → Action
  create_text t = elim (environment_var t) [
    | some var ↦ primitive (lazy var)
    | none ↦ create_lines (split 10 t)
  ]

  -- `_do_create_action`
  unfoldable pub create_action : Spec → Keywords → Created
  unfolding create_text
  create_action (made a) kw = some (some a, kw)
  create_action (words ws) kw = some (some (primitive (command_words ws)), kw)
  create_action (callable c) kw = some (some (create_callable c kw).0, (create_callable c kw).1)
  create_action (text t) kw = some (some (create_text t), kw)
  create_action (number n) kw = none
  create_action other kw = some (none, kw)

  abbrev pub add_created : Option Action → List Action → List Action
  add_created none acts = acts
  add_created (some a) acts = a ∷ acts

  -- The loop of `_do_create_list_action`.
  unfoldable pub create_all : List Spec → Keywords → Option (List Action × Keywords)
  unfolding create_action
  create_all [] kw = some ([], kw)
  create_all (s ∷ ss) kw = create_action s kw >>= λ (made_of_s, kw').
      create_all ss kw' >>= λ (acts, kw''). some (add_created made_of_s acts, kw'')

  unfoldable pub create_list_action : List Spec → Keywords → Created
  unfolding create_all
  create_list_action ss kw = create_all ss kw >>= λ (acts, kw'). some (some (wrap acts), kw')

  -- The factory `Action`.
  unfoldable pub create : Given → Keywords → Option (Option Action)
  unfolding create_action create_list_action
  create (one s) kw = create_action s kw >>= λ (made_of_s, _). some made_of_s
  create (several ss) kw = create_list_action ss kw >>= λ (made_of_ss, _). some made_of_ss

unfoldable pub append_actions : ActionList → ActionList → ActionList
append_actions no_actions bs = bs
append_actions (action a acts) bs = action a (append_actions acts bs)

-- The last part of `_actionAppend`.
unfoldable pub join_actions : Action → Action → Action
unfolding append_actions
join_actions (list acts) (list bs) = list (append_actions acts bs)
join_actions (list acts) (primitive q) =
    list (append_actions acts (action (primitive q) no_actions))
join_actions (primitive p) (list bs) = list (action (primitive p) bs)
join_actions (primitive p) (primitive q) =
    list (action (primitive p) (action (primitive q) no_actions))

abbrev pub join_made : Option Action → Option Action → Option Action
join_made none b = b
join_made (some a) none = some a
join_made (some a) (some b) = some (join_actions a b)

-- `_actionAppend`
unfoldable pub action_append : (Text → Option Text) → Given → Given → Option (Option Action)
unfolding join_actions create
action_append environment_var x y = create environment_var x none >>= λ a.
    create environment_var y none >>= λ b. some (join_made a b)

-- What the call of an action gives, and the state after it: `run` is the call of one that is no list,
-- `truthy` Python's test of a status, and `zero` the status 0.
module _ {S R : Type 0} (truthy : R → Bool) (zero : R) (run : Primitive → S → Outcome R × S) where
  abbrev pub unless_failed : Outcome R × S → (S → Outcome R × S) → Outcome R × S
  unless_failed (raised e, s) rest = (raised e, s)
  unless_failed (returned r, s) rest = if truthy r then (returned r, s) else rest s

  -- `ListAction.__call__`
  unfoldable mutual
    pub call_action : Action → S → Outcome R × S
    call_action (primitive p) s = run p s
    call_action (list acts) s = call_list acts s

    pub call_list : ActionList → S → Outcome R × S
    call_list no_actions s = (returned zero, s)
    call_list (action a acts) s = unless_failed (call_action a s) (λ s'. call_list acts s')
