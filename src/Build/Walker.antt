-- ===== src/Build/Walker.antt =====
-- `Walker` of Node/__init__.py, which walks a graph depth first. `wkids` is an attribute of the nodes; an
-- empty list stands for `None` too. The stack has its top in front; of the dictionary `history` only the
-- keys matter. `kids_func` gets the node and the one it was reached from; `cycle_func` and `eval_func`
-- return nothing to the walk.
pub mod Order
use cross_chain.Prelude.{
  ℕ, zero, suc, ◌≡◌, ◌==◌, Bool, true, false, Option, none, some, List, [], ◌∷◌, ◌++◌,
  if◌then◌else◌, ◌>>=◌, elem, insert, discard,
}

pub record Walker : Type 0 where
  pub stack : List ℕ
  pub history : List ℕ
  pub wkids : ℕ → List ℕ

abbrev pub assign : (ℕ → List ℕ) → ℕ → List ℕ → ℕ → List ℕ
assign w n ks m = if m == n then ks else w m

-- A round of the loop of `get_next` goes on, or returns a node, or finds the stack empty.
pub data Round : Type 0 where
  goes_on : Walker → Round
  returns : ℕ → Walker → Round
  is_done : Round

module _ (kids_func : ℕ → Option ℕ → List ℕ) where
  -- `Walker(node)`, where the attributes were `w`.
  unfoldable pub new_walker : ℕ → (ℕ → List ℕ) → Walker
  new_walker node w = record {
    stack = node ∷ [];
    history = node ∷ [];
    wkids = assign w node (kids_func node none);
  }

  -- The next child of the node on top, unless it is on the way to it.
  abbrev pub descend : (top node : ℕ) → Walker → Walker
  descend top node s = if elem node s.history then s else record s {
    stack = node ∷ s.stack;
    history = insert node s.history;
    wkids = assign s.wkids node (kids_func node (some top));
  }

  abbrev pub round_top : (top : ℕ) → (stack kids : List ℕ) → Walker → Round
  round_top top stack [] s =
      returns top (record s { stack = stack; history = discard top s.history })
  round_top top stack (k ∷ ks) s =
      goes_on (descend top k (record s { wkids = assign s.wkids top ks }))

  abbrev pub round_of : List ℕ → Walker → Round
  round_of [] s = is_done
  round_of (top ∷ stack) s = round_top top stack (s.wkids top) s

  abbrev pub next_of :
      (Walker → Option (Option ℕ × Walker)) → Walker → Round → Option (Option ℕ × Walker)
  next_of again s (goes_on t) = again t
  next_of again s (returns n t) = some (some n, t)
  next_of again s is_done = some (none, s)

  -- `get_next`; `none` is when the fuel runs out.
  unfoldable pub get_next : ℕ → Walker → Option (Option ℕ × Walker)
  get_next zero s = none
  get_next (suc fuel) s = next_of (λ t. get_next fuel t) s (round_of s.stack s)

  -- The calls of `get_next` return the nodes of a list, and then `None`.
  pub data Calls : Walker → List ℕ → Type 0 where
    last : {s t : Walker} (fuel : ℕ) → get_next fuel s ≡ some (none, t) → Calls s []
    next :
        {s t : Walker} {n : ℕ} {ns : List ℕ} (fuel : ℕ)
        → get_next fuel s ≡ some (some n, t)
        → Calls t ns
        → Calls s (n ∷ ns)

  -- The children of a node, each with those below it, in front of the node; a node on the way is left out.
  abbrev pub each : (ℕ → Option (List ℕ)) → (way kids : List ℕ) → Option (List ℕ)
  each visit way [] = some []
  each visit way (k ∷ ks) =
      let rest = each visit way ks in
      if elem k way then rest else visit k >>= (λ xs. rest >>= (λ ys. some (xs ++ ys)))

  unfoldable pub post_order : ℕ → (way : List ℕ) → ℕ → Option ℕ → Option (List ℕ)
  post_order zero way n parent = none
  post_order (suc depth) way n parent =
      each (λ k. post_order depth (n ∷ way) k (some n)) (n ∷ way) (kids_func n parent)
      >>= (λ xs. some (xs ++ n ∷ []))
