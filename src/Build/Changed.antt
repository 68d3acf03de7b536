-- ===== src/Build/Changed.antt =====
-- `changed` and `children_are_up_to_date` of Node/__init__.py: whether a node must be rebuilt. What
-- `changed_since_last_build` of a child answers is left to the subclasses; it may also note something
-- about the child, which is the state `S`. Signatures are numbers.
pub mod Checks
use cross_chain.Prelude.{
  ℕ, zero, suc, ltb, ◌==◌, ◌-◌, Bool, true, false, not, ◌||◌, ◌&&◌, Option, none, some, List, [],
  ◌∷◌, ◌++◌, map, if◌then◌else◌, length,
}
use cross_chain.Build.Node.{State, rank}

-- The build information that was stored.
pub record BuildInfo : Type 0 where
  pub bsourcesigs : List ℕ
  pub bdependsigs : List ℕ
  pub bimplicitsigs : List ℕ
  pub bactsig : ℕ

-- `[None] * diff`, which is empty for a negative number.
abbrev pub nones : ℕ → List (Option ℕ)
nones zero = []
nones (suc n) = none ∷ nones n

-- `then`, extended to the number of the children.
abbrev pub before : BuildInfo → ℕ → List (Option ℕ)
before bi n =
    let sigs = bi.bsourcesigs ++ bi.bdependsigs ++ bi.bimplicitsigs in
    map (λ s. some s) sigs ++ nones (n - length sigs)

abbrev pub zip : List ℕ → List (Option ℕ) → List (ℕ × Option ℕ)
zip (c ∷ cs) (p ∷ ps) = (c, p) ∷ zip cs ps
zip _ _ = []

module _ {S : Type 0} (changed_since_last_build : ℕ → Option ℕ → S → Bool × S) where
  -- The loop over the children and what was stored of them.
  unfoldable pub check_children : List (ℕ × Option ℕ) → Bool → S → Bool × S
  check_children [] result s = (result, s)
  check_children ((child, prev_ni) ∷ rest) result s =
      let (answer, s') = changed_since_last_build child prev_ni s in
      check_children rest (if answer then true else result) s'

  -- `changed`, where the signature of the action is compared for a node with a builder.
  unfoldable pub changed :
      (bi : BuildInfo) (children : List ℕ) (has_builder : Bool) (newsig : ℕ) → S → Bool × S
  unfolding check_children
  changed bi children has_builder newsig s =
      let differs =
        not (length children == length (bi.bsourcesigs ++ bi.bdependsigs ++ bi.bimplicitsigs)) in
      let (result, s') = check_children (zip children (before bi (length children))) differs s in
      (if has_builder && not (bi.bactsig == newsig) then true else result, s')

-- The loop of `children_are_up_to_date`.
unfoldable pub newest : ℕ → List State → ℕ
newest state [] = state
newest state (s ∷ kids) =
    newest (if not (rank s == 0) && (state == 0 || ltb state (rank s)) then rank s else state) kids

-- `children_are_up_to_date`, of the states of the children.
unfoldable pub children_are_up_to_date : Bool → List State → Bool
unfolding newest
children_are_up_to_date always_build kids =
    if always_build then false else newest 0 kids == 0 || newest 0 kids == 3
