-- ===== src/Build/Executor.antt =====
-- Executor.py: the lists of nodes that an executor hands to the taskmaster. What the walk takes from
-- the subclasses of `Node`, from the scanners and from the file system is the record `World`.
use cross_chain.Prelude.{
  ℕ, ◌≡◌, ◌⊎◌, inl, inr, refl, Bool, false, ◌||◌, Option, none, some, List, [], ◌∷◌, ◌++◌,
  if◌then◌else◌, elem,
}
use cross_chain.Build.Node.{Heap, Batch, Executor}

-- The exceptions that the engine tells apart.
pub data Exception : Type 0 where
  system_exit : ℕ → Exception
  explicit_exit : ℕ → ℕ → Exception
  stop_error user_error build_error environment_error attribute_error index_error : Exception
  other : ℕ → Exception

pub data Outcome (A : Type 0) : Type 0 where
  returned : A → Outcome A
  raised : Exception → Outcome A

infixl 5 ◌>>=◌
abbrev pub ◌>>=◌ : {A B : Type 0} → Outcome A → (A → Outcome B) → Outcome B
returned a >>= f = f a
raised e >>= f = raised e

pub Outcome-cases :
    {A : Type 0} (o : Outcome A) → ((e : Exception) × (o ≡ raised e)) ⊎ ((a : A) × (o ≡ returned a))
Outcome-cases (returned a) = inr (a, refl)
Outcome-cases (raised e) = inl (e, refl)

pub >>=-eq-returned :
    {A B : Type 0} (m : Outcome A) (f : A → Outcome B) {b : B}
    → (m >>= f) ≡ returned b
    → (a : A) × (m ≡ returned a) × (f a ≡ returned b)
>>=-eq-returned (returned a) f e = (a, refl, e)
>>=-eq-returned (raised x) f e = cc

-- The methods of nodes that subclasses override or that go to the file system.
pub record World : Type 0 where
  -- `n.children()`, which scans for implicit dependencies first
  pub children : Heap → ℕ → Outcome (List ℕ)
  -- `t.disambiguate().make_ready()`
  pub make_ready : Heap → ℕ → Outcome (Unit {0})
  pub is_up_to_date : Heap → ℕ → Outcome Bool
  pub missing : Heap → ℕ → Bool
  -- `t.prepare()`
  pub prepare : Heap → ℕ → Outcome (Unit {0})
  pub retrieve_from_cache : Heap → ℕ → Outcome Bool
  -- `t.build()`
  pub build : Heap → ℕ → Outcome (Unit {0})
  -- `n.alter_targets()`: the other nodes, none of them for `None`
  pub alter_targets : ℕ → List ℕ
  -- the `order` function that the taskmaster is given
  pub order : List ℕ → List ℕ

-- `uniquer_hashables` of Util.py, by which a `UniqueList` drops repetitions when it is read.
abbrev pub unique_after : List ℕ → List ℕ → List ℕ
unique_after seen [] = []
unique_after seen (x ∷ xs) =
    let skipped = unique_after seen xs in
    let kept = x ∷ unique_after (x ∷ seen) xs in if elem x seen then skipped else kept

abbrev pub unique : List ℕ → List ℕ
unique = unique_after []

abbrev pub batch_targets : List Batch → List ℕ
batch_targets [] = []
batch_targets (b ∷ bs) = b.targets ++ batch_targets bs

abbrev first_batch_targets : List Batch → List ℕ
first_batch_targets [] = []
first_batch_targets (b ∷ _) = b.targets

-- A `Null` has one batch, and reads the first one only.
unfoldable pub get_all_targets : Executor → List ℕ
get_all_targets e = if e.is_null then first_batch_targets e.batches else batch_targets e.batches

batch_sources : List Batch → List ℕ
batch_sources [] = []
batch_sources (b ∷ bs) = b.sources ++ batch_sources bs

null_sources : Heap → List ℕ → List ℕ
null_sources h [] = []
null_sources h (t ∷ _) = (h t).sources

unfoldable pub get_all_sources : Heap → Executor → List ℕ
unfolding batch_sources null_sources
get_all_sources h e =
    if e.is_null then null_sources h (get_all_targets e) else batch_sources e.batches

any_missing : World → Heap → List ℕ → Bool
any_missing w h [] = false
any_missing w h (s ∷ ss) = w.missing h s || any_missing w h ss

-- `Executor.prepare`; that of `Null` does nothing.
unfoldable pub prepare : World → Heap → Executor → Outcome (Unit {0})
unfolding any_missing
prepare w h e =
    if e.is_null
    then returned tt
    else if any_missing w h (get_all_sources h e)
    then raised stop_error
    else returned tt

-- The actions' variable is `$TARGETS`.
unfoldable pub get_action_targets : Executor → List ℕ
get_action_targets e =
    if e.is_null then [] else if e.has_actions then batch_targets e.batches else []

unfoldable pub children_of : World → Heap → List ℕ → Outcome (List ℕ)
children_of w h [] = returned []
children_of w h (t ∷ ts) = do c ← w.children h t; cs ← children_of w h ts; returned (c ++ cs)

unfoldable pub null_children : World → Heap → List ℕ → Outcome (List ℕ)
null_children w h [] = raised index_error
null_children w h (t ∷ _) = w.children h t

unfoldable pub get_all_children : World → Heap → Executor → Outcome (List ℕ)
unfolding children_of null_children
get_all_children w h e =
    if e.is_null
    then null_children w h (get_all_targets e)
    else (do cs ← children_of w h (get_all_targets e); returned (unique cs))

abbrev pub prerequisites_of : Option (List ℕ) → List ℕ
prerequisites_of none = []
prerequisites_of (some ps) = ps

unfoldable pub all_prerequisites : Heap → List ℕ → List ℕ
all_prerequisites h [] = []
all_prerequisites h (t ∷ ts) = prerequisites_of (h t).prerequisites ++ all_prerequisites h ts

unfoldable pub get_all_prerequisites : Heap → Executor → List ℕ
unfolding all_prerequisites
get_all_prerequisites h e =
    if e.is_null then [] else unique (all_prerequisites h (get_all_targets e))

side_effects_of : Heap → List ℕ → List ℕ
side_effects_of h [] = []
side_effects_of h (t ∷ ts) = (h t).side_effects ++ side_effects_of h ts

unfoldable pub get_action_side_effects : Heap → Executor → List ℕ
unfolding side_effects_of
get_action_side_effects h e = unique (side_effects_of h (get_action_targets e))
