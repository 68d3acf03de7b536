-- ===== src/Env/Unique.antt =====
-- Environment.py: `PrependUnique` and `AppendUnique`, as far as they treat all variables alike: what
-- `AppendUnique` does to CPPDEFINES is left out. A list is a Python list.
pub mod Lists
pub mod Twice
use cross_chain.Prelude.{
  ℕ, Bool, true, false, not, ◌&&◌, ◌||◌, Option, none, some, List, [], ◌∷◌, ◌++◌, reverse,
  if◌then◌else◌, ◌==◌, ◌>>=◌,
}
use cross_chain.Prelude.Dict.{Dict, lookup, insert, update}
use cross_chain.Build.Errors.{Text}
use cross_chain.Env.Override.{VariableNames, non_reserved}

-- The value of a variable, with elements of `A` in lists.
pub data EnvValue (A : Type 0) : Type 0 where
  nothing : EnvValue A
  text : Text → EnvValue A
  items : List A → EnvValue A
  dict : Dict A → EnvValue A
  object : A → EnvValue A

-- How Python takes the elements: their equality, whether they can be hashed, the text that one is, the
-- element that a value is, and `x in v` for a value that is neither a list nor a text, where `none` is
-- a TypeError.
pub record Elements (A : Type 0) : Type 0 where
  pub same : A → A → Bool
  pub hashable : A → Bool
  pub as_text : A → Option Text
  pub item : EnvValue A → A
  pub in_other : A → EnvValue A → Option Bool

-- `x in s`, for texts.
starts : Text → Text → Bool
starts [] s = true
starts (c ∷ x) [] = false
starts (c ∷ x) (d ∷ s) = c == d && starts x s

unfoldable pub in_text : Text → Text → Bool
unfolding starts
in_text x [] = starts x []
in_text x (c ∷ s) = starts x (c ∷ s) || in_text x s

module _ {A : Type 0} (el : Elements A) where
  -- `x in l`
  unfoldable pub in_list : A → List A → Bool
  in_list x [] = false
  in_list x (y ∷ l) = el.same x y || in_list x l

  -- `[x for x in l if x not in seen]`
  unfoldable pub excluded : List A → List A → List A
  excluded seen [] = []
  excluded seen (x ∷ l) = let rest = excluded seen l in if in_list x seen then rest else x ∷ rest

  -- The loop of `_delete_duplicates`, which keeps what cannot be hashed.
  unfoldable pub firsts : List A → List A → List A
  firsts seen [] = []
  firsts seen (x ∷ l) =
      let skipped = firsts seen l in
      let added = x ∷ firsts (x ∷ seen) l in
      let plain = x ∷ firsts seen l in
      if el.hashable x then (if in_list x seen then skipped else added) else plain

  unfoldable pub delete_duplicates : List A → Bool → List A
  unfolding firsts
  delete_duplicates l keep_last = if keep_last then reverse (firsts [] (reverse l)) else firsts [] l

  -- `x in v`
  abbrev pub in_value : A → EnvValue A → Option Bool
  in_value x (items l) = some (in_list x l)
  in_value x (text s) = elim (el.as_text x) [ none ↦ none | some t ↦ some (in_text t s) ]
  in_value x nothing = none
  in_value x (dict d) = el.in_other x (dict d)
  in_value x (object a) = el.in_other x (object a)

  -- `[x for x in l if x not in v]`
  unfoldable pub not_in : EnvValue A → List A → Option (List A)
  not_in v [] = some []
  not_in v (x ∷ l) =
      in_value x v >>= λ found. not_in v l >>= λ rest. some (if found then rest else x ∷ rest)

  -- `if not is_List(dk): dk = [dk]`
  abbrev pub as_list : EnvValue A → List A
  as_list (items l) = l
  as_list nothing = el.item nothing ∷ []
  as_list (text s) = el.item (text s) ∷ []
  as_list (dict d) = el.item (dict d) ∷ []
  as_list (object a) = el.item (object a) ∷ []

  -- `a + b`, for two values of which not both are lists; objects are taken to have no addition.
  abbrev pub plus : EnvValue A → EnvValue A → Option (EnvValue A)
  plus (text s) (text t) = some (text (s ++ t))
  plus a b = none

  -- The order in which old and new elements are put together, `place new old`, and the sum of a new
  -- and an old value that are no lists.
  abbrev pub Place : Type 0
  Place = List A → List A → List A

  abbrev pub merge_lists : Place → Bool → List A → List A → List A
  merge_lists place true val dk = place val (excluded val dk)
  merge_lists place false val dk = place (excluded dk val) dk

  -- A value that is no list, next to a list.
  abbrev pub merge_value : Place → Bool → EnvValue A → List A → Option (EnvValue A)
  merge_value place true val dk =
      not_in val dk >>= λ rest. some (items (place (el.item val ∷ []) rest))
  merge_value place false val dk =
      some (items (if in_list (el.item val) dk then dk else place (el.item val ∷ []) dk))

  -- Neither value is a list. With `delete_existing` the old one is made a list, which cannot be added
  -- to the new one.
  abbrev pub merge_others :
      (EnvValue A → EnvValue A → Option (EnvValue A))
      → Bool
      → EnvValue A
      → EnvValue A
      → Option (EnvValue A)
  merge_others add true val dk = none
  merge_others add false val dk = add val dk

  module _ (place : Place) (add : EnvValue A → EnvValue A → Option (EnvValue A))
      (delete_existing : Bool) where
    -- The new value `val` is a list without its duplicates, or no list.
    abbrev pub merge : EnvValue A → EnvValue A → Option (EnvValue A)
    merge val nothing = some val
    merge val (text []) = some val
    merge (items l) (items dk) = some (items (merge_lists place delete_existing l dk))
    merge (items l) (text (c ∷ s)) =
        some (items (merge_lists place delete_existing l (as_list (text (c ∷ s)))))
    merge (items l) (dict d) = some (items (merge_lists place delete_existing l (as_list (dict d))))
    merge (items l) (object a) =
        some (items (merge_lists place delete_existing l (as_list (object a))))
    merge (dict new) (dict d) = some (dict (update new d))
    merge nothing (items dk) = merge_value place delete_existing nothing dk
    merge (text s) (items dk) = merge_value place delete_existing (text s) dk
    merge (dict d) (items dk) = merge_value place delete_existing (dict d) dk
    merge (object a) (items dk) = merge_value place delete_existing (object a) dk
    merge val dk = merge_others add delete_existing val dk

  abbrev pub place_before : Place
  place_before val dk = val ++ dk

  abbrev pub place_behind : Place
  place_behind val dk = dk ++ val

  abbrev pub without_duplicates : Bool → EnvValue A → EnvValue A
  without_duplicates keep_last (items l) = items (delete_duplicates l keep_last)
  without_duplicates keep_last nothing = nothing
  without_duplicates keep_last (text s) = text s
  without_duplicates keep_last (dict d) = dict d
  without_duplicates keep_last (object a) = object a

  abbrev pub merge_into :
      (EnvValue A → EnvValue A → Option (EnvValue A))
      → EnvValue A
      → Option (EnvValue A)
      → Option (EnvValue A)
  merge_into how val none = some val
  merge_into how val (some dk) = how val dk

  -- One variable: its old value, if it has one, and the new one; `none` is a TypeError.
  unfoldable pub prepend_unique : Bool → Option (EnvValue A) → EnvValue A → Option (EnvValue A)
  unfolding delete_duplicates excluded
  prepend_unique delete_existing dk val =
      merge_into (merge place_before (λ v d. plus v d) delete_existing)
        (without_duplicates (not delete_existing) val) dk

  unfoldable pub append_unique : Bool → Option (EnvValue A) → EnvValue A → Option (EnvValue A)
  unfolding delete_duplicates excluded
  append_unique delete_existing dk val =
      merge_into (merge place_behind (λ v d. plus d v) delete_existing)
        (without_duplicates delete_existing val) dk

  abbrev pub stored : Dict (EnvValue A) → ℕ → Option (EnvValue A) → Option (Dict (EnvValue A))
  stored env k none = none
  stored env k (some v) = some (insert k v env)

  -- The loop over the keyword arguments.
  unfoldable pub merge_all :
      (Option (EnvValue A) → EnvValue A → Option (EnvValue A))
      → Dict (EnvValue A)
      → Dict (EnvValue A)
      → Option (Dict (EnvValue A))
  merge_all how [] env = some env
  merge_all how ((k, val) ∷ kw) env =
      stored env k (how (lookup k env) val) >>= λ env'. merge_all how kw env'

  -- `PrependUnique`
  unfoldable pub prepend_unique_all :
      VariableNames → Bool → Dict (EnvValue A) → Dict (EnvValue A) → Option (Dict (EnvValue A))
  unfolding merge_all prepend_unique
  prepend_unique_all names delete_existing kw env =
      merge_all (prepend_unique delete_existing) (non_reserved names kw) env

  -- `AppendUnique`
  unfoldable pub append_unique_all :
      VariableNames → Bool → Dict (EnvValue A) → Dict (EnvValue A) → Option (Dict (EnvValue A))
  unfolding merge_all append_unique
  append_unique_all names delete_existing kw env =
      merge_all (append_unique delete_existing) (non_reserved names kw) env
