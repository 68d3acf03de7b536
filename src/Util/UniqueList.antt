-- ===== src/Util/UniqueList.antt =====
-- The class `UniqueList` of Util.py: a list that drops its repetitions when it is read. Items are compared
-- by a test. `sorted` is Python's sort.
pub mod Refines
use cross_chain.Prelude.{
  ℕ, zero, suc, Bool, true, false, not, ◌||◌, ◌&&◌, List, [], ◌∷◌, ◌++◌, length, ltb, reverse, take,
  drop, if◌then◌else◌,
}
use cross_chain.Util.Uniquer.{Marked, kept}

abbrev pub items : {A : Type 0} → (A → A → Bool) → Marked A
items {A} same = record { Marker = A; marker = λ x. x; same = same; counts = λ x. true }

-- `data` and `unique`
pub record UniqueList (A : Type 0) : Type 0 where
  pub elements : List A
  pub unique : Bool

-- The methods that change the list, and all those that only read it: comparisons, `len`, `l[i]`,
-- `l[i:j]`, `count` and `index`.
pub data Call (A : Type 0) : Type 0 where
  append : A → Call A
  -- also `+=`
  extend : List A → Call A
  insert : Call A
  reverse_call : Call A
  sort : Call A
  read : Call A
  set_item : ℕ → A → Call A
  set_slice : ℕ → ℕ → List A → Call A
  -- `del l[i]` and `pop(i)`, and `del l[i:j]`, which are those of `UserList`
  delete_place : ℕ → Call A
  delete_slice : ℕ → ℕ → Call A
  remove : A → Call A

module _ {A : Type 0} where
  -- `UniqueList(seq)`
  abbrev pub new_list : List A → UniqueList A
  new_list seq = record { elements = seq; unique = true }

  -- `extend`, and `+=`
  abbrev pub extended : List A → UniqueList A → UniqueList A
  extended xs l = record { elements = l.elements ++ xs; unique = false }

  -- `xs[i] = x` and `del xs[i]`, for an index in range, and `xs[i:j] = ys`. Places are counted from the
  -- front.
  abbrev pub assign_at : ℕ → A → List A → List A
  assign_at n x [] = []
  assign_at zero x (y ∷ ys) = x ∷ ys
  assign_at (suc n) x (y ∷ ys) = y ∷ assign_at n x ys

  abbrev pub delete_at : ℕ → List A → List A
  delete_at n [] = []
  delete_at zero (y ∷ ys) = ys
  delete_at (suc n) (y ∷ ys) = y ∷ delete_at n ys

  abbrev pub assign_slice : ℕ → ℕ → List A → List A → List A
  assign_slice i j ys xs = take i xs ++ ys ++ drop (if ltb i j then j else i) xs

  -- `xs.remove(x)`; where it raises a ValueError nothing changes.
  abbrev pub remove_first : (A → A → Bool) → A → List A → List A
  remove_first same x [] = []
  remove_first same x (y ∷ ys) = if same x y then ys else y ∷ remove_first same x ys

module _ {A : Type 0} (same : A → A → Bool) (sorted : List A → List A) where
  -- `uniquer_hashables`
  abbrev pub uniquer : List A → List A
  uniquer xs = kept (items same) [] xs

  -- `__make_unique`
  unfoldable pub make_unique : UniqueList A → UniqueList A
  make_unique l = if l.unique then l else record { elements = uniquer l.elements; unique = true }

  -- `insert` hands no item on, and always raises a TypeError; an index out of range is an IndexError.
  unfoldable pub call : Call A → UniqueList A → UniqueList A
  unfolding make_unique
  call (append x) l = record { elements = l.elements ++ x ∷ []; unique = false }
  call (extend xs) l = extended xs l
  call insert l = l
  call reverse_call l = record (make_unique l) { elements = reverse (make_unique l).elements }
  call sort l = record (make_unique l) { elements = sorted (make_unique l).elements }
  call read l = make_unique l
  call (set_item i x) l =
      if ltb i (length l.elements)
      then record { elements = assign_at i x l.elements; unique = false }
      else l
  call (set_slice i j xs) l = record { elements = assign_slice i j xs l.elements; unique = false }
  call (delete_place i) l = record l { elements = delete_at i l.elements }
  call (delete_slice i j) l = record l { elements = assign_slice i j [] l.elements }
  call (remove x) l = record l { elements = remove_first same x l.elements }

  abbrev pub calls : List (Call A) → UniqueList A → UniqueList A
  calls [] l = l
  calls (c ∷ cs) l = calls cs (call c l)

  -- Calls that work on the list as it is kept.
  abbrev pub is_raw : Call A → Bool
  is_raw (set_item i x) = true
  is_raw (set_slice i j xs) = true
  is_raw (delete_place i) = true
  is_raw (delete_slice i j) = true
  is_raw (remove x) = true
  is_raw c = false

  -- Whether each of these comes when the list is marked as unique.
  abbrev pub is_settled : List (Call A) → UniqueList A → Bool
  is_settled [] l = true
  is_settled (c ∷ cs) l = (not (is_raw c) || l.unique) && is_settled cs (call c l)
