-- ===== src/Build/Node.antt =====
-- Node/__init__.py: the states of a node, and the fields and methods that the taskmaster uses.
-- Nodes are objects that alias one another, so they stand in a heap and are named by numbers.
-- A Python set of nodes is a list without repetition; where the code iterates over a set it does so
-- in the order of the list.
pub mod Waits
use cross_chain.Prelude.{ℕ, Bool, Option, List, [], ◌==◌, if◌then◌else◌, elem, insert}
use cross_chain.Prelude.Int.{ℤ, ◌+ℤ◌}

pub data State : Type 0 where
  no_state pending executing up_to_date executed failed : State

-- The numbers behind the names, which the code compares.
abbrev pub rank : State → ℕ
rank no_state = 0
rank pending = 1
rank executing = 2
rank up_to_date = 3
rank executed = 4
rank failed = 5

-- `s == t`
abbrev pub same : State → State → Bool
same s t = rank s == rank t

pub record Batch : Type 0 where
  pub targets : List ℕ
  pub sources : List ℕ

-- Both classes of Executor.py: `is_null` tells a `Null` from an `Executor`. Of the action list only
-- its emptiness matters to the walk.
pub record Executor : Type 0 where
  pub is_null : Bool
  pub has_actions : Bool
  pub batches : List Batch

pub record Node : Type 0 where
  pub state : State
  pub ref_count : ℤ
  pub waiting_parents : List ℕ
  pub waiting_s_e : List ℕ
  pub side_effects : List ℕ
  pub sources : List ℕ
  pub prerequisites : Option (List ℕ)
  pub executor : Option Executor
  pub has_builder : Bool
  pub always_build : Bool
  pub cached : Bool

abbrev pub Heap : Type 0
Heap = ℕ → Node

abbrev pub update : Heap → ℕ → Node → Heap
update h n v m = if m == n then v else h m

unfoldable pub set_state : State → ℕ → Heap → Heap
set_state s n h = update h n (record (h n) { state = s })

unfoldable pub add_to_waiting_s_e : ℕ → ℕ → Heap → Heap
add_to_waiting_s_e n node h =
    update h n (record (h n) { waiting_s_e = insert node (h n).waiting_s_e })

-- The number of parents added, and the heap after it.
unfoldable pub add_to_waiting_parents : ℕ → ℕ → Heap → ℕ × Heap
add_to_waiting_parents n node h =
    let wp = (h n).waiting_parents in
    if elem node wp
    then (0, h)
    else (1, update h n (record (h n) { waiting_parents = insert node wp }))

-- `waiting_parents = set()`, in `postprocess` and in `Taskmaster.will_not_build`.
unfoldable pub clear_waiting_parents : ℕ → Heap → Heap
clear_waiting_parents n h = update h n (record (h n) { waiting_parents = [] })

unfoldable pub add_ref_count : ℤ → ℕ → Heap → Heap
add_ref_count k n h = update h n (record (h n) { ref_count = (h n).ref_count +ℤ k })
