-- ===== src/Build/Taskmaster.antt =====
-- Taskmaster.py: the state of a `Taskmaster`, its stack of candidates, and the clean-up after nodes
-- that will never be built. The Python lists `candidates` and `top_targets_left` grow and shrink at
-- their ends; here they are stacks, the end first.
pub mod Visit
pub mod WillNotBuild
pub mod Ready
pub mod Counts
pub mod Measure
pub mod Walks
pub mod Scans
pub mod Ends
pub mod Failure
pub mod Cycles
use cross_chain.Prelude.{
  ℕ, zero, suc, Bool, true, false, Option, none, some, List, [], ◌∷◌, ◌++◌, reverse, if◌then◌else◌,
  elem, union, difference,
}
use cross_chain.Prelude.Int.{ℤ, pos, negsuc}
use cross_chain.Build.Node.{
  State, failed, Node, Heap, set_state, clear_waiting_parents, add_ref_count,
}
use cross_chain.Build.Executor.{Exception, World}

pub record Taskmaster : Type 0 where
  pub heap : Heap
  pub original_top : List ℕ
  pub top_targets_left : List ℕ
  pub candidates : List ℕ
  pub current_top : Option ℕ
  pub pending_children : List ℕ
  -- whether `next_candidate` is `no_next_candidate`
  pub stopped : Bool
  pub ready_exc : Option Exception

-- `Taskmaster(targets)`
unfoldable pub init : Heap → List ℕ → Taskmaster
init h targets = record {
  heap = h;
  original_top = targets;
  top_targets_left = targets;
  candidates = [];
  current_top = none;
  pending_children = [];
  stopped = false;
  ready_exc = none;
}

unfoldable pub release_parents : List ℕ → Heap → Heap
release_parents [] h = h
release_parents (p ∷ ps) h = release_parents ps (add_ref_count (negsuc 0) p h)

-- The `while` loop of `will_not_build`; `none` means that the fuel ran out. `to_visit.pop()` takes the
-- first node of the list.
unfoldable pub will_not_build_loop :
    (ℕ → Heap → Heap) → ℕ → List ℕ → List ℕ → Heap → Option (List ℕ × Heap)
will_not_build_loop node_func zero to_visit pc h = none
will_not_build_loop node_func (suc fuel) [] pc h = some (pc, h)
will_not_build_loop node_func (suc fuel) (node ∷ rest) pc h =
    let h' = node_func node h in
    let parents = (h' node).waiting_parents in
    will_not_build_loop node_func fuel (union rest parents) (difference pc parents)
      (release_parents parents (clear_waiting_parents node h'))

abbrev apply_will_not_build : Taskmaster → Option (List ℕ × Heap) → Option Taskmaster
apply_will_not_build tm none = none
apply_will_not_build tm (some (pc, h)) = some (record tm { pending_children = pc; heap = h })

unfoldable pub will_not_build : ℕ → (ℕ → Heap → Heap) → List ℕ → Taskmaster → Option Taskmaster
will_not_build fuel node_func nodes tm =
    let to_visit = union nodes [] in
    apply_will_not_build tm (
      will_not_build_loop node_func fuel to_visit (difference tm.pending_children to_visit) tm.heap)

abbrev pub leave : ℕ → Heap → Heap
leave n h = h

abbrev pub mark_failed : ℕ → Heap → Heap
mark_failed = set_state failed

-- `will_not_build` adds no candidate, so the `while` loop of `no_next_candidate` makes one round at
-- most.
unfoldable pub no_next_candidate : ℕ → Taskmaster → Option Taskmaster
no_next_candidate fuel tm = elim tm.candidates [
  | [] ↦ some tm
  | c ∷ cs ↦ will_not_build fuel leave (c ∷ cs) (record tm { candidates = [] })
]

unfoldable pub stop : Taskmaster → Taskmaster
stop tm = record tm { stopped = true }

-- `self.candidates.pop()`, where `candidates` is the given stack.
unfoldable pub pop_candidate : List ℕ → Taskmaster → Option ℕ × Taskmaster
pop_candidate [] tm = (none, record tm { candidates = [] })
pop_candidate (c ∷ cs) tm = (some c, record tm { candidates = cs })

-- The other nodes that the top-level target `node` names come before it.
unfoldable pub alter : List ℕ → World → ℕ → Taskmaster → Option ℕ × Taskmaster
alter [] w node tm = (some node, tm)
alter (a ∷ alt) w node tm = pop_candidate (reverse (w.order (a ∷ alt)) ++ node ∷ []) tm

-- `self.top_targets_left.pop()`, where `top_targets_left` is the given stack.
unfoldable pub next_top : List ℕ → World → Taskmaster → Option ℕ × Taskmaster
next_top [] w tm = (none, tm)
next_top (node ∷ left) w tm =
    alter (w.alter_targets node) w node
      (record tm { top_targets_left = left; current_top = some node })

unfoldable pub next_from : List ℕ → World → Taskmaster → Option ℕ × Taskmaster
unfolding next_top alter pop_candidate
next_from [] w tm = next_top tm.top_targets_left w tm
next_from (c ∷ cs) w tm = pop_candidate (c ∷ cs) tm

unfoldable pub find_next_candidate : World → Taskmaster → Option ℕ × Taskmaster
unfolding next_from
find_next_candidate w tm = next_from tm.candidates w tm
