-- ===== src/Build/Taskmaster/Cycles.antt =====
-- Taskmaster.py: the search for dependency cycles, `Taskmaster.cleanup`, and the check of the pending
-- children that the taskmaster has for debugging. A stack is a list, its end first; the set `visited`
-- is shared by the calls of `find_cycle`, so each call returns it.
pub mod Search
pub mod Cleanup
use cross_chain.Prelude.{
  ℕ, zero, suc, Bool, true, false, not, ◌&&◌, ◌||◌, Option, none, some, List, [], ◌∷◌,
  if◌then◌else◌, ◌==◌, elem,
}
use cross_chain.Prelude.Int.{ℤ, pos, negsuc}
use cross_chain.Build.Node.{pending, executing, executed, same, Heap}
use cross_chain.Build.Executor.{Exception, user_error, Outcome, returned, raised}

-- A cycle, or `none` for `None`, and the nodes visited; the outer `none` means that the fuel ran out.
abbrev pub Search : Type 0
Search = Option (Option (List ℕ) × List ℕ)

-- The `for` loop of `find_cycle`, for the stack `stack` that begins with `first`.
unfoldable pub try_parents : (ℕ → List ℕ → Search) → ℕ → List ℕ → List ℕ → List ℕ → Search
try_parents search first stack [] visited = some (none, visited)
try_parents search first stack (n ∷ ns) visited =
    if first == n then some (some (n ∷ stack), visited) else elim (search n visited) [
      | none ↦ none
      | some (some cycle, visited') ↦ some (some cycle, visited')
      | some (none, visited') ↦ try_parents search first stack ns visited'
    ]

-- `find_cycle(stack, visited)`, for the stack `top ∷ below`.
unfoldable pub find_cycle : ℕ → Heap → ℕ → ℕ → List ℕ → List ℕ → Search
unfolding try_parents
find_cycle zero h first top below visited = none
find_cycle (suc fuel) h first top below visited =
    let search = find_cycle fuel h first in
    if elem top visited
    then some (none, visited)
    else try_parents (λ n v. search n (top ∷ below) v) first (top ∷ below) (h top).waiting_parents
        (top ∷ visited)

-- Whether one of the pending children is on a cycle or was not executed.
unfoldable pub any_genuine : ℕ → Heap → List ℕ → Option Bool
unfolding find_cycle
any_genuine fuel h [] = some false
any_genuine fuel h (n ∷ ns) =
    let rest = any_genuine fuel h ns in
    elim (find_cycle fuel h n n [] []) [
      | none ↦ none
      | some (some cycle, _) ↦ elim rest [ none ↦ none | some _ ↦ some true ]
      | some (none, _) ↦ elim rest [
        | none ↦ none
        | some genuine ↦ some (not (same (h n).state executed) || genuine)
      ]
    ]

unfoldable pub cleanup : ℕ → Heap → List ℕ → Option (Outcome (Unit {0}))
unfolding any_genuine
cleanup fuel h [] = some (returned tt)
cleanup fuel h (n ∷ ns) = elim (any_genuine fuel h (n ∷ ns)) [
  | none ↦ none
  | some genuine ↦ some (if genuine then raised user_error else returned tt)
]

abbrev pub is_positive : ℤ → Bool
is_positive (pos zero) = false
is_positive (pos (suc n)) = true
is_positive (negsuc n) = false

unfoldable pub all_counted : Heap → List ℕ → Bool
all_counted h [] = true
all_counted h (p ∷ ps) = is_positive (h p).ref_count && all_counted h ps

abbrev pub is_empty : List ℕ → Bool
is_empty [] = true
is_empty (_ ∷ _) = false

-- `_validate_pending_children`: whether all of its assertions hold.
unfoldable pub validate_pending_children : Heap → List ℕ → Bool
unfolding all_counted
validate_pending_children h [] = true
validate_pending_children h (n ∷ ns) =
    (same (h n).state pending || same (h n).state executing)
    && not (is_empty (h n).waiting_parents)
    && all_counted h (h n).waiting_parents
    && validate_pending_children h ns
