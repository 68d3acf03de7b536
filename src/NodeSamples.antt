-- ===== src/NodeSamples.antt =====
-- Small graphs on which the theorems about the scanning and walking of nodes apply.
use cross_chain.Prelude.{
  ℕ, zero, suc, ◌≡◌, ◌≢◌, ◌↔◌, ◌≤◌, ◌<◌, refl, true, Option, some, none, List, [], ◌∷◌, elem,
  length, All, arith,
}
use cross_chain.Build.Implicit.{
  all_nodes, recurse_nodes, get_implicit_deps, implicit_loop, not_seen,
}
use cross_chain.Build.Implicit.Ends.{Finite, get_implicit_deps_total}
use cross_chain.Build.Implicit.Closed.{Reaches, Filters, get_implicit_deps_iff}
use cross_chain.Build.Walker.{new_walker, Calls, post_order}
use cross_chain.Build.Walker.Order.{get_next-post_order}

-- Two headers that include each other, and a source that includes the first.
abbrev includes : ℕ → List ℕ
includes zero = 1 ∷ []
includes (suc zero) = 2 ∷ []
includes (suc (suc n)) = 1 ∷ []

includes_below : (n : ℕ) → All (λ k. k < 3) (includes n)
includes_below zero = (omega arith, tt)
includes_below (suc zero) = (omega arith, tt)
includes_below (suc (suc n)) = (omega arith, tt)

includes_few : (n : ℕ) → length (includes n) ≤ 1
includes_few zero = omega arith
includes_few (suc zero) = omega arith
includes_few (suc (suc n)) = omega arith

includes-Finite : Finite 3 1 includes all_nodes
unfolding recurse_nodes
includes-Finite = record { below = includes_below; few = includes_few; recurses = λ d. omega arith }

all_nodes-Filters : Filters all_nodes (λ x. true)
unfolding recurse_nodes
all_nodes-Filters d x = ground arith

sample_deps : get_implicit_deps includes 4 0 (some all_nodes) ≡ some (1 ∷ 2 ∷ [])
unfolding get_implicit_deps implicit_loop not_seen recurse_nodes
sample_deps = refl

get_implicit_deps_total_example :
    (ds : List ℕ) × (get_implicit_deps includes 4 0 (some all_nodes) ≡ some ds)
get_implicit_deps_total_example = get_implicit_deps_total 3 1 includes all_nodes includes-Finite 0

get_implicit_deps_iff_example :
    (elem 2 (1 ∷ 2 ∷ []) ≡ true) ↔ (◌≢◌ {A = ℕ} 2 0 × Reaches includes (λ x. true) 0 2)
get_implicit_deps_iff_example =
    get_implicit_deps_iff includes (λ x. true) all_nodes all_nodes-Filters 0 4 (1 ∷ 2 ∷ [])
      sample_deps 2

abbrev kids : ℕ → Option ℕ → List ℕ
kids n parent = includes n

get_next-post_order_example :
    (ns : List ℕ) × (post_order kids 3 [] 0 none ≡ some ns)
    × Calls kids (new_walker kids 0 (λ n. [])) ns
get_next-post_order_example =
    get_next-post_order kids 3 (λ n parent. includes_below n) 0 (λ n. []) (omega arith)

sample_order : post_order kids 3 [] 0 none ≡ some (2 ∷ 1 ∷ 0 ∷ [])
unfolding post_order
sample_order = refl
