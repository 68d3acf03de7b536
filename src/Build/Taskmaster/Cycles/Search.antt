-- ===== src/Build/Taskmaster/Cycles/Search.antt =====
-- Taskmaster.py, `find_cycle`: what it returns, and the fuel for it.
use cross_chain.Prelude.{
  ℕ, zero, suc, ◌≡◌, ◌<◌, ◌≤◌, inl, inr, refl, sym, ap, ◌∙◌, true, false, Option, none, some, List,
  [], ◌∷◌, ◌++◌, arith, if◌then◌else◌, ◌==◌, ==_iff, Bool-cases, elem, All,
}
use mathlib.Core.List.{append_assoc}
use cross_chain.Prelude.Sum.{sum, sum-lt, sum_mono}
use cross_chain.Build.Node.{Heap}
use cross_chain.Build.Taskmaster.Cycles.{Search, try_parents, find_cycle}

-- Each node of the list waits for the one after it.
abbrev pub IsPath : Heap → List ℕ → Type 0
IsPath h [] = Unit
IsPath h (y ∷ []) = Unit
IsPath h (y ∷ x ∷ rest) = (elem y (h x).waiting_parents ≡ true) × IsPath h (x ∷ rest)

-- A cycle through `first` on top of the stack.
pub record IsCycle (h : Heap) (first : ℕ) (stack cycle : List ℕ) : Type 0 where
  pub between : List ℕ
  pub closed : cycle ≡ first ∷ between ++ stack
  pub path : IsPath h cycle

abbrev pub Grows : List ℕ → List ℕ → Type 0
Grows v v' = (x : ℕ) → elem x v ≡ true → elem x v' ≡ true

-- What a search returns.
abbrev pub Searched : Heap → ℕ → List ℕ → List ℕ → Search → Type 0
Searched h first stack visited result =
    (found : Option (List ℕ)) × (visited' : List ℕ) × (result ≡ some (found, visited'))
    × Grows visited visited'
    × ((cycle : List ℕ) → found ≡ some cycle → IsCycle h first stack cycle)

abbrev unvisited_in : List ℕ → ℕ → ℕ
unvisited_in visited x = if elem x visited then 0 else 1

-- How many nodes below `size` were not visited yet.
abbrev pub left_in : ℕ → List ℕ → ℕ
left_in size visited = sum size (unvisited_in visited)

left-le : (size : ℕ) (v v' : List ℕ) → Grows v v' → left_in size v' ≤ left_in size v
left-le size v v' grows = sum_mono size (unvisited_in v') (unvisited_in v) (λ i.
    elim (Bool-cases (elem i v)) [
      | inl e ↦ rw (e, grows i e) (omega arith)
      | inr e ↦ rw e (ground arith)
    ])

left-lt :
    (size top : ℕ) (v : List ℕ)
    → top < size
    → elem top v ≡ false
    → left_in size (top ∷ v) < left_in size v
left-lt size top v l absent =
    sum-lt size top (unvisited_in (top ∷ v)) (unvisited_in v) l (λ i. ground arith) (ground arith)

-- A longer stack below the cycle.
wider :
    (h : Heap) (first n : ℕ) (stack cycle : List ℕ)
    → IsCycle h first (n ∷ stack) cycle
    → IsCycle h first stack cycle
wider h first n stack cycle c = record {
  between = c.between ++ n ∷ [];
  closed = c.closed ∙ ap (λ (l : List ℕ). first ∷ l) (sym (append_assoc c.between (n ∷ []) stack));
  path = c.path;
}

module _ (size : ℕ) (h : Heap) (below : (n : ℕ) → All (λ p. p < size) (h n).waiting_parents) where
  module _ (first fuel : ℕ) (search : ℕ → List ℕ → Search) (top : ℕ) (rest : List ℕ)
      (path : IsPath h (top ∷ rest))
      (finds : (n : ℕ) (v : List ℕ)
        → n < size
        → elem n (h top).waiting_parents ≡ true
        → left_in size v < fuel
        → Searched h first (n ∷ top ∷ rest) v (search n v)) where
    parents-Searched :
        (ns visited : List ℕ)
        → All (λ n. n < size) ns
        → ((n : ℕ) → elem n ns ≡ true → elem n (h top).waiting_parents ≡ true)
        → left_in size visited < fuel
        → Searched h first (top ∷ rest) visited (try_parents search first (top ∷ rest) ns visited)
    unfolding try_parents
    parents-Searched [] visited small among enough = (none, visited, refl, λ x m. m, λ cycle e. cc)
    parents-Searched (n ∷ ns) visited small among enough = elim (Bool-cases (first == n)) [
      | inl closes ↦ (
        some (n ∷ top ∷ rest),
        visited,
        rw closes refl,
        λ x m. m,
        λ cycle e.
            let same_cycle : n ∷ top ∷ rest ≡ cycle = cc in
            rw (← same_cycle, (==_iff first n).0 closes)
              (record { between = []; closed = refl; path = (among n (ground arith), path) }),
      )
      | inr other ↦
          let (found, visited', e, grows, sound) =
            finds n visited small.0 (among n (ground arith)) enough in
          next found visited' other e grows sound
            (λ v' small'. parents-Searched ns v' small.1 (λ m k. among m (ground arith)) small')
    ]
      where
        next :
            (found : Option (List ℕ)) (visited' : List ℕ)
            → first == n ≡ false
            → search n visited ≡ some (found, visited')
            → Grows visited visited'
            → ((cycle : List ℕ) → found ≡ some cycle → IsCycle h first (n ∷ top ∷ rest) cycle)
            → ((v' : List ℕ)
                → left_in size v' < fuel
                → Searched h first (top ∷ rest) v' (try_parents search first (top ∷ rest) ns v'))
            → Searched h first
                (top ∷ rest)
                visited
                (try_parents search first (top ∷ rest) (n ∷ ns) visited)
        next (some cycle) visited' other e grows sound again = (
          some cycle,
          visited',
          rw (other, e) refl,
          grows,
          λ c e'. wider h first n (top ∷ rest) c (sound c e'),
        )
        next none visited' other e grows sound again =
            let (found, visited'', e', grows', sound') =
              again visited' (omega (arith, enough, left-le size visited visited' grows)) in
            (found, visited'', rw (other, e) e', λ x m. grows' x (grows x m), sound')

  -- Where the waiting lists name nodes below `size`, the stack is a path, and the fuel is above
  -- the number of nodes not visited yet, the search returns, it only adds to the nodes
  -- visited, and a list that it returns is a cycle: each node waits for the one after it, and `first`
  -- stands on top of the stack that the search began with.
  pub find_cycle-Searched :
      (fuel first top : ℕ) (rest visited : List ℕ)
      → top < size
      → IsPath h (top ∷ rest)
      → left_in size visited < fuel
      → Searched h first (top ∷ rest) visited (find_cycle fuel h first top rest visited)
  unfolding find_cycle
  find_cycle-Searched zero first top rest visited l path enough = absurd (omega (arith, enough))
  find_cycle-Searched (suc fuel) first top rest visited l path enough =
      elim (Bool-cases (elem top visited)) [
        | inl seen ↦ (none, visited, rw seen refl, λ x m. m, λ cycle e. cc)
        | inr unseen ↦
            let (found, visited', e, grows, sound) =
              parents-Searched first fuel (λ n v. find_cycle fuel h first n (top ∷ rest) v) top rest
                path
                (λ n v small waits enough'.
                  find_cycle-Searched fuel first n (top ∷ rest) v small (waits, path) enough')
                (h top).waiting_parents (top ∷ visited) (below top) (λ n m. m)
                (omega (arith, enough, left-lt size top visited l unseen)) in
            (found, visited', rw unseen e, λ x m. grows x (ground arith), sound)
      ]
