-- ===== src/Build/Implicit.antt =====
-- `get_implicit_deps` of Node/__init__.py: the files that a node includes, and those that they include
-- in turn, as far as the scanner (Scanner/__init__.py) recurses. `found_includes` is what the subclasses
-- make of `get_found_includes`. `seen` is a dictionary of which only the keys matter.
pub mod Ends
pub mod Closed
use cross_chain.Prelude.{
  ℕ, zero, suc, Bool, true, false, Option, none, some, List, [], ◌∷◌, ◌++◌, if◌then◌else◌, elem,
  union,
}

-- `recurse_nodes` of a scanner.
pub data Recursive : Type 0 where
  all_nodes : Recursive
  no_nodes : Recursive
  given : (List ℕ → List ℕ) → Recursive

unfoldable pub recurse_nodes : Recursive → List ℕ → List ℕ
recurse_nodes all_nodes nodes = nodes
recurse_nodes no_nodes nodes = []
recurse_nodes (given f) nodes = f nodes

-- `[x for x in xs if x not in seen]`
unfoldable pub not_seen : List ℕ → List ℕ → List ℕ
not_seen seen [] = []
not_seen seen (x ∷ xs) = let rest = not_seen seen xs in if elem x seen then rest else x ∷ rest

module _ (found_includes : ℕ → List ℕ) (recursive : Recursive) where
  -- One round, of the nodes that were new; the loop goes on with other nodes, keys and dependencies.
  abbrev pub round :
      (List ℕ → List ℕ → List ℕ → Option (List ℕ)) → (nodes seen deps d : List ℕ) → Option (List ℕ)
  round again nodes seen deps [] = again nodes seen deps
  round again nodes seen deps (x ∷ d) =
      again (nodes ++ recurse_nodes recursive (x ∷ d)) (union (x ∷ d) seen) (deps ++ x ∷ d)

  -- The loop; `none` is when the fuel runs out.
  unfoldable pub implicit_loop : ℕ → (nodes seen deps : List ℕ) → Option (List ℕ)
  implicit_loop fuel [] seen deps = some deps
  implicit_loop zero (n ∷ nodes) seen deps = none
  implicit_loop (suc fuel) (n ∷ nodes) seen deps =
      round (λ ns s ds. implicit_loop fuel ns s ds) nodes seen deps
        (not_seen seen (found_includes n))

-- `get_implicit_deps`, where the scanner may be missing.
unfoldable pub get_implicit_deps : (ℕ → List ℕ) → ℕ → ℕ → Option Recursive → Option (List ℕ)
get_implicit_deps found_includes fuel node none = some []
get_implicit_deps found_includes fuel node (some recursive) =
    implicit_loop found_includes recursive fuel (node ∷ []) (node ∷ []) []
