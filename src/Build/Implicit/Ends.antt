-- ===== src/Build/Implicit/Ends.antt =====
-- The loop of `get_implicit_deps` ends on finite graphs.
use cross_chain.Prelude.{
  ℕ, zero, suc, ◌≡◌, ◌+◌, ◌*◌, ◌<◌, ◌≤◌, refl, sym, ap, false, Bool-cases, inl, inr, Option, some,
  List, [], ◌∷◌, ◌++◌, elem, elem-union, union, length, length-append, All, arith,
}
use cross_chain.Prelude.Unseen.{unseen, unseen-lt, unseen-le}
use cross_chain.Build.Taskmaster.Measure.{mul_mono}
use cross_chain.Build.Implicit.{
  Recursive, recurse_nodes, not_seen, round, implicit_loop, get_implicit_deps,
}

-- A graph of `size` nodes, each of which includes at most `width` nodes of it, and a scanner that
-- recurses into no more nodes than it is given.
pub record Finite (size width : ℕ) (found_includes : ℕ → List ℕ) (recursive : Recursive)
    : Type 0 where
  pub below : (n : ℕ) → All (λ x. x < size) (found_includes n)
  pub few : (n : ℕ) → length (found_includes n) ≤ width
  pub recurses : (d : List ℕ) → length (recurse_nodes recursive d) ≤ length d

length-not_seen-le : (seen xs : List ℕ) → length (not_seen seen xs) ≤ length xs
unfolding not_seen
length-not_seen-le seen [] = omega arith
length-not_seen-le seen (x ∷ xs) = ground (arith, length-not_seen-le seen xs)

-- The first of the nodes that are no keys is none, and stands among the others.
not_seen-new :
    (size x : ℕ) (seen xs d : List ℕ)
    → All (λ y. y < size) xs
    → not_seen seen xs ≡ x ∷ d
    → (elem x seen ≡ false) × (x < size)
unfolding not_seen
not_seen-new size x seen [] d h e = cc
not_seen-new size x seen (y ∷ xs) d h e = elim (Bool-cases (elem y seen)) [
  | inl old ↦ not_seen-new size x seen xs d h.1 (rw old at e)
  | inr new ↦ let same : y ≡ x = cc (rw new at e) in rw (sym same) (new, h.0)
]

-- A new key lowers the number of nodes that are none.
unseen-union :
    (size x : ℕ) (d seen : List ℕ)
    → x < size
    → elem x seen ≡ false
    → unseen size (union (x ∷ d) seen) < unseen size seen
unseen-union size x d seen low new =
    unseen-lt size x seen (union (x ∷ d) seen) low new (ground (arith, elem-union x (x ∷ d) seen))
      (λ y h. ground (arith, elem-union y (x ∷ d) seen))

mul_step : (w a b : ℕ) → a < b → w + w * a ≤ w * b
mul_step w a b h = grind arith

module _ (size width : ℕ) (found_includes : ℕ → List ℕ) (recursive : Recursive)
    (finite : Finite size width found_includes recursive) where
  Enough : ℕ → List ℕ → List ℕ → Type 0
  Enough fuel nodes seen = length nodes + width * unseen size seen ≤ fuel

  -- One round, where the loop goes on with less fuel.
  round_total :
      (fuel n : ℕ) (nodes seen deps d : List ℕ)
      → not_seen seen (found_includes n) ≡ d
      → Enough (suc fuel) (n ∷ nodes) seen
      → (again : List ℕ → List ℕ → List ℕ → Option (List ℕ))
      → ((ns s ds : List ℕ) → Enough fuel ns s → (r : List ℕ) × (again ns s ds ≡ some r))
      → (r : List ℕ) × (round found_includes recursive again nodes seen deps d ≡ some r)
  unfolding Enough
  round_total fuel n nodes seen deps [] e h again ends = ends nodes seen deps (omega arith)
  round_total fuel n nodes seen deps (x ∷ d) e h again ends =
      let (new, low) = not_seen-new size x seen (found_includes n) d (finite.below n) e in
      let fewer = mul_step width _ _ (unseen-union size x d seen low new) in
      let few = length-not_seen-le seen (found_includes n) in
      let pushed = recurse_nodes recursive (x ∷ d) in
      ends (nodes ++ pushed) (union (x ∷ d) seen) (deps ++ x ∷ d) (
        omega (
          arith,
          fewer,
          few,
          finite.few n,
          finite.recurses (x ∷ d),
          length-append nodes pushed,
          ap length e,
        ))

  implicit_loop_total :
      (fuel : ℕ) (nodes seen deps : List ℕ)
      → Enough fuel nodes seen
      → (ds : List ℕ) × (implicit_loop found_includes recursive fuel nodes seen deps ≡ some ds)
  unfolding implicit_loop Enough
  implicit_loop_total fuel [] seen deps h = (deps, refl)
  implicit_loop_total zero (n ∷ nodes) seen deps h = absurd (omega arith)
  implicit_loop_total (suc fuel) (n ∷ nodes) seen deps h =
      round_total fuel n nodes seen deps _ refl h _ (λ ns s ds. implicit_loop_total fuel ns s ds)

  -- On a graph of `size` nodes with lists of at most `width` entries, and with a scanner that recurses into
  -- no more nodes than it is given, `get_implicit_deps` returns within one round more than the product of
  -- the two, include loops or not.
  pub get_implicit_deps_total :
      (node : ℕ)
      → (ds : List ℕ) × (get_implicit_deps found_includes (suc (width * size)) node (some recursive)
          ≡ some ds)
  unfolding get_implicit_deps Enough
  get_implicit_deps_total node =
      implicit_loop_total (suc (width * size)) (node ∷ []) (node ∷ []) []
        (omega (arith, mul_mono width (unseen size (node ∷ [])) size (unseen-le size (node ∷ []))))
