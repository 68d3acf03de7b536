-- ===== src/Build/Implicit/Closed.antt =====
-- The implicit dependencies are the nodes that includes lead to.
use cross_chain.Prelude.{
  ℕ, zero, suc, ◌≡◌, ◌≢◌, ◌↔◌, ◌⊎◌, refl, sym, ap, ◌∙◌, ◌==◌, ==_iff, Bool, true, false, not, ◌||◌,
  ◌&&◌, Bool-cases, inl, inr, Option, some, List, [], ◌∷◌, ◌++◌, elem, elem-union, elem-append,
  union, arith,
}
use mathlib.Core.Path.{subst}
use cross_chain.Build.Implicit.{
  Recursive, recurse_nodes, not_seen, round, implicit_loop, get_implicit_deps,
}

elem-not_seen :
    (x : ℕ) (seen xs : List ℕ) → elem x (not_seen seen xs) ≡ (elem x xs && not (elem x seen))
unfolding not_seen
elem-not_seen x seen [] = refl
elem-not_seen x seen (y ∷ xs) = elim (Bool-cases (x == y)) [
  | inl e ↦
      let same : x ≡ y = (==_iff x y).0 e in
      ground (arith, elem-not_seen x seen xs, ap (λ z. elem z seen) same)
  | inr e ↦ ground (arith, elem-not_seen x seen xs)
]

module _ (found_includes : ℕ → List ℕ) (r : ℕ → Bool) where
  -- The nodes that a node includes, and those that they include, where the scanner recurses into them.
  pub data Reaches (n : ℕ) : ℕ → Type 0 where
    once : {x : ℕ} → elem x (found_includes n) ≡ true → Reaches n x
    further : {m x : ℕ} → Reaches n m → r m ≡ true → elem x (found_includes m) ≡ true → Reaches n x

  -- The nodes that the loop expands: the node itself, and those into which the scanner recurses.
  Expands : ℕ → ℕ → Type 0
  Expands node m = (m ≡ node) ⊎ (Reaches node m × (r m ≡ true))

  -- What the loop keeps.
  record Closed (node : ℕ) (nodes seen deps : List ℕ) : Type 0 where
    expands : (m : ℕ) → elem m nodes ≡ true → Expands node m
    keys : (x : ℕ) → elem x seen ≡ (x == node || elem x deps)
    reached : (x : ℕ) → elem x deps ≡ true → Reaches node x
    finished :
        (m : ℕ)
        → (m ≡ node) ⊎ ((elem m deps ≡ true) × (r m ≡ true))
        → (elem m nodes ≡ true) ⊎ ((x : ℕ) → elem x (found_includes m) ≡ true → elem x seen ≡ true)
    apart : elem node deps ≡ false

  leads : (node n x : ℕ) → Expands node n → elem x (found_includes n) ≡ true → Reaches node x
  unfolding Expands
  leads node n x (inl e) h = once (rw (sym e) h)
  leads node n x (inr (d, y)) h = further d y h

  module _ (node n : ℕ) (rest seen deps : List ℕ) (c : Closed node (n ∷ rest) seen deps) where
    abbrev new : ℕ → Bool
    new x = elem x (found_includes n) && not (elem x seen)

    module _ (nodes' seen' deps' : List ℕ)
        (hn : (x : ℕ) → elem x nodes' ≡ (elem x rest || (new x && r x)))
        (hs : (x : ℕ) → elem x seen' ≡ (new x || elem x seen))
        (hd : (x : ℕ) → elem x deps' ≡ (elem x deps || new x)) where
      -- The node in front is expanded: all it includes are keys now.
      step_finished :
          (m : ℕ)
          → (elem m (n ∷ rest) ≡ true)
            ⊎ ((x : ℕ) → elem x (found_includes m) ≡ true → elem x seen ≡ true)
          → (elem m nodes' ≡ true)
            ⊎ ((x : ℕ) → elem x (found_includes m) ≡ true → elem x seen' ≡ true)
      step_finished m (inr all) = inr (λ x h. ground (arith, hs x, all x h))
      step_finished m (inl waits) = elim (Bool-cases (m == n)) [
        | inl e ↦
            let same : m ≡ n = (==_iff m n).0 e in
            inr (λ x h.
              let h' : elem x (found_includes n) ≡ true = rw (sym same) h in
              ground (arith, hs x, h'))
        | inr e ↦ inl (ground (arith, hn m))
      ]

      step : Closed node nodes' seen' deps'
      unfolding Expands
      step = record {
        expands = λ m h. elim (Bool-cases (elem m rest)) [
          | inl y ↦ c.expands m (ground arith)
          | inr n' ↦ inr (
            leads node n m (c.expands n (ground arith)) (ground (arith, hn m)),
            ground (arith, hn m),
          )
        ];
        keys = λ x. ground (arith, hs x, hd x, c.keys x);
        reached = λ x h. elim (Bool-cases (elem x deps)) [
          | inl y ↦ c.reached x y
          | inr n' ↦ leads node n x (c.expands n (ground arith)) (ground (arith, hd x))
        ];
        finished = λ m h. elim h [
          | inl e ↦ step_finished m (c.finished m (inl e))
          | inr (y, z) ↦ elim (Bool-cases (elem m deps)) [
            | inl old ↦ step_finished m (c.finished m (inr (old, z)))
            | inr fresh ↦ inl (ground (arith, hn m, hd m))
          ]
        ];
        apart = ground (arith, hd node, c.keys node, c.apart);
      }

-- The scanner recurses into those of the nodes it is given that fulfil a test.
abbrev pub Filters : Recursive → (ℕ → Bool) → Type 0
Filters recursive r = (d : List ℕ) (x : ℕ) → elem x (recurse_nodes recursive d) ≡ (elem x d && r x)

module _ (found_includes : ℕ → List ℕ) (r : ℕ → Bool) (recursive : Recursive)
    (filters : Filters recursive r) (node : ℕ) where
  -- One round keeps it, in both of its branches.
  round-Closed :
      (n : ℕ) (nodes seen deps d ds : List ℕ) (again : List ℕ → List ℕ → List ℕ → Option (List ℕ))
      → not_seen seen (found_includes n) ≡ d
      → Closed found_includes r node (n ∷ nodes) seen deps
      → ((ns s es : List ℕ)
          → Closed found_includes r node ns s es
          → again ns s es ≡ some ds
          → (s' : List ℕ) × Closed found_includes r node [] s' ds)
      → round found_includes recursive again nodes seen deps d ≡ some ds
      → (s' : List ℕ) × Closed found_includes r node [] s' ds
  round-Closed n nodes seen deps [] ds again e c ih h =
      let none_new = (λ (x : ℕ). sym (elem-not_seen x seen (found_includes n)) ∙ ap (elem x) e) in
      ih nodes seen deps
        (step found_includes r node n nodes seen deps c nodes seen deps
          (λ x. ground (arith, none_new x)) (λ x. ground (arith, none_new x))
          (λ x. ground (arith, none_new x)))
        h
  round-Closed n nodes seen deps (y ∷ d) ds again e c ih h =
      let new_ones = (λ (x : ℕ). sym (elem-not_seen x seen (found_includes n)) ∙ ap (elem x) e) in
      ih _ _ _
        (step found_includes r node n nodes seen deps c (nodes ++ recurse_nodes recursive (y ∷ d))
          (union (y ∷ d) seen) (deps ++ y ∷ d) (λ x. rw (elem-append, filters, new_ones x) refl)
          (λ x. rw (elem-union x (y ∷ d) seen, new_ones x) refl)
          (λ x. rw (elem-append, new_ones x) refl))
        h

  loop-Closed :
      (fuel : ℕ) (nodes seen deps ds : List ℕ)
      → Closed found_includes r node nodes seen deps
      → implicit_loop found_includes recursive fuel nodes seen deps ≡ some ds
      → (s' : List ℕ) × Closed found_includes r node [] s' ds
  unfolding implicit_loop
  loop-Closed fuel [] seen deps ds c h =
      let same : deps ≡ ds = cc in
      (seen, subst (λ z. Closed found_includes r node [] seen z) same c)
  loop-Closed zero (n ∷ nodes) seen deps ds c h = cc
  loop-Closed (suc fuel) (n ∷ nodes) seen deps ds c h =
      round-Closed n nodes seen deps _ ds _ refl c
        (λ ns s es c' h'. loop-Closed fuel ns s es ds c' h') h

  -- In the end what an expanded node includes are keys, and so is every node reached.
  includes_keys :
      (seen ds : List ℕ)
      → Closed found_includes r node [] seen ds
      → (m x : ℕ) → (m ≡ node) ⊎ ((elem m ds ≡ true) × (r m ≡ true))
      → elem x (found_includes m) ≡ true
      → elem x seen ≡ true
  includes_keys seen ds c m x e h = elim (c.finished m e) [
    | inl waits ↦ absurd (ground arith)
    | inr all ↦ all x h
  ]

  reached_key :
      (seen ds : List ℕ)
      → Closed found_includes r node [] seen ds
      → {x : ℕ} → Reaches found_includes r node x
      → elem x seen ≡ true
  reached_key seen ds c {x} (once h) = includes_keys seen ds c node x (inl refl) h
  reached_key seen ds c {x} (further {m = m} d y h) =
      let key = reached_key seen ds c d in
      elim (Bool-cases (m == node)) [
        | inl e ↦ includes_keys seen ds c m x (inl ((==_iff m node).0 e)) h
        | inr e ↦ includes_keys seen ds c m x (inr (ground (arith, c.keys m, key), y)) h
      ]

  start : Closed found_includes r node (node ∷ []) (node ∷ []) []
  unfolding Expands
  start = record {
    expands = λ m h. inl (ground arith);
    keys = λ x. ground arith;
    reached = λ x h. absurd (ground arith);
    finished = λ m h. elim h [ inl e ↦ inl (ground arith) | inr (e, y) ↦ absurd (ground arith) ];
    apart = refl;
  }

  -- Where the scanner recurses into those of the nodes it is given that fulfil a test, and
  -- `get_implicit_deps` returns, the implicit dependencies are the nodes other than the node itself to which includes lead: those
  -- of the node, and those of a node among them that fulfils the test.
  pub get_implicit_deps_iff :
      (fuel : ℕ) (ds : List ℕ)
      → get_implicit_deps found_includes fuel node (some recursive) ≡ some ds
      → (x : ℕ) → (elem x ds ≡ true) ↔ ((x ≢ node) × Reaches found_includes r node x)
  unfolding get_implicit_deps
  get_implicit_deps_iff fuel ds h x =
      let (seen, c) = loop-Closed fuel (node ∷ []) (node ∷ []) [] ds start h in
      (
        λ y. (λ e. absurd (cc (y, c.apart, ap (λ z. elem z ds) e)), c.reached x y),
        λ (ne, d). let key = reached_key seen ds c d in ground (arith, c.keys x, key, ne),
      )
