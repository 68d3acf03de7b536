-- ===== src/Build/Walker/Order.antt =====
-- The order in which the walk returns the nodes.
use cross_chain.Prelude.{
  ℕ, zero, suc, ◌≡◌, ◌<◌, ◌≤◌, refl, sym, ap, ◌∙◌, ◌==◌, ==_iff, true, false, Bool-cases, inl, inr,
  Option, Option-cases, none, some, List, [], ◌∷◌, ◌++◌, elem, discard, All, arith,
}
use mathlib.Core.List.{append_assoc}
use mathlib.Core.Path.{subst}
use cross_chain.Prelude.Unseen.{unseen, unseen-lt, unseen-le}
use cross_chain.Build.Walker.{
  Walker, assign, goes_on, returns, new_walker, round_of, get_next, Calls, last, next, each,
  post_order,
}

discard-absent : (n : ℕ) (xs : List ℕ) → elem n xs ≡ false → discard n xs ≡ xs
discard-absent n [] h = refl
discard-absent n (x ∷ xs) h = ground (arith, discard-absent n xs (ground arith))

module _ (kids_func : ℕ → Option ℕ → List ℕ) where
  -- Rounds of the loop, and the nodes that they return.
  data Emits : Walker → List ℕ → Walker → Type 0 where
    stays : {s : Walker} → Emits s [] s
    moves :
        {s t u : Walker} {xs : List ℕ}
        → round_of kids_func s.stack s ≡ goes_on t
        → Emits t xs u
        → Emits s xs u
    gives :
        {s t u : Walker} {n : ℕ} {xs : List ℕ}
        → round_of kids_func s.stack s ≡ returns n t
        → Emits t xs u
        → Emits s (n ∷ xs) u

  Emits-append :
      {s t u : Walker} {xs ys : List ℕ} → Emits s xs t → Emits t ys u → Emits s (xs ++ ys) u
  Emits-append stays b = b
  Emits-append (moves e a) b = moves e (Emits-append a b)
  Emits-append (gives e a) b = gives e (Emits-append a b)

  moves-Calls :
      {s t : Walker} {xs : List ℕ}
      → round_of kids_func s.stack s ≡ goes_on t
      → Calls kids_func t xs
      → Calls kids_func s xs
  unfolding get_next
  moves-Calls e (last {t = u} fuel h) = last {t = u} (suc fuel) (rw e h)
  moves-Calls e (next {t = u} fuel h c) = next {t = u} (suc fuel) (rw e h) c

  Emits-Calls : {s u : Walker} {xs : List ℕ} → Emits s xs u → u.stack ≡ [] → Calls kids_func s xs
  unfolding get_next
  Emits-Calls {s} stays e = last {t = s} 1 (rw e refl)
  Emits-Calls (moves h a) e = moves-Calls h (Emits-Calls a e)
  Emits-Calls (gives {t = t} h a) e = next 1 (rw h refl) (Emits-Calls a e)

  abbrev at : List ℕ → (ℕ → List ℕ) → Walker
  at stack w = record { stack = stack; history = stack; wkids = w }

  -- From a node on top with children left to an empty place: the attributes of the nodes below are kept.
  record Leaves (n : ℕ) (st : List ℕ) (w : ℕ → List ℕ) (xs : List ℕ) : Type 0 where
    after : ℕ → List ℕ
    emits : Emits (at (n ∷ st) w) (xs ++ n ∷ []) (at st after)
    kept : (m : ℕ) → elem m st ≡ true → after m ≡ w m

  -- What is to be shown of the children of a node.
  abbrev Visits : (ℕ → Option (List ℕ)) → ℕ → List ℕ → Type 0
  Visits visit n st =
      (k : ℕ) (xs : List ℕ) (w : ℕ → List ℕ)
      → elem k (n ∷ st) ≡ false
      → visit k ≡ some xs
      → (zs : List ℕ) × (xs ≡ zs ++ k ∷ [])
        × Leaves k (n ∷ st) (assign w k (kids_func k (some n))) zs

  other : (n m : ℕ) (st : List ℕ) → elem n st ≡ false → elem m st ≡ true → (m == n) ≡ false
  other n m st a b = elim (Bool-cases (m == n)) [
    | inl e ↦ absurd (cc (a, b, ap (λ z. elem z st) ((==_iff m n).0 e)))
    | inr e ↦ e
  ]

  discard-front : (n : ℕ) (st : List ℕ) → elem n st ≡ false → discard n (n ∷ st) ≡ st
  discard-front n st new = ground (arith, discard-absent n st new)

  Leaves-empty :
      (n : ℕ) (st : List ℕ) (w : ℕ → List ℕ) → elem n st ≡ false → w n ≡ [] → Leaves n st w []
  Leaves-empty n st w new top = record {
    after = w;
    emits = gives (rw (top, discard-front n st new) refl) stays;
    kept = λ m h. refl;
  }

  -- A child that stands on the way is left out.
  Leaves-skip :
      (n k : ℕ) (ks xs st : List ℕ) (w : ℕ → List ℕ)
      → elem n st ≡ false
      → w n ≡ k ∷ ks
      → elem k (n ∷ st) ≡ true
      → Leaves n st (assign w n ks) xs
      → Leaves n st w xs
  Leaves-skip n k ks xs st w new top old l = record {
    after = l.after;
    emits = moves (rw (top, old) refl) l.emits;
    kept = λ m h. l.kept m h ∙ rw (other n m st new h) refl;
  }

  -- Any other child is left before the rest of the children.
  Leaves-child :
      (n k : ℕ) (ks ys zs st : List ℕ) (w : ℕ → List ℕ)
      → elem n st ≡ false
      → w n ≡ k ∷ ks
      → elem k (n ∷ st) ≡ false
      → (l : Leaves k (n ∷ st) (assign (assign w n ks) k (kids_func k (some n))) ys)
      → Leaves n st l.after zs
      → Leaves n st w ((ys ++ k ∷ []) ++ zs)
  Leaves-child n k ks ys zs st w new top fresh l l' = record {
    after = l'.after;
    emits = rw append_assoc (moves (rw (top, fresh) refl) (Emits-append l.emits l'.emits));
    kept = λ m h.
        let below : elem m (n ∷ st) ≡ true = ground (arith, h) in
        l'.kept m h ∙ l.kept m below ∙ rw (other k m (n ∷ st) fresh below, other n m st new h) refl;
  }

  each-Leaves :
      (visit : ℕ → Option (List ℕ)) (n : ℕ) (st : List ℕ)
      → elem n st ≡ false
      → Visits visit n st
      → (ks xs : List ℕ) (w : ℕ → List ℕ) → w n ≡ ks
      → each kids_func visit (n ∷ st) ks ≡ some xs
      → Leaves n st w xs
  each-Leaves visit n st new v [] xs w top h =
      let none_left : [] ≡ xs = cc in
      subst (λ z. Leaves n st w z) none_left (Leaves-empty n st w new top)
  each-Leaves visit n st new v (k ∷ ks) xs w top h = elim (Bool-cases (elem k (n ∷ st))) [
    | inl old ↦
        Leaves-skip n k ks xs st w new top old
          (each-Leaves visit n st new v ks xs (assign w n ks) (ground arith) (rw old at h))
    | inr fresh ↦ elim (Option-cases (visit k)) [
      | inl e ↦ cc (rw (fresh, e) at h)
      | inr (ys, e) ↦ elim (Option-cases (each kids_func visit (n ∷ st) ks)) [
        | inl e' ↦ cc (rw (fresh, e, e') at h)
        | inr (zs, e') ↦
            let whole : ys ++ zs ≡ xs = cc (rw (fresh, e, e') at h) in
            let (front, split, l) = v k ys (assign w n ks) fresh e in
            let still : l.after n ≡ ks = l.kept n (ground arith) ∙ ground arith in
            let rest = each-Leaves visit n st new v ks zs l.after still e' in
            subst (λ z. Leaves n st w z) (ap (λ z. z ++ zs) (sym split) ∙ whole)
              (Leaves-child n k ks front zs st w new top fresh l rest)
      ]
    ]
  ]

  post_order-Leaves :
      (depth n : ℕ) (parent : Option ℕ) (st xs : List ℕ) (w : ℕ → List ℕ)
      → elem n st ≡ false
      → w n ≡ kids_func n parent
      → post_order kids_func depth st n parent ≡ some xs
      → (zs : List ℕ) × (xs ≡ zs ++ n ∷ []) × Leaves n st w zs
  unfolding post_order
  post_order-Leaves zero n parent st xs w new top h = cc
  post_order-Leaves (suc depth) n parent st xs w new top h =
      elim (Option-cases (
        each kids_func (λ k. post_order kids_func depth (n ∷ st) k (some n)) (n ∷ st)
          (kids_func n parent))) [
            | inl e ↦ cc (rw e at h)
            | inr (zs, e) ↦
                let whole : zs ++ n ∷ [] ≡ xs = cc (rw e at h) in
                (
                  zs,
                  sym whole,
                  each-Leaves (λ k. post_order kids_func depth (n ∷ st) k (some n)) n st new
                      (λ k ys v fresh h'.
                        post_order-Leaves depth k (some n) (n ∷ st) ys
                          (assign v k (kids_func k (some n))) fresh (ground arith) h')
                      (kids_func n parent) zs w top e,
                )
          ]

  module _ (size : ℕ)
      (below : (n : ℕ) (parent : Option ℕ) → All (λ k. k < size) (kids_func n parent)) where
    each_total :
        (visit : ℕ → Option (List ℕ)) (way : List ℕ)
        → ((k : ℕ) → k < size → elem k way ≡ false → (xs : List ℕ) × (visit k ≡ some xs))
        → (ks : List ℕ) → All (λ k. k < size) ks
        → (xs : List ℕ) × (each kids_func visit way ks ≡ some xs)
    each_total visit way v [] b = ([], refl)
    each_total visit way v (k ∷ ks) b =
        let (zs, rest) = each_total visit way v ks b.1 in
        elim (Bool-cases (elem k way)) [
          | inl old ↦ (zs, rw old rest)
          | inr fresh ↦ let (ys, e) = v k b.0 fresh in (ys ++ zs, rw (fresh, e, rest) refl)
        ]

    post_order_total :
        (depth n : ℕ) (way : List ℕ) (parent : Option ℕ)
        → n < size
        → elem n way ≡ false
        → unseen size way ≤ depth
        → (xs : List ℕ) × (post_order kids_func depth way n parent ≡ some xs)
    unfolding post_order
    post_order_total zero n way parent low new few =
        let fewer =
          unseen-lt size n way (n ∷ way) low new (ground arith) (λ y h. ground (arith, h)) in
        absurd (omega (arith, fewer))
    post_order_total (suc depth) n way parent low new few =
        let fewer =
          unseen-lt size n way (n ∷ way) low new (ground arith) (λ y h. ground (arith, h)) in
        let (xs, e) =
          each_total (λ k. post_order kids_func depth (n ∷ way) k (some n)) (n ∷ way)
            (λ k b fresh.
              post_order_total depth k (n ∷ way) (some n) b fresh (omega (arith, fewer)))
            (kids_func n parent) (below n parent) in
        (xs ++ n ∷ [], rw e refl)

    -- On a graph of `size` nodes, cyclic or not, and from any attributes of the nodes, the calls of
    -- `get_next` each return; together they return the nodes in the order in which a recursive walk returns them that
    -- puts the children of a node, without those on the way to it, in front of the node; then they
    -- return `None`.
    pub get_next-post_order :
        (root : ℕ) (w : ℕ → List ℕ)
        → root < size
        → (ns : List ℕ) × (post_order kids_func size [] root none ≡ some ns)
          × Calls kids_func (new_walker kids_func root w) ns
    unfolding new_walker
    get_next-post_order root w low =
        let (ns, e) = post_order_total size root [] none low refl (unseen-le size []) in
        let v = assign w root (kids_func root none) in
        let (zs, split, l) = post_order-Leaves size root none [] ns v refl (ground arith) e in
        (
          ns,
          e,
          subst (λ z. Calls kids_func (new_walker kids_func root w) z) (sym split)
              (Emits-Calls l.emits refl),
        )
