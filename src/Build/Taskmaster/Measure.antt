-- ===== src/Build/Taskmaster/Measure.antt =====
-- A measure of the work that `_find_next_ready_node` (Taskmaster.py) has left, and the bounds behind it.
use cross_chain.Prelude.{
  ℕ, suc, ◌+◌, ◌*◌, ◌≡◌, ◌<◌, ◌≤◌, refl, sym, true, List, [], ◌∷◌, ◌++◌, arith, if◌then◌else◌, All,
  elem, length, length-append,
}
use native.Mathlib.Decide.{dec_lt}
use cross_chain.Prelude.Sum.{sum, sum_mono, sum-update, sum-lt, sum-le, sum_zero}
use cross_chain.Build.Node.{no_state, same, Heap}
use cross_chain.Build.Node.Waits.{count}
use cross_chain.Build.Executor.{unique_after}

abbrev pub fresh : Heap → ℕ → ℕ
fresh h n = if same (h n).state no_state then 1 else 0

-- How many nodes below `size` were not visited yet.
abbrev pub unseen : ℕ → Heap → ℕ
unseen size h = sum size (fresh h)

-- What the state of the next candidate adds.
abbrev pub bonus : ℕ → Heap → List ℕ → ℕ
bonus cap h [] = cap
bonus cap h (x ∷ _) = if same (h x).state no_state then 0 else cap

-- Each candidate counts for one, and each node not visited yet for the two times `cap` candidates that
-- its children and those of the node above it may add.
abbrev pub work : ℕ → ℕ → Heap → List ℕ → ℕ
work size cap h s = length s + cap * (unseen size h + unseen size h) + bonus cap h s

-- No node became unvisited.
abbrev pub Shrinks : Heap → Heap → Type 0
Shrinks h h' = (n : ℕ) → fresh h' n ≤ fresh h n

pub mul_mono : (c a b : ℕ) → a ≤ b → c * a ≤ c * b
mul_mono c a b h = grind arith

pub bonus-le : (cap : ℕ) (h : Heap) (s : List ℕ) → bonus cap h s ≤ cap
bonus-le cap h [] = omega arith
bonus-le cap h (x ∷ s) = ground arith

bonus_mono :
    (cap x : ℕ) (h h' : Heap) (s : List ℕ)
    → fresh h x ≤ fresh h' x
    → bonus cap h' (x ∷ s) ≤ bonus cap h (x ∷ s)
bonus_mono cap x h h' s l = ground arith

module _ (size cap : ℕ) where
  pub work-Shrinks :
      (h h' : Heap) (s : List ℕ)
      → Shrinks h h'
      → All (λ c. c < size) s
      → work size cap h' s ≤ work size cap h s
  work-Shrinks h h' [] shrinks b =
      let fewer = sum_mono size (fresh h') (fresh h) shrinks in
      omega (
        arith,
        mul_mono cap (unseen size h' + unseen size h') (unseen size h + unseen size h)
            (omega (arith, fewer)),
      )
  work-Shrinks h h' (x ∷ s) shrinks b = elim (dec_lt (fresh h' x) (fresh h x)) [
    | yes less ↦
        let strictly = sum-lt size x (fresh h') (fresh h) b.0 shrinks less in
        let u = unseen size h in
        let u' = unseen size h' in
        omega (
          arith,
          mul_mono cap (u' + u' + 1) (u + u) (omega (arith, strictly)),
          bonus-le cap h' (x ∷ s),
        )
    | no same_here ↦
        let fewer = sum_mono size (fresh h') (fresh h) shrinks in
        let u = unseen size h in
        let u' = unseen size h' in
        omega (
          arith,
          mul_mono cap (u' + u') (u + u) (omega (arith, fewer)),
          bonus_mono cap x h h' s (omega arith),
        )
  ]

  -- Candidates that were not visited yet go on top of the stack.
  pub work-push :
      (h : Heap) (new s : List ℕ)
      → All (λ c. same (h c).state no_state ≡ true) new
      → length new ≤ cap
      → work size cap h (new ++ s) ≤ length s + cap + cap * (unseen size h + unseen size h)
  work-push h [] s f l = omega (arith, bonus-le cap h s)
  work-push h (x ∷ new) s f l =
      let none_now : bonus cap h (x ∷ new ++ s) ≡ 0 = rw f.0 in
      omega (arith, none_now, length-append new s)

length-eq-sum :
    (size : ℕ) (l : List ℕ) → All (λ c. c < size) l → length l ≡ sum size (λ x. count x l)
unfolding count
length-eq-sum size [] b = sym (sum_zero size _ (λ i. refl))
length-eq-sum size (y ∷ l) b =
    let one_more : count y (y ∷ l) ≡ suc (count y l) = ground arith in
    omega (
      arith,
      length-eq-sum size l b.1,
      one_more,
      sum-update size y (λ x. count x (y ∷ l)) (λ x. count x l) b.0 (λ i ne. ground arith),
    )

count-unique-le :
    (x : ℕ) (seen l : List ℕ) → count x (unique_after seen l) ≤ (if elem x seen then 0 else 1)
unfolding count
count-unique-le x seen [] = ground arith
count-unique-le x seen (y ∷ l) =
    ground (arith, count-unique-le x seen l, count-unique-le x (y ∷ seen) l)

-- A list without repetition of nodes below `size` has at most `size` entries.
pub length-unique-le :
    (size : ℕ) (l : List ℕ)
    → All (λ c. c < size) (unique_after [] l)
    → length (unique_after [] l) ≤ size
length-unique-le size l b =
    omega (arith, length-eq-sum size _ b, sum-le size _ (λ i. count-unique-le i [] l))
