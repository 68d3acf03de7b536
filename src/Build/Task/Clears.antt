-- ===== src/Build/Task/Clears.antt =====
-- Taskmaster.py, `Task.postprocess`: the loop that clears the targets' waiting lists.
use cross_chain.Prelude.{
  ℕ, ◌+◌, ◌≤◌, ◌<◌, ◌≡◌, ◌≢◌, refl, ◌∙◌, inl, inr, true, false, List, [], ◌∷◌, arith, if◌then◌else◌,
  ◌==◌, ==_iff, Bool-cases, All, All-elem, All-of_elem, elem,
}
use cross_chain.Build.Node.{Heap, clear_waiting_parents}
use cross_chain.Build.Node.Waits.{count, waits, waits-update}
use cross_chain.Build.Executor.{unique_after, unique}
use cross_chain.Build.Task.Postprocess.{clear_targets}
use cross_chain.Build.Task.Wakes.{gathered}

-- Clearing the targets.
abbrev Distinct : List ℕ → Type 0
Distinct [] = Unit
Distinct (x ∷ xs) = (elem x xs ≡ false) × Distinct xs

pub elem-unique_after :
    (x : ℕ) (seen l : List ℕ)
    → elem x (unique_after seen l) ≡ (if elem x seen then false else elem x l)
elem-unique_after x seen [] = ground arith
elem-unique_after x seen (y ∷ l) =
    ground (arith, elem-unique_after x seen l, elem-unique_after x (y ∷ seen) l)

pub unique-Distinct : (seen l : List ℕ) → Distinct (unique_after seen l)
unique-Distinct seen [] = tt
unique-Distinct seen (y ∷ l) = elim (Bool-cases (elem y seen)) [
  | inl e ↦ rw e (unique-Distinct seen l)
  | inr e ↦ rw e (elem-unique_after y (y ∷ seen) l ∙ ground arith, unique-Distinct (y ∷ seen) l)
]

gathered-clear :
    (p t : ℕ) (ts : List ℕ) (h : Heap)
    → elem t ts ≡ false
    → gathered p ts (clear_waiting_parents t h) ≡ gathered p ts h
unfolding gathered clear_waiting_parents
gathered-clear p t [] h absent = refl
gathered-clear p t (u ∷ ts) h absent = ground (arith, gathered-clear p t ts h)

clear-count : (p t : ℕ) (h : Heap) → count p (clear_waiting_parents t h t).waiting_parents ≡ 0
unfolding clear_waiting_parents count
clear-count p t h = ground arith

clear-other :
    (t : ℕ) (h : Heap) (n : ℕ)
    → n ≢ t
    → (h n).waiting_parents ≡ (clear_waiting_parents t h n).waiting_parents
unfolding clear_waiting_parents
clear-other t h n ne = ground arith

pub waits-clear :
    (size : ℕ) (ts : List ℕ) (h : Heap) (p : ℕ)
    → All (λ t. t < size) ts
    → Distinct ts
    → waits size h p ≡ waits size (clear_targets ts h) p + gathered p ts h
unfolding clear_targets gathered
waits-clear size [] h p below distinct = omega arith
waits-clear size (t ∷ ts) h p below distinct =
    let h' = clear_waiting_parents t h in
    omega (
      arith,
      waits-clear size ts h' p below.1 distinct.1,
      gathered-clear p t ts h distinct.0,
      waits-update size t p h h' below.0 (clear-other t h),
      clear-count p t h,
    )

pub clear-frame :
    (ts : List ℕ) (h : Heap) (n : ℕ)
    → ((clear_targets ts h n).ref_count ≡ (h n).ref_count)
      × ((clear_targets ts h n).prerequisites ≡ (h n).prerequisites)
      × ((clear_targets ts h n).executor ≡ (h n).executor)
unfolding clear_targets clear_waiting_parents
clear-frame [] h n = (refl, refl, refl)
clear-frame (t ∷ ts) h n =
    let (a, b, c) = clear-frame ts (clear_waiting_parents t h) n in
    (a ∙ ground arith, b ∙ ground arith, c ∙ ground arith)

pub clear-parents :
    (ts : List ℕ) (h : Heap) (n : ℕ)
    → (clear_targets ts h n).waiting_parents ≡ (if elem n ts then [] else (h n).waiting_parents)
unfolding clear_targets clear_waiting_parents
clear-parents [] h n = refl
clear-parents (t ∷ ts) h n = clear-parents ts (clear_waiting_parents t h) n ∙ ground arith

count-elem : (p : ℕ) (l : List ℕ) → elem p l ≡ true → 1 ≤ count p l
unfolding count
count-elem p [] m = cc
count-elem p (q ∷ l) m = ground (arith, count-elem p l)

pub gathered-elem :
    (p t : ℕ) (ts : List ℕ) (h : Heap)
    → elem t ts ≡ true
    → elem p (h t).waiting_parents ≡ true
    → 1 ≤ gathered p ts h
unfolding gathered
gathered-elem p t [] h m waits_here = cc
gathered-elem p t (u ∷ ts) h m waits_here = elim (Bool-cases (t == u)) [
  | inl e ↦
      let here = count-elem p (h u).waiting_parents (rw (← (==_iff t u).0 e) waits_here) in
      omega (arith, here)
  | inr e ↦ omega (arith, gathered-elem p t ts h (ground arith) waits_here)
]

pub below-unique : (size : ℕ) (l : List ℕ) → All (λ t. t < size) l → All (λ t. t < size) (unique l)
below-unique size l b =
    All-of_elem (λ t. t < size) (unique l)
      (λ x m. All-elem (λ t. t < size) x l b (ground (arith, elem-unique_after x [] l)))
