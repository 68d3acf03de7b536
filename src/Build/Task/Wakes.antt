-- ===== src/Build/Task/Wakes.antt =====
-- Taskmaster.py, `Task.postprocess`: the dictionary `parents`, the loop over the side effects and that over
-- the parents.
use cross_chain.Prelude.{
  ℕ, ◌+◌, ◌≤◌, ◌≡◌, refl, sym, ap, ◌∙◌, inl, inr, true, false, List, [], ◌∷◌, arith, if◌then◌else◌,
  ◌==◌, ==_iff, Bool-cases, All, elem,
}
use mathlib.Core.Path.{subst}
use cross_chain.Prelude.Int.{pos, is_zero, ◌-ℤ◌, pos-sub}
use cross_chain.Build.Node.{executing, same, Heap}
use cross_chain.Build.Node.Waits.{count}
use cross_chain.Build.Task.Postprocess.{
  Parents, bump, bump_all, gather, free_waiters, Release, release_side_effect, release_side_effects,
  release_targets, lower_ref_count, wake_parents,
}

-- By how much the count of `p` falls, in all.
unfoldable pub amount : ℕ → Parents → ℕ
amount p [] = 0
amount p ((q, k) ∷ rest) = (if p == q then k else 0) + amount p rest

amount-bump :
    (p q : ℕ) (ps : Parents) → amount p (bump q ps) ≡ amount p ps + (if p == q then 1 else 0)
unfolding amount bump
amount-bump p q [] = omega arith
amount-bump p q ((r, k) ∷ rest) = ground (arith, amount-bump p q rest)

amount-bump_all :
    (p : ℕ) (l : List ℕ) (ps : Parents) → amount p (bump_all l ps) ≡ amount p ps + count p l
unfolding bump_all count
amount-bump_all p [] ps = omega arith
amount-bump_all p (q ∷ l) ps = ground (arith, amount-bump_all p l (bump q ps), amount-bump p q ps)

-- How often `p` waits for the nodes of a list.
unfoldable pub gathered : ℕ → List ℕ → Heap → ℕ
gathered p [] h = 0
gathered p (t ∷ ts) h = count p (h t).waiting_parents + gathered p ts h

pub amount-gather :
    (p : ℕ) (ts : List ℕ) (h : Heap) (pc : List ℕ) (ps : Parents)
    → amount p (gather ts h pc ps).1 ≡ amount p ps + gathered p ts h
unfolding gather gathered
amount-gather p [] h pc ps = omega arith
amount-gather p (t ∷ ts) h pc ps = omega (
  arith,
  amount-gather p ts h _ (bump_all (h t).waiting_parents ps),
  amount-bump_all p (h t).waiting_parents ps,
)

-- No side effect of the nodes is being built.
abbrev pub Idle : Heap → List ℕ → Type 0
Idle h ts = All (λ t. All (λ s. same (h s).state executing ≡ false) (h t).side_effects) ts

-- What the loop over the side effects may change then: it adds candidates.
pub record Idles (r r' : Release) : Type 0 where
  pub same_heap : r'.heap ≡ r.heap
  pub same_parents : r'.parents ≡ r.parents
  pub more : (p : ℕ) → elem p r.candidates ≡ true → elem p r'.candidates ≡ true

free_waiters-more :
    (p : ℕ) (h : Heap) (ws cs : List ℕ) → elem p cs ≡ true → elem p (free_waiters h ws cs) ≡ true
unfolding free_waiters
free_waiters-more p h [] cs m = m
free_waiters-more p h (w ∷ ws) cs m = free_waiters-more p h ws _ (ground arith)

side_effect-Idles :
    (s : ℕ) (r : Release)
    → same (r.heap s).state executing ≡ false
    → Idles r (release_side_effect s r)
unfolding release_side_effect
side_effect-Idles s r idle = rw idle (record {
  same_heap = refl;
  same_parents = refl;
  more = λ p m. free_waiters-more p r.heap (r.heap s).waiting_s_e r.candidates m;
})

Idles-trans : {a b c : Release} → Idles a b → Idles b c → Idles a c
Idles-trans x y = record {
  same_heap = y.same_heap ∙ x.same_heap;
  same_parents = y.same_parents ∙ x.same_parents;
  more = λ p m. y.more p (x.more p m);
}

side_effects-Idles :
    (ss : List ℕ) (r : Release)
    → All (λ s. same (r.heap s).state executing ≡ false) ss
    → Idles r (release_side_effects ss r)
unfolding release_side_effects
side_effects-Idles [] r idle = record { same_heap = refl; same_parents = refl; more = λ p m. m }
side_effects-Idles (s ∷ ss) r idle =
    let first = side_effect-Idles s r idle.0 in
    Idles-trans first (
      side_effects-Idles ss (release_side_effect s r) (
        subst (λ h. All (λ s. same (h s).state executing ≡ false) ss) (sym first.same_heap) idle.1))

pub targets-Idles : (ts : List ℕ) (r : Release) → Idle r.heap ts → Idles r (release_targets ts r)
unfolding release_targets
targets-Idles [] r idle = record { same_heap = refl; same_parents = refl; more = λ p m. m }
targets-Idles (t ∷ ts) r idle =
    let first = side_effects-Idles (r.heap t).side_effects r idle.0 in
    Idles-trans first (
      targets-Idles ts (release_side_effects (r.heap t).side_effects r)
        (subst (λ h. Idle h ts) (sym first.same_heap) idle.1))

lower-ref :
    (q k : ℕ) (h : Heap) (p : ℕ)
    → (lower_ref_count q k h p).ref_count
      ≡ (if p == q then (h p).ref_count -ℤ pos k else (h p).ref_count)
unfolding lower_ref_count
lower-ref q k h p = ground arith

amount-nil : (p : ℕ) → amount p [] ≡ 0
unfolding amount
amount-nil p = refl

amount-cons :
    (p q k : ℕ) (rest : Parents)
    → amount p ((q, k) ∷ rest) ≡ (if p == q then k else 0) + amount p rest
unfolding amount
amount-cons p q k rest = refl

-- One entry of `parents` is dealt with.
lower-step :
    (q k : ℕ) (rest : Parents) (h : Heap) (p a : ℕ)
    → (h p).ref_count ≡ pos (a + amount p ((q, k) ∷ rest))
    → (lower_ref_count q k h p).ref_count ≡ pos (a + amount p rest)
lower-step q k rest h p a e =
    let sum = amount-cons p q k rest in
    elim (Bool-cases (p == q)) [
      | inl here ↦ rw (lower-ref q k h p) (
          rw here (pos-sub (a + amount p ((q, k) ∷ rest)) k (a + amount p rest) _ e (ground arith)))
      | inr there ↦ rw (lower-ref q k h p) (rw there (e ∙ ap pos (ground arith)))
    ]

-- The counts after the loop over the parents.
pub wake-ref :
    (ps : Parents) (h : Heap) (cs : List ℕ) (p a : ℕ)
    → (h p).ref_count ≡ pos (a + amount p ps)
    → ((wake_parents ps h cs).0 p).ref_count ≡ pos a
unfolding wake_parents amount
wake-ref [] h cs p a e = e ∙ ap pos (omega arith)
wake-ref ((q, k) ∷ rest) h cs p a e =
    wake-ref rest (lower_ref_count q k h) _ p a (lower-step q k rest h p a e)

pub wake-frame :
    (ps : Parents) (h : Heap) (cs : List ℕ) (n : ℕ)
    → let h' = (wake_parents ps h cs).0 in
      ((h' n).waiting_parents ≡ (h n).waiting_parents)
      × ((h' n).prerequisites ≡ (h n).prerequisites)
      × ((h' n).executor ≡ (h n).executor)
      × ((h' n).state ≡ (h n).state)
unfolding wake_parents lower_ref_count
wake-frame [] h cs n = (refl, refl, refl, refl)
wake-frame ((q, k) ∷ rest) h cs n =
    let (a, b, c, d) = wake-frame rest (lower_ref_count q k h) _ n in
    (a ∙ ground arith, b ∙ ground arith, c ∙ ground arith, d ∙ ground arith)

pub wake-more :
    (ps : Parents) (h : Heap) (cs : List ℕ) (p : ℕ)
    → elem p cs ≡ true
    → elem p (wake_parents ps h cs).1 ≡ true
unfolding wake_parents
wake-more [] h cs p m = m
wake-more ((q, k) ∷ rest) h cs p m = wake-more rest (lower_ref_count q k h) _ p (ground arith)

-- A count that falls to zero makes its node a candidate.
pub wake-wakes :
    (ps : Parents) (h : Heap) (cs : List ℕ) (p : ℕ)
    → (h p).ref_count ≡ pos (amount p ps)
    → 1 ≤ amount p ps
    → elem p (wake_parents ps h cs).1 ≡ true
unfolding wake_parents
wake-wakes [] h cs p e some_left =
    let none_left : amount p [] ≡ 0 = amount-nil p in absurd (omega arith)
wake-wakes ((q, k) ∷ rest) h cs p e some_left =
    let h' = lower_ref_count q k h in
    let e' : (h' p).ref_count ≡ pos (amount p rest) =
      lower-step q k rest h p 0 (e ∙ ap pos (omega arith)) ∙ ap pos (omega arith) in
    let cs' = if is_zero (h' q).ref_count then q ∷ cs else cs in
    elim (Bool-cases (amount p rest == 0)) [
      | inl last ↦
          let zero_now : amount p rest ≡ 0 = (==_iff (amount p rest) 0).0 last in
          let sum = amount-cons p q k rest in
          let here : p == q ≡ true = ground arith in
          let same_node : p ≡ q = (==_iff p q).0 here in
          let gone : is_zero (h' q).ref_count ≡ true =
            subst (λ x. is_zero (h' x).ref_count ≡ true) same_node (ap is_zero e' ∙ last) in
          wake-more rest h' cs' p (rw gone (ground arith))
      | inr more ↦ wake-wakes rest h' cs' p e' (ground arith)
    ]
