-- ===== src/Build/Task/Executed.antt =====
-- Taskmaster.py, `executed_without_callbacks`: the states of the side effects after it.
use cross_chain.Prelude.{
  ℕ, ◌≡◌, ◌⊎◌, inl, inr, refl, sym, ◌∙◌, true, false, List, [], ◌∷◌, arith, if◌then◌else◌, ◌==◌,
  ==_iff, Bool-cases, All, All-of_elem, All-elem, elem,
}
use mathlib.Core.Path.{subst}
use cross_chain.Build.Node.{State, no_state, executing, executed, same, Heap, set_state}
use cross_chain.Build.Taskmaster.Visit.{set_states}
use cross_chain.Build.Task.{executed_target, executed_without_callbacks}
use cross_chain.Build.Task.Wakes.{Idle}

abbrev IsIdle : Heap → ℕ → Type 0
IsIdle h s = same (h s).state executing ≡ false

state-set_states :
    (s : State) (ns : List ℕ) (h : Heap) (n : ℕ)
    → (set_states s ns h n).state ≡ (if elem n ns then s else (h n).state)
unfolding set_states set_state
state-set_states s [] h n = refl
state-set_states s (m ∷ ns) h n = state-set_states s ns (set_state s m h) n ∙ ground arith

side_effects-set_states :
    (s : State) (ns : List ℕ) (h : Heap) (n : ℕ)
    → (set_states s ns h n).side_effects ≡ (h n).side_effects
unfolding set_states set_state
side_effects-set_states s [] h n = refl
side_effects-set_states s (m ∷ ns) h n =
    side_effects-set_states s ns (set_state s m h) n ∙ ground arith

-- What one target that was being built leaves.
target_state :
    (t : ℕ) (h : Heap) (n : ℕ)
    → same (h t).state executing ≡ true
    → (executed_target t h n).state
      ≡ (if n == t then executed else if elem n (h t).side_effects then no_state else (h n).state)
unfolding executed_target set_state
target_state t h n e =
    let inner = state-set_states no_state (h t).side_effects h n in
    rw (e, executed_target) (ground arith)

target_side_effects :
    (t : ℕ) (h : Heap) (n : ℕ) → (executed_target t h n).side_effects ≡ (h n).side_effects
unfolding executed_target set_state
target_side_effects t h n =
    let inner = side_effects-set_states no_state (h t).side_effects h n in
    let inner' = side_effects-set_states no_state (h t).side_effects h t in ground arith

target_same : (t : ℕ) (h : Heap) → same (h t).state executing ≡ false → executed_target t h ≡ h
unfolding executed_target
target_same t h e = rw (executed_target, e) refl

target-IsIdle : (t : ℕ) (h : Heap) (n : ℕ) → IsIdle h n → IsIdle (executed_target t h) n
target-IsIdle t h n idle = elim (Bool-cases (same (h t).state executing)) [
  | inl e ↦ rw (target_state t h n e) (ground arith)
  | inr e ↦ unchanged e
]
  where
    unchanged : same (h t).state executing ≡ false → IsIdle (executed_target t h) n
    unchanged e = subst (λ k. IsIdle k n) (sym (target_same t h e)) idle

executed_side_effects :
    (ts : List ℕ) (h : Heap) (n : ℕ)
    → (executed_without_callbacks ts h n).side_effects ≡ (h n).side_effects
unfolding executed_without_callbacks
executed_side_effects [] h n = refl
executed_side_effects (t ∷ ts) h n =
    executed_side_effects ts (executed_target t h) n ∙ target_side_effects t h n

executed-IsIdle :
    (ts : List ℕ) (h : Heap) (n : ℕ) → IsIdle h n → IsIdle (executed_without_callbacks ts h) n
unfolding executed_without_callbacks
executed-IsIdle [] h n idle = idle
executed-IsIdle (t ∷ ts) h n idle =
    executed-IsIdle ts (executed_target t h) n (target-IsIdle t h n idle)

-- A target that is being built, or whose side effects are idle already.
abbrev IsDue : Heap → ℕ → Type 0
IsDue h u = (same (h u).state executing ≡ true) ⊎ All (IsIdle h) (h u).side_effects

-- The side effects of a target that is due, after it.
side_effects-IsIdle :
    (t : ℕ) (h : Heap) → IsDue h t → All (IsIdle (executed_target t h)) (h t).side_effects
side_effects-IsIdle t h (inl e) =
    All-of_elem (IsIdle (executed_target t h)) (h t).side_effects
      (λ s m. rw (target_state t h s e) (ground arith))
side_effects-IsIdle t h (inr idle) =
    All-of_elem (IsIdle (executed_target t h)) (h t).side_effects
      (λ s m. target-IsIdle t h s (All-elem (IsIdle h) s (h t).side_effects idle m))

-- Another target stays due.
next-IsDue :
    (t u : ℕ) (h : Heap)
    → IsDue h u
    → elem u (h t).side_effects ≡ false
    → IsDue (executed_target t h) u
next-IsDue t u h (inr idle) apart = inr (
    rw (target_side_effects t h u) (
      All-of_elem (IsIdle (executed_target t h)) (h u).side_effects
        (λ s m. target-IsIdle t h s (All-elem (IsIdle h) s (h u).side_effects idle m))))
next-IsDue t u h (inl e) apart = elim (Bool-cases (same (h t).state executing)) [
  | inr other ↦ inl (subst (λ k. same (k u).state executing ≡ true) (sym (target_same t h other)) e)
  | inl now ↦ elim (Bool-cases (u == t)) [
    | inl here ↦
        let same_node : u ≡ t = (==_iff u t).0 here in
        inr (
          rw (target_side_effects t h u) (
            subst (λ k. All (IsIdle (executed_target t h)) (h k).side_effects) (sym same_node)
              (side_effects-IsIdle t h (inl now))))
    | inr there ↦ inl (rw (target_state t h u now, there, apart) e)
  ]
]

due-Idle :
    (ts : List ℕ) (h : Heap)
    → All (IsDue h) ts
    → ((t u : ℕ) → elem t ts ≡ true → elem u ts ≡ true → elem u (h t).side_effects ≡ false)
    → Idle (executed_without_callbacks ts h) ts
unfolding executed_without_callbacks
due-Idle [] h due apart = tt
due-Idle (t ∷ ts) h due apart =
    let h1 = executed_target t h in
    let first = All-of_elem (IsIdle (executed_without_callbacks ts h1)) (h t).side_effects (λ s m.
      executed-IsIdle ts h1 s
        (All-elem (IsIdle h1) s (h t).side_effects (side_effects-IsIdle t h due.0) m)) in
    let due' = All-of_elem (IsDue h1) ts (λ u m.
      next-IsDue t u h (All-elem (IsDue h) u ts due.1 m)
        (apart t u (ground arith) (ground arith))) in
    (
      rw (executed_side_effects ts h1 t, target_side_effects t h t) first,
      due-Idle ts h1 due'
          (λ a b m n. rw (target_side_effects t h a) (apart a b (ground arith) (ground arith))),
    )

-- After a task was executed no side effect of its targets is being built, as `postprocess` needs it,
-- where its targets were being built and none of them is a side effect of one.
executed-Idle :
    (ts : List ℕ) (h : Heap)
    → All (λ t. same (h t).state executing ≡ true) ts
    → ((t u : ℕ) → elem t ts ≡ true → elem u ts ≡ true → elem u (h t).side_effects ≡ false)
    → Idle (executed_without_callbacks ts h) ts
executed-Idle ts h building apart =
    due-Idle ts h
      (All-of_elem (IsDue h) ts
        (λ t m. inl (All-elem (λ k. same (h k).state executing ≡ true) t ts building m)))
      apart
