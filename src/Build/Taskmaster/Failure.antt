-- ===== src/Build/Taskmaster/Failure.antt =====
-- Which nodes `Taskmaster.will_not_build` (Taskmaster.py) marks as failed.
use cross_chain.Prelude.{
  ℕ, zero, suc, ◌≡◌, ◌⊎◌, ◌∙◌, inl, inr, true, some, List, [], ◌∷◌, arith, ◌==◌, if◌then◌else◌,
  ==_iff, Bool-cases, Option-cases, elem, union, difference, elem-union,
}
use cross_chain.Build.Node.{failed, Heap, set_state, clear_waiting_parents}
use cross_chain.Build.Taskmaster.{
  Taskmaster, release_parents, will_not_build_loop, will_not_build, mark_failed,
}
use cross_chain.Build.Taskmaster.WillNotBuild.{release_lists, release_state}

-- `m` waits for `n`: it is one of `n.waiting_parents`, or one of those of such a node, and so on.
pub data WaitsFor (h : Heap) : ℕ → ℕ → Type 0 where
  here : {n : ℕ} → WaitsFor h n n
  up : {n m k : ℕ} → elem m (h n).waiting_parents ≡ true → WaitsFor h m k → WaitsFor h n k

-- One round of the loop that marks nodes as failed.
abbrev fail_round : ℕ → Heap → Heap
fail_round node h =
    release_parents (mark_failed node h node).waiting_parents
      (clear_waiting_parents node (mark_failed node h))

module _ (x : ℕ) (h : Heap) where
  fail_lists :
      (n : ℕ) → (fail_round x h n).waiting_parents ≡ (if n == x then [] else (h n).waiting_parents)
  unfolding clear_waiting_parents set_state
  fail_lists n =
      release_lists (mark_failed x h x).waiting_parents (clear_waiting_parents x (mark_failed x h))
        n
      ∙ ground arith

  fail_state : (n : ℕ) → (fail_round x h n).state ≡ (if n == x then failed else (h n).state)
  unfolding clear_waiting_parents set_state
  fail_state n =
      release_state (mark_failed x h x).waiting_parents (clear_waiting_parents x (mark_failed x h))
        n
      ∙ ground arith

  -- A chain of waiting nodes avoids `x` after the round, or its part behind `x` does.
  reroute :
      {n k : ℕ}
      → WaitsFor h n k
      → WaitsFor (fail_round x h) n k
        ⊎ ((k ≡ x)
            ⊎ ((q : ℕ) × (elem q (h x).waiting_parents ≡ true) × WaitsFor (fail_round x h) q k))
  reroute here = inl here
  reroute {n} {k} (up {m = m} e rest) = elim (reroute rest) [
    | inr found ↦ inr found
    | inl kept ↦ elim (Bool-cases (n == x)) [
      | inl is_x ↦ inr (inr (m, rw ((==_iff n x).0 is_x) at e, kept))
      | inr other ↦ inl (up (rw (fail_lists n) (rw other e)) kept)
    ]
  ]

  failed_stays : (n : ℕ) → (h n).state ≡ failed → (fail_round x h n).state ≡ failed
  failed_stays n e = ground (arith, fail_state n)

  failed_now : (n : ℕ) → n ≡ x → (fail_round x h n).state ≡ failed
  failed_now n e = ground (arith, fail_state n)

  parents_marked : (mark_failed x h x).waiting_parents ≡ (h x).waiting_parents
  unfolding set_state
  parents_marked = ground arith

  -- From `x` itself no chain goes on after the round.
  only_here : {n k : ℕ} → n ≡ x → WaitsFor (fail_round x h) n k → k ≡ x
  only_here e here = e
  only_here {n} e (up {m = m} waits rest) =
      let gone : (fail_round x h n).waiting_parents ≡ [] = ground (arith, fail_lists n) in
      let impossible : elem m [] ≡ true = rw gone at waits in cc

keeps_failed :
    (fuel : ℕ) (to_visit pc : List ℕ) (h : Heap) (n : ℕ) {pc' : List ℕ} {h' : Heap}
    → will_not_build_loop mark_failed fuel to_visit pc h ≡ some (pc', h')
    → (h n).state ≡ failed
    → (h' n).state ≡ failed
unfolding will_not_build_loop
keeps_failed zero to_visit pc h n r e = cc
keeps_failed (suc fuel) [] pc h n r e = cc
keeps_failed (suc fuel) (x ∷ rest) pc h n r e =
    keeps_failed fuel _ _ (fail_round x h) n r (failed_stays x h n e)

-- Whatever waits for a node of `to_visit` has failed in the end.
pub loop_fails :
    (fuel : ℕ) (to_visit pc : List ℕ) (h : Heap) (n k : ℕ) {pc' : List ℕ} {h' : Heap}
    → will_not_build_loop mark_failed fuel to_visit pc h ≡ some (pc', h')
    → elem n to_visit ≡ true
    → WaitsFor h n k
    → (h' k).state ≡ failed
unfolding will_not_build_loop
loop_fails zero to_visit pc h n k r m w = cc
loop_fails (suc fuel) [] pc h n k r m w = cc
loop_fails (suc fuel) (x ∷ rest) pc h n k r m w = elim (reroute x h w) [
  | inr (inl is_x) ↦ keeps_failed fuel _ _ (fail_round x h) k r (failed_now x h k is_x)
  | inr (inr (q, e, w')) ↦
      loop_fails fuel _ _ (fail_round x h) q k r
        (elem-union q rest (mark_failed x h x).waiting_parents ∙ ground (arith, parents_marked x h))
        w'
  | inl w' ↦ elim (Bool-cases (n == x)) [
    | inl is_x ↦
        keeps_failed fuel _ _ (fail_round x h) k r
          (failed_now x h k (only_here x h ((==_iff n x).0 is_x) w'))
    | inr other ↦
        loop_fails fuel _ _ (fail_round x h) n k r
          (elem-union n rest (mark_failed x h x).waiting_parents ∙ ground arith) w'
  ]
]

elem-nodes : (n : ℕ) (nodes : List ℕ) → elem n nodes ≡ true → elem n (union nodes []) ≡ true
elem-nodes n nodes m = elem-union n nodes [] ∙ ground arith

pub will_not_build_fails :
    (fuel : ℕ) (nodes : List ℕ) (tm : Taskmaster) (n k : ℕ) {tm' : Taskmaster}
    → will_not_build fuel mark_failed nodes tm ≡ some tm'
    → elem n nodes ≡ true
    → WaitsFor tm.heap n k
    → (tm'.heap k).state ≡ failed
unfolding will_not_build
will_not_build_fails fuel nodes tm n k r m w =
    let start = union nodes [] in
    elim (Option-cases
      (will_not_build_loop mark_failed fuel start (difference tm.pending_children start) tm.heap)) [
        | inl ran_out ↦ let r' = rw ran_out at r in cc
        | inr ((pc, h), e) ↦
            let r' = rw e at r in
            let failed_there = loop_fails fuel start _ tm.heap n k e (elem-nodes n nodes m) w in cc
      ]
