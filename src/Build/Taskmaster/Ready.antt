-- ===== src/Build/Taskmaster/Ready.antt =====
-- What holds of the node that `_find_next_ready_node` (Taskmaster.py) returns.
use cross_chain.Prelude.{
  ℕ, zero, suc, ◌≡◌, ◌⊎◌, refl, sym, ◌∙◌, inl, inr, Bool, true, false, ◌||◌, Option, none, some,
  List, [], ◌∷◌, ◌++◌, arith, if◌then◌else◌, leb, All, Bool-cases, Option-cases,
}
use mathlib.Core.List.{append_assoc, append-nil}
use cross_chain.Build.Node.{
  State, no_state, pending, executing, up_to_date, executed, failed, rank, same, Executor, Heap,
  set_state,
}
use cross_chain.Build.Executor.{
  World, returned, Outcome-cases, get_all_children, get_action_side_effects,
}
use cross_chain.Build.Taskmaster.{Taskmaster}
use cross_chain.Build.Taskmaster.Visit.{
  Children, no_children, sort_child, sort_children, wait_for_side_effects, all_children_of, judge,
  scan, visit_in, visit, find_ready_loop, find_next_ready_node, next_candidate,
}

-- The children in a state up to `executing`, in order.
unfoldable pub unfinished : Heap → List ℕ → List ℕ
unfinished h [] = []
unfinished h (c ∷ cs) = if leb (rank (h c).state) 2 then c ∷ unfinished h cs else unfinished h cs

unfoldable pub unvisited : Heap → List ℕ → List ℕ
unvisited h [] = []
unvisited h (c ∷ cs) = if same (h c).state no_state then c ∷ unvisited h cs else unvisited h cs

unfoldable pub any_failed : Heap → List ℕ → Bool
any_failed h [] = false
any_failed h (c ∷ cs) = same (h c).state failed || any_failed h cs

-- The loop over the children gathers the unvisited ones, the unfinished ones, and whether one failed.
pub sort_children_lem :
    (h : Heap) (cs : List ℕ) (k : Children)
    → ((sort_children h cs k).not_visited ≡ k.not_visited ++ unvisited h cs)
      × ((sort_children h cs k).not_ready ≡ k.not_ready ++ unfinished h cs)
      × ((sort_children h cs k).has_failed ≡ (k.has_failed || any_failed h cs))
unfolding sort_children sort_child unvisited unfinished any_failed
sort_children_lem h [] k = (sym (append-nil _), sym (append-nil _), ground arith)
sort_children_lem h (c ∷ cs) k = ground (
  arith,
  sort_children_lem h cs (sort_child (h c).state c k),
  append_assoc k.not_visited (c ∷ []) (unvisited h cs),
  append_assoc k.not_ready (c ∷ []) (unfinished h cs),
)

abbrev pub IsDone : State → Type 0
IsDone s = (s ≡ up_to_date) ⊎ (s ≡ executed)

pub unfinished-IsDone :
    (h : Heap) (cs : List ℕ)
    → unfinished h cs ≡ []
    → any_failed h cs ≡ false
    → All (λ c. IsDone (h c).state) cs
unfolding unfinished any_failed
unfinished-IsDone h [] e f = tt
unfinished-IsDone h (c ∷ cs) e f = ground (arith, unfinished-IsDone h cs)

idle_side_effects :
    (node : ℕ) (ss : List ℕ) (h : Heap)
    → (wait_for_side_effects node ss h).0 ≡ false
    → ((wait_for_side_effects node ss h).1 ≡ h) × All (λ s. same (h s).state executing ≡ false) ss
unfolding wait_for_side_effects
idle_side_effects node [] h e = (refl, tt)
idle_side_effects node (s ∷ ss) h e = elim (Bool-cases (same (h s).state executing)) [
  | inl busy ↦ ground arith
  | inr idle ↦
      let e' : (wait_for_side_effects node ss h).0 ≡ false = rw idle at e in
      let (same_heap, others) = idle_side_effects node ss h e' in
      (rw idle same_heap, (idle, others))
]

-- A node can be built: its executor's children are done, and no side effect of its action is being
-- built.
pub record IsBuildable (w : World) (h : Heap) (node : ℕ) : Type 0 where
  pub executor : Executor
  pub children : List ℕ
  pub has_executor : (h node).executor ≡ some executor
  pub scanned : get_all_children w h executor ≡ returned children
  pub children_done : All (λ c. IsDone (h c).state) (all_children_of h executor children)
  pub side_effects_idle :
      All (λ s. same (h s).state executing ≡ false) (get_action_side_effects h executor)

module _ (w : World) (node : ℕ) where
  judge_cases :
      (e : Executor) (k : Children) (tm : Taskmaster)
      → (judge w e k node tm).1 ≡ true
      → (k.has_failed ≡ false)
        × (k.not_ready ≡ [])
        × ((wait_for_side_effects node (get_action_side_effects tm.heap e) tm.heap).0 ≡ false)
        × ((judge w e k node tm).0.heap
            ≡ (wait_for_side_effects node (get_action_side_effects tm.heap e) tm.heap).1)
  unfolding judge
  judge_cases e k tm ready = ground arith

  -- The heap is left as it is where the node is returned.
  judge-IsBuildable :
      (e : Executor) (children : List ℕ) (tm : Taskmaster)
      → (tm.heap node).executor ≡ some e
      → get_all_children w tm.heap e ≡ returned children
      → let k = sort_children tm.heap (all_children_of tm.heap e children) no_children in
        (judge w e k node tm).1 ≡ true
        → ((judge w e k node tm).0.heap ≡ tm.heap) × IsBuildable w tm.heap node
  judge-IsBuildable e children tm has found ready =
      let cs = all_children_of tm.heap e children in
      let k = sort_children tm.heap cs no_children in
      let (ok, empty, idle, heap) = judge_cases e k tm ready in
      let (visited, gathered, fails) = sort_children_lem tm.heap cs no_children in
      let (same_heap, idle_all) =
        idle_side_effects node (get_action_side_effects tm.heap e) tm.heap idle in
      (
        heap ∙ same_heap,
        record {
          executor = e;
          children = children;
          has_executor = has;
          scanned = found;
          children_done = unfinished-IsDone tm.heap cs (sym gathered ∙ empty) (sym fails ∙ ok);
          side_effects_idle = idle_all;
        },
      )

  scan-IsBuildable :
      (tm : Taskmaster)
      → (scan w node tm).1 ≡ true
      → (scan w node tm).0.ready_exc ≡ none
      → ((scan w node tm).0.heap ≡ tm.heap) × IsBuildable w tm.heap node
  unfolding scan
  scan-IsBuildable tm ready quiet = elim (Option-cases (tm.heap node).executor) [
    | inl absent ↦ let q = rw (absent, scan) at quiet in cc
    | inr (e, has) ↦ elim (Outcome-cases (get_all_children w tm.heap e)) [
      | inl (x, threw) ↦ let q = rw (has, scan, threw) at quiet in cc
      | inr (children, found) ↦
          rw (has, scan, found)
            (judge-IsBuildable e children tm has found (rw (has, scan, found) at ready))
    ]
  ]

  abbrev Ready : Taskmaster → Type 0
  Ready tm = IsBuildable w tm.heap node × ((tm.heap node).state ≡ pending)

  scan-Ready :
      (tm : Taskmaster)
      → (tm.heap node).state ≡ pending
      → (scan w node tm).1 ≡ true
      → (scan w node tm).0.ready_exc ≡ none
      → Ready (scan w node tm).0
  scan-Ready tm e ready quiet =
      let (same_heap, b) = scan-IsBuildable tm ready quiet in (rw same_heap b, rw same_heap e)

  pending_now : (h : Heap) → (set_state pending node h node).state ≡ pending
  unfolding set_state
  pending_now h = ground arith

  visit_in-Ready :
      (s : State) (tm : Taskmaster)
      → (tm.heap node).state ≡ s
      → (visit_in s w node tm).1 ≡ true
      → (visit_in s w node tm).0.ready_exc ≡ none
      → Ready (visit_in s w node tm).0
  unfolding visit_in
  visit_in-Ready no_state tm e =
      scan-Ready (record tm { heap = set_state pending node tm.heap }) (pending_now tm.heap)
  visit_in-Ready pending tm e = scan-Ready tm e
  visit_in-Ready _ tm e = λ ready. cc

  visit-Ready :
      (tm : Taskmaster)
      → (visit w node tm).1 ≡ true
      → (visit w node tm).0.ready_exc ≡ none
      → Ready (visit w node tm).0
  unfolding visit
  visit-Ready tm = visit_in-Ready (tm.heap node).state tm refl

loop-IsBuildable :
    (fuel : ℕ) (w : World) (tm : Taskmaster) {node : ℕ} {tm' : Taskmaster}
    → find_ready_loop fuel w tm ≡ some (some node, tm')
    → tm'.ready_exc ≡ none
    → IsBuildable w tm'.heap node × ((tm'.heap node).state ≡ pending)
unfolding find_ready_loop
loop-IsBuildable zero w tm r quiet = cc
loop-IsBuildable (suc fuel) w tm {node} {tm'} r quiet =
    elim (Option-cases (next_candidate fuel w tm)) [
      | inl ran_out ↦ let q = rw (ran_out, find_ready_loop) at r in cc
      | inr ((found, tm1), e) ↦
          go found tm1 e (λ tm2 again. loop-IsBuildable fuel w tm2 again quiet)
    ]
  where
    Goal : Type 0
    Goal = IsBuildable w tm'.heap node × ((tm'.heap node).state ≡ pending)

    go :
        (found : Option ℕ) (tm1 : Taskmaster)
        → next_candidate fuel w tm ≡ some (found, tm1)
        → ((tm2 : Taskmaster) → find_ready_loop fuel w tm2 ≡ some (some node, tm') → Goal)
        → Goal
    go none tm1 e ih = let q = rw (e, find_ready_loop) at r in cc
    go (some n) tm1 e ih = elim (Bool-cases (visit w n tm1).1) [
      | inl ready ↦
          let q = rw (e, find_ready_loop, ready) at r in
          let same_node : n ≡ node = cc in
          let same_tm : (visit w n tm1).0 ≡ tm' = cc in
          rw (← same_node, ← same_tm) (visit-Ready w n tm1 ready (rw (← same_tm) at quiet))
      | inr not_yet ↦ ih (visit w n tm1).0 (rw (e, find_ready_loop, not_yet) at r)
    ]

-- If `_find_next_ready_node` returns a node and records no exception, then the node is pending, every
-- prerequisite and every child of its executor is up to date or executed, none of them has failed or
-- is unfinished, and no side effect of its action is being built.
pub find_next_ready_node-IsBuildable :
    (fuel : ℕ) (w : World) (tm : Taskmaster) {node : ℕ} {tm' : Taskmaster}
    → find_next_ready_node fuel w tm ≡ some (some node, tm')
    → tm'.ready_exc ≡ none
    → IsBuildable w tm'.heap node × ((tm'.heap node).state ≡ pending)
unfolding find_next_ready_node
find_next_ready_node-IsBuildable fuel w tm =
    loop-IsBuildable fuel w (record tm { ready_exc = none })
