-- ===== src/Build/Task/Fail.antt =====
-- Taskmaster.py: what a task does when it fails, and what the taskmaster hands out afterwards.
use cross_chain.Prelude.{
  ℕ, suc, ◌≡◌, refl, ap, true, none, some, List, [], ◌∷◌, arith, elem, length,
}
use cross_chain.Build.Node.{failed}
use cross_chain.Build.Node.Waits.{set_state-SameWaits, SameWaits-refl}
use cross_chain.Build.Executor.{World}
use cross_chain.Build.Taskmaster.{
  Taskmaster, will_not_build, leave, mark_failed, no_next_candidate, stop,
}
use cross_chain.Build.Taskmaster.Visit.{find_next_ready_node, find_ready_loop, next_candidate}
use cross_chain.Build.Taskmaster.WillNotBuild.{Exact, Ready, will_not_build_total}
use cross_chain.Build.Taskmaster.Failure.{WaitsFor, will_not_build_fails}
use cross_chain.Build.Task.{Task, Tasker, next_task, top_targets, fail_continue, fail_stop}

-- With exact reference counts, targets below `size`, and fuel for the targets and for each entry
-- of a waiting list, `fail_continue` ends, leaves exact reference counts, and marks as failed
-- every node that waits, directly or not, for a target.
pub fail_continue-WaitsFor :
    (size fuel : ℕ) (task : Task) (tm : Taskmaster) (t k : ℕ)
    → Ready size fuel task.targets tm
    → elem t task.targets ≡ true
    → WaitsFor tm.heap t k
    → (tm' : Taskmaster) × (fail_continue fuel task tm ≡ some tm')
      × Exact size tm'.heap
      × ((tm'.heap k).state ≡ failed)
unfolding fail_continue
fail_continue-WaitsFor size fuel task tm t k r m w =
    let (tm', e, exact) =
      will_not_build_total size fuel mark_failed task.targets tm
        (λ n h. set_state-SameWaits failed n h) r in
    (tm', e, exact, will_not_build_fails fuel task.targets tm t k e m w)

-- Under the same conditions `fail_stop` ends, leaves exact reference counts, marks the same nodes
-- as failed, and stops the taskmaster.
fail_stop-WaitsFor :
    (size fuel : ℕ) (task : Task) (tm : Taskmaster) (t k : ℕ)
    → Ready size fuel task.targets tm
    → elem t task.targets ≡ true
    → WaitsFor tm.heap t k
    → (task' : Task) × (tm' : Taskmaster) × (fail_stop fuel task tm ≡ some (task', tm'))
      × Exact size tm'.heap
      × ((tm'.heap k).state ≡ failed)
      × (tm'.stopped ≡ true)
unfolding fail_stop stop
fail_stop-WaitsFor size fuel task tm t k r m w =
    let (tm', e, exact) =
      will_not_build_total size fuel mark_failed task.targets tm
        (λ n h. set_state-SameWaits failed n h) r in
    (
      record task { targets = top_targets tm'.current_top; top = true },
      record tm' { stopped = true },
      rw (e, fail_stop),
      exact,
      will_not_build_fails fuel task.targets tm t k e m w,
      refl,
    )

will_not_build-candidates :
    (fuel : ℕ) (nodes : List ℕ) (tm : Taskmaster) {tm' : Taskmaster}
    → will_not_build fuel leave nodes tm ≡ some tm'
    → tm'.candidates ≡ tm.candidates
unfolding will_not_build
will_not_build-candidates fuel nodes tm e = ground arith

-- A stopped taskmaster empties its candidates.
no_next_candidate_total :
    (size fuel : ℕ) (tm : Taskmaster)
    → Ready size fuel tm.candidates tm
    → (tm' : Taskmaster) × (no_next_candidate fuel tm ≡ some tm')
      × Exact size tm'.heap
      × (tm'.candidates ≡ [])
unfolding no_next_candidate
no_next_candidate_total size fuel tm r = go tm.candidates refl
  where
    go :
        (cs : List ℕ)
        → tm.candidates ≡ cs
        → (tm' : Taskmaster) × (no_next_candidate fuel tm ≡ some tm')
          × Exact size tm'.heap
          × (tm'.candidates ≡ [])
    go [] e = (tm, ground arith, r.exact, e)
    go (c ∷ cs) e =
        let emptied = record tm { candidates = [] } in
        let (tm', e', exact) =
          will_not_build_total size fuel leave (c ∷ cs) emptied (λ n h. SameWaits-refl h)
            (record {
              below = rw e at r.below;
              exact = r.exact;
              enough = rw (ap length e) at r.enough;
            }) in
        (tm', ground arith, exact, will_not_build-candidates fuel (c ∷ cs) emptied e')

-- Once it was stopped, with exact reference counts, candidates below `size`, and fuel for the
-- candidates and for each entry of a waiting list, the taskmaster hands out no task, drops the candidates and leaves exact reference counts.
pub next_task-stop :
    (size fuel : ℕ) (tasker : Tasker) (w : World) (tm : Taskmaster)
    → Ready size fuel tm.candidates tm
    → (tm' : Taskmaster) × (next_task tasker (suc fuel) w (stop tm) ≡ some (none, tm'))
      × Exact size tm'.heap
      × (tm'.candidates ≡ [])
unfolding next_task find_next_ready_node find_ready_loop stop
next_task-stop size fuel tasker w tm r =
    let halted = record tm { stopped = true; ready_exc = none } in
    let (tm', e, exact, empty) =
      no_next_candidate_total size fuel halted
        (record { below = r.below; exact = r.exact; enough = r.enough }) in
    (tm', rw (e, next_task, find_next_ready_node, find_ready_loop, next_candidate), exact, empty)
