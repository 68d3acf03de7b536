-- ===== src/Main/Failed.antt =====
-- Script/Main.py, `BuildTask`: what the options make of a task that failed.
use cross_chain.Prelude.{
  ℕ, ◌≡◌, ◌⊎◌, inl, inr, refl, ◌∙◌, Bool, true, false, not, ◌&&◌, ◌||◌, Option, none, some, List,
  [], ◌∷◌, ◌++◌, arith, if◌then◌else◌, Bool-cases, elem,
}
use cross_chain.Prelude.Int.{ℤ, pos}
use cross_chain.Build.Node.{State, executing, same, Heap}
use cross_chain.Build.Node.Waits.{SameWaits, SameWaits-refl, SameWaits-trans, set_state-SameWaits}
use cross_chain.Build.Executor.{Exception, returned}
use cross_chain.Build.Errors.{BuildError, Status, convert_to_build_error}
use cross_chain.Build.Taskmaster.{Taskmaster, will_not_build, mark_failed, stop}
use cross_chain.Build.Taskmaster.Counts.{SameWaits-Exact, set_states-SameWaits}
use cross_chain.Build.Taskmaster.WillNotBuild.{Exact, Ready, will_not_build_total}
use cross_chain.Build.Taskmaster.Failure.{WaitsFor, will_not_build_fails}
use cross_chain.Build.Task.{
  Task, executed_target, executed_with_callbacks, top_targets, fail_continue, fail_stop,
}
use cross_chain.Build.Task.Exceptions.{exception_set, exc_clear}
use cross_chain.Main.{
  Options, Files, Session, Done, executed_by_taskmaster, do_failed, cannot_make, is_source,
  executed, with_node, failed,
}

target-SameWaits : (t : ℕ) (h : Heap) → SameWaits h (executed_target t h)
unfolding executed_target
target-SameWaits t h = elim (Bool-cases (same (h t).state executing)) [
  | inr e ↦ rw (e, executed_target) (SameWaits-refl h)
  | inl e ↦
      rw (e, executed_target)
        (SameWaits-trans (set_states-SameWaits State.no_state (h t).side_effects h)
          (set_state-SameWaits State.executed t _))
]

callbacks-SameWaits : (ts : List ℕ) (h : Heap) → SameWaits h (executed_with_callbacks ts h).1
unfolding executed_with_callbacks
callbacks-SameWaits [] h = SameWaits-refl h
callbacks-SameWaits (t ∷ ts) h =
    SameWaits-trans (target-SameWaits t h) (callbacks-SameWaits ts (executed_target t h))

will_not_build-stopped :
    (fuel : ℕ) (nodes : List ℕ) (tm : Taskmaster) {tm' : Taskmaster}
    → will_not_build fuel mark_failed nodes tm ≡ some tm'
    → tm'.stopped ≡ tm.stopped
unfolding will_not_build
will_not_build-stopped fuel nodes tm e = ground arith

-- What is left of a failure with the given error and status, `k` a node that waits for a target.
pub record Handled (size : ℕ) (options : Options) (error : BuildError) (status : Option ℤ)
    (task : Task) (tm : Taskmaster) (session : Session) (k : ℕ) (d : Done) : Type 0 where
  pub exact : Exact size d.taskmaster.heap
  pub failures : d.session.build_failures ≡ session.build_failures ++ error ∷ []
  pub exit : d.session.exit_status ≡ (if options.ignore_errors then session.exit_status else status)
  pub this_build :
      d.session.this_build_status
      ≡ (if options.ignore_errors then session.this_build_status else status)
  pub stops :
      d.taskmaster.stopped ≡ (tm.stopped || (not options.ignore_errors && not options.keep_going))
  pub targets :
      ((options.ignore_errors ≡ true)
        × (d.taskmaster ≡ (executed_by_taskmaster task tm session).taskmaster))
      ⊎ ((options.ignore_errors ≡ false) × ((d.taskmaster.heap k).state ≡ State.failed))

module _ (size fuel : ℕ) (error : BuildError) (status : Option ℤ) (task : Task) (tm : Taskmaster)
    (session : Session) (t k : ℕ) where
  -- Each choice of the options.
  handled :
      (ignore_errors keep_going : Bool)
      → Ready size fuel task.targets tm
      → elem t task.targets ≡ true
      → WaitsFor tm.heap t k
      → let options : Options = record { ignore_errors = ignore_errors; keep_going = keep_going } in
        (d : Done) × (do_failed fuel options error status task tm session ≡ some d)
        × Handled size options error status task tm session k d
  unfolding do_failed fail_continue fail_stop stop
  handled true keep_going ready m w = (
    executed_by_taskmaster task tm
        (record session { build_failures = session.build_failures ++ error ∷ [] }),
    refl,
    record {
      exact = SameWaits-Exact size (callbacks-SameWaits task.targets tm.heap) ready.exact;
      failures = refl;
      exit = refl;
      this_build = refl;
      stops = ground arith;
      targets = inl (refl, refl);
    },
  )
  handled false true ready m w =
      let (tm', e, exact) =
        will_not_build_total size fuel mark_failed task.targets tm
          (λ n h. set_state-SameWaits State.failed n h) ready in
      (
        record {
          calls = [];
          task = task;
          taskmaster = tm';
          session = record {
            exit_status = status;
            this_build_status = status;
            build_failures = session.build_failures ++ error ∷ [];
          };
        },
        rw (do_failed, fail_continue, e) refl,
        record {
          exact = exact;
          failures = refl;
          exit = refl;
          this_build = refl;
          stops = will_not_build-stopped fuel task.targets tm e ∙ ground arith;
          targets = inr (refl, will_not_build_fails fuel task.targets tm t k e m w);
        },
      )
  handled false false ready m w =
      let (tm', e, exact) =
        will_not_build_total size fuel mark_failed task.targets tm
          (λ n h. set_state-SameWaits State.failed n h) ready in
      (
        record {
          calls = [];
          task = record task { targets = top_targets tm'.current_top; top = true };
          taskmaster = record tm' { stopped = true };
          session = record {
            exit_status = status;
            this_build_status = status;
            build_failures = session.build_failures ++ error ∷ [];
          };
        },
        rw (do_failed, fail_stop, e) refl,
        record {
          exact = exact;
          failures = refl;
          exit = refl;
          this_build = refl;
          stops = ground arith;
          targets = inr (refl, will_not_build_fails fuel task.targets tm t k e m w);
        },
      )

module _ (size fuel : ℕ) (options : Options) (task : Task) (tm : Taskmaster) (session : Session)
    (t k : ℕ) where
  -- With exact reference counts, targets below `size`, and fuel for the targets and for each entry
  -- of a waiting list, `failed` ends and keeps the counts exact. Whatever the options, the error is
  -- added to the failures, with the task's node where it has none, and no exception stays recorded.
  -- With `ignore_errors` the exit status is not set, and the taskmaster is left as after a task that
  -- was executed. Otherwise the exit status becomes that of this error, every node that waits,
  -- directly or not, for a target is marked as failed, and the taskmaster is stopped without
  -- `keep_going`.
  pub failed-Handled :
      (e : Status)
      → Ready size fuel task.targets tm
      → elem t task.targets ≡ true
      → WaitsFor tm.heap t k
      → let error = with_node task.node (convert_to_build_error e none) in
        (d : Done) × (failed fuel options e task tm session ≡ some d)
        × Handled size options error error.exitstatus task tm session k d
        × (d.task.exception ≡ none)
  unfolding failed exc_clear
  failed-Handled e ready m w =
      let error = with_node task.node (convert_to_build_error e none) in
      let (d, r, h) =
        handled size fuel error error.exitstatus
          (record task { exception = some Exception.build_error }) tm session t k
          options.ignore_errors options.keep_going ready m w in
      (
        record d { task = exc_clear d.task },
        rw (r, failed) refl,
        record {
          exact = h.exact;
          failures = h.failures;
          exit = h.exit;
          this_build = h.this_build;
          stops = h.stops;
          targets = h.targets;
        },
        refl,
      )

  -- Under the same conditions `executed` returns, on a task with a target. Where the first target
  -- was asked for, has no builder, is no side effect and does not exist, it does what `failed` does
  -- with the status 2 and an error that names the target; otherwise it leaves what the taskmaster's
  -- own method leaves, with exact counts, and does not set the exit status.
  executed-Handled :
      (files : Files) (first : ℕ) (rest : List ℕ)
      → task.targets ≡ first ∷ rest
      → Ready size fuel task.targets tm
      → elem t task.targets ≡ true
      → WaitsFor tm.heap t k
      → (d : Done) × (executed fuel options files task tm session ≡ some (returned tt, d))
        × (((is_source files task tm first && not (files.exists first) ≡ true)
              × Handled size options (cannot_make files first) (some (pos 2)) task tm session k d)
            ⊎ ((is_source files task tm first && not (files.exists first) ≡ false)
                × (d ≡ executed_by_taskmaster task tm session)
                × Exact size d.taskmaster.heap))
  unfolding executed exception_set
  executed-Handled files first rest e ready m w =
      let missing = is_source files task tm first && not (files.exists first) in
      let (d, r, h) =
        handled size fuel (cannot_make files first) (some (pos 2))
          (exception_set none Exception.build_error task) tm session t k options.ignore_errors
          options.keep_going ready m w in
      elim (Bool-cases missing) [
        | inl b ↦ (
          d,
          ground arith,
          inl (
            b,
            record {
              exact = h.exact;
              failures = h.failures;
              exit = h.exit;
              this_build = h.this_build;
              stops = h.stops;
              targets = h.targets;
            },
          ),
        )
        | inr b ↦ (
          executed_by_taskmaster task tm session,
          ground arith,
          inr (
            b,
            refl,
            SameWaits-Exact size (callbacks-SameWaits task.targets tm.heap) ready.exact,
          ),
        )
      ]
