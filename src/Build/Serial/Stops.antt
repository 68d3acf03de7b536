-- ===== src/Build/Serial/Stops.antt =====
-- Job.py, `Serial.start`: how a build ends that was stopped, or in which a task failed.
use cross_chain.Prelude.{ℕ, suc, ◌≡◌, refl, ap, ◌∙◌, Bool, true, false, none, some, [], ◌∷◌, arith}
use cross_chain.Build.Executor.{World, Exception, Outcome, returned, raised}
use cross_chain.Build.Node.{Heap}
use cross_chain.Build.Taskmaster.{Taskmaster, stop}
use cross_chain.Build.Taskmaster.WillNotBuild.{Exact, Ready}
use cross_chain.Build.Task.{Task, Tasker, next_task, executed_with_callbacks, fail_stop}
use cross_chain.Build.Task.Postprocess.{postprocess}
use cross_chain.Build.Task.Exceptions.{exception_set}
use cross_chain.Build.Task.Fail.{next_task-stop}
use cross_chain.Build.Serial.{Failing, handle_signal, attempt, recorded, serial_task, serial_loop}

stop-postprocess :
    (task : Task) (tm : Taskmaster) (h : Heap)
    → postprocess task (record (stop tm) { heap = h })
      ≡ stop (postprocess task (record tm { heap = h }))
unfolding stop postprocess
stop-postprocess task tm h = refl

heap-stop : (tm : Taskmaster) → (stop tm).heap ≡ tm.heap
unfolding stop
heap-stop tm = refl

signal_step :
    (signal interrupted : Bool) (tm : Taskmaster)
    → signal ≡ true
    → handle_signal signal interrupted tm ≡ (true, stop tm)
unfolding handle_signal
signal_step signal interrupted tm e = rw (e, handle_signal) refl

task_step :
    (failing : Failing) (fuel : ℕ) (interrupted : Bool) (task : Task) (tm : Taskmaster)
    (result : Outcome (Unit {0}) × Heap) (h : Heap)
    → result ≡ (returned tt, h)
    → serial_task failing fuel interrupted task result (stop tm)
      ≡ some (
        true,
        stop (postprocess task (record tm { heap = (executed_with_callbacks task.targets h).1 })),
      )
unfolding serial_task
task_step failing fuel interrupted task tm result h e =
    rw (e, serial_task, stop-postprocess task tm (executed_with_callbacks task.targets h).1) refl

module _ (size fuel : ℕ) (failing : Failing) (tasker : Tasker) (signals : ℕ → Bool)
    (w : World) where
  -- On a taskmaster that was stopped, with exact reference counts and fuel for the candidates and
  -- the waiting lists, the loop returns without a task in work, no candidate is left, and the
  -- counts are exact.
  serial_loop-stop :
      (interrupted : Bool) (tm : Taskmaster)
      → Ready size fuel tm.candidates tm
      → (tm' : Taskmaster) × (serial_loop failing tasker signals
            (suc (suc fuel))
            w
            interrupted
            (stop tm)
          ≡ some ([], tm'))
        × Exact size tm'.heap
        × (tm'.candidates ≡ [])
  unfolding serial_loop
  serial_loop-stop interrupted tm ready =
      let (tm', e, exact, empty) = next_task-stop size fuel tasker w tm ready in
      (tm', rw (e, serial_loop) refl, exact, empty)

  -- A signal that comes while a task is executed without an exception ends the serial build: that task
  -- is the last, no candidate is left, and the reference counts are exact at the end. It is assumed
  -- that after the postprocess of that task the counts are exact and the candidates are known nodes,
  -- and that the fuel is enough for the candidates and the waiting lists.
  pub serial_loop-signal :
      (interrupted : Bool) (tm tm' : Taskmaster) (task : Task) (h : Heap)
      → next_task tasker (suc (suc fuel)) w tm ≡ some (some task, tm')
      → signals (suc (suc fuel)) ≡ true
      → attempt w task tm'.heap ≡ (returned tt, h)
      → let after =
          postprocess task (record tm' { heap = (executed_with_callbacks task.targets h).1 }) in
        Ready size fuel after.candidates after
        → (tm'' : Taskmaster) × (serial_loop failing tasker signals
              (suc (suc (suc fuel)))
              w
              interrupted
              tm
            ≡ some (record { targets = task.targets; ok = true } ∷ [], tm''))
          × Exact size tm''.heap
          × (tm''.candidates ≡ [])
  unfolding serial_loop
  serial_loop-signal interrupted tm tm' task h handed signal worked ready =
      let after =
        postprocess task (record tm' { heap = (executed_with_callbacks task.targets h).1 }) in
      let (tm'', e, exact, empty) = next_task-stop size fuel tasker w after ready in
      let signalled = signal_step (signals (suc (suc fuel))) interrupted tm' signal in
      let executed =
        task_step failing (suc (suc fuel)) true task tm' (attempt w task (stop tm').heap) h
          (rw (heap-stop tm') worked) in
      (tm'', rw (handed, serial_loop, signalled, executed, e) refl, exact, empty)

will_not_build-stop :
    (fuel : ℕ) (task task' : Task) (tm tm' : Taskmaster)
    → fail_stop fuel task tm ≡ some (task', tm')
    → tm' ≡ stop tm'
unfolding fail_stop stop
will_not_build-stop fuel task task' tm tm' e = ground arith

stopped-postprocess :
    (task : Task) (tm : Taskmaster)
    → tm ≡ stop tm
    → postprocess task tm ≡ stop (postprocess task tm)
unfolding postprocess stop
stopped-postprocess task tm e = ap (postprocess task) e ∙ stop-postprocess task tm tm.heap

failure_step :
    (fuel : ℕ) (interrupted : Bool) (task task' : Task) (tm tm' : Taskmaster) (e : Exception)
    (h : Heap)
    → fail_stop fuel (exception_set none (recorded interrupted e) task) (record tm { heap = h })
      ≡ some (task', tm')
    → serial_task fail_stop fuel interrupted task (raised e, h) tm
      ≡ some (false, stop (postprocess task' tm'))
unfolding serial_task
failure_step fuel interrupted task task' tm tm' e h f =
    rw (f, serial_task)
      (ap (λ (x : Taskmaster). some (false, x))
        (stopped-postprocess task' tm' (
          will_not_build-stop fuel (exception_set none (recorded interrupted e) task) task'
            (record tm { heap = h }) tm' f)))

module _ (size fuel : ℕ) (tasker : Tasker) (signals : ℕ → Bool) (w : World) where
  -- With `fail_stop` an exception in a task ends the serial build: that task is the last one, no
  -- candidate is left, and the counts are exact. No signal comes in this round, and `fail_stop`
  -- ends; after the `postprocess` of the task that it leaves, the counts are exact, and the fuel is
  -- enough for the candidates and the waiting lists.
  pub serial_loop-fail_stop :
      (interrupted : Bool) (tm tm1 tm2 : Taskmaster) (task task' : Task) (e : Exception) (h : Heap)
      → next_task tasker (suc (suc fuel)) w tm ≡ some (some task, tm1)
      → signals (suc (suc fuel)) ≡ false
      → attempt w task tm1.heap ≡ (raised e, h)
      → fail_stop
          (suc (suc fuel))
          (exception_set none (recorded interrupted e) task)
          (record tm1 { heap = h })
        ≡ some (task', tm2)
      → Ready size fuel (postprocess task' tm2).candidates (postprocess task' tm2)
      → (tm3 : Taskmaster) × (serial_loop fail_stop tasker signals
            (suc (suc (suc fuel)))
            w
            interrupted
            tm
          ≡ some (record { targets = task.targets; ok = false } ∷ [], tm3))
        × Exact size tm3.heap
        × (tm3.candidates ≡ [])
  unfolding serial_loop handle_signal
  serial_loop-fail_stop interrupted tm tm1 tm2 task task' e h handed quiet broke fails ready =
      let after = postprocess task' tm2 in
      let (tm3, r, exact, empty) = next_task-stop size fuel tasker w after ready in
      let step : serial_task fail_stop (suc (suc fuel)) interrupted task (attempt w task tm1.heap)
            tm1
          ≡ some (false, stop after) =
        rw broke (failure_step (suc (suc fuel)) interrupted task task' tm1 tm2 e h fails) in
      (tm3, rw (handed, serial_loop, quiet, handle_signal, step, r) refl, exact, empty)
