-- ===== src/Build/Jobs.antt =====
-- Job.py: the classes `Parallel`, `ThreadPool` and `Worker`. The main thread and the workers share two
-- queues; their interleavings are the sequences of steps of a relation on the state of all of them.
-- What the taskmaster and the tasks answer is up to a step: `next_task` returns any task or none,
-- `prepare` and `execute` return or raise. The sentinels that end the workers are left out.
pub mod Outstanding
pub mod Progress
use cross_chain.Prelude.{
  ℕ, suc, ◌-◌, ◌≡◌, ◌<◌, ◌≤◌, ◌⊎◌, Bool, true, false, List, [], ◌∷◌, ◌++◌, length,
}

-- Where the main thread is in `Parallel.start`.
pub data Phase : Type 0 where
  -- at the head of the loop that starts tasks
  filling : Phase
  -- behind that loop; whether `task` holds a task
  deciding : Bool → Phase
  -- at `self.tp.get()`
  waiting : Phase
  -- at `self.tp.resultsQueue.empty()`
  checking : Phase
  done : Phase

-- A task on the queue of results, and whether it was executed without an exception.
pub record Result : Type 0 where
  pub task : ℕ
  pub ok : Bool

-- `handed` are the tasks that `next_task` returned, `executed` and `failed` those whose methods of that
-- name were called; `postprocess` follows each of these calls at once.
pub record Pool : Type 0 where
  pub phase : Phase
  pub jobs : ℕ
  pub requests : List ℕ
  pub running : List ℕ
  pub results : List Result
  pub handed : List ℕ
  pub executed : List ℕ
  pub failed : List ℕ

abbrev pub start : Pool
start = record {
  phase = filling;
  jobs = 0;
  requests = [];
  running = [];
  results = [];
  handed = [];
  executed = [];
  failed = [];
}

-- `task.executed()` or `task.failed()`, then `task.postprocess()`.
unfoldable pub finish : Result → Pool → Pool
finish r s = elim r.ok [
  | true ↦ record s { executed = r.task ∷ s.executed }
  | false ↦ record s { failed = r.task ∷ s.failed }
]

-- `max` workers were created.
pub data Step (max : ℕ) : Pool → Pool → Type 0 where
  -- the loop that starts tasks
  next_none :
      (s : Pool)
      → s.phase ≡ filling
      → s.jobs < max
      → Step max s (record s { phase = deciding false })
  prepare_raises :
      (s : Pool) (t : ℕ)
      → s.phase ≡ filling
      → s.jobs < max
      → Step max s (record s { handed = t ∷ s.handed; failed = t ∷ s.failed })
  dispatch :
      (s : Pool) (t : ℕ)
      → s.phase ≡ filling
      → s.jobs < max
      → Step max s
          (record s { handed = t ∷ s.handed; requests = s.requests ++ t ∷ []; jobs = suc s.jobs })
  needs_nothing :
      (s : Pool) (t : ℕ)
      → s.phase ≡ filling
      → s.jobs < max
      → Step max s (record s { handed = t ∷ s.handed; executed = t ∷ s.executed })
  full :
      (s : Pool)
      → s.phase ≡ filling
      → max ≤ s.jobs
      → Step max s (record s { phase = deciding true })
  -- `if not task and not jobs: break`
  leave :
      (s : Pool) → s.phase ≡ deciding false → s.jobs ≡ 0 → Step max s (record s { phase = done })
  go_on :
      (s : Pool) (task : Bool)
      → s.phase ≡ deciding task
      → (task ≡ true) ⊎ (0 < s.jobs)
      → Step max s (record s { phase = waiting })
  -- the loop over the results
  get :
      (s : Pool) (r : Result) (rest : List Result)
      → s.phase ≡ waiting
      → s.results ≡ r ∷ rest
      → Step max s (finish r (record s { phase = checking; jobs = s.jobs - 1; results = rest }))
  no_more :
      (s : Pool) → s.phase ≡ checking → s.results ≡ [] → Step max s (record s { phase = filling })
  more :
      (s : Pool) (r : Result) (rest : List Result)
      → s.phase ≡ checking
      → s.results ≡ r ∷ rest
      → Step max s (record s { phase = waiting })
  -- a worker
  take_request :
      (s : Pool) (t : ℕ) (rest : List ℕ)
      → s.requests ≡ t ∷ rest
      → length s.running < max
      → Step max s (record s { requests = rest; running = t ∷ s.running })
  put_result :
      (s : Pool) (before after : List ℕ) (t : ℕ) (ok : Bool)
      → s.running ≡ before ++ t ∷ after
      → Step max s (record s {
        running = before ++ after;
        results = s.results ++ record { task = t; ok = ok } ∷ [];
      })

-- The states that a build with `max` jobs can be in.
pub data Reachable (max : ℕ) : Pool → Type 0 where
  begins : Reachable max start
  steps : {s s' : Pool} → Reachable max s → Step max s s' → Reachable max s'
