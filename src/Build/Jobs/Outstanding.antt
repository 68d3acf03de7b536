-- ===== src/Build/Jobs/Outstanding.antt =====
-- Job.py, `Parallel.start`: what holds in every interleaving of the main thread and the workers.
use cross_chain.Prelude.{
  ℕ, ◌+◌, ◌-◌, ◌≡◌, ◌<◌, ◌≤◌, ◌⊎◌, inl, inr, refl, ap, Bool, true, false, List, [], ◌∷◌, ◌++◌,
  length, length-append, arith, ◌==◌, if◌then◌else◌, Bool-cases,
}
use cross_chain.Build.Node.Waits.{count}
use cross_chain.Build.Jobs.{
  Phase, deciding, waiting, checking, done, Result, Pool, finish, Step, next_none, prepare_raises,
  dispatch, needs_nothing, full, leave, go_on, get, no_more, more, take_request, put_result,
  Reachable, begins, steps,
}

-- How often a task stands on the queue of results.
unfoldable pub result_count : ℕ → List Result → ℕ
result_count x [] = 0
result_count x (r ∷ rs) = (if x == r.task then 1 else 0) + result_count x rs

-- What the phase says of the number of jobs.
abbrev pub PhaseJobs : ℕ → Phase → ℕ → Type 0
PhaseJobs max (deciding true) jobs = max ≤ jobs
PhaseJobs max waiting jobs = 0 < jobs
PhaseJobs max done jobs = jobs ≡ 0
PhaseJobs max _ jobs = Unit

pub record Sound (max : ℕ) (s : Pool) : Type 0 where
  -- `jobs` counts the tasks on the queues and with the workers
  pub jobs_exact : s.jobs ≡ length s.requests + length s.running + length s.results
  pub jobs_below : s.jobs ≤ max
  pub phase_jobs : PhaseJobs max s.phase s.jobs
  -- each task that was handed out is finished or on its way, once
  pub kept :
      (x : ℕ)
      → count x s.handed
        ≡ count x s.executed
          + count x s.failed
          + count x s.requests
          + count x s.running
          + result_count x s.results

count-append : (x : ℕ) (a b : List ℕ) → count x (a ++ b) ≡ count x a + count x b
unfolding count
count-append x [] b = omega arith
count-append x (y ∷ a) b = ground (arith, count-append x a b)

result_count-append :
    (x : ℕ) (a b : List Result) → result_count x (a ++ b) ≡ result_count x a + result_count x b
unfolding result_count
result_count-append x [] b = omega arith
result_count-append x (r ∷ a) b = omega (arith, result_count-append x a b)

count-cons : (x y : ℕ) (a : List ℕ) → count x (y ∷ a) ≡ (if x == y then 1 else 0) + count x a
unfolding count
count-cons x y a = ground arith

result_count-cons :
    (x : ℕ) (r : Result) (rs : List Result)
    → result_count x (r ∷ rs) ≡ (if x == r.task then 1 else 0) + result_count x rs
unfolding result_count
result_count-cons x r rs = refl

count-nil : (x : ℕ) → count x [] ≡ 0
unfolding count
count-nil x = refl

result_count-nil : (x : ℕ) → result_count x [] ≡ 0
unfolding result_count
result_count-nil x = refl

module _ (max : ℕ) (positive : 0 < max) where
  go_on_jobs :
      (task : Bool) (jobs : ℕ)
      → PhaseJobs max (deciding task) jobs
      → (task ≡ true) ⊎ (0 < jobs)
      → 0 < jobs
  go_on_jobs true jobs l some_left = omega (arith, l, positive)
  go_on_jobs false jobs l (inl e) = cc
  go_on_jobs false jobs l (inr m) = m

  finish-Sound :
      (s : Pool) (r : Result) (rest : List Result)
      → Sound max s
      → s.results ≡ r ∷ rest
      → Sound max (finish r (record s { phase = checking; jobs = s.jobs - 1; results = rest }))
  unfolding finish
  finish-Sound s r rest sound e =
      let fewer = ap length e in
      let left = sound.jobs_exact in
      elim (Bool-cases r.ok) [
        | inl ok ↦ rw ok (record {
          jobs_exact = omega (arith, left, fewer);
          jobs_below = omega (arith, sound.jobs_below);
          phase_jobs = tt;
          kept = λ x.
              let less = ap (result_count x) e in
              omega (
                arith,
                sound.kept x,
                less,
                result_count-cons x r rest,
                count-cons x r.task s.executed,
              );
        })
        | inr bad ↦ rw bad (record {
          jobs_exact = omega (arith, left, fewer);
          jobs_below = omega (arith, sound.jobs_below);
          phase_jobs = tt;
          kept = λ x.
              let less = ap (result_count x) e in
              omega (
                arith,
                sound.kept x,
                less,
                result_count-cons x r rest,
                count-cons x r.task s.failed,
              );
        })
      ]

  step-Sound : (s s' : Pool) → Sound max s → Step max s s' → Sound max s'
  unfolding result_count
  step-Sound _ _ sound (next_none s e l) = record {
    jobs_exact = sound.jobs_exact;
    jobs_below = sound.jobs_below;
    phase_jobs = tt;
    kept = sound.kept;
  }
  step-Sound _ _ sound (prepare_raises s t e l) = record {
    jobs_exact = sound.jobs_exact;
    jobs_below = sound.jobs_below;
    phase_jobs = sound.phase_jobs;
    kept = λ x. omega (arith, sound.kept x, count-cons x t s.handed, count-cons x t s.failed);
  }
  step-Sound _ _ sound (dispatch s t e l) = record {
    jobs_exact = omega (arith, sound.jobs_exact, length-append s.requests (t ∷ []));
    jobs_below = omega (arith, l);
    phase_jobs = rw e tt;
    kept = λ x. omega (
      arith,
      sound.kept x,
      count-cons x t s.handed,
      count-append x s.requests (t ∷ []),
      count-cons x t [],
      count-nil x,
    );
  }
  step-Sound _ _ sound (needs_nothing s t e l) = record {
    jobs_exact = sound.jobs_exact;
    jobs_below = sound.jobs_below;
    phase_jobs = sound.phase_jobs;
    kept = λ x. omega (arith, sound.kept x, count-cons x t s.handed, count-cons x t s.executed);
  }
  step-Sound _ _ sound (full s e l) = record {
    jobs_exact = sound.jobs_exact;
    jobs_below = sound.jobs_below;
    phase_jobs = l;
    kept = sound.kept;
  }
  step-Sound _ _ sound (leave s e z) = record {
    jobs_exact = sound.jobs_exact;
    jobs_below = sound.jobs_below;
    phase_jobs = z;
    kept = sound.kept;
  }
  step-Sound _ _ sound (go_on s task e some_left) = record {
    jobs_exact = sound.jobs_exact;
    jobs_below = sound.jobs_below;
    phase_jobs = go_on_jobs task s.jobs (rw e at sound.phase_jobs) some_left;
    kept = sound.kept;
  }
  step-Sound _ _ sound (get s r rest e e') = finish-Sound s r rest sound e'
  step-Sound _ _ sound (no_more s e e') = record {
    jobs_exact = sound.jobs_exact;
    jobs_below = sound.jobs_below;
    phase_jobs = tt;
    kept = sound.kept;
  }
  step-Sound _ _ sound (more s r rest e e') = record {
    jobs_exact = sound.jobs_exact;
    jobs_below = sound.jobs_below;
    phase_jobs = let some_left = ap length e' in omega (arith, sound.jobs_exact, some_left);
    kept = sound.kept;
  }
  step-Sound _ _ sound (take_request s t rest e l) = record {
    jobs_exact = let fewer = ap length e in omega (arith, sound.jobs_exact, fewer);
    jobs_below = sound.jobs_below;
    phase_jobs = sound.phase_jobs;
    kept = λ x.
        let fewer = ap (count x) e in
        omega (arith, sound.kept x, fewer, count-cons x t rest, count-cons x t s.running);
  }
  step-Sound _ _ sound (put_result s before after t ok e) = record {
    jobs_exact =
        let all = ap length e in
        omega (
          arith,
          sound.jobs_exact,
          all,
          length-append before (t ∷ after),
          length-append before after,
          length-append s.results (record { task = t; ok = ok } ∷ []),
        );
    jobs_below = sound.jobs_below;
    phase_jobs = sound.phase_jobs;
    kept = λ x.
        let all = ap (count x) e in
        omega (
          arith,
          sound.kept x,
          all,
          count-append x before (t ∷ after),
          count-cons x t after,
          count-append x before after,
          result_count-append x s.results (record { task = t; ok = ok } ∷ []),
        );
  }

  -- With at least one job allowed, in each reachable state `jobs` counts the tasks that are requested,
  -- in work or answered, and is within the limit; each task that the taskmaster handed out was
  -- executed, has failed or is one of these, as often as it was handed out.
  pub Reachable-Sound : (s : Pool) → Reachable max s → Sound max s
  Reachable-Sound _ begins = record {
    jobs_exact = refl;
    jobs_below = omega arith;
    phase_jobs = tt;
    kept = λ x. omega (arith, count-nil x, result_count-nil x);
  }
  Reachable-Sound _ (steps {s} {s'} r step) = step-Sound s s' (Reachable-Sound s r) step
