-- ===== src/Build/Jobs/Progress.antt =====
-- Job.py, `Parallel.start`: which steps are open to it, and what is left when it ends.
use cross_chain.Prelude.{
  ℕ, ◌+◌, ◌≡◌, ◌<◌, ◌⊎◌, inl, inr, refl, ap, true, false, List, [], ◌∷◌, length, arith,
}
use native.Mathlib.Decide.{dec_lt}
use cross_chain.Build.Node.Waits.{count}
use cross_chain.Build.Jobs.{
  Phase, filling, deciding, waiting, checking, done, Result, Pool, Step, next_none, full, leave,
  go_on, get, no_more, more, take_request, put_result, Reachable,
}
use cross_chain.Build.Jobs.Outstanding.{result_count, Sound, Reachable-Sound}

module _ (max : ℕ) (positive : 0 < max) where
  length-zero-nil : {A : Type 0} (l : List A) → length l ≡ 0 → l ≡ []
  length-zero-nil [] e = refl
  length-zero-nil (x ∷ l) e = absurd (omega (arith, e))

  -- With at least one job allowed: when `Parallel.start` has left its loop, no task is on a queue or with a worker, and each task that
  -- was handed out was executed or has failed, as often as it was handed out.
  pub Reachable-done :
      (s : Pool)
      → Reachable max s
      → s.phase ≡ done
      → (s.requests ≡ [])
        × (s.running ≡ [])
        × (s.results ≡ [])
        × ((x : ℕ) → count x s.handed ≡ count x s.executed + count x s.failed)
  unfolding result_count count
  Reachable-done s r e =
      let sound = Reachable-Sound max positive s r in
      let none_left : s.jobs ≡ 0 = rw e at sound.phase_jobs in
      let a = length-zero-nil s.requests (omega (arith, none_left, sound.jobs_exact)) in
      let b = length-zero-nil s.running (omega (arith, none_left, sound.jobs_exact)) in
      let c = length-zero-nil s.results (omega (arith, none_left, sound.jobs_exact)) in
      (
        a,
        b,
        c,
        λ x.
            let a' = ap (count x) a in
            let b' = ap (count x) b in
            let c' = ap (result_count x) c in omega (arith, sound.kept x, a', b', c'),
      )

  worker_step :
      (s : Pool) (requests running : List ℕ)
      → s.requests ≡ requests
      → s.running ≡ running
      → 0 < length requests + length running
      → (s' : Pool) × Step max s s'
  worker_step s requests (t ∷ rest) e e' some_left = (_, put_result s [] rest t true e')
  worker_step s (t ∷ rest) [] e e' some_left = (_, take_request s t rest e (rw e' positive))
  worker_step s [] [] e e' some_left = absurd (omega (arith, some_left))

  -- There is no deadlock: with at least one job allowed, in each reachable state but the last some
  -- step can be made, by the main thread or by a worker.
  pub Reachable-progress :
      (s : Pool) → Reachable max s → (s.phase ≡ done) ⊎ ((s' : Pool) × Step max s s')
  Reachable-progress s r = go s.phase refl (Reachable-Sound max positive s r)
    where
      answered :
          (rs : List Result)
          → s.results ≡ rs
          → s.phase ≡ waiting
          → Sound max s
          → (s' : Pool) × Step max s s'
      answered (r ∷ rest) e w sound = (_, get s r rest w e)
      answered [] e w sound =
          let some_left : 0 < s.jobs = rw w at sound.phase_jobs in
          let empty = ap length e in
          worker_step s s.requests s.running refl refl
            (omega (arith, some_left, empty, sound.jobs_exact))

      checked :
          (rs : List Result) → s.results ≡ rs → s.phase ≡ checking → (s' : Pool) × Step max s s'
      checked [] e c = (_, no_more s c e)
      checked (r ∷ rest) e c = (_, more s r rest c e)

      go :
          (p : Phase) → s.phase ≡ p → Sound max s → (s.phase ≡ done) ⊎ ((s' : Pool) × Step max s s')
      go filling e sound = elim (dec_lt s.jobs max) [
        | yes l ↦ inr (_, next_none s e l)
        | no l ↦ inr (_, full s e (omega (arith, l)))
      ]
      go (deciding true) e sound = inr (_, go_on s true e (inl refl))
      go (deciding false) e sound = elim (dec_lt 0 s.jobs) [
        | yes l ↦ inr (_, go_on s false e (inr l))
        | no l ↦ inr (_, leave s e (omega (arith, l)))
      ]
      go waiting e sound = inr (answered s.results refl e sound)
      go checking e sound = inr (checked s.results refl e)
      go done e sound = inl e
