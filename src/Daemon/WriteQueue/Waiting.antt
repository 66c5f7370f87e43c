-- ===== src/Daemon/WriteQueue/Waiting.antt =====
-- submit_wait: the caller's future gets what its own job gave.
use gogol.Prelude.{
  ℕ, ◌+◌, ◌*◌, ◌≤◌, ◌≡◌, refl, ap, ap₂, ◌∙◌, false, Option, none, some, List, [], ◌∷◌, ◌++◌, map,
  ◌⊎◌, length, All,
}
use gogol.Daemon.WriteQueue.{WriteQueue, Job, Exception, Runs, submit, run, run_all, failures}
use gogol.Daemon.WriteQueue.Later.{Later, Leaves, promise-Later}
use gogol.Daemon.WriteQueue.Order.{run_all-append, failures-append}
use gogol.Daemon.WriteQueue.Draining.{run-drains}

-- The shared state of the promise and its future: unset, or a value, or an exception.
abbrev pub Promise {ℓ} : Type ℓ → Type ℓ
Promise T = Option (T ⊎ Exception)

module _ {ℓ} {W T : Type ℓ} where
  -- What submit_wait puts into the queue: the job with its end kept in the promise.
  unfoldable pub wait_job : (W → W × (T ⊎ Exception)) → Job (W × Promise T)
  wait_job job (w, p) = let (w', end) = job w in ((w', some end), none)

  -- A job of another caller, which does not know the promise.
  unfoldable pub other_job : Job W → Job (W × Promise T)
  other_job job (w, p) = let (w', thrown) = job w in ((w', p), thrown)

  run_all-other :
      (jobs : List (Job W)) (w : W) (p : Promise T)
      → run_all (map other_job jobs) (w, p) ≡ (run_all jobs w, p)
  unfolding run_all other_job
  run_all-other [] w p = refl
  run_all-other (job ∷ jobs) w p = run_all-other jobs (job w).0 p

  failures-other :
      (jobs : List (Job W)) (w : W) (p : Promise T)
      → failures (map other_job jobs) (w, p) ≡ failures jobs w
  unfolding failures other_job
  failures-other [] w p = refl
  failures-other (job ∷ jobs) w p = rw (failures-other jobs (job w).0 p) refl

  -- While run() has not returned, the job's own exception is not printed; those of the others are.
  pub submit_wait-going :
      (job : W → W × (T ⊎ Exception)) (before after : List (Job W)) (w : W)
      (q : WriteQueue (W × Promise T))
      → Runs (w, none) (map other_job before ++ (wait_job job ∷ map other_job after)) q
      → q.returned ≡ false
      → (n : ℕ) → 2 * length q.queue + 2 ≤ n
      → let (w', end) = job (run_all before w) in
        ((run n q).world ≡ (run_all after w', some end))
        × ((run n q).errors ≡ failures before w ++ failures after w')
  unfolding wait_job run_all failures
  submit_wait-going job before after w q r h n enough =
      let (_, _, _, at, printed) = run-drains (w, none) _ q r h n enough in
      let (w', end) = job (run_all before w) in
      (
        at
            ∙ run_all-append (map other_job before) _ (w, none)
            ∙ ap (run_all (wait_job job ∷ map other_job after)) (run_all-other before w none)
            ∙ run_all-other after w' (some end),
        printed
            ∙ failures-append (map other_job before) _ (w, none)
            ∙ ap₂ (◌++◌) (failures-other before w none)
                (rw (run_all-other before w none) (failures-other after w' (some end))),
      )

other_jobs-Leaves {ℓ} :
    {W : Type ℓ} (T : Type ℓ) (jobs : List (Job W))
    → All (Leaves {W = W} {T = Promise T}) (map other_job jobs)
unfolding other_job
other_jobs-Leaves T [] = tt
other_jobs-Leaves T (job ∷ jobs) = (λ s. refl, other_jobs-Leaves T jobs)

module _ {ℓ} {W T : Type ℓ} where
  -- If run() has not returned when submit_wait submits its job, then in every state later on, with
  -- whatever other callers submit before and after it and a stop asked for or not: once the worker
  -- has taken its steps, two for each queued job and two more, the promise of the call holds the
  -- value or the exception of its own job, in the world that the jobs submitted before it leave.
  pub submit_wait-result :
      (job : W → W × (T ⊎ Exception)) (before after : List (Job W)) (w : W)
      (q p : WriteQueue (W × Promise T))
      → Runs (w, none) (map other_job before) q
      → q.returned ≡ false
      → Later (submit (wait_job job) q) (map other_job after) p
      → (n : ℕ) → 2 * length p.queue + 2 ≤ n
      → (run n p).world.1 ≡ some (job (run_all before w)).1
  unfolding submit wait_job run_all
  submit_wait-result job before after w q p r going l n enough =
      promise-Later (w, none) (map other_job before ++ wait_job job ∷ []) (submit (wait_job job) q)
        (map other_job after) p (Runs.submits (wait_job job) r) going l (other_jobs-Leaves T after)
        n enough
      ∙ ap (λ x. x.1)
          (run_all-append (map other_job before) (wait_job job ∷ []) (w, none)
            ∙ ap (run_all (wait_job job ∷ [])) (run_all-other before w none))
