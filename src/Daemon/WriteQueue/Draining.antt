-- ===== src/Daemon/WriteQueue/Draining.antt =====
-- The worker's loop by itself: every pending job is run, then it waits or returns.
use gogol.Prelude.{
  ℕ, zero, suc, ◌+◌, ◌*◌, ◌≤◌, ◌≡◌, refl, sym, Bool, true, false, Option, none, some, List, [], ◌∷◌,
  ◌++◌, arith, append_assoc, append-nil, length, subst, inl, inr,
}
use gogol.Daemon.WriteQueue.{
  WriteQueue, Job, Exception, caught, Runs, take_job, run_job, worker_step, run, run_all, failures,
  in_hand, pending,
}
use gogol.Daemon.WriteQueue.Order.{
  run_all-append, failures-append, IsInOrder, Runs-IsInOrder, IsWork, worker_step-IsWork,
  worker_step-going,
}

module _ {ℓ} {W : Type ℓ} where
  -- No job is left; run() has returned if a stop was asked for, and waits otherwise.
  abbrev pub IsSettled : Bool → W → List Exception → WriteQueue W → Type ℓ
  IsSettled stop w errors q =
      (q.queue ≡ [])
      × (q.running ≡ none)
      × (q.returned ≡ stop)
      × (q.world ≡ w)
      × (q.errors ≡ errors)

  pub run-returned : (n : ℕ) (q : WriteQueue W) → q.returned ≡ true → run n q ≡ q
  unfolding run worker_step
  run-returned zero q h = refl
  run-returned (suc n) q h = rw h refl

  idle : List (Job W) → Bool → W → List Exception → WriteQueue W
  idle jobs stop w errors = record {
    queue = jobs;
    stop = stop;
    running = none;
    returned = false;
    world = w;
    errors = errors;
  }

  run-idle :
      (n : ℕ) (jobs : List (Job W)) (stop : Bool) (w : W) (errors : List Exception)
      → 2 * length jobs + 1 ≤ n
      → IsSettled stop
          (run_all jobs w)
          (errors ++ failures jobs w)
          (run n (idle jobs stop w errors))
  unfolding run worker_step take_job run_job run_all failures idle
  run-idle zero jobs stop w errors h = absurd (omega arith)
  run-idle (suc n) [] true w errors h =
      rw (run-returned n (record (idle [] true w errors) { returned = true }) refl)
        (refl, refl, refl, refl, sym (append-nil errors))
  run-idle (suc n) [] false w errors h = (refl, refl, refl, refl, sym (append-nil errors))
  run-idle (suc (suc n)) (job ∷ jobs) stop w errors h =
      rw (← append_assoc errors (caught (job w).1) (failures jobs (job w).0))
        (run-idle n jobs stop (job w).0 (errors ++ caught (job w).1) (omega arith))
  run-idle _ (job ∷ jobs) stop w errors h = absurd (omega arith)

  busy : Job W → List (Job W) → Bool → W → List Exception → WriteQueue W
  unfolding idle
  busy job jobs stop w errors = record (idle jobs stop w errors) { running = some job }

  run-busy :
      (n : ℕ) (job : Job W) (jobs : List (Job W)) (stop : Bool) (w : W) (errors : List Exception)
      → 2 * length jobs + 2 ≤ n
      → IsSettled stop
          (run_all (job ∷ jobs) w)
          (errors ++ failures (job ∷ jobs) w)
          (run n (busy job jobs stop w errors))
  unfolding run worker_step run_job run_all failures idle busy
  run-busy zero job jobs stop w errors h = absurd (omega arith)
  run-busy (suc n) job jobs stop w errors h =
      rw (← append_assoc errors (caught (job w).1) (failures jobs (job w).0))
        (run-idle n jobs stop (job w).0 (errors ++ caught (job w).1) (omega arith))

  run-going :
      (n : ℕ) (hand : Option (Job W)) (jobs : List (Job W)) (stop : Bool) (w : W)
      (errors : List Exception)
      → 2 * length jobs + 2 ≤ n
      → IsSettled stop
          (run_all (in_hand hand ++ jobs) w)
          (errors ++ failures (in_hand hand ++ jobs) w)
          (run n (record (idle jobs stop w errors) { running = hand }))
  unfolding idle busy
  run-going n none jobs stop w errors h = run-idle n jobs stop w errors (omega arith)
  run-going n (some job) jobs stop w errors h = run-busy n job jobs stop w errors h

  run-IsSettled :
      (n : ℕ) (q : WriteQueue W)
      → q.returned ≡ false
      → 2 * length q.queue + 2 ≤ n
      → IsSettled q.stop
          (run_all (pending q) q.world)
          (q.errors ++ failures (pending q) q.world)
          (run n q)
  unfolding idle
  run-IsSettled n q h enough =
      subst
        (λ b.
          IsSettled q.stop (run_all (pending q) q.world) (q.errors ++ failures (pending q) q.world)
            (run n (record q { returned = b })))
        (sym h) (run-going n q.running q.queue q.stop q.world q.errors enough)

  -- From every reachable state in which run() has not returned, the worker's steps by themselves,
  -- two for each queued job and two more, run all the jobs submitted, each once and in order, and
  -- leave no job; run() has then returned if the destructor asked for it, and waits otherwise.
  pub run-drains :
      (w : W) (jobs : List (Job W)) (q : WriteQueue W)
      → Runs w jobs q
      → q.returned ≡ false
      → (n : ℕ) → 2 * length q.queue + 2 ≤ n
      → IsSettled q.stop (run_all jobs w) (failures jobs w) (run n q)
  unfolding IsInOrder
  run-drains w jobs q r h n enough =
      let (done, split, at, printed) = Runs-IsInOrder w jobs q r in
      rw
        (
          split,
          run_all-append done (pending q) w,
          failures-append done (pending q) w,
          ← at,
          ← printed,
        )
        (run-IsSettled n q h enough)

  -- run() returns only after the destructor asked for it, and then every job submitted by that time
  -- has been run, each once and in order, and none is left.
  pub worker_step-returns :
      (w : W) (jobs : List (Job W)) (q q' : WriteQueue W)
      → Runs w jobs q
      → worker_step q ≡ some q'
      → q'.returned ≡ true
      → (q.stop ≡ true)
        × (pending q' ≡ [])
        × (q'.world ≡ run_all jobs w)
        × (q'.errors ≡ failures jobs w)
  unfolding IsInOrder IsWork run_job
  worker_step-returns w jobs q q' r e h =
      let (done, split, at, printed) = Runs-IsInOrder w jobs q r in
      let going = worker_step-going q q' e in
      elim (worker_step-IsWork q q' e) [
        | inl (job, _, f) ↦ absurd (ground arith)
        | inr (inl (job, rest, _, _, f)) ↦ absurd (ground arith)
        | inr (inr (idle, empty, stopped, f)) ↦
            let all : jobs ≡ done = rw (split, idle, empty, append-nil done) refl in
            rw (f, all) (stopped, rw (idle, empty) refl, at, printed)
      ]
