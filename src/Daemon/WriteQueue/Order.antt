-- ===== src/Daemon/WriteQueue/Order.antt =====
-- The order in which the writer runs the jobs, in every interleaving.
use gogol.Prelude.{
  ◌≡◌, refl, sym, true, false, none, some, List, [], ◌∷◌, ◌++◌, arith, append_assoc, append-nil,
  Option-cases, Bool-cases, List-cases, ◌⊎◌, inl, inr,
}
use gogol.Daemon.WriteQueue.{
  WriteQueue, Job, caught, Runs, start, start_raced, submits, stops, works, submit, request_stop,
  take_job, run_job, worker_step, run_all, failures, in_hand, pending,
}

module _ {ℓ} {W : Type ℓ} where
  pub run_all-append :
      (js ks : List (Job W)) (w : W) → run_all (js ++ ks) w ≡ run_all ks (run_all js w)
  unfolding run_all
  run_all-append [] ks w = refl
  run_all-append (j ∷ js) ks w = run_all-append js ks (j w).0

  pub failures-append :
      (js ks : List (Job W)) (w : W)
      → failures (js ++ ks) w ≡ failures js w ++ failures ks (run_all js w)
  unfolding run_all failures
  failures-append [] ks w = refl
  failures-append (j ∷ js) ks w =
      rw (failures-append js ks (j w).0) (
        sym
          (append_assoc (caught (j w).1) (failures js (j w).0) (failures ks (run_all js (j w).0))))

  -- The jobs split into those done and those pending; the world and the printed lines are those of
  -- the jobs done, one by one.
  unfoldable pub IsInOrder : W → List (Job W) → WriteQueue W → Type ℓ
  IsInOrder w jobs q =
      (done : List (Job W)) × (jobs ≡ done ++ pending q)
      × (q.world ≡ run_all done w)
      × (q.errors ≡ failures done w)

  -- The three kinds of step of the worker.
  unfoldable pub IsWork : WriteQueue W → WriteQueue W → Type ℓ
  IsWork q q' =
      ((job : Job W) × (q.running ≡ some job) × (q' ≡ run_job job q))
      ⊎ (((job : Job W) × (rest : List (Job W)) × (q.running ≡ none)
            × (q.queue ≡ job ∷ rest)
            × (q' ≡ record q { queue = rest; running = some job }))
          ⊎ ((q.running ≡ none)
              × (q.queue ≡ [])
              × (q.stop ≡ true)
              × (q' ≡ record q { returned = true })))

  take_job-IsWork : (q q' : WriteQueue W) → q.running ≡ none → take_job q ≡ some q' → IsWork q q'
  unfolding IsWork take_job
  take_job-IsWork q q' idle e = elim (List-cases q.queue) [
    | inl empty ↦ elim (Bool-cases q.stop) [
      | inl stopped ↦ inr (inr (idle, empty, stopped, ground arith))
      | inr running ↦ absurd (ground arith)
    ]
    | inr (job, rest, split) ↦ inr (inl (job, rest, idle, split, (ground arith)))
  ]

  pub worker_step-IsWork : (q q' : WriteQueue W) → worker_step q ≡ some q' → IsWork q q'
  unfolding IsWork worker_step
  worker_step-IsWork q q' e = elim (Bool-cases q.returned) [
    | inl returned ↦ absurd (ground arith)
    | inr going ↦ elim (Option-cases q.running) [
      | inl idle ↦ take_job-IsWork q q' idle (ground arith)
      | inr (job, r) ↦ inl (job, r, (ground arith))
    ]
  ]

  -- A step of the worker is taken before run() has returned.
  pub worker_step-going : (q q' : WriteQueue W) → worker_step q ≡ some q' → q.returned ≡ false
  unfolding worker_step
  worker_step-going q q' e = elim (Bool-cases q.returned) [
    | inl returned ↦ absurd (ground arith)
    | inr going ↦ going
  ]

  IsWork-IsInOrder :
      (w : W) (jobs : List (Job W)) (q q' : WriteQueue W)
      → IsInOrder w jobs q
      → IsWork q q'
      → IsInOrder w jobs q'
  unfolding IsInOrder IsWork run_job run_all failures
  IsWork-IsInOrder w jobs q q' (done, split, at, printed) (inl (job, r, e)) = rw e (
    done ++ job ∷ [],
    rw (split, r, append_assoc done (job ∷ []) q.queue) refl,
    rw (run_all-append done (job ∷ []) w, at) refl,
    rw
        (
          failures-append done (job ∷ []) w,
          printed,
          at,
          append-nil (caught (job (run_all done w)).1),
        )
        refl,
  )
  IsWork-IsInOrder w jobs q q' (done, split, at, printed) (inr (inl (job, rest, idle, s, e))) =
      rw e (done, rw (split, idle, s) refl, at, printed)
  IsWork-IsInOrder w jobs q q' (done, split, at, printed) (inr (inr (idle, empty, _, e))) =
      rw e (done, split, at, printed)

  submit-IsInOrder :
      (w : W) (jobs : List (Job W)) (q : WriteQueue W) (job : Job W)
      → IsInOrder w jobs q
      → IsInOrder w (jobs ++ job ∷ []) (submit job q)
  unfolding IsInOrder submit
  submit-IsInOrder w jobs q job (done, split, at, printed) = (
    done,
    rw
        (
          split,
          append_assoc done (pending q) (job ∷ []),
          append_assoc (in_hand q.running) q.queue (job ∷ []),
        )
        refl,
    at,
    printed,
  )

  -- In every interleaving the jobs are run one at a time, each once, in the order of their
  -- submission: those submitted are the jobs done followed by the pending ones, the world is the
  -- one that the done jobs leave one after the other, and a line is printed for exactly those that
  -- ended by an exception.
  pub Runs-IsInOrder :
      (w : W) (jobs : List (Job W)) (q : WriteQueue W) → Runs w jobs q → IsInOrder w jobs q
  unfolding IsInOrder request_stop run_all failures
  Runs-IsInOrder w jobs q start = ([], refl, refl, refl)
  Runs-IsInOrder w jobs q start_raced = ([], refl, refl, refl)
  Runs-IsInOrder w jobs q (submits job {jobs = js} {q = p} r) =
      submit-IsInOrder w js p job (Runs-IsInOrder w js p r)
  Runs-IsInOrder w jobs q (stops {q = p} r) = Runs-IsInOrder w jobs p r
  Runs-IsInOrder w jobs q (works {q = p} r e) =
      IsWork-IsInOrder w jobs p q (Runs-IsInOrder w jobs p r) (worker_step-IsWork p q e)
