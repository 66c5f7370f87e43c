-- ===== src/Daemon/WriteQueue/Later.antt =====
-- What becomes of the jobs of a queue from a state on in which run() has not returned, whatever is
-- submitted behind them and whether or not a stop is asked for.
use gogol.Prelude.{
  ℕ, ◌+◌, ◌*◌, ◌≤◌, ◌≡◌, refl, sym, ap, ◌∙◌, true, false, List, [], ◌∷◌, ◌++◌, ◌⊎◌, inl, inr,
  length, append_assoc, append-nil, subst, Bool-cases, some, All,
}
use gogol.Daemon.WriteQueue.{WriteQueue, Job, Runs, submit, request_stop, worker_step, run, run_all}
use gogol.Daemon.WriteQueue.Order.{run_all-append}
use gogol.Daemon.WriteQueue.Draining.{run-drains, run-returned, worker_step-returns}

module _ {ℓ} {W : Type ℓ} where
  -- The interleavings of all threads from a state on, with the jobs submitted since.
  pub data Later (q : WriteQueue W) : List (Job W) → WriteQueue W → Type ℓ where
    now : Later q [] q
    submits :
        (job : Job W) {jobs : List (Job W)} {p : WriteQueue W}
        → Later q jobs p
        → Later q (jobs ++ job ∷ []) (submit job p)
    stops :
        {jobs : List (Job W)} {p : WriteQueue W} → Later q jobs p → Later q jobs (request_stop p)
    works :
        {jobs : List (Job W)} {p p' : WriteQueue W}
        → Later q jobs p
        → worker_step p ≡ some p'
        → Later q jobs p'

  pub Runs-Later :
      (w : W) (jobs : List (Job W)) (q : WriteQueue W) (after : List (Job W)) (p : WriteQueue W)
      → Runs w jobs q
      → Later q after p
      → Runs w (jobs ++ after) p
  Runs-Later w jobs q _ _ r now = subst (λ js. Runs w js q) (sym (append-nil jobs)) r
  Runs-Later w jobs q _ _ r (submits job {jobs = js} {p = p} l) =
      subst (λ ks. Runs w ks (submit job p)) (append_assoc jobs js (job ∷ []))
        (Runs.submits job (Runs-Later w jobs q js p r l))
  Runs-Later w jobs q after _ r (stops {p = p} l) = Runs.stops (Runs-Later w jobs q after p r l)
  Runs-Later w jobs q after _ r (works {p = p} l e) = Runs.works (Runs-Later w jobs q after p r l) e

  -- run() has returned behind the jobs and a first part of the later ones.
  abbrev HasReturned : W → List (Job W) → List (Job W) → WriteQueue W → Type ℓ
  HasReturned w jobs after p =
      (done : List (Job W)) × (rest : List (Job W)) × (after ≡ done ++ rest)
      × (p.world ≡ run_all (jobs ++ done) w)
      × (p.returned ≡ true)

  Later-cases :
      (w : W) (jobs : List (Job W)) (q : WriteQueue W) (after : List (Job W)) (p : WriteQueue W)
      → Runs w jobs q
      → q.returned ≡ false
      → Later q after p
      → (p.returned ≡ false) ⊎ HasReturned w jobs after p
  unfolding submit request_stop
  Later-cases w jobs q _ _ r going now = inl going
  Later-cases w jobs q _ _ r going (submits job {jobs = js} {p = p} l) =
      elim (Later-cases w jobs q js p r going l) [
        | inl still ↦ inl still
        | inr (done, rest, split, at, returned) ↦ inr (
          done,
          rest ++ job ∷ [],
          ap (λ ks. ks ++ job ∷ []) split ∙ append_assoc done rest (job ∷ []),
          at,
          returned,
        )
      ]
  Later-cases w jobs q after _ r going (stops {p = p} l) = Later-cases w jobs q after p r going l
  Later-cases w jobs q after p' r going (works {p = p} l e) = elim (Bool-cases p'.returned) [
    | inr still ↦ inl still
    | inl returned ↦
        let (_, _, at, _) =
          worker_step-returns w (jobs ++ after) p p' (Runs-Later w jobs q after p r l) e returned in
        inr (after, [], sym (append-nil after), at, returned)
  ]

  -- From any state on in which run() has not returned, and however it goes on: behind the worker's
  -- steps the jobs of that state have been run in order, and a first part of the later ones.
  pub run-Later :
      (w : W) (jobs : List (Job W)) (q : WriteQueue W) (after : List (Job W)) (p : WriteQueue W)
      → Runs w jobs q
      → q.returned ≡ false
      → Later q after p
      → (n : ℕ) → 2 * length p.queue + 2 ≤ n
      → (done : List (Job W)) × (rest : List (Job W)) × (after ≡ done ++ rest)
        × ((run n p).world ≡ run_all (jobs ++ done) w)
  run-Later w jobs q after p r going l n enough = elim (Later-cases w jobs q after p r going l) [
    | inl still ↦
        let (_, _, _, at, _) =
          run-drains w (jobs ++ after) p (Runs-Later w jobs q after p r l) still n enough in
        (after, [], sym (append-nil after), at)
    | inr (done, rest, split, at, returned) ↦
        (done, rest, split, ap (λ x. x.world) (run-returned n p returned) ∙ at)
  ]

module _ {ℓ} {W T : Type ℓ} where
  -- A job that leaves the promise of the world alone.
  abbrev pub Leaves : Job (W × T) → Type ℓ
  Leaves job = (s : W × T) → (job s).0.1 ≡ s.1

  run_all-Leaves :
      (done rest : List (Job (W × T))) (s : W × T)
      → All Leaves (done ++ rest)
      → (run_all done s).1 ≡ s.1
  unfolding run_all
  run_all-Leaves [] rest s h = refl
  run_all-Leaves (job ∷ done) rest s h = run_all-Leaves done rest (job s).0 h.1 ∙ h.0 s

  -- What the jobs of a state left in the promise stays there, if the later ones leave it alone.
  pub promise-Later :
      (s : W × T) (jobs : List (Job (W × T))) (q : WriteQueue (W × T)) (after : List (Job (W × T)))
      (p : WriteQueue (W × T))
      → Runs s jobs q
      → q.returned ≡ false
      → Later q after p
      → All Leaves after
      → (n : ℕ) → 2 * length p.queue + 2 ≤ n
      → (run n p).world.1 ≡ (run_all jobs s).1
  promise-Later s jobs q after p r going l leaves n enough =
      let (done, rest, split, at) = run-Later s jobs q after p r going l n enough in
      ap (λ x. x.1) at
      ∙ ap (λ x. x.1) (run_all-append jobs done s)
      ∙ run_all-Leaves done rest (run_all jobs s) (subst (All Leaves) split leaves)
