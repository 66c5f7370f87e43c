-- ===== src/Daemon/WriteQueue.antt =====
-- WriteQueue of src/daemon/write_queue.h. A job acts on the world that its closure refers to. A
-- step is a region under the mutex, or the run of one job by the worker; the steps of the threads
-- that submit and of the worker interleave in every order.
pub mod Order
pub mod Draining
pub mod Later
pub mod Waiting
mod Tests
use gogol.Prelude.{
  ℕ, zero, suc, ◌≡◌, Bool, true, false, Option, none, some, List, [], ◌∷◌, ◌++◌, length,
}
use gogol.Text.{Bytes}

-- What an exception says: the text of what(), or `unknown` for one that is no std::exception.
abbrev pub Exception : Type 0
Exception = Bytes

-- The world behind a job, and the exception that ended it.
abbrev pub Job {ℓ} : Type ℓ → Type ℓ
Job W = W → W × Option Exception

-- `running` is the local `job` of the worker's loop; `returned` says that run() has returned.
pub record WriteQueue {ℓ} (W : Type ℓ) : Type ℓ where
  pub queue : List (Job W)
  pub stop : Bool
  pub running : Option (Job W)
  pub returned : Bool
  pub world : W
  pub errors : List Exception

-- The lines printed for a job that ended by an exception.
abbrev pub caught : Option Exception → List Exception
caught none = []
caught (some what) = what ∷ []

module _ {ℓ} {W : Type ℓ} where
  -- WriteQueue(), with the world it starts in.
  abbrev pub new : W → WriteQueue W
  new w = record {
    queue = [];
    stop = false;
    running = none;
    returned = false;
    world = w;
    errors = [];
  }

  -- The constructor starts the worker before it sets stop_, which is declared behind worker_: a worker
  -- that reads the uninitialised flag first may find it set, and has then returned.
  abbrev pub new_raced : W → WriteQueue W
  new_raced w = record (new w) { returned = true }

  unfoldable pub submit : Job W → WriteQueue W → WriteQueue W
  submit job q = record q { queue = q.queue ++ job ∷ [] }

  -- The locked part of the destructor.
  unfoldable pub request_stop : WriteQueue W → WriteQueue W
  request_stop q = record q { stop = true }

  unfoldable pub depth : WriteQueue W → ℕ
  depth q = length q.queue

  -- The locked region of the loop: none while the predicate of cv_.wait is false.
  unfoldable pub take_job : WriteQueue W → Option (WriteQueue W)
  take_job q = elim q.queue [
    | [] ↦ elim q.stop [ false ↦ none | true ↦ some (record q { returned = true }) ]
    | job ∷ rest ↦ some (record q { queue = rest; running = some job })
  ]

  -- The call of the job under the try of the loop.
  unfoldable pub run_job : Job W → WriteQueue W → WriteQueue W
  run_job job q =
      let (w, thrown) = job q.world in
      record q { running = none; world = w; errors = q.errors ++ caught thrown }

  -- One step of run(); none when it waits or has returned.
  unfoldable pub worker_step : WriteQueue W → Option (WriteQueue W)
  worker_step q = elim q.returned [
    | true ↦ none
    | false ↦ elim q.running [ none ↦ take_job q | some job ↦ some (run_job job q) ]
  ]

  -- The worker's steps, while it can take one and the fuel lasts.
  unfoldable pub run : ℕ → WriteQueue W → WriteQueue W
  run zero q = q
  run (suc fuel) q = elim (worker_step q) [ none ↦ q | some q' ↦ run fuel q' ]

  -- The interleavings of all threads from a new queue, with the jobs submitted so far.
  pub data Runs (w : W) : List (Job W) → WriteQueue W → Type ℓ where
    start : Runs w [] (new w)
    start_raced : Runs w [] (new_raced w)
    submits :
        (job : Job W) {jobs : List (Job W)} {q : WriteQueue W}
        → Runs w jobs q
        → Runs w (jobs ++ job ∷ []) (submit job q)
    stops : {jobs : List (Job W)} {q : WriteQueue W} → Runs w jobs q → Runs w jobs (request_stop q)
    works :
        {jobs : List (Job W)} {q q' : WriteQueue W}
        → Runs w jobs q
        → worker_step q ≡ some q'
        → Runs w jobs q'

  -- The independent description: jobs run one by one, in order, each to its end.
  unfoldable pub run_all : List (Job W) → W → W
  run_all [] w = w
  run_all (job ∷ jobs) w = run_all jobs (job w).0

  unfoldable pub failures : List (Job W) → W → List Exception
  failures [] w = []
  failures (job ∷ jobs) w = caught (job w).1 ++ failures jobs (job w).0

  abbrev pub in_hand : Option (Job W) → List (Job W)
  in_hand none = []
  in_hand (some job) = job ∷ []

  -- The jobs that were submitted and are not done.
  abbrev pub pending : WriteQueue W → List (Job W)
  pending q = in_hand q.running ++ q.queue
