-- ===== src/Embedding/Dispatcher/Refinement.antt =====
-- The dispatcher is a queue of the kind of Daemon.WriteQueue, whose jobs do not throw.
use mathlib.Core.Option
use gogol.Prelude.{
  ℕ, zero, suc, ◌+◌, ◌*◌, ◌≤◌, ◌≡◌, refl, sym, ap, ◌∙◌, Bool, true, false, Option, none, some, List,
  [], ◌∷◌, ◌++◌, map, length, All, if◌then◌else◌, map-append, length-map, subst,
}
use gogol.Text.{Bytes}
use gogol.Daemon.WriteQueue
use gogol.Daemon.WriteQueue.Order.{run_all-append}
use gogol.Daemon.WriteQueue.Later
use gogol.Daemon.WriteQueue.Later.{Leaves, promise-Later}
use gogol.Embedding.Dispatcher.{
  Embedder, Job, EmbedDispatcher, push, request_stop, take_job, serve, serve_running, worker_step,
  run, Runs, Later, start, start_raced, pushes, stops, works, sync_job,
}

module _ {Ctx Vec W : Type 0} (embedder : Embedder Ctx Vec) where
  unfoldable pub as_job : Job Vec W → WriteQueue.Job (Ctx × W)
  as_job job s = (serve embedder job s, none)

  unfoldable pub as_running : Option (Job Vec W) → Option (WriteQueue.Job (Ctx × W))
  as_running none = none
  as_running (some job) = some (as_job job)

  unfoldable pub as_queue : EmbedDispatcher Ctx Vec W → WriteQueue.WriteQueue (Ctx × W)
  as_queue d = record {
    queue = map as_job d.queue;
    stop = d.stop;
    running = as_running d.running;
    returned = d.returned;
    world = (d.ctx, d.world);
    errors = [];
  }

  from : List (Job Vec W) → Bool → Option (Job Vec W) → Bool → Ctx → W → EmbedDispatcher Ctx Vec W
  from queue stop running returned ctx w = record {
    queue = queue;
    stop = stop;
    running = running;
    returned = returned;
    ctx = ctx;
    world = w;
  }

  step_fields :
      (queue : List (Job Vec W)) (stop : Bool) (running : Option (Job Vec W)) (returned : Bool)
      (ctx : Ctx) (w : W)
      → Option.map as_queue (worker_step embedder (from queue stop running returned ctx w))
        ≡ WriteQueue.worker_step (as_queue (from queue stop running returned ctx w))
  unfolding from as_queue as_running as_job worker_step take_job serve_running
      WriteQueue.worker_step WriteQueue.take_job WriteQueue.run_job
  step_fields queue stop running true ctx w = refl
  step_fields queue stop (some job) false ctx w = refl
  step_fields [] true none false ctx w = refl
  step_fields [] false none false ctx w = refl
  step_fields (job ∷ queue) stop none false ctx w = refl

  -- A step of the dispatcher's worker is a step of the queue's, and it waits where the other waits.
  worker_step-as_queue :
      (d : EmbedDispatcher Ctx Vec W)
      → Option.map as_queue (worker_step embedder d) ≡ WriteQueue.worker_step (as_queue d)
  unfolding from
  worker_step-as_queue d = step_fields d.queue d.stop d.running d.returned d.ctx d.world

  push-as_queue :
      (job : Job Vec W) (d : EmbedDispatcher Ctx Vec W)
      → WriteQueue.submit (as_job job) (as_queue d) ≡ as_queue (push job d)
  unfolding as_queue push WriteQueue.submit
  push-as_queue job d =
      ap (λ q. record (as_queue d) { queue = q }) (sym (map-append as_job d.queue (job ∷ [])))

  -- Every interleaving of the dispatcher is one of the queue of Daemon.WriteQueue, with the jobs
  -- as they are served: what holds of the queue holds of the dispatcher.
  pub Runs-as_queue :
      (ctx : Ctx) (w : W) (jobs : List (Job Vec W)) (d : EmbedDispatcher Ctx Vec W)
      → Runs embedder ctx w jobs d
      → WriteQueue.Runs (ctx, w) (map as_job jobs) (as_queue d)
  unfolding as_queue as_running request_stop WriteQueue.request_stop
  Runs-as_queue ctx w jobs d start = WriteQueue.start
  Runs-as_queue ctx w jobs d start_raced = WriteQueue.start_raced
  Runs-as_queue ctx w jobs d (pushes job {jobs = js} {d = p} r) =
      subst (λ ks. WriteQueue.Runs (ctx, w) ks (as_queue (push job p)))
        (sym (map-append as_job js (job ∷ [])))
        (subst (WriteQueue.Runs (ctx, w) (map as_job js ++ as_job job ∷ [])) (push-as_queue job p)
          (WriteQueue.submits (as_job job) (Runs-as_queue ctx w js p r)))
  Runs-as_queue ctx w jobs d (stops {d = p} r) = WriteQueue.stops (Runs-as_queue ctx w jobs p r)
  Runs-as_queue ctx w jobs d (works {d = p} r e) =
      WriteQueue.works (Runs-as_queue ctx w jobs p r)
        (sym (worker_step-as_queue p) ∙ ap (Option.map as_queue) e)

  Later-as_queue :
      (c : EmbedDispatcher Ctx Vec W) (jobs : List (Job Vec W)) (d : EmbedDispatcher Ctx Vec W)
      → Later embedder c jobs d
      → WriteQueue.Later.Later (as_queue c) (map as_job jobs) (as_queue d)
  unfolding as_queue as_running request_stop WriteQueue.request_stop
  Later-as_queue c _ _ Later.now = WriteQueue.Later.Later.now
  Later-as_queue c _ _ (Later.pushes job {jobs = js} {d = p} l) =
      subst (λ ks. WriteQueue.Later.Later (as_queue c) ks (as_queue (push job p)))
        (sym (map-append as_job js (job ∷ [])))
        (subst (WriteQueue.Later.Later (as_queue c) (map as_job js ++ as_job job ∷ []))
          (push-as_queue job p)
          (WriteQueue.Later.Later.submits (as_job job) (Later-as_queue c js p l)))
  Later-as_queue c jobs _ (Later.stops {d = p} l) =
      WriteQueue.Later.Later.stops (Later-as_queue c jobs p l)
  Later-as_queue c jobs _ (Later.works {d = p} l e) =
      WriteQueue.Later.Later.works (Later-as_queue c jobs p l)
        (sym (worker_step-as_queue p) ∙ ap (Option.map as_queue) e)

  run_from :
      (n : ℕ) (d : EmbedDispatcher Ctx Vec W) (next : Option (EmbedDispatcher Ctx Vec W))
      → ((d' : EmbedDispatcher Ctx Vec W)
          → as_queue (run embedder n d') ≡ WriteQueue.run n (as_queue d'))
      → as_queue
          (elim next as (λ x. EmbedDispatcher Ctx Vec W) [ none ↦ d | some d' ↦ run embedder n d' ])
        ≡ elim (Option.map as_queue next) as (λ x. WriteQueue.WriteQueue (Ctx × W)) [
          | none ↦ as_queue d
          | some q ↦ WriteQueue.run n q
        ]
  run_from n d none same = refl
  run_from n d (some d') same = same d'

  run-as_queue :
      (n : ℕ) (d : EmbedDispatcher Ctx Vec W)
      → as_queue (run embedder n d) ≡ WriteQueue.run n (as_queue d)
  unfolding run WriteQueue.run
  run-as_queue zero d = refl
  run-as_queue (suc n) d =
      run_from n d (worker_step embedder d) (run-as_queue n)
      ∙ ap
          (λ o. elim o as (λ x. WriteQueue.WriteQueue (Ctx × W)) [
            | none ↦ as_queue d
            | some q ↦ WriteQueue.run n q
          ])
          (worker_step-as_queue d)

-- A job of another caller: it leaves this caller's promise alone.
abbrev pub LeavesPromise : {Ctx Vec : Type 0} → Embedder Ctx Vec → Job Vec (Option Vec) → Type 0
LeavesPromise {Ctx} {Vec} embedder job = (s : Ctx × Option Vec) → (serve embedder job s).1 ≡ s.1

module _ {Ctx Vec : Type 0} (embedder : Embedder Ctx Vec) where
  jobs-Leaves :
      (jobs : List (Job Vec (Option Vec)))
      → All (LeavesPromise embedder) jobs
      → All Leaves (map (as_job embedder) jobs)
  unfolding as_job
  jobs-Leaves [] h = tt
  jobs-Leaves (job ∷ jobs) h = (h.0, jobs-Leaves jobs h.1)

  -- The context that the jobs before leave.
  abbrev pub context_after : Ctx → List (Job Vec (Option Vec)) → Ctx
  context_after ctx before = (WriteQueue.run_all (map (as_job embedder) before) (ctx, none)).0

  -- If run() has not returned when a call of embed_sync pushes its job, then in every state later on,
  -- with whatever other callers push before and after it and a stop asked for or not: once the worker
  -- has taken its steps, two for each queued job and two more, the promise of the call holds the
  -- vector of its own text, from the model as the jobs pushed before it left it. The jobs pushed
  -- after it leave this promise alone.
  pub embed_sync-result :
      (ctx : Ctx) (text : Bytes) (is_query : Bool) (before after : List (Job Vec (Option Vec)))
      (c d : EmbedDispatcher Ctx Vec (Option Vec))
      → All (LeavesPromise embedder) after
      → Runs embedder ctx none before c
      → c.returned ≡ false
      → Later embedder (push (sync_job text is_query (λ vec p. some vec)) c) after d
      → (n : ℕ) → 2 * length d.queue + 2 ≤ n
      → (run embedder n d).world
        ≡ some
            (if is_query
              then embedder.embed_query text (context_after ctx before)
              else embedder.embed_document text (context_after ctx before)).0
  unfolding as_queue as_job serve sync_job push WriteQueue.run_all
  embed_sync-result ctx text is_query before after c d others r going l n enough =
      let job : Job Vec (Option Vec) = sync_job text is_query (λ vec p. some vec) in
      let jobs = before ++ job ∷ [] in
      let fuel : 2 * length (map (as_job embedder) d.queue) + 2 ≤ n =
        rw (length-map (as_job embedder) d.queue) enough in
      ap (λ q. q.world.1) (run-as_queue embedder n d)
      ∙ promise-Later (ctx, none) (map (as_job embedder) jobs) (as_queue embedder (push job c))
          (map (as_job embedder) after) (as_queue embedder d)
          (Runs-as_queue embedder ctx none jobs (push job c) (pushes job r)) going
          (Later-as_queue embedder (push job c) after d l) (jobs-Leaves after others) n fuel
      ∙ ap (λ js. (WriteQueue.run_all {W = Ctx × Option Vec} js (ctx, none)).1)
          (map-append (as_job embedder) before (job ∷ []))
      ∙ ap (λ s. s.1) (run_all-append (map (as_job embedder) before) _ (ctx, none))
