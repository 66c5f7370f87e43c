-- ===== src/Embedding/Dispatcher.antt =====
-- EmbedDispatcher of src/embedding/embed_dispatcher.{h,cpp}. The model behind the Embedder, with its
-- context, is an interface; a callback acts on the world of its caller, where the promises are.
pub mod Refinement
mod Tests
use gogol.Prelude.{
  ℕ, zero, suc, ◌≡◌, Bool, true, false, Option, none, some, List, [], ◌∷◌, ◌++◌, map, length,
  if◌then◌else◌,
}
use gogol.Text.{Bytes}

-- Vectors of the texts, and the context behind the call.
pub record Embedder (Ctx Vec : Type 0) : Type 0 where
  pub embed_query : Bytes → Ctx → Vec × Ctx
  pub embed_document : Bytes → Ctx → Vec × Ctx
  pub embed_documents_batch : List Bytes → Ctx → List Vec × Ctx

pub record Job (Vec W : Type 0) : Type 0 where
  pub text : Bytes
  pub is_query : Bool
  pub is_batch : Bool
  pub batch_texts : List Bytes
  pub callback : Option (Vec → W → W)
  pub batch_callback : Option (List Vec → W → W)

-- `running` is the local `job` of run(), taken and not served yet.
pub record EmbedDispatcher (Ctx Vec W : Type 0) : Type 0 where
  pub queue : List (Job Vec W)
  pub stop : Bool
  pub running : Option (Job Vec W)
  pub returned : Bool
  pub ctx : Ctx
  pub world : W

-- if (callback) callback(value).
abbrev pub call : {V W : Type 0} → Option (V → W → W) → V → W → W
call none v w = w
call (some f) v w = f v w

module _ {Vec W : Type 0} where
  -- The job of embed_sync: the promise is set by the callback.
  unfoldable pub sync_job : Bytes → Bool → (Vec → W → W) → Job Vec W
  sync_job text is_query set_value = record {
    text = text;
    is_query = is_query;
    is_batch = false;
    batch_texts = [];
    callback = some set_value;
    batch_callback = none;
  }

  unfoldable pub batch_job : List Bytes → (List Vec → W → W) → Job Vec W
  batch_job texts set_value = record {
    text = [];
    is_query = false;
    is_batch = true;
    batch_texts = texts;
    callback = none;
    batch_callback = some set_value;
  }

  -- embed_async; an empty std::function is none.
  unfoldable pub async_job : Bytes → Option (Vec → W → W) → Bool → Job Vec W
  async_job text cb is_query = record {
    text = text;
    is_query = is_query;
    is_batch = false;
    batch_texts = [];
    callback = cb;
    batch_callback = none;
  }

module _ {Ctx Vec W : Type 0} where
  abbrev pub new : Ctx → W → EmbedDispatcher Ctx Vec W
  new ctx w = record {
    queue = [];
    stop = false;
    running = none;
    returned = false;
    ctx = ctx;
    world = w;
  }

  -- The constructor starts the worker before it sets stop_, which is declared behind worker_: a worker
  -- that reads the uninitialised flag first may find it set, and has then returned.
  abbrev pub new_raced : Ctx → W → EmbedDispatcher Ctx Vec W
  new_raced ctx w = record (new ctx w) { returned = true }

  -- The locked region of every method that embeds.
  unfoldable pub push : Job Vec W → EmbedDispatcher Ctx Vec W → EmbedDispatcher Ctx Vec W
  push job d = record d { queue = d.queue ++ job ∷ [] }

  -- The locked part of the destructor.
  unfoldable pub request_stop : EmbedDispatcher Ctx Vec W → EmbedDispatcher Ctx Vec W
  request_stop d = record d { stop = true }

  unfoldable pub queue_size : EmbedDispatcher Ctx Vec W → ℕ
  queue_size d = length d.queue

  -- The locked region of run(): none while the predicate of cv_.wait is false.
  unfoldable pub take_job : EmbedDispatcher Ctx Vec W → Option (EmbedDispatcher Ctx Vec W)
  take_job d = elim d.queue [
    | [] ↦ elim d.stop [ false ↦ none | true ↦ some (record d { returned = true }) ]
    | job ∷ rest ↦ some (record d { queue = rest; running = some job })
  ]

module _ {Ctx Vec W : Type 0} (embedder : Embedder Ctx Vec) where
  open embedder use {embed_query, embed_document, embed_documents_batch}

  -- What run() does with a job.
  unfoldable pub serve : Job Vec W → Ctx × W → Ctx × W
  serve job (ctx, w) =
      let (vecs, batch_ctx) = embed_documents_batch job.batch_texts ctx in
      let (vec, ctx') =
        if job.is_query then embed_query job.text ctx else embed_document job.text ctx in
      if job.is_batch
      then (batch_ctx, call job.batch_callback vecs w)
      else (ctx', call job.callback vec w)

  unfoldable pub serve_running : Job Vec W → EmbedDispatcher Ctx Vec W → EmbedDispatcher Ctx Vec W
  serve_running job d =
      let (ctx, w) = serve job (d.ctx, d.world) in record d { running = none; ctx = ctx; world = w }

  -- One step of run(); none when it waits or has returned.
  unfoldable pub worker_step : EmbedDispatcher Ctx Vec W → Option (EmbedDispatcher Ctx Vec W)
  worker_step d = elim d.returned [
    | true ↦ none
    | false ↦ elim d.running [ none ↦ take_job d | some job ↦ some (serve_running job d) ]
  ]

  unfoldable pub run : ℕ → EmbedDispatcher Ctx Vec W → EmbedDispatcher Ctx Vec W
  run zero d = d
  run (suc fuel) d = elim (worker_step d) [ none ↦ d | some d' ↦ run fuel d' ]

  -- The interleavings of all threads, with the jobs pushed so far.
  pub data Runs (ctx : Ctx) (w : W) : List (Job Vec W) → EmbedDispatcher Ctx Vec W → Type 0 where
    start : Runs ctx w [] (new ctx w)
    start_raced : Runs ctx w [] (new_raced ctx w)
    pushes :
        (job : Job Vec W) {jobs : List (Job Vec W)} {d : EmbedDispatcher Ctx Vec W}
        → Runs ctx w jobs d
        → Runs ctx w (jobs ++ job ∷ []) (push job d)
    stops :
        {jobs : List (Job Vec W)} {d : EmbedDispatcher Ctx Vec W}
        → Runs ctx w jobs d
        → Runs ctx w jobs (request_stop d)
    works :
        {jobs : List (Job Vec W)} {d d' : EmbedDispatcher Ctx Vec W}
        → Runs ctx w jobs d
        → worker_step d ≡ some d'
        → Runs ctx w jobs d'

  -- The interleavings from a state on, with the jobs pushed since.
  pub data Later (from : EmbedDispatcher Ctx Vec W)
      : List (Job Vec W) → EmbedDispatcher Ctx Vec W → Type 0 where
    now : Later from [] from
    pushes :
        (job : Job Vec W) {jobs : List (Job Vec W)} {d : EmbedDispatcher Ctx Vec W}
        → Later from jobs d
        → Later from (jobs ++ job ∷ []) (push job d)
    stops :
        {jobs : List (Job Vec W)} {d : EmbedDispatcher Ctx Vec W}
        → Later from jobs d
        → Later from jobs (request_stop d)
    works :
        {jobs : List (Job Vec W)} {d d' : EmbedDispatcher Ctx Vec W}
        → Later from jobs d
        → worker_step d ≡ some d'
        → Later from jobs d'
