-- ===== src/Embedding/Dispatcher/Tests.antt =====
-- A model that counts its calls.
use gogol.Prelude.{
  ℕ, suc, ◌+◌, ◌≡◌, refl, true, false, Option, none, some, [], ◌∷◌, arith, length, map,
}
use gogol.Text.{codes}
use gogol.Daemon.WriteQueue
use gogol.Embedding.Dispatcher.{
  Embedder, Job, EmbedDispatcher, new, push, request_stop, queue_size, take_job, serve,
  serve_running, worker_step, run, Runs, Later, start, pushes, sync_job, batch_job, async_job,
}
use gogol.Embedding.Dispatcher.Refinement.{as_job, as_queue, Runs-as_queue, embed_sync-result}

-- The vector of a text: its length and the number of the call.
abbrev counting : Embedder ℕ (ℕ × ℕ)
counting = record {
  embed_query = λ s n. ((length s, n), suc n);
  embed_document = λ s n. ((length s + 100, n), suc n);
  embed_documents_batch = λ ss n. (map (λ s. (length s, n)) ss, suc n);
}

abbrev add : Job (ℕ × ℕ) (Option (ℕ × ℕ))
add = async_job (codes "abc") none false

abbrev ask : Job (ℕ × ℕ) (Option (ℕ × ℕ))
ask = sync_job (codes "ab") true (λ vec p. some vec)

abbrev batch : Job (ℕ × ℕ) (Option (ℕ × ℕ))
batch = batch_job (codes "x" ∷ []) (λ vecs p. p)

abbrev three_pushed : EmbedDispatcher ℕ (ℕ × ℕ) (Option (ℕ × ℕ))
three_pushed = record (new 7 none) { queue = add ∷ ask ∷ batch ∷ [] }

three-Runs : Runs counting 7 none (add ∷ ask ∷ batch ∷ []) three_pushed
unfolding push
three-Runs = pushes batch (pushes ask (pushes add start))

run_test :
    ((run counting 8 (request_stop three_pushed)).ctx ≡ 10)
    × ((run counting 8 (request_stop three_pushed)).returned ≡ true)
    × (queue_size three_pushed ≡ 3)
unfolding run worker_step take_job serve_running serve request_stop async_job sync_job batch_job
    queue_size
run_test = (refl, refl, refl)

Runs-as_queue_example :
    WriteQueue.Runs
      (7, none)
      (map (as_job counting) (add ∷ ask ∷ batch ∷ []))
      (as_queue counting three_pushed)
Runs-as_queue_example = Runs-as_queue counting 7 none _ three_pushed three-Runs

embed_sync-result_example : (run counting 8 (request_stop three_pushed)).world ≡ some (2, 8)
unfolding WriteQueue.run_all as_job serve async_job batch_job push request_stop
embed_sync-result_example =
    embed_sync-result counting 7 (codes "ab") true (add ∷ []) (batch ∷ []) (push add (new 7 none))
      (request_stop three_pushed) ((λ s. refl), tt) (pushes add start) refl
      (Later.stops (Later.pushes batch Later.now)) 8 (omega arith)
