-- ===== src/Daemon/WriteQueue/Tests.antt =====
-- The queue at work on a counter, with a job that throws.
use gogol.Prelude.{◌⊎◌, ℕ, ◌+◌, ◌*◌, ◌≡◌, refl, true, false, none, some, List, [], ◌∷◌, arith, inl}
use gogol.Text.{codes}
use gogol.Daemon.WriteQueue.{
  WriteQueue, Job, Runs, start, submits, works, new, submit, request_stop, worker_step, take_job,
  run_job, run, run_all, failures, depth,
}
use gogol.Daemon.WriteQueue.Order.{IsInOrder, Runs-IsInOrder}
use gogol.Daemon.WriteQueue.Draining.{IsSettled, run-drains}
use gogol.Daemon.WriteQueue.Later.{Later}
use gogol.Daemon.WriteQueue.Waiting.{Promise, wait_job, other_job, submit_wait-result}

abbrev add_three : Job ℕ
add_three n = (n + 3, none)

abbrev throw_after_doubling : Job ℕ
throw_after_doubling n = (2 * n, some (codes "full"))

abbrev two_queued : WriteQueue ℕ
two_queued = record (new 1) { queue = add_three ∷ throw_after_doubling ∷ [] }

two_submitted : Runs 1 (add_three ∷ throw_after_doubling ∷ []) two_queued
unfolding submit
two_submitted = submits throw_after_doubling (submits add_three start)

depth_test : depth two_queued ≡ 2
unfolding depth
depth_test = refl

run_test : IsSettled true 8 (codes "full" ∷ []) (run 9 (request_stop two_queued))
unfolding run worker_step take_job run_job request_stop
run_test = (refl, refl, refl, refl, refl)

abbrev one_taken : WriteQueue ℕ
one_taken = record two_queued { queue = throw_after_doubling ∷ []; running = some add_three }

Runs-IsInOrder_example : IsInOrder 1 (add_three ∷ throw_after_doubling ∷ []) one_taken
unfolding worker_step take_job
Runs-IsInOrder_example = Runs-IsInOrder 1 _ one_taken (works two_submitted refl)

run-drains_example : IsSettled false 8 (codes "full" ∷ []) (run 6 two_queued)
unfolding run_all failures
run-drains_example = run-drains 1 _ two_queued two_submitted refl 6 (omega arith)

abbrev stopping : WriteQueue ℕ
stopping = record (new 4) { stop = true }

-- The job of a caller that waits: it takes the counter's value and clears it.
abbrev read_and_clear : ℕ → ℕ × (ℕ ⊎ List ℕ)
read_and_clear n = (0, inl n)

abbrev with_waiter : WriteQueue (ℕ × Promise ℕ)
with_waiter = record (new (1, none)) {
  queue = other_job throw_after_doubling ∷ wait_job read_and_clear ∷ other_job add_three ∷ [];
}

submit_wait-result_example : (run 8 (request_stop with_waiter)).world.1 ≡ some (inl 2)
unfolding run_all submit request_stop
submit_wait-result_example =
    submit_wait-result read_and_clear (throw_after_doubling ∷ []) (add_three ∷ []) 1
      (submit (other_job throw_after_doubling) (new (1, none))) (request_stop with_waiter)
      (submits (other_job throw_after_doubling) start) refl
      (Later.stops (Later.submits (other_job add_three) Later.now)) 8 (omega arith)
