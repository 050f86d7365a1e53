-- ===== src/Tests/Queues.antt =====
-- The queue at a few calls: three items, of which one comes twice.
use earth2_sandbox.Prelude.{
  suc, String, length, ◌==◌, if◌then◌else◌, arith, ◌≡◌, refl, true, false, none, some, List, [],
  ◌∷◌,
}
use earth2_sandbox.Domain.Priority.{low, normal, high}
use earth2_sandbox.Queue.{ForecastQueueItem, InMemoryPriorityForecastQueue, empty_queue}
use earth2_sandbox.Queue.Refinement.{IsConsistent, Refines, items, line_of}
use earth2_sandbox.Queue.Calls.{
  Call, to_enqueue, to_dequeue, to_mark_completed, to_mark_failed, admitted, given_out, done, calls,
  calls_line, calls-Refines,
}
use earth2_sandbox.Outcome.{Result, ok, err, key_error}
use earth2_sandbox.Queue.Line
use earth2_sandbox.Queue.Worker.{
  Drains, run_line, drain_queue, drain_queue_lem, enqueue_and_drain, enqueue_and_drain_lem,
}

abbrev item_b : ForecastQueueItem
item_b = record { job_id = "b"; priority = high; idempotency_key = some "b" }

abbrev sample_calls : List Call
sample_calls =
    to_enqueue "a" low none
    ∷ to_enqueue "b" high none
    ∷ to_enqueue "b" normal (some "b")
    ∷ to_enqueue "c" normal none
    ∷ to_dequeue
    ∷ to_mark_failed item_b true
    ∷ to_dequeue
    ∷ to_mark_completed item_b
    ∷ to_dequeue
    ∷ []

calls_test :
    (calls sample_calls empty_queue).0
    ≡ admitted (record {
      item = record { job_id = "a"; priority = low; idempotency_key = some "a" };
      enqueued = true;
    })
      ∷ admitted (record { item = item_b; enqueued = true })
      ∷ admitted (record { item = item_b; enqueued = false })
      ∷ admitted (record {
        item = record { job_id = "c"; priority = normal; idempotency_key = some "c" };
        enqueued = true;
      })
      ∷ given_out (some item_b)
      ∷ done
      ∷ given_out (some item_b)
      ∷ done
      ∷ given_out (some (record { job_id = "c"; priority = normal; idempotency_key = some "c" }))
      ∷ []
unfolding calls
calls_test = refl

calls-Refines_example :
    Refines
      (calls sample_calls empty_queue)
      (calls_line sample_calls (record { waiting = []; in_flight = [] }))
calls-Refines_example = calls-Refines sample_calls

-- A callback that keeps a list of the jobs that it got, and raises at one of them.
abbrev run_but_c : String → List String → Result (Unit {0}) × List String
run_but_c job_id seen =
    if job_id == "c" then (err (key_error "c"), seen) else (ok tt, job_id ∷ seen)

abbrev busy_queue : InMemoryPriorityForecastQueue
busy_queue =
    (calls (to_enqueue "a" low none ∷ to_enqueue "b" high none ∷ to_enqueue "c" normal none ∷ [])
      empty_queue).1

busy_queue-IsConsistent : IsConsistent busy_queue
busy_queue-IsConsistent =
    (calls-Refines
      (to_enqueue "a" low none ∷ to_enqueue "b" high none ∷ to_enqueue "c" normal none ∷ [])).2

run_line_test : run_line run_but_c (items busy_queue) [] ≡ (
  err (key_error "c"),
  record { job_id = "a"; priority = low; idempotency_key = some "a" } ∷ [],
  "b" ∷ [],
)
unfolding calls
run_line_test = refl

drain_queue_lem_example :
    Drains run_but_c busy_queue
      (drain_queue run_but_c (suc (length (items busy_queue))) busy_queue [])
      (run_line run_but_c (items busy_queue) [])
drain_queue_lem_example = drain_queue_lem run_but_c busy_queue [] busy_queue-IsConsistent

enqueue_and_drain_lem_example :
    let (r, line) = Line.enqueue "d" high (some "d") (line_of busy_queue) in
    Drains run_but_c busy_queue
      (enqueue_and_drain run_but_c 9 "d" high busy_queue [])
      (if r.enqueued then run_line run_but_c line.waiting [] else (ok tt, items busy_queue, []))
unfolding calls Line.enqueue
enqueue_and_drain_lem_example =
    enqueue_and_drain_lem run_but_c 9 "d" high busy_queue [] busy_queue-IsConsistent (omega arith)
