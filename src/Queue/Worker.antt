-- ===== src/Queue/Worker.antt =====
-- src/earth2_sandbox/infrastructure/queue/asyncio_worker.py: a queued worker, alone with its queue. Its
-- callback is a function of the state that the jobs are in; `Exception` is what it may raise.
use earth2_sandbox.Prelude.{
  ℕ, zero, suc, ◌<◌, ◌≡◌, refl, subst, ap, ◌∙◌, String, false, Option, none, some, List, [], ◌∷◌,
  length, All, ◌⊎◌, inl, inr, Bool-cases, eq_iff, if◌then◌else◌, arith,
}
use earth2_sandbox.Prelude.Dict
use earth2_sandbox.Prelude.Dict.{Dict, get-put, get-remove}
use earth2_sandbox.Domain.Priority.{ForecastJobPriority}
use earth2_sandbox.Outcome.{Result, ok, err, Error}
use earth2_sandbox.Queue.{
  ForecastQueueItem, InMemoryPriorityForecastQueue, ForecastQueueEnqueueResult, item_key, enqueue,
  dequeue, mark_completed, mark_failed,
}
use earth2_sandbox.Queue.Line
use earth2_sandbox.Queue.Line.{Line}
use earth2_sandbox.Queue.Refinement.{
  IsConsistent, Refines, items, line_of, enqueue-Refines, dequeue-Refines,
  mark_completed-IsConsistent,
}

Result-cases : (r : Result (Unit {0})) → (r ≡ ok tt) ⊎ ((e : Error) × (r ≡ err e))
Result-cases (ok tt) = inl refl
Result-cases (err e) = inr (e, refl)

-- An item that was not in flight before has left no trace.
remove-put :
    (d : Dict ForecastQueueItem) (item : ForecastQueueItem)
    → Dict.get d (item_key item) ≡ none
    → (key : String)
    → Dict.get (Dict.remove (Dict.put d (item_key item) item) (item_key item)) key ≡ Dict.get d key
remove-put d item free key = ground (
  arith,
  get-remove (Dict.put d (item_key item) item) (item_key item) key,
  get-put d (item_key item) item key,
  eq_iff (item_key item) key,
)

module _ {S : Type 0} (run_job : String → S → Result (Unit {0}) × S) where
  -- the `while True` of `_drain_queue`, with as many rounds as there is fuel
  unfoldable pub drain_queue :
      ℕ
      → InMemoryPriorityForecastQueue
      → S
      → Option (Result (Unit {0}) × InMemoryPriorityForecastQueue × S)
  unfolding dequeue mark_completed mark_failed
  drain_queue zero queue s = none
  drain_queue (suc fuel) queue s =
      let (next, left) = dequeue queue in
      elim next [
        | none ↦ some (ok tt, left, s)
        | some item ↦
            let (result, s') = run_job item.job_id s in
            elim result [
              | err e ↦ some (err e, mark_failed item false left, s')
              | ok _ ↦ drain_queue fuel (mark_completed item left) s'
            ]
      ]

  -- `_enqueue_and_drain`
  unfoldable pub enqueue_and_drain :
      ℕ
      → String
      → ForecastJobPriority
      → InMemoryPriorityForecastQueue
      → S
      → Option (Result (Unit {0}) × InMemoryPriorityForecastQueue × S)
  unfolding drain_queue enqueue
  enqueue_and_drain fuel job_id priority queue s =
      let (result, queue') = enqueue job_id priority (some job_id) queue in
      let drained = drain_queue fuel queue' s in
      if result.enqueued then drained else some (ok tt, queue', s)

  -- The jobs of a line, run in its order up to the first that raises: what the worker returns, the
  -- items that are left, and the state.
  abbrev pub run_line : List ForecastQueueItem → S → Result (Unit {0}) × List ForecastQueueItem × S
  run_line [] s = (ok tt, [], s)
  run_line (item ∷ rest) s =
      let (result, s') = run_job item.job_id s in
      elim result [ err e ↦ (err e, rest, s') | ok _ ↦ run_line rest s' ]

  -- What the worker leaves behind, by what running the line does.
  abbrev pub Drains :
      InMemoryPriorityForecastQueue
      → Option (Result (Unit {0}) × InMemoryPriorityForecastQueue × S)
      → Result (Unit {0}) × List ForecastQueueItem × S
      → Type 0
  Drains before out ran =
      (after : InMemoryPriorityForecastQueue) × (out ≡ some (ran.0, after, ran.2))
      × (items after ≡ ran.1)
      × ((key : String)
          → Dict.get after.in_flight_by_key key ≡ Dict.get before.in_flight_by_key key)
      × IsConsistent after

  drain_next :
      (queue : InMemoryPriorityForecastQueue) (waiting : List ForecastQueueItem)
      → IsConsistent queue
      → items queue ≡ waiting
      → Refines (dequeue queue) (Line.next_of waiting queue.in_flight_by_key)
  unfolding Line.dequeue
  drain_next queue waiting c e =
      subst (λ x. Refines (dequeue queue) (Line.next_of x queue.in_flight_by_key)) e
        (dequeue-Refines queue c)

  drain_from :
      (waiting : List ForecastQueueItem) (fuel : ℕ) (queue : InMemoryPriorityForecastQueue) (s : S)
      → IsConsistent queue
      → items queue ≡ waiting
      → length waiting < fuel
      → Drains queue (drain_queue fuel queue s) (run_line waiting s)
  unfolding drain_queue mark_completed mark_failed
  drain_from waiting zero queue s c e enough = absurd (omega arith)
  drain_from [] (suc fuel) queue s c e enough =
      let (next, left, c') = drain_next queue [] c e in
      rw (drain_queue, next)
        (
          (dequeue queue).1,
          refl,
          ap (λ (l : Line). l.waiting) left,
          λ key. ap (λ (l : Line). Dict.get l.in_flight key) left,
          c',
        )
  drain_from (item ∷ rest) (suc fuel) queue s c e enough =
      let (next, left, c') = drain_next queue (item ∷ rest) c e in
      let q' = (dequeue queue).1 in
      let s' = (run_job item.job_id s).1 in
      let queue' = mark_completed item q' in
      let marked = mark_completed-IsConsistent q' item c' in
      let later = ap (λ (l : Line). l.waiting) left in
      let free : Dict.get queue.in_flight_by_key (item_key item) ≡ none =
        (subst (λ l. All (λ i. Dict.get queue.in_flight_by_key (item_key i) ≡ none) l) e
          c.apart).0 in
      let back : (key : String)
          → Dict.get queue'.in_flight_by_key key ≡ Dict.get queue.in_flight_by_key key =
        λ key.
          ap (λ (l : Line). Dict.get (Dict.remove l.in_flight (item_key item)) key) left
          ∙ remove-put queue.in_flight_by_key item free key in
      elim (Result-cases (run_job item.job_id s).0) [
        | inr (error, failed) ↦
            rw (drain_queue, next, run_line, failed) (queue', refl, later, back, marked)
        | inl fine ↦
            let (after, done, left_over, same, good) =
              drain_from rest fuel queue' s' marked later (omega arith) in
            rw (drain_queue, next, run_line, fine)
              (after, done, left_over, λ key. same key ∙ back key, good)
      ]

  -- A drain of a consistent queue ends, with one round more than it has entries: it runs the jobs of the
  -- line in their order, up to the first that raises, whose error it raises. That item and those
  -- before it are gone, the others still wait, and what was in flight before still is.
  pub drain_queue_lem :
      (queue : InMemoryPriorityForecastQueue) (s : S)
      → IsConsistent queue
      → Drains queue (drain_queue (suc (length (items queue))) queue s) (run_line (items queue) s)
  drain_queue_lem queue s c =
      drain_from (items queue) (suc (length (items queue))) queue s c refl (omega arith)

  -- A worker with a consistent queue, and with more rounds than the line will have items, puts a job in
  -- the line and drains the queue. A job that waits or is in flight already it does not run: then
  -- the line, what is in flight and the state stay as they are, and it raises nothing.
  pub enqueue_and_drain_lem :
      (fuel : ℕ) (job_id : String) (priority : ForecastJobPriority)
      (queue : InMemoryPriorityForecastQueue) (s : S)
      → IsConsistent queue
      → length (Line.enqueue job_id priority (some job_id) (line_of queue)).1.waiting < fuel
      → let (r, line) = Line.enqueue job_id priority (some job_id) (line_of queue) in
        Drains queue
          (enqueue_and_drain fuel job_id priority queue s)
          (if r.enqueued then run_line line.waiting s else (ok tt, items queue, s))
  unfolding enqueue_and_drain
  enqueue_and_drain_lem fuel job_id priority queue s c enough =
      let before = line_of queue in
      let (r, l, c') = enqueue-Refines queue job_id priority (some job_id) c in
      let queue' = (enqueue job_id priority (some job_id) queue).1 in
      let asked = ap (λ (x : ForecastQueueEnqueueResult). x.enqueued) r in
      let flight =
        ap (λ (x : Line). x.in_flight) l
        ∙ Line.enqueue-in_flight job_id priority (some job_id) before in
      elim (Bool-cases (Line.enqueue job_id priority (some job_id) before).0.enqueued) [
        | inl taken ↦
            let (after, done, left_over, same, good) =
              drain_from (Line.enqueue job_id priority (some job_id) before).1.waiting fuel queue' s
                c' (ap (λ (x : Line). x.waiting) l) enough in
            rw (asked ∙ taken, taken)
              (after, done, left_over, λ key. same key ∙ ap (λ d. Dict.get d key) flight, good)
        | inr refused ↦
            let still = l ∙ Line.enqueue-refused job_id priority (some job_id) before refused in
            rw (asked ∙ refused, refused)
              (
                queue',
                refl,
                ap (λ (x : Line). x.waiting) still,
                λ key. ap (λ d. Dict.get d key) flight,
                c',
              )
      ]
