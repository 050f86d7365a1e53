-- ===== src/Queue/Calls.antt =====
-- Any calls of the queue, one after the other: its methods hold its lock.
use earth2_sandbox.Prelude.{refl, ap, String, Bool, Option, List, [], ◌∷◌, inl, inr, Bool-cases}
use earth2_sandbox.Prelude.Dict
use earth2_sandbox.Domain.Priority.{ForecastJobPriority}
use earth2_sandbox.Queue.{
  ForecastQueueItem, InMemoryPriorityForecastQueue, ForecastQueueEnqueueResult, empty_queue,
  enqueue, dequeue, mark_completed, mark_failed,
}
use earth2_sandbox.Queue.Line
use earth2_sandbox.Queue.Line.{Line}
use earth2_sandbox.Queue.Refinement.{
  IsConsistent, Refines, line_of, enqueue-Refines, dequeue-Refines, mark_completed-IsConsistent,
}

pub data Call : Type 0 where
  to_enqueue :
      (job_id : String) (priority : ForecastJobPriority) (idempotency_key : Option String) → Call
  to_dequeue : Call
  to_mark_completed : (item : ForecastQueueItem) → Call
  to_mark_failed : (item : ForecastQueueItem) (requeue : Bool) → Call

-- what a call returns
pub data Reply : Type 0 where
  admitted : ForecastQueueEnqueueResult → Reply
  given_out : Option ForecastQueueItem → Reply
  done : Reply

unfoldable pub call : Call → InMemoryPriorityForecastQueue → Reply × InMemoryPriorityForecastQueue
unfolding enqueue dequeue mark_completed mark_failed
call (to_enqueue job_id priority key) q =
    let (r, q') = enqueue job_id priority key q in (admitted r, q')
call to_dequeue q = let (r, q') = dequeue q in (given_out r, q')
call (to_mark_completed item) q = (done, mark_completed item q)
call (to_mark_failed item requeue) q = (done, mark_failed item requeue q)

-- the same call of the line
unfoldable pub call_line : Call → Line → Reply × Line
unfolding Line.enqueue Line.dequeue Line.give_up
call_line (to_enqueue job_id priority key) l =
    let (r, l') = Line.enqueue job_id priority key l in (admitted r, l')
call_line to_dequeue l = let (r, l') = Line.dequeue l in (given_out r, l')
call_line (to_mark_completed item) l = (done, Line.finish item l)
call_line (to_mark_failed item requeue) l = (done, Line.give_up item requeue l)

unfoldable pub calls :
    List Call → InMemoryPriorityForecastQueue → List Reply × InMemoryPriorityForecastQueue
unfolding call
calls [] q = ([], q)
calls (c ∷ cs) q = let (r, q') = call c q in let (rs, q'') = calls cs q' in (r ∷ rs, q'')

unfoldable pub calls_line : List Call → Line → List Reply × Line
unfolding call_line
calls_line [] l = ([], l)
calls_line (c ∷ cs) l =
    let (r, l') = call_line c l in let (rs, l'') = calls_line cs l' in (r ∷ rs, l'')

call-Refines :
    (c : Call) (q : InMemoryPriorityForecastQueue)
    → IsConsistent q
    → Refines (call c q) (call_line c (line_of q))
unfolding call call_line mark_failed mark_completed Line.give_up
call-Refines (to_enqueue job_id priority key) q h =
    let (r, l, h') = enqueue-Refines q job_id priority key h in (ap admitted r, l, h')
call-Refines to_dequeue q h = let (r, l, h') = dequeue-Refines q h in (ap given_out r, l, h')
call-Refines (to_mark_completed item) q h = (refl, refl, mark_completed-IsConsistent q item h)
call-Refines (to_mark_failed item requeue) q h = elim (Bool-cases requeue) [
  | inr dropped ↦ rw dropped (refl, refl, mark_completed-IsConsistent q item h)
  | inl asked ↦
      let (r, l, h') =
        enqueue-Refines (mark_completed item q) item.job_id item.priority item.idempotency_key
          (mark_completed-IsConsistent q item h) in
      rw asked (refl, l, h')
]

calls-Refines_from :
    (cs : List Call) (q : InMemoryPriorityForecastQueue)
    → IsConsistent q
    → Refines (calls cs q) (calls_line cs (line_of q))
unfolding calls calls_line
calls-Refines_from [] q h = (refl, refl, h)
calls-Refines_from (c ∷ cs) q h =
    let (r, l, h') = call-Refines c q h in
    let (rs, ls, h'') = calls-Refines_from cs (call c q).1 h' in
    rw⁻¹ l (rw r (ap (λ x. (call_line c (line_of q)).0 ∷ x) rs, ls, h''))

-- Any calls of the queue, starting with an empty one, return what the same calls of a line return, and
-- leave that line: the queue gives out items by priority and, within one, in the order of their
-- arrival, and takes no key that is waiting or in flight.
pub calls-Refines :
    (cs : List Call)
    → Refines (calls cs empty_queue) (calls_line cs (record { waiting = []; in_flight = [] }))
unfolding Dict.get
calls-Refines cs =
    calls-Refines_from cs empty_queue
      (record { agrees = λ key. refl; single = tt; ranked = tt; apart = tt })
