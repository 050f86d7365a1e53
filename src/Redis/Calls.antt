-- ===== src/Redis/Calls.antt =====
-- Any calls of the Redis queue, one after the other: each command or script is one step of the
-- server, and here no other client comes between the commands of one call.
use earth2_sandbox.Prelude.{
  ℕ, suc, ◌+◌, ◌≤◌, ◌<◌, ◌≡◌, refl, ap, subst, ◌∙◌, String, true, false, Option, none, some, List,
  [], ◌∷◌, map, length, inl, inr, Option-cases, arith,
}
use earth2_sandbox.Domain.Priority.{ForecastJobPriority}
use earth2_sandbox.Outcome.{Result, ok, err}
use earth2_sandbox.Queue.{ForecastQueueItem, QueuedEntry, item_key, queue_key}
use earth2_sandbox.Queue.Line
use earth2_sandbox.Queue.Line.{Line}
use earth2_sandbox.Queue.Calls.{
  Call, to_enqueue, to_dequeue, to_mark_completed, to_mark_failed, Reply, admitted, given_out, done,
  call_line, calls_line,
}
use earth2_sandbox.Redis.{
  Redis, Json, RedisQueue, pending_hash_key, in_flight_hash_key, pending_zset_key, sequence_key,
  lease_key, score_factor, enqueue_script, enqueue, put_in_flight, dequeue_script, leased, lease_if,
  dequeue, decode_item, mark_completed, mark_failed,
}
use earth2_sandbox.Redis.Names.{
  pending_kind, in_flight_kind, zset_kind, sequence_kind, lease_kind, lease-sequence,
}
use earth2_sandbox.Redis.Laws.{RedisLaws, JsonLaw}
use earth2_sandbox.Redis.Line.{items_of}
use earth2_sandbox.Redis.Refinement.{IsQueue, Refines, enqueue-Refines}
use earth2_sandbox.Redis.Dequeue.{dequeue-Refines, mark_completed-IsQueue}

abbrev pub map_ok : {A B : Type 0} → (A → B) → Result A → Result B
map_ok f (ok a) = ok (f a)
map_ok f (err e) = err e

module _ {S T : Type 0} (redis : Redis S T) (json : Json T) (q : RedisQueue) where
  unfoldable pub call : Call → S → Result Reply × S
  unfolding enqueue dequeue mark_completed mark_failed
  call (to_enqueue job_id priority key) s =
      let (r, s') = enqueue redis json q job_id priority key s in (map_ok admitted r, s')
  call to_dequeue s = let (r, s') = dequeue redis json q s in (map_ok given_out r, s')
  call (to_mark_completed item) s = (ok done, mark_completed redis json q item s)
  call (to_mark_failed item requeue) s = (ok done, mark_failed redis json q item requeue s)

  unfoldable pub calls : List Call → S → List (Result Reply) × S
  unfolding call
  calls [] s = ([], s)
  calls (c ∷ cs) s = let (r, s') = call c s in let (rs, s'') = calls cs s' in (r ∷ rs, s'')

module _ {S T : Type 0} (redis : Redis S T) (q : RedisQueue) (laws : RedisLaws q redis)
    (json : Json T) (reads : JsonLaw json) where
  abbrev pub used : S → ℕ
  used s = redis.counter (sequence_key q) s

  -- The server holds this line.
  abbrev pub Holds : S → Line → Type 0
  Holds s l =
      (entries : List QueuedEntry) × (items_of entries ≡ l.waiting)
      × IsQueue redis q laws json reads entries l.in_flight s

  used-enqueue :
      (job_id : String) (priority : ForecastJobPriority) (key : Option String) (s : S)
      → used (enqueue redis json q job_id priority key s).1 ≡ suc (used s)
  unfolding enqueue enqueue_script
  used-enqueue job_id priority key s =
      let s' = redis.incr (sequence_key q) s in
      elim (Option-cases (redis.hget (pending_hash_key q) (queue_key job_id key) s')) [
        | inr (x, waits) ↦ simp (
          waits,
          laws.counters.counter-incr (sequence_key q) (sequence_kind q),
          enqueue,
          enqueue_script,
        )
        | inl new ↦
            elim (Option-cases (redis.hget (in_flight_hash_key q) (queue_key job_id key) s')) [
              | inr (x, flies) ↦ simp (
                new,
                flies,
                laws.counters.counter-incr (sequence_key q) (sequence_kind q),
                enqueue,
                enqueue_script,
              )
              | inl free ↦ simp (
                new,
                free,
                laws.counters.counter-zadd (pending_zset_key q) (sequence_key q) (zset_kind q)
                    (sequence_kind q),
                laws.counters.counter-hset (pending_hash_key q) (sequence_key q) (pending_kind q)
                    (sequence_kind q),
                laws.counters.counter-incr (sequence_key q) (sequence_kind q),
                enqueue,
                enqueue_script,
              )
            ]
      ]

  used-leased : (r : Result ForecastQueueItem) (s : S) → used (leased redis json q r s).1 ≡ used s
  used-leased (err e) s = refl
  used-leased (ok item) s =
      laws.counters.counter-set_expiring (lease_key q (item_key item)) (sequence_key q)
        (lease_kind q (item_key item)) (sequence_kind q) item.job_id q.visibility_timeout_seconds s

  used-lease_if :
      (payload : Option T) (key : String) (s : S)
      → used (lease_if redis json q payload (put_in_flight redis json q key payload s)).1 ≡ used s
  used-lease_if none key s = refl
  used-lease_if (some payload) key s =
      used-leased (decode_item json payload) _
      ∙ laws.counters.counter-hset (in_flight_hash_key q) (sequence_key q) (in_flight_kind q)
          (sequence_kind q) _ _ s

  used-dequeue : (s : S) → used (dequeue redis json q s).1 ≡ used s
  unfolding dequeue dequeue_script
  used-dequeue s = elim (Option-cases (redis.zfirst (pending_zset_key q) s)) [
    | inl nothing ↦ simp (nothing, dequeue, dequeue_script)
    | inr (key, first) ↦
        simp (first, dequeue, dequeue_script)
          (used-lease_if (redis.hget (pending_hash_key q) key s) key _
            ∙ laws.counters.counter-hdel (pending_hash_key q) (sequence_key q) (pending_kind q)
                (sequence_kind q) _ _
            ∙ laws.counters.counter-zrem (pending_zset_key q) (sequence_key q) (zset_kind q)
                (sequence_kind q) _ s)
  ]

  used-mark_completed :
      (item : ForecastQueueItem) (s : S) → used (mark_completed redis json q item s) ≡ used s
  unfolding mark_completed
  used-mark_completed item s =
      laws.counters.counter-delete (lease_key q (item_key item)) (sequence_key q)
        (lease-sequence q (item_key item)) _
      ∙ laws.counters.counter-hdel (in_flight_hash_key q) (sequence_key q) (in_flight_kind q)
          (sequence_kind q) _ s

  used-call-le : (c : Call) (s : S) → used (call redis json q c s).1 ≤ suc (used s)
  unfolding call mark_failed
  used-call-le (to_enqueue job_id priority key) s =
      omega (arith, used-enqueue job_id priority key s)
  used-call-le to_dequeue s = omega (arith, used-dequeue s)
  used-call-le (to_mark_completed item) s = omega (arith, used-mark_completed item s)
  used-call-le (to_mark_failed item true) s = omega (
    arith,
    used-enqueue item.job_id item.priority item.idempotency_key
        (mark_completed redis json q item s),
    used-mark_completed item s,
  )
  used-call-le (to_mark_failed item false) s = omega (arith, used-mark_completed item s)

  enqueue-Holds :
      (job_id : String) (priority : ForecastJobPriority) (key : Option String) (s : S) (l : Line)
      → Holds s l
      → suc (used s) < score_factor
      → Refines redis q laws json reads
          (enqueue redis json q job_id priority key s)
          (Line.enqueue job_id priority key l)
  enqueue-Holds job_id priority key s l (entries, e, h) few =
      subst
        (λ w.
          Refines redis q laws json reads (enqueue redis json q job_id priority key s)
            (Line.enqueue job_id priority key (record { waiting = w; in_flight = l.in_flight })))
        e (enqueue-Refines redis q laws json reads entries l.in_flight s h job_id priority key few)

  -- What one call returns and leaves.
  CallRefines : Call → S → Line → Type 0
  CallRefines c s l =
      ((call redis json q c s).0 ≡ ok (call_line c l).0)
      × Holds (call redis json q c s).1 (call_line c l).1

  call-CallRefines :
      (c : Call) (s : S) (l : Line) → Holds s l → suc (used s) < score_factor → CallRefines c s l
  unfolding CallRefines call call_line mark_failed Line.give_up
  call-CallRefines (to_enqueue job_id priority key) s l h few =
      let (same, held) = enqueue-Holds job_id priority key s l h few in
      (ap (map_ok admitted) same, held)
  call-CallRefines to_dequeue s l (entries, e, h) few =
      let (same, held) =
        subst
          (λ w.
            Refines redis q laws json reads (dequeue redis json q s)
              (Line.dequeue (record { waiting = w; in_flight = l.in_flight })))
          e (dequeue-Refines redis q laws json reads entries l.in_flight s h) in
      (ap (map_ok given_out) same, held)
  call-CallRefines (to_mark_completed item) s l (entries, e, h) few = (
    refl,
    (entries, e, mark_completed-IsQueue redis q laws json reads entries l.in_flight s item h),
  )
  call-CallRefines (to_mark_failed item false) s l (entries, e, h) few = (
    refl,
    (entries, e, mark_completed-IsQueue redis q laws json reads entries l.in_flight s item h),
  )
  call-CallRefines (to_mark_failed item true) s l (entries, e, h) few = (
    refl,
    (enqueue-Holds item.job_id item.priority item.idempotency_key
        (mark_completed redis json q item s) (Line.finish item l)
        (entries, e, mark_completed-IsQueue redis q laws json reads entries l.in_flight s item h)
        (omega (arith, few, used-mark_completed item s))).1,
  )

  -- On a server that keeps the laws and holds a line, with JSON that keeps values, while the calls
  -- leave the sequence number below 10 ^ 12 and no other client comes between: any calls of the Redis
  -- queue return what the same calls of the line return, raise nothing, and leave the server holding
  -- the line that those leave.
  pub calls-Holds :
      (cs : List Call) (s : S) (l : Line)
      → Holds s l
      → used s + length cs < score_factor
      → ((calls redis json q cs s).0 ≡ map ok (calls_line cs l).0)
        × Holds (calls redis json q cs s).1 (calls_line cs l).1
  unfolding calls calls_line CallRefines
  calls-Holds [] s l h few = (refl, h)
  calls-Holds (c ∷ cs) s l h few =
      let (same, held) = call-CallRefines c s l h (omega (arith, few)) in
      let (rest, left) =
        calls-Holds cs (call redis json q c s).1 (call_line c l).1 held
          (omega (arith, few, used-call-le c s)) in
      (
        ap (λ r. r ∷ (calls redis json q cs (call redis json q c s).1).0) same
            ∙ ap (λ rs. ok (call_line c l).0 ∷ rs) rest,
        left,
      )
