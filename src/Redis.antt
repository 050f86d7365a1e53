-- ===== src/Redis.antt =====
-- src/earth2_sandbox/infrastructure/queue/redis_queue.py. The Redis server and the JSON codec are
-- parameters: the commands that the adapter and its two scripts send, each one step of the server, as
-- a script is. The name of the queue is taken as it is normalised.
pub mod Names
pub mod Laws
pub mod Line
pub mod Refinement
pub mod Dequeue
pub mod Calls
pub mod Equivalence
use earth2_sandbox.Prelude.{
  ℕ, ◌+◌, ◌*◌, String, Bool, true, false, Option, none, some, List, [], ◌∷◌, ◌==◌, if◌then◌else◌,
}
use earth2_sandbox.Prelude.Dict
use earth2_sandbox.Prelude.Dict.{Dict}
use earth2_sandbox.Outcome.{Result, ok, err, key_error, ◌⧺◌}
use earth2_sandbox.Domain.Priority.{
  ForecastJobPriority, low, normal, high, default_forecast_job_priority, priority_rank,
}
use earth2_sandbox.Queue.{ForecastQueueItem, ForecastQueueEnqueueResult, queue_key, item_key}

-- The commands, on the server's state. The values in hashes are JSON texts, of a type `T`.
pub record Redis (S T : Type 0) : Type 0 where
  pub hget : String → String → S → Option T
  pub hset : String → String → T → S → S
  pub hdel : String → String → S → S
  pub hlen : String → S → ℕ
  pub zadd : String → ℕ → String → S → S
  pub zrem : String → String → S → S
  -- ZRANGE key 0 0
  pub zfirst : String → S → Option String
  pub zscore : String → String → S → Option ℕ
  pub counter : String → S → ℕ
  -- INCR returns the counter afterwards.
  pub incr : String → S → S
  -- SET key value EX seconds
  pub set_expiring : String → String → ℕ → S → S
  pub delete : String → S → S

-- json.dumps of an object of texts and nulls, and json.loads
pub record Json (T : Type 0) : Type 0 where
  pub dumps : Dict (Option String) → T
  pub loads : T → Dict (Option String)

pub record RedisQueue : Type 0 where
  pub queue_name : String
  pub visibility_timeout_seconds : ℕ

abbrev pub pending_hash_key : RedisQueue → String
pending_hash_key q = q.queue_name ⧺ ":pending"

abbrev pub in_flight_hash_key : RedisQueue → String
in_flight_hash_key q = q.queue_name ⧺ ":in-flight"

abbrev pub pending_zset_key : RedisQueue → String
pending_zset_key q = q.queue_name ⧺ ":pending:score"

abbrev pub sequence_key : RedisQueue → String
sequence_key q = q.queue_name ⧺ ":sequence"

abbrev pub lease_key : RedisQueue → String → String
lease_key q key = q.queue_name ⧺ ":lease:" ⧺ key

-- _SCORE_FACTOR
abbrev pub score_factor : ℕ
score_factor = 1_000_000_000_000

abbrev pub priority_text : ForecastJobPriority → String
priority_text low = "low"
priority_text normal = "normal"
priority_text high = "high"

-- The default stands in for any other text.
abbrev pub priority_from : String → ForecastJobPriority
priority_from t =
    if t == "low" then low else if t == "high" then high else default_forecast_job_priority

-- the object of an item, its keys in order
abbrev pub fields_of : ForecastQueueItem → Dict (Option String)
fields_of item =
    ("idempotency_key", item.idempotency_key)
    ∷ ("job_id", some item.job_id)
    ∷ ("priority", some (priority_text item.priority))
    ∷ []

-- _encode_item
unfoldable pub encode_item : {T : Type 0} → Json T → ForecastQueueItem → T
encode_item json item = json.dumps (fields_of item)

abbrev pub text_or_none : Option (Option String) → Option String
text_or_none (some (some t)) = some t
text_or_none _ = none

abbrev pub read_priority : Option String → ForecastJobPriority
read_priority none = default_forecast_job_priority
read_priority (some t) = priority_from t

abbrev pub item_from : Option String → Option String → Option String → Result ForecastQueueItem
item_from none priority key = err (key_error "job_id")
item_from (some job_id) priority key =
    ok (record { job_id = job_id; priority = read_priority priority; idempotency_key = key })

-- _decode_item of a payload
unfoldable pub decode_item : {T : Type 0} → Json T → T → Result ForecastQueueItem
unfolding Dict.get
decode_item json payload =
    let fields = json.loads payload in
    item_from (text_or_none (Dict.get fields "job_id")) (text_or_none (Dict.get fields "priority"))
      (text_or_none (Dict.get fields "idempotency_key"))

module _ {S T : Type 0} (redis : Redis S T) (json : Json T) (q : RedisQueue) where
  -- _ENQUEUE_SCRIPT
  unfoldable pub enqueue_script : String → T → ℕ → S → (Bool × T) × S
  enqueue_script key payload score s = elim (redis.hget (pending_hash_key q) key s) [
    | some existing ↦ ((false, existing), s)
    | none ↦ elim (redis.hget (in_flight_hash_key q) key s) [
      | some existing ↦ ((false, existing), s)
      | none ↦ (
        (true, payload),
        redis.zadd (pending_zset_key q) score key (redis.hset (pending_hash_key q) key payload s),
      )
    ]
  ]

  abbrev pub enqueued_item : Bool → Result ForecastQueueItem → Result ForecastQueueEnqueueResult
  enqueued_item enqueued (ok item) = ok (record { item = item; enqueued = enqueued })
  enqueued_item enqueued (err e) = err e

  unfoldable pub enqueue :
      String → ForecastJobPriority → Option String → S → Result ForecastQueueEnqueueResult × S
  unfolding enqueue_script encode_item decode_item
  enqueue job_id priority idempotency_key s =
      let key = queue_key job_id idempotency_key in
      let s' = redis.incr (sequence_key q) s in
      let item : ForecastQueueItem = record {
        job_id = job_id;
        priority = priority;
        idempotency_key = some key;
      } in
      let score = priority_rank priority * score_factor + redis.counter (sequence_key q) s' in
      let (answer, s'') = enqueue_script key (encode_item json item) score s' in
      (enqueued_item answer.0 (decode_item json answer.1), s'')

  abbrev pub put_in_flight : String → Option T → S → S
  put_in_flight key none s = s
  put_in_flight key (some payload) s = redis.hset (in_flight_hash_key q) key payload s

  -- _DEQUEUE_SCRIPT
  unfoldable pub dequeue_script : S → Option T × S
  dequeue_script s = elim (redis.zfirst (pending_zset_key q) s) [
    | none ↦ (none, s)
    | some key ↦
        let payload = redis.hget (pending_hash_key q) key s in
        let taken = redis.hdel (pending_hash_key q) key (redis.zrem (pending_zset_key q) key s) in
        (payload, put_in_flight key payload taken)
  ]

  -- the item with its lease, which expires
  abbrev pub leased : Result ForecastQueueItem → S → Result (Option ForecastQueueItem) × S
  leased (err e) s = (err e, s)
  leased (ok item) s = (
    ok (some item),
    redis.set_expiring (lease_key q (item_key item)) item.job_id q.visibility_timeout_seconds s,
  )

  abbrev pub lease_if : Option T → S → Result (Option ForecastQueueItem) × S
  lease_if none s = (ok none, s)
  lease_if (some payload) s = leased (decode_item json payload) s

  unfoldable pub dequeue : S → Result (Option ForecastQueueItem) × S
  unfolding dequeue_script decode_item
  dequeue s = let (payload, s') = dequeue_script s in lease_if payload s'

  unfoldable pub mark_completed : ForecastQueueItem → S → S
  mark_completed item s =
      redis.delete (lease_key q (item_key item))
        (redis.hdel (in_flight_hash_key q) (item_key item) s)

  unfoldable pub mark_failed : ForecastQueueItem → Bool → S → S
  unfolding mark_completed enqueue
  mark_failed item requeue s =
      let given_back = mark_completed item s in
      if requeue
      then (enqueue item.job_id item.priority item.idempotency_key given_back).1
      else given_back

  abbrev pub pending_count : S → ℕ
  pending_count s = redis.hlen (pending_hash_key q) s

  abbrev pub in_flight_count : S → ℕ
  in_flight_count s = redis.hlen (in_flight_hash_key q) s
