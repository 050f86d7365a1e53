-- ===== src/Redis/Refinement.antt =====
-- The Redis queue behaves as a line, on any server that keeps the laws.
use earth2_sandbox.Prelude.{
  ℕ, suc, ◌+◌, ◌*◌, ◌≤◌, ◌<◌, ◌≡◌, refl, ap, subst, sym, ◌∙◌, String, Bool, true, false, Option,
  none, some, List, All, All-mono, inl, inr, Option-cases, ◌==◌, eq_refl, if◌then◌else◌, arith,
}
use earth2_sandbox.Prelude.Dict
use earth2_sandbox.Prelude.Dict.{Dict, get-put, get-remove}
use earth2_sandbox.Outcome.{Result, ok}
use earth2_sandbox.Domain.Priority.{ForecastJobPriority, low, normal, high, priority_rank}
use earth2_sandbox.Queue.{
  ForecastQueueItem, ForecastQueueEnqueueResult, QueuedEntry, item_key, queue_key, or_item,
  heappush,
}
use earth2_sandbox.Queue.Line
use earth2_sandbox.Queue.Line.{Line, find, behind, Unique, find-behind, behind-Unique}
use earth2_sandbox.Queue.Refinement.{Ranked, heappush_lem, heappush-All, queue_key-again}
use earth2_sandbox.Redis.{
  Redis, Json, RedisQueue, pending_hash_key, in_flight_hash_key, pending_zset_key, sequence_key,
  score_factor, priority_text, priority_from, fields_of, encode_item, decode_item, item_from,
  text_or_none, enqueue_script, enqueue,
}
use earth2_sandbox.Redis.Names.{
  pending_kind, in_flight_kind, zset_kind, sequence_kind, pending-in_flight,
}
use earth2_sandbox.Redis.Laws.{exact, RedisLaws, JsonLaw}
use earth2_sandbox.Redis.Line.{
  score, items_of, score_of, Sorted, score_of-heappush, heappush-Sorted,
}

priority_from-text : (p : ForecastJobPriority) → priority_from (priority_text p) ≡ p
priority_from-text low = refl
priority_from-text normal = refl
priority_from-text high = refl

item_from-fields :
    (job_id : String) (p : ForecastJobPriority) (key : Option String)
    → item_from (some job_id) (some (priority_text p)) (text_or_none (some key))
      ≡ ok (record { job_id = job_id; priority = p; idempotency_key = key })
item_from-fields job_id p none = rw (priority_from-text p) refl
item_from-fields job_id p (some key) = rw (priority_from-text p) refl

module _ {S T : Type 0} (redis : Redis S T) (q : RedisQueue) (laws : RedisLaws q redis)
    (json : Json T) (reads : JsonLaw json) where
  pub decode-encode :
      (item : ForecastQueueItem) → decode_item json (encode_item json item) ≡ ok item
  unfolding decode_item encode_item Dict.get
  decode-encode item =
      simp
        (
          reads (fields_of item) "job_id",
          reads (fields_of item) "priority",
          reads (fields_of item) "idempotency_key",
          decode_item,
          encode_item,
        )
        (item_from-fields item.job_id item.priority item.idempotency_key)

  abbrev pub encoded : Option ForecastQueueItem → Option T
  encoded none = none
  encoded (some item) = some (encode_item json item)

  encoded-if :
      (b : Bool) (item : ForecastQueueItem) (other : Option ForecastQueueItem)
      → (if b then some (encode_item json item) else encoded other)
        ≡ encoded (if b then some item else other)
  encoded-if true item other = refl
  encoded-if false item other = refl

  -- The server holds this line: its pending hash and set the entries, its in-flight hash the others.
  pub record IsQueue (entries : List QueuedEntry) (in_flight : Dict ForecastQueueItem) (s : S)
      : Type 0 where
    pub pending :
        (key : String)
        → redis.hget (pending_hash_key q) key s ≡ encoded (find key (items_of entries))
    pub flying :
        (key : String) → redis.hget (in_flight_hash_key q) key s ≡ encoded (Dict.get in_flight key)
    pub scored : (key : String) → redis.zscore (pending_zset_key q) key s ≡ score_of key entries
    pub single : Unique (items_of entries)
    pub ranked : All (Ranked (suc (redis.counter (sequence_key q) s))) entries
    pub sorted : Sorted entries

  incr-IsQueue :
      (entries : List QueuedEntry) (in_flight : Dict ForecastQueueItem) (s : S)
      → IsQueue entries in_flight s
      → IsQueue entries in_flight (redis.incr (sequence_key q) s)
  incr-IsQueue entries in_flight s h = record {
    pending = λ key.
        laws.hashes.hget-incr (sequence_key q) (pending_hash_key q) (sequence_kind q)
          (pending_kind q) key s
        ∙ h.pending key;
    flying = λ key.
        laws.hashes.hget-incr (sequence_key q) (in_flight_hash_key q) (sequence_kind q)
          (in_flight_kind q) key s
        ∙ h.flying key;
    scored = λ key.
        laws.sets.zscore-incr (sequence_key q) (pending_zset_key q) (sequence_kind q) (zset_kind q)
          key s
        ∙ h.scored key;
    single = h.single;
    ranked =
        All-mono _ _
          (λ e r. (
            r.0,
            omega (arith, r.1, laws.counters.counter-incr (sequence_key q) (sequence_kind q) s),
          ))
          entries h.ranked;
    sorted = h.sorted;
  }

  -- the item of a call and its entry
  abbrev item_for : String → ForecastJobPriority → String → ForecastQueueItem
  item_for job_id priority key = record {
    job_id = job_id;
    priority = priority;
    idempotency_key = some key;
  }

  abbrev entry_for : ForecastQueueItem → ℕ → QueuedEntry
  entry_for item n = record { rank = priority_rank item.priority; sequence = n; item = item }

  fits :
      (p : ForecastJobPriority) (n : ℕ)
      → n < score_factor
      → priority_rank p * score_factor + n ≤ exact
  fits low n h = omega (arith, h)
  fits normal n h = omega (arith, h)
  fits high n h = omega (arith, h)

  module _ (entries : List QueuedEntry) (in_flight : Dict ForecastQueueItem) (s : S)
      (h : IsQueue entries in_flight s) (item : ForecastQueueItem) (n : ℕ)
      (n-last : redis.counter (sequence_key q) s ≡ n) (few : n < score_factor)
      (older : All (Ranked n) entries) (new : find (item_key item) (items_of entries) ≡ none) where
    abbrev entry : QueuedEntry
    entry = entry_for item n

    -- the server with the item in its hash and its set
    abbrev added : S
    added =
        redis.zadd (pending_zset_key q) (score entry) (item_key item)
          (redis.hset (pending_hash_key q) (item_key item) (encode_item json item) s)

    added-pending :
        (key : String)
        → redis.hget (pending_hash_key q) key added
          ≡ encoded (find key (items_of (heappush entries entry)))
    added-pending key =
        rw
          (
            laws.hashes.hget-zadd (pending_zset_key q) (pending_hash_key q) (zset_kind q)
                (pending_kind q),
            laws.hashes.hget-hset (pending_hash_key q) (pending_hash_key q) (pending_kind q)
                (pending_kind q),
            heappush_lem entries entry refl older,
            find-behind item (items_of entries) key new,
            h.pending key,
            eq_refl (pending_hash_key q),
          )
          (encoded-if (item_key item == key) item (find key (items_of entries)))

    added-IsQueue : IsQueue (heappush entries entry) in_flight added
    added-IsQueue = record {
      pending = added-pending;
      flying = λ key.
          simp
            (
              laws.hashes.hget-zadd (pending_zset_key q) (in_flight_hash_key q) (zset_kind q)
                  (in_flight_kind q),
              laws.hashes.hget-hset (pending_hash_key q) (in_flight_hash_key q) (pending_kind q)
                  (in_flight_kind q),
              pending-in_flight q,
            )
            (h.flying key);
      scored = λ key.
          rw
            (
              laws.sets.zscore-zadd (pending_zset_key q) (pending_zset_key q) (zset_kind q)
                  (zset_kind q) (score entry) (item_key item) key
                  (redis.hset (pending_hash_key q) (item_key item) (encode_item json item) s)
                  (fits item.priority n few),
              laws.sets.zscore-hset (pending_hash_key q) (pending_zset_key q) (pending_kind q)
                  (zset_kind q),
              score_of-heappush entries entry key new,
              h.scored key,
              eq_refl (pending_zset_key q),
            )
            refl;
      single =
          rw (heappush_lem entries entry refl older)
            (behind-Unique item (items_of entries) new h.single);
      ranked =
          rw
            (
              laws.counters.counter-zadd (pending_zset_key q) (sequence_key q) (zset_kind q)
                  (sequence_kind q),
              laws.counters.counter-hset (pending_hash_key q) (sequence_key q) (pending_kind q)
                  (sequence_kind q),
              n-last,
            )
            (heappush-All (Ranked (suc n)) entries entry (refl, omega arith)
              (All-mono (Ranked n) (Ranked (suc n)) (λ e r. (r.0, omega (arith, r.1))) entries
                older));
      sorted = heappush-Sorted entries entry older refl few h.sorted;
    }

  -- What a call returns and leaves is what the line's call does.
  abbrev pub Refines : {A : Type 0} → Result A × S → A × Line → Type 0
  Refines done l =
      (done.0 ≡ ok l.0)
      × ((entries : List QueuedEntry) × (items_of entries ≡ l.1.waiting)
          × IsQueue entries l.1.in_flight done.1)

  pub by_equal :
      {A : Type 0} (done done' : Result A × S) (l l' : A × Line)
      → done ≡ done'
      → l ≡ l'
      → Refines done' l'
      → Refines done l
  by_equal done done' l l' e e' h =
      subst (λ d. Refines d l) (sym e) (subst (λ m. Refines done' m) (sym e') h)

  module _ (entries : List QueuedEntry) (in_flight : Dict ForecastQueueItem) (s : S)
      (h : IsQueue entries in_flight s) where
    abbrev line : Line
    line = record { waiting = items_of entries; in_flight = in_flight }

    abbrev counted : S
    counted = redis.incr (sequence_key q) s

    counted-IsQueue : IsQueue entries in_flight counted
    counted-IsQueue = incr-IsQueue entries in_flight s h

    module _ (job_id : String) (priority : ForecastJobPriority)
        (idempotency_key : Option String) where
      abbrev key : String
      key = queue_key job_id idempotency_key

      abbrev present : Option ForecastQueueItem
      present = or_item (find key (items_of entries)) (Dict.get in_flight key)

      abbrev answered : ForecastQueueItem → ForecastQueueEnqueueResult
      answered item = record { item = item; enqueued = false }

      abbrev own : ForecastQueueItem
      own = item_for job_id priority key

      abbrev last : ℕ
      last = redis.counter (sequence_key q) counted

      -- the key is taken
      enqueue-taken :
          (item : ForecastQueueItem)
          → enqueue_script redis json q key
              (encode_item json own)
              (priority_rank priority * score_factor + last)
              counted
            ≡ ((false, encode_item json item), counted)
          → present ≡ some item
          → Refines
              (enqueue redis json q job_id priority idempotency_key s)
              (Line.enqueue job_id priority idempotency_key line)
      unfolding enqueue Line.enqueue
      enqueue-taken item script there =
          by_equal _ (ok (answered item), counted) _ (answered item, line)
            (simp (script, decode-encode item, enqueue)) (simp (there, Line.enqueue))
            (refl, (entries, refl, counted-IsQueue))

      enqueue-waiting :
          (item : ForecastQueueItem)
          → find key (items_of entries) ≡ some item
          → Refines
              (enqueue redis json q job_id priority idempotency_key s)
              (Line.enqueue job_id priority idempotency_key line)
      unfolding enqueue_script
      enqueue-waiting item found =
          enqueue-taken item (simp (counted-IsQueue.pending key ∙ ap encoded found, enqueue_script))
            (rw found refl)

      enqueue-flying :
          (item : ForecastQueueItem)
          → find key (items_of entries) ≡ none
          → Dict.get in_flight key ≡ some item
          → Refines
              (enqueue redis json q job_id priority idempotency_key s)
              (Line.enqueue job_id priority idempotency_key line)
      unfolding enqueue_script
      enqueue-flying item new found =
          enqueue-taken item
            (simp (
              counted-IsQueue.pending key ∙ ap encoded new,
              counted-IsQueue.flying key ∙ ap encoded found,
              enqueue_script,
            ))
            (rw new found)

      enqueue-new :
          find key (items_of entries) ≡ none
          → Dict.get in_flight key ≡ none
          → suc (redis.counter (sequence_key q) s) < score_factor
          → Refines
              (enqueue redis json q job_id priority idempotency_key s)
              (Line.enqueue job_id priority idempotency_key line)
      unfolding enqueue enqueue_script Line.enqueue
      enqueue-new new free few =
          let again : item_key own ≡ key = queue_key-again job_id idempotency_key in
          let counted_up : last ≡ suc (redis.counter (sequence_key q) s) =
            laws.counters.counter-incr (sequence_key q) (sequence_kind q) s in
          let older : All (Ranked last) entries =
            All-mono _ _ (λ e r. (r.0, omega (arith, r.1, counted_up))) entries h.ranked in
          let new' : find (item_key own) (items_of entries) ≡ none =
            ap (λ k. find k (items_of entries)) again ∙ new in
          let pushed = heappush entries (entry_for own last) in
          let after : String → S = λ k.
            redis.zadd (pending_zset_key q) (priority_rank priority * score_factor + last) k
              (redis.hset (pending_hash_key q) k (encode_item json own) counted) in
          let there : IsQueue pushed in_flight (after key) =
            subst (λ k. IsQueue pushed in_flight (after k)) again
              (added-IsQueue entries in_flight counted counted-IsQueue own last refl
                (omega (arith, few, counted_up)) older new') in
          by_equal _ (ok (record { item = own; enqueued = true }), after key) _
            (
              record { item = own; enqueued = true },
              record { waiting = behind own (items_of entries); in_flight = in_flight },
            )
            (simp (
              counted-IsQueue.pending key ∙ ap encoded new,
              counted-IsQueue.flying key ∙ ap encoded free,
              decode-encode own,
              enqueue,
              enqueue_script,
            ))
            (simp (new, free, Line.enqueue))
            (refl, (pushed, heappush_lem entries (entry_for own last) refl older, there))

      -- On a server that keeps the laws and holds a line, while fewer than 10 ^ 12 sequence numbers
      -- have been used: enqueuing returns what joining the line does and leaves the server holding
      -- that line.
      pub enqueue-Refines :
          suc (redis.counter (sequence_key q) s) < score_factor
          → Refines
              (enqueue redis json q job_id priority idempotency_key s)
              (Line.enqueue job_id priority idempotency_key line)
      enqueue-Refines few = elim (Option-cases (find key (items_of entries))) [
        | inr (item, found) ↦ enqueue-waiting item found
        | inl new ↦ elim (Option-cases (Dict.get in_flight key)) [
          | inr (item, found) ↦ enqueue-flying item new found
          | inl free ↦ enqueue-new new free few
        ]
      ]
