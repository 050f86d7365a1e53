-- ===== src/Queue.antt =====
-- src/earth2_sandbox/infrastructure/queue/in_memory_priority_queue.py and the items of
-- src/earth2_sandbox/application/ports/forecast_queue.py. The heap is the list of its entries in
-- the order that `heappop` gives them out: the sequence numbers make the order of entries total.
-- Each method holds the queue's lock, so it is one function of the state.
pub mod Line
pub mod Refinement
pub mod Calls
pub mod Worker
use earth2_sandbox.Prelude.{
  ℕ, suc, ◌+◌, String, Bool, true, false, ◌&&◌, ◌||◌, Option, none, some, List, [], ◌∷◌, length,
  ltb, leb, ◌==◌, if◌then◌else◌,
}
use earth2_sandbox.Prelude.Dict
use earth2_sandbox.Prelude.Dict.{Dict}
use earth2_sandbox.Domain.Priority.{ForecastJobPriority, low, normal, high, priority_rank}

pub record ForecastQueueItem : Type 0 where
  pub job_id : String
  pub priority : ForecastJobPriority
  pub idempotency_key : Option String

pub record ForecastQueueEnqueueResult : Type 0 where
  pub item : ForecastQueueItem
  pub enqueued : Bool

pub record QueuedEntry : Type 0 where
  pub rank : ℕ
  pub sequence : ℕ
  pub item : ForecastQueueItem

pub record InMemoryPriorityForecastQueue : Type 0 where
  pub entries : List QueuedEntry
  pub queued_by_key : Dict ForecastQueueItem
  pub in_flight_by_key : Dict ForecastQueueItem
  pub sequence : ℕ

abbrev pub empty_queue : InMemoryPriorityForecastQueue
empty_queue = record { entries = []; queued_by_key = []; in_flight_by_key = []; sequence = 0 }

-- `idempotency_key or job_id`
abbrev pub queue_key : String → Option String → String
queue_key job_id none = job_id
queue_key job_id (some key) = if key == "" then job_id else key

abbrev pub item_key : ForecastQueueItem → String
item_key item = queue_key item.job_id item.idempotency_key

abbrev pub same_priority : ForecastJobPriority → ForecastJobPriority → Bool
same_priority p q =
    leb (priority_rank p) (priority_rank q) && leb (priority_rank q) (priority_rank p)

abbrev pub same_key : Option String → Option String → Bool
same_key none none = true
same_key (some k) (some l) = k == l
same_key _ _ = false

-- `==` of the dataclass
abbrev pub same_item : ForecastQueueItem → ForecastQueueItem → Bool
same_item i j =
    i.job_id == j.job_id
    && same_priority i.priority j.priority
    && same_key i.idempotency_key j.idempotency_key

-- the order of the dataclass: the item does not count
abbrev pub entry_lt : QueuedEntry → QueuedEntry → Bool
entry_lt a b =
    ltb a.rank b.rank || (leb a.rank b.rank && leb b.rank a.rank && ltb a.sequence b.sequence)

unfoldable pub heappush : List QueuedEntry → QueuedEntry → List QueuedEntry
heappush [] entry = entry ∷ []
heappush (first ∷ entries) entry =
    let rest = heappush entries entry in
    if entry_lt entry first then entry ∷ first ∷ entries else first ∷ rest

-- `a or b` on optional items, which are never false
abbrev pub or_item : Option ForecastQueueItem → Option ForecastQueueItem → Option ForecastQueueItem
or_item none b = b
or_item (some item) b = some item

abbrev pub admit :
    String
    → ForecastJobPriority
    → String
    → Option ForecastQueueItem
    → InMemoryPriorityForecastQueue
    → ForecastQueueEnqueueResult × InMemoryPriorityForecastQueue
admit job_id priority key (some existing) q = (record { item = existing; enqueued = false }, q)
admit job_id priority key none q =
    let item : ForecastQueueItem = record {
      job_id = job_id;
      priority = priority;
      idempotency_key = some key;
    } in
    let entry : QueuedEntry = record {
      rank = priority_rank priority;
      sequence = q.sequence;
      item = item;
    } in
    (
      record { item = item; enqueued = true },
      record q {
        sequence = q.sequence + 1;
        queued_by_key = Dict.put q.queued_by_key key item;
        entries = heappush q.entries entry;
      },
    )

unfoldable pub enqueue :
    String
    → ForecastJobPriority
    → Option String
    → InMemoryPriorityForecastQueue
    → ForecastQueueEnqueueResult × InMemoryPriorityForecastQueue
unfolding heappush Dict.get Dict.put
enqueue job_id priority idempotency_key q =
    let key = queue_key job_id idempotency_key in
    admit job_id priority key
      (or_item (Dict.get q.queued_by_key key) (Dict.get q.in_flight_by_key key)) q

-- `queued != entry.item` is false
abbrev pub is_current : Option ForecastQueueItem → ForecastQueueItem → Bool
is_current none item = false
is_current (some queued) item = same_item queued item

-- The loop of `dequeue`, on the entries that are left.
unfoldable pub pop_entries :
    List QueuedEntry
    → InMemoryPriorityForecastQueue
    → Option ForecastQueueItem × InMemoryPriorityForecastQueue
unfolding Dict.get Dict.put Dict.remove
pop_entries [] q = (none, record q { entries = [] })
pop_entries (entry ∷ entries) q =
    let rest = pop_entries entries q in
    let key = item_key entry.item in
    if is_current (Dict.get q.queued_by_key key) entry.item
    then (
      some entry.item,
      record q {
        entries = entries;
        queued_by_key = Dict.remove q.queued_by_key key;
        in_flight_by_key = Dict.put q.in_flight_by_key key entry.item;
      },
    )
    else rest

unfoldable pub dequeue :
    InMemoryPriorityForecastQueue → Option ForecastQueueItem × InMemoryPriorityForecastQueue
unfolding pop_entries
dequeue q = pop_entries q.entries q

unfoldable pub mark_completed :
    ForecastQueueItem → InMemoryPriorityForecastQueue → InMemoryPriorityForecastQueue
unfolding Dict.remove
mark_completed item q = record q {
  in_flight_by_key = Dict.remove q.in_flight_by_key (item_key item);
}

unfoldable pub mark_failed :
    ForecastQueueItem → Bool → InMemoryPriorityForecastQueue → InMemoryPriorityForecastQueue
unfolding Dict.remove enqueue
mark_failed item requeue q =
    let popped = record q { in_flight_by_key = Dict.remove q.in_flight_by_key (item_key item) } in
    if requeue then (enqueue item.job_id item.priority item.idempotency_key popped).1 else popped

abbrev pub pending_count : InMemoryPriorityForecastQueue → ℕ
pending_count q = length q.queued_by_key

abbrev pub in_flight_count : InMemoryPriorityForecastQueue → ℕ
in_flight_count q = length q.in_flight_by_key
