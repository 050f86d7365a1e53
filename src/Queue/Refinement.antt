-- ===== src/Queue/Refinement.antt =====
-- The in-memory queue behaves as a line, whatever is asked of it.
use earth2_sandbox.Prelude.{
  ℕ, ◌<◌, ◌+◌, ◌≡◌, refl, ap, ◌∙◌, String, true, Option, none, some, List, [], ◌∷◌, map, All,
  All-mono, inl, inr, Bool-cases, Option-cases, eq_iff, eq_refl, arith,
}
use earth2_sandbox.Prelude.Dict
use earth2_sandbox.Prelude.Dict.{Dict, get-put, get-remove}
use earth2_sandbox.Domain.Priority.{ForecastJobPriority, priority_rank}
use earth2_sandbox.Queue.{
  ForecastQueueItem, QueuedEntry, InMemoryPriorityForecastQueue, item_key, queue_key, or_item,
  entry_lt, heappush, enqueue, dequeue, pop_entries, mark_completed, admit, same_item, same_key,
  same_priority, is_current,
}
use earth2_sandbox.Queue.Line
use earth2_sandbox.Queue.Line.{
  Line, find, behind, Unique, find-behind, behind-Unique, behind-All, find-none,
}

abbrev pub items : InMemoryPriorityForecastQueue → List ForecastQueueItem
items q = map (λ e. e.item) q.entries

abbrev pub line_of : InMemoryPriorityForecastQueue → Line
line_of q = record { waiting = items q; in_flight = q.in_flight_by_key }

abbrev pub Ranked : ℕ → QueuedEntry → Type 0
Ranked sequence e = (e.rank ≡ priority_rank e.item.priority) × (e.sequence < sequence)

-- The heap and the dictionary hold the same items, each key once; no key waits and is in flight;
-- the ranks are those of the priorities, and the sequence numbers are used up.
pub record IsConsistent (q : InMemoryPriorityForecastQueue) : Type 0 where
  pub agrees : (key : String) → Dict.get q.queued_by_key key ≡ find key (items q)
  pub single : Unique (items q)
  pub ranked : All (Ranked q.sequence) q.entries
  pub apart : All (λ i. Dict.get q.in_flight_by_key (item_key i) ≡ none) (items q)

-- The heap puts an item behind those of its priority.
pub heappush_lem :
    (entries : List QueuedEntry) (e : QueuedEntry)
    → e.rank ≡ priority_rank e.item.priority
    → All (Ranked e.sequence) entries
    → map (λ x. x.item) (heappush entries e) ≡ behind e.item (map (λ x. x.item) entries)
unfolding heappush behind
heappush_lem [] e h r = refl
heappush_lem (first ∷ entries) e h r = ground (arith, heappush_lem entries e h r.1, r.0.0, r.0.1)

pub heappush-All {κ} :
    (P : QueuedEntry → Type κ) (entries : List QueuedEntry) (e : QueuedEntry)
    → P e
    → All P entries
    → All P (heappush entries e)
unfolding heappush
heappush-All P [] e p h = (p, tt)
heappush-All P (first ∷ entries) e p h = elim (Bool-cases (entry_lt e first)) [
  | inl ahead ↦ rw (ahead) (p, h)
  | inr after ↦ rw (after) (h.0, heappush-All P entries e p h.1)
]

pub queue_key-again :
    (job_id : String) (key : Option String)
    → queue_key job_id (some (queue_key job_id key)) ≡ queue_key job_id key
queue_key-again job_id none = ground (arith, eq_iff job_id "")
queue_key-again job_id (some key) = ground (arith, eq_iff job_id "", eq_iff key "")

same_key_refl : (key : Option String) → same_key key key ≡ true
same_key_refl none = refl
same_key_refl (some key) = eq_refl key

same_priority_refl : (p : ForecastJobPriority) → same_priority p p ≡ true
same_priority_refl p = ground arith

same_item_refl : (i : ForecastQueueItem) → same_item i i ≡ true
same_item_refl i =
    simp (eq_refl i.job_id, same_priority_refl i.priority, same_key_refl i.idempotency_key)

-- What a method returns and leaves is what the line's does, and the queue stays consistent.
abbrev pub Refines {ℓ} : {A : Type ℓ} → A × InMemoryPriorityForecastQueue → A × Line → Type ℓ
Refines (r, q') (r', l') = (r ≡ r') × (line_of q' ≡ l') × IsConsistent q'

module _ (q : InMemoryPriorityForecastQueue) (c : IsConsistent q) where
  module _ (job_id : String) (priority : ForecastJobPriority) (key : String)
      (again : queue_key job_id (some key) ≡ key) (new : find key (items q) ≡ none)
      (free : Dict.get q.in_flight_by_key key ≡ none) where
    abbrev new_item : ForecastQueueItem
    new_item = record { job_id = job_id; priority = priority; idempotency_key = some key }

    abbrev new_entry : QueuedEntry
    new_entry = record { rank = priority_rank priority; sequence = q.sequence; item = new_item }

    line_up : map (λ e. e.item) (heappush q.entries new_entry) ≡ behind new_item (items q)
    line_up = heappush_lem q.entries new_entry refl c.ranked

    fresh : find (item_key new_item) (items q) ≡ none
    fresh = ap (λ k. find k (items q)) again ∙ new

    agrees_again :
        (k : String)
        → Dict.get (Dict.put q.queued_by_key key new_item) k
          ≡ find k (map (λ e. e.item) (heappush q.entries new_entry))
    agrees_again k = rw (
      get-put q.queued_by_key key new_item k,
      line_up,
      find-behind new_item (items q) k fresh,
      again,
      c.agrees k,
    )

    admit-new :
        Refines (admit job_id priority key none q) (Line.join_line new_item none (line_of q))
    unfolding heappush Dict.put Line.behind
    admit-new = (
      refl,
      ap (λ w. record { waiting = w; in_flight = q.in_flight_by_key }) line_up,
      record {
        agrees = agrees_again;
        single = rw line_up (behind-Unique new_item (items q) fresh c.single);
        ranked =
            heappush-All (Ranked (q.sequence + 1)) q.entries new_entry (refl, omega arith)
              (All-mono (Ranked q.sequence) (Ranked (q.sequence + 1))
                (λ e h. (h.0, omega (arith, h.1))) q.entries c.ranked);
        apart = rw line_up (
            behind-All (λ i. Dict.get q.in_flight_by_key (item_key i) ≡ none) new_item (items q)
              (ap (Dict.get q.in_flight_by_key) again ∙ free) c.apart);
      },
    )

  -- the key is taken
  admit-taken :
      (job_id : String) (priority : ForecastJobPriority) (key : String)
      (item existing : ForecastQueueItem)
      → Refines
          (admit job_id priority key (some existing) q)
          (Line.join_line item (some existing) (line_of q))
  admit-taken job_id priority key item existing = (refl, refl, c)

pub or_item-none : (a b : Option ForecastQueueItem) → or_item a b ≡ none → (a ≡ none) × (b ≡ none)
or_item-none none b h = (refl, h)
or_item-none (some i) b h = absurd (ground arith)

-- Enqueuing in a consistent queue is joining its line: with the same key waiting or in flight, the item
-- that has it is returned and nothing changes; otherwise the new item takes its place behind
-- those of its priority.
pub enqueue-Refines :
    (q : InMemoryPriorityForecastQueue) (job_id : String) (priority : ForecastJobPriority)
    (idempotency_key : Option String)
    → IsConsistent q
    → Refines
        (enqueue job_id priority idempotency_key q)
        (Line.enqueue job_id priority idempotency_key (line_of q))
unfolding enqueue Line.enqueue
enqueue-Refines q job_id priority idempotency_key c =
    let key = queue_key job_id idempotency_key in
    let present = or_item (find key (items q)) (Dict.get q.in_flight_by_key key) in
    rw (c.agrees key) (elim (Option-cases present) [
      | inl absent ↦
          let (new, free) = or_item-none _ _ absent in
          rw (absent)
            (admit-new q c job_id priority key (queue_key-again job_id idempotency_key) new free)
      | inr (existing, there) ↦ rw (there) (
          admit-taken q c job_id priority key
            (record { job_id = job_id; priority = priority; idempotency_key = some key }) existing)
    ])

put-apart :
    (in_flight : Dict ForecastQueueItem) (i : ForecastQueueItem) (rest : List ForecastQueueItem)
    → find (item_key i) rest ≡ none
    → All (λ j. Dict.get in_flight (item_key j) ≡ none) rest
    → All (λ j. Dict.get (Dict.put in_flight (item_key i) i) (item_key j) ≡ none) rest
put-apart in_flight i [] new a = tt
put-apart in_flight i (j ∷ rest) new a = (
  ground (
    arith,
    get-put in_flight (item_key i) i (item_key j),
    eq_iff (item_key i) (item_key j),
    eq_iff (item_key j) (item_key i),
  ),
  put-apart in_flight i rest (ground arith) a.1,
)

module _ (queued in_flight : Dict ForecastQueueItem) (sequence : ℕ) where
  abbrev queue_with : List QueuedEntry → InMemoryPriorityForecastQueue
  queue_with entries = record {
    entries = entries;
    queued_by_key = queued;
    in_flight_by_key = in_flight;
    sequence = sequence;
  }

  dequeue-cases :
      (entries : List QueuedEntry)
      → IsConsistent (queue_with entries)
      → Refines (dequeue (queue_with entries)) (Line.dequeue (line_of (queue_with entries)))
  unfolding dequeue pop_entries Line.dequeue
  dequeue-cases [] c = (refl, refl, c)
  dequeue-cases (e ∷ entries) c =
      let rest = map (λ x. x.item) entries in
      let key = item_key e.item in
      let here : is_current (Dict.get queued key) e.item ≡ true =
        rw (c.agrees key, eq_refl key) (same_item_refl e.item) in
      rw (here) (
        refl,
        refl,
        record {
          agrees =
              λ k. ground (arith, get-remove queued key k, c.agrees k, eq_iff key k, c.single.0);
          single = c.single.1;
          ranked = c.ranked.1;
          apart = put-apart in_flight e.item rest c.single.0 c.apart.1;
        },
      )

-- Dequeuing from a consistent queue takes the first of its line, never skips an entry, and puts the
-- item in flight; from an empty line it takes nothing.
pub dequeue-Refines :
    (q : InMemoryPriorityForecastQueue)
    → IsConsistent q
    → Refines (dequeue q) (Line.dequeue (line_of q))
dequeue-Refines q c = dequeue-cases q.queued_by_key q.in_flight_by_key q.sequence q.entries c

remove-apart :
    (in_flight : Dict ForecastQueueItem) (key : String) (rest : List ForecastQueueItem)
    → All (λ j. Dict.get in_flight (item_key j) ≡ none) rest
    → All (λ j. Dict.get (Dict.remove in_flight key) (item_key j) ≡ none) rest
remove-apart in_flight key rest a =
    All-mono _ _ (λ j h. ground (arith, get-remove in_flight key (item_key j), h)) rest a

pub mark_completed-IsConsistent :
    (q : InMemoryPriorityForecastQueue) (item : ForecastQueueItem)
    → IsConsistent q
    → IsConsistent (mark_completed item q)
unfolding mark_completed
mark_completed-IsConsistent q item c = record {
  agrees = c.agrees;
  single = c.single;
  ranked = c.ranked;
  apart = remove-apart q.in_flight_by_key (item_key item) (items q) c.apart;
}
