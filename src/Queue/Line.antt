-- ===== src/Queue/Line.antt =====
-- What the queue promises: a line in which an item stands behind the items of its priority and in
-- front of those of lower ones, and the items that have been given out. A key stands in it once.
use earth2_sandbox.Prelude.{
  ◌≡◌, refl, String, Bool, true, false, Option, none, some, inl, inr, Bool-cases, All, List, [],
  ◌∷◌, ltb, ◌==◌, eq_iff, if◌then◌else◌, arith,
}
use earth2_sandbox.Prelude.Dict
use earth2_sandbox.Prelude.Dict.{Dict}
use earth2_sandbox.Domain.Priority.{ForecastJobPriority, priority_rank}
use earth2_sandbox.Queue.{
  ForecastQueueItem, ForecastQueueEnqueueResult, item_key, queue_key, or_item,
}

pub record Line : Type 0 where
  pub waiting : List ForecastQueueItem
  pub in_flight : Dict ForecastQueueItem

-- the item in the line with this key
abbrev pub find : String → List ForecastQueueItem → Option ForecastQueueItem
find key [] = none
find key (i ∷ items) = if item_key i == key then some i else find key items

-- the line with an item at the end of its priority
unfoldable pub behind : ForecastQueueItem → List ForecastQueueItem → List ForecastQueueItem
behind item [] = item ∷ []
behind item (i ∷ items) =
    let rest = behind item items in
    if ltb (priority_rank item.priority) (priority_rank i.priority)
    then item ∷ i ∷ items
    else i ∷ rest

-- An item is given back.
abbrev pub finish : ForecastQueueItem → Line → Line
finish item l = record l { in_flight = Dict.remove l.in_flight (item_key item) }

abbrev pub join_line :
    ForecastQueueItem → Option ForecastQueueItem → Line → ForecastQueueEnqueueResult × Line
join_line item (some existing) l = (record { item = existing; enqueued = false }, l)
join_line item none l =
    (record { item = item; enqueued = true }, record l { waiting = behind item l.waiting })

unfoldable pub enqueue :
    String → ForecastJobPriority → Option String → Line → ForecastQueueEnqueueResult × Line
unfolding behind
enqueue job_id priority idempotency_key l =
    let key = queue_key job_id idempotency_key in
    join_line (record { job_id = job_id; priority = priority; idempotency_key = some key })
      (or_item (find key l.waiting) (Dict.get l.in_flight key)) l

-- the first of the line
abbrev pub next_of :
    List ForecastQueueItem → Dict ForecastQueueItem → Option ForecastQueueItem × Line
next_of [] in_flight = (none, record { waiting = []; in_flight = in_flight })
next_of (i ∷ items) in_flight =
    (some i, record { waiting = items; in_flight = Dict.put in_flight (item_key i) i })

unfoldable pub dequeue : Line → Option ForecastQueueItem × Line
dequeue l = next_of l.waiting l.in_flight

-- An item is given back, and joins the line again if asked for.
unfoldable pub give_up : ForecastQueueItem → Bool → Line → Line
unfolding enqueue
give_up item requeue l =
    if requeue
    then (enqueue item.job_id item.priority item.idempotency_key (finish item l)).1
    else finish item l

-- Each key once.
abbrev pub Unique : List ForecastQueueItem → Type 0
Unique [] = Unit
Unique (i ∷ items) = (find (item_key i) items ≡ none) × Unique items

pub find-behind :
    (item : ForecastQueueItem) (items : List ForecastQueueItem) (key : String)
    → find (item_key item) items ≡ none
    → find key (behind item items) ≡ (if item_key item == key then some item else find key items)
unfolding behind
find-behind item [] key h = refl
find-behind item (i ∷ items) key h = ground (
  arith,
  eq_iff (item_key i) (item_key item),
  eq_iff (item_key i) key,
  eq_iff (item_key item) key,
  find-behind item items key,
)

pub behind-Unique :
    (item : ForecastQueueItem) (items : List ForecastQueueItem)
    → find (item_key item) items ≡ none
    → Unique items
    → Unique (behind item items)
unfolding behind
behind-Unique item [] h u = (refl, tt)
behind-Unique item (i ∷ items) h u =
    elim (Bool-cases (ltb (priority_rank item.priority) (priority_rank i.priority))) [
      | inl ahead ↦ rw (ahead) (h, u)
      | inr after ↦
          let later : find (item_key item) items ≡ none = ground arith in
          rw (after) (
            ground (
              arith,
              find-behind item items (item_key i) later,
              eq_iff (item_key i) (item_key item),
              eq_iff (item_key item) (item_key i),
            ),
            behind-Unique item items later u.1,
          )
    ]

pub behind-All {κ} :
    (P : ForecastQueueItem → Type κ) (item : ForecastQueueItem) (items : List ForecastQueueItem)
    → P item
    → All P items
    → All P (behind item items)
unfolding behind
behind-All P item [] p h = (p, tt)
behind-All P item (i ∷ items) p h =
    elim (Bool-cases (ltb (priority_rank item.priority) (priority_rank i.priority))) [
      | inl ahead ↦ rw (ahead) (p, h)
      | inr after ↦ rw (after) (h.0, behind-All P item items p h.1)
    ]

-- A key that is not in the line is no item's.
pub find-none :
    (key : String) (items : List ForecastQueueItem)
    → find key items ≡ none
    → All (λ i. (item_key i == key) ≡ false) items
find-none key [] h = tt
find-none key (i ∷ items) h = (ground arith, find-none key items (ground arith))

module _ (job_id : String) (priority : ForecastJobPriority) (key : Option String) (l : Line) where
  -- Joining a line takes nothing out of flight and puts nothing there.
  pub enqueue-in_flight : (enqueue job_id priority key l).1.in_flight ≡ l.in_flight
  unfolding enqueue
  enqueue-in_flight = ground arith

  pub enqueue-refused :
      (enqueue job_id priority key l).0.enqueued ≡ false → (enqueue job_id priority key l).1 ≡ l
  unfolding enqueue
  enqueue-refused h = ground (arith, h)
