-- ===== src/Redis/Line.antt =====
-- The line that the server's pending set stands for: entries with their ranks and sequence numbers,
-- in the order of their scores.
use earth2_sandbox.Prelude.{
  ℕ, ◌+◌, ◌*◌, ◌<◌, ◌≡◌, refl, String, true, false, Option, none, some, List, [], ◌∷◌, map, All,
  All-mono, inl, inr, Bool-cases, ◌==◌, eq_iff, if◌then◌else◌, arith,
}
use earth2_sandbox.Domain.Priority.{priority_rank}
use earth2_sandbox.Queue.{ForecastQueueItem, QueuedEntry, item_key, entry_lt, heappush}
use earth2_sandbox.Queue.Line.{find}
use earth2_sandbox.Queue.Refinement.{Ranked, heappush-All}
use earth2_sandbox.Redis.{score_factor}

abbrev pub score : QueuedEntry → ℕ
score e = e.rank * score_factor + e.sequence

abbrev pub items_of : List QueuedEntry → List ForecastQueueItem
items_of entries = map (λ e. e.item) entries

-- the score of the first entry with this key
abbrev pub score_of : String → List QueuedEntry → Option ℕ
score_of key [] = none
score_of key (e ∷ entries) = if item_key e.item == key then some (score e) else score_of key entries

abbrev pub Before : QueuedEntry → QueuedEntry → Type 0
Before a b = score a < score b

-- Each entry stands in front of those with larger scores.
abbrev pub Sorted : List QueuedEntry → Type 0
Sorted [] = Unit
Sorted (e ∷ entries) = All (Before e) entries × Sorted entries

pub score_of-heappush :
    (entries : List QueuedEntry) (e : QueuedEntry) (key : String)
    → find (item_key e.item) (items_of entries) ≡ none
    → score_of key (heappush entries e)
      ≡ (if item_key e.item == key then some (score e) else score_of key entries)
unfolding heappush
score_of-heappush [] e key h = refl
score_of-heappush (first ∷ entries) e key h = ground (
  arith,
  eq_iff (item_key first.item) (item_key e.item),
  eq_iff (item_key first.item) key,
  eq_iff (item_key e.item) key,
  score_of-heappush entries e key,
)

-- As long as sequence numbers stay below the factor, scores are in the order of entries.
pub ahead-Before :
    (e first : QueuedEntry)
    → Ranked e.sequence first
    → e.rank ≡ priority_rank e.item.priority
    → e.sequence < score_factor
    → entry_lt e first ≡ true
    → Before e first
ahead-Before e first r own fits ahead = ground (arith, r.0, r.1, own, fits)

pub after-Before :
    (e first : QueuedEntry)
    → Ranked e.sequence first
    → e.rank ≡ priority_rank e.item.priority
    → e.sequence < score_factor
    → entry_lt e first ≡ false
    → Before first e
after-Before e first r own fits after = ground (arith, r.0, r.1, own, fits)

trans-Before :
    (a b : QueuedEntry) (entries : List QueuedEntry)
    → Before a b
    → All (Before b) entries
    → All (Before a) entries
trans-Before a b entries h k = All-mono (Before b) (Before a) (λ c l. omega (arith, h, l)) entries k

pub heappush-Sorted :
    (entries : List QueuedEntry) (e : QueuedEntry)
    → All (Ranked e.sequence) entries
    → e.rank ≡ priority_rank e.item.priority
    → e.sequence < score_factor
    → Sorted entries
    → Sorted (heappush entries e)
unfolding heappush
heappush-Sorted [] e r own fits s = (tt, tt)
heappush-Sorted (first ∷ entries) e r own fits s = elim (Bool-cases (entry_lt e first)) [
  | inl ahead ↦
      let before = ahead-Before e first r.0 own fits ahead in
      rw (ahead) ((before, trans-Before e first entries before s.0), s)
  | inr after ↦ rw (after) (
    heappush-All (Before first) entries e (after-Before e first r.0 own fits after) s.0,
    heappush-Sorted entries e r.1 own fits s.1,
  )
]

-- A score that is found behind an entry is larger than the entry's.
pub score_of-Before :
    (e : QueuedEntry) (entries : List QueuedEntry) (key : String) (n : ℕ)
    → All (Before e) entries
    → score_of key entries ≡ some n
    → score e < n
score_of-Before e [] key n h found = absurd (ground (arith, found))
score_of-Before e (first ∷ entries) key n h found =
    ground (arith, h.0, found, score_of-Before e entries key n h.1)
