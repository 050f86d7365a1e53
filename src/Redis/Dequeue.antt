-- ===== src/Redis/Dequeue.antt =====
-- Taking items from the Redis queue and giving them back.
use earth2_sandbox.Prelude.{
  ℕ, ◌≤◌, ◌≡◌, refl, ap, sym, ◌∙◌, String, Bool, true, false, Option, none, some, List, [], ◌∷◌,
  All, inl, inr, Bool-cases, Option-cases, ◌==◌, eq_iff, eq_refl, if◌then◌else◌, arith,
}
use earth2_sandbox.Prelude.Dict
use earth2_sandbox.Prelude.Dict.{Dict, get-put, get-remove}
use earth2_sandbox.Outcome.{ok}
use earth2_sandbox.Queue.{ForecastQueueItem, QueuedEntry, item_key}
use earth2_sandbox.Queue.Line
use earth2_sandbox.Queue.Line.{Line, find, Unique}
use earth2_sandbox.Redis.{
  Redis, Json, RedisQueue, pending_hash_key, in_flight_hash_key, pending_zset_key, sequence_key,
  lease_key, encode_item, dequeue_script, dequeue, mark_completed,
}
use earth2_sandbox.Redis.Names.{
  pending_kind, in_flight_kind, zset_kind, sequence_kind, lease_kind, pending-in_flight,
  in_flight-pending, lease-pending, lease-in_flight, lease-zset, lease-sequence,
}
use earth2_sandbox.Redis.Laws.{RedisLaws, JsonLaw}
use earth2_sandbox.Redis.Line.{score, items_of, score_of, Before, score_of-Before}
use earth2_sandbox.Redis.Refinement.{IsQueue, encoded, decode-encode, Refines, by_equal}

-- The first member of a set with these scores is the first entry's.
first-key :
    (e : QueuedEntry) (entries : List QueuedEntry) (key : String) (n : ℕ)
    → All (Before e) entries
    → score_of key (e ∷ entries) ≡ some n
    → n ≤ score e
    → key ≡ item_key e.item
first-key e entries key n behind found least = elim (Bool-cases (item_key e.item == key)) [
  | inl same ↦ sym ((eq_iff (item_key e.item) key).0 same)
  | inr differs ↦
      let later : score_of key entries ≡ some n = ground (arith, differs, found) in
      absurd (omega (arith, score_of-Before e entries key n behind later, least))
]

no_score :
    (entries : List QueuedEntry) (key : String)
    → find key (items_of entries) ≡ none
    → score_of key entries ≡ none
no_score [] key h = refl
no_score (e ∷ entries) key h = ground (arith, h, no_score entries key)

none-some : {A : Type 0} (x : A) → none ≡ some x → ⊥
none-some x h = cc

-- What is left where the first one was taken out.
gone :
    {A B : Type 0} (b : Bool) (f : Option B → Option A) (x : Option A) (own rest : Option B)
    → f none ≡ none
    → x ≡ f (if b then own else rest)
    → (b ≡ true → rest ≡ none)
    → (if b then none else x) ≡ f rest
gone true f x own rest e h k = sym e ∙ ap f (sym (k refl))
gone false f x own rest e h k = h

module _ {S T : Type 0} (redis : Redis S T) (q : RedisQueue) (laws : RedisLaws q redis)
    (json : Json T) (reads : JsonLaw json) where
  abbrev IsServer : List QueuedEntry → Dict ForecastQueueItem → S → Type 0
  IsServer = IsQueue redis q laws json reads

  -- a lease that is set or deleted
  leased-IsQueue :
      (entries : List QueuedEntry) (in_flight : Dict ForecastQueueItem) (key value : String) (n : ℕ)
      (s : S)
      → IsServer entries in_flight s
      → IsServer entries in_flight (redis.set_expiring (lease_key q key) value n s)
  leased-IsQueue entries in_flight key value n s h = record {
    pending = λ k.
        laws.hashes.hget-set_expiring _ _ (lease_kind q key) (pending_kind q) _ _ k s ∙ h.pending k;
    flying = λ k.
        laws.hashes.hget-set_expiring _ _ (lease_kind q key) (in_flight_kind q) _ _ k s
        ∙ h.flying k;
    scored = λ k.
        laws.sets.zscore-set_expiring _ _ (lease_kind q key) (zset_kind q) _ _ k s ∙ h.scored k;
    single = h.single;
    ranked =
        rw
          (laws.counters.counter-set_expiring (lease_key q key) (sequence_key q) (lease_kind q key)
            (sequence_kind q) value n s)
          h.ranked;
    sorted = h.sorted;
  }

  taken-if :
      (b : Bool) (item : ForecastQueueItem) (x : Option T) (y : Option ForecastQueueItem)
      → x ≡ encoded redis q laws json reads y
      → (if b then some (encode_item json item) else x)
        ≡ encoded redis q laws json reads (if b then some item else y)
  taken-if true item x y e = refl
  taken-if false item x y e = e

  dropped :
      (b : Bool) (x : Option T) (y : Option ForecastQueueItem)
      → x ≡ encoded redis q laws json reads y
      → (if b then none else x) ≡ encoded redis q laws json reads (if b then none else y)
  dropped true x y e = refl
  dropped false x y e = e

  module _ (e : QueuedEntry) (entries : List QueuedEntry) (in_flight : Dict ForecastQueueItem)
      (s : S) (h : IsServer (e ∷ entries) in_flight s) where
    abbrev key : String
    key = item_key e.item

    abbrev moved : S
    moved =
        redis.hset (in_flight_hash_key q) key (encode_item json e.item)
          (redis.hdel (pending_hash_key q) key (redis.zrem (pending_zset_key q) key s))

    moved-IsQueue : IsServer entries (Dict.put in_flight key e.item) moved
    moved-IsQueue = record {
      pending = λ k.
          simp
            (
              laws.hashes.hget-hset (in_flight_hash_key q) (pending_hash_key q) (in_flight_kind q)
                  (pending_kind q),
              laws.hashes.hget-hdel (pending_hash_key q) (pending_hash_key q) (pending_kind q)
                  (pending_kind q),
              laws.hashes.hget-zrem (pending_zset_key q) (pending_hash_key q) (zset_kind q)
                  (pending_kind q),
              in_flight-pending q,
              eq_refl (pending_hash_key q),
            )
            (gone (key == k) (encoded redis q laws json reads) _ (some e.item)
              (find k (items_of entries)) refl (h.pending k)
              (λ same.
                ap (λ x. find x (items_of entries)) (sym ((eq_iff key k).0 same)) ∙ h.single.0));
      flying = λ k.
          simp
            (
              laws.hashes.hget-hset (in_flight_hash_key q) (in_flight_hash_key q) (in_flight_kind q)
                  (in_flight_kind q),
              laws.hashes.hget-hdel (pending_hash_key q) (in_flight_hash_key q) (pending_kind q)
                  (in_flight_kind q),
              laws.hashes.hget-zrem (pending_zset_key q) (in_flight_hash_key q) (zset_kind q)
                  (in_flight_kind q),
              pending-in_flight q,
              eq_refl (in_flight_hash_key q),
              get-put in_flight key e.item k,
            )
            (taken-if (key == k) e.item _ (Dict.get in_flight k) (h.flying k));
      scored = λ k.
          simp
            (
              laws.sets.zscore-hset (in_flight_hash_key q) (pending_zset_key q) (in_flight_kind q)
                  (zset_kind q),
              laws.sets.zscore-hdel (pending_hash_key q) (pending_zset_key q) (pending_kind q)
                  (zset_kind q),
              laws.sets.zscore-zrem (pending_zset_key q) (pending_zset_key q) (zset_kind q)
                  (zset_kind q),
              eq_refl (pending_zset_key q),
            )
            (gone (key == k) (λ x. x) _ (some (score e)) (score_of k entries) refl (h.scored k)
              (λ same.
                ap (λ x. score_of x entries) (sym ((eq_iff key k).0 same))
                ∙ no_score entries key h.single.0));
      single = h.single.1;
      ranked =
          rw
            (
              laws.counters.counter-hset (in_flight_hash_key q) (sequence_key q) (in_flight_kind q)
                  (sequence_kind q),
              laws.counters.counter-hdel (pending_hash_key q) (sequence_key q) (pending_kind q)
                  (sequence_kind q),
              laws.counters.counter-zrem (pending_zset_key q) (sequence_key q) (zset_kind q)
                  (sequence_kind q),
            )
            h.ranked.1;
      sorted = h.sorted.1;
    }

    lease : S
    lease = redis.set_expiring (lease_key q key) e.item.job_id q.visibility_timeout_seconds moved

    dequeue-first :
        redis.zfirst (pending_zset_key q) s ≡ some key
        → dequeue redis json q s ≡ (ok (some e.item), lease)
    unfolding dequeue dequeue_script lease
    dequeue-first first =
        let payload : redis.hget (pending_hash_key q) key s ≡ some (encode_item json e.item) =
          h.pending key
          ∙ ap
              (λ b.
                encoded redis q laws json reads
                  (if b then some e.item else find key (items_of entries)))
              (eq_refl key) in
        simp (first, payload, decode-encode redis q laws json reads e.item, dequeue, dequeue_script)

    zfirst-key : (m : String) → redis.zfirst (pending_zset_key q) s ≡ some m → m ≡ key
    zfirst-key m first =
        let (n, scored, least) =
          laws.sets.zfirst_some (pending_zset_key q) (zset_kind q) m s first in
        first-key e entries m n h.sorted.0 (sym (h.scored m) ∙ scored) (
          least key (score e) (
            h.scored key
            ∙ ap (λ b. if b then some (score e) else score_of key entries) (eq_refl key)))

  -- On a server that keeps the laws and holds a line: dequeuing returns the first of the line, or
  -- none of an empty one, and leaves the server holding the rest, the item in flight.
  pub dequeue-Refines :
      (entries : List QueuedEntry) (in_flight : Dict ForecastQueueItem) (s : S)
      → IsQueue redis q laws json reads entries in_flight s
      → Refines redis q laws json reads
          (dequeue redis json q s)
          (Line.dequeue (record { waiting = items_of entries; in_flight = in_flight }))
  unfolding Line.dequeue dequeue dequeue_script lease
  dequeue-Refines [] in_flight s h = elim (Option-cases (redis.zfirst (pending_zset_key q) s)) [
    | inl nothing ↦
        by_equal redis q laws json reads _ (ok none, s) _
          (none, record { waiting = []; in_flight = in_flight })
          (simp (nothing, dequeue, dequeue_script)) refl (refl, ([], refl, h))
    | inr (m, first) ↦
        let (n, scored, least) =
          laws.sets.zfirst_some (pending_zset_key q) (zset_kind q) m s first in
        absurd (none-some n (sym (h.scored m) ∙ scored))
  ]
  dequeue-Refines (e ∷ entries) in_flight s h =
      elim (Option-cases (redis.zfirst (pending_zset_key q) s)) [
        | inl nothing ↦ absurd (
            none-some (score e) (
              sym (
                laws.sets.zfirst_none (pending_zset_key q) (zset_kind q) (item_key e.item) s
                  nothing)
              ∙ h.scored (item_key e.item)
              ∙ ap (λ b. if b then some (score e) else score_of (item_key e.item) entries)
                  (eq_refl (item_key e.item))))
        | inr (m, first) ↦
            by_equal redis q laws json reads _ (ok (some e.item), lease e entries in_flight s h) _ _
              (dequeue-first e entries in_flight s h
                (first ∙ ap some (zfirst-key e entries in_flight s h m first)))
              refl
              (
                refl,
                (
                  entries,
                  refl,
                  leased-IsQueue entries _ _ _ _ _ (moved-IsQueue e entries in_flight s h),
                ),
              )
      ]

  -- Completing an item on such a server takes it out of flight and changes nothing else of the line.
  pub mark_completed-IsQueue :
      (entries : List QueuedEntry) (in_flight : Dict ForecastQueueItem) (s : S)
      (item : ForecastQueueItem)
      → IsQueue redis q laws json reads entries in_flight s
      → IsQueue redis q laws json reads entries
          (Dict.remove in_flight (item_key item))
          (mark_completed redis json q item s)
  unfolding mark_completed
  mark_completed-IsQueue entries in_flight s item h =
      let key = item_key item in
      let lease_of = lease_key q key in
      record {
        pending = λ k.
            simp
              (
                laws.hashes.hget-delete lease_of (pending_hash_key q) (lease-pending q key),
                laws.hashes.hget-hdel (in_flight_hash_key q) (pending_hash_key q) (in_flight_kind q)
                    (pending_kind q),
                in_flight-pending q,
              )
              (h.pending k);
        flying = λ k.
            simp
              (
                laws.hashes.hget-delete lease_of (in_flight_hash_key q) (lease-in_flight q key),
                laws.hashes.hget-hdel (in_flight_hash_key q) (in_flight_hash_key q)
                    (in_flight_kind q) (in_flight_kind q),
                eq_refl (in_flight_hash_key q),
                get-remove in_flight key k,
              )
              (dropped (key == k) _ (Dict.get in_flight k) (h.flying k));
        scored = λ k.
            simp
              (
                laws.sets.zscore-delete lease_of (pending_zset_key q) (lease-zset q key),
                laws.sets.zscore-hdel (in_flight_hash_key q) (pending_zset_key q) (in_flight_kind q)
                    (zset_kind q),
              )
              (h.scored k);
        single = h.single;
        ranked =
            rw
              (
                laws.counters.counter-delete lease_of (sequence_key q) (lease-sequence q key),
                laws.counters.counter-hdel (in_flight_hash_key q) (sequence_key q)
                    (in_flight_kind q) (sequence_kind q),
              )
              h.ranked;
        sorted = h.sorted;
      }
