-- ===== src/Redis/Laws.antt =====
-- What the adapter relies on of the Redis server and of JSON, as their documentation has it. Sorted
-- sets keep scores as doubles, which are exact up to 2 ^ 53.
use earth2_sandbox.Prelude.{
  ℕ, suc, ◌≤◌, ◌≡◌, String, false, ◌&&◌, Option, none, some, ◌==◌, if◌then◌else◌,
}
use earth2_sandbox.Prelude.Dict
use earth2_sandbox.Prelude.Dict.{Dict}
use earth2_sandbox.Redis.{
  Redis, Json, RedisQueue, pending_hash_key, in_flight_hash_key, pending_zset_key, sequence_key,
}

abbrev pub exact : ℕ
exact = 9_007_199_254_740_992

-- A key of a server holds values of one kind. A command of another kind fails with WRONGTYPE.
pub data Kind : Type 0 where
  hash sorted_set counter plain : Kind

-- the kinds of a queue's keys, and texts under all others
abbrev pub kind_of : RedisQueue → String → Kind
kind_of q k =
    if k == pending_hash_key q
    then hash
    else if k == in_flight_hash_key q
    then hash
    else if k == pending_zset_key q
    then sorted_set
    else if k == sequence_key q
    then counter
    else plain

-- The states of the server are those in which every key holds a value of its kind, or nothing. The laws
-- are about commands of the kind of their key, which keep to these states.
module _ {S T : Type 0} (q : RedisQueue) where
  pub record HashLaws (r : Redis S T) : Type 0 where
    pub hget-hset :
        (h h' : String)
        → kind_of q h ≡ hash
        → kind_of q h' ≡ hash
        → (f : String) (v : T) (f' : String) (s : S)
        → r.hget h' f' (r.hset h f v s) ≡ (if h == h' && f == f' then some v else r.hget h' f' s)
    pub hget-hdel :
        (h h' : String)
        → kind_of q h ≡ hash
        → kind_of q h' ≡ hash
        → (f f' : String) (s : S)
        → r.hget h' f' (r.hdel h f s) ≡ (if h == h' && f == f' then none else r.hget h' f' s)
    pub hget-zadd :
        (z h : String)
        → kind_of q z ≡ sorted_set
        → kind_of q h ≡ hash
        → (n : ℕ) (m f : String) (s : S) → r.hget h f (r.zadd z n m s) ≡ r.hget h f s
    pub hget-zrem :
        (z h : String)
        → kind_of q z ≡ sorted_set
        → kind_of q h ≡ hash
        → (m f : String) (s : S) → r.hget h f (r.zrem z m s) ≡ r.hget h f s
    pub hget-incr :
        (k h : String)
        → kind_of q k ≡ counter
        → kind_of q h ≡ hash
        → (f : String) (s : S) → r.hget h f (r.incr k s) ≡ r.hget h f s
    pub hget-set_expiring :
        (k h : String)
        → kind_of q k ≡ plain
        → kind_of q h ≡ hash
        → (v : String) (n : ℕ) (f : String) (s : S)
        → r.hget h f (r.set_expiring k v n s) ≡ r.hget h f s
    pub hget-delete :
        (k h : String)
        → (k == h) ≡ false
        → (f : String) (s : S) → r.hget h f (r.delete k s) ≡ r.hget h f s

  pub record SetLaws (r : Redis S T) : Type 0 where
    pub zscore-zadd :
        (z z' : String)
        → kind_of q z ≡ sorted_set
        → kind_of q z' ≡ sorted_set
        → (n : ℕ) (m m' : String) (s : S) → n ≤ exact
        → r.zscore z' m' (r.zadd z n m s)
          ≡ (if z == z' && m == m' then some n else r.zscore z' m' s)
    pub zscore-zrem :
        (z z' : String)
        → kind_of q z ≡ sorted_set
        → kind_of q z' ≡ sorted_set
        → (m m' : String) (s : S)
        → r.zscore z' m' (r.zrem z m s) ≡ (if z == z' && m == m' then none else r.zscore z' m' s)
    pub zscore-hset :
        (h z : String)
        → kind_of q h ≡ hash
        → kind_of q z ≡ sorted_set
        → (f : String) (v : T) (m : String) (s : S) → r.zscore z m (r.hset h f v s) ≡ r.zscore z m s
    pub zscore-hdel :
        (h z : String)
        → kind_of q h ≡ hash
        → kind_of q z ≡ sorted_set
        → (f m : String) (s : S) → r.zscore z m (r.hdel h f s) ≡ r.zscore z m s
    pub zscore-incr :
        (k z : String)
        → kind_of q k ≡ counter
        → kind_of q z ≡ sorted_set
        → (m : String) (s : S) → r.zscore z m (r.incr k s) ≡ r.zscore z m s
    pub zscore-set_expiring :
        (k z : String)
        → kind_of q k ≡ plain
        → kind_of q z ≡ sorted_set
        → (v : String) (n : ℕ) (m : String) (s : S)
        → r.zscore z m (r.set_expiring k v n s) ≡ r.zscore z m s
    pub zscore-delete :
        (k z : String)
        → (k == z) ≡ false
        → (m : String) (s : S) → r.zscore z m (r.delete k s) ≡ r.zscore z m s
    -- the first member has the smallest score
    pub zfirst_none :
        (z : String)
        → kind_of q z ≡ sorted_set
        → (m : String) (s : S) → r.zfirst z s ≡ none
        → r.zscore z m s ≡ none
    pub zfirst_some :
        (z : String)
        → kind_of q z ≡ sorted_set
        → (m : String) (s : S) → r.zfirst z s ≡ some m
        → (n : ℕ) × (r.zscore z m s ≡ some n)
          × ((m' : String) (n' : ℕ) → r.zscore z m' s ≡ some n' → n ≤ n')

  pub record CounterLaws (r : Redis S T) : Type 0 where
    pub counter-incr :
        (k : String)
        → kind_of q k ≡ counter
        → (s : S) → r.counter k (r.incr k s) ≡ suc (r.counter k s)
    pub counter-hset :
        (h k : String)
        → kind_of q h ≡ hash
        → kind_of q k ≡ counter
        → (f : String) (v : T) (s : S) → r.counter k (r.hset h f v s) ≡ r.counter k s
    pub counter-hdel :
        (h k : String)
        → kind_of q h ≡ hash
        → kind_of q k ≡ counter
        → (f : String) (s : S) → r.counter k (r.hdel h f s) ≡ r.counter k s
    pub counter-zadd :
        (z k : String)
        → kind_of q z ≡ sorted_set
        → kind_of q k ≡ counter
        → (n : ℕ) (m : String) (s : S) → r.counter k (r.zadd z n m s) ≡ r.counter k s
    pub counter-zrem :
        (z k : String)
        → kind_of q z ≡ sorted_set
        → kind_of q k ≡ counter
        → (m : String) (s : S) → r.counter k (r.zrem z m s) ≡ r.counter k s
    pub counter-set_expiring :
        (k' k : String)
        → kind_of q k' ≡ plain
        → kind_of q k ≡ counter
        → (v : String) (n : ℕ) (s : S) → r.counter k (r.set_expiring k' v n s) ≡ r.counter k s
    pub counter-delete :
        (k' k : String) → (k' == k) ≡ false → (s : S) → r.counter k (r.delete k' s) ≡ r.counter k s

  pub record RedisLaws (r : Redis S T) : Type 0 where
    pub hashes : HashLaws r
    pub sets : SetLaws r
    pub counters : CounterLaws r

-- An object that is printed and read again has its values.
abbrev pub JsonLaw : {T : Type 0} → Json T → Type 0
JsonLaw json =
    (d : Dict (Option String)) (key : String)
    → Dict.get (json.loads (json.dumps d)) key ≡ Dict.get d key
