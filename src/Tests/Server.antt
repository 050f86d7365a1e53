-- ===== src/Tests/Server.antt =====
-- A small Redis server in memory that keeps the laws, and a queue on it.
use earth2_sandbox.Prelude.{
  ℕ, suc, ◌≤◌, ◌≡◌, ◌⊎◌, refl, ap, sym, subst, ◌∙◌, String, Bool, true, false, ◌&&◌, Option, none,
  some, [], ◌∷◌, inl, inr, Bool-cases, Option-cases, leb, ◌==◌, eq_iff, eq_refl, if◌then◌else◌,
  arith,
}
use earth2_sandbox.Prelude.Dict
use earth2_sandbox.Prelude.Dict.{Dict, get-put, get-remove}
use earth2_sandbox.Redis.{Redis, Json, RedisQueue}
use earth2_sandbox.Redis.Laws.{RedisLaws, JsonLaw}

-- JSON texts are the objects themselves here.
abbrev pub Text : Type 0
Text = Dict (Option String)

pub record Server : Type 0 where
  pub hashes : String → String → Option Text
  pub sets : String → Dict ℕ
  pub counters : String → ℕ

abbrev score_in : Dict ℕ → String → ℕ
score_in d k = elim (Dict.get d k) [ some n ↦ n | none ↦ 0 ]

-- `k`, or a key before it whose score is smaller
abbrev pub better : Dict ℕ → String → Option String → String
better d k none = k
better d k (some m) = if leb (score_in d k) (score_in d m) then k else m

-- a key of `rest` with the smallest score that `d` has for it
unfoldable pub least : Dict ℕ → Dict ℕ → Option String
least d [] = none
least d ((k, n) ∷ rest) = some (better d k (least d rest))

abbrev pub server : Redis Server Text
server = record {
  hget = λ h f s. s.hashes h f;
  hset = λ h f v s. record s {
    hashes = λ h' f'. if h == h' && f == f' then some v else s.hashes h' f';
  };
  hdel =
      λ h f s. record s { hashes = λ h' f'. if h == h' && f == f' then none else s.hashes h' f' };
  hlen = λ h s. 0;
  zadd =
      λ z n m s. record s { sets = λ z'. if z == z' then Dict.put (s.sets z') m n else s.sets z' };
  zrem =
      λ z m s. record s { sets = λ z'. if z == z' then Dict.remove (s.sets z') m else s.sets z' };
  zfirst = λ z s. least (s.sets z) (s.sets z);
  zscore = λ z m s. Dict.get (s.sets z) m;
  counter = λ k s. s.counters k;
  incr =
      λ k s. record s { counters = λ k'. if k == k' then suc (s.counters k') else s.counters k' };
  set_expiring = λ k v n s. s;
  delete = λ k s. s;
}

some-inj : {A : Type 0} (x y : A) → some x ≡ some y → x ≡ y
some-inj x y h = cc

none-some : {A : Type 0} (x : A) → none ≡ some x → ⊥
none-some x h = cc

better-cases :
    (d : Dict ℕ) (k : String) (o : Option String)
    → (better d k o ≡ k) ⊎ ((m : String) × (o ≡ some m) × (better d k o ≡ m))
better-cases d k none = inl refl
better-cases d k (some m) = elim (Bool-cases (leb (score_in d k) (score_in d m))) [
  | inl first ↦ inl (rw first refl)
  | inr other ↦ inr (m, refl, rw other refl)
]

least-some :
    (d rest : Dict ℕ) (m : String) → least d rest ≡ some m → (n : ℕ) × (Dict.get rest m ≡ some n)
unfolding least Dict.get
least-some d [] m h = absurd (none-some m h)
least-some d ((k, n) ∷ rest) m h = elim (Bool-cases (k == m)) [
  | inl same ↦ (n, rw same refl)
  | inr differs ↦ elim (better-cases d k (least d rest)) [
    | inl first ↦
        absurd (none-some tt (ground (arith, differs, eq_iff k m, sym first ∙ some-inj _ m h)))
    | inr (m', found, best) ↦
        rw differs (least-some d rest m (found ∙ ap some (sym best ∙ some-inj _ m h)))
  ]
]

better-le :
    (d : Dict ℕ) (k : String) (o : Option String)
    → (score_in d (better d k o) ≤ score_in d k)
      × ((m : String) → o ≡ some m → score_in d (better d k o) ≤ score_in d m)
better-le d k none = (omega arith, λ m e. absurd (none-some m e))
better-le d k (some j) = elim (Bool-cases (leb (score_in d k) (score_in d j))) [
  | inl first ↦ rw first (omega arith, λ m e. rw⁻¹ (some-inj j m e) (ground arith))
  | inr other ↦ rw other (ground arith, λ m e. rw⁻¹ (some-inj j m e) (omega arith))
]

least-none : (d rest : Dict ℕ) (m : String) → least d rest ≡ none → Dict.get rest m ≡ none
unfolding least Dict.get
least-none d [] m h = refl
least-none d ((k, n) ∷ rest) m h = absurd (none-some _ (sym h))

least-le :
    (d rest : Dict ℕ) (m m' : String) (n : ℕ)
    → least d rest ≡ some m
    → Dict.get rest m' ≡ some n
    → score_in d m ≤ score_in d m'
unfolding least Dict.get
least-le d [] m m' n h k = absurd (none-some m h)
least-le d ((j, v) ∷ rest) m m' n h k =
    subst (λ x. score_in d x ≤ score_in d m') (some-inj _ m h)
      (elim (Bool-cases (j == m')) [
        | inl same ↦
            subst (λ x. score_in d (better d j (least d rest)) ≤ score_in d x)
              ((eq_iff j m').0 same) (better-le d j (least d rest)).0
        | inr differs ↦
            let later : Dict.get rest m' ≡ some n =
              ap (λ b. if b then some v else Dict.get rest m') (sym differs) ∙ k in
            elim (Option-cases (least d rest)) [
              | inl nothing ↦ absurd (none-some n (sym (least-none d rest m' nothing) ∙ later))
              | inr (i, found) ↦ omega (
                arith,
                (better-le d j (least d rest)).1 i found,
                least-le d rest i m' n found later,
              )
            ]
      ])

abbrev set_in : Bool → Dict ℕ → Dict ℕ → Dict ℕ
set_in b d d' = if b then d else d'

put-if :
    (b : Bool) (d : Dict ℕ) (m m' : String) (n : ℕ)
    → Dict.get (set_in b (Dict.put d m n) d) m' ≡ (if b && m == m' then some n else Dict.get d m')
put-if true d m m' n = get-put d m n m'
put-if false d m m' n = refl

remove-if :
    (b : Bool) (d : Dict ℕ) (m m' : String)
    → Dict.get (set_in b (Dict.remove d m) d) m' ≡ (if b && m == m' then none else Dict.get d m')
remove-if true d m m' = get-remove d m m'
remove-if false d m m' = refl

score_in-some : (d : Dict ℕ) (m : String) (n : ℕ) → Dict.get d m ≡ some n → score_in d m ≡ n
score_in-some d m n e = rw (e, score_in) refl

first_some :
    (d : Dict ℕ) (m : String)
    → least d d ≡ some m
    → (n : ℕ) × (Dict.get d m ≡ some n)
      × ((m' : String) (n' : ℕ) → Dict.get d m' ≡ some n' → n ≤ n')
first_some d m e =
    let (n, found) = least-some d d m e in
    (
      n,
      found,
      λ m' n' there. omega (
        arith,
        least-le d d m m' n' e there,
        score_in-some d m n found,
        score_in-some d m' n' there,
      ),
    )

pub server-RedisLaws : (q : RedisQueue) → RedisLaws q server
server-RedisLaws q = record {
  hashes = record {
    hget-hset = λ h h' k k' f v f' s. refl;
    hget-hdel = λ h h' k k' f f' s. refl;
    hget-zadd = λ z h k k' n m f s. refl;
    hget-zrem = λ z h k k' m f s. refl;
    hget-incr = λ c h k k' f s. refl;
    hget-set_expiring = λ e h k k' v n f s. refl;
    hget-delete = λ k h e f s. refl;
  };
  sets = record {
    zscore-zadd = λ z z' k k' n m m' s e. put-if (z == z') (s.sets z') m m' n;
    zscore-zrem = λ z z' k k' m m' s. remove-if (z == z') (s.sets z') m m';
    zscore-hset = λ h z k k' f v m s. refl;
    zscore-hdel = λ h z k k' f m s. refl;
    zscore-incr = λ c z k k' m s. refl;
    zscore-set_expiring = λ e z k k' v n m s. refl;
    zscore-delete = λ k z e m s. refl;
    zfirst_none = λ z k m s e. least-none (s.sets z) (s.sets z) m e;
    zfirst_some = λ z k m s e. first_some (s.sets z) m e;
  };
  counters = record {
    counter-incr = λ c k s. rw (eq_refl c) refl;
    counter-hset = λ h c k k' f v s. refl;
    counter-hdel = λ h c k k' f s. refl;
    counter-zadd = λ z c k k' n m s. refl;
    counter-zrem = λ z c k k' m s. refl;
    counter-set_expiring = λ e c k k' v n s. refl;
    counter-delete = λ k c e s. refl;
  };
}

abbrev pub json : Json Text
json = record { dumps = λ d. d; loads = λ d. d }

pub json-JsonLaw : JsonLaw json
json-JsonLaw d key = refl
