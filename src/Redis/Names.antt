-- ===== src/Redis/Names.antt =====
-- The keys of one queue on the server are different from each other.
use text.Mathlib.TextLemmas.{append_cancel_left, cons-append}
use Prim.Native.Char.{code}
use Prim.Native.Nat.{ℕ}
use earth2_sandbox.Prelude.{
  ◌≡◌, refl, ap, sym, ◌∙◌, String, arith, true, false, inl, inr, Bool-cases, ◌==◌, eq_iff, eq_refl,
}
use earth2_sandbox.Outcome.{◌⧺◌}
use earth2_sandbox.Redis.{
  RedisQueue, pending_hash_key, in_flight_hash_key, pending_zset_key, sequence_key, lease_key,
}
use earth2_sandbox.Redis.Laws.{kind_of, hash, sorted_set, counter, plain}

false-true : false ≡ true → ⊥
false-true h = cc

apart : (name s t : String) → (s == t) ≡ false → (name ⧺ s == name ⧺ t) ≡ false
apart name s t differ = elim (Bool-cases (name ⧺ s == name ⧺ t)) [
  | inl same ↦
      let equal = append_cancel_left name s t ((eq_iff (name ⧺ s) (name ⧺ t)).0 same) in
      absurd (false-true (sym differ ∙ (eq_iff s t).1 equal))
  | inr different ↦ different
]

-- the code of the character after the colon
second_code : String → ℕ
second_code (String.◌∷◌ c (String.◌∷◌ d t)) = code d
second_code _ = 0

second_code-lease : (key : String) → second_code (":lease:" ⧺ key) ≡ 108
unfolding second_code
second_code-lease key =
    ap second_code
      (cons-append ":" "lease:" key ∙ ap (λ s. String.◌∷◌ ":" s) (cons-append "l" "ease:" key))

-- A lease's key goes on as no other key does.
after_colon : (key t : String) → (second_code t ≡ 108 → ⊥) → (":lease:" ⧺ key == t) ≡ false
after_colon key t other = elim (Bool-cases (":lease:" ⧺ key == t)) [
  | inl same ↦
      absurd
        (other (ap second_code (sym ((eq_iff (":lease:" ⧺ key) t).0 same)) ∙ second_code-lease key))
  | inr different ↦ different
]

module _ (q : RedisQueue) where
  pub pending-in_flight : (pending_hash_key q == in_flight_hash_key q) ≡ false
  pending-in_flight = apart q.queue_name ":pending" ":in-flight" refl

  pub in_flight-pending : (in_flight_hash_key q == pending_hash_key q) ≡ false
  in_flight-pending = apart q.queue_name ":in-flight" ":pending" refl

  pub lease-pending : (key : String) → (lease_key q key == pending_hash_key q) ≡ false
  unfolding second_code
  lease-pending key =
      apart q.queue_name (":lease:" ⧺ key) ":pending" (after_colon key _ (λ h. omega (arith, h)))

  pub lease-in_flight : (key : String) → (lease_key q key == in_flight_hash_key q) ≡ false
  unfolding second_code
  lease-in_flight key =
      apart q.queue_name (":lease:" ⧺ key) ":in-flight" (after_colon key _ (λ h. omega (arith, h)))

  pub lease-zset : (key : String) → (lease_key q key == pending_zset_key q) ≡ false
  unfolding second_code
  lease-zset key =
      apart q.queue_name (":lease:" ⧺ key) ":pending:score"
        (after_colon key _ (λ h. omega (arith, h)))

  pub lease-sequence : (key : String) → (lease_key q key == sequence_key q) ≡ false
  unfolding second_code
  lease-sequence key =
      apart q.queue_name (":lease:" ⧺ key) ":sequence" (after_colon key _ (λ h. omega (arith, h)))

  -- The keys of a queue are of the kinds that its commands want.
  pub pending_kind : kind_of q (pending_hash_key q) ≡ hash
  pending_kind = rw (eq_refl (pending_hash_key q)) refl

  pub in_flight_kind : kind_of q (in_flight_hash_key q) ≡ hash
  in_flight_kind = rw (in_flight-pending, eq_refl (in_flight_hash_key q)) refl

  pub zset_kind : kind_of q (pending_zset_key q) ≡ sorted_set
  zset_kind =
      rw
        (
          apart q.queue_name ":pending:score" ":pending" refl,
          apart q.queue_name ":pending:score" ":in-flight" refl,
          eq_refl (pending_zset_key q),
        )
        refl

  pub sequence_kind : kind_of q (sequence_key q) ≡ counter
  sequence_kind =
      rw
        (
          apart q.queue_name ":sequence" ":pending" refl,
          apart q.queue_name ":sequence" ":in-flight" refl,
          apart q.queue_name ":sequence" ":pending:score" refl,
          eq_refl (sequence_key q),
        )
        refl

  pub lease_kind : (key : String) → kind_of q (lease_key q key) ≡ plain
  lease_kind key =
      rw (lease-pending key, lease-in_flight key, lease-zset key, lease-sequence key) refl
