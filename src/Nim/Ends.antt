-- ===== src/Nim/Ends.antt =====
-- What a call of the NIM client ends in, and what it has sent by then.
use earth2_sandbox.Prelude.{ℕ, ◌≡◌, refl, List, [], ◌∷◌, ◌++◌, length}
use earth2_sandbox.Nim.{
  Response, Sent, NimEnv, Failure, Outcome, done, failed, out_of_fuel, Fetched, response,
  http_error, invalid_url, Http, after, ◌>>=◌, fetched, send,
}

module _ {A : Type 0} where
  -- `P` of what is returned or `Q` of what is raised, with the requests sent; never out of fuel
  abbrev pub Ends :
      (A → List Sent → Type 0) → (Failure → List Sent → Type 0) → Outcome A → List Sent → Type 0
  Ends P Q (done a) sent = P a sent
  Ends P Q (failed e) sent = Q e sent
  Ends P Q out_of_fuel sent = ⊥

module _ {A : Type 0} (P : A → List Sent → Type 0) (Q : Failure → List Sent → Type 0) where
  abbrev pub Ensures : Http A → List Sent → Type 0
  Ensures m sent = Ends P Q (m sent).0 (m sent).1

module _ {A B : Type 0} (P : A → List Sent → Type 0) (R : B → List Sent → Type 0)
    (Q : Failure → List Sent → Type 0) where
  after-Ends :
      (o : Outcome A) (f : A → Http B) (sent : List Sent)
      → Ends P Q o sent
      → ((a : A) → P a sent → Ensures R Q (f a) sent)
      → Ends R Q (after o f sent).0 (after o f sent).1
  after-Ends (done a) f sent h rest = rest a h
  after-Ends (failed e) f sent h rest = h
  after-Ends out_of_fuel f sent h rest = elim h [ ]

  pub bind-Ensures :
      (m : Http A) (f : A → Http B) (sent : List Sent)
      → Ensures P Q m sent
      → ((a : A) (sent' : List Sent) → P a sent' → Ensures R Q (f a) sent')
      → Ensures R Q (m >>= f) sent
  bind-Ensures m f sent h rest = after-Ends (m sent).0 f (m sent).1 h (λ a. rest a (m sent).1)

-- httpx.InvalidURL comes out only where the network has raised it.
abbrev pub IsReported : NimEnv → Failure → Type 0
IsReported env (Failure.inference_error message diagnostics) = Unit
IsReported env (Failure.http_error type_name message) = Unit
IsReported env (Failure.invalid_url message) =
    (n : ℕ) × (request : Sent) × (env.transport n request ≡ Fetched.invalid_url message)

module _ (P : Response → List Sent → Type 0) (Q : Failure → List Sent → Type 0) (env : NimEnv)
    (request : Sent) (sent : List Sent) where
  fetched-Ends :
      (answer : Fetched)
      → env.transport (length sent) request ≡ answer
      → ((r : Response)
          → env.transport (length sent) request ≡ response r
          → P r (sent ++ request ∷ []))
      → ((e : Failure) → IsReported env e → Q e (sent ++ request ∷ []))
      → Ends P Q (fetched answer) (sent ++ request ∷ [])
  fetched-Ends (response r) e h k = h r e
  fetched-Ends (http_error type_name message) e h k = k (Failure.http_error type_name message) tt
  fetched-Ends (invalid_url message) e h k =
      k (Failure.invalid_url message) (length sent, request, e)

  pub send-Ensures :
      ((r : Response)
        → env.transport (length sent) request ≡ response r
        → P r (sent ++ request ∷ []))
      → ((e : Failure) → IsReported env e → Q e (sent ++ request ∷ []))
      → Ensures P Q (send env request) sent
  unfolding send
  send-Ensures = fetched-Ends (env.transport (length sent) request) refl
