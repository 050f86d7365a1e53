-- ===== src/Redis/Equivalence.antt =====
-- The two queues of the program give the same answers.
use earth2_sandbox.Prelude.{◌+◌, ◌<◌, ◌≡◌, refl, ap, sym, ◌∙◌, List, [], map, length}
use earth2_sandbox.Outcome.{ok}
use earth2_sandbox.Queue.{empty_queue}
use earth2_sandbox.Queue.Calls
use earth2_sandbox.Queue.Calls.{Call, calls-Refines}
use earth2_sandbox.Redis.{Redis, Json, RedisQueue, score_factor}
use earth2_sandbox.Redis.Laws.{RedisLaws, JsonLaw}
use earth2_sandbox.Redis.Refinement.{IsQueue}
use earth2_sandbox.Redis.Calls.{calls, used, calls-Holds}

module _ {S T : Type 0} (redis : Redis S T) (q : RedisQueue) (laws : RedisLaws q redis)
    (json : Json T) (reads : JsonLaw json) where
  -- On a server that keeps the laws and holds the empty line, with JSON that keeps values, while the
  -- calls leave the sequence number below 10 ^ 12 and no other client comes between: any calls of the
  -- Redis queue return what the same calls of a new in-memory queue return.
  pub calls-equivalent :
      (cs : List Call) (s : S)
      → IsQueue redis q laws json reads [] [] s
      → used redis q laws json reads s + length cs < score_factor
      → (calls redis json q cs s).0 ≡ map ok (Calls.calls cs empty_queue).0
  calls-equivalent cs s h few =
      (calls-Holds redis q laws json reads cs s (record { waiting = []; in_flight = [] })
        ([], refl, h) few).0
      ∙ ap (map ok) (sym (calls-Refines cs).0)
