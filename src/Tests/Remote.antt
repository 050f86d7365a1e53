-- ===== src/Tests/Remote.antt =====
-- The Redis queue on the small server.
use earth2_sandbox.Prelude.{◌≡◌, refl, none, List, [], ◌∷◌, map, arith}
use earth2_sandbox.Prelude.Dict
use earth2_sandbox.Domain.Priority.{low, high}
use earth2_sandbox.Outcome.{ok}
use earth2_sandbox.Queue.{empty_queue}
use earth2_sandbox.Queue.Line.{Line}
use earth2_sandbox.Queue.Calls
use earth2_sandbox.Queue.Calls.{Call, to_enqueue, to_dequeue, calls_line}
use earth2_sandbox.Redis.{RedisQueue}
use earth2_sandbox.Redis.Refinement.{IsQueue}
use earth2_sandbox.Redis.Calls.{calls, Holds, calls-Holds}
use earth2_sandbox.Redis.Equivalence.{calls-equivalent}
use earth2_sandbox.Tests.Server.{Server, server, server-RedisLaws, json, json-JsonLaw}

abbrev queue : RedisQueue
queue = record { queue_name = "jobs"; visibility_timeout_seconds = 300 }

abbrev fresh : Server
fresh = record { hashes = λ h f. none; sets = λ z. []; counters = λ k. 0 }

abbrev nothing : Line
nothing = record { waiting = []; in_flight = [] }

fresh-IsQueue : IsQueue server queue (server-RedisLaws queue) json json-JsonLaw [] [] fresh
unfolding Dict.get
fresh-IsQueue = record {
  pending = λ key. refl;
  flying = λ key. refl;
  scored = λ key. refl;
  single = tt;
  ranked = tt;
  sorted = tt;
}

abbrev some_calls : List Call
some_calls =
    to_enqueue "later" low none
    ∷ to_enqueue "now" high none
    ∷ to_enqueue "now" low none
    ∷ to_dequeue
    ∷ []

calls-Holds_example :
    ((calls server json queue some_calls fresh).0 ≡ map ok (calls_line some_calls nothing).0)
    × Holds server queue
        (server-RedisLaws queue)
        json
        json-JsonLaw
        (calls server json queue some_calls fresh).1
        (calls_line some_calls nothing).1
calls-Holds_example =
    calls-Holds server queue (server-RedisLaws queue) json json-JsonLaw some_calls fresh nothing
      ([], refl, fresh-IsQueue) (omega arith)

calls-equivalent_example :
    (calls server json queue some_calls fresh).0 ≡ map ok (Calls.calls some_calls empty_queue).0
calls-equivalent_example =
    calls-equivalent server queue (server-RedisLaws queue) json json-JsonLaw some_calls fresh
      fresh-IsQueue (omega arith)
