-- ===== src/Tests/Requests.antt =====
-- Requests to the routes of the jobs, at the sample process.
use earth2_sandbox.Prelude.{◌≡◌, refl, arith}
use earth2_sandbox.Prelude.Dict
use earth2_sandbox.Domain.Uuid.{parse_uuid}
use earth2_sandbox.Routes.Requests.{cancel, retry, handle, documented_status, handed_over}
use earth2_sandbox.Routes.Statuses.{handle-Documented}
use earth2_sandbox.Tests.Samples.{env, world, world-IsConsistent, made_id, made_id-made, over_id}

retry_is_accepted : documented_status (retry over_id) world ≡ 202
unfolding parse_uuid Dict.get
retry_is_accepted = refl

cancel_is_refused : documented_status (cancel over_id) world ≡ 409
unfolding parse_uuid Dict.get
cancel_is_refused = refl

handle-Documented_example :
    ((handle env 168 (retry over_id) world).0 ≡ documented_status (retry over_id) world)
    × ((handle env 168 (retry over_id) world).1.enqueued
        ≡ handed_over (documented_status (retry over_id) world) made_id world.enqueued)
handle-Documented_example =
    handle-Documented env 168 (retry over_id) world made_id world-IsConsistent made_id-made
      (omega arith) (omega arith)
