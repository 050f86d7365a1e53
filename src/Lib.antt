-- ===== src/Lib.antt =====
-- earth2-sandbox: the forecast jobs of a weather service, and what keeps them correct.
--
-- The program takes a point on the map, keeps a forecast job for it, runs a forecast provider for the
-- job in the background, and lets clients poll, cancel, retry and clean up. Its parts, and the
-- files that model them:
--
--   Domain/         src/earth2_sandbox/domain/jobs: statuses, priorities, policies, and the value
--                   objects of entities.py. Uuid is `str(UUID(value))` of the standard library,
--                   character by character. A datetime is a number of microseconds, a finite
--                   float a number of millionths: the job code compares them and does not compute
--                   with floats.
--   Outcome         application/errors.py, and the exceptions that the job code can meet.
--   Jobs, Jobs/     schemas/jobs.py, schemas/forecast.py, application/services/forecast_job_view.py.
--                   Lifecycle is the life of a job as a step relation, Wellformed what a stored job
--                   promises for each status.
--   World           the process: the job table, and how often the clock, the identifier generator
--                   and the provider have been asked. Their answers are an `Env`, a parameter of
--                   every theorem, and any stream of answers will do.
--   Store/          infrastructure/storage: job_store_helpers.py and memory_job_store.py. A method
--                   holds the store's lock while it touches the table, so it is one action.
--   Store/Files     infrastructure/storage/file_job_store.py, over a directory of texts. Holding says
--                   when such a directory holds a table, Agreement and Listing that each method then
--                   answers as the in-memory store does, Equivalence that all calls do, and Crash what
--                   is left of a write that stops.
--   Tasks, Tasks/   what a coroutine does between two calls of a port (application/ports): a tree of
--                   calls. `run` makes the calls one after the other; Pool lets any number of
--                   tasks take turns call by call, in any order. That is every order in which an
--                   event loop can run them, and more: a call that does not suspend gives up no turn.
--   Commands/       application/commands, one file per command, and beside each its outcome when
--                   nothing interrupts it. Safe shows that each command respects the life of a job
--                   whatever the store answers.
--   Queries         application/queries.
--   Recovery        application/services/forecast_job_recovery_service.py. Rounds is one round of its
--                   loop, Scan what it scans.
--   Service         services/jobs.py, the requests that the facade serves.
--   Routes          api/http/v1/routers/forecast_jobs.py, on the commands and queries: what a request
--                   must be to fit, and the status code of the response.
--   Queue, Queue/   infrastructure/queue/in_memory_priority_queue.py. Line is what it promises,
--                   and Refinement and Calls show that it keeps the promise. Worker is the loop of
--                   infrastructure/queue/asyncio_worker.py that drains it, alone with its queue.
--   Redis, Redis/   infrastructure/queue/redis_queue.py on a server that is a parameter, as JSON is.
--                   Laws is what is relied on of both: a key holds values of one kind, and a command
--                   is of the kind of its key. Names shows that each key of the queue has its kind,
--                   Refinement and Dequeue that the server holds the same Line as Queue's,
--                   and Equivalence that both queues answer alike.
--   Metrics         observability/metrics.py: Counts is what the registry counts, Escape how a reader of
--                   the text gets the labels back. The sum and the text of durations are parameters.
--   Limiter         the rate limiter of api/http/middleware/security.py.
--   Access, Access/ the middleware of that file that asks for keys and uses the limiter. `strip`,
--                   `split` and `upper` are parameters, and the settings are those that it reads.
--   Nim, Nim/       infrastructure/nvidia/nim_client.py. The network is a function from the requests in
--                   their order to responses or errors of httpx; the requests that httpx makes to
--                   follow the redirects of a download belong to its answer. Polls is the poll
--                   loop, Delivery the whole inference, Waiting and Patience a server that answers
--                   with 202.
--   Artifacts       infrastructure/storage/local_artifact_store.py over the files of a directory, and
--                   Artifacts/Cache storage/fourcastnet.py, the result cache on it.
--   Fourcastnet     infrastructure/nvidia/fourcastnet_provider.py, on the client and the cache, with
--                   those parts of fourcastnet_decoder.py that do not open an archive.
--   Decoder         what fourcastnet_decoder.py makes of an opened archive: Decoder/Archive its members,
--                   Decoder/Selection the choice among them. The arrays are a parameter.
--   Prelude         lists, dictionaries with text keys, decimal numbers.
--   Tests           concrete runs.
--
-- The commands, the recovery and the queries use the store through the tasks' calls only. The queue
-- does not know the jobs: a worker hands their identifiers over. The provider uses the client and the
-- cache; the jobs see of a provider its answers only, and any answers will do.
--
-- Loops are by recursion on a list or on a task. The loop that drains the queue and the poll loop of
-- the client have fuel, a number of rounds: one more than the items that wait is enough for the one,
-- and `max_poll_attempts + 1` for the other. The retention and the
-- timeout are natural numbers, and a subtraction that passes the start of the calendar is an error,
-- as in `datetime`. `limit` of a listing is not negative.
--
-- httpx, SHA-256, JSON, the order in which a directory is listed, what tarfile and numpy make of an
-- archive, and the text of a datetime are parameters. The sleep between two polls and the timeouts are
-- left out: a timeout is an error of the network. JSON need not keep the order of keys.
--
-- Not modelled: errors of the disk and other processes in a job directory; `clear` and `close` of the
-- Redis queue and the set-up of its client, and other clients between the commands of one call; the
-- hooks that schedule the queue workers; the sampling of an array and the timeline, headline and
-- signals that the decoder makes of the samples, which the reading of an archive stands for, a
-- parameter that may return a summary or raise any exception; the mock provider; the other routes, the
-- middleware that measures and tags requests, and the other settings; log lines.
-- A dictionary of diagnostics is what the response schema makes of it, which may be a ValidationError,
-- and its message.
pub mod Prelude
pub mod Outcome
pub mod Domain
pub mod Jobs
pub mod World
pub mod Store
pub mod Tasks
pub mod Commands
pub mod Queries
pub mod Recovery
pub mod Queue
pub mod Limiter
pub mod Metrics
pub mod Access
pub mod Artifacts
pub mod Fourcastnet
pub mod Nim
pub mod Redis
pub mod Service
pub mod Routes
pub mod Decoder
mod Tests
