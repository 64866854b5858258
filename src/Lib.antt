-- ===== src/Lib.antt =====
-- Relay, a webhook delivery service: the API accepts events and fans them out into deliveries, Redis
-- streams carry the deliveries to workers, a worker takes each through its gates, posts it, and
-- records the outcome; failed and gated deliveries wait on the retry queue, from which the scheduler
-- moves them back to the streams. An agent diagnoses endpoints whose breaker opens.
--
-- State. Every process shares Redis and Postgres. The rows and keys of one deployment are the record
-- `World` (Services): tables of rows, and each family of Redis keys as a function of its identifier.
-- Redis and Postgres are not code of the repository: their commands are parameters (`SortedSets` and
-- `Queues` of Redis, `Table` of Db) with the documented laws, and Redis/Concrete, Redis/Sequence and
-- Db/Concrete implement the laws by lists. A Lua script runs atomically in Redis and is one function.
-- Identifiers are UUIDs as numbers, texts are lists of code points, times are milliseconds.
--
-- Which file models what:
--   Base           shared names, Boolean tests on the native numbers, lists
--   Redis          the commands of Redis with their laws; keys that expire
--   RateLimit      relay/delivery/rate_limit.py: Bucket is TOKEN_BUCKET_LUA and take_token, Slots is
--                  ACQUIRE_SLOT_LUA, acquire_slot, release_slot, inflight_count
--   Ordering       relay/delivery/ordering.py: acquire_lock, release_lock, enqueue_ordered, peek_head,
--                  pop_head
--   Retry          relay/delivery/retry.py: next_delay_seconds and what it uses
--   RetryQueue     relay/delivery/retry_queue.py and enqueue.py: the members' encoding, schedule_retry,
--                  MOVE_DUE_LUA, enqueue_delivery
--   Breaker        relay/delivery/circuit_breaker.py: RECORD_OUTCOME_LUA, ALLOW_REQUEST_LUA and their
--                  callers
--   Sender         relay/delivery/sender.py: send_delivery from the outcome of the POST; Headers
--                  has build_headers
--   Db             relay/db/models.py: the rows
--   Schema         the tables: Tables and Revisions are alembic/versions, Models is relay/db/models.py;
--                  Catalogue is what Postgres is relied on for, an interface that Schema/Tests fills
--   Services       the world of a deployment
--   Worker         relay/delivery/worker.py: process_delivery; Worker/Gates has check_gates,
--                  deliver_with_gates and handle_message; Worker/Loop has reclaim_stale and consume_shard,
--                  Worker/Supervisor has supervise_shards;
--                  Worker/Monad has the calls of services
--   Scheduler      relay/delivery/retry_scheduler.py: poll_once; Scheduler/Gauges has refresh_gauges with
--                  the gauges of relay/metrics.py, Scheduler/Runner the loop of run_scheduler
--   Signing        relay/signing.py
--   Api            relay/api: Auth is auth.py, Events, Dlq, Diagnoses, Endpoints and Tenants are the
--                  handlers of routes/events.py, dlq.py, diagnoses.py, endpoints.py and tenants.py
--                  that change state, Listings those that read, App is main.py
--   Agent          relay/agent: Trigger and Trigger/Listener are trigger.py, Llm and LangChain are
--                  llm.py, Tools, Findings and Statistics are tools.py, State, Loop and Graph are
--                  graph.py, Prompts is prompts.py; Chat has the shapes that they share
--   Flaky          flaky_endpoint/main.py: the simulator and reference receiver
--   Tests modules  runs at concrete inputs
--
-- Concurrency. What several workers do to one key is a sequence of atomic steps (BreakerOp, SlotOp,
-- LockOp) with theorems over every sequence. The worker's run is stated for one worker, with its
-- calls of services failing at any point: `faults` says which, and after a failed call the exception
-- takes the way that it takes in the code. A call fails before it has an effect; a call whose effect
-- is done and whose answer is lost is not modelled. `Returns` states what holds if a run returns and
-- what holds if it raises. The loops of the code run over lists, those that read the streams over
-- lists of rounds and that of the agent's trigger over lists of subscriptions with what each brings;
-- only two run on fuel: the scheduler's burst, for which one more than the members of the queue is
-- enough, and the agent's tool loop, for which its cap on the calls of tools is enough; the loop is
-- given twice that, so that it is the code's own test that ends it. The expiry of a token bucket's key is
-- read by the caller's clock, where EXPIRE counts on the server's own.
--
-- The agent. A run is an action on the world, the session of the model's client and the agent's
-- state; the trigger (Agent/Trigger/Listener) starts it once its claim of the budgets is granted.
-- The client is an interface (Chat.Client), which the adapter of Llm fills, and which may answer
-- anything.
--
-- Fractions. Tokens are thousandths, so that refill and spending are exact on whole milliseconds; the
-- jitter factor is a number of thousandths. The code's floats round where these do not.
--
-- Not modelled: the creation of the consumers' groups and the start of the processes, the deletion of an
-- endpoint, the engine of the database, the application's wiring, the scripts, and logging.
pub mod Agent
pub mod Api
pub mod Base
pub mod Breaker
pub mod Db
pub mod Flaky
pub mod Ordering
pub mod RateLimit
pub mod Redis
pub mod Retry
pub mod RetryQueue
pub mod Scheduler
pub mod Schema
pub mod Sender
pub mod Services
pub mod Signing
pub mod Worker
