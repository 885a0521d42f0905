-- ===== src/Lib.antt =====
-- Verification library of Tenjin: an authorization server, a resource server, and the workers that
-- apply the resource server's events to PostgreSQL and Redis.
--
-- How the parts interact. The resource server answers a request that changes a resource by streaming an
-- event to Redis (resource_auxillary/src/resource_auxillary/events.py). Workers read the streams, drop
-- the events that were processed before, insert the rest into the database, and then settle the batch:
-- one Redis transaction acknowledges it and emits its side effects, or moves it to the dead letter
-- stream. Each call of a server is retried with exponential backoff. The authorization server signs
-- tokens with keys that its workers exchange through a synced store.
--
-- The files, and what they model (RA is resource_auxillary/src/resource_auxillary, RW is
-- resource_database_workers/src/resource_database_workers, AS is auth_server/src/auth_server):
--   Common     texts, lists, dicts, results, and awaited calls (`Action W A`: a function of the world
--              that returns a result or an exception, and the world afterwards); Keeps is the predicate
--              on calls that leave a property of the world as it is
--   Events     RA/events.py and RA/strings.py: events, their encoding (Encoding), the number that a
--              stream ID is turned into (Ids), decoding (Decode)
--   Retry      RA/event_processing/qos.py and db_qos.py (execute_with_redis_retries,
--              db_execute_with_retries), RA/coordination.py; Rules, Attempts and Backoff are proofs
--   Pipeline   RA/event_processing/post_processing.py (the transactions), and in Settle wrappers.py and
--              dlq_aware_process_events; Ran, Commit, DeadLetter, Collect and
--              Acks are proofs
--   Batch      RA/event_processing/pre_processing.py: trim_duplicate_events, and in Populate
--              populate_events_batch_from_queue; Trim is proofs
--   Insertion  RW/tasks/insertions.py, and in Payloads RA/datastructures; Bisection, Association and
--              Strong are proofs;
--              Dedup is the deduplication of RA/event_processing/db_qos.py, with a proof
--   Dispatch   RW/tasks/stream_readers.py; Partition is proofs
--   Consumers  RW/tasks/consumer.py: queue_insertion_consumer, in Deletions the consumers of deletions,
--              in Decrements the consumer that lowers counters page by page, with what a deletion
--              leaves to do (Downstream); Settled and DecrementLaws are proofs
--   Counters   RW/tasks/counters.py and RW/utils/strings.py (Names): the counters of Redis are moved to
--              the database, in Flush one group and one round; Loss is proofs
--   Tokens     AS/security: Keys (key_container.py and the key mapping), Polling (poll_store), Families
--              (the lists of refresh tokens), Issue (token_manager.py's tokens); PollingLaws, Replay are proofs
--   Cache      resource_server/src/resource_server/cache_manager.py: distributed_get_or_load and what it
--              calls, in Pages a cached page, and in Guard the lock and the intent around an action of a
--              user; Leader, Once, PageLaws, GuardLaws and GuardKeeps are proofs
--   Jwks       resource_server/src/resource_server/key_manager.py: the mapping of verification keys, and
--              from_base64url of auxillary/src/auxillary/utils.py; Mapping and Announcements are proofs
--   Routes     resource_server/src/resource_server/routers: Posts, Votes, Saves (posts.py), Comments,
--              CommentVotes (comments.py), Admins, Forums (forums.py), Animes (animes.py), Users
--              (users.py), the calls they share (Parts), event_streamer.py (Streamer),
--              models/admin_permissions.py (Permissions) and validate_access_token of
--              request_dependencies.py (Access). Samples is a server for the tests; CountLaws,
--              VoteLaws, SubscriptionLaws, AdminRanks, AdminLaws, Owners, DeletionLaws, Recovery and
--              AccessLaws are proofs
--
-- Parameters. Redis, psycopg, asyncio, orjson, PyJWT, the clock and the random numbers are records of
-- functions over an abstract world, so that the theorems hold for every behaviour of theirs; what a
-- theorem needs of them is a named hypothesis (RunsCommands, Recovers, RefusesMoments, KeepsLists,
-- RefusesBytes, ModelEquality, RotatesLater, IsQuiet, AnswersBytes, IsAdminStore,
-- IsStreamless, RequiresAlgorithms). Tests instantiate each of them. The handlers of Routes take the repositories, the
-- cache's entries, the lock and the streamer as operations of one record (`Server`), and what FastAPI
-- does with a request before a handler runs is outside them.
--
-- Bounds. Times are whole numbers of a unit. Retry loops recur on the attempts that are left, as
-- `range` does. The bisection recurs on a depth; the length of the batch is enough, since both halves of
-- a batch that is not single are shorter and not empty. The loop of populate_events_batch_from_queue
-- recurs on a number of rounds, and the theorem on it is for every number.
-- The election of a leader recurs on the attempts and the intervals of the settings. The consumer
-- that lowers counters reads pages until one is empty: it recurs on a number of pages, and says when
-- that is used up; one is enough, since the first selection raises. The decimal digits of an integer
-- recur on a fuel above the integer.
--
-- Not modelled: the remaining routes of the resource server (create_forum and the handlers that answer
-- pages), the routes of the authorization server, the workers of
-- the dead letter streams, the database models and migrations, configuration, start-up, the e-mail
-- worker, and logging.
pub mod Common
pub mod Events
pub mod Retry
pub mod Pipeline
pub mod Batch
pub mod Insertion
pub mod Dispatch
pub mod Consumers
pub mod Tokens
pub mod Cache
pub mod Jwks
pub mod Counters
pub mod Routes
