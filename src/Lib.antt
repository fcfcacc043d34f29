-- ===== src/Lib.antt =====
-- Forum Relay: the durable core of the relay between GitHub issues and Discord forum threads.
--
-- The program keeps its state in one SQLite database. Events of Discord and GitHub enter an inbox, a
-- worker claims them and hands each to a handler, and the handlers put operations for the other side
-- into an outbox, which the same worker works off. Only the process that holds the worker lease works.
-- Links between issues and threads, relayed items and their messages are kept by repositories; a
-- classifier finds in Discord's audit log who changed a thread. The files, with paths from the
-- repository's root:
--
-- - Common: names shared by all, tests on numbers and texts, lists as tables, and
--   src/core/json.ts in Common/Json.
-- - Schema: the rows of src/db/schema.ts that both queues use. Retry: src/jobs/retry-policy.ts.
-- - Jobs: src/db/job-repository.ts. JobRepository's methods are functions on a Database of lists of rows:
--   Jobs/Inbox has enqueueInbox, claimInbox, completeInbox and failInbox; Jobs/Outbox the same for the
--   outbox; Jobs/Upkeep resumes lifecycles and redacts payloads. The other children prove.
-- - Worker: src/jobs/durable-worker.ts, with the handlers as parameters that act on the database.
-- - Lease: src/jobs/worker-lease.ts. Lease/Nodes and Lease/Exclusive run any number of processes, one SQL
--   statement a step, on one clock.
-- - Transitions: src/domain/state-transitions.ts and src/domain/conflicts.ts.
-- - Labels: src/labels/bindings.ts; Labels/Tags is planDiscordForumTags.
-- - Relay: src/db/relay-repository.ts; Relay/Links, Relay/Items, Relay/Segments, Relay/Attachments and
--   Relay/Tags hold its methods.
-- - Config: src/config/index.ts and src/config/normalize.ts. Mappings: src/db/mapping-repository.ts.
-- - Media: src/media/safe-download.ts; Media/Address is isForbiddenAddress, Media/Content what is done with
--   the response.
-- - Audit: src/jobs/audit-classifier.ts; Audit/Evidence is findEvidence, Audit/Classify the handler.
-- - Intake: src/discord/intake.ts and src/discord/event-idempotency.ts; Intake/Origin is
--   src/discord/message-origin.ts and src/discord/webhook-selection.ts.
-- - Engine: src/relay/engine.ts, whose methods are functions of a World: the tables, the clock, the UUIDs and
--   the calls made so far, of which the clients' answers (Remote) may depend. Engine/Store lifts the
--   repositories; Engine/Payloads reads JSON; Engine/Decisions has the pure decisions; Engine/Queueing the
--   enqueue methods; Engine/Events processGitHub, Engine/Gateway
--   processDiscord; Engine/Messages syncDiscordItem and
--   deleteDiscordItem; Engine/Comments createGitHubIssue, syncGitHubItem, deleteGitHubItem and
--   uploadAttachment; Engine/Closing syncGitHubLifecycle; Engine/Lifecycle syncDiscordLifecycle;
--   Engine/Dispatch processInbox and processOutbox. Engine/Ends has the lemmas on what a run ends with.
--   Engine/Lifecycle/Threads has what Discord makes of a thread on each call, as its API documents it.
-- - Webhook: src/github/webhook.ts; Webhook/Server is src/http/server.ts.
-- - Tests: concrete runs.
--
-- How they interact: Worker calls Jobs and Retry; Audit calls Relay/Links and Transitions; Intake
-- and Webhook/Server call Jobs/Inbox; Webhook reads the Config; Mappings reads what Config returns; Jobs reads the mappings' states; Engine calls Relay,
-- Jobs/Inbox, Jobs/Outbox, Jobs/Upkeep, Transitions, Audit and Intake/Origin.
--
-- Conventions. A table is the list of its rows in the order of their insertion (the queues order by
-- created_at and rowid), an UPDATE rewrites the rows that pass its test, and a transaction is one function
-- whose error leaves the table as it was. Date.now(), Math.random() and crypto.randomUUID() are arguments.
-- A thrown error is the err of a Result. Numbers are natural numbers: ids, counts, sizes and times in
-- milliseconds. Code outside the repository is a parameter: JSON, hashes, locale functions, URL, BigInt, DNS
-- and fetch. Loops are structural, except acquireEventually, which takes fuel; the fuel that is enough is the
-- number of milliseconds until the deadline, since each poll takes time.
--
-- Not modelled: foreign keys; the timers themselves (the state holds whether one is set, and its delay);
-- files on disk; logging; the start and stop of the HTTP server. Nor are the rendering of bodies (a parameter of the engine),
-- reconciliation, bootstrap, the command framework and the environment modelled. Left aside as I/O or glue: the API clients, the slash
-- commands, the CLI and the application's wiring.
pub mod Common
pub mod Schema
pub mod Retry
pub mod Jobs
pub mod Worker
pub mod Lease
pub mod Transitions
pub mod Labels
pub mod Relay
pub mod Config
pub mod Mappings
pub mod Media
pub mod Audit
pub mod Intake
pub mod Engine
pub mod Webhook
pub mod Tests
