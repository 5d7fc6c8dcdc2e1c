-- ===== src/Lib.antt =====
-- The water credits backend: a NestJS service that registers restoration projects, collects signed
-- sensor readings, has an oracle submit them to a Soroban chain that mints credits, and lets the
-- token holders govern the protocol.
--
-- What is modelled, by file:
-- - Prelude: outcomes of service calls (a value or an HTTP exception) over an explicit database
--   state, tables as lists of rows with the queries that the services make, signed integers.
-- - Users: src/modules/users/users.service.ts. Accounts: its operations. Admins, with Changes and
--   Calls: that one active admin is left.
-- - Projects: src/modules/projects/projects.service.ts. Lifecycle: create, update and remove, with
--   Transitions about the status and about removals.
-- - Governance: src/modules/governance/governance.service.ts.
--   - Entities: the tables. Config: getConfig and Object.assign. Quorum: evaluateQuorum.
--   - Changes: proposeConfigChange, cancelConfigChange, emergencyConfigUpdate and
--     applyDueConfigChanges. Timelock is about one scheduler run, Lifecycle about proposals through
--     runs, Closing about cancelling and about the invariant, Applied about what is written over the
--     configuration.
--   - Proposals, Voting, Execution: createProposal, getProposalById, vote, executeProposal.
-- - Sensors: src/modules/sensors/sensors.service.ts and sensor-project-access.service.ts.
--   - Batches: resolveBatch. Validation: timestamps, parameter ranges and signatures.
--   - Ingestion: ingestReading as a whole. Devices: registration and key rotation.
-- - Oracle: src/modules/oracle/oracle.service.ts and oracle-scheduler.service.ts.
--   - Submissions: triggerSubmission. Aggregation: aggregateReadingsForBatch.
--   - Scheduler: findEligibleBatches and submitProjectBatches. Claims, on Backed, is about what
--     every cycle keeps, Attempts and Settled about a cycle in steady surroundings, and Stranded about a cycle
--     after an ingestion.
--   - Scoring: credit-scoring.service.ts. Payload and Processor: oracle-processor.ts, with Paths
--     about the ways through a job. Reconciliation: detectNonceDrift and reconcile of
--     oracle.service.ts.
-- - Indexer: src/modules/indexer. Events: decodeEvent of indexer.types.ts. Handlers: the handlers of
--   indexer.service.ts, with Outcomes, Idempotent and Tally about them. Polling: the
--   poll, with Answers and Progress about what it processes.
-- - Credits: src/modules/credits. Retiring: CreditsService.retire and the job of
--   credits-retirement.processor.ts, with Once and Runs about calls and hashes. Portfolio:
--   getPortfolio, with Sums about its entries.
-- - Auth: src/modules/auth/auth.service.ts. Challenges is about log-ins, Rotation about refresh
--   tokens. RateLimit: guards/rate-limit.guard.ts.
-- - Pagination: src/common/pagination/keyset-paginator.ts. Order: the order of a list. Pages: a
--   client that follows the cursors.
--
-- A method becomes a function of its arguments and of the database, with a do block for its body;
-- `throw` is an `err`, with what was written before it kept, unless the code runs in a
-- `dataSource.transaction`. The clock and the UUIDs that the database generates are arguments. Ids,
-- wallets and times (milliseconds) are natural numbers; decimal columns are counted in units of
-- their last digit. The numbers stay below 2 ^ 53, where JavaScript's whole numbers are exact; the
-- credit score is in exact arithmetic, where JavaScript's doubles may round fractions; the portfolio
-- adds numbers of any kind, without a law. A null in an update of the configuration has no
-- counterpart. The loops are over lists, but for the indexer's poll: it has as much fuel as there are
-- ledgers from the cursor to the tip, since every page moves the cursor on.
--
-- The database executes each method as one sequence of statements. The unique indexes that the code
-- relies on are written out where a violation has a handler, and the bounds of the configuration's
-- columns; the foreign keys of a project that is removed, and the INSERT of a batch under
-- NODE_ENV=test, are not. The calls to the chain (StellarService and the SDK's RPC server), the
-- signature check of the Stellar SDK, PostgreSQL's percentile_cont, JavaScript's readings of a text as
-- a number, the encoding of a cursor as a text, and whether the oracle's commits and updates, the
-- saves of a retirement's job and Bull's queue succeed are functions that the definitions take as
-- arguments.
--
-- Not modelled: the HTTP layer and its decorators, logging, e-mail and websockets (what the indexer
-- broadcasts is a list of messages), the listings but for their paging, the bookkeeping of the
-- oracle's cycle, the overview of the credits and their certificates, and the modules analytics,
-- notifications and health.
pub mod Prelude
pub mod Auth
pub mod Credits
pub mod Governance
pub mod Indexer
pub mod Oracle
pub mod Pagination
pub mod Projects
pub mod Sensors
pub mod Users
