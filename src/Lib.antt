-- ===== src/Lib.antt =====
-- LineageGuard: a model of the deterministic core of the change guardian, with its theorems.
--
-- The program reads a pull request that renames a database field, collects evidence on what
-- depends on the field from DataHub, decides on the change by fixed rules, and carries a run from
-- its creation to its completion under leases. packages/domain holds that core: the data, the
-- schemas that every value passes before it is used, and the decisions. The other packages and the
-- applications call it.
--
--   Hash      packages/domain/src/hash.ts: canonicalize, stableJson, sha256, stableId.
--   Change    packages/domain/src/change.ts: proposedChangeSchema (Change/Proposed).
--   Evidence  packages/domain/src/evidence.ts. Items is the data, Canonical the constants of the
--             one supported scenario, Identity the hashes, Shapes the lengths and formats, Context
--             the chronology, order and invocations, Bindings what each kind of evidence must fit,
--             Complete what a complete context has, Schema the whole of impactContextSchema,
--             Fixture createCanonicalImpactContextFixture. Sample is that fixture on a concrete
--             platform.
--   Risk      packages/domain/src/risk.ts. Policy is the rules and the schemas, Evaluate the
--             evaluation (evaluateRepositoryBaseline, evaluateGroundedRisk), the binding
--             (bindGroundedRiskAssessment) and the comparison (compareAuthoritativeRisk); Reasons,
--             Relevance, Grounded, Decision, Picked, Returns, Total and Binding prove what they do.
--   Run       packages/domain/src/run.ts. Status and Events are the data, Stream the pass of
--             runEventStreamSchema over a stream with its state, and authorizeRunEvent; the other
--             modules prove what an accepted stream is.
--   Store     packages/db/src/store.ts and the SQL of migrations.ts. Rows is the tables and the
--             errors, Events the reading and appending of events, Leases createRun and the guard of
--             a lease, Claims claimDue, renewLease and releaseLease, Retry scheduleRetry, Transition
--             transition with transition_run, Records what appends a record to a run
--             (appendPositioned, appendImpactCollectionResult, saveDecision, and the SQL functions
--             signer_insert_validation_receipt and effect_insert_intent). Replay and Agree relate a row to its events, Sound is
--             the invariant, Mirror, Preserve, Expiring, Claiming, Stale, Retrying, Creating,
--             Transiting and Recording prove that the operations keep it, and History puts them in
--             sequence; Reached, Versions, Queue, Idempotent and Appending prove what follows.
--             Sample is the history of one run.
--   Datahub   packages/datahub/src/pagination.ts: collectBoundedPages (Pagination) and the chains of
--             pages that it accepts (Pages).
--   Impact    packages/domain/src/impact-consumer.ts: deriveImpactConsumers and
--             assertExactlyFourConsumers (Consumer); Kinds, Adding and Derived prove what is derived.
--   Base      lists, texts, sorting and the outcomes of code that throws.
--
-- A run event stream is accepted by folding a state of lease, status, generations and retries over
-- the events. An assessment starts from a change and an impact context, both checked by their
-- schemas; the context's evidence is filtered to what the field connects, each rule picks what
-- triggers it, and the outcome is derived from the reasons.
--
-- A schema is a Boolean test on typed values; a parse that fails throws. The parsing of untyped
-- JSON by zod is not modelled, nor the texts of its issues: a key that has one literal value is
-- left out. JSON.stringify, SHA-256 and localeCompare are the record Platform, and the reading of
-- timestamps is the record IsoTime; theorems hold for every such record. Milliseconds are natural
-- numbers, so timestamps before 1970 are outside of the model. Strings are compared and measured
-- in UTF-16 code units, and where the database measures them in characters. The loops of the domain
-- and of the store go over lists, and collectBoundedPages goes at most the four rounds of the source's
-- own bound, so no fuel is needed.
--
-- The store appends the events that the gate of Run accepts and keeps the row of a run in step with
-- them. A database is a list of rows for each table; an operation is a transaction that commits a
-- database or throws, so a rollback is that nothing is committed. Of the service behind it the model
-- takes what the statements say: the order and the locks of the queries, the keys, checks and
-- triggers of the tables. A transaction that reads events before it locks the run may read any
-- earlier committed database. The clock, the random identifiers, the locks of others and the payload
-- codec of the caller are arguments. Clock readings are whole milliseconds, but created_at and
-- updated_at of a run, which are in microseconds. The columns of an event that only constraints
-- read are left out.
--
-- A history is a sequence of committed transactions. Every transaction of the source that writes a
-- row of runs or run_events is a command of it; the others, on approvals, attempts, reservations,
-- receipts and failures of effects, may change the remaining tables in any way. The two SQL
-- functions that store a signed validation and an intent of an effect stand for the transactions
-- that call them, which only read and throw besides.
--
-- Not modelled: of the store, the transactions on approvals, attempts and receipts of effects, what
-- a transition asserts in TypeScript of the stored validations and receipts (an argument of
-- `transition` that only reads and throws), and what the payload of a signed validation or of an
-- intent is compared with (an argument too); DataHub, GitHub, the language model, the web
-- application and the worker, which are services or glue; and the further domain modules on
-- migrations, validation and sources.
mod Base
pub mod Hash
pub mod Evidence
pub mod Run
pub mod Change
pub mod Risk
pub mod Store
pub mod Datahub
pub mod Impact
