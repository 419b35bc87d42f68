-- ===== src/Lib.antt =====
-- Sulix Intelligence: a model of the decision core of the Rust workspace and its proofs.
--
-- The program turns sources into articles, signals, claims and decisions, and learns from the outcomes of the
-- decisions. The part modelled here is the life of a decision and what follows it:
--
-- - Prelude: shared names. An i64 is its bit pattern below 2 ^ 64 (Prelude/Word), f64 an abstract type with the
--   operations the code uses (Prelude/Floats), a method on `&mut self` or on a store a function from the state to
--   a result and the new state (Prelude/Results), a HashMap an association list (Prelude/Maps), `{:06}` and
--   `parse::<i64>` functions on texts (Prelude/Decimal).
-- - Ids: crates/shared-kernel/src/ids.rs, the domain ids such as DEC-000042.
-- - Decision: crates/decision-engine/src. Status is the status graph, Types the commands and events, Aggregate the
--   methods of DecisionAggregate, Ports the repository trait. Calls, Lifecycle and EventLog speak of histories of
--   method calls.
-- - Store: crates/domain/src/models (the row types) and crates/store/src/memory (Memory and its children: the
--   MemoryStore, one function for each method, grouped by table). OutboxLaws, OutboxDrain and ArticleLaws are the
--   laws; DecisionTable and DecisionRace speak of calls interleaved on the table of decisions. EventIndex is the index of
--   events as the database keeps it, crates/store/src/d1/event_archive.rs.
-- - Infra: crates/infrastructure/src. DecisionRepository and ReflectionRepository are the two adapters over the
--   store's ports, MemoryPorts fills those ports with the in-memory store. RowLaws, SaveFind, ReflectionRows and
--   ReflectionRuns, ReflectionPublished are the laws. ReflectionRecovery is the recovery of stale rows in
--   crates/worker-entry/src/jobs/reflection.rs, with its law.
-- - Service: crates/application/src/services/decision.rs. Decision is DecisionService over any repository and any
--   store, and Create, CreateFind, Outcome and Transition its flows over the in-memory store.
-- - Reflection: crates/intelligence/reflection-engine/src. Engine is ReflectionEngine::execute_at, cut where it awaits
--   a service; Context and Validation are the modules of the same names, Sound the meaning of a valid draft.
-- - MemoryEngine: crates/memory-engine/src. Evaluator and Worker are the modules of those names, with candidate.rs and
--   promotion.rs in Worker; Infra/MemoryRepository is the adapter and Infra/MemoryRuns speaks of runs.
-- - ModelRuntime: crates/model-runtime/src/router.rs, with its trait and types; Laws says where a request goes.
-- - Signals: crates/intelligence/signal-engine/src. Models, Ports and Scoring are the modules of those names; Clustering
--   is discovery/clustering.rs, with the union-find forest (Forest, Unions), the groups it is read into (Groups,
--   Partition) and the whole function (Components, Sizes); Sources is source.rs with discovery/converter.rs; Engine is
--   SignalEngine::run, Counters and Report speak of its report; Query is the two queries of src/query
--   (Detail with Order and Timeline on its merge, Threads).
-- - EventStore: crates/event-store/src, with event_log.rs (Log) and signal_event_log.rs (SignalLog) of
--   crates/infrastructure/src and the job of crates/worker-entry/src/jobs/archive.rs (Archive; Progress and
--   Blocked are its laws). Keys are the object keys by date, Loops and Date the laws of the date, and RoundTrip
--   follows an event from its append to a load.
-- - ObjectStore: crates/object-store/src, the port, the keys and the archive in memory.
-- - Graph: crates/application/src/graph.rs; Closed and Dangling are its laws.
-- - Reasoning: crates/reasoning-framework/src; Selector and Calibration are the modules of those names, Triggers and
--   Learning their laws.
-- - Claims: crates/claim-engine/src with crates/intelligence-domain/src/confidence. Parser and Confidence are the modules
--   of those names; Fences is the law of the parser.
-- - Governance: crates/content-governance/src/lib.rs and crates/infrastructure/src/storage_policy.rs.
-- - Rules: crates/rules/src/lib.rs.
-- - Tests: concrete data and runs.
--
-- The wall clock is a function from the number of the reading to its value. The retry loop of create runs on the
-- source's own bound of four attempts, so no other fuel is needed; the printer of an i64 has fuel for twenty
-- digits, which are enough below 2 ^ 64. `find` of the union-find recurses along the parents: its fuel is one more
-- than the number of edges, since each union makes the longest chain at most one longer. The years of a date are
-- counted with one step for each 365 days, and the theorem on dates shows that the loop ends by its own test. What
-- other crates do is a parameter: serde_json on the outcome list (OutcomeJson) and on drafts and payloads (Texts),
-- formatting of f64, the language model, the event log and the artifact registry (Services), serde_json on event
-- envelopes (EnvelopeJson) and on the payloads of signals (SignalJson, PayloadTexts), the standard library's hash
-- of a cluster, `to_lowercase` and `contains` (TextOps).
--
-- A future that the source makes and does not await is dropped before it runs; `unpolled` says so where it happens.
--
-- Not modelled: the other D1 statements (SQL against the platform; the in-memory store stands behind the same ports), the
-- HTTP surface and the worker's wiring, the calls to models, the prompts of the claim engine and the context engine.
pub mod Prelude
pub mod Decision
pub mod Ids
pub mod Store
pub mod Infra
pub mod Service
pub mod Reflection
pub mod Governance
pub mod Rules
pub mod Signals
pub mod EventStore
pub mod ObjectStore
pub mod Graph
pub mod Reasoning
pub mod Claims
pub mod Tests
pub mod MemoryEngine
pub mod ModelRuntime
