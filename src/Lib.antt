-- ===== src/Lib.antt =====
-- A verification library for Semantic Engine, the engine that decides whether a chat message
-- answers a round, keeps the sessions of such rounds, and remembers what operators accepted.
--
-- Parts of the program and the files that model them:
--   * crates/semantic-engine-core (`Validator::validate`, `normalize_expression`,
--     `resolve_validation`): Core and its children. Core/Types has the data, Core/Limits the
--     preconditions, Core/Normalize the normal form of a text, Core/Fuzzy the ranking of
--     `validate_fuzzy`, Core/Validate the exact matches and the whole answer, Core/Resolve the
--     operator's decision. Functions keep the names of the source.
--   * crates/semantic-engine-session-store (`SessionStore`): SessionStore and its children. The
--     state is `Tables`, the rows of its three SQL tables; an operation is a function from tables
--     to a result, and an error leaves the tables as they were, as a rolled back transaction does.
--   * crates/semantic-engine-memory-store (`RecognitionMemoryStore`): MemoryStore and its
--     children. The state is `Table`, the rows of recognition_memory with the next row number.
--   * crates/semantic-engine-service (`SemanticEngineService`): Service and its children. The state
--     is the record of that name, with the tables of the two stores in it; an operation gives the
--     service after it, also where it fails, and its answer. Service/Validate is `validate` and
--     `resolve`, with Service/Cache and Service/Recognition under it; Service/Sessions and
--     Service/Submissions are the operations on sessions, Service/Memory those on the memory;
--     Service/Fingerprints writes out the bytes that are hashed. Service/Restore starts a service on
--     the tables of an earlier one (SessionStore/Loading), Service/Purge is `purge_local_data`.
--   * crates/semantic-engine-source (`SourceStore`): Source and its children. The state is `Tables`,
--     the rows of input_sources and source_checkpoints. Every statement commits by itself, so an
--     operation that reads its answer back gives the tables also where the reading fails.
--   * crates/semantic-engine-audit-store (`AuditStore`): AuditStore and its children. The state is
--     `Tables`, the rows of audit_validations and audit_resolutions with the next number of
--     `AUTOINCREMENT`. AuditStore/Record has the operations, AuditStore/Operations their parts;
--     Service/AuditLog puts them behind the interface `Audit` that the service calls.
--   * crates/semantic-engine-context-index (`inspect_offline_channel`): ContextIndex and its children.
--     ContextIndex/Checks has the validations, ContextIndex/Revocations the state of revocations and
--     its file, ContextIndex/Channel the inspection from what the TUF updater has verified.
-- The core is pure. The memory store calls it only for the normal form of an expression; the
-- service calls the core and both stores as the source does.
--
-- Conventions: a text is the list of its code points, and a byte length is that of its UTF-8 form.
-- Numbers of the machine are natural numbers; where the source saturates or checks, so does the
-- model. What the engine underneath (SQLite) answers to each statement is an argument `Io`, and so
-- are the time and the random bytes; the theorems hold for every such answer. What the service
-- reads from outside in one call is an `Env`, and SHA-256, the JSON codec and the audit store are
-- the parameters `Externals` and `Audit`. Unicode tables, string similarity and floating-point
-- arithmetic are the fields of `Libraries` (Core/Libraries); theorems that need a law of them take
-- `ScoreLaws` or `HasSpaces`, and Core/Samples has an instance over the natural numbers that
-- satisfies both. The codec of the audit reads back what it wrote (`RoundTrips`), but a score only as
-- `reread` gives it, since Cargo.toml takes serde_json without its feature float_roundtrip. All
-- functions are total; no model runs on fuel.
--
-- Not modelled: opening databases and their SQL schema, the network connectors, the desktop and
-- the command line, packages, vectors and the benchmarks; of the context index, the inspection of a
-- root and the repository of files that serves the updater.
pub mod Common
pub mod Core
pub mod SessionStore
pub mod MemoryStore
pub mod Service
pub mod Source
pub mod AuditStore
pub mod ContextIndex
