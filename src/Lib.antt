-- ===== src/Lib.antt =====
-- Ukiel keeps a data lake: rows live in immutable Parquet files, the parts, and a PostgreSQL
-- catalog says which parts make up a hypertable. Ingest adds parts, the compactor replaces many
-- small parts by fewer large ones, materialized views and other workers follow the feed of
-- commits, and garbage collection deletes the objects of parts that are no longer needed. All of
-- them meet in the catalog, so the catalog is the centre of this library.
--
-- Files and the code they are about:
--   Base             tests on numbers and texts, lists, signed integers, ORDER BY.
--   Core.Keyfilter   crates/ukiel-core/src/keyfilter.rs: the Bloom filter that a part keeps of its
--                    packing keys, in Rust (`maybe_contains`) and as SQL (`sql_predicate`). Bits,
--                    Blob, Membership, Sql and Bounds hold its proofs.
--   Core.Part, Core.Commit
--                    part.rs and commit.rs of the same crate: the records.
--   Core.Canonical, Core.Intent, Core.Operation
--                    operation.rs of the same crate: the canonical bytes, the intents, and the
--                    factories of identities. Canonical.Prefix, Canonical.Lists, Operation.Bytes
--                    and Operation.Shape read buffers back; Identify, Reorder, Ranges, Key and
--                    Outcome are about the identities.
--   Core.Table       table.rs of that crate: the placement of a hypertable's files.
--   Catalog.Db       the tables of crates/ukiel-catalog/migrations.
--   Catalog.Tx       a transaction's statements as functions on the database, with errors.
--   Catalog.Error    crates/ukiel-catalog/src/error.rs: the classes of errors.
--   Catalog.Offsets  offsets.rs of that crate, and the compare-and-set of commit.rs. Exactly is
--                    about ranges that overlap.
--   Catalog.Leases   leases.rs: claim, renew and release. Exclusion is about the rows of the table,
--                    Contention about who gets a partition, Tokens about tenancies that are over.
--   Catalog.Parts    parts.rs and the writes of commit.rs to the table of parts.
--   Catalog.Reads    parts.rs: the reads of live parts. Pruning and Quiet are about the conditions of
--                    its queries.
--   Catalog.Windows  parts.rs: the windows of partitions that sweeps are offered. Offered is about
--                    the partitions in them, Resumed about the order they come in.
--   Catalog.Commit   commit.rs: `commit_txn` and its callers. Applied says what a commit does,
--                    Writes, Outcome and Atomicity hold the code against it, Replay is
--                    about retries, Ambiguity and Told about lost acknowledgements, Fencing and
--                    Confined about leases.
--   Catalog.Feed     feed.rs: the head and the events after a cursor. Resume, History and Published
--                    are about a consumer in batches and what a commit adds.
--   Catalog.Cursors  cursors.rs: the cursors of the workers.
--   Catalog.Pipelines
--                    pipelines.rs of that crate and pipeline.rs of the core: the graph of pipelines
--                    and the cursors of views. Reachable is about its recursive query, Acyclic about
--                    the graph, Retry about a bootstrap that runs again.
--   Catalog.Invariant
--                    the order of ids, and of the events in a part's life.
--   Catalog.Gc       gc.rs: the candidates of garbage collection and the upload intents.
--   Gc               crates/ukiel-gc/src/lib.rs: the loops that delete objects, with Reap and Sweep
--                    about one of them each.
--   Compactor        crates/ukiel-compactor/src/compactor.rs: the sweep with its cursor, and the level
--                    that is merged next. Rotation is about sweeps one after the other.
--   Ingest           crates/ukiel-ingest/src: Assignment is assignment.rs, Buffers is about the buffers of
--                    consumer.rs and the identity of flusher.rs, Ranges and Flush about what the two
--                    make of a topic's messages.
--   Daemon           crates/ukield/src: Health is health.rs, with States about the states of roles,
--                    Recovery is recovery.rs, with Waits about its delays, and Supervisor is
--                    supervisor.rs, with Log about what comes between two workers and Ends about
--                    the state a role is left in.
--
-- State and operations. A table is a list of rows in the order of insertion, `Db` has one field
-- for each, and a method of `PostgresCatalog` is a function from the database to its answer and
-- the database after it. Each transaction is one step: the code relies on PostgreSQL for
-- isolation, by unique keys, row locks and advisory locks. The sequences that ids are drawn from
-- stand in `Sequences`, apart, since PostgreSQL does not roll them back. The times that a
-- transaction reads, `now()` and the lease's `clock_timestamp()`, are arguments (`Times`), in
-- milliseconds. What becomes of `COMMIT` is an argument too (`Ack`): acknowledged, or refused or
-- lost with an error; a lost one is durable.
--
-- Numbers. Ids and times are natural numbers; a packing key is a signed integer. A value of type
-- JSONB is its canonical text in the catalog's tables, and a tree (`Value`) where operation.rs walks
-- it. A fingerprint is the list of its bytes.
--
-- Parameters. The digest of an identity is blake3 (`hash`), of which the theorems ask 32 bytes, or
-- that it tells two buffers apart. The base64 decoder that the key index of a part's statistics is read by is a
-- third-party crate (`decode`), and so is the object store (`S`, `delete_object`), of which the
-- theorems on the collector ask that a deletion leaves the other objects where they are. The order
-- of texts that `ORDER BY path` follows is the database's (`before`), and so is the collation
-- of the texts of partitions (`Order String`). The jitter of a delay multiplies
-- floats (`mul_f64`), of which a theorem asks that it at most doubles the delay. A message's row, its
-- decoding, its integer fields and the day of a time are serde's and chrono's.
--
-- The loops run over lists and need no fuel, but for those of the collector: their fuel is the list of
-- rounds they are given, each with what the world does in it, and one round more than there are
-- parts to purge is enough for `reap`. So it is with the loops of the daemon, which wait and rebuild for
-- as long as they are let: a script says what the catalog, the workers and the process do in each
-- round, and where it ends the loop is still going on.
--
-- Not modelled: the network and the pool, the text of SQL (its meaning is), metrics and logs, the
-- readers and writers of Parquet, Kafka, the query engine, the daemon's start, the tools, and with them the
-- claims and merges of the compactor, the loop of ingest around the Kafka client, the materialized
-- views, and stream tables.
pub mod Base
pub mod Core
pub mod Gc
pub mod Daemon
pub mod Ingest
pub mod Compactor
pub mod Catalog
