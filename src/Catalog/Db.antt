-- ===== src/Catalog/Db.antt =====
-- The tables of the catalog (crates/ukiel-catalog/migrations) as the methods read and write them,
-- each a list of rows in the order of insertion. Times are PostgreSQL's, in milliseconds.
use ukiel.Base.{ℕ, String, List, [], Option}
use ukiel.Core.Part.{PartMeta, Part}

pub record CommitRow : Type 0 where
  pub id : ℕ
  pub hypertable_id : ℕ
  pub kind : String
  pub idempotency_key : Option String
  pub operation_fingerprint : Option (List ℕ)
  pub created_at : ℕ

pub record PartRow : Type 0 where
  pub id : ℕ
  pub hypertable_id : ℕ
  pub meta : PartMeta
  pub key_filter : Option (List ℕ)
  pub created_by_commit : ℕ
  pub deleted_by_commit : Option ℕ
  pub purged_at : Option ℕ

-- `From<PartRow> for Part`, over the columns of `PART_COLUMNS`.
abbrev pub to_part : PartRow → Part
to_part r = record {
  id = r.id;
  hypertable_id = r.hypertable_id;
  meta = r.meta;
  created_by_commit = r.created_by_commit;
}

pub record OffsetRow : Type 0 where
  pub hypertable_id : ℕ
  pub topic : String
  pub kafka_partition : ℕ
  pub next_offset : ℕ

pub record CursorRow : Type 0 where
  pub worker : String
  pub hypertable_id : ℕ
  pub last_commit_id : ℕ

pub record PendingRow : Type 0 where
  pub hypertable_id : ℕ
  pub path : String
  pub created_at : ℕ

pub record LeaseRow : Type 0 where
  pub hypertable_id : ℕ
  pub partition_values : String
  pub owner_id : ℕ
  pub generation : ℕ
  pub expires_at : ℕ

-- The identity columns' and the lease generations' sequences: `nextval` is never rolled back.
pub record Sequences : Type 0 where
  pub next_commit : ℕ
  pub next_part : ℕ
  pub next_generation : ℕ

pub record Db : Type 0 where
  pub sequences : Sequences
  pub open sequences use *
  pub hypertables : List ℕ
  pub commits : List CommitRow
  pub parts : List PartRow
  pub ingest_offsets : List OffsetRow
  pub worker_cursors : List CursorRow
  pub pending_objects : List PendingRow
  pub leases : List LeaseRow

-- A database with the given hypertables, just migrated.
abbrev pub fresh : List ℕ → Db
fresh hypertables = record {
  sequences = record { next_commit = 1; next_part = 1; next_generation = 1 };
  hypertables = hypertables;
  commits = [];
  parts = [];
  ingest_offsets = [];
  worker_cursors = [];
  pending_objects = [];
  leases = [];
}
