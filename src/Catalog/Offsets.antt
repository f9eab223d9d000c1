-- ===== src/Catalog/Offsets.antt =====
-- crates/ukiel-catalog/src/offsets.rs, and the compare-and-set of commit.rs that moves an offset.
pub mod Exactly
mod Examples
use ukiel.Base.{
  not, ℕ, ◌+◌, String, Bool, ◌&&◌, List, [], ◌∷◌, ◌++◌, map, leb, ◌==◌, nat_eq, string_eq, any,
  select, update, if◌then◌else◌,
}
use ukiel.Catalog.Error.{offset_race}
use ukiel.Catalog.Db.{Db, OffsetRow}
use ukiel.Catalog.Tx.{Tx, ok, err, pure, ◌>>◌}

pub record OffsetRange : Type 0 where
  pub topic : String
  pub partition : ℕ
  pub first : ℕ
  pub last : ℕ

-- The row of one topic-partition: the table's primary key.
abbrev pub at : ℕ → String → ℕ → OffsetRow → Bool
at ht topic partition r =
    r.hypertable_id == ht && (r.topic == topic && r.kafka_partition == partition)

unfoldable pub ingest_offsets : ℕ → String → Db → List (ℕ × ℕ)
ingest_offsets ht topic d =
    map (λ (r : OffsetRow). (r.kafka_partition, r.next_offset))
      (select (λ (r : OffsetRow). r.hypertable_id == ht && r.topic == topic) d.ingest_offsets)

-- `INSERT … ON CONFLICT … DO UPDATE … WHERE ingest_offsets.next_offset <= $5`; no row affected
-- means that another writer got here first.
unfoldable pub upsert_offset : ℕ → OffsetRange → List OffsetRow → List OffsetRow
upsert_offset ht r rows =
    if any (at ht r.topic r.partition) rows
    then update (λ row. at ht r.topic r.partition row && leb row.next_offset r.first)
        (λ row. record row { next_offset = r.last + 1 }) rows
    else rows
      ++ record {
        hypertable_id = ht;
        topic = r.topic;
        kafka_partition = r.partition;
        next_offset = r.last + 1;
      }
        ∷ []

unfoldable pub blocked : ℕ → OffsetRange → List OffsetRow → Bool
blocked ht r rows =
    any (at ht r.topic r.partition) rows
    && not (any (λ row. at ht r.topic r.partition row && leb row.next_offset r.first) rows)

unfoldable pub advance_offset : ℕ → OffsetRange → Tx (Unit {0})
advance_offset ht r d =
    if blocked ht r d.ingest_offsets
    then (err (offset_race r.topic r.partition), d)
    else (ok tt, record d { ingest_offsets = upsert_offset ht r d.ingest_offsets })

unfoldable pub advance_offsets : ℕ → List OffsetRange → Tx (Unit {0})
advance_offsets ht [] = pure tt
advance_offsets ht (r ∷ rs) = advance_offset ht r >> advance_offsets ht rs
