-- ===== src/Catalog/Offsets/Examples.antt =====
-- The theorem on offsets at a concrete input.
use ukiel.Base.{◌≡◌, refl, [], ◌∷◌, arith}
use ukiel.Catalog.Error.{offset_race}
use ukiel.Catalog.Db.{Db, fresh}
use ukiel.Catalog.Tx.{err}
use ukiel.Catalog.Offsets.{OffsetRange, blocked, advance_offset}
use ukiel.Catalog.Offsets.Exactly.{advance_offset-race}

abbrev batch : OffsetRange
batch = record { topic = "events"; partition = 0; first = 42; last = 60 }

-- A second writer that took up at the same offset.
abbrev replica : OffsetRange
replica = record { topic = "events"; partition = 0; first = 42; last = 55 }

abbrev tables : Db
tables = record (fresh (1 ∷ [])) {
  ingest_offsets =
      record { hypertable_id = 1; topic = "events"; kafka_partition = 0; next_offset = 42 }
      ∷ record { hypertable_id = 1; topic = "events"; kafka_partition = 1; next_offset = 7 }
      ∷ [];
}

advance_offset-race_example :
    let d' = (advance_offset 1 batch tables).1 in
    advance_offset 1 replica d' ≡ (err (offset_race "events" 0), d')
advance_offset-race_example =
    advance_offset-race 1 batch replica refl refl (omega arith) tables
      ((λ _. refl), ((λ _. refl), tt)) (unfold advance_offset blocked in refl)
