-- ===== src/Catalog/Offsets/Exactly.antt =====
-- offsets.rs and commit.rs: a range of offsets that meets one that is recorded.
use ukiel.Base.{
  ◌≡◌, ◌≢◌, refl, ap, not, ℕ, ◌+◌, ◌≤◌, String, Bool, true, false, ◌&&◌, List, [], ◌∷◌, ◌++◌, leb,
  nat_eq, string_eq, any, update, arith, Bool-cases, inl, inr, eq_iff,
}
use ukiel.Catalog.Error.{offset_race}
use ukiel.Catalog.Db.{Db, OffsetRow}
use ukiel.Catalog.Tx.{ok, err}
use ukiel.Catalog.Offsets.{OffsetRange, at, upsert_offset, blocked, advance_offset}

-- The table's primary key: a topic-partition has one row at most.
abbrev pub Keyed : ℕ → String → ℕ → List OffsetRow → Type 0
Keyed ht topic partition [] = Unit
Keyed ht topic partition (r ∷ rs) =
    (at ht topic partition r ≡ true → any (at ht topic partition) rs ≡ false)
    × Keyed ht topic partition rs

abbrev ready : ℕ → OffsetRange → OffsetRow → Bool
ready ht r row = at ht r.topic r.partition row && leb row.next_offset r.first

module _ (ht : ℕ) (r later : OffsetRange) (topic : later.topic ≡ r.topic)
    (partition : later.partition ≡ r.partition) (overlap : later.first ≤ r.last) where
  abbrev moved : List OffsetRow → List OffsetRow
  moved = update (ready ht r) (λ row. record row { next_offset = r.last + 1 })

  abbrev own : OffsetRow → Bool
  own = at ht r.topic r.partition

  none_ready :
      (rows : List OffsetRow)
      → any own rows ≡ false
      → (any own (moved rows) ≡ false)
        × (any (λ row. own row && leb row.next_offset later.first) (moved rows) ≡ false)
  none_ready [] h = (refl, refl)
  none_ready (row ∷ rows) h = ground (arith, none_ready rows)

  not_ready : (rows : List OffsetRow) → any own rows ≡ false → any (ready ht r) rows ≡ false
  not_ready [] h = refl
  not_ready (row ∷ rows) h = ground (arith, not_ready rows)

  abbrev arrival : OffsetRow
  arrival = record {
    hypertable_id = ht;
    topic = r.topic;
    kafka_partition = r.partition;
    next_offset = r.last + 1;
  }

  moved_past :
      (rows : List OffsetRow)
      → Keyed ht r.topic r.partition rows
      → any (ready ht r) rows ≡ true
      → (any own (moved rows) ≡ true)
        × (any (λ row. own row && leb row.next_offset later.first) (moved rows) ≡ false)
  moved_past [] k h = cc
  moved_past (row ∷ rows) k h = elim (Bool-cases (own row)) [
    | inl e ↦
        let rest = none_ready rows (k.0 e) in
        elim (Bool-cases (leb row.next_offset r.first)) [
          | inl g ↦ rw (e, g) (rw e (refl, ground (arith, rest.1)))
          | inr g ↦ absurd (ground (arith, not_ready rows (k.0 e)))
        ]
    | inr e ↦ rw e (rw e (moved_past rows k.1 (rw e at h)))
  ]

  arrival-own : own arrival ≡ true
  arrival-own = ground (arith, eq_iff r.topic r.topic)

  arrived_past :
      (rows : List OffsetRow)
      → any own rows ≡ false
      → (any own (rows ++ arrival ∷ []) ≡ true)
        × (any (λ row. own row && leb row.next_offset later.first) (rows ++ arrival ∷ []) ≡ false)
  arrived_past [] h = rw arrival-own (refl, ground arith)
  arrived_past (row ∷ rows) h = ground (arith, arrived_past rows)

  upserted_past :
      (rows : List OffsetRow)
      → Keyed ht r.topic r.partition rows
      → blocked ht r rows ≡ false
      → (any own (upsert_offset ht r rows) ≡ true)
        × (any (λ row. own row && leb row.next_offset later.first) (upsert_offset ht r rows)
            ≡ false)
  unfolding upsert_offset blocked
  upserted_past rows k h = elim (Bool-cases (any own rows)) [
    | inr e ↦ rw (e, upsert_offset) (arrived_past rows e)
    | inl e ↦ rw (e, upsert_offset) (moved_past rows k (ground arith))
  ]

  blocked_later :
      (rows : List OffsetRow)
      → Keyed ht r.topic r.partition rows
      → blocked ht r rows ≡ false
      → blocked ht later (upsert_offset ht r rows) ≡ true
  unfolding blocked
  blocked_later rows k h =
      let past = upserted_past rows k h in rw (topic, partition) (rw past.0 (ap not past.1))

  recorded_range :
      (d : Db)
      → blocked ht r d.ingest_offsets ≡ false
      → advance_offset ht r d
        ≡ (ok tt, record d { ingest_offsets = upsert_offset ht r d.ingest_offsets })
  unfolding advance_offset
  recorded_range d e = rw (e, advance_offset) refl

  refused_range :
      (d : Db)
      → blocked ht later d.ingest_offsets ≡ true
      → advance_offset ht later d ≡ (err (offset_race later.topic later.partition), d)
  unfolding advance_offset
  refused_range d e = rw (e, advance_offset) refl

  blocked_fails :
      (d : Db) → blocked ht r d.ingest_offsets ≡ true → (advance_offset ht r d).0 ≢ ok tt
  unfolding advance_offset
  blocked_fails d e h = cc (rw (e, advance_offset) at h)

  -- Once the offsets of a range are recorded, a range of the same topic-partition that starts at or
  -- before the end of it is refused as a race, and changes nothing.
  pub advance_offset-race :
      (d : Db)
      → Keyed ht r.topic r.partition d.ingest_offsets
      → (advance_offset ht r d).0 ≡ ok tt
      → let d' = (advance_offset ht r d).1 in
        advance_offset ht later d' ≡ (err (offset_race later.topic later.partition), d')
  advance_offset-race d k h = elim (Bool-cases (blocked ht r d.ingest_offsets)) [
    | inl e ↦ absurd (blocked_fails d e h)
    | inr e ↦ rw (recorded_range d e) (
        refused_range (record d { ingest_offsets = upsert_offset ht r d.ingest_offsets })
          (blocked_later d.ingest_offsets k e))
  ]
