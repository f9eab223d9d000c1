-- ===== src/Catalog/Parts.antt =====
-- The writes on `parts` of crates/ukiel-catalog/src/commit.rs. `decode` is what reads a bitmap: the
-- keys of the roaring treemap that a base64 text holds, or nothing where either does not decode.
use ukiel.Base.{
  ℕ, ◌+◌, ◌^◌, String, Bool, true, false, ◌&&◌, not, Option, none, some, List, [], ◌∷◌, ◌++◌, map,
  ltb, ◌==◌, nat_eq, string_eq, select, update, elem, length, if◌then◌else◌,
}
use mathlib.Core.Option
use ukiel.Base.Int.{ℤ, pos}
use ukiel.Core.Part.{PartMeta, ColumnStats}
use ukiel.Core.Keyfilter.{build}
use ukiel.Catalog.Error.{conflict}
use ukiel.Catalog.Db.{Db, PartRow, PendingRow}
use ukiel.Catalog.Tx.{Tx, ok, err}

-- `map.iter().map(|k| i64::try_from(k).ok()).collect()`
unfoldable pub to_i64s : List ℕ → Option (List ℤ)
to_i64s [] = some []
to_i64s (k ∷ ks) = if ltb k (2 ^ 63) then Option.map (λ rest. pos k ∷ rest) (to_i64s ks) else none

abbrev pub is_live : PartRow → Bool
is_live r = elim r.deleted_by_commit [ none ↦ true | some _ ↦ false ]

-- The live rows of the hypertable among `ids`.
abbrev pub targets : ℕ → List ℕ → PartRow → Bool
targets ht ids r = elem r.id ids && (r.hypertable_id == ht && is_live r)

unfoldable pub tombstone_parts : ℕ → ℕ → List ℕ → Tx (Unit {0})
tombstone_parts ht commit ids d =
    if length (select (targets ht ids) d.parts) == length ids
    then (ok tt, after)
    else (err (conflict (length ids) (length (select (targets ht ids) d.parts))), after)
  where
    after : Db
    after = record d {
      parts = update (targets ht ids) (λ r. record r { deleted_by_commit = some commit }) d.parts;
    }

module _ (decode : String → Option (List ℕ)) where
  unfoldable pub bitmap_keys : String → Option (List ℤ)
  bitmap_keys encoded = elim (decode encoded) [ none ↦ none | some keys ↦ to_i64s keys ]

  unfoldable pub stats_keys : Option ColumnStats → Option (List ℤ)
  stats_keys none = none
  stats_keys (some stats) = elim stats.packing_keys [
    | none ↦ none
    | some encoded ↦ bitmap_keys encoded
  ]

  unfoldable pub key_filter : PartMeta → Option (List ℕ)
  key_filter p = elim (stats_keys p.column_stats) [ none ↦ none | some keys ↦ build keys ]

  -- `INSERT INTO parts` of one part, under the next id.
  unfoldable pub part_row : ℕ → ℕ → ℕ → PartMeta → PartRow
  part_row id ht commit p = record {
    id = id;
    hypertable_id = ht;
    meta = p;
    key_filter = key_filter p;
    created_by_commit = commit;
    deleted_by_commit = none;
    purged_at = none;
  }

  unfoldable pub insert_rows : ℕ → ℕ → List PartMeta → Db → Db
  insert_rows ht commit [] d = d
  insert_rows ht commit (p ∷ ps) d = insert_rows ht commit ps (record d {
    sequences = record d.sequences { next_part = d.next_part + 1 };
    parts = d.parts ++ part_row d.next_part ht commit p ∷ [];
  })

  -- The intents of the inserted paths are dropped in the same transaction.
  unfoldable pub insert_parts : ℕ → ℕ → List PartMeta → Tx (Unit {0})
  insert_parts ht commit ps d = (
    ok tt,
    record (insert_rows ht commit ps d) {
      pending_objects =
          select (λ (r : PendingRow). not (elem r.path (map (λ (p : PartMeta). p.path) ps)))
            (insert_rows ht commit ps d).pending_objects;
    },
  )
