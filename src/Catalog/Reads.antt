-- ===== src/Catalog/Reads.antt =====
-- crates/ukiel-catalog/src/parts.rs: the reads of live parts. A threshold in seconds is one in
-- milliseconds here.
pub mod Pruning
pub mod Quiet
mod Examples
use ukiel.Base.{
  ◌≡◌, ℕ, ◌+◌, max, String, Bool, true, false, not, ◌&&◌, ◌||◌, Option, none, some, List, [], ◌∷◌,
  map, leb, ltb, ◌==◌, nat_eq, string_eq, any, all, find, select, elem, length, if◌then◌else◌,
}
use ukiel.Base.Int.{ℤ, leℤ}
use ukiel.Base.Order.{order_by}
use ukiel.Core.Part.{Part, ColumnStats, ColumnRange}
use ukiel.Core.Keyfilter.{sql_predicate, sql_binds}
use ukiel.Catalog.Db.{Db, CommitRow, PartRow, to_part}
use ukiel.Catalog.Feed.{part_key}
use ukiel.Catalog.Parts.{is_live}

-- `$2 IS NULL OR (packing_key_min <= $2 AND packing_key_max >= $2)`
abbrev pub spans : Option ℤ → PartRow → Bool
spans none p = true
spans (some k) p = leℤ p.meta.packing_key_min k && leℤ k p.meta.packing_key_max

unfoldable pub live_parts : ℕ → Option ℤ → Db → List Part
live_parts ht key d = map to_part (
    order_by part_key
      (select (λ (p : PartRow). p.hypertable_id == ht && (is_live p && spans key p)) d.parts))

-- The clause of the key: the range, and the filter's answer.
abbrev pub may_hold : Option ℤ → PartRow → Bool
may_hold none p = true
may_hold (some k) p = spans (some k) p && sql_predicate p.key_filter (sql_binds k)

-- What `column_stats -> name` is: NULL, the `min` and `max` of a column, or one of the two indexes,
-- a string and an array, of which `->> 'min'` and `->> 'max'` are NULL.
pub data Entry : Type 0 where
  missing index : Entry
  bounds : (low high : ℤ) → Entry

abbrev pub is_some {ℓ} : {A : Type ℓ} → Option A → Bool
is_some none = false
is_some (some a) = true

-- The name is that of an index which the object has.
abbrev pub indexed : ColumnStats → String → Bool
indexed s name =
    (is_some s.packing_keys && name == "packing_keys")
    || (is_some s.key_row_groups && name == "key_row_groups")

abbrev pub column_entry : List (String × (ℤ × ℤ)) → String → Entry
column_entry columns name = elim (find (λ (c : String × (ℤ × ℤ)). c.0 == name) columns) [
  | none ↦ missing
  | some (column, (low, high)) ↦ bounds low high
]

abbrev pub entry : Option ColumnStats → String → Entry
entry none name = missing
entry (some s) name = if indexed s name then index else column_entry s.columns name

abbrev pub at_most : Option ℤ → ℤ → Bool
at_most none x = true
at_most (some bound) x = leℤ bound x

abbrev pub at_least : Option ℤ → ℤ → Bool
at_least none x = true
at_least (some bound) x = leℤ x bound

-- The clause of a range: no entry keeps the part, and a NULL bound is open. A comparison with NULL
-- is NULL, and a clause that is NULL drops the part.
unfoldable pub may_overlap : PartRow → ColumnRange → Bool
may_overlap p r = elim (entry p.meta.column_stats r.column) [
  | missing ↦ true
  | index ↦ not (is_some r.min) && not (is_some r.max)
  | bounds low high ↦ at_most r.min high && at_least r.max low
]

unfoldable pub live_parts_pruned : ℕ → Option ℤ → List ColumnRange → Db → List Part
live_parts_pruned ht key ranges d = map to_part (
    order_by part_key (
      select
        (λ (p : PartRow).
          (p.hypertable_id == ht && (is_live p && may_hold key p)) && all (may_overlap p) ranges)
        d.parts))

-- The L0 parts that ever arrived in the partition, live or not.
abbrev pub arrived : ℕ → String → PartRow → Bool
arrived ht partition p =
    p.hypertable_id == ht && (p.meta.partition_values == partition && p.meta.level == 0)

-- `max(c.created_at)` over the join of those parts with their commits.
unfoldable pub last_arrival : ℕ → String → List CommitRow → List PartRow → Option ℕ
last_arrival ht partition commits [] = none
last_arrival ht partition commits (p ∷ ps) =
    let rest = last_arrival ht partition commits ps in
    if arrived ht partition p
    then elim (find (λ (c : CommitRow). c.id == p.created_by_commit) commits) [
      | none ↦ rest
      | some c ↦ some (elim rest [ none ↦ c.created_at | some t ↦ max c.created_at t ])
    ]
    else rest

-- `coalesce(max(c.created_at) < now() - quiet, true)`
abbrev pub quiet_since : ℕ → ℕ → Option ℕ → Bool
quiet_since now quiet none = true
quiet_since now quiet (some t) = ltb (t + quiet) now

unfoldable pub partition_l0_quiet_since : ℕ → ℕ → String → ℕ → Db → Bool
partition_l0_quiet_since now ht partition quiet d =
    quiet_since now quiet (last_arrival ht partition d.commits d.parts)

-- The `NOT EXISTS` of `finalize_candidates`.
unfoldable pub no_recent_arrival : ℕ → ℕ → String → ℕ → Db → Bool
no_recent_arrival now ht partition quiet d = not (
    any
      (λ (p : PartRow).
        arrived ht partition p
        && elim (find (λ (c : CommitRow). c.id == p.created_by_commit) d.commits) [
          | none ↦ false
          | some c ↦ leb now (c.created_at + quiet)
        ])
      d.parts)

unfoldable pub live_partition_parts : ℕ → String → Db → List Part
live_partition_parts ht partition d = map to_part (
    order_by part_key (
      select
        (λ (p : PartRow).
          p.hypertable_id == ht && (is_live p && p.meta.partition_values == partition))
        d.parts))

abbrev pub live_l0 : ℕ → String → PartRow → Bool
live_l0 ht partition p =
    p.hypertable_id == ht
    && (is_live p && (p.meta.level == 0 && p.meta.partition_values == partition))

-- `max(cnt)` of the groups of the given partitions, 0 where there is none.
unfoldable pub max_live_l0_parts : ℕ → List String → Db → ℕ
max_live_l0_parts ht [] d = 0
max_live_l0_parts ht (partition ∷ partitions) d =
    max (length (select (live_l0 ht partition) d.parts)) (max_live_l0_parts ht partitions d)
