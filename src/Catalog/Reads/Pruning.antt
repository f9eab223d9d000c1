-- ===== src/Catalog/Reads/Pruning.antt =====
-- parts.rs: pruning by key and by statistics, and the rows that a query asks for.
use ukiel.Base.{
  ◌≡◌, refl, ap, subst, ◌∙◌, ℕ, String, true, Option, none, some, List, [], ◌∷◌, ◌==◌, ◌||◌, false,
  ◌≢◌, string_eq, nat_eq, all, arith, All, Option-cases, inl, inr,
}
use mathlib.Core.List.{Memᴰ}
use mathlib.Core.List.Memᴰ
use ukiel.Base.Members.{All-Mem, select-Mem, order_by-Mem}
use ukiel.Base.Int.{ℤ, ◌≤ℤ◌}
use ukiel.Core.Part.{ColumnRange, ColumnStats}
use ukiel.Core.Keyfilter.{build, sql_predicate, sql_binds}
use ukiel.Core.Keyfilter.Sql.{sql_keeps_present}
use ukiel.Catalog.Db.{Db, PartRow, to_part}
use ukiel.Catalog.Feed.{part_key}
use ukiel.Catalog.Parts.{is_live}
use ukiel.Catalog.Reads.{
  Entry, missing, index, bounds, column_entry, may_hold, entry, at_most, at_least, may_overlap,
  live_parts_pruned,
}

-- A row of a part: its packing key, and the values of its Int64 columns that are not null.
pub record Row : Type 0 where
  pub key : ℤ
  pub value : String → Option ℤ

-- What the writer of the part recorded holds of the row.
pub record Describes (p : PartRow) (row : Row) : Type 0 where
  pub lowest : p.meta.packing_key_min ≤ℤ row.key
  pub highest : row.key ≤ℤ p.meta.packing_key_max
  pub filtered :
      (blob : List ℕ)
      → p.key_filter ≡ some blob
      → (keys : List ℤ) × (build keys ≡ some blob) × Memᴰ row.key keys
  pub measured :
      (column : String) (low high x : ℤ)
      → entry p.meta.column_stats column ≡ bounds low high
      → row.value column ≡ some x
      → (low ≤ℤ x) × (x ≤ℤ high)

pub record Within (row : Row) (r : ColumnRange) : Type 0 where
  pub number : ℤ
  pub is : row.value r.column ≡ some number
  pub above : at_most r.min number ≡ true
  pub below : at_least r.max number ≡ true

-- The row is one that the query asks for.
pub record Matches (key : Option ℤ) (ranges : List ColumnRange) (row : Row) : Type 0 where
  pub wanted : (k : ℤ) → key ≡ some k → row.key ≡ k
  pub within : All (Within row) ranges

at_most_later :
    (bound : Option ℤ) (x y : ℤ) → at_most bound x ≡ true → x ≤ℤ y → at_most bound y ≡ true
at_most_later none x y h g = refl
at_most_later (some b) x y h g = ground (arith, g)

at_least_before :
    (bound : Option ℤ) (x y : ℤ) → at_least bound x ≡ true → y ≤ℤ x → at_least bound y ≡ true
at_least_before none x y h g = refl
at_least_before (some b) x y h g = ground (arith, g)

-- The range is on no column that has the name of an index.
abbrev pub Unreserved : ColumnRange → Type 0
Unreserved r = (r.column == "packing_keys" || r.column == "key_row_groups") ≡ false

column_not_index :
    (columns : List (String × (ℤ × ℤ))) (name : String) → column_entry columns name ≢ index
column_not_index columns name h = ground (arith, h)

not_index :
    (stats : Option ColumnStats) (name : String)
    → (name == "packing_keys" || name == "key_row_groups") ≡ false
    → entry stats name ≢ index
not_index none name u h = cc
not_index (some s) name u h = ground (arith, u, column_not_index s.columns name)

module _ (p : PartRow) (row : Row) (described : Describes p row) where
  overlaps : (r : ColumnRange) → Unreserved r → Within row r → may_overlap p r ≡ true
  unfolding may_overlap
  overlaps r u w = by_entry (entry p.meta.column_stats r.column) refl
    where
      by_entry : (x : Entry) → entry p.meta.column_stats r.column ≡ x → may_overlap p r ≡ true
      by_entry missing e = rw (e, may_overlap) refl
      by_entry index e = absurd (not_index p.meta.column_stats r.column u e)
      by_entry (bounds low high) e =
          let (l, h) = described.measured r.column low high w.number e w.is in
          rw (e, may_overlap)
            (rw (at_most_later r.min w.number high w.above h)
              (at_least_before r.max w.number low w.below l))

  all_overlap :
      (ranges : List ColumnRange)
      → All Unreserved ranges
      → All (Within row) ranges
      → all (may_overlap p) ranges ≡ true
  all_overlap [] u a = refl
  all_overlap (r ∷ ranges) u a = rw (overlaps r u.0 a.0) (all_overlap ranges u.1 a.1)

  filter_keeps : sql_predicate p.key_filter (sql_binds row.key) ≡ true
  filter_keeps = elim (Option-cases p.key_filter) [
    | inl e ↦ ap (λ f. sql_predicate f (sql_binds row.key)) e ∙ unfold sql_predicate in refl
    | inr (blob, e) ↦
        let (keys, built, member) = described.filtered blob e in
        ap (λ f. sql_predicate f (sql_binds row.key)) e
        ∙ All-Mem (λ k. sql_predicate (some blob) (sql_binds k) ≡ true) keys row.key
            (sql_keeps_present keys blob built) member
  ]

  holds : (key : Option ℤ) → ((k : ℤ) → key ≡ some k → row.key ≡ k) → may_hold key p ≡ true
  holds none w = refl
  holds (some k) w =
      subst (λ x. may_hold (some x) p ≡ true) (w k refl)
        (rw filter_keeps (ground (arith, described.lowest, described.highest)))

-- A live part of the hypertable that holds a row the query asks for is among the parts it gets, if
-- what the part's writer recorded holds of that row, and no range is on a column named as one of
-- the two indexes of the statistics.
pub live_parts_pruned-Mem :
    (ht : ℕ) (key : Option ℤ) (ranges : List ColumnRange) (d : Db) (p : PartRow) (row : Row)
    → Memᴰ p d.parts
    → p.hypertable_id ≡ ht
    → is_live p ≡ true
    → Describes p row
    → All Unreserved ranges
    → Matches key ranges row
    → Memᴰ (to_part p) (live_parts_pruned ht key ranges d)
unfolding live_parts_pruned
live_parts_pruned-Mem ht key ranges d p row m own live described unreserved matches =
    let here : (p.hypertable_id == ht) ≡ true = ground arith in
    Memᴰ.map to_part (
      order_by-Mem part_key _ p (
        select-Mem _ d.parts p
          (rw (here, live, holds p row described key matches.wanted)
            (all_overlap p row described ranges unreserved matches.within))
          m))
