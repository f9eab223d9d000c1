-- ===== src/Catalog/Reads/Examples.antt =====
-- Tests of the reads of parts, and their theorems at concrete inputs.
use ukiel.Base.{
  false, ◌≡◌, refl, subst, ◌∙◌, ℕ, String, ◌==◌, string_eq, Bool-cases, inl, inr, Option, none,
  some, List, [], ◌∷◌, arith, map,
}
use mathlib.Core.List.{Memᴰ}
use ukiel.Base.Int.{ℤ, ◌≤ℤ◌, pos}
use ukiel.Core.Part.{Part, ColumnRange}
use ukiel.Core.Keyfilter.{
  build, sql_predicate, sql_binds, sql_arms, tier_for, set_keys, set_probes, probes, bit_index,
  probe_at, rem_euclid, zeroes,
}
use ukiel.Catalog.Db.{Db, PartRow, fresh, to_part}
use ukiel.Catalog.Reads.{
  live_parts_pruned, entry, bounds, column_entry, may_overlap, no_recent_arrival,
  partition_l0_quiet_since,
}
use ukiel.Catalog.Reads.Quiet.{no_recent_arrival-quiet}
use ukiel.Catalog.Reads.Pruning.{Row, live_parts_pruned-Mem}

abbrev tenants : List ℤ
tenants = pos 3 ∷ pos 9 ∷ []

packed : List ℕ
unfolding set_keys set_probes probes bit_index probe_at rem_euclid
packed = set_keys tenants 1024 (1 ∷ zeroes 128)

packed_built : build tenants ≡ some packed
unfolding build tier_for packed
packed_built = refl

abbrev part : ℕ → Option ℕ → PartRow
part id deleted_by = record {
  id = id;
  hypertable_id = 1;
  meta = record {
    path = "a";
    partition_values = "{}";
    packing_key_min = pos 3;
    packing_key_max = pos 9;
    row_count = 10;
    size_bytes = 4096;
    level = 0;
    column_stats = some (record {
      columns = ("ts", (pos 100, pos 200)) ∷ [];
      packing_keys = none;
      key_row_groups = none;
    });
  };
  key_filter = some packed;
  created_by_commit = 1;
  deleted_by_commit = deleted_by;
  purged_at = none;
}

abbrev tables : Db
tables = record (fresh (1 ∷ [])) { parts = part 1 (some 2) ∷ part 2 none ∷ [] }

abbrev asked : List ColumnRange
asked = record { column = "ts"; min = some (pos 150); max = none } ∷ []

abbrev too_late : List ColumnRange
too_late = record { column = "ts"; min = some (pos 201); max = none } ∷ []

abbrev row : Row
row = record { key = pos 9; value = λ c. some (pos 160) }

part_kept : map (λ (p : Part). p.id) (live_parts_pruned 1 (some (pos 9)) asked tables) ≡ 2 ∷ []
unfolding live_parts_pruned may_overlap sql_predicate sql_binds sql_arms packed
part_kept = refl

part_pruned : live_parts_pruned 1 (some (pos 9)) too_late tables ≡ []
unfolding live_parts_pruned may_overlap sql_predicate sql_binds sql_arms packed
part_pruned = refl

-- The key bitmap stands where the statistics of a column of its name stood: the part is dropped,
-- although the column had the number that is asked for.
abbrev bitmap_over : PartRow
bitmap_over = record (part 2 none) {
  meta = record (part 2 none).meta {
    column_stats = some (record {
      columns = ("packing_keys", (pos 100, pos 200)) ∷ [];
      packing_keys = some "AAAA";
      key_row_groups = none;
    });
  };
}

reserved_name :
    may_overlap bitmap_over (record { column = "packing_keys"; min = some (pos 150); max = none })
    ≡ false
unfolding may_overlap
reserved_name = refl

row_measured :
    (column : String) (low high x : ℤ)
    → entry (part 2 none).meta.column_stats column ≡ bounds low high
    → row.value column ≡ some x
    → (low ≤ℤ x) × (x ≤ℤ high)
row_measured column low high x h g = elim (Bool-cases ("ts" == column)) [
  | inr e ↦ cc (rw (e, entry, column_entry) at h)
  | inl e ↦
      let same : bounds (pos 100) (pos 200) ≡ bounds low high = rw (e, entry, column_entry) at h in
      let l : pos 100 ≡ low = cc same in
      let u : pos 200 ≡ high = cc same in
      let v : pos 160 ≡ x = cc g in
      subst (λ z. (low ≤ℤ z) × (z ≤ℤ high)) v
        (subst (λ a. (a ≤ℤ pos 160) × (pos 160 ≤ℤ high)) l
          (subst (λ b. (pos 100 ≤ℤ pos 160) × (pos 160 ≤ℤ b)) u (omega arith, omega arith)))
]

live_parts_pruned-Mem_example :
    Memᴰ (to_part (part 2 none)) (live_parts_pruned 1 (some (pos 9)) asked tables)
live_parts_pruned-Mem_example =
    live_parts_pruned-Mem 1 (some (pos 9)) asked tables (part 2 none) row
      (Memᴰ.tail (Memᴰ.head refl)) refl refl
      (record {
        lowest = omega arith;
        highest = omega arith;
        filtered = λ blob h. (tenants, packed_built ∙ h, Memᴰ.tail (Memᴰ.head refl));
        measured = row_measured;
      })
      (refl, tt)
      (record {
        wanted = λ k h. cc;
        within = (record { number = pos 160; is = refl; above = refl; below = refl }, tt);
      })

no_recent_arrival-quiet_example :
    no_recent_arrival 500 1 "{}" 60 tables ≡ partition_l0_quiet_since 500 1 "{}" 60 tables
no_recent_arrival-quiet_example = no_recent_arrival-quiet 500 1 "{}" 60 tables
