-- ===== src/Catalog/Windows/Examples.antt =====
-- The windows on concrete tables, under the collation by code points.
use ukiel.Base.{ℕ, ◌≡◌, refl, String, none, some, [], ◌∷◌, All, arith, nat_eq}
use ukiel.Base.Int.{pos}
use ukiel.Base.Texts.{by_codes}
use ukiel.Catalog.Db.{Db, PartRow, fresh}
use ukiel.Catalog.Leases.{claim}
use ukiel.Catalog.Windows.{from_rows, window_sql, triggered, compaction_candidates, claimable}
use ukiel.Catalog.Windows.Offered.{Claimed, compaction_candidates-Claimed}

abbrev part : ℕ → String → ℕ → PartRow
part id partition commit = record {
  id = id;
  hypertable_id = 1;
  meta = record {
    path = "a";
    partition_values = partition;
    packing_key_min = pos 3;
    packing_key_max = pos 9;
    row_count = 10;
    size_bytes = 4096;
    level = 0;
    column_stats = none;
  };
  key_filter = none;
  created_by_commit = commit;
  deleted_by_commit = none;
  purged_at = none;
}

-- Two runs in each of "a", "b" and "c", one in "d"; worker 8 holds "b" until 160.
abbrev pub tables : Db
tables = record (fresh (1 ∷ [])) {
  parts =
      part 1 "c" 1
      ∷ part 2 "c" 2
      ∷ part 3 "a" 1
      ∷ part 4 "a" 3
      ∷ part 5 "b" 1
      ∷ part 6 "b" 2
      ∷ part 7 "d" 1
      ∷ [];
  leases = claim 1 "b" 8 1 160 ∷ [];
}

window :
    compaction_candidates 1 7 2 4 10 none 100 tables
    ≡ record { partitions = "a" ∷ "c" ∷ []; next_cursor = some "c"; eligible = 3; leased = 1 }
unfolding compaction_candidates from_rows window_sql
window = refl

after_a : (compaction_candidates 1 7 2 4 10 (some "a") 100 tables).partitions ≡ "c" ∷ []
unfolding compaction_candidates from_rows window_sql
after_a = refl

unheld : claimable (compaction_candidates 1 7 2 4 10 none 100 tables) ≡ 2
unfolding compaction_candidates from_rows window_sql claimable
unheld = refl

compaction_candidates-Claimed_example :
    All
      (Claimed 1 7 60 100 none tables (triggered 1 2 4 tables))
      (compaction_candidates 1 7 2 4 10 none 100 tables).partitions
compaction_candidates-Claimed_example =
    compaction_candidates-Claimed 1 7 60 100 none tables refl (omega arith) (omega arith) 2 4 10
