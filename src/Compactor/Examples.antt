-- ===== src/Compactor/Examples.antt =====
-- A sweep that rotates over the tables of the windows' tests, two partitions at a time.
use ukiel.Base.{
  ◌≡◌, refl, String, Option, none, some, List, [], ◌∷◌, ◌++◌, arith, select, map, ◌==◌, string_eq,
}
use ukiel.Base.Texts.{by_codes}
use ukiel.Catalog.Db.{to_part}
use ukiel.Catalog.Windows.{
  from_rows, window_sql, triggered, live_partitions, compaction_candidates, CandidateWindow,
}
use ukiel.Catalog.Windows.Examples.{tables}
use ukiel.Compactor.{CompactionStats, sweep, eligible_level}
use ukiel.Compactor.Rotation.{offered, unheld, sweep-rotation}

abbrev untouched : CompactionStats
untouched = record { candidates = 0; eligible = 0; leased_skips = 0; sweep_wraps = 0 }

abbrev one_by_one : Option String → CandidateWindow
one_by_one after = compaction_candidates 1 7 2 4 1 after 100 tables

-- "a", then "c", then the tail is run off and the head comes again.
three_sweeps : offered 3 1 one_by_one none untouched ≡ "a" ∷ "c" ∷ "a" ∷ []
unfolding offered sweep compaction_candidates from_rows window_sql
three_sweeps = refl

-- The commits 1 and 3 are two runs of level 0.
level_due :
    eligible_level 2 4 (map to_part (select (λ p. p.meta.partition_values == "a") tables.parts))
    ≡ some (0, map to_part (select (λ p. p.meta.partition_values == "a") tables.parts))
unfolding eligible_level
level_due = refl

three_runs : eligible_level 3 4 (map to_part tables.parts) ≡ some (0, map to_part tables.parts)
unfolding eligible_level
three_runs = refl

sweep-rotation_example :
    (more : List String) × (offered 2 1
        (λ after. compaction_candidates 1 7 2 4 1 after 100 tables)
        none
        untouched
      ≡ unheld 1 7 100 tables (select (triggered 1 2 4 tables) (live_partitions 1 tables)) ++ more)
sweep-rotation_example = sweep-rotation 1 7 100 tables 1 (omega arith) 2 4 2 untouched (omega arith)
