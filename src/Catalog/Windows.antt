-- ===== src/Catalog/Windows.antt =====
-- crates/ukiel-catalog/src/parts.rs: the bounded windows of partitions that the compactor's sweeps
-- are offered. A partition is its `jsonb` text, so the value and its cursor are one string; the
-- order of texts is the database's collation (`o`). `clock` is `clock_timestamp()`, `now` is `now()`.
pub mod Offered
pub mod Resumed
pub mod Examples
use ukiel.Base.{
  ℕ, ◌+◌, ◌-◌, String, Bool, true, false, not, ◌&&◌, Option, none, some, List, [], ◌∷◌, map, leb,
  ltb, ◌==◌, nat_eq, string_eq, any, select, length, take, distinct, if◌then◌else◌,
}
use ukiel.Base.Sort.{Order, sort}
use ukiel.Catalog.Db.{Db, PartRow, LeaseRow}
use ukiel.Catalog.Leases.{on}
use ukiel.Catalog.Parts.{is_live}
use ukiel.Catalog.Reads.{no_recent_arrival}

pub record CandidateWindow : Type 0 where
  pub partitions : List String
  pub next_cursor : Option String
  pub eligible : ℕ
  pub leased : ℕ

unfoldable pub claimable : CandidateWindow → ℕ
claimable w = w.eligible - w.leased

-- `(eligible, leased, partition_values, cursor)`
pub record WindowRow : Type 0 where
  pub eligible : ℕ
  pub leased : ℕ
  pub partition_values : Option String
  pub cursor : Option String

abbrev pub last_cursor : List WindowRow → Option String
last_cursor [] = none
last_cursor (r ∷ []) = r.cursor
last_cursor (r ∷ s ∷ rows) = last_cursor (s ∷ rows)

abbrev pub present : List WindowRow → List String
present [] = []
present (r ∷ rows) = elim r.partition_values [ none ↦ present rows | some p ↦ p ∷ present rows ]

abbrev pub counts : List WindowRow → ℕ × ℕ
counts [] = (0, 0)
counts (r ∷ rows) = (r.eligible, r.leased)

unfoldable pub from_rows : List WindowRow → CandidateWindow
from_rows rows = record {
  partitions = present rows;
  next_cursor = last_cursor rows;
  eligible = (counts rows).0;
  leased = (counts rows).1;
}

-- The `EXISTS` of `marked`: an unexpired lease of somebody else.
abbrev pub peer_holds : ℕ → ℕ → ℕ → Db → String → Bool
peer_holds ht owner clock d partition =
    any
      (λ (l : LeaseRow). on ht partition l && (ltb clock l.expires_at && not (l.owner_id == owner)))
      d.leases

module _ ⦃o : Order String⦄ where
  -- `after IS NULL OR partition_values::text > after`
  abbrev pub beyond : Option String → String → Bool
  beyond none p = true
  beyond (some a) p = not (o.le p a)

  -- The lateral sub-select.
  abbrev pub window_of : (String → Bool) → List String → ℕ → Option String → List String
  window_of held eligible limit after =
      take limit (sort (select (λ p. not (held p) && beyond after p) eligible))

  -- `LEFT JOIN LATERAL`: the counts come back beside no partition where the window is empty.
  abbrev pub joined : ℕ → ℕ → List String → List WindowRow
  joined e l [] = record { eligible = e; leased = l; partition_values = none; cursor = none } ∷ []
  joined e l (p ∷ ps) =
      map (λ q. record { eligible = e; leased = l; partition_values = some q; cursor = some q })
        (p ∷ ps)

  -- The query of `window_sql` over the set of eligible partitions.
  unfoldable pub window_sql : ℕ → ℕ → ℕ → Db → List String → ℕ → Option String → List WindowRow
  window_sql ht owner clock d eligible limit after =
      joined (length eligible) (length (select (peer_holds ht owner clock d) eligible))
        (window_of (peer_holds ht owner clock d) eligible limit after)

-- The live parts of the partition.
abbrev pub live_in : ℕ → String → PartRow → Bool
live_in ht partition p =
    p.hypertable_id == ht && (is_live p && p.meta.partition_values == partition)

-- The partitions that have live parts.
abbrev pub live_partitions : ℕ → Db → List String
live_partitions ht d = distinct (
    map (λ (p : PartRow). p.meta.partition_values)
      (select (λ (p : PartRow). p.hypertable_id == ht && is_live p) d.parts))

-- The live runs of a level of the partition: one for each commit.
abbrev pub level_runs : ℕ → String → ℕ → Db → ℕ
level_runs ht partition level d = length (
    distinct (
      map (λ (p : PartRow). p.created_by_commit)
        (select (λ (p : PartRow). live_in ht partition p && p.meta.level == level) d.parts)))

abbrev pub trigger : ℕ → ℕ → ℕ → ℕ
trigger l0_fanout fanout level = if level == 0 then l0_fanout else fanout

-- Some level of the partition has reached its trigger.
abbrev pub triggered : ℕ → ℕ → ℕ → Db → String → Bool
triggered ht l0_fanout fanout d partition =
    any
      (λ (p : PartRow).
        live_in ht partition p
        && leb (trigger l0_fanout fanout p.meta.level) (level_runs ht partition p.meta.level d))
      d.parts

abbrev pub partition_runs : ℕ → String → Db → ℕ
partition_runs ht partition d =
    length (
      distinct (map (λ (p : PartRow). p.created_by_commit) (select (live_in ht partition) d.parts)))

abbrev pub finalizable : ℕ → ℕ → ℕ → Db → String → Bool
finalizable ht now quiet d partition =
    leb 2 (partition_runs ht partition d) && no_recent_arrival now ht partition quiet d

module _ ⦃o : Order String⦄ where
  unfoldable pub compaction_candidates :
      ℕ → ℕ → ℕ → ℕ → ℕ → Option String → ℕ → Db → CandidateWindow
  compaction_candidates ht owner l0_fanout fanout limit after clock d = from_rows (
      window_sql ht owner clock d (select (triggered ht l0_fanout fanout d) (live_partitions ht d))
        limit after)

  unfoldable pub finalize_candidates : ℕ → ℕ → ℕ → ℕ → Option String → ℕ → ℕ → Db → CandidateWindow
  finalize_candidates ht owner quiet limit after now clock d = from_rows (
      window_sql ht owner clock d (select (finalizable ht now quiet d) (live_partitions ht d)) limit
        after)
