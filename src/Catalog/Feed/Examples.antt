-- ===== src/Catalog/Feed/Examples.antt =====
-- Tests of feed.rs and cursors.rs, and the theorems on the feed at concrete inputs.
use ukiel.Base.{
  arith, ℕ, ◌+◌, ◌≡◌, refl, String, Option, none, some, List, [], ◌∷◌, ◌++◌, map, max, nat_eq, ◌⊎◌,
}
use ukiel.Base.Int.{pos}
use ukiel.Core.Part.{PartMeta}
use ukiel.Core.Commit.{CommitOp, ChangeEvent, replace, committed, kind}
use ukiel.Catalog.Db.{Db, CommitRow, PartRow, fresh}
use ukiel.Catalog.Tx.{ok}
use ukiel.Catalog.Commit.{Times, acknowledged, commit_txn, recorded, fence, out_of_scope}
use ukiel.Catalog.Commit.Applied.{Allowed, applied, removed}
use ukiel.Catalog.Commit.Outcome.{commit_txn-applied}
use ukiel.Catalog.Commit.Atomicity.{RolledBack, Durable, commit_txn-Durable}
use ukiel.Catalog.Invariant.{WellFormed, commit_txn-WellFormed}
use ukiel.Catalog.Feed.{event, feed_head, changes_since}
use ukiel.Catalog.Feed.Resume.{last_event, changes_since-resume}
use ukiel.Catalog.Feed.Published.{published, commit_txn-published}
use ukiel.Catalog.Cursors.{get_cursor, set_cursor}
use ukiel.Catalog.Cursors.Monotone.{set_cursor-get}

abbrev no_bitmaps : String → Option (List ℕ)
no_bitmaps s = none

abbrev t : Times
t = record { now = 100; clock = 105 }

abbrev file : String → PartMeta
file path = record {
  path = path;
  partition_values = "{}";
  packing_key_min = pos 3;
  packing_key_max = pos 9;
  row_count = 10;
  size_bytes = 4096;
  level = 0;
  column_stats = none;
}

abbrev row : ℕ → ℕ → String → CommitRow
row id ht kind = record {
  id = id;
  hypertable_id = ht;
  kind = kind;
  idempotency_key = none;
  operation_fingerprint = none;
  created_at = 90;
}

abbrev part : ℕ → String → ℕ → Option ℕ → PartRow
part id path created deleted = record {
  id = id;
  hypertable_id = 1;
  meta = file path;
  key_filter = none;
  created_by_commit = created;
  deleted_by_commit = deleted;
  purged_at = none;
}

-- Commit 2 belongs to another hypertable, and the ids 4 to 6 were rolled back.
abbrev busy : Db
busy = record (fresh (1 ∷ 2 ∷ [])) {
  sequences = record { next_commit = 8; next_part = 5; next_generation = 1 };
  commits = row 1 1 "add" ∷ row 2 2 "add" ∷ row 3 1 "add" ∷ row 7 1 "delete" ∷ [];
  parts =
      part 1 "a" 1 (some 7) ∷ part 2 "b" 1 none ∷ part 3 "c" 3 none ∷ part 4 "d" 3 (some 7) ∷ [];
}

busy-WellFormed : WellFormed busy
busy-WellFormed = record {
  commits_ordered = ground arith;
  commits_drawn = ground arith;
  parts_ordered = ground arith;
  parts_drawn = ground arith;
  lives = ground arith;
}

abbrev summary : ChangeEvent → ℕ × List ℕ
summary e = (e.commit_id, e.removed)

first_batch : map summary (changes_since 1 0 2 busy) ≡ (1, []) ∷ (3, []) ∷ []
unfolding changes_since event feed_head
first_batch = refl

second_batch : map summary (changes_since 1 3 2 busy) ≡ (7, 1 ∷ 4 ∷ []) ∷ []
unfolding changes_since event feed_head
second_batch = refl

changes_since-resume_example :
    changes_since 1 0 (2 + 5) busy
    ≡ changes_since 1 0 2 busy ++ changes_since 1 (last_event 0 (changes_since 1 0 2 busy)) 5 busy
changes_since-resume_example = changes_since-resume 1 0 2 5 busy busy-WellFormed.commits_ordered

abbrev swap : CommitOp
swap = replace (2 ∷ 3 ∷ []) (file "e" ∷ [])

swap-Allowed : Allowed 1 swap none [] busy
unfolding removed
swap-Allowed = record { key_free = refl; known = refl; all_live = refl; unblocked = tt }

swap_run :
    commit_txn no_bitmaps acknowledged t 1 swap none [] none busy
    ≡ (ok (committed 8), applied no_bitmaps 100 1 swap none [] busy)
swap_run =
    commit_txn-applied no_bitmaps t 1 swap none [] none busy (unfold out_of_scope in refl)
      (unfold recorded in refl) (unfold fence in refl) swap-Allowed

commit_txn-published_example :
    changes_since 1 3 10 (applied no_bitmaps 100 1 swap none [] busy)
    ≡ changes_since 1 3 10 busy ++ published no_bitmaps 100 1 swap none [] busy ∷ []
commit_txn-published_example =
    commit_txn-published no_bitmaps acknowledged t 1 swap none [] none 3 10 8 busy
      (applied no_bitmaps 100 1 swap none [] busy) busy-WellFormed swap_run (omega arith)
      (omega arith)

commit_txn-Durable_example :
    let d' = (commit_txn no_bitmaps acknowledged t 1 swap none [] none busy).1 in
    RolledBack busy d' ⊎ Durable no_bitmaps t 1 swap none [] none busy d'
commit_txn-Durable_example = commit_txn-Durable no_bitmaps t 1 swap none [] none acknowledged busy

commit_txn-WellFormed_example :
    WellFormed (commit_txn no_bitmaps acknowledged t 1 swap none [] none busy).1
commit_txn-WellFormed_example =
    commit_txn-WellFormed no_bitmaps acknowledged t 1 swap none [] none busy busy-WellFormed

set_cursor-get_example :
    let run = set_cursor "compactor" 1 3 busy in
    (run.0 ≡ ok tt)
    × (get_cursor "compactor" 1 run.1 ≡ max (get_cursor "compactor" 1 busy) 3)
    × ((asked : String) (other : ℕ)
        → ¬ ((asked ≡ "compactor") × (other ≡ 1))
        → get_cursor asked other run.1 ≡ get_cursor asked other busy)
set_cursor-get_example = set_cursor-get "compactor" 1 3 busy refl
