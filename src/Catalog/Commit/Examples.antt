-- ===== src/Catalog/Commit/Examples.antt =====
-- Tests of commit.rs, and its theorems at concrete inputs.
use ukiel.Base.{arith, ℕ, ◌≡◌, refl, String, Option, none, some, List, [], ◌∷◌}
use ukiel.Base.Int.{pos}
use ukiel.Core.Part.{PartMeta}
use ukiel.Core.Commit.{
  CommitOp, OperationIdentity, add, replace, delete, committed, already_applied, kind,
}
use ukiel.Catalog.Error.{io, ambiguous_mutation, operation_key_collision, class_for_db_error}
use ukiel.Catalog.Db.{Db, LeaseRow, fresh}
use ukiel.Catalog.Tx.{ok, err}
use ukiel.Catalog.Offsets.{OffsetRange, blocked, upsert_offset}
use ukiel.Catalog.Parts.{part_row, key_filter, stats_keys}
use ukiel.Catalog.Commit.{
  Times, acknowledged, lost, refused, commit_txn, commit_compaction_replace, lookup_operation,
  landed, absent, out_of_scope, fence, fence_lease, fence_scope,
}
use ukiel.Catalog.Commit.Applied.{Allowed, applied, removed, added, register, upsert_offsets}
use ukiel.Catalog.Commit.Outcome.{
  Went, Unchanged, DidNotCommit, commit_txn-Went, commit_txn-applied,
}
use ukiel.Catalog.Commit.Replay.{Recorded, Foreign, applied-Recorded, commit_txn-Recorded}
use ukiel.Catalog.Commit.Ambiguity.{ambiguity_decided, commit_txn-Foreign, recorded_free}
use ukiel.Catalog.Commit.Fencing.{zombie_cannot_commit}
use ukiel.Catalog.Commit.Confined.{Confined, commit_compaction_replace-Confined}
use ukiel.Catalog.Commit.Told.{Told, commit_txn-Told}
use ukiel.Catalog.Invariant.{WellFormed, applied-WellFormed, fresh-WellFormed}

abbrev no_bitmaps : String → Option (List ℕ)
no_bitmaps s = none

abbrev t : Times
t = record { now = 100; clock = 105 }

abbrev file : String → ℕ → PartMeta
file path level = record {
  path = path;
  partition_values = "{\"day\": \"2026-07-05\"}";
  packing_key_min = pos 3;
  packing_key_max = pos 9;
  row_count = 10;
  size_bytes = 4096;
  level = level;
  column_stats = none;
}

abbrev ingest : OperationIdentity
ingest = record { hypertable_id = 1; key = "ukiel/ingest/v1/a1"; fingerprint = 161 ∷ 17 ∷ [] }

abbrev merge : OperationIdentity
merge = record { hypertable_id = 1; key = "ukiel/compaction/v1/b2"; fingerprint = 178 ∷ 34 ∷ [] }

abbrev range : OffsetRange
range = record { topic = "events"; partition = 0; first = 0; last = 41 }

abbrev empty : Db
empty = fresh (1 ∷ [])

abbrev first_op : CommitOp
first_op = add (file "a" 0 ∷ file "b" 0 ∷ [])

first-Allowed : Allowed 1 first_op (some ingest) (range ∷ []) empty
unfolding removed blocked
first-Allowed = record { key_free = refl; known = refl; all_live = refl; unblocked = (refl, tt) }

-- After the first commit: two live parts, and the offset behind the range.
loaded : Db
unfolding applied removed added register upsert_offsets upsert_offset part_row key_filter stats_keys
    kind
loaded = applied no_bitmaps 100 1 first_op (some ingest) (range ∷ []) empty

first_run :
    commit_txn no_bitmaps acknowledged t 1 first_op (some ingest) (range ∷ []) none empty
    ≡ (ok (committed 1), loaded)
unfolding loaded
first_run =
    commit_txn-applied no_bitmaps t 1 first_op (some ingest) (range ∷ []) none empty
      (unfold out_of_scope in refl) (recorded_free none ingest empty refl) (unfold fence in refl)
      first-Allowed

commit_txn-applied_example :
    commit_txn no_bitmaps acknowledged t 1 first_op (some ingest) (range ∷ []) none empty
    ≡ (ok (committed 1), applied no_bitmaps 100 1 first_op (some ingest) (range ∷ []) empty)
commit_txn-applied_example =
    commit_txn-applied no_bitmaps t 1 first_op (some ingest) (range ∷ []) none empty
      (unfold out_of_scope in refl) (recorded_free none ingest empty refl) (unfold fence in refl)
      first-Allowed

commit_txn-Went_example :
    Went no_bitmaps t 1 first_op (some ingest) (range ∷ []) none 1 empty loaded
commit_txn-Went_example =
    commit_txn-Went no_bitmaps t 1 first_op (some ingest) (range ∷ []) none acknowledged empty
      loaded 1 first_run

loaded-Recorded : Recorded ingest 1 loaded
unfolding loaded
loaded-Recorded = applied-Recorded no_bitmaps t ingest first_op (range ∷ []) empty refl

-- The retry brings other files and other offsets.
commit_txn-Recorded_example :
    ((commit_txn no_bitmaps acknowledged t 1 (add (file "c" 0 ∷ [])) (some ingest) [] none loaded).0
      ≡ ok (already_applied 1))
    × Unchanged loaded
        (commit_txn no_bitmaps acknowledged t 1
          (add (file "c" 0 ∷ []))
          (some ingest)
          []
          none
          loaded).1
commit_txn-Recorded_example =
    commit_txn-Recorded no_bitmaps t ingest (add (file "c" 0 ∷ [])) [] acknowledged none 1 loaded
      loaded-Recorded

-- The same key under another digest.
abbrev forged : OperationIdentity
forged = record ingest { fingerprint = 0 ∷ [] }

forged-Foreign : Foreign forged loaded
unfolding loaded
forged-Foreign = record { row = _; found = refl; intent = λ e. cc }

commit_txn-Foreign_example :
    let run =
      commit_txn no_bitmaps acknowledged t 1 (delete (1 ∷ [])) (some forged) [] none loaded in
    (run.0 ≡ err (operation_key_collision forged.key)) × Unchanged loaded run.1
commit_txn-Foreign_example =
    commit_txn-Foreign no_bitmaps t forged (delete (1 ∷ [])) [] none acknowledged loaded
      forged-Foreign

abbrev lease : LeaseRow
lease = record {
  hypertable_id = 1;
  partition_values = (file "" 0).partition_values;
  owner_id = 7;
  generation = 3;
  expires_at = 200;
}

leased : Db
unfolding loaded
leased = record loaded { leases = lease ∷ [] }

abbrev merge_op : CommitOp
merge_op = replace (1 ∷ 2 ∷ []) (file "ab" 1 ∷ [])

merge-Allowed : Allowed 1 merge_op (some merge) [] leased
unfolding leased removed
merge-Allowed = record { key_free = refl; known = refl; all_live = refl; unblocked = tt }

merge_fence : fence 105 1 (some lease) merge_op leased ≡ (ok tt, leased)
unfolding fence fence_lease fence_scope leased
merge_fence = refl

ambiguity_decided_example :
    let durable =
      commit_txn no_bitmaps (lost io) t 1 merge_op (some merge) [] (some lease) leased in
    let gone =
      commit_txn no_bitmaps (refused io) t 1 merge_op (some merge) [] (some lease) leased in
    (durable.0 ≡ err (ambiguous_mutation merge merge.key io))
    × (gone.0 ≡ err (ambiguous_mutation merge merge.key io))
    × ((lookup_operation merge durable.1).0 ≡ ok (landed leased.next_commit))
    × ((lookup_operation merge gone.1).0 ≡ ok absent)
ambiguity_decided_example =
    ambiguity_decided no_bitmaps t merge merge_op [] (some lease) io leased
      (unfold class_for_db_error in refl) merge_fence merge-Allowed

-- The swap whose acknowledgement the network loses.
told :
    (commit_txn no_bitmaps (lost io) t 1 merge_op (some merge) [] (some lease) leased).0
    ≡ err (ambiguous_mutation merge merge.key io)
told = ambiguity_decided_example.0

commit_txn-Told_example :
    Told no_bitmaps t 1 merge_op
      (some merge)
      []
      (some lease)
      (lost io)
      merge
      merge.key
      io
      leased
      (commit_txn no_bitmaps (lost io) t 1 merge_op (some merge) [] (some lease) leased).1
commit_txn-Told_example =
    commit_txn-Told no_bitmaps t 1 merge_op (some merge) [] (some lease) (lost io) leased merge
      merge.key io told

merged_run :
    commit_compaction_replace no_bitmaps acknowledged t 1 lease
      (1 ∷ 2 ∷ [])
      (file "ab" 1 ∷ [])
      merge
      leased
    ≡ (ok (committed leased.next_commit), applied no_bitmaps 100 1 merge_op (some merge) [] leased)
unfolding commit_compaction_replace
merged_run =
    commit_txn-applied no_bitmaps t 1 merge_op (some merge) [] (some lease) leased
      (unfold out_of_scope in refl) (recorded_free (some lease) merge leased merge-Allowed.key_free)
      merge_fence merge-Allowed

leased-WellFormed : WellFormed leased
unfolding leased loaded
leased-WellFormed =
    let w =
      applied-WellFormed no_bitmaps 100 1 first_op (some ingest) (range ∷ []) empty
        (fresh-WellFormed (1 ∷ [])) in
    record {
      commits_ordered = w.commits_ordered;
      commits_drawn = w.commits_drawn;
      parts_ordered = w.parts_ordered;
      parts_drawn = w.parts_drawn;
      lives = w.lives;
    }

commit_compaction_replace-Confined_example :
    Confined 105 1 lease
      (1 ∷ 2 ∷ [])
      (file "ab" 1 ∷ [])
      leased
      (applied no_bitmaps 100 1 merge_op (some merge) [] leased)
commit_compaction_replace-Confined_example =
    commit_compaction_replace-Confined no_bitmaps acknowledged t 1 lease (1 ∷ 2 ∷ [])
      (file "ab" 1 ∷ []) merge leased (applied no_bitmaps 100 1 merge_op (some merge) [] leased)
      leased.next_commit leased-WellFormed merged_run

-- The same swap after the lease was handed back.
handed_back : Db
unfolding leased
handed_back = record leased {
  leases = [];
  sequences = record leased.sequences { next_generation = 4 };
}

zombie_cannot_commit_example :
    DidNotCommit
      (commit_compaction_replace no_bitmaps acknowledged t 1 lease
        (1 ∷ 2 ∷ [])
        (file "ab" 1 ∷ [])
        merge
        handed_back).0
unfolding handed_back
zombie_cannot_commit_example =
    zombie_cannot_commit no_bitmaps acknowledged t 1 lease (1 ∷ 2 ∷ []) (file "ab" 1 ∷ []) merge
      handed_back (record { gone = refl; drawn = omega arith })
