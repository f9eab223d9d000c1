-- ===== src/Gc/Examples.antt =====
-- Tests of the collector on a store that is a list of paths, and its theorems at concrete inputs.
use ukiel.Base.{
  ◌≡◌, ◌≢◌, refl, ℕ, String, Bool, true, not, Option, none, some, List, [], ◌∷◌, arith, elem,
  select, ◌==◌, string_eq, eq_iff, if◌then◌else◌,
}
use ukiel.Base.Int.{pos}
use ukiel.Core.Part.{PartMeta}
use ukiel.Catalog.Db.{Db, CommitRow, PartRow, fresh}
use ukiel.Catalog.Gc.{next_reapable_part, reapable, past_grace, passed, min_cursor, mark_purged}
use ukiel.Gc.{
  Deletion, deleted, not_found, failed, Round, returned, State, reap, reap_round, reap_part, stamp,
  sweep,
}
use ukiel.Gc.Reap.{Safe, Quiet, reap-Safe, reap-returned}
use ukiel.Gc.Sweep.{Spared, sweep-Spared}

-- An object store that lists its objects.
abbrev delete_listed : String → List String → Deletion × List String
delete_listed path s = (if elem path s then deleted else not_found, select (λ o. not (o == path)) s)

abbrev Has : String → List String → Type 0
Has q s = elem q s ≡ true

spares_others :
    (q path : String) (s : List String) → path ≢ q → Has q s → Has q (delete_listed path s).1
spares_others q path [] n h = h
spares_others q path (o ∷ s) n h =
    ground (arith, spares_others q path s n, eq_iff o path, eq_iff q o)

listed_works : (path : String) (s : List String) (e : String) → (delete_listed path s).0 ≢ failed e
listed_works path s e h = ground arith

abbrev file : String → PartMeta
file path = record {
  path = path;
  partition_values = "{}";
  packing_key_min = pos 3;
  packing_key_max = pos 9;
  row_count = 10;
  size_bytes = 4096;
  level = 0;
  column_stats = none;
}

abbrev row : ℕ → ℕ → CommitRow
row id created_at = record {
  id = id;
  hypertable_id = 1;
  kind = "replace";
  idempotency_key = none;
  operation_fingerprint = none;
  created_at = created_at;
}

abbrev part : ℕ → String → Option ℕ → PartRow
part id path deleted_by = record {
  id = id;
  hypertable_id = 1;
  meta = file path;
  key_filter = none;
  created_by_commit = 1;
  deleted_by_commit = deleted_by;
  purged_at = none;
}

-- "a" is past the grace and every cursor; "c" was deleted by a commit that a worker has not seen.
abbrev tables : Db
tables = record (fresh (1 ∷ [])) {
  sequences = record { next_commit = 4; next_part = 4; next_generation = 1 };
  commits = row 1 10 ∷ row 2 20 ∷ row 3 30 ∷ [];
  parts = part 1 "a" (some 2) ∷ part 2 "b" none ∷ part 3 "c" (some 3) ∷ [];
  worker_cursors = record { worker = "mv"; hypertable_id = 1; last_commit_id = 2 } ∷ [];
  pending_objects = record { hypertable_id = 1; path = "d"; created_at = 5 } ∷ [];
}

abbrev start : State (List String) delete_listed
start = record {
  db = tables;
  store = "a" ∷ "b" ∷ "c" ∷ "d" ∷ [];
  stats = record { reaped_parts = 0; swept_orphans = 0 };
}

abbrev quiet : Round
quiet = record { others = λ d. d; now = 2000; read_fault = none; write_fault = none }

abbrev four : List Round
four = quiet ∷ quiet ∷ quiet ∷ quiet ∷ []

reaped_once :
    let run = reap (List String) delete_listed 1 900 four start in
    (run.0 ≡ returned) × (run.1.store ≡ "b" ∷ "c" ∷ "d" ∷ []) × (run.1.stats.reaped_parts ≡ 1)
unfolding reap reap_round reap_part stamp next_reapable_part reapable past_grace passed min_cursor
    mark_purged
reaped_once = (refl, refl, refl)

quiet-Quiet : Quiet 2000 quiet
quiet-Quiet = record { at = refl; alone = λ d. refl; reads = refl; writes = refl }

reap-returned_example :
    let run = reap (List String) delete_listed 1 900 four start in
    (run.0 ≡ returned) × (next_reapable_part 2000 1 900 run.1.db ≡ none)
reap-returned_example =
    reap-returned (List String) delete_listed listed_works 1 900 2000 four start
      (quiet-Quiet, (quiet-Quiet, (quiet-Quiet, (quiet-Quiet, tt)))) (omega arith)

reap-Safe_example :
    Safe
      (List String)
      delete_listed
      (Has "b")
      "b"
      (spares_others "b")
      (reap (List String) delete_listed 1 900 four start).1
reap-Safe_example =
    reap-Safe (List String) delete_listed (Has "b") "b" (spares_others "b") 1 900 four start
      ((λ d h. h), ((λ d h. h), ((λ d h. h), ((λ d h. h), tt))))
      (((λ h. (eq_iff "a" "b").1 h), ((λ _. refl), ((λ h. (eq_iff "c" "b").1 h), tt))), refl)

abbrev by_bytes : String → String → Bool
by_bytes x y = true

sweep-Spared_example :
    Spared
      (List String)
      delete_listed
      (Has "b")
      "b"
      (spares_others "b")
      by_bytes
      (sweep (List String) delete_listed by_bytes 1 900 four start).1
sweep-Spared_example =
    sweep-Spared (List String) delete_listed (Has "b") "b" (spares_others "b") by_bytes 1 900 four
      start ((λ d h. h), ((λ d h. h), ((λ d h. h), ((λ d h. h), tt))))
      (((λ h. cc ((eq_iff "d" "b").1 h)), tt), refl)
