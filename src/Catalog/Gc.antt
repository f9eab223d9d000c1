-- ===== src/Catalog/Gc.antt =====
-- crates/ukiel-catalog/src/gc.rs: which parts may lose their objects, and the upload intents. Grace
-- periods are in milliseconds. `before` is the database's order of texts.
pub mod Authority
use ukiel.Base.{
  ℕ, ◌+◌, ◌-◌, ◌^◌, min, String, Bool, true, false, not, ◌&&◌, Option, none, some, List, [], ◌∷◌,
  ◌++◌, map, leb, ◌==◌, nat_eq, string_eq, any, find, select, update, elem, if◌then◌else◌,
}
use mathlib.Core.Option
use ukiel.Base.Order.{order_by}
use ukiel.Core.Part.{Part}
use ukiel.Catalog.Error.{db, database}
use ukiel.Catalog.Db.{Db, CommitRow, PartRow, CursorRow, PendingRow, to_part}
use ukiel.Catalog.Tx.{Tx, ok, err, pure, ◌>>◌}
use ukiel.Catalog.Feed.{part_key}

-- `fetch_optional`, of the rows in order.
abbrev pub first {ℓ} : {A : Type ℓ} → List A → Option A
first [] = none
first (x ∷ xs) = some x

-- `SELECT MIN(last_commit_id) FROM worker_cursors WHERE hypertable_id = $1`
unfoldable pub min_cursor : ℕ → List CursorRow → Option ℕ
min_cursor ht [] = none
min_cursor ht (r ∷ rs) =
    let rest = min_cursor ht rs in
    if r.hypertable_id == ht
    then some (elim rest [ none ↦ r.last_commit_id | some least ↦ min r.last_commit_id least ])
    else rest

-- `p.deleted_by_commit <= COALESCE(min, 9223372036854775807)`
unfoldable pub passed : ℕ → ℕ → Db → Bool
passed ht commit d = elim (min_cursor ht d.worker_cursors) [
  | none ↦ leb commit (2 ^ 63 - 1)
  | some least ↦ leb commit least
]

-- `c.created_at <= now() - grace`, of the commit that the join finds.
unfoldable pub past_grace : ℕ → ℕ → ℕ → Db → Bool
past_grace now grace commit d =
    any (λ (c : CommitRow). c.id == commit && leb (c.created_at + grace) now) d.commits

abbrev pub unpurged : PartRow → Bool
unpurged p = elim p.purged_at [ none ↦ true | some _ ↦ false ]

unfoldable pub reapable : ℕ → ℕ → ℕ → Db → PartRow → Bool
reapable now ht grace d p = elim p.deleted_by_commit [
  | none ↦ false
  | some commit ↦
      p.hypertable_id == ht && (unpurged p && (past_grace now grace commit d && passed ht commit d))
]

unfoldable pub reapable_parts : ℕ → ℕ → ℕ → Db → List Part
reapable_parts now ht grace d =
    map to_part (order_by part_key (select (reapable now ht grace d) d.parts))

unfoldable pub next_reapable_part : ℕ → ℕ → ℕ → Db → Option Part
next_reapable_part now ht grace d =
    Option.map to_part (first (order_by part_key (select (reapable now ht grace d) d.parts)))

unfoldable pub mark_purged : ℕ → List ℕ → Db → Db
mark_purged now ids d = record d {
  parts =
      update (λ (p : PartRow). elem p.id ids) (λ (p : PartRow). record p { purged_at = some now })
        d.parts;
}

unfoldable pub all_part_paths : ℕ → Db → List String
all_part_paths ht d =
    map (λ (p : PartRow). p.meta.path)
      (select (λ (p : PartRow). p.hypertable_id == ht && unpurged p) d.parts)

unfoldable pub all_pending_paths : ℕ → Db → List String
all_pending_paths ht d =
    map (λ (r : PendingRow). r.path)
      (select (λ (r : PendingRow). r.hypertable_id == ht) d.pending_objects)

-- `ON CONFLICT (path) DO NOTHING`, row by row; the hypertable is a foreign key.
unfoldable pub register_pending_objects : ℕ → ℕ → List String → Tx (Unit {0})
register_pending_objects now ht [] = pure tt
register_pending_objects now ht (path ∷ paths) =
    register_path >> register_pending_objects now ht paths
  where
    register_path : Tx (Unit {0})
    register_path d =
        if any (λ (r : PendingRow). r.path == path) d.pending_objects
        then (ok tt, d)
        else if elem ht d.hypertables
        then (
          ok tt,
          record d {
            pending_objects =
                d.pending_objects
                ++ record { hypertable_id = ht; path = path; created_at = now } ∷ [];
          },
        )
        else (err (db (database (some "23503"))), d)

unfoldable pub clear_pending_objects : List String → Db → Db
clear_pending_objects paths d = record d {
  pending_objects = select (λ (r : PendingRow). not (elem r.path paths)) d.pending_objects;
}

abbrev pub orphaned : ℕ → ℕ → ℕ → PendingRow → Bool
orphaned now ht grace r = r.hypertable_id == ht && leb (r.created_at + grace) now

module _ (before : String → String → Bool) where
  abbrev pub insert_path : String → List String → List String
  insert_path x [] = x ∷ []
  insert_path x (y ∷ ys) = if before x y then x ∷ y ∷ ys else y ∷ insert_path x ys

  abbrev pub order_paths : List String → List String
  order_paths [] = []
  order_paths (x ∷ xs) = insert_path x (order_paths xs)

  unfoldable pub orphaned_pending_objects : ℕ → ℕ → ℕ → Db → List String
  orphaned_pending_objects now ht grace d =
      order_paths
        (map (λ (r : PendingRow). r.path) (select (orphaned now ht grace) d.pending_objects))

  unfoldable pub next_orphaned_pending_object : ℕ → ℕ → ℕ → Db → Option String
  next_orphaned_pending_object now ht grace d = first (orphaned_pending_objects now ht grace d)
