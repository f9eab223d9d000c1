-- ===== src/Catalog/Cursors.antt =====
-- crates/ukiel-catalog/src/cursors.rs: the cursors of the background workers.
pub mod Monotone
use ukiel.Base.{
  ◌≡◌, refl, not, ℕ, ◌+◌, ◌-◌, ◌<◌, ◌≤◌, max, Bool, true, false, ◌&&◌, String, List, [], ◌∷◌, ◌++◌,
  map, ltb, Option, none, some, ◌==◌, nat_eq, string_eq, any, find, update, elem, if◌then◌else◌,
  arith, Option-cases, Bool-cases,
}
use ukiel.Catalog.Error.{db, database}
use ukiel.Catalog.Db.{Db, CursorRow, CommitRow}
use ukiel.Catalog.Tx.{Tx, Result, ok, err}
use ukiel.Catalog.Feed.{head_of}

-- The table's primary key.
abbrev pub of_worker : String → ℕ → CursorRow → Bool
of_worker worker ht r = r.worker == worker && r.hypertable_id == ht

-- `id.unwrap_or(0)`: the start of the feed.
abbrev pub position : Option CursorRow → ℕ
position none = 0
position (some r) = r.last_commit_id

unfoldable pub get_cursor : String → ℕ → Db → ℕ
get_cursor worker ht d = position (find (of_worker worker ht) d.worker_cursors)

-- `INSERT … ON CONFLICT … DO UPDATE … WHERE last_commit_id < EXCLUDED.last_commit_id`; the
-- hypertable is a foreign key.
unfoldable pub set_cursor : String → ℕ → ℕ → Tx (Unit {0})
set_cursor worker ht cursor d =
    if any (of_worker worker ht) d.worker_cursors
    then (
      ok tt,
      record d {
        worker_cursors =
            update (λ r. of_worker worker ht r && ltb r.last_commit_id cursor)
              (λ r. record r { last_commit_id = cursor }) d.worker_cursors;
      },
    )
    else if elem ht d.hypertables
    then (
      ok tt,
      record d {
        worker_cursors =
            d.worker_cursors
            ++ record { worker = worker; hypertable_id = ht; last_commit_id = cursor } ∷ [];
      },
    )
    else (err (db (database (some "23503"))), d)

-- `greatest(coalesce(head, 0) - last_commit_id, 0)`
unfoldable pub feed_lags : Db → List (String × ℕ × ℕ)
feed_lags d =
    map
      (λ (c : CursorRow).
        (c.worker, c.hypertable_id, head_of c.hypertable_id d.commits - c.last_commit_id))
      d.worker_cursors
