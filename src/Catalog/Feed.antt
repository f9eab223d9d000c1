-- ===== src/Catalog/Feed.antt =====
-- crates/ukiel-catalog/src/feed.rs: the ordered feed of a hypertable's commits.
pub mod Resume
pub mod History
pub mod Published
mod Examples
use ukiel.Base.{
  ◌≡◌, refl, ℕ, max, Bool, true, false, ◌&&◌, List, [], ◌∷◌, map, ltb, leb, Option, none, some,
  ◌==◌, nat_eq, take, select, if◌then◌else◌,
}
use ukiel.Base.Order.{order_by}
use ukiel.Core.Part.{Part}
use ukiel.Core.Commit.{ChangeEvent}
use ukiel.Catalog.Db.{Db, CommitRow, PartRow, to_part}
use ukiel.Catalog.Parts.{is_live}

abbrev pub commit_key : CommitRow → ℕ
commit_key c = c.id

abbrev pub part_key : PartRow → ℕ
part_key p = p.id

-- `SELECT max(id) FROM commits WHERE hypertable_id = $1`, 0 for none.
abbrev pub head_of : ℕ → List CommitRow → ℕ
head_of ht [] = 0
head_of ht (c ∷ cs) = if c.hypertable_id == ht then max c.id (head_of ht cs) else head_of ht cs

-- The barrier is passed when the writers of the hypertable are done.
unfoldable pub feed_head : ℕ → Db → ℕ
feed_head ht d = head_of ht d.commits

abbrev pub due : ℕ → ℕ → ℕ → CommitRow → Bool
due ht after head c = c.hypertable_id == ht && (ltb after c.id && leb c.id head)

abbrev pub deleted_by : ℕ → PartRow → Bool
deleted_by commit p = elim p.deleted_by_commit [ none ↦ false | some c ↦ c == commit ]

unfoldable pub event : Db → CommitRow → ChangeEvent
event d c = record {
  commit_id = c.id;
  kind = c.kind;
  added = map to_part (order_by part_key (select (λ p. p.created_by_commit == c.id) d.parts));
  removed = map part_key (order_by part_key (select (deleted_by c.id) d.parts));
}

unfoldable pub changes_since : ℕ → ℕ → ℕ → Db → List ChangeEvent
changes_since ht after limit d =
    map (event d)
      (take limit (order_by commit_key (select (due ht after (feed_head ht d)) d.commits)))
