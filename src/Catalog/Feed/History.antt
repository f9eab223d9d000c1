-- ===== src/Catalog/Feed/History.antt =====
-- feed.rs: a batch that holds all, and what a commit leaves of earlier events.
use ukiel.Base.{
  ◌≡◌, refl, ap, ◌∙◌, String, ℕ, ◌+◌, ◌≤◌, ◌<◌, Bool, ◌&&◌, Option, List, [], ◌∷◌, map, ltb, nat_eq,
  ◌==◌, take, length, select, arith,
}
use ukiel.Base.Slices.{take_all, length-select}
use ukiel.Base.Order.{Increasing}
use ukiel.Core.Part.{PartMeta}
use ukiel.Catalog.Db.{Db, CommitRow, PartRow, to_part}
use ukiel.Catalog.Parts.{part_row}
use ukiel.Catalog.Commit.Applied.{retire, register}
use ukiel.Catalog.Feed.{commit_key, part_key, head_of, feed_head, deleted_by, event, changes_since}
use ukiel.Catalog.Feed.Resume.{rows_due, changes_since-rows}

-- The commits of a hypertable after a cursor.
abbrev pub after_cursor : ℕ → ℕ → CommitRow → Bool
after_cursor ht after c = c.hypertable_id == ht && ltb after c.id

due_above_head :
    (ht after head : ℕ) (cs : List CommitRow)
    → head_of ht cs ≤ head
    → rows_due ht after head cs ≡ select (after_cursor ht after) cs
due_above_head ht after head [] h = refl
due_above_head ht after head (c ∷ cs) h = ground (arith, due_above_head ht after head cs)

-- A batch that is large enough brings the events of all commits of the hypertable after the cursor,
-- in the order of their ids.
pub changes_since_complete :
    (ht after limit : ℕ) (d : Db)
    → Increasing commit_key d.commits
    → length d.commits ≤ limit
    → changes_since ht after limit d ≡ map (event d) (select (after_cursor ht after) d.commits)
unfolding feed_head
changes_since_complete ht after limit d s h =
    changes_since-rows ht after limit d s
    ∙ ap (λ rows. map (event d) (take limit rows))
        (due_above_head ht after (head_of ht d.commits) d.commits (omega arith))
    ∙ ap (map (event d)) (
        take_all limit (select (after_cursor ht after) d.commits)
          (omega (arith, h, length-select (after_cursor ht after) d.commits)))

-- Retiring parts in a commit leaves what an earlier commit created and deleted.
pub retire-created :
    (ht c x : ℕ) (ids : List ℕ) (rows : List PartRow)
    → map to_part (select (λ p. p.created_by_commit == x) (retire ht c ids rows))
      ≡ map to_part (select (λ p. p.created_by_commit == x) rows)
retire-created ht c x ids [] = refl
retire-created ht c x ids (r ∷ rows) = ground (arith, retire-created ht c x ids rows)

pub retire-deleted :
    (ht c x : ℕ) (ids : List ℕ) (rows : List PartRow)
    → x < c
    → map part_key (select (deleted_by x) (retire ht c ids rows))
      ≡ map part_key (select (deleted_by x) rows)
retire-deleted ht c x ids [] h = refl
retire-deleted ht c x ids (r ∷ rows) h = ground (arith, retire-deleted ht c x ids rows h)

module _ (decode : String → Option (List ℕ)) where
  pub register-created :
      (ht c x id : ℕ) (ps : List PartMeta)
      → x < c
      → select (λ p. p.created_by_commit == x) (register decode id ht c ps) ≡ []
  unfolding register part_row
  register-created ht c x id [] h = refl
  register-created ht c x id (p ∷ ps) h = ground (arith, register-created ht c x (id + 1) ps h)

  pub register-deleted :
      (ht c x id : ℕ) (ps : List PartMeta) → select (deleted_by x) (register decode id ht c ps) ≡ []
  unfolding register part_row
  register-deleted ht c x id [] = refl
  register-deleted ht c x id (p ∷ ps) = register-deleted ht c x (id + 1) ps
