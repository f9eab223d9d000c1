-- ===== src/Catalog/Feed/Resume.antt =====
-- feed.rs: what a consumer that follows the feed in batches sees.
use ukiel.Base.{
  ◌≡◌, refl, ap, ◌∙◌, ℕ, suc, zero, ◌+◌, ◌≤◌, ◌<◌, List, [], ◌∷◌, ◌++◌, map, ltb, nat_eq, take,
  drop, select, arith, All,
}
use ukiel.Base.Slices.{take_plus, map-append}
use ukiel.Base.Order.{
  Increasing, order_by-Increasing, select-Increasing, last_key, select-above_last,
}
use ukiel.Core.Commit.{ChangeEvent}
use ukiel.Catalog.Db.{Db, CommitRow}
use ukiel.Catalog.Feed.{commit_key, feed_head, due, event, changes_since}

-- The cursor after a batch: the id of its last event, or the cursor before it.
abbrev pub last_event : ℕ → List ChangeEvent → ℕ
last_event after [] = after
last_event after (e ∷ es) = last_event e.commit_id es

abbrev pub rows_due : ℕ → ℕ → ℕ → List CommitRow → List CommitRow
rows_due ht after head = select (due ht after head)

due_above :
    (ht after head : ℕ) (cs : List CommitRow) → All (λ c. after < c.id) (rows_due ht after head cs)
due_above ht after head [] = tt
due_above ht after head (c ∷ cs) = ground (arith, due_above ht after head cs)

-- A later cursor selects from what is due already.
due_later :
    (ht after later head : ℕ) (cs : List CommitRow)
    → after ≤ later
    → rows_due ht later head cs ≡ select (λ c. ltb later c.id) (rows_due ht after head cs)
due_later ht after later head [] h = refl
due_later ht after later head (c ∷ cs) h = ground (arith, due_later ht after later head cs h)

last-map :
    (d : Db) (after : ℕ) (cs : List CommitRow)
    → last_event after (map (event d) cs) ≡ last_key commit_key after cs
unfolding event
last-map d after [] = refl
last-map d after (c ∷ cs) = last-map d c.id cs

last_key-later :
    (n after : ℕ) (cs : List CommitRow)
    → Increasing commit_key cs
    → All (λ c. after < c.id) cs
    → after ≤ last_key commit_key after (take n cs)
last_key-later zero after cs s a = omega arith
last_key-later (suc n) after [] s a = omega arith
last_key-later (suc n) after (c ∷ cs) s a = omega (arith, last_key-later n c.id cs s.1 s.0, a.0)

-- The events of a batch are those of the rows due, in their order.
pub changes_since-rows :
    (ht after limit : ℕ) (d : Db)
    → Increasing commit_key d.commits
    → changes_since ht after limit d
      ≡ map (event d) (take limit (rows_due ht after (feed_head ht d) d.commits))
unfolding changes_since
changes_since-rows ht after limit d s =
    rw
      (order_by-Increasing commit_key (rows_due ht after (feed_head ht d) d.commits)
        (select-Increasing commit_key (due ht after (feed_head ht d)) d.commits s))
      refl

-- A consumer that resumes at the last event of a batch gets exactly the events that one larger
-- batch had brought: none is lost and none comes twice.
pub changes_since-resume :
    (ht after m n : ℕ) (d : Db)
    → Increasing commit_key d.commits
    → changes_since ht after (m + n) d
      ≡ changes_since ht after m d
        ++ changes_since ht (last_event after (changes_since ht after m d)) n d
changes_since-resume ht after m n d s =
    let head = feed_head ht d in
    let rows = rows_due ht after head d.commits in
    let later = last_key commit_key after (take m rows) in
    let sorted : Increasing commit_key rows =
      select-Increasing commit_key (due ht after head) d.commits s in
    let above = due_above ht after head d.commits in
    let rest : rows_due ht later head d.commits ≡ drop m rows =
      due_later ht after later head d.commits (last_key-later m after rows sorted above)
      ∙ select-above_last commit_key m after rows sorted above in
    let cursor : last_event after (changes_since ht after m d) ≡ later =
      rw (changes_since-rows ht after m d s) (last-map d after (take m rows)) in
    rw
      (
        cursor,
        changes_since-rows ht after (m + n) d s,
        changes_since-rows ht after m d s,
        changes_since-rows ht later n d s,
        rest,
      )
      (ap (map (event d)) (take_plus m n rows)
        ∙ map-append (event d) (take m rows) (take n (drop m rows)))
