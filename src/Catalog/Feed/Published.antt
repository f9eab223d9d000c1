-- ===== src/Catalog/Feed/Published.antt =====
-- feed.rs and commit.rs: the event that a commit publishes, and the events that were there before.
use ukiel.Base.{
  ◌≡◌, refl, ap, sym, ◌∙◌, subst, String, ℕ, ◌+◌, ◌<◌, true, false, Option, none, some, List, [],
  ◌∷◌, ◌++◌, map, nat_eq, ◌==◌, length, select, select-append, arith, All, All-select,
  length-append, Bool-cases, inl, inr,
}
use ukiel.Base.Slices.{map-append}
use mathlib.Core.List.{append-nil}
use ukiel.Base.Order.{Increasing, order_by-Increasing, select-Increasing}
use ukiel.Core.Part.{PartMeta}
use ukiel.Core.Commit.{ChangeEvent, CommitOp, OperationIdentity, kind, committed}
use ukiel.Catalog.Db.{Db, CommitRow, PartRow, to_part}
use ukiel.Catalog.Tx.{ok}
use ukiel.Catalog.Parts.{targets, part_row}
use ukiel.Catalog.Offsets.{OffsetRange}
use ukiel.Catalog.Leases.{CompactionLease}
use ukiel.Catalog.Commit.{Ack, Times, commit_row, commit_txn}
use ukiel.Catalog.Commit.Applied.{applied, retire, register, removed, added}
use ukiel.Catalog.Commit.Outcome.{commit_txn-Went}
use ukiel.Catalog.Feed.{part_key, deleted_by, event, changes_since}
use ukiel.Catalog.Feed.History.{
  after_cursor, changes_since_complete, retire-created, retire-deleted, register-created,
  register-deleted,
}
use ukiel.Catalog.Invariant.{WellFormed, Lived, Ended, applied-WellFormed}

abbrev as_stored : List PartRow → CommitRow → ChangeEvent
as_stored parts c = record {
  commit_id = c.id;
  kind = c.kind;
  added = map to_part (select (λ p. p.created_by_commit == c.id) parts);
  removed = map part_key (select (deleted_by c.id) parts);
}

-- Where the parts are in order, an event lists them as they are stored.
event-stored :
    (d : Db) (c : CommitRow) → Increasing part_key d.parts → event d c ≡ as_stored d.parts c
unfolding event
event-stored d c s =
    rw
      (
        order_by-Increasing part_key (select (λ p. p.created_by_commit == c.id) d.parts)
            (select-Increasing part_key (λ p. p.created_by_commit == c.id) d.parts s),
        order_by-Increasing part_key (select (deleted_by c.id) d.parts)
            (select-Increasing part_key (deleted_by c.id) d.parts s),
      )
      refl

not-Ended :
    (created c : ℕ) (o : Option ℕ)
    → Ended created c o
    → elim o [ none ↦ false | some x ↦ x == c ] ≡ false
not-Ended created c none e = refl
not-Ended created c (some x) e = ground (arith, e.1)

-- The rows that a commit retires are those it deletes: none bears its id before.
retire-own_deleted :
    (ht c : ℕ) (ids : List ℕ) (rows : List PartRow)
    → All (Lived c) rows
    → map part_key (select (deleted_by c) (retire ht c ids rows))
      ≡ map part_key (select (targets ht ids) rows)
retire-own_deleted ht c ids [] l = refl
retire-own_deleted ht c ids (r ∷ rows) l =
    let rest = retire-own_deleted ht c ids rows l.1 in
    let free : deleted_by c r ≡ false = not-Ended r.created_by_commit c r.deleted_by_commit l.0.1 in
    let own : (c == c) ≡ true = ground arith in
    elim (Bool-cases (targets ht ids r)) [
      | inl e ↦ rw (e, own) (ap (λ xs. r.id ∷ xs) rest)
      | inr e ↦ rw (e, free) rest
    ]

retire-own_created :
    (ht c : ℕ) (ids : List ℕ) (rows : List PartRow)
    → All (Lived c) rows
    → select (λ p. p.created_by_commit == c) (retire ht c ids rows) ≡ []
retire-own_created ht c ids [] l = refl
retire-own_created ht c ids (r ∷ rows) l =
    ground (arith, retire-own_created ht c ids rows l.1, l.0.0)

module _ (decode : String → Option (List ℕ)) where
  register-own :
      (ht c id : ℕ) (ps : List PartMeta)
      → select (λ p. p.created_by_commit == c) (register decode id ht c ps)
        ≡ register decode id ht c ps
  unfolding register part_row
  register-own ht c id [] = refl
  register-own ht c id (p ∷ ps) = ground (arith, register-own ht c (id + 1) ps)

  module _ (now ht : ℕ) (op : CommitOp) (identity : Option OperationIdentity)
      (offsets : List OffsetRange) (d : Db) where
    -- The event that a commit publishes: its kind, the parts it registered, and those it retired.
    abbrev pub published : ChangeEvent
    published = record {
      commit_id = d.next_commit;
      kind = kind op;
      added = map to_part (register decode d.next_part ht d.next_commit (added op));
      removed = map part_key (select (targets ht (removed op)) d.parts);
    }

    applied-event_old :
        (c : CommitRow)
        → WellFormed d
        → c.id < d.next_commit
        → event (applied decode now ht op identity offsets d) c ≡ event d c
    unfolding applied
    applied-event_old c w h =
        let x = c.id in
        let old = retire ht d.next_commit (removed op) d.parts in
        let new = register decode d.next_part ht d.next_commit (added op) in
        event-stored (applied decode now ht op identity offsets d) c
          (applied-WellFormed decode now ht op identity offsets d w).parts_ordered
        ∙ rw
            (
              select-append (λ (p : PartRow). p.created_by_commit == x) old new,
              select-append (deleted_by x) old new,
              register-created decode ht d.next_commit x d.next_part (added op) h,
              register-deleted decode ht d.next_commit x d.next_part (added op),
            )
            (rw
              (
                append-nil (select (λ (p : PartRow). p.created_by_commit == x) old),
                append-nil (select (deleted_by x) old),
                retire-created ht d.next_commit x (removed op) d.parts,
                retire-deleted ht d.next_commit x (removed op) d.parts h,
              )
              refl)
        ∙ sym (event-stored d c w.parts_ordered)

    applied-event_new :
        WellFormed d
        → event
            (applied decode now ht op identity offsets d)
            (commit_row d.next_commit now ht (kind op) identity)
          ≡ published
    unfolding applied
    applied-event_new w =
        let x = d.next_commit in
        let old = retire ht x (removed op) d.parts in
        let new = register decode d.next_part ht x (added op) in
        event-stored (applied decode now ht op identity offsets d)
          (commit_row x now ht (kind op) identity)
          (applied-WellFormed decode now ht op identity offsets d w).parts_ordered
        ∙ rw
            (
              select-append (λ (p : PartRow). p.created_by_commit == x) old new,
              select-append (deleted_by x) old new,
              register-own ht x d.next_part (added op),
              register-deleted decode ht x x d.next_part (added op),
              retire-own_created ht x (removed op) d.parts w.lives,
            )
            (rw
              (
                append-nil (select (deleted_by x) old),
                retire-own_deleted ht x (removed op) d.parts w.lives,
              )
              refl)

    newest :
        (row : CommitRow) (after : ℕ)
        → after < d.next_commit
        → select
            (after_cursor ht after)
            (record row { id = d.next_commit; hypertable_id = ht } ∷ [])
          ≡ record row { id = d.next_commit; hypertable_id = ht } ∷ []
    newest row after a = ground arith

    old_events :
        (cs : List CommitRow)
        → WellFormed d
        → All (λ (c : CommitRow). c.id < d.next_commit) cs
        → map (event (applied decode now ht op identity offsets d)) cs ≡ map (event d) cs
    old_events [] w a = refl
    old_events (c ∷ cs) w a =
        rw (applied-event_old c w a.0) (ap (λ es. event d c ∷ es) (old_events cs w a.1))

    applied-published :
        (after limit : ℕ)
        → WellFormed d
        → after < d.next_commit
        → length d.commits < limit
        → changes_since ht after limit (applied decode now ht op identity offsets d)
          ≡ changes_since ht after limit d ++ published ∷ []
    applied-published after limit w a l =
        let d' = applied decode now ht op identity offsets d in
        let row = commit_row d.next_commit now ht (kind op) identity in
        let before = select (after_cursor ht after) d.commits in
        let last : select (after_cursor ht after) d'.commits ≡ before ++ row ∷ [] =
          unfold applied in
          (select-append (after_cursor ht after) d.commits (row ∷ [])
            ∙ ap (λ rs. before ++ rs) (newest row after a)) in
        changes_since_complete ht after limit d'
          (applied-WellFormed decode now ht op identity offsets d w).commits_ordered
          (unfold applied in omega (arith, length-append d.commits (row ∷ []), l))
        ∙ ap (map (event d')) last
        ∙ map-append (event d') before (row ∷ [])
        ∙ rw
            (
              old_events before w (All-select _ (after_cursor ht after) d.commits w.commits_drawn),
              applied-event_new w,
            )
            (ap (λ es. es ++ published ∷ [])
              (sym (changes_since_complete ht after limit d w.commits_ordered (omega (arith, l)))))

  -- A commit adds its event at the end of its hypertable's feed and leaves the events before it as
  -- they were, for every cursor that is not ahead of it, if the batch is large enough to hold all.
  pub commit_txn-published :
      (ack : Ack) (t : Times) (ht : ℕ) (op : CommitOp) (identity : Option OperationIdentity)
      (offsets : List OffsetRange) (lease : Option CompactionLease) (after limit c : ℕ) (d d' : Db)
      → WellFormed d
      → commit_txn decode ack t ht op identity offsets lease d ≡ (ok (committed c), d')
      → after < c
      → length d.commits < limit
      → changes_since ht after limit d'
        ≡ changes_since ht after limit d ++ published t.now ht op identity offsets d ∷ []
  commit_txn-published ack t ht op identity offsets lease after limit c d d' w h a l =
      let went = commit_txn-Went decode t ht op identity offsets lease ack d d' c h in
      ap (changes_since ht after limit) went.effect
      ∙ applied-published t.now ht op identity offsets d after limit w
          (subst (λ x. after < x) went.numbered a) l
