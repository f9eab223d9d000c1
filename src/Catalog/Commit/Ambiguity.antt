-- ===== src/Catalog/Commit/Ambiguity.antt =====
-- commit.rs: keys under another intent, and acknowledgements that are lost.
use ukiel.Base.{
  ℕ, ◌≡◌, refl, String, false, Option, none, some, List, nat_eq, string_eq, any_of_find, find-none,
}
use ukiel.Core.Commit.{CommitOp, CommitResult, OperationIdentity, committed}
use ukiel.Catalog.Error.{
  DbError, ambiguous_mutation, operation_key_collision, transport, class_for_db_error,
}
use ukiel.Catalog.Db.{Db}
use ukiel.Catalog.Tx.{Result, ok, err}
use ukiel.Catalog.Offsets.{OffsetRange}
use ukiel.Catalog.Leases.{CompactionLease}
use ukiel.Catalog.Commit.{
  Times, Ack, lost, refused, taken_key, write, insert_commit, after_insert, resolve, fence,
  recorded, keyed, draw_commit, after_recorded, statements, finish, rollback, commit_txn,
  lookup_in_tx, reconcile, ambiguous_or_definite, lookup_operation, landed, absent,
}
use ukiel.Catalog.Commit.Applied.{Allowed, applied}
use ukiel.Catalog.Commit.Outcome.{Unchanged, statements-applied}
use ukiel.Catalog.Commit.Replay.{
  Foreign, lookup-Recorded, lookup-Foreign, scope-same, applied-Recorded,
}

lookup_free :
    (i : OperationIdentity) (d : Db)
    → taken_key i.hypertable_id (some i) d.commits ≡ false
    → lookup_in_tx i d ≡ (ok none, d)
unfolding lookup_in_tx reconcile
lookup_free i d free = rw (find-none (keyed i.hypertable_id i.key) d.commits free)

pub recorded_free :
    (lease : Option CompactionLease) (i : OperationIdentity) (d : Db)
    → taken_key i.hypertable_id (some i) d.commits ≡ false
    → recorded lease (some i) d ≡ (ok none, d)
unfolding recorded
recorded_free none i d free = refl
recorded_free (some lease) i d free = lookup_free i d free

module _ (decode : String → Option (List ℕ)) (t : Times) (i : OperationIdentity) (op : CommitOp)
    (offsets : List OffsetRange) (lease : Option CompactionLease) where
  -- A transaction whose statements go through fails only by its `COMMIT`.
  commit_txn-finish :
      (ack : Ack) (d : Db)
      → fence t.clock i.hypertable_id lease op d ≡ (ok tt, d)
      → Allowed i.hypertable_id op (some i) offsets d
      → commit_txn decode ack t i.hypertable_id op (some i) offsets lease d
        ≡ finish ack
            (some i)
            d
            (ok (committed d.next_commit))
            (applied decode t.now i.hypertable_id op (some i) offsets d)
  unfolding commit_txn
  commit_txn-finish ack d f a =
      rw (scope-same i, commit_txn)
        (rw
          (statements-applied decode t i.hypertable_id op (some i) offsets lease d
            (recorded_free lease i d a.key_free) f a)
          refl)

  -- Where an identified mutation may go through and its `COMMIT` fails in transport, the caller is
  -- told the same whether or not the commit is durable, and the lookup then tells the two apart:
  -- it answers with the commit in the one case, and `Absent` in the other.
  pub ambiguity_decided :
      (e : DbError) (d : Db)
      → class_for_db_error e ≡ transport
      → fence t.clock i.hypertable_id lease op d ≡ (ok tt, d)
      → Allowed i.hypertable_id op (some i) offsets d
      → let durable = commit_txn decode (lost e) t i.hypertable_id op (some i) offsets lease d in
        let gone = commit_txn decode (refused e) t i.hypertable_id op (some i) offsets lease d in
        (durable.0 ≡ err (ambiguous_mutation i i.key e))
        × (gone.0 ≡ err (ambiguous_mutation i i.key e))
        × ((lookup_operation i durable.1).0 ≡ ok (landed d.next_commit))
        × ((lookup_operation i gone.1).0 ≡ ok absent)
  unfolding finish ambiguous_or_definite lookup_operation
  ambiguity_decided e d c f a =
      rw (commit_txn-finish (lost e) d f a, commit_txn-finish (refused e) d f a, c)
        (
          refl,
          refl,
          rw
              (lookup-Recorded i d.next_commit
                (applied decode t.now i.hypertable_id op (some i) offsets d)
                (applied-Recorded decode t i op offsets d a.key_free))
              refl,
          rw
              (lookup_free i
                (rollback d (applied decode t.now i.hypertable_id op (some i) offsets d))
                a.key_free)
              refl,
        )

  write-Foreign :
      (d : Db)
      → Foreign i d
      → (write decode t.now i.hypertable_id op (some i) offsets d).0
        ≡ err (operation_key_collision i.key)
  unfolding write insert_commit after_insert resolve
  write-Foreign d f = rw (any_of_find (keyed i.hypertable_id i.key) d.commits f.row f.found) (
      rw
        (lookup-Foreign i (draw_commit d)
          (record { row = f.row; found = f.found; intent = f.intent }))
        refl)

  statements-Foreign :
      (lease : Option CompactionLease) (d : Db)
      → Foreign i d
      → (statements decode t i.hypertable_id op (some i) offsets lease d).0
        ≡ err (operation_key_collision i.key)
  unfolding statements recorded after_recorded fence
  statements-Foreign (some lease) d f = rw (lookup-Foreign i d f) refl
  statements-Foreign none d f = write-Foreign d f

  -- A key recorded under another intent, or under one that is not known, is a collision: no
  -- attempt is told that it was applied, and no table changes.
  pub commit_txn-Foreign :
      (ack : Ack) (d : Db)
      → Foreign i d
      → let run = commit_txn decode ack t i.hypertable_id op (some i) offsets lease d in
        (run.0 ≡ err (operation_key_collision i.key)) × Unchanged d run.1
  unfolding commit_txn
  commit_txn-Foreign ack d f =
      rw (scope-same i, commit_txn)
        (collides (statements decode t i.hypertable_id op (some i) offsets lease d).0
          (statements decode t i.hypertable_id op (some i) offsets lease d).1
          (statements-Foreign lease d f))
    where
      collides :
          (r : Result CommitResult) (after : Db)
          → r ≡ err (operation_key_collision i.key)
          → ((finish ack (some i) d r after).0 ≡ err (operation_key_collision i.key))
            × Unchanged d (finish ack (some i) d r after).1
      collides r after e = rw e (unfold finish in (refl, refl))
