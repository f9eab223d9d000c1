-- ===== src/Catalog/Commit.antt =====
-- crates/ukiel-catalog/src/commit.rs: the one transaction that changes the set of live parts.
pub mod Applied
pub mod Writes
pub mod Atomicity
pub mod Outcome
pub mod Replay
pub mod Ambiguity
pub mod Told
pub mod Fencing
pub mod Confined
mod Examples
use ukiel.Base.{
  ℕ, ◌+◌, String, Bool, true, false, ◌&&◌, not, Option, none, some, List, [], ◌∷◌, ◌++◌, ltb, ◌==◌,
  nat_eq, string_eq, any, elem, find, select, length, if◌then◌else◌,
}
use mathlib.Core.Option
use ukiel.Core.Part.{PartMeta}
use ukiel.Core.Commit.{
  CommitOp, CommitResult, OperationIdentity, add, replace, delete, committed, already_applied, kind,
}
use ukiel.Catalog.Error.{
  CatalogError, DbError, database, db, class_for_db_error, is_transport, ambiguous_mutation,
  unidentified_ambiguous_mutation, operation_key_collision, operation_hypertable_mismatch,
  lease_lost, lease_partition_mismatch, invariant, not_found,
}
use ukiel.Catalog.Db.{Db, CommitRow, PartRow, LeaseRow}
use ukiel.Catalog.Tx.{Result, Tx, ok, err, pure, fail, ◌>>=◌, ◌>>◌}
use ukiel.Catalog.Offsets.{OffsetRange, advance_offsets}
use ukiel.Catalog.Leases.{CompactionLease, on}
use ukiel.Catalog.Parts.{insert_parts, tombstone_parts}

pub data OperationLookup : Type 0 where
  absent : OperationLookup
  landed : ℕ → OperationLookup

-- `now()` of the transaction, and `clock_timestamp()` where the fence reads it.
pub record Times : Type 0 where
  pub now : ℕ
  pub clock : ℕ

-- What `COMMIT` does and says: it is durable and acknowledged, durable with the answer lost, or
-- not durable with an error.
pub data Ack : Type 0 where
  acknowledged : Ack
  lost refused : DbError → Ack

unfoldable pub bytes_beq : List ℕ → List ℕ → Bool
bytes_beq [] [] = true
bytes_beq (x ∷ xs) (y ∷ ys) = x == y && bytes_beq xs ys
bytes_beq _ _ = false

-- The unique index on (hypertable, key).
abbrev pub keyed : ℕ → String → CommitRow → Bool
keyed ht key r =
    r.hypertable_id == ht && elim r.idempotency_key [ none ↦ false | some k ↦ k == key ]

unfoldable pub reconcile : OperationIdentity → Option CommitRow → Result (Option ℕ)
unfolding bytes_beq
reconcile identity none = ok none
reconcile identity (some row) = elim row.operation_fingerprint [
  | none ↦ err (operation_key_collision identity.key)
  | some stored ↦
      if bytes_beq stored identity.fingerprint
      then ok (some row.id)
      else err (operation_key_collision identity.key)
]

unfoldable pub lookup_in_tx : OperationIdentity → Tx (Option ℕ)
lookup_in_tx identity d =
    (reconcile identity (find (keyed identity.hypertable_id identity.key) d.commits), d)

unfoldable pub lookup_operation : OperationIdentity → Tx OperationLookup
lookup_operation identity = do
  found ← lookup_in_tx identity
  pure (elim found [ none ↦ absent | some id ↦ landed id ])

unfoldable pub ambiguous_or_definite : Option OperationIdentity → DbError → CatalogError
ambiguous_or_definite identity e =
    if is_transport (class_for_db_error e)
    then elim identity [
      | some i ↦ ambiguous_mutation i i.key e
      | none ↦ unidentified_ambiguous_mutation e
    ]
    else db e

-- The row is locked, and judged by the database's clock.
abbrev pub ours : CompactionLease → ℕ → Option LeaseRow → Bool
ours lease clock none = false
ours lease clock (some r) =
    r.owner_id == lease.owner_id && (r.generation == lease.generation && ltb clock r.expires_at)

-- `count(*)` of the named parts inside the leased partition.
abbrev pub inside : ℕ → String → List ℕ → PartRow → Bool
inside ht partition ids r =
    elem r.id ids && (r.hypertable_id == ht && r.meta.partition_values == partition)

unfoldable pub fence_scope : ℕ → String → CommitOp → Tx (Unit {0})
fence_scope ht partition (replace old new) d =
    if any (λ (p : PartMeta). not (p.partition_values == partition)) new
    then (err (lease_partition_mismatch partition), d)
    else if length (select (inside ht partition old) d.parts) == length old
    then (ok tt, d)
    else (err (lease_partition_mismatch partition), d)
fence_scope ht partition _ d = (err (lease_partition_mismatch partition), d)

unfoldable pub fence_lease : ℕ → ℕ → CompactionLease → CommitOp → Tx (Unit {0})
fence_lease clock ht lease op d =
    if not (ht == lease.hypertable_id)
    then (err (lease_partition_mismatch lease.partition_values), d)
    else if ours lease clock (find (on ht lease.partition_values) d.leases)
    then fence_scope ht lease.partition_values op d
    else (err (lease_lost lease.partition_values), d)

unfoldable pub fence : ℕ → ℕ → Option CompactionLease → CommitOp → Tx (Unit {0})
fence clock ht none op = pure tt
fence clock ht (some lease) op = fence_lease clock ht lease op

-- A leased replay is reconciled before its lease is judged.
unfoldable pub recorded : Option CompactionLease → Option OperationIdentity → Tx (Option ℕ)
recorded (some lease) (some identity) = lookup_in_tx identity
recorded _ _ = pure none

abbrev pub taken_key : ℕ → Option OperationIdentity → List CommitRow → Bool
taken_key ht none rows = false
taken_key ht (some i) rows = any (keyed ht i.key) rows

abbrev pub commit_row : ℕ → ℕ → ℕ → String → Option OperationIdentity → CommitRow
commit_row id now ht op identity = record {
  id = id;
  hypertable_id = ht;
  kind = op;
  idempotency_key = Option.map (λ (i : OperationIdentity). i.key) identity;
  operation_fingerprint = Option.map (λ (i : OperationIdentity). i.fingerprint) identity;
  created_at = now;
}

abbrev pub draw_commit : Db → Db
draw_commit d = record d { sequences = record d.sequences { next_commit = d.next_commit + 1 } }

-- `INSERT INTO commits … ON CONFLICT DO NOTHING RETURNING id`. The id is drawn in any case; the
-- hypertable is a foreign key.
unfoldable pub insert_commit : ℕ → ℕ → String → Option OperationIdentity → Tx (Option ℕ)
insert_commit now ht op identity d =
    if taken_key ht identity d.commits
    then (ok none, draw_commit d)
    else if elem ht d.hypertables
    then (
      ok (some d.next_commit),
      record (draw_commit d) {
        commits = d.commits ++ commit_row d.next_commit now ht op identity ∷ [];
      },
    )
    else (err (db (database (some "23503"))), draw_commit d)

-- The key is taken: `expect` a key and a row behind it.
unfoldable pub resolve : Option OperationIdentity → Tx CommitResult
resolve none = fail (invariant "a conflict requires a key, and a key requires an identity")
resolve (some identity) = do
  found ← lookup_in_tx identity
  elim found [ none ↦ fail (not_found identity.key) | some id ↦ pure (already_applied id) ]

-- A transaction that is dropped leaves the tables as they were, and the sequences drawn.
abbrev pub rollback : Db → Db → Db
rollback before after = record before { sequences = after.sequences }

unfoldable pub finish :
    Ack → Option OperationIdentity → Db → Result CommitResult → Db → Result CommitResult × Db
finish ack identity before (err e) after = (err e, rollback before after)
finish ack identity before (ok (already_applied id)) after =
    (ok (already_applied id), rollback before after)
finish acknowledged identity before (ok (committed id)) after = (ok (committed id), after)
finish (lost e) identity before (ok (committed id)) after =
    (err (ambiguous_or_definite identity e), after)
finish (refused e) identity before (ok (committed id)) after =
    (err (ambiguous_or_definite identity e), rollback before after)

unfoldable pub out_of_scope : ℕ → Option OperationIdentity → Option CatalogError
out_of_scope ht none = none
out_of_scope ht (some i) =
    if i.hypertable_id == ht then none else some (operation_hypertable_mismatch i.hypertable_id ht)

module _ (decode : String → Option (List ℕ)) where
  unfoldable pub apply_op : ℕ → ℕ → CommitOp → Tx (Unit {0})
  apply_op ht commit (add parts) = insert_parts decode ht commit parts
  apply_op ht commit (replace old new) =
      tombstone_parts ht commit old >> insert_parts decode ht commit new
  apply_op ht commit (delete parts) = tombstone_parts ht commit parts

  unfoldable pub after_insert :
      ℕ → CommitOp → Option OperationIdentity → List OffsetRange → Option ℕ → Tx CommitResult
  after_insert ht op identity offsets none = resolve identity
  after_insert ht op identity offsets (some commit) = do
    apply_op ht commit op
    advance_offsets ht offsets
    pure (committed commit)

  unfoldable pub write :
      ℕ → ℕ → CommitOp → Option OperationIdentity → List OffsetRange → Tx CommitResult
  write now ht op identity offsets = do
    inserted ← insert_commit now ht (kind op) identity
    after_insert ht op identity offsets inserted

  unfoldable pub after_recorded :
      Times
      → ℕ
      → CommitOp
      → Option OperationIdentity
      → List OffsetRange
      → Option CompactionLease
      → Option ℕ
      → Tx CommitResult
  after_recorded t ht op identity offsets lease (some existing) = pure (already_applied existing)
  after_recorded t ht op identity offsets lease none =
      fence t.clock ht lease op >> write t.now ht op identity offsets

  -- Everything before `COMMIT`.
  unfoldable pub statements :
      Times
      → ℕ
      → CommitOp
      → Option OperationIdentity
      → List OffsetRange
      → Option CompactionLease
      → Tx CommitResult
  statements t ht op identity offsets lease = do
    existing ← recorded lease identity
    after_recorded t ht op identity offsets lease existing

  unfoldable pub commit_txn :
      Ack
      → Times
      → ℕ
      → CommitOp
      → Option OperationIdentity
      → List OffsetRange
      → Option CompactionLease
      → Tx CommitResult
  commit_txn ack t ht op identity offsets lease d = elim (out_of_scope ht identity) [
    | some e ↦ (err e, d)
    | none ↦
        let (r, after) = statements t ht op identity offsets lease d in
        finish ack identity d r after
  ]

  unfoldable pub commit : Ack → Times → ℕ → CommitOp → Option OperationIdentity → Tx CommitResult
  commit ack t ht op identity = commit_txn ack t ht op identity [] none

  unfoldable pub commit_with_offsets :
      Ack → Times → ℕ → CommitOp → List OffsetRange → OperationIdentity → Tx CommitResult
  commit_with_offsets ack t ht op offsets identity =
      commit_txn ack t ht op (some identity) offsets none

  unfoldable pub commit_compaction_replace :
      Ack
      → Times
      → ℕ
      → CompactionLease
      → List ℕ
      → List PartMeta
      → OperationIdentity
      → Tx CommitResult
  commit_compaction_replace ack t ht lease old new identity =
      commit_txn ack t ht (replace old new) (some identity) [] (some lease)
