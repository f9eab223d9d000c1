-- ===== src/Catalog/Commit/Replay.antt =====
-- commit.rs: further attempts at an intent that is recorded.
use ukiel.Base.{
  ℕ, ◌≡◌, ◌∙◌, refl, ap, String, true, false, Option, none, some, List, [], ◌∷◌, arith, nat_eq,
  string_eq, if◌then◌else◌, Bool-cases, inl, inr, ◌≢◌, find, any_of_find, find-append_none, eq_iff,
}
use ukiel.Core.Commit.{CommitOp, CommitResult, OperationIdentity, already_applied, kind}
use ukiel.Catalog.Error.{operation_key_collision}
use ukiel.Catalog.Db.{Db, CommitRow}
use ukiel.Catalog.Tx.{Result, ok, err}
use ukiel.Catalog.Offsets.{OffsetRange}
use ukiel.Catalog.Leases.{CompactionLease}
use ukiel.Catalog.Commit.{
  Times, Ack, commit_row, taken_key, write, insert_commit, after_insert, resolve, fence, recorded,
  keyed, draw_commit, bytes_beq, after_recorded, statements, finish, commit_txn, out_of_scope,
  lookup_in_tx, reconcile,
}
use ukiel.Catalog.Commit.Applied.{applied}
use ukiel.Catalog.Commit.Outcome.{Unchanged}

-- The intent is recorded under commit `c`.
pub record Recorded (i : OperationIdentity) (c : ℕ) (d : Db) : Type 0 where
  pub row : CommitRow
  pub found : find (keyed i.hypertable_id i.key) d.commits ≡ some row
  pub numbered : row.id ≡ c
  pub intent : row.operation_fingerprint ≡ some i.fingerprint

-- The key is recorded under an intent that differs, or that is not known.
pub record Foreign (i : OperationIdentity) (d : Db) : Type 0 where
  pub row : CommitRow
  pub found : find (keyed i.hypertable_id i.key) d.commits ≡ some row
  pub intent : row.operation_fingerprint ≢ some i.fingerprint

bytes_beq_refl : (xs : List ℕ) → bytes_beq xs xs ≡ true
unfolding bytes_beq
bytes_beq_refl [] = refl
bytes_beq_refl (x ∷ xs) = ground (arith, bytes_beq_refl xs)

bytes_beq→eq : (xs ys : List ℕ) → bytes_beq xs ys ≡ true → xs ≡ ys
unfolding bytes_beq
bytes_beq→eq [] [] h = refl
bytes_beq→eq [] (y ∷ ys) h = cc
bytes_beq→eq (x ∷ xs) [] h = cc
bytes_beq→eq (x ∷ xs) (y ∷ ys) h = ground (arith, bytes_beq→eq xs ys)

pub lookup-Recorded :
    (i : OperationIdentity) (c : ℕ) (d : Db) → Recorded i c d → lookup_in_tx i d ≡ (ok (some c), d)
unfolding lookup_in_tx reconcile
lookup-Recorded i c d r = rw (r.found, r.intent, bytes_beq_refl i.fingerprint, r.numbered)

pub lookup-Foreign :
    (i : OperationIdentity) (d : Db)
    → Foreign i d
    → lookup_in_tx i d ≡ (err (operation_key_collision i.key), d)
unfolding lookup_in_tx reconcile
lookup-Foreign i d f = rw f.found (foreign f.row.operation_fingerprint f.intent)
  where
    foreign :
        (o : Option (List ℕ))
        → o ≢ some i.fingerprint
        → ◌≡◌ {A = Result (Option ℕ) × Db}
            (
              elim o [
                | none ↦ err (operation_key_collision i.key)
                | some stored ↦
                    if bytes_beq stored i.fingerprint
                    then ok (some f.row.id)
                    else err (operation_key_collision i.key)
              ],
              d,
            )
            (err (operation_key_collision i.key), d)
    foreign none n = refl
    foreign (some s) n = elim (Bool-cases (bytes_beq s i.fingerprint)) [
      | inl e ↦ absurd (n (ap some (bytes_beq→eq s i.fingerprint e)))
      | inr e ↦ rw e
    ]

pub scope-same : (i : OperationIdentity) → out_of_scope i.hypertable_id (some i) ≡ none
unfolding out_of_scope
scope-same i = ground arith

keyed-own :
    (i : OperationIdentity) (row : CommitRow)
    → row.hypertable_id ≡ i.hypertable_id
    → row.idempotency_key ≡ some i.key
    → keyed i.hypertable_id i.key row ≡ true
keyed-own i row h k = ground (arith, eq_iff i.key i.key)

module _ (decode : String → Option (List ℕ)) (t : Times) (i : OperationIdentity) (op : CommitOp)
    (offsets : List OffsetRange) where
  -- A commit records its intent.
  pub applied-Recorded :
      (d : Db)
      → taken_key i.hypertable_id (some i) d.commits ≡ false
      → Recorded i d.next_commit (applied decode t.now i.hypertable_id op (some i) offsets d)
  unfolding applied
  applied-Recorded d free = record {
    row = row;
    found =
        find-append_none (keyed i.hypertable_id i.key) d.commits (row ∷ []) free
        ∙ rw (keyed-own i row refl refl) refl;
    numbered = refl;
    intent = refl;
  }
    where
      row : CommitRow
      row = commit_row d.next_commit t.now i.hypertable_id (kind op) (some i)

  after_insert-Recorded :
      (c : ℕ) (d : Db)
      → Recorded i c d
      → write decode t.now i.hypertable_id op (some i) offsets d
        ≡ (ok (already_applied c), draw_commit d)
  unfolding write insert_commit after_insert resolve
  after_insert-Recorded c d r =
      rw (any_of_find (keyed i.hypertable_id i.key) d.commits r.row r.found) (
        rw
          (lookup-Recorded i c (draw_commit d)
            (record { row = r.row; found = r.found; numbered = r.numbered; intent = r.intent }))
          refl)

  statements-Recorded :
      (lease : Option CompactionLease) (c : ℕ) (d : Db)
      → Recorded i c d
      → (statements decode t i.hypertable_id op (some i) offsets lease d).0 ≡ ok (already_applied c)
  unfolding statements recorded after_recorded fence
  statements-Recorded (some lease) c d r = rw (lookup-Recorded i c d r) refl
  statements-Recorded none c d r = rw (after_insert-Recorded c d r) refl

  -- Once an intent is recorded, every further attempt at it is answered with the commit that
  -- recorded it and changes no table, whatever its payload, offsets, lease, clock or acknowledgement.
  pub commit_txn-Recorded :
      (ack : Ack) (lease : Option CompactionLease) (c : ℕ) (d : Db)
      → Recorded i c d
      → ((commit_txn decode ack t i.hypertable_id op (some i) offsets lease d).0
          ≡ ok (already_applied c))
        × Unchanged d (commit_txn decode ack t i.hypertable_id op (some i) offsets lease d).1
  unfolding commit_txn
  commit_txn-Recorded ack lease c d r =
      rw (scope-same i, commit_txn)
        (replayed (statements decode t i.hypertable_id op (some i) offsets lease d).0
          (statements decode t i.hypertable_id op (some i) offsets lease d).1
          (statements-Recorded lease c d r))
    where
      replayed :
          (r : Result CommitResult) (after : Db)
          → r ≡ ok (already_applied c)
          → ((finish ack (some i) d r after).0 ≡ ok (already_applied c))
            × Unchanged d (finish ack (some i) d r after).1
      replayed r after e = rw e (unfold finish in (refl, refl))
