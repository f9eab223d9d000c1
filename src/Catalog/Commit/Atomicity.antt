-- ===== src/Catalog/Commit/Atomicity.antt =====
-- commit.rs: the sequences and the tables, whatever becomes of a transaction.
use ukiel.Base.{
  ◌≡◌, refl, ℕ, ◌+◌, ◌≤◌, String, Option, none, some, List, [], ◌∷◌, ◌++◌, ◌+◌, sym, arith, ◌⊎◌,
  inl, inr, Option-cases, subst,
}
use ukiel.Core.Part.{PartMeta}
use ukiel.Core.Commit.{
  CommitOp, CommitResult, OperationIdentity, committed, already_applied, kind, add, replace, delete,
}
use ukiel.Catalog.Db.{Db}
use ukiel.Catalog.Tx.{Tx, Result, ok, err, continue, ◌>>=◌}
use ukiel.Catalog.Offsets.{OffsetRange, advance_offset, advance_offsets}
use ukiel.Catalog.Leases.{CompactionLease}
use ukiel.Catalog.Parts.{tombstone_parts, part_row, insert_rows, insert_parts}
use ukiel.Catalog.Commit.{
  Ack, acknowledged, lost, refused, Times, recorded, fence, insert_commit, resolve, lookup_in_tx,
  after_insert, write, after_recorded, statements, finish, out_of_scope, commit_txn, apply_op,
}
use ukiel.Catalog.Commit.Applied.{applied, Allowed}
use ukiel.Catalog.Commit.Writes.{write-inverse}
use ukiel.Catalog.Commit.Outcome.{statements-inverse, fence-same}

-- No sequence of `d'` is behind that of `d`.
pub record Drawn (d d' : Db) : Type 0 where
  pub commits : d.next_commit ≤ d'.next_commit
  pub parts : d.next_part ≤ d'.next_part
  pub generations : d.next_generation ≤ d'.next_generation

Drawn-refl : (d : Db) → Drawn d d
Drawn-refl d = record { commits = omega arith; parts = omega arith; generations = omega arith }

Drawn-trans : (a b c : Db) → Drawn a b → Drawn b c → Drawn a c
Drawn-trans a b c p q = record {
  commits = omega (arith, p.commits, q.commits);
  parts = omega (arith, p.parts, q.parts);
  generations = omega (arith, p.generations, q.generations);
}

>>=-Drawn {ℓ κ} :
    {A : Type ℓ} {B : Type κ} (m : Tx A) (f : A → Tx B) (d : Db)
    → Drawn d (m d).1
    → ((a : A) (e : Db) → Drawn e (f a e).1)
    → Drawn d ((m >>= f) d).1
>>=-Drawn {A = A} {B = B} m f d first next = continued (m d).0 (m d).1 first
  where
    continued : (r : Result A) (e : Db) → Drawn d e → Drawn d (continue r f e).1
    continued (ok a) e h = Drawn-trans d e (f a e).1 h (next a e)
    continued (err x) e h = h

insert_rows-Drawn :
    (decode : String → Option (List ℕ)) (ht c : ℕ) (ps : List PartMeta) (d : Db)
    → Drawn d (insert_rows decode ht c ps d)
unfolding insert_rows
insert_rows-Drawn decode ht c [] d = Drawn-refl d
insert_rows-Drawn decode ht c (p ∷ ps) d =
    let next = record d {
      sequences = record d.sequences { next_part = d.next_part + 1 };
      parts = d.parts ++ part_row decode d.next_part ht c p ∷ [];
    } in
    Drawn-trans d next (insert_rows decode ht c ps next)
      (record { commits = omega arith; parts = omega arith; generations = omega arith })
      (insert_rows-Drawn decode ht c ps next)

tombstone_parts-Drawn : (ht c : ℕ) (ids : List ℕ) (d : Db) → Drawn d (tombstone_parts ht c ids d).1
unfolding tombstone_parts
tombstone_parts-Drawn ht c ids d = record {
  commits = ground arith;
  parts = ground arith;
  generations = ground arith;
}

insert_parts-Drawn :
    (decode : String → Option (List ℕ)) (ht c : ℕ) (ps : List PartMeta) (d : Db)
    → Drawn d (insert_parts decode ht c ps d).1
unfolding insert_parts
insert_parts-Drawn decode ht c ps d =
    let rows = insert_rows-Drawn decode ht c ps d in
    record { commits = rows.commits; parts = rows.parts; generations = rows.generations }

apply_op-Drawn :
    (decode : String → Option (List ℕ)) (ht c : ℕ) (op : CommitOp) (d : Db)
    → Drawn d (apply_op decode ht c op d).1
unfolding apply_op
apply_op-Drawn decode ht c (add ps) d = insert_parts-Drawn decode ht c ps d
apply_op-Drawn decode ht c (replace old new) d =
    >>=-Drawn (tombstone_parts ht c old) (λ _. insert_parts decode ht c new) d
      (tombstone_parts-Drawn ht c old d) (λ _ e. insert_parts-Drawn decode ht c new e)
apply_op-Drawn decode ht c (delete ps) d = tombstone_parts-Drawn ht c ps d

advance_offsets-Drawn :
    (ht : ℕ) (rs : List OffsetRange) (d : Db) → Drawn d (advance_offsets ht rs d).1
unfolding advance_offsets advance_offset
advance_offsets-Drawn ht [] d = Drawn-refl d
advance_offsets-Drawn ht (r ∷ rs) d =
    >>=-Drawn (advance_offset ht r) (λ _. advance_offsets ht rs) d
      (record { commits = ground arith; parts = ground arith; generations = ground arith })
      (λ _ e. advance_offsets-Drawn ht rs e)

resolve-Drawn : (i : Option OperationIdentity) (d : Db) → Drawn d (resolve i d).1
unfolding resolve lookup_in_tx
resolve-Drawn none d = Drawn-refl d
resolve-Drawn (some i) d = record {
  commits = ground arith;
  parts = ground arith;
  generations = ground arith;
}

insert_commit-Drawn :
    (now ht : ℕ) (op : String) (i : Option OperationIdentity) (d : Db)
    → Drawn d (insert_commit now ht op i d).1
unfolding insert_commit
insert_commit-Drawn now ht op i d = record {
  commits = ground arith;
  parts = ground arith;
  generations = ground arith;
}

recorded-Drawn :
    (lease : Option CompactionLease) (i : Option OperationIdentity) (d : Db)
    → Drawn d (recorded lease i d).1
unfolding recorded lookup_in_tx
recorded-Drawn (some lease) (some i) d = Drawn-refl d
recorded-Drawn (some lease) none d = Drawn-refl d
recorded-Drawn none i d = Drawn-refl d

fence-Drawn :
    (clock ht : ℕ) (lease : Option CompactionLease) (op : CommitOp) (d : Db)
    → Drawn d (fence clock ht lease op d).1
fence-Drawn clock ht lease op d =
    subst (λ e. Drawn d e) (sym (fence-same clock ht lease op d refl)) (Drawn-refl d)

-- Nothing is left of a transaction but draws.
pub record RolledBack (d d' : Db) : Type 0 where
  pub tables : d' ≡ record d { sequences = d'.sequences }
  pub drawn : Drawn d d'

module _ (decode : String → Option (List ℕ)) (t : Times) (ht : ℕ) (op : CommitOp)
    (identity : Option OperationIdentity) (offsets : List OffsetRange)
    (lease : Option CompactionLease) where
  after_insert-Drawn :
      (found : Option ℕ) (d : Db) → Drawn d (after_insert decode ht op identity offsets found d).1
  unfolding after_insert
  after_insert-Drawn none d = resolve-Drawn identity d
  after_insert-Drawn (some c) d =
      >>=-Drawn (apply_op decode ht c op) _ d (apply_op-Drawn decode ht c op d) (λ _ e.
        >>=-Drawn (advance_offsets ht offsets) _ e (advance_offsets-Drawn ht offsets e)
          (λ _ f. Drawn-refl f))

  after_recorded-Drawn :
      (found : Option ℕ) (d : Db)
      → Drawn d (after_recorded decode t ht op identity offsets lease found d).1
  unfolding after_recorded write
  after_recorded-Drawn (some x) d = Drawn-refl d
  after_recorded-Drawn none d =
      >>=-Drawn (fence t.clock ht lease op) _ d (fence-Drawn t.clock ht lease op d) (λ _ e.
        >>=-Drawn (insert_commit t.now ht (kind op) identity) _ e
          (insert_commit-Drawn t.now ht (kind op) identity e) after_insert-Drawn)

  statements-Drawn : (d : Db) → Drawn d (statements decode t ht op identity offsets lease d).1
  unfolding statements
  statements-Drawn d =
      >>=-Drawn (recorded lease identity) _ d (recorded-Drawn lease identity d) after_recorded-Drawn

  -- All of an operation that was allowed is there.
  abbrev pub Durable : Db → Db → Type 0
  Durable d d' =
      Allowed ht op identity offsets d × (d' ≡ applied decode t.now ht op identity offsets d)

  finish_cases :
      (ack : Ack) (d after : Db) (r : Result CommitResult)
      → Drawn d after
      → ((c : ℕ) → r ≡ ok (committed c) → Durable d after)
      → let after_all = (finish ack identity d r after).1 in
        RolledBack d after_all ⊎ Durable d after_all
  unfolding finish
  finish_cases ack d after (err e) n h = inl (record {
    tables = refl;
    drawn = record { commits = n.commits; parts = n.parts; generations = n.generations };
  })
  finish_cases ack d after (ok (already_applied x)) n h = inl (record {
    tables = refl;
    drawn = record { commits = n.commits; parts = n.parts; generations = n.generations };
  })
  finish_cases acknowledged d after (ok (committed c)) n h = inr (h c refl)
  finish_cases (lost e) d after (ok (committed c)) n h = inr (h c refl)
  finish_cases (refused e) d after (ok (committed c)) n h = inl (record {
    tables = refl;
    drawn = record { commits = n.commits; parts = n.parts; generations = n.generations };
  })

  -- Whatever it is called with and whatever becomes of its `COMMIT`, a transaction leaves every
  -- table as it was, with no sequence moved back, or it was allowed and left all that `applied`
  -- describes.
  pub commit_txn-Durable :
      (ack : Ack) (d : Db)
      → let d' = (commit_txn decode ack t ht op identity offsets lease d).1 in
        RolledBack d d' ⊎ Durable d d'
  unfolding commit_txn
  commit_txn-Durable ack d = elim (Option-cases (out_of_scope ht identity)) [
    | inr (e, outside) ↦
        rw (outside, commit_txn) (inl (record { tables = refl; drawn = Drawn-refl d }))
    | inl within ↦
        let s = statements decode t ht op identity offsets lease d in
        rw (within, commit_txn)
          (finish_cases ack d s.1 s.0 (statements-Drawn d) (λ c h.
            let (_, wrote) =
              statements-inverse decode t ht op identity offsets lease d s.1 c (cc h) in
            let (allowed, _, effect) =
              write-inverse decode t.now ht op identity offsets d s.1 c wrote in
            (allowed, effect)))
  ]
