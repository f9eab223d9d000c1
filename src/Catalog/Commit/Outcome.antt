-- ===== src/Catalog/Commit/Outcome.antt =====
-- commit.rs: what a whole transaction answers, and what it leaves behind.
use ukiel.Base.{
  ℕ, ◌≡◌, String, Option, none, some, List, arith, nat_eq, string_eq, Option-cases, inl, inr, ◌≢◌,
  subst,
}
use ukiel.Core.Commit.{CommitOp, CommitResult, OperationIdentity, committed, already_applied}
use ukiel.Catalog.Db.{Db}
use ukiel.Catalog.Tx.{Result, ok, err, >>=-ok}
use ukiel.Catalog.Offsets.{OffsetRange}
use ukiel.Catalog.Leases.{CompactionLease}
use ukiel.Catalog.Commit.{
  Times, Ack, acknowledged, lost, refused, write, fence, fence_lease, fence_scope, recorded,
  after_recorded, statements, finish, commit_txn, out_of_scope, lookup_in_tx,
}
use ukiel.Catalog.Commit.Applied.{Allowed, applied}
use ukiel.Catalog.Commit.Writes.{write-applied, write-inverse}

pub fence-same :
    (clock ht : ℕ) (lease : Option CompactionLease) (op : CommitOp) (d : Db) {r : Result (Unit {0})}
    {d' : Db}
    → fence clock ht lease op d ≡ (r, d')
    → d' ≡ d
unfolding fence fence_lease fence_scope
fence-same clock ht none op d h = cc
fence-same clock ht (some lease) (CommitOp.add ps) d h = ground arith
fence-same clock ht (some lease) (CommitOp.replace old new) d h = ground arith
fence-same clock ht (some lease) (CommitOp.delete ps) d h = ground arith

recorded-same :
    (lease : Option CompactionLease) (identity : Option OperationIdentity) (d : Db)
    {r : Result (Option ℕ)} {d' : Db}
    → recorded lease identity d ≡ (r, d')
    → d' ≡ d
unfolding recorded lookup_in_tx
recorded-same (some lease) (some i) d h = cc
recorded-same (some lease) none d h = cc
recorded-same none i d h = cc

-- The identity, if there is one, is scoped to the hypertable.
abbrev pub InScope : ℕ → Option OperationIdentity → Type 0
InScope ht identity = out_of_scope ht identity ≡ none

-- Nothing but the sequences differs.
abbrev pub Unchanged : Db → Db → Type 0
Unchanged d d' = d' ≡ record d { sequences = d'.sequences }

abbrev pub DidNotCommit : Result CommitResult → Type 0
DidNotCommit r = (c : ℕ) → r ≢ ok (committed c)

module _ (decode : String → Option (List ℕ)) (t : Times) (ht : ℕ) (op : CommitOp)
    (identity : Option OperationIdentity) (offsets : List OffsetRange)
    (lease : Option CompactionLease) where
  pub record Went (c : ℕ) (d d' : Db) : Type 0 where
    pub scoped : InScope ht identity
    pub fenced : fence t.clock ht lease op d ≡ (ok tt, d)
    pub allowed : Allowed ht op identity offsets d
    pub numbered : c ≡ d.next_commit
    pub effect : d' ≡ applied decode t.now ht op identity offsets d

  after_recorded-inverse :
      (found : Option ℕ) (d d' : Db) (c : ℕ)
      → after_recorded decode t ht op identity offsets lease found d ≡ (ok (committed c), d')
      → (fence t.clock ht lease op d ≡ (ok tt, d))
        × (write decode t.now ht op identity offsets d ≡ (ok (committed c), d'))
  unfolding after_recorded
  after_recorded-inverse (some x) d d' c h = cc
  after_recorded-inverse none d d' c h =
      let (_, d₁, ran, wrote) = >>=-ok (fence t.clock ht lease op) _ d h in
      let same = fence-same t.clock ht lease op d ran in
      (
        subst (λ x. fence t.clock ht lease op d ≡ (ok tt, x)) same ran,
        subst (λ x. write decode t.now ht op identity offsets x ≡ (ok (committed c), d')) same
            wrote,
      )

  pub statements-inverse :
      (d d' : Db) (c : ℕ)
      → statements decode t ht op identity offsets lease d ≡ (ok (committed c), d')
      → (fence t.clock ht lease op d ≡ (ok tt, d))
        × (write decode t.now ht op identity offsets d ≡ (ok (committed c), d'))
  unfolding statements
  statements-inverse d d' c h =
      let (found, d₁, e₁, h₁) = >>=-ok (recorded lease identity) _ d h in
      after_recorded-inverse found d d' c (
        subst
          (λ x.
            after_recorded decode t ht op identity offsets lease found x ≡ (ok (committed c), d'))
          (recorded-same lease identity d e₁) h₁)

  finish-inverse :
      (ack : Ack) (d : Db) (r : Result CommitResult) (after d' : Db) (c : ℕ)
      → finish ack identity d r after ≡ (ok (committed c), d')
      → (r ≡ ok (committed c)) × (after ≡ d')
  unfolding finish
  finish-inverse ack d (err e) after d' c h = (cc, cc)
  finish-inverse ack d (ok (already_applied x)) after d' c h = (cc, cc)
  finish-inverse acknowledged d (ok (committed x)) after d' c h = (cc, cc)
  finish-inverse (lost e) d (ok (committed x)) after d' c h = (cc, cc)
  finish-inverse (refused e) d (ok (committed x)) after d' c h = (cc, cc)

  -- A transaction that answers that it committed was in scope, had its fence if it took a lease,
  -- was allowed, took the next commit id, and left exactly the database that `applied` describes.
  pub commit_txn-Went :
      (ack : Ack) (d d' : Db) (c : ℕ)
      → commit_txn decode ack t ht op identity offsets lease d ≡ (ok (committed c), d')
      → Went c d d'
  unfolding commit_txn
  commit_txn-Went ack d d' c h = elim (Option-cases (out_of_scope ht identity)) [
    | inr (e, outside) ↦ cc (rw (outside, commit_txn) at h)
    | inl within ↦
        let s = statements decode t ht op identity offsets lease d in
        let (r, after) = finish-inverse ack d s.0 s.1 d' c (rw (within, commit_txn) at h) in
        let (fenced, wrote) = statements-inverse d d' c (cc (r, after)) in
        let (allowed, number, effect) =
          write-inverse decode t.now ht op identity offsets d d' c wrote in
        record {
          scoped = within;
          fenced = fenced;
          allowed = allowed;
          numbered = number;
          effect = effect;
        }
  ]

  pub statements-applied :
      (d : Db)
      → recorded lease identity d ≡ (ok none, d)
      → fence t.clock ht lease op d ≡ (ok tt, d)
      → Allowed ht op identity offsets d
      → statements decode t ht op identity offsets lease d
        ≡ (ok (committed d.next_commit), applied decode t.now ht op identity offsets d)
  unfolding statements after_recorded
  statements-applied d r f a = rw (r, f) (write-applied decode t.now ht op identity offsets d a)

  -- A transaction that is in scope, finds no intent of its own recorded, has its fence in hand and
  -- its writes allowed commits under the next id with the effect `applied`, if `COMMIT` is
  -- acknowledged.
  pub commit_txn-applied :
      (d : Db)
      → InScope ht identity
      → recorded lease identity d ≡ (ok none, d)
      → fence t.clock ht lease op d ≡ (ok tt, d)
      → Allowed ht op identity offsets d
      → commit_txn decode acknowledged t ht op identity offsets lease d
        ≡ (ok (committed d.next_commit), applied decode t.now ht op identity offsets d)
  unfolding commit_txn finish
  commit_txn-applied d i r f a = rw (i, commit_txn) (rw (statements-applied d r f a))
