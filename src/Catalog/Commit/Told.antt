-- ===== src/Catalog/Commit/Told.antt =====
-- commit.rs: when a caller is told that a mutation is ambiguous.
use ukiel.Base.{
  ℕ, ◌≡◌, refl, sym, ap, ◌∙◌, ◌≢◌, ◌==◌, subst, ◌⊎◌, inl, inr, String, Bool, true, false, Option,
  none, some, List, [], ◌∷◌, arith, nat_eq, string_eq, Option-cases, Bool-cases,
}
use ukiel.Core.Commit.{
  CommitOp, CommitResult, OperationIdentity, committed, already_applied, kind, add, replace, delete,
}
use ukiel.Catalog.Error.{
  CatalogError, DbError, ambiguous_mutation, is_transport, operation_hypertable_mismatch,
  class_for_db_error,
}
use ukiel.Catalog.Db.{Db}
use ukiel.Catalog.Tx.{Tx, Result, ok, err, continue, ◌>>=◌}
use ukiel.Catalog.Offsets.{OffsetRange, advance_offset, advance_offsets}
use ukiel.Catalog.Leases.{CompactionLease}
use ukiel.Catalog.Parts.{tombstone_parts, insert_parts}
use ukiel.Catalog.Commit.{
  Ack, acknowledged, lost, refused, Times, recorded, fence, fence_lease, fence_scope, insert_commit,
  resolve, lookup_in_tx, reconcile, after_insert, write, after_recorded, statements, finish,
  out_of_scope, commit_txn, apply_op, ambiguous_or_definite,
}
use ukiel.Catalog.Commit.Applied.{applied, Allowed}
use ukiel.Catalog.Commit.Writes.{write-inverse}
use ukiel.Catalog.Commit.Outcome.{statements-inverse, InScope, Unchanged}

abbrev ambiguous : CatalogError → Bool
ambiguous (ambiguous_mutation i key e) = true
ambiguous e = false

-- An answer that is not "ambiguous".
abbrev Definite {ℓ} : {A : Type ℓ} → Result A → Type 0
Definite (ok a) = Unit
Definite (err e) = ambiguous e ≡ false

>>=-Definite {ℓ κ} :
    {A : Type ℓ} {B : Type κ} (m : Tx A) (f : A → Tx B) (d : Db)
    → Definite (m d).0
    → ((a : A) (e : Db) → Definite (f a e).0)
    → Definite ((m >>= f) d).0
>>=-Definite {A = A} {B = B} m f d first next = continued (m d).0 (m d).1 first
  where
    continued : (r : Result A) (e : Db) → Definite r → Definite (continue r f e).0
    continued (ok a) e h = next a e
    continued (err x) e h = h

tombstone_parts-Definite :
    (ht c : ℕ) (ids : List ℕ) (d : Db) → Definite (tombstone_parts ht c ids d).0
unfolding tombstone_parts
tombstone_parts-Definite ht c ids d = ground arith

apply_op-Definite :
    (decode : String → Option (List ℕ)) (ht c : ℕ) (op : CommitOp) (d : Db)
    → Definite (apply_op decode ht c op d).0
unfolding apply_op insert_parts
apply_op-Definite decode ht c (add ps) d = tt
apply_op-Definite decode ht c (replace old new) d =
    >>=-Definite (tombstone_parts ht c old) (λ _. insert_parts decode ht c new) d
      (tombstone_parts-Definite ht c old d) (λ _ e. tt)
apply_op-Definite decode ht c (delete ps) d = tombstone_parts-Definite ht c ps d

advance_offsets-Definite :
    (ht : ℕ) (rs : List OffsetRange) (d : Db) → Definite (advance_offsets ht rs d).0
unfolding advance_offsets advance_offset
advance_offsets-Definite ht [] d = tt
advance_offsets-Definite ht (r ∷ rs) d =
    >>=-Definite (advance_offset ht r) (λ _. advance_offsets ht rs) d (ground arith)
      (λ _ e. advance_offsets-Definite ht rs e)

lookup_in_tx-Definite : (i : OperationIdentity) (d : Db) → Definite (lookup_in_tx i d).0
unfolding lookup_in_tx reconcile
lookup_in_tx-Definite i d = ground arith

resolve-Definite : (i : Option OperationIdentity) (d : Db) → Definite (resolve i d).0
unfolding resolve
resolve-Definite none d = refl
resolve-Definite (some i) d =
    >>=-Definite (lookup_in_tx i) _ d (lookup_in_tx-Definite i d) (λ found e. ground arith)

fence-Definite :
    (clock ht : ℕ) (lease : Option CompactionLease) (op : CommitOp) (d : Db)
    → Definite (fence clock ht lease op d).0
unfolding fence fence_lease fence_scope
fence-Definite clock ht none op d = tt
fence-Definite clock ht (some lease) (add ps) d = ground arith
fence-Definite clock ht (some lease) (replace old new) d = ground arith
fence-Definite clock ht (some lease) (delete ps) d = ground arith

insert_commit-Definite :
    (now ht : ℕ) (op : String) (i : Option OperationIdentity) (d : Db)
    → Definite (insert_commit now ht op i d).0
unfolding insert_commit
insert_commit-Definite now ht op i d = ground arith

recorded-Definite :
    (lease : Option CompactionLease) (i : Option OperationIdentity) (d : Db)
    → Definite (recorded lease i d).0
unfolding recorded
recorded-Definite (some lease) (some i) d = lookup_in_tx-Definite i d
recorded-Definite (some lease) none d = tt
recorded-Definite none i d = tt

-- The error of `COMMIT` became the ambiguous one.
record Failed (identity : Option OperationIdentity) (i : OperationIdentity) (key : String)
    (e f : DbError) : Type 0 where
  own : identity ≡ some i
  named : key ≡ i.key
  same : f ≡ e
  transport : is_transport (class_for_db_error e) ≡ true

commit_error :
    (identity : Option OperationIdentity) (i : OperationIdentity) (key : String) (e f : DbError)
    → ambiguous_or_definite identity f ≡ ambiguous_mutation i key e
    → Failed identity i key e f
unfolding ambiguous_or_definite
commit_error none i key e f h = elim (Bool-cases (is_transport (class_for_db_error f))) [
  | inl g ↦ cc (rw g at h)
  | inr g ↦ cc (rw g at h)
]
commit_error (some own) i key e f h = elim (Bool-cases (is_transport (class_for_db_error f))) [
  | inr g ↦ cc (rw g at h)
  | inl g ↦
      let told : ambiguous_mutation own own.key f ≡ ambiguous_mutation i key e = rw g at h in
      let mine : own ≡ i = cc told in
      let name : own.key ≡ key = cc told in
      let same : f ≡ e = cc told in
      record {
        own = ap some mine;
        named = sym name ∙ ap (λ (x : OperationIdentity). x.key) mine;
        same = same;
        transport = subst (λ x. is_transport (class_for_db_error x) ≡ true) same g;
      }
]

out_of_scope-Definite :
    (ht : ℕ) (identity : Option OperationIdentity) (x : CatalogError)
    → out_of_scope ht identity ≡ some x
    → ambiguous x ≡ false
unfolding out_of_scope
out_of_scope-Definite ht none x h = cc
out_of_scope-Definite ht (some i) x h = elim (Bool-cases (i.hypertable_id == ht)) [
  | inl g ↦ cc (rw g at h)
  | inr g ↦
      let same : operation_hypertable_mismatch i.hypertable_id ht ≡ x = cc (rw g at h) in
      ap ambiguous (sym same)
]

definite_not_told :
    (x : CatalogError) (i : OperationIdentity) (key : String) (e : DbError)
    → ambiguous x ≡ false
    → x ≢ ambiguous_mutation i key e
definite_not_told x i key e definite h = cc (ap ambiguous h, definite)

module _ (decode : String → Option (List ℕ)) (t : Times) (ht : ℕ) (op : CommitOp)
    (identity : Option OperationIdentity) (offsets : List OffsetRange)
    (lease : Option CompactionLease) where
  after_insert-Definite :
      (found : Option ℕ) (d : Db) → Definite (after_insert decode ht op identity offsets found d).0
  unfolding after_insert
  after_insert-Definite none d = resolve-Definite identity d
  after_insert-Definite (some c) d =
      >>=-Definite (apply_op decode ht c op) _ d (apply_op-Definite decode ht c op d) (λ _ e.
        >>=-Definite (advance_offsets ht offsets) _ e (advance_offsets-Definite ht offsets e)
          (λ _ f. tt))

  after_recorded-Definite :
      (found : Option ℕ) (d : Db)
      → Definite (after_recorded decode t ht op identity offsets lease found d).0
  unfolding after_recorded write
  after_recorded-Definite (some x) d = tt
  after_recorded-Definite none d =
      >>=-Definite (fence t.clock ht lease op) _ d (fence-Definite t.clock ht lease op d) (λ _ e.
        >>=-Definite (insert_commit t.now ht (kind op) identity) _ e
          (insert_commit-Definite t.now ht (kind op) identity e) after_insert-Definite)

  statements-Definite : (d : Db) → Definite (statements decode t ht op identity offsets lease d).0
  unfolding statements
  statements-Definite d =
      >>=-Definite (recorded lease identity) _ d (recorded-Definite lease identity d)
        after_recorded-Definite

  -- What is known where a caller is told that its mutation is ambiguous.
  pub record Told (ack : Ack) (i : OperationIdentity) (key : String) (e : DbError) (d d' : Db)
      : Type 0 where
    pub own : identity ≡ some i
    pub named : key ≡ i.key
    pub transport : is_transport (class_for_db_error e) ≡ true
    pub scoped : InScope ht identity
    pub fenced : fence t.clock ht lease op d ≡ (ok tt, d)
    pub allowed : Allowed ht op identity offsets d
    pub outcome :
        ((ack ≡ lost e) × (d' ≡ applied decode t.now ht op identity offsets d))
        ⊎ ((ack ≡ refused e) × Unchanged d d')

  finish-Told :
      (ack : Ack) (d : Db) (r : Result CommitResult) (after : Db) (i : OperationIdentity)
      (key : String) (e : DbError)
      → Definite r
      → ((c : ℕ)
          → r ≡ ok (committed c)
          → (fence t.clock ht lease op d ≡ (ok tt, d))
            × Allowed ht op identity offsets d
            × (after ≡ applied decode t.now ht op identity offsets d))
      → InScope ht identity
      → (finish ack identity d r after).0 ≡ err (ambiguous_mutation i key e)
      → Told ack i key e d (finish ack identity d r after).1
  unfolding finish
  finish-Told ack d (err x) after i key e definite went scoped h =
      absurd (definite_not_told x i key e definite (cc h))
  finish-Told ack d (ok (already_applied c)) after i key e definite went scoped h = cc
  finish-Told acknowledged d (ok (committed c)) after i key e definite went scoped h = cc
  finish-Told (lost f) d (ok (committed c)) after i key e definite went scoped h =
      let (fenced, allowed, effect) = went c refl in
      let told = commit_error identity i key e f (cc h) in
      record {
        own = told.own;
        named = told.named;
        transport = told.transport;
        scoped = scoped;
        fenced = fenced;
        allowed = allowed;
        outcome = inl (ap lost told.same, effect);
      }
  finish-Told (refused f) d (ok (committed c)) after i key e definite went scoped h =
      let (fenced, allowed, _) = went c refl in
      let told = commit_error identity i key e f (cc h) in
      record {
        own = told.own;
        named = told.named;
        transport = told.transport;
        scoped = scoped;
        fenced = fenced;
        allowed = allowed;
        outcome = inr (ap refused told.same, refl);
      }

  -- A caller is told that a mutation is ambiguous only of the identity it came with, where its fence
  -- was in hand and all its writes were allowed and `COMMIT` failed in transport; the effect of the
  -- mutation is then there in full, where the answer alone was lost, or no table has changed.
  pub commit_txn-Told :
      (ack : Ack) (d : Db) (i : OperationIdentity) (key : String) (e : DbError)
      → (commit_txn decode ack t ht op identity offsets lease d).0
        ≡ err (ambiguous_mutation i key e)
      → Told ack i key e d (commit_txn decode ack t ht op identity offsets lease d).1
  unfolding commit_txn
  commit_txn-Told ack d i key e h = elim (Option-cases (out_of_scope ht identity)) [
    | inr (x, outside) ↦ absurd (
        definite_not_told x i key e (out_of_scope-Definite ht identity x outside)
          (cc (rw (outside, commit_txn) at h)))
    | inl within ↦
        let s = statements decode t ht op identity offsets lease d in
        rw (within, commit_txn)
          (finish-Told ack d s.0 s.1 i key e (statements-Definite d)
            (λ c ran.
              let (fenced, wrote) =
                statements-inverse decode t ht op identity offsets lease d s.1 c (cc ran) in
              let (allowed, _, effect) =
                write-inverse decode t.now ht op identity offsets d s.1 c wrote in
              (fenced, allowed, effect))
            within (rw (within, commit_txn) at h))
  ]
