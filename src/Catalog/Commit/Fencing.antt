-- ===== src/Catalog/Commit/Fencing.antt =====
-- commit.rs: what a compaction swap that committed had in hand.
use ukiel.Base.{
  true, subst, ℕ, ◌≡◌, ◌<◌, String, false, not, Option, some, List, [], ◌∷◌, arith, ◌==◌, nat_eq,
  string_eq, any, select, ap, length, Option-cases, inl, inr, find, All, eq_iff,
}
use ukiel.Core.Part.{PartMeta}
use ukiel.Core.Commit.{OperationIdentity, committed, replace}
use ukiel.Catalog.Db.{Db, LeaseRow}
use ukiel.Catalog.Tx.{ok}
use ukiel.Catalog.Leases.{CompactionLease, on, same_tenancy}
use ukiel.Catalog.Leases.Tokens.{IsOver}
use ukiel.Catalog.Commit.{
  Times, Ack, fence, fence_lease, fence_scope, inside, commit_compaction_replace,
}
use ukiel.Catalog.Commit.Outcome.{commit_txn-Went, DidNotCommit}

-- The tenancy is that of the partition's row, by owner and generation, and has not run out; there are
-- as many named parts in the leased partition as names, and the parts that come lie in it.
pub record Held (clock ht : ℕ) (lease : CompactionLease) (old : List ℕ) (new : List PartMeta)
    (d : Db) : Type 0 where
  pub row : LeaseRow
  pub same_table : ht ≡ lease.hypertable_id
  pub found : find (on ht lease.partition_values) d.leases ≡ some row
  pub owner : row.owner_id ≡ lease.owner_id
  pub generation : row.generation ≡ lease.generation
  pub unexpired : clock < row.expires_at
  pub old_inside : length (select (inside ht lease.partition_values old) d.parts) ≡ length old
  pub new_inside : All (λ (p : PartMeta). p.partition_values ≡ lease.partition_values) new

All-same :
    (partition : String) (new : List PartMeta)
    → any (λ (p : PartMeta). not (p.partition_values == partition)) new ≡ false
    → All (λ (p : PartMeta). p.partition_values ≡ partition) new
All-same partition [] h = tt
All-same partition (p ∷ ps) h =
    ground (arith, eq_iff p.partition_values partition, All-same partition ps)

fence-Held :
    (clock ht : ℕ) (lease : CompactionLease) (old : List ℕ) (new : List PartMeta) (d d' : Db)
    → fence clock ht (some lease) (replace old new) d ≡ (ok tt, d')
    → Held clock ht lease old new d
unfolding fence fence_lease fence_scope
fence-Held clock ht lease old new d d' h =
    elim (Option-cases (find (on ht lease.partition_values) d.leases)) [
      | inl missing ↦ absurd (ground (arith, missing))
      | inr (row, found) ↦ record {
        row = row;
        same_table = ground arith;
        found = found;
        owner = ground (arith, found);
        generation = ground (arith, found);
        unexpired = ground (arith, found);
        old_inside = ground (arith, found);
        new_inside = All-same lease.partition_values new (ground (arith, found));
      }
    ]

pub replace-Held :
    (decode : String → Option (List ℕ)) (ack : Ack) (t : Times) (ht : ℕ) (lease : CompactionLease)
    (old : List ℕ) (new : List PartMeta) (identity : OperationIdentity) (d d' : Db) (c : ℕ)
    → commit_compaction_replace decode ack t ht lease old new identity d ≡ (ok (committed c), d')
    → Held t.clock ht lease old new d
unfolding commit_compaction_replace
replace-Held decode ack t ht lease old new identity d d' c h =
    fence-Held t.clock ht lease old new d d
      (commit_txn-Went decode t ht (replace old new) (some identity) [] (some lease) ack d d' c
        h).fenced

any_of_found :
    (lease : CompactionLease) (rs : List LeaseRow) (row : LeaseRow)
    → find (on lease.hypertable_id lease.partition_values) rs ≡ some row
    → row.owner_id ≡ lease.owner_id
    → row.generation ≡ lease.generation
    → any (same_tenancy lease) rs ≡ true
any_of_found lease [] row h o g = cc
any_of_found lease (r ∷ rs) row h o g = ground (arith, any_of_found lease rs row)

-- A worker whose tenancy is over cannot commit a compaction swap, whatever its clock, its parts and
-- its identity.
pub zombie_cannot_commit :
    (decode : String → Option (List ℕ)) (ack : Ack) (t : Times) (ht : ℕ) (lease : CompactionLease)
    (old : List ℕ) (new : List PartMeta) (identity : OperationIdentity) (d : Db)
    → IsOver lease d
    → DidNotCommit (commit_compaction_replace decode ack t ht lease old new identity d).0
zombie_cannot_commit decode ack t ht lease old new identity d over c h =
    let run = commit_compaction_replace decode ack t ht lease old new identity d in
    let held =
      replace-Held decode ack t ht lease old new identity d run.1 c (ap (λ r. (r, run.1)) h) in
    let found =
      subst (λ table. find (on table lease.partition_values) d.leases ≡ some held.row)
        held.same_table held.found in
    cc (over.gone, any_of_found lease d.leases held.row found held.owner held.generation)
