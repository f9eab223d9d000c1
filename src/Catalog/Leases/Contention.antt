-- ===== src/Catalog/Leases/Contention.antt =====
-- leases.rs: who gets a partition, and on what terms.
use ukiel.Base.{
  ℕ, ◌+◌, ◌^◌, ◌≡◌, ◌≢◌, ◌<◌, refl, ◌∙◌, String, true, false, elem, ◌&&◌, Option, none, some, List,
  [], ◌∷◌, arith, ltb, ◌==◌, nat_eq, string_eq, update, Bool-cases, Option-cases, inl, inr, find,
  eq_iff, ◌⊎◌, find-append_none, any_of_find-none,
}
use ukiel.Catalog.Error.{db, database}
use ukiel.Catalog.Db.{Db, LeaseRow}
use ukiel.Catalog.Tx.{Result, ok, err}
use ukiel.Catalog.Leases.{
  CompactionLease, on, takeable, taken, claim, ttl_millis, acquire_row,
  try_acquire_compaction_lease,
}

pub ttl_millis_valid : (ttl : ℕ) → 0 < ttl → ttl < 2 ^ 63 → ttl_millis ttl ≡ ok ttl
unfolding ttl_millis
ttl_millis_valid ttl p q = ground arith

-- A live peer holds the partition.
pub record Contended (ht : ℕ) (partition : String) (owner clock : ℕ) (d : Db) : Type 0 where
  pub row : LeaseRow
  pub found : find (on ht partition) d.leases ≡ some row
  pub unexpired : clock < row.expires_at
  pub peer : row.owner_id ≢ owner

-- A lease that a claim got: it stands in the table under the claimant for the full term, under a
-- generation drawn for it, or under the one that the claimant still held.
pub record Granted (ht : ℕ) (partition : String) (owner ms clock : ℕ) (d d' : Db)
    (l : CompactionLease) : Type 0 where
  pub held : find (on ht partition) d'.leases ≡ some l
  pub owned : l.owner_id ≡ owner
  pub term : l.expires_at ≡ clock + ms
  pub numbered :
      (l.generation ≡ d.next_generation)
      ⊎ ((r : LeaseRow) × (find (on ht partition) d.leases ≡ some r)
          × (r.owner_id ≡ owner)
          × (clock < r.expires_at)
          × (l.generation ≡ r.generation))

-- A claim of a partition that nobody has, in a hypertable that there is not: the foreign key
-- refuses it.
pub record Orphan (ht : ℕ) (partition : String) (d : Db)
    (run : Result (Option CompactionLease) × Db) : Type 0 where
  pub unknown : elem ht d.hypertables ≡ false
  pub free : find (on ht partition) d.leases ≡ none
  pub refused : run.0 ≡ err (db (database (some "23503")))
  pub same : run.1.leases ≡ d.leases

find-update :
    (ht : ℕ) (partition : String) (owner g clock e : ℕ) (rs : List LeaseRow) (r : LeaseRow)
    → find (on ht partition) rs ≡ some r
    → find (on ht partition) (update (on ht partition) (taken owner g clock e) rs)
      ≡ some (taken owner g clock e r)
find-update ht partition owner g clock e [] r h = cc
find-update ht partition owner g clock e (x ∷ rs) r h =
    ground (arith, find-update ht partition owner g clock e rs r)

on_claim :
    (ht : ℕ) (partition : String) (owner g e : ℕ)
    → on ht partition (claim ht partition owner g e) ≡ true
on_claim ht partition owner g e = ground (arith, eq_iff partition partition)

module _ (ht : ℕ) (partition : String) (owner ttl clock : ℕ) (d : Db) where
  free_row :
      find (on ht partition) d.leases ≡ none
      → elem ht d.hypertables ≡ true
      → Granted ht partition owner ttl clock d
          (acquire_row ht partition owner ttl clock d).1
          (claim ht partition owner d.next_generation (clock + ttl))
  unfolding acquire_row
  free_row free known =
      rw (free, acquire_row)
        (rw known (record {
          held =
              find-append_none (on ht partition) d.leases
                (claim ht partition owner d.next_generation (clock + ttl) ∷ [])
                (any_of_find-none (on ht partition) d.leases free)
              ∙ rw (on_claim ht partition owner d.next_generation (clock + ttl)) refl;
          owned = refl;
          term = refl;
          numbered = inl refl;
        }))

  taken_row :
      (r : LeaseRow)
      → find (on ht partition) d.leases ≡ some r
      → takeable owner clock r ≡ true
      → Granted ht partition owner ttl clock d
          (acquire_row ht partition owner ttl clock d).1
          (taken owner d.next_generation clock (clock + ttl) r)
  unfolding acquire_row
  taken_row r found yours =
      rw (found, acquire_row)
        (rw yours (record {
          held =
              find-update ht partition owner d.next_generation clock (clock + ttl) d.leases r found;
          owned = refl;
          term = refl;
          numbered = elim (Bool-cases (r.owner_id == owner && ltb clock r.expires_at)) [
            | inl kept ↦ inr (r, found, ground arith, ground arith, rw kept refl)
            | inr drawn ↦ inl (rw drawn refl)
          ];
        }))

  abbrev Cases : Result (Option CompactionLease) × Db → Type 0
  Cases run =
      ((run.0 ≡ ok none) × Contended ht partition owner clock d × (run.1.leases ≡ d.leases))
      ⊎ (((l : CompactionLease) × (run.0 ≡ ok (some l))
            × Granted ht partition owner ttl clock d run.1 l
            × ¬ Contended ht partition owner clock d)
          ⊎ Orphan ht partition d run)

  acquire_row-Cases : Cases (acquire_row ht partition owner ttl clock d)
  acquire_row-Cases = elim (Option-cases (find (on ht partition) d.leases)) [
    | inl free ↦ elim (Bool-cases (elem ht d.hypertables)) [
      | inl known ↦ inr (
          inl (
            claim ht partition owner d.next_generation (clock + ttl),
            unfold acquire_row in rw (free, acquire_row) (rw known refl),
            free_row free known,
            λ c. cc (free, c.found),
          ))
      | inr unknown ↦ inr (
          inr (record {
            unknown = unknown;
            free = free;
            refused = unfold acquire_row in rw (free, acquire_row) (rw unknown refl);
            same = unfold acquire_row in rw (free, acquire_row) (rw unknown refl);
          }))
    ]
    | inr (r, found) ↦ elim (Bool-cases (takeable owner clock r)) [
      | inl yours ↦ inr (
          inl (
            taken owner d.next_generation clock (clock + ttl) r,
            unfold acquire_row in rw (found, acquire_row) (rw yours refl),
            taken_row r found yours,
            λ c. not_contended r found yours c.row c.found c.unexpired c.peer,
          ))
      | inr theirs ↦ inl (
        unfold acquire_row in rw (found, acquire_row) (rw theirs refl),
        record { row = r; found = found; unexpired = ground arith; peer = ground arith },
        unfold acquire_row in rw (found, acquire_row) (rw theirs refl),
      )
    ]
  ]
    where
      not_contended :
          (r : LeaseRow)
          → find (on ht partition) d.leases ≡ some r
          → takeable owner clock r ≡ true
          → (row : LeaseRow) → find (on ht partition) d.leases ≡ some row
          → clock < row.expires_at
          → row.owner_id ≢ owner
          → ⊥
      not_contended r found yours row again live peer = peer (ground arith)

  -- A claim with a valid time to live is told that a peer holds the partition only where a live
  -- peer does, and then no lease row changes; it fails only on the foreign key, where nobody has
  -- the partition and the hypertable is unknown, and then no lease row changes; otherwise it gets a
  -- lease of its own.
  pub acquire_cases :
      0 < ttl
      → ttl < 2 ^ 63
      → let run = try_acquire_compaction_lease ht partition owner ttl clock d in
        ((run.0 ≡ ok none) × Contended ht partition owner clock d × (run.1.leases ≡ d.leases))
        ⊎ (((l : CompactionLease) × (run.0 ≡ ok (some l))
              × Granted ht partition owner ttl clock d run.1 l
              × ¬ Contended ht partition owner clock d)
            ⊎ Orphan ht partition d run)
  unfolding try_acquire_compaction_lease
  acquire_cases p q = rw (ttl_millis_valid ttl p q) acquire_row-Cases
