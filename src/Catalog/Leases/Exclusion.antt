-- ===== src/Catalog/Leases/Exclusion.antt =====
-- leases.rs: the tenancies of a partition and their generations.
use ukiel.Base.{
  any_of_find-none, ℕ, ◌+◌, ◌≡◌, ◌<◌, refl, String, Bool, false, not, ◌&&◌, List, [], ◌∷◌, ◌++◌,
  arith, ltb, nat_eq, string_eq, any, elem, select, update, Bool-cases, Option-cases, inl, inr,
  find, All, All-append, All-imp, All-select, eq_iff,
}
use ukiel.Catalog.Db.{Db, LeaseRow}
use ukiel.Catalog.Tx.{Result, Tx, ok, err, ◌>>=◌, lift}
use ukiel.Catalog.Leases.{
  CompactionLease, on, takeable, taken, ttl_millis, acquire_row, draw_generation,
  try_acquire_compaction_lease, same_tenancy, renew_row, renew_compaction_lease,
  release_compaction_lease,
}

-- One row for each partition: no later row is on the partition of an earlier one.
abbrev pub Unique : List LeaseRow → Type 0
Unique [] = Unit {0}
Unique (r ∷ rs) = (any (on r.hypertable_id r.partition_values) rs ≡ false) × Unique rs

-- The lease table: one row for each partition, and no generation that is still to be drawn.
pub record IsLeased (d : Db) : Type 0 where
  pub unique : Unique d.leases
  pub drawn : All (λ (r : LeaseRow). r.generation < d.next_generation) d.leases

-- A change of a row that leaves its partition.
abbrev SamePartition : (LeaseRow → LeaseRow) → Type 0
SamePartition f =
    (r : LeaseRow)
    → ((f r).hypertable_id ≡ r.hypertable_id) × ((f r).partition_values ≡ r.partition_values)

any-update :
    (p : LeaseRow → Bool) (f : LeaseRow → LeaseRow) (ht : ℕ) (partition : String)
    (rs : List LeaseRow)
    → SamePartition f
    → any (on ht partition) (update p f rs) ≡ any (on ht partition) rs
any-update p f ht partition [] s = refl
any-update p f ht partition (r ∷ rs) s = ground (arith, s r, any-update p f ht partition rs s)

update-Unique :
    (p : LeaseRow → Bool) (f : LeaseRow → LeaseRow) (rs : List LeaseRow)
    → SamePartition f
    → Unique rs
    → Unique (update p f rs)
update-Unique p f [] s u = tt
update-Unique p f (r ∷ rs) s u =
    ground (
      arith,
      s r,
      any-update p f r.hypertable_id r.partition_values rs s,
      update-Unique p f rs s u.1,
    )

any-append_one :
    (ht : ℕ) (partition : String) (rs : List LeaseRow) (x : LeaseRow)
    → any (on ht partition) rs ≡ false
    → on ht partition x ≡ false
    → any (on ht partition) (rs ++ x ∷ []) ≡ false
any-append_one ht partition [] x h g = rw g
any-append_one ht partition (r ∷ rs) x h g = ground (arith, any-append_one ht partition rs x)

append-Unique :
    (rs : List LeaseRow) (x : LeaseRow)
    → Unique rs
    → any (on x.hypertable_id x.partition_values) rs ≡ false
    → Unique (rs ++ x ∷ [])
append-Unique [] x u h = (refl, tt)
append-Unique (r ∷ rs) x u h = (
  any-append_one r.hypertable_id r.partition_values rs x u.0 (
      ground (
        arith,
        eq_iff r.partition_values x.partition_values,
        eq_iff x.partition_values r.partition_values,
      )),
  append-Unique rs x u.1 (ground arith),
)

any-select :
    (p : LeaseRow → Bool) (ht : ℕ) (partition : String) (rs : List LeaseRow)
    → any (on ht partition) rs ≡ false
    → any (on ht partition) (select p rs) ≡ false
any-select p ht partition [] h = refl
any-select p ht partition (r ∷ rs) h = ground (arith, any-select p ht partition rs)

select-Unique : (p : LeaseRow → Bool) (rs : List LeaseRow) → Unique rs → Unique (select p rs)
select-Unique p [] u = tt
select-Unique p (r ∷ rs) u =
    ground (arith, any-select p r.hypertable_id r.partition_values rs, select-Unique p rs u.1)

drawn-update :
    (n : ℕ) (p : LeaseRow → Bool) (f : LeaseRow → LeaseRow) (rs : List LeaseRow)
    → ((r : LeaseRow) → r.generation < n → (f r).generation < n)
    → All (λ (r : LeaseRow). r.generation < n) rs
    → All (λ (r : LeaseRow). r.generation < n) (update p f rs)
drawn-update n p f [] k a = tt
drawn-update n p f (r ∷ rs) k a = ground (arith, k r, drawn-update n p f rs k a.1)

acquire_row-IsLeased :
    (ht : ℕ) (partition : String) (owner ms clock : ℕ) (d : Db)
    → IsLeased d
    → IsLeased (acquire_row ht partition owner ms clock d).1
unfolding acquire_row
acquire_row-IsLeased ht partition owner ms clock d v =
    elim (Option-cases (find (on ht partition) d.leases)) [
      | inl free ↦ elim (Bool-cases (elem ht d.hypertables)) [
        | inr unknown ↦ rw (free, acquire_row) (rw unknown unclaimed)
        | inl known ↦
            rw (free, acquire_row)
              (rw known (record {
                unique =
                    append-Unique d.leases _ v.unique
                      (any_of_find-none (on ht partition) d.leases free);
                drawn = All-append _ d.leases _ grown (omega arith, tt);
              }))
      ]
      | inr (r, found) ↦ elim (Bool-cases (takeable owner clock r)) [
        | inl yours ↦
            rw (found, acquire_row)
              (rw yours (record {
                unique = update-Unique (on ht partition) _ d.leases (λ r. (refl, refl)) v.unique;
                drawn =
                    drawn-update (d.next_generation + 1) (on ht partition)
                      (taken owner d.next_generation clock (clock + ms)) d.leases
                      (λ r h. ground arith) grown;
              }))
        | inr theirs ↦ rw (found, acquire_row) (rw theirs unclaimed)
      ]
    ]
  where
    grown : All (λ (r : LeaseRow). r.generation < d.next_generation + 1) d.leases
    grown = All-imp (λ r h. omega (arith, h)) d.leases v.drawn

    unclaimed : IsLeased (draw_generation d)
    unclaimed = record { unique = v.unique; drawn = grown }

renew_row-IsLeased :
    (lease : CompactionLease) (ms clock : ℕ) (d : Db)
    → IsLeased d
    → IsLeased (renew_row lease ms clock d).1
unfolding renew_row
renew_row-IsLeased lease ms clock d v =
    elim (Option-cases (find (λ r. same_tenancy lease r && ltb clock r.expires_at) d.leases)) [
      | inl gone ↦ rw (gone, renew_row) v
      | inr (r, found) ↦
          rw (found, renew_row)
            (record {
              unique =
                  update-Unique (λ r. same_tenancy lease r && ltb clock r.expires_at) _ d.leases
                    (λ r. (refl, refl)) v.unique;
              drawn =
                  drawn-update d.next_generation
                    (λ r. same_tenancy lease r && ltb clock r.expires_at)
                    (λ r. record r { expires_at = clock + ms }) d.leases (λ r h. h) v.drawn;
            })
    ]

-- The calls of the lease protocol, each at a time of the database's clock.
pub data Call : Type 0 where
  acquire : (ht : ℕ) (partition : String) (owner ttl clock : ℕ) → Call
  renew : (lease : CompactionLease) (ttl clock : ℕ) → Call
  release : (lease : CompactionLease) → Call

unfoldable pub call : Call → Db → Db
call (acquire ht partition owner ttl clock) d =
    (try_acquire_compaction_lease ht partition owner ttl clock d).1
call (renew lease ttl clock) d = (renew_compaction_lease lease ttl clock d).1
call (release lease) d = (release_compaction_lease lease d).1

unfoldable pub calls : List Call → Db → Db
calls [] d = d
calls (c ∷ cs) d = calls cs (call c d)

-- A call with a `ttl` that is refused does nothing.
pub with_ttl {ℓ} :
    (P : Db → Type ℓ) (ttl : ℕ) {A : Type 0} (f : ℕ → Tx A) (d : Db)
    → P d
    → ((ms : ℕ) → P (f ms d).1)
    → P ((lift (ttl_millis ttl) >>= f) d).1
with_ttl P ttl f d p q = by_result (ttl_millis ttl)
  where
    by_result : (r : Result ℕ) → P ((lift r >>= f) d).1
    by_result (ok ms) = q ms
    by_result (err e) = p

call-IsLeased : (c : Call) (d : Db) → IsLeased d → IsLeased (call c d)
unfolding call try_acquire_compaction_lease renew_compaction_lease release_compaction_lease
call-IsLeased (acquire ht partition owner ttl clock) d v =
    with_ttl IsLeased ttl (λ ms. acquire_row ht partition owner ms clock) d v
      (λ ms. acquire_row-IsLeased ht partition owner ms clock d v)
call-IsLeased (renew lease ttl clock) d v =
    with_ttl IsLeased ttl (λ ms. renew_row lease ms clock) d v
      (λ ms. renew_row-IsLeased lease ms clock d v)
call-IsLeased (release lease) d v = record {
  unique = select-Unique (λ r. not (same_tenancy lease r)) d.leases v.unique;
  drawn = All-select _ (λ r. not (same_tenancy lease r)) d.leases v.drawn;
}

-- Whatever calls are made, in any order and at any times, a partition has one lease row at most,
-- and every generation in the table has been drawn from the sequence.
pub calls-IsLeased : (cs : List Call) (d : Db) → IsLeased d → IsLeased (calls cs d)
unfolding calls
calls-IsLeased [] d v = v
calls-IsLeased (c ∷ cs) d v = calls-IsLeased cs (call c d) (call-IsLeased c d v)
