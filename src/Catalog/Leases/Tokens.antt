-- ===== src/Catalog/Leases/Tokens.antt =====
-- leases.rs: tokens whose tenancy is over.
use ukiel.Base.{
  elem, ℕ, ◌+◌, ◌^◌, ◌≡◌, ◌≢◌, ◌<◌, refl, String, Bool, false, not, ◌&&◌, none, some, List, [], ◌∷◌,
  ◌++◌, arith, ltb, nat_eq, string_eq, any, select, update, Bool-cases, Option-cases, inl, inr,
  find, ap,
}
use ukiel.Catalog.Db.{Db, LeaseRow}
use ukiel.Catalog.Tx.{ok}
use ukiel.Catalog.Leases.{
  CompactionLease, on, takeable, taken, acquire_row, try_acquire_compaction_lease, same_tenancy,
  renew_row, renew_compaction_lease, release_compaction_lease,
}
use ukiel.Catalog.Leases.Exclusion.{Call, acquire, renew, release, call, calls, with_ttl}
use ukiel.Catalog.Leases.Contention.{ttl_millis_valid}

-- No row is of the token's tenancy any more, and its generation has been drawn.
pub record IsOver (lease : CompactionLease) (d : Db) : Type 0 where
  pub gone : any (same_tenancy lease) d.leases ≡ false
  pub drawn : lease.generation < d.next_generation

any-select_self :
    (p : LeaseRow → Bool) (rs : List LeaseRow) → any p (select (λ r. not (p r)) rs) ≡ false
any-select_self p [] = refl
any-select_self p (r ∷ rs) = ground (arith, any-select_self p rs)

any-select-false :
    (p q : LeaseRow → Bool) (rs : List LeaseRow) → any p rs ≡ false → any p (select q rs) ≡ false
any-select-false p q [] h = refl
any-select-false p q (r ∷ rs) h = ground (arith, any-select-false p q rs)

-- An update that makes no row pass.
any-update-false :
    (p q : LeaseRow → Bool) (f : LeaseRow → LeaseRow) (rs : List LeaseRow)
    → ((r : LeaseRow) → p r ≡ false → p (f r) ≡ false)
    → any p rs ≡ false
    → any p (update q f rs) ≡ false
any-update-false p q f [] k h = refl
any-update-false p q f (r ∷ rs) k h = ground (arith, k r, any-update-false p q f rs k)

any-append_false :
    (p : LeaseRow → Bool) (rs : List LeaseRow) (x : LeaseRow)
    → any p rs ≡ false
    → p x ≡ false
    → any p (rs ++ x ∷ []) ≡ false
any-append_false p [] x h g = rw g
any-append_false p (r ∷ rs) x h g = ground (arith, any-append_false p rs x)

-- After a release no row is left of the tenancy.
pub release-IsOver :
    (lease : CompactionLease) (d : Db)
    → lease.generation < d.next_generation
    → IsOver lease (release_compaction_lease lease d).1
unfolding release_compaction_lease
release-IsOver lease d h = record {
  gone = any-select_self (same_tenancy lease) d.leases;
  drawn = h;
}

taken_other :
    (lease : CompactionLease) (owner g clock e : ℕ) (r : LeaseRow)
    → lease.generation < g
    → same_tenancy lease r ≡ false
    → same_tenancy lease (taken owner g clock e r) ≡ false
taken_other lease owner g clock e r h n = ground arith

acquire_row-IsOver :
    (lease : CompactionLease) (ht : ℕ) (partition : String) (owner ms clock : ℕ) (d : Db)
    → IsOver lease d
    → IsOver lease (acquire_row ht partition owner ms clock d).1
unfolding acquire_row
acquire_row-IsOver lease ht partition owner ms clock d v =
    elim (Option-cases (find (on ht partition) d.leases)) [
      | inl free ↦ elim (Bool-cases (elem ht d.hypertables)) [
        | inr unknown ↦
            rw (free, acquire_row)
              (rw unknown (record { gone = v.gone; drawn = omega (arith, v.drawn) }))
        | inl known ↦
            rw (free, acquire_row)
              (rw known (record {
                gone =
                    any-append_false (same_tenancy lease) d.leases _ v.gone
                      (ground (arith, v.drawn));
                drawn = omega (arith, v.drawn);
              }))
      ]
      | inr (r, found) ↦ elim (Bool-cases (takeable owner clock r)) [
        | inl yours ↦
            rw (found, acquire_row)
              (rw yours (record {
                gone =
                    any-update-false (same_tenancy lease) (on ht partition)
                      (taken owner d.next_generation clock (clock + ms)) d.leases
                      (λ r. taken_other lease owner d.next_generation clock (clock + ms) r v.drawn)
                      v.gone;
                drawn = omega (arith, v.drawn);
              }))
        | inr theirs ↦
            rw (found, acquire_row)
              (rw theirs (record { gone = v.gone; drawn = omega (arith, v.drawn) }))
      ]
    ]

renew_row-IsOver :
    (lease other : CompactionLease) (ms clock : ℕ) (d : Db)
    → IsOver lease d
    → IsOver lease (renew_row other ms clock d).1
unfolding renew_row
renew_row-IsOver lease other ms clock d v =
    elim (Option-cases (find (λ r. same_tenancy other r && ltb clock r.expires_at) d.leases)) [
      | inl gone ↦ rw (gone, renew_row) v
      | inr (r, found) ↦
          rw (found, renew_row)
            (record {
              gone =
                  any-update-false (same_tenancy lease)
                    (λ r. same_tenancy other r && ltb clock r.expires_at)
                    (λ r. record r { expires_at = clock + ms }) d.leases (λ r h. h) v.gone;
              drawn = v.drawn;
            })
    ]

call-IsOver :
    (lease : CompactionLease) (c : Call) (d : Db) → IsOver lease d → IsOver lease (call c d)
unfolding call try_acquire_compaction_lease renew_compaction_lease release_compaction_lease
call-IsOver lease (acquire ht partition owner ttl clock) d v =
    with_ttl (IsOver lease) ttl (λ ms. acquire_row ht partition owner ms clock) d v
      (λ ms. acquire_row-IsOver lease ht partition owner ms clock d v)
call-IsOver lease (renew other ttl clock) d v =
    with_ttl (IsOver lease) ttl (λ ms. renew_row other ms clock) d v
      (λ ms. renew_row-IsOver lease other ms clock d v)
call-IsOver lease (release other) d v = record {
  gone = any-select-false (same_tenancy lease) (λ r. not (same_tenancy other r)) d.leases v.gone;
  drawn = v.drawn;
}

-- A tenancy that is over stays over, whatever calls follow: its owner and generation are never
-- handed out together again.
pub calls-IsOver :
    (lease : CompactionLease) (cs : List Call) (d : Db) → IsOver lease d → IsOver lease (calls cs d)
unfolding calls
calls-IsOver lease [] d v = v
calls-IsOver lease (c ∷ cs) d v = calls-IsOver lease cs (call c d) (call-IsOver lease c d v)

find-and_none :
    (p q : LeaseRow → Bool) (rs : List LeaseRow)
    → any p rs ≡ false
    → find (λ r. p r && q r) rs ≡ none
find-and_none p q [] h = refl
find-and_none p q (r ∷ rs) h = ground (arith, find-and_none p q rs)

select-all :
    (p : LeaseRow → Bool) (rs : List LeaseRow) → any p rs ≡ false → select (λ r. not (p r)) rs ≡ rs
select-all p [] h = refl
select-all p (r ∷ rs) h = ground (arith, select-all p rs)

-- A token whose tenancy is over can neither renew nor release, and changes nothing by trying.
pub IsOver-powerless :
    (lease : CompactionLease) (ttl clock : ℕ) (d : Db)
    → 0 < ttl
    → ttl < 2 ^ 63
    → IsOver lease d
    → (renew_compaction_lease lease ttl clock d ≡ (ok none, d))
      × (release_compaction_lease lease d ≡ (ok false, d))
unfolding renew_compaction_lease release_compaction_lease renew_row
IsOver-powerless lease ttl clock d p q v = (
  rw (ttl_millis_valid ttl p q)
      (rw (find-and_none (same_tenancy lease) (λ r. ltb clock r.expires_at) d.leases v.gone) refl),
  rw v.gone (
      ap (λ rs. (ok false, record d { leases = rs }))
        (select-all (same_tenancy lease) d.leases v.gone)),
)

any-update_other :
    (lease : CompactionLease) (owner g clock e : ℕ) (rs : List LeaseRow)
    → owner ≢ lease.owner_id
    → any
        (same_tenancy lease)
        (update (on lease.hypertable_id lease.partition_values) (taken owner g clock e) rs)
      ≡ false
any-update_other lease owner g clock e [] h = refl
any-update_other lease owner g clock e (r ∷ rs) h =
    ground (arith, any-update_other lease owner g clock e rs h)

-- Once another owner got the partition of a token whose generation was drawn, the token's tenancy is
-- over.
pub takeover-IsOver :
    (lease : CompactionLease) (owner ms clock : ℕ) (d : Db) {l : CompactionLease}
    → owner ≢ lease.owner_id
    → lease.generation < d.next_generation
    → (acquire_row lease.hypertable_id lease.partition_values owner ms clock d).0 ≡ ok (some l)
    → IsOver lease (acquire_row lease.hypertable_id lease.partition_values owner ms clock d).1
unfolding acquire_row
takeover-IsOver lease owner ms clock d other drawn got =
    elim (Option-cases (find (on lease.hypertable_id lease.partition_values) d.leases)) [
      | inl free ↦ elim (Bool-cases (elem lease.hypertable_id d.hypertables)) [
        | inr unknown ↦ cc (rw unknown at (rw (free, acquire_row) at got))
        | inl known ↦
            rw (free, acquire_row)
              (rw known (record {
                gone =
                    any-append_false (same_tenancy lease) d.leases _ (none_on d.leases free)
                      (ground arith);
                drawn = omega arith;
              }))
      ]
      | inr (r, found) ↦ elim (Bool-cases (takeable owner clock r)) [
        | inl yours ↦
            rw (found, acquire_row)
              (rw yours (record {
                gone =
                    any-update_other lease owner d.next_generation clock (clock + ms) d.leases
                      other;
                drawn = omega arith;
              }))
        | inr theirs ↦ cc (rw theirs at (rw (found, acquire_row) at got))
      ]
    ]
  where
    none_on :
        (rs : List LeaseRow)
        → find (on lease.hypertable_id lease.partition_values) rs ≡ none
        → any (same_tenancy lease) rs ≡ false
    none_on [] h = refl
    none_on (r ∷ rs) h = ground (arith, none_on rs)
