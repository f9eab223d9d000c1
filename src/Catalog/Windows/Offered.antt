-- ===== src/Catalog/Windows/Offered.antt =====
-- parts.rs: what a sweep is offered.
use ukiel.Base.{
  elem, ℕ, zero, suc, ◌^◌, ◌≡◌, ◌<◌, refl, sym, ap, subst, String, Bool, true, false, not, ◌&&◌,
  Option, none, some, List, [], ◌∷◌, map, arith, ltb, ◌==◌, nat_eq, any, find, select, take, All,
  All-imp, All-select, select-passes, Bool-cases, inl, inr,
}
use ukiel.Base.Sort.{Order, sort, sort-All}
use ukiel.Catalog.Db.{Db, LeaseRow}
use ukiel.Catalog.Tx.{ok}
use ukiel.Catalog.Leases.{CompactionLease, on, try_acquire_compaction_lease}
use ukiel.Catalog.Leases.Contention.{Contended, acquire_cases}
use ukiel.Catalog.Windows.{
  last_cursor, present, from_rows, peer_holds, beyond, window_of, joined, window_sql, triggered,
  live_partitions, finalizable, compaction_candidates, finalize_candidates,
}

take-All {ℓ κ} : {A : Type ℓ} (P : A → Type κ) (n : ℕ) (xs : List A) → All P xs → All P (take n xs)
take-All P zero xs a = tt
take-All P (suc n) [] a = tt
take-All P (suc n) (x ∷ xs) a = (a.0, take-All P n xs a.1)

All-both {ℓ κ μ} :
    {A : Type ℓ} (P : A → Type κ) (Q : A → Type μ) (xs : List A)
    → All P xs
    → All Q xs
    → All (λ x. P x × Q x) xs
All-both P Q [] a b = tt
All-both P Q (x ∷ xs) a b = ((a.0, b.0), All-both P Q xs a.1 b.1)

abbrev pub last : List String → Option String
last [] = none
last (p ∷ []) = some p
last (p ∷ q ∷ ps) = last (q ∷ ps)

find_of_any :
    (p q : LeaseRow → Bool) (ls : List LeaseRow) (l : LeaseRow)
    → any (λ l. p l && q l) ls ≡ false
    → find p ls ≡ some l
    → q l ≡ false
find_of_any p q [] l h g = cc
find_of_any p q (x ∷ ls) l h g = ground (arith, find_of_any p q ls l)

not-Contended :
    (ht owner clock : ℕ) (d : Db) (p : String)
    → peer_holds ht owner clock d p ≡ false
    → ¬ Contended ht p owner clock d
not-Contended ht owner clock d p free c =
    elim (Bool-cases (ltb clock c.row.expires_at && not (c.row.owner_id == owner))) [
      | inl b ↦ cc (
        b,
        find_of_any (on ht p) (λ l. ltb clock l.expires_at && not (l.owner_id == owner)) d.leases
            c.row free c.found,
      )
      | inr b ↦ c.peer (ground (arith, c.unexpired))
    ]

-- What every partition of a window is: eligible, free of peers and after the cursor.
module _ ⦃o : Order String⦄ where
  pub present-joined : (e l : ℕ) (ps : List String) → present (joined e l ps) ≡ ps
  present-joined e l [] = refl
  present-joined e l (p ∷ ps) = ap (λ qs. p ∷ qs) (rest ps)
    where
      rest :
          (qs : List String)
          → present (
              map
                (λ q. record {
                  eligible = e;
                  leased = l;
                  partition_values = some q;
                  cursor = some q;
                })
                qs)
            ≡ qs
      rest [] = refl
      rest (q ∷ qs) = ap (λ rs. q ∷ rs) (rest qs)

  pub last-joined : (e l : ℕ) (ps : List String) → last_cursor (joined e l ps) ≡ last ps
  last-joined e l [] = refl
  last-joined e l (p ∷ []) = refl
  last-joined e l (p ∷ q ∷ ps) = last-joined e l (q ∷ ps)

  abbrev passes : (String → Bool) → Option String → String → Bool
  passes held after p = not (held p) && beyond after p

  abbrev Both {κ} : (String → Type κ) → (String → Bool) → String → Type κ
  Both P test p = P p × (test p ≡ true)

  window_of-All {κ} :
      (P : String → Type κ) (held : String → Bool) (eligible : List String) (limit : ℕ)
      (after : Option String)
      → All P eligible
      → All (Both P (passes held after)) (window_of held eligible limit after)
  window_of-All P held eligible limit after a =
      take-All (Both P (passes held after)) limit (sort (select (passes held after) eligible)) (
        sort-All (Both P (passes held after)) (select (passes held after) eligible) (
          All-both P (λ p. passes held after p ≡ true) (select (passes held after) eligible)
            (All-select P (passes held after) eligible a)
            (select-passes (passes held after) eligible)))

module _ ⦃o : Order String⦄ (ht owner ttl clock : ℕ) (after : Option String) (d : Db) where
  -- An eligible partition after the cursor that a claim at this time gets.
  abbrev pub Claimed : (String → Bool) → String → Type 0
  Claimed test p =
      (test p ≡ true)
      × (beyond after p ≡ true)
      × ((l : CompactionLease) × ((try_acquire_compaction_lease ht p owner ttl clock d).0
            ≡ ok (some l)))

  claims :
      elem ht d.hypertables ≡ true
      → 0 < ttl
      → ttl < 2 ^ 63
      → (p : String) → peer_holds ht owner clock d p ≡ false
      → (l : CompactionLease) × ((try_acquire_compaction_lease ht p owner ttl clock d).0
          ≡ ok (some l))
  claims known pos_ttl small p free = elim (acquire_cases ht p owner ttl clock d pos_ttl small) [
    | inl (_, contended, _) ↦ elim (not-Contended ht owner clock d p free contended) [ ]
    | inr (inl (l, got, _, _)) ↦ (l, got)
    | inr (inr orphan) ↦ cc (known, orphan.unknown)
  ]

  window-Claimed :
      elem ht d.hypertables ≡ true
      → 0 < ttl
      → ttl < 2 ^ 63
      → (test : String → Bool) (candidates : List String) (limit : ℕ)
      → All
          (Claimed test)
          (from_rows (window_sql ht owner clock d (select test candidates) limit after)).partitions
  unfolding from_rows window_sql
  window-Claimed known pos_ttl small test candidates limit =
      subst (All (Claimed test)) (sym (present-joined _ _ _)) (
        All-imp (λ p h. (h.0, ground arith, claims known pos_ttl small p (ground arith)))
          (window_of (peer_holds ht owner clock d) (select test candidates) limit after)
          (window_of-All (λ p. test p ≡ true) (peer_holds ht owner clock d) (select test candidates)
            limit after (select-passes test candidates)))

  -- Every partition of a known hypertable that the ladder's sweep is offered has a level that reached its trigger, lies
  -- after the cursor, and a claim of it at the time of the query, with a valid time to live, gets a
  -- lease.
  pub compaction_candidates-Claimed :
      elem ht d.hypertables ≡ true
      → 0 < ttl
      → ttl < 2 ^ 63
      → (l0_fanout fanout limit : ℕ)
      → All
          (Claimed (triggered ht l0_fanout fanout d))
          (compaction_candidates ht owner l0_fanout fanout limit after clock d).partitions
  unfolding compaction_candidates
  compaction_candidates-Claimed known pos_ttl small l0_fanout fanout limit =
      window-Claimed known pos_ttl small (triggered ht l0_fanout fanout d) (live_partitions ht d)
        limit

  -- The same of the finalizing sweep: two live runs at least, and no arrival in the quiet time.
  finalize_candidates-Claimed :
      elem ht d.hypertables ≡ true
      → 0 < ttl
      → ttl < 2 ^ 63
      → (quiet limit now : ℕ)
      → All
          (Claimed (finalizable ht now quiet d))
          (finalize_candidates ht owner quiet limit after now clock d).partitions
  unfolding finalize_candidates
  finalize_candidates-Claimed known pos_ttl small quiet limit now =
      window-Claimed known pos_ttl small (finalizable ht now quiet d) (live_partitions ht d) limit
