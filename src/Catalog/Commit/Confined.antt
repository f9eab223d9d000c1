-- ===== src/Catalog/Commit/Confined.antt =====
-- commit.rs: what a compaction swap that committed left alone.
use ukiel.Base.{
  ℕ, ◌+◌, ◌≡◌, ◌≤◌, ◌<◌, refl, ap, ◌∙◌, String, Bool, true, false, not, ◌&&◌, Option, some, List,
  [], ◌∷◌, arith, ◌==◌, nat_eq, string_eq, elem, select, length, All, All-imp, Bool-cases, inl, inr,
  eq_iff, select-append,
}
use mathlib.Core.List.{append-nil}
use ukiel.Base.Order.{Increasing}
use ukiel.Core.Part.{PartMeta}
use ukiel.Core.Commit.{OperationIdentity, committed, replace}
use ukiel.Catalog.Db.{Db, PartRow}
use ukiel.Catalog.Tx.{ok}
use ukiel.Catalog.Feed.{part_key}
use ukiel.Catalog.Parts.{part_row}
use ukiel.Catalog.Leases.{CompactionLease}
use ukiel.Catalog.Invariant.{WellFormed}
use ukiel.Catalog.Commit.{Times, Ack, inside, commit_compaction_replace}
use ukiel.Catalog.Commit.Applied.{applied, retire, register, removed, added}
use ukiel.Catalog.Commit.Outcome.{commit_txn-Went}
use ukiel.Catalog.Commit.Fencing.{Held, replace-Held}

without : ℕ → List ℕ → List ℕ
without x ids = select (λ y. not (y == x)) ids

module _ (x : ℕ) where
  length-without : (ids : List ℕ) → length (without x ids) ≤ length ids
  unfolding without
  length-without [] = omega arith
  length-without (y ∷ ids) = ground (arith, length-without ids)

  length-without_found : (ids : List ℕ) → elem x ids ≡ true → length (without x ids) < length ids
  unfolding without
  length-without_found [] h = ground arith
  length-without_found (y ∷ ids) h = ground (arith, length-without ids, length-without_found ids)

  elem-without : (y : ℕ) (ids : List ℕ) → x < y → elem y (without x ids) ≡ elem y ids
  unfolding without
  elem-without y [] h = refl
  elem-without y (z ∷ ids) h = ground (arith, elem-without y ids)

-- The rows that are named, and those of them that pass a test.
abbrev named : List ℕ → PartRow → Bool
named ids r = elem r.id ids

select-named :
    (x : ℕ) (ids : List ℕ) (rows : List PartRow)
    → All (λ (r : PartRow). x < r.id) rows
    → select (named (without x ids)) rows ≡ select (named ids) rows
select-named x ids [] a = refl
select-named x ids (r ∷ rows) a =
    rw (elem-without x r.id ids a.0) (rw (select-named x ids rows a.1) refl)

-- Ids that are told apart name at most one row each.
named-count :
    (rows : List PartRow) (ids : List ℕ)
    → Increasing part_key rows
    → length (select (named ids) rows) ≤ length ids
named-count [] ids u = omega arith
named-count (r ∷ rows) ids u = elim (Bool-cases (elem r.id ids)) [
  | inr e ↦ rw e (named-count rows ids u.1)
  | inl e ↦
      let fewer : length (select (named (without r.id ids)) rows) ≤ length (without r.id ids) =
        named-count rows (without r.id ids) u.1 in
      rw e (
        omega (
          arith,
          ap length (select-named r.id ids rows u.0),
          fewer,
          length-without_found r.id ids e,
        ))
]

module _ {ℓ} {A : Type ℓ} (p q : A → Bool) (stronger : (x : A) → p x ≡ true → q x ≡ true) where
  select_fewer : (xs : List A) → length (select p xs) ≤ length (select q xs)
  select_fewer [] = omega arith
  select_fewer (x ∷ xs) = ground (arith, stronger x, select_fewer xs)

  -- Where as many pass the stronger test, it is as strong.
  select_all :
      (xs : List A)
      → length (select q xs) ≤ length (select p xs)
      → All (λ x. q x ≡ true → p x ≡ true) xs
  select_all [] h = tt
  select_all (x ∷ xs) h = elim (Bool-cases (p x)) [
    | inl e ↦ (λ _. e, select_all xs (ground (arith, stronger x)))
    | inr e ↦ elim (Bool-cases (q x)) [
      | inr f ↦ (λ g. cc (f, g), select_all xs (ground arith))
      | inl f ↦ absurd (ground (arith, select_fewer xs))
    ]
  ]

-- A row of another partition than the leased one.
abbrev pub outside : ℕ → String → PartRow → Bool
outside ht partition r = not (r.hypertable_id == ht && r.meta.partition_values == partition)

-- What a swap had in hand, and what it left alone: every row that it named is one of the leased
-- partition, and the rows of all other partitions are what they were.
pub record Confined (clock ht : ℕ) (lease : CompactionLease) (old : List ℕ) (new : List PartMeta)
    (d d' : Db) : Type 0 where
  pub held : Held clock ht lease old new d
  pub named_inside :
      All
        (λ (r : PartRow). elem r.id old ≡ true → outside ht lease.partition_values r ≡ false)
        d.parts
  pub elsewhere :
      select (outside ht lease.partition_values) d'.parts
      ≡ select (outside ht lease.partition_values) d.parts

module _ (ht : ℕ) (partition : String) where
  retire-outside :
      (c : ℕ) (ids : List ℕ) (rows : List PartRow)
      → All (λ (r : PartRow). elem r.id ids ≡ true → outside ht partition r ≡ false) rows
      → select (outside ht partition) (retire ht c ids rows) ≡ select (outside ht partition) rows
  retire-outside c ids [] a = refl
  retire-outside c ids (r ∷ rows) a = ground (arith, a.0, retire-outside c ids rows a.1)

  register-outside :
      (decode : String → Option (List ℕ)) (id c : ℕ) (new : List PartMeta)
      → All (λ (p : PartMeta). p.partition_values ≡ partition) new
      → select (outside ht partition) (register decode id ht c new) ≡ []
  unfolding register part_row
  register-outside decode id c [] a = refl
  register-outside decode id c (p ∷ new) a =
      ground (
        arith,
        a.0,
        eq_iff p.partition_values partition,
        register-outside decode (id + 1) c new a.1,
      )

  named_inside :
      (old : List ℕ) (rows : List PartRow)
      → Increasing part_key rows
      → length (select (inside ht partition old) rows) ≡ length old
      → All (λ (r : PartRow). elem r.id old ≡ true → outside ht partition r ≡ false) rows
  named_inside old rows u h =
      All-imp (λ r f e. ground (arith, f e)) rows
        (select_all (inside ht partition old) (named old) (λ r e. ground arith) rows
          (omega (arith, h, named-count rows old u)))

  applied-outside :
      (decode : String → Option (List ℕ)) (now : ℕ) (identity : OperationIdentity) (d : Db)
      (old : List ℕ) (new : List PartMeta)
      → All (λ (r : PartRow). elem r.id old ≡ true → outside ht partition r ≡ false) d.parts
      → All (λ (p : PartMeta). p.partition_values ≡ partition) new
      → select
          (outside ht partition)
          (applied decode now ht (replace old new) (some identity) [] d).parts
        ≡ select (outside ht partition) d.parts
  unfolding applied removed added
  applied-outside decode now identity d old new names comes =
      select-append (outside ht partition) (retire ht d.next_commit old d.parts)
        (register decode d.next_part ht d.next_commit new)
      ∙ rw
          (
            retire-outside d.next_commit old d.parts names,
            register-outside decode d.next_part d.next_commit new comes,
          )
          (append-nil _)

-- A compaction swap that commits held, at the database's clock, the very tenancy it was called with,
-- and brought parts of the leased partition alone; every part that it named is in that partition,
-- and every other partition has the rows that it had, if the ids are in order.
pub commit_compaction_replace-Confined :
    (decode : String → Option (List ℕ)) (ack : Ack) (t : Times) (ht : ℕ) (lease : CompactionLease)
    (old : List ℕ) (new : List PartMeta) (identity : OperationIdentity) (d d' : Db) (c : ℕ)
    → WellFormed d
    → commit_compaction_replace decode ack t ht lease old new identity d ≡ (ok (committed c), d')
    → Confined t.clock ht lease old new d d'
unfolding commit_compaction_replace
commit_compaction_replace-Confined decode ack t ht lease old new identity d d' c ordered h =
    let partition = lease.partition_values in
    let held = replace-Held decode ack t ht lease old new identity d d' c h in
    let names = named_inside ht partition old d.parts ordered.parts_ordered held.old_inside in
    let went =
      commit_txn-Went decode t ht (replace old new) (some identity) [] (some lease) ack d d' c h in
    record {
      held = held;
      named_inside = names;
      elsewhere =
          ap (λ (x : Db). select (outside ht partition) x.parts) went.effect
          ∙ applied-outside ht partition decode t.now identity d old new names held.new_inside;
    }
