-- ===== src/Catalog/Invariant.antt =====
-- The order of the ids in the tables, and of the events in the life of a part.
use ukiel.Base.{
  ◌≡◌, refl, subst, sym, String, ℕ, ◌+◌, ◌≤◌, ◌<◌, Option, none, some, List, [], ◌∷◌, arith, inl,
  inr, All, All-imp, All-append, All-update, length, nat_eq, Bool-cases,
}
use ukiel.Base.Order.{Increasing, append_one-Increasing, append-Increasing, update-Increasing}
use ukiel.Core.Part.{PartMeta}
use ukiel.Core.Commit.{CommitOp, OperationIdentity, kind}
use ukiel.Catalog.Db.{Db, CommitRow, PartRow, fresh}
use ukiel.Catalog.Feed.{commit_key, part_key}
use ukiel.Catalog.Parts.{part_row, targets}
use ukiel.Catalog.Offsets.{OffsetRange}
use ukiel.Catalog.Leases.{CompactionLease}
use ukiel.Catalog.Commit.{Ack, Times, commit_row, commit_txn}
use ukiel.Catalog.Commit.Applied.{applied, retire, register, removed, added}
use ukiel.Catalog.Commit.Atomicity.{Drawn, commit_txn-Durable}

abbrev pub Ended : ℕ → ℕ → Option ℕ → Type 0
Ended created next none = Unit
Ended created next (some c) = (created < c) × (c < next)

-- A part was created by a commit whose id is drawn, and deleted, if it was, by a later one.
abbrev pub Lived : ℕ → PartRow → Type 0
Lived next p = (p.created_by_commit < next) × Ended p.created_by_commit next p.deleted_by_commit

pub record WellFormed (d : Db) : Type 0 where
  pub commits_ordered : Increasing commit_key d.commits
  pub commits_drawn : All (λ (c : CommitRow). c.id < d.next_commit) d.commits
  pub parts_ordered : Increasing part_key d.parts
  pub parts_drawn : All (λ (p : PartRow). p.id < d.next_part) d.parts
  pub lives : All (Lived d.next_commit) d.parts

pub fresh-WellFormed : (hypertables : List ℕ) → WellFormed (fresh hypertables)
fresh-WellFormed hypertables = record {
  commits_ordered = tt;
  commits_drawn = tt;
  parts_ordered = tt;
  parts_drawn = tt;
  lives = tt;
}

Ended-later : (created a b : ℕ) → a ≤ b → (o : Option ℕ) → Ended created a o → Ended created b o
Ended-later created a b h none e = tt
Ended-later created a b h (some c) e = (e.0, omega (arith, e.1))

Lived-later : (a b : ℕ) → a ≤ b → (p : PartRow) → Lived a p → Lived b p
Lived-later a b h p l =
    (omega (arith, l.0), Ended-later p.created_by_commit a b h p.deleted_by_commit l.1)

module _ (decode : String → Option (List ℕ)) (ht c : ℕ) where
  register-above :
      (id : ℕ) (ps : List PartMeta) (low : ℕ)
      → low ≤ id
      → All (λ (p : PartRow). low ≤ p.id) (register decode id ht c ps)
  unfolding register part_row
  register-above id [] low h = tt
  register-above id (p ∷ ps) low h = (h, register-above (id + 1) ps low (omega arith))

  register-below :
      (id : ℕ) (ps : List PartMeta) (high : ℕ)
      → id + length ps ≤ high
      → All (λ (p : PartRow). p.id < high) (register decode id ht c ps)
  unfolding register part_row
  register-below id [] high h = tt
  register-below id (p ∷ ps) high h = (omega arith, register-below (id + 1) ps high (omega arith))

  register-Increasing :
      (id : ℕ) (ps : List PartMeta) → Increasing part_key (register decode id ht c ps)
  unfolding register part_row
  register-Increasing id [] = tt
  register-Increasing id (p ∷ ps) = (
    All-imp (λ y h. omega (arith, h)) (register decode (id + 1) ht c ps)
        (register-above (id + 1) ps (id + 1) (omega arith)),
    register-Increasing (id + 1) ps,
  )

  register-Lived : (id : ℕ) (ps : List PartMeta) → All (Lived (c + 1)) (register decode id ht c ps)
  unfolding register part_row
  register-Lived id [] = tt
  register-Lived id (p ∷ ps) = ((omega arith, tt), register-Lived (id + 1) ps)

  -- A part that is live now ends with this commit.
  retire-Lived :
      (ids : List ℕ) (rows : List PartRow)
      → All (Lived c) rows
      → All (Lived (c + 1)) (retire ht c ids rows)
  retire-Lived ids [] l = tt
  retire-Lived ids (r ∷ rows) l =
      let rest = retire-Lived ids rows l.1 in
      let kept = Lived-later c (c + 1) (omega arith) r l.0 in
      elim (Bool-cases (targets ht ids r)) [
        | inl e ↦ rw e ((omega (arith, l.0.0), (l.0.0, omega arith)), rest)
        | inr e ↦ rw e (kept, rest)
      ]

module _ (decode : String → Option (List ℕ)) where
  pub applied-WellFormed :
      (now ht : ℕ) (op : CommitOp) (identity : Option OperationIdentity)
      (offsets : List OffsetRange) (d : Db)
      → WellFormed d
      → WellFormed (applied decode now ht op identity offsets d)
  unfolding applied
  applied-WellFormed now ht op identity offsets d w =
      let c = d.next_commit in
      let ps = added op in
      let retired = λ (r : PartRow). record r { deleted_by_commit = some c } in
      let below : All (λ (p : PartRow). p.id < d.next_part) (retire ht c (removed op) d.parts) =
        All-update (λ (p : PartRow). p.id < d.next_part) (targets ht (removed op)) retired
          (λ p h. h) d.parts w.parts_drawn in
      record {
        commits_ordered =
            append_one-Increasing commit_key d.commits (commit_row c now ht (kind op) identity)
              w.commits_ordered w.commits_drawn;
        commits_drawn =
            All-append (λ (x : CommitRow). x.id < c + 1) d.commits _
              (All-imp (λ x h. omega (arith, h)) d.commits w.commits_drawn) (omega arith, tt);
        parts_ordered =
            append-Increasing part_key d.next_part (retire ht c (removed op) d.parts)
              (register decode d.next_part ht c ps)
              (update-Increasing part_key (targets ht (removed op)) retired (λ p. refl) d.parts
                w.parts_ordered)
              below (register-Increasing decode ht c d.next_part ps)
              (register-above decode ht c d.next_part ps d.next_part (omega arith));
        parts_drawn =
            All-append (λ (p : PartRow). p.id < d.next_part + length ps)
              (retire ht c (removed op) d.parts) _
              (All-imp (λ p h. omega (arith, h)) (retire ht c (removed op) d.parts) below)
              (register-below decode ht c d.next_part ps (d.next_part + length ps) (omega arith));
        lives =
            All-append (Lived (c + 1)) (retire ht c (removed op) d.parts) _
              (retire-Lived decode ht c (removed op) d.parts w.lives)
              (register-Lived decode ht c d.next_part ps);
      }

  rolled_back-WellFormed :
      (d d' : Db)
      → d' ≡ record d { sequences = d'.sequences }
      → Drawn d d'
      → WellFormed d
      → WellFormed d'
  rolled_back-WellFormed d d' same n w =
      subst (λ x. WellFormed x) (sym same)
        (record {
          commits_ordered = w.commits_ordered;
          commits_drawn = All-imp (λ x h. omega (arith, h, n.commits)) d.commits w.commits_drawn;
          parts_ordered = w.parts_ordered;
          parts_drawn = All-imp (λ p h. omega (arith, h, n.parts)) d.parts w.parts_drawn;
          lives = All-imp (Lived-later d.next_commit d'.next_commit n.commits) d.parts w.lives;
        })

  -- Every transaction, whatever its answer and whatever becomes of its `COMMIT`, keeps the ids of
  -- commits and of parts in the order they were drawn in, and each part's creation before its
  -- deletion.
  pub commit_txn-WellFormed :
      (ack : Ack) (t : Times) (ht : ℕ) (op : CommitOp) (identity : Option OperationIdentity)
      (offsets : List OffsetRange) (lease : Option CompactionLease) (d : Db)
      → WellFormed d
      → WellFormed (commit_txn decode ack t ht op identity offsets lease d).1
  commit_txn-WellFormed ack t ht op identity offsets lease d w =
      let d' = (commit_txn decode ack t ht op identity offsets lease d).1 in
      elim (commit_txn-Durable decode t ht op identity offsets lease ack d) [
        | inl r ↦ rolled_back-WellFormed d d' r.tables r.drawn w
        | inr (allowed, effect) ↦
            subst (λ x. WellFormed x) (sym effect)
              (applied-WellFormed t.now ht op identity offsets d w)
      ]
